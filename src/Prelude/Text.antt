-- ===== src/Prelude/Text.antt =====
-- Python's `<` on strings: code points, compared from the left.
use Prim.Native.Char.{code}
use Prim.Native.String.{String, [], ◌∷◌}
use mathlib.Core.Path.{◌≡◌, refl, ap₂}
use mathlib.Core.Bool.{Bool, true, false, ◌&&◌, ◌||◌}
use native.Mathlib.Omega.{arith}
use text.Mathlib.TextEquality.{Char-path}
use ifstate.Prelude.Tests.{ltb, nat_beq}

unfoldable pub str_lt : String → String → Bool
str_lt [] [] = false
str_lt [] (d ∷ t) = true
str_lt (c ∷ s) [] = false
str_lt (c ∷ s) (d ∷ t) = ltb (code c) (code d) || (nat_beq (code c) (code d) && str_lt s t)

pub str_lt_irrefl : (s : String) → str_lt s s ≡ false
unfolding str_lt
str_lt_irrefl [] = refl
str_lt_irrefl (c ∷ s) = ground (arith, str_lt_irrefl s)

pub str_lt_trans : (s t u : String) → str_lt s t ≡ true → str_lt t u ≡ true → str_lt s u ≡ true
unfolding str_lt
str_lt_trans [] [] u h k = ground arith
str_lt_trans [] (d ∷ t) [] h k = ground arith
str_lt_trans [] (d ∷ t) (e ∷ u) h k = refl
str_lt_trans (c ∷ s) [] u h k = ground arith
str_lt_trans (c ∷ s) (d ∷ t) [] h k = ground arith
str_lt_trans (c ∷ s) (d ∷ t) (e ∷ u) h k = ground (arith, str_lt_trans s t u)

-- Two strings of which neither is below the other are equal.
pub str_lt_total : (s t : String) → str_lt s t ≡ false → str_lt t s ≡ false → s ≡ t
unfolding str_lt
str_lt_total [] [] h k = refl
str_lt_total [] (d ∷ t) h k = ground arith
str_lt_total (c ∷ s) [] h k = ground arith
str_lt_total (c ∷ s) (d ∷ t) h k =
    ap₂ (λ a b. a ∷ b) (Char-path c d (ground arith))
      (str_lt_total s t (ground arith) (ground arith))
