-- ===== src/Prelude/Numeral.antt =====
-- Python's `str(n)`, `"{:x}".format(n)`, `int(s)` and `int(s, 16)` on natural numbers.
use Prim.Native.Nat.{ℕ, zero, suc, ◌+◌, ◌-◌, ◌*◌, ◌/◌, ◌%◌, ◌<◌, ◌≤◌}
use Prim.Native.Char.{Char, code}
use Prim.Native.String.{String, [], ◌∷◌}
use mathlib.Core.Path.{◌≡◌, refl, ap, ◌∙◌}
use mathlib.Core.Logic.{inl, inr}
use mathlib.Core.Bool.{false, ◌&&◌}
use mathlib.Core.Option.{Option, none, some}
use native.Mathlib.Nat.{mod-lt, div-add-mod', div-lt_self}
use native.Mathlib.Omega.{arith}
use ifstate.Prelude.Tests.{ltb, leb, if◌then◌else◌, Bool-cases}

-- "0" to "f"
unfoldable pub digit : ℕ → Char
digit zero = "0"
digit (suc zero) = "1"
digit (suc (suc zero)) = "2"
digit (suc (suc (suc zero))) = "3"
digit (suc (suc (suc (suc zero)))) = "4"
digit (suc (suc (suc (suc (suc zero))))) = "5"
digit (suc (suc (suc (suc (suc (suc zero)))))) = "6"
digit (suc (suc (suc (suc (suc (suc (suc zero))))))) = "7"
digit (suc (suc (suc (suc (suc (suc (suc (suc zero)))))))) = "8"
digit (suc (suc (suc (suc (suc (suc (suc (suc (suc zero))))))))) = "9"
digit (suc (suc (suc (suc (suc (suc (suc (suc (suc (suc zero)))))))))) = "a"
digit (suc (suc (suc (suc (suc (suc (suc (suc (suc (suc (suc zero))))))))))) = "b"
digit (suc (suc (suc (suc (suc (suc (suc (suc (suc (suc (suc (suc zero)))))))))))) = "c"
digit (suc (suc (suc (suc (suc (suc (suc (suc (suc (suc (suc (suc (suc zero))))))))))))) = "d"
digit (suc (suc (suc (suc (suc (suc (suc (suc (suc (suc (suc (suc (suc (suc zero)))))))))))))) = "e"
digit _ = "f"

-- the value of a digit, in upper or lower case
unfoldable pub digit_value : Char → Option ℕ
digit_value c =
    if leb 48 (code c) && leb (code c) 57
    then some (code c - 48)
    else if leb 97 (code c) && leb (code c) 102
    then some (code c - 87)
    else if leb 65 (code c) && leb (code c) 70
    then some (code c - 55)
    else none

-- the digits of `n` in front of `rest`
unfoldable pub show_before : ℕ → ℕ → ℕ → String → String
show_before zero b n rest = rest
show_before (suc f) b n rest =
    let more = show_before f b (n / b) (digit (n % b) ∷ rest) in
    if ltb n b then digit n ∷ rest else more

unfoldable pub show : ℕ → ℕ → String
unfolding show_before digit
show b n = show_before (suc n) b n []

-- the digits behind a number read so far
unfoldable pub read_digits : ℕ → ℕ → String → Option ℕ
read_digits b n [] = some n
read_digits b n (c ∷ s) = elim (digit_value c) [
  | none ↦ none
  | some d ↦ let rest = read_digits b (n * b + d) s in if ltb d b then rest else none
]

-- The empty text is no number.
unfoldable pub read : ℕ → String → Option ℕ
unfolding read_digits digit_value
read b [] = none
read b (c ∷ s) = read_digits b 0 (c ∷ s)

pub digit_value-digit : (d : ℕ) → d < 16 → digit_value (digit d) ≡ some d
unfolding digit digit_value
digit_value-digit zero h = refl
digit_value-digit (suc zero) h = refl
digit_value-digit (suc (suc zero)) h = refl
digit_value-digit (suc (suc (suc zero))) h = refl
digit_value-digit (suc (suc (suc (suc zero)))) h = refl
digit_value-digit (suc (suc (suc (suc (suc zero))))) h = refl
digit_value-digit (suc (suc (suc (suc (suc (suc zero)))))) h = refl
digit_value-digit (suc (suc (suc (suc (suc (suc (suc zero))))))) h = refl
digit_value-digit (suc (suc (suc (suc (suc (suc (suc (suc zero)))))))) h = refl
digit_value-digit (suc (suc (suc (suc (suc (suc (suc (suc (suc zero))))))))) h = refl
digit_value-digit (suc (suc (suc (suc (suc (suc (suc (suc (suc (suc zero)))))))))) h = refl
digit_value-digit (suc (suc (suc (suc (suc (suc (suc (suc (suc (suc (suc zero))))))))))) h = refl
digit_value-digit (suc (suc (suc (suc (suc (suc (suc (suc (suc (suc (suc (suc zero)))))))))))) h =
    refl
digit_value-digit (suc (suc (suc (suc (suc (suc (suc (suc (suc (suc (suc (suc (suc zero)))))))))))))
      h =
    refl
digit_value-digit
      (suc (suc (suc (suc (suc (suc (suc (suc (suc (suc (suc (suc (suc (suc zero)))))))))))))) h =
    refl
digit_value-digit
      (suc (suc (suc (suc (suc (suc (suc (suc (suc (suc (suc (suc (suc (suc (suc zero)))))))))))))))
      h =
    refl
digit_value-digit
      (suc
        (suc (suc (suc (suc (suc (suc (suc (suc (suc (suc (suc (suc (suc (suc (suc n))))))))))))))))
      h =
    absurd (omega arith)

module _ (b : ℕ) (big : 1 < b) (small : b ≤ 16) where
  read-digit :
      (d n : ℕ) (s : String) → d < b → read_digits b n (digit d ∷ s) ≡ read_digits b (n * b + d) s
  unfolding read_digits
  read-digit d n s h = ground (arith, digit_value-digit d (omega arith))

  read-show_before :
      (f n : ℕ) (rest : String)
      → n < f
      → read_digits b 0 (show_before f b n rest) ≡ read_digits b n rest
  unfolding show_before
  read-show_before zero n rest h = absurd (omega arith)
  read-show_before (suc f) n rest h = elim (Bool-cases (ltb n b)) [
    | inl last ↦ rw last (read-digit n 0 rest (ground arith) ∙ rw (zero_mul_add n b))
    | inr more ↦
        rw (more, show_before)
          (read-show_before f (n / b) (digit (n % b) ∷ rest) (div_small more)
            ∙ read-digit (n % b) (n / b) rest (mod-lt n (omega arith))
            ∙ ap (λ k. read_digits b k rest) div_mod)
  ]
    where
      zero_mul_add : (n b : ℕ) → 0 * b + n ≡ n
      zero_mul_add n b = omega arith

      div_small : ltb n b ≡ false → n / b < f
      div_small more = omega (arith, div-lt_self {n = n} {k = b} (ground arith) big)

      div_mod : n / b * b + n % b ≡ n
      div_mod = div-add-mod' n b

  read-cons :
      (f n : ℕ) (c : Char) (rest : String)
      → read b (show_before f b n (c ∷ rest)) ≡ read_digits b 0 (show_before f b n (c ∷ rest))
  unfolding read show_before
  read-cons zero n c rest = refl
  read-cons (suc f) n c rest = elim (Bool-cases (ltb n b)) [
    | inl last ↦ rw last
    | inr more ↦ rw more (read-cons f (n / b) (digit (n % b)) (c ∷ rest))
  ]

  read-nonempty : (n : ℕ) → read b (show b n) ≡ read_digits b 0 (show_before (suc n) b n [])
  unfolding read show
  read-nonempty n = elim (Bool-cases (ltb n b)) [
    | inl last ↦ rw (last, show_before)
    | inr more ↦ rw (more, show_before) (read-cons n (n / b) (digit (n % b)) [])
  ]

  -- A number that was printed reads back.
  pub read-show : (n : ℕ) → read b (show b n) ≡ some n
  unfolding read_digits
  read-show n = read-nonempty n ∙ read-show_before (suc n) n [] (omega arith)
