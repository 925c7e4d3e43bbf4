-- ===== src/Tc/Handle.antt =====
-- `int2handle` and `handle2int` of libifstate/tc/__init__.py: the text and the number of a handle.
use Prim.Native.Char.{code}
use ifstate.Prelude.{
  ℕ, zero, suc, ◌*◌, ◌/◌, ◌%◌, ◌^◌, ◌<◌, ◌≡◌, refl, sym, ap, ◌∙◌, String, false, Option, none, some,
  List, [], ◌∷◌, arith, if◌then◌else◌, ltb, ◌==◌, number_key, text_key, bit_or, bit_or-disjoint,
  Bool-cases, inl, inr,
}
use ifstate.Prelude.Numeral.{
  digit, digit_value, digit_value-digit, show, show_before, read, read-show,
}
use ifstate.Value.{Value, num, text}

-- `s + t`
unfoldable pub concat : String → String → String
concat String.[] t = t
concat (String.◌∷◌ c s) t = String.◌∷◌ c (concat s t)

-- `s.split(':')`, as its first word and the other words
unfoldable pub split : String → String × List String
split String.[] = ("", [])
split (String.◌∷◌ c s) =
    let (word, words) = split s in
    if code c == 58 then ("", word ∷ words) else (String.◌∷◌ c word, words)

unfoldable pub int2handle : ℕ → String
unfolding concat
int2handle h =
    let minor = h % 65536 in
    concat (show 16 (h / 65536 % 65536)) (concat ":" (if minor == 0 then "" else show 16 minor))

abbrev pub root_handle : ℕ
root_handle = 4294967295

-- `int(l[0], 16) << 16 | int(l[1], 16)` of the words `l`, an empty second one being zero. `none` is an
-- exception: a text without a colon or one that is no number. A number is taken as its digits alone,
-- without the sign, the prefix and the spaces that `int` takes too.
unfoldable pub from_words : String × List String → Option ℕ
from_words (major, []) = none
from_words (major, minor ∷ rest) = elim (read 16 major) [
  | none ↦ none
  | some a ↦ elim (read 16 (if minor == "" then "0" else minor)) [
    | none ↦ none
    | some b ↦ some (bit_or (a * 2 ^ 16) b)
  ]
]

unfoldable pub handle2int : Value → Option ℕ
unfolding split from_words
handle2int (num n) = some n
handle2int (text s) = if s == "root" then some root_handle else from_words (split s)
handle2int _ = none

digit_no_colon : (d : ℕ) → d < 16 → (code (digit d) == 58) ≡ false
unfolding digit_value
digit_no_colon d h = ground (arith, digit_value-digit d h)

concat-show_before :
    (f n : ℕ) (rest t : String)
    → concat (show_before f 16 n rest) t ≡ show_before f 16 n (concat rest t)
unfolding show_before concat
concat-show_before zero n rest t = refl
concat-show_before (suc f) n rest t =
    ground (arith, concat-show_before f (n / 16) (String.◌∷◌ (digit (n % 16)) rest) t)

split-digit :
    (d : ℕ) (s w : String) (ws : List String)
    → d < 16
    → split s ≡ (w, ws)
    → split (String.◌∷◌ (digit d) s) ≡ (String.◌∷◌ (digit d) w, ws)
unfolding split
split-digit d s w ws h e = rw (e, digit_no_colon d h) refl

split-show_before :
    (f n : ℕ) (rest w : String) (ws : List String)
    → split rest ≡ (w, ws)
    → split (show_before f 16 n rest) ≡ (show_before f 16 n w, ws)
unfolding show_before
split-show_before zero n rest w ws e = e
split-show_before (suc f) n rest w ws e = elim (Bool-cases (ltb n 16)) [
  | inl last ↦ rw last (split-digit n rest w ws (ground arith) e)
  | inr more ↦ rw more (
      split-show_before f (n / 16) (String.◌∷◌ (digit (n % 16)) rest)
        (String.◌∷◌ (digit (n % 16)) w) ws (split-digit (n % 16) rest w ws (omega arith) e))
]

-- A number in front of a colon is the first word.
split-concat-show :
    (n : ℕ) (t w : String) (ws : List String)
    → split t ≡ (w, ws)
    → split (concat (show 16 n) (concat ":" t)) ≡ (show 16 n, w ∷ ws)
unfolding show concat split
split-concat-show n t w ws e =
    ap split (concat-show_before (suc n) n "" (concat ":" t))
    ∙ split-show_before (suc n) n (concat ":" t) "" (w ∷ ws) (rw e refl)

split-show : (n : ℕ) → split (show 16 n) ≡ (show 16 n, [])
unfolding show split
split-show n = split-show_before (suc n) n "" "" [] refl

show-ne-nil : (n : ℕ) → (show 16 n == "") ≡ false
unfolding read
show-ne-nil n = elim (Bool-cases (show 16 n == "")) [
  | inr differs ↦ differs
  | inl same ↦
      let nothing : read 16 "" ≡ some n =
        ap (read 16) (sym ((text_key.same_iff (show 16 n) "").0 same))
        ∙ read-show 16 (omega arith) (omega arith) n in
      cc
]

-- the text behind the colon
abbrev tail : ℕ → String
tail minor = if minor == 0 then "" else show 16 minor

read-tail : (minor : ℕ) → read 16 (if tail minor == "" then "0" else tail minor) ≡ some minor
unfolding read
read-tail minor = elim (Bool-cases (minor == 0)) [
  | inl zero' ↦ let e : minor ≡ 0 = ground arith in rw e refl
  | inr more ↦ rw (more, show-ne-nil minor) (read-show 16 (omega arith) (omega arith) minor)
]

split-tail : (minor : ℕ) → split (tail minor) ≡ (tail minor, [])
unfolding split
split-tail minor = elim (Bool-cases (minor == 0)) [
  | inl zero' ↦ rw zero' refl
  | inr more ↦ rw more (split-show minor)
]

words : (h : ℕ) → split (int2handle h) ≡ (show 16 (h / 65536 % 65536), tail (h % 65536) ∷ [])
unfolding int2handle
words h =
    split-concat-show (h / 65536 % 65536) (tail (h % 65536)) (tail (h % 65536)) []
      (split-tail (h % 65536))

no_root : (h : ℕ) → (int2handle h == "root") ≡ false
unfolding split
no_root h = elim (Bool-cases (int2handle h == "root")) [
  | inr differs ↦ differs
  | inl same ↦
      let root : split (int2handle h) ≡ ("root", []) =
        ap split ((text_key.same_iff (int2handle h) "root").0 same) in
      let clash : tail (h % 65536) ∷ [] ≡ [] = ap (λ p. p.1) (sym (words h) ∙ root) in cc clash
]

from_words_lem :
    (major minor : String) (a b : ℕ)
    → read 16 major ≡ some a
    → read 16 (if minor == "" then "0" else minor) ≡ some b
    → from_words (major, minor ∷ []) ≡ some (bit_or (a * 2 ^ 16) b)
unfolding from_words
from_words_lem major minor a b p q = ground (arith, p, q)

-- The text that int2handle makes of a number of 32 bits is read back by handle2int as the number.
pub handle2int-int2handle : (h : ℕ) → h < 2 ^ 32 → handle2int (text (int2handle h)) ≡ some h
unfolding handle2int
handle2int-int2handle h small =
    let major = h / 65536 % 65536 in
    let minor = h % 65536 in
    let joined : bit_or (major * 2 ^ 16) minor ≡ h =
      bit_or-disjoint 16 major minor (omega arith) ∙ omega arith in
    rw (no_root h) (
      ap from_words (words h)
      ∙ from_words_lem (show 16 major) (tail minor) major minor
          (read-show 16 (omega arith) (omega arith) major) (read-tail minor)
      ∙ ap some joined)
