-- ===== src/Prelude/Bits.antt =====
-- `|` of Python on natural numbers: what it is where the bits of the two sides do not meet.
use Prim.Native.Nat.{
  ℕ, zero, suc, ◌+◌, ◌*◌, ◌/◌, ◌%◌, ◌^◌, ◌≤◌, ◌<◌, max, bit_or, digits, bit_or-bitwise,
}
use mathlib.Core.Path.{◌≡◌, refl, sym, ap, ◌∙◌}
use native.Mathlib.Nat.{mul_assoc}
use native.Mathlib.Omega.{arith}

abbrev or_digits : ℕ → ℕ → ℕ → ℕ
or_digits n a b = digits (λ b. b) max n a b

or_digits_fuel : (n m a b : ℕ) → a ≤ n → a ≤ m → or_digits n a b ≡ or_digits m a b
or_digits_fuel zero zero a b p q = refl
or_digits_fuel zero (suc m) zero b p q = refl
or_digits_fuel zero (suc m) (suc a) b p q = absurd (omega arith)
or_digits_fuel (suc n) zero zero b p q = refl
or_digits_fuel (suc n) zero (suc a) b p q = absurd (omega arith)
or_digits_fuel (suc n) (suc m) zero b p q = refl
or_digits_fuel (suc n) (suc m) (suc a) b p q =
    omega (arith, or_digits_fuel n m (suc a / 2) (b / 2) (omega arith) (omega arith))

pub zero-bit_or : (b : ℕ) → bit_or 0 b ≡ b
zero-bit_or b = bit_or-bitwise 0 b

pub bit_or_step : (a b : ℕ) → bit_or a b ≡ bit_or (a / 2) (b / 2) * 2 + max (a % 2) (b % 2)
bit_or_step zero b = omega (arith, zero-bit_or b, zero-bit_or (b / 2))
bit_or_step (suc a) b = omega (
  arith,
  bit_or-bitwise (suc a) b,
  bit_or-bitwise (suc a / 2) (b / 2),
  or_digits_fuel a (suc a / 2) (suc a / 2) (b / 2) (omega arith) (omega arith),
)

bit_or-zero_fuel : (n a : ℕ) → a ≤ n → bit_or a 0 ≡ a
bit_or-zero_fuel n zero h = zero-bit_or 0
bit_or-zero_fuel zero (suc a) h = absurd (omega arith)
bit_or-zero_fuel (suc n) (suc a) h =
    omega (arith, bit_or_step (suc a) 0, bit_or-zero_fuel n (suc a / 2) (omega arith))

bit_or_even : (m y : ℕ) → bit_or (m * 2) y ≡ bit_or m (y / 2) * 2 + y % 2
bit_or_even m y =
    let half : m * 2 / 2 ≡ m = omega arith in
    omega (arith, bit_or_step (m * 2) y, ap (λ a. bit_or a (y / 2)) half)

-- Above `k` bits and below them there is nothing to carry.
pub bit_or-disjoint : (k x y : ℕ) → y < 2 ^ k → bit_or (x * 2 ^ k) y ≡ x * 2 ^ k + y
bit_or-disjoint zero x y h =
    let none' : y ≡ 0 = omega arith in
    rw none' (omega (arith, bit_or-zero_fuel (x * 1) (x * 1) (omega arith)))
bit_or-disjoint (suc k) x y h =
    let twice : x * 2 ^ suc k ≡ x * 2 ^ k * 2 =
      let p : 2 ^ suc k ≡ 2 ^ k * 2 = omega arith in
      ap (λ t. x * t) p ∙ sym (mul_assoc x (2 ^ k) 2) in
    let low : y / 2 < 2 ^ k = omega arith in
    rw twice (omega (arith, bit_or_even (x * 2 ^ k) y, bit_or-disjoint k x (y / 2) low))
