-- ===== src/Prelude/Bits.antt =====
-- `|` of a shifted number and a smaller one.
use Prim.Native.Nat.{
  ℕ, zero, suc, ◌+◌, ◌*◌, ◌/◌, ◌%◌, ◌^◌, ◌≤◌, ◌<◌, max, bit_or, digits, bit_or-bitwise,
}
use mathlib.Core.Path.{◌≡◌, refl, sym, ap, ◌∙◌}
use native.Mathlib.Nat.{mul_assoc}
use native.Mathlib.Omega.{arith}

abbrev or_digits : ℕ → ℕ → ℕ → ℕ
or_digits n a b = digits (λ b. b) max n a b

or_digits_fuel : (n m a b : ℕ) → a ≤ n → a ≤ m → or_digits n a b ≡ or_digits m a b
or_digits_fuel zero zero a b p q = refl
or_digits_fuel zero (suc m) zero b p q = refl
or_digits_fuel zero (suc m) (suc a) b p q = absurd (omega arith)
or_digits_fuel (suc n) zero zero b p q = refl
or_digits_fuel (suc n) zero (suc a) b p q = absurd (omega arith)
or_digits_fuel (suc n) (suc m) zero b p q = refl
or_digits_fuel (suc n) (suc m) (suc a) b p q =
    omega (arith, or_digits_fuel n m (suc a / 2) (b / 2) (omega arith) (omega arith))

zero-bit_or : (b : ℕ) → bit_or 0 b ≡ b
zero-bit_or b = bit_or-bitwise 0 b

-- the lowest digit, and the rest
bit_or_step : (a b : ℕ) → bit_or a b ≡ bit_or (a / 2) (b / 2) * 2 + max (a % 2) (b % 2)
bit_or_step zero b = omega (arith, zero-bit_or b, zero-bit_or (b / 2))
bit_or_step (suc a) b = omega (
  arith,
  bit_or-bitwise (suc a) b,
  bit_or-bitwise (suc a / 2) (b / 2),
  or_digits_fuel a (suc a / 2) (suc a / 2) (b / 2) (omega arith) (omega arith),
)

bit_or-zero_fuel : (n a : ℕ) → a ≤ n → bit_or a 0 ≡ a
bit_or-zero_fuel n zero h = refl
bit_or-zero_fuel zero (suc a) h = absurd (omega arith)
bit_or-zero_fuel (suc n) (suc a) h =
    omega (arith, bit_or_step (suc a) 0, bit_or-zero_fuel n (suc a / 2) (omega arith))

bit_or-zero : (a : ℕ) → bit_or a 0 ≡ a
bit_or-zero a = bit_or-zero_fuel a a (omega arith)

double-bit_or : (p lo : ℕ) → bit_or p (lo / 2) ≡ p + lo / 2 → bit_or (p * 2) lo ≡ p * 2 + lo
double-bit_or p lo h =
    let half : p * 2 / 2 ≡ p = omega arith in
    let step : bit_or (p * 2) lo ≡ bit_or p (lo / 2) * 2 + max (p * 2 % 2) (lo % 2) =
      rw (bit_or_step (p * 2) lo, half) refl in
    omega (arith, step, h)

pub bit_or-shift : (k hi lo : ℕ) → lo < 2 ^ k → bit_or (hi * 2 ^ k) lo ≡ hi * 2 ^ k + lo
bit_or-shift zero hi lo h =
    let none_low : lo ≡ 0 = omega arith in rw none_low (omega (arith, bit_or-zero (hi * 1)))
bit_or-shift (suc k) hi lo h =
    let twice : 2 ^ suc k ≡ 2 ^ k * 2 = omega arith in
    let shifted : hi * 2 ^ suc k ≡ hi * 2 ^ k * 2 =
      ap (λ x. hi * x) twice ∙ sym (mul_assoc hi (2 ^ k) 2) in
    rw shifted
      (double-bit_or (hi * 2 ^ k) lo (bit_or-shift k hi (lo / 2) (omega (arith, twice, h))))
