-- ===== src/Math/MulDiv/Bits.antt =====
-- `x | y` on numbers whose set bits do not meet, which is how `mul_div_floor` uses it.
use Prim.Native.Nat.{max, bit_or, digits, bit_or-bitwise}
use native.Mathlib.Nat.{pow-suc}
use percolator_stake.Prelude.{ℕ, zero, suc, ◌+◌, ◌*◌, ◌/◌, ◌%◌, ◌^◌, ◌≤◌, ◌<◌, ◌≡◌, refl, ap, arith}

abbrev or_digits : ℕ → ℕ → ℕ → ℕ
or_digits n a b = digits (λ b. b) max n a b

or_digits_fuel : (n m a b : ℕ) → a ≤ n → a ≤ m → or_digits n a b ≡ or_digits m a b
or_digits_fuel zero zero a b p q = refl
or_digits_fuel zero (suc m) zero b p q = refl
or_digits_fuel zero (suc m) (suc a) b p q = absurd (omega arith)
or_digits_fuel (suc n) zero zero b p q = refl
or_digits_fuel (suc n) zero (suc a) b p q = absurd (omega arith)
or_digits_fuel (suc n) (suc m) zero b p q = refl
or_digits_fuel (suc n) (suc m) (suc a) b p q =
    omega (arith, or_digits_fuel n m (suc a / 2) (b / 2) (omega arith) (omega arith))

pub zero-bit_or : (b : ℕ) → bit_or 0 b ≡ b
zero-bit_or b = bit_or-bitwise 0 b

-- The law for the lowest bit.
bit_or_step : (a b : ℕ) → bit_or a b ≡ bit_or (a / 2) (b / 2) * 2 + max (a % 2) (b % 2)
bit_or_step zero b = omega (arith, zero-bit_or b, zero-bit_or (b / 2))
bit_or_step (suc a) b = omega (
  arith,
  bit_or-bitwise (suc a) b,
  bit_or-bitwise (suc a / 2) (b / 2),
  or_digits_fuel a (suc a / 2) (suc a / 2) (b / 2) (omega arith) (omega arith),
)

bit_or-zero_fuel : (n a : ℕ) → a ≤ n → bit_or a 0 ≡ a
bit_or-zero_fuel n zero h = zero-bit_or 0
bit_or-zero_fuel zero (suc a) h = absurd (omega arith)
bit_or-zero_fuel (suc n) (suc a) h =
    omega (arith, bit_or_step (suc a) 0, bit_or-zero_fuel n (suc a / 2) (omega arith))

bit_or-zero : (a : ℕ) → bit_or a 0 ≡ a
bit_or-zero a = bit_or-zero_fuel a a (omega arith)

-- The same with the halves written out.
bit_or_halves :
    (m n a b : ℕ) → m / 2 ≡ a → n / 2 ≡ b → bit_or m n ≡ bit_or a b * 2 + max (m % 2) (n % 2)
bit_or_halves m n a b p q = rw (bit_or_step m n, p, q)

-- A low bit goes into an even number.
pub bit_or_low : (a b : ℕ) → b < 2 → bit_or (a * 2) b ≡ a * 2 + b
bit_or_low a b h =
    omega (arith, bit_or_halves (a * 2) b a 0 (omega arith) (omega arith), bit_or-zero a)

-- Bit `i` goes into a number that has no bit at `i` or below.
pub bit_or_single : (i q : ℕ) → bit_or (q * 2 ^ suc i) (2 ^ i) ≡ q * 2 ^ suc i + 2 ^ i
bit_or_single zero q = bit_or_low q 1 (omega arith)
bit_or_single (suc i) q =
    let twice : q * 2 ^ suc (suc i) ≡ q * 2 ^ suc i * 2 =
      omega (arith, ap (λ (t : ℕ). q * t) (pow-suc 2 (suc i))) in
    let power : 2 ^ suc i ≡ 2 ^ i * 2 = pow-suc 2 i in
    omega (
      arith,
      bit_or_halves (q * 2 ^ suc (suc i)) (2 ^ suc i) (q * 2 ^ suc i) (2 ^ i) (omega arith)
          (omega arith),
      bit_or_single i q,
    )
