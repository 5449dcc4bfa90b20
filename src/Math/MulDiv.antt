-- ===== src/Math/MulDiv.antt =====
-- The overflow-safe `floor(a * b / d)` of src/math.rs, `mul_div_floor`: 64-bit limbs, then a long
-- division bit by bit.
pub mod Bits
pub mod Division
pub mod Limbs
use Prim.Native.Nat.{bit_or}
use percolator_stake.Prelude.{
  ℕ, zero, suc, ◌+◌, ◌-◌, ◌*◌, ◌/◌, ◌%◌, ◌^◌, ◌≡◌, refl, Option, none, some, Bool, ◌||◌, ◌==◌, leb,
  ltb, if◌then◌else◌, u128_max, checked_mul,
}

abbrev pub word : ℕ
word = 2 ^ 64

abbrev pub wide : ℕ
wide = 2 ^ 128

-- `x.wrapping_sub(y)` in u128
abbrev pub wrapping_sub : ℕ → ℕ → ℕ
wrapping_sub x y = (x + wide - y) % wide

-- the carry of `x.overflowing_add(y)`, as u128
abbrev pub carry : ℕ → ℕ → ℕ
carry x y = if ltb u128_max (x + y) then 1 else 0

-- The two halves of the 256-bit product `a * b`.
pub record Product : Type 0 where
  pub hi : ℕ
  pub lo : ℕ

unfoldable pub full_product : ℕ → ℕ → Product
full_product a b =
    let a0 = a % word in
    let a1 = a / word in
    let b0 = b % word in
    let b1 = b / word in
    let m0 = a0 * b0 in
    let m1 = a0 * b1 in
    let m2 = a1 * b0 in
    let m3 = a1 * b1 in
    let mid = (m1 + m2) % wide in
    let mid_carry = carry m1 m2 in
    let shifted = mid * word % wide in
    record {
      hi = m3 + mid / word + mid_carry * word + carry m0 shifted;
      lo = (m0 + shifted) % wide;
    }

-- Bit `i` of the 256-bit number `p.hi * 2^128 + p.lo`.
unfoldable pub bit_at : Product → ℕ → ℕ
bit_at p i = if leb 128 i then (p.hi / 2 ^ (i - 128)) % 2 else (p.lo / 2 ^ i) % 2

-- One round: does the shifted remainder reach the divisor, and the remainder that is left.
unfoldable pub shift_in : ℕ → ℕ → ℕ
shift_in rem bit = bit_or (rem * 2 % wide) bit

unfoldable pub reduces : (rem bit d : ℕ) → Bool
reduces rem bit d = (rem / 2 ^ 127 == 1) || leb d (shift_in rem bit)

unfoldable pub next_rem : (rem bit d : ℕ) → ℕ
next_rem rem bit d =
    if reduces rem bit d then wrapping_sub (shift_in rem bit) d else shift_in rem bit

unfoldable pub next_quo : (quo i : ℕ) → Bool → ℕ
next_quo quo i taken = if taken then (if ltb i 128 then bit_or quo (2 ^ i) else quo) else quo

-- `while i > 0`, with `i` rounds left.
unfoldable pub divide : Product → (d i rem quo : ℕ) → ℕ
unfolding bit_at shift_in reduces next_rem next_quo
divide p d zero rem quo = quo
divide p d (suc i) rem quo =
    let bit = bit_at p i in divide p d i (next_rem rem bit d) (next_quo quo i (reduces rem bit d))

unfoldable pub mul_div_floor : (a b d : ℕ) → ℕ
mul_div_floor a b d = elim (checked_mul u128_max a b) [
  | some p ↦ p / d
  | none ↦ divide (full_product a b) d 256 0 0
]
