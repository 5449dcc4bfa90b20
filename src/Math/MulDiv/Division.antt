-- ===== src/Math/MulDiv/Division.antt =====
-- The long division of `mul_div_floor`: each round brings one bit of the product into the
-- remainder, and the quotient that is left after the last round is the quotient.
use Prim.Native.Nat.{bit_or}
use native.Mathlib.Nat.{
  pow-suc, one-le-pow, mul-le-mul, div-div-eq-div-mul, mul-add-div, pow-le-pow_right,
  div-mul-le_self, div-eq_of_lt-le, div-eq_of_lt,
}
use percolator_stake.Prelude.{
  ℕ, zero, suc, ◌+◌, ◌-◌, ◌*◌, ◌/◌, ◌%◌, ◌^◌, ◌≤◌, ◌<◌, ◌≡◌, sym, ap, ◌∙◌, true, false, arith, leb,
  ltb, if◌then◌else◌, Bool-cases, inl, inr, leb→le, leb→gt, ltb→lt, ltb→ge, two_pow_add,
}
use percolator_stake.Math.MulDiv.{
  Product, wide, bit_at, shift_in, reduces, next_rem, next_quo, divide,
}
use percolator_stake.Math.MulDiv.Bits.{bit_or_low, bit_or_single}

abbrev pub value : Product → ℕ
value p = p.hi * wide + p.lo

-- A round shifts the remainder without losing a bit: the bit that leaves is `rem / 2^127`.
shift_in_lem : (rem bit : ℕ) → bit < 2 → shift_in rem bit ≡ rem * 2 % wide + bit
unfolding shift_in
shift_in_lem rem bit b =
    let halved : rem * 2 % wide ≡ (rem % 2 ^ 127) * 2 = omega arith in
    rw halved (bit_or_low (rem % 2 ^ 127) bit b)

reduces_lem :
    (rem bit d : ℕ) → d < wide → rem < d → bit < 2 → reduces rem bit d ≡ leb d (rem * 2 + bit)
unfolding reduces
reduces_lem rem bit d fits small b = ground (arith, shift_in_lem rem bit b)

-- One round of the remainder is a step of schoolbook division: `2 * rem + bit` loses the divisor
-- if it reaches it.
next_rem_lem :
    (rem bit d : ℕ)
    → d < wide
    → rem < d
    → bit < 2
    → next_rem rem bit d ≡ (if leb d (rem * 2 + bit) then rem * 2 + bit - d else rem * 2 + bit)
unfolding next_rem
next_rem_lem rem bit d fits small b =
    ground (arith, shift_in_lem rem bit b, reduces_lem rem bit d fits small b)

bit_high : (p : Product) (i j : ℕ) → p.lo < wide → i ≡ 128 + j → p.hi / 2 ^ j ≡ value p / 2 ^ i
bit_high p i j h e =
    let top : value p / 2 ^ 128 ≡ p.hi = omega arith in
    rw (two_pow_add 128 j i (sym e), ← div-div-eq-div-mul (value p) (2 ^ 128) (2 ^ j), top)

bit_low : (p : Product) (i j : ℕ) → i + suc j ≡ 128 → p.lo / 2 ^ i % 2 ≡ (value p / 2 ^ i) % 2
bit_low p i j e =
    let power : wide ≡ 2 ^ i * (2 ^ j * 2) =
      two_pow_add i (suc j) 128 e ∙ ap (λ (t : ℕ). 2 ^ i * t) (pow-suc 2 j) in
    let sum : value p ≡ 2 ^ i * (p.hi * (2 ^ j * 2)) + p.lo =
      omega (arith, ap (λ (t : ℕ). p.hi * t) power) in
    omega (
      arith,
      ap (λ (t : ℕ). t / 2 ^ i) sum
          ∙ mul-add-div (one-le-pow i 2 (omega arith)) (p.hi * (2 ^ j * 2)) p.lo,
    )

-- Bit `i` of the product is the last bit of the product without its `i` low bits.
bit_at_lem : (p : Product) (i : ℕ) → p.lo < wide → bit_at p i ≡ (value p / 2 ^ i) % 2
unfolding bit_at
bit_at_lem p i h = elim (Bool-cases (leb 128 i)) [
  | inl high ↦ rw (high, bit_high p i (i - 128) h (omega (arith, leb→le 128 i high)))
  | inr low ↦ rw low (bit_low p i (127 - i) (omega (arith, leb→gt 128 i low)))
]

-- A bit of the quotient that is set lies below 2^128, since the whole quotient does.
taken_low : (v d i q : ℕ) → v < d * wide → q * d + d ≤ v / 2 ^ i → i < 128
taken_low v d i q fits enough = elim (Bool-cases (ltb i 128)) [
  | inl low ↦ ltb→lt i 128 low
  | inr high ↦
      let power : wide ≤ 2 ^ i = pow-le-pow_right {n = 2} (omega arith) (ltb→ge i 128 high) in
      let least : d ≤ v / 2 ^ i = omega arith in
      absurd (omega (arith, mul-le-mul least power, div-mul-le_self v (2 ^ i)))
]

taken_quo :
    (quo i q : ℕ) → i < 128 → quo ≡ q * 2 ^ suc i → next_quo quo i true ≡ (q * 2 + 1) * 2 ^ i
unfolding next_quo
taken_quo quo i q index e =
    let set : bit_or quo (2 ^ i) ≡ quo + 2 ^ i = rw e (bit_or_single i q) in
    let power : q * 2 ^ suc i ≡ q * (2 ^ i * 2) = ap (λ (t : ℕ). q * t) (pow-suc 2 i) in
    ground (arith, set, power, e)

kept_quo : (quo i q : ℕ) → quo ≡ q * 2 ^ suc i → next_quo quo i false ≡ q * 2 * 2 ^ i
unfolding next_quo
kept_quo quo i q e = omega (arith, ap (λ (t : ℕ). q * t) (pow-suc 2 i))

module _ (p : Product) (d : ℕ) (low : p.lo < wide) (divisor : d < wide)
    (fits : value p < d * wide) where
  -- The loop with `i` rounds left, where `q` and `rem` are the quotient and the remainder of the
  -- bits brought in so far.
  divide_from :
      (i rem quo q : ℕ)
      → value p / 2 ^ i ≡ q * d + rem
      → rem < d
      → quo ≡ q * 2 ^ i
      → divide p d i rem quo ≡ value p / d
  unfolding divide
  divide_from zero rem quo q so_far small e =
      let exact : quo ≡ q = omega arith in
      let total : value p ≡ q * d + rem = omega arith in
      rw exact (sym (div-eq_of_lt-le {k = q} d {m = value p} (omega arith) (omega arith)))
  divide_from (suc i) rem quo q so_far small e =
      let bit = bit_at p i in
      let bit_is : bit ≡ (value p / 2 ^ i) % 2 = bit_at_lem p i low in
      let bit_lt : bit < 2 = omega arith in
      let shifted : value p / 2 ^ i / 2 ≡ q * d + rem =
        rw (div-div-eq-div-mul (value p) (2 ^ i) 2, ← pow-suc 2 i) so_far in
      let step = next_rem_lem rem bit d divisor small bit_lt in
      let test = reduces_lem rem bit d divisor small bit_lt in
      elim (Bool-cases (leb d (rem * 2 + bit))) [
        | inl reached ↦
            let least : d ≤ rem * 2 + bit = leb→le _ _ reached in
            let index : i < 128 = taken_low (value p) d i (q * 2) fits (omega arith) in
            divide_from i (next_rem rem bit d) (next_quo quo i (reduces rem bit d)) (q * 2 + 1)
              (rw (step, reached) (omega arith)) (rw (step, reached) (omega arith))
              (rw (test, reached) (taken_quo quo i q index e))
        | inr short ↦
            let below : rem * 2 + bit < d = leb→gt _ _ short in
            divide_from i (next_rem rem bit d) (next_quo quo i (reduces rem bit d)) (q * 2)
              (rw (step, short) (omega arith)) (rw (step, short) below)
              (rw (test, short) (kept_quo quo i q e))
      ]

  -- `divide` from bit 256 on: the quotient of the whole product.
  pub divide_lem : value p < 2 ^ 256 → divide p d 256 0 0 ≡ value p / d
  divide_lem bound =
      divide_from 256 0 0 0 (div-eq_of_lt bound ∙ omega arith) (omega arith) (omega arith)
