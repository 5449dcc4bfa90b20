-- ===== src/Math/MulDiv/Limbs.antt =====
-- The 256-bit product of `mul_div_floor`, and its result.
use mathlib.Core.Path.{ap₂}
use native.Mathlib.Nat.{mul-le-mul}
use percolator_stake.Prelude.{
  ℕ, ◌+◌, ◌-◌, ◌*◌, ◌/◌, ◌%◌, ◌^◌, ◌≤◌, ◌<◌, ◌≡◌, ap, ◌∙◌, arith, u128_max, leb, Bool-cases, inl,
  inr,
}
use percolator_stake.Math.MulDiv.{word, wide, carry, full_product, mul_div_floor}
use percolator_stake.Math.MulDiv.Division.{value, divide_lem}

product-lt : (x y : ℕ) → x < wide → y < wide → x * y < 2 ^ 256
product-lt x y hx hy =
    let px : x ≤ wide - 1 = omega arith in
    let py : y ≤ wide - 1 = omega arith in
    let bound : x * y ≤ (wide - 1) * (wide - 1) = mul-le-mul px py in omega arith

-- The middle sum and its carry, shifted by one limb, are added without loss.
limbs_add :
    (m0 m1 m2 m3 : ℕ)
    → m0 < wide
    → m1 < wide
    → m2 < wide
    → let mid = (m1 + m2) % wide in
      let shifted = mid * word % wide in
      (m3 + mid / word + carry m1 m2 * word + carry m0 shifted) * wide + (m0 + shifted) % wide
      ≡ m3 * wide + (m1 + m2) * word + m0
limbs_add m0 m1 m2 m3 h0 h1 h2 = ground arith

limb_lt : (x y : ℕ) → x < word → y < word → x * y < wide
limb_lt x y hx hy =
    let px : x ≤ word - 1 = omega arith in
    let py : y ≤ word - 1 = omega arith in
    let bound : x * y ≤ (word - 1) * (word - 1) = mul-le-mul px py in omega arith

limbs_mul :
    (a0 a1 b0 b1 : ℕ)
    → a1 * b1 * wide + (a0 * b1 + a1 * b0) * word + a0 * b0 ≡ (a1 * word + a0) * (b1 * word + b0)
limbs_mul a0 a1 b0 b1 = omega arith

-- The two halves are the exact product of any two u128 numbers.
pub full_product_lem : (a b : ℕ) → a < wide → b < wide → value (full_product a b) ≡ a * b
unfolding full_product
full_product_lem a b ha hb =
    let a0 = a % word in
    let a1 = a / word in
    let b0 = b % word in
    let b1 = b / word in
    limbs_add (a0 * b0) (a0 * b1) (a1 * b0) (a1 * b1) (limb_lt a0 b0 (omega arith) (omega arith))
      (limb_lt a0 b1 (omega arith) (omega arith)) (limb_lt a1 b0 (omega arith) (omega arith))
    ∙ limbs_mul a0 a1 b0 b1
    ∙ ap₂ ◌*◌ (omega arith) (omega arith)

pub full_product-lo : (a b : ℕ) → (full_product a b).lo < wide
unfolding full_product
full_product-lo a b = omega arith

-- For u128 operands and a divisor for which the exact quotient fits u128, the limb product and the
-- bit-by-bit long division return the floor of a * b / d.
pub mul_div_floor-exact :
    (a b d : ℕ)
    → a < wide
    → b < wide
    → d < wide
    → a * b < d * wide
    → mul_div_floor a b d ≡ a * b / d
unfolding mul_div_floor
mul_div_floor-exact a b d ha hb hd fits = elim (Bool-cases (leb (a * b) u128_max)) [
  | inl fast ↦ rw (fast, mul_div_floor)
  | inr slow ↦
      let product = full_product_lem a b ha hb in
      let bounded : a * b < 2 ^ 256 = omega (arith, product-lt a b ha hb) in
      rw (slow, mul_div_floor)
        (divide_lem (full_product a b) d (full_product-lo a b) hd (rw product fits)
            (rw product bounded)
          ∙ ap (λ (t : ℕ). t / d) product)
]

-- For u128 operands the two halves of the limb product are the exact product, and both fit u128.
pub full_product-exact :
    (a b : ℕ)
    → a < wide
    → b < wide
    → ((full_product a b).hi * wide + (full_product a b).lo ≡ a * b)
      × ((full_product a b).hi < wide)
      × ((full_product a b).lo < wide)
full_product-exact a b ha hb =
    let product = full_product_lem a b ha hb in
    (
      product,
      omega (arith, product, product-lt a b ha hb, full_product-lo a b),
      full_product-lo a b,
    )
