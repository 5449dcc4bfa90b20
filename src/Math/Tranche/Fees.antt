-- ===== src/Math/Tranche/Fees.antt =====
-- The fee split of `distribute_fees` is exact, also where a product does not fit u128.
use native.Mathlib.Nat.{mul-le-mul, le_refl, div-add-mod, mul-add-div, div-le_of_le-mul, mod-lt}
use percolator_stake.Prelude.{
  ℕ, ◌+◌, ◌-◌, ◌*◌, ◌/◌, ◌%◌, ◌≤◌, ◌<◌, ◌≡◌, ◌⊎◌, ap, sym, ◌∙◌, arith, u16_max, u64_max,
}
use percolator_stake.Math.MulDiv.{wide}
use percolator_stake.Math.MulDiv.Limbs.{mul_div_floor-exact}
use percolator_stake.Math.Tranche.{weighted_share, distribute_fees}

-- The quotient and remainder parts of the fallback add up to the exact quotient.
two_part :
    (fee weight total : ℕ)
    → 0 < total
    → fee / total * weight + fee % total * weight / total ≡ fee * weight / total
two_part fee weight total ht =
    let whole : total * (fee / total * weight) + fee % total * weight ≡ fee * weight =
      omega (arith, ap (λ (t : ℕ). t * weight) (div-add-mod fee total)) in
    sym (ap (λ (t : ℕ). t / total) (sym whole) ∙ mul-add-div ht _ _)

share-le : (fee weight total : ℕ) → 0 < total → weight ≤ total → fee * weight / total ≤ fee
share-le fee weight total ht hw = div-le_of_le-mul total (bounded (mul-le-mul (le_refl fee) hw))
  where
    bounded : fee * weight ≤ fee * total → fee * weight ≤ total * fee
    bounded h = omega arith

-- `weighted_share` is the floor of `fee * weight / total`, whether or not the product fits u128.
weighted_share-exact :
    (fee weight total : ℕ)
    → fee ≤ u64_max
    → weight ≤ total
    → 0 < total
    → total < wide
    → weighted_share fee weight total ≡ fee * weight / total
unfolding weighted_share
weighted_share-exact fee weight total hf hw ht hb =
    let rest : fee % total < total = mod-lt fee ht in
    let narrow : weight < wide = omega arith in
    let last : weight ≤ wide - 1 = omega arith in
    let below : fee % total ≤ total = omega arith in
    let fits : fee % total * weight < total * wide = omega (arith, mul-le-mul below last) in
    ground (
      arith,
      mul_div_floor-exact (fee % total) weight total (omega arith) narrow hb fits,
      two_part fee weight total ht,
      share-le fee weight total ht hw,
    )

no_weight : (junior senior mult : ℕ) → junior + senior ≡ 0 → junior * mult + senior * 10_000 ≡ 0
no_weight junior senior mult h =
    let nothing : junior ≡ 0 = omega arith in omega (arith, ap (λ (t : ℕ). t * mult) nothing)

-- For u64 balances and fee and a u16 multiplier, a fee is not handed out if no tranche has weight;
-- otherwise junior gets the exact floor of its weighted share, also where the product does not fit
-- u128, and the two shares add up to the fee.
pub distribute_fees_exact :
    (junior senior mult fee : ℕ)
    → junior ≤ u64_max
    → senior ≤ u64_max
    → mult ≤ u16_max
    → fee ≤ u64_max
    → let (junior_fee, senior_fee) = distribute_fees junior senior mult fee in
      let total = junior * mult + senior * 10_000 in
      (total ≡ 0) × (junior_fee ≡ 0) × (senior_fee ≡ 0)
      ⊎ (0 < total) × (junior_fee ≡ fee * (junior * mult) / total) × (junior_fee + senior_fee ≡ fee)
unfolding distribute_fees
distribute_fees_exact junior senior mult fee hj hs hm hf =
    let total = junior * mult + senior * 10_000 in
    let small : total < wide = omega (arith, mul-le-mul hj hm) in
    ground (
      arith,
      no_weight junior senior mult,
      weighted_share-exact fee (junior * mult) total hf (omega arith),
      share-le fee (junior * mult) total,
    )
