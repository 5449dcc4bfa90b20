-- ===== src/Math/Tranche.antt =====
-- Losses and fees between the junior and the senior tranche: src/math.rs, `distribute_loss`,
-- `distribute_fees`, `senior_protected`.
pub mod Loss
pub mod Fees
use percolator_stake.Prelude.{
  ℕ, ◌+◌, ◌-◌, ◌*◌, ◌/◌, ◌%◌, min, Bool, Option, none, some, ◌==◌, leb, if◌then◌else◌, u64_max,
  u128_max, checked_mul, saturating_add,
}
use percolator_stake.Math.MulDiv.{mul_div_floor}

-- (junior loss, senior loss)
unfoldable pub distribute_loss : (junior_balance senior_balance loss_amount : ℕ) → ℕ × ℕ
distribute_loss junior senior loss =
    let total = saturating_add u64_max junior senior in
    let capped_loss = min loss total in
    if leb capped_loss junior then (capped_loss, 0) else (junior, capped_loss - junior)

-- The junior part of a fee before the clamp, in u128.
unfoldable pub weighted_share : (total_fee junior_weight total_weight : ℕ) → ℕ
weighted_share fee weight total = elim (checked_mul u128_max fee weight) [
  | some product ↦ product / total
  | none ↦ saturating_add u128_max (fee / total * weight) (mul_div_floor (fee % total) weight total)
]

-- (junior fee, senior fee)
unfoldable pub distribute_fees :
    (junior_balance senior_balance junior_fee_mult_bps total_fee : ℕ) → ℕ × ℕ
distribute_fees junior senior mult fee =
    let total_weight = junior * mult + senior * 10_000 in
    if fee == 0
    then (0, 0)
    else if junior + senior == 0
    then (0, 0)
    else if total_weight == 0
    then (0, 0)
    else let junior_fee = min (weighted_share fee (junior * mult) total_weight) fee in
      (junior_fee, fee - junior_fee)

unfoldable pub senior_protected : (junior_balance senior_balance loss_amount : ℕ) → Bool
senior_protected junior senior loss = leb loss junior
