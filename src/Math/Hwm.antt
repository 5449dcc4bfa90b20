-- ===== src/Math/Hwm.antt =====
-- The high-water-mark floor: src/math.rs, `hwm_floor` and `hwm_withdrawal_allowed`.
use native.Mathlib.Nat.{mul-le-mul, le_refl}
use percolator_stake.Prelude.{
  ℕ, ◌+◌, ◌*◌, ◌≤◌, ◌<◌, ◌≡◌, ◌↔◌, Bool, true, false, Option, none, some, arith, leb, u64_max,
  u128_max, checked_mul, checked_div, narrow,
}
use percolator_stake.Prelude.Checked.{◌>>=◌}

unfoldable pub hwm_floor : (epoch_high_water_tvl hwm_floor_bps : ℕ) → Option ℕ
hwm_floor mark bps = do
  product ← checked_mul u128_max mark bps
  floor ← checked_div product 10_000
  narrow u64_max floor

unfoldable pub hwm_withdrawal_allowed :
    (post_withdrawal_tvl epoch_high_water_tvl hwm_floor_bps : ℕ) → Bool
unfolding hwm_floor
hwm_withdrawal_allowed post mark bps = elim (hwm_floor mark bps) [
  | some floor ↦ leb floor post
  | none ↦ false
]

-- For a u64 mark and a rate of at most 100%, the check of the floor passes exactly if mark * bps <
-- (post + 1) * 10000.
pub hwm_withdrawal_allowed_iff :
    (post mark bps : ℕ)
    → mark ≤ u64_max
    → bps ≤ 10_000
    → (hwm_withdrawal_allowed post mark bps ≡ true) ↔ (mark * bps < (post + 1) * 10_000)
unfolding hwm_withdrawal_allowed
hwm_withdrawal_allowed_iff post mark bps hm hb =
    let product : mark * bps ≤ u64_max * 10_000 = mul-le-mul hm hb in
    let floor : mark * bps ≤ mark * 10_000 = mul-le-mul (le_refl mark) hb in ground arith
