-- ===== src/Processor/Withdraw/Floor.antt =====
-- What the high-water-mark floor lets through: src/processor.rs, the check in `process_withdraw`.
use native.Mathlib.Nat.{mul-le-mul, le_refl}
use percolator_stake.Prelude.{
  ℕ, ◌+◌, ◌-◌, ◌*◌, ◌≤◌, ◌<◌, ◌≡◌, ◌≢◌, ◌↔◌, false, some, arith, u64_max,
}
use percolator_stake.Error.{ok}
use percolator_stake.Runtime.{Clock}
use percolator_stake.Math.Hwm.{hwm_withdrawal_allowed_iff}
use percolator_stake.State.{StakePool}
use percolator_stake.State.Pool.{total_pool_value, refresh_hwm}
use percolator_stake.State.Tranches.{total_pool_value_lem}
use percolator_stake.Processor.Withdraw.{enforce_floor}

refreshed-le :
    (p : StakePool) (epoch v : ℕ)
    → p.epoch_high_water_tvl ≤ u64_max
    → v ≤ u64_max
    → (v ≤ (refresh_hwm p epoch v).epoch_high_water_tvl)
      × ((refresh_hwm p epoch v).epoch_high_water_tvl ≤ u64_max)
      × ((refresh_hwm p epoch v).hwm_floor_bps ≡ p.hwm_floor_bps)
unfolding refresh_hwm
refreshed-le p epoch v hm hv = ground arith

-- With the protection on, a rate of at most 100%, a u64 mark and a withdrawal within the pool
-- value, the floor lets the withdrawal pass and keeps the refreshed mark exactly if mark * bps <
-- (value - withdrawal + 1) * 10000.
pub enforce_floor_iff :
    (p : StakePool) (clock : Clock) (w v : ℕ)
    → p.hwm_enabled_byte ≡ 1
    → p.hwm_floor_bps ≤ 10_000
    → p.epoch_high_water_tvl ≤ u64_max
    → total_pool_value p ≡ some v
    → w ≤ v
    → (enforce_floor p clock w false ≡ ok (refresh_hwm p clock.epoch v)) ↔ (
        (refresh_hwm p clock.epoch v).epoch_high_water_tvl * p.hwm_floor_bps < (v - w + 1) * 10_000)
unfolding enforce_floor
enforce_floor_iff p clock w v on rate mark value fits =
    let (_, bound) = total_pool_value_lem p v value in
    let (_, high, same) = refreshed-le p clock.epoch v mark bound in
    let m = (refresh_hwm p clock.epoch v).epoch_high_water_tvl in
    ground (arith, hwm_withdrawal_allowed_iff (v - w) m p.hwm_floor_bps high rate)

tenth : (v w bps : ℕ) → bps ≤ 9_000 → 10 * w ≤ v → v * bps < (v - w + 1) * 10_000
tenth v w bps rate small =
    let share : v * bps ≤ v * 9_000 = mul-le-mul (le_refl v) rate in omega arith

-- With the protection on and any rate up to 9000, in a new epoch a withdrawal of at most a tenth of
-- the pool value passes the floor, which then records the value and the epoch.
pub enforce_floor_new_epoch :
    (p : StakePool) (clock : Clock) (w v : ℕ)
    → p.hwm_enabled_byte ≡ 1
    → p.hwm_floor_bps ≤ 9_000
    → clock.epoch ≢ p.hwm_last_epoch
    → total_pool_value p ≡ some v
    → 10 * w ≤ v
    → enforce_floor p clock w false
      ≡ ok (record p { epoch_high_water_tvl = v; hwm_last_epoch = clock.epoch })
unfolding enforce_floor refresh_hwm
enforce_floor_new_epoch p clock w v on rate fresh value small =
    let (_, bound) = total_pool_value_lem p v value in
    let allowed = hwm_withdrawal_allowed_iff (v - w) v p.hwm_floor_bps bound in
    let enough : v * p.hwm_floor_bps < (v - w + 1) * 10_000 =
      tenth v w p.hwm_floor_bps rate small in
    ground (arith, allowed)
