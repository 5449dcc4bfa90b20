-- ===== src/State/Tranches.antt =====
-- What the values of a pool promise each other: src/state.rs, `effective_junior_balance`,
-- `total_pool_value`, `senior_balance`, `refresh_hwm`.
use percolator_stake.Prelude.{ℕ, ◌+◌, ◌-◌, ◌≤◌, ◌≡◌, some, arith, u64_max}
use percolator_stake.State.{StakePool}
use percolator_stake.State.Pool.{effective_junior_balance, total_pool_value, value_in, value_out}
use percolator_stake.Math.Tranche.Loss.{distribute_loss-junior}

-- For a u64 junior balance, the loss-adjusted junior balance is the stored one less the outstanding
-- loss, down to 0, whatever the other counters are.
pub effective_junior_balance_lem :
    (p : StakePool)
    → p.junior_balance ≤ u64_max
    → effective_junior_balance p ≡ p.junior_balance - (p.total_flushed - p.total_returned)
unfolding effective_junior_balance
effective_junior_balance_lem p h = ground (
  arith,
  distribute_loss-junior p.junior_balance (p.total_deposited - p.total_withdrawn - p.junior_balance)
      (p.total_flushed - p.total_returned) h,
)

-- A value that is returned is the exact difference of the terms.
pub total_pool_value_lem :
    (p : StakePool) (v : ℕ)
    → total_pool_value p ≡ some v
    → (v + value_out p ≡ value_in p) × (v ≤ u64_max)
unfolding total_pool_value
total_pool_value_lem p v h = ground arith
