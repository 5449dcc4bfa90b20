-- ===== src/Solvency/Deposit.antt =====
-- Deposits keep the invariant, and neither tranche's deposit changes the other tranche's value.
use percolator_stake.Prelude.{ℕ, ◌+◌, ◌≤◌, ◌≡◌, some, arith, u64_max}
use percolator_stake.Error.{ok}
use percolator_stake.Runtime.{Clock}
use percolator_stake.State.{StakePool}
use percolator_stake.State.Pool.{
  total_pool_value, senior_balance, senior_total_lp, effective_junior_balance, refresh_hwm,
}
use percolator_stake.State.Tranches.{effective_junior_balance_lem}
use percolator_stake.Processor.Deposit.{credit_senior, credit_junior, check_junior_loss, raise_mark}
use percolator_stake.Solvency.{IsSound}

pub credit_senior-IsSound :
    (p q : StakePool) (amount lp : ℕ) → IsSound p → credit_senior p amount lp ≡ ok q → IsSound q
unfolding credit_senior
credit_senior-IsSound p q amount lp s e = ground arith

pub credit_junior-IsSound :
    (p q : StakePool) (amount lp : ℕ)
    → IsSound p
    → p.tranche_enabled_byte ≡ 1
    → credit_junior p amount lp ≡ ok q
    → IsSound q
unfolding credit_senior credit_junior
credit_junior-IsSound p q amount lp s on e = ground arith

pub raise_mark-IsSound :
    (p q : StakePool) (clock : Clock) → IsSound p → raise_mark p clock ≡ ok q → IsSound q
unfolding raise_mark refresh_hwm
raise_mark-IsSound p q clock s e = ground arith

-- For a u64 junior balance and junior shares within the supply, a senior deposit leaves the value
-- behind junior shares as it was and adds its amount and its shares to the senior side.
pub credit_senior-tranches :
    (p q : StakePool) (amount lp b c : ℕ)
    → p.junior_balance ≤ u64_max
    → p.junior_total_lp ≤ p.total_lp_supply
    → credit_senior p amount lp ≡ ok q
    → senior_balance p ≡ some b
    → senior_balance q ≡ some c
    → (effective_junior_balance q ≡ effective_junior_balance p)
      × (c ≡ b + amount)
      × (senior_total_lp q ≡ senior_total_lp p + lp)
unfolding credit_senior senior_balance total_pool_value
credit_senior-tranches p q amount lp b c fits shares e before after =
    ground (arith, effective_junior_balance_lem p fits, effective_junior_balance_lem q)

-- For a u64 junior balance, a junior deposit that passes the loss gate leaves the senior balance as
-- it was and adds its amount and its shares to the junior side.
pub credit_junior-tranches :
    (p q : StakePool) (amount lp b c : ℕ)
    → p.junior_balance ≤ u64_max
    → check_junior_loss p ≡ ok tt
    → credit_junior p amount lp ≡ ok q
    → senior_balance p ≡ some b
    → senior_balance q ≡ some c
    → (c ≡ b)
      × (effective_junior_balance q ≡ effective_junior_balance p + amount)
      × (q.junior_total_lp ≡ p.junior_total_lp + lp)
unfolding credit_senior credit_junior check_junior_loss senior_balance total_pool_value
credit_junior-tranches p q amount lp b c fits gate e before after =
    ground (arith, effective_junior_balance_lem p fits, effective_junior_balance_lem q)
