-- ===== src/Processor/Deposit/Cap.antt =====
-- The deposit cap: src/processor.rs, its check in both deposits.
use percolator_stake.Prelude.{ℕ, ◌≤◌, ◌<◌, ◌≡◌, some, arith}
use percolator_stake.Error.{ok}
use percolator_stake.State.{StakePool}
use percolator_stake.State.Pool.{principal_tvl}
use percolator_stake.Processor.Deposit.{check_deposit_cap, credit_senior, credit_junior}

-- In a pool with a cap, a deposit of either tranche that passes the check of the cap leaves a
-- principal within it.
pub deposit_within_cap :
    (p s j : StakePool) (amount lp t u : ℕ)
    → 0 < p.deposit_cap
    → check_deposit_cap p amount ≡ ok tt
    → credit_senior p amount lp ≡ ok s
    → credit_junior p amount lp ≡ ok j
    → principal_tvl s ≡ some t
    → principal_tvl j ≡ some u
    → (t ≤ p.deposit_cap) × (u ≤ p.deposit_cap)
unfolding check_deposit_cap credit_senior credit_junior principal_tvl
deposit_within_cap p s j amount lp t u capped h hs hj ht hu = ground arith
