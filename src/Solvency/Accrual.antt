-- ===== src/Solvency/Accrual.antt =====
-- Fee accrual books exactly the surplus, and keeps the invariant.
use percolator_stake.Prelude.{
  ℕ, ◌+◌, ◌-◌, ◌≤◌, ◌<◌, ◌≡◌, ◌⊎◌, inl, inr, true, arith, Option-cases, u64_max, some, none,
}
use percolator_stake.Error.{ok, >>=-eq-ok}
use percolator_stake.Math.Tranche.{distribute_fees}
use percolator_stake.State.{StakePool}
use percolator_stake.State.Pool.{total_pool_value, value_in, value_out}
use percolator_stake.State.Tranches.{total_pool_value_lem}
use percolator_stake.Processor.Accrual.{
  snapshot, accrue, credit_junior, accrue_fees_inner, has_juniors,
}
use percolator_stake.Solvency.{IsSound}

-- The two shares of a fee never exceed it.
distribute_fees-le : (j s m fee : ℕ) → (distribute_fees j s m fee).0 ≤ fee
unfolding distribute_fees
distribute_fees-le j s m fee = ground arith

-- What a booked fee changes: the fees by all of it, the junior balance by at most as much.
pub record Booked (p q : StakePool) (delta : ℕ) : Type 0 where
  pub fees : q.total_fees_earned ≡ p.total_fees_earned + delta
  pub junior_ge : p.junior_balance ≤ q.junior_balance
  pub junior_le : q.junior_balance ≤ p.junior_balance + delta
  pub juniors :
      (q.junior_balance ≡ p.junior_balance) ⊎ (has_juniors p ≡ true) × (q.junior_balance ≤ u64_max)
  pub rest :
      q ≡ record p { total_fees_earned = q.total_fees_earned; junior_balance = q.junior_balance }

accrue-Booked : (p q : StakePool) (delta : ℕ) → accrue p delta ≡ ok q → Booked p q delta
unfolding accrue credit_junior
accrue-Booked p q delta e =
    let (w, _, rest) = >>=-eq-ok (snapshot p) _ q e in
    ground (arith, rest, distribute_fees-le w.0 w.1 p.junior_fee_mult_bps delta)

-- An accrual that succeeds has a pool value to compare with; it leaves the pool as it was if the
-- balance is no more than that value or nobody holds shares, and otherwise books exactly the
-- surplus as fees, junior getting at most the surplus, after which the value is the balance of the
-- vault.
pub accrue_fees_inner-books :
    (p q : StakePool) (balance : ℕ)
    → accrue_fees_inner p balance ≡ ok q
    → (v : ℕ) × (total_pool_value p ≡ some v)
      × ((q ≡ p) × ((balance ≤ v) ⊎ (p.total_lp_supply ≡ 0))
          ⊎ (v < balance)
            × (0 < p.total_lp_supply)
            × Booked p q (balance - v)
            × (value_in q ≡ value_out q + balance))
unfolding accrue_fees_inner
accrue_fees_inner-books p q balance e = elim (Option-cases (total_pool_value p)) [
  | inl broken ↦ absurd (no_value broken)
  | inr (v, h) ↦ (v, h, cases v h)
]
  where
    no_value : total_pool_value p ≡ none → ⊥
    no_value broken = ground arith

    cases :
        (v : ℕ)
        → total_pool_value p ≡ some v
        → (q ≡ p) × ((balance ≤ v) ⊎ (p.total_lp_supply ≡ 0))
          ⊎ (v < balance)
            × (0 < p.total_lp_supply)
            × Booked p q (balance - v)
            × (value_in q ≡ value_out q + balance)
    cases v h = ground (arith, accrue-Booked p q (balance - v), total_pool_value_lem p v h)

-- Accrual keeps the invariant.
pub accrue_fees_inner-IsSound :
    (p q : StakePool) (balance : ℕ) → IsSound p → accrue_fees_inner p balance ≡ ok q → IsSound q
accrue_fees_inner-IsSound p q balance s e = ground (arith, accrue_fees_inner-books p q balance e)

-- Accrual leaves the tranches' shares alone.
pub accrue_fees_inner-tranches :
    (p q : StakePool) (balance : ℕ)
    → accrue_fees_inner p balance ≡ ok q
    → (q.tranche_enabled_byte ≡ p.tranche_enabled_byte)
      × (q.junior_total_lp ≡ p.junior_total_lp)
      × (q.total_lp_supply ≡ p.total_lp_supply)
accrue_fees_inner-tranches p q balance e = ground (arith, accrue_fees_inner-books p q balance e)
