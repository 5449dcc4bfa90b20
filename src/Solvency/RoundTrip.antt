-- ===== src/Solvency/RoundTrip.antt =====
-- A deposit followed by the withdrawal of the shares that it bought, on the pool itself.
use mathlib.Core.Path.{subst₂}
use percolator_stake.Prelude.{
  ℕ, ◌+◌, ◌≤◌, ◌≡◌, false, true, some, inl, inr, Option-cases, arith, u64_max,
}
use percolator_stake.Error.{ok, ok_or-eq-ok}
use percolator_stake.Math.Pricing
use percolator_stake.Math.Pricing.{
  calc_senior_lp_for_deposit, calc_junior_lp_for_deposit, calc_junior_collateral_for_withdraw,
}
use percolator_stake.Math.RoundTrip.{withdraw_after_deposit-le}
use percolator_stake.State.{StakePool}
use percolator_stake.State.Pool.{total_pool_value, effective_junior_balance, calc_lp_for_deposit}
use percolator_stake.State.Tranches.{effective_junior_balance_lem, total_pool_value_lem}
use percolator_stake.Processor.Deposit.{
  price_senior, price_junior, credit_senior, credit_junior, check_junior_loss,
}
use percolator_stake.Processor.Withdraw.{withdrawal_value}
use percolator_stake.Solvency.{IsSound}
use percolator_stake.Solvency.Deposit.{credit_senior-tranches}
use percolator_stake.Solvency.Withdraw.{tranche_shares, tranche_value, withdrawal_value-priced}

-- Without tranches, the credit adds to the pool's value.
credit_senior-plain :
    (p q : StakePool) (amount lp u v : ℕ)
    → credit_senior p amount lp ≡ ok q
    → total_pool_value p ≡ some u
    → total_pool_value q ≡ some v
    → (v ≡ u + amount) × (q.total_lp_supply ≡ p.total_lp_supply + lp)
unfolding credit_senior
credit_senior-plain p q amount lp u v e before after =
    ground (arith, total_pool_value_lem p u before, total_pool_value_lem q v after)

credit_senior-byte :
    (p q : StakePool) (amount lp : ℕ)
    → credit_senior p amount lp ≡ ok q
    → q.tranche_enabled_byte ≡ p.tranche_enabled_byte
unfolding credit_senior
credit_senior-byte p q amount lp e = ground arith

-- The junior price of a burn, in a pool with tranches.
junior_value-priced :
    (q : StakePool) (lp w : ℕ)
    → q.tranche_enabled_byte ≡ 1
    → withdrawal_value q true lp ≡ ok w
    → Pricing.calc_collateral_for_withdraw q.junior_total_lp (effective_junior_balance q) lp
      ≡ some w
unfolding withdrawal_value calc_junior_collateral_for_withdraw
junior_value-priced q lp w on e = ground arith

credit_junior-value :
    (p q : StakePool) (amount lp : ℕ)
    → p.junior_balance ≤ u64_max
    → p.tranche_enabled_byte ≡ 1
    → check_junior_loss p ≡ ok tt
    → credit_junior p amount lp ≡ ok q
    → (effective_junior_balance q ≡ effective_junior_balance p + amount)
      × (q.junior_total_lp ≡ p.junior_total_lp + lp)
      × (q.tranche_enabled_byte ≡ 1)
unfolding credit_senior credit_junior check_junior_loss
credit_junior-value p q amount lp fits on gate e =
    ground (arith, effective_junior_balance_lem p fits, effective_junior_balance_lem q)

-- A deposit is priced on the shares and the value of its tranche.
pub price_senior-priced :
    (p : StakePool) (amount lp : ℕ)
    → price_senior p amount ≡ ok lp
    → (v : ℕ) × (tranche_value p false ≡ some v)
      × (Pricing.calc_lp_for_deposit (tranche_shares p false) v amount ≡ some lp)
unfolding price_senior calc_senior_lp_for_deposit calc_lp_for_deposit
price_senior-priced p amount lp e = elim (Option-cases (tranche_value p false)) [
  | inl broken ↦ absurd (ground arith)
  | inr (v, value) ↦ (v, value, ground arith)
]

-- What the credit adds to the tranche's value and shares.
credit_senior-value :
    (p q : StakePool) (amount lp u v : ℕ)
    → p.junior_balance ≤ u64_max
    → p.junior_total_lp ≤ p.total_lp_supply
    → credit_senior p amount lp ≡ ok q
    → tranche_value p false ≡ some u
    → tranche_value q false ≡ some v
    → (v ≡ u + amount) × (tranche_shares q false ≡ tranche_shares p false + lp)
credit_senior-value p q amount lp u v fits shares e before after = ground (
  arith,
  credit_senior-byte p q amount lp e,
  credit_senior-plain p q amount lp u v e,
  credit_senior-tranches p q amount lp u v fits shares e,
)

-- In a sound pool, with or without tranches, the shares that a senior deposit is priced at and
-- credited with are worth at most the deposited amount when they are withdrawn at once.
pub senior_round_trip-le :
    (p q : StakePool) (amount lp w : ℕ)
    → IsSound p
    → price_senior p amount ≡ ok lp
    → credit_senior p amount lp ≡ ok q
    → withdrawal_value q false lp ≡ ok w
    → w ≤ amount
senior_round_trip-le p q amount lp w s priced e paid =
    let (v, after, value) = withdrawal_value-priced q false lp w paid in
    let (u, before, minted) = price_senior-priced p amount lp priced in
    let (grown, shares) =
      credit_senior-value p q amount lp u v s.junior_fits s.shares e before after in
    withdraw_after_deposit-le (tranche_shares p false) u amount lp w minted
      (subst₂ (λ x y. Pricing.calc_collateral_for_withdraw x y lp ≡ some w) shares grown value)

-- In a sound pool with tranches, the shares of a junior deposit that passes the loss gate are worth
-- at most the deposited amount when they are withdrawn at once.
pub junior_round_trip-le :
    (p q : StakePool) (amount lp w : ℕ)
    → IsSound p
    → p.tranche_enabled_byte ≡ 1
    → check_junior_loss p ≡ ok tt
    → price_junior p amount ≡ ok lp
    → credit_junior p amount lp ≡ ok q
    → withdrawal_value q true lp ≡ ok w
    → w ≤ amount
unfolding price_junior calc_junior_lp_for_deposit
junior_round_trip-le p q amount lp w s on gate priced e paid =
    let (grown, shares, byte) = credit_junior-value p q amount lp s.junior_fits on gate e in
    let minted = ok_or-eq-ok _ _ lp priced in
    let value = junior_value-priced q lp w byte paid in
    withdraw_after_deposit-le p.junior_total_lp (effective_junior_balance p) amount lp w minted
      (subst₂ (λ x y. Pricing.calc_collateral_for_withdraw x y lp ≡ some w) shares grown value)
