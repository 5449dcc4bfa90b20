-- ===== src/Solvency/Isolation.antt =====
-- How losses and withdrawals of one tranche reach the other.
use percolator_stake.Prelude.{
  ℕ, ◌+◌, ◌-◌, ◌*◌, ◌≤◌, ◌<◌, ◌≡◌, ◌⊎◌, inl, inr, true, false, some, arith,
}
use percolator_stake.Error.{ok}
use percolator_stake.Math.Pricing.{
  calc_collateral_for_withdraw, calc_junior_collateral_for_withdraw, calc_collateral-floor,
}
use percolator_stake.State.{StakePool}
use percolator_stake.State.Pool.{total_pool_value, senior_balance, effective_junior_balance}
use percolator_stake.State.Tranches.{effective_junior_balance_lem, total_pool_value_lem}
use percolator_stake.Processor.Insurance.{book_flush, check_available}
use percolator_stake.Processor.Withdraw.{withdrawal_value, debit}
use percolator_stake.Solvency.{IsSound}
use percolator_stake.Solvency.Withdraw.{junior_payout-le, debit_junior-cases}

-- A sound pool whose value is in range has a senior balance, and it is the value less the value
-- behind junior shares.
pub senior_balance_exists :
    (p : StakePool) (v : ℕ)
    → IsSound p
    → total_pool_value p ≡ some v
    → (b : ℕ) × (senior_balance p ≡ some b) × (b + effective_junior_balance p ≡ v)
unfolding senior_balance
senior_balance_exists p v s e =
    let junior = effective_junior_balance_lem p s.junior_fits in
    let value = total_pool_value_lem p v e in
    let covers : effective_junior_balance p ≤ v = ground arith in
    (v - effective_junior_balance p, ground arith, omega arith)

-- In a sound pool, a flush that passes its check takes the amount from the value behind junior
-- shares, down to 0, and only what is left of it from the senior balance.
pub flush_waterfall :
    (p q : StakePool) (amount b c : ℕ)
    → IsSound p
    → check_available p amount ≡ ok tt
    → book_flush p amount ≡ ok q
    → senior_balance p ≡ some b
    → senior_balance q ≡ some c
    → (effective_junior_balance q ≡ effective_junior_balance p - amount)
      × (c + (amount - effective_junior_balance p) ≡ b)
unfolding check_available book_flush senior_balance
flush_waterfall p q amount b c s h e before after = ground (
  arith,
  effective_junior_balance_lem p s.junior_fits,
  effective_junior_balance_lem q,
  total_pool_value_lem p,
  total_pool_value_lem q,
)

-- A junior burn is priced on the value behind junior shares.
pub junior_price-floor :
    (p : StakePool) (lp w n : ℕ)
    → p.tranche_enabled_byte ≡ 1
    → n ≡ p.junior_total_lp
    → withdrawal_value p true lp ≡ ok w
    → (w * (n + 1) ≤ lp * (effective_junior_balance p + 1))
      × (lp * (effective_junior_balance p + 1) < (w + 1) * (n + 1))
unfolding withdrawal_value calc_junior_collateral_for_withdraw
junior_price-floor p lp w n on all e =
    let priced : calc_collateral_for_withdraw p.junior_total_lp (effective_junior_balance p) lp
        ≡ some w =
      ground arith in
    let (_, low, high) =
      calc_collateral-floor p.junior_total_lp (effective_junior_balance p) lp w priced in
    (rw all low, rw all high)

-- In a sound pool with tranches, a junior withdrawal takes its payout from the value behind junior
-- shares: while junior shares are left the senior balance is unchanged. When none are left the
-- value behind them is 0, the payout of the lp shares that were the last is lp * (value + 1) / (lp
-- + 1) rounded down, for the value behind them before, and the senior balance gains that value less
-- the payout.
pub junior_withdrawal_isolated :
    (p q : StakePool) (lp w b c : ℕ)
    → IsSound p
    → p.tranche_enabled_byte ≡ 1
    → lp ≤ p.junior_total_lp
    → withdrawal_value p true lp ≡ ok w
    → debit p true w lp ≡ ok q
    → senior_balance p ≡ some b
    → senior_balance q ≡ some c
    → (0 < q.junior_total_lp)
        × (c ≡ b)
        × (effective_junior_balance q + w ≡ effective_junior_balance p)
      ⊎ (q.junior_total_lp ≡ 0)
        × (c + w ≡ b + effective_junior_balance p)
        × (effective_junior_balance q ≡ 0)
        × (w * (lp + 1) ≤ lp * (effective_junior_balance p + 1))
        × (lp * (effective_junior_balance p + 1) < (w + 1) * (lp + 1))
unfolding senior_balance
junior_withdrawal_isolated p q lp w b c s on bound priced e before after =
    let limit = junior_payout-le p lp w on bound priced in
    let junior = effective_junior_balance_lem p s.junior_fits in
    let junior' = effective_junior_balance_lem q in
    let value = total_pool_value_lem p in
    let value' = total_pool_value_lem q in
    elim (debit_junior-cases p q lp w s.junior_fits on e) [
      | inl (some_left, stored, same) ↦ inl (ground arith, ground arith, ground arith)
      | inr (all, same) ↦
          (let (low, high) = junior_price-floor p lp w lp on all priced in
            inr (ground arith, ground arith, ground arith, low, high))
    ]

-- In a sound pool with tranches, a senior withdrawal lowers the senior balance by its payout and
-- leaves the value behind junior shares and their number as they were.
pub senior_withdrawal_isolated :
    (p q : StakePool) (lp w b c : ℕ)
    → IsSound p
    → p.tranche_enabled_byte ≡ 1
    → debit p false w lp ≡ ok q
    → senior_balance p ≡ some b
    → senior_balance q ≡ some c
    → (c + w ≡ b)
      × (effective_junior_balance q ≡ effective_junior_balance p)
      × (q.junior_total_lp ≡ p.junior_total_lp)
      × (q.total_lp_supply + lp ≡ p.total_lp_supply)
unfolding debit senior_balance
senior_withdrawal_isolated p q lp w b c s on e before after = ground (
  arith,
  effective_junior_balance_lem p s.junior_fits,
  effective_junior_balance_lem q,
  total_pool_value_lem p,
  total_pool_value_lem q,
)
