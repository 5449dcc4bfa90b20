-- ===== src/Solvency/Withdraw.antt =====
-- Withdrawals keep the invariant, and pay no more than the tranche's value.
use percolator_stake.Prelude.{
  ℕ, ◌+◌, ◌-◌, ◌≤◌, ◌<◌, ◌≡◌, ap, ◌⊎◌, Bool, true, Option, some, min, inl, inr, Option-cases, arith,
  u64_max, if◌then◌else◌,
}
use percolator_stake.Error.{ok}
use percolator_stake.Runtime.{Clock}
use percolator_stake.Math.Pricing
use percolator_stake.Math.Pricing.{
  calc_junior_collateral_for_withdraw, calc_senior_collateral_for_withdraw,
}
use percolator_stake.Math.RoundTrip.{withdraw_price-le}
use percolator_stake.State.{StakePool}
use percolator_stake.State.Pool.{
  total_pool_value, senior_balance, senior_total_lp, effective_junior_balance, refresh_hwm,
  calc_collateral_for_withdraw, tranche_enabled,
}
use percolator_stake.State.Tranches.{effective_junior_balance_lem, total_pool_value_lem}
use percolator_stake.Processor.Withdraw.{
  withdrawal_value, enforce_floor, debit, debit_junior, settle_last_junior, forfeited_loss,
  in_junior,
}
use percolator_stake.Solvency.{IsSound}

-- The shares and the value that a withdrawal is priced against.
abbrev pub tranche_shares : StakePool → Bool → ℕ
tranche_shares p is_junior =
    if in_junior p is_junior
    then p.junior_total_lp
    else if tranche_enabled p
    then senior_total_lp p
    else p.total_lp_supply

abbrev pub tranche_value : StakePool → Bool → Option ℕ
tranche_value p is_junior =
    if in_junior p is_junior
    then some (effective_junior_balance p)
    else if tranche_enabled p
    then senior_balance p
    else total_pool_value p

-- Every withdrawal is priced by the same formula, on the shares and the value of its tranche.
pub withdrawal_value-priced :
    (p : StakePool) (is_junior : Bool) (lp w : ℕ)
    → withdrawal_value p is_junior lp ≡ ok w
    → (v : ℕ) × (tranche_value p is_junior ≡ some v)
      × (Pricing.calc_collateral_for_withdraw (tranche_shares p is_junior) v lp ≡ some w)
unfolding withdrawal_value calc_junior_collateral_for_withdraw calc_senior_collateral_for_withdraw
    calc_collateral_for_withdraw
withdrawal_value-priced p is_junior lp w e = elim (Option-cases (tranche_value p is_junior)) [
  | inl broken ↦ absurd (ground arith)
  | inr (v, value) ↦ (v, value, ground arith)
]

-- A withdrawal of no more shares than its tranche has is worth at most the value of the tranche.
pub withdrawal_value-le :
    (p : StakePool) (is_junior : Bool) (lp w : ℕ)
    → lp ≤ tranche_shares p is_junior
    → withdrawal_value p is_junior lp ≡ ok w
    → (v : ℕ) × (tranche_value p is_junior ≡ some v) × (w ≤ v)
withdrawal_value-le p is_junior lp w bound e =
    let (v, value, priced) = withdrawal_value-priced p is_junior lp w e in
    (v, value, (withdraw_price-le (tranche_shares p is_junior) v lp w bound priced).0)

-- What the last junior's exit settles: the outstanding loss, up to the stored balance.
settle_last_junior-eq :
    (p q : StakePool)
    → p.junior_balance ≤ u64_max
    → settle_last_junior p ≡ ok q
    → q ≡ record p {
      total_returned = p.total_returned + min p.junior_balance (p.total_flushed - p.total_returned);
      realized_junior_loss =
          p.realized_junior_loss + min p.junior_balance (p.total_flushed - p.total_returned);
      junior_balance = 0;
    }
unfolding settle_last_junior forfeited_loss
settle_last_junior-eq p q fits e = ground (arith, effective_junior_balance_lem p fits)

-- A withdrawal of at most the tranche's shares keeps the invariant.
pub debit-IsSound :
    (p q : StakePool) (is_junior : Bool) (lp w : ℕ)
    → IsSound p
    → lp ≤ tranche_shares p is_junior
    → withdrawal_value p is_junior lp ≡ ok w
    → debit p is_junior w lp ≡ ok q
    → IsSound q
unfolding debit debit_junior senior_balance
debit-IsSound p q is_junior lp w s bound priced e =
    let paid : StakePool = record p {
      total_withdrawn = p.total_withdrawn + w;
      total_lp_supply = p.total_lp_supply - lp;
      junior_total_lp = p.junior_total_lp - lp;
    } in
    let (v, value, limit) = withdrawal_value-le p is_junior lp w bound priced in
    ground (
      arith,
      value,
      limit,
      settle_last_junior-eq paid q,
      effective_junior_balance_lem p s.junior_fits,
      total_pool_value_lem p,
    )

-- The floor changes the water mark alone.
pub enforce_floor-IsSound :
    (p q : StakePool) (clock : Clock) (w : ℕ) (wiped : Bool)
    → IsSound p
    → enforce_floor p clock w wiped ≡ ok q
    → IsSound q
unfolding enforce_floor refresh_hwm
enforce_floor-IsSound p q clock w wiped s e = ground arith

-- A junior withdrawal of no more shares than there are pays at most the value behind them.
pub junior_payout-le :
    (p : StakePool) (lp w : ℕ)
    → p.tranche_enabled_byte ≡ 1
    → lp ≤ p.junior_total_lp
    → withdrawal_value p true lp ≡ ok w
    → w ≤ effective_junior_balance p
junior_payout-le p lp w on bound e =
    let (v, value, limit) = withdrawal_value-le p true lp w (ground arith) e in ground arith

-- What a junior withdrawal changes, for the last shares and for others.
pub debit_junior-cases :
    (p q : StakePool) (lp w : ℕ)
    → p.junior_balance ≤ u64_max
    → p.tranche_enabled_byte ≡ 1
    → debit p true w lp ≡ ok q
    → let paid = record p {
      total_withdrawn = p.total_withdrawn + w;
      total_lp_supply = p.total_lp_supply - lp;
      junior_total_lp = p.junior_total_lp - lp;
    } in
      let loss = min p.junior_balance (p.total_flushed - p.total_returned) in
      (lp < p.junior_total_lp)
        × (w ≤ p.junior_balance)
        × (q ≡ record paid { junior_balance = p.junior_balance - w })
      ⊎ (lp ≡ p.junior_total_lp)
        × (q ≡ record paid {
          total_returned = p.total_returned + loss;
          realized_junior_loss = p.realized_junior_loss + loss;
          junior_balance = 0;
        })
unfolding debit debit_junior
debit_junior-cases p q lp w fits on e =
    let paid : StakePool = record p {
      total_withdrawn = p.total_withdrawn + w;
      total_lp_supply = p.total_lp_supply - lp;
      junior_total_lp = p.junior_total_lp - lp;
    } in
    ground (arith, settle_last_junior-eq paid q)

pub enforce_floor-eq :
    (p q : StakePool) (clock : Clock) (w : ℕ) (wiped : Bool)
    → enforce_floor p clock w wiped ≡ ok q
    → q ≡ record p {
      epoch_high_water_tvl = q.epoch_high_water_tvl;
      hwm_last_epoch = q.hwm_last_epoch;
    }
unfolding enforce_floor refresh_hwm
enforce_floor-eq p q clock w wiped e = ground arith

-- The floor changes neither the price of a withdrawal nor the shares that it is priced against.
pub enforce_floor-priced :
    (p q : StakePool) (clock : Clock) (w : ℕ) (wiped : Bool)
    → enforce_floor p clock w wiped ≡ ok q
    → (is_junior : Bool) (lp : ℕ)
    → (withdrawal_value q is_junior lp ≡ withdrawal_value p is_junior lp)
      × (tranche_shares q is_junior ≡ tranche_shares p is_junior)
unfolding withdrawal_value senior_balance total_pool_value effective_junior_balance
    calc_collateral_for_withdraw
enforce_floor-priced p q clock w wiped e is_junior lp =
    let same = enforce_floor-eq p q clock w wiped e in
    (
      ap (λ (x : StakePool). withdrawal_value x is_junior lp) same,
      ap (λ (x : StakePool). tranche_shares x is_junior) same,
    )
