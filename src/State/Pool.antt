-- ===== src/State/Pool.antt =====
-- The methods of `impl StakePool` in src/state.rs. A sum that the source takes in i128 is written as
-- its positive terms less its negative ones: six u64 terms cannot overflow i128.
use percolator_stake.Prelude.{
  ℕ, ◌+◌, ◌-◌, min, Bool, not, Option, none, some, ◌==◌, ltb, if◌then◌else◌, u64_max,
}
use percolator_stake.Prelude.Checked.{◌>>=◌}
use percolator_stake.Prelude.{checked_sub}
use percolator_stake.Math.Pricing
use percolator_stake.Math.Tranche.{distribute_loss}
use percolator_stake.State.{StakePool, Pubkey, stake_pool_discriminator, current_version}

abbrev pub set_discriminator : StakePool → StakePool
set_discriminator p = record p {
  discriminator = stake_pool_discriminator;
  version = current_version;
}

abbrev pub validate_discriminator : StakePool → Bool
validate_discriminator p = p.discriminator == stake_pool_discriminator

abbrev pub market_resolved : StakePool → Bool
market_resolved p = not (p.market_resolved_byte == 0)

abbrev pub tranche_enabled : StakePool → Bool
tranche_enabled p = p.tranche_enabled_byte == 1

abbrev pub hwm_enabled : StakePool → Bool
hwm_enabled p = p.hwm_enabled_byte == 1

abbrev pub asset_admin_burned : StakePool → Bool
asset_admin_burned p = p.asset_admin_burned_byte == 1

-- `None` where no proposal is outstanding.
unfoldable pub pending_admin_pubkey : StakePool → Option Pubkey
pending_admin_pubkey p = if p.pending_admin == 0 then none else some p.pending_admin

abbrev pub senior_total_lp : StakePool → ℕ
senior_total_lp p = p.total_lp_supply - p.junior_total_lp

unfoldable pub effective_junior_balance : StakePool → ℕ
effective_junior_balance p =
    let net_loss = p.total_flushed - p.total_returned in
    let gross_pool = p.total_deposited - p.total_withdrawn in
    let gross_senior = gross_pool - p.junior_balance in
    if net_loss == 0
    then p.junior_balance
    else p.junior_balance - (distribute_loss p.junior_balance gross_senior net_loss).0

-- The terms that count towards the pool's value, and those that count against it.
abbrev pub value_in : StakePool → ℕ
value_in p = p.total_deposited + p.total_returned + p.total_fees_earned

abbrev pub value_out : StakePool → ℕ
value_out p = p.total_withdrawn + p.total_flushed + p.realized_junior_loss

unfoldable pub total_pool_value : StakePool → Option ℕ
total_pool_value p =
    if ltb (value_in p) (value_out p)
    then none
    else if ltb u64_max (value_in p - value_out p)
    then none
    else some (value_in p - value_out p)

unfoldable pub senior_balance : StakePool → Option ℕ
unfolding total_pool_value
senior_balance p = do value ← total_pool_value p; checked_sub value (effective_junior_balance p)

unfoldable pub wrapper_recoverable : StakePool → ℕ
wrapper_recoverable p = p.total_flushed - p.realized_junior_loss - p.total_recovered_from_wrapper

unfoldable pub wrapper_fully_recovered : StakePool → Bool
unfolding wrapper_recoverable
wrapper_fully_recovered p = wrapper_recoverable p == 0

-- The clamp of a signed value to u64: a negative one becomes 0.
unfoldable pub principal_tvl : StakePool → Option ℕ
principal_tvl p = some (min (p.total_deposited + p.total_returned - value_out p) u64_max)

-- The new state; the result of `refresh_hwm` is its `epoch_high_water_tvl`.
unfoldable pub refresh_hwm : StakePool → (current_epoch current_tvl : ℕ) → StakePool
refresh_hwm p current_epoch current_tvl =
    if not (current_epoch == p.hwm_last_epoch)
    then record p { epoch_high_water_tvl = current_tvl; hwm_last_epoch = current_epoch }
    else if ltb p.epoch_high_water_tvl current_tvl
    then record p { epoch_high_water_tvl = current_tvl }
    else p

unfoldable pub calc_lp_for_deposit : StakePool → (amount : ℕ) → Option ℕ
calc_lp_for_deposit p amount = do
  value ← total_pool_value p
  Pricing.calc_lp_for_deposit p.total_lp_supply value amount

unfoldable pub calc_collateral_for_withdraw : StakePool → (lp_amount : ℕ) → Option ℕ
calc_collateral_for_withdraw p lp_amount = do
  value ← total_pool_value p
  Pricing.calc_collateral_for_withdraw p.total_lp_supply value lp_amount
