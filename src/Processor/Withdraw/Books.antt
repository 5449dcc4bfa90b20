-- ===== src/Processor/Withdraw/Books.antt =====
-- The price of a withdrawal, and the pool and the record after it: src/processor.rs,
-- `process_withdraw`.
use percolator_stake.Prelude.{
  ℕ, ◌-◌, min, Bool, not, ◌&&◌, ◌||◌, ◌==◌, ltb, if◌then◌else◌, u64_max, checked_add, checked_sub,
  saturating_add,
}
use percolator_stake.Error.{StakeError, ProgramError, custom, Result, ok, ◌>>=◌, ◌>>◌, ok_or}
use percolator_stake.Math.Hwm.{hwm_withdrawal_allowed}
use percolator_stake.Math.Pricing.{
  calc_junior_collateral_for_withdraw, calc_senior_collateral_for_withdraw,
}
use percolator_stake.State.{StakePool, StakeDeposit, Pubkey}
use percolator_stake.State.Pool.{
  tranche_enabled, hwm_enabled, senior_total_lp, effective_junior_balance, total_pool_value,
  senior_balance, refresh_hwm, calc_collateral_for_withdraw,
}
use percolator_stake.State.Deposit
use percolator_stake.Runtime.{Clock}
use percolator_stake.Processor.Guards.{fails}

abbrev overflow : ProgramError
overflow = custom StakeError.overflow

abbrev pub in_junior : StakePool → (is_junior : Bool) → Bool
in_junior pool is_junior = tranche_enabled pool && is_junior

-- What a burn of `lp_amount` is worth in its tranche, or in the pool where there are none.
unfoldable pub withdrawal_value : StakePool → (is_junior : Bool) → (lp_amount : ℕ) → Result ℕ
withdrawal_value pool is_junior lp_amount =
    if in_junior pool is_junior
    then ok_or
        (calc_junior_collateral_for_withdraw pool.junior_total_lp (effective_junior_balance pool)
          lp_amount)
        overflow
    else if tranche_enabled pool
    then (do
      balance ← ok_or (senior_balance pool) overflow
      ok_or (calc_senior_collateral_for_withdraw (senior_total_lp pool) balance lp_amount) overflow)
    else ok_or (calc_collateral_for_withdraw pool lp_amount) overflow

-- A junior whose tranche is wiped out leaves with nothing.
unfoldable pub fully_wiped : StakePool → (is_junior : Bool) → (withdrawal_amount : ℕ) → Bool
fully_wiped pool is_junior withdrawal_amount =
    in_junior pool is_junior && (effective_junior_balance pool == 0) && (withdrawal_amount == 0)

-- The high-water-mark floor, on the value after the withdrawal.
unfoldable pub enforce_floor :
    StakePool → Clock → (withdrawal_amount : ℕ) → (wiped : Bool) → Result StakePool
enforce_floor pool clock withdrawal_amount wiped =
    if hwm_enabled pool && not wiped
    then (do
      current ← ok_or (total_pool_value pool) overflow
      let marked = refresh_hwm pool clock.epoch current
      post ← ok_or (checked_sub current withdrawal_amount) overflow
      fails (not (hwm_withdrawal_allowed post marked.epoch_high_water_tvl marked.hwm_floor_bps))
          StakeError.withdrawal_below_hwm_floor
      ok marked)
    else ok pool

-- The loss that the last junior leaves behind, at most the loss outstanding.
unfoldable pub forfeited_loss : StakePool → ℕ
forfeited_loss pool =
    min (pool.junior_balance - effective_junior_balance pool)
      (pool.total_flushed - pool.total_returned)

-- Books that loss as settled and realised, and empties the junior balance.
unfoldable pub settle_last_junior : StakePool → Result StakePool
settle_last_junior pool =
    if ltb 0 (forfeited_loss pool)
    then (do
      returned ← ok_or (checked_add u64_max pool.total_returned (forfeited_loss pool)) overflow
      realized ←
          ok_or (checked_add u64_max pool.realized_junior_loss (forfeited_loss pool)) overflow
      ok (record pool {
        total_returned = returned;
        realized_junior_loss = realized;
        junior_balance = 0;
      }))
    else ok (record pool { junior_balance = 0 })

unfoldable pub debit_junior : StakePool → (withdrawal_amount lp_amount : ℕ) → Result StakePool
debit_junior pool withdrawal_amount lp_amount = do
  junior_lp ← ok_or (checked_sub pool.junior_total_lp lp_amount) overflow
  let left = record pool { junior_total_lp = junior_lp }
  if junior_lp == 0 then settle_last_junior left else (do
    balance ← ok_or (checked_sub left.junior_balance withdrawal_amount) overflow
    ok (record left { junior_balance = balance }))

-- The pool totals of a withdrawal.
unfoldable pub debit :
    StakePool → (is_junior : Bool) → (withdrawal_amount lp_amount : ℕ) → Result StakePool
debit pool is_junior withdrawal_amount lp_amount = do
  withdrawn ← ok_or (checked_add u64_max pool.total_withdrawn withdrawal_amount) overflow
  supply ← ok_or (checked_sub pool.total_lp_supply lp_amount) overflow
  let paid = record pool { total_withdrawn = withdrawn; total_lp_supply = supply }
  if in_junior paid is_junior then debit_junior paid withdrawal_amount lp_amount else ok paid

-- The user's record; one that is emptied can be used for either tranche again.
unfoldable pub release : StakeDeposit → (lp_amount : ℕ) → Result StakeDeposit
release deposit lp_amount = do
  left ← ok_or (checked_sub deposit.lp_amount lp_amount) (custom StakeError.insufficient_lp_tokens)
  let reduced = record deposit { lp_amount = left }
  if left == 0 then ok (record reduced { is_initialized = 0; junior_byte = 0 }) else ok reduced

-- The record's checks: whose it is, the cooldown, and the shares it holds.
unfoldable pub check_record :
    StakeDeposit
    → StakePool
    → (user pool_key : Pubkey) → Clock
    → (lp_amount : ℕ) → Result (Unit {0})
check_record deposit pool user pool_key clock lp_amount = do
  fails (not (Deposit.validate_discriminator deposit)) StakeError.invalid_account
  fails
      (not (deposit.is_initialized == 1)
        || not (deposit.user == user)
        || not (deposit.pool == pool_key))
      StakeError.unauthorized
  fails (ltb clock.slot (saturating_add u64_max deposit.last_deposit_slot pool.cooldown_slots))
      StakeError.cooldown_not_elapsed
  fails (ltb deposit.lp_amount lp_amount) StakeError.insufficient_lp_tokens
