-- ===== src/Processor/Deposit/Books.antt =====
-- The pool and the record of a deposit, apart from the accounts: src/processor.rs, `process_deposit`
-- and `process_deposit_junior`.
use percolator_stake.Prelude.{
  ℕ, ◌-◌, true, not, ◌&&◌, ◌==◌, ltb, if◌then◌else◌, u64_max, checked_add,
}
use percolator_stake.Error.{StakeError, ProgramError, custom, Result, ok, err, ◌>>=◌, ◌>>◌, ok_or}
use percolator_stake.Math.Pricing.{calc_senior_lp_for_deposit, calc_junior_lp_for_deposit}
use percolator_stake.State.{StakePool, StakeDeposit, Pubkey}
use percolator_stake.State.Pool.{
  tranche_enabled, hwm_enabled, senior_total_lp, effective_junior_balance, total_pool_value,
  senior_balance, principal_tvl, refresh_hwm, calc_lp_for_deposit,
}
use percolator_stake.State.Deposit
use percolator_stake.Runtime.{Clock}
use percolator_stake.Processor.Guards.{fails}

abbrev overflow : ProgramError
overflow = custom StakeError.overflow

-- The cap bounds the principal, without fees; 0 is no cap.
unfoldable pub check_deposit_cap : StakePool → (amount : ℕ) → Result (Unit {0})
check_deposit_cap pool amount =
    if ltb 0 pool.deposit_cap
    then (do
      current ← ok_or (principal_tvl pool) overflow
      new_value ← ok_or (checked_add u64_max current amount) overflow
      fails (ltb pool.deposit_cap new_value) StakeError.deposit_cap_exceeded)
    else ok tt

-- No senior deposit while a loss has spilled past the junior balance.
unfoldable pub check_senior_loss : StakePool → Result (Unit {0})
check_senior_loss pool =
    let net_loss = pool.total_flushed - pool.total_returned in
    fails (tranche_enabled pool && ltb pool.junior_balance net_loss)
      StakeError.insurance_loss_outstanding

-- No junior deposit while flushed insurance is physically outstanding.
unfoldable pub check_junior_loss : StakePool → Result (Unit {0})
check_junior_loss pool =
    let physical_net_loss =
      pool.total_flushed - (pool.total_returned - pool.realized_junior_loss) in
    fails (ltb 0 physical_net_loss) StakeError.insurance_loss_outstanding

unfoldable pub price_senior : StakePool → (amount : ℕ) → Result ℕ
price_senior pool amount =
    if tranche_enabled pool
    then (do
      balance ← ok_or (senior_balance pool) overflow
      ok_or (calc_senior_lp_for_deposit (senior_total_lp pool) balance amount) overflow)
    else ok_or (calc_lp_for_deposit pool amount) overflow

unfoldable pub price_junior : StakePool → (amount : ℕ) → Result ℕ
price_junior pool amount =
    ok_or (calc_junior_lp_for_deposit pool.junior_total_lp (effective_junior_balance pool) amount)
      overflow

-- The pool totals of a deposit.
unfoldable pub credit_senior : StakePool → (amount lp_to_mint : ℕ) → Result StakePool
credit_senior pool amount lp_to_mint = do
  deposited ← ok_or (checked_add u64_max pool.total_deposited amount) overflow
  supply ← ok_or (checked_add u64_max pool.total_lp_supply lp_to_mint) overflow
  ok (record pool { total_deposited = deposited; total_lp_supply = supply })

-- The same, with the junior counters.
unfoldable pub credit_junior : StakePool → (amount lp_to_mint : ℕ) → Result StakePool
credit_junior pool amount lp_to_mint = do
  credited ← credit_senior pool amount lp_to_mint
  junior_lp ← ok_or (checked_add u64_max credited.junior_total_lp lp_to_mint) overflow
  balance ← ok_or (checked_add u64_max credited.junior_balance amount) overflow
  ok (record credited { junior_total_lp = junior_lp; junior_balance = balance })

unfoldable pub raise_mark : StakePool → Clock → Result StakePool
raise_mark pool clock =
    if hwm_enabled pool
    then (do
      value ← ok_or (total_pool_value pool) overflow
      ok (refresh_hwm pool clock.epoch value))
    else ok pool

abbrev pub zeroed : StakeDeposit
zeroed = record {
  is_initialized = 0;
  bump = 0;
  pool = 0;
  user = 0;
  last_deposit_slot = 0;
  lp_amount = 0;
  discriminator = 0;
  junior_byte = 0;
}

-- A record that is not initialised gets its discriminator; any other must have it.
unfoldable pub claim : StakeDeposit → Result StakeDeposit
claim deposit =
    if not (deposit.is_initialized == 1)
    then ok (Deposit.set_discriminator deposit)
    else if not (Deposit.validate_discriminator deposit)
    then err (custom StakeError.invalid_account)
    else ok deposit

-- The last writes of both deposits.
unfoldable pub stamp :
    StakeDeposit → (bump : ℕ) → (pool user : Pubkey) → (slot lp_to_mint : ℕ) → Result StakeDeposit
stamp deposit bump pool user slot lp_to_mint = do
  lp ← ok_or (checked_add u64_max deposit.lp_amount lp_to_mint) overflow
  ok (record deposit {
    is_initialized = 1;
    bump = bump;
    pool = pool;
    user = user;
    last_deposit_slot = slot;
    lp_amount = lp;
  })

unfoldable pub record_senior :
    StakeDeposit → (bump : ℕ) → (pool user : Pubkey) → (slot lp_to_mint : ℕ) → Result StakeDeposit
unfolding claim stamp
record_senior deposit bump pool user slot lp_to_mint = do
  claimed ← claim deposit
  fails (Deposit.is_junior_deposit claimed) StakeError.wrong_tranche
  stamp claimed bump pool user slot lp_to_mint

unfoldable pub record_junior :
    StakeDeposit → (bump : ℕ) → (pool user : Pubkey) → (slot lp_to_mint : ℕ) → Result StakeDeposit
unfolding claim stamp
record_junior deposit bump pool user slot lp_to_mint = do
  claimed ← claim deposit
  fails (not (Deposit.is_junior_deposit claimed) && (claimed.is_initialized == 1))
      StakeError.wrong_tranche
  stamp (Deposit.set_junior_deposit claimed true) bump pool user slot lp_to_mint
