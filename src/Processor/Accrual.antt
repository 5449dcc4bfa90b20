-- ===== src/Processor/Accrual.antt =====
-- Fee accrual: src/processor.rs, `accrue_fees_inner`, `pre_accrue_fee_modes`, `process_accrue_fees`.
use percolator_stake.Prelude.{
  ℕ, ◌-◌, Bool, true, false, not, ◌&&◌, ◌==◌, ltb, leb, if◌then◌else◌, u64_max, checked_add,
}
use percolator_stake.Error.{
  StakeError, ProgramError, custom, Result, ok, ◌>>=◌, ◌>>◌, fail_if, ok_or,
}
use percolator_stake.Math.Tranche.{distribute_fees}
use percolator_stake.State.{StakePool, Pubkey}
use percolator_stake.State.Pool.{total_pool_value, senior_balance, tranche_enabled}
use percolator_stake.Runtime.{Runtime, AccountInfo, AccountState, Clock}
use percolator_stake.SplToken.State.{token_account}
use percolator_stake.Processor.Guards.{
  fails, check_pool, pool_from_data, validate_account_owner, validate_account_not_empty,
  validate_account_writable, derive_pool_pda,
}

abbrev pub has_juniors : StakePool → Bool
has_juniors pool = tranche_enabled pool && ltb 0 pool.junior_total_lp

-- The tranche balances that weigh the fee, taken before it is booked.
unfoldable pub snapshot : StakePool → Result (ℕ × ℕ)
snapshot pool =
    if has_juniors pool
    then (do
      senior ← ok_or (senior_balance pool) (custom StakeError.overflow)
      ok (pool.junior_balance, senior))
    else ok (0, 0)

-- Junior's share of a fee goes to its balance, which must stay within the pool's value.
unfoldable pub credit_junior : StakePool → (junior_fee : ℕ) → Result StakePool
credit_junior pool junior_fee = do
  balance ← ok_or (checked_add u64_max pool.junior_balance junior_fee) (custom StakeError.overflow)
  let credited = record pool { junior_balance = balance }
  value ← ok_or (total_pool_value credited) (custom StakeError.overflow)
  fails (ltb value credited.junior_balance) StakeError.overflow
  ok credited

-- Books a surplus as a fee, and junior's weighted share of it as junior balance.
unfoldable pub accrue : StakePool → (fee_delta : ℕ) → Result StakePool
accrue pool fee_delta = do
  weights ← snapshot pool
  fees ← ok_or (checked_add u64_max pool.total_fees_earned fee_delta) (custom StakeError.overflow)
  let booked = record pool { total_fees_earned = fees }
  let split = distribute_fees weights.0 weights.1 booked.junior_fee_mult_bps fee_delta
  if has_juniors pool then credit_junior booked split.0 else ok booked

unfoldable pub accrue_fees_inner : StakePool → (current_balance : ℕ) → Result StakePool
accrue_fees_inner pool current_balance = do
  value ← ok_or (total_pool_value pool) (custom StakeError.overflow)
  let surplus = ltb value current_balance && ltb 0 pool.total_lp_supply
  if surplus then accrue pool (current_balance - value) else ok pool

is_live : AccountState → Bool
is_live AccountState.initialized = true
is_live _ = false

module _ (R : Runtime) where
  open R use {Ledger, token_program_id}

  -- `Account::unpack` of the vault and the check that it is initialised.
  unfoldable pub vault_balance : Ledger → AccountInfo → Result ℕ
  unfolding is_live
  vault_balance ledger vault = do
    fail_if (not (vault.owner == token_program_id)) ProgramError.illegal_owner
    token ← ok_or (token_account R ledger vault.key) ProgramError.invalid_account_data
    fail_if (not (is_live token.state)) ProgramError.invalid_account_data
    ok token.amount

  unfoldable pub pre_accrue_fee_modes : Ledger → StakePool → AccountInfo → Result StakePool
  pre_accrue_fee_modes ledger pool vault =
      if leb pool.pool_mode 1
      then (do balance ← vault_balance ledger vault; accrue_fees_inner pool balance)
      else ok pool

  pub record AccrueAccounts : Type 0 where
    pub caller : AccountInfo
    pub pool_ai : AccountInfo
    pub vault_ai : AccountInfo

  unfoldable pub process_accrue_fees :
      (program_id : Pubkey) → AccrueAccounts → Clock → Ledger → Result StakePool
  process_accrue_fees program_id a clock ledger = do
    fail_if (not a.caller.is_signer) ProgramError.missing_required_signature
    validate_account_not_empty a.pool_ai
    validate_account_owner a.pool_ai program_id
    validate_account_writable a.pool_ai
    pool ← pool_from_data a.pool_ai.content
    check_pool pool
    fails (not (a.pool_ai.key == (derive_pool_pda R program_id pool.slab).0)) StakeError.invalid_pda
    fails (ltb 1 pool.pool_mode) StakeError.invalid_pool_mode
    fail_if (not (a.vault_ai.key == pool.vault)) ProgramError.invalid_account_data
    balance ← vault_balance ledger a.vault_ai
    accrued ← accrue_fees_inner pool balance
    ok (record accrued { last_fee_accrual_slot = clock.slot; last_vault_snapshot = balance })
