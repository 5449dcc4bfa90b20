-- ===== src/Processor/Insurance.antt =====
-- Insurance that leaves the vault and comes back: src/processor.rs, `process_flush_to_insurance`,
-- `process_return_insurance`, `process_recover_flushed_insurance`.
pub mod Recoverable
use percolator_stake.Prelude.{ℕ, ◌-◌, not, List, [], ◌∷◌, ◌==◌, ltb, u64_max, checked_add}
use percolator_stake.Error.{
  StakeError, ProgramError, custom, Result, ok, ◌>>=◌, ◌>>◌, fail_if, ok_or,
}
use percolator_stake.State.{StakePool, Pubkey}
use percolator_stake.State.Pool.{market_resolved, total_pool_value, wrapper_recoverable}
use percolator_stake.Runtime.{Runtime, Seed, AccountInfo}
use percolator_stake.SplToken.{transfer}
use percolator_stake.Cpi.{top_up_insurance, withdraw_insurance_asset}
use percolator_stake.Processor.Guards.{
  fails, check_pool, pool_from_data, validate_account_owner, validate_account_not_empty,
  validate_account_writable, call, derive_vault_authority, verify_token_program, read_token_account,
  validate_source_account,
}

abbrev overflow : ProgramError
overflow = custom StakeError.overflow

-- A flush lowers the water mark by the loss.
unfoldable pub book_flush : StakePool → (amount : ℕ) → Result StakePool
book_flush pool amount = do
  flushed ← ok_or (checked_add u64_max pool.total_flushed amount) overflow
  ok (record pool {
    total_flushed = flushed;
    epoch_high_water_tvl = pool.epoch_high_water_tvl - amount;
  })

unfoldable pub book_return : StakePool → (amount : ℕ) → Result StakePool
book_return pool amount = do
  returned ← ok_or (checked_add u64_max pool.total_returned amount) overflow
  ok (record pool { total_returned = returned })

unfoldable pub book_recovery : StakePool → (amount : ℕ) → Result StakePool
book_recovery pool amount = do
  returned ← ok_or (checked_add u64_max pool.total_returned amount) overflow
  recovered ← ok_or (checked_add u64_max pool.total_recovered_from_wrapper amount) overflow
  ok (record pool { total_returned = returned; total_recovered_from_wrapper = recovered })

-- At most the pool's value can be flushed.
unfoldable pub check_available : StakePool → (amount : ℕ) → Result (Unit {0})
check_available pool amount = do
  available ← ok_or (total_pool_value pool) overflow
  fails (ltb available amount) StakeError.insufficient_vault_balance

-- At most the unsettled loss can be returned.
unfoldable pub check_outstanding : StakePool → (amount : ℕ) → Result (Unit {0})
check_outstanding pool amount =
    fail_if (ltb (pool.total_flushed - pool.total_returned) amount) ProgramError.invalid_argument

-- At most what is recoverable from the wrapper can be recovered.
unfoldable pub check_recoverable : StakePool → (amount : ℕ) → Result (Unit {0})
check_recoverable pool amount = do
  fails (amount == 0) StakeError.zero_amount
  fails (wrapper_recoverable pool == 0) StakeError.insufficient_vault_balance
  fails (ltb (wrapper_recoverable pool) amount) StakeError.insufficient_vault_balance

pub record FlushAccounts : Type 0 where
  pub caller : AccountInfo
  pub pool_pda : AccountInfo
  pub vault : AccountInfo
  pub vault_auth : AccountInfo
  pub slab : AccountInfo
  pub wrapper_vault : AccountInfo
  pub percolator_program : AccountInfo
  pub token_program : AccountInfo

pub record ReturnAccounts : Type 0 where
  pub admin : AccountInfo
  pub pool_pda : AccountInfo
  pub admin_ata : AccountInfo
  pub vault : AccountInfo
  pub token_program : AccountInfo

pub record RecoverAccounts : Type 0 where
  pub pool_pda : AccountInfo
  pub vault : AccountInfo
  pub vault_auth : AccountInfo
  pub market : AccountInfo
  pub wrapper_vault : AccountInfo
  pub wrapper_vault_auth : AccountInfo
  pub token_program : AccountInfo
  pub percolator_program : AccountInfo

module _ (R : Runtime) where
  open R use {Ledger, token_program_id}

  pub record Moved : Type 0 where
    pub pool : StakePool
    pub ledger : Ledger

  abbrev vault_seeds : (pool_key bump : ℕ) → List Seed
  vault_seeds pool_key bump = Seed.vault_auth ∷ Seed.key pool_key ∷ Seed.bump bump ∷ []

  -- The wrapper's vault must be a token account for the collateral.
  unfoldable pub check_wrapper_vault :
      Ledger → AccountInfo → (collateral_mint : Pubkey) → Result (Unit {0})
  check_wrapper_vault ledger wrapper_vault collateral_mint = do
    token ← read_token_account R ledger wrapper_vault
    fails (not (token.mint == collateral_mint)) StakeError.invalid_mint

  unfoldable pub process_flush_to_insurance :
      (program_id : Pubkey) → FlushAccounts → (amount : ℕ) → Ledger → Result Moved
  process_flush_to_insurance program_id a amount ledger = do
    fails (amount == 0) StakeError.zero_amount
    fail_if (not a.caller.is_signer) ProgramError.missing_required_signature
    validate_account_owner a.pool_pda program_id
    validate_account_not_empty a.pool_pda
    validate_account_writable a.pool_pda
    verify_token_program R a.token_program
    pool ← pool_from_data a.pool_pda.content
    check_pool pool
    fails (not (pool.admin == a.caller.key)) StakeError.unauthorized
    fails (not (pool.slab == a.slab.key)) StakeError.invalid_pda
    fails (not (pool.vault == a.vault.key)) StakeError.invalid_pda
    fails (not (pool.percolator_program == a.percolator_program.key))
        StakeError.invalid_percolator_program
    fails (not (pool.pool_mode == 0)) StakeError.invalid_pool_mode
    fails (market_resolved pool) StakeError.market_resolved
    check_wrapper_vault ledger a.wrapper_vault pool.collateral_mint
    check_available pool amount
    let (expected, bump) = derive_vault_authority R program_id a.pool_pda.key
    fails (not (a.vault_auth.key == expected)) StakeError.invalid_pda
    flushed ←
        call R ledger
          (top_up_insurance a.percolator_program.key a.vault_auth.key a.slab.key a.vault.key
            a.wrapper_vault.key a.token_program.key amount)
          (vault_seeds a.pool_pda.key bump)
    booked ← book_flush pool amount
    ok (record { pool = booked; ledger = flushed })

  unfoldable pub process_return_insurance :
      (program_id : Pubkey) → ReturnAccounts → (amount : ℕ) → Ledger → Result Moved
  process_return_insurance program_id a amount ledger = do
    fails (amount == 0) StakeError.zero_amount
    fail_if (not a.admin.is_signer) ProgramError.missing_required_signature
    verify_token_program R a.token_program
    validate_account_owner a.pool_pda program_id
    validate_account_not_empty a.pool_pda
    validate_account_writable a.pool_pda
    validate_account_writable a.vault
    pool ← pool_from_data a.pool_pda.content
    check_pool pool
    fails (not (pool.admin == a.admin.key)) StakeError.unauthorized
    fails (not (pool.vault == a.vault.key)) StakeError.invalid_pda
    fail_if (not (a.vault.owner == token_program_id)) ProgramError.illegal_owner
    check_outstanding pool amount
    validate_source_account R ledger a.admin_ata pool.collateral_mint a.admin.key
        StakeError.invalid_mint
    paid ←
        call R ledger (transfer a.token_program.key a.admin_ata.key a.vault.key a.admin.key amount)
          []
    booked ← book_return pool amount
    ok (record { pool = booked; ledger = paid })

  unfoldable pub process_recover_flushed_insurance :
      (program_id : Pubkey) → RecoverAccounts → (amount : ℕ) → Ledger → Result Moved
  process_recover_flushed_insurance program_id a amount ledger = do
    verify_token_program R a.token_program
    validate_account_owner a.pool_pda program_id
    validate_account_not_empty a.pool_pda
    validate_account_writable a.pool_pda
    pool ← pool_from_data a.pool_pda.content
    check_pool pool
    fails (not (pool.pool_mode == 0)) StakeError.invalid_pool_mode
    check_recoverable pool amount
    fails (not (pool.percolator_program == a.percolator_program.key))
        StakeError.invalid_percolator_program
    fails (not (pool.vault == a.vault.key)) StakeError.invalid_pda
    let (expected, bump) = derive_vault_authority R program_id a.pool_pda.key
    fails (not (a.vault_auth.key == expected)) StakeError.invalid_pda
    recovered ←
        call R ledger
          (withdraw_insurance_asset a.percolator_program.key a.vault_auth.key a.market.key
            a.vault.key a.wrapper_vault.key a.wrapper_vault_auth.key a.token_program.key amount)
          (vault_seeds a.pool_pda.key bump)
    booked ← book_recovery pool amount
    ok (record { pool = booked; ledger = recovered })
