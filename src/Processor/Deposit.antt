-- ===== src/Processor/Deposit.antt =====
-- Deposits into the senior (or only) tranche and into the junior tranche: src/processor.rs,
-- `process_deposit` and `process_deposit_junior`.
pub mod Books
pub mod Steps
pub mod Records
pub mod Cap
unfoldable pub use Books.*
use percolator_stake.Prelude.{ℕ, Bool, true, false, not, ◌&&◌, [], ◌∷◌, ◌==◌, if◌then◌else◌}
use percolator_stake.Error.{StakeError, ProgramError, Result, ok, ◌>>=◌, ◌>>◌, fail_if}
use percolator_stake.State.{StakePool, StakeDeposit, Pubkey}
use percolator_stake.State.Pool.{market_resolved, tranche_enabled}
use percolator_stake.State.Deposit
use percolator_stake.Runtime.{Runtime, Seed, AccountInfo, Clock}
use percolator_stake.SplToken.{transfer, mint_to}
use percolator_stake.Processor.Guards.{
  fails, check_pool, pool_from_data, deposit_from_data, data_is_empty, stake_deposit_size,
  validate_account_owner, validate_account_not_empty, validate_account_writable,
  apply_minimum_liquidity_lock, call, derive_vault_authority, derive_deposit_pda,
  verify_token_program, validate_source_account, validate_lp_recipient_account, create_or_adopt_pda,
}
use percolator_stake.Processor.Accrual.{pre_accrue_fee_modes}

-- The accounts of both instructions.
pub record DepositAccounts : Type 0 where
  pub user : AccountInfo
  pub pool_pda : AccountInfo
  pub user_ata : AccountInfo
  pub vault : AccountInfo
  pub lp_mint : AccountInfo
  pub user_lp_ata : AccountInfo
  pub vault_auth : AccountInfo
  pub deposit_pda : AccountInfo
  pub token_program : AccountInfo

module _ (R : Runtime) where
  open R use {Ledger}

  pub record Deposited : Type 0 where
    pub pool : StakePool
    pub deposit : StakeDeposit
    pub ledger : Ledger

  -- The user's collateral goes to the vault, and the shares but for the dead ones to the user.
  unfoldable pub exchange :
      (program_id : Pubkey) → DepositAccounts → (amount mint_amount : ℕ) → Ledger → Result Ledger
  exchange program_id a amount mint_amount ledger = do
    paid ←
        call R ledger (transfer a.token_program.key a.user_ata.key a.vault.key a.user.key amount) []
    let bump = (derive_vault_authority R program_id a.pool_pda.key).1
    call R paid
        (mint_to a.token_program.key a.lp_mint.key a.user_lp_ata.key a.vault_auth.key mint_amount)
        (Seed.vault_auth ∷ Seed.key a.pool_pda.key ∷ Seed.bump bump ∷ [])

  -- The user's deposit record, created if there is none yet.
  unfoldable pub open_record :
      (program_id : Pubkey) → DepositAccounts → Ledger → Result (StakeDeposit × Ledger)
  open_record program_id a ledger = do
    let (expected, bump) = derive_deposit_pda R program_id a.pool_pda.key a.user.key
    let fresh = data_is_empty a.deposit_pda.content
    fails (not (a.deposit_pda.key == expected)) StakeError.invalid_pda
    fails (not fresh && not (a.deposit_pda.owner == program_id)) StakeError.invalid_account
    if fresh
        then (do
          created ←
              create_or_adopt_pda R ledger a.deposit_pda.key a.user.key program_id
                stake_deposit_size
                (Seed.stake_deposit
                  ∷ Seed.key a.pool_pda.key
                  ∷ Seed.key a.user.key
                  ∷ Seed.bump bump
                  ∷ [])
          ok (zeroed, created))
        else (do deposit ← deposit_from_data a.deposit_pda.content; ok (deposit, ledger))

  -- The checks on the accounts and on the pool, up to the pricing.
  unfoldable pub check_deposit :
      (program_id : Pubkey)
      → (junior : Bool) → DepositAccounts
      → (amount : ℕ) → Ledger
      → Result StakePool
  check_deposit program_id junior a amount ledger = do
    fails (amount == 0) StakeError.zero_amount
    fail_if (not a.user.is_signer) ProgramError.missing_required_signature
    validate_account_not_empty a.pool_pda
    validate_account_owner a.pool_pda program_id
    validate_account_writable a.pool_pda
    pool ← pool_from_data a.pool_pda.content
    check_pool pool
    fails (junior && not (tranche_enabled pool)) StakeError.tranche_not_enabled
    fails (not (pool.lp_mint == a.lp_mint.key)) StakeError.invalid_mint
    fails (not (pool.vault == a.vault.key)) StakeError.invalid_pda
    fails (market_resolved pool) StakeError.market_resolved
    fails (not (a.vault_auth.key == (derive_vault_authority R program_id a.pool_pda.key).0))
        StakeError.invalid_account
    check_deposit_cap pool amount
    verify_token_program R a.token_program
    validate_source_account R ledger a.user_ata pool.collateral_mint a.user.key
        (if junior then StakeError.invalid_account else StakeError.invalid_mint)
    validate_lp_recipient_account R ledger a.user_lp_ata pool.lp_mint a.user.key
    ok pool

  unfoldable pub process_deposit :
      (program_id : Pubkey) → DepositAccounts → Clock → (amount : ℕ) → Ledger → Result Deposited
  process_deposit program_id a clock amount ledger = do
    pool ← check_deposit program_id false a amount ledger
    accrued ← pre_accrue_fee_modes R ledger pool a.vault
    check_senior_loss accrued
    lp_to_mint ← price_senior accrued amount
    fails (lp_to_mint == 0) StakeError.zero_shares_minted
    mint_amount ← apply_minimum_liquidity_lock accrued.total_lp_supply lp_to_mint
    exchanged ← exchange program_id a amount mint_amount ledger
    credited ← credit_senior accrued amount lp_to_mint
    marked ← raise_mark credited clock
    opened ← open_record program_id a exchanged
    let bump = (derive_deposit_pda R program_id a.pool_pda.key a.user.key).1
    deposit ← record_senior opened.0 bump a.pool_pda.key a.user.key clock.slot lp_to_mint
    ok (record { pool = marked; deposit = deposit; ledger = opened.1 })

  unfoldable pub process_deposit_junior :
      (program_id : Pubkey) → DepositAccounts → Clock → (amount : ℕ) → Ledger → Result Deposited
  process_deposit_junior program_id a clock amount ledger = do
    pool ← check_deposit program_id true a amount ledger
    accrued ← pre_accrue_fee_modes R ledger pool a.vault
    check_junior_loss accrued
    lp_to_mint ← price_junior accrued amount
    fails (lp_to_mint == 0) StakeError.zero_shares_minted
    mint_amount ← apply_minimum_liquidity_lock accrued.total_lp_supply lp_to_mint
    exchanged ← exchange program_id a amount mint_amount ledger
    credited ← credit_junior accrued amount lp_to_mint
    marked ← raise_mark credited clock
    opened ← open_record program_id a exchanged
    let bump = (derive_deposit_pda R program_id a.pool_pda.key a.user.key).1
    deposit ← record_junior opened.0 bump a.pool_pda.key a.user.key clock.slot lp_to_mint
    ok (record { pool = marked; deposit = deposit; ledger = opened.1 })
