-- ===== src/Processor/Withdraw.antt =====
-- Withdrawals from either tranche: src/processor.rs, `process_withdraw`.
pub mod Books
pub mod Steps
pub mod Record
pub mod Floor
unfoldable pub use Books.*
use percolator_stake.Prelude.{ℕ, not, ◌&&◌, [], ◌∷◌, ◌==◌, ltb, if◌then◌else◌}
use percolator_stake.Error.{
  StakeError, ProgramError, custom, Result, ok, ◌>>=◌, ◌>>◌, fail_if, ok_or,
}
use percolator_stake.State.{StakePool, StakeDeposit, Pubkey}
use percolator_stake.State.Deposit
use percolator_stake.Runtime.{Runtime, Seed, AccountInfo, Clock}
use percolator_stake.SplToken.{transfer, burn}
use percolator_stake.SplToken.State.{token_account}
use percolator_stake.Processor.Guards.{
  fails, check_pool, pool_from_data, deposit_from_data, validate_account_owner,
  validate_account_not_empty, validate_account_writable, call, derive_vault_authority,
  derive_deposit_pda, verify_token_program, read_token_account,
}
use percolator_stake.Processor.Accrual.{pre_accrue_fee_modes}

pub record WithdrawAccounts : Type 0 where
  pub user : AccountInfo
  pub pool_pda : AccountInfo
  pub user_lp_ata : AccountInfo
  pub lp_mint : AccountInfo
  pub vault : AccountInfo
  pub user_ata : AccountInfo
  pub vault_auth : AccountInfo
  pub deposit_pda : AccountInfo
  pub token_program : AccountInfo

module _ (R : Runtime) where
  open R use {Ledger}

  pub record Withdrawn : Type 0 where
    pub pool : StakePool
    pub deposit : StakeDeposit
    pub ledger : Ledger
    pub paid : ℕ

  -- The shares come from the signer's own account for the pool's LP mint.
  unfoldable pub check_lp_source :
      Ledger → AccountInfo → (lp_mint user : Pubkey) → Result (Unit {0})
  check_lp_source ledger user_lp_ata lp_mint user = do
    token ← ok_or (token_account R ledger user_lp_ata.key) (custom StakeError.invalid_account)
    fails (not (token.mint == lp_mint)) StakeError.invalid_mint
    fails (not (token.owner == user)) StakeError.unauthorized

  -- The payout goes to an account for the collateral that is not the vault.
  unfoldable pub check_destination :
      Ledger → (user_ata vault : AccountInfo) → (collateral_mint : Pubkey) → Result (Unit {0})
  check_destination ledger user_ata vault collateral_mint = do
    fails (user_ata.key == vault.key) StakeError.invalid_account
    token ← read_token_account R ledger user_ata
    fails (not (token.mint == collateral_mint)) StakeError.invalid_mint

  unfoldable pub check_withdraw_pool :
      (program_id : Pubkey) → WithdrawAccounts → (lp_amount : ℕ) → Ledger → Result StakePool
  check_withdraw_pool program_id a lp_amount ledger = do
    fails (lp_amount == 0) StakeError.zero_amount
    fail_if (not a.user.is_signer) ProgramError.missing_required_signature
    validate_account_not_empty a.pool_pda
    validate_account_owner a.pool_pda program_id
    validate_account_writable a.pool_pda
    pool ← pool_from_data a.pool_pda.content
    check_pool pool
    fails (not (pool.lp_mint == a.lp_mint.key)) StakeError.invalid_mint
    fails (not (pool.vault == a.vault.key)) StakeError.invalid_pda
    verify_token_program R a.token_program
    check_lp_source ledger a.user_lp_ata pool.lp_mint a.user.key
    check_destination ledger a.user_ata a.vault pool.collateral_mint
    fails (not (a.vault_auth.key == (derive_vault_authority R program_id a.pool_pda.key).0))
        StakeError.invalid_account
    ok pool

  unfoldable pub check_withdraw_record :
      (program_id : Pubkey)
      → WithdrawAccounts
      → StakePool
      → Clock
      → (lp_amount : ℕ) → Result StakeDeposit
  check_withdraw_record program_id a pool clock lp_amount = do
    let expected = (derive_deposit_pda R program_id a.pool_pda.key a.user.key).0
    fails (not (a.deposit_pda.key == expected)) StakeError.invalid_pda
    fails (not (a.deposit_pda.owner == program_id)) StakeError.invalid_account
    deposit ← deposit_from_data a.deposit_pda.content
    validate_account_writable a.deposit_pda
    check_record deposit pool a.user.key a.pool_pda.key clock lp_amount
    ok deposit

  -- The shares are burnt and the payout, if there is any, leaves the vault.
  unfoldable pub redeem :
      (program_id : Pubkey)
      → WithdrawAccounts
      → StakePool
      → (withdrawal_amount lp_amount : ℕ) → Ledger
      → Result Ledger
  redeem program_id a pool withdrawal_amount lp_amount ledger = do
    burnt ←
        call R ledger
          (burn a.token_program.key a.user_lp_ata.key a.lp_mint.key a.user.key lp_amount) []
    let derived = (derive_vault_authority R program_id a.pool_pda.key).1
    fails (not (pool.vault_authority_bump == derived)) StakeError.invalid_pda
    if ltb 0 withdrawal_amount
        then call R burnt
            (transfer a.token_program.key a.vault.key a.user_ata.key a.vault_auth.key
              withdrawal_amount)
            (Seed.vault_auth ∷ Seed.key a.pool_pda.key ∷ Seed.bump pool.vault_authority_bump ∷ [])
        else ok burnt

  -- The second half of the handler: price, floor, burn and payout, totals, record.
  unfoldable pub pay_out :
      (program_id : Pubkey)
      → WithdrawAccounts
      → Clock
      → (lp_amount : ℕ) → Ledger
      → StakeDeposit
      → StakePool
      → Result Withdrawn
  pay_out program_id a clock lp_amount ledger deposit accrued = do
    let is_junior = Deposit.is_junior_deposit deposit
    amount ← withdrawal_value accrued is_junior lp_amount
    let wiped = fully_wiped accrued is_junior amount
    fails ((amount == 0) && not wiped) StakeError.zero_amount
    marked ← enforce_floor accrued clock amount wiped
    redeemed ← redeem program_id a marked amount lp_amount ledger
    debited ← debit marked is_junior amount lp_amount
    released ← release deposit lp_amount
    ok (record { pool = debited; deposit = released; ledger = redeemed; paid = amount })

  unfoldable pub process_withdraw :
      (program_id : Pubkey) → WithdrawAccounts → Clock → (lp_amount : ℕ) → Ledger → Result Withdrawn
  process_withdraw program_id a clock lp_amount ledger = do
    pool ← check_withdraw_pool program_id a lp_amount ledger
    deposit ← check_withdraw_record program_id a pool clock lp_amount
    accrued ← pre_accrue_fee_modes R ledger pool a.vault
    pay_out program_id a clock lp_amount ledger deposit accrued
