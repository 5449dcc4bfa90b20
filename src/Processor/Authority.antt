-- ===== src/Processor/Authority.antt =====
-- The handlers that hand the wrapper's authorities on: src/processor.rs,
-- `process_bind_insurance_authority`, `process_burn_asset_admin`,
-- `process_rotate_insurance_operator`, `process_rotate_insurance_authority`.
pub mod Seal
pub mod Gate
pub mod Bind
use percolator_stake.Prelude.{ℕ, Bool, true, false, not, ◌&&◌, List, [], ◌∷◌, ◌==◌}
use percolator_stake.Error.{StakeError, ProgramError, Result, ok, err, ◌>>=◌, ◌>>◌, fail_if}
use percolator_stake.State.{StakePool, Pubkey}
use percolator_stake.State.Pool.{asset_admin_burned}
use percolator_stake.Runtime.{Runtime, Seed, AccountInfo}
use percolator_stake.Cpi.Authority.{
  bind_insurance_authority, bind_insurance_operator, burn_asset_admin, rotate_insurance_operator,
  rotate_insurance_authority,
}
use percolator_stake.Processor.Guards.{
  fails, check_pool, pool_from_data, validate_account_owner, validate_account_not_empty,
  validate_account_writable, call, derive_vault_authority,
}
use percolator_stake.Processor.Insurance.{Moved}

pub record BindAccounts : Type 0 where
  pub admin : AccountInfo
  pub pool_pda : AccountInfo
  pub vault_auth : AccountInfo
  pub slab : AccountInfo
  pub percolator_program : AccountInfo

pub record RotateAccounts : Type 0 where
  pub bound : BindAccounts
  pub open bound use *
  pub new_target : AccountInfo

-- The pool's checks; `sealed` asks that the asset admin was not burnt yet.
unfoldable pub check_binding : (sealed : Bool) → StakePool → BindAccounts → Result (Unit {0})
check_binding sealed pool a = do
  check_pool pool
  fails (not (pool.admin == a.admin.key)) StakeError.unauthorized
  fails (sealed && asset_admin_burned pool) StakeError.unauthorized
  fails (not (pool.slab == a.slab.key)) StakeError.invalid_pda
  fails (not (pool.percolator_program == a.percolator_program.key))
      StakeError.invalid_percolator_program

abbrev pub vault_seeds : (pool bump : ℕ) → List Seed
vault_seeds pool bump = Seed.vault_auth ∷ Seed.key pool ∷ Seed.bump bump ∷ []

module _ (R : Runtime) where
  open R use {Ledger}

  unfoldable pub process_bind_insurance_authority :
      (program_id : Pubkey) → BindAccounts → Ledger → Result Ledger
  process_bind_insurance_authority program_id a ledger = do
    fail_if (not a.admin.is_signer) ProgramError.missing_required_signature
    validate_account_owner a.pool_pda program_id
    validate_account_not_empty a.pool_pda
    pool ← pool_from_data a.pool_pda.content
    check_binding false pool a
    let (expected, bump) = derive_vault_authority R program_id a.pool_pda.key
    fails (not (a.vault_auth.key == expected)) StakeError.invalid_pda
    bound ←
        call R ledger
          (bind_insurance_authority a.percolator_program.key a.admin.key a.vault_auth.key
            a.slab.key)
          (vault_seeds a.pool_pda.key bump)
    call R bound
        (bind_insurance_operator a.percolator_program.key a.admin.key a.vault_auth.key a.slab.key)
        (vault_seeds a.pool_pda.key bump)

  unfoldable pub process_burn_asset_admin :
      (program_id : Pubkey) → BindAccounts → Ledger → Result (Moved R)
  process_burn_asset_admin program_id a ledger = do
    fail_if (not a.admin.is_signer) ProgramError.missing_required_signature
    validate_account_writable a.pool_pda
    validate_account_owner a.pool_pda program_id
    validate_account_not_empty a.pool_pda
    pool ← pool_from_data a.pool_pda.content
    check_binding true pool a
    let expected = (derive_vault_authority R program_id a.pool_pda.key).0
    fails (not (a.vault_auth.key == expected)) StakeError.invalid_pda
    burnt ←
        call R ledger
          (burn_asset_admin a.percolator_program.key a.admin.key a.vault_auth.key a.slab.key) []
    ok (record { pool = record pool { asset_admin_burned_byte = 1 }; ledger = burnt })

  -- The checks of both rotations, up to the call.
  unfoldable pub check_rotation : (program_id : Pubkey) → RotateAccounts → Result ℕ
  check_rotation program_id a = do
    fail_if (not a.admin.is_signer) ProgramError.missing_required_signature
    fail_if (not a.new_target.is_signer) ProgramError.missing_required_signature
    validate_account_owner a.pool_pda program_id
    validate_account_not_empty a.pool_pda
    pool ← pool_from_data a.pool_pda.content
    check_binding true pool a.bound
    let (expected, bump) = derive_vault_authority R program_id a.pool_pda.key
    fails (not (a.vault_auth.key == expected)) StakeError.invalid_pda
    ok bump

  unfoldable pub process_rotate_insurance_operator :
      (program_id : Pubkey) → RotateAccounts → Ledger → Result Ledger
  process_rotate_insurance_operator program_id a ledger = do
    bump ← check_rotation program_id a
    call R ledger
        (rotate_insurance_operator a.percolator_program.key a.vault_auth.key a.new_target.key
          a.slab.key)
        (vault_seeds a.pool_pda.key bump)

  unfoldable pub process_rotate_insurance_authority :
      (program_id : Pubkey) → RotateAccounts → Ledger → Result Ledger
  process_rotate_insurance_authority program_id a ledger = do
    bump ← check_rotation program_id a
    call R ledger
        (rotate_insurance_authority a.percolator_program.key a.vault_auth.key a.new_target.key
          a.slab.key)
        (vault_seeds a.pool_pda.key bump)
