-- ===== src/Processor/Proxies.antt =====
-- The handlers that set the wrapper's fees for the admin: src/processor.rs,
-- `validate_group_a_proxy`, `validate_group_b_proxy` and the four `process_admin_update_..` handlers.
pub mod Relay
use percolator_stake.Prelude.{ℕ, not, ◌≡◌, true, some, List, [], ◌∷◌, ◌==◌, arith}
use percolator_stake.Error.{StakeError, ProgramError, Result, ok, err, ◌>>=◌, ◌>>◌, fail_if}
use percolator_stake.State.{StakePool, Pubkey}
use percolator_stake.Runtime.{Runtime, Seed, AccountInfo, AccountData}
use percolator_stake.Cpi.Policy.{
  update_fee_split, update_maintenance_fee_per_slot, update_backing_fee_policy,
  update_trade_fee_policy,
}
use percolator_stake.Processor.Guards.{
  fails, check_pool, pool_from_data, validate_account_owner, validate_account_not_empty, call,
  derive_vault_authority,
}

-- The accounts of group A; group B has the vault authority as well.
pub record ProxyAccounts : Type 0 where
  pub admin : AccountInfo
  pub pool_pda : AccountInfo
  pub vault_auth : AccountInfo
  pub slab : AccountInfo
  pub percolator_program : AccountInfo

-- The result is the bump of the pool's address.
unfoldable pub validate_group_a_proxy :
    (program_id : Pubkey) → (admin pool_pda slab percolator_program : AccountInfo) → Result ℕ
validate_group_a_proxy program_id admin pool_pda slab percolator_program = do
  fail_if (not admin.is_signer) ProgramError.missing_required_signature
  validate_account_owner pool_pda program_id
  validate_account_not_empty pool_pda
  pool ← pool_from_data pool_pda.content
  check_pool pool
  fails (not (pool.admin == admin.key)) StakeError.unauthorized
  fails (not (pool.slab == slab.key)) StakeError.invalid_pda
  fails (not (pool.percolator_program == percolator_program.key))
      StakeError.invalid_percolator_program
  ok pool.bump

abbrev pub pool_seeds : (slab bump : ℕ) → List Seed
pool_seeds slab bump = Seed.stake_pool ∷ Seed.key slab ∷ Seed.bump bump ∷ []

abbrev pub vault_auth_seeds : (pool bump : ℕ) → List Seed
vault_auth_seeds pool bump = Seed.vault_auth ∷ Seed.key pool ∷ Seed.bump bump ∷ []

module _ (R : Runtime) where
  open R use {Ledger, invoke}

  -- The result is the bump of the vault authority.
  unfoldable pub validate_group_b_proxy :
      (program_id : Pubkey)
      → (admin pool_pda vault_auth slab percolator_program : AccountInfo) → Result ℕ
  validate_group_b_proxy program_id admin pool_pda vault_auth slab percolator_program = do
    _ ← validate_group_a_proxy program_id admin pool_pda slab percolator_program
    let (expected, bump) = derive_vault_authority R program_id pool_pda.key
    fails (not (vault_auth.key == expected)) StakeError.invalid_pda
    ok bump

  unfoldable pub process_admin_update_fee_split :
      (program_id : Pubkey)
      → ProxyAccounts
      → (creator_share_bps lp_share_bps insurance_share_bps : ℕ) → Ledger
      → Result Ledger
  process_admin_update_fee_split program_id a creator_share_bps lp_share_bps insurance_share_bps
        ledger =
      do
        bump ← validate_group_a_proxy program_id a.admin a.pool_pda a.slab a.percolator_program
        call R ledger
            (update_fee_split a.percolator_program.key a.pool_pda.key a.slab.key creator_share_bps
              lp_share_bps insurance_share_bps)
            (pool_seeds a.slab.key bump)

  unfoldable pub process_admin_update_maintenance_fee_per_slot :
      (program_id : Pubkey)
      → ProxyAccounts
      → (maintenance_fee_per_slot : ℕ) → Ledger
      → Result Ledger
  process_admin_update_maintenance_fee_per_slot program_id a maintenance_fee_per_slot ledger = do
    bump ← validate_group_a_proxy program_id a.admin a.pool_pda a.slab a.percolator_program
    call R ledger
        (update_maintenance_fee_per_slot a.percolator_program.key a.pool_pda.key a.slab.key
          maintenance_fee_per_slot)
        (pool_seeds a.slab.key bump)

  unfoldable pub process_admin_update_backing_fee_policy :
      (program_id : Pubkey)
      → ProxyAccounts
      → (domain fee_bps insurance_share_bps : ℕ) → Ledger
      → Result Ledger
  process_admin_update_backing_fee_policy program_id a domain fee_bps insurance_share_bps ledger =
      do
        bump ←
            validate_group_b_proxy program_id a.admin a.pool_pda a.vault_auth a.slab
              a.percolator_program
        call R ledger
            (update_backing_fee_policy a.percolator_program.key a.vault_auth.key a.slab.key domain
              fee_bps insurance_share_bps)
            (vault_auth_seeds a.pool_pda.key bump)

  unfoldable pub process_admin_update_trade_fee_policy :
      (program_id : Pubkey) → ProxyAccounts → (trade_fee_base_bps : ℕ) → Ledger → Result Ledger
  process_admin_update_trade_fee_policy program_id a trade_fee_base_bps ledger = do
    bump ←
        validate_group_b_proxy program_id a.admin a.pool_pda a.vault_auth a.slab
          a.percolator_program
    call R ledger
        (update_trade_fee_policy a.percolator_program.key a.vault_auth.key a.slab.key
          trade_fee_base_bps)
        (vault_auth_seeds a.pool_pda.key bump)
