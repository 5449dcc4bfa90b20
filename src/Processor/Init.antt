-- ===== src/Processor/Init.antt =====
-- Pool initialisation: src/processor.rs, `process_init_pool` and `process_init_trading_pool`.
use percolator_stake.Prelude.{ℕ, Bool, not, ◌&&◌, ◌||◌, none, [], ◌∷◌, ◌==◌}
use percolator_stake.Error.{
  StakeError, ProgramError, custom, Result, ok, ◌>>=◌, ◌>>◌, fail_if, ok_or,
}
use percolator_stake.State.{StakePool, Pubkey}
use percolator_stake.State.Pool.{set_discriminator, validate_discriminator}
use percolator_stake.Runtime.{Runtime, Seed, AccountInfo}
use percolator_stake.SplToken.{initialize_mint, initialize_account}
use percolator_stake.SplToken.State.{unpack_mint}
use percolator_stake.Cpi.Authority.{update_authority}
use percolator_stake.Processor.Guards.{
  fails, data_is_empty, validate_cooldown_slots, call, derive_pool_pda, derive_vault_authority,
  verify_token_program, create_or_adopt_pda,
}
use percolator_stake.Processor.Insurance.{Moved}

-- "ESa89R5Es3rJ5mnwGybVRG1GrNt9etP11Z5V2QWD4edv" and
-- "DhSkE7uTb8HBUYYWF1xkxMYBGtLYJEoDq1tfBD7SnHcj".
abbrev pub percolator_mainnet : Pubkey
percolator_mainnet = 0x292b1bf174263a57cd28b4eb574ec9b602b7ede51fdf400d06df7fa91ce7b4c7

abbrev pub percolator_devnet : Pubkey
percolator_devnet = 0xb063df73ce98bfae97ab37ed224181c81eb7ab773cd4d9ca77be0450f495a8bc

-- The size of a pool's account.
abbrev stake_pool_size : ℕ
stake_pool_size = 408

pub record InitAccounts : Type 0 where
  pub admin : AccountInfo
  pub slab : AccountInfo
  pub pool_pda : AccountInfo
  pub lp_mint : AccountInfo
  pub vault : AccountInfo
  pub vault_auth : AccountInfo
  pub collateral_mint : AccountInfo
  pub percolator_program : AccountInfo
  pub token_program : AccountInfo
  pub rent_sysvar : AccountInfo

-- A pool account as it is created: all bytes are 0.
abbrev zeroed : StakePool
zeroed = record {
  is_initialized = 0;
  bump = 0;
  vault_authority_bump = 0;
  admin_transferred = 0;
  slab = 0;
  admin = 0;
  collateral_mint = 0;
  lp_mint = 0;
  vault = 0;
  total_deposited = 0;
  total_lp_supply = 0;
  cooldown_slots = 0;
  deposit_cap = 0;
  total_flushed = 0;
  total_returned = 0;
  total_withdrawn = 0;
  percolator_program = 0;
  total_fees_earned = 0;
  last_fee_accrual_slot = 0;
  last_vault_snapshot = 0;
  pool_mode = 0;
  pending_admin = 0;
  total_recovered_from_wrapper = 0;
  pending_cooldown_slots = 0;
  cooldown_proposed_at_slot = 0;
  discriminator = 0;
  version = 0;
  market_resolved_byte = 0;
  hwm_enabled_byte = 0;
  hwm_floor_bps = 0;
  epoch_high_water_tvl = 0;
  hwm_last_epoch = 0;
  tranche_enabled_byte = 0;
  junior_balance = 0;
  junior_total_lp = 0;
  junior_fee_mult_bps = 0;
  realized_junior_loss = 0;
  asset_admin_burned_byte = 0;
}

-- The writes to the pool.
unfoldable pub fresh_pool :
    InitAccounts → (pool_bump vault_auth_bump cooldown_slots deposit_cap : ℕ) → StakePool
fresh_pool a pool_bump vault_auth_bump cooldown_slots deposit_cap =
    set_discriminator (record zeroed {
      is_initialized = 1;
      bump = pool_bump;
      vault_authority_bump = vault_auth_bump;
      slab = a.slab.key;
      admin = a.admin.key;
      collateral_mint = a.collateral_mint.key;
      lp_mint = a.lp_mint.key;
      vault = a.vault.key;
      cooldown_slots = cooldown_slots;
      deposit_cap = deposit_cap;
      percolator_program = a.percolator_program.key;
    })

-- `devnet` is the build feature of that name.
module _ (R : Runtime) (devnet : Bool) where
  open R use {Ledger, token_program_id, account_data, account_owner, rent_sysvar_id, is_rent}

  unfoldable pub check_init :
      (program_id : Pubkey) → InitAccounts → (cooldown_slots : ℕ) → Ledger → Result (Unit {0})
  check_init program_id a cooldown_slots ledger = do
    fail_if (not a.admin.is_signer) ProgramError.missing_required_signature
    fails
        (not (
          (a.percolator_program.key == percolator_mainnet)
          || (devnet && (a.percolator_program.key == percolator_devnet))))
        StakeError.invalid_percolator_program
    validate_cooldown_slots cooldown_slots
    let expected_pool = (derive_pool_pda R program_id a.slab.key).0
    fails (not (a.pool_pda.key == expected_pool)) StakeError.invalid_pda
    fails (not (data_is_empty a.pool_pda.content)) StakeError.already_initialized
    let expected_vault_auth = (derive_vault_authority R program_id expected_pool).0
    fails (not (a.vault_auth.key == expected_vault_auth)) StakeError.invalid_pda
    fails (a.lp_mint.key == a.collateral_mint.key) StakeError.invalid_mint
    verify_token_program R a.token_program
    fails (not (a.slab.owner == a.percolator_program.key)) StakeError.invalid_percolator_program
    fail_if (not a.slab.is_writable) ProgramError.invalid_argument
    fail_if (not (is_rent ledger a.rent_sysvar.key)) ProgramError.invalid_argument

  -- The pool account, the market's authority, the LP mint with the collateral's decimals, the vault.
  unfoldable pub set_up :
      (program_id : Pubkey)
      → InitAccounts
      → (pool_bump vault_auth_bump : ℕ) → Ledger
      → Result Ledger
  set_up program_id a pool_bump vault_auth_bump ledger = do
    let pool_seeds = Seed.stake_pool ∷ Seed.key a.slab.key ∷ Seed.bump pool_bump ∷ []
    let vault_auth_seeds =
        Seed.vault_auth ∷ Seed.key a.pool_pda.key ∷ Seed.bump vault_auth_bump ∷ []
    created ←
        create_or_adopt_pda R ledger a.pool_pda.key a.admin.key program_id stake_pool_size
          pool_seeds
    handed ←
        call R created
          (update_authority a.percolator_program.key a.admin.key a.pool_pda.key a.slab.key)
          pool_seeds
    mint ←
        ok_or (unpack_mint (account_data handed a.collateral_mint.key))
          (custom StakeError.invalid_account)
    minted ←
        call R handed
          (initialize_mint a.token_program.key rent_sysvar_id a.lp_mint.key a.vault_auth.key none
            mint.decimals)
          vault_auth_seeds
    call R minted
        (initialize_account a.token_program.key rent_sysvar_id a.vault.key a.collateral_mint.key
          a.vault_auth.key)
        vault_auth_seeds

  unfoldable pub process_init_pool :
      (program_id : Pubkey)
      → InitAccounts
      → (cooldown_slots deposit_cap : ℕ) → Ledger
      → Result (Moved R)
  process_init_pool program_id a cooldown_slots deposit_cap ledger = do
    check_init program_id a cooldown_slots ledger
    let pool_bump = (derive_pool_pda R program_id a.slab.key).1
    let vault_auth_bump = (derive_vault_authority R program_id a.pool_pda.key).1
    set ← set_up program_id a pool_bump vault_auth_bump ledger
    ok (record {
      pool = fresh_pool a pool_bump vault_auth_bump cooldown_slots deposit_cap;
      ledger = set;
    })

  -- The owner is read again, after the account was created.
  unfoldable pub process_init_trading_pool :
      (program_id : Pubkey)
      → InitAccounts
      → (cooldown_slots deposit_cap : ℕ) → Ledger
      → Result (Moved R)
  process_init_trading_pool program_id a cooldown_slots deposit_cap ledger = do
    out ← process_init_pool program_id a cooldown_slots deposit_cap ledger
    fails (not (account_owner out.ledger a.pool_pda.key == program_id)) StakeError.invalid_account
    fails (not (validate_discriminator out.pool)) StakeError.invalid_account
    ok (record out { pool = record out.pool { pool_mode = 1 } })
