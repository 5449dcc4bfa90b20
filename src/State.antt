-- ===== src/State.antt =====
-- The accounts' state of src/state.rs: `StakePool` and `StakeDeposit`. A public key is the number
-- that its 32 bytes spell; a byte array that is only compared is a number too. The fields behind
-- `discriminator` are those that the code keeps in `_reserved`.
pub mod Pool
pub mod Deposit
pub mod Tranches
pub mod Layout
use percolator_stake.Prelude.{ℕ, Bool, if◌then◌else◌}

abbrev pub Pubkey : Type 0
Pubkey = ℕ

pub record StakePool : Type 0 where
  pub is_initialized : ℕ
  pub bump : ℕ
  pub vault_authority_bump : ℕ
  pub admin_transferred : ℕ
  pub slab : Pubkey
  pub admin : Pubkey
  pub collateral_mint : Pubkey
  pub lp_mint : Pubkey
  pub vault : Pubkey
  pub total_deposited : ℕ
  pub total_lp_supply : ℕ
  pub cooldown_slots : ℕ
  pub deposit_cap : ℕ
  pub total_flushed : ℕ
  pub total_returned : ℕ
  pub total_withdrawn : ℕ
  pub percolator_program : Pubkey
  pub total_fees_earned : ℕ
  pub last_fee_accrual_slot : ℕ
  pub last_vault_snapshot : ℕ
  pub pool_mode : ℕ
  pub pending_admin : Pubkey
  pub total_recovered_from_wrapper : ℕ
  pub pending_cooldown_slots : ℕ
  pub cooldown_proposed_at_slot : ℕ
  pub discriminator : ℕ
  pub version : ℕ
  pub market_resolved_byte : ℕ
  pub hwm_enabled_byte : ℕ
  pub hwm_floor_bps : ℕ
  pub epoch_high_water_tvl : ℕ
  pub hwm_last_epoch : ℕ
  pub tranche_enabled_byte : ℕ
  pub junior_balance : ℕ
  pub junior_total_lp : ℕ
  pub junior_fee_mult_bps : ℕ
  pub realized_junior_loss : ℕ
  pub asset_admin_burned_byte : ℕ

pub record StakeDeposit : Type 0 where
  pub is_initialized : ℕ
  pub bump : ℕ
  pub pool : Pubkey
  pub user : Pubkey
  pub last_deposit_slot : ℕ
  pub lp_amount : ℕ
  pub discriminator : ℕ
  pub junior_byte : ℕ

-- "SPOOL_V1" and "SDEP_V1\0", read as big-endian numbers.
abbrev pub stake_pool_discriminator : ℕ
stake_pool_discriminator = 0x53504F4F4C5F5631

abbrev pub stake_deposit_discriminator : ℕ
stake_deposit_discriminator = 0x534445505F563100

abbrev pub minimum_liquidity : ℕ
minimum_liquidity = 1_000

abbrev pub current_version : ℕ
current_version = 4

-- `enabled as a byte`: 1 or 0.
abbrev pub flag : Bool → ℕ
flag b = if b then 1 else 0
