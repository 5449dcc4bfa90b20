-- ===== src/Runtime.antt =====
-- What the program takes from the Solana runtime and from the programs that it calls, none of which
-- is in the repository: the accounts' contents outside the two state records, `invoke`, the search
-- for program addresses, and the instructions of the system program.
use percolator_stake.Prelude.{ℕ, Bool, List, Option}
use percolator_stake.State.{StakePool, StakeDeposit, Pubkey}

-- A seed of a program address: one of the program's labels, a key, or a bump.
pub data Seed : Type 0 where
  stake_pool vault_auth stake_deposit : Seed
  key : Pubkey → Seed
  bump : ℕ → Seed

pub record AccountMeta : Type 0 where
  pub pubkey : Pubkey
  pub is_signer : Bool
  pub is_writable : Bool

pub record Instruction : Type 0 where
  pub program_id : Pubkey
  pub accounts : List AccountMeta
  pub data_bytes : List ℕ

-- `pinocchio_token::state::AccountState`
pub data AccountState : Type 0 where
  uninitialized initialized frozen : AccountState

-- The data of an account of this program: none, the bytes of a pool (408 or more), the bytes of a
-- deposit record, or too few for either.
pub data AccountData : Type 0 where
  empty : AccountData
  pool_bytes : StakePool → AccountData
  deposit_bytes : StakeDeposit → AccountData
  short_bytes : AccountData

pub record AccountInfo : Type 0 where
  pub key : Pubkey
  pub owner : Pubkey
  pub is_signer : Bool
  pub is_writable : Bool
  pub content : AccountData

pub record Clock : Type 0 where
  pub slot : ℕ
  pub epoch : ℕ

pub record Runtime : Type 1 where
  -- all accounts of other programs
  pub Ledger : Type 0
  pub token_program_id : Pubkey
  pub account_data : Ledger → Pubkey → List ℕ
  pub account_owner : Ledger → Pubkey → Pubkey
  pub rent_sysvar_id : Pubkey
  -- whether `Rent::from_account_info` takes the account for the rent sysvar
  pub is_rent : Ledger → Pubkey → Bool
  -- `Clock::from_account_info`, `none` where the account is not the clock sysvar
  pub clock : Ledger → Pubkey → Option Clock
  pub lamports : Ledger → Pubkey → ℕ
  pub minimum_balance : ℕ → ℕ
  -- `invoke` and `invoke_signed` with the seeds of one signer; `none` is the called program's error
  pub invoke : Ledger → Instruction → List Seed → Option Ledger
  pub find_program_address : List Seed → Pubkey → Pubkey × ℕ
  pub create_account : (payer target lamports space owner : ℕ) → Instruction
  pub system_transfer : (payer target lamports : ℕ) → Instruction
  pub allocate : (target space : ℕ) → Instruction
  pub assign : (target owner : ℕ) → Instruction
