-- ===== src/Tests/Fixtures.antt =====
-- A pool and a runtime for the concrete runs.
use percolator_stake.Prelude.{ℕ, some, none, List, [], ◌∷◌, ◌++◌, ◌==◌, if◌then◌else◌}
use percolator_stake.State.{
  StakePool, StakeDeposit, Pubkey, stake_pool_discriminator, stake_deposit_discriminator,
}
use percolator_stake.Runtime.{Runtime, Seed, Instruction, Clock}
use percolator_stake.Bytes.{to_le_bytes}

-- 1,000,000 junior and 3,000,000 senior, at one share for each unit.
abbrev pub pool : StakePool
pool = record {
  is_initialized = 1;
  bump = 255;
  vault_authority_bump = 254;
  admin_transferred = 0;
  slab = 20;
  admin = 21;
  collateral_mint = 22;
  lp_mint = 23;
  vault = 24;
  total_deposited = 4_000_000;
  total_lp_supply = 4_000_000;
  cooldown_slots = 100;
  deposit_cap = 0;
  total_flushed = 0;
  total_returned = 0;
  total_withdrawn = 0;
  percolator_program = 25;
  total_fees_earned = 0;
  last_fee_accrual_slot = 0;
  last_vault_snapshot = 0;
  pool_mode = 0;
  pending_admin = 0;
  total_recovered_from_wrapper = 0;
  pending_cooldown_slots = 0;
  cooldown_proposed_at_slot = 0;
  discriminator = stake_pool_discriminator;
  version = 4;
  market_resolved_byte = 0;
  hwm_enabled_byte = 0;
  hwm_floor_bps = 0;
  epoch_high_water_tvl = 0;
  hwm_last_epoch = 0;
  tranche_enabled_byte = 1;
  junior_balance = 1_000_000;
  junior_total_lp = 1_000_000;
  junior_fee_mult_bps = 20_000;
  realized_junior_loss = 0;
  asset_admin_burned_byte = 0;
}

-- The same pool after a flush of 500,000, and one where the flush reached the senior side.
abbrev pub flushed_pool : StakePool
flushed_pool = record pool { total_flushed = 500_000 }

abbrev pub drained_pool : StakePool
drained_pool = record pool { total_flushed = 3_500_000 }

abbrev pub junior_deposit : StakeDeposit
junior_deposit = record {
  is_initialized = 1;
  bump = 254;
  pool = 10;
  user = 30;
  last_deposit_slot = 50;
  lp_amount = 400_000;
  discriminator = stake_deposit_discriminator;
  junior_byte = 1;
}

abbrev pub senior_deposit : StakeDeposit
senior_deposit = record junior_deposit { junior_byte = 0 }

abbrev pub clock : Clock
clock = record { slot = 1_000; epoch = 3 }

-- The bytes of an initialised token account.
abbrev pub token : (mint owner amount : ℕ) → List ℕ
token mint owner amount =
    to_le_bytes 32 mint
    ++ (to_le_bytes 32 owner
        ++ (to_le_bytes 8 amount ++ (to_le_bytes 36 0 ++ (1 ∷ to_le_bytes 56 0))))

-- The vault 24 holds `balance`; the user 30 and the admin 21 have their accounts 31, 32 and 33. The
-- collateral's mint 22 has 6 decimals.
abbrev account_bytes : (balance : ℕ) → Pubkey → List ℕ
account_bytes balance k =
    if k == 24
    then token 22 12 balance
    else if k == 31
    then token 22 30 5_000_000
    else if k == 32
    then token 23 30 5_000_000
    else if k == 33
    then token 22 21 5_000_000
    else if k == 40
    then token 22 41 0
    else if k == 22
    then to_le_bytes 44 0 ++ (6 ∷ 1 ∷ to_le_bytes 36 0)
    else []

-- Every program address is that of its first label.
abbrev pub program_address : List Seed → Pubkey
program_address (Seed.stake_pool ∷ _) = 10
program_address (Seed.vault_auth ∷ _) = 12
program_address (Seed.stake_deposit ∷ _) = 13
program_address _ = 14

abbrev pub no_instruction : Instruction
no_instruction = record { program_id = 0; accounts = []; data_bytes = [] }

-- A runtime whose vault holds `balance` and that accepts every instruction.
abbrev pub runtime : (balance : ℕ) → Runtime
runtime balance = record {
  Ledger = Unit;
  token_program_id = 2;
  account_data = λ _ k. account_bytes balance k;
  account_owner = λ _ _. 1;
  rent_sysvar_id = 50;
  is_rent = λ _ k. k == 50;
  clock = λ _ k. if k == 51 then some clock else none;
  lamports = λ _ _. 0;
  minimum_balance = λ _. 1;
  invoke = λ _ _ _. some tt;
  find_program_address = λ s _. (program_address s, 254);
  create_account = λ _ _ _ _ _. no_instruction;
  system_transfer = λ _ _ _. no_instruction;
  allocate = λ _ _. no_instruction;
  assign = λ _ _. no_instruction;
}

-- The same, with the balance of the vault as its ledger.
abbrev pub market_runtime : Runtime
market_runtime = record {
  Ledger = ℕ;
  token_program_id = 2;
  account_data = account_bytes;
  account_owner = λ _ _. 1;
  rent_sysvar_id = 50;
  is_rent = λ _ k. k == 50;
  clock = λ _ k. if k == 51 then some clock else none;
  lamports = λ _ _. 0;
  minimum_balance = λ _. 1;
  invoke = λ balance _ _. some balance;
  find_program_address = λ s _. (program_address s, 254);
  create_account = λ _ _ _ _ _. no_instruction;
  system_transfer = λ _ _ _. no_instruction;
  allocate = λ _ _. no_instruction;
  assign = λ _ _. no_instruction;
}
