-- ===== src/Processor/Guards.antt =====
-- The account checks that the handlers of src/processor.rs share, and the creation of a program
-- address.
use percolator_stake.Prelude.{
  ℕ, ◌-◌, Bool, true, false, not, ◌||◌, List, [], ◌∷◌, ◌==◌, ltb, leb, if◌then◌else◌, u64_max,
  checked_add, checked_sub,
}
use percolator_stake.Error.{
  StakeError, ProgramError, custom, Result, ok, err, ◌>>=◌, ◌>>◌, fail_if, ok_or,
}
use percolator_stake.State.{StakePool, StakeDeposit, Pubkey, current_version, minimum_liquidity}
use percolator_stake.State.Pool.{validate_discriminator}
use percolator_stake.Runtime.{Runtime, Seed, AccountInfo, AccountData, Instruction}
use percolator_stake.SplToken.State.{TokenAccount, token_account}

abbrev pub max_cooldown_slots : ℕ
max_cooldown_slots = 78_840_000

abbrev pub timelock_slots : ℕ
timelock_slots = 432_000

abbrev pub max_hwm_floor_bps : ℕ
max_hwm_floor_bps = 9_000

abbrev pub stake_deposit_size : ℕ
stake_deposit_size = 152

abbrev pub fails : Bool → StakeError → Result (Unit {0})
fails test e = fail_if test (custom e)

unfoldable pub timelock_window_elapsed : (proposed_at timelock now : ℕ) → Result Bool
timelock_window_elapsed proposed_at timelock now = do
  earliest ← ok_or (checked_add u64_max proposed_at timelock) (custom StakeError.overflow)
  ok (leb earliest now)

unfoldable pub validate_cooldown_slots : ℕ → Result (Unit {0})
validate_cooldown_slots slots = do
  fail_if (slots == 0) ProgramError.invalid_argument
  fail_if (ltb max_cooldown_slots slots) ProgramError.invalid_argument

unfoldable pub validate_hwm_floor_bps : ℕ → Result (Unit {0})
validate_hwm_floor_bps bps =
    fail_if (bps == 0 || ltb max_hwm_floor_bps bps) ProgramError.invalid_argument

unfoldable pub validate_account_owner : AccountInfo → Pubkey → Result (Unit {0})
validate_account_owner account expected_owner =
    fails (not (account.owner == expected_owner)) StakeError.invalid_account

unfoldable pub validate_pool_version : StakePool → Result (Unit {0})
validate_pool_version pool =
    fails (not (pool.version == current_version)) StakeError.invalid_account

unfoldable pub validate_account_writable : AccountInfo → Result (Unit {0})
validate_account_writable account = fails (not account.is_writable) StakeError.invalid_account

abbrev pub data_is_empty : AccountData → Bool
data_is_empty AccountData.empty = true
data_is_empty _ = false

unfoldable pub validate_account_not_empty : AccountInfo → Result (Unit {0})
validate_account_not_empty account =
    fails (data_is_empty account.content) StakeError.invalid_account

unfoldable pub pool_from_data : AccountData → Result StakePool
pool_from_data (AccountData.pool_bytes p) = ok p
pool_from_data _ = err (custom StakeError.invalid_account)

unfoldable pub deposit_from_data : AccountData → Result StakeDeposit
deposit_from_data (AccountData.deposit_bytes d) = ok d
deposit_from_data _ = err (custom StakeError.invalid_account)

-- The dead shares of a pool's first deposit are not minted.
unfoldable pub apply_minimum_liquidity_lock : (total_lp_supply_before lp_to_mint : ℕ) → Result ℕ
apply_minimum_liquidity_lock before lp_to_mint = if not (before == 0) then ok lp_to_mint else do
  mint_amount ←
      ok_or (checked_sub lp_to_mint minimum_liquidity)
        (custom StakeError.deposit_below_minimum_liquidity)
  fails (mint_amount == 0) StakeError.deposit_below_minimum_liquidity
  ok mint_amount

-- The checks on a pool that has been read: initialised, of this program, of this version.
unfoldable pub check_pool : StakePool → Result (Unit {0})
unfolding validate_pool_version
check_pool pool = do
  fails (not (pool.is_initialized == 1)) StakeError.not_initialized
  fails (not (validate_discriminator pool)) StakeError.invalid_account
  validate_pool_version pool

module _ (R : Runtime) where
  open R use {
    Ledger, token_program_id, lamports, minimum_balance, invoke, find_program_address,
    create_account, system_transfer, allocate, assign,
  }

  -- `invoke(..)?`
  abbrev pub call : Ledger → Instruction → List Seed → Result Ledger
  call ledger instruction seeds = ok_or (invoke ledger instruction seeds) ProgramError.cpi

  unfoldable pub derive_pool_pda : (program_id slab : Pubkey) → Pubkey × ℕ
  derive_pool_pda program_id slab =
      find_program_address (Seed.stake_pool ∷ Seed.key slab ∷ []) program_id

  unfoldable pub derive_vault_authority : (program_id pool : Pubkey) → Pubkey × ℕ
  derive_vault_authority program_id pool =
      find_program_address (Seed.vault_auth ∷ Seed.key pool ∷ []) program_id

  unfoldable pub derive_deposit_pda : (program_id pool user : Pubkey) → Pubkey × ℕ
  derive_deposit_pda program_id pool user =
      find_program_address (Seed.stake_deposit ∷ Seed.key pool ∷ Seed.key user ∷ []) program_id

  unfoldable pub verify_token_program : AccountInfo → Result (Unit {0})
  verify_token_program token_program =
      fail_if (not (token_program.key == token_program_id)) ProgramError.incorrect_program_id

  -- A token account of the SPL program that is long enough to be read.
  unfoldable pub read_token_account : Ledger → AccountInfo → Result TokenAccount
  read_token_account ledger account = do
    fails (not (account.owner == token_program_id)) StakeError.invalid_account
    ok_or (token_account R ledger account.key) (custom StakeError.invalid_account)

  unfoldable pub validate_lp_recipient_account :
      Ledger → AccountInfo → (expected_lp_mint expected_owner : Pubkey) → Result (Unit {0})
  unfolding read_token_account
  validate_lp_recipient_account ledger user_lp_ata expected_lp_mint expected_owner = do
    token ← read_token_account ledger user_lp_ata
    fails (not (token.mint == expected_lp_mint)) StakeError.invalid_mint
    fails (not (token.owner == expected_owner)) StakeError.unauthorized

  -- The source of a deposit: the depositor's own account for the pool's collateral. The error for a
  -- wrong mint differs between the handlers.
  unfoldable pub validate_source_account :
      Ledger → AccountInfo → (mint owner : Pubkey) → StakeError → Result (Unit {0})
  unfolding read_token_account
  validate_source_account ledger source mint owner wrong_mint = do
    token ← read_token_account ledger source
    fails (not (token.mint == mint)) wrong_mint
    fails (not (token.owner == owner)) StakeError.unauthorized

  -- The squat case of `create_or_adopt_pda`: the rent shortfall is topped up, then the account is
  -- allocated, then assigned.
  unfoldable pub complete :
      Ledger
      → (target payer owner : Pubkey) → (space shortfall : ℕ) → Bool
      → List Seed
      → Result Ledger
  complete ledger target payer owner space shortfall short seeds = do
    funded ← if short then call ledger (system_transfer payer target shortfall) [] else ok ledger
    allocated ← call funded (allocate target space) seeds
    call allocated (assign target owner) seeds

  unfoldable pub create_or_adopt_pda :
      Ledger → (target payer owner : Pubkey) → (space : ℕ) → List Seed → Result Ledger
  unfolding complete
  create_or_adopt_pda ledger target payer owner space seeds =
      let need = minimum_balance space in
      let held = lamports ledger target in
      if held == 0
      then call ledger (create_account payer target need space owner) seeds
      else complete ledger target payer owner space (need - held) (ltb held need) seeds
