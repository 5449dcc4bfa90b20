-- ===== src/Instruction.antt =====
-- The instructions of the program and their bytes: src/instruction.rs.
pub mod Pack
use percolator_stake.Prelude.{ℕ, Bool, not, Option, none, some, List, [], ◌∷◌, ◌==◌, if◌then◌else◌}
use percolator_stake.Error.{ProgramError, Result, ok, err}
use percolator_stake.Bytes.{length, slice}
use percolator_stake.State.{Pubkey}

pub data StakeInstruction : Type 0 where
  init_pool init_trading_pool : (cooldown_slots deposit_cap : ℕ) → StakeInstruction
  deposit deposit_junior flush_to_insurance : (amount : ℕ) → StakeInstruction
  return_insurance recover_flushed_insurance : (amount : ℕ) → StakeInstruction
  withdraw : (lp_amount : ℕ) → StakeInstruction
  bind_insurance_authority rotate_insurance_authority : StakeInstruction
  burn_asset_admin rotate_insurance_operator : StakeInstruction
  update_config : (new_cooldown_slots new_deposit_cap : Option ℕ) → StakeInstruction
  propose_admin : (new_admin : Pubkey) → StakeInstruction
  accept_admin commit_cooldown_increase cancel_cooldown_increase : StakeInstruction
  propose_cooldown_increase : (new_cooldown_slots : ℕ) → StakeInstruction
  accrue_fees set_market_resolved admin_resolve_market : StakeInstruction
  admin_set_hwm_config : (enabled : Bool) → (hwm_floor_bps : ℕ) → StakeInstruction
  admin_set_tranche_config : (junior_fee_mult_bps : ℕ) → StakeInstruction
  admin_update_fee_split :
      (creator_share_bps lp_share_bps insurance_share_bps : ℕ) → StakeInstruction
  admin_update_maintenance_fee_per_slot : (maintenance_fee_per_slot : ℕ) → StakeInstruction
  admin_update_backing_fee_policy : (domain fee_bps insurance_share_bps : ℕ) → StakeInstruction
  admin_update_trade_fee_policy : (trade_fee_base_bps : ℕ) → StakeInstruction

-- `if rest.len() != n { return Err(InvalidInstructionData) }` before the instruction is built.
abbrev pub sized : (n : ℕ) → List ℕ → StakeInstruction → Result StakeInstruction
sized n rest i = if length rest == n then ok i else err ProgramError.invalid_instruction_data

-- A byte as a flag: any byte but 0 is true.
abbrev is_set : ℕ → Bool
is_set b = not (b == 0)

abbrev flagged : ℕ → ℕ → Option ℕ
flagged b x = if is_set b then some x else none

-- The last part of the match on the tag, with the payload behind it: tags 24 to 28.
unfoldable pub unpack_proxy : (tag : ℕ) → (rest : List ℕ) → Result StakeInstruction
unpack_proxy tag rest =
    if tag == 24
    then sized 0 rest admin_resolve_market
    else if tag == 25
    then sized 6 rest (admin_update_fee_split (slice 0 2 rest) (slice 2 4 rest) (slice 4 6 rest))
    else if tag == 26
    then sized 16 rest (admin_update_maintenance_fee_per_slot (slice 0 16 rest))
    else if tag == 27
    then sized 6 rest
        (admin_update_backing_fee_policy (slice 0 2 rest) (slice 2 4 rest) (slice 4 6 rest))
    else if tag == 28
    then sized 8 rest (admin_update_trade_fee_policy (slice 0 8 rest))
    else err ProgramError.invalid_instruction_data

-- The part before: tags 19 to 23, then 10 to 18.
unfoldable pub unpack_admin : (tag : ℕ) → (rest : List ℕ) → Result StakeInstruction
unfolding unpack_proxy
unpack_admin tag rest =
    if tag == 19
    then sized 0 rest bind_insurance_authority
    else if tag == 20
    then sized 0 rest rotate_insurance_authority
    else if tag == 21
    then sized 0 rest burn_asset_admin
    else if tag == 22
    then sized 0 rest rotate_insurance_operator
    else if tag == 23
    then sized 8 rest (recover_flushed_insurance (slice 0 8 rest))
    else if tag == 10
    then sized 8 rest (return_insurance (slice 0 8 rest))
    else if tag == 12
    then sized 0 rest accrue_fees
    else if tag == 13
    then sized 16 rest (init_trading_pool (slice 0 8 rest) (slice 8 16 rest))
    else if tag == 14
    then sized 3 rest (admin_set_hwm_config (is_set (slice 0 1 rest)) (slice 1 3 rest))
    else if tag == 15
    then sized 2 rest (admin_set_tranche_config (slice 0 2 rest))
    else if tag == 16
    then sized 8 rest (deposit_junior (slice 0 8 rest))
    else if tag == 18
    then sized 0 rest set_market_resolved
    else unpack_proxy tag rest

-- The whole match, which starts with tags 0 to 9.
unfoldable pub unpack_payload : (tag : ℕ) → (rest : List ℕ) → Result StakeInstruction
unfolding unpack_admin
unpack_payload tag rest =
    if tag == 0
    then sized 16 rest (init_pool (slice 0 8 rest) (slice 8 16 rest))
    else if tag == 1
    then sized 8 rest (deposit (slice 0 8 rest))
    else if tag == 2
    then sized 8 rest (withdraw (slice 0 8 rest))
    else if tag == 3
    then sized 8 rest (flush_to_insurance (slice 0 8 rest))
    else if tag == 4
    then sized 18 rest (
        update_config (flagged (slice 0 1 rest) (slice 1 9 rest))
          (flagged (slice 9 10 rest) (slice 10 18 rest)))
    else if tag == 5
    then sized 32 rest (propose_admin (slice 0 32 rest))
    else if tag == 6
    then sized 0 rest accept_admin
    else if tag == 7
    then sized 8 rest (propose_cooldown_increase (slice 0 8 rest))
    else if tag == 8
    then sized 0 rest commit_cooldown_increase
    else if tag == 9
    then sized 0 rest cancel_cooldown_increase
    else unpack_admin tag rest

unfoldable pub unpack : (instruction_data : List ℕ) → Result StakeInstruction
unfolding unpack_payload
unpack [] = err ProgramError.invalid_instruction_data
unpack (tag ∷ rest) = unpack_payload tag rest
