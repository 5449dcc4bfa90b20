-- ===== src/Processor/Entry.antt =====
-- The entry of the program: `process` of src/processor.rs, which decodes the instruction, and the
-- accounts that each handler takes from the list with `next_account_info`.
pub mod Accounts
pub mod WrapperAccounts
pub mod Holder
pub mod Arity
use percolator_stake.Prelude.{ℕ, Bool, List, ◌==◌}
use percolator_stake.Error.{StakeError, ProgramError, Result, ok, err, ◌>>=◌, ◌>>◌, ok_or}
use percolator_stake.State.{StakePool, StakeDeposit, Pubkey}
use percolator_stake.Runtime.{Runtime, AccountInfo, Clock}
use percolator_stake.Instruction.{StakeInstruction, unpack}
use percolator_stake.Processor.Guards.{fails}
use percolator_stake.Processor.Entry.Accounts.{
  take_two, take_clocked, take_init, take_deposit, take_withdraw,
}
use percolator_stake.Processor.Entry.WrapperAccounts.{
  take_flush, take_return, take_recover, take_accrue, take_bind, take_rotate, take_resolve,
  take_group_a, take_group_b,
}
use percolator_stake.Processor.Accrual.{process_accrue_fees}
use percolator_stake.Processor.Authority.{
  process_bind_insurance_authority, process_burn_asset_admin, process_rotate_insurance_operator,
  process_rotate_insurance_authority,
}
use percolator_stake.Processor.Config.{
  process_update_config, process_propose_admin, process_accept_admin,
  process_propose_cooldown_increase, process_commit_cooldown_increase,
  process_cancel_cooldown_increase, process_admin_set_hwm_config, process_admin_set_tranche_config,
  process_set_market_resolved,
}
use percolator_stake.Processor.Deposit.{Deposited, process_deposit, process_deposit_junior}
use percolator_stake.Processor.Init.{process_init_pool, process_init_trading_pool}
use percolator_stake.Processor.Insurance.{
  Moved, process_flush_to_insurance, process_return_insurance, process_recover_flushed_insurance,
}
use percolator_stake.Processor.Proxies.{
  process_admin_update_fee_split, process_admin_update_maintenance_fee_per_slot,
  process_admin_update_backing_fee_policy, process_admin_update_trade_fee_policy,
}
use percolator_stake.Processor.Resolution.{process_admin_resolve_market}
use percolator_stake.Processor.Withdraw.{Withdrawn, process_withdraw}

module _ (R : Runtime) where
  open R use {Ledger}

  -- What an instruction that succeeds has written: a new pool; the pool it found; the pool and a
  -- deposit record; or nothing of this program's own.
  pub data Outcome : Type 0 where
    started : StakePool → Ledger → Outcome
    changed : StakePool → Ledger → Outcome
    recorded : StakePool → StakeDeposit → Ledger → Outcome
    called : Ledger → Outcome

  -- The outcome of a handler by its result.
  abbrev pub starts : Result (Moved R) → Result Outcome
  starts r = do out ← r; ok (Outcome.started out.pool out.ledger)

  abbrev pub moves : Result (Moved R) → Result Outcome
  moves r = do out ← r; ok (Outcome.changed out.pool out.ledger)

  abbrev pub sets : Ledger → Result StakePool → Result Outcome
  sets ledger r = do pool ← r; ok (Outcome.changed pool ledger)

  abbrev pub deposits : Result (Deposited R) → Result Outcome
  deposits r = do out ← r; ok (Outcome.recorded out.pool out.deposit out.ledger)

  abbrev pub withdraws : Result (Withdrawn R) → Result Outcome
  withdraws r = do out ← r; ok (Outcome.recorded out.pool out.deposit out.ledger)

  abbrev pub calls : Result Ledger → Result Outcome
  calls r = do ledger ← r; ok (Outcome.called ledger)

  abbrev pub clock_at : Ledger → AccountInfo → Result Clock
  clock_at ledger clock_sysvar =
      ok_or (R.clock ledger clock_sysvar.key) ProgramError.invalid_argument

module _ (R : Runtime) (devnet : Bool) (program_id : Pubkey) where
  open R use {Ledger}

  -- The handler of each instruction. An amount of 0 is refused before the accounts are taken.
  unfoldable pub serve : StakeInstruction → List AccountInfo → Ledger → Result (Outcome R)
  serve (StakeInstruction.init_pool cooldown_slots deposit_cap) accounts ledger = do
    a ← take_init accounts
    starts R (process_init_pool R devnet program_id a cooldown_slots deposit_cap ledger)
  serve (StakeInstruction.init_trading_pool cooldown_slots deposit_cap) accounts ledger = do
    a ← take_init accounts
    starts R (process_init_trading_pool R devnet program_id a cooldown_slots deposit_cap ledger)
  serve (StakeInstruction.deposit amount) accounts ledger = do
    fails (amount == 0) StakeError.zero_amount
    a ← take_deposit accounts
    clock ← clock_at R ledger a.1
    deposits R (process_deposit R program_id a.0 clock amount ledger)
  serve (StakeInstruction.deposit_junior amount) accounts ledger = do
    fails (amount == 0) StakeError.zero_amount
    a ← take_deposit accounts
    clock ← clock_at R ledger a.1
    deposits R (process_deposit_junior R program_id a.0 clock amount ledger)
  serve (StakeInstruction.withdraw lp_amount) accounts ledger = do
    fails (lp_amount == 0) StakeError.zero_amount
    a ← take_withdraw accounts
    clock ← clock_at R ledger a.1
    withdraws R (process_withdraw R program_id a.0 clock lp_amount ledger)
  serve (StakeInstruction.flush_to_insurance amount) accounts ledger = do
    fails (amount == 0) StakeError.zero_amount
    a ← take_flush accounts
    moves R (process_flush_to_insurance R program_id a amount ledger)
  serve (StakeInstruction.return_insurance amount) accounts ledger = do
    fails (amount == 0) StakeError.zero_amount
    a ← take_return accounts
    moves R (process_return_insurance R program_id a amount ledger)
  serve (StakeInstruction.recover_flushed_insurance amount) accounts ledger = do
    a ← take_recover accounts
    moves R (process_recover_flushed_insurance R program_id a amount ledger)
  serve (StakeInstruction.update_config new_cooldown_slots new_deposit_cap) accounts ledger = do
    a ← take_two accounts
    sets R ledger (process_update_config program_id a.0 a.1 new_cooldown_slots new_deposit_cap)
  serve (StakeInstruction.propose_admin new_admin) accounts ledger = do
    a ← take_two accounts
    sets R ledger (process_propose_admin program_id a.0 a.1 new_admin)
  serve StakeInstruction.accept_admin accounts ledger = do
    a ← take_two accounts
    sets R ledger (process_accept_admin program_id a.0 a.1)
  serve (StakeInstruction.propose_cooldown_increase new_cooldown_slots) accounts ledger = do
    a ← take_clocked accounts
    clock ← clock_at R ledger a.1
    sets R ledger
        (process_propose_cooldown_increase program_id a.0.0 a.0.1 clock new_cooldown_slots)
  serve StakeInstruction.commit_cooldown_increase accounts ledger = do
    a ← take_clocked accounts
    clock ← clock_at R ledger a.1
    sets R ledger (process_commit_cooldown_increase program_id a.0.0 a.0.1 clock)
  serve StakeInstruction.cancel_cooldown_increase accounts ledger = do
    a ← take_two accounts
    sets R ledger (process_cancel_cooldown_increase program_id a.0 a.1)
  serve StakeInstruction.bind_insurance_authority accounts ledger = do
    a ← take_bind accounts
    calls R (process_bind_insurance_authority R program_id a ledger)
  serve StakeInstruction.rotate_insurance_authority accounts ledger = do
    a ← take_rotate accounts
    calls R (process_rotate_insurance_authority R program_id a ledger)
  serve StakeInstruction.burn_asset_admin accounts ledger = do
    a ← take_bind accounts
    moves R (process_burn_asset_admin R program_id a ledger)
  serve StakeInstruction.rotate_insurance_operator accounts ledger = do
    a ← take_rotate accounts
    calls R (process_rotate_insurance_operator R program_id a ledger)
  serve StakeInstruction.accrue_fees accounts ledger = do
    a ← take_accrue R accounts
    clock ← clock_at R ledger a.1
    sets R ledger (process_accrue_fees R program_id a.0 clock ledger)
  serve (StakeInstruction.admin_set_hwm_config enabled hwm_floor_bps) accounts ledger = do
    a ← take_two accounts
    sets R ledger (process_admin_set_hwm_config program_id a.0 a.1 enabled hwm_floor_bps)
  serve (StakeInstruction.admin_set_tranche_config junior_fee_mult_bps) accounts ledger = do
    a ← take_two accounts
    sets R ledger (process_admin_set_tranche_config program_id a.0 a.1 junior_fee_mult_bps)
  serve StakeInstruction.set_market_resolved accounts ledger = do
    a ← take_two accounts
    sets R ledger (process_set_market_resolved program_id a.0 a.1)
  serve StakeInstruction.admin_resolve_market accounts ledger = do
    a ← take_resolve accounts
    calls R (process_admin_resolve_market R program_id a ledger)
  serve (StakeInstruction.admin_update_fee_split creator lp insurance) accounts ledger = do
    a ← take_group_a accounts
    calls R (process_admin_update_fee_split R program_id a creator lp insurance ledger)
  serve (StakeInstruction.admin_update_maintenance_fee_per_slot fee) accounts ledger = do
    a ← take_group_a accounts
    calls R (process_admin_update_maintenance_fee_per_slot R program_id a fee ledger)
  serve (StakeInstruction.admin_update_backing_fee_policy domain fee_bps share) accounts ledger = do
    a ← take_group_b accounts
    calls R (process_admin_update_backing_fee_policy R program_id a domain fee_bps share ledger)
  serve (StakeInstruction.admin_update_trade_fee_policy fee_bps) accounts ledger = do
    a ← take_group_b accounts
    calls R (process_admin_update_trade_fee_policy R program_id a fee_bps ledger)

  unfoldable pub process :
      (accounts : List AccountInfo) → (instruction_data : List ℕ) → Ledger → Result (Outcome R)
  unfolding serve
  process accounts instruction_data ledger = do
    instruction ← unpack instruction_data
    serve instruction accounts ledger
