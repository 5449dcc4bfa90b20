-- ===== src/Solvency/System/Entry/Serve.antt =====
-- The entry of the program, `process` of src/processor.rs, takes the steps of the system.
use percolator_stake.Prelude.{ℕ, ◌≡◌, refl, Bool, List, ◌∷◌}
use percolator_stake.Error.{ok}
use percolator_stake.Runtime.{Runtime, AccountInfo, AccountData}
use percolator_stake.State.{StakePool, Pubkey}
use percolator_stake.Instruction.{StakeInstruction, unpack}
use percolator_stake.Processor.Entry.{Outcome, process}
use percolator_stake.Solvency.System.{PoolStep, Reach}
use percolator_stake.Solvency.System.Cases.{Cases}
use percolator_stake.Solvency.System.Cases.Arms.{process-cases}
use percolator_stake.Solvency.System.Entry.{IsServed}
use percolator_stake.Solvency.System.Entry.Records.{
  deposit-Step, deposit_junior-Step, withdraw-Step,
}

module _ (R : Runtime) (devnet : Bool) (program_id : Pubkey) where
  open R use {Ledger}

  serving :
      (first holder : AccountInfo) (p : StakePool) (ledger : Ledger)
      → Cases R devnet program_id first holder p ledger (IsServed R devnet program_id p ledger)
  serving first holder p ledger = record {
    started = λ a cooldown cap x h.
        let r = Reach.init_pool a cooldown cap ledger x h in
        IsServed.started x.pool x.ledger r (refl, refl, refl);
    started_trading = λ a cooldown cap x h.
        let r = Reach.init_trading_pool a cooldown cap ledger x h in
        IsServed.started x.pool x.ledger r (refl, refl, refl);
    deposit = λ a clock amount x _ at h.
        let (d, taken) = deposit-Step R program_id a clock amount ledger p x at h in
        IsServed.recorded d x.deposit x.pool x.ledger taken;
    deposit_junior = λ a clock amount x _ at h.
        let (d, taken) = deposit_junior-Step R program_id a clock amount ledger p x at h in
        IsServed.recorded d x.deposit x.pool x.ledger taken;
    withdraw = λ a clock lp x _ at h.
        let (d, taken) = withdraw-Step R program_id a clock lp ledger p x at h in
        IsServed.recorded d x.deposit x.pool x.ledger taken;
    flush = λ a amount x at h.
        IsServed.changed x.pool x.ledger (PoolStep.flush a amount ledger x at h) refl (refl, refl);
    return_ = λ a amount x _ at h.
        IsServed.changed x.pool x.ledger (PoolStep.return_ a amount ledger x at h) refl
          (refl, refl);
    recover = λ a amount x _ at h.
        IsServed.changed x.pool x.ledger (PoolStep.recover a amount ledger x at h) refl
          (refl, refl);
    accrue = λ a clock q at h.
        IsServed.changed q ledger (PoolStep.accrue a clock ledger q at h) refl (refl, refl);
    burn = λ a x at h.
        IsServed.changed x.pool x.ledger (PoolStep.burn a ledger x at h) refl (refl, refl);
    settings = λ admin pda clock cooldown cap enabled slots bps mult key q at h.
        IsServed.changed q ledger
          (PoolStep.settings admin pda clock cooldown cap enabled slots bps mult key q at h) refl
          refl;
    relayed = λ i after e. IsServed.called after e;
  }

  -- Whatever bytes and accounts the entry of the program is given, if the second account holds a
  -- pool and the entry succeeds, then the bytes decode to an instruction, and what the entry did is
  -- what this instruction asks for: a step of the system from that pool, with the deposit record
  -- that it found wherever that stands among the others, or the start of another pool, each from
  -- the ledger that was found to the ledger that is left; or, for bind, the rotations, the fee
  -- proxies and the resolution of the wrapper's market, a run of its handler between these ledgers,
  -- without a pool or a record written.
  pub process-IsServed :
      (p : StakePool) (out : Outcome R) (first holder : AccountInfo) (rest : List AccountInfo)
      → (instruction_data : List ℕ) (ledger : Ledger) → holder.content ≡ AccountData.pool_bytes p
      → process R devnet program_id (first ∷ holder ∷ rest) instruction_data ledger ≡ ok out
      → (i : StakeInstruction) × (unpack instruction_data ≡ ok i)
        × IsServed R devnet program_id p ledger i out
  process-IsServed p out first holder rest instruction_data ledger held e =
      process-cases R devnet program_id first holder rest p ledger
        (IsServed R devnet program_id p ledger) out held (serving first holder p ledger)
        instruction_data e
