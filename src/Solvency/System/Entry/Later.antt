-- ===== src/Solvency/System/Entry/Later.antt =====
-- The pool that `process` of src/processor.rs leaves is the one that it found, at a later time.
use percolator_stake.Prelude.{ℕ, ◌≡◌, inl, inr, Bool, List, ◌∷◌}
use percolator_stake.Error.{ok}
use percolator_stake.Runtime.{Runtime, AccountInfo, AccountData}
use percolator_stake.State.{StakePool, Pubkey}
use percolator_stake.Processor.Entry.{Outcome, process}
use percolator_stake.Solvency.Later.{IsLater}
use percolator_stake.Solvency.System.{PoolStep}
use percolator_stake.Solvency.System.Cases.{Cases}
use percolator_stake.Solvency.System.Cases.Arms.{process-cases}
use percolator_stake.Solvency.System.Entry.Records.{withdraw-found}
use percolator_stake.Solvency.System.Lifetime.{pool_step-IsLater, deposit-IsLater, withdraw-IsLater}

module _ (R : Runtime) (devnet : Bool) (program_id : Pubkey) where
  open R use {Ledger}

  -- An initialisation is of another pool.
  abbrev pub LaterAfter : (p : StakePool) → Outcome R → Type 0
  LaterAfter p (Outcome.started q ledger) = Unit
  LaterAfter p (Outcome.changed q ledger) = IsLater p q
  LaterAfter p (Outcome.recorded q d ledger) = IsLater p q
  LaterAfter p (Outcome.called ledger) = Unit

  lasting :
      (first holder : AccountInfo) (p : StakePool) (ledger : Ledger)
      → Cases R devnet program_id first holder p ledger (λ _. LaterAfter p)
  lasting first holder p ledger =
      let alone : (q : StakePool) → PoolStep R program_id p q → IsLater p q =
        pool_step-IsLater R program_id p in
      record {
        started = λ a cooldown cap x e. tt;
        started_trading = λ a cooldown cap x e. tt;
        deposit = λ a clock amount x user at e.
            deposit-IsLater R program_id a clock amount ledger p x at (inl e);
        deposit_junior = λ a clock amount x user at e.
            deposit-IsLater R program_id a clock amount ledger p x at (inr e);
        withdraw = λ a clock lp x user at e.
            let (d, found) = withdraw-found R program_id a clock lp ledger x e in
            withdraw-IsLater R program_id a clock lp ledger p d x at found e;
        flush = λ a amount x at e. alone x.pool (PoolStep.flush a amount ledger x at e);
        return_ = λ a amount x admin at e. alone x.pool (PoolStep.return_ a amount ledger x at e);
        recover = λ a amount x pool at e. alone x.pool (PoolStep.recover a amount ledger x at e);
        accrue = λ a clock q at e. alone q (PoolStep.accrue a clock ledger q at e);
        burn = λ a x at e. alone x.pool (PoolStep.burn a ledger x at e);
        settings = λ admin pda clock cooldown cap enabled slots bps mult key q at e.
            alone q
              (PoolStep.settings admin pda clock cooldown cap enabled slots bps mult key q at e);
        relayed = λ i after e. tt;
      }

  pub process-LaterAfter :
      (p : StakePool) (out : Outcome R) (first holder : AccountInfo) (rest : List AccountInfo)
      → (instruction_data : List ℕ) (ledger : Ledger) → holder.content ≡ AccountData.pool_bytes p
      → process R devnet program_id (first ∷ holder ∷ rest) instruction_data ledger ≡ ok out
      → LaterAfter p out
  process-LaterAfter p out first holder rest instruction_data ledger held e =
      let (_, _, later) =
        process-cases R devnet program_id first holder rest p ledger (λ _. LaterAfter p) out held
          (lasting first holder p ledger) instruction_data e in
      later
