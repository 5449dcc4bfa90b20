-- ===== src/Solvency/System/Entry.antt =====
-- What the entry of the program, `process` of src/processor.rs, may do to a pool: the outcomes of its
-- handlers as steps of the system.
pub mod Records
pub mod Serve
pub mod Later
use percolator_stake.Prelude.{◌≡◌, Bool, List, [], ◌∷◌, ◌++◌}
use percolator_stake.Runtime.{Runtime}
use percolator_stake.State.{StakePool, StakeDeposit, Pubkey}
use percolator_stake.Instruction.{StakeInstruction}
use percolator_stake.Processor.Entry.{Outcome}
use percolator_stake.Solvency.Settings.{setting_asked}
use percolator_stake.Solvency.System.{World, PoolStep, Step, Reach}
use percolator_stake.Solvency.System.Cases.{Relayed}

module _ (R : Runtime) (program_id : Pubkey) where
  open R use {Ledger}

  -- The instruction that a step of the pool alone carries out.
  abbrev pub pool_asked : (p q : StakePool) → PoolStep R program_id p q → StakeInstruction
  pool_asked p _ (PoolStep.flush a amount ledger out held e) =
      StakeInstruction.flush_to_insurance amount
  pool_asked p _ (PoolStep.return_ a amount ledger out held e) =
      StakeInstruction.return_insurance amount
  pool_asked p _ (PoolStep.recover a amount ledger out held e) =
      StakeInstruction.recover_flushed_insurance amount
  pool_asked p _ (PoolStep.accrue a clock ledger q held e) = StakeInstruction.accrue_fees
  pool_asked p _ (PoolStep.burn a ledger out held e) = StakeInstruction.burn_asset_admin
  pool_asked p _
        (PoolStep.settings admin pda clock cooldown cap enabled slots bps mult key q held e) =
      setting_asked cooldown cap enabled slots bps mult key e

  -- The step found the accounts of the ledger `before` and left those of `after`.
  abbrev pub PoolRan :
      (before after : Ledger) (p q : StakePool) → PoolStep R program_id p q → Type 0
  PoolRan before after p _ (PoolStep.flush a amount ledger out held e) =
      (before ≡ ledger) × (after ≡ out.ledger)
  PoolRan before after p _ (PoolStep.return_ a amount ledger out held e) =
      (before ≡ ledger) × (after ≡ out.ledger)
  PoolRan before after p _ (PoolStep.recover a amount ledger out held e) =
      (before ≡ ledger) × (after ≡ out.ledger)
  PoolRan before after p _ (PoolStep.accrue a clock ledger q held e) =
      (before ≡ ledger) × (after ≡ ledger)
  PoolRan before after p _ (PoolStep.burn a ledger out held e) =
      (before ≡ ledger) × (after ≡ out.ledger)
  PoolRan before after p _
        (PoolStep.settings admin pda clock cooldown cap enabled slots bps mult key q held e) =
      after ≡ before

  -- The same of a step with a record, and of an initialisation.
  abbrev pub Ran :
      (before after : Ledger) → StakeInstruction → (w v : World) → Step R program_id w v → Type 0
  Ran before after i _ _ (Step.deposit a clock amount ledger p xs ys d out held at e) =
      (i ≡ StakeInstruction.deposit amount) × (before ≡ ledger) × (after ≡ out.ledger)
  Ran before after i _ _ (Step.deposit_junior a clock amount ledger p xs ys d out held at e) =
      (i ≡ StakeInstruction.deposit_junior amount) × (before ≡ ledger) × (after ≡ out.ledger)
  Ran before after i _ _ (Step.withdraw a clock lp ledger p xs ys d out held at e) =
      (i ≡ StakeInstruction.withdraw lp) × (before ≡ ledger) × (after ≡ out.ledger)
  Ran before after i _ _ (Step.pool_alone p q ds e) =
      (i ≡ pool_asked p q e) × PoolRan before after p q e
  Ran before after i _ _ (Step.new_user p ds) = ⊥

  abbrev pub Began :
      (devnet : Bool) (before after : Ledger)
      → StakeInstruction
      → (w : World) → Reach R program_id devnet w
      → Type 0
  Began devnet before after i _ (Reach.init_pool a cooldown cap ledger out e) =
      (i ≡ StakeInstruction.init_pool cooldown cap) × (before ≡ ledger) × (after ≡ out.ledger)
  Began devnet before after i _ (Reach.init_trading_pool a cooldown cap ledger out e) =
      (i ≡ StakeInstruction.init_trading_pool cooldown cap)
      × (before ≡ ledger)
      × (after ≡ out.ledger)
  Began devnet before after i _ (Reach.next w v r s) = ⊥

module _ (R : Runtime) (devnet : Bool) (program_id : Pubkey) where
  open R use {Ledger}

  -- What the instruction `i` may do to the pool `p`, from the accounts of `before`: start another
  -- pool, take its own step that changes the pool alone, or its own step with one record wherever
  -- it stands among the others; or be one of those that only call the wrapper.
  pub data IsServed (p : StakePool) (before : Ledger) (i : StakeInstruction)
      : Outcome R → Type 0 where
    started :
        (q : StakePool) (after : Ledger)
        → (r : Reach R program_id devnet (record { pool = q; records = [] }))
        → Began R program_id devnet before after i (record { pool = q; records = [] }) r
        → IsServed p before i (Outcome.started q after)
    changed :
        (q : StakePool) (after : Ledger) (step : PoolStep R program_id p q)
        → i ≡ pool_asked R program_id p q step
        → PoolRan R program_id before after p q step
        → IsServed p before i (Outcome.changed q after)
    recorded :
        (d e : StakeDeposit) (q : StakePool) (after : Ledger)
        → ((xs ys : List StakeDeposit)
            → (step : Step R program_id
                (record { pool = p; records = xs ++ (d ∷ ys) })
                (record { pool = q; records = xs ++ (e ∷ ys) }))
              × Ran R program_id before after i _ _ step)
        → IsServed p before i (Outcome.recorded q e after)
    called :
        (after : Ledger)
        → Relayed R devnet program_id p before after i
        → IsServed p before i (Outcome.called after)
