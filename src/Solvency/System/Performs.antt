-- ===== src/Solvency/System/Performs.antt =====
-- What each step of the system is to do to the abstract vault, with the accrual of src/processor.rs
-- that most of them begin with.
use percolator_stake.Prelude.{ℕ, ◌+◌, ◌≡◌, ◌-◌, true, false, arith}
use percolator_stake.Error.{ok}
use percolator_stake.Runtime.{Runtime, AccountInfo, AccountData, Clock}
use percolator_stake.State.{StakePool, Pubkey}
use percolator_stake.State.Deposit.{is_junior_deposit}
use percolator_stake.State.Pool.{effective_junior_balance}
use percolator_stake.Processor.Guards.{pool_from_data}
use percolator_stake.Processor.Accrual.{
  AccrueAccounts, accrue_fees_inner, pre_accrue_fee_modes, process_accrue_fees,
}
use percolator_stake.Processor.Withdraw.{in_junior}
use percolator_stake.Solvency.{IsSound}
use percolator_stake.Solvency.Vault.{Vault, Change, Move, vault, accrue_fees_inner-Move}
use percolator_stake.Solvency.System.{World, PoolStep, Step}

-- A gain of nothing.
unchanged :
    (p q : StakePool)
    → q ≡ p
    → Move (vault p) (vault q) (Change.gain (q.total_fees_earned - p.total_fees_earned))
unfolding vault
unchanged p q same = Move.gain _ 0 (omega arith) (ground arith)

-- The stamps of the accrual are no part of the vault.
accrued-Move :
    (p q : StakePool) (slot : ℕ) (x : StakePool) (balance : ℕ)
    → IsSound p
    → accrue_fees_inner p balance ≡ ok x
    → q ≡ record x { last_fee_accrual_slot = slot; last_vault_snapshot = balance }
    → Move (vault p) (vault q) (Change.gain (q.total_fees_earned - p.total_fees_earned))
unfolding vault effective_junior_balance
accrued-Move p q slot x balance s e same = rw same (accrue_fees_inner-Move p x balance s e)

module _ (R : Runtime) (program_id : Pubkey) where
  open R use {Ledger}

  -- What the accrual books is a gain, whatever of it goes to which tranche.
  abbrev pub Accrues : (p q : StakePool) → Vault → Type 0
  Accrues p q x = Move (vault p) x (Change.gain (q.total_fees_earned - p.total_fees_earned))

  pub pre_accrue_fee_modes-Move :
      (ledger : Ledger) (p q : StakePool) (account : AccountInfo)
      → IsSound p
      → pre_accrue_fee_modes R ledger p account ≡ ok q
      → Accrues p q (vault q)
  unfolding pre_accrue_fee_modes
  pre_accrue_fee_modes-Move ledger p q account s e =
      grind (arith, accrue_fees_inner-Move p q, unchanged p q)

  pub accrue_fees-Move :
      (a : AccrueAccounts R) (clock : Clock) (ledger : Ledger) (p q : StakePool)
      → IsSound p
      → a.pool_ai.content ≡ AccountData.pool_bytes p
      → process_accrue_fees R program_id a clock ledger ≡ ok q
      → Accrues p q (vault q)
  unfolding process_accrue_fees pool_from_data
  accrue_fees-Move a clock ledger p q s held e = grind (arith, accrued-Move p q clock.slot)

  -- What a step of the pool alone does to the vault: a flush is a loss, a return and a recovery are
  -- gains, each of the amount of the instruction; an accrual is a gain of the fee that it books;
  -- the burn of the asset admin and the settings leave the vault as it is.
  abbrev pub PoolPerforms : (p q : StakePool) → PoolStep R program_id p q → Type 0
  PoolPerforms p _ (PoolStep.flush a amount ledger out held e) =
      Move (vault p) (vault out.pool) (Change.loss amount)
  PoolPerforms p _ (PoolStep.return_ a amount ledger out held e) =
      Move (vault p) (vault out.pool) (Change.gain amount)
  PoolPerforms p _ (PoolStep.recover a amount ledger out held e) =
      Move (vault p) (vault out.pool) (Change.gain amount)
  PoolPerforms p _ (PoolStep.accrue a clock ledger q held e) = Accrues p q (vault q)
  PoolPerforms p _ (PoolStep.burn a ledger out held e) = vault out.pool ≡ vault p
  PoolPerforms p _
        (PoolStep.settings admin pda clock cooldown cap enabled slots bps mult key q held e) =
      vault q ≡ vault p

  -- A deposit and a withdrawal accrue, and then change the tranche of the record by the amount of
  -- the instruction: the shares that a deposit adds to the vault are those it adds to the record.
  abbrev pub Performs : (w v : World) → Step R program_id w v → Type 0
  Performs _ _ (Step.pool_alone p q ds e) = PoolPerforms p q e
  Performs _ _ (Step.new_user p ds) = Unit
  Performs _ _ (Step.deposit a clock amount ledger p before after d out held at e) =
      (x : Vault) × (lp : ℕ) × Accrues p out.pool x
      × Move x (vault out.pool) (Change.deposit false amount lp)
      × (out.deposit.lp_amount ≡ d.lp_amount + lp)
  Performs _ _ (Step.deposit_junior a clock amount ledger p before after d out held at e) =
      (x : Vault) × (lp : ℕ) × Accrues p out.pool x
      × Move x (vault out.pool) (Change.deposit true amount lp)
      × (out.deposit.lp_amount ≡ d.lp_amount + lp)
  Performs _ _ (Step.withdraw a clock lp ledger p before after d out held at e) =
      (x : Vault) × Accrues p out.pool x
      × Move x (vault out.pool) (Change.withdrawal (in_junior p (is_junior_deposit d)) out.paid lp)
      × (out.deposit.lp_amount + lp ≡ d.lp_amount)
