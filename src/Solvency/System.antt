-- ===== src/Solvency/System.antt =====
-- The pool with all its deposit records, and the handlers of src/processor.rs as the steps between
-- such states, in any order and by any callers. Each step may find any ledger.
pub mod Books
pub mod Sound
pub mod Performs
pub mod Refinement
pub mod Lifetime
pub mod Cases
pub mod Entry
use percolator_stake.Prelude.{ℕ, ◌+◌, ◌≤◌, ◌≡◌, ◌⊎◌, Bool, Option, some, List, [], ◌∷◌, ◌++◌}
use percolator_stake.Error.{ok}
use percolator_stake.Runtime.{Runtime, AccountInfo, AccountData, Clock}
use percolator_stake.State.{StakePool, StakeDeposit, Pubkey}
use percolator_stake.Processor.Accrual.{AccrueAccounts, process_accrue_fees}
use percolator_stake.Processor.Authority.{BindAccounts, process_burn_asset_admin}
use percolator_stake.Processor.Deposit.{
  Deposited, DepositAccounts, process_deposit, process_deposit_junior, zeroed,
}
use percolator_stake.Processor.Deposit.Steps.{stored}
use percolator_stake.Processor.Init.{InitAccounts, process_init_pool, process_init_trading_pool}
use percolator_stake.Processor.Insurance.{
  Moved, FlushAccounts, ReturnAccounts, RecoverAccounts, process_flush_to_insurance,
  process_return_insurance, process_recover_flushed_insurance,
}
use percolator_stake.Processor.Withdraw.{Withdrawn, WithdrawAccounts, process_withdraw}
use percolator_stake.Solvency.Settings.{IsSetting}

-- A user whose record's account does not exist yet may have a record of zero bytes in the list.
pub record World : Type 0 where
  pub pool : StakePool
  pub records : List StakeDeposit

module _ (R : Runtime) (program_id : Pubkey) where
  open R use {Ledger}

  -- The handlers that write the pool alone.
  pub data PoolStep (p : StakePool) : StakePool → Type 0 where
    flush :
        (a : FlushAccounts) (amount : ℕ) (ledger : Ledger) (out : Moved R)
        → a.pool_pda.content ≡ AccountData.pool_bytes p
        → process_flush_to_insurance R program_id a amount ledger ≡ ok out
        → PoolStep p out.pool
    return_ :
        (a : ReturnAccounts) (amount : ℕ) (ledger : Ledger) (out : Moved R)
        → a.pool_pda.content ≡ AccountData.pool_bytes p
        → process_return_insurance R program_id a amount ledger ≡ ok out
        → PoolStep p out.pool
    recover :
        (a : RecoverAccounts) (amount : ℕ) (ledger : Ledger) (out : Moved R)
        → a.pool_pda.content ≡ AccountData.pool_bytes p
        → process_recover_flushed_insurance R program_id a amount ledger ≡ ok out
        → PoolStep p out.pool
    accrue :
        (a : AccrueAccounts R) (clock : Clock) (ledger : Ledger) (q : StakePool)
        → a.pool_ai.content ≡ AccountData.pool_bytes p
        → process_accrue_fees R program_id a clock ledger ≡ ok q
        → PoolStep p q
    burn :
        (a : BindAccounts) (ledger : Ledger) (out : Moved R)
        → a.pool_pda.content ≡ AccountData.pool_bytes p
        → process_burn_asset_admin R program_id a ledger ≡ ok out
        → PoolStep p out.pool
    settings :
        (admin pda : AccountInfo) (clock : Clock) (cooldown cap : Option ℕ) (enabled : Bool)
        (slots bps mult : ℕ) (key : Pubkey) (q : StakePool)
        → pda.content ≡ AccountData.pool_bytes p
        → IsSetting program_id admin pda clock cooldown cap enabled slots bps mult key q
        → PoolStep p q

  pub data Step : World → World → Type 0 where
    pool_alone :
        (p q : StakePool) (ds : List StakeDeposit)
        → PoolStep p q
        → Step (record { pool = p; records = ds }) (record { pool = q; records = ds })
    new_user :
        (p : StakePool) (ds : List StakeDeposit)
        → Step (record { pool = p; records = ds }) (record { pool = p; records = zeroed ∷ ds })
    deposit :
        (a : DepositAccounts) (clock : Clock) (amount : ℕ) (ledger : Ledger) (p : StakePool)
        (before after : List StakeDeposit) (d : StakeDeposit) (out : Deposited R)
        → a.pool_pda.content ≡ AccountData.pool_bytes p
        → stored a.deposit_pda.content ≡ some d
        → process_deposit R program_id a clock amount ledger ≡ ok out
        → Step
            (record { pool = p; records = before ++ (d ∷ after) })
            (record { pool = out.pool; records = before ++ (out.deposit ∷ after) })
    deposit_junior :
        (a : DepositAccounts) (clock : Clock) (amount : ℕ) (ledger : Ledger) (p : StakePool)
        (before after : List StakeDeposit) (d : StakeDeposit) (out : Deposited R)
        → a.pool_pda.content ≡ AccountData.pool_bytes p
        → stored a.deposit_pda.content ≡ some d
        → process_deposit_junior R program_id a clock amount ledger ≡ ok out
        → Step
            (record { pool = p; records = before ++ (d ∷ after) })
            (record { pool = out.pool; records = before ++ (out.deposit ∷ after) })
    withdraw :
        (a : WithdrawAccounts) (clock : Clock) (lp_amount : ℕ) (ledger : Ledger) (p : StakePool)
        (before after : List StakeDeposit) (d : StakeDeposit) (out : Withdrawn R)
        → a.pool_pda.content ≡ AccountData.pool_bytes p
        → a.deposit_pda.content ≡ AccountData.deposit_bytes d
        → process_withdraw R program_id a clock lp_amount ledger ≡ ok out
        → Step
            (record { pool = p; records = before ++ (d ∷ after) })
            (record { pool = out.pool; records = before ++ (out.deposit ∷ after) })

  -- The states that the program reaches from an initialisation.
  pub data Reach (devnet : Bool) : World → Type 0 where
    init_pool :
        (a : InitAccounts) (cooldown cap : ℕ) (ledger : Ledger) (out : Moved R)
        → process_init_pool R devnet program_id a cooldown cap ledger ≡ ok out
        → Reach devnet (record { pool = out.pool; records = [] })
    init_trading_pool :
        (a : InitAccounts) (cooldown cap : ℕ) (ledger : Ledger) (out : Moved R)
        → process_init_trading_pool R devnet program_id a cooldown cap ledger ≡ ok out
        → Reach devnet (record { pool = out.pool; records = [] })
    next : (w v : World) → Reach devnet w → Step w v → Reach devnet v
