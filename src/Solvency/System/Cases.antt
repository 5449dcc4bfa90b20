-- ===== src/Solvency/System/Cases.antt =====
-- The dispatch of src/processor.rs by the outcome of its handlers: what holds of the outcome of each
-- handler that succeeds holds of the outcome of the entry.
pub mod Arms
use percolator_stake.Prelude.{ℕ, ◌≡◌, Bool, Option, refl}
use percolator_stake.Error.{Result, ok, err, ◌>>=◌, ok-inj}
use percolator_stake.Runtime.{Runtime, AccountInfo, AccountData, Clock}
use percolator_stake.State.{StakePool, StakeDeposit, Pubkey}
use percolator_stake.Processor.Accrual.{AccrueAccounts, process_accrue_fees}
use percolator_stake.Processor.Authority.{
  BindAccounts, RotateAccounts, process_bind_insurance_authority, process_burn_asset_admin,
  process_rotate_insurance_operator, process_rotate_insurance_authority,
}
use percolator_stake.Processor.Config.{
  process_update_config, process_propose_admin, process_accept_admin,
  process_propose_cooldown_increase, process_commit_cooldown_increase,
  process_cancel_cooldown_increase, process_admin_set_hwm_config, process_admin_set_tranche_config,
  process_set_market_resolved,
}
use percolator_stake.Processor.Deposit.{
  Deposited, DepositAccounts, process_deposit, process_deposit_junior,
}
use percolator_stake.Processor.Init.{InitAccounts, process_init_pool, process_init_trading_pool}
use percolator_stake.Processor.Insurance.{
  Moved, FlushAccounts, ReturnAccounts, RecoverAccounts, process_flush_to_insurance,
  process_return_insurance, process_recover_flushed_insurance,
}
use percolator_stake.Processor.Proxies.{
  ProxyAccounts, process_admin_update_fee_split, process_admin_update_maintenance_fee_per_slot,
  process_admin_update_backing_fee_policy, process_admin_update_trade_fee_policy,
}
use percolator_stake.Processor.Resolution.{ResolveAccounts, process_admin_resolve_market}
use percolator_stake.Processor.Withdraw.{Withdrawn, WithdrawAccounts, process_withdraw}
use percolator_stake.Processor.Proxies.Relay.{Relays}
use percolator_stake.Instruction.{StakeInstruction}
use percolator_stake.Processor.Entry.{Outcome, starts, moves, sets, deposits, withdraws, calls}
use percolator_stake.Solvency.Settings.{IsSetting, setting_asked}

module _ (R : Runtime) (devnet : Bool) (program_id : Pubkey) where
  open R use {Ledger}

  -- The handlers that call the wrapper for the admin and write neither pool nor record.
  pub data Relayed (p : StakePool) (ledger after : Ledger) : StakeInstruction → Type 0 where
    bind :
        (a : BindAccounts)
        → a.pool_pda.content ≡ AccountData.pool_bytes p
        → process_bind_insurance_authority R program_id a ledger ≡ ok after
        → Relayed p ledger after StakeInstruction.bind_insurance_authority
    rotate_operator :
        (a : RotateAccounts)
        → a.bound.pool_pda.content ≡ AccountData.pool_bytes p
        → process_rotate_insurance_operator R program_id a ledger ≡ ok after
        → Relayed p ledger after StakeInstruction.rotate_insurance_operator
    rotate_authority :
        (a : RotateAccounts)
        → a.bound.pool_pda.content ≡ AccountData.pool_bytes p
        → process_rotate_insurance_authority R program_id a ledger ≡ ok after
        → Relayed p ledger after StakeInstruction.rotate_insurance_authority
    resolve :
        (a : ResolveAccounts)
        → a.pool_pda.content ≡ AccountData.pool_bytes p
        → process_admin_resolve_market R program_id a ledger ≡ ok after
        → Relayed p ledger after StakeInstruction.admin_resolve_market
    fees :
        (a : ProxyAccounts) (i : StakeInstruction)
        → a.pool_pda.content ≡ AccountData.pool_bytes p
        → Relays R program_id a ledger after i
        → Relayed p ledger after i

  -- `P` holds of the instruction and the outcome of every handler that succeeds on the pool `p` in `holder`, called by
  -- `first`.
  pub record Cases (first holder : AccountInfo) (p : StakePool) (ledger : Ledger)
      (P : StakeInstruction → Outcome R → Type 0) : Type 0 where
    pub started :
        (a : InitAccounts) (cooldown cap : ℕ) (x : Moved R)
        → process_init_pool R devnet program_id a cooldown cap ledger ≡ ok x
        → P (StakeInstruction.init_pool cooldown cap) (Outcome.started x.pool x.ledger)
    pub started_trading :
        (a : InitAccounts) (cooldown cap : ℕ) (x : Moved R)
        → process_init_trading_pool R devnet program_id a cooldown cap ledger ≡ ok x
        → P (StakeInstruction.init_trading_pool cooldown cap) (Outcome.started x.pool x.ledger)
    pub deposit :
        (a : DepositAccounts) (clock : Clock) (amount : ℕ) (x : Deposited R)
        → a.user ≡ first
        → a.pool_pda.content ≡ AccountData.pool_bytes p
        → process_deposit R program_id a clock amount ledger ≡ ok x
        → P (StakeInstruction.deposit amount) (Outcome.recorded x.pool x.deposit x.ledger)
    pub deposit_junior :
        (a : DepositAccounts) (clock : Clock) (amount : ℕ) (x : Deposited R)
        → a.user ≡ first
        → a.pool_pda.content ≡ AccountData.pool_bytes p
        → process_deposit_junior R program_id a clock amount ledger ≡ ok x
        → P (StakeInstruction.deposit_junior amount) (Outcome.recorded x.pool x.deposit x.ledger)
    pub withdraw :
        (a : WithdrawAccounts) (clock : Clock) (lp : ℕ) (x : Withdrawn R)
        → a.user ≡ first
        → a.pool_pda.content ≡ AccountData.pool_bytes p
        → process_withdraw R program_id a clock lp ledger ≡ ok x
        → P (StakeInstruction.withdraw lp) (Outcome.recorded x.pool x.deposit x.ledger)
    pub flush :
        (a : FlushAccounts) (amount : ℕ) (x : Moved R)
        → a.pool_pda.content ≡ AccountData.pool_bytes p
        → process_flush_to_insurance R program_id a amount ledger ≡ ok x
        → P (StakeInstruction.flush_to_insurance amount) (Outcome.changed x.pool x.ledger)
    pub return_ :
        (a : ReturnAccounts) (amount : ℕ) (x : Moved R)
        → a.admin ≡ first
        → a.pool_pda.content ≡ AccountData.pool_bytes p
        → process_return_insurance R program_id a amount ledger ≡ ok x
        → P (StakeInstruction.return_insurance amount) (Outcome.changed x.pool x.ledger)
    pub recover :
        (a : RecoverAccounts) (amount : ℕ) (x : Moved R)
        → a.pool_pda ≡ holder
        → a.pool_pda.content ≡ AccountData.pool_bytes p
        → process_recover_flushed_insurance R program_id a amount ledger ≡ ok x
        → P (StakeInstruction.recover_flushed_insurance amount) (Outcome.changed x.pool x.ledger)
    pub accrue :
        (a : AccrueAccounts R) (clock : Clock) (q : StakePool)
        → a.pool_ai.content ≡ AccountData.pool_bytes p
        → process_accrue_fees R program_id a clock ledger ≡ ok q
        → P StakeInstruction.accrue_fees (Outcome.changed q ledger)
    pub burn :
        (a : BindAccounts) (x : Moved R)
        → a.pool_pda.content ≡ AccountData.pool_bytes p
        → process_burn_asset_admin R program_id a ledger ≡ ok x
        → P StakeInstruction.burn_asset_admin (Outcome.changed x.pool x.ledger)
    pub settings :
        (admin pda : AccountInfo) (clock : Clock) (cooldown cap : Option ℕ) (enabled : Bool)
        (slots bps mult : ℕ) (key : Pubkey) (q : StakePool)
        → pda.content ≡ AccountData.pool_bytes p
        → (set : IsSetting program_id admin pda clock cooldown cap enabled slots bps mult key q)
        → P (setting_asked cooldown cap enabled slots bps mult key set) (Outcome.changed q ledger)
    pub relayed :
        (i : StakeInstruction) (after : Ledger)
        → Relayed p ledger after i
        → P i (Outcome.called after)

  -- The outcome of a handler by its result.
  module _ (P : Outcome R → Type 0) (out : Outcome R) where
    pub starts-case :
        (r : Result (Moved R))
        → ((x : Moved R) → r ≡ ok x → P (Outcome.started x.pool x.ledger))
        → starts R r ≡ ok out
        → P out
    starts-case (err wrong) step e = cc
    starts-case (ok x) step e = rw (← ok-inj _ out e) (step x refl)

    pub moves-case :
        (r : Result (Moved R))
        → ((x : Moved R) → r ≡ ok x → P (Outcome.changed x.pool x.ledger))
        → moves R r ≡ ok out
        → P out
    moves-case (err wrong) step e = cc
    moves-case (ok x) step e = rw (← ok-inj _ out e) (step x refl)

    pub sets-case :
        (r : Result StakePool) (ledger : Ledger)
        → ((q : StakePool) → r ≡ ok q → P (Outcome.changed q ledger))
        → sets R ledger r ≡ ok out
        → P out
    sets-case (err wrong) ledger step e = cc
    sets-case (ok q) ledger step e = rw (← ok-inj _ out e) (step q refl)

    pub calls-case :
        (r : Result Ledger)
        → ((after : Ledger) → r ≡ ok after → P (Outcome.called after))
        → calls R r ≡ ok out
        → P out
    calls-case (err wrong) step e = cc
    calls-case (ok after) step e = rw (← ok-inj _ out e) (step after refl)

    pub deposits-case :
        (r : Result (Deposited R))
        → ((x : Deposited R) → r ≡ ok x → P (Outcome.recorded x.pool x.deposit x.ledger))
        → deposits R r ≡ ok out
        → P out
    deposits-case (err wrong) step e = cc
    deposits-case (ok x) step e = rw (← ok-inj _ out e) (step x refl)

    pub withdraws-case :
        (r : Result (Withdrawn R))
        → ((x : Withdrawn R) → r ≡ ok x → P (Outcome.recorded x.pool x.deposit x.ledger))
        → withdraws R r ≡ ok out
        → P out
    withdraws-case (err wrong) step e = cc
    withdraws-case (ok x) step e = rw (← ok-inj _ out e) (step x refl)
