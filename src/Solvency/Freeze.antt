-- ===== src/Solvency/Freeze.antt =====
-- The guard that `accrue_fees_inner` of src/processor.rs puts behind junior's share of a fee.
use percolator_stake.Prelude.{ℕ, ◌≤◌, ◌<◌, ◌≡◌, some, arith}
use percolator_stake.Error.{StakeError, custom, ok, err}
use percolator_stake.State.{StakePool, StakeDeposit, Pubkey}
use percolator_stake.State.Pool.{total_pool_value}
use percolator_stake.Processor.Accrual.{
  accrue_fees_inner, accrue, snapshot, credit_junior, pre_accrue_fee_modes, vault_balance,
}
use percolator_stake.Processor.Withdraw.{Withdrawn, WithdrawAccounts, process_withdraw}
use percolator_stake.Processor.Withdraw.Steps.{process_withdraw-steps}
use percolator_stake.Runtime.{Runtime, AccountInfo, AccountData, Clock}

-- Where junior shares exist, accrual fails whenever the vault holds more than the pool's value but
-- less than the junior balance that was stored before the losses.
pub accrue_fees_inner_stuck :
    (p : StakePool) (balance v : ℕ)
    → p.tranche_enabled_byte ≡ 1
    → 0 < p.junior_total_lp
    → 0 < p.total_lp_supply
    → total_pool_value p ≡ some v
    → v < balance
    → balance < p.junior_balance
    → accrue_fees_inner p balance ≡ err (custom StakeError.overflow)
unfolding accrue_fees_inner accrue snapshot credit_junior total_pool_value
accrue_fees_inner_stuck p balance v on juniors shares value surplus below = ground arith

module _ (R : Runtime) where
  open R use {Ledger}

  pre_accrue_fee_modes-stuck :
      (ledger : Ledger) (p q : StakePool) (vault : AccountInfo) (balance : ℕ)
      → p.pool_mode ≤ 1
      → vault_balance R ledger vault ≡ ok balance
      → accrue_fees_inner p balance ≡ err (custom StakeError.overflow)
      → ¬ (pre_accrue_fee_modes R ledger p vault ≡ ok q)
  unfolding pre_accrue_fee_modes
  pre_accrue_fee_modes-stuck ledger p q vault balance mode held stuck e = ground arith

  -- In a pool that accrues, with tranches and junior shares, no withdrawal succeeds while the vault
  -- holds more than the pool value but less than the stored junior balance.
  pub process_withdraw_stuck :
      (program_id : Pubkey) (a : WithdrawAccounts) (clock : Clock) (lp_amount : ℕ) (ledger : Ledger)
      → (p : StakePool) (d : StakeDeposit) (balance v : ℕ) (out : Withdrawn R)
      → a.pool_pda.content ≡ AccountData.pool_bytes p
      → a.deposit_pda.content ≡ AccountData.deposit_bytes d
      → p.pool_mode ≤ 1
      → p.tranche_enabled_byte ≡ 1
      → 0 < p.junior_total_lp
      → 0 < p.total_lp_supply
      → total_pool_value p ≡ some v
      → vault_balance R ledger a.vault ≡ ok balance
      → v < balance
      → balance < p.junior_balance
      → ¬ (process_withdraw R program_id a clock lp_amount ledger ≡ ok out)
  process_withdraw_stuck program_id a clock lp_amount ledger p d balance v out held stored mode on
        juniors shares value token surplus below e =
      let stuck = accrue_fees_inner_stuck p balance v on juniors shares value surplus below in
      let (accrued, _, _, accrual, _, _, _, _, _, _) =
        process_withdraw-steps R program_id a clock lp_amount ledger p d out held stored e in
      pre_accrue_fee_modes-stuck ledger p accrued a.vault balance mode token stuck accrual
