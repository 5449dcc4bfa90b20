-- ===== src/Solvency/Handlers.antt =====
-- Whole handlers of src/processor.rs keep the invariant of the pool they read.
use percolator_stake.Prelude.{ℕ, ◌+◌, ◌≤◌, ◌≡◌, ◌∙◌, arith}
use percolator_stake.Error.{ok}
use percolator_stake.Runtime.{Runtime, AccountInfo, AccountData, Clock}
use percolator_stake.State.{StakePool, StakeDeposit, Pubkey}
use percolator_stake.State.Deposit.{is_junior_deposit}
use percolator_stake.Processor.Guards.{pool_from_data}
use percolator_stake.Processor.Accrual.{AccrueAccounts, pre_accrue_fee_modes, process_accrue_fees}
use percolator_stake.Processor.Deposit.{
  Deposited, DepositAccounts, process_deposit, process_deposit_junior,
}
use percolator_stake.Processor.Deposit.Steps.{process_deposit-steps, process_deposit_junior-steps}
use percolator_stake.Processor.Withdraw.{Withdrawn, WithdrawAccounts, process_withdraw}
use percolator_stake.Processor.Withdraw.Steps.{process_withdraw-steps}
use percolator_stake.Processor.Insurance.{
  Moved, FlushAccounts, ReturnAccounts, RecoverAccounts, process_flush_to_insurance,
  process_return_insurance, process_recover_flushed_insurance, check_available, check_outstanding,
  check_recoverable, book_flush, book_return, book_recovery,
}
use percolator_stake.Solvency.{IsSound}
use percolator_stake.Solvency.Accrual.{accrue_fees_inner-IsSound, accrue_fees_inner-tranches}
use percolator_stake.Solvency.Deposit.{
  credit_senior-IsSound, credit_junior-IsSound, raise_mark-IsSound,
}
use percolator_stake.Solvency.Insurance.{flush-IsSound, return-IsSound, recovery-IsSound}
use percolator_stake.Solvency.Withdraw.{
  tranche_shares, debit-IsSound, enforce_floor-IsSound, enforce_floor-priced,
}

-- The handlers that only keep books, and the accrual inside the others.
module _ (R : Runtime) where
  open R use {Ledger}

  pub pre_accrue_fee_modes-IsSound :
      (ledger : Ledger) (p q : StakePool) (vault : AccountInfo)
      → IsSound p
      → pre_accrue_fee_modes R ledger p vault ≡ ok q
      → IsSound q
  unfolding pre_accrue_fee_modes
  pre_accrue_fee_modes-IsSound ledger p q vault s e = grind (arith, accrue_fees_inner-IsSound p q)

  pub pre_accrue_fee_modes-tranches :
      (ledger : Ledger) (p q : StakePool) (vault : AccountInfo)
      → pre_accrue_fee_modes R ledger p vault ≡ ok q
      → (q.tranche_enabled_byte ≡ p.tranche_enabled_byte)
        × (q.junior_total_lp ≡ p.junior_total_lp)
        × (q.total_lp_supply ≡ p.total_lp_supply)
  unfolding pre_accrue_fee_modes
  pre_accrue_fee_modes-tranches ledger p q vault e = grind (arith, accrue_fees_inner-tranches p q)

  -- A senior deposit that succeeds keeps the counters of the pool account sound.
  pub process_deposit-IsSound :
      (program_id : Pubkey) (a : DepositAccounts) (clock : Clock) (amount : ℕ) (ledger : Ledger)
      → (p : StakePool) (out : Deposited R) → IsSound p
      → a.pool_pda.content ≡ AccountData.pool_bytes p
      → process_deposit R program_id a clock amount ledger ≡ ok out
      → IsSound out.pool
  process_deposit-IsSound program_id a clock amount ledger p out s held e =
      let (accrued, credited, lp, _, h1, _, _, h3, h4, _, _, _) =
        process_deposit-steps R program_id a clock amount ledger p out held e in
      let s1 = pre_accrue_fee_modes-IsSound ledger p accrued a.vault s h1 in
      raise_mark-IsSound credited out.pool clock
        (credit_senior-IsSound accrued credited amount lp s1 h3) h4

  -- A junior deposit that succeeds keeps the counters of the pool account sound.
  pub process_deposit_junior-IsSound :
      (program_id : Pubkey) (a : DepositAccounts) (clock : Clock) (amount : ℕ) (ledger : Ledger)
      → (p : StakePool) (out : Deposited R) → IsSound p
      → a.pool_pda.content ≡ AccountData.pool_bytes p
      → process_deposit_junior R program_id a clock amount ledger ≡ ok out
      → IsSound out.pool
  process_deposit_junior-IsSound program_id a clock amount ledger p out s held e =
      let (accrued, credited, lp, _, on, h1, _, _, h3, h4, _, _, _) =
        process_deposit_junior-steps R program_id a clock amount ledger p out held e in
      let s1 = pre_accrue_fee_modes-IsSound ledger p accrued a.vault s h1 in
      let (same, _, _) = pre_accrue_fee_modes-tranches ledger p accrued a.vault h1 in
      raise_mark-IsSound credited out.pool clock
        (credit_junior-IsSound accrued credited amount lp s1 (same ∙ on) h3) h4

  -- A withdrawal that succeeds, of no more shares than the tranche of its record has, keeps the
  -- counters of the pool account sound: the pool value is not negative, principal and fees cover
  -- the junior balance and the realised losses, returns stay within flushes, junior shares within
  -- the supply.
  pub process_withdraw-IsSound :
      (program_id : Pubkey) (a : WithdrawAccounts) (clock : Clock) (lp_amount : ℕ) (ledger : Ledger)
      → (p : StakePool) (d : StakeDeposit) (out : Withdrawn R) → IsSound p
      → lp_amount ≤ tranche_shares p (is_junior_deposit d)
      → a.pool_pda.content ≡ AccountData.pool_bytes p
      → a.deposit_pda.content ≡ AccountData.deposit_bytes d
      → process_withdraw R program_id a clock lp_amount ledger ≡ ok out
      → IsSound out.pool
  process_withdraw-IsSound program_id a clock lp_amount ledger p d out s bound held stored e =
      let (accrued, marked, _, h1, h2, h3, h4, _, _, _) =
        process_withdraw-steps R program_id a clock lp_amount ledger p d out held stored e in
      let s1 = pre_accrue_fee_modes-IsSound ledger p accrued a.vault s h1 in
      let (byte, junior_lp, supply) = pre_accrue_fee_modes-tranches ledger p accrued a.vault h1 in
      let s2 = enforce_floor-IsSound accrued marked clock out.paid _ s1 h3 in
      let (price, shares) =
        enforce_floor-priced accrued marked clock out.paid _ h3 (is_junior_deposit d) lp_amount in
      let fits : lp_amount ≤ tranche_shares marked (is_junior_deposit d) =
        rw (shares, byte, junior_lp, supply) bound in
      debit-IsSound marked out.pool (is_junior_deposit d) lp_amount out.paid s2 fits (price ∙ h2) h4

  -- A flush to insurance that succeeds keeps the counters of the pool account sound.
  pub process_flush-IsSound :
      (program_id : Pubkey) (a : FlushAccounts) (amount : ℕ) (ledger : Ledger)
      → (p : StakePool) (out : Moved R) → IsSound p
      → a.pool_pda.content ≡ AccountData.pool_bytes p
      → process_flush_to_insurance R program_id a amount ledger ≡ ok out
      → IsSound out.pool
  unfolding process_flush_to_insurance pool_from_data
  process_flush-IsSound program_id a amount ledger p out s held e =
      let steps : (check_available p amount ≡ ok tt) × (book_flush p amount ≡ ok out.pool) =
        ground arith in
      flush-IsSound p out.pool amount s steps.0 steps.1

  -- A return of insurance that succeeds keeps the counters of the pool account sound.
  pub process_return_insurance-IsSound :
      (program_id : Pubkey) (a : ReturnAccounts) (amount : ℕ) (ledger : Ledger)
      → (p : StakePool) (out : Moved R) → IsSound p
      → a.pool_pda.content ≡ AccountData.pool_bytes p
      → process_return_insurance R program_id a amount ledger ≡ ok out
      → IsSound out.pool
  unfolding process_return_insurance pool_from_data
  process_return_insurance-IsSound program_id a amount ledger p out s held e =
      let steps : (check_outstanding p amount ≡ ok tt) × (book_return p amount ≡ ok out.pool) =
        ground arith in
      return-IsSound p out.pool amount s steps.0 steps.1

  -- A recovery from the wrapper that succeeds keeps the counters of the pool account sound, if it
  -- does not book more as returned than was flushed.
  pub process_recover-IsSound :
      (program_id : Pubkey) (a : RecoverAccounts) (amount : ℕ) (ledger : Ledger)
      → (p : StakePool) (out : Moved R) → IsSound p
      → p.total_returned + amount ≤ p.total_flushed
      → a.pool_pda.content ≡ AccountData.pool_bytes p
      → process_recover_flushed_insurance R program_id a amount ledger ≡ ok out
      → IsSound out.pool
  unfolding process_recover_flushed_insurance pool_from_data
  process_recover-IsSound program_id a amount ledger p out s within held e =
      let steps : (check_recoverable p amount ≡ ok tt) × (book_recovery p amount ≡ ok out.pool) =
        ground arith in
      recovery-IsSound p out.pool amount s within steps.0 steps.1

  -- The accrual instruction, when it succeeds, keeps the counters of the pool account sound.
  pub process_accrue_fees-IsSound :
      (program_id : Pubkey) (a : AccrueAccounts R) (clock : Clock) (ledger : Ledger)
      → (p q : StakePool) → IsSound p
      → a.pool_ai.content ≡ AccountData.pool_bytes p
      → process_accrue_fees R program_id a clock ledger ≡ ok q
      → IsSound q
  unfolding process_accrue_fees pool_from_data
  process_accrue_fees-IsSound program_id a clock ledger p q s held e =
      grind (arith, accrue_fees_inner-IsSound p)
