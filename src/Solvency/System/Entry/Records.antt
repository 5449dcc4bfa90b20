-- ===== src/Solvency/System/Entry/Records.antt =====
-- Each deposit and withdrawal of src/processor.rs that succeeds is a step with the record that it
-- found.
use percolator_stake.Prelude.{ℕ, ◌≡◌, refl, List, ◌∷◌, ◌++◌, arith}
use percolator_stake.Error.{ok, >>=-eq-ok}
use percolator_stake.Runtime.{Runtime, AccountData, Clock}
use percolator_stake.State.{StakePool, StakeDeposit, Pubkey}
use percolator_stake.Processor.Guards.{deposit_from_data}
use percolator_stake.Processor.Deposit.{
  Deposited, DepositAccounts, process_deposit, process_deposit_junior,
}
use percolator_stake.Processor.Deposit.Steps.{process_deposit-steps, process_deposit_junior-steps}
use percolator_stake.Processor.Withdraw.{
  Withdrawn, WithdrawAccounts, process_withdraw, check_withdraw_pool, check_withdraw_record,
}
use percolator_stake.Instruction.{StakeInstruction}
use percolator_stake.Solvency.System.{Step}
use percolator_stake.Solvency.System.Entry.{Ran}

-- A withdrawal that succeeds has found a record.
record_found :
    (content : AccountData) (d : StakeDeposit)
    → deposit_from_data content ≡ ok d
    → content ≡ AccountData.deposit_bytes d
unfolding deposit_from_data
record_found content d e = ground arith

module _ (R : Runtime) (program_id : Pubkey) where
  open R use {Ledger}

  pub deposit-Step :
      (a : DepositAccounts) (clock : Clock) (amount : ℕ) (ledger : Ledger) (p : StakePool)
      → (out : Deposited R) → a.pool_pda.content ≡ AccountData.pool_bytes p
      → process_deposit R program_id a clock amount ledger ≡ ok out
      → (d : StakeDeposit) × ((before after : List StakeDeposit)
          → (step : Step R program_id
              (record { pool = p; records = before ++ (d ∷ after) })
              (record { pool = out.pool; records = before ++ (out.deposit ∷ after) }))
            × Ran R program_id ledger out.ledger (StakeInstruction.deposit amount) _ _ step)
  deposit-Step a clock amount ledger p out held e =
      let (_, _, _, d, _, _, _, _, _, found, _, _) =
        process_deposit-steps R program_id a clock amount ledger p out held e in
      (
        d,
        λ before after. (
          Step.deposit a clock amount ledger p before after d out held found e,
          (refl, refl, refl),
        ),
      )

  pub deposit_junior-Step :
      (a : DepositAccounts) (clock : Clock) (amount : ℕ) (ledger : Ledger) (p : StakePool)
      → (out : Deposited R) → a.pool_pda.content ≡ AccountData.pool_bytes p
      → process_deposit_junior R program_id a clock amount ledger ≡ ok out
      → (d : StakeDeposit) × ((before after : List StakeDeposit)
          → (step : Step R program_id
              (record { pool = p; records = before ++ (d ∷ after) })
              (record { pool = out.pool; records = before ++ (out.deposit ∷ after) }))
            × Ran R program_id ledger out.ledger (StakeInstruction.deposit_junior amount) _ _ step)
  deposit_junior-Step a clock amount ledger p out held e =
      let (_, _, _, d, _, _, _, _, _, _, found, _, _) =
        process_deposit_junior-steps R program_id a clock amount ledger p out held e in
      (
        d,
        λ before after. (
          Step.deposit_junior a clock amount ledger p before after d out held found e,
          (refl, refl, refl),
        ),
      )

  record_at :
      (a : WithdrawAccounts) (p : StakePool) (clock : Clock) (lp : ℕ) (d : StakeDeposit)
      → check_withdraw_record R program_id a p clock lp ≡ ok d
      → deposit_from_data a.deposit_pda.content ≡ ok d
  unfolding check_withdraw_record
  record_at a p clock lp d e = ground arith

  pub withdraw-found :
      (a : WithdrawAccounts) (clock : Clock) (lp : ℕ) (ledger : Ledger) (out : Withdrawn R)
      → process_withdraw R program_id a clock lp ledger ≡ ok out
      → (d : StakeDeposit) × (a.deposit_pda.content ≡ AccountData.deposit_bytes d)
  unfolding process_withdraw
  withdraw-found a clock lp ledger out e =
      let (q, _, rest) = >>=-eq-ok (check_withdraw_pool R program_id a lp ledger) _ out e in
      let (d, checked, _) =
        >>=-eq-ok (check_withdraw_record R program_id a q clock lp) _ out rest in
      (d, record_found a.deposit_pda.content d (record_at a q clock lp d checked))

  pub withdraw-Step :
      (a : WithdrawAccounts) (clock : Clock) (lp : ℕ) (ledger : Ledger) (p : StakePool)
      → (out : Withdrawn R) → a.pool_pda.content ≡ AccountData.pool_bytes p
      → process_withdraw R program_id a clock lp ledger ≡ ok out
      → (d : StakeDeposit) × ((before after : List StakeDeposit)
          → (step : Step R program_id
              (record { pool = p; records = before ++ (d ∷ after) })
              (record { pool = out.pool; records = before ++ (out.deposit ∷ after) }))
            × Ran R program_id ledger out.ledger (StakeInstruction.withdraw lp) _ _ step)
  withdraw-Step a clock lp ledger p out held e =
      let (d, found) = withdraw-found a clock lp ledger out e in
      (
        d,
        λ before after.
            (Step.withdraw a clock lp ledger p before after d out held found e, (refl, refl, refl)),
      )
