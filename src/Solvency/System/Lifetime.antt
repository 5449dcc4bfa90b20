-- ===== src/Solvency/System/Lifetime.antt =====
-- What no sequence of steps undoes: the pool's keys, its lifetime counters and its one-way flags.
use percolator_stake.Prelude.{ℕ, ◌≡◌, ◌⊎◌, inl, inr, Bool, true, false, refl, arith}
use percolator_stake.Error.{ok, ◌>>=◌, >>=-eq-ok}
use percolator_stake.Runtime.{Runtime, AccountInfo, AccountData, Clock}
use percolator_stake.State.{StakePool, StakeDeposit, Pubkey}
use percolator_stake.State.Deposit.{is_junior_deposit}
use percolator_stake.Processor.Guards.{pool_from_data}
use percolator_stake.Processor.Accrual.{
  AccrueAccounts, accrue_fees_inner, pre_accrue_fee_modes, process_accrue_fees, vault_balance,
}
use percolator_stake.Processor.Authority.Seal.{burn_gate}
use percolator_stake.Processor.Deposit.{
  Deposited, DepositAccounts, process_deposit, process_deposit_junior, check_deposit,
}
use percolator_stake.Processor.Deposit.Steps.{process_deposit-steps, process_deposit_junior-steps}
use percolator_stake.Processor.Config.{process_set_market_resolved}
use percolator_stake.Processor.Config.Timelock.{set_market_resolved_gate}
use percolator_stake.Processor.Insurance.{
  process_flush_to_insurance, process_return_insurance, process_recover_flushed_insurance,
  book_flush, book_return, book_recovery,
}
use percolator_stake.Processor.Withdraw.{Withdrawn, WithdrawAccounts, process_withdraw}
use percolator_stake.Processor.Withdraw.Steps.{process_withdraw-steps}
use percolator_stake.Solvency.Later.{
  IsLater, IsLater-refl, IsLater-trans, marked-IsLater, credit-IsLater, debit-IsLater,
  booked-IsLater, accrued-IsLater, booked-rest,
}
use percolator_stake.Solvency.Settings.{IsFrame, settings-IsFrame}
use percolator_stake.Solvency.Withdraw.{enforce_floor-eq}
use percolator_stake.Solvency.System.{World, PoolStep, Step}

module _ (R : Runtime) (program_id : Pubkey) where
  open R use {Ledger}

  pre_accrue_fee_modes-IsLater :
      (ledger : Ledger) (p q : StakePool) (account : AccountInfo)
      → pre_accrue_fee_modes R ledger p account ≡ ok q
      → IsLater p q
  unfolding pre_accrue_fee_modes
  pre_accrue_fee_modes-IsLater ledger p q account e =
      grind (arith, accrued-IsLater p, IsLater-refl p)

  accrue_fees-rest :
      (a : AccrueAccounts R) (clock : Clock) (ledger : Ledger) (p q : StakePool)
      → a.pool_ai.content ≡ AccountData.pool_bytes p
      → process_accrue_fees R program_id a clock ledger ≡ ok q
      → (vault_balance R ledger a.vault_ai >>= λ b.
          (accrue_fees_inner p b >>= λ x.
          ok (record x { last_fee_accrual_slot = clock.slot; last_vault_snapshot = b })))
        ≡ ok q
  unfolding process_accrue_fees pool_from_data
  accrue_fees-rest a clock ledger p q held e = ground arith

  accrue_fees-IsLater :
      (a : AccrueAccounts R) (clock : Clock) (ledger : Ledger) (p q : StakePool)
      → a.pool_ai.content ≡ AccountData.pool_bytes p
      → process_accrue_fees R program_id a clock ledger ≡ ok q
      → IsLater p q
  accrue_fees-IsLater a clock ledger p q held e =
      booked-rest p q clock.slot (vault_balance R ledger a.vault_ai)
        (accrue_fees-rest a clock ledger p q held e)

  pub pool_step-IsLater : (p q : StakePool) → PoolStep R program_id p q → IsLater p q
  unfolding process_flush_to_insurance process_return_insurance process_recover_flushed_insurance
      pool_from_data IsFrame
  pool_step-IsLater p _ (PoolStep.flush a amount ledger out held e) =
      let booked : book_flush p amount ≡ ok out.pool = ground arith in
      booked-IsLater p out.pool amount (inl booked)
  pool_step-IsLater p _ (PoolStep.return_ a amount ledger out held e) =
      let booked : book_return p amount ≡ ok out.pool = ground arith in
      booked-IsLater p out.pool amount (inr (inl booked))
  pool_step-IsLater p _ (PoolStep.recover a amount ledger out held e) =
      let booked : book_recovery p amount ≡ ok out.pool = ground arith in
      booked-IsLater p out.pool amount (inr (inr booked))
  pool_step-IsLater p _ (PoolStep.accrue a clock ledger q held e) =
      accrue_fees-IsLater a clock ledger p q held e
  pool_step-IsLater p _ (PoolStep.burn a ledger out held e) =
      let (_, _, _, burnt) = burn_gate R program_id a ledger p out held e in ground arith
  pool_step-IsLater p _
        (PoolStep.settings admin pda clock cooldown cap enabled slots bps mult key q held e) =
      let (same, on, final) =
        settings-IsFrame program_id admin pda clock p q cooldown cap enabled slots bps mult key held
          e in
      ground arith

  pub deposit-IsLater :
      (a : DepositAccounts) (clock : Clock) (amount : ℕ) (ledger : Ledger) (p : StakePool)
      → (out : Deposited R) → a.pool_pda.content ≡ AccountData.pool_bytes p
      → (process_deposit R program_id a clock amount ledger ≡ ok out)
        ⊎ (process_deposit_junior R program_id a clock amount ledger ≡ ok out)
      → IsLater p out.pool
  deposit-IsLater a clock amount ledger p out held (inl e) =
      let (accrued, credited, lp, _, h1, _, _, h2, h3, _, _, _) =
        process_deposit-steps R program_id a clock amount ledger p out held e in
      IsLater-trans p accrued out.pool (pre_accrue_fee_modes-IsLater ledger p accrued a.vault h1)
        (credit-IsLater accrued credited out.pool clock amount lp (inl h2) h3)
  deposit-IsLater a clock amount ledger p out held (inr e) =
      let (accrued, credited, lp, _, _, h1, _, _, h2, h3, _, _, _) =
        process_deposit_junior-steps R program_id a clock amount ledger p out held e in
      IsLater-trans p accrued out.pool (pre_accrue_fee_modes-IsLater ledger p accrued a.vault h1)
        (credit-IsLater accrued credited out.pool clock amount lp (inr h2) h3)

  pub withdraw-IsLater :
      (a : WithdrawAccounts) (clock : Clock) (lp : ℕ) (ledger : Ledger) (p : StakePool)
      → (d : StakeDeposit) (out : Withdrawn R) → a.pool_pda.content ≡ AccountData.pool_bytes p
      → a.deposit_pda.content ≡ AccountData.deposit_bytes d
      → process_withdraw R program_id a clock lp ledger ≡ ok out
      → IsLater p out.pool
  withdraw-IsLater a clock lp ledger p d out held at e =
      let (accrued, marked, _, h1, _, h2, h3, _, _, _) =
        process_withdraw-steps R program_id a clock lp ledger p d out held at e in
      let floored : IsLater accrued marked =
        marked-IsLater accrued marked (enforce_floor-eq accrued marked clock out.paid _ h2) in
      IsLater-trans p accrued out.pool (pre_accrue_fee_modes-IsLater ledger p accrued a.vault h1) (
        IsLater-trans accrued marked out.pool floored
          (debit-IsLater marked out.pool (is_junior_deposit d) out.paid lp h3))

  Step-IsLater : (w v : World) → Step R program_id w v → IsLater w.pool v.pool
  Step-IsLater _ _ (Step.pool_alone p q ds e) = pool_step-IsLater p q e
  Step-IsLater _ _ (Step.new_user p ds) = IsLater-refl p p refl
  Step-IsLater _ _ (Step.deposit a clock amount ledger p before after d out held at e) =
      deposit-IsLater a clock amount ledger p out held (inl e)
  Step-IsLater _ _ (Step.deposit_junior a clock amount ledger p before after d out held at e) =
      deposit-IsLater a clock amount ledger p out held (inr e)
  Step-IsLater _ _ (Step.withdraw a clock lp ledger p before after d out held at e) =
      withdraw-IsLater a clock lp ledger p d out held at e

  -- Any number of steps.
  pub data Steps (w : World) : World → Type 0 where
    stay : Steps w w
    then : (v u : World) → Steps w v → Step R program_id v u → Steps w u

  -- No sequence of successful handlers changes the keys of the pool's market, mints, vault and
  -- wrapper or its mode, lowers one of its seven lifetime totals, or takes back its three one-way
  -- flags: tranches, the burn and the resolution.
  pub Steps-IsLater : (w v : World) → Steps w v → IsLater w.pool v.pool
  Steps-IsLater w _ Steps.stay = IsLater-refl w.pool w.pool refl
  Steps-IsLater w _ (Steps.then v u before last) =
      IsLater-trans w.pool v.pool u.pool (Steps-IsLater w v before) (Step-IsLater v u last)

  refused :
      (junior : Bool) (a : DepositAccounts) (amount : ℕ) (ledger : Ledger) (p q : StakePool)
      → a.pool_pda.content ≡ AccountData.pool_bytes p
      → ¬ (p.market_resolved_byte ≡ 0)
      → ¬ (check_deposit R program_id junior a amount ledger ≡ ok q)
  unfolding check_deposit pool_from_data
  refused junior a amount ledger p q held resolved e = ground arith

  -- Once a pool's market is marked as resolved, no sequence of successful handlers leads to a pool
  -- that takes a deposit of either tranche again, or that can be marked a second time.
  pub resolved_final :
      (w v : World) (a : DepositAccounts) (clock : Clock) (amount : ℕ) (ledger : Ledger)
      → (admin pda : AccountInfo) (out : Deposited R) (q : StakePool)
      → ¬ (w.pool.market_resolved_byte ≡ 0)
      → Steps w v
      → a.pool_pda.content ≡ AccountData.pool_bytes v.pool
      → pda.content ≡ AccountData.pool_bytes v.pool
      → ¬ (process_deposit R program_id a clock amount ledger ≡ ok out)
        × ¬ (process_deposit_junior R program_id a clock amount ledger ≡ ok out)
        × ¬ (process_set_market_resolved program_id admin pda ≡ ok q)
  unfolding process_deposit process_deposit_junior
  resolved_final w v a clock amount ledger admin pda out q resolved steps ha hp =
      let raised = (Steps-IsLater w v steps).resolved in
      let still : ¬ (v.pool.market_resolved_byte ≡ 0) = λ h. ground arith in
      (
        (λ e.
            let (x, checked, _) =
              >>=-eq-ok (check_deposit R program_id false a amount ledger) _ out e in
            refused false a amount ledger v.pool x ha still checked),
        (λ e.
            let (x, checked, _) =
              >>=-eq-ok (check_deposit R program_id true a amount ledger) _ out e in
            refused true a amount ledger v.pool x ha still checked),
        (λ e.
            let (_, _, unmarked, _, _) =
              set_market_resolved_gate program_id admin pda v.pool q hp e in
            still unmarked),
      )
