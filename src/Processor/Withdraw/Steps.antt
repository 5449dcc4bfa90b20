-- ===== src/Processor/Withdraw/Steps.antt =====
-- The pool of a withdrawal that succeeds, step by step: src/processor.rs, `process_withdraw`.
use percolator_stake.Prelude.{ℕ, ◌≡◌, ◌==◌, not, ◌&&◌, ap, sym, ◌∙◌, arith}
use percolator_stake.Error.{ok, StakeError, >>=-eq-ok, >>=-known, ok-inj}
use percolator_stake.Runtime.{Runtime, AccountData, Clock}
use percolator_stake.State.{StakePool, StakeDeposit, Pubkey}
use percolator_stake.State.Deposit.{is_junior_deposit}
use percolator_stake.Processor.Guards.{fails, pool_from_data, deposit_from_data}
use percolator_stake.Processor.Accrual.{pre_accrue_fee_modes}
use percolator_stake.Processor.Withdraw.{
  Withdrawn, WithdrawAccounts, process_withdraw, check_withdraw_pool, check_withdraw_record,
  check_record, pay_out, withdrawal_value, fully_wiped, enforce_floor, redeem, debit, release,
}

module _ (R : Runtime) (program_id : Pubkey) (a : WithdrawAccounts) where
  open R use {Ledger}

  check_withdraw_pool-reads :
      (lp_amount : ℕ) (ledger : Ledger) (p q : StakePool)
      → a.pool_pda.content ≡ AccountData.pool_bytes p
      → check_withdraw_pool R program_id a lp_amount ledger ≡ ok q
      → q ≡ p
  unfolding check_withdraw_pool pool_from_data
  check_withdraw_pool-reads lp_amount ledger p q held e = ground arith

  check_withdraw_record-reads :
      (p : StakePool) (clock : Clock) (lp_amount : ℕ) (d q : StakeDeposit)
      → a.deposit_pda.content ≡ AccountData.deposit_bytes d
      → check_withdraw_record R program_id a p clock lp_amount ≡ ok q
      → (q ≡ d) × (check_record d p a.user.key a.pool_pda.key clock lp_amount ≡ ok tt)
  unfolding check_withdraw_record deposit_from_data
  check_withdraw_record-reads p clock lp_amount d q held e = ground arith

  pay_out-steps :
      (clock : Clock) (lp_amount : ℕ) (ledger : Ledger)
      → (d : StakeDeposit) (accrued : StakePool) (out : Withdrawn R)
      → pay_out R program_id a clock lp_amount ledger d accrued ≡ ok out
      → (marked : StakePool) × (withdrawal_value accrued (is_junior_deposit d) lp_amount
          ≡ ok out.paid)
        × (enforce_floor accrued clock out.paid (fully_wiped accrued (is_junior_deposit d) out.paid)
            ≡ ok marked)
        × (debit marked (is_junior_deposit d) out.paid lp_amount ≡ ok out.pool)
        × (release d lp_amount ≡ ok out.deposit)
        × (redeem R program_id a marked out.paid lp_amount ledger ≡ ok out.ledger)
  unfolding pay_out
  pay_out-steps clock lp_amount ledger d accrued out e =
      let junior = is_junior_deposit d in
      let (w, h4, e) = >>=-eq-ok (withdrawal_value accrued junior lp_amount) _ out e in
      let wiped = fully_wiped accrued junior w in
      let (_, _, e) = >>=-eq-ok (fails ((w == 0) && not wiped) StakeError.zero_amount) _ out e in
      let (marked, h5, e) = >>=-eq-ok (enforce_floor accrued clock w wiped) _ out e in
      let (l, h8, e) = >>=-eq-ok (redeem R program_id a marked w lp_amount ledger) _ out e in
      let (q, h6, e) = >>=-eq-ok (debit marked junior w lp_amount) _ out e in
      let (r, h7, e) = >>=-eq-ok (release d lp_amount) _ out e in
      let final = ok-inj _ out e in
      let pay : w ≡ out.paid = ap (λ (x : Withdrawn R). x.paid) final in
      (
        marked,
        h4 ∙ ap ok pay,
        ap (λ (x : ℕ). enforce_floor accrued clock x (fully_wiped accrued junior x)) (sym pay) ∙ h5,
        ap (λ (x : ℕ). debit marked junior x lp_amount) (sym pay)
            ∙ h6
            ∙ ap (λ (x : Withdrawn R). ok x.pool) final,
        h7 ∙ ap (λ (x : Withdrawn R). ok x.deposit) final,
        ap (λ (x : ℕ). redeem R program_id a marked x lp_amount ledger) (sym pay)
            ∙ h8
            ∙ ap (λ (x : Withdrawn R). ok x.ledger) final,
      )

  -- A withdrawal checks the pool's accounts and the record, accrues, prices the shares, enforces the
  -- floor, burns and pays, and debits the pool and the record.
  pub process_withdraw-steps :
      (clock : Clock) (lp_amount : ℕ) (ledger : Ledger)
      → (p : StakePool) (d : StakeDeposit) (out : Withdrawn R)
      → a.pool_pda.content ≡ AccountData.pool_bytes p
      → a.deposit_pda.content ≡ AccountData.deposit_bytes d
      → process_withdraw R program_id a clock lp_amount ledger ≡ ok out
      → (accrued marked : StakePool) × (check_record d p a.user.key a.pool_pda.key clock lp_amount
          ≡ ok tt)
        × (pre_accrue_fee_modes R ledger p a.vault ≡ ok accrued)
        × (withdrawal_value accrued (is_junior_deposit d) lp_amount ≡ ok out.paid)
        × (enforce_floor accrued clock out.paid (fully_wiped accrued (is_junior_deposit d) out.paid)
            ≡ ok marked)
        × (debit marked (is_junior_deposit d) out.paid lp_amount ≡ ok out.pool)
        × (release d lp_amount ≡ ok out.deposit)
        × (check_withdraw_pool R program_id a lp_amount ledger ≡ ok p)
        × (redeem R program_id a marked out.paid lp_amount ledger ≡ ok out.ledger)
  unfolding process_withdraw
  process_withdraw-steps clock lp_amount ledger p d out held stored e =
      let (p1, h1, _) = >>=-eq-ok (check_withdraw_pool R program_id a lp_amount ledger) _ out e in
      let same = check_withdraw_pool-reads lp_amount ledger p p1 held h1 in
      let e =
        >>=-known (check_withdraw_pool R program_id a lp_amount ledger) _ p out (h1 ∙ ap ok same)
          e in
      let (d1, h2, _) =
        >>=-eq-ok (check_withdraw_record R program_id a p clock lp_amount) _ out e in
      let (this, checked) = check_withdraw_record-reads p clock lp_amount d d1 stored h2 in
      let e =
        >>=-known (check_withdraw_record R program_id a p clock lp_amount) _ d out (h2 ∙ ap ok this)
          e in
      let (accrued, h3, e) = >>=-eq-ok (pre_accrue_fee_modes R ledger p a.vault) _ out e in
      let (marked, value, floor, totals, freed, paid) =
        pay_out-steps clock lp_amount ledger d accrued out e in
      (accrued, marked, checked, h3, value, floor, totals, freed, h1 ∙ ap ok same, paid)
