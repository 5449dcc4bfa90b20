-- ===== src/Processor/Deposit/Steps.antt =====
-- The pool of a deposit that succeeds, step by step: src/processor.rs, `process_deposit` and
-- `process_deposit_junior`.
use percolator_stake.Prelude.{
  ℕ, ◌≡◌, ◌==◌, Option, none, some, Bool, false, true, ap, sym, ◌∙◌, arith,
}
use percolator_stake.Error.{ok, StakeError, >>=-eq-ok, ok-inj}
use percolator_stake.Runtime.{Runtime, AccountData, Clock}
use percolator_stake.State.{StakePool, StakeDeposit, Pubkey}
use percolator_stake.Processor.Guards.{
  fails, pool_from_data, deposit_from_data, apply_minimum_liquidity_lock, derive_deposit_pda,
}
use percolator_stake.Processor.Accrual.{pre_accrue_fee_modes}
use percolator_stake.Processor.Deposit.{
  Deposited, DepositAccounts, process_deposit, process_deposit_junior, check_deposit,
  check_senior_loss, check_junior_loss, price_senior, price_junior, exchange, credit_senior,
  credit_junior, raise_mark, open_record, record_senior, record_junior, zeroed,
}

-- The record that an account holds; one that does not exist yet counts as zero bytes.
abbrev pub stored : AccountData → Option StakeDeposit
stored AccountData.empty = some zeroed
stored (AccountData.deposit_bytes d) = some d
stored _ = none

module _ (R : Runtime) (program_id : Pubkey) (a : DepositAccounts) where
  open R use {Ledger}

  check_deposit-reads :
      (junior : Bool) (amount : ℕ) (ledger : Ledger) (p q : StakePool)
      → a.pool_pda.content ≡ AccountData.pool_bytes p
      → check_deposit R program_id junior a amount ledger ≡ ok q
      → q ≡ p
  unfolding check_deposit pool_from_data
  check_deposit-reads junior amount ledger p q held e = ground arith

  check_deposit_junior-enabled :
      (amount : ℕ) (ledger : Ledger) (p q : StakePool)
      → a.pool_pda.content ≡ AccountData.pool_bytes p
      → check_deposit R program_id true a amount ledger ≡ ok q
      → p.tranche_enabled_byte ≡ 1
  unfolding check_deposit pool_from_data
  check_deposit_junior-enabled amount ledger p q held e = ground arith

  open_record-reads :
      (ledger : Ledger) (o : StakeDeposit × Ledger)
      → open_record R program_id a ledger ≡ ok o
      → stored a.deposit_pda.content ≡ some o.0
  unfolding open_record deposit_from_data
  open_record-reads ledger o e = ground arith

  -- The calls of a deposit that passed its checks: the exchange of the collateral for `minted`
  -- shares, then the creation of the record, if it is new.
  pub record HasCalled (junior : Bool) (amount : ℕ) (ledger after : Ledger) (p : StakePool)
      : Type 0 where
    pub minted : ℕ
    pub exchanged : Ledger
    pub opened : StakeDeposit × Ledger
    pub checks : check_deposit R program_id junior a amount ledger ≡ ok p
    pub exchanges : exchange R program_id a amount minted ledger ≡ ok exchanged
    pub opens : open_record R program_id a exchanged ≡ ok opened
    pub last : opened.1 ≡ after

  -- A senior deposit accrues, passes the loss gate, prices the shares, credits them and raises the
  -- mark, in this order.
  pub process_deposit-steps :
      (clock : Clock) (amount : ℕ) (ledger : Ledger) (p : StakePool) (out : Deposited R)
      → a.pool_pda.content ≡ AccountData.pool_bytes p
      → process_deposit R program_id a clock amount ledger ≡ ok out
      → (accrued credited : StakePool) × (lp : ℕ) × (held : StakeDeposit) × (pre_accrue_fee_modes R
            ledger p a.vault
          ≡ ok accrued)
        × (check_senior_loss accrued ≡ ok tt)
        × (price_senior accrued amount ≡ ok lp)
        × (credit_senior accrued amount lp ≡ ok credited)
        × (raise_mark credited clock ≡ ok out.pool)
        × (stored a.deposit_pda.content ≡ some held)
        × (record_senior held
              (derive_deposit_pda R program_id a.pool_pda.key a.user.key).1
              a.pool_pda.key
              a.user.key
              clock.slot
              lp
            ≡ ok out.deposit)
        × HasCalled false amount ledger out.ledger p
  unfolding process_deposit
  process_deposit-steps clock amount ledger p out held e =
      let (p1, h1, e) = >>=-eq-ok (check_deposit R program_id false a amount ledger) _ out e in
      let (p2, h2, e) = >>=-eq-ok (pre_accrue_fee_modes R ledger p1 a.vault) _ out e in
      let (_, g, e) = >>=-eq-ok (check_senior_loss p2) _ out e in
      let (lp, h3, e) = >>=-eq-ok (price_senior p2 amount) _ out e in
      let (_, _, e) = >>=-eq-ok (fails (lp == 0) StakeError.zero_shares_minted) _ out e in
      let (m, _, e) = >>=-eq-ok (apply_minimum_liquidity_lock p2.total_lp_supply lp) _ out e in
      let (l, h, e) = >>=-eq-ok (exchange R program_id a amount m ledger) _ out e in
      let (p3, h4, e) = >>=-eq-ok (credit_senior p2 amount lp) _ out e in
      let (p4, h5, e) = >>=-eq-ok (raise_mark p3 clock) _ out e in
      let (o, h6, e) = >>=-eq-ok (open_record R program_id a l) _ out e in
      let bump = (derive_deposit_pda R program_id a.pool_pda.key a.user.key).1 in
      let (d, h7, e) =
        >>=-eq-ok (record_senior o.0 bump a.pool_pda.key a.user.key clock.slot lp) _ out e in
      let final = ok-inj _ out e in
      let same : p1 ≡ p = check_deposit-reads false amount ledger p p1 held h1 in
      (
        p2,
        p3,
        lp,
        o.0,
        ap (λ q. pre_accrue_fee_modes R ledger q a.vault) (sym same) ∙ h2,
        g,
        h3,
        h4,
        h5 ∙ ap (λ (x : Deposited R). ok x.pool) final,
        open_record-reads l o h6,
        h7 ∙ ap (λ (x : Deposited R). ok x.deposit) final,
        record {
          minted = m;
          exchanged = l;
          opened = o;
          checks = h1 ∙ ap ok same;
          exchanges = h;
          opens = h6;
          last = ap (λ (x : Deposited R). x.ledger) final;
        },
      )

  -- A junior deposit goes through the same steps on the junior side.
  pub process_deposit_junior-steps :
      (clock : Clock) (amount : ℕ) (ledger : Ledger) (p : StakePool) (out : Deposited R)
      → a.pool_pda.content ≡ AccountData.pool_bytes p
      → process_deposit_junior R program_id a clock amount ledger ≡ ok out
      → (accrued credited : StakePool) × (lp : ℕ) × (held : StakeDeposit) × (p.tranche_enabled_byte
          ≡ 1)
        × (pre_accrue_fee_modes R ledger p a.vault ≡ ok accrued)
        × (check_junior_loss accrued ≡ ok tt)
        × (price_junior accrued amount ≡ ok lp)
        × (credit_junior accrued amount lp ≡ ok credited)
        × (raise_mark credited clock ≡ ok out.pool)
        × (stored a.deposit_pda.content ≡ some held)
        × (record_junior held
              (derive_deposit_pda R program_id a.pool_pda.key a.user.key).1
              a.pool_pda.key
              a.user.key
              clock.slot
              lp
            ≡ ok out.deposit)
        × HasCalled true amount ledger out.ledger p
  unfolding process_deposit_junior
  process_deposit_junior-steps clock amount ledger p out held e =
      let (p1, h1, e) = >>=-eq-ok (check_deposit R program_id true a amount ledger) _ out e in
      let (p2, h2, e) = >>=-eq-ok (pre_accrue_fee_modes R ledger p1 a.vault) _ out e in
      let (_, g, e) = >>=-eq-ok (check_junior_loss p2) _ out e in
      let (lp, h3, e) = >>=-eq-ok (price_junior p2 amount) _ out e in
      let (_, _, e) = >>=-eq-ok (fails (lp == 0) StakeError.zero_shares_minted) _ out e in
      let (m, _, e) = >>=-eq-ok (apply_minimum_liquidity_lock p2.total_lp_supply lp) _ out e in
      let (l, h, e) = >>=-eq-ok (exchange R program_id a amount m ledger) _ out e in
      let (p3, h4, e) = >>=-eq-ok (credit_junior p2 amount lp) _ out e in
      let (p4, h5, e) = >>=-eq-ok (raise_mark p3 clock) _ out e in
      let (o, h6, e) = >>=-eq-ok (open_record R program_id a l) _ out e in
      let bump = (derive_deposit_pda R program_id a.pool_pda.key a.user.key).1 in
      let (d, h7, e) =
        >>=-eq-ok (record_junior o.0 bump a.pool_pda.key a.user.key clock.slot lp) _ out e in
      let final = ok-inj _ out e in
      let same : p1 ≡ p = check_deposit-reads true amount ledger p p1 held h1 in
      (
        p2,
        p3,
        lp,
        o.0,
        check_deposit_junior-enabled amount ledger p p1 held h1,
        ap (λ q. pre_accrue_fee_modes R ledger q a.vault) (sym same) ∙ h2,
        g,
        h3,
        h4,
        h5 ∙ ap (λ (x : Deposited R). ok x.pool) final,
        open_record-reads l o h6,
        h7 ∙ ap (λ (x : Deposited R). ok x.deposit) final,
        record {
          minted = m;
          exchanged = l;
          opened = o;
          checks = h1 ∙ ap ok same;
          exchanges = h;
          opens = h6;
          last = ap (λ (x : Deposited R). x.ledger) final;
        },
      )
