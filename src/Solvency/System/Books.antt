-- ===== src/Solvency/System/Books.antt =====
-- The deposit records hold exactly the shares that the pool counts, in every state that the program
-- reaches.
use percolator_stake.Prelude.{
  ℕ, ◌+◌, ◌≤◌, ◌≡◌, ◌⊎◌, inl, inr, Bool, refl, sym, ap, ◌∙◌, List, [], ◌∷◌, ◌++◌, some,
  if◌then◌else◌, arith,
}
use percolator_stake.Error.{ok}
use percolator_stake.Runtime.{Runtime, AccountData, Clock}
use percolator_stake.State.{StakePool, StakeDeposit, Pubkey}
use percolator_stake.State.Deposit.{is_junior_deposit}
use percolator_stake.Processor.Guards.{pool_from_data}
use percolator_stake.Processor.Accrual.{AccrueAccounts, process_accrue_fees}
use percolator_stake.Processor.Authority.Seal.{burn_gate}
use percolator_stake.Processor.Deposit.{
  Deposited, DepositAccounts, process_deposit, process_deposit_junior,
}
use percolator_stake.Processor.Withdraw.{Withdrawn, WithdrawAccounts, process_withdraw}
use percolator_stake.Processor.Deposit.Steps.{
  stored, process_deposit-steps, process_deposit_junior-steps,
}
use percolator_stake.Processor.Withdraw.Steps.{process_withdraw-steps}
use percolator_stake.Processor.Insurance.{
  process_flush_to_insurance, process_return_insurance, process_recover_flushed_insurance,
  book_flush, book_return, book_recovery,
}
use percolator_stake.Solvency.Accrual.{accrue_fees_inner-tranches}
use percolator_stake.Solvency.Handlers.{pre_accrue_fee_modes-tranches}
use percolator_stake.Solvency.Settings.{IsFrame, settings-IsFrame}
use percolator_stake.Solvency.Shares.{
  Issues, IsClosed, AllClosed, shares_held, junior_shares_held, junior_part, shares_held-insert,
  AllClosed-insert, AllClosed-replace, credit_senior-Issues, credit_junior-Issues,
  record_senior-shares, record_junior-shares, release-shares, debit-shares,
}
use percolator_stake.Solvency.Withdraw.{enforce_floor-eq}
use percolator_stake.Solvency.Init.{IsReady, init_pool-IsReady}
use percolator_stake.Solvency.System.{World, PoolStep, Step, Reach}

-- The records hold the supply, the junior ones the junior supply, a record that is not initialised
-- holds nothing, and a pool without tranches has no junior shares.
pub record IsBooked (w : World) : Type 0 where
  pub closed : AllClosed w.records
  pub supply : shares_held w.records ≡ w.pool.total_lp_supply
  pub junior_supply : junior_shares_held w.records ≡ w.pool.junior_total_lp
  pub untranched : (w.pool.tranche_enabled_byte ≡ 1) ⊎ (w.pool.junior_total_lp ≡ 0)

pool_alone-IsBooked :
    (p q : StakePool) (ds : List StakeDeposit)
    → Issues p q 0 0
    → IsBooked (record { pool = p; records = ds })
    → IsBooked (record { pool = q; records = ds })
pool_alone-IsBooked p q ds i b = record {
  closed = b.closed;
  supply = omega (arith, i.supply, b.supply);
  junior_supply = omega (arith, i.junior_supply, b.junior_supply);
  untranched = ground (arith, i.tranches, i.junior_supply, b.untranched);
}

ready-IsBooked :
    (p : StakePool) (admin mode : ℕ)
    → IsReady p admin mode
    → IsBooked (record { pool = p; records = [] })
unfolding shares_held junior_shares_held AllClosed
ready-IsBooked p admin mode ready =
    let no_junior : p.junior_total_lp ≡ 0 = omega (arith, ready.unshared, ready.sound.shares) in
    record {
      closed = tt;
      supply = sym ready.unshared;
      junior_supply = sym no_junior;
      untranched = inr no_junior;
    }

-- One record and the pool change together.
record-IsBooked :
    (p q : StakePool) (before after : List StakeDeposit) (d e : StakeDeposit)
    → IsClosed e
    → e.lp_amount + p.total_lp_supply ≡ d.lp_amount + q.total_lp_supply
    → junior_part e + p.junior_total_lp ≡ junior_part d + q.junior_total_lp
    → (q.tranche_enabled_byte ≡ 1) ⊎ (q.junior_total_lp ≡ 0)
    → IsBooked (record { pool = p; records = before ++ (d ∷ after) })
    → IsBooked (record { pool = q; records = before ++ (e ∷ after) })
record-IsBooked p q before after d e closed all junior off b =
    let (held, junior_held) = shares_held-insert before after d in
    let (held', junior_held') = shares_held-insert before after e in
    record {
      closed = AllClosed-replace before after e closed (AllClosed-insert before after d b.closed).1;
      supply = omega (arith, held, held', all, b.supply);
      junior_supply = omega (arith, junior_held, junior_held', junior, b.junior_supply);
      untranched = off;
    }

booked-Issues :
    (p q : StakePool) (amount : ℕ)
    → (book_flush p amount ≡ ok q) ⊎ (book_return p amount ≡ ok q) ⊎ (book_recovery p amount ≡ ok q)
    → Issues p q 0 0
unfolding book_flush book_return book_recovery
booked-Issues p q amount e = record {
  supply = ground arith;
  junior_supply = ground arith;
  tranches = ground arith;
}

-- The junior side of a withdrawal of `l` junior shares, with tranches on or off.
side-cases :
    (t t' junior junior' l part part' : ℕ)
    → part' + l ≡ part
    → part ≤ junior
    → (t ≡ 1) × (junior' + l ≡ junior) ⊎ ¬ (t ≡ 1) × (junior' ≡ junior)
    → t' ≡ t
    → (t ≡ 1) ⊎ (junior ≡ 0)
    → (part' + junior ≡ part + junior') × ((t' ≡ 1) ⊎ (junior' ≡ 0))
side-cases t t' junior junior' l part part' h fits side same off = ground arith

module _ (R : Runtime) (program_id : Pubkey) where
  open R use {Ledger}

  accrued-tranches :
      (a : AccrueAccounts R) (clock : Clock) (ledger : Ledger) (p q : StakePool)
      → a.pool_ai.content ≡ AccountData.pool_bytes p
      → process_accrue_fees R program_id a clock ledger ≡ ok q
      → (q.tranche_enabled_byte ≡ p.tranche_enabled_byte)
        × (q.junior_total_lp ≡ p.junior_total_lp)
        × (q.total_lp_supply ≡ p.total_lp_supply)
  unfolding process_accrue_fees pool_from_data
  accrued-tranches a clock ledger p q held e = grind (arith, accrue_fees_inner-tranches p)

  pool_step-Issues : (p q : StakePool) → PoolStep R program_id p q → Issues p q 0 0
  unfolding process_flush_to_insurance process_return_insurance process_recover_flushed_insurance
      pool_from_data IsFrame
  pool_step-Issues p _ (PoolStep.flush a amount ledger out held e) =
      let booked : book_flush p amount ≡ ok out.pool = ground arith in
      booked-Issues p out.pool amount (inl booked)
  pool_step-Issues p _ (PoolStep.return_ a amount ledger out held e) =
      let booked : book_return p amount ≡ ok out.pool = ground arith in
      booked-Issues p out.pool amount (inr (inl booked))
  pool_step-Issues p _ (PoolStep.recover a amount ledger out held e) =
      let booked : book_recovery p amount ≡ ok out.pool = ground arith in
      booked-Issues p out.pool amount (inr (inr booked))
  pool_step-Issues p _ (PoolStep.accrue a clock ledger q held e) =
      let same = accrued-tranches a clock ledger p q held e in
      record { supply = ground arith; junior_supply = ground arith; tranches = inr same.0 }
  pool_step-Issues p _ (PoolStep.burn a ledger out held e) =
      let (_, _, _, burnt) = burn_gate R program_id a ledger p out held e in
      record { supply = ground arith; junior_supply = ground arith; tranches = ground arith }
  pool_step-Issues p _
        (PoolStep.settings admin pda clock cooldown cap enabled slots bps mult key q held e) =
      let (same, on, _) =
        settings-IsFrame program_id admin pda clock p q cooldown cap enabled slots bps mult key held
          e in
      record { supply = ground arith; junior_supply = ground arith; tranches = on }

  deposit-IsBooked :
      (a : DepositAccounts) (clock : Clock) (amount : ℕ) (ledger : Ledger) (p : StakePool)
      → (before after : List StakeDeposit) (d : StakeDeposit) (out : Deposited R)
      → a.pool_pda.content ≡ AccountData.pool_bytes p
      → stored a.deposit_pda.content ≡ some d
      → process_deposit R program_id a clock amount ledger ≡ ok out
      → IsBooked (record { pool = p; records = before ++ (d ∷ after) })
      → IsBooked (record { pool = out.pool; records = before ++ (out.deposit ∷ after) })
  deposit-IsBooked a clock amount ledger p before after d out held at e b =
      let (accrued, credited, lp, c, h1, _, _, h2, h3, found, h4, _) =
        process_deposit-steps R program_id a clock amount ledger p out held e in
      let this : c ≡ d = ground arith in
      let (byte, junior_lp, supply) = pre_accrue_fee_modes-tranches R ledger p accrued a.vault h1 in
      let i = credit_senior-Issues accrued credited out.pool clock amount lp h2 h3 in
      let (lp_amount, part, closed) = record_senior-shares c out.deposit _ _ _ _ lp h4 in
      record-IsBooked p out.pool before after d out.deposit closed
        (omega (arith, lp_amount, supply, i.supply, ap (λ x. x.lp_amount) this))
        (omega (arith, part, junior_lp, i.junior_supply, ap (λ x. junior_part x) this))
        (ground (arith, i.tranches, i.junior_supply, byte, junior_lp, b.untranched)) b

  deposit_junior-IsBooked :
      (a : DepositAccounts) (clock : Clock) (amount : ℕ) (ledger : Ledger) (p : StakePool)
      → (before after : List StakeDeposit) (d : StakeDeposit) (out : Deposited R)
      → a.pool_pda.content ≡ AccountData.pool_bytes p
      → stored a.deposit_pda.content ≡ some d
      → process_deposit_junior R program_id a clock amount ledger ≡ ok out
      → IsBooked (record { pool = p; records = before ++ (d ∷ after) })
      → IsBooked (record { pool = out.pool; records = before ++ (out.deposit ∷ after) })
  deposit_junior-IsBooked a clock amount ledger p before after d out held at e b =
      let (accrued, credited, lp, c, on, h1, _, _, h2, h3, found, h4, _) =
        process_deposit_junior-steps R program_id a clock amount ledger p out held e in
      let this : d ≡ c = ground arith in
      let (byte, junior_lp, supply) = pre_accrue_fee_modes-tranches R ledger p accrued a.vault h1 in
      let i = credit_junior-Issues accrued credited out.pool clock amount lp h2 h3 in
      let before_closed : IsClosed c = rw (← this) (AllClosed-insert before after d b.closed).0 in
      let (lp_amount, part, closed) =
        record_junior-shares c out.deposit _ _ _ _ lp before_closed h4 in
      record-IsBooked p out.pool before after d out.deposit closed
        (omega (arith, lp_amount, supply, i.supply, ap (λ x. x.lp_amount) this))
        (omega (arith, part, junior_lp, i.junior_supply, ap (λ x. junior_part x) this))
        (inl (ground (arith, i.tranches, byte, on))) b

  withdraw-IsBooked :
      (a : WithdrawAccounts) (clock : Clock) (lp : ℕ) (ledger : Ledger) (p : StakePool)
      → (before after : List StakeDeposit) (d : StakeDeposit) (out : Withdrawn R)
      → a.pool_pda.content ≡ AccountData.pool_bytes p
      → a.deposit_pda.content ≡ AccountData.deposit_bytes d
      → process_withdraw R program_id a clock lp ledger ≡ ok out
      → IsBooked (record { pool = p; records = before ++ (d ∷ after) })
      → IsBooked (record { pool = out.pool; records = before ++ (out.deposit ∷ after) })
  withdraw-IsBooked a clock lp ledger p before after d out held at e b =
      let (accrued, marked, _, h1, _, h2, h3, h4, _, _) =
        process_withdraw-steps R program_id a clock lp ledger p d out held at e in
      let (byte, junior_lp, supply) = pre_accrue_fee_modes-tranches R ledger p accrued a.vault h1 in
      let floored = enforce_floor-eq accrued marked clock out.paid _ h2 in
      let (less, on, side) = debit-shares marked out.pool (is_junior_deposit d) out.paid lp h3 in
      let (first, _) = AllClosed-insert before after d b.closed in
      let (lp_amount, part, closed) = release-shares d out.deposit lp first h4 in
      let (_, junior_held) = shares_held-insert before after d in
      let fits : junior_part d ≤ p.junior_total_lp = omega (arith, junior_held, b.junior_supply) in
      let same_byte : marked.tranche_enabled_byte ≡ p.tranche_enabled_byte =
        ap (λ x. x.tranche_enabled_byte) floored ∙ byte in
      let same_lp : marked.junior_total_lp ≡ p.junior_total_lp =
        ap (λ x. x.junior_total_lp) floored ∙ junior_lp in
      let same_supply : marked.total_lp_supply ≡ p.total_lp_supply =
        ap (λ x. x.total_lp_supply) floored ∙ supply in
      let (junior, off) =
        side-cases p.tranche_enabled_byte out.pool.tranche_enabled_byte p.junior_total_lp
          out.pool.junior_total_lp (if is_junior_deposit d then lp else 0) (junior_part d)
          (junior_part out.deposit) part fits (rw (← same_byte, ← same_lp) side) (on ∙ same_byte)
          b.untranched in
      record-IsBooked p out.pool before after d out.deposit closed
        (omega (arith, lp_amount, same_supply, less)) junior off b

  -- A step of the system keeps the books.
  Step-IsBooked : (w v : World) → Step R program_id w v → IsBooked w → IsBooked v
  unfolding shares_held junior_shares_held AllClosed
  Step-IsBooked _ _ (Step.pool_alone p q ds s) b =
      pool_alone-IsBooked p q ds (pool_step-Issues p q s) b
  Step-IsBooked _ _ (Step.new_user p ds) b = record {
    closed = (inr refl, b.closed);
    supply = omega (arith, b.supply);
    junior_supply = omega (arith, b.junior_supply);
    untranched = b.untranched;
  }
  Step-IsBooked _ _ (Step.deposit a clock amount ledger p before after d out held at e) b =
      deposit-IsBooked a clock amount ledger p before after d out held at e b
  Step-IsBooked _ _ (Step.deposit_junior a clock amount ledger p before after d out held at e) b =
      deposit_junior-IsBooked a clock amount ledger p before after d out held at e b
  Step-IsBooked _ _ (Step.withdraw a clock lp ledger p before after d out held at e) b =
      withdraw-IsBooked a clock lp ledger p before after d out held at e b

  -- In every state that the program reaches from an initialisation by its handlers, in any order,
  -- the deposit records hold together exactly the LP supply and the junior ones exactly the junior
  -- supply, a record that is not initialised holds nothing, and a pool without tranches has no
  -- junior shares.
  pub reach-IsBooked : (devnet : Bool) (w : World) → Reach R program_id devnet w → IsBooked w
  reach-IsBooked devnet _ (Reach.init_pool a cooldown cap ledger out e) =
      let (_, _, _, ready) =
        init_pool-IsReady R devnet program_id a cooldown cap 0 ledger out (inl (refl, e)) in
      ready-IsBooked out.pool a.admin.key 0 ready
  reach-IsBooked devnet _ (Reach.init_trading_pool a cooldown cap ledger out e) =
      let (_, _, _, ready) =
        init_pool-IsReady R devnet program_id a cooldown cap 1 ledger out (inr (refl, e)) in
      ready-IsBooked out.pool a.admin.key 1 ready
  reach-IsBooked devnet _ (Reach.next w v r s) = Step-IsBooked w v s (reach-IsBooked devnet w r)
