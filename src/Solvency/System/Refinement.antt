-- ===== src/Solvency/System/Refinement.antt =====
-- The steps of the system as changes of the abstract vault.
use percolator_stake.Prelude.{
  ℕ, ◌+◌, ◌≤◌, ◌≡◌, ◌⊎◌, inl, inr, Bool, false, ap, ◌∙◌, arith, some, List,
}
use percolator_stake.Error.{ok}
use percolator_stake.Runtime.{Runtime, AccountData, Clock}
use percolator_stake.State.{StakePool, StakeDeposit, Pubkey}
use percolator_stake.State.Deposit.{is_junior_deposit}
use percolator_stake.State.Pool.{effective_junior_balance, refresh_hwm}
use percolator_stake.Processor.Guards.{pool_from_data}
use percolator_stake.Processor.Authority.Seal.{burn_gate}
use percolator_stake.Processor.Deposit.{
  Deposited, DepositAccounts, process_deposit, process_deposit_junior, credit_senior, credit_junior,
  raise_mark, record_senior, record_junior, claim, stamp,
}
use percolator_stake.Processor.Deposit.Steps.{
  stored, process_deposit-steps, process_deposit_junior-steps,
}
use percolator_stake.Processor.Insurance.{
  process_flush_to_insurance, process_return_insurance, process_recover_flushed_insurance,
  check_available, check_outstanding, book_flush, book_return, book_recovery,
}
use percolator_stake.Processor.Withdraw.{
  Withdrawn, WithdrawAccounts, process_withdraw, check_record, release, debit, debit_junior,
  settle_last_junior,
}
use percolator_stake.Processor.Withdraw.Steps.{process_withdraw-steps}
use percolator_stake.Solvency.{IsSound}
use percolator_stake.Solvency.Handlers.{pre_accrue_fee_modes-IsSound, pre_accrue_fee_modes-tranches}
use percolator_stake.Solvency.Settings.{IsFrame, settings-IsFrame}
use percolator_stake.Solvency.Withdraw.{
  enforce_floor-IsSound, enforce_floor-priced, enforce_floor-eq, tranche_shares,
}
use percolator_stake.Solvency.Vault.{
  vault, credit_senior-Move, credit_junior-Move, book_flush-Move, book_return-Move, marked-vault,
  debit-Move,
}
use percolator_stake.Solvency.System.{World, PoolStep, Step, Reach}
use percolator_stake.Solvency.System.Books.{IsBooked, reach-IsBooked}
use percolator_stake.Solvency.System.Sound.{
  IsWithin, reach-IsSound, recover-booked, record_shares-le,
}
use percolator_stake.Solvency.System.Performs.{
  PoolPerforms, Performs, pre_accrue_fee_modes-Move, accrue_fees-Move,
}

-- Neither a credit nor a debit books a fee.
credit-fees :
    (p q r : StakePool) (clock : Clock) (amount lp : ℕ)
    → (credit_senior p amount lp ≡ ok q) ⊎ (credit_junior p amount lp ≡ ok q)
    → raise_mark q clock ≡ ok r
    → r.total_fees_earned ≡ p.total_fees_earned
unfolding credit_senior credit_junior raise_mark refresh_hwm
credit-fees p q r clock amount lp e f = ground arith

debit-fees :
    (p q r : StakePool) (is_junior : Bool) (w lp : ℕ)
    → q ≡ record p {
      epoch_high_water_tvl = q.epoch_high_water_tvl;
      hwm_last_epoch = q.hwm_last_epoch;
    }
    → debit q is_junior w lp ≡ ok r
    → r.total_fees_earned ≡ p.total_fees_earned
unfolding debit debit_junior settle_last_junior
debit-fees p q r is_junior w lp same e = ground arith

-- A deposit adds its shares to the record that it found.
recorded-lp :
    (d d' e : StakeDeposit) (bump : ℕ) (pool user : Pubkey) (slot lp : ℕ) (content : AccountData)
    → stored content ≡ some d
    → stored content ≡ some d'
    → (record_senior d' bump pool user slot lp ≡ ok e)
      ⊎ (record_junior d' bump pool user slot lp ≡ ok e)
    → e.lp_amount ≡ d.lp_amount + lp
unfolding record_senior record_junior claim stamp
recorded-lp d d' e bump pool user slot lp content at found h = ground arith

module _ (R : Runtime) (program_id : Pubkey) where
  open R use {Ledger}

  pool_step-PoolPerforms :
      (p q : StakePool) (e : PoolStep R program_id p q)
      → q.total_returned ≤ q.total_flushed
      → IsSound p
      → PoolPerforms R program_id p q e
  unfolding process_flush_to_insurance process_return_insurance process_recover_flushed_insurance
      pool_from_data check_outstanding IsFrame vault effective_junior_balance
  pool_step-PoolPerforms p _ (PoolStep.flush a amount ledger out held e) within s =
      let steps : (check_available p amount ≡ ok tt) × (book_flush p amount ≡ ok out.pool) =
        ground arith in
      book_flush-Move p out.pool amount s steps.0 steps.1
  pool_step-PoolPerforms p _ (PoolStep.return_ a amount ledger out held e) within s =
      let booked : book_return p amount ≡ ok out.pool = ground arith in
      let due : p.total_returned + amount ≤ p.total_flushed = ground (arith, s.within) in
      book_return-Move p out.pool amount s due (inl booked)
  pool_step-PoolPerforms p _ (PoolStep.recover a amount ledger out held e) within s =
      let booked : book_recovery p amount ≡ ok out.pool = ground arith in
      let (returned, flushed) = recover-booked R program_id p a amount ledger out held e in
      book_return-Move p out.pool amount s (omega arith) (inr booked)
  pool_step-PoolPerforms p _ (PoolStep.accrue a clock ledger q held e) within s =
      accrue_fees-Move R program_id a clock ledger p q s held e
  pool_step-PoolPerforms p _ (PoolStep.burn a ledger out held e) within s =
      let (_, _, _, burnt) = burn_gate R program_id a ledger p out held e in ap vault burnt
  pool_step-PoolPerforms p _
        (PoolStep.settings admin pda clock cooldown cap enabled slots bps mult key q held e) within
        s =
      let (same, _, _) =
        settings-IsFrame program_id admin pda clock p q cooldown cap enabled slots bps mult key held
          e in
      ap vault same

  deposit-Performs :
      (a : DepositAccounts) (clock : Clock) (amount : ℕ) (ledger : Ledger) (p : StakePool)
      → (before after : List StakeDeposit) (d : StakeDeposit) (out : Deposited R)
      → (held : a.pool_pda.content ≡ AccountData.pool_bytes p)
      → (at : stored a.deposit_pda.content ≡ some d)
      → (e : process_deposit R program_id a clock amount ledger ≡ ok out) → IsSound p
      → Performs R program_id _ _
          (Step.deposit a clock amount ledger p before after d out held at e)
  deposit-Performs a clock amount ledger p before after d out held at e s =
      let (accrued, credited, lp, d', h1, _, priced, h2, h3, found, recorded, _) =
        process_deposit-steps R program_id a clock amount ledger p out held e in
      let s1 = pre_accrue_fee_modes-IsSound R ledger p accrued a.vault s h1 in
      let first = pre_accrue_fee_modes-Move R program_id ledger p accrued a.vault s h1 in
      let second = credit_senior-Move accrued credited amount lp s1 priced h2 in
      let fees = credit-fees accrued credited out.pool clock amount lp (inl h2) h3 in
      (
        vault accrued,
        lp,
        rw fees first,
        rw (marked-vault credited out.pool clock 0 false (inl h3)) second,
        recorded-lp d d' out.deposit _ _ _ _ lp (a.deposit_pda.content) at found (inl recorded),
      )

  deposit_junior-Performs :
      (a : DepositAccounts) (clock : Clock) (amount : ℕ) (ledger : Ledger) (p : StakePool)
      → (before after : List StakeDeposit) (d : StakeDeposit) (out : Deposited R)
      → (held : a.pool_pda.content ≡ AccountData.pool_bytes p)
      → (at : stored a.deposit_pda.content ≡ some d)
      → (e : process_deposit_junior R program_id a clock amount ledger ≡ ok out) → IsSound p
      → Performs R program_id _ _
          (Step.deposit_junior a clock amount ledger p before after d out held at e)
  deposit_junior-Performs a clock amount ledger p before after d out held at e s =
      let (accrued, credited, lp, d', _, h1, gate, priced, h2, h3, found, recorded, _) =
        process_deposit_junior-steps R program_id a clock amount ledger p out held e in
      let s1 = pre_accrue_fee_modes-IsSound R ledger p accrued a.vault s h1 in
      let first = pre_accrue_fee_modes-Move R program_id ledger p accrued a.vault s h1 in
      let second = credit_junior-Move accrued credited amount lp s1 gate priced h2 in
      let fees = credit-fees accrued credited out.pool clock amount lp (inr h2) h3 in
      (
        vault accrued,
        lp,
        rw fees first,
        rw (marked-vault credited out.pool clock 0 false (inl h3)) second,
        recorded-lp d d' out.deposit _ _ _ _ lp (a.deposit_pda.content) at found (inr recorded),
      )

  withdraw-Performs :
      (a : WithdrawAccounts) (clock : Clock) (lp : ℕ) (ledger : Ledger) (p : StakePool)
      → (before after : List StakeDeposit) (d : StakeDeposit) (out : Withdrawn R)
      → (held : a.pool_pda.content ≡ AccountData.pool_bytes p)
      → (at : a.deposit_pda.content ≡ AccountData.deposit_bytes d)
      → (e : process_withdraw R program_id a clock lp ledger ≡ ok out)
      → d.lp_amount ≤ tranche_shares p (is_junior_deposit d)
      → IsSound p
      → Performs R program_id _ _ (Step.withdraw a clock lp ledger p before after d out held at e)
  unfolding check_record release
  withdraw-Performs a clock lp ledger p before after d out held at e bound s =
      let (accrued, marked, checked, h1, h2, h3, h4, freed, _, _) =
        process_withdraw-steps R program_id a clock lp ledger p d out held at e in
      let own : lp ≤ d.lp_amount = ground arith in
      let s1 = pre_accrue_fee_modes-IsSound R ledger p accrued a.vault s h1 in
      let (byte, junior_lp, supply) = pre_accrue_fee_modes-tranches R ledger p accrued a.vault h1 in
      let first = pre_accrue_fee_modes-Move R program_id ledger p accrued a.vault s h1 in
      let s2 = enforce_floor-IsSound accrued marked clock out.paid _ s1 h3 in
      let (price, shares) =
        enforce_floor-priced accrued marked clock out.paid _ h3 (is_junior_deposit d) lp in
      let fits : lp ≤ tranche_shares marked (is_junior_deposit d) =
        rw (shares, byte, junior_lp, supply) (omega (arith, own, bound)) in
      let second =
        debit-Move marked out.pool (is_junior_deposit d) out.paid lp s2 fits (price ∙ h2) h4 in
      let floored = enforce_floor-eq accrued marked clock out.paid _ h3 in
      let fees = debit-fees accrued marked out.pool (is_junior_deposit d) out.paid lp floored h4 in
      let flag : marked.tranche_enabled_byte ≡ p.tranche_enabled_byte = ground arith in
      (
        vault accrued,
        rw fees first,
        rw (← flag, ← marked-vault accrued marked clock out.paid _ (inr h3)) second,
        ground arith,
      )

  Step-Performs :
      (w v : World) (e : Step R program_id w v)
      → v.pool.total_returned ≤ v.pool.total_flushed
      → IsBooked w
      → IsSound w.pool
      → Performs R program_id w v e
  Step-Performs _ _ (Step.pool_alone p q ds e) within b s = pool_step-PoolPerforms p q e within s
  Step-Performs _ _ (Step.new_user p ds) within b s = tt
  Step-Performs _ _ (Step.deposit a clock amount ledger p before after d out held at e) within b s =
      deposit-Performs a clock amount ledger p before after d out held at e s
  Step-Performs _ _ (Step.deposit_junior a clock amount ledger p before after d out held at e)
        within b s =
      deposit_junior-Performs a clock amount ledger p before after d out held at e s
  Step-Performs _ _ (Step.withdraw a clock lp ledger p before after d out held at e) within b s =
      withdraw-Performs a clock lp ledger p before after d out held at e
        (record_shares-le p before after d b) s

  -- From every state that the program reaches from an initialisation, if neither a state on the way
  -- nor the next one has more booked as returned than was flushed, each step makes the change of
  -- the abstract vault that its instruction asks for. A flush is a loss of its amount, which junior
  -- bears first; a return and a recovery are gains of theirs; an accrual is a gain of the fee that
  -- it books; the burn of the asset admin and the settings leave the vault as it is. A deposit
  -- accrues and then adds its amount to its tranche, with the shares that the amount is worth at
  -- the price of the tranche, rounded down, which the record gets too. A withdrawal accrues and
  -- then takes the burnt shares from the record and from its tranche, and from the value of the
  -- tranche what they are worth at its price, rounded down; what the last junior leaves goes to
  -- senior.
  pub reach-Performs :
      (devnet : Bool) (w v : World) (r : Reach R program_id devnet w) (e : Step R program_id w v)
      → IsWithin R program_id devnet w r
      → v.pool.total_returned ≤ v.pool.total_flushed
      → Performs R program_id w v e
  reach-Performs devnet w v r e earlier within =
      Step-Performs w v e within (reach-IsBooked R program_id devnet w r)
        (reach-IsSound R program_id devnet w r earlier)
