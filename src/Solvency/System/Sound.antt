-- ===== src/Solvency/System/Sound.antt =====
-- The counters are sound in every state that the program reaches, as long as recoveries from the
-- wrapper have not booked more as returned than was flushed.
use percolator_stake.Prelude.{ℕ, ◌+◌, ◌≤◌, ◌≡◌, inl, inr, Bool, refl, List, [], ◌∷◌, ◌++◌, arith}
use percolator_stake.Error.{ok}
use percolator_stake.Runtime.{Runtime, AccountData, Clock}
use percolator_stake.State.{StakePool, StakeDeposit, Pubkey}
use percolator_stake.State.Deposit.{is_junior_deposit}
use percolator_stake.Processor.Guards.{pool_from_data}
use percolator_stake.Processor.Authority.Seal.{burn_gate}
use percolator_stake.Processor.Insurance.{
  Moved, RecoverAccounts, process_recover_flushed_insurance, book_recovery,
}
use percolator_stake.Processor.Withdraw.{
  Withdrawn, WithdrawAccounts, process_withdraw, check_record,
}
use percolator_stake.Processor.Withdraw.Steps.{process_withdraw-steps}
use percolator_stake.Solvency.{IsSound}
use percolator_stake.Solvency.Handlers.{
  process_deposit-IsSound, process_deposit_junior-IsSound, process_withdraw-IsSound,
  process_flush-IsSound, process_return_insurance-IsSound, process_recover-IsSound,
  process_accrue_fees-IsSound,
}
use percolator_stake.Solvency.Init.{init_pool-IsReady}
use percolator_stake.Solvency.Settings.{settings-IsSound}
use percolator_stake.Solvency.Shares.{shares_held, junior_shares_held, shares_held-insert}
use percolator_stake.Solvency.Withdraw.{tranche_shares}
use percolator_stake.Solvency.System.{World, PoolStep, Step, Reach}
use percolator_stake.Solvency.System.Books.{IsBooked, reach-IsBooked}

junior_shares_held-le : (ds : List StakeDeposit) → junior_shares_held ds ≤ shares_held ds
unfolding shares_held junior_shares_held
junior_shares_held-le [] = omega arith
junior_shares_held-le (d ∷ ds) = let rest = junior_shares_held-le ds in ground arith

-- The shares of one record are at most those of the tranche that it withdraws from.
pub record_shares-le :
    (p : StakePool) (before after : List StakeDeposit) (d : StakeDeposit)
    → IsBooked (record { pool = p; records = before ++ (d ∷ after) })
    → d.lp_amount ≤ tranche_shares p (is_junior_deposit d)
record_shares-le p before after d b =
    let (held, junior_held) = shares_held-insert before after d in
    let rest = junior_shares_held-le (before ++ after) in
    ground (arith, b.supply, b.junior_supply, b.untranched)

module _ (R : Runtime) (program_id : Pubkey) where
  open R use {Ledger}

  pub recover-booked :
      (p : StakePool) (a : RecoverAccounts) (amount : ℕ) (ledger : Ledger) (out : Moved R)
      → a.pool_pda.content ≡ AccountData.pool_bytes p
      → process_recover_flushed_insurance R program_id a amount ledger ≡ ok out
      → (out.pool.total_returned ≡ p.total_returned + amount)
        × (out.pool.total_flushed ≡ p.total_flushed)
  unfolding process_recover_flushed_insurance pool_from_data book_recovery
  recover-booked p a amount ledger out held e =
      let booked : book_recovery p amount ≡ ok out.pool = ground arith in ground arith

  pool_step-IsSound :
      (p q : StakePool)
      → PoolStep R program_id p q
      → q.total_returned ≤ q.total_flushed
      → IsSound p
      → IsSound q
  pool_step-IsSound p _ (PoolStep.flush a amount ledger out held e) within s =
      process_flush-IsSound R program_id a amount ledger p out s held e
  pool_step-IsSound p _ (PoolStep.return_ a amount ledger out held e) within s =
      process_return_insurance-IsSound R program_id a amount ledger p out s held e
  pool_step-IsSound p _ (PoolStep.recover a amount ledger out held e) within s =
      let (returned, flushed) = recover-booked p a amount ledger out held e in
      process_recover-IsSound R program_id a amount ledger p out s (omega arith) held e
  pool_step-IsSound p _ (PoolStep.accrue a clock ledger q held e) within s =
      process_accrue_fees-IsSound R program_id a clock ledger p q s held e
  pool_step-IsSound p _ (PoolStep.burn a ledger out held e) within s =
      let (_, _, _, burnt) = burn_gate R program_id a ledger p out held e in ground arith
  pool_step-IsSound p _
        (PoolStep.settings admin pda clock cooldown cap enabled slots bps mult key q held e) within
        s =
      settings-IsSound program_id admin pda clock p q cooldown cap enabled slots bps mult key s held
        e

  withdraw-IsSound :
      (a : WithdrawAccounts) (clock : Clock) (lp : ℕ) (ledger : Ledger) (p : StakePool)
      → (before after : List StakeDeposit) (d : StakeDeposit) (out : Withdrawn R)
      → a.pool_pda.content ≡ AccountData.pool_bytes p
      → a.deposit_pda.content ≡ AccountData.deposit_bytes d
      → process_withdraw R program_id a clock lp ledger ≡ ok out
      → IsBooked (record { pool = p; records = before ++ (d ∷ after) })
      → IsSound p
      → IsSound out.pool
  unfolding check_record
  withdraw-IsSound a clock lp ledger p before after d out held at e b s =
      let (_, _, checked, _, _, _, _, _, _, _) =
        process_withdraw-steps R program_id a clock lp ledger p d out held at e in
      let own : lp ≤ d.lp_amount = ground arith in
      let bound = record_shares-le p before after d b in
      process_withdraw-IsSound R program_id a clock lp ledger p d out s (omega (arith, own, bound))
        held at e

  Step-IsSound :
      (w v : World)
      → Step R program_id w v
      → v.pool.total_returned ≤ v.pool.total_flushed
      → IsBooked w
      → IsSound w.pool
      → IsSound v.pool
  Step-IsSound _ _ (Step.pool_alone p q ds e) within b s = pool_step-IsSound p q e within s
  Step-IsSound _ _ (Step.new_user p ds) within b s = s
  Step-IsSound _ _ (Step.deposit a clock amount ledger p before after d out held at e) within b s =
      process_deposit-IsSound R program_id a clock amount ledger p out s held e
  Step-IsSound _ _ (Step.deposit_junior a clock amount ledger p before after d out held at e) within
        b s =
      process_deposit_junior-IsSound R program_id a clock amount ledger p out s held e
  Step-IsSound _ _ (Step.withdraw a clock lp ledger p before after d out held at e) within b s =
      withdraw-IsSound a clock lp ledger p before after d out held at e b s

  -- No state on the way has more returned than flushed.
  abbrev pub IsWithin : (devnet : Bool) (w : World) → Reach R program_id devnet w → Type 0
  IsWithin devnet _ (Reach.init_pool a cooldown cap ledger out e) = Unit
  IsWithin devnet _ (Reach.init_trading_pool a cooldown cap ledger out e) = Unit
  IsWithin devnet _ (Reach.next w v r s) =
      IsWithin devnet w r × (v.pool.total_returned ≤ v.pool.total_flushed)

  -- In every state that the program reaches from an initialisation by its handlers, in any order
  -- and without assumptions on what is withdrawn, the counters are sound, if no state on the way
  -- had more booked as returned than was flushed.
  pub reach-IsSound :
      (devnet : Bool) (w : World) (r : Reach R program_id devnet w)
      → IsWithin devnet w r
      → IsSound w.pool
  reach-IsSound devnet _ (Reach.init_pool a cooldown cap ledger out e) within =
      let (_, _, _, ready) =
        init_pool-IsReady R devnet program_id a cooldown cap 0 ledger out (inl (refl, e)) in
      ready.sound
  reach-IsSound devnet _ (Reach.init_trading_pool a cooldown cap ledger out e) within =
      let (_, _, _, ready) =
        init_pool-IsReady R devnet program_id a cooldown cap 1 ledger out (inr (refl, e)) in
      ready.sound
  reach-IsSound devnet _ (Reach.next w v r s) (earlier, within) =
      Step-IsSound w v s within (reach-IsBooked R program_id devnet w r)
        (reach-IsSound devnet w r earlier)
