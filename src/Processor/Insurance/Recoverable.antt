-- ===== src/Processor/Insurance/Recoverable.antt =====
-- What can be recovered from the wrapper, and what the books say is outstanding: src/processor.rs,
-- the pool updates of flush, return and recovery.
use percolator_stake.Prelude.{ℕ, ◌+◌, ◌≤◌, ◌<◌, ◌≡◌, arith}
use percolator_stake.Error.{ok}
use percolator_stake.State.{StakePool}
use percolator_stake.State.Pool.{wrapper_recoverable}
use percolator_stake.Processor.Insurance.{
  book_return, book_recovery, check_outstanding, check_recoverable,
}

-- The return of an amount by the admin does not stop a recovery of the same amount from the
-- wrapper: both pass their checks, and the amount is booked as returned twice.
pub return_then_recover :
    (p q r : StakePool) (amount : ℕ)
    → 0 < amount
    → amount ≤ wrapper_recoverable p
    → check_outstanding p amount ≡ ok tt
    → book_return p amount ≡ ok q
    → book_recovery q amount ≡ ok r
    → (check_recoverable q amount ≡ ok tt)
      × (r.total_returned ≡ p.total_returned + (amount + amount))
      × (r.total_flushed ≡ p.total_flushed)
unfolding wrapper_recoverable book_return book_recovery check_outstanding check_recoverable
return_then_recover p q r amount positive within h hq hr = ground arith
