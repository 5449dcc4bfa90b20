-- ===== src/Solvency/Insurance.antt =====
-- Flushes, returns and recoveries keep the invariant.
use percolator_stake.Prelude.{ℕ, ◌+◌, ◌≤◌, ◌≡◌, arith}
use percolator_stake.Error.{ok}
use percolator_stake.State.{StakePool}
use percolator_stake.State.Pool.{total_pool_value, wrapper_recoverable}
use percolator_stake.Processor.Insurance.{
  book_flush, book_return, book_recovery, check_available, check_outstanding, check_recoverable,
}
use percolator_stake.Solvency.{IsSound}

pub flush-IsSound :
    (p q : StakePool) (amount : ℕ)
    → IsSound p
    → check_available p amount ≡ ok tt
    → book_flush p amount ≡ ok q
    → IsSound q
unfolding check_available book_flush total_pool_value
flush-IsSound p q amount s h e = ground arith

pub return-IsSound :
    (p q : StakePool) (amount : ℕ)
    → IsSound p
    → check_outstanding p amount ≡ ok tt
    → book_return p amount ≡ ok q
    → IsSound q
unfolding check_outstanding book_return
return-IsSound p q amount s h e = ground arith

pub recovery-IsSound :
    (p q : StakePool) (amount : ℕ)
    → IsSound p
    → p.total_returned + amount ≤ p.total_flushed
    → check_recoverable p amount ≡ ok tt
    → book_recovery p amount ≡ ok q
    → IsSound q
unfolding check_recoverable book_recovery wrapper_recoverable
recovery-IsSound p q amount s within h e = ground arith
