-- ===== src/Processor/Entry/Holder.antt =====
-- Which of the accounts that src/processor.rs takes signs and which holds the pool.
use percolator_stake.Prelude.{◌≡◌, List, ◌∷◌, arith}
use percolator_stake.Error.{ok}
use percolator_stake.Runtime.{Runtime, AccountInfo}
use percolator_stake.Processor.Accrual.{AccrueAccounts}
use percolator_stake.Processor.Authority.{BindAccounts, RotateAccounts}
use percolator_stake.Processor.Deposit.{DepositAccounts}
use percolator_stake.Processor.Insurance.{FlushAccounts, ReturnAccounts, RecoverAccounts}
use percolator_stake.Processor.Proxies.{ProxyAccounts}
use percolator_stake.Processor.Resolution.{ResolveAccounts}
use percolator_stake.Processor.Withdraw.{WithdrawAccounts}
use percolator_stake.Processor.Entry.Accounts.{take_two, take_clocked, take_deposit, take_withdraw}
use percolator_stake.Processor.Entry.WrapperAccounts.{
  take_flush, take_return, take_recover, take_accrue, take_bind, take_rotate, take_resolve,
  take_group_a, take_group_b,
}

-- The first account is the signer's; the second account of each instruction on a pool is the pool's.
module _ (first holder : AccountInfo) (rest : List AccountInfo) where
  pub take_two-pool :
      (a : AccountInfo × AccountInfo) → take_two (first ∷ holder ∷ rest) ≡ ok a → a.1 ≡ holder
  unfolding take_two
  take_two-pool a e = ground arith

  pub take_clocked-pool :
      (a : (AccountInfo × AccountInfo) × AccountInfo)
      → take_clocked (first ∷ holder ∷ rest) ≡ ok a
      → a.0.1 ≡ holder
  unfolding take_clocked
  take_clocked-pool a e = ground arith

  pub take_deposit-first :
      (a : DepositAccounts × AccountInfo)
      → take_deposit (first ∷ holder ∷ rest) ≡ ok a
      → a.0.user ≡ first
  unfolding take_deposit
  take_deposit-first a e = ground arith

  pub take_deposit-pool :
      (a : DepositAccounts × AccountInfo)
      → take_deposit (first ∷ holder ∷ rest) ≡ ok a
      → a.0.pool_pda ≡ holder
  unfolding take_deposit
  take_deposit-pool a e = ground arith

  pub take_withdraw-first :
      (a : WithdrawAccounts × AccountInfo)
      → take_withdraw (first ∷ holder ∷ rest) ≡ ok a
      → a.0.user ≡ first
  unfolding take_withdraw
  take_withdraw-first a e = ground arith

  pub take_withdraw-pool :
      (a : WithdrawAccounts × AccountInfo)
      → take_withdraw (first ∷ holder ∷ rest) ≡ ok a
      → a.0.pool_pda ≡ holder
  unfolding take_withdraw
  take_withdraw-pool a e = ground arith

  pub take_flush-pool :
      (a : FlushAccounts) → take_flush (first ∷ holder ∷ rest) ≡ ok a → a.pool_pda ≡ holder
  unfolding take_flush
  take_flush-pool a e = ground arith

  pub take_return-first :
      (a : ReturnAccounts) → take_return (first ∷ holder ∷ rest) ≡ ok a → a.admin ≡ first
  unfolding take_return
  take_return-first a e = ground arith

  pub take_return-pool :
      (a : ReturnAccounts) → take_return (first ∷ holder ∷ rest) ≡ ok a → a.pool_pda ≡ holder
  unfolding take_return
  take_return-pool a e = ground arith

  pub take_recover-pool :
      (a : RecoverAccounts) → take_recover (first ∷ holder ∷ rest) ≡ ok a → a.pool_pda ≡ holder
  unfolding take_recover
  take_recover-pool a e = ground arith

  pub take_bind-pool :
      (a : BindAccounts) → take_bind (first ∷ holder ∷ rest) ≡ ok a → a.pool_pda ≡ holder
  unfolding take_bind
  take_bind-pool a e = ground arith

  pub take_rotate-pool :
      (a : RotateAccounts) → take_rotate (first ∷ holder ∷ rest) ≡ ok a → a.bound.pool_pda ≡ holder
  unfolding take_rotate
  take_rotate-pool a e = ground arith

  pub take_resolve-pool :
      (a : ResolveAccounts) → take_resolve (first ∷ holder ∷ rest) ≡ ok a → a.pool_pda ≡ holder
  unfolding take_resolve
  take_resolve-pool a e = ground arith

  pub take_group_a-pool :
      (a : ProxyAccounts) → take_group_a (first ∷ holder ∷ rest) ≡ ok a → a.pool_pda ≡ holder
  unfolding take_group_a
  take_group_a-pool a e = ground arith

  pub take_group_b-pool :
      (a : ProxyAccounts) → take_group_b (first ∷ holder ∷ rest) ≡ ok a → a.pool_pda ≡ holder
  unfolding take_group_b
  take_group_b-pool a e = ground arith

  pub take_accrue-pool :
      (R : Runtime) (a : AccrueAccounts R × AccountInfo)
      → take_accrue R (first ∷ holder ∷ rest) ≡ ok a
      → a.0.pool_ai ≡ holder
  unfolding take_accrue
  take_accrue-pool R a e = ground arith
