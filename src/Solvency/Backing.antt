-- ===== src/Solvency/Backing.antt =====
-- The vault of src/processor.rs holds the tokens that the pool's counters promise.
pub mod Laws
pub mod Calls
pub mod Deposit
pub mod Withdraw
pub mod Insurance
pub mod Alone
pub mod Traffic
pub mod Funded
use percolator_stake.Prelude.{ℕ, ◌+◌, ◌≤◌, ◌≡◌, ◌≢◌, ◌⊎◌, some, Bool, arith, u64_max, sym, ap, ◌∙◌}
use percolator_stake.Error.{ok}
use percolator_stake.Runtime.{Runtime, AccountInfo, Clock}
use percolator_stake.State.{StakePool, Pubkey}
use percolator_stake.State.Pool.{value_in, value_out, refresh_hwm}
use percolator_stake.State.Tranches.{total_pool_value_lem}
use percolator_stake.SplToken.State.{TokenAccount, token_account}
use percolator_stake.Processor.Accrual.{accrue_fees_inner, pre_accrue_fee_modes, vault_balance}
use percolator_stake.Processor.Deposit.{credit_senior, credit_junior, raise_mark}
use percolator_stake.Processor.Insurance.{book_flush, book_return, book_recovery}
use percolator_stake.Processor.Withdraw.{debit, debit_junior, settle_last_junior, enforce_floor}
use percolator_stake.Solvency.Accrual.{accrue_fees_inner-books}
use percolator_stake.Solvency.Withdraw.{enforce_floor-eq}
use percolator_stake.Solvency.Later.{IsLater}

-- A balance of `n` covers the pool's value.
abbrev pub IsCovered : StakePool → (n : ℕ) → Type 0
IsCovered p n = value_in p ≤ value_out p + n

pub accrued-IsCovered :
    (p q : StakePool) (n : ℕ) → accrue_fees_inner p n ≡ ok q → IsCovered p n → IsCovered q n
accrued-IsCovered p q n e c = ground (arith, accrue_fees_inner-books p q n e)

pub credit-IsCovered :
    (p q r : StakePool) (clock : Clock) (amount lp n : ℕ)
    → (credit_senior p amount lp ≡ ok q) ⊎ (credit_junior p amount lp ≡ ok q)
    → raise_mark q clock ≡ ok r
    → IsCovered p n
    → (amount ≤ u64_max) × ((m : ℕ) → n + amount ≤ m → IsCovered r m)
unfolding credit_senior credit_junior raise_mark refresh_hwm
credit-IsCovered p q r clock amount lp n e f c = (ground arith, λ m paid. ground arith)

pub debit-IsCovered :
    (p q r : StakePool) (clock : Clock) (wiped is_junior : Bool) (w lp n : ℕ)
    → enforce_floor p clock w wiped ≡ ok q
    → debit q is_junior w lp ≡ ok r
    → IsCovered p n
    → (w ≤ u64_max) × ((m : ℕ) → n ≤ m + w → IsCovered r m)
unfolding debit debit_junior settle_last_junior
debit-IsCovered p q r clock wiped is_junior w lp n floor e c =
    let same = enforce_floor-eq p q clock w wiped floor in
    let kept : IsCovered q n = ground arith in (ground arith, λ m drawn. ground arith)

pub flushed-IsCovered :
    (p q : StakePool) (amount n : ℕ)
    → book_flush p amount ≡ ok q
    → IsCovered p n
    → (amount ≤ u64_max) × ((m : ℕ) → n ≤ m + amount → IsCovered q m)
unfolding book_flush
flushed-IsCovered p q amount n e c = (ground arith, λ m drawn. ground arith)

pub returned-IsCovered :
    (p q : StakePool) (amount n : ℕ)
    → (book_return p amount ≡ ok q) ⊎ (book_recovery p amount ≡ ok q)
    → IsCovered p n
    → (amount ≤ u64_max) × ((m : ℕ) → n + amount ≤ m → IsCovered q m)
unfolding book_return book_recovery
returned-IsCovered p q amount n e c = (ground arith, λ m paid. ground arith)

-- The vault is a token account of `authority`, other than the LP mint and the market, and what it
-- holds covers the pool's value.
pub record IsBacked (R : Runtime) (authority : Pubkey) (ledger : R.Ledger) (p : StakePool)
    : Type 0 where
  pub account : TokenAccount
  pub reads : token_account R ledger p.vault ≡ some account
  pub owned : account.owner ≡ authority
  pub covers : IsCovered p account.amount
  pub mint_apart : p.vault ≢ p.lp_mint
  pub slab_apart : p.vault ≢ p.slab

module _ (R : Runtime) where
  open R use {Ledger}

  pub pre_accrue_fee_modes-IsCovered :
      (ledger : Ledger) (p q : StakePool) (vault : AccountInfo) (t : TokenAccount)
      → token_account R ledger vault.key ≡ some t
      → pre_accrue_fee_modes R ledger p vault ≡ ok q
      → IsCovered p t.amount
      → IsCovered q t.amount
  unfolding pre_accrue_fee_modes vault_balance
  pre_accrue_fee_modes-IsCovered ledger p q vault t held e c =
      grind (arith, accrued-IsCovered p q t.amount)

  -- A later pool with the same vault, whose account covers the new value.
  pub moved-IsBacked :
      (authority : Pubkey) (ledger after : Ledger) (p q : StakePool) (u : TokenAccount)
      → IsBacked R authority ledger p
      → IsLater p q
      → token_account R after p.vault ≡ some u
      → u.owner ≡ authority
      → IsCovered q u.amount
      → IsBacked R authority after q
  moved-IsBacked authority ledger after p q u b later reads owned covers = record {
    account = u;
    reads = ap (token_account R after) later.vault ∙ reads;
    owned = owned;
    covers = covers;
    mint_apart = λ same. b.mint_apart (sym later.vault ∙ same ∙ later.lp_mint);
    slab_apart = λ same. b.slab_apart (sym later.vault ∙ same ∙ later.slab);
  }

  -- What a user owns is not the vault, which another owns.
  pub others_apart :
      (authority : Pubkey) (ledger : Ledger) (user vault k : Pubkey) (t v : TokenAccount)
      → user ≢ authority
      → token_account R ledger vault ≡ some v
      → token_account R ledger k ≡ some t
      → v.owner ≡ authority
      → t.owner ≡ user
      → k ≢ vault
  others_apart authority ledger user vault k t v other at at' owner owner' same = other cc
