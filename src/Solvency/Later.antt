-- ===== src/Solvency/Later.antt =====
-- The same pool at a later time: what no pool update of src/processor.rs undoes.
use percolator_stake.Prelude.{ℕ, ◌+◌, ◌-◌, ◌≤◌, ◌≡◌, ◌⊎◌, sym, refl, Bool, arith}
use percolator_stake.Error.{Result, ok, err, ◌>>=◌, ok-inj}
use percolator_stake.Runtime.{Clock}
use percolator_stake.State.{StakePool}
use percolator_stake.State.Pool.{refresh_hwm}
use percolator_stake.Processor.Accrual.{accrue_fees_inner}
use percolator_stake.Processor.Deposit.{credit_senior, credit_junior, raise_mark}
use percolator_stake.Processor.Insurance.{book_flush, book_return, book_recovery}
use percolator_stake.Processor.Withdraw.{debit, debit_junior, settle_last_junior}
use percolator_stake.Solvency.Accrual.{accrue_fees_inner-books}

-- A flag byte is as it was or was set to 1.
abbrev pub IsRaised : (before after : ℕ) → Type 0
IsRaised before after = (after ≡ before) ⊎ (after ≡ 1)

-- `q` is the same pool as `p`, at the same time or later.
pub record IsLater (p q : StakePool) : Type 0 where
  pub slab : q.slab ≡ p.slab
  pub collateral_mint : q.collateral_mint ≡ p.collateral_mint
  pub lp_mint : q.lp_mint ≡ p.lp_mint
  pub vault : q.vault ≡ p.vault
  pub percolator_program : q.percolator_program ≡ p.percolator_program
  pub pool_mode : q.pool_mode ≡ p.pool_mode
  pub deposited : p.total_deposited ≤ q.total_deposited
  pub withdrawn : p.total_withdrawn ≤ q.total_withdrawn
  pub flushed : p.total_flushed ≤ q.total_flushed
  pub returned : p.total_returned ≤ q.total_returned
  pub fees : p.total_fees_earned ≤ q.total_fees_earned
  pub recovered : p.total_recovered_from_wrapper ≤ q.total_recovered_from_wrapper
  pub realized : p.realized_junior_loss ≤ q.realized_junior_loss
  pub tranches : IsRaised p.tranche_enabled_byte q.tranche_enabled_byte
  pub burned : IsRaised p.asset_admin_burned_byte q.asset_admin_burned_byte
  pub resolved : IsRaised p.market_resolved_byte q.market_resolved_byte

pub IsLater-refl : (p q : StakePool) → q ≡ p → IsLater p q
IsLater-refl p q same = ground arith

pub IsLater-trans : (p q r : StakePool) → IsLater p q → IsLater q r → IsLater p r
IsLater-trans p q r a b = ground arith

pub credit-IsLater :
    (p q r : StakePool) (clock : Clock) (amount lp : ℕ)
    → (credit_senior p amount lp ≡ ok q) ⊎ (credit_junior p amount lp ≡ ok q)
    → raise_mark q clock ≡ ok r
    → IsLater p r
unfolding credit_senior credit_junior raise_mark refresh_hwm
credit-IsLater p q r clock amount lp e f = ground arith

-- The mark is no part of it.
pub marked-IsLater :
    (p q : StakePool)
    → q ≡ record p {
      epoch_high_water_tvl = q.epoch_high_water_tvl;
      hwm_last_epoch = q.hwm_last_epoch;
    }
    → IsLater p q
marked-IsLater p q same = ground arith

settle_last_junior-IsLater : (p q : StakePool) → settle_last_junior p ≡ ok q → IsLater p q
unfolding settle_last_junior
settle_last_junior-IsLater p q e = ground arith

debit_junior-IsLater : (p q : StakePool) (w lp : ℕ) → debit_junior p w lp ≡ ok q → IsLater p q
unfolding debit_junior
debit_junior-IsLater p q w lp e =
    let left : StakePool = record p { junior_total_lp = p.junior_total_lp - lp } in
    ground (arith, settle_last_junior-IsLater left q)

pub debit-IsLater :
    (p q : StakePool) (is_junior : Bool) (w lp : ℕ) → debit p is_junior w lp ≡ ok q → IsLater p q
unfolding debit
debit-IsLater p q is_junior w lp e =
    let paid : StakePool = record p {
      total_withdrawn = p.total_withdrawn + w;
      total_lp_supply = p.total_lp_supply - lp;
    } in
    ground (arith, debit_junior-IsLater paid q w lp)

pub booked-IsLater :
    (p q : StakePool) (amount : ℕ)
    → (book_flush p amount ≡ ok q) ⊎ (book_return p amount ≡ ok q) ⊎ (book_recovery p amount ≡ ok q)
    → IsLater p q
unfolding book_flush book_return book_recovery
booked-IsLater p q amount e = ground arith

pub accrued-IsLater :
    (p q : StakePool) (balance : ℕ) → accrue_fees_inner p balance ≡ ok q → IsLater p q
accrued-IsLater p q balance e = ground (arith, accrue_fees_inner-books p q balance e)

-- The accrual and the stamps of its instruction.
stamped-IsLater :
    (p q : StakePool) (slot : ℕ) (x : StakePool) (balance : ℕ)
    → accrue_fees_inner p balance ≡ ok x
    → q ≡ record x { last_fee_accrual_slot = slot; last_vault_snapshot = balance }
    → IsLater p q
stamped-IsLater p q slot x balance e same =
    let accrued = accrued-IsLater p x balance e in ground arith

stamp-IsLater :
    (p q : StakePool) (slot balance : ℕ) (m : Result StakePool)
    → m ≡ accrue_fees_inner p balance
    → (m >>= λ x. ok (record x { last_fee_accrual_slot = slot; last_vault_snapshot = balance }))
      ≡ ok q
    → IsLater p q
stamp-IsLater p q slot balance (err wrong) same e = cc
stamp-IsLater p q slot balance (ok x) same e =
    stamped-IsLater p q slot x balance (sym same) (sym (ok-inj _ q e))

pub booked-rest :
    (p q : StakePool) (slot : ℕ) (m : Result ℕ)
    → (m >>= λ b.
        (accrue_fees_inner p b >>= λ x.
        ok (record x { last_fee_accrual_slot = slot; last_vault_snapshot = b })))
      ≡ ok q
    → IsLater p q
booked-rest p q slot (err wrong) e = cc
booked-rest p q slot (ok b) e = stamp-IsLater p q slot b (accrue_fees_inner p b) refl e
