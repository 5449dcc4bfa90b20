-- ===== src/Solvency.antt =====
-- The invariant of a pool's counters, and that the pool updates of src/processor.rs keep it, a child
-- module for each handler.
pub mod Accrual
pub mod Backing
pub mod Deposit
pub mod Insurance
pub mod Withdraw
pub mod Isolation
pub mod Freeze
pub mod RoundTrip
pub mod Handlers
pub mod Settings
pub mod Init
pub mod Shares
pub mod Later
pub mod System
pub mod Vault
use percolator_stake.Prelude.{ℕ, ◌+◌, ◌≤◌, ◌≡◌, ◌⊎◌, u64_max}
use percolator_stake.State.{StakePool}
use percolator_stake.State.Pool.{value_in, value_out}

-- `solvent`: the pool's value is not negative. `covered`: principal and fees that have not been
-- withdrawn cover the stored junior balance and the losses that exited juniors realised. `within`:
-- no more is booked as returned than was flushed. `settled`: realised losses and wrapper
-- recoveries are booked as returned. `shares`: junior shares are part of the supply. `inactive`: a
-- pool without tranches has no junior balance and no junior shares.
pub record IsSound (p : StakePool) : Type 0 where
  pub junior_fits : p.junior_balance ≤ u64_max
  pub solvent : value_out p ≤ value_in p
  pub covered :
      p.total_withdrawn + p.junior_balance + p.realized_junior_loss
      ≤ p.total_deposited + p.total_fees_earned
  pub within : p.total_returned ≤ p.total_flushed
  pub settled : p.realized_junior_loss + p.total_recovered_from_wrapper ≤ p.total_returned
  pub shares : p.junior_total_lp ≤ p.total_lp_supply
  pub inactive : (p.tranche_enabled_byte ≡ 1) ⊎ (p.junior_balance ≡ 0) × (p.junior_total_lp ≡ 0)
