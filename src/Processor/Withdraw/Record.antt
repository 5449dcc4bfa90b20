-- ===== src/Processor/Withdraw/Record.antt =====
-- Which withdrawals a deposit record allows, and the error of the others: src/processor.rs, the
-- checks on the record in `process_withdraw`.
use percolator_stake.Prelude.{ℕ, ◌+◌, ◌≤◌, ◌<◌, ◌≡◌, ◌⊎◌, min, arith, u64_max}
use percolator_stake.Error.{StakeError, custom, ok, err}
use percolator_stake.Runtime.{Clock}
use percolator_stake.State.{StakePool, StakeDeposit, Pubkey, stake_deposit_discriminator}
use percolator_stake.Processor.Withdraw.{check_record}

-- The record is that of the user, in the pool.
pub record IsOwn (d : StakeDeposit) (user pool_key : Pubkey) : Type 0 where
  pub initialized : d.is_initialized ≡ 1
  pub is_user : d.user ≡ user
  pub is_pool : d.pool ≡ pool_key

-- The check of the record has one outcome for each case, in this order: InvalidAccount for a wrong
-- discriminator, Unauthorized for a record that is not the user's own in the pool,
-- CooldownNotElapsed before the slot of the last deposit plus the cooldown (at most the largest
-- u64), InsufficientLpTokens for more shares than the record has; it passes otherwise.
pub check_record_cases :
    (d : StakeDeposit) (p : StakePool) (user pool_key : Pubkey) (clock : Clock) (lp : ℕ)
    → let until = min (d.last_deposit_slot + p.cooldown_slots) u64_max in
      let outcome = check_record d p user pool_key clock lp in
      ¬ (d.discriminator ≡ stake_deposit_discriminator)
        × (outcome ≡ err (custom StakeError.invalid_account))
      ⊎ (d.discriminator ≡ stake_deposit_discriminator)
        × ((¬ IsOwn d user pool_key × (outcome ≡ err (custom StakeError.unauthorized)))
            ⊎ IsOwn d user pool_key
              × ((clock.slot < until) × (outcome ≡ err (custom StakeError.cooldown_not_elapsed))
                  ⊎ (until ≤ clock.slot)
                    × ((d.lp_amount < lp)
                          × (outcome ≡ err (custom StakeError.insufficient_lp_tokens))
                        ⊎ (lp ≤ d.lp_amount) × (outcome ≡ ok tt))))
unfolding check_record
check_record_cases d p user pool_key clock lp = ground arith
