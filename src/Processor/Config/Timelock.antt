-- ===== src/Processor/Config/Timelock.antt =====
-- Who can change a pool's settings, and when: src/processor.rs, the cooldown timelock, the two-step
-- admin rotation, `process_update_config` and `process_set_market_resolved`.
use percolator_stake.Prelude.{ℕ, ◌+◌, ◌≤◌, ◌<◌, ◌≡◌, Option, none, some, true, arith, ap, sym, ◌∙◌}
use percolator_stake.Error.{Result, ok, ◌>>=◌, >>=-eq-ok}
use percolator_stake.Runtime.{AccountInfo, AccountData, Clock}
use percolator_stake.State.{StakePool, Pubkey}
use percolator_stake.State.Pool.{wrapper_recoverable, wrapper_fully_recovered}
use percolator_stake.Processor.Guards.{
  pool_from_data, validate_cooldown_slots, timelock_window_elapsed,
}
use percolator_stake.Processor.Config.{
  open_pool, open_as_admin, lower_cooldown, process_update_config, process_propose_admin,
  process_accept_admin, process_commit_cooldown_increase, process_set_market_resolved,
}

open_as_admin-reads :
    (program_id : Pubkey) (admin pool_pda : AccountInfo) (p q : StakePool)
    → pool_pda.content ≡ AccountData.pool_bytes p
    → open_as_admin program_id admin pool_pda ≡ ok q
    → (q ≡ p) × (admin.is_signer ≡ true) × (p.admin ≡ admin.key)
unfolding open_as_admin open_pool pool_from_data
open_as_admin-reads program_id admin pool_pda p q held e = ground arith

-- A handler that opens the pool as its admin goes on with the pool that the account holds.
pub as_admin :
    (program_id : Pubkey) (admin pool_pda : AccountInfo) (f : StakePool → Result StakePool)
    → (p q : StakePool) → pool_pda.content ≡ AccountData.pool_bytes p
    → (open_as_admin program_id admin pool_pda >>= f) ≡ ok q
    → (admin.is_signer ≡ true) × (p.admin ≡ admin.key) × (f p ≡ ok q)
as_admin program_id admin pool_pda f p q held e =
    let (x, opened, rest) = >>=-eq-ok (open_as_admin program_id admin pool_pda) f q e in
    let (same, signed, is_admin) = open_as_admin-reads program_id admin pool_pda p x held opened in
    (signed, is_admin, ap f (sym same) ∙ rest)

-- A cooldown increase is committed only on the signature of the admin and at least 432000 slots
-- after a proposal; the new cooldown is the proposed one, between 1 and 78840000 slots, the
-- proposal is cleared and nothing else changes.
pub commit_cooldown_increase_timelock :
    (program_id : Pubkey) (admin pool_pda : AccountInfo) (clock : Clock) (p q : StakePool)
    → pool_pda.content ≡ AccountData.pool_bytes p
    → process_commit_cooldown_increase program_id admin pool_pda clock ≡ ok q
    → (admin.is_signer ≡ true)
      × (p.admin ≡ admin.key)
      × (0 < p.cooldown_proposed_at_slot)
      × (p.cooldown_proposed_at_slot + 432_000 ≤ clock.slot)
      × (0 < p.pending_cooldown_slots)
      × (p.pending_cooldown_slots ≤ 78_840_000)
      × (q ≡ record p {
        cooldown_slots = p.pending_cooldown_slots;
        pending_cooldown_slots = 0;
        cooldown_proposed_at_slot = 0;
      })
unfolding process_commit_cooldown_increase timelock_window_elapsed validate_cooldown_slots
commit_cooldown_increase_timelock program_id admin pool_pda clock p q held e =
    let (signed, is_admin, rest) = as_admin program_id admin pool_pda _ p q held e in ground arith

-- An update of the settings needs the signature of the admin, never raises the cooldown, and
-- changes nothing but the cooldown and the deposit cap.
pub update_config_never_raises :
    (program_id : Pubkey) (admin pool_pda : AccountInfo) (cooldown cap : Option ℕ)
    → (p q : StakePool) → pool_pda.content ≡ AccountData.pool_bytes p
    → process_update_config program_id admin pool_pda cooldown cap ≡ ok q
    → (admin.is_signer ≡ true)
      × (p.admin ≡ admin.key)
      × (q.cooldown_slots ≤ p.cooldown_slots)
      × (q ≡ record p { cooldown_slots = q.cooldown_slots; deposit_cap = q.deposit_cap })
unfolding process_update_config lower_cooldown
update_config_never_raises program_id admin pool_pda none none p q held e =
    let (signed, is_admin, rest) = as_admin program_id admin pool_pda _ p q held e in ground arith
update_config_never_raises program_id admin pool_pda none (some cap) p q held e =
    let (signed, is_admin, rest) = as_admin program_id admin pool_pda _ p q held e in ground arith
update_config_never_raises program_id admin pool_pda (some cooldown) none p q held e =
    let (signed, is_admin, rest) = as_admin program_id admin pool_pda _ p q held e in ground arith
update_config_never_raises program_id admin pool_pda (some cooldown) (some cap) p q held e =
    let (signed, is_admin, rest) = as_admin program_id admin pool_pda _ p q held e in ground arith

-- If a proposal of a key succeeds and an acceptance on the resulting pool succeeds, the proposal
-- was signed by the admin, the acceptance by the proposed key, which is not zero, and the pool has
-- that admin and no proposal left.
pub admin_rotation :
    (program_id : Pubkey) (admin new_admin pool_pda later_pda : AccountInfo) (key : Pubkey)
    → (p q r : StakePool) → pool_pda.content ≡ AccountData.pool_bytes p
    → process_propose_admin program_id admin pool_pda key ≡ ok q
    → later_pda.content ≡ AccountData.pool_bytes q
    → process_accept_admin program_id new_admin later_pda ≡ ok r
    → (admin.is_signer ≡ true)
      × (p.admin ≡ admin.key)
      × (new_admin.is_signer ≡ true)
      × (new_admin.key ≡ key)
      × (0 < key)
      × (r ≡ record p { admin = key; pending_admin = 0 })
unfolding process_propose_admin process_accept_admin open_pool pool_from_data
admin_rotation program_id admin new_admin pool_pda later_pda key p q r held e later f =
    let (signed, is_admin, rest) = as_admin program_id admin pool_pda _ p q held e in ground arith

-- A market is marked as resolved only on the signature of the admin, only if it was not yet, and
-- only when what was flushed is no more than realised junior losses and wrapper recoveries
-- together; nothing else changes.
pub set_market_resolved_gate :
    (program_id : Pubkey) (admin pool_pda : AccountInfo) (p q : StakePool)
    → pool_pda.content ≡ AccountData.pool_bytes p
    → process_set_market_resolved program_id admin pool_pda ≡ ok q
    → (admin.is_signer ≡ true)
      × (p.admin ≡ admin.key)
      × (p.market_resolved_byte ≡ 0)
      × (p.total_flushed ≤ p.realized_junior_loss + p.total_recovered_from_wrapper)
      × (q ≡ record p { market_resolved_byte = 1 })
unfolding process_set_market_resolved wrapper_fully_recovered wrapper_recoverable
set_market_resolved_gate program_id admin pool_pda p q held e =
    let (signed, is_admin, rest) = as_admin program_id admin pool_pda _ p q held e in ground arith
