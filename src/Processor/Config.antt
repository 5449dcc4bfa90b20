-- ===== src/Processor/Config.antt =====
-- The admin's settings: src/processor.rs, `process_update_config`, the two-step admin rotation, the
-- cooldown timelock, the high-water-mark and tranche settings, and `process_set_market_resolved`.
pub mod Timelock
use percolator_stake.Prelude.{
  ℕ, Bool, true, false, not, ◌&&◌, ◌||◌, Option, none, some, ◌==◌, ltb, leb, if◌then◌else◌,
}
use percolator_stake.Error.{
  StakeError, ProgramError, custom, Result, ok, err, ◌>>=◌, ◌>>◌, fail_if, ok_or,
}
use percolator_stake.State.{StakePool, Pubkey, flag}
use percolator_stake.State.Pool.{market_resolved, wrapper_fully_recovered}
use percolator_stake.Runtime.{AccountInfo, Clock}
use percolator_stake.Processor.Guards.{
  fails, check_pool, pool_from_data, validate_account_owner, validate_account_not_empty,
  validate_account_writable, validate_cooldown_slots, validate_hwm_floor_bps,
  timelock_window_elapsed, timelock_slots,
}

-- A signer, and the pool that every handler here reads first.
unfoldable pub open_pool :
    (program_id : Pubkey) → (signer pool_pda : AccountInfo) → Result StakePool
open_pool program_id signer pool_pda = do
  fail_if (not signer.is_signer) ProgramError.missing_required_signature
  validate_account_owner pool_pda program_id
  validate_account_not_empty pool_pda
  validate_account_writable pool_pda
  pool ← pool_from_data pool_pda.content
  check_pool pool
  ok pool

-- The same, for the pool's admin.
unfoldable pub open_as_admin :
    (program_id : Pubkey) → (admin pool_pda : AccountInfo) → Result StakePool
unfolding open_pool
open_as_admin program_id admin pool_pda = do
  pool ← open_pool program_id admin pool_pda
  fails (not (pool.admin == admin.key)) StakeError.unauthorized
  ok pool

-- A cooldown can only be lowered at once.
unfoldable pub lower_cooldown : StakePool → Option ℕ → Result StakePool
lower_cooldown pool none = ok pool
lower_cooldown pool (some cooldown) = do
  validate_cooldown_slots cooldown
  fails (ltb pool.cooldown_slots cooldown) StakeError.cooldown_increase_requires_timelock
  ok (record pool { cooldown_slots = cooldown })

abbrev pub set_cap : StakePool → Option ℕ → StakePool
set_cap pool none = pool
set_cap pool (some cap) = record pool { deposit_cap = cap }

unfoldable pub process_update_config :
    (program_id : Pubkey)
    → (admin pool_pda : AccountInfo) → (new_cooldown_slots new_deposit_cap : Option ℕ)
    → Result StakePool
process_update_config program_id admin pool_pda new_cooldown_slots new_deposit_cap = do
  pool ← open_as_admin program_id admin pool_pda
  lowered ← lower_cooldown pool new_cooldown_slots
  ok (set_cap lowered new_deposit_cap)

unfoldable pub process_propose_admin :
    (program_id : Pubkey) → (admin pool_pda : AccountInfo) → (new_admin : Pubkey) → Result StakePool
process_propose_admin program_id admin pool_pda new_admin = do
  pool ← open_as_admin program_id admin pool_pda
  ok (record pool { pending_admin = new_admin })

unfoldable pub process_accept_admin :
    (program_id : Pubkey) → (new_admin pool_pda : AccountInfo) → Result StakePool
process_accept_admin program_id new_admin pool_pda = do
  pool ← open_pool program_id new_admin pool_pda
  fails (pool.pending_admin == 0) StakeError.no_pending_admin
  fails (not (pool.pending_admin == new_admin.key)) StakeError.unauthorized
  ok (record pool { admin = pool.pending_admin; pending_admin = 0 })

unfoldable pub process_propose_cooldown_increase :
    (program_id : Pubkey)
    → (admin pool_pda : AccountInfo) → Clock
    → (new_cooldown_slots : ℕ) → Result StakePool
process_propose_cooldown_increase program_id admin pool_pda clock new_cooldown_slots = do
  pool ← open_as_admin program_id admin pool_pda
  validate_cooldown_slots new_cooldown_slots
  fails (leb new_cooldown_slots pool.cooldown_slots) StakeError.cooldown_increase_requires_timelock
  ok (record pool {
    pending_cooldown_slots = new_cooldown_slots;
    cooldown_proposed_at_slot = clock.slot;
  })

unfoldable pub process_commit_cooldown_increase :
    (program_id : Pubkey) → (admin pool_pda : AccountInfo) → Clock → Result StakePool
process_commit_cooldown_increase program_id admin pool_pda clock = do
  pool ← open_as_admin program_id admin pool_pda
  fails (pool.cooldown_proposed_at_slot == 0) StakeError.no_pending_cooldown_proposal
  elapsed ← timelock_window_elapsed pool.cooldown_proposed_at_slot timelock_slots clock.slot
  fails (not elapsed) StakeError.timelock_not_elapsed
  validate_cooldown_slots pool.pending_cooldown_slots
  ok (record pool {
    cooldown_slots = pool.pending_cooldown_slots;
    pending_cooldown_slots = 0;
    cooldown_proposed_at_slot = 0;
  })

unfoldable pub process_cancel_cooldown_increase :
    (program_id : Pubkey) → (admin pool_pda : AccountInfo) → Result StakePool
process_cancel_cooldown_increase program_id admin pool_pda = do
  pool ← open_as_admin program_id admin pool_pda
  fails (pool.cooldown_proposed_at_slot == 0) StakeError.no_pending_cooldown_proposal
  ok (record pool { pending_cooldown_slots = 0; cooldown_proposed_at_slot = 0 })

-- The floor is written only when the protection is switched on.
unfoldable pub apply_hwm_config : StakePool → (enabled : Bool) → (hwm_floor_bps : ℕ) → StakePool
apply_hwm_config pool enabled hwm_floor_bps =
    if enabled
    then record pool { hwm_enabled_byte = flag enabled; hwm_floor_bps = hwm_floor_bps }
    else record pool { hwm_enabled_byte = flag enabled }

unfoldable pub process_admin_set_hwm_config :
    (program_id : Pubkey)
    → (admin pool_pda : AccountInfo) → (enabled : Bool) → (hwm_floor_bps : ℕ) → Result StakePool
process_admin_set_hwm_config program_id admin pool_pda enabled hwm_floor_bps = do
  pool ← open_as_admin program_id admin pool_pda
  if enabled then validate_hwm_floor_bps hwm_floor_bps else ok tt
  ok (apply_hwm_config pool enabled hwm_floor_bps)

unfoldable pub process_admin_set_tranche_config :
    (program_id : Pubkey)
    → (admin pool_ai : AccountInfo) → (junior_fee_mult_bps : ℕ) → Result StakePool
process_admin_set_tranche_config program_id admin pool_ai junior_fee_mult_bps = do
  pool ← open_as_admin program_id admin pool_ai
  fail_if (ltb junior_fee_mult_bps 10_000 || ltb 50_000 junior_fee_mult_bps)
      ProgramError.invalid_argument
  fails (ltb 0 pool.junior_total_lp && not (pool.junior_fee_mult_bps == junior_fee_mult_bps))
      StakeError.unauthorized
  ok (record pool { tranche_enabled_byte = 1; junior_fee_mult_bps = junior_fee_mult_bps })

unfoldable pub process_set_market_resolved :
    (program_id : Pubkey) → (admin pool_pda : AccountInfo) → Result StakePool
process_set_market_resolved program_id admin pool_pda = do
  pool ← open_as_admin program_id admin pool_pda
  fails (market_resolved pool) StakeError.market_resolved
  fails (not (wrapper_fully_recovered pool)) StakeError.insurance_loss_outstanding
  ok (record pool { market_resolved_byte = 1 })
