-- ===== src/Tests/Settings.antt =====
-- The settings and the floor on the fixture pool.
use percolator_stake.Prelude.{◌*◌, ◌≡◌, ◌≤◌, ◌<◌, ◌↔◌, refl, true, false, some, none, arith}
use percolator_stake.Error.{ok}
use percolator_stake.Runtime.{Clock}
use percolator_stake.State.{StakePool}
use percolator_stake.State.Pool.{
  total_pool_value, refresh_hwm, wrapper_recoverable, wrapper_fully_recovered,
}
use percolator_stake.Processor.Guards
use percolator_stake.Processor.Config
use percolator_stake.Processor.Config.Timelock.{
  commit_cooldown_increase_timelock, update_config_never_raises, admin_rotation,
  set_market_resolved_gate,
}
use percolator_stake.Processor.Withdraw.{enforce_floor}
use percolator_stake.Processor.Withdraw.Floor.{enforce_floor_iff, enforce_floor_new_epoch}
use percolator_stake.Tests.Accounts.{pool_account, admin}
use percolator_stake.Tests.Fixtures.{pool, clock}

abbrev proposed : StakePool
proposed = record pool { pending_cooldown_slots = 200; cooldown_proposed_at_slot = 1_000 }

abbrev after_timelock : Clock
after_timelock = record { slot = 433_000; epoch = 4 }

commit_cooldown_increase_timelock_example :
    (admin.is_signer ≡ true)
    × (pool.admin ≡ admin.key)
    × (0 < 1_000)
    × (433_000 ≤ 433_000)
    × (0 < 200)
    × (200 ≤ 78_840_000)
    × (record pool { cooldown_slots = 200 } ≡ record pool { cooldown_slots = 200 })
unfolding Guards.validate_account_not_empty Guards.validate_account_owner
    Guards.validate_account_writable Guards.pool_from_data Guards.check_pool
    Guards.validate_pool_version Guards.validate_cooldown_slots Guards.timelock_window_elapsed
    Config.open_pool Config.open_as_admin Config.lower_cooldown Config.process_update_config
    Config.process_propose_admin Config.process_accept_admin Config.process_commit_cooldown_increase
    Config.process_set_market_resolved wrapper_fully_recovered wrapper_recoverable
commit_cooldown_increase_timelock_example =
    commit_cooldown_increase_timelock 1 admin (pool_account proposed) after_timelock proposed
      (record pool { cooldown_slots = 200 }) refl refl

update_config_never_raises_example :
    (admin.is_signer ≡ true)
    × (pool.admin ≡ admin.key)
    × (60 ≤ 100)
    × (record pool { cooldown_slots = 60 } ≡ record pool { cooldown_slots = 60 })
unfolding Guards.validate_account_not_empty Guards.validate_account_owner
    Guards.validate_account_writable Guards.pool_from_data Guards.check_pool
    Guards.validate_pool_version Guards.validate_cooldown_slots Guards.timelock_window_elapsed
    Config.open_pool Config.open_as_admin Config.lower_cooldown Config.process_update_config
    Config.process_propose_admin Config.process_accept_admin Config.process_commit_cooldown_increase
    Config.process_set_market_resolved wrapper_fully_recovered wrapper_recoverable
update_config_never_raises_example =
    update_config_never_raises 1 admin (pool_account pool) (some 60) none pool
      (record pool { cooldown_slots = 60 }) refl refl

admin_rotation_example :
    (admin.is_signer ≡ true)
    × (pool.admin ≡ admin.key)
    × ((record admin { key = 30 }).is_signer ≡ true)
    × ((record admin { key = 30 }).key ≡ 30)
    × (0 < 30)
    × (record pool { admin = 30 } ≡ record pool { admin = 30; pending_admin = 0 })
unfolding Guards.validate_account_not_empty Guards.validate_account_owner
    Guards.validate_account_writable Guards.pool_from_data Guards.check_pool
    Guards.validate_pool_version Guards.validate_cooldown_slots Guards.timelock_window_elapsed
    Config.open_pool Config.open_as_admin Config.lower_cooldown Config.process_update_config
    Config.process_propose_admin Config.process_accept_admin Config.process_commit_cooldown_increase
    Config.process_set_market_resolved wrapper_fully_recovered wrapper_recoverable
admin_rotation_example =
    admin_rotation 1 admin (record admin { key = 30 }) (pool_account pool)
      (pool_account (record pool { pending_admin = 30 })) 30 pool
      (record pool { pending_admin = 30 }) (record pool { admin = 30 }) refl refl refl refl

abbrev recovered : StakePool
recovered = record pool {
  total_flushed = 500;
  total_returned = 500;
  realized_junior_loss = 100;
  total_recovered_from_wrapper = 400;
}

set_market_resolved_gate_example :
    (admin.is_signer ≡ true)
    × (pool.admin ≡ admin.key)
    × (recovered.market_resolved_byte ≡ 0)
    × (500 ≤ 500)
    × (record recovered { market_resolved_byte = 1 }
        ≡ record recovered { market_resolved_byte = 1 })
unfolding Guards.validate_account_not_empty Guards.validate_account_owner
    Guards.validate_account_writable Guards.pool_from_data Guards.check_pool
    Guards.validate_pool_version Guards.validate_cooldown_slots Guards.timelock_window_elapsed
    Config.open_pool Config.open_as_admin Config.lower_cooldown Config.process_update_config
    Config.process_propose_admin Config.process_accept_admin Config.process_commit_cooldown_increase
    Config.process_set_market_resolved wrapper_fully_recovered wrapper_recoverable
set_market_resolved_gate_example =
    set_market_resolved_gate 1 admin (pool_account recovered) recovered
      (record recovered { market_resolved_byte = 1 }) refl refl

-- The fixture pool under a floor of half its mark.
abbrev guarded : StakePool
guarded = record pool {
  hwm_enabled_byte = 1;
  hwm_floor_bps = 5_000;
  epoch_high_water_tvl = 4_500_000;
  hwm_last_epoch = 3;
}

enforce_floor_iff_example :
    (enforce_floor guarded clock 1_000_000 false ≡ ok guarded)
    ↔ (4_500_000 * 5_000 < 3_000_001 * 10_000)
unfolding total_pool_value refresh_hwm
enforce_floor_iff_example =
    enforce_floor_iff guarded clock 1_000_000 4_000_000 refl (omega arith) (omega arith) refl
      (omega arith)

enforce_floor_new_epoch_example :
    enforce_floor guarded after_timelock 400_000 false
    ≡ ok (record guarded { epoch_high_water_tvl = 4_000_000; hwm_last_epoch = 4 })
unfolding total_pool_value
enforce_floor_new_epoch_example =
    enforce_floor_new_epoch guarded after_timelock 400_000 4_000_000 refl (omega arith)
      (omega arith) refl (omega arith)
