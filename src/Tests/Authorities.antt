-- ===== src/Tests/Authorities.antt =====
-- The handlers that forward to the wrapper, on the fixture pool.
use percolator_stake.Prelude.{ℕ, ◌≡◌, inl, refl, Option, some, true, [], ◌∷◌}
use percolator_stake.Error.{ok}
use percolator_stake.Instruction.{admin_update_trade_fee_policy}
use percolator_stake.State.{StakePool}
use percolator_stake.Processor.Guards
use percolator_stake.Processor.Insurance.{Moved}
use percolator_stake.Processor.Authority
use percolator_stake.Processor.Authority.Gate.{IsByAdmin, rotation_gate}
use percolator_stake.Processor.Authority.{vault_seeds}
use percolator_stake.Processor.Authority.Bind.{bind_gate}
use percolator_stake.Runtime.{Instruction}
use percolator_stake.SplToken.{signer, writable}
use percolator_stake.Cpi.Authority.{asset_authority_data}
use percolator_stake.Processor.Authority.Seal.{burn_final}
use percolator_stake.Processor.Proxies
use percolator_stake.Processor.Proxies.Relay.{Relays, proxy_payload}
use percolator_stake.Tests.Accounts.{admin, bind_accounts, rotate_accounts, proxy_accounts}
use percolator_stake.Tests.Fixtures.{pool, market_runtime}

abbrev left : Option ℕ
left = some 9

abbrev burnt : StakePool
burnt = record pool { asset_admin_burned_byte = 1 }

abbrev after_burn : Moved market_runtime
after_burn = record { pool = burnt; ledger = 7 }

burn_final_example :
    (admin.is_signer ≡ true)
    × (pool.admin ≡ admin.key)
    × ¬ (◌≡◌ {A = ℕ} 0 1)
    × (burnt ≡ record pool { asset_admin_burned_byte = 1 })
    × ¬ (
        Authority.process_burn_asset_admin market_runtime 1 (bind_accounts burnt) 8 ≡ ok after_burn)
    × ¬ (
        Authority.process_rotate_insurance_operator market_runtime 1 (rotate_accounts burnt) 8
        ≡ ok 8)
    × ¬ (
        Authority.process_rotate_insurance_authority market_runtime 1 (rotate_accounts burnt) 8
        ≡ ok 8)
unfolding Guards.validate_account_not_empty Guards.validate_account_owner
    Guards.validate_account_writable Guards.pool_from_data Guards.check_pool
    Guards.validate_pool_version Guards.derive_vault_authority Authority.process_burn_asset_admin
    Authority.check_binding
burn_final_example =
    burn_final market_runtime 1 (bind_accounts pool) (bind_accounts burnt) (rotate_accounts burnt) 7
      8 pool after_burn after_burn 8 refl refl refl refl

rotation_gate_example :
    (bump : ℕ) × IsByAdmin pool
      (bind_accounts pool).admin
      (bind_accounts pool).slab
      (bind_accounts pool).percolator_program
    × ((rotate_accounts pool).new_target.is_signer ≡ true)
    × ¬ (◌≡◌ {A = ℕ} 0 1)
    × (Guards.derive_vault_authority market_runtime 1 10 ≡ (12, bump))
    × (left ≡ some 9)
unfolding Guards.validate_account_not_empty Guards.validate_account_owner
    Guards.validate_account_writable Guards.pool_from_data Guards.check_pool
    Guards.validate_pool_version Guards.derive_vault_authority
    Authority.process_rotate_insurance_operator Authority.check_binding Authority.check_rotation
rotation_gate_example =
    rotation_gate market_runtime 1 (rotate_accounts pool) 9 9 pool 2 refl (inl (refl, refl))

proxy_payload_example :
    IsByAdmin pool
      (proxy_accounts pool).admin
      (proxy_accounts pool).slab
      (proxy_accounts pool).percolator_program
    × (left ≡ some 9)
unfolding Guards.validate_account_not_empty Guards.validate_account_owner
    Guards.validate_account_writable Guards.pool_from_data Guards.check_pool
    Guards.validate_pool_version Guards.derive_vault_authority
    Proxies.process_admin_update_trade_fee_policy Proxies.validate_group_b_proxy
    Proxies.validate_group_a_proxy
proxy_payload_example =
    proxy_payload market_runtime 1 (proxy_accounts pool) 9 9 pool (admin_update_trade_fee_policy 30)
      refl (Relays.trade_fee 30 refl)

abbrev bound_at : (kind : ℕ) → Instruction
bound_at kind = record {
  program_id = 25;
  accounts = signer 21 ∷ signer 12 ∷ writable 20 ∷ [];
  data_bytes = asset_authority_data kind 12;
}

bind_gate_example :
    (between : ℕ) × IsByAdmin pool
      (bind_accounts pool).admin
      (bind_accounts pool).slab
      (bind_accounts pool).percolator_program
    × (market_runtime.invoke 9 (bound_at 1) (vault_seeds 10 254) ≡ some between)
    × (market_runtime.invoke between (bound_at 2) (vault_seeds 10 254) ≡ some 9)
unfolding Guards.validate_account_not_empty Guards.validate_account_owner
    Guards.validate_account_writable Guards.pool_from_data Guards.check_pool
    Guards.validate_pool_version Guards.derive_vault_authority
    Authority.process_bind_insurance_authority Authority.check_binding
bind_gate_example = bind_gate market_runtime 1 (bind_accounts pool) 9 9 pool refl refl
