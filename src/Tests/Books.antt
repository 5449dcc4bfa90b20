-- ===== src/Tests/Books.antt =====
-- The books of insurance and the cap on concrete pools.
use percolator_stake.Prelude.{true, some, [], ◌∷◌, ◌+◌, ◌≡◌, ◌≤◌, refl, arith}
use percolator_stake.Error.{ok}
use percolator_stake.State.{StakePool}
use percolator_stake.State.Pool.{wrapper_recoverable, wrapper_fully_recovered, principal_tvl}
use percolator_stake.Runtime.{Seed}
use percolator_stake.Cpi.{resolve_market}
use percolator_stake.Processor.Guards
use percolator_stake.Processor.Resolution.{
  ResolveAccounts, process_admin_resolve_market, check_resolution, admin_resolve_market_gate,
}
use percolator_stake.Processor.Deposit.{check_deposit_cap, credit_senior, credit_junior}
use percolator_stake.Processor.Deposit.Cap.{deposit_within_cap}
use percolator_stake.Processor.Insurance.{
  book_return, book_recovery, check_outstanding, check_recoverable,
}
use percolator_stake.Processor.Insurance.Recoverable.{return_then_recover}
use percolator_stake.Tests.Accounts.{pool_account, admin}
use percolator_stake.Tests.Fixtures.{pool, flushed_pool, runtime}

abbrev more_flushed : StakePool
more_flushed = record flushed_pool { total_flushed = 700_000 }

abbrev returned : StakePool
returned = record flushed_pool { total_returned = 200_000 }

abbrev recovered : StakePool
recovered = record flushed_pool { total_returned = 200_000; total_recovered_from_wrapper = 200_000 }

-- All of 500,000 comes back from the admin and again from the wrapper.
abbrev repaid : StakePool
repaid = record flushed_pool { total_returned = 500_000 }

abbrev repaid_twice : StakePool
repaid_twice = record flushed_pool {
  total_returned = 1_000_000;
  total_recovered_from_wrapper = 500_000;
}

return_then_recover_example :
    (check_recoverable repaid 500_000 ≡ ok tt)
    × (repaid_twice.total_returned ≡ flushed_pool.total_returned + (500_000 + 500_000))
    × (repaid_twice.total_flushed ≡ flushed_pool.total_flushed)
unfolding wrapper_recoverable book_return book_recovery check_outstanding check_recoverable
return_then_recover_example =
    return_then_recover flushed_pool repaid repaid_twice 500_000 (omega arith) (omega arith) refl
      refl refl

abbrev capped : StakePool
capped = record pool { deposit_cap = 4_500_000 }

abbrev capped_senior : StakePool
capped_senior = record capped { total_deposited = 4_500_000; total_lp_supply = 4_500_000 }

abbrev capped_junior : StakePool
capped_junior = record capped_senior { junior_balance = 1_500_000; junior_total_lp = 1_500_000 }

deposit_within_cap_example : (4_500_000 ≤ capped.deposit_cap) × (4_500_000 ≤ capped.deposit_cap)
unfolding check_deposit_cap credit_senior credit_junior principal_tvl
deposit_within_cap_example =
    deposit_within_cap capped capped_senior capped_junior 500_000 500_000 4_500_000 4_500_000
      (omega arith) refl refl refl refl refl

abbrev settled : StakePool
settled = record pool {
  total_flushed = 500;
  total_returned = 500;
  total_recovered_from_wrapper = 500;
}

abbrev resolve_accounts : ResolveAccounts
resolve_accounts = record {
  admin = admin;
  pool_pda = pool_account settled;
  slab = record admin { key = 20 };
  percolator_program = record admin { key = 25 };
}

admin_resolve_market_gate_example :
    (resolve_accounts.admin.is_signer ≡ true)
    × (settled.admin ≡ resolve_accounts.admin.key)
    × (settled.slab ≡ resolve_accounts.slab.key)
    × (settled.percolator_program ≡ resolve_accounts.percolator_program.key)
    × (500 ≤ 500)
    × ((runtime 0).invoke tt
          (resolve_market 25 10 20)
          (Seed.stake_pool ∷ Seed.key 20 ∷ Seed.bump 255 ∷ [])
        ≡ some tt)
unfolding process_admin_resolve_market check_resolution Guards.pool_from_data Guards.check_pool
    Guards.validate_pool_version Guards.validate_account_owner Guards.validate_account_not_empty
    wrapper_fully_recovered wrapper_recoverable
admin_resolve_market_gate_example =
    admin_resolve_market_gate (runtime 0) 1 resolve_accounts settled tt tt refl refl
