-- ===== src/Processor/Resolution.antt =====
-- Resolution of the wrapper's market: src/processor.rs, `process_admin_resolve_market`.
use percolator_stake.Prelude.{◌+◌, ◌≤◌, ◌≡◌, true, not, some, [], ◌∷◌, ◌==◌, arith}
use percolator_stake.Error.{StakeError, ProgramError, Result, ok, ◌>>=◌, ◌>>◌, fail_if}
use percolator_stake.State.{StakePool, Pubkey}
use percolator_stake.State.Pool.{wrapper_recoverable, wrapper_fully_recovered}
use percolator_stake.Runtime.{Runtime, Seed, AccountInfo, AccountData}
use percolator_stake.Cpi.{resolve_market}
use percolator_stake.Processor.Guards.{
  fails, check_pool, pool_from_data, validate_account_owner, validate_account_not_empty, call,
}

pub record ResolveAccounts : Type 0 where
  pub admin : AccountInfo
  pub pool_pda : AccountInfo
  pub slab : AccountInfo
  pub percolator_program : AccountInfo

-- The checks on the pool, which is only read.
unfoldable pub check_resolution : StakePool → ResolveAccounts → Result (Unit {0})
check_resolution pool a = do
  check_pool pool
  fails (not (pool.admin == a.admin.key)) StakeError.unauthorized
  fails (not (pool.slab == a.slab.key)) StakeError.invalid_pda
  fails (not (pool.percolator_program == a.percolator_program.key))
      StakeError.invalid_percolator_program
  fails (not (wrapper_fully_recovered pool)) StakeError.insurance_loss_outstanding

module _ (R : Runtime) where
  open R use {Ledger, invoke}

  unfoldable pub process_admin_resolve_market :
      (program_id : Pubkey) → ResolveAccounts → Ledger → Result Ledger
  process_admin_resolve_market program_id a ledger = do
    fail_if (not a.admin.is_signer) ProgramError.missing_required_signature
    validate_account_owner a.pool_pda program_id
    validate_account_not_empty a.pool_pda
    pool ← pool_from_data a.pool_pda.content
    check_resolution pool a
    call R ledger (resolve_market a.percolator_program.key a.pool_pda.key a.slab.key)
        (Seed.stake_pool ∷ Seed.key a.slab.key ∷ Seed.bump pool.bump ∷ [])

  -- The market of the wrapper is resolved only on the signature of the admin, by the program and
  -- for the market that the pool names, and only when what was flushed is no more than realised
  -- junior losses and wrapper recoveries together; the ledger is then the one that the instruction
  -- of this program leaves.
  pub admin_resolve_market_gate :
      (program_id : Pubkey) (a : ResolveAccounts) (p : StakePool) (ledger after : Ledger)
      → a.pool_pda.content ≡ AccountData.pool_bytes p
      → process_admin_resolve_market program_id a ledger ≡ ok after
      → (a.admin.is_signer ≡ true)
        × (p.admin ≡ a.admin.key)
        × (p.slab ≡ a.slab.key)
        × (p.percolator_program ≡ a.percolator_program.key)
        × (p.total_flushed ≤ p.realized_junior_loss + p.total_recovered_from_wrapper)
        × (invoke ledger
              (resolve_market p.percolator_program a.pool_pda.key p.slab)
              (Seed.stake_pool ∷ Seed.key p.slab ∷ Seed.bump p.bump ∷ [])
            ≡ some after)
  unfolding process_admin_resolve_market check_resolution pool_from_data wrapper_fully_recovered
      wrapper_recoverable
  admin_resolve_market_gate program_id a p ledger after held e = ground arith
