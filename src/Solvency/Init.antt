-- ===== src/Solvency/Init.antt =====
-- The pool that initialisation leaves: src/processor.rs, `process_init_pool` and
-- `process_init_trading_pool`, as the state in which the invariant starts.
use percolator_stake.Prelude.{
  ℕ, Bool, true, ◌≤◌, ◌<◌, ◌≡◌, inl, inr, ◌⊎◌, Bool, refl, some, ap, sym, arith,
}
use percolator_stake.Error.{ok, >>=-eq-ok, ok-inj}
use percolator_stake.Runtime.{Runtime, AccountData}
use percolator_stake.State.{StakePool, Pubkey}
use percolator_stake.State.Pool.{total_pool_value}
use percolator_stake.Processor.Guards.{
  check_pool, validate_pool_version, data_is_empty, validate_cooldown_slots, derive_pool_pda,
  derive_vault_authority,
}
use percolator_stake.Processor.Init.{
  InitAccounts, fresh_pool, check_init, set_up, process_init_pool, process_init_trading_pool,
}
use percolator_stake.Processor.Insurance.{Moved}
use percolator_stake.Solvency.{IsSound}

data_is_empty-eq-true : (c : AccountData) → data_is_empty c ≡ true → c ≡ AccountData.empty
data_is_empty-eq-true AccountData.empty e = refl
data_is_empty-eq-true (AccountData.pool_bytes p) e = cc
data_is_empty-eq-true (AccountData.deposit_bytes d) e = cc
data_is_empty-eq-true AccountData.short_bytes e = cc

-- What the rest of the program asks of a pool account that was just created.
pub record IsReady (p : StakePool) (admin : Pubkey) (mode : ℕ) : Type 0 where
  pub usable : check_pool p ≡ ok tt
  pub sound : IsSound p
  pub worthless : total_pool_value p ≡ some 0
  pub unshared : p.total_lp_supply ≡ 0
  pub cooldown_positive : 0 < p.cooldown_slots
  pub cooldown_bounded : p.cooldown_slots ≤ 78_840_000
  pub is_admin : p.admin ≡ admin
  pub is_mode : p.pool_mode ≡ mode

fresh_pool-IsReady :
    (a : InitAccounts) (b v c d mode : ℕ)
    → 0 < c
    → c ≤ 78_840_000
    → IsReady (record (fresh_pool a b v c d) { pool_mode = mode }) a.admin.key mode
unfolding fresh_pool check_pool validate_pool_version total_pool_value
fresh_pool-IsReady a b v c d mode low high = record {
  usable = refl;
  sound = record {
    junior_fits = omega arith;
    solvent = omega arith;
    covered = omega arith;
    within = omega arith;
    settled = omega arith;
    shares = omega arith;
    inactive = inr (refl, refl);
  };
  worthless = refl;
  unshared = refl;
  cooldown_positive = low;
  cooldown_bounded = high;
  is_admin = refl;
  is_mode = refl;
}

module _ (R : Runtime) (devnet : Bool) where
  open R use {Ledger}

  check_init-gate :
      (program_id : Pubkey) (a : InitAccounts) (cooldown : ℕ) (ledger : Ledger)
      → check_init R devnet program_id a cooldown ledger ≡ ok tt
      → (a.admin.is_signer ≡ true)
        × (a.pool_pda.content ≡ AccountData.empty)
        × (0 < cooldown)
        × (cooldown ≤ 78_840_000)
        × (a.pool_pda.key ≡ (derive_pool_pda R program_id a.slab.key).0)
  unfolding check_init validate_cooldown_slots
  check_init-gate program_id a cooldown ledger e =
      ground (arith, data_is_empty-eq-true a.pool_pda.content)

  process_init_pool-eq :
      (program_id : Pubkey) (a : InitAccounts) (cooldown cap : ℕ) (ledger : Ledger) (out : Moved R)
      → process_init_pool R devnet program_id a cooldown cap ledger ≡ ok out
      → (check_init R devnet program_id a cooldown ledger ≡ ok tt)
        × (out.pool
            ≡ fresh_pool a
                (derive_pool_pda R program_id a.slab.key).1
                (derive_vault_authority R program_id a.pool_pda.key).1
                cooldown
                cap)
  unfolding process_init_pool
  process_init_pool-eq program_id a cooldown cap ledger out e =
      let (_, checked, e) = >>=-eq-ok (check_init R devnet program_id a cooldown ledger) _ out e in
      let b = (derive_pool_pda R program_id a.slab.key).1 in
      let v = (derive_vault_authority R program_id a.pool_pda.key).1 in
      let (_, _, e) = >>=-eq-ok (set_up R devnet program_id a b v ledger) _ out e in
      (checked, sym (ap (λ (x : Moved R). x.pool) (ok-inj _ out e)))

  -- An initialisation that succeeds is signed by the admin, takes an empty account at the pool's
  -- address, and leaves a pool that the other handlers accept: its counters are sound, its value
  -- and its supply are 0, its cooldown is between 1 and 78840000 slots, its admin is the signer,
  -- and its mode is 0, or 1 for a trading pool.
  pub init_pool-IsReady :
      (program_id : Pubkey) (a : InitAccounts) (cooldown cap mode : ℕ) (ledger : Ledger)
      → (out : Moved R)
      → (mode ≡ 0) × (process_init_pool R devnet program_id a cooldown cap ledger ≡ ok out)
        ⊎ (mode ≡ 1)
          × (process_init_trading_pool R devnet program_id a cooldown cap ledger ≡ ok out)
      → (a.admin.is_signer ≡ true)
        × (a.pool_pda.content ≡ AccountData.empty)
        × (a.pool_pda.key ≡ (derive_pool_pda R program_id a.slab.key).0)
        × IsReady out.pool a.admin.key mode
  unfolding process_init_trading_pool fresh_pool
  init_pool-IsReady program_id a cooldown cap mode ledger out (inl (m, e)) =
      let (checked, made) = process_init_pool-eq program_id a cooldown cap ledger out e in
      let (signed, empty, low, high, here) = check_init-gate program_id a cooldown ledger checked in
      (signed, empty, here, rw (made, m) (fresh_pool-IsReady a _ _ cooldown cap 0 low high))
  init_pool-IsReady program_id a cooldown cap mode ledger out (inr (m, e)) =
      let (inner, ran, e) =
        >>=-eq-ok (process_init_pool R devnet program_id a cooldown cap ledger) _ out e in
      let (checked, made) = process_init_pool-eq program_id a cooldown cap ledger inner ran in
      let (signed, empty, low, high, here) = check_init-gate program_id a cooldown ledger checked in
      let last : out.pool ≡ record inner.pool { pool_mode = 1 } = ground arith in
      (signed, empty, here, rw (last, made, m) (fresh_pool-IsReady a _ _ cooldown cap 1 low high))
