-- ===== src/Processor/Authority/Bind.antt =====
-- What binding the insurance authority sends: src/processor.rs, `process_bind_insurance_authority`.
use percolator_stake.Prelude.{ℕ, ◌≡◌, [], ◌∷◌, some, arith}
use percolator_stake.Error.{ok, Result, ◌>>=◌, >>=-eq-ok, ok_or-eq-ok}
use percolator_stake.Runtime.{Runtime, Instruction, AccountData}
use percolator_stake.State.{StakePool, Pubkey}
use percolator_stake.SplToken.{signer, writable}
use percolator_stake.Cpi.Authority.{asset_authority_data}
use percolator_stake.Cpi.Authority
use percolator_stake.Processor.Guards.{pool_from_data, derive_vault_authority, call}
use percolator_stake.Processor.Authority.{
  BindAccounts, check_binding, process_bind_insurance_authority, vault_seeds,
}
use percolator_stake.Processor.Authority.Gate.{IsByAdmin}

module _ (R : Runtime) where
  open R use {Ledger, invoke}

  -- The two calls.
  abbrev bind_authority : BindAccounts → (bump : ℕ) → Ledger → Result Ledger
  bind_authority a bump ledger =
      call R ledger
        (Authority.bind_insurance_authority a.percolator_program.key a.admin.key a.vault_auth.key
          a.slab.key)
        (vault_seeds a.pool_pda.key bump)

  abbrev bind_operator : BindAccounts → (bump : ℕ) → Ledger → Result Ledger
  bind_operator a bump ledger =
      call R ledger
        (Authority.bind_insurance_operator a.percolator_program.key a.admin.key a.vault_auth.key
          a.slab.key)
        (vault_seeds a.pool_pda.key bump)

  process_bind-steps :
      (program_id : Pubkey) (a : BindAccounts) (ledger y : Ledger) (p : StakePool)
      → a.pool_pda.content ≡ AccountData.pool_bytes p
      → process_bind_insurance_authority R program_id a ledger ≡ ok y
      → IsByAdmin p a.admin a.slab a.percolator_program
        × ((derive_vault_authority R program_id a.pool_pda.key).0 ≡ a.vault_auth.key)
        × (let bump = (derive_vault_authority R program_id a.pool_pda.key).1 in
            (bind_authority a bump ledger >>= bind_operator a bump) ≡ ok y)
  unfolding process_bind_insurance_authority check_binding pool_from_data
  process_bind-steps program_id a ledger y p held e = (
    record {
      signed = ground arith;
      is_admin = ground arith;
      is_market = ground arith;
      is_wrapper = ground arith;
    },
    ground arith,
    ground arith,
  )

  -- A binding that succeeds needs the pool's admin, and calls the wrapper twice, for the pool's
  -- market, signed by the admin and the pool's vault authority: first the insurance authority (kind
  -- 1), then the insurance operator (kind 2) of asset 0 becomes the vault authority.
  pub bind_gate :
      (program_id : Pubkey) (a : BindAccounts) (ledger y : Ledger) (p : StakePool)
      → a.pool_pda.content ≡ AccountData.pool_bytes p
      → process_bind_insurance_authority R program_id a ledger ≡ ok y
      → let (vault, bump) = derive_vault_authority R program_id a.pool_pda.key in
        let update : ℕ → Instruction = λ kind. record {
          program_id = p.percolator_program;
          accounts = signer p.admin ∷ signer vault ∷ writable p.slab ∷ [];
          data_bytes = asset_authority_data kind vault;
        } in
        (between : Ledger) × IsByAdmin p a.admin a.slab a.percolator_program
        × (invoke ledger (update 1) (vault_seeds a.pool_pda.key bump) ≡ some between)
        × (invoke between (update 2) (vault_seeds a.pool_pda.key bump) ≡ some y)
  unfolding Authority.bind_insurance_authority Authority.bind_insurance_operator
  bind_gate program_id a ledger y p held e =
      let (by_admin, vault, calls) = process_bind-steps program_id a ledger y p held e in
      let bump = (derive_vault_authority R program_id a.pool_pda.key).1 in
      let (between, first, second) =
        >>=-eq-ok (bind_authority a bump ledger) (bind_operator a bump) y calls in
      (
        between,
        by_admin,
        rw (by_admin.is_market, by_admin.is_wrapper, by_admin.is_admin, vault)
            (ok_or-eq-ok _ _ between first),
        rw (by_admin.is_market, by_admin.is_wrapper, by_admin.is_admin, vault)
            (ok_or-eq-ok _ _ y second),
      )
