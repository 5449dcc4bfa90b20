-- ===== src/Processor/Authority/Gate.antt =====
-- Who may hand the wrapper's authorities on: src/processor.rs, the checks of the handlers of
-- Processor/Authority before they call the wrapper.
use percolator_stake.Prelude.{ℕ, ◌≡◌, ◌⊎◌, inl, inr, true, [], ◌∷◌, some, arith}
use percolator_stake.Error.{ok, >>=-eq-ok, ok_or-eq-ok}
use percolator_stake.Runtime.{Runtime, AccountInfo, AccountData}
use percolator_stake.State.{StakePool, Pubkey}
use percolator_stake.SplToken.{signer, writable}
use percolator_stake.Cpi.Authority.{asset_authority_data}
use percolator_stake.Cpi.Authority
use percolator_stake.Processor.Guards.{pool_from_data, derive_vault_authority}
use percolator_stake.Processor.Authority.{
  RotateAccounts, check_binding, check_rotation, process_rotate_insurance_operator,
  process_rotate_insurance_authority, vault_seeds,
}

-- The admin of the pool `p` has signed, and the market and the wrapper are those of the pool.
pub record IsByAdmin (p : StakePool) (admin slab percolator_program : AccountInfo) : Type 0 where
  pub signed : admin.is_signer ≡ true
  pub is_admin : p.admin ≡ admin.key
  pub is_market : p.slab ≡ slab.key
  pub is_wrapper : p.percolator_program ≡ percolator_program.key

module _ (R : Runtime) where
  open R use {Ledger, invoke}

  check_rotation-reads :
      (program_id : Pubkey) (c : RotateAccounts) (p : StakePool) (bump : ℕ)
      → c.bound.pool_pda.content ≡ AccountData.pool_bytes p
      → check_rotation R program_id c ≡ ok bump
      → IsByAdmin p c.bound.admin c.bound.slab c.bound.percolator_program
        × (c.new_target.is_signer ≡ true)
        × ¬ (p.asset_admin_burned_byte ≡ 1)
        × (derive_vault_authority R program_id c.bound.pool_pda.key
            ≡ (c.bound.vault_auth.key, bump))
  unfolding check_rotation check_binding pool_from_data
  check_rotation-reads program_id c p bump held e = (
    record {
      signed = ground arith;
      is_admin = ground arith;
      is_market = ground arith;
      is_wrapper = ground arith;
    },
    ground arith,
    (λ h. ground arith),
    ground arith,
  )

  -- A rotation of the insurance operator (kind 2) or of the insurance authority (kind 1) that
  -- succeeds needs the signatures of the pool's admin and of the new key and an asset admin that
  -- was not burnt; it calls the wrapper once, for the pool's market, signed by the pool's vault
  -- authority, with tag 65, asset 0, the kind and the new key.
  pub rotation_gate :
      (program_id : Pubkey) (c : RotateAccounts) (ledger y : Ledger) (p : StakePool) (kind : ℕ)
      → c.bound.pool_pda.content ≡ AccountData.pool_bytes p
      → (kind ≡ 2) × (process_rotate_insurance_operator R program_id c ledger ≡ ok y)
        ⊎ (kind ≡ 1) × (process_rotate_insurance_authority R program_id c ledger ≡ ok y)
      → (bump : ℕ) × IsByAdmin p c.bound.admin c.bound.slab c.bound.percolator_program
        × (c.new_target.is_signer ≡ true)
        × ¬ (p.asset_admin_burned_byte ≡ 1)
        × (derive_vault_authority R program_id c.bound.pool_pda.key
            ≡ (c.bound.vault_auth.key, bump))
        × (invoke ledger
              (record {
                program_id = p.percolator_program;
                accounts =
                    signer c.bound.vault_auth.key ∷ signer c.new_target.key ∷ writable p.slab ∷ [];
                data_bytes = asset_authority_data kind c.new_target.key;
              })
              (vault_seeds c.bound.pool_pda.key bump)
            ≡ some y)
  unfolding process_rotate_insurance_operator process_rotate_insurance_authority
      Authority.rotate_insurance_operator Authority.rotate_insurance_authority
  rotation_gate program_id c ledger y p kind held (inl (k, e)) =
      let (bump, checked, called) = >>=-eq-ok (check_rotation R program_id c) _ y e in
      let (by_admin, new, clear, vault) = check_rotation-reads program_id c p bump held checked in
      (
        bump,
        by_admin,
        new,
        clear,
        vault,
        rw (by_admin.is_market, by_admin.is_wrapper, k) (ok_or-eq-ok _ _ y called),
      )
  rotation_gate program_id c ledger y p kind held (inr (k, e)) =
      let (bump, checked, called) = >>=-eq-ok (check_rotation R program_id c) _ y e in
      let (by_admin, new, clear, vault) = check_rotation-reads program_id c p bump held checked in
      (
        bump,
        by_admin,
        new,
        clear,
        vault,
        rw (by_admin.is_market, by_admin.is_wrapper, k) (ok_or-eq-ok _ _ y called),
      )
