-- ===== src/Cpi.antt =====
-- The wrapper instructions of src/cpi.rs: those that move insurance and resolve the market here,
-- the others in the child modules.
pub mod Authority
pub mod Policy
use percolator_stake.Prelude.{ℕ, [], ◌∷◌, ◌++◌}
use percolator_stake.State.{Pubkey}
use percolator_stake.Bytes.{to_le_bytes}
use percolator_stake.Runtime.{Instruction}
use percolator_stake.SplToken.{writable, signer, readonly}

-- The instruction of `cpi_top_up_insurance`: tag 9 and the amount as u128.
unfoldable pub top_up_insurance :
    (percolator_program signer_key slab signer_ata wrapper_vault token_program : Pubkey)
    → (amount : ℕ) → Instruction
top_up_insurance percolator_program signer_key slab signer_ata wrapper_vault token_program amount =
    record {
      program_id = percolator_program;
      accounts =
          signer signer_key
          ∷ writable slab
          ∷ writable signer_ata
          ∷ writable wrapper_vault
          ∷ readonly token_program
          ∷ [];
      data_bytes = 9 ∷ to_le_bytes 16 amount;
    }

-- The instruction of `cpi_withdraw_insurance_asset`: tag 57, asset 0 and the amount as u128.
unfoldable pub withdraw_insurance_asset :
    (percolator_program vault_auth market dest_token wrapper_vault : Pubkey)
    → (wrapper_vault_auth token_program : Pubkey) → (amount : ℕ) → Instruction
withdraw_insurance_asset percolator_program vault_auth market dest_token wrapper_vault
      wrapper_vault_auth token_program amount =
    record {
      program_id = percolator_program;
      accounts =
          signer vault_auth
          ∷ writable market
          ∷ writable dest_token
          ∷ writable wrapper_vault
          ∷ readonly wrapper_vault_auth
          ∷ readonly token_program
          ∷ [];
      data_bytes = 57 ∷ (to_le_bytes 2 0 ++ to_le_bytes 16 amount);
    }

-- The instruction of `cpi_resolve_market`: tag 19.
unfoldable pub resolve_market : (percolator_program pool_pda slab : Pubkey) → Instruction
resolve_market percolator_program pool_pda slab = record {
  program_id = percolator_program;
  accounts = signer pool_pda ∷ writable slab ∷ [];
  data_bytes = 19 ∷ [];
}
