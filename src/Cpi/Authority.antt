-- ===== src/Cpi/Authority.antt =====
-- The wrapper instructions of src/cpi.rs that move authorities.
use percolator_stake.Prelude.{ℕ, List, [], ◌∷◌, ◌++◌}
use percolator_stake.State.{Pubkey}
use percolator_stake.Bytes.{to_le_bytes}
use percolator_stake.Runtime.{Instruction}
use percolator_stake.SplToken.{writable, signer, readonly}

-- The kinds of `UpdateAssetAuthority`.
abbrev pub asset_auth_admin : ℕ
asset_auth_admin = 0

abbrev pub asset_auth_insurance : ℕ
asset_auth_insurance = 1

abbrev pub asset_auth_insurance_operator : ℕ
asset_auth_insurance_operator = 2

-- The instruction of `cpi_update_authority`: tag 32 and the new authority.
unfoldable pub update_authority :
    (percolator_program current_admin new_authority slab : Pubkey) → Instruction
update_authority percolator_program current_admin new_authority slab = record {
  program_id = percolator_program;
  accounts = signer current_admin ∷ signer new_authority ∷ writable slab ∷ [];
  data_bytes = 32 ∷ to_le_bytes 32 new_authority;
}

-- The data of the instructions below: tag 65, asset 0, the kind and the new key.
abbrev pub asset_authority_data : (kind : ℕ) → Pubkey → List ℕ
asset_authority_data kind new_pubkey = 65 ∷ (to_le_bytes 2 0 ++ (kind ∷ to_le_bytes 32 new_pubkey))

unfoldable pub bind_insurance_authority :
    (percolator_program admin vault_auth market : Pubkey) → Instruction
bind_insurance_authority percolator_program admin vault_auth market = record {
  program_id = percolator_program;
  accounts = signer admin ∷ signer vault_auth ∷ writable market ∷ [];
  data_bytes = asset_authority_data asset_auth_insurance vault_auth;
}

unfoldable pub bind_insurance_operator :
    (percolator_program admin vault_auth market : Pubkey) → Instruction
bind_insurance_operator percolator_program admin vault_auth market = record {
  program_id = percolator_program;
  accounts = signer admin ∷ signer vault_auth ∷ writable market ∷ [];
  data_bytes = asset_authority_data asset_auth_insurance_operator vault_auth;
}

-- The new key is 32 zero bytes, and the vault authority only fills its place.
unfoldable pub burn_asset_admin :
    (percolator_program admin vault_auth market : Pubkey) → Instruction
burn_asset_admin percolator_program admin vault_auth market = record {
  program_id = percolator_program;
  accounts = signer admin ∷ readonly vault_auth ∷ writable market ∷ [];
  data_bytes = asset_authority_data asset_auth_admin 0;
}

unfoldable pub rotate_insurance_operator :
    (percolator_program vault_auth new_target market : Pubkey) → Instruction
rotate_insurance_operator percolator_program vault_auth new_target market = record {
  program_id = percolator_program;
  accounts = signer vault_auth ∷ signer new_target ∷ writable market ∷ [];
  data_bytes = asset_authority_data asset_auth_insurance_operator new_target;
}

unfoldable pub rotate_insurance_authority :
    (percolator_program vault_auth new_target market : Pubkey) → Instruction
rotate_insurance_authority percolator_program vault_auth new_target market = record {
  program_id = percolator_program;
  accounts = signer vault_auth ∷ signer new_target ∷ writable market ∷ [];
  data_bytes = asset_authority_data asset_auth_insurance new_target;
}
