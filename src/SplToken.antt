-- ===== src/SplToken.antt =====
-- The instruction builders of src/spl_token.rs.
pub mod State
use percolator_stake.Prelude.{ℕ, true, false, Option, none, some, List, [], ◌∷◌, ◌++◌}
use percolator_stake.State.{Pubkey}
use percolator_stake.Bytes.{to_le_bytes}
use percolator_stake.Runtime.{AccountMeta, Instruction}

-- `AccountMeta::new` and `AccountMeta::new_readonly`
abbrev pub writable : Pubkey → AccountMeta
writable k = record { pubkey = k; is_signer = false; is_writable = true }

abbrev pub signer : Pubkey → AccountMeta
signer k = record { pubkey = k; is_signer = true; is_writable = false }

abbrev pub readonly : Pubkey → AccountMeta
readonly k = record { pubkey = k; is_signer = false; is_writable = false }

module _ (id : Pubkey) where
  unfoldable pub transfer : (source dest authority : Pubkey) → (amount : ℕ) → Instruction
  transfer source dest authority amount = record {
    program_id = id;
    accounts = writable source ∷ writable dest ∷ signer authority ∷ [];
    data_bytes = 3 ∷ to_le_bytes 8 amount;
  }

  unfoldable pub mint_to : (mint destination authority : Pubkey) → (amount : ℕ) → Instruction
  mint_to mint destination authority amount = record {
    program_id = id;
    accounts = writable mint ∷ writable destination ∷ signer authority ∷ [];
    data_bytes = 7 ∷ to_le_bytes 8 amount;
  }

  unfoldable pub burn : (account mint authority : Pubkey) → (amount : ℕ) → Instruction
  burn account mint authority amount = record {
    program_id = id;
    accounts = writable account ∷ writable mint ∷ signer authority ∷ [];
    data_bytes = 8 ∷ to_le_bytes 8 amount;
  }

-- `sysvar::rent::id()` is the runtime's.
module _ (id rent_id : Pubkey) where
  -- The optional freeze authority is a flag byte, with the key behind it where there is one.
  unfoldable pub initialize_mint :
      (mint mint_authority : Pubkey)
      → (freeze_authority : Option Pubkey) → (decimals : ℕ) → Instruction
  initialize_mint mint mint_authority freeze_authority decimals = record {
    program_id = id;
    accounts = writable mint ∷ readonly rent_id ∷ [];
    data_bytes = 0 ∷ decimals ∷ (to_le_bytes 32 mint_authority ++ freeze freeze_authority);
  }
    where
      freeze : Option Pubkey → List ℕ
      freeze none = 0 ∷ []
      freeze (some auth) = 1 ∷ to_le_bytes 32 auth

  unfoldable pub initialize_account : (account mint owner : Pubkey) → Instruction
  initialize_account account mint owner = record {
    program_id = id;
    accounts = writable account ∷ readonly mint ∷ readonly owner ∷ readonly rent_id ∷ [];
    data_bytes = 1 ∷ [];
  }
