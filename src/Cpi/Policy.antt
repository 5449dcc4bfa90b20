-- ===== src/Cpi/Policy.antt =====
-- The wrapper instructions of src/cpi.rs that set fees.
use percolator_stake.Prelude.{ℕ, List, [], ◌∷◌, ◌++◌}
use percolator_stake.State.{Pubkey}
use percolator_stake.Bytes.{to_le_bytes}
use percolator_stake.Runtime.{AccountMeta, Instruction}
use percolator_stake.SplToken.{writable, signer}

-- The accounts of all four: the authority that signs, and the market.
abbrev pub authority_and_market : (authority market : Pubkey) → List AccountMeta
authority_and_market authority market = signer authority ∷ writable market ∷ []

-- Tag 86 and three u16.
unfoldable pub update_fee_split :
    (percolator_program pool_pda slab : Pubkey)
    → (creator_share_bps lp_share_bps insurance_share_bps : ℕ) → Instruction
update_fee_split percolator_program pool_pda slab creator_share_bps lp_share_bps
      insurance_share_bps =
    record {
      program_id = percolator_program;
      accounts = authority_and_market pool_pda slab;
      data_bytes =
          86
          ∷ (to_le_bytes 2 creator_share_bps
              ++ (to_le_bytes 2 lp_share_bps ++ to_le_bytes 2 insurance_share_bps));
    }

-- Tag 88 and a u128.
unfoldable pub update_maintenance_fee_per_slot :
    (percolator_program pool_pda slab : Pubkey) → (maintenance_fee_per_slot : ℕ) → Instruction
update_maintenance_fee_per_slot percolator_program pool_pda slab maintenance_fee_per_slot = record {
  program_id = percolator_program;
  accounts = authority_and_market pool_pda slab;
  data_bytes = 88 ∷ to_le_bytes 16 maintenance_fee_per_slot;
}

-- Tag 51 and three u16.
unfoldable pub update_backing_fee_policy :
    (percolator_program vault_auth slab : Pubkey)
    → (domain fee_bps insurance_share_bps : ℕ) → Instruction
update_backing_fee_policy percolator_program vault_auth slab domain fee_bps insurance_share_bps =
    record {
      program_id = percolator_program;
      accounts = authority_and_market vault_auth slab;
      data_bytes =
          51
          ∷ (to_le_bytes 2 domain ++ (to_le_bytes 2 fee_bps ++ to_le_bytes 2 insurance_share_bps));
    }

-- Tag 55 and a u64.
unfoldable pub update_trade_fee_policy :
    (percolator_program vault_auth slab : Pubkey) → (trade_fee_base_bps : ℕ) → Instruction
update_trade_fee_policy percolator_program vault_auth slab trade_fee_base_bps = record {
  program_id = percolator_program;
  accounts = authority_and_market vault_auth slab;
  data_bytes = 55 ∷ to_le_bytes 8 trade_fee_base_bps;
}
