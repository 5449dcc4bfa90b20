-- ===== src/Tests/Wire.antt =====
-- Instructions and the state of a pool as bytes.
use percolator_stake.Prelude.{ℕ, ◌≡◌, refl, suc, List, [], ◌∷◌, some, none, arith}
use percolator_stake.Error.{ok}
use percolator_stake.Bytes.{length, to_le_bytes, from_le_bytes}
use percolator_stake.Instruction.{unpack, unpack_payload, update_config, deposit}
use percolator_stake.State.Layout.Fields.{
  Update, decode, update_bytes, update_fields, decode-update,
}
use percolator_stake.Instruction.Pack.{pack, payload_length, unpack-pack, unpack-length}

unpack-pack_example :
    unpack (pack (update_config (some 600) none)) ≡ ok (update_config (some 600) none)
unpack-pack_example = unpack-pack (update_config (some 600) none) (omega arith, tt)

-- 513 as a u64 behind tag 1.
abbrev deposit_bytes : List ℕ
deposit_bytes = 1 ∷ 1 ∷ 2 ∷ 0 ∷ 0 ∷ 0 ∷ 0 ∷ 0 ∷ 0 ∷ []

unpack-length_example : length deposit_bytes ≡ suc (payload_length (deposit 513))
unfolding unpack unpack_payload from_le_bytes
unpack-length_example = unpack-length deposit_bytes (deposit 513) refl

-- 64 zero bytes, of which the floor becomes 5000.
decode-update_example :
    decode (update_bytes (Update.hwm_floor 5_000) (to_le_bytes 64 0))
    ≡ update_fields (Update.hwm_floor 5_000) (decode (to_le_bytes 64 0))
unfolding to_le_bytes
decode-update_example = decode-update (Update.hwm_floor 5_000) (to_le_bytes 64 0) refl (omega arith)
