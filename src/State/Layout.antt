-- ===== src/State/Layout.antt =====
-- Where the state of a pool lies in the 64 bytes of `_reserved`: the accessors of `impl StakePool`
-- in src/state.rs, on the bytes. State.Pool has the same values as fields of a record.
pub mod Fields
use percolator_stake.Prelude.{
  ℕ, zero, suc, ◌+◌, ◌-◌, ◌≤◌, ◌<◌, ◌^◌, ◌≡◌, ◌⊎◌, refl, ap, Bool, true, false, not, List, [], ◌∷◌,
  ◌++◌, ◌==◌, arith,
}
use percolator_stake.Bytes.{
  to_le_bytes, from_le_bytes, from_le_bytes-to_le_bytes, length, take, drop, slice,
}
use percolator_stake.State.{flag, current_version}

-- `bytes[first..].copy_from_slice(value)` on the bytes that `value` is as long as.
unfoldable pub write : (first : ℕ) → (value bytes : List ℕ) → List ℕ
write zero [] bytes = bytes
write zero (v ∷ value) [] = []
write zero (v ∷ value) (b ∷ bytes) = v ∷ write zero value bytes
write (suc first) value [] = []
write (suc first) value (b ∷ bytes) = b ∷ write first value bytes

abbrev byte : ℕ → List ℕ → ℕ
byte i reserved = slice i (i + 1) reserved

abbrev set_byte : ℕ → (value : ℕ) → List ℕ → List ℕ
set_byte i value reserved = write i (value ∷ []) reserved

-- The discriminator is compared as 8 bytes.
abbrev discriminator_bytes : List ℕ
discriminator_bytes = 83 ∷ 80 ∷ 79 ∷ 79 ∷ 76 ∷ 95 ∷ 86 ∷ 49 ∷ []

unfoldable pub set_discriminator : List ℕ → List ℕ
set_discriminator reserved = set_byte 8 current_version (write 0 discriminator_bytes reserved)

unfoldable pub validate_discriminator : List ℕ → Bool
validate_discriminator reserved = slice 0 8 reserved == from_le_bytes discriminator_bytes

unfoldable pub version : List ℕ → ℕ
version reserved = byte 8 reserved

unfoldable pub market_resolved : List ℕ → Bool
market_resolved reserved = not (byte 9 reserved == 0)

unfoldable pub set_market_resolved : Bool → List ℕ → List ℕ
set_market_resolved resolved reserved = set_byte 9 (flag resolved) reserved

unfoldable pub hwm_enabled : List ℕ → Bool
hwm_enabled reserved = byte 10 reserved == 1

unfoldable pub set_hwm_enabled : Bool → List ℕ → List ℕ
set_hwm_enabled enabled reserved = set_byte 10 (flag enabled) reserved

unfoldable pub hwm_floor_bps : List ℕ → ℕ
hwm_floor_bps reserved = slice 11 13 reserved

unfoldable pub set_hwm_floor_bps : ℕ → List ℕ → List ℕ
set_hwm_floor_bps bps reserved = write 11 (to_le_bytes 2 bps) reserved

unfoldable pub epoch_high_water_tvl : List ℕ → ℕ
epoch_high_water_tvl reserved = slice 16 24 reserved

unfoldable pub set_epoch_high_water_tvl : ℕ → List ℕ → List ℕ
set_epoch_high_water_tvl tvl reserved = write 16 (to_le_bytes 8 tvl) reserved

unfoldable pub hwm_last_epoch : List ℕ → ℕ
hwm_last_epoch reserved = slice 24 32 reserved

unfoldable pub set_hwm_last_epoch : ℕ → List ℕ → List ℕ
set_hwm_last_epoch epoch reserved = write 24 (to_le_bytes 8 epoch) reserved

unfoldable pub tranche_enabled : List ℕ → Bool
tranche_enabled reserved = byte 32 reserved == 1

unfoldable pub set_tranche_enabled : Bool → List ℕ → List ℕ
set_tranche_enabled enabled reserved = set_byte 32 (flag enabled) reserved

unfoldable pub junior_balance : List ℕ → ℕ
junior_balance reserved = slice 33 41 reserved

unfoldable pub set_junior_balance : ℕ → List ℕ → List ℕ
set_junior_balance val reserved = write 33 (to_le_bytes 8 val) reserved

unfoldable pub junior_total_lp : List ℕ → ℕ
junior_total_lp reserved = slice 41 49 reserved

unfoldable pub set_junior_total_lp : ℕ → List ℕ → List ℕ
set_junior_total_lp val reserved = write 41 (to_le_bytes 8 val) reserved

unfoldable pub junior_fee_mult_bps : List ℕ → ℕ
junior_fee_mult_bps reserved = slice 49 51 reserved

unfoldable pub set_junior_fee_mult_bps : ℕ → List ℕ → List ℕ
set_junior_fee_mult_bps val reserved = write 49 (to_le_bytes 2 val) reserved

unfoldable pub realized_junior_loss : List ℕ → ℕ
realized_junior_loss reserved = slice 51 59 reserved

unfoldable pub set_realized_junior_loss : ℕ → List ℕ → List ℕ
set_realized_junior_loss val reserved = write 51 (to_le_bytes 8 val) reserved

unfoldable pub asset_admin_burned : List ℕ → Bool
asset_admin_burned reserved = byte 59 reserved == 1

unfoldable pub set_asset_admin_burned : Bool → List ℕ → List ℕ
set_asset_admin_burned burned reserved = set_byte 59 (flag burned) reserved
