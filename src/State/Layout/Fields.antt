-- ===== src/State/Layout/Fields.antt =====
-- No two fields of `_reserved` share a byte: on 64 bytes, each setter of `impl StakePool` in
-- src/state.rs is the update of one field of a record, and leaves the others alone.
use percolator_stake.Prelude.{
  ℕ, zero, suc, ◌≤◌, ◌≡◌, refl, ap, sym, ◌∙◌, Bool, true, false, List, [], ◌∷◌, u16_max, u64_max,
  arith,
}
use percolator_stake.Bytes.{to_le_bytes, from_le_bytes, from_le_bytes-to_le_bytes, length, slice}
use percolator_stake.State.Layout
use percolator_stake.State.Layout.{write}

-- What the 64 bytes stand for, each in one field; `padding` and `spare` are used by no accessor.
pub record Fields : Type 0 where
  pub discriminator : ℕ
  pub version : ℕ
  pub market_resolved : Bool
  pub hwm_enabled : Bool
  pub hwm_floor_bps : ℕ
  pub padding : ℕ
  pub epoch_high_water_tvl : ℕ
  pub hwm_last_epoch : ℕ
  pub tranche_enabled : Bool
  pub junior_balance : ℕ
  pub junior_total_lp : ℕ
  pub junior_fee_mult_bps : ℕ
  pub realized_junior_loss : ℕ
  pub asset_admin_burned : Bool
  pub spare : ℕ

unfoldable pub decode : List ℕ → Fields
decode bytes = record {
  discriminator = slice 0 8 bytes;
  version = Layout.version bytes;
  market_resolved = Layout.market_resolved bytes;
  hwm_enabled = Layout.hwm_enabled bytes;
  hwm_floor_bps = Layout.hwm_floor_bps bytes;
  padding = slice 13 16 bytes;
  epoch_high_water_tvl = Layout.epoch_high_water_tvl bytes;
  hwm_last_epoch = Layout.hwm_last_epoch bytes;
  tranche_enabled = Layout.tranche_enabled bytes;
  junior_balance = Layout.junior_balance bytes;
  junior_total_lp = Layout.junior_total_lp bytes;
  junior_fee_mult_bps = Layout.junior_fee_mult_bps bytes;
  realized_junior_loss = Layout.realized_junior_loss bytes;
  asset_admin_burned = Layout.asset_admin_burned bytes;
  spare = slice 60 64 bytes;
}

-- A call of a setter.
pub data Update : Type 0 where
  discriminated : Update
  resolved : Bool → Update
  hwm : Bool → Update
  hwm_floor : ℕ → Update
  hwm_mark : ℕ → Update
  hwm_epoch : ℕ → Update
  tranche : Bool → Update
  jr_balance : ℕ → Update
  jr_lp : ℕ → Update
  jr_mult : ℕ → Update
  jr_loss : ℕ → Update
  burned : Bool → Update

-- The value fits the integer type that the setter takes.
abbrev pub Fits : Update → Type 0
Fits (Update.hwm_floor v) = v ≤ u16_max
Fits (Update.hwm_mark v) = v ≤ u64_max
Fits (Update.hwm_epoch v) = v ≤ u64_max
Fits (Update.jr_balance v) = v ≤ u64_max
Fits (Update.jr_lp v) = v ≤ u64_max
Fits (Update.jr_mult v) = v ≤ u16_max
Fits (Update.jr_loss v) = v ≤ u64_max
Fits _ = Unit

unfoldable pub update_bytes : Update → List ℕ → List ℕ
update_bytes Update.discriminated = Layout.set_discriminator
update_bytes (Update.resolved v) = Layout.set_market_resolved v
update_bytes (Update.hwm v) = Layout.set_hwm_enabled v
update_bytes (Update.hwm_floor v) = Layout.set_hwm_floor_bps v
update_bytes (Update.hwm_mark v) = Layout.set_epoch_high_water_tvl v
update_bytes (Update.hwm_epoch v) = Layout.set_hwm_last_epoch v
update_bytes (Update.tranche v) = Layout.set_tranche_enabled v
update_bytes (Update.jr_balance v) = Layout.set_junior_balance v
update_bytes (Update.jr_lp v) = Layout.set_junior_total_lp v
update_bytes (Update.jr_mult v) = Layout.set_junior_fee_mult_bps v
update_bytes (Update.jr_loss v) = Layout.set_realized_junior_loss v
update_bytes (Update.burned v) = Layout.set_asset_admin_burned v

unfoldable pub update_fields : Update → Fields → Fields
update_fields Update.discriminated s = record s {
  discriminator = from_le_bytes (83 ∷ 80 ∷ 79 ∷ 79 ∷ 76 ∷ 95 ∷ 86 ∷ 49 ∷ []);
  version = 4;
}
update_fields (Update.resolved v) s = record s { market_resolved = v }
update_fields (Update.hwm v) s = record s { hwm_enabled = v }
update_fields (Update.hwm_floor v) s = record s { hwm_floor_bps = v }
update_fields (Update.hwm_mark v) s = record s { epoch_high_water_tvl = v }
update_fields (Update.hwm_epoch v) s = record s { hwm_last_epoch = v }
update_fields (Update.tranche v) s = record s { tranche_enabled = v }
update_fields (Update.jr_balance v) s = record s { junior_balance = v }
update_fields (Update.jr_lp v) s = record s { junior_total_lp = v }
update_fields (Update.jr_mult v) s = record s { junior_fee_mult_bps = v }
update_fields (Update.jr_loss v) s = record s { realized_junior_loss = v }
update_fields (Update.burned v) s = record s { asset_admin_burned = v }

-- A list from the values at its indices.
tabulate : ℕ → (ℕ → ℕ) → List ℕ
tabulate zero f = []
tabulate (suc n) f = f 0 ∷ tabulate n (λ i. f (suc i))

at : List ℕ → ℕ → ℕ
at [] i = 0
at (b ∷ bytes) zero = b
at (b ∷ bytes) (suc i) = at bytes i

tabulate-at : (bytes : List ℕ) → tabulate (length bytes) (at bytes) ≡ bytes
unfolding tabulate at
tabulate-at [] = refl
tabulate-at (b ∷ bytes) = ap (λ x. b ∷ x) (tabulate-at bytes)

-- On bytes that are written out the accessors compute.
tabulated :
    (u : Update) (f : ℕ → ℕ)
    → Fits u
    → decode (update_bytes u (tabulate 64 f)) ≡ update_fields u (decode (tabulate 64 f))
unfolding tabulate decode update_bytes update_fields write to_le_bytes from_le_bytes
    Layout.set_discriminator Layout.version Layout.market_resolved Layout.set_market_resolved
    Layout.hwm_enabled Layout.set_hwm_enabled Layout.hwm_floor_bps Layout.set_hwm_floor_bps
    Layout.epoch_high_water_tvl Layout.set_epoch_high_water_tvl Layout.hwm_last_epoch
    Layout.set_hwm_last_epoch Layout.tranche_enabled Layout.set_tranche_enabled
    Layout.junior_balance Layout.set_junior_balance Layout.junior_total_lp
    Layout.set_junior_total_lp Layout.junior_fee_mult_bps Layout.set_junior_fee_mult_bps
    Layout.realized_junior_loss Layout.set_realized_junior_loss Layout.asset_admin_burned
    Layout.set_asset_admin_burned
tabulated Update.discriminated f h = refl
tabulated (Update.resolved true) f h = refl
tabulated (Update.resolved false) f h = refl
tabulated (Update.hwm true) f h = refl
tabulated (Update.hwm false) f h = refl
tabulated (Update.hwm_floor v) f h =
    ap (λ x. record (decode (tabulate 64 f)) { hwm_floor_bps = x })
      (from_le_bytes-to_le_bytes 2 v (omega arith))
tabulated (Update.hwm_mark v) f h =
    ap (λ x. record (decode (tabulate 64 f)) { epoch_high_water_tvl = x })
      (from_le_bytes-to_le_bytes 8 v (omega arith))
tabulated (Update.hwm_epoch v) f h =
    ap (λ x. record (decode (tabulate 64 f)) { hwm_last_epoch = x })
      (from_le_bytes-to_le_bytes 8 v (omega arith))
tabulated (Update.tranche true) f h = refl
tabulated (Update.tranche false) f h = refl
tabulated (Update.jr_balance v) f h =
    ap (λ x. record (decode (tabulate 64 f)) { junior_balance = x })
      (from_le_bytes-to_le_bytes 8 v (omega arith))
tabulated (Update.jr_lp v) f h =
    ap (λ x. record (decode (tabulate 64 f)) { junior_total_lp = x })
      (from_le_bytes-to_le_bytes 8 v (omega arith))
tabulated (Update.jr_mult v) f h =
    ap (λ x. record (decode (tabulate 64 f)) { junior_fee_mult_bps = x })
      (from_le_bytes-to_le_bytes 2 v (omega arith))
tabulated (Update.jr_loss v) f h =
    ap (λ x. record (decode (tabulate 64 f)) { realized_junior_loss = x })
      (from_le_bytes-to_le_bytes 8 v (omega arith))
tabulated (Update.burned true) f h = refl
tabulated (Update.burned false) f h = refl

-- On 64 bytes, each setter of the state in _reserved, the one of the discriminator with the version
-- included, writes its value and leaves every other field as it was, the discriminator, the version
-- and the bytes that no accessor reads among them: what the bytes stand for afterwards is the
-- record update.
pub decode-update :
    (u : Update) (bytes : List ℕ)
    → length bytes ≡ 64
    → Fits u
    → decode (update_bytes u bytes) ≡ update_fields u (decode bytes)
decode-update u bytes size fits =
    let same : tabulate 64 (at bytes) ≡ bytes =
      ap (λ n. tabulate n (at bytes)) (sym size) ∙ tabulate-at bytes in
    rw (← same) (tabulated u (at bytes) fits)
