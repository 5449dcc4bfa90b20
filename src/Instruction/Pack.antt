-- ===== src/Instruction/Pack.antt =====
-- The wire format that the comments of src/instruction.rs give for each instruction, as an encoder,
-- and what `unpack` makes of it.
use mathlib.Core.Path.{ap₂}
use percolator_stake.Prelude.{
  ℕ, suc, ◌≡◌, ◌≤◌, refl, ap, true, false, Option, none, some, List, [], ◌∷◌, ◌++◌, ◌==◌,
  if◌then◌else◌, u16_max, u64_max, u128_max, arith, ◌<◌, ◌^◌,
}
use percolator_stake.Error.{Result, ok}
use percolator_stake.Bytes.{to_le_bytes, from_le_bytes, from_le_bytes-to_le_bytes, length}
use percolator_stake.State.{flag}
use percolator_stake.Instruction.{
  StakeInstruction, unpack, unpack_payload, unpack_admin, unpack_proxy, sized, init_pool,
  init_trading_pool, deposit, deposit_junior, flush_to_insurance, return_insurance,
  recover_flushed_insurance, withdraw, bind_insurance_authority, rotate_insurance_authority,
  burn_asset_admin, rotate_insurance_operator, update_config, propose_admin, accept_admin,
  commit_cooldown_increase, cancel_cooldown_increase, propose_cooldown_increase, accrue_fees,
  set_market_resolved, admin_resolve_market, admin_set_hwm_config, admin_set_tranche_config,
  admin_update_fee_split, admin_update_maintenance_fee_per_slot, admin_update_backing_fee_policy,
  admin_update_trade_fee_policy,
}

-- An optional u64: a flag byte and eight bytes, which are 0 where there is no value.
abbrev optional : Option ℕ → List ℕ
optional none = 0 ∷ to_le_bytes 8 0
optional (some x) = 1 ∷ to_le_bytes 8 x

unfoldable pub pack : StakeInstruction → List ℕ
pack (init_pool c d) = 0 ∷ (to_le_bytes 8 c ++ to_le_bytes 8 d)
pack (deposit a) = 1 ∷ to_le_bytes 8 a
pack (withdraw a) = 2 ∷ to_le_bytes 8 a
pack (flush_to_insurance a) = 3 ∷ to_le_bytes 8 a
pack (update_config c d) = 4 ∷ (optional c ++ optional d)
pack (propose_admin k) = 5 ∷ to_le_bytes 32 k
pack accept_admin = 6 ∷ []
pack (propose_cooldown_increase c) = 7 ∷ to_le_bytes 8 c
pack commit_cooldown_increase = 8 ∷ []
pack cancel_cooldown_increase = 9 ∷ []
pack (return_insurance a) = 10 ∷ to_le_bytes 8 a
pack accrue_fees = 12 ∷ []
pack (init_trading_pool c d) = 13 ∷ (to_le_bytes 8 c ++ to_le_bytes 8 d)
pack (admin_set_hwm_config e b) = 14 ∷ flag e ∷ to_le_bytes 2 b
pack (admin_set_tranche_config m) = 15 ∷ to_le_bytes 2 m
pack (deposit_junior a) = 16 ∷ to_le_bytes 8 a
pack set_market_resolved = 18 ∷ []
pack bind_insurance_authority = 19 ∷ []
pack rotate_insurance_authority = 20 ∷ []
pack burn_asset_admin = 21 ∷ []
pack rotate_insurance_operator = 22 ∷ []
pack (recover_flushed_insurance a) = 23 ∷ to_le_bytes 8 a
pack admin_resolve_market = 24 ∷ []
pack (admin_update_fee_split c l i) = 25 ∷ (to_le_bytes 2 c ++ (to_le_bytes 2 l ++ to_le_bytes 2 i))
pack (admin_update_maintenance_fee_per_slot m) = 26 ∷ to_le_bytes 16 m
pack (admin_update_backing_fee_policy d f i) =
    27 ∷ (to_le_bytes 2 d ++ (to_le_bytes 2 f ++ to_le_bytes 2 i))
pack (admin_update_trade_fee_policy b) = 28 ∷ to_le_bytes 8 b

abbrev Fits : Option ℕ → Type 0
Fits none = Unit
Fits (some x) = x ≤ u64_max

-- Every argument fits its machine integer, and a key its 32 bytes.
abbrev pub IsWire : StakeInstruction → Type 0
IsWire (init_pool c d) = (c ≤ u64_max) × (d ≤ u64_max)
IsWire (init_trading_pool c d) = (c ≤ u64_max) × (d ≤ u64_max)
IsWire (deposit a) = a ≤ u64_max
IsWire (deposit_junior a) = a ≤ u64_max
IsWire (withdraw a) = a ≤ u64_max
IsWire (flush_to_insurance a) = a ≤ u64_max
IsWire (return_insurance a) = a ≤ u64_max
IsWire (recover_flushed_insurance a) = a ≤ u64_max
IsWire (update_config c d) = Fits c × Fits d
IsWire (propose_admin k) = k < 256 ^ 32
IsWire (propose_cooldown_increase c) = c ≤ u64_max
IsWire (admin_set_hwm_config e b) = b ≤ u16_max
IsWire (admin_set_tranche_config m) = m ≤ u16_max
IsWire (admin_update_fee_split c l i) = (c ≤ u16_max) × (l ≤ u16_max) × (i ≤ u16_max)
IsWire (admin_update_maintenance_fee_per_slot m) = m ≤ u128_max
IsWire (admin_update_backing_fee_policy d f i) = (d ≤ u16_max) × (f ≤ u16_max) × (i ≤ u16_max)
IsWire (admin_update_trade_fee_policy b) = b ≤ u64_max
IsWire _ = Unit

u16 : (x : ℕ) → x ≤ u16_max → from_le_bytes (to_le_bytes 2 x) ≡ x
u16 x h = from_le_bytes-to_le_bytes 2 x (omega arith)

u64 : (x : ℕ) → x ≤ u64_max → from_le_bytes (to_le_bytes 8 x) ≡ x
u64 x h = from_le_bytes-to_le_bytes 8 x (omega arith)

u128 : (x : ℕ) → x ≤ u128_max → from_le_bytes (to_le_bytes 16 x) ≡ x
u128 x h = from_le_bytes-to_le_bytes 16 x (omega arith)

shares :
    (f : ℕ → ℕ → ℕ → StakeInstruction) (a b c : ℕ)
    → (a ≤ u16_max) × (b ≤ u16_max) × (c ≤ u16_max)
    → ◌≡◌ {A = Result StakeInstruction}
        (ok (
          f
            (from_le_bytes (to_le_bytes 2 a))
            (from_le_bytes (to_le_bytes 2 b))
            (from_le_bytes (to_le_bytes 2 c))))
        (ok (f a b c))
shares f a b c (ha, hb, hc) = rw (u16 a ha, u16 b hb, u16 c hc) refl

-- What the reference encoder writes for an instruction whose arguments fit their integer types, the
-- decoder reads back as the same instruction.
pub unpack-pack : (i : StakeInstruction) → IsWire i → unpack (pack i) ≡ ok i
unfolding unpack pack to_le_bytes from_le_bytes
unpack-pack (init_pool c d) (hc, hd) = ap₂ (λ x y. ok (init_pool x y)) (u64 c hc) (u64 d hd)
unpack-pack (init_trading_pool c d) (hc, hd) =
    ap₂ (λ x y. ok (init_trading_pool x y)) (u64 c hc) (u64 d hd)
unpack-pack (deposit a) h = ap (λ x. ok (deposit x)) (u64 a h)
unpack-pack (deposit_junior a) h = ap (λ x. ok (deposit_junior x)) (u64 a h)
unpack-pack (flush_to_insurance a) h = ap (λ x. ok (flush_to_insurance x)) (u64 a h)
unpack-pack (return_insurance a) h = ap (λ x. ok (return_insurance x)) (u64 a h)
unpack-pack (recover_flushed_insurance a) h = ap (λ x. ok (recover_flushed_insurance x)) (u64 a h)
unpack-pack (withdraw a) h = ap (λ x. ok (withdraw x)) (u64 a h)
unpack-pack bind_insurance_authority h = refl
unpack-pack rotate_insurance_authority h = refl
unpack-pack burn_asset_admin h = refl
unpack-pack rotate_insurance_operator h = refl
unpack-pack (update_config none none) (hc, hd) = refl
unpack-pack (update_config none (some d)) (hc, hd) =
    ap (λ x. ok (update_config none (some x))) (u64 d hd)
unpack-pack (update_config (some c) none) (hc, hd) =
    ap (λ x. ok (update_config (some x) none)) (u64 c hc)
unpack-pack (update_config (some c) (some d)) (hc, hd) =
    ap₂ (λ x y. ok (update_config (some x) (some y))) (u64 c hc) (u64 d hd)
unpack-pack (propose_admin k) h = ap (λ x. ok (propose_admin x)) (from_le_bytes-to_le_bytes 32 k h)
unpack-pack accept_admin h = refl
unpack-pack commit_cooldown_increase h = refl
unpack-pack cancel_cooldown_increase h = refl
unpack-pack (propose_cooldown_increase c) h = ap (λ x. ok (propose_cooldown_increase x)) (u64 c h)
unpack-pack accrue_fees h = refl
unpack-pack set_market_resolved h = refl
unpack-pack admin_resolve_market h = refl
unpack-pack (admin_set_hwm_config false b) h = ap (λ x. ok (admin_set_hwm_config false x)) (u16 b h)
unpack-pack (admin_set_hwm_config true b) h = ap (λ x. ok (admin_set_hwm_config true x)) (u16 b h)
unpack-pack (admin_set_tranche_config m) h = ap (λ x. ok (admin_set_tranche_config x)) (u16 m h)
unpack-pack (admin_update_fee_split c l i) h = shares admin_update_fee_split c l i h
unpack-pack (admin_update_maintenance_fee_per_slot m) h =
    ap (λ x. ok (admin_update_maintenance_fee_per_slot x)) (u128 m h)
unpack-pack (admin_update_backing_fee_policy d f i) h =
    shares admin_update_backing_fee_policy d f i h
unpack-pack (admin_update_trade_fee_policy b) h =
    ap (λ x. ok (admin_update_trade_fee_policy x)) (u64 b h)

-- The bytes that the tag of an instruction promises behind it.
unfoldable pub payload_length : StakeInstruction → ℕ
payload_length (init_pool c d) = 16
payload_length (init_trading_pool c d) = 16
payload_length (update_config c d) = 18
payload_length (propose_admin k) = 32
payload_length (admin_set_hwm_config e b) = 3
payload_length (admin_set_tranche_config m) = 2
payload_length (admin_update_fee_split c l i) = 6
payload_length (admin_update_maintenance_fee_per_slot m) = 16
payload_length (admin_update_backing_fee_policy d f i) = 6
payload_length bind_insurance_authority = 0
payload_length rotate_insurance_authority = 0
payload_length burn_asset_admin = 0
payload_length rotate_insurance_operator = 0
payload_length accept_admin = 0
payload_length commit_cooldown_increase = 0
payload_length cancel_cooldown_increase = 0
payload_length accrue_fees = 0
payload_length set_market_resolved = 0
payload_length admin_resolve_market = 0
payload_length _ = 8

abbrev IsExact : (rest : List ℕ) → Result StakeInstruction → Type 0
IsExact rest r = (i : StakeInstruction) → r ≡ ok i → length rest ≡ payload_length i

-- One branch of the match.
exact :
    (t n : ℕ) (rest : List ℕ) (built : StakeInstruction) (other : Result StakeInstruction)
    → payload_length built ≡ n
    → IsExact rest other
    → (tag : ℕ) → IsExact rest (if tag == t then sized n rest built else other)
exact t n rest built other same h tag i e = ground (arith, h i)

unpack_proxy-IsExact : (tag : ℕ) (rest : List ℕ) → IsExact rest (unpack_proxy tag rest)
unfolding unpack_proxy payload_length
unpack_proxy-IsExact tag rest =
    exact 24 0 rest _ _ refl
      (exact 25 6 rest _ _ refl
        (exact 26 16 rest _ _ refl
          (exact 27 6 rest _ _ refl (exact 28 8 rest _ _ refl (λ i e. ground arith) tag) tag) tag)
        tag)
      tag

unpack_admin-IsExact : (tag : ℕ) (rest : List ℕ) → IsExact rest (unpack_admin tag rest)
unfolding unpack_admin payload_length
unpack_admin-IsExact tag rest =
    exact 19 0 rest _ _ refl
      (exact 20 0 rest _ _ refl
        (exact 21 0 rest _ _ refl
          (exact 22 0 rest _ _ refl
            (exact 23 8 rest _ _ refl
              (exact 10 8 rest _ _ refl
                (exact 12 0 rest _ _ refl
                  (exact 13 16 rest _ _ refl
                    (exact 14 3 rest _ _ refl
                      (exact 15 2 rest _ _ refl
                        (exact 16 8 rest _ _ refl
                          (exact 18 0 rest _ _ refl (unpack_proxy-IsExact tag rest) tag) tag)
                        tag)
                      tag)
                    tag)
                  tag)
                tag)
              tag)
            tag)
          tag)
        tag)
      tag

unpack_payload-IsExact : (tag : ℕ) (rest : List ℕ) → IsExact rest (unpack_payload tag rest)
unfolding unpack_payload payload_length
unpack_payload-IsExact tag rest =
    exact 0 16 rest _ _ refl
      (exact 1 8 rest _ _ refl
        (exact 2 8 rest _ _ refl
          (exact 3 8 rest _ _ refl
            (exact 4 18 rest _ _ refl
              (exact 5 32 rest _ _ refl
                (exact 6 0 rest _ _ refl
                  (exact 7 8 rest _ _ refl
                    (exact 8 0 rest _ _ refl
                      (exact 9 0 rest _ _ refl (unpack_admin-IsExact tag rest) tag) tag)
                    tag)
                  tag)
                tag)
              tag)
            tag)
          tag)
        tag)
      tag

-- Bytes that are too short or that trail are never accepted: what the decoder accepts is a tag and
-- exactly the payload of the instruction.
pub unpack-length :
    (data_bytes : List ℕ) (i : StakeInstruction)
    → unpack data_bytes ≡ ok i
    → length data_bytes ≡ suc (payload_length i)
unfolding unpack
unpack-length [] i e = ground arith
unpack-length (tag ∷ rest) i e = ap suc (unpack_payload-IsExact tag rest i e)
