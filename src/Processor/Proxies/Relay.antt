-- ===== src/Processor/Proxies/Relay.antt =====
-- What the fee proxies send: src/processor.rs, the four `process_admin_update_..` handlers, against
-- the bytes of the instruction that asked for them.
use percolator_stake.Prelude.{ℕ, ◌≡◌, sym, [], ◌∷◌, List, some, arith}
use percolator_stake.Error.{ok, >>=-eq-ok, ok_or-eq-ok}
use percolator_stake.Bytes.{drop}
use percolator_stake.Instruction.{
  StakeInstruction, admin_update_fee_split, admin_update_maintenance_fee_per_slot,
  admin_update_backing_fee_policy, admin_update_trade_fee_policy,
}
use percolator_stake.Instruction.Pack.{pack}
use percolator_stake.Runtime.{Runtime, Seed, AccountData}
use percolator_stake.State.{StakePool, Pubkey}
use percolator_stake.SplToken.{signer, writable}
use percolator_stake.Cpi.Policy
use percolator_stake.Processor.Guards.{pool_from_data, derive_vault_authority}
use percolator_stake.Processor.Authority.Gate.{IsByAdmin}
use percolator_stake.Processor.Proxies.{
  ProxyAccounts, validate_group_a_proxy, validate_group_b_proxy, process_admin_update_fee_split,
  process_admin_update_maintenance_fee_per_slot, process_admin_update_backing_fee_policy,
  process_admin_update_trade_fee_policy, pool_seeds, vault_auth_seeds,
}

validate_group_a_proxy-reads :
    (program_id : Pubkey) (a : ProxyAccounts) (p : StakePool) (bump : ℕ)
    → a.pool_pda.content ≡ AccountData.pool_bytes p
    → validate_group_a_proxy program_id a.admin a.pool_pda a.slab a.percolator_program ≡ ok bump
    → IsByAdmin p a.admin a.slab a.percolator_program × (bump ≡ p.bump)
unfolding validate_group_a_proxy pool_from_data
validate_group_a_proxy-reads program_id a p bump held e = (
  record {
    signed = ground arith;
    is_admin = ground arith;
    is_market = ground arith;
    is_wrapper = ground arith;
  },
  ground arith,
)

module _ (R : Runtime) where
  open R use {Ledger, invoke}

  validate_group_b_proxy-reads :
      (program_id : Pubkey) (a : ProxyAccounts) (p : StakePool) (bump : ℕ)
      → a.pool_pda.content ≡ AccountData.pool_bytes p
      → validate_group_b_proxy R program_id a.admin a.pool_pda a.vault_auth a.slab
          a.percolator_program
        ≡ ok bump
      → IsByAdmin p a.admin a.slab a.percolator_program
        × (derive_vault_authority R program_id a.pool_pda.key ≡ (a.vault_auth.key, bump))
  unfolding validate_group_b_proxy
  validate_group_b_proxy-reads program_id a p bump held e =
      let (_, checked, rest) = >>=-eq-ok _ _ bump e in
      let (by_admin, _) = validate_group_a_proxy-reads program_id a p _ held checked in
      (by_admin, ground arith)

  -- The run of the handler that `process` picks for the instruction.
  pub data Relays (program_id : Pubkey) (a : ProxyAccounts) (ledger y : Ledger)
      : StakeInstruction → Type 0 where
    fee_split :
        (c l i : ℕ)
        → process_admin_update_fee_split R program_id a c l i ledger ≡ ok y
        → Relays program_id a ledger y (admin_update_fee_split c l i)
    maintenance_fee :
        (m : ℕ)
        → process_admin_update_maintenance_fee_per_slot R program_id a m ledger ≡ ok y
        → Relays program_id a ledger y (admin_update_maintenance_fee_per_slot m)
    backing_fee :
        (d f i : ℕ)
        → process_admin_update_backing_fee_policy R program_id a d f i ledger ≡ ok y
        → Relays program_id a ledger y (admin_update_backing_fee_policy d f i)
    trade_fee :
        (b : ℕ)
        → process_admin_update_trade_fee_policy R program_id a b ledger ≡ ok y
        → Relays program_id a ledger y (admin_update_trade_fee_policy b)

  -- The tag of the wrapper's instruction, and the signer with its seeds.
  abbrev pub route :
      (program_id : Pubkey) → ProxyAccounts → StakePool → StakeInstruction → ℕ × Pubkey × List Seed
  route program_id a p (admin_update_fee_split c l i) =
      (86, a.pool_pda.key, pool_seeds p.slab p.bump)
  route program_id a p (admin_update_maintenance_fee_per_slot m) =
      (88, a.pool_pda.key, pool_seeds p.slab p.bump)
  route program_id a p (admin_update_backing_fee_policy d f i) =
      let (vault, bump) = derive_vault_authority R program_id a.pool_pda.key in
      (51, vault, vault_auth_seeds a.pool_pda.key bump)
  route program_id a p _ =
      let (vault, bump) = derive_vault_authority R program_id a.pool_pda.key in
      (55, vault, vault_auth_seeds a.pool_pda.key bump)

  -- A fee proxy that succeeds needs the admin of the pool, and calls the wrapper once, for the
  -- market of the pool, with the payload of the instruction unchanged behind the wrapper's tag for
  -- it: 86 and 88 signed by the pool, 51 and 55 by its vault authority.
  pub proxy_payload :
      (program_id : Pubkey) (a : ProxyAccounts) (ledger y : Ledger) (p : StakePool)
      → (i : StakeInstruction) → a.pool_pda.content ≡ AccountData.pool_bytes p
      → Relays program_id a ledger y i
      → IsByAdmin p a.admin a.slab a.percolator_program
        × (let (tag, authority, seeds) = route program_id a p i in
            invoke ledger
              (record {
                program_id = p.percolator_program;
                accounts = signer authority ∷ writable p.slab ∷ [];
                data_bytes = tag ∷ drop 1 (pack i);
              })
              seeds
            ≡ some y)
  unfolding process_admin_update_fee_split process_admin_update_maintenance_fee_per_slot
      process_admin_update_backing_fee_policy process_admin_update_trade_fee_policy pack
      Policy.update_fee_split Policy.update_maintenance_fee_per_slot
      Policy.update_backing_fee_policy Policy.update_trade_fee_policy
  proxy_payload program_id a ledger y p _ held (Relays.fee_split c l i e) =
      let (bump, checked, called) = >>=-eq-ok _ _ y e in
      let (by_admin, same) = validate_group_a_proxy-reads program_id a p bump held checked in
      (by_admin, rw (by_admin.is_market, by_admin.is_wrapper, sym same) (ok_or-eq-ok _ _ y called))
  proxy_payload program_id a ledger y p _ held (Relays.maintenance_fee m e) =
      let (bump, checked, called) = >>=-eq-ok _ _ y e in
      let (by_admin, same) = validate_group_a_proxy-reads program_id a p bump held checked in
      (by_admin, rw (by_admin.is_market, by_admin.is_wrapper, sym same) (ok_or-eq-ok _ _ y called))
  proxy_payload program_id a ledger y p _ held (Relays.backing_fee d f i e) =
      let (bump, checked, called) = >>=-eq-ok _ _ y e in
      let (by_admin, vault) = validate_group_b_proxy-reads program_id a p bump held checked in
      (by_admin, rw (by_admin.is_market, by_admin.is_wrapper, vault) (ok_or-eq-ok _ _ y called))
  proxy_payload program_id a ledger y p _ held (Relays.trade_fee b e) =
      let (bump, checked, called) = >>=-eq-ok _ _ y e in
      let (by_admin, vault) = validate_group_b_proxy-reads program_id a p bump held checked in
      (by_admin, rw (by_admin.is_market, by_admin.is_wrapper, vault) (ok_or-eq-ok _ _ y called))
