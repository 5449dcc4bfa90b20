-- ===== src/Processor/Authority/Seal.antt =====
-- What a burn of the asset admin seals: src/processor.rs, the flag that `process_burn_asset_admin`
-- sets and that the rotations read.
use percolator_stake.Prelude.{◌≡◌, true, ap, arith}
use percolator_stake.Error.{ok}
use percolator_stake.Runtime.{Runtime, AccountData}
use percolator_stake.State.{StakePool, Pubkey}
use percolator_stake.Processor.Guards.{pool_from_data}
use percolator_stake.Processor.Insurance.{Moved}
use percolator_stake.Processor.Authority.{
  BindAccounts, RotateAccounts, check_binding, check_rotation, process_burn_asset_admin,
  process_rotate_insurance_operator, process_rotate_insurance_authority,
}

module _ (R : Runtime) where
  open R use {Ledger}

  pub burn_gate :
      (program_id : Pubkey) (a : BindAccounts) (ledger : Ledger) (p : StakePool) (out : Moved R)
      → a.pool_pda.content ≡ AccountData.pool_bytes p
      → process_burn_asset_admin R program_id a ledger ≡ ok out
      → (a.admin.is_signer ≡ true)
        × (p.admin ≡ a.admin.key)
        × ¬ (p.asset_admin_burned_byte ≡ 1)
        × (out.pool ≡ record p { asset_admin_burned_byte = 1 })
  unfolding process_burn_asset_admin check_binding pool_from_data
  burn_gate program_id a ledger p out held e = ground arith

  -- A pool whose asset admin was burnt refuses both rotations and another burn.
  sealed :
      (program_id : Pubkey) (q : StakePool) (b : BindAccounts) (c : RotateAccounts)
      → (later : Ledger) (x : Moved R) (y : Ledger) → q.asset_admin_burned_byte ≡ 1
      → b.pool_pda.content ≡ AccountData.pool_bytes q
      → c.bound.pool_pda.content ≡ AccountData.pool_bytes q
      → ¬ (process_burn_asset_admin R program_id b later ≡ ok x)
        × ¬ (process_rotate_insurance_operator R program_id c later ≡ ok y)
        × ¬ (process_rotate_insurance_authority R program_id c later ≡ ok y)
  unfolding process_burn_asset_admin process_rotate_insurance_operator
      process_rotate_insurance_authority check_rotation check_binding pool_from_data
  sealed program_id q b c later x y burnt hb hc =
      ((λ e. ground arith), (λ e. ground arith), (λ e. ground arith))

  -- A burn of the asset admin that succeeds needs the admin's signature and a flag that is clear,
  -- changes the flag alone, and is final: on the pool that it leaves, neither rotation nor another
  -- burn succeeds any more, whoever signs.
  pub burn_final :
      (program_id : Pubkey) (a b : BindAccounts) (c : RotateAccounts) (ledger later : Ledger)
      → (p : StakePool) (out x : Moved R) (y : Ledger)
      → a.pool_pda.content ≡ AccountData.pool_bytes p
      → process_burn_asset_admin R program_id a ledger ≡ ok out
      → b.pool_pda.content ≡ AccountData.pool_bytes out.pool
      → c.bound.pool_pda.content ≡ AccountData.pool_bytes out.pool
      → (a.admin.is_signer ≡ true)
        × (p.admin ≡ a.admin.key)
        × ¬ (p.asset_admin_burned_byte ≡ 1)
        × (out.pool ≡ record p { asset_admin_burned_byte = 1 })
        × ¬ (process_burn_asset_admin R program_id b later ≡ ok x)
        × ¬ (process_rotate_insurance_operator R program_id c later ≡ ok y)
        × ¬ (process_rotate_insurance_authority R program_id c later ≡ ok y)
  burn_final program_id a b c ledger later p out x y held e hb hc =
      let (signed, is_admin, clear, burnt) = burn_gate program_id a ledger p out held e in
      let flag = ap (λ q. q.asset_admin_burned_byte) burnt in
      let (again, operator, authority) = sealed program_id out.pool b c later x y flag hb hc in
      (signed, is_admin, clear, burnt, again, operator, authority)
