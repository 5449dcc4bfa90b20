-- ===== src/Solvency/Backing/Alone.antt =====
-- The handlers of src/processor.rs that write the pool alone, or nothing, leave the pool's value
-- covered by its vault.
use percolator_stake.Prelude.{ℕ, ◌≡◌, ◌≢◌, inl, inr, Bool, some, sym, ◌∙◌, refl, arith, []}
use percolator_stake.Error.{ok, ◌>>=◌, >>=-eq-ok}
use percolator_stake.Runtime.{Runtime, AccountData, Clock}
use percolator_stake.State.{StakePool, Pubkey}
use percolator_stake.Instruction.{StakeInstruction}
use percolator_stake.SplToken.State.{TokenAccount, token_account}
use percolator_stake.Cpi.{resolve_market}
use percolator_stake.Cpi.Authority.{burn_asset_admin}
use percolator_stake.Processor.Guards.{call, pool_from_data}
use percolator_stake.Processor.Accrual.{
  AccrueAccounts, accrue_fees_inner, vault_balance, process_accrue_fees,
}
use percolator_stake.Processor.Authority.{BindAccounts, check_binding, process_burn_asset_admin}
use percolator_stake.Processor.Authority.Bind.{bind_gate}
use percolator_stake.Processor.Authority.Gate.{rotation_gate}
use percolator_stake.Processor.Proxies.Relay.{proxy_payload}
use percolator_stake.Processor.Resolution.{admin_resolve_market_gate}
use percolator_stake.Processor.Insurance.{Moved}
use percolator_stake.Solvency.Settings.{IsFrame}
use percolator_stake.Solvency.System.{PoolStep}
use percolator_stake.Solvency.System.Cases.{Relayed}
use percolator_stake.Solvency.System.Lifetime.{pool_step-IsLater}
use percolator_stake.Solvency.Backing.{IsBacked, IsCovered, accrued-IsCovered, moved-IsBacked}
use percolator_stake.Solvency.Backing.Laws.{IsLawful, Keeps}
use percolator_stake.Solvency.Backing.Calls.{call-eq-ok}

module _ (R : Runtime) (program_id authority : Pubkey) where
  open R use {Ledger}

  accrue-reads :
      (a : AccrueAccounts R) (clock : Clock) (ledger : Ledger) (p q : StakePool) (t : TokenAccount)
      → a.pool_ai.content ≡ AccountData.pool_bytes p
      → token_account R ledger p.vault ≡ some t
      → process_accrue_fees R program_id a clock ledger ≡ ok q
      → (accrue_fees_inner p t.amount >>= λ x.
          ok (record x { last_fee_accrual_slot = clock.slot; last_vault_snapshot = t.amount }))
        ≡ ok q
  unfolding process_accrue_fees pool_from_data vault_balance
  accrue-reads a clock ledger p q t held reads e = ground arith

  -- An accrual books no more than the vault holds.
  pub accrue-IsCovered :
      (a : AccrueAccounts R) (clock : Clock) (ledger : Ledger) (p q : StakePool) (t : TokenAccount)
      → a.pool_ai.content ≡ AccountData.pool_bytes p
      → token_account R ledger p.vault ≡ some t
      → process_accrue_fees R program_id a clock ledger ≡ ok q
      → IsCovered p t.amount
      → IsCovered q t.amount
  accrue-IsCovered a clock ledger p q t held reads e c =
      let rest = accrue-reads a clock ledger p q t held reads e in
      let (x, accrued, last) = >>=-eq-ok (accrue_fees_inner p t.amount) _ q rest in
      let still = accrued-IsCovered p x t.amount accrued c in ground arith

  burn-calls :
      (a : BindAccounts) (ledger : Ledger) (p : StakePool) (out : Moved R)
      → a.pool_pda.content ≡ AccountData.pool_bytes p
      → process_burn_asset_admin R program_id a ledger ≡ ok out
      → (p.slab ≡ a.slab.key)
        × (call R ledger
              (burn_asset_admin a.percolator_program.key a.admin.key a.vault_auth.key a.slab.key)
              []
            ≡ ok out.ledger)
        × (out.pool ≡ record p { asset_admin_burned_byte = 1 })
  unfolding process_burn_asset_admin check_binding pool_from_data
  burn-calls a ledger p out held e = ground arith

  module _ {wrapper : Pubkey} (L : IsLawful R wrapper) where
    pub burn-IsBacked :
        (a : BindAccounts) (ledger : Ledger) (p : StakePool) (out : Moved R)
        → a.pool_pda.content ≡ AccountData.pool_bytes p
        → process_burn_asset_admin R program_id a ledger ≡ ok out
        → IsBacked R authority ledger p
        → IsBacked R authority out.ledger out.pool
    unfolding burn_asset_admin
    burn-IsBacked a ledger p out held e b =
        let (slab, sent, same) = burn-calls a ledger p out held e in
        let kept =
          L.unwritten ledger out.ledger _ [] p.vault (call-eq-ok R L ledger out.ledger _ [] sent)
            (inl refl, (inl refl, (inr (λ h. b.slab_apart (h ∙ sym slab)), tt))) b.account
            b.reads in
        moved-IsBacked R authority ledger out.ledger p out.pool b.account b
          (pool_step-IsLater R program_id p out.pool (PoolStep.burn a ledger out held e)) kept
          b.owned (ground (arith, b.covers))

    pub settings-IsCovered : (p q : StakePool) (n : ℕ) → IsFrame p q → IsCovered p n → IsCovered q n
    unfolding IsFrame
    settings-IsCovered p q n frame c = ground arith

    -- The wrapper is given the market as the only account to write.
    pub Relayed-Keeps :
        (devnet : Bool) (p : StakePool) (ledger after : Ledger) (i : StakeInstruction)
        → p.vault ≢ p.slab
        → Relayed R devnet program_id p ledger after i
        → Keeps R ledger after p.vault
    unfolding resolve_market
    Relayed-Keeps devnet p ledger after _ apart (Relayed.bind a held e) t reads =
        let (between, by, first, second) = bind_gate R program_id a ledger after p held e in
        L.unwritten between after _ _ p.vault second (inl refl, (inl refl, (inr apart, tt))) t
          (L.unwritten ledger between _ _ p.vault first (inl refl, (inl refl, (inr apart, tt))) t
            reads)
    Relayed-Keeps devnet p ledger after _ apart (Relayed.rotate_operator a held e) t reads =
        let (_, _, _, _, _, sent) =
          rotation_gate R program_id a ledger after p 2 held (inl (refl, e)) in
        L.unwritten ledger after _ _ p.vault sent (inl refl, (inl refl, (inr apart, tt))) t reads
    Relayed-Keeps devnet p ledger after _ apart (Relayed.rotate_authority a held e) t reads =
        let (_, _, _, _, _, sent) =
          rotation_gate R program_id a ledger after p 1 held (inr (refl, e)) in
        L.unwritten ledger after _ _ p.vault sent (inl refl, (inl refl, (inr apart, tt))) t reads
    Relayed-Keeps devnet p ledger after _ apart (Relayed.resolve a held e) t reads =
        let (_, _, _, _, _, sent) =
          admin_resolve_market_gate R program_id a p ledger after held e in
        L.unwritten ledger after _ _ p.vault sent (inl refl, (inr apart, tt)) t reads
    Relayed-Keeps devnet p ledger after _ apart (Relayed.fees a i held e) t reads =
        let (_, sent) = proxy_payload R program_id a ledger after p i held e in
        L.unwritten ledger after _ _ p.vault sent (inl refl, (inr apart, tt)) t reads
