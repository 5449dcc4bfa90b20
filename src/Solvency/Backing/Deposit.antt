-- ===== src/Solvency/Backing/Deposit.antt =====
-- Deposits of src/processor.rs leave the pool's value covered by its vault.
use percolator_stake.Prelude.{
  ℕ, Bool-cases, ◌≤◌, ◌+◌, ◌≡◌, ◌≢◌, ◌⊎◌, inl, inr, Bool, true, false, some, ap, sym, ◌∙◌, arith,
  u64_max, [], ◌∷◌,
}
use percolator_stake.Error.{ok, >>=-eq-ok}
use percolator_stake.Runtime.{Runtime, AccountData, Clock, Seed}
use percolator_stake.State.{StakePool, StakeDeposit, Pubkey}
use percolator_stake.SplToken.{transfer, mint_to}
use percolator_stake.SplToken.State.{TokenAccount, token_account}
use percolator_stake.Processor.Guards.{
  deposit_from_data, derive_deposit_pda, validate_source_account, validate_lp_recipient_account,
  read_token_account, verify_token_program, call, derive_vault_authority, create_or_adopt_pda,
  stake_deposit_size, data_is_empty,
}
use percolator_stake.Processor.Deposit.{
  Deposited, DepositAccounts, process_deposit, process_deposit_junior, check_deposit, exchange,
  open_record,
}
use percolator_stake.Processor.Deposit.Steps.{
  HasCalled, process_deposit-steps, process_deposit_junior-steps,
}
use percolator_stake.Solvency.Backing.{
  IsBacked, IsCovered, credit-IsCovered, pre_accrue_fee_modes-IsCovered, moved-IsBacked,
  others_apart,
}
use percolator_stake.Solvency.Backing.Laws.{IsLawful, Keeps, Pays}
use percolator_stake.Solvency.Backing.Calls.{call-as, mint_to-Keeps, create_or_adopt_pda-Keeps}
use percolator_stake.Solvency.System.Lifetime.{deposit-IsLater}

module _ (R : Runtime) (program_id : Pubkey) (a : DepositAccounts) where
  open R use {Ledger, token_program_id}

  -- What the checks of a deposit say about its accounts.
  check_deposit-accounts :
      (junior : Bool) (amount : ℕ) (ledger : Ledger) (p : StakePool)
      → check_deposit R program_id junior a amount ledger ≡ ok p
      → (s d : TokenAccount) × (p.vault ≡ a.vault.key)
        × (p.lp_mint ≡ a.lp_mint.key)
        × (token_account R ledger a.user_ata.key ≡ some s)
        × (s.owner ≡ a.user.key)
        × (token_account R ledger a.user_lp_ata.key ≡ some d)
        × (d.owner ≡ a.user.key)
        × (a.token_program.key ≡ token_program_id)
  unfolding check_deposit verify_token_program validate_source_account validate_lp_recipient_account
      read_token_account
  check_deposit-accounts junior amount ledger p e = ground arith

  -- The books of either deposit: the accrual, the credit and the mark.
  process_deposit-IsCovered :
      (clock : Clock) (amount : ℕ) (ledger : Ledger) (p : StakePool) (out : Deposited R)
      → (t : TokenAccount) → a.pool_pda.content ≡ AccountData.pool_bytes p
      → (process_deposit R program_id a clock amount ledger ≡ ok out)
        ⊎ (process_deposit_junior R program_id a clock amount ledger ≡ ok out)
      → token_account R ledger a.vault.key ≡ some t
      → IsCovered p t.amount
      → (amount ≤ u64_max) × ((m : ℕ) → t.amount + amount ≤ m → IsCovered out.pool m)
  process_deposit-IsCovered clock amount ledger p out t held (inl e) reads c =
      let (accrued, credited, lp, _, h1, _, _, h2, h3, _, _, _) =
        process_deposit-steps R program_id a clock amount ledger p out held e in
      credit-IsCovered accrued credited out.pool clock amount lp t.amount (inl h2) h3
        (pre_accrue_fee_modes-IsCovered R ledger p accrued a.vault t reads h1 c)
  process_deposit-IsCovered clock amount ledger p out t held (inr e) reads c =
      let (accrued, credited, lp, _, _, h1, _, _, h2, h3, _, _, _) =
        process_deposit_junior-steps R program_id a clock amount ledger p out held e in
      credit-IsCovered accrued credited out.pool clock amount lp t.amount (inr h2) h3
        (pre_accrue_fee_modes-IsCovered R ledger p accrued a.vault t reads h1 c)

  process_deposit-HasCalled :
      (clock : Clock) (amount : ℕ) (ledger : Ledger) (p : StakePool) (out : Deposited R)
      → a.pool_pda.content ≡ AccountData.pool_bytes p
      → (process_deposit R program_id a clock amount ledger ≡ ok out)
        ⊎ (process_deposit_junior R program_id a clock amount ledger ≡ ok out)
      → (junior : Bool) × HasCalled R program_id a junior amount ledger out.ledger p
  process_deposit-HasCalled clock amount ledger p out held (inl e) =
      let (_, _, _, _, _, _, _, _, _, _, _, calls) =
        process_deposit-steps R program_id a clock amount ledger p out held e in
      (false, calls)
  process_deposit-HasCalled clock amount ledger p out held (inr e) =
      let (_, _, _, _, _, _, _, _, _, _, _, _, calls) =
        process_deposit_junior-steps R program_id a clock amount ledger p out held e in
      (true, calls)

  module _ {wrapper : Pubkey} (L : IsLawful R wrapper) where
    -- An account of another than the user, other than the LP mint, is paid the collateral.
    exchange-Pays :
        (amount m : ℕ) (ledger after : Ledger)
        → amount ≤ u64_max
        → a.user_ata.key ≢ a.vault.key
        → a.vault.key ≢ a.lp_mint.key
        → a.vault.key ≢ a.user_lp_ata.key
        → a.token_program.key ≡ token_program_id
        → exchange R program_id a amount m ledger ≡ ok after
        → Pays R ledger after a.vault.key amount
    unfolding exchange
    exchange-Pays amount m ledger after fits apart mint_apart lp_apart token e t held =
        let move = transfer a.token_program.key a.user_ata.key a.vault.key a.user.key amount in
        let mint = mint_to a.token_program.key a.lp_mint.key a.user_lp_ata.key a.vault_auth.key m in
        let bump = (derive_vault_authority R program_id a.pool_pda.key).1 in
        let seeds = Seed.vault_auth ∷ Seed.key a.pool_pda.key ∷ Seed.bump bump ∷ [] in
        let (paid, h, g) = >>=-eq-ok (call R ledger move []) _ after e in
        let (u, reads, more) =
          L.transfer_pays ledger paid a.user_ata.key a.vault.key a.user.key amount [] fits apart
            (call-as R L ledger paid (λ k. transfer k a.user_ata.key a.vault.key a.user.key amount)
              a.token_program.key token_program_id [] token h)
            t held in
        (
          u,
          mint_to-Keeps R L paid after a.lp_mint.key a.user_lp_ata.key a.vault_auth.key m
              a.vault.key seeds mint_apart lp_apart
              (call-as R L paid after
                (λ k. mint_to k a.lp_mint.key a.user_lp_ata.key a.vault_auth.key m)
                a.token_program.key token_program_id seeds token g)
              u reads,
          more,
        )

    open_record-Keeps :
        (ledger : Ledger) (o : StakeDeposit × Ledger) (k : Pubkey)
        → open_record R program_id a ledger ≡ ok o
        → Keeps R ledger o.1 k
    unfolding open_record deposit_from_data
    open_record-Keeps ledger o k e = elim (Bool-cases (data_is_empty a.deposit_pda.content)) [
      | inl fresh ↦
          (let bump = (derive_deposit_pda R program_id a.pool_pda.key a.user.key).1 in
            let seeds =
              Seed.stake_deposit
              ∷ Seed.key a.pool_pda.key
              ∷ Seed.key a.user.key
              ∷ Seed.bump bump
              ∷ [] in
            let created : create_or_adopt_pda R ledger a.deposit_pda.key a.user.key program_id
                  stake_deposit_size seeds
                ≡ ok o.1 =
              ground arith in
            create_or_adopt_pda-Keeps R L ledger o.1 a.deposit_pda.key a.user.key program_id k
              stake_deposit_size seeds created)
      | inr old ↦
          (let same : o.1 ≡ ledger = ground arith in
            λ t held. ap (λ l. token_account R l k) same ∙ held)
    ]

    -- A deposit of either tranche by another than the vault's authority keeps the pool backed.
    pub process_deposit-IsBacked :
        (authority : Pubkey) (clock : Clock) (amount : ℕ) (ledger : Ledger) (p : StakePool)
        → (out : Deposited R) → a.pool_pda.content ≡ AccountData.pool_bytes p
        → a.user.key ≢ authority
        → (process_deposit R program_id a clock amount ledger ≡ ok out)
          ⊎ (process_deposit_junior R program_id a clock amount ledger ≡ ok out)
        → IsBacked R authority ledger p
        → IsBacked R authority out.ledger out.pool
    process_deposit-IsBacked authority clock amount ledger p out held other e b =
        let (junior, calls) = process_deposit-HasCalled clock amount ledger p out held e in
        let (s, d, vault, mint, source, owns, dest, owns', token) =
          check_deposit-accounts junior amount ledger p calls.checks in
        let reads : token_account R ledger a.vault.key ≡ some b.account =
          ap (token_account R ledger) (sym vault) ∙ b.reads in
        let apart : (k : Pubkey) (t : TokenAccount)
            → token_account R ledger k ≡ some t
            → t.owner ≡ a.user.key
            → k ≢ a.vault.key =
          λ k t at owner.
            others_apart R authority ledger a.user.key a.vault.key k t b.account other reads at
              b.owned owner in
        let (fits, covers) =
          process_deposit-IsCovered clock amount ledger p out b.account held e reads b.covers in
        let (u, kept, more) =
          exchange-Pays amount calls.minted ledger calls.exchanged fits
            (apart a.user_ata.key s source owns) (λ h. b.mint_apart (vault ∙ h ∙ sym mint))
            (λ h. apart a.user_lp_ata.key d dest owns' (sym h)) token calls.exchanges b.account
            reads in
        let final : token_account R out.ledger p.vault ≡ some u =
          ap (λ l. token_account R l p.vault) (sym calls.last)
          ∙ ap (token_account R calls.opened.1) vault
          ∙ open_record-Keeps calls.exchanged calls.opened a.vault.key calls.opens u kept in
        moved-IsBacked R authority ledger out.ledger p out.pool u b
          (deposit-IsLater R program_id a clock amount ledger p out held e) final
          (more.owner ∙ b.owned) (covers u.amount more.amount)
