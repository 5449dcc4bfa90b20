-- ===== src/Solvency/Backing/Withdraw.antt =====
-- Withdrawals of src/processor.rs leave the pool's value covered by its vault.
use percolator_stake.Prelude.{
  ℕ, Bool-cases, ◌≤◌, ◌≡◌, ◌≢◌, inl, inr, ltb, ◌==◌, not, some, ap, sym, refl, ◌∙◌, arith, u64_max,
  [], ◌∷◌,
}
use percolator_stake.Error.{ok, StakeError, >>=-eq-ok}
use percolator_stake.Runtime.{Runtime, AccountData, Clock, Seed}
use percolator_stake.State.{StakePool, StakeDeposit, Pubkey}
use percolator_stake.State.Deposit.{is_junior_deposit}
use percolator_stake.SplToken.{transfer, burn}
use percolator_stake.SplToken.State.{TokenAccount, token_account}
use percolator_stake.Processor.Guards.{
  fails, call, derive_vault_authority, read_token_account, verify_token_program,
}
use percolator_stake.Processor.Withdraw.{
  Withdrawn, WithdrawAccounts, process_withdraw, check_withdraw_pool, check_lp_source,
  check_destination, redeem,
}
use percolator_stake.Processor.Withdraw.Steps.{process_withdraw-steps}
use percolator_stake.Solvency.Backing.{
  IsBacked, debit-IsCovered, pre_accrue_fee_modes-IsCovered, moved-IsBacked, others_apart,
}
use percolator_stake.Solvency.Backing.Laws.{IsLawful, Draws}
use percolator_stake.Solvency.Backing.Calls.{call-as, burn-Keeps}
use percolator_stake.Solvency.System.Lifetime.{withdraw-IsLater}

module _ (R : Runtime) (program_id : Pubkey) (a : WithdrawAccounts) where
  open R use {Ledger, token_program_id}

  -- What the checks of a withdrawal say about its accounts.
  check_withdraw-accounts :
      (lp_amount : ℕ) (ledger : Ledger) (p : StakePool)
      → check_withdraw_pool R program_id a lp_amount ledger ≡ ok p
      → (s : TokenAccount) × (p.vault ≡ a.vault.key)
        × (p.lp_mint ≡ a.lp_mint.key)
        × (token_account R ledger a.user_lp_ata.key ≡ some s)
        × (s.owner ≡ a.user.key)
        × (a.user_ata.key ≢ a.vault.key)
        × (a.token_program.key ≡ token_program_id)
  unfolding check_withdraw_pool verify_token_program check_lp_source check_destination
      read_token_account
  check_withdraw-accounts lp_amount ledger p e = ground arith

  module _ {wrapper : Pubkey} (L : IsLawful R wrapper) where
    -- The burn keeps the vault and the payout draws on it.
    redeem-Draws :
        (pool : StakePool) (w lp : ℕ) (ledger after : Ledger)
        → w ≤ u64_max
        → a.vault.key ≢ a.user_ata.key
        → a.vault.key ≢ a.lp_mint.key
        → a.vault.key ≢ a.user_lp_ata.key
        → a.token_program.key ≡ token_program_id
        → redeem R program_id a pool w lp ledger ≡ ok after
        → Draws R ledger after a.vault.key w
    unfolding redeem
    redeem-Draws pool w lp ledger after fits apart mint_apart lp_apart token e t held =
        let destroy = burn a.token_program.key a.user_lp_ata.key a.lp_mint.key a.user.key lp in
        let move = transfer a.token_program.key a.vault.key a.user_ata.key a.vault_auth.key w in
        let derived = (derive_vault_authority R program_id a.pool_pda.key).1 in
        let seeds =
          Seed.vault_auth ∷ Seed.key a.pool_pda.key ∷ Seed.bump pool.vault_authority_bump ∷ [] in
        let (burnt, h, e) = >>=-eq-ok (call R ledger destroy []) _ after e in
        let (_, _, g) =
          >>=-eq-ok (fails (not (pool.vault_authority_bump == derived)) StakeError.invalid_pda) _
            after e in
        let kept : token_account R burnt a.vault.key ≡ some t =
          burn-Keeps R L ledger burnt a.user_lp_ata.key a.lp_mint.key a.user.key lp a.vault.key []
            mint_apart lp_apart
            (call-as R L ledger burnt (λ k. burn k a.user_lp_ata.key a.lp_mint.key a.user.key lp)
              a.token_program.key token_program_id [] token h)
            t held in
        elim (Bool-cases (ltb 0 w)) [
          | inl paid ↦
              (let sent : call R burnt move seeds ≡ ok after = ground arith in
                L.transfer_draws burnt after a.vault.key a.user_ata.key a.vault_auth.key w seeds
                  fits apart
                  (call-as R L burnt after
                    (λ k. transfer k a.vault.key a.user_ata.key a.vault_auth.key w)
                    a.token_program.key token_program_id seeds token sent)
                  t kept)
          | inr none_due ↦
              (let same : burnt ≡ after = ground arith in
                (
                  t,
                  ap (λ l. token_account R l a.vault.key) (sym same) ∙ kept,
                  record { owner = refl; amount = ground arith },
                ))
        ]

    -- A withdrawal by another than the vault's authority keeps the pool backed.
    pub process_withdraw-IsBacked :
        (authority : Pubkey) (clock : Clock) (lp : ℕ) (ledger : Ledger) (p : StakePool)
        → (d : StakeDeposit) (out : Withdrawn R) → a.pool_pda.content ≡ AccountData.pool_bytes p
        → a.deposit_pda.content ≡ AccountData.deposit_bytes d
        → a.user.key ≢ authority
        → process_withdraw R program_id a clock lp ledger ≡ ok out
        → IsBacked R authority ledger p
        → IsBacked R authority out.ledger out.pool
    process_withdraw-IsBacked authority clock lp ledger p d out held at other e b =
        let (accrued, marked, _, h1, _, h2, h3, _, checked, redeemed) =
          process_withdraw-steps R program_id a clock lp ledger p d out held at e in
        let (s, vault, mint, source, owns, apart, token) =
          check_withdraw-accounts lp ledger p checked in
        let reads : token_account R ledger a.vault.key ≡ some b.account =
          ap (token_account R ledger) (sym vault) ∙ b.reads in
        let (fits, covers) =
          debit-IsCovered accrued marked out.pool clock _ (is_junior_deposit d) out.paid lp
            b.account.amount h2 h3
            (pre_accrue_fee_modes-IsCovered R ledger p accrued a.vault b.account reads h1
              b.covers) in
        let (u, kept, less) =
          redeem-Draws marked out.paid lp ledger out.ledger fits (λ h. apart (sym h))
            (λ h. b.mint_apart (vault ∙ h ∙ sym mint))
            (λ h.
              others_apart R authority ledger a.user.key a.vault.key a.user_lp_ata.key s b.account
                other reads source b.owned owns (sym h))
            token redeemed b.account reads in
        moved-IsBacked R authority ledger out.ledger p out.pool u b
          (withdraw-IsLater R program_id a clock lp ledger p d out held at e)
          (ap (token_account R out.ledger) vault ∙ kept) (less.owner ∙ b.owned)
          (covers u.amount less.amount)
