-- ===== src/Solvency/Backing/Insurance.antt =====
-- The handlers of src/processor.rs that move insurance leave the pool's value covered by its vault.
use percolator_stake.Prelude.{ℕ, ◌≡◌, ◌≢◌, inl, inr, some, ap, sym, ◌∙◌, arith, [], ◌∷◌, List}
use percolator_stake.Error.{ok}
use percolator_stake.Runtime.{Runtime, AccountData, Seed}
use percolator_stake.State.{StakePool, Pubkey}
use percolator_stake.SplToken.{transfer}
use percolator_stake.SplToken.State.{TokenAccount, token_account}
use percolator_stake.Cpi.{top_up_insurance, withdraw_insurance_asset}
use percolator_stake.Processor.Guards.{
  call, pool_from_data, derive_vault_authority, read_token_account, validate_source_account,
  verify_token_program,
}
use percolator_stake.Processor.Insurance.{
  Moved, FlushAccounts, ReturnAccounts, RecoverAccounts, process_flush_to_insurance,
  process_return_insurance, process_recover_flushed_insurance, book_flush, book_return,
  book_recovery,
}
use percolator_stake.Solvency.Backing.{
  IsBacked, flushed-IsCovered, returned-IsCovered, moved-IsBacked, others_apart,
}
use percolator_stake.Solvency.Backing.Laws.{IsLawful}
use percolator_stake.Solvency.Backing.Calls.{call-as}
use percolator_stake.Solvency.Later.{booked-IsLater}

module _ (R : Runtime) (program_id : Pubkey) where
  open R use {Ledger, token_program_id}

  flush-calls :
      (a : FlushAccounts) (amount : ℕ) (ledger : Ledger) (p : StakePool) (out : Moved R)
      → a.pool_pda.content ≡ AccountData.pool_bytes p
      → process_flush_to_insurance R program_id a amount ledger ≡ ok out
      → (seeds : List Seed) × (p.vault ≡ a.vault.key)
        × (a.percolator_program.key ≡ p.percolator_program)
        × (a.token_program.key ≡ token_program_id)
        × (call R ledger
              (top_up_insurance a.percolator_program.key a.vault_auth.key a.slab.key a.vault.key
                a.wrapper_vault.key a.token_program.key amount)
              seeds
            ≡ ok out.ledger)
        × (book_flush p amount ≡ ok out.pool)
  unfolding process_flush_to_insurance pool_from_data verify_token_program
  flush-calls a amount ledger p out held e =
      let seeds =
        Seed.vault_auth
        ∷ Seed.key a.pool_pda.key
        ∷ Seed.bump (derive_vault_authority R program_id a.pool_pda.key).1
        ∷ [] in
      (seeds, ground arith, ground arith, ground arith, ground arith, ground arith)

  return-calls :
      (a : ReturnAccounts) (amount : ℕ) (ledger : Ledger) (p : StakePool) (out : Moved R)
      → a.pool_pda.content ≡ AccountData.pool_bytes p
      → process_return_insurance R program_id a amount ledger ≡ ok out
      → (s : TokenAccount) × (p.vault ≡ a.vault.key)
        × (token_account R ledger a.admin_ata.key ≡ some s)
        × (s.owner ≡ a.admin.key)
        × (a.token_program.key ≡ token_program_id)
        × (call R ledger
              (transfer a.token_program.key a.admin_ata.key a.vault.key a.admin.key amount)
              []
            ≡ ok out.ledger)
        × (book_return p amount ≡ ok out.pool)
  unfolding process_return_insurance pool_from_data validate_source_account read_token_account
      verify_token_program
  return-calls a amount ledger p out held e = ground arith

  recover-calls :
      (a : RecoverAccounts) (amount : ℕ) (ledger : Ledger) (p : StakePool) (out : Moved R)
      → a.pool_pda.content ≡ AccountData.pool_bytes p
      → process_recover_flushed_insurance R program_id a amount ledger ≡ ok out
      → (seeds : List Seed) × (p.vault ≡ a.vault.key)
        × (a.percolator_program.key ≡ p.percolator_program)
        × (a.token_program.key ≡ token_program_id)
        × (call R ledger
              (withdraw_insurance_asset a.percolator_program.key a.vault_auth.key a.market.key
                a.vault.key a.wrapper_vault.key a.wrapper_vault_auth.key a.token_program.key amount)
              seeds
            ≡ ok out.ledger)
        × (book_recovery p amount ≡ ok out.pool)
  unfolding process_recover_flushed_insurance pool_from_data verify_token_program
  recover-calls a amount ledger p out held e =
      let seeds =
        Seed.vault_auth
        ∷ Seed.key a.pool_pda.key
        ∷ Seed.bump (derive_vault_authority R program_id a.pool_pda.key).1
        ∷ [] in
      (seeds, ground arith, ground arith, ground arith, ground arith, ground arith)

  module _ {wrapper : Pubkey} (L : IsLawful R wrapper) (authority : Pubkey) where
    -- A flush by the wrapper's instruction, of no more than it takes from the vault.
    pub process_flush-IsBacked :
        (a : FlushAccounts) (amount : ℕ) (ledger : Ledger) (p : StakePool) (out : Moved R)
        → a.pool_pda.content ≡ AccountData.pool_bytes p
        → p.percolator_program ≡ wrapper
        → process_flush_to_insurance R program_id a amount ledger ≡ ok out
        → IsBacked R authority ledger p
        → IsBacked R authority out.ledger out.pool
    process_flush-IsBacked a amount ledger p out held calls e b =
        let (seeds, vault, wrapped, token, sent, booked) =
          flush-calls a amount ledger p out held e in
        let (fits, covers) = flushed-IsCovered p out.pool amount b.account.amount booked b.covers in
        let (u, kept, less) =
          L.top_up_draws ledger out.ledger a.vault_auth.key a.slab.key a.vault.key
            a.wrapper_vault.key amount seeds fits
            (call-as R L ledger out.ledger
              (λ k.
                top_up_insurance k a.vault_auth.key a.slab.key a.vault.key a.wrapper_vault.key
                  token_program_id amount)
              a.percolator_program.key wrapper seeds (wrapped ∙ calls) (rw (← token) sent))
            b.account (ap (token_account R ledger) (sym vault) ∙ b.reads) in
        moved-IsBacked R authority ledger out.ledger p out.pool u b
          (booked-IsLater p out.pool amount (inl booked))
          (ap (token_account R out.ledger) vault ∙ kept) (less.owner ∙ b.owned)
          (covers u.amount less.amount)

    -- A return from an account of the admin's own.
    pub process_return_insurance-IsBacked :
        (a : ReturnAccounts) (amount : ℕ) (ledger : Ledger) (p : StakePool) (out : Moved R)
        → a.pool_pda.content ≡ AccountData.pool_bytes p
        → a.admin.key ≢ authority
        → process_return_insurance R program_id a amount ledger ≡ ok out
        → IsBacked R authority ledger p
        → IsBacked R authority out.ledger out.pool
    process_return_insurance-IsBacked a amount ledger p out held other e b =
        let (s, vault, source, owns, token, sent, booked) =
          return-calls a amount ledger p out held e in
        let (fits, covers) =
          returned-IsCovered p out.pool amount b.account.amount (inl booked) b.covers in
        let reads : token_account R ledger a.vault.key ≡ some b.account =
          ap (token_account R ledger) (sym vault) ∙ b.reads in
        let apart =
          others_apart R authority ledger a.admin.key a.vault.key a.admin_ata.key s b.account other
            reads source b.owned owns in
        let (u, kept, more) =
          L.transfer_pays ledger out.ledger a.admin_ata.key a.vault.key a.admin.key amount [] fits
            apart
            (call-as R L ledger out.ledger
              (λ k. transfer k a.admin_ata.key a.vault.key a.admin.key amount) a.token_program.key
              token_program_id [] token sent)
            b.account reads in
        moved-IsBacked R authority ledger out.ledger p out.pool u b
          (booked-IsLater p out.pool amount (inr (inl booked)))
          (ap (token_account R out.ledger) vault ∙ kept) (more.owner ∙ b.owned)
          (covers u.amount more.amount)

    -- A recovery that the vault's own authority signs.
    pub process_recover-IsBacked :
        (a : RecoverAccounts) (amount : ℕ) (ledger : Ledger) (p : StakePool) (out : Moved R)
        → a.pool_pda.content ≡ AccountData.pool_bytes p
        → a.vault_auth.key ≡ authority
        → p.percolator_program ≡ wrapper
        → process_recover_flushed_insurance R program_id a amount ledger ≡ ok out
        → IsBacked R authority ledger p
        → IsBacked R authority out.ledger out.pool
    process_recover-IsBacked a amount ledger p out held by calls e b =
        let (seeds, vault, wrapped, token, sent, booked) =
          recover-calls a amount ledger p out held e in
        let (fits, covers) =
          returned-IsCovered p out.pool amount b.account.amount (inr booked) b.covers in
        let (u, kept, more) =
          L.withdraw_insurance_pays ledger out.ledger a.vault_auth.key a.market.key a.vault.key
            a.wrapper_vault.key a.wrapper_vault_auth.key amount seeds b.account fits
            (ap (token_account R ledger) (sym vault) ∙ b.reads) (b.owned ∙ sym by)
            (call-as R L ledger out.ledger
              (λ k.
                withdraw_insurance_asset k a.vault_auth.key a.market.key a.vault.key
                  a.wrapper_vault.key a.wrapper_vault_auth.key token_program_id amount)
              a.percolator_program.key wrapper seeds (wrapped ∙ calls) (rw (← token) sent)) in
        moved-IsBacked R authority ledger out.ledger p out.pool u b
          (booked-IsLater p out.pool amount (inr (inr booked)))
          (ap (token_account R out.ledger) vault ∙ kept) (more.owner ∙ b.owned)
          (covers u.amount more.amount)
