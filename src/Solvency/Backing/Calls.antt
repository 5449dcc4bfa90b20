-- ===== src/Solvency/Backing/Calls.antt =====
-- The instructions that the handlers of src/processor.rs send, as seen from the vault.
use percolator_stake.Prelude.{
  ℕ, ◌≡◌, ◌≢◌, inl, inr, ◌==◌, ltb, ◌-◌, Bool, true, false, refl, ap, sym, ◌∙◌, List, some, arith,
  Bool-cases, [],
}
use percolator_stake.Error.{ok, ProgramError, >>=-eq-ok, ok_or-eq-ok}
use percolator_stake.Runtime.{Runtime, Seed, Instruction}
use percolator_stake.State.{Pubkey}
use percolator_stake.SplToken.{mint_to, burn}
use percolator_stake.Processor.Guards.{call, complete, create_or_adopt_pda}
use percolator_stake.Solvency.Backing.Laws.{IsLawful, Keeps}

module _ (R : Runtime) {wrapper : Pubkey} (L : IsLawful R wrapper) where
  open R use {
    Ledger, invoke, token_program_id, create_account, system_transfer, allocate, assign,
    minimum_balance, lamports,
  }

  pub call-eq-ok :
      (ledger after : Ledger) (i : Instruction) (seeds : List Seed)
      → call R ledger i seeds ≡ ok after
      → invoke ledger i seeds ≡ some after
  call-eq-ok ledger after i seeds e = ok_or-eq-ok (invoke ledger i seeds) ProgramError.cpi after e

  -- The called program is the one that the checks found it to be.
  pub call-as :
      (ledger after : Ledger) (i : Pubkey → Instruction) (k j : Pubkey) (seeds : List Seed)
      → k ≡ j
      → call R ledger (i k) seeds ≡ ok after
      → invoke ledger (i j) seeds ≡ some after
  call-as ledger after i k j seeds same e =
      ap (λ (x : Pubkey). invoke ledger (i x) seeds) (sym same)
      ∙ call-eq-ok ledger after (i k) seeds e

  -- A mint of shares, and a burn, keep every other account.
  pub mint_to-Keeps :
      (ledger after : Ledger) (mint dest auth amount k : ℕ) (seeds : List Seed)
      → k ≢ mint
      → k ≢ dest
      → invoke ledger (mint_to token_program_id mint dest auth amount) seeds ≡ some after
      → Keeps R ledger after k
  unfolding mint_to
  mint_to-Keeps ledger after mint dest auth amount k seeds apart apart' e =
      L.unwritten ledger after _ seeds k e (inr apart, (inr apart', (inl refl, tt)))

  pub burn-Keeps :
      (ledger after : Ledger) (account mint auth amount k : ℕ) (seeds : List Seed)
      → k ≢ mint
      → k ≢ account
      → invoke ledger (burn token_program_id account mint auth amount) seeds ≡ some after
      → Keeps R ledger after k
  unfolding burn
  burn-Keeps ledger after account mint auth amount k seeds apart apart' e =
      L.unwritten ledger after _ seeds k e (inr apart', (inr apart, (inl refl, tt)))

  -- So does the creation of a program address.
  complete-Keeps :
      (ledger after : Ledger) (target payer owner k space shortfall : ℕ) (short : Bool)
      → (seeds : List Seed)
      → complete R ledger target payer owner space shortfall short seeds ≡ ok after
      → Keeps R ledger after k
  unfolding complete
  complete-Keeps ledger after target payer owner k space shortfall true seeds e t held =
      let (funded, f, e) =
        >>=-eq-ok (call R ledger (system_transfer payer target shortfall) []) _ after e in
      let (allocated, g, h) = >>=-eq-ok (call R funded (allocate target space) seeds) _ after e in
      let e1 =
        L.fund_keeps ledger funded payer target shortfall k [] (call-eq-ok ledger funded _ _ f) t
          held in
      let e2 =
        L.allocate_keeps funded allocated target space k seeds (call-eq-ok funded allocated _ _ g) t
          e1 in
      L.assign_keeps allocated after target owner k seeds (call-eq-ok allocated after _ _ h) t e2
  complete-Keeps ledger after target payer owner k space shortfall false seeds e t held =
      let (allocated, g, h) = >>=-eq-ok (call R ledger (allocate target space) seeds) _ after e in
      let e2 =
        L.allocate_keeps ledger allocated target space k seeds (call-eq-ok ledger allocated _ _ g) t
          held in
      L.assign_keeps allocated after target owner k seeds (call-eq-ok allocated after _ _ h) t e2

  pub create_or_adopt_pda-Keeps :
      (ledger after : Ledger) (target payer owner k space : ℕ) (seeds : List Seed)
      → create_or_adopt_pda R ledger target payer owner space seeds ≡ ok after
      → Keeps R ledger after k
  unfolding create_or_adopt_pda
  create_or_adopt_pda-Keeps ledger after target payer owner k space seeds e =
      let need = minimum_balance space in
      let held = lamports ledger target in
      elim (Bool-cases (held == 0)) [
        | inl absent ↦
            (let h : call R ledger (create_account payer target need space owner) seeds ≡ ok after =
                ground arith in
              L.create_keeps ledger after payer target need space owner k seeds
                (call-eq-ok ledger after _ _ h))
        | inr present ↦
            (let h : complete R ledger target payer owner space (need - held) (ltb held need) seeds
                  ≡ ok after =
                ground arith in
              complete-Keeps ledger after target payer owner k space (need - held) (ltb held need)
                seeds h)
      ]
