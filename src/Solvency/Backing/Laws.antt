-- ===== src/Solvency/Backing/Laws.antt =====
-- What the pool's accounting relies on in the programs that it calls: the documented effects of
-- their instructions on token accounts.
use percolator_stake.Prelude.{ℕ, ◌+◌, ◌≤◌, ◌≡◌, ◌≢◌, ◌⊎◌, false, some, List, [], ◌∷◌, u64_max}
use percolator_stake.State.{Pubkey}
use percolator_stake.Runtime.{Runtime, AccountMeta, Instruction, Seed}
use percolator_stake.SplToken.{transfer}
use percolator_stake.SplToken.State.{TokenAccount, token_account}
use percolator_stake.Cpi.{top_up_insurance, withdraw_insurance_asset}

-- No instruction argument lets the called program write the account `k`.
abbrev pub IsUnwritten : Pubkey → List AccountMeta → Type 0
IsUnwritten k [] = Unit
IsUnwritten k (m ∷ ms) = ((m.is_writable ≡ false) ⊎ (k ≢ m.pubkey)) × IsUnwritten k ms

-- `after` is the account `before` with at most `n` less.
pub record IsDrawn (before after : TokenAccount) (n : ℕ) : Type 0 where
  pub owner : after.owner ≡ before.owner
  pub amount : before.amount ≤ after.amount + n

-- `after` is the account `before` with at least `n` more.
pub record IsPaid (before after : TokenAccount) (n : ℕ) : Type 0 where
  pub owner : after.owner ≡ before.owner
  pub amount : before.amount + n ≤ after.amount

module _ (R : Runtime) where
  open R use {Ledger, token_program_id, invoke, create_account, system_transfer, allocate, assign}

  -- What `k` holds is drawn on, or paid, up to the given amount.
  abbrev pub Draws : (ledger after : Ledger) → Pubkey → (amount : ℕ) → Type 0
  Draws ledger after k amount =
      (t : TokenAccount)
      → token_account R ledger k ≡ some t
      → (u : TokenAccount) × (token_account R after k ≡ some u) × IsDrawn t u amount

  abbrev pub Pays : (ledger after : Ledger) → Pubkey → (amount : ℕ) → Type 0
  Pays ledger after k amount =
      (t : TokenAccount)
      → token_account R ledger k ≡ some t
      → (u : TokenAccount) × (token_account R after k ≡ some u) × IsPaid t u amount

  abbrev pub Keeps : (ledger after : Ledger) → Pubkey → Type 0
  Keeps ledger after k =
      (t : TokenAccount) → token_account R ledger k ≡ some t → token_account R after k ≡ some t

  -- The laws of Solana, of the token program, of the system program and of the program `wrapper`,
  -- the percolator program; no other program is taken to do what they do.
  pub record IsLawful (wrapper : Pubkey) : Type 0 where
    -- Solana: a program changes no account that it is not given as writable.
    pub unwritten :
        (ledger after : Ledger) (i : Instruction) (seeds : List Seed) (k : Pubkey)
        → invoke ledger i seeds ≡ some after
        → IsUnwritten k i.accounts
        → Keeps ledger after k
    -- SPL token: a transfer moves its amount from one account to another.
    pub transfer_draws :
        (ledger after : Ledger) (source dest auth amount : ℕ) (seeds : List Seed)
        → amount ≤ u64_max
        → source ≢ dest
        → invoke ledger (transfer token_program_id source dest auth amount) seeds ≡ some after
        → Draws ledger after source amount
    pub transfer_pays :
        (ledger after : Ledger) (source dest auth amount : ℕ) (seeds : List Seed)
        → amount ≤ u64_max
        → source ≢ dest
        → invoke ledger (transfer token_program_id source dest auth amount) seeds ≡ some after
        → Pays ledger after dest amount
    -- The system program changes no account that has data already.
    pub create_keeps :
        (ledger after : Ledger) (payer target lamports space owner k : ℕ) (seeds : List Seed)
        → invoke ledger (create_account payer target lamports space owner) seeds ≡ some after
        → Keeps ledger after k
    pub fund_keeps :
        (ledger after : Ledger) (payer target lamports k : ℕ) (seeds : List Seed)
        → invoke ledger (system_transfer payer target lamports) seeds ≡ some after
        → Keeps ledger after k
    pub allocate_keeps :
        (ledger after : Ledger) (target space k : ℕ) (seeds : List Seed)
        → invoke ledger (allocate target space) seeds ≡ some after
        → Keeps ledger after k
    pub assign_keeps :
        (ledger after : Ledger) (target owner k : ℕ) (seeds : List Seed)
        → invoke ledger (assign target owner) seeds ≡ some after
        → Keeps ledger after k
    -- TopUpInsurance of the program `wrapper` takes at most its amount from the signer's account.
    pub top_up_draws :
        (ledger after : Ledger)
        → (auth slab ata wrapper_vault amount : ℕ) (seeds : List Seed) → amount ≤ u64_max
        → invoke ledger
            (top_up_insurance wrapper auth slab ata wrapper_vault token_program_id amount)
            seeds
          ≡ some after
        → Draws ledger after ata amount
    -- Its WithdrawInsuranceAsset pays its amount from a vault of its own, so not from an account of
    -- the signer's.
    pub withdraw_insurance_pays :
        (ledger after : Ledger)
        → (auth market dest wrapper_vault wrapper_auth amount : ℕ)
        → (seeds : List Seed) (t : TokenAccount) → amount ≤ u64_max
        → token_account R ledger dest ≡ some t
        → t.owner ≡ auth
        → invoke ledger
            (withdraw_insurance_asset wrapper auth market dest wrapper_vault wrapper_auth
              token_program_id amount)
            seeds
          ≡ some after
        → (u : TokenAccount) × (token_account R after dest ≡ some u) × IsPaid t u amount
