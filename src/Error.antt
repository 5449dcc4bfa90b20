-- ===== src/Error.antt =====
-- The errors of src/error.rs and the result of an instruction: `ProgramResult` with its `?`.
pub mod Codes
use percolator_stake.Prelude.{◌≡◌, refl, ap, sym, ◌∙◌, Bool, true, false, Option, none, some}

-- `enum StakeError`, without its two deprecated codes.
pub data StakeError : Type 0 where
  already_initialized not_initialized unauthorized cooldown_not_elapsed : StakeError
  insufficient_lp_tokens zero_amount overflow invalid_mint market_resolved : StakeError
  deposit_cap_exceeded invalid_pda insufficient_vault_balance : StakeError
  invalid_percolator_program cpi_failed invalid_account invalid_pool_mode : StakeError
  withdrawal_below_hwm_floor tranche_not_enabled junior_balance_insufficient : StakeError
  wrong_tranche zero_shares_minted no_pending_admin insurance_loss_outstanding : StakeError
  cooldown_increase_requires_timelock timelock_not_elapsed : StakeError
  no_pending_cooldown_proposal deposit_below_minimum_liquidity : StakeError

-- The part of `ProgramError` that the program returns; `cpi` is the error of a program called.
pub data ProgramError : Type 0 where
  custom : StakeError → ProgramError
  missing_required_signature invalid_argument invalid_account_data : ProgramError
  illegal_owner incorrect_program_id cpi invalid_instruction_data : ProgramError
  not_enough_account_keys : ProgramError

-- An error reverts the whole transaction, so `err` carries no state.
pub data Result {ℓ} (A : Type ℓ) : Type ℓ where
  err : ProgramError → Result A
  ok : A → Result A

infixl 5 ◌>>=◌ ◌>>◌
abbrev pub ◌>>=◌ {ℓ₁ ℓ₂} : {A : Type ℓ₁} {B : Type ℓ₂} → Result A → (A → Result B) → Result B
err e >>= rest = err e
ok a >>= rest = rest a

abbrev pub ◌>>◌ {ℓ} : {B : Type ℓ} → Result (Unit {0}) → Result B → Result B
check >> rest = check >>= λ _. rest

-- `if wrong { return Err(e.into()); }`
abbrev pub fail_if : Bool → ProgramError → Result (Unit {0})
fail_if true e = err e
fail_if false e = ok tt

-- `o.ok_or(e)?`
abbrev pub ok_or {ℓ} : {A : Type ℓ} → Option A → ProgramError → Result A
ok_or (some a) e = ok a
ok_or none e = err e

-- The parts of a sequence that succeeded.
pub >>=-eq-ok {ℓ κ} :
    {A : Type ℓ} {B : Type κ} (m : Result A) (f : A → Result B) (b : B)
    → (m >>= f) ≡ ok b
    → (a : A) × (m ≡ ok a) × (f a ≡ ok b)
>>=-eq-ok (ok a) f b h = (a, refl, h)
>>=-eq-ok (err e) f b h = cc

pub >>-eq-ok {ℓ} :
    {B : Type ℓ} (c : Bool) (e : ProgramError) (k : Result B) (b : B)
    → (fail_if c e >> k) ≡ ok b
    → (c ≡ false) × (k ≡ ok b)
>>-eq-ok true e k b h = cc
>>-eq-ok false e k b h = (refl, h)

pub ok_or-eq-ok {ℓ} :
    {A : Type ℓ} (o : Option A) (e : ProgramError) (a : A) → ok_or o e ≡ ok a → o ≡ some a
ok_or-eq-ok (some x) e a h = cc
ok_or-eq-ok none e a h = cc

pub ok-inj {ℓ} : {A : Type ℓ} (a b : A) → ok a ≡ ok b → a ≡ b
ok-inj a b h = cc

pub >>=-known {ℓ κ} :
    {A : Type ℓ} {B : Type κ} (m : Result A) (f : A → Result B) (a : A) (b : B)
    → m ≡ ok a
    → (m >>= f) ≡ ok b
    → f a ≡ ok b
>>=-known (ok x) f a b h e = ap f (sym (ok-inj x a h)) ∙ e
>>=-known (err x) f a b h e = cc
