-- ===== src/Error/Codes.antt =====
-- The numbers of the errors and the texts for them: `StakeError` and `error_hint` of src/error.rs.
use Prim.Native.String.{String, len, find}
use percolator_stake.Prelude.{
  ℕ, ◌≤◌, ◌≡◌, ◌≢◌, ◌⊎◌, ap, sym, ◌∙◌, ◌+◌, ◌*◌, Bool-cases, ◌==◌, if◌then◌else◌, Option, none,
  some, refl, arith, inl, inr,
}
use percolator_stake.Error.{StakeError}

-- The `u32` of an error, which `ProgramError::Custom` carries.
unfoldable pub code : StakeError → ℕ
code StakeError.already_initialized = 0
code StakeError.not_initialized = 1
code StakeError.unauthorized = 2
code StakeError.cooldown_not_elapsed = 3
code StakeError.insufficient_lp_tokens = 4
code StakeError.zero_amount = 5
code StakeError.overflow = 6
code StakeError.invalid_mint = 7
code StakeError.market_resolved = 8
code StakeError.deposit_cap_exceeded = 9
code StakeError.invalid_pda = 10
code StakeError.insufficient_vault_balance = 13
code StakeError.invalid_percolator_program = 14
code StakeError.cpi_failed = 15
code StakeError.invalid_account = 16
code StakeError.invalid_pool_mode = 17
code StakeError.withdrawal_below_hwm_floor = 18
code StakeError.tranche_not_enabled = 19
code StakeError.junior_balance_insufficient = 20
code StakeError.wrong_tranche = 21
code StakeError.zero_shares_minted = 22
code StakeError.no_pending_admin = 23
code StakeError.insurance_loss_outstanding = 24
code StakeError.cooldown_increase_requires_timelock = 25
code StakeError.timelock_not_elapsed = 26
code StakeError.no_pending_cooldown_proposal = 27
code StakeError.deposit_below_minimum_liquidity = 28

abbrev pub unknown : String
unknown = "Unknown error — check the error code and pool state"

unfoldable pub error_hint : ℕ → String
error_hint c =
    if c == 0
    then "Pool already initialized — use a different slab address or check if InitPool was already called"
    else if c == 1
    then "Pool not initialized — call InitPool first to create the stake pool"
    else if c == 2
    then "Unauthorized — you must be the pool admin to perform this action"
    else if c == 3
    then "Cooldown not elapsed — wait for the cooldown period before withdrawing again"
    else if c == 4
    then "Insufficient LP tokens — you don't have enough LP tokens to burn"
    else if c == 5
    then "Zero amount — deposit and withdrawal amounts must be greater than zero"
    else if c == 6
    then "Arithmetic overflow — pool values exceeded u64 bounds, operation blocked"
    else if c == 7
    then "Invalid mint — LP mint doesn't match the pool's LP mint"
    else if c == 8
    then "Market is resolved — no new deposits allowed after resolution"
    else if c == 9
    then "Deposit cap exceeded — pool has reached its maximum deposit limit"
    else if c == 10
    then "Invalid PDA — account is not a valid PDA for the expected seed"
    else if c == 11
    then "Admin already transferred — transfer admin is a one-time operation"
    else if c == 12
    then "Admin not yet transferred — call TransferAdmin before performing admin operations"
    else if c == 13
    then "Insufficient vault balance — vault doesn't have enough collateral for this withdrawal"
    else if c == 14
    then "Invalid percolator program — percolator program ID doesn't match"
    else if c == 15
    then "CPI to percolator failed — the cross-program invoke to percolator failed"
    else if c == 16
    then "Invalid account — account is not owned by the expected program or is not writable"
    else if c == 17
    then "Pool mode mismatch — operation not valid for this pool's mode (e.g., AccrueFees on insurance pool)"
    else if c == 18
    then "Withdrawal blocked — would breach high-water mark floor protection"
    else if c == 19
    then "Tranches not enabled — senior/junior tranches are not enabled on this pool"
    else if c == 20
    then "Junior balance insufficient — junior tranche doesn't have enough balance for this operation"
    else if c == 21
    then "Wrong tranche — deposit already belongs to a different tranche"
    else if c == 22
    then "Zero shares minted — deposit amount too small to mint any LP at the current share price; increase the amount"
    else if c == 23
    then "No pending admin — there is no admin transfer to accept (propose one first, or it was cancelled)"
    else if c == 24
    then "Insurance loss outstanding — total_flushed > total_returned. Junior tranche deposits are paused, and AdminResolveMarket/SetMarketResolved are blocked until RecoverFlushedInsurance fully returns the flushed insurance (resolving first would strand it — recovery requires LIVE mode)"
    else if c == 28
    then "Deposit below minimum liquidity — the pool's first-ever deposit must exceed MINIMUM_LIQUIDITY so a permanent dead-share floor can be locked (N7 anti-inflation hardening); deposit a larger amount"
    else unknown

-- The error of a number.
from_code : ℕ → Option StakeError
from_code c =
    if c == 0
    then some StakeError.already_initialized
    else if c == 1
    then some StakeError.not_initialized
    else if c == 2
    then some StakeError.unauthorized
    else if c == 3
    then some StakeError.cooldown_not_elapsed
    else if c == 4
    then some StakeError.insufficient_lp_tokens
    else if c == 5
    then some StakeError.zero_amount
    else if c == 6
    then some StakeError.overflow
    else if c == 7
    then some StakeError.invalid_mint
    else if c == 8
    then some StakeError.market_resolved
    else if c == 9
    then some StakeError.deposit_cap_exceeded
    else if c == 10
    then some StakeError.invalid_pda
    else if c == 13
    then some StakeError.insufficient_vault_balance
    else if c == 14
    then some StakeError.invalid_percolator_program
    else if c == 15
    then some StakeError.cpi_failed
    else if c == 16
    then some StakeError.invalid_account
    else if c == 17
    then some StakeError.invalid_pool_mode
    else if c == 18
    then some StakeError.withdrawal_below_hwm_floor
    else if c == 19
    then some StakeError.tranche_not_enabled
    else if c == 20
    then some StakeError.junior_balance_insufficient
    else if c == 21
    then some StakeError.wrong_tranche
    else if c == 22
    then some StakeError.zero_shares_minted
    else if c == 23
    then some StakeError.no_pending_admin
    else if c == 24
    then some StakeError.insurance_loss_outstanding
    else if c == 25
    then some StakeError.cooldown_increase_requires_timelock
    else if c == 26
    then some StakeError.timelock_not_elapsed
    else if c == 27
    then some StakeError.no_pending_cooldown_proposal
    else if c == 28
    then some StakeError.deposit_below_minimum_liquidity
    else none

-- A text by its length and the length of the name of the error, which stands before the dash.
sign : String → ℕ
sign s = len s + 1_000 * find s "—"

-- The error whose text has these lengths.
by_sign : ℕ → Option StakeError
by_sign n =
    if n == 25097
    then some StakeError.already_initialized
    else if n == 21069
    then some StakeError.not_initialized
    else if n == 13066
    then some StakeError.unauthorized
    else if n == 21078
    then some StakeError.cooldown_not_elapsed
    else if n == 23066
    then some StakeError.insufficient_lp_tokens
    else if n == 12072
    then some StakeError.zero_amount
    else if n == 20074
    then some StakeError.overflow
    else if n == 13057
    then some StakeError.invalid_mint
    else if n == 19063
    then some StakeError.market_resolved
    else if n == 21067
    then some StakeError.deposit_cap_exceeded
    else if n == 12064
    then some StakeError.invalid_pda
    else if n == 27087
    then some StakeError.insufficient_vault_balance
    else if n == 27066
    then some StakeError.invalid_percolator_program
    else if n == 25074
    then some StakeError.cpi_failed
    else if n == 16083
    then some StakeError.invalid_account
    else if n == 19100
    then some StakeError.invalid_pool_mode
    else if n == 19068
    then some StakeError.withdrawal_below_hwm_floor
    else if n == 21076
    then some StakeError.tranche_not_enabled
    else if n == 28093
    then some StakeError.junior_balance_insufficient
    else if n == 14064
    then some StakeError.wrong_tranche
    else if n == 19110
    then some StakeError.zero_shares_minted
    else if n == 17098
    then some StakeError.no_pending_admin
    else if n == 27283
    then some StakeError.insurance_loss_outstanding
    else if n == 32196
    then some StakeError.deposit_below_minimum_liquidity
    else none

abbrev pub IsUntold : StakeError → Type 0
IsUntold e = (25 ≤ code e) × (code e ≤ 27) × (error_hint (code e) ≡ unknown)

number-read : (e : StakeError) → from_code (code e) ≡ some e
unfolding code from_code
number-read StakeError.already_initialized = refl
number-read StakeError.not_initialized = refl
number-read StakeError.unauthorized = refl
number-read StakeError.cooldown_not_elapsed = refl
number-read StakeError.insufficient_lp_tokens = refl
number-read StakeError.zero_amount = refl
number-read StakeError.overflow = refl
number-read StakeError.invalid_mint = refl
number-read StakeError.market_resolved = refl
number-read StakeError.deposit_cap_exceeded = refl
number-read StakeError.invalid_pda = refl
number-read StakeError.insufficient_vault_balance = refl
number-read StakeError.invalid_percolator_program = refl
number-read StakeError.cpi_failed = refl
number-read StakeError.invalid_account = refl
number-read StakeError.invalid_pool_mode = refl
number-read StakeError.withdrawal_below_hwm_floor = refl
number-read StakeError.tranche_not_enabled = refl
number-read StakeError.junior_balance_insufficient = refl
number-read StakeError.wrong_tranche = refl
number-read StakeError.zero_shares_minted = refl
number-read StakeError.no_pending_admin = refl
number-read StakeError.insurance_loss_outstanding = refl
number-read StakeError.cooldown_increase_requires_timelock = refl
number-read StakeError.timelock_not_elapsed = refl
number-read StakeError.no_pending_cooldown_proposal = refl
number-read StakeError.deposit_below_minimum_liquidity = refl

hint-read :
    (e : StakeError)
    → (by_sign (sign (error_hint (code e))) ≡ some e)
      ⊎ IsUntold e × (by_sign (sign (error_hint (code e))) ≡ none)
unfolding code error_hint sign by_sign
hint-read StakeError.already_initialized = inl refl
hint-read StakeError.not_initialized = inl refl
hint-read StakeError.unauthorized = inl refl
hint-read StakeError.cooldown_not_elapsed = inl refl
hint-read StakeError.insufficient_lp_tokens = inl refl
hint-read StakeError.zero_amount = inl refl
hint-read StakeError.overflow = inl refl
hint-read StakeError.invalid_mint = inl refl
hint-read StakeError.market_resolved = inl refl
hint-read StakeError.deposit_cap_exceeded = inl refl
hint-read StakeError.invalid_pda = inl refl
hint-read StakeError.insufficient_vault_balance = inl refl
hint-read StakeError.invalid_percolator_program = inl refl
hint-read StakeError.cpi_failed = inl refl
hint-read StakeError.invalid_account = inl refl
hint-read StakeError.invalid_pool_mode = inl refl
hint-read StakeError.withdrawal_below_hwm_floor = inl refl
hint-read StakeError.tranche_not_enabled = inl refl
hint-read StakeError.junior_balance_insufficient = inl refl
hint-read StakeError.wrong_tranche = inl refl
hint-read StakeError.zero_shares_minted = inl refl
hint-read StakeError.no_pending_admin = inl refl
hint-read StakeError.insurance_loss_outstanding = inl refl
hint-read StakeError.cooldown_increase_requires_timelock =
    inr ((omega arith, omega arith, refl), refl)
hint-read StakeError.timelock_not_elapsed = inr ((omega arith, omega arith, refl), refl)
hint-read StakeError.no_pending_cooldown_proposal = inr ((omega arith, omega arith, refl), refl)
hint-read StakeError.deposit_below_minimum_liquidity = inl refl

number-inj : (e f : StakeError) → code e ≡ code f → e ≡ f
number-inj e f same =
    let back : some e ≡ some f = sym (number-read e) ∙ ap from_code same ∙ number-read f in cc

-- Two errors, deprecated ones aside, to whose numbers error_hint gives the same text are the same
-- error, or they have different numbers, both from 25 to 27, to which it gives the text of an
-- unknown error.
pub hint-inj :
    (e f : StakeError)
    → error_hint (code e) ≡ error_hint (code f)
    → (e ≡ f) ⊎ (code e ≢ code f) × IsUntold e × IsUntold f
hint-inj e f same =
    let alike : by_sign (sign (error_hint (code e))) ≡ by_sign (sign (error_hint (code f))) =
      ap (λ s. by_sign (sign s)) same in
    elim (hint-read e) [
      | inl told ↦ elim (hint-read f) [
        | inl told' ↦ (let back : some e ≡ some f = sym told ∙ alike ∙ told' in inl cc)
        | inr (_, missing) ↦ (let back : some e ≡ none = sym told ∙ alike ∙ missing in absurd cc)
      ]
      | inr (untold, missing) ↦ elim (hint-read f) [
        | inl told' ↦ (let back : none ≡ some f = sym missing ∙ alike ∙ told' in absurd cc)
        | inr (untold', _) ↦ elim (Bool-cases (code e == code f)) [
          | inl equal ↦ inl (number-inj e f (ground arith))
          | inr apart ↦ inr (λ h. ground arith, untold, untold')
        ]
      ]
    ]
