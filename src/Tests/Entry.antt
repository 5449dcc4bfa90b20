-- ===== src/Tests/Entry.antt =====
-- An instruction from its bytes and its list of accounts.
use percolator_stake.Prelude.{◌≡◌, ◌≢◌, ◌≤◌, ◌⊎◌, refl, List, [], ◌∷◌, ℕ, false}
use percolator_stake.Error.{ok, StakeError}
use percolator_stake.Error.Codes.{code, error_hint, IsUntold, hint-inj}
use percolator_stake.Bytes.{to_le_bytes, from_le_bytes, length}
use percolator_stake.Math.Pricing
use percolator_stake.Math.Tranche.{distribute_loss, distribute_fees, weighted_share}
use percolator_stake.State.Pool.{total_pool_value, senior_balance, effective_junior_balance}
use percolator_stake.SplToken.State.{token_account}
use percolator_stake.Runtime.{AccountInfo, AccountData}
use percolator_stake.Instruction.{StakeInstruction, unpack, unpack_payload}
use percolator_stake.Processor.Guards
use percolator_stake.Processor.Accrual
use percolator_stake.Processor.Deposit
use percolator_stake.Processor.Entry.{Outcome, serve, process}
use percolator_stake.Processor.Entry.Accounts.{take_deposit}
use percolator_stake.Processor.Entry.Arity.{arity, process-arity}
use percolator_stake.Solvency.System.Entry.{IsServed}
use percolator_stake.Solvency.System.Entry.Serve.{process-IsServed}
use percolator_stake.Tests.Accounts.{account, deposit_accounts}
use percolator_stake.Tests.Fixtures.{pool, junior_deposit, runtime}

-- A deposit of 300,000: the user, the pool, and the others in their order.
abbrev instruction_data : List ℕ
unfolding to_le_bytes
instruction_data = 1 ∷ to_le_bytes 8 300_000

abbrev others : List AccountInfo
others =
    (deposit_accounts pool).user_ata
    ∷ (deposit_accounts pool).vault
    ∷ (deposit_accounts pool).lp_mint
    ∷ (deposit_accounts pool).user_lp_ata
    ∷ (deposit_accounts pool).vault_auth
    ∷ (deposit_accounts pool).deposit_pda
    ∷ (deposit_accounts pool).token_program
    ∷ account 51 0 AccountData.short_bytes
    ∷ account 0 0 AccountData.empty
    ∷ []

abbrev taken : Outcome (runtime 4_000_000)
taken =
    Outcome.recorded (record pool { total_deposited = 4_300_000; total_lp_supply = 4_300_000 })
      (record junior_deposit { last_deposit_slot = 1_000; lp_amount = 300_000; junior_byte = 0 }) tt

deposit_run :
    process
      (runtime 4_000_000)
      false
      1
      ((deposit_accounts pool).user ∷ (deposit_accounts pool).pool_pda ∷ others)
      instruction_data
      tt
    ≡ ok taken
unfolding process serve take_deposit unpack unpack_payload Guards.validate_account_not_empty
    Guards.validate_account_owner Guards.validate_account_writable Guards.pool_from_data
    Guards.check_pool Guards.validate_pool_version Guards.derive_vault_authority
    Guards.verify_token_program Guards.read_token_account token_account from_le_bytes to_le_bytes
    Accrual.pre_accrue_fee_modes Accrual.vault_balance Accrual.accrue_fees_inner Accrual.accrue
    Accrual.snapshot Accrual.credit_junior distribute_fees weighted_share total_pool_value
    senior_balance effective_junior_balance distribute_loss Guards.derive_deposit_pda
    Guards.validate_source_account Guards.validate_lp_recipient_account
    Guards.apply_minimum_liquidity_lock Guards.create_or_adopt_pda Guards.deposit_from_data
    Deposit.process_deposit Deposit.check_deposit Deposit.check_deposit_cap
    Deposit.check_senior_loss Deposit.price_senior Deposit.exchange Deposit.credit_senior
    Deposit.raise_mark Deposit.open_record Deposit.record_senior Deposit.claim Deposit.stamp
    Pricing.calc_senior_lp_for_deposit Pricing.calc_lp_for_deposit Pricing.pro_rata_lp
deposit_run = refl

process-IsServed_example :
    (i : StakeInstruction) × (unpack instruction_data ≡ ok i)
    × IsServed (runtime 4_000_000) false 1 pool tt i taken
process-IsServed_example =
    process-IsServed (runtime 4_000_000) false 1 pool taken (deposit_accounts pool).user
      (deposit_accounts pool).pool_pda others instruction_data tt refl deposit_run

process-arity_example :
    (i : StakeInstruction) × (unpack instruction_data ≡ ok i)
    × (arity i ≤ length ((deposit_accounts pool).user ∷ (deposit_accounts pool).pool_pda ∷ others))
process-arity_example =
    process-arity (runtime 4_000_000) false 1
      ((deposit_accounts pool).user ∷ (deposit_accounts pool).pool_pda ∷ others) instruction_data tt
      taken deposit_run

-- The texts of two cooldown timelock errors.
hint-inj_example :
    (StakeError.timelock_not_elapsed ≡ StakeError.no_pending_cooldown_proposal)
    ⊎ (code StakeError.timelock_not_elapsed ≢ code StakeError.no_pending_cooldown_proposal)
      × IsUntold StakeError.timelock_not_elapsed
      × IsUntold StakeError.no_pending_cooldown_proposal
unfolding code error_hint
hint-inj_example =
    hint-inj StakeError.timelock_not_elapsed StakeError.no_pending_cooldown_proposal refl
