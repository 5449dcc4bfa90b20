-- ===== src/Tests/Backing.antt =====
-- Transactions on the runtime of Tests/Bank.
use percolator_stake.Prelude.{
  ◌≡◌, ◌≤◌, refl, if◌then◌else◌, ◌==◌, some, false, List, [], ◌∷◌, arith,
}
use percolator_stake.Error.{ok}
use percolator_stake.Bytes.{to_le_bytes, from_le_bytes}
use percolator_stake.Math.Pricing
use percolator_stake.Math.Tranche.{distribute_loss, distribute_fees, weighted_share}
use percolator_stake.State.Pool.{total_pool_value, senior_balance, effective_junior_balance}
use percolator_stake.Cpi.{top_up_insurance}
use percolator_stake.SplToken.{transfer, burn}
use percolator_stake.SplToken.State.{token_account, unpack_account, TokenAccount}
use percolator_stake.State.{StakePool, StakeDeposit}
use percolator_stake.Runtime.{AccountState, AccountInfo, AccountData}
use percolator_stake.Instruction.{unpack, unpack_payload}
use percolator_stake.Processor.Entry.{Outcome, process, serve}
use percolator_stake.Processor.Entry.Accounts.{take_withdraw}
use percolator_stake.Processor.Entry.WrapperAccounts.{take_flush}
use percolator_stake.Processor.Guards
use percolator_stake.Processor.Accrual
use percolator_stake.Processor.Withdraw
use percolator_stake.Processor.Insurance
use percolator_stake.Solvency.Backing.{IsBacked}
use percolator_stake.Solvency.Backing.Funded.{withdrawal-funded}
use percolator_stake.Solvency.Backing.Traffic.{Market, Turn, Traffic, Traffic-IsBacked}
use percolator_stake.Tests.Accounts.{
  account, admin, pool_account, withdraw_accounts, flush_accounts,
}
use percolator_stake.Tests.Bank.{bank, Balances, move, read_back}
use percolator_stake.Tests.Bank.Lawful.{bank-IsLawful}
use percolator_stake.Tests.Handlers.{lossy-IsSound}
use percolator_stake.Tests.Fixtures.{pool, flushed_pool, junior_deposit}

-- The vault holds the pool's value.
abbrev opening : Balances
opening = λ k. if k == 24 then 4_000_000 else if k == 40 then 0 else 5_000_000

-- 500,000 go to the wrapper's vault, and then 200,000 to the user.
abbrev after_flush : Market bank false 1 10
after_flush = record {
  ledger = λ k. if k == 24 then 3_500_000 else if k == 40 then 500_000 else opening k;
  pool = flushed_pool;
}

abbrev flush_others : List AccountInfo
flush_others =
    (flush_accounts pool).vault
    ∷ (flush_accounts pool).vault_auth
    ∷ (flush_accounts pool).slab
    ∷ (flush_accounts pool).wrapper_vault
    ∷ (flush_accounts pool).percolator_program
    ∷ (flush_accounts pool).token_program
    ∷ []

flush_run :
    process bank false 1
      (admin ∷ pool_account pool ∷ flush_others)
      (3 ∷ to_le_bytes 8 500_000)
      opening
    ≡ ok (Outcome.changed flushed_pool after_flush.ledger)
unfolding process serve take_flush unpack unpack_payload Guards.validate_account_not_empty
    Guards.validate_account_owner Guards.validate_account_writable Guards.pool_from_data
    Guards.check_pool Guards.validate_pool_version Guards.derive_vault_authority
    Guards.verify_token_program Guards.read_token_account token_account unpack_account from_le_bytes
    to_le_bytes Insurance.process_flush_to_insurance Insurance.check_wrapper_vault
    Insurance.check_available Insurance.book_flush total_pool_value top_up_insurance move read_back
flush_run = refl

abbrev reduced : StakePool
reduced = record flushed_pool {
  total_withdrawn = 200_000;
  total_lp_supply = 3_600_000;
  junior_balance = 800_000;
  junior_total_lp = 600_000;
}

abbrev after_withdraw : Market bank false 1 10
after_withdraw = record {
  ledger = λ k. if k == 24 then 3_300_000 else if k == 31 then 5_200_000 else after_flush.ledger k;
  pool = reduced;
}

abbrev withdraw_others : List AccountInfo
withdraw_others =
    let a = withdraw_accounts flushed_pool junior_deposit in
    a.user_lp_ata
    ∷ a.lp_mint
    ∷ a.vault
    ∷ a.user_ata
    ∷ a.vault_auth
    ∷ a.deposit_pda
    ∷ a.token_program
    ∷ account 51 0 AccountData.short_bytes
    ∷ []

abbrev user : AccountInfo
user = account 30 0 AccountData.empty

abbrev closed : StakeDeposit
closed = record junior_deposit { is_initialized = 0; lp_amount = 0; junior_byte = 0 }

withdraw_run :
    process bank false 1
      (user ∷ pool_account flushed_pool ∷ withdraw_others)
      (2 ∷ to_le_bytes 8 400_000)
      after_flush.ledger
    ≡ ok (Outcome.recorded reduced closed after_withdraw.ledger)
unfolding process serve take_withdraw unpack unpack_payload Guards.validate_account_not_empty
    Guards.validate_account_owner Guards.validate_account_writable Guards.pool_from_data
    Guards.check_pool Guards.validate_pool_version Guards.derive_vault_authority
    Guards.verify_token_program Guards.read_token_account token_account unpack_account from_le_bytes
    to_le_bytes Accrual.pre_accrue_fee_modes Accrual.vault_balance Accrual.accrue_fees_inner
    Accrual.accrue Accrual.snapshot Accrual.credit_junior distribute_fees weighted_share
    total_pool_value senior_balance effective_junior_balance distribute_loss
    Guards.derive_deposit_pda Guards.deposit_from_data Withdraw.process_withdraw Withdraw.pay_out
    Withdraw.check_withdraw_pool Withdraw.check_withdraw_record Withdraw.check_lp_source
    Withdraw.check_destination Withdraw.check_record Withdraw.withdrawal_value Withdraw.fully_wiped
    Withdraw.enforce_floor Withdraw.redeem Withdraw.debit Withdraw.debit_junior Withdraw.release
    Pricing.calc_junior_collateral_for_withdraw Pricing.calc_collateral_for_withdraw transfer burn
    move read_back
withdraw_run = refl

abbrev start : Market bank false 1 10
start = record { ledger = opening; pool = pool }

abbrev vault_account : TokenAccount
vault_account = record {
  mint = 22;
  owner = 12;
  amount = 4_000_000;
  state = AccountState.initialized;
}

backed : IsBacked bank 12 opening pool
unfolding token_account unpack_account from_le_bytes to_le_bytes
backed = record {
  account = vault_account;
  reads = refl;
  owned = refl;
  covers = omega arith;
  mint_apart = λ h. omega arith;
  slab_apart = λ h. omega arith;
}

traffic : Traffic bank false 1 10 start after_withdraw
unfolding to_le_bytes Guards.derive_vault_authority
traffic =
    Traffic.then after_flush after_withdraw
      (Traffic.then start after_flush Traffic.stay (
        Turn.ours admin (pool_account pool) flush_others (3 ∷ to_le_bytes 8 500_000)
          (Outcome.changed flushed_pool after_flush.ledger) after_flush refl refl (λ h. omega arith)
          flush_run refl))
      (Turn.ours user (pool_account flushed_pool) withdraw_others (2 ∷ to_le_bytes 8 400_000)
        (Outcome.recorded reduced closed after_withdraw.ledger) after_withdraw refl refl
        (λ h. omega arith) withdraw_run refl)

Traffic-IsBacked_example : IsBacked bank 12 after_withdraw.ledger reduced
unfolding Guards.derive_vault_authority
Traffic-IsBacked_example =
    Traffic-IsBacked bank false 1 10 bank-IsLawful start after_withdraw traffic refl backed

-- 1,000,000 senior shares of 3,000,000.
withdrawal-funded_example :
    (t : TokenAccount) × (token_account bank opening 24 ≡ some t)
    × (t.owner ≡ 12)
    × (1_000_000 ≤ t.amount)
unfolding Withdraw.withdrawal_value senior_balance total_pool_value effective_junior_balance
    distribute_loss Pricing.calc_senior_collateral_for_withdraw Pricing.calc_collateral_for_withdraw
withdrawal-funded_example =
    withdrawal-funded bank 12 opening pool false 1_000_000 1_000_000
      (lossy-IsSound 0 0 (omega arith) (omega arith)) backed (omega arith) refl
