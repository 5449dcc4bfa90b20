-- ===== src/Tests/Handlers.antt =====
-- Runs of whole handlers on the fixture pool.
use percolator_stake.Prelude.{ℕ, refl, inl, ◌≡◌, ◌≤◌, arith}
use percolator_stake.Error.{ok}
use percolator_stake.State.{StakePool, StakeDeposit}
use percolator_stake.State.Pool.{
  total_pool_value, senior_balance, effective_junior_balance, wrapper_recoverable,
}
use percolator_stake.Math.Tranche.{distribute_loss, distribute_fees, weighted_share}
use percolator_stake.Math.Pricing
use percolator_stake.Bytes.{to_le_bytes, from_le_bytes}
use percolator_stake.SplToken.State.{token_account}
use percolator_stake.Processor.Guards
use percolator_stake.Processor.Accrual
use percolator_stake.Processor.Deposit
use percolator_stake.Processor.Withdraw
use percolator_stake.Processor.Insurance
use percolator_stake.Solvency.{IsSound}
use percolator_stake.Solvency.Freeze.{process_withdraw_stuck}
use percolator_stake.Tests.Accounts.{
  deposit_accounts, withdraw_accounts, flush_accounts, return_accounts, recover_accounts,
  accrue_accounts,
}
use percolator_stake.Tests.Fixtures.{
  pool, flushed_pool, drained_pool, junior_deposit, senior_deposit, clock, runtime,
}

-- A fixture pool with the losses given.
pub lossy-IsSound :
    (flushed returned : ℕ)
    → flushed ≤ 4_000_000
    → returned ≤ flushed
    → IsSound (record pool { total_flushed = flushed; total_returned = returned })
lossy-IsSound flushed returned h k = record {
  junior_fits = omega arith;
  solvent = omega arith;
  covered = omega arith;
  within = k;
  settled = omega arith;
  shares = omega arith;
  inactive = inl refl;
}

abbrev record_after : (lp junior : ℕ) → StakeDeposit
record_after lp junior = record junior_deposit {
  last_deposit_slot = 1_000;
  lp_amount = lp;
  junior_byte = junior;
}

-- The vault holds 100,000 more than the pool's value: junior, at twice the weight, gets 40,000.
abbrev after_junior : Deposit.Deposited (runtime 4_100_000)
after_junior = record {
  pool = record pool {
    total_fees_earned = 100_000;
    total_deposited = 4_300_000;
    total_lp_supply = 4_288_461;
    junior_balance = 1_340_000;
    junior_total_lp = 1_288_461;
  };
  deposit = record_after 288_461 1;
  ledger = tt;
}

deposit_junior_run :
    Deposit.process_deposit_junior (runtime 4_100_000) 1 (deposit_accounts pool) clock 300_000 tt
    ≡ ok after_junior
unfolding Guards.validate_account_not_empty Guards.validate_account_owner
    Guards.validate_account_writable Guards.pool_from_data Guards.check_pool
    Guards.validate_pool_version Guards.derive_vault_authority Guards.verify_token_program
    Guards.read_token_account token_account from_le_bytes to_le_bytes Accrual.pre_accrue_fee_modes
    Accrual.vault_balance Accrual.accrue_fees_inner Accrual.accrue Accrual.snapshot
    Accrual.credit_junior distribute_fees weighted_share total_pool_value senior_balance
    effective_junior_balance distribute_loss Guards.derive_deposit_pda
    Guards.validate_source_account Guards.validate_lp_recipient_account
    Guards.apply_minimum_liquidity_lock Guards.create_or_adopt_pda Guards.deposit_from_data
    Deposit.process_deposit Deposit.process_deposit_junior Deposit.check_deposit
    Deposit.check_deposit_cap Deposit.check_senior_loss Deposit.check_junior_loss
    Deposit.price_senior Deposit.price_junior Deposit.exchange Deposit.credit_senior
    Deposit.credit_junior Deposit.raise_mark Deposit.open_record Deposit.record_senior
    Deposit.record_junior Deposit.claim Deposit.stamp Pricing.calc_senior_lp_for_deposit
    Pricing.calc_junior_lp_for_deposit Pricing.calc_lp_for_deposit Pricing.pro_rata_lp
deposit_junior_run = refl

abbrev after_flush : Insurance.Moved (runtime 4_000_000)
after_flush = record { pool = record pool { total_flushed = 3_500_000 }; ledger = tt }

flush_run :
    Insurance.process_flush_to_insurance (runtime 4_000_000) 1 (flush_accounts pool) 3_500_000 tt
    ≡ ok after_flush
unfolding Guards.validate_account_not_empty Guards.validate_account_owner
    Guards.validate_account_writable Guards.pool_from_data Guards.check_pool
    Guards.validate_pool_version Guards.derive_vault_authority Guards.verify_token_program
    Guards.read_token_account token_account from_le_bytes to_le_bytes Guards.validate_source_account
    Insurance.process_flush_to_insurance Insurance.process_return_insurance
    Insurance.process_recover_flushed_insurance Insurance.check_wrapper_vault
    Insurance.check_available Insurance.check_outstanding Insurance.check_recoverable
    Insurance.book_flush Insurance.book_return Insurance.book_recovery total_pool_value
    wrapper_recoverable
flush_run = refl

abbrev after_return : Insurance.Moved (runtime 3_500_000)
after_return = record { pool = record flushed_pool { total_returned = 200_000 }; ledger = tt }

return_run :
    Insurance.process_return_insurance
      (runtime 3_500_000)
      1
      (return_accounts flushed_pool)
      200_000
      tt
    ≡ ok after_return
unfolding Guards.validate_account_not_empty Guards.validate_account_owner
    Guards.validate_account_writable Guards.pool_from_data Guards.check_pool
    Guards.validate_pool_version Guards.derive_vault_authority Guards.verify_token_program
    Guards.read_token_account token_account from_le_bytes to_le_bytes Guards.validate_source_account
    Insurance.process_flush_to_insurance Insurance.process_return_insurance
    Insurance.process_recover_flushed_insurance Insurance.check_wrapper_vault
    Insurance.check_available Insurance.check_outstanding Insurance.check_recoverable
    Insurance.book_flush Insurance.book_return Insurance.book_recovery total_pool_value
    wrapper_recoverable
return_run = refl

abbrev after_recover : Insurance.Moved (runtime 3_500_000)
after_recover = record {
  pool = record flushed_pool { total_returned = 500_000; total_recovered_from_wrapper = 500_000 };
  ledger = tt;
}

recover_run :
    Insurance.process_recover_flushed_insurance
      (runtime 3_500_000)
      1
      (recover_accounts flushed_pool)
      500_000
      tt
    ≡ ok after_recover
unfolding Guards.validate_account_not_empty Guards.validate_account_owner
    Guards.validate_account_writable Guards.pool_from_data Guards.check_pool
    Guards.validate_pool_version Guards.derive_vault_authority Guards.verify_token_program
    Guards.read_token_account token_account from_le_bytes to_le_bytes Guards.validate_source_account
    Insurance.process_flush_to_insurance Insurance.process_return_insurance
    Insurance.process_recover_flushed_insurance Insurance.check_wrapper_vault
    Insurance.check_available Insurance.check_outstanding Insurance.check_recoverable
    Insurance.book_flush Insurance.book_return Insurance.book_recovery total_pool_value
    wrapper_recoverable
recover_run = refl

abbrev after_accrual : StakePool
after_accrual = record pool {
  total_fees_earned = 100_000;
  junior_balance = 1_040_000;
  last_fee_accrual_slot = 1_000;
  last_vault_snapshot = 4_100_000;
}

accrual_run :
    Accrual.process_accrue_fees (runtime 4_100_000) 1 (accrue_accounts 4_100_000 pool) clock tt
    ≡ ok after_accrual
unfolding Guards.validate_account_not_empty Guards.validate_account_owner
    Guards.validate_account_writable Guards.pool_from_data Guards.check_pool
    Guards.validate_pool_version Guards.derive_vault_authority Guards.verify_token_program
    Guards.read_token_account token_account from_le_bytes to_le_bytes Accrual.process_accrue_fees
    Guards.derive_pool_pda Accrual.vault_balance Accrual.accrue_fees_inner Accrual.accrue
    Accrual.snapshot Accrual.credit_junior distribute_fees weighted_share total_pool_value
    senior_balance effective_junior_balance distribute_loss
accrual_run = refl

abbrev after_stuck : Withdraw.Withdrawn (runtime 500_001)
after_stuck = record {
  pool = record drained_pool { total_withdrawn = 66_666; total_lp_supply = 3_600_000 };
  deposit = record senior_deposit { is_initialized = 0; lp_amount = 0 };
  ledger = tt;
  paid = 66_666;
}

-- The vault got one unit too many while the flush leaves less than the stored junior balance.
process_withdraw_stuck_example : ¬ (
    Withdraw.process_withdraw
      (runtime 500_001)
      1
      (withdraw_accounts drained_pool senior_deposit)
      clock
      400_000
      tt
    ≡ ok after_stuck)
unfolding Accrual.vault_balance token_account from_le_bytes to_le_bytes total_pool_value
process_withdraw_stuck_example =
    process_withdraw_stuck (runtime 500_001) 1 (withdraw_accounts drained_pool senior_deposit) clock
      400_000 tt drained_pool senior_deposit 500_001 500_000 after_stuck refl refl (omega arith)
      refl (omega arith) (omega arith) refl refl (omega arith) (omega arith)
