-- ===== src/Tests/System.antt =====
-- A pool from its initialisation through a deposit and a withdrawal.
use percolator_stake.Prelude.{◌≡◌, inl, refl, ◌∷◌, [], true, arith, false}
use percolator_stake.Error.{ok}
use percolator_stake.Bytes.{to_le_bytes, from_le_bytes}
use percolator_stake.Math.Pricing
use percolator_stake.Math.Tranche.{distribute_loss}
use percolator_stake.State.{StakePool, StakeDeposit, stake_deposit_discriminator}
use percolator_stake.State.Pool.{total_pool_value, senior_balance, effective_junior_balance}
use percolator_stake.State.Pool
use percolator_stake.SplToken.State.{token_account, unpack_mint}
use percolator_stake.Runtime.{Clock, AccountData}
use percolator_stake.Processor.Guards
use percolator_stake.Processor.Accrual
use percolator_stake.Processor.Deposit
use percolator_stake.Processor.Withdraw
use percolator_stake.Processor.Init
use percolator_stake.Processor.Insurance.{Moved}
use percolator_stake.Solvency.{IsSound}
use percolator_stake.Solvency.Init.{IsReady, init_pool-IsReady}
use percolator_stake.Solvency.System.{World, Step, Reach}
use percolator_stake.Solvency.System.Books.{IsBooked, reach-IsBooked}
use percolator_stake.Solvency.System.Sound.{IsWithin, reach-IsSound}
use percolator_stake.Solvency.System.Performs.{Performs}
use percolator_stake.Solvency.System.Refinement.{reach-Performs}
use percolator_stake.Solvency.Later.{IsLater}
use percolator_stake.Solvency.System.Lifetime.{Steps, Steps-IsLater, resolved_final}
use percolator_stake.Processor.Config.{process_set_market_resolved}
use percolator_stake.Tests.Accounts.{
  pool_account, init_accounts, deposit_accounts, withdraw_accounts, admin,
}
use percolator_stake.Tests.Fixtures.{market_runtime, clock}

abbrev fresh : StakePool
unfolding Init.fresh_pool
fresh = Init.fresh_pool init_accounts 254 254 100 0

abbrev after_init : Moved market_runtime
after_init = record { pool = fresh; ledger = 0 }

init_run : Init.process_init_pool market_runtime false 1 init_accounts 100 0 0 ≡ ok after_init
unfolding Init.process_init_pool Init.check_init Init.set_up Init.fresh_pool
    Guards.validate_cooldown_slots Guards.derive_pool_pda Guards.derive_vault_authority
    Guards.verify_token_program Guards.create_or_adopt_pda unpack_mint from_le_bytes to_le_bytes
init_run = refl

init_pool-IsReady_example :
    (admin.is_signer ≡ true)
    × (init_accounts.pool_pda.content ≡ AccountData.empty)
    × (init_accounts.pool_pda.key ≡ (Guards.derive_pool_pda market_runtime 1 20).0)
    × IsReady fresh 21 0
init_pool-IsReady_example =
    init_pool-IsReady market_runtime false 1 init_accounts 100 0 0 0 after_init
      (inl (refl, init_run))

abbrev held : StakeDeposit
held = record Deposit.zeroed {
  is_initialized = 1;
  bump = 254;
  pool = 10;
  user = 30;
  last_deposit_slot = 1_000;
  lp_amount = 5_000;
  discriminator = stake_deposit_discriminator;
}

abbrev after_deposit : Deposit.Deposited market_runtime
after_deposit = record {
  pool = record fresh { total_deposited = 5_000; total_lp_supply = 5_000 };
  deposit = held;
  ledger = 0;
}

deposit_run :
    Deposit.process_deposit market_runtime 1 (deposit_accounts fresh) clock 5_000 0
    ≡ ok after_deposit
unfolding Guards.validate_account_not_empty Guards.validate_account_owner
    Guards.validate_account_writable Guards.pool_from_data Guards.check_pool
    Guards.validate_pool_version Guards.derive_vault_authority Guards.verify_token_program
    Guards.read_token_account token_account from_le_bytes to_le_bytes Accrual.pre_accrue_fee_modes
    Accrual.vault_balance Accrual.accrue_fees_inner total_pool_value senior_balance
    effective_junior_balance distribute_loss Guards.derive_deposit_pda Guards.deposit_from_data
    Guards.validate_source_account Guards.validate_lp_recipient_account
    Guards.apply_minimum_liquidity_lock Guards.create_or_adopt_pda Deposit.process_deposit
    Deposit.check_deposit Deposit.check_deposit_cap Deposit.check_senior_loss Deposit.price_senior
    Deposit.exchange Deposit.credit_senior Deposit.raise_mark Deposit.open_record
    Deposit.record_senior Deposit.claim Deposit.stamp Pool.calc_lp_for_deposit
    Pricing.calc_lp_for_deposit Pricing.pro_rata_lp Init.fresh_pool
deposit_run = refl

abbrev later : Clock
later = record { slot = 2_000; epoch = 3 }

abbrev after_withdraw : Withdraw.Withdrawn market_runtime
after_withdraw = record {
  pool = record after_deposit.pool { total_withdrawn = 2_000; total_lp_supply = 3_000 };
  deposit = record held { lp_amount = 3_000 };
  ledger = 5_000;
  paid = 2_000;
}

withdraw_run :
    Withdraw.process_withdraw market_runtime 1
      (withdraw_accounts after_deposit.pool held)
      later
      2_000
      5_000
    ≡ ok after_withdraw
unfolding Guards.validate_account_not_empty Guards.validate_account_owner
    Guards.validate_account_writable Guards.pool_from_data Guards.check_pool
    Guards.validate_pool_version Guards.derive_vault_authority Guards.verify_token_program
    Guards.read_token_account token_account from_le_bytes to_le_bytes Accrual.pre_accrue_fee_modes
    Accrual.vault_balance Accrual.accrue_fees_inner total_pool_value senior_balance
    effective_junior_balance distribute_loss Guards.derive_deposit_pda Guards.deposit_from_data
    Withdraw.process_withdraw Withdraw.pay_out Withdraw.check_withdraw_pool
    Withdraw.check_withdraw_record Withdraw.check_lp_source Withdraw.check_destination
    Withdraw.check_record Withdraw.withdrawal_value Withdraw.fully_wiped Withdraw.enforce_floor
    Withdraw.redeem Withdraw.debit Withdraw.release Pool.calc_collateral_for_withdraw
    Pricing.calc_collateral_for_withdraw Init.fresh_pool
withdraw_run = refl

abbrev world : World
world = record { pool = after_withdraw.pool; records = after_withdraw.deposit ∷ [] }

abbrev reached : Reach market_runtime 1 false world
reached =
    Reach.next _ _
      (Reach.next _ _
        (Reach.next _ _ (Reach.init_pool init_accounts 100 0 0 after_init init_run)
          (Step.new_user fresh []))
        (Step.deposit (deposit_accounts fresh) clock 5_000 0 fresh [] [] Deposit.zeroed
          after_deposit refl refl deposit_run))
      (Step.withdraw (withdraw_accounts after_deposit.pool held) later 2_000 5_000
        after_deposit.pool [] [] held after_withdraw refl refl withdraw_run)

reach-IsBooked_example : IsBooked world
reach-IsBooked_example = reach-IsBooked market_runtime 1 false world reached

within : IsWithin market_runtime 1 false world reached
unfolding Init.fresh_pool
within = (((tt, omega arith), omega arith), omega arith)

reach-IsSound_example : IsSound world.pool
reach-IsSound_example = reach-IsSound market_runtime 1 false world reached within

-- The withdrawal of 2,000 shares from the state before it.
abbrev deposited : World
deposited = record { pool = after_deposit.pool; records = held ∷ [] }

abbrev before_withdrawal : Reach market_runtime 1 false deposited
before_withdrawal =
    Reach.next _ _
      (Reach.next _ _ (Reach.init_pool init_accounts 100 0 0 after_init init_run)
        (Step.new_user fresh []))
      (Step.deposit (deposit_accounts fresh) clock 5_000 0 fresh [] [] Deposit.zeroed after_deposit
        refl refl deposit_run)

abbrev withdrawal : Step market_runtime 1 deposited world
withdrawal =
    Step.withdraw (withdraw_accounts after_deposit.pool held) later 2_000 5_000 after_deposit.pool
      [] [] held after_withdraw refl refl withdraw_run

earlier : IsWithin market_runtime 1 false deposited before_withdrawal
unfolding Init.fresh_pool
earlier = ((tt, omega arith), omega arith)

reach-Performs_example : Performs market_runtime 1 deposited world withdrawal
unfolding Init.fresh_pool
reach-Performs_example =
    reach-Performs market_runtime 1 false deposited world before_withdrawal withdrawal earlier
      (omega arith)

abbrev started : World
started = record { pool = fresh; records = [] }

abbrev steps : Steps market_runtime 1 started world
steps =
    Steps.then _ _
      (Steps.then _ _ (Steps.then _ _ Steps.stay (Step.new_user fresh [])) (
        Step.deposit (deposit_accounts fresh) clock 5_000 0 fresh [] [] Deposit.zeroed after_deposit
          refl refl deposit_run))
      (Step.withdraw (withdraw_accounts after_deposit.pool held) later 2_000 5_000
        after_deposit.pool [] [] held after_withdraw refl refl withdraw_run)

Steps-IsLater_example : IsLater fresh world.pool
Steps-IsLater_example = Steps-IsLater market_runtime 1 started world steps

abbrev over : StakePool
over = record fresh { market_resolved_byte = 1 }

resolved_final_example :
    ¬ (
      Deposit.process_deposit market_runtime 1 (deposit_accounts over) clock 5_000 0
      ≡ ok after_deposit)
    × ¬ (
        Deposit.process_deposit_junior market_runtime 1 (deposit_accounts over) clock 5_000 0
        ≡ ok after_deposit)
    × ¬ (process_set_market_resolved 1 admin (pool_account over) ≡ ok over)
resolved_final_example =
    resolved_final market_runtime 1 (record { pool = over; records = [] })
      (record { pool = over; records = Deposit.zeroed ∷ [] }) (deposit_accounts over) clock 5_000 0
      admin (pool_account over) after_deposit over (λ h. ground arith)
      (Steps.then _ _ Steps.stay (Step.new_user over [])) refl refl
