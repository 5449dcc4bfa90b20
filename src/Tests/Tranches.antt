-- ===== src/Tests/Tranches.antt =====
-- The two tranches of the fixture pool, and splits on concrete numbers.
use percolator_stake.Prelude.{
  ℕ, ◌+◌, ◌-◌, ◌*◌, ◌/◌, ◌≡◌, ◌≤◌, ◌<◌, ◌⊎◌, min, refl, true, false, some, arith,
}
use percolator_stake.State.{StakePool}
use percolator_stake.State.Pool.{
  total_pool_value, senior_balance, effective_junior_balance, value_in, value_out,
}
use percolator_stake.Math.Pricing
use percolator_stake.Math.Tranche.{
  distribute_loss, distribute_fees, senior_protected, weighted_share,
}
use percolator_stake.Math.Tranche.Loss.{distribute_loss_waterfall}
use percolator_stake.Math.Tranche.Fees.{distribute_fees_exact}
use percolator_stake.Processor.Accrual
use percolator_stake.Processor.Deposit
use percolator_stake.Processor.Withdraw
use percolator_stake.Processor.Insurance
use percolator_stake.Solvency.Accrual.{Booked, accrue_fees_inner-books}
use percolator_stake.Solvency.RoundTrip.{senior_round_trip-le, junior_round_trip-le}
use percolator_stake.Solvency.Isolation.{flush_waterfall, junior_withdrawal_isolated}
use percolator_stake.Tests.Fixtures.{pool, flushed_pool, drained_pool}
use percolator_stake.Tests.Handlers.{lossy-IsSound}

distribute_loss_waterfall_example :
    let (junior_loss, senior_loss) = distribute_loss 100 300 150 in
    (junior_loss + senior_loss ≡ min 150 400)
    × (junior_loss ≤ 100)
    × (senior_loss ≤ 300)
    × ((senior_protected 100 300 150 ≡ true) × (senior_loss ≡ 0)
        ⊎ (senior_protected 100 300 150 ≡ false) × (junior_loss ≡ 100) × (senior_loss ≡ min 50 300))
distribute_loss_waterfall_example = distribute_loss_waterfall 100 300 150 (omega arith)

distribute_fees_exact_example :
    let (junior_fee, senior_fee) = distribute_fees 1_000_000 3_000_000 20_000 100_000 in
    let total = 1_000_000 * 20_000 + 3_000_000 * 10_000 in
    (total ≡ 0) × (junior_fee ≡ 0) × (senior_fee ≡ 0)
    ⊎ (0 < total)
      × (junior_fee ≡ 100_000 * (1_000_000 * 20_000) / total)
      × (junior_fee + senior_fee ≡ 100_000)
distribute_fees_exact_example =
    distribute_fees_exact 1_000_000 3_000_000 20_000 100_000 (omega arith) (omega arith)
      (omega arith) (omega arith)

flush_waterfall_example :
    (effective_junior_balance drained_pool ≡ effective_junior_balance pool - 3_500_000)
    × (500_000 + (3_500_000 - effective_junior_balance pool) ≡ 3_000_000)
unfolding total_pool_value senior_balance effective_junior_balance distribute_loss
    Insurance.check_available Insurance.book_flush
flush_waterfall_example =
    flush_waterfall pool drained_pool 3_500_000 3_000_000 500_000
      (lossy-IsSound 0 0 (omega arith) (omega arith)) refl refl refl refl

-- 400,000 of the 1,000,000 junior shares, worth half since the flush.
abbrev withdrawn : StakePool
withdrawn = record flushed_pool {
  total_withdrawn = 200_000;
  total_lp_supply = 3_600_000;
  junior_balance = 800_000;
  junior_total_lp = 600_000;
}

junior_withdrawal_isolated_example :
    (0 < 600_000)
      × (2_500_000 + 500_000 ≡ 3_000_000)
      × (effective_junior_balance withdrawn + 200_000 ≡ effective_junior_balance flushed_pool)
    ⊎ (withdrawn.junior_total_lp ≡ 0)
      × (3_000_000 + 200_000 ≡ 3_000_000 + effective_junior_balance flushed_pool)
      × (effective_junior_balance withdrawn ≡ 0)
      × (200_000 * (400_000 + 1) ≤ 400_000 * (effective_junior_balance flushed_pool + 1))
      × (400_000 * (effective_junior_balance flushed_pool + 1) < (200_000 + 1) * (400_000 + 1))
unfolding total_pool_value senior_balance effective_junior_balance distribute_loss
    Withdraw.withdrawal_value Withdraw.debit Withdraw.debit_junior
    Pricing.calc_junior_collateral_for_withdraw Pricing.calc_collateral_for_withdraw
junior_withdrawal_isolated_example =
    junior_withdrawal_isolated flushed_pool withdrawn 400_000 200_000 3_000_000 3_000_000
      (lossy-IsSound 500_000 0 (omega arith) (omega arith)) refl (omega arith) refl refl refl refl

abbrev paid_senior : StakePool
paid_senior = record flushed_pool { total_withdrawn = 400_000; total_lp_supply = 3_600_000 }

abbrev credited : StakePool
credited = record flushed_pool { total_deposited = 4_300_000; total_lp_supply = 4_300_000 }

senior_round_trip-le_example : 300_000 ≤ 300_000
unfolding total_pool_value senior_balance effective_junior_balance distribute_loss
    Deposit.credit_senior Deposit.price_senior Withdraw.withdrawal_value
    Pricing.calc_senior_lp_for_deposit Pricing.calc_senior_collateral_for_withdraw
    Pricing.calc_lp_for_deposit Pricing.pro_rata_lp Pricing.calc_collateral_for_withdraw
senior_round_trip-le_example =
    senior_round_trip-le flushed_pool credited 300_000 300_000 300_000
      (lossy-IsSound 500_000 0 (omega arith) (omega arith)) refl refl refl

abbrev credited_junior : StakePool
credited_junior = record pool {
  total_deposited = 4_300_000;
  total_lp_supply = 4_300_000;
  junior_balance = 1_300_000;
  junior_total_lp = 1_300_000;
}

junior_round_trip-le_example : 300_000 ≤ 300_000
unfolding total_pool_value senior_balance effective_junior_balance distribute_loss
    Deposit.credit_senior Deposit.credit_junior Deposit.check_junior_loss Deposit.price_junior
    Withdraw.withdrawal_value Pricing.calc_junior_lp_for_deposit
    Pricing.calc_junior_collateral_for_withdraw Pricing.calc_lp_for_deposit Pricing.pro_rata_lp
    Pricing.calc_collateral_for_withdraw
junior_round_trip-le_example =
    junior_round_trip-le pool credited_junior 300_000 300_000 300_000
      (lossy-IsSound 0 0 (omega arith) (omega arith)) refl refl refl refl refl

abbrev accrued : StakePool
accrued = record pool { total_fees_earned = 100_000; junior_balance = 1_040_000 }

accrue_fees_inner-books_example :
    (v : ℕ) × (total_pool_value pool ≡ some v)
    × ((accrued ≡ pool) × ((4_100_000 ≤ v) ⊎ (pool.total_lp_supply ≡ 0))
        ⊎ (v < 4_100_000)
          × (0 < pool.total_lp_supply)
          × Booked pool accrued (4_100_000 - v)
          × (value_in accrued ≡ value_out accrued + 4_100_000))
unfolding Accrual.accrue_fees_inner Accrual.accrue Accrual.snapshot Accrual.credit_junior
    distribute_fees weighted_share total_pool_value senior_balance effective_junior_balance
    distribute_loss
accrue_fees_inner-books_example = accrue_fees_inner-books pool accrued 4_100_000 refl
