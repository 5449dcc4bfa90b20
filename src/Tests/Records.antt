-- ===== src/Tests/Records.antt =====
-- Deposit records on concrete shares.
use percolator_stake.Prelude.{◌+◌, ◌≤◌, ◌<◌, ◌⊎◌, min, u64_max, ◌≡◌, refl, arith}
use percolator_stake.Error.{StakeError, custom, ok, err}
use percolator_stake.State.{StakeDeposit, stake_deposit_discriminator}
use percolator_stake.Processor.Deposit.{claim, stamp, record_senior, record_junior}
use percolator_stake.Processor.Deposit.Records.{Handled, Held, record_one_tranche, release_reopens}
use percolator_stake.Processor.Withdraw.{release, check_record}
use percolator_stake.Processor.Withdraw.Record.{IsOwn, check_record_cases}
use percolator_stake.Tests.Fixtures.{pool, junior_deposit, senior_deposit}

abbrev later : StakeDeposit → StakeDeposit
later d = record d { last_deposit_slot = 60; lp_amount = 400_007 }

-- A part of the shares is withdrawn in between.
abbrev reduced : StakeDeposit → StakeDeposit
reduced d = record (later d) { lp_amount = 400_000 }

record_one_tranche_example :
    (record_junior (reduced senior_deposit) 254 10 30 70 5 ≡ err (custom StakeError.wrong_tranche))
    × (record_senior (reduced junior_deposit) 254 10 30 70 5
        ≡ err (custom StakeError.wrong_tranche))
unfolding record_senior record_junior claim stamp release
record_one_tranche_example =
    record_one_tranche senior_deposit (later senior_deposit) (reduced senior_deposit) junior_deposit
      (later junior_deposit) (reduced junior_deposit) 254 10 30 60 7 70 5 refl
      (Held.then _ _ Held.stay (Handled.part 7 (omega arith) refl)) refl
      (Held.then _ _ Held.stay (Handled.part 7 (omega arith) refl))

abbrev emptied : StakeDeposit
emptied = record junior_deposit { is_initialized = 0; lp_amount = 0; junior_byte = 0 }

release_reopens_example :
    (s j : StakeDeposit) × (record_senior emptied 254 10 30 70 5 ≡ ok s)
    × (record_junior emptied 254 10 30 70 5 ≡ ok j)
    × (s.lp_amount ≡ 5)
    × (j.lp_amount ≡ 5)
    × (s.junior_byte ≡ 0)
    × (j.junior_byte ≡ 1)
unfolding release
release_reopens_example = release_reopens junior_deposit emptied 254 10 30 70 5 refl (omega arith)

-- At slot 140, ten slots before the cooldown of 100 ends.
check_record_cases_example :
    let until = min (50 + 100) u64_max in
    let outcome = check_record junior_deposit pool 30 10 (record { slot = 140; epoch = 3 }) 7 in
    ¬ (junior_deposit.discriminator ≡ stake_deposit_discriminator)
      × (outcome ≡ err (custom StakeError.invalid_account))
    ⊎ (junior_deposit.discriminator ≡ stake_deposit_discriminator)
      × ((¬ IsOwn junior_deposit 30 10 × (outcome ≡ err (custom StakeError.unauthorized)))
          ⊎ IsOwn junior_deposit 30 10
            × ((140 < until) × (outcome ≡ err (custom StakeError.cooldown_not_elapsed))
                ⊎ (until ≤ 140)
                  × ((junior_deposit.lp_amount < 7)
                        × (outcome ≡ err (custom StakeError.insufficient_lp_tokens))
                      ⊎ (7 ≤ junior_deposit.lp_amount) × (outcome ≡ ok tt))))
check_record_cases_example =
    check_record_cases junior_deposit pool 30 10 (record { slot = 140; epoch = 3 }) 7
