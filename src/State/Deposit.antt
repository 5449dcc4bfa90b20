-- ===== src/State/Deposit.antt =====
-- The methods of `impl StakeDeposit` in src/state.rs.
use percolator_stake.Prelude.{Bool, ◌==◌}
use percolator_stake.State.{StakeDeposit, stake_deposit_discriminator, flag}

abbrev pub set_discriminator : StakeDeposit → StakeDeposit
set_discriminator d = record d { discriminator = stake_deposit_discriminator }

abbrev pub validate_discriminator : StakeDeposit → Bool
validate_discriminator d = d.discriminator == stake_deposit_discriminator

abbrev pub is_junior_deposit : StakeDeposit → Bool
is_junior_deposit d = d.junior_byte == 1

abbrev pub set_junior_deposit : StakeDeposit → Bool → StakeDeposit
set_junior_deposit d v = record d { junior_byte = flag v }
