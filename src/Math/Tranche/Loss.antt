-- ===== src/Math/Tranche/Loss.antt =====
-- The order in which the tranches of `distribute_loss` bear a loss.
use percolator_stake.Prelude.{ℕ, ◌+◌, ◌-◌, ◌≤◌, min, ◌≡◌, ◌⊎◌, true, false, arith, u64_max}
use percolator_stake.Math.Tranche.{distribute_loss, senior_protected}

-- For balances whose sum fits u64, the two shares of a loss add up to the loss capped at the
-- balances, and senior loses only after junior has lost everything, as senior_protected says.
pub distribute_loss_waterfall :
    (junior senior loss : ℕ)
    → junior + senior ≤ u64_max
    → let (junior_loss, senior_loss) = distribute_loss junior senior loss in
      (junior_loss + senior_loss ≡ min loss (junior + senior))
      × (junior_loss ≤ junior)
      × (senior_loss ≤ senior)
      × ((senior_protected junior senior loss ≡ true) × (senior_loss ≡ 0)
          ⊎ (senior_protected junior senior loss ≡ false)
            × (junior_loss ≡ junior)
            × (senior_loss ≡ min (loss - junior) senior))
unfolding distribute_loss senior_protected
distribute_loss_waterfall junior senior loss h = ground arith

-- The junior share does not depend on the senior balance.
pub distribute_loss-junior :
    (junior senior loss : ℕ)
    → junior ≤ u64_max
    → (distribute_loss junior senior loss).0 ≡ min loss junior
unfolding distribute_loss
distribute_loss-junior junior senior loss h = ground arith
