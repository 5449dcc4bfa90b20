-- ===== src/Math/Pricing.antt =====
-- Shares for a deposit and collateral for a burn: src/math.rs, `calc_lp_for_deposit`,
-- `calc_collateral_for_withdraw`, their tranche variants and the two plain pool values.
use percolator_stake.Prelude.{
  ℕ, ◌+◌, ◌*◌, ◌/◌, ◌≤◌, ◌<◌, ◌≡◌, Option, none, some, ◌&&◌, ◌⊎◌, div_floor, arith, ◌==◌,
  if◌then◌else◌, u64_max, u128_max, checked_add, checked_sub, checked_mul, checked_div, narrow,
}
use percolator_stake.Prelude.Checked.{◌>>=◌}

abbrev pub virtual_shares : ℕ
virtual_shares = 1

abbrev pub virtual_assets : ℕ
virtual_assets = 1

-- The pro-rata branch of `calc_lp_for_deposit`, in u128.
unfoldable pub pro_rata_lp : (supply value amount : ℕ) → Option ℕ
pro_rata_lp supply value amount = do
  shares ← checked_add u128_max supply virtual_shares
  product ← checked_mul u128_max amount shares
  assets ← checked_add u128_max value virtual_assets
  lp ← checked_div product assets
  narrow u64_max lp

unfoldable pub calc_lp_for_deposit :
    (total_lp_supply total_pool_value deposit_amount : ℕ) → Option ℕ
calc_lp_for_deposit supply value amount =
    if supply == 0 && value == 0
    then some amount
    else if supply == 0
    then none
    else if value == 0
    then none
    else pro_rata_lp supply value amount

unfoldable pub calc_collateral_for_withdraw :
    (total_lp_supply total_pool_value lp_amount : ℕ) → Option ℕ
calc_collateral_for_withdraw supply value lp_amount = if supply == 0 then none else do
  assets ← checked_add u128_max value virtual_assets
  product ← checked_mul u128_max lp_amount assets
  shares ← checked_add u128_max supply virtual_shares
  collateral ← checked_div product shares
  narrow u64_max collateral

unfoldable pub pool_value : (total_deposited total_withdrawn : ℕ) → Option ℕ
pool_value total_deposited total_withdrawn = checked_sub total_deposited total_withdrawn

unfoldable pub pool_value_with_fees :
    (total_deposited total_withdrawn total_fees_earned : ℕ) → Option ℕ
pool_value_with_fees total_deposited total_withdrawn total_fees_earned = do
  value ← checked_sub total_deposited total_withdrawn
  checked_add u64_max value total_fees_earned

unfoldable pub calc_junior_lp_for_deposit :
    (junior_total_lp junior_balance deposit_amount : ℕ) → Option ℕ
calc_junior_lp_for_deposit lp balance amount = calc_lp_for_deposit lp balance amount

unfoldable pub calc_senior_lp_for_deposit :
    (senior_total_lp senior_balance deposit_amount : ℕ) → Option ℕ
calc_senior_lp_for_deposit lp balance amount = calc_lp_for_deposit lp balance amount

unfoldable pub calc_junior_collateral_for_withdraw :
    (junior_total_lp junior_balance lp_amount : ℕ) → Option ℕ
calc_junior_collateral_for_withdraw lp balance amount =
    calc_collateral_for_withdraw lp balance amount

unfoldable pub calc_senior_collateral_for_withdraw :
    (senior_total_lp senior_balance lp_amount : ℕ) → Option ℕ
calc_senior_collateral_for_withdraw lp balance amount =
    calc_collateral_for_withdraw lp balance amount

pro_rata_lp-div :
    (supply value amount lp : ℕ)
    → pro_rata_lp supply value amount ≡ some lp
    → (lp ≡ amount * (supply + 1) / (value + 1)) × (lp ≤ u64_max)
unfolding pro_rata_lp
pro_rata_lp-div supply value amount lp h = ground arith

calc_collateral-div :
    (supply value lp out : ℕ)
    → calc_collateral_for_withdraw supply value lp ≡ some out
    → (0 < supply) × (out ≡ lp * (value + 1) / (supply + 1)) × (out ≤ u64_max)
unfolding calc_collateral_for_withdraw
calc_collateral-div supply value lp out h = ground arith

-- The two branches of a deposit that mint: 1:1 into an empty pool, pro rata otherwise.
pub calc_lp-cases :
    (supply value amount lp : ℕ)
    → calc_lp_for_deposit supply value amount ≡ some lp
    → ((supply ≡ 0) × (value ≡ 0) × (lp ≡ amount))
      ⊎ ((0 < supply) × (0 < value) × (lp ≡ amount * (supply + 1) / (value + 1)) × (lp ≤ u64_max))
unfolding calc_lp_for_deposit
calc_lp-cases supply value amount lp h = ground (arith, pro_rata_lp-div supply value amount lp)

-- Every priced deposit rounds `amount * (supply + 1) / (value + 1)` down.
pub calc_lp-floor :
    (supply value amount lp : ℕ)
    → calc_lp_for_deposit supply value amount ≡ some lp
    → (lp * (value + 1) ≤ amount * (supply + 1)) × (amount * (supply + 1) < (lp + 1) * (value + 1))
calc_lp-floor supply value amount lp h =
    ground
      (arith, calc_lp-cases supply value amount lp h, div_floor (amount * (supply + 1)) (value + 1))

-- The payout of a burn is `lp * (value + 1) / (supply + 1)` rounded down.
pub calc_collateral-floor :
    (supply value lp out : ℕ)
    → calc_collateral_for_withdraw supply value lp ≡ some out
    → (0 < supply)
      × (out * (supply + 1) ≤ lp * (value + 1))
      × (lp * (value + 1) < (out + 1) * (supply + 1))
calc_collateral-floor supply value lp out h =
    ground
      (arith, calc_collateral-div supply value lp out h, div_floor (lp * (value + 1)) (supply + 1))
