-- ===== src/Math/RoundTrip.antt =====
-- What the pricing of src/math.rs guarantees holders: no profit from a deposit followed by a burn,
-- no loss to incumbents, and no payout above the pool's value.
use mathlib.Core.Path.{subst₂}
use native.Mathlib.Nat.{mul-le-mul, le_refl}
use native.Mathlib.Decide.{dec_le}
use percolator_stake.Prelude.{ℕ, ◌+◌, ◌-◌, ◌*◌, ◌≤◌, ◌≡◌, some, arith}
use percolator_stake.Math.Pricing.{
  calc_lp_for_deposit, calc_collateral_for_withdraw, calc_lp-floor, calc_collateral-floor,
}

-- cancellation of a common positive factor
le_of_mul-suc : (a b k : ℕ) → a * (k + 1) ≤ b * (k + 1) → a ≤ b
le_of_mul-suc a b k h = grind arith

-- Whatever the supply and the value, the shares that a deposit mints redeem at once for at most the
-- deposited amount.
pub withdraw_after_deposit-le :
    (supply value amount lp out : ℕ)
    → calc_lp_for_deposit supply value amount ≡ some lp
    → calc_collateral_for_withdraw (supply + lp) (value + amount) lp ≡ some out
    → out ≤ amount
withdraw_after_deposit-le supply value amount lp out minted paid =
    le_of_mul-suc out amount (supply + lp) (
      omega (
        arith,
        calc_lp-floor supply value amount lp minted,
        calc_collateral-floor (supply + lp) (value + amount) lp out paid,
      ))

-- A deposit never lowers the offset share price of the incumbents.
pub deposit_price-le :
    (supply value amount lp : ℕ)
    → calc_lp_for_deposit supply value amount ≡ some lp
    → (value + 1) * (supply + lp + 1) ≤ (value + amount + 1) * (supply + 1)
deposit_price-le supply value amount lp minted =
    omega (arith, calc_lp-floor supply value amount lp minted)

burn-le : (s v lp out : ℕ) → lp ≤ s → out * (s + 1) ≤ lp * (v + 1) → out ≤ v
burn-le s v lp out bound h =
    let covered : lp * (v + 1) ≤ s * (v + 1) = mul-le-mul bound (le_refl (v + 1)) in
    elim (dec_le out v) [
      | yes p ↦ p
      | no above ↦
          let over : v + 1 ≤ out = omega arith in
          absurd (omega (arith, mul-le-mul over (le_refl (s + 1))))
    ]

burn_price :
    (r t lp out : ℕ)
    → out * (lp + r + 1) ≤ lp * (out + t + 1)
    → (out + t + 1) * (r + 1) ≤ (t + 1) * (lp + r + 1)
burn_price r t lp out h = omega arith

-- A burn of at most the supply pays at most the value and does not lower the offset share price of
-- the holders who stay.
pub withdraw_price-le :
    (supply value lp out : ℕ)
    → lp ≤ supply
    → calc_collateral_for_withdraw supply value lp ≡ some out
    → (out ≤ value) × ((value + 1) * (supply - lp + 1) ≤ (value - out + 1) * (supply + 1))
withdraw_price-le supply value lp out bound paid =
    let (_, low, _) = calc_collateral-floor supply value lp out paid in
    let small : out ≤ value = burn-le supply value lp out bound low in
    let split_supply : lp + (supply - lp) ≡ supply = omega arith in
    let split_value : out + (value - out) ≡ value = omega arith in
    (
      small,
      subst₂ (λ s v. (v + 1) * (supply - lp + 1) ≤ (value - out + 1) * (s + 1)) split_supply
          split_value
          (burn_price (supply - lp) (value - out) lp out (rw (split_supply, split_value) low)),
    )
