-- ===== src/Solvency/Vault.antt =====
-- The abstract vault of two tranches that the pool of src/state.rs implements, and that the pool
-- updates of src/processor.rs are its moves.
use percolator_stake.Prelude.{
  ℕ, ◌+◌, ◌-◌, ◌*◌, ◌≤◌, ◌<◌, ◌≡◌, ◌⊎◌, inl, inr, refl, ap, Bool, true, false, some, arith,
  Bool-cases,
}
use percolator_stake.Error.{ok}
use percolator_stake.Runtime.{Clock}
use percolator_stake.State.{StakePool}
use percolator_stake.State.Pool.{
  value_in, value_out, senior_total_lp, senior_balance, effective_junior_balance, total_pool_value,
  refresh_hwm,
}
use percolator_stake.State.Tranches.{effective_junior_balance_lem, total_pool_value_lem}
use percolator_stake.Processor.Deposit.{
  credit_senior, credit_junior, check_junior_loss, raise_mark, price_senior, price_junior,
}
use percolator_stake.Processor.Insurance.{book_flush, book_return, book_recovery, check_available}
use percolator_stake.Processor.Withdraw.{withdrawal_value, debit, enforce_floor, in_junior}
use percolator_stake.Processor.Accrual.{accrue_fees_inner}
use percolator_stake.Solvency.{IsSound}
use percolator_stake.Math.Pricing.{
  calc_lp_for_deposit, calc_junior_lp_for_deposit, calc_lp-floor, calc_collateral-floor,
}
use percolator_stake.Solvency.RoundTrip.{price_senior-priced}
use percolator_stake.Solvency.Isolation.{junior_price-floor}
use percolator_stake.Solvency.Accrual.{accrue_fees_inner-books}
use percolator_stake.Solvency.Withdraw.{
  withdrawal_value-le, withdrawal_value-priced, tranche_value, junior_payout-le, debit_junior-cases,
  enforce_floor-eq, tranche_shares,
}

-- Each tranche has shares and a value.
pub record Vault : Type 0 where
  pub senior_shares : ℕ
  pub senior_value : ℕ
  pub junior_shares : ℕ
  pub junior_value : ℕ

-- What an instruction asks of a vault.
pub data Change : Type 0 where
  deposit : (junior : Bool) (amount lp : ℕ) → Change
  withdrawal : (junior : Bool) (w lp : ℕ) → Change
  loss : (amount : ℕ) → Change
  gain : (amount : ℕ) → Change

-- `n` is `m` at the rate of `there + 1` for `here + 1`, rounded down.
abbrev pub IsFloor : (n m there here : ℕ) → Type 0
IsFloor n m there here =
    (n * (here + 1) ≤ m * (there + 1)) × (m * (there + 1) < (n + 1) * (here + 1))

-- How a vault makes a change. A deposit and a withdrawal change their own tranche, at its price; a
-- withdrawal is within its value, and what the last junior leaves behind goes to senior; a loss
-- takes from junior first; a gain takes from nobody.
pub data Move (x y : Vault) : Change → Type 0 where
  senior_deposit :
      (amount lp : ℕ)
      → IsFloor lp amount x.senior_shares x.senior_value
      → y
        ≡ record x { senior_shares = x.senior_shares + lp; senior_value = x.senior_value + amount }
      → Move x y (Change.deposit false amount lp)
  junior_deposit :
      (amount lp : ℕ)
      → IsFloor lp amount x.junior_shares x.junior_value
      → y
        ≡ record x { junior_shares = x.junior_shares + lp; junior_value = x.junior_value + amount }
      → Move x y (Change.deposit true amount lp)
  senior_withdrawal :
      (w lp : ℕ)
      → w ≤ x.senior_value
      → lp ≤ x.senior_shares
      → IsFloor w lp x.senior_value x.senior_shares
      → y ≡ record x { senior_shares = x.senior_shares - lp; senior_value = x.senior_value - w }
      → Move x y (Change.withdrawal false w lp)
  junior_withdrawal :
      (w lp : ℕ)
      → w ≤ x.junior_value
      → lp < x.junior_shares
      → IsFloor w lp x.junior_value x.junior_shares
      → y ≡ record x { junior_shares = x.junior_shares - lp; junior_value = x.junior_value - w }
      → Move x y (Change.withdrawal true w lp)
  last_junior :
      (w lp : ℕ)
      → w ≤ x.junior_value
      → lp ≡ x.junior_shares
      → IsFloor w lp x.junior_value x.junior_shares
      → y ≡ record x {
        senior_value = x.senior_value + (x.junior_value - w);
        junior_shares = 0;
        junior_value = 0;
      }
      → Move x y (Change.withdrawal true w lp)
  loss :
      (amount : ℕ)
      → amount ≤ x.senior_value + x.junior_value
      → y ≡ record x {
        senior_value = x.senior_value - (amount - x.junior_value);
        junior_value = x.junior_value - amount;
      }
      → Move x y (Change.loss amount)
  gain :
      (amount to_junior : ℕ)
      → to_junior ≤ amount
      → y ≡ record x {
        senior_value = x.senior_value + (amount - to_junior);
        junior_value = x.junior_value + to_junior;
      }
      → Move x y (Change.gain amount)

-- The vault of a pool. The value is not cut to u64.
unfoldable pub vault : StakePool → Vault
vault p = record {
  senior_shares = senior_total_lp p;
  senior_value = value_in p - value_out p - effective_junior_balance p;
  junior_shares = p.junior_total_lp;
  junior_value = effective_junior_balance p;
}

-- Where the code has a senior balance, it is the vault's.
pub vault-senior_balance :
    (p : StakePool) (b : ℕ) → senior_balance p ≡ some b → (vault p).senior_value ≡ b
unfolding vault senior_balance
vault-senior_balance p b e = ground (arith, total_pool_value_lem p)

-- The value behind junior shares is part of the value of a sound pool.
pub junior-le :
    (p : StakePool)
    → IsSound p
    → (effective_junior_balance p ≡ p.junior_balance - (p.total_flushed - p.total_returned))
      × (effective_junior_balance p + value_out p ≤ value_in p)
junior-le p s = let junior = effective_junior_balance_lem p s.junior_fits in (junior, ground arith)

-- A tranche other than the junior one has the senior shares and value of the vault.
senior-vault-of :
    (p : StakePool) (is_junior : Bool) (v : ℕ)
    → IsSound p
    → in_junior p is_junior ≡ false
    → tranche_value p is_junior ≡ some v
    → ((vault p).senior_shares ≡ tranche_shares p is_junior) × ((vault p).senior_value ≡ v)
unfolding vault senior_balance
senior-vault-of p is_junior v s off value =
    let (junior, fits) = junior-le p s in
    let total = total_pool_value_lem p in (ground arith, ground arith)

senior-vault :
    (p : StakePool) (v : ℕ)
    → IsSound p
    → tranche_value p false ≡ some v
    → ((vault p).senior_shares ≡ tranche_shares p false) × ((vault p).senior_value ≡ v)
senior-vault p v s value = senior-vault-of p false v s (ground arith) value

pub credit_senior-Move :
    (p q : StakePool) (amount lp : ℕ)
    → IsSound p
    → price_senior p amount ≡ ok lp
    → credit_senior p amount lp ≡ ok q
    → Move (vault p) (vault q) (Change.deposit false amount lp)
unfolding vault credit_senior
credit_senior-Move p q amount lp s priced e =
    let (junior, fits) = junior-le p s in
    let junior' = effective_junior_balance_lem q in
    let (v, value, minted) = price_senior-priced p amount lp priced in
    let floor = calc_lp-floor (tranche_shares p false) v amount lp minted in
    let (shares, worth) = senior-vault p v s value in
    Move.senior_deposit amount lp (rw (shares, worth) floor) (ground arith)

pub credit_junior-Move :
    (p q : StakePool) (amount lp : ℕ)
    → IsSound p
    → check_junior_loss p ≡ ok tt
    → price_junior p amount ≡ ok lp
    → credit_junior p amount lp ≡ ok q
    → Move (vault p) (vault q) (Change.deposit true amount lp)
unfolding vault credit_senior credit_junior check_junior_loss price_junior
    calc_junior_lp_for_deposit
credit_junior-Move p q amount lp s gate priced e =
    let (junior, fits) = junior-le p s in
    let junior' = effective_junior_balance_lem q in
    let minted : calc_lp_for_deposit p.junior_total_lp (effective_junior_balance p) amount
        ≡ some lp =
      ground arith in
    let floor = calc_lp-floor p.junior_total_lp (effective_junior_balance p) amount lp minted in
    Move.junior_deposit amount lp floor (ground arith)

pub book_flush-Move :
    (p q : StakePool) (amount : ℕ)
    → IsSound p
    → check_available p amount ≡ ok tt
    → book_flush p amount ≡ ok q
    → Move (vault p) (vault q) (Change.loss amount)
unfolding vault check_available book_flush total_pool_value
book_flush-Move p q amount s gate e =
    let (junior, fits) = junior-le p s in
    let junior' = effective_junior_balance_lem q in Move.loss amount (ground arith) (ground arith)

-- What comes back of a loss is a gain.
pub book_return-Move :
    (p q : StakePool) (amount : ℕ)
    → IsSound p
    → p.total_returned + amount ≤ p.total_flushed
    → (book_return p amount ≡ ok q) ⊎ (book_recovery p amount ≡ ok q)
    → Move (vault p) (vault q) (Change.gain amount)
unfolding vault book_return book_recovery
book_return-Move p q amount s within e =
    let (junior, fits) = junior-le p s in
    let junior' = effective_junior_balance_lem q in
    let to_junior = effective_junior_balance q - effective_junior_balance p in
    Move.gain amount to_junior (ground arith) (ground arith)

-- A fee is a gain.
pub accrue_fees_inner-Move :
    (p q : StakePool) (balance : ℕ)
    → IsSound p
    → accrue_fees_inner p balance ≡ ok q
    → Move (vault p) (vault q) (Change.gain (q.total_fees_earned - p.total_fees_earned))
unfolding vault
accrue_fees_inner-Move p q balance s e =
    let (junior, fits) = junior-le p s in
    let junior' = effective_junior_balance_lem q in
    let to_junior = effective_junior_balance q - effective_junior_balance p in
    let books = accrue_fees_inner-books p q balance e in
    Move.gain (q.total_fees_earned - p.total_fees_earned) to_junior (ground arith) (ground arith)

-- The mark is no part of the vault.
pub marked-vault :
    (p q : StakePool) (clock : Clock) (w : ℕ) (wiped : Bool)
    → (raise_mark p clock ≡ ok q) ⊎ (enforce_floor p clock w wiped ≡ ok q)
    → vault q ≡ vault p
unfolding raise_mark refresh_hwm vault effective_junior_balance
marked-vault p q clock w wiped (inl e) =
    let same : q ≡ record p {
      epoch_high_water_tvl = q.epoch_high_water_tvl;
      hwm_last_epoch = q.hwm_last_epoch;
    } =
      ground arith in
    ap vault same
marked-vault p q clock w wiped (inr e) = ap vault (enforce_floor-eq p q clock w wiped e)

debit_senior-Move :
    (p q : StakePool) (junior : Bool) (w lp : ℕ)
    → IsSound p
    → in_junior p junior ≡ false
    → lp ≤ tranche_shares p junior
    → withdrawal_value p junior lp ≡ ok w
    → debit p junior w lp ≡ ok q
    → Move (vault p) (vault q) (Change.withdrawal false w lp)
unfolding vault debit senior_balance
debit_senior-Move p q is_junior w lp s off bound priced e =
    let (junior, fits) = junior-le p s in
    let junior' = effective_junior_balance_lem q in
    let (v, value, limit) = withdrawal_value-le p is_junior lp w bound priced in
    let (u, value', paid) = withdrawal_value-priced p is_junior lp w priced in
    let (_, low, high) = calc_collateral-floor (tranche_shares p is_junior) u lp w paid in
    let total = total_pool_value_lem p in
    let (shares, worth) = senior-vault-of p is_junior u s off value' in
    Move.senior_withdrawal w lp (ground arith) (ground arith) (rw (shares, worth) (low, high))
      (ground arith)

debit_junior-Move :
    (p q : StakePool) (w lp : ℕ)
    → IsSound p
    → p.tranche_enabled_byte ≡ 1
    → lp ≤ p.junior_total_lp
    → withdrawal_value p true lp ≡ ok w
    → debit p true w lp ≡ ok q
    → Move (vault p) (vault q) (Change.withdrawal true w lp)
unfolding vault
debit_junior-Move p q w lp s on bound priced e =
    let (junior, fits) = junior-le p s in
    let junior' = effective_junior_balance_lem q in
    let limit = junior_payout-le p lp w on bound priced in
    let floor = junior_price-floor p lp w p.junior_total_lp on refl priced in
    elim (debit_junior-cases p q lp w s.junior_fits on e) [
      | inl (some_left, stored, same) ↦
          Move.junior_withdrawal w lp limit some_left floor (ground arith)
      | inr (all, same) ↦ Move.last_junior w lp limit all floor (ground arith)
    ]

-- A withdrawal is a move of the tranche that it is priced in.
pub debit-Move :
    (p q : StakePool) (is_junior : Bool) (w lp : ℕ)
    → IsSound p
    → lp ≤ tranche_shares p is_junior
    → withdrawal_value p is_junior lp ≡ ok w
    → debit p is_junior w lp ≡ ok q
    → Move (vault p) (vault q) (Change.withdrawal (in_junior p is_junior) w lp)
debit-Move p q false w lp s bound priced e =
    let off : in_junior p false ≡ false = ground arith in
    rw off (debit_senior-Move p q false w lp s off bound priced e)
debit-Move p q true w lp s bound priced e = elim (Bool-cases (in_junior p true)) [
  | inl on ↦ rw on (debit_junior-Move p q w lp s (ground arith) (ground arith) priced e)
  | inr off ↦ rw off (debit_senior-Move p q true w lp s off bound priced e)
]
