-- ===== src/Solvency/Shares.antt =====
-- Who holds the shares: the deposit records of src/processor.rs against the pool's two share
-- counters, for each operation.
use percolator_stake.Prelude.{
  ℕ, ◌+◌, ◌-◌, ◌≡◌, ◌⊎◌, Bool, List, [], ◌∷◌, ◌++◌, if◌then◌else◌, arith, refl,
}
use percolator_stake.Error.{ok}
use percolator_stake.Runtime.{Clock}
use percolator_stake.State.{StakePool, StakeDeposit, Pubkey}
use percolator_stake.State.Pool.{refresh_hwm}
use percolator_stake.State.Deposit.{is_junior_deposit}
use percolator_stake.Processor.Deposit.{
  credit_senior, credit_junior, raise_mark, record_senior, record_junior, claim, stamp,
}
use percolator_stake.Processor.Withdraw.{debit, debit_junior, settle_last_junior, release}

abbrev pub junior_part : StakeDeposit → ℕ
junior_part d = if is_junior_deposit d then d.lp_amount else 0

-- The shares of all records, and those of the junior ones.
unfoldable pub shares_held : List StakeDeposit → ℕ
shares_held [] = 0
shares_held (d ∷ ds) = d.lp_amount + shares_held ds

unfoldable pub junior_shares_held : List StakeDeposit → ℕ
junior_shares_held [] = 0
junior_shares_held (d ∷ ds) = junior_part d + junior_shares_held ds

-- A record that is not initialised holds no shares.
abbrev pub IsClosed : StakeDeposit → Type 0
IsClosed d = (d.is_initialized ≡ 1) ⊎ (d.lp_amount ≡ 0)

unfoldable pub AllClosed : List StakeDeposit → Type 0
AllClosed [] = Unit
AllClosed (d ∷ ds) = IsClosed d × AllClosed ds

pub shares_held-insert :
    (before after : List StakeDeposit) (d : StakeDeposit)
    → (shares_held (before ++ (d ∷ after)) ≡ d.lp_amount + shares_held (before ++ after))
      × (junior_shares_held (before ++ (d ∷ after))
          ≡ junior_part d + junior_shares_held (before ++ after))
unfolding shares_held junior_shares_held
shares_held-insert [] after d = (refl, refl)
shares_held-insert (x ∷ before) after d =
    let (all, junior) = shares_held-insert before after d in (omega arith, omega arith)

pub AllClosed-insert :
    (before after : List StakeDeposit) (d : StakeDeposit)
    → AllClosed (before ++ (d ∷ after))
    → IsClosed d × AllClosed (before ++ after)
unfolding AllClosed
AllClosed-insert [] after d closed = closed
AllClosed-insert (x ∷ before) after d (first, rest) =
    let (this, others) = AllClosed-insert before after d rest in (this, (first, others))

pub AllClosed-replace :
    (before after : List StakeDeposit) (d : StakeDeposit)
    → IsClosed d
    → AllClosed (before ++ after)
    → AllClosed (before ++ (d ∷ after))
unfolding AllClosed
AllClosed-replace [] after d this others = (this, others)
AllClosed-replace (x ∷ before) after d this (first, others) =
    (first, AllClosed-replace before after d this others)

-- How many shares of each kind the step from `p` to `q` adds, and that tranches stay on.
pub record Issues (p q : StakePool) (all junior : ℕ) : Type 0 where
  pub supply : q.total_lp_supply ≡ p.total_lp_supply + all
  pub junior_supply : q.junior_total_lp ≡ p.junior_total_lp + junior
  pub tranches : (q.tranche_enabled_byte ≡ 1) ⊎ (q.tranche_enabled_byte ≡ p.tranche_enabled_byte)

pub credit_senior-Issues :
    (p q r : StakePool) (clock : Clock) (amount lp : ℕ)
    → credit_senior p amount lp ≡ ok q
    → raise_mark q clock ≡ ok r
    → Issues p r lp 0
unfolding credit_senior raise_mark refresh_hwm
credit_senior-Issues p q r clock amount lp e f = record {
  supply = ground arith;
  junior_supply = ground arith;
  tranches = ground arith;
}

pub credit_junior-Issues :
    (p q r : StakePool) (clock : Clock) (amount lp : ℕ)
    → credit_junior p amount lp ≡ ok q
    → raise_mark q clock ≡ ok r
    → Issues p r lp lp
unfolding credit_junior credit_senior raise_mark refresh_hwm
credit_junior-Issues p q r clock amount lp e f = record {
  supply = ground arith;
  junior_supply = ground arith;
  tranches = ground arith;
}

pub record_senior-shares :
    (d s : StakeDeposit) (bump : ℕ) (pool user : Pubkey) (slot lp : ℕ)
    → record_senior d bump pool user slot lp ≡ ok s
    → (s.lp_amount ≡ d.lp_amount + lp) × (junior_part s ≡ junior_part d) × IsClosed s
unfolding record_senior claim stamp
record_senior-shares d s bump pool user slot lp e = ground arith

pub record_junior-shares :
    (d s : StakeDeposit) (bump : ℕ) (pool user : Pubkey) (slot lp : ℕ)
    → IsClosed d
    → record_junior d bump pool user slot lp ≡ ok s
    → (s.lp_amount ≡ d.lp_amount + lp) × (junior_part s ≡ junior_part d + lp) × IsClosed s
unfolding record_junior claim stamp
record_junior-shares d s bump pool user slot lp closed e = ground arith

pub release-shares :
    (d s : StakeDeposit) (lp : ℕ)
    → IsClosed d
    → release d lp ≡ ok s
    → (s.lp_amount + lp ≡ d.lp_amount)
      × (junior_part s + (if is_junior_deposit d then lp else 0) ≡ junior_part d)
      × IsClosed s
unfolding release
release-shares d s lp closed e = ground arith

settle_last_junior-shares :
    (p q : StakePool)
    → settle_last_junior p ≡ ok q
    → (q.total_lp_supply ≡ p.total_lp_supply)
      × (q.tranche_enabled_byte ≡ p.tranche_enabled_byte)
      × (q.junior_total_lp ≡ p.junior_total_lp)
unfolding settle_last_junior
settle_last_junior-shares p q e = ground arith

debit_junior-shares :
    (p q : StakePool) (w lp : ℕ)
    → debit_junior p w lp ≡ ok q
    → (q.total_lp_supply ≡ p.total_lp_supply)
      × (q.tranche_enabled_byte ≡ p.tranche_enabled_byte)
      × (q.junior_total_lp + lp ≡ p.junior_total_lp)
unfolding debit_junior
debit_junior-shares p q w lp e =
    let left : StakePool = record p { junior_total_lp = p.junior_total_lp - lp } in
    ground (arith, settle_last_junior-shares left q)

-- A withdrawal takes its shares off the supply, and off the junior supply if tranches are on and
-- the record is a junior one.
pub debit-shares :
    (p q : StakePool) (junior : Bool) (w lp : ℕ)
    → debit p junior w lp ≡ ok q
    → (q.total_lp_supply + lp ≡ p.total_lp_supply)
      × (q.tranche_enabled_byte ≡ p.tranche_enabled_byte)
      × ((p.tranche_enabled_byte ≡ 1)
            × (q.junior_total_lp + (if junior then lp else 0) ≡ p.junior_total_lp)
          ⊎ ¬ (p.tranche_enabled_byte ≡ 1) × (q.junior_total_lp ≡ p.junior_total_lp))
unfolding debit
debit-shares p q junior w lp e =
    let paid : StakePool = record p {
      total_withdrawn = p.total_withdrawn + w;
      total_lp_supply = p.total_lp_supply - lp;
    } in
    ground (arith, debit_junior-shares paid q w lp)
