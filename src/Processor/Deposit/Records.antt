-- ===== src/Processor/Deposit/Records.antt =====
-- A deposit record belongs to one tranche until it is emptied: src/processor.rs, the record part of
-- `process_deposit`, `process_deposit_junior` and `process_withdraw`.
use percolator_stake.Prelude.{ℕ, ◌≤◌, ◌<◌, ◌≡◌, refl, arith, Bool, true, false, u64_max}
use percolator_stake.Error.{StakeError, custom, ok, err}
use percolator_stake.State.{StakeDeposit, Pubkey, stake_deposit_discriminator}
use percolator_stake.State.Deposit.{is_junior_deposit}
use percolator_stake.Processor.Deposit.{claim, stamp, record_senior, record_junior}
use percolator_stake.Processor.Withdraw.{release}

-- What the handlers do to a record: deposits into either tranche, and withdrawals of a part of its
-- shares.
pub data Handled (d e : StakeDeposit) : Type 0 where
  to_senior :
      (bump : ℕ) (pool user : Pubkey) (slot lp : ℕ)
      → record_senior d bump pool user slot lp ≡ ok e
      → Handled d e
  to_junior :
      (bump : ℕ) (pool user : Pubkey) (slot lp : ℕ)
      → record_junior d bump pool user slot lp ≡ ok e
      → Handled d e
  part : (lp : ℕ) → lp < d.lp_amount → release d lp ≡ ok e → Handled d e

-- One after the other.
pub data Held (d : StakeDeposit) : StakeDeposit → Type 0 where
  stay : Held d d
  then : (e f : StakeDeposit) → Held d e → Handled e f → Held d f

-- The record is in use by the tranche.
abbrev IsTaken : (junior : Bool) → StakeDeposit → Type 0
IsTaken junior d =
    (d.is_initialized ≡ 1)
    × (d.discriminator ≡ stake_deposit_discriminator)
    × (is_junior_deposit d ≡ junior)

record_senior-IsTaken :
    (d s : StakeDeposit) (bump : ℕ) (pool user : Pubkey) (slot lp : ℕ)
    → record_senior d bump pool user slot lp ≡ ok s
    → IsTaken false s
unfolding record_senior claim stamp
record_senior-IsTaken d s bump pool user slot lp e = ground arith

record_junior-IsTaken :
    (d s : StakeDeposit) (bump : ℕ) (pool user : Pubkey) (slot lp : ℕ)
    → record_junior d bump pool user slot lp ≡ ok s
    → IsTaken true s
unfolding record_junior claim stamp
record_junior-IsTaken d s bump pool user slot lp e = ground arith

senior-refused :
    (d : StakeDeposit) (bump : ℕ) (pool user : Pubkey) (slot lp : ℕ)
    → IsTaken true d
    → record_senior d bump pool user slot lp ≡ err (custom StakeError.wrong_tranche)
unfolding record_senior claim
senior-refused d bump pool user slot lp taken = ground arith

junior-refused :
    (d : StakeDeposit) (bump : ℕ) (pool user : Pubkey) (slot lp : ℕ)
    → IsTaken false d
    → record_junior d bump pool user slot lp ≡ err (custom StakeError.wrong_tranche)
unfolding record_junior claim
junior-refused d bump pool user slot lp taken = ground arith

Handled-IsTaken :
    (junior : Bool) (d e : StakeDeposit) → Handled d e → IsTaken junior d → IsTaken junior e
unfolding release
Handled-IsTaken false d e (Handled.to_senior bump pool user slot lp h) taken =
    record_senior-IsTaken d e bump pool user slot lp h
Handled-IsTaken true d e (Handled.to_senior bump pool user slot lp h) taken =
    let wrong = senior-refused d bump pool user slot lp taken in absurd cc
Handled-IsTaken false d e (Handled.to_junior bump pool user slot lp h) taken =
    let wrong = junior-refused d bump pool user slot lp taken in absurd cc
Handled-IsTaken true d e (Handled.to_junior bump pool user slot lp h) taken =
    record_junior-IsTaken d e bump pool user slot lp h
Handled-IsTaken junior d e (Handled.part lp less h) taken = ground arith

Held-IsTaken : (junior : Bool) (d e : StakeDeposit) → Held d e → IsTaken junior d → IsTaken junior e
Held-IsTaken junior d _ Held.stay taken = taken
Held-IsTaken junior d _ (Held.then e f before last) taken =
    Handled-IsTaken junior e f last (Held-IsTaken junior d e before taken)

-- A record that took senior shares refuses a junior deposit with WrongTranche, and a record that
-- took junior shares a senior one, after any sequence of deposits and of withdrawals of a part of
-- its shares.
pub record_one_tranche :
    (d s t c j k : StakeDeposit) (bump : ℕ) (pool user : Pubkey) (slot lp later more : ℕ)
    → record_senior d bump pool user slot lp ≡ ok s
    → Held s t
    → record_junior c bump pool user slot lp ≡ ok j
    → Held j k
    → (record_junior t bump pool user later more ≡ err (custom StakeError.wrong_tranche))
      × (record_senior k bump pool user later more ≡ err (custom StakeError.wrong_tranche))
record_one_tranche d s t c j k bump pool user slot lp later more hs kept hj kept' =
    let senior =
      Held-IsTaken false s t kept (record_senior-IsTaken d s bump pool user slot lp hs) in
    let junior =
      Held-IsTaken true j k kept' (record_junior-IsTaken c j bump pool user slot lp hj) in
    (
      junior-refused t bump pool user later more senior,
      senior-refused k bump pool user later more junior,
    )

abbrev taken :
    StakeDeposit → (bump : ℕ) → (pool user : Pubkey) → (slot lp junior : ℕ) → StakeDeposit
taken r bump pool user slot lp junior = record r {
  is_initialized = 1;
  bump = bump;
  pool = pool;
  user = user;
  last_deposit_slot = slot;
  lp_amount = lp;
  discriminator = stake_deposit_discriminator;
  junior_byte = junior;
}

-- A record that gave all its shares back accepts a deposit of either tranche again, of any u64
-- number of shares, and then holds exactly those.
pub release_reopens :
    (d r : StakeDeposit) (bump : ℕ) (pool user : Pubkey) (slot lp : ℕ)
    → release d d.lp_amount ≡ ok r
    → lp ≤ u64_max
    → (s j : StakeDeposit) × (record_senior r bump pool user slot lp ≡ ok s)
      × (record_junior r bump pool user slot lp ≡ ok j)
      × (s.lp_amount ≡ lp)
      × (j.lp_amount ≡ lp)
      × (s.junior_byte ≡ 0)
      × (j.junior_byte ≡ 1)
unfolding record_senior record_junior claim stamp release
release_reopens d r bump pool user slot lp e fits =
    let freed : r ≡ record d { lp_amount = 0; is_initialized = 0; junior_byte = 0 } =
      ground arith in
    (
      taken r bump pool user slot lp 0,
      taken r bump pool user slot lp 1,
      ground arith,
      ground arith,
      refl,
      refl,
      refl,
      refl,
    )
