-- ===== src/Solvency/Backing/Traffic.antt =====
-- Transactions of this program and of others, each on the token accounts that the one before left.
use percolator_stake.Prelude.{
  ℕ, ◌≡◌, ◌≢◌, Bool, Option, none, some, List, ◌∷◌, ap, sym, ◌∙◌, refl, arith, inl, inr,
}
use percolator_stake.Error.{ok}
use percolator_stake.Runtime.{Runtime, AccountInfo, AccountData}
use percolator_stake.State.{StakePool, Pubkey}
use percolator_stake.Processor.Guards.{derive_vault_authority}
use percolator_stake.Processor.Entry.{Outcome, process}
use percolator_stake.Processor.Insurance.{Moved, RecoverAccounts, process_recover_flushed_insurance}
use percolator_stake.Solvency.Settings.{settings-IsFrame}
use percolator_stake.Solvency.Later.{IsLater-refl}
use percolator_stake.Solvency.System.{PoolStep}
use percolator_stake.Solvency.System.Cases.{Cases}
use percolator_stake.Solvency.System.Cases.Arms.{process-cases}
use percolator_stake.Solvency.System.Entry.Records.{withdraw-found}
use percolator_stake.Solvency.System.Entry.Later.{LaterAfter, process-LaterAfter}
use percolator_stake.Solvency.System.Lifetime.{pool_step-IsLater}
use percolator_stake.Solvency.Backing.{IsBacked, moved-IsBacked}
use percolator_stake.Solvency.Backing.Alone.{
  accrue-IsCovered, burn-IsBacked, settings-IsCovered, Relayed-Keeps,
}
use percolator_stake.Solvency.Backing.Laws.{IsLawful, Pays}
use percolator_stake.Solvency.Backing.Deposit.{process_deposit-IsBacked}
use percolator_stake.Solvency.Backing.Withdraw.{process_withdraw-IsBacked}
use percolator_stake.Solvency.Backing.Insurance.{
  process_flush-IsBacked, process_return_insurance-IsBacked, process_recover-IsBacked,
}

module _ (R : Runtime) (devnet : Bool) (program_id pool_key : Pubkey) where
  open R use {Ledger}

  abbrev pub vault_authority : Pubkey
  vault_authority = (derive_vault_authority R program_id pool_key).0

  -- The token accounts with the pool.
  pub record Market : Type 0 where
    pub ledger : Ledger
    pub pool : StakePool

  -- What an outcome on the pool `p` leaves; an initialisation is of another pool.
  abbrev pub left : (p : StakePool) → Outcome R → Option Market
  left p (Outcome.started q ledger) = none
  left p (Outcome.changed q ledger) = some (record { ledger = ledger; pool = q })
  left p (Outcome.recorded q d ledger) = some (record { ledger = ledger; pool = q })
  left p (Outcome.called ledger) = some (record { ledger = ledger; pool = p })

  -- An instruction that succeeds, or a transaction of others. The vault's authority is a program
  -- address, which signs no transaction, so it is no caller, and others may pay into the vault but
  -- not take from it.
  pub data Turn (m : Market) : Market → Type 0 where
    ours :
        (first holder : AccountInfo) (rest : List AccountInfo) (instruction_data : List ℕ)
        (out : Outcome R) (n : Market)
        → holder.key ≡ pool_key
        → holder.content ≡ AccountData.pool_bytes m.pool
        → first.key ≢ vault_authority
        → process R devnet program_id (first ∷ holder ∷ rest) instruction_data m.ledger ≡ ok out
        → left m.pool out ≡ some n
        → Turn m n
    others :
        (after : Ledger)
        → Pays R m.ledger after m.pool.vault 0
        → Turn m (record { ledger = after; pool = m.pool })

  pub data Traffic (m : Market) : Market → Type 0 where
    stay : Traffic m m
    then : (n o : Market) → Traffic m n → Turn n o → Traffic m o

  abbrev BackedAfter : (p : StakePool) → Outcome R → Type 0
  BackedAfter p (Outcome.started q ledger) = Unit
  BackedAfter p (Outcome.changed q ledger) = IsBacked R vault_authority ledger q
  BackedAfter p (Outcome.recorded q d ledger) = IsBacked R vault_authority ledger q
  BackedAfter p (Outcome.called ledger) = IsBacked R vault_authority ledger p

  left-IsBacked :
      (p : StakePool) (out : Outcome R) (n : Market)
      → left p out ≡ some n
      → BackedAfter p out
      → IsBacked R vault_authority n.ledger n.pool
  left-IsBacked p (Outcome.started q ledger) n e b = absurd cc
  left-IsBacked p (Outcome.changed q ledger) n e b =
      let same : record { ledger = ledger; pool = q } ≡ n = cc in rw (← same) b
  left-IsBacked p (Outcome.recorded q d ledger) n e b =
      let same : record { ledger = ledger; pool = q } ≡ n = cc in rw (← same) b
  left-IsBacked p (Outcome.called ledger) n e b =
      let same : record { ledger = ledger; pool = p } ≡ n = cc in rw (← same) b

  left-program :
      (p : StakePool) (out : Outcome R) (n : Market)
      → left p out ≡ some n
      → LaterAfter R devnet program_id p out
      → n.pool.percolator_program ≡ p.percolator_program
  left-program p (Outcome.started q ledger) n e later = absurd cc
  left-program p (Outcome.changed q ledger) n e later =
      let same : record { ledger = ledger; pool = q } ≡ n = cc in
      rw (← same) later.percolator_program
  left-program p (Outcome.recorded q d ledger) n e later =
      let same : record { ledger = ledger; pool = q } ≡ n = cc in
      rw (← same) later.percolator_program
  left-program p (Outcome.called ledger) n e later =
      let same : record { ledger = ledger; pool = p } ≡ n = cc in rw (← same) refl

  -- No transaction changes the program that the pool calls.
  Traffic-program :
      (m n : Market) → Traffic m n → n.pool.percolator_program ≡ m.pool.percolator_program
  Traffic-program m _ Traffic.stay = refl
  Traffic-program m _
        (Traffic.then n o before
          (Turn.ours first holder rest instruction_data out _ here held other e leaves)) =
      left-program n.pool out o leaves (
        process-LaterAfter R devnet program_id n.pool out first holder rest instruction_data
          n.ledger held e)
      ∙ Traffic-program m n before
  Traffic-program m _ (Traffic.then n _ before (Turn.others after paid)) =
      Traffic-program m n before

  recover-signer :
      (a : RecoverAccounts) (amount : ℕ) (ledger : Ledger) (out : Moved R)
      → process_recover_flushed_insurance R program_id a amount ledger ≡ ok out
      → a.vault_auth.key ≡ (derive_vault_authority R program_id a.pool_pda.key).0
  unfolding process_recover_flushed_insurance
  recover-signer a amount ledger out e = ground arith

  module _ {wrapper : Pubkey} (L : IsLawful R wrapper) where
    backing :
        (first holder : AccountInfo) (p : StakePool) (ledger : Ledger)
        → holder.key ≡ pool_key
        → first.key ≢ vault_authority
        → p.percolator_program ≡ wrapper
        → IsBacked R vault_authority ledger p
        → Cases R devnet program_id first holder p ledger (λ _. BackedAfter p)
    backing first holder p ledger here other calls b = record {
      started = λ a cooldown cap x e. tt;
      started_trading = λ a cooldown cap x e. tt;
      deposit = λ a clock amount x user at e.
          process_deposit-IsBacked R program_id a L vault_authority clock amount ledger p x at
            (λ h. other (sym (ap (λ (y : AccountInfo). y.key) user) ∙ h)) (inl e) b;
      deposit_junior = λ a clock amount x user at e.
          process_deposit-IsBacked R program_id a L vault_authority clock amount ledger p x at
            (λ h. other (sym (ap (λ (y : AccountInfo). y.key) user) ∙ h)) (inr e) b;
      withdraw = λ a clock lp x user at e.
          let (d, found) = withdraw-found R program_id a clock lp ledger x e in
          process_withdraw-IsBacked R program_id a L vault_authority clock lp ledger p d x at found
            (λ h. other (sym (ap (λ (y : AccountInfo). y.key) user) ∙ h)) e b;
      flush = λ a amount x at e.
          process_flush-IsBacked R program_id L vault_authority a amount ledger p x at calls e b;
      return_ = λ a amount x admin at e.
          process_return_insurance-IsBacked R program_id L vault_authority a amount ledger p x at
            (λ h. other (sym (ap (λ (y : AccountInfo). y.key) admin) ∙ h)) e b;
      recover = λ a amount x pool at e.
          let same : a.pool_pda.key ≡ pool_key = ap (λ (y : AccountInfo). y.key) pool ∙ here in
          let by : a.vault_auth.key ≡ vault_authority =
            recover-signer a amount ledger x e
            ∙ ap (λ (k : Pubkey). (derive_vault_authority R program_id k).0) same in
          process_recover-IsBacked R program_id L vault_authority a amount ledger p x at by calls e
            b;
      accrue = λ a clock q at e.
          moved-IsBacked R vault_authority ledger ledger p q b.account b
            (pool_step-IsLater R program_id p q (PoolStep.accrue a clock ledger q at e)) b.reads
            b.owned
            (accrue-IsCovered R program_id vault_authority a clock ledger p q b.account at b.reads e
              b.covers);
      burn = λ a x at e. burn-IsBacked R program_id vault_authority L a ledger p x at e b;
      settings = λ admin pda clock cooldown cap enabled slots bps mult key q at e.
          let frame =
            settings-IsFrame program_id admin pda clock p q cooldown cap enabled slots bps mult key
              at e in
          let step =
            PoolStep.settings admin pda clock cooldown cap enabled slots bps mult key q at e in
          moved-IsBacked R vault_authority ledger ledger p q b.account b
            (pool_step-IsLater R program_id p q step) b.reads b.owned
            (settings-IsCovered R program_id vault_authority L p q b.account.amount frame b.covers);
      relayed = λ i after e.
          moved-IsBacked R vault_authority ledger after p p b.account b (IsLater-refl p p refl)
            (Relayed-Keeps R program_id vault_authority L devnet p ledger after i b.slab_apart e
              b.account b.reads)
            b.owned b.covers;
    }

    Turn-IsBacked :
        (m n : Market)
        → Turn m n
        → m.pool.percolator_program ≡ wrapper
        → IsBacked R vault_authority m.ledger m.pool
        → IsBacked R vault_authority n.ledger n.pool
    Turn-IsBacked m n (Turn.ours first holder rest instruction_data out _ here held other e leaves)
          calls b =
        let (_, _, after) =
          process-cases R devnet program_id first holder rest m.pool m.ledger
            (λ _. BackedAfter m.pool) out held
            (backing first holder m.pool m.ledger here other calls b) instruction_data e in
        left-IsBacked m.pool out n leaves after
    Turn-IsBacked m _ (Turn.others after paid) calls b =
        let (u, reads, more) = paid b.account b.reads in
        moved-IsBacked R vault_authority m.ledger after m.pool m.pool u b
          (IsLater-refl m.pool m.pool refl) reads (more.owner ∙ b.owned)
          (omega (arith, b.covers, more.amount))

    -- Where Solana, the token program, the system program and the percolator program that the pool
    -- names keep their documented effects on token accounts, no sequence of instructions that the
    -- entry of the program carries out on a pool, from any bytes and by any callers but the vault's
    -- authority, with transactions of others between them that take nothing from the vault,
    -- uncovers the pool: if the vault is an account of its authority, other than the LP mint and
    -- the market, and holds at least the pool's value, then it still is and does afterwards.
    pub Traffic-IsBacked :
        (m n : Market)
        → Traffic m n
        → m.pool.percolator_program ≡ wrapper
        → IsBacked R vault_authority m.ledger m.pool
        → IsBacked R vault_authority n.ledger n.pool
    Traffic-IsBacked m _ Traffic.stay calls b = b
    Traffic-IsBacked m _ (Traffic.then n o before last) calls b =
        Turn-IsBacked n o last (Traffic-program m n before ∙ calls)
          (Traffic-IsBacked m n before calls b)
