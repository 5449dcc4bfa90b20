-- ===== src/Solvency/Backing/Funded.antt =====
-- The vault of a backed pool can pay every withdrawal that src/processor.rs prices.
use percolator_stake.Prelude.{ℕ, ◌≤◌, ◌≡◌, some, Bool, arith}
use percolator_stake.Error.{ok}
use percolator_stake.Runtime.{Runtime}
use percolator_stake.State.{StakePool, Pubkey}
use percolator_stake.State.Pool.{senior_balance}
use percolator_stake.State.Tranches.{total_pool_value_lem}
use percolator_stake.SplToken.State.{TokenAccount, token_account}
use percolator_stake.Processor.Withdraw.{withdrawal_value}
use percolator_stake.Solvency.{IsSound}
use percolator_stake.Solvency.Vault.{junior-le}
use percolator_stake.Solvency.Withdraw.{tranche_shares, tranche_value, withdrawal_value-le}
use percolator_stake.Solvency.Backing.{IsBacked, IsCovered}

tranche_value-le :
    (p : StakePool) (is_junior : Bool) (v n : ℕ)
    → IsSound p
    → tranche_value p is_junior ≡ some v
    → IsCovered p n
    → v ≤ n
unfolding senior_balance
tranche_value-le p is_junior v n s e c =
    let (_, fits) = junior-le p s in ground (arith, total_pool_value_lem p)

module _ (R : Runtime) (authority : Pubkey) where
  open R use {Ledger}

  -- In a sound pool that its vault backs, the vault's authority owns an account that holds what a
  -- withdrawal of either tranche, of no more shares than the tranche has, is priced at.
  pub withdrawal-funded :
      (ledger : Ledger) (p : StakePool) (is_junior : Bool) (lp w : ℕ)
      → IsSound p
      → IsBacked R authority ledger p
      → lp ≤ tranche_shares p is_junior
      → withdrawal_value p is_junior lp ≡ ok w
      → (t : TokenAccount) × (token_account R ledger p.vault ≡ some t)
        × (t.owner ≡ authority)
        × (w ≤ t.amount)
  withdrawal-funded ledger p is_junior lp w s b bound e =
      let (v, value, limit) = withdrawal_value-le p is_junior lp w bound e in
      let within = tranche_value-le p is_junior v b.account.amount s value b.covers in
      (b.account, b.reads, b.owned, omega (arith, limit, within))
