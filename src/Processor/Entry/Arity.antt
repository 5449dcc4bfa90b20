-- ===== src/Processor/Entry/Arity.antt =====
-- How many accounts each instruction of src/processor.rs needs.
use percolator_stake.Prelude.{ℕ, ◌≤◌, ◌≡◌, ◌==◌, Bool, List, [], ◌∷◌, suc, ap, arith}
use percolator_stake.Error.{ok, StakeError, >>=-eq-ok}
use percolator_stake.Bytes.{length}
use percolator_stake.State.{Pubkey}
use percolator_stake.Runtime.{Runtime, AccountInfo}
use percolator_stake.Instruction.{StakeInstruction, unpack}
use percolator_stake.Processor.Guards.{fails}
use percolator_stake.Processor.Accrual.{AccrueAccounts}
use percolator_stake.Processor.Authority.{BindAccounts, RotateAccounts}
use percolator_stake.Processor.Deposit.{DepositAccounts}
use percolator_stake.Processor.Init.{InitAccounts}
use percolator_stake.Processor.Insurance.{FlushAccounts, ReturnAccounts, RecoverAccounts}
use percolator_stake.Processor.Proxies.{ProxyAccounts}
use percolator_stake.Processor.Resolution.{ResolveAccounts}
use percolator_stake.Processor.Withdraw.{WithdrawAccounts}
use percolator_stake.Processor.Entry.{Outcome, serve, process}
use percolator_stake.Processor.Entry.Accounts.{
  next_account_info, take_two, take_clocked, take_init, take_deposit, take_withdraw,
}
use percolator_stake.Processor.Entry.WrapperAccounts.{
  take_flush, take_return, take_recover, take_accrue, take_bind, take_rotate, take_resolve,
  take_group_a, take_group_b,
}

next-length :
    (accounts : List AccountInfo) (x : AccountInfo × List AccountInfo)
    → next_account_info accounts ≡ ok x
    → length accounts ≡ suc (length x.1)
next-length [] x e = cc
next-length (a ∷ rest) x e =
    let same : (a, rest) ≡ x = cc in
    ap (λ (y : AccountInfo × List AccountInfo). suc (length y.1)) same

take_two-length :
    (accounts : List AccountInfo) (x : AccountInfo × AccountInfo)
    → take_two accounts ≡ ok x
    → 2 ≤ length accounts
unfolding take_two
take_two-length accounts x e = grind (arith, next-length)

take_clocked-length :
    (accounts : List AccountInfo) (x : (AccountInfo × AccountInfo) × AccountInfo)
    → take_clocked accounts ≡ ok x
    → 3 ≤ length accounts
unfolding take_clocked
take_clocked-length accounts x e = grind (arith, next-length)

take_init-length :
    (accounts : List AccountInfo) (x : InitAccounts)
    → take_init accounts ≡ ok x
    → 11 ≤ length accounts
unfolding take_init
take_init-length accounts x e = grind (arith, next-length)

take_deposit-length :
    (accounts : List AccountInfo) (x : DepositAccounts × AccountInfo)
    → take_deposit accounts ≡ ok x
    → 11 ≤ length accounts
unfolding take_deposit
take_deposit-length accounts x e = grind (arith, next-length)

take_withdraw-length :
    (accounts : List AccountInfo) (x : WithdrawAccounts × AccountInfo)
    → take_withdraw accounts ≡ ok x
    → 10 ≤ length accounts
unfolding take_withdraw
take_withdraw-length accounts x e = grind (arith, next-length)

take_flush-length :
    (accounts : List AccountInfo) (x : FlushAccounts)
    → take_flush accounts ≡ ok x
    → 8 ≤ length accounts
unfolding take_flush
take_flush-length accounts x e = grind (arith, next-length)

take_return-length :
    (accounts : List AccountInfo) (x : ReturnAccounts)
    → take_return accounts ≡ ok x
    → 5 ≤ length accounts
unfolding take_return
take_return-length accounts x e = grind (arith, next-length)

take_recover-length :
    (accounts : List AccountInfo) (x : RecoverAccounts)
    → take_recover accounts ≡ ok x
    → 9 ≤ length accounts
unfolding take_recover
take_recover-length accounts x e = grind (arith, next-length)

take_bind-length :
    (accounts : List AccountInfo) (x : BindAccounts)
    → take_bind accounts ≡ ok x
    → 5 ≤ length accounts
unfolding take_bind
take_bind-length accounts x e = grind (arith, next-length)

take_rotate-length :
    (accounts : List AccountInfo) (x : RotateAccounts)
    → take_rotate accounts ≡ ok x
    → 6 ≤ length accounts
unfolding take_rotate
take_rotate-length accounts x e = grind (arith, next-length)

take_accrue-length :
    (R : Runtime) (accounts : List AccountInfo) (x : AccrueAccounts R × AccountInfo)
    → take_accrue R accounts ≡ ok x
    → 4 ≤ length accounts
unfolding take_accrue
take_accrue-length R accounts x e = grind (arith, next-length)

take_resolve-length :
    (accounts : List AccountInfo) (x : ResolveAccounts)
    → take_resolve accounts ≡ ok x
    → 4 ≤ length accounts
unfolding take_resolve
take_resolve-length accounts x e = grind (arith, next-length)

take_group_a-length :
    (accounts : List AccountInfo) (x : ProxyAccounts)
    → take_group_a accounts ≡ ok x
    → 4 ≤ length accounts
unfolding take_group_a
take_group_a-length accounts x e = grind (arith, next-length)

take_group_b-length :
    (accounts : List AccountInfo) (x : ProxyAccounts)
    → take_group_b accounts ≡ ok x
    → 5 ≤ length accounts
unfolding take_group_b
take_group_b-length accounts x e = grind (arith, next-length)

-- The accounts that an instruction takes, by the list of accounts in src/instruction.rs.
unfoldable pub arity : StakeInstruction → ℕ
arity (StakeInstruction.init_pool _ _) = 11
arity (StakeInstruction.init_trading_pool _ _) = 11
arity (StakeInstruction.deposit _) = 11
arity (StakeInstruction.deposit_junior _) = 11
arity (StakeInstruction.withdraw _) = 10
arity (StakeInstruction.flush_to_insurance _) = 8
arity (StakeInstruction.return_insurance _) = 5
arity (StakeInstruction.recover_flushed_insurance _) = 9
arity (StakeInstruction.update_config _ _) = 2
arity (StakeInstruction.propose_admin _) = 2
arity StakeInstruction.accept_admin = 2
arity (StakeInstruction.propose_cooldown_increase _) = 3
arity StakeInstruction.commit_cooldown_increase = 3
arity StakeInstruction.cancel_cooldown_increase = 2
arity StakeInstruction.bind_insurance_authority = 5
arity StakeInstruction.rotate_insurance_authority = 6
arity StakeInstruction.burn_asset_admin = 5
arity StakeInstruction.rotate_insurance_operator = 6
arity StakeInstruction.accrue_fees = 4
arity (StakeInstruction.admin_set_hwm_config _ _) = 2
arity (StakeInstruction.admin_set_tranche_config _) = 2
arity StakeInstruction.set_market_resolved = 2
arity StakeInstruction.admin_resolve_market = 4
arity (StakeInstruction.admin_update_fee_split _ _ _) = 4
arity (StakeInstruction.admin_update_maintenance_fee_per_slot _) = 4
arity (StakeInstruction.admin_update_backing_fee_policy _ _ _) = 5
arity (StakeInstruction.admin_update_trade_fee_policy _) = 5

module _ (R : Runtime) (devnet : Bool) (program_id : Pubkey) where
  open R use {Ledger}

  serve-arity :
      (i : StakeInstruction) (accounts : List AccountInfo) (ledger : Ledger) (out : Outcome R)
      → serve R devnet program_id i accounts ledger ≡ ok out
      → arity i ≤ length accounts
  unfolding serve arity
  serve-arity (StakeInstruction.init_pool cooldown cap) accounts ledger out e =
      let (a, t, _) = >>=-eq-ok (take_init accounts) _ out e in take_init-length accounts a t
  serve-arity (StakeInstruction.init_trading_pool cooldown cap) accounts ledger out e =
      let (a, t, _) = >>=-eq-ok (take_init accounts) _ out e in take_init-length accounts a t
  serve-arity (StakeInstruction.deposit amount) accounts ledger out e =
      let (_, _, e) = >>=-eq-ok (fails (amount == 0) StakeError.zero_amount) _ out e in
      let (a, t, _) = >>=-eq-ok (take_deposit accounts) _ out e in take_deposit-length accounts a t
  serve-arity (StakeInstruction.deposit_junior amount) accounts ledger out e =
      let (_, _, e) = >>=-eq-ok (fails (amount == 0) StakeError.zero_amount) _ out e in
      let (a, t, _) = >>=-eq-ok (take_deposit accounts) _ out e in take_deposit-length accounts a t
  serve-arity (StakeInstruction.withdraw lp) accounts ledger out e =
      let (_, _, e) = >>=-eq-ok (fails (lp == 0) StakeError.zero_amount) _ out e in
      let (a, t, _) = >>=-eq-ok (take_withdraw accounts) _ out e in
      take_withdraw-length accounts a t
  serve-arity (StakeInstruction.flush_to_insurance amount) accounts ledger out e =
      let (_, _, e) = >>=-eq-ok (fails (amount == 0) StakeError.zero_amount) _ out e in
      let (a, t, _) = >>=-eq-ok (take_flush accounts) _ out e in take_flush-length accounts a t
  serve-arity (StakeInstruction.return_insurance amount) accounts ledger out e =
      let (_, _, e) = >>=-eq-ok (fails (amount == 0) StakeError.zero_amount) _ out e in
      let (a, t, _) = >>=-eq-ok (take_return accounts) _ out e in take_return-length accounts a t
  serve-arity (StakeInstruction.recover_flushed_insurance amount) accounts ledger out e =
      let (a, t, _) = >>=-eq-ok (take_recover accounts) _ out e in take_recover-length accounts a t
  serve-arity (StakeInstruction.update_config cooldown cap) accounts ledger out e =
      let (a, t, _) = >>=-eq-ok (take_two accounts) _ out e in take_two-length accounts a t
  serve-arity (StakeInstruction.propose_admin key) accounts ledger out e =
      let (a, t, _) = >>=-eq-ok (take_two accounts) _ out e in take_two-length accounts a t
  serve-arity StakeInstruction.accept_admin accounts ledger out e =
      let (a, t, _) = >>=-eq-ok (take_two accounts) _ out e in take_two-length accounts a t
  serve-arity (StakeInstruction.propose_cooldown_increase slots) accounts ledger out e =
      let (a, t, _) = >>=-eq-ok (take_clocked accounts) _ out e in take_clocked-length accounts a t
  serve-arity StakeInstruction.commit_cooldown_increase accounts ledger out e =
      let (a, t, _) = >>=-eq-ok (take_clocked accounts) _ out e in take_clocked-length accounts a t
  serve-arity StakeInstruction.cancel_cooldown_increase accounts ledger out e =
      let (a, t, _) = >>=-eq-ok (take_two accounts) _ out e in take_two-length accounts a t
  serve-arity StakeInstruction.bind_insurance_authority accounts ledger out e =
      let (a, t, _) = >>=-eq-ok (take_bind accounts) _ out e in take_bind-length accounts a t
  serve-arity StakeInstruction.rotate_insurance_authority accounts ledger out e =
      let (a, t, _) = >>=-eq-ok (take_rotate accounts) _ out e in take_rotate-length accounts a t
  serve-arity StakeInstruction.burn_asset_admin accounts ledger out e =
      let (a, t, _) = >>=-eq-ok (take_bind accounts) _ out e in take_bind-length accounts a t
  serve-arity StakeInstruction.rotate_insurance_operator accounts ledger out e =
      let (a, t, _) = >>=-eq-ok (take_rotate accounts) _ out e in take_rotate-length accounts a t
  serve-arity StakeInstruction.accrue_fees accounts ledger out e =
      let (a, t, _) = >>=-eq-ok (take_accrue R accounts) _ out e in
      take_accrue-length R accounts a t
  serve-arity (StakeInstruction.admin_set_hwm_config enabled bps) accounts ledger out e =
      let (a, t, _) = >>=-eq-ok (take_two accounts) _ out e in take_two-length accounts a t
  serve-arity (StakeInstruction.admin_set_tranche_config mult) accounts ledger out e =
      let (a, t, _) = >>=-eq-ok (take_two accounts) _ out e in take_two-length accounts a t
  serve-arity StakeInstruction.set_market_resolved accounts ledger out e =
      let (a, t, _) = >>=-eq-ok (take_two accounts) _ out e in take_two-length accounts a t
  serve-arity StakeInstruction.admin_resolve_market accounts ledger out e =
      let (a, t, _) = >>=-eq-ok (take_resolve accounts) _ out e in take_resolve-length accounts a t
  serve-arity (StakeInstruction.admin_update_fee_split creator lp insurance) accounts ledger out e =
      let (a, t, _) = >>=-eq-ok (take_group_a accounts) _ out e in take_group_a-length accounts a t
  serve-arity (StakeInstruction.admin_update_maintenance_fee_per_slot fee) accounts ledger out e =
      let (a, t, _) = >>=-eq-ok (take_group_a accounts) _ out e in take_group_a-length accounts a t
  serve-arity (StakeInstruction.admin_update_backing_fee_policy domain fee share) accounts ledger
        out e =
      let (a, t, _) = >>=-eq-ok (take_group_b accounts) _ out e in take_group_b-length accounts a t
  serve-arity (StakeInstruction.admin_update_trade_fee_policy fee) accounts ledger out e =
      let (a, t, _) = >>=-eq-ok (take_group_b accounts) _ out e in take_group_b-length accounts a t

  -- The entry of the program never succeeds on bytes that do not decode or on fewer accounts than
  -- src/instruction.rs lists for the instruction.
  pub process-arity :
      (accounts : List AccountInfo) (instruction_data : List ℕ) (ledger : Ledger) (out : Outcome R)
      → process R devnet program_id accounts instruction_data ledger ≡ ok out
      → (i : StakeInstruction) × (unpack instruction_data ≡ ok i) × (arity i ≤ length accounts)
  unfolding process
  process-arity accounts instruction_data ledger out e =
      let (i, decoded, e) = >>=-eq-ok (unpack instruction_data) _ out e in
      (i, decoded, serve-arity i accounts ledger out e)
