-- ===== src/Solvency/System/Cases/Arms.antt =====
-- The arms of the dispatch of src/processor.rs.
use percolator_stake.Prelude.{ℕ, ◌≡◌, ◌==◌, inl, inr, Bool, false, none, List, ◌∷◌, ap, ◌∙◌}
use percolator_stake.Error.{ok, StakeError, >>=-eq-ok}
use percolator_stake.Runtime.{Runtime, AccountInfo, AccountData, Clock}
use percolator_stake.State.{StakePool, Pubkey}
use percolator_stake.Processor.Accrual.{process_accrue_fees}
use percolator_stake.Processor.Authority.{
  process_bind_insurance_authority, process_burn_asset_admin, process_rotate_insurance_operator,
  process_rotate_insurance_authority,
}
use percolator_stake.Processor.Config.{
  process_update_config, process_propose_admin, process_accept_admin,
  process_propose_cooldown_increase, process_commit_cooldown_increase,
  process_cancel_cooldown_increase, process_admin_set_hwm_config, process_admin_set_tranche_config,
  process_set_market_resolved,
}
use percolator_stake.Processor.Deposit.{process_deposit, process_deposit_junior}
use percolator_stake.Processor.Init.{process_init_pool, process_init_trading_pool}
use percolator_stake.Processor.Insurance.{
  process_flush_to_insurance, process_return_insurance, process_recover_flushed_insurance,
}
use percolator_stake.Processor.Proxies.{
  process_admin_update_fee_split, process_admin_update_maintenance_fee_per_slot,
  process_admin_update_backing_fee_policy, process_admin_update_trade_fee_policy,
}
use percolator_stake.Processor.Resolution.{process_admin_resolve_market}
use percolator_stake.Processor.Withdraw.{process_withdraw}
use percolator_stake.Instruction.{StakeInstruction, unpack}
use percolator_stake.Processor.Guards.{fails}
use percolator_stake.Processor.Proxies.Relay.{Relays}
use percolator_stake.Processor.Entry.{Outcome, serve, process, clock_at}
use percolator_stake.Processor.Entry.Accounts.{
  take_two, take_clocked, take_init, take_deposit, take_withdraw,
}
use percolator_stake.Processor.Entry.WrapperAccounts.{
  take_flush, take_return, take_recover, take_accrue, take_bind, take_rotate, take_resolve,
  take_group_a, take_group_b,
}
use percolator_stake.Processor.Entry.Holder.{
  take_two-pool, take_clocked-pool, take_deposit-first, take_deposit-pool, take_withdraw-first,
  take_withdraw-pool, take_flush-pool, take_return-first, take_return-pool, take_recover-pool,
  take_bind-pool, take_accrue-pool, take_rotate-pool, take_resolve-pool, take_group_a-pool,
  take_group_b-pool,
}
use percolator_stake.Solvency.System.Cases.{
  Relayed, Cases, starts-case, moves-case, sets-case, calls-case, deposits-case, withdraws-case,
}

-- For the settings that read no clock.
abbrev epoch : Clock
epoch = record { slot = 0; epoch = 0 }

same_content :
    (account holder : AccountInfo) (p : StakePool)
    → account ≡ holder
    → holder.content ≡ AccountData.pool_bytes p
    → account.content ≡ AccountData.pool_bytes p
same_content account holder p same held = ap (λ (x : AccountInfo). x.content) same ∙ held

module _ (R : Runtime) (devnet : Bool) (program_id : Pubkey) where
  open R use {Ledger}

  module _ (first holder : AccountInfo) (rest : List AccountInfo) (p : StakePool) (ledger : Ledger)
      (P : StakeInstruction → Outcome R → Type 0) (out : Outcome R)
      (held : holder.content ≡ AccountData.pool_bytes p)
      (c : Cases R devnet program_id first holder p ledger P) where
    serve-cases :
        (i : StakeInstruction)
        → serve R devnet program_id i (first ∷ holder ∷ rest) ledger ≡ ok out
        → P i out
    unfolding serve
    serve-cases (StakeInstruction.init_pool cooldown cap) e =
        let (a, _, e) = >>=-eq-ok (take_init (first ∷ holder ∷ rest)) _ out e in
        starts-case R devnet program_id (P (StakeInstruction.init_pool cooldown cap)) out
          (process_init_pool R devnet program_id a cooldown cap ledger)
          (λ x h. c.started a cooldown cap x h) e
    serve-cases (StakeInstruction.init_trading_pool cooldown cap) e =
        let (a, _, e) = >>=-eq-ok (take_init (first ∷ holder ∷ rest)) _ out e in
        starts-case R devnet program_id (P (StakeInstruction.init_trading_pool cooldown cap)) out
          (process_init_trading_pool R devnet program_id a cooldown cap ledger)
          (λ x h. c.started_trading a cooldown cap x h) e
    serve-cases (StakeInstruction.deposit amount) e =
        let (_, _, e) = >>=-eq-ok (fails (amount == 0) StakeError.zero_amount) _ out e in
        let (a, t, e) = >>=-eq-ok (take_deposit (first ∷ holder ∷ rest)) _ out e in
        let (clock, _, e) = >>=-eq-ok (clock_at R ledger a.1) _ out e in
        let at = same_content _ holder p (take_deposit-pool first holder rest a t) held in
        deposits-case R devnet program_id (P (StakeInstruction.deposit amount)) out
          (process_deposit R program_id a.0 clock amount ledger)
          (λ x h. c.deposit a.0 clock amount x (take_deposit-first first holder rest a t) at h) e
    serve-cases (StakeInstruction.deposit_junior amount) e =
        let (_, _, e) = >>=-eq-ok (fails (amount == 0) StakeError.zero_amount) _ out e in
        let (a, t, e) = >>=-eq-ok (take_deposit (first ∷ holder ∷ rest)) _ out e in
        let (clock, _, e) = >>=-eq-ok (clock_at R ledger a.1) _ out e in
        let at = same_content _ holder p (take_deposit-pool first holder rest a t) held in
        deposits-case R devnet program_id (P (StakeInstruction.deposit_junior amount)) out
          (process_deposit_junior R program_id a.0 clock amount ledger)
          (λ x h.
            c.deposit_junior a.0 clock amount x (take_deposit-first first holder rest a t) at h)
          e
    serve-cases (StakeInstruction.withdraw lp) e =
        let (_, _, e) = >>=-eq-ok (fails (lp == 0) StakeError.zero_amount) _ out e in
        let (a, t, e) = >>=-eq-ok (take_withdraw (first ∷ holder ∷ rest)) _ out e in
        let (clock, _, e) = >>=-eq-ok (clock_at R ledger a.1) _ out e in
        let at = same_content _ holder p (take_withdraw-pool first holder rest a t) held in
        withdraws-case R devnet program_id (P (StakeInstruction.withdraw lp)) out
          (process_withdraw R program_id a.0 clock lp ledger)
          (λ x h. c.withdraw a.0 clock lp x (take_withdraw-first first holder rest a t) at h) e
    serve-cases (StakeInstruction.flush_to_insurance amount) e =
        let (_, _, e) = >>=-eq-ok (fails (amount == 0) StakeError.zero_amount) _ out e in
        let (a, t, e) = >>=-eq-ok (take_flush (first ∷ holder ∷ rest)) _ out e in
        let at = same_content _ holder p (take_flush-pool first holder rest a t) held in
        moves-case R devnet program_id (P (StakeInstruction.flush_to_insurance amount)) out
          (process_flush_to_insurance R program_id a amount ledger) (λ x h. c.flush a amount x at h)
          e
    serve-cases (StakeInstruction.return_insurance amount) e =
        let (_, _, e) = >>=-eq-ok (fails (amount == 0) StakeError.zero_amount) _ out e in
        let (a, t, e) = >>=-eq-ok (take_return (first ∷ holder ∷ rest)) _ out e in
        let at = same_content _ holder p (take_return-pool first holder rest a t) held in
        moves-case R devnet program_id (P (StakeInstruction.return_insurance amount)) out
          (process_return_insurance R program_id a amount ledger)
          (λ x h. c.return_ a amount x (take_return-first first holder rest a t) at h) e
    serve-cases (StakeInstruction.recover_flushed_insurance amount) e =
        let (a, t, e) = >>=-eq-ok (take_recover (first ∷ holder ∷ rest)) _ out e in
        let at = same_content _ holder p (take_recover-pool first holder rest a t) held in
        moves-case R devnet program_id (P (StakeInstruction.recover_flushed_insurance amount)) out
          (process_recover_flushed_insurance R program_id a amount ledger)
          (λ x h. c.recover a amount x (take_recover-pool first holder rest a t) at h) e
    serve-cases StakeInstruction.burn_asset_admin e =
        let (a, t, e) = >>=-eq-ok (take_bind (first ∷ holder ∷ rest)) _ out e in
        let at = same_content _ holder p (take_bind-pool first holder rest a t) held in
        moves-case R devnet program_id (P StakeInstruction.burn_asset_admin) out
          (process_burn_asset_admin R program_id a ledger) (λ x h. c.burn a x at h) e
    serve-cases StakeInstruction.accrue_fees e =
        let (a, t, e) = >>=-eq-ok (take_accrue R (first ∷ holder ∷ rest)) _ out e in
        let (clock, _, e) = >>=-eq-ok (clock_at R ledger a.1) _ out e in
        let at = same_content _ holder p (take_accrue-pool first holder rest R a t) held in
        sets-case R devnet program_id (P StakeInstruction.accrue_fees) out
          (process_accrue_fees R program_id a.0 clock ledger) ledger
          (λ q h. c.accrue a.0 clock q at h) e
    serve-cases (StakeInstruction.update_config cooldown cap) e =
        let (a, t, e) = >>=-eq-ok (take_two (first ∷ holder ∷ rest)) _ out e in
        let at = same_content _ holder p (take_two-pool first holder rest a t) held in
        sets-case R devnet program_id (P (StakeInstruction.update_config cooldown cap)) out
          (process_update_config program_id a.0 a.1 cooldown cap) ledger
          (λ q h. c.settings a.0 a.1 epoch cooldown cap false 0 0 0 0 q at (inl h)) e
    serve-cases (StakeInstruction.admin_set_tranche_config mult) e =
        let (a, t, e) = >>=-eq-ok (take_two (first ∷ holder ∷ rest)) _ out e in
        let at = same_content _ holder p (take_two-pool first holder rest a t) held in
        sets-case R devnet program_id (P (StakeInstruction.admin_set_tranche_config mult)) out
          (process_admin_set_tranche_config program_id a.0 a.1 mult) ledger
          (λ q h. c.settings a.0 a.1 epoch none none false 0 0 mult 0 q at (inr (inl h))) e
    serve-cases (StakeInstruction.admin_set_hwm_config enabled bps) e =
        let (a, t, e) = >>=-eq-ok (take_two (first ∷ holder ∷ rest)) _ out e in
        let at = same_content _ holder p (take_two-pool first holder rest a t) held in
        sets-case R devnet program_id (P (StakeInstruction.admin_set_hwm_config enabled bps)) out
          (process_admin_set_hwm_config program_id a.0 a.1 enabled bps) ledger
          (λ q h. c.settings a.0 a.1 epoch none none enabled 0 bps 0 0 q at (inr (inr (inl h)))) e
    serve-cases StakeInstruction.cancel_cooldown_increase e =
        let (a, t, e) = >>=-eq-ok (take_two (first ∷ holder ∷ rest)) _ out e in
        let at = same_content _ holder p (take_two-pool first holder rest a t) held in
        sets-case R devnet program_id (P StakeInstruction.cancel_cooldown_increase) out
          (process_cancel_cooldown_increase program_id a.0 a.1) ledger
          (λ q h.
            c.settings a.0 a.1 epoch none none false 0 0 0 0 q at
              (inr (inr (inr (inl (inr (inr h)))))))
          e
    serve-cases (StakeInstruction.propose_admin key) e =
        let (a, t, e) = >>=-eq-ok (take_two (first ∷ holder ∷ rest)) _ out e in
        let at = same_content _ holder p (take_two-pool first holder rest a t) held in
        sets-case R devnet program_id (P (StakeInstruction.propose_admin key)) out
          (process_propose_admin program_id a.0 a.1 key) ledger
          (λ q h.
            c.settings a.0 a.1 epoch none none false 0 0 0 key q at (inr (inr (inr (inr (inl h))))))
          e
    serve-cases StakeInstruction.accept_admin e =
        let (a, t, e) = >>=-eq-ok (take_two (first ∷ holder ∷ rest)) _ out e in
        let at = same_content _ holder p (take_two-pool first holder rest a t) held in
        sets-case R devnet program_id (P StakeInstruction.accept_admin) out
          (process_accept_admin program_id a.0 a.1) ledger
          (λ q h.
            c.settings a.0 a.1 epoch none none false 0 0 0 0 q at
              (inr (inr (inr (inr (inr (inl h)))))))
          e
    serve-cases StakeInstruction.set_market_resolved e =
        let (a, t, e) = >>=-eq-ok (take_two (first ∷ holder ∷ rest)) _ out e in
        let at = same_content _ holder p (take_two-pool first holder rest a t) held in
        sets-case R devnet program_id (P StakeInstruction.set_market_resolved) out
          (process_set_market_resolved program_id a.0 a.1) ledger
          (λ q h.
            c.settings a.0 a.1 epoch none none false 0 0 0 0 q at
              (inr (inr (inr (inr (inr (inr h)))))))
          e
    serve-cases (StakeInstruction.propose_cooldown_increase slots) e =
        let (a, t, e) = >>=-eq-ok (take_clocked (first ∷ holder ∷ rest)) _ out e in
        let (clock, _, e) = >>=-eq-ok (clock_at R ledger a.1) _ out e in
        let at = same_content _ holder p (take_clocked-pool first holder rest a t) held in
        sets-case R devnet program_id (P (StakeInstruction.propose_cooldown_increase slots)) out
          (process_propose_cooldown_increase program_id a.0.0 a.0.1 clock slots) ledger
          (λ q h.
            c.settings a.0.0 a.0.1 clock none none false slots 0 0 0 q at
              (inr (inr (inr (inl (inl h))))))
          e
    serve-cases StakeInstruction.commit_cooldown_increase e =
        let (a, t, e) = >>=-eq-ok (take_clocked (first ∷ holder ∷ rest)) _ out e in
        let (clock, _, e) = >>=-eq-ok (clock_at R ledger a.1) _ out e in
        let at = same_content _ holder p (take_clocked-pool first holder rest a t) held in
        sets-case R devnet program_id (P StakeInstruction.commit_cooldown_increase) out
          (process_commit_cooldown_increase program_id a.0.0 a.0.1 clock) ledger
          (λ q h.
            c.settings a.0.0 a.0.1 clock none none false 0 0 0 0 q at
              (inr (inr (inr (inl (inr (inl h)))))))
          e
    serve-cases StakeInstruction.bind_insurance_authority e =
        let (a, t, e) = >>=-eq-ok (take_bind (first ∷ holder ∷ rest)) _ out e in
        let at = same_content _ holder p (take_bind-pool first holder rest a t) held in
        calls-case R devnet program_id (P StakeInstruction.bind_insurance_authority) out
          (process_bind_insurance_authority R program_id a ledger)
          (λ after h. c.relayed _ after (Relayed.bind a at h)) e
    serve-cases StakeInstruction.rotate_insurance_authority e =
        let (a, t, e) = >>=-eq-ok (take_rotate (first ∷ holder ∷ rest)) _ out e in
        let at = same_content _ holder p (take_rotate-pool first holder rest a t) held in
        calls-case R devnet program_id (P StakeInstruction.rotate_insurance_authority) out
          (process_rotate_insurance_authority R program_id a ledger)
          (λ after h. c.relayed _ after (Relayed.rotate_authority a at h)) e
    serve-cases StakeInstruction.rotate_insurance_operator e =
        let (a, t, e) = >>=-eq-ok (take_rotate (first ∷ holder ∷ rest)) _ out e in
        let at = same_content _ holder p (take_rotate-pool first holder rest a t) held in
        calls-case R devnet program_id (P StakeInstruction.rotate_insurance_operator) out
          (process_rotate_insurance_operator R program_id a ledger)
          (λ after h. c.relayed _ after (Relayed.rotate_operator a at h)) e
    serve-cases StakeInstruction.admin_resolve_market e =
        let (a, t, e) = >>=-eq-ok (take_resolve (first ∷ holder ∷ rest)) _ out e in
        let at = same_content _ holder p (take_resolve-pool first holder rest a t) held in
        calls-case R devnet program_id (P StakeInstruction.admin_resolve_market) out
          (process_admin_resolve_market R program_id a ledger)
          (λ after h. c.relayed _ after (Relayed.resolve a at h)) e
    serve-cases (StakeInstruction.admin_update_fee_split creator lp insurance) e =
        let (a, t, e) = >>=-eq-ok (take_group_a (first ∷ holder ∷ rest)) _ out e in
        let at = same_content _ holder p (take_group_a-pool first holder rest a t) held in
        calls-case R devnet program_id
          (P (StakeInstruction.admin_update_fee_split creator lp insurance)) out
          (process_admin_update_fee_split R program_id a creator lp insurance ledger)
          (λ after h.
            c.relayed _ after (Relayed.fees a _ at (Relays.fee_split creator lp insurance h)))
          e
    serve-cases (StakeInstruction.admin_update_maintenance_fee_per_slot fee) e =
        let (a, t, e) = >>=-eq-ok (take_group_a (first ∷ holder ∷ rest)) _ out e in
        let at = same_content _ holder p (take_group_a-pool first holder rest a t) held in
        calls-case R devnet program_id
          (P (StakeInstruction.admin_update_maintenance_fee_per_slot fee)) out
          (process_admin_update_maintenance_fee_per_slot R program_id a fee ledger)
          (λ after h. c.relayed _ after (Relayed.fees a _ at (Relays.maintenance_fee fee h))) e
    serve-cases (StakeInstruction.admin_update_backing_fee_policy domain fee share) e =
        let (a, t, e) = >>=-eq-ok (take_group_b (first ∷ holder ∷ rest)) _ out e in
        let at = same_content _ holder p (take_group_b-pool first holder rest a t) held in
        calls-case R devnet program_id
          (P (StakeInstruction.admin_update_backing_fee_policy domain fee share)) out
          (process_admin_update_backing_fee_policy R program_id a domain fee share ledger)
          (λ after h.
            c.relayed _ after (Relayed.fees a _ at (Relays.backing_fee domain fee share h)))
          e
    serve-cases (StakeInstruction.admin_update_trade_fee_policy fee) e =
        let (a, t, e) = >>=-eq-ok (take_group_b (first ∷ holder ∷ rest)) _ out e in
        let at = same_content _ holder p (take_group_b-pool first holder rest a t) held in
        calls-case R devnet program_id (P (StakeInstruction.admin_update_trade_fee_policy fee)) out
          (process_admin_update_trade_fee_policy R program_id a fee ledger)
          (λ after h. c.relayed _ after (Relayed.fees a _ at (Relays.trade_fee fee h))) e

    -- The entry of the program, on accounts whose second holds `p`.
    pub process-cases :
        (instruction_data : List ℕ)
        → process R devnet program_id (first ∷ holder ∷ rest) instruction_data ledger ≡ ok out
        → (i : StakeInstruction) × (unpack instruction_data ≡ ok i) × P i out
    unfolding process
    process-cases instruction_data e =
        let (i, read, e) = >>=-eq-ok (unpack instruction_data) _ out e in (i, read, serve-cases i e)
