-- ===== src/Solvency/Settings.antt =====
-- The admin's settings keep the invariant: the handlers of Processor/Config.
use percolator_stake.Prelude.{ℕ, ◌≡◌, ◌⊎◌, inl, inr, Bool, true, false, Option, none, some, arith}
use percolator_stake.Error.{ok}
use percolator_stake.Runtime.{AccountInfo, AccountData, Clock}
use percolator_stake.Instruction.{StakeInstruction}
use percolator_stake.State.{StakePool, Pubkey}
use percolator_stake.Processor.Guards.{pool_from_data}
use percolator_stake.Processor.Config.{
  open_pool, lower_cooldown, apply_hwm_config, process_update_config, process_propose_admin,
  process_accept_admin, process_propose_cooldown_increase, process_commit_cooldown_increase,
  process_cancel_cooldown_increase, process_admin_set_hwm_config, process_admin_set_tranche_config,
  process_set_market_resolved,
}
use percolator_stake.Processor.Config.Timelock.{as_admin}
use percolator_stake.Solvency.{IsSound}

-- The fields that the settings write: nothing of `q` but these differs from `p`, and the switch of
-- tranches and the resolution flag are set to 1 if they are touched at all.
unfoldable pub IsFrame : (p q : StakePool) → Type 0
IsFrame p q =
    (q ≡ record p {
      admin = q.admin;
      pending_admin = q.pending_admin;
      cooldown_slots = q.cooldown_slots;
      deposit_cap = q.deposit_cap;
      pending_cooldown_slots = q.pending_cooldown_slots;
      cooldown_proposed_at_slot = q.cooldown_proposed_at_slot;
      market_resolved_byte = q.market_resolved_byte;
      hwm_enabled_byte = q.hwm_enabled_byte;
      hwm_floor_bps = q.hwm_floor_bps;
      tranche_enabled_byte = q.tranche_enabled_byte;
      junior_fee_mult_bps = q.junior_fee_mult_bps;
    })
    × ((q.tranche_enabled_byte ≡ 1) ⊎ (q.tranche_enabled_byte ≡ p.tranche_enabled_byte))
    × ((q.market_resolved_byte ≡ 1) ⊎ (q.market_resolved_byte ≡ p.market_resolved_byte))

-- One of the settings handlers leads from the pool that `pda` holds to `q`.
abbrev pub IsSetting :
    (program_id : Pubkey) (admin pda : AccountInfo) (clock : Clock) (cooldown cap : Option ℕ)
    (enabled : Bool) (slots bps mult : ℕ) (key : Pubkey) (q : StakePool)
    → Type 0
IsSetting program_id admin pda clock cooldown cap enabled slots bps mult key q =
    (process_update_config program_id admin pda cooldown cap ≡ ok q)
    ⊎ (process_admin_set_tranche_config program_id admin pda mult ≡ ok q)
    ⊎ (process_admin_set_hwm_config program_id admin pda enabled bps ≡ ok q)
    ⊎ ((process_propose_cooldown_increase program_id admin pda clock slots ≡ ok q)
        ⊎ (process_commit_cooldown_increase program_id admin pda clock ≡ ok q)
        ⊎ (process_cancel_cooldown_increase program_id admin pda ≡ ok q))
    ⊎ ((process_propose_admin program_id admin pda key ≡ ok q)
        ⊎ (process_accept_admin program_id admin pda ≡ ok q)
        ⊎ (process_set_market_resolved program_id admin pda ≡ ok q))

-- The instruction that each of them carries out.
abbrev pub setting_asked :
    {A B C D E F G H I : Type 0}
    → (cooldown cap : Option ℕ) (enabled : Bool) (slots bps mult : ℕ) (key : Pubkey)
    → A ⊎ B ⊎ C ⊎ (D ⊎ E ⊎ F) ⊎ (G ⊎ H ⊎ I)
    → StakeInstruction
setting_asked cooldown cap enabled slots bps mult key (inl _) =
    StakeInstruction.update_config cooldown cap
setting_asked cooldown cap enabled slots bps mult key (inr (inl _)) =
    StakeInstruction.admin_set_tranche_config mult
setting_asked cooldown cap enabled slots bps mult key (inr (inr (inl _))) =
    StakeInstruction.admin_set_hwm_config enabled bps
setting_asked cooldown cap enabled slots bps mult key (inr (inr (inr (inl (inl _))))) =
    StakeInstruction.propose_cooldown_increase slots
setting_asked cooldown cap enabled slots bps mult key (inr (inr (inr (inl (inr (inl _)))))) =
    StakeInstruction.commit_cooldown_increase
setting_asked cooldown cap enabled slots bps mult key (inr (inr (inr (inl (inr (inr _)))))) =
    StakeInstruction.cancel_cooldown_increase
setting_asked cooldown cap enabled slots bps mult key (inr (inr (inr (inr (inl _))))) =
    StakeInstruction.propose_admin key
setting_asked cooldown cap enabled slots bps mult key (inr (inr (inr (inr (inr (inl _)))))) =
    StakeInstruction.accept_admin
setting_asked cooldown cap enabled slots bps mult key (inr (inr (inr (inr (inr (inr _)))))) =
    StakeInstruction.set_market_resolved

frame-IsSound : (p q : StakePool) → IsSound p → IsFrame p q → IsSound q
unfolding IsFrame
frame-IsSound p q s frame = ground arith

module _ (program_id : Pubkey) (admin pda : AccountInfo) (clock : Clock) where
  lower_cooldown-IsFrame :
      (p q : StakePool) (cooldown : Option ℕ) → lower_cooldown p cooldown ≡ ok q → IsFrame p q
  unfolding lower_cooldown IsFrame
  lower_cooldown-IsFrame p q none e = ground arith
  lower_cooldown-IsFrame p q (some c) e = ground arith

  update_config-IsFrame :
      (p q : StakePool) (cooldown cap : Option ℕ)
      → pda.content ≡ AccountData.pool_bytes p
      → process_update_config program_id admin pda cooldown cap ≡ ok q
      → IsFrame p q
  unfolding process_update_config IsFrame
  update_config-IsFrame p q cooldown none held e =
      let (_, _, rest) = as_admin program_id admin pda _ p q held e in
      grind (arith, lower_cooldown-IsFrame p)
  update_config-IsFrame p q cooldown (some cap) held e =
      let (_, _, rest) = as_admin program_id admin pda _ p q held e in
      grind (arith, lower_cooldown-IsFrame p)

  set_tranche_config-IsFrame :
      (p q : StakePool) (mult : ℕ)
      → pda.content ≡ AccountData.pool_bytes p
      → process_admin_set_tranche_config program_id admin pda mult ≡ ok q
      → IsFrame p q
  unfolding process_admin_set_tranche_config IsFrame
  set_tranche_config-IsFrame p q mult held e =
      let (_, _, rest) = as_admin program_id admin pda _ p q held e in ground arith

  set_hwm_config-IsFrame :
      (p q : StakePool) (enabled : Bool) (bps : ℕ)
      → pda.content ≡ AccountData.pool_bytes p
      → process_admin_set_hwm_config program_id admin pda enabled bps ≡ ok q
      → IsFrame p q
  unfolding process_admin_set_hwm_config apply_hwm_config IsFrame
  set_hwm_config-IsFrame p q true bps held e =
      let (_, _, rest) = as_admin program_id admin pda _ p q held e in ground arith
  set_hwm_config-IsFrame p q false bps held e =
      let (_, _, rest) = as_admin program_id admin pda _ p q held e in ground arith

  cooldown-IsFrame :
      (p q : StakePool) (slots : ℕ)
      → pda.content ≡ AccountData.pool_bytes p
      → (process_propose_cooldown_increase program_id admin pda clock slots ≡ ok q)
        ⊎ (process_commit_cooldown_increase program_id admin pda clock ≡ ok q)
        ⊎ (process_cancel_cooldown_increase program_id admin pda ≡ ok q)
      → IsFrame p q
  unfolding process_propose_cooldown_increase process_commit_cooldown_increase
      process_cancel_cooldown_increase IsFrame
  cooldown-IsFrame p q slots held (inl e) =
      let (_, _, rest) = as_admin program_id admin pda _ p q held e in ground arith
  cooldown-IsFrame p q slots held (inr (inl e)) =
      let (_, _, rest) = as_admin program_id admin pda _ p q held e in ground arith
  cooldown-IsFrame p q slots held (inr (inr e)) =
      let (_, _, rest) = as_admin program_id admin pda _ p q held e in ground arith

  admin_change-IsFrame :
      (p q : StakePool) (key : Pubkey)
      → pda.content ≡ AccountData.pool_bytes p
      → (process_propose_admin program_id admin pda key ≡ ok q)
        ⊎ (process_accept_admin program_id admin pda ≡ ok q)
        ⊎ (process_set_market_resolved program_id admin pda ≡ ok q)
      → IsFrame p q
  unfolding process_propose_admin process_accept_admin process_set_market_resolved open_pool
      pool_from_data IsFrame
  admin_change-IsFrame p q key held (inl e) =
      let (_, _, rest) = as_admin program_id admin pda _ p q held e in ground arith
  admin_change-IsFrame p q key held (inr (inl e)) = ground arith
  admin_change-IsFrame p q key held (inr (inr e)) =
      let (_, _, rest) = as_admin program_id admin pda _ p q held e in ground arith

  -- No settings handler (update, tranche and floor settings, the cooldown timelock, the admin
  -- rotation, the resolution flag) that succeeds changes a counter, a share, a key of the pool
  -- other than its admins, or the burn flag, and none switches tranches off or takes a resolution
  -- back.
  pub settings-IsFrame :
      (p q : StakePool) (cooldown cap : Option ℕ) (enabled : Bool) (slots bps mult : ℕ)
      (key : Pubkey)
      → pda.content ≡ AccountData.pool_bytes p
      → IsSetting program_id admin pda clock cooldown cap enabled slots bps mult key q
      → IsFrame p q
  settings-IsFrame p q cooldown cap enabled slots bps mult key held (inl e) =
      update_config-IsFrame p q cooldown cap held e
  settings-IsFrame p q cooldown cap enabled slots bps mult key held (inr (inl e)) =
      set_tranche_config-IsFrame p q mult held e
  settings-IsFrame p q cooldown cap enabled slots bps mult key held (inr (inr (inl e))) =
      set_hwm_config-IsFrame p q enabled bps held e
  settings-IsFrame p q cooldown cap enabled slots bps mult key held (inr (inr (inr (inl e)))) =
      cooldown-IsFrame p q slots held e
  settings-IsFrame p q cooldown cap enabled slots bps mult key held (inr (inr (inr (inr e)))) =
      admin_change-IsFrame p q key held e

  -- Every settings handler that succeeds (update, tranche and floor settings, the cooldown
  -- timelock, the admin rotation, the resolution flag) keeps the counters of the pool account
  -- sound.
  pub settings-IsSound :
      (p q : StakePool) (cooldown cap : Option ℕ) (enabled : Bool) (slots bps mult : ℕ)
      (key : Pubkey)
      → IsSound p
      → pda.content ≡ AccountData.pool_bytes p
      → IsSetting program_id admin pda clock cooldown cap enabled slots bps mult key q
      → IsSound q
  settings-IsSound p q cooldown cap enabled slots bps mult key s held e =
      frame-IsSound p q s (settings-IsFrame p q cooldown cap enabled slots bps mult key held e)
