-- ===== src/Processor/Entry/WrapperAccounts.antt =====
-- The accounts of the instructions that move insurance, accrue fees, or call the wrapper for the
-- admin, in the order in which the handlers of src/processor.rs take them.
use percolator_stake.Prelude.{List}
use percolator_stake.Error.{Result, ok, ◌>>=◌}
use percolator_stake.Runtime.{Runtime, AccountInfo}
use percolator_stake.Processor.Accrual.{AccrueAccounts}
use percolator_stake.Processor.Authority.{BindAccounts, RotateAccounts}
use percolator_stake.Processor.Insurance.{FlushAccounts, ReturnAccounts, RecoverAccounts}
use percolator_stake.Processor.Proxies.{ProxyAccounts}
use percolator_stake.Processor.Resolution.{ResolveAccounts}
use percolator_stake.Processor.Entry.Accounts.{next_account_info}

unfoldable pub take_flush : List AccountInfo → Result FlushAccounts
take_flush accounts = do
  caller ← next_account_info accounts
  pool_pda ← next_account_info caller.1
  vault ← next_account_info pool_pda.1
  vault_auth ← next_account_info vault.1
  slab ← next_account_info vault_auth.1
  wrapper_vault ← next_account_info slab.1
  percolator_program ← next_account_info wrapper_vault.1
  token_program ← next_account_info percolator_program.1
  let taken : FlushAccounts = record {
    caller = caller.0;
    pool_pda = pool_pda.0;
    vault = vault.0;
    vault_auth = vault_auth.0;
    slab = slab.0;
    wrapper_vault = wrapper_vault.0;
    percolator_program = percolator_program.0;
    token_program = token_program.0;
  }
  ok taken

unfoldable pub take_return : List AccountInfo → Result ReturnAccounts
take_return accounts = do
  admin ← next_account_info accounts
  pool_pda ← next_account_info admin.1
  admin_ata ← next_account_info pool_pda.1
  vault ← next_account_info admin_ata.1
  token_program ← next_account_info vault.1
  let taken : ReturnAccounts = record {
    admin = admin.0;
    pool_pda = pool_pda.0;
    admin_ata = admin_ata.0;
    vault = vault.0;
    token_program = token_program.0;
  }
  ok taken

unfoldable pub take_recover : List AccountInfo → Result RecoverAccounts
take_recover accounts = do
  caller ← next_account_info accounts
  pool_pda ← next_account_info caller.1
  vault ← next_account_info pool_pda.1
  vault_auth ← next_account_info vault.1
  market ← next_account_info vault_auth.1
  wrapper_vault ← next_account_info market.1
  wrapper_vault_auth ← next_account_info wrapper_vault.1
  token_program ← next_account_info wrapper_vault_auth.1
  percolator_program ← next_account_info token_program.1
  let taken : RecoverAccounts = record {
    pool_pda = pool_pda.0;
    vault = vault.0;
    vault_auth = vault_auth.0;
    market = market.0;
    wrapper_vault = wrapper_vault.0;
    wrapper_vault_auth = wrapper_vault_auth.0;
    token_program = token_program.0;
    percolator_program = percolator_program.0;
  }
  ok taken

unfoldable pub take_bind : List AccountInfo → Result BindAccounts
take_bind accounts = do
  admin ← next_account_info accounts
  pool_pda ← next_account_info admin.1
  vault_auth ← next_account_info pool_pda.1
  slab ← next_account_info vault_auth.1
  percolator_program ← next_account_info slab.1
  let taken : BindAccounts = record {
    admin = admin.0;
    pool_pda = pool_pda.0;
    vault_auth = vault_auth.0;
    slab = slab.0;
    percolator_program = percolator_program.0;
  }
  ok taken

unfoldable pub take_resolve : List AccountInfo → Result ResolveAccounts
take_resolve accounts = do
  admin ← next_account_info accounts
  pool_pda ← next_account_info admin.1
  slab ← next_account_info pool_pda.1
  percolator_program ← next_account_info slab.1
  let taken : ResolveAccounts = record {
    admin = admin.0;
    pool_pda = pool_pda.0;
    slab = slab.0;
    percolator_program = percolator_program.0;
  }
  ok taken

unfoldable pub take_group_b : List AccountInfo → Result ProxyAccounts
take_group_b accounts = do
  admin ← next_account_info accounts
  pool_pda ← next_account_info admin.1
  vault_auth ← next_account_info pool_pda.1
  slab ← next_account_info vault_auth.1
  percolator_program ← next_account_info slab.1
  let taken : ProxyAccounts = record {
    admin = admin.0;
    pool_pda = pool_pda.0;
    vault_auth = vault_auth.0;
    slab = slab.0;
    percolator_program = percolator_program.0;
  }
  ok taken

unfoldable pub take_rotate : List AccountInfo → Result RotateAccounts
take_rotate accounts = do
  admin ← next_account_info accounts
  pool_pda ← next_account_info admin.1
  vault_auth ← next_account_info pool_pda.1
  new_target ← next_account_info vault_auth.1
  slab ← next_account_info new_target.1
  percolator_program ← next_account_info slab.1
  let bound : BindAccounts = record {
    admin = admin.0;
    pool_pda = pool_pda.0;
    vault_auth = vault_auth.0;
    slab = slab.0;
    percolator_program = percolator_program.0;
  }
  let taken : RotateAccounts = record { bound = bound; new_target = new_target.0 }
  ok taken

-- Group A has no vault authority; nothing reads the field.
unfoldable pub take_group_a : List AccountInfo → Result ProxyAccounts
take_group_a accounts = do
  admin ← next_account_info accounts
  pool_pda ← next_account_info admin.1
  slab ← next_account_info pool_pda.1
  percolator_program ← next_account_info slab.1
  let taken : ProxyAccounts = record {
    admin = admin.0;
    pool_pda = pool_pda.0;
    vault_auth = pool_pda.0;
    slab = slab.0;
    percolator_program = percolator_program.0;
  }
  ok taken

unfoldable pub take_accrue :
    (R : Runtime) → List AccountInfo → Result (AccrueAccounts R × AccountInfo)
take_accrue R accounts = do
  caller ← next_account_info accounts
  pool_ai ← next_account_info caller.1
  vault_ai ← next_account_info pool_ai.1
  clock_ai ← next_account_info vault_ai.1
  let taken : AccrueAccounts R = record {
    caller = caller.0;
    pool_ai = pool_ai.0;
    vault_ai = vault_ai.0;
  }
  ok (taken, clock_ai.0)
