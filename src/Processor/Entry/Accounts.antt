-- ===== src/Processor/Entry/Accounts.antt =====
-- The accounts of the settings, the initialisation, deposits and withdrawals, in the order in which
-- the handlers of src/processor.rs take them from the list. `next_account_info` fails on a list that
-- is exhausted; accounts that are left over are not looked at.
use percolator_stake.Prelude.{List, [], ◌∷◌}
use percolator_stake.Error.{ProgramError, Result, ok, err, ◌>>=◌}
use percolator_stake.Runtime.{AccountInfo}
use percolator_stake.Processor.Deposit.{DepositAccounts}
use percolator_stake.Processor.Init.{InitAccounts}
use percolator_stake.Processor.Withdraw.{WithdrawAccounts}

abbrev pub next_account_info : List AccountInfo → Result (AccountInfo × List AccountInfo)
next_account_info [] = err ProgramError.not_enough_account_keys
next_account_info (a ∷ rest) = ok (a, rest)

-- The signer and the pool.
unfoldable pub take_two : List AccountInfo → Result (AccountInfo × AccountInfo)
take_two accounts = do
  admin ← next_account_info accounts
  pool_pda ← next_account_info admin.1
  ok (admin.0, pool_pda.0)

-- The same with the clock.
unfoldable pub take_clocked : List AccountInfo → Result ((AccountInfo × AccountInfo) × AccountInfo)
take_clocked accounts = do
  admin ← next_account_info accounts
  pool_pda ← next_account_info admin.1
  clock_sysvar ← next_account_info pool_pda.1
  ok ((admin.0, pool_pda.0), clock_sysvar.0)

unfoldable pub take_init : List AccountInfo → Result InitAccounts
take_init accounts = do
  admin ← next_account_info accounts
  slab ← next_account_info admin.1
  pool_pda ← next_account_info slab.1
  lp_mint ← next_account_info pool_pda.1
  vault ← next_account_info lp_mint.1
  vault_auth ← next_account_info vault.1
  collateral_mint ← next_account_info vault_auth.1
  percolator_program ← next_account_info collateral_mint.1
  token_program ← next_account_info percolator_program.1
  system_program ← next_account_info token_program.1
  rent_sysvar ← next_account_info system_program.1
  let taken : InitAccounts = record {
    admin = admin.0;
    slab = slab.0;
    pool_pda = pool_pda.0;
    lp_mint = lp_mint.0;
    vault = vault.0;
    vault_auth = vault_auth.0;
    collateral_mint = collateral_mint.0;
    percolator_program = percolator_program.0;
    token_program = token_program.0;
    rent_sysvar = rent_sysvar.0;
  }
  ok taken

unfoldable pub take_deposit : List AccountInfo → Result (DepositAccounts × AccountInfo)
take_deposit accounts = do
  user ← next_account_info accounts
  pool_pda ← next_account_info user.1
  user_ata ← next_account_info pool_pda.1
  vault ← next_account_info user_ata.1
  lp_mint ← next_account_info vault.1
  user_lp_ata ← next_account_info lp_mint.1
  vault_auth ← next_account_info user_lp_ata.1
  deposit_pda ← next_account_info vault_auth.1
  token_program ← next_account_info deposit_pda.1
  clock_sysvar ← next_account_info token_program.1
  system_program ← next_account_info clock_sysvar.1
  let taken : DepositAccounts = record {
    user = user.0;
    pool_pda = pool_pda.0;
    user_ata = user_ata.0;
    vault = vault.0;
    lp_mint = lp_mint.0;
    user_lp_ata = user_lp_ata.0;
    vault_auth = vault_auth.0;
    deposit_pda = deposit_pda.0;
    token_program = token_program.0;
  }
  ok (taken, clock_sysvar.0)

unfoldable pub take_withdraw : List AccountInfo → Result (WithdrawAccounts × AccountInfo)
take_withdraw accounts = do
  user ← next_account_info accounts
  pool_pda ← next_account_info user.1
  user_lp_ata ← next_account_info pool_pda.1
  lp_mint ← next_account_info user_lp_ata.1
  vault ← next_account_info lp_mint.1
  user_ata ← next_account_info vault.1
  vault_auth ← next_account_info user_ata.1
  deposit_pda ← next_account_info vault_auth.1
  token_program ← next_account_info deposit_pda.1
  clock_sysvar ← next_account_info token_program.1
  let taken : WithdrawAccounts = record {
    user = user.0;
    pool_pda = pool_pda.0;
    user_lp_ata = user_lp_ata.0;
    lp_mint = lp_mint.0;
    vault = vault.0;
    user_ata = user_ata.0;
    vault_auth = vault_auth.0;
    deposit_pda = deposit_pda.0;
    token_program = token_program.0;
  }
  ok (taken, clock_sysvar.0)
