-- ===== src/Tests/Accounts.antt =====
-- The accounts of the instructions for a fixture pool.
use percolator_stake.Prelude.{ℕ, true}
use percolator_stake.State.{StakePool, StakeDeposit, Pubkey}
use percolator_stake.Runtime.{AccountData, AccountInfo}
use percolator_stake.Processor.Deposit.{DepositAccounts}
use percolator_stake.Processor.Withdraw.{WithdrawAccounts}
use percolator_stake.Processor.Insurance.{FlushAccounts, ReturnAccounts, RecoverAccounts}
use percolator_stake.Processor.Accrual.{AccrueAccounts}
use percolator_stake.Processor.Init.{InitAccounts, percolator_mainnet}
use percolator_stake.Processor.Authority.{BindAccounts, RotateAccounts}
use percolator_stake.Processor.Proxies.{ProxyAccounts}
use percolator_stake.Tests.Fixtures.{runtime}

-- The program is 1 and the token program 2.
abbrev pub account : (key owner : Pubkey) → AccountData → AccountInfo
account key owner content = record {
  key = key;
  owner = owner;
  is_signer = true;
  is_writable = true;
  content = content;
}

abbrev pub pool_account : StakePool → AccountInfo
pool_account p = account 10 1 (AccountData.pool_bytes p)

abbrev pub admin : AccountInfo
admin = account 21 0 AccountData.empty

abbrev pub deposit_accounts : StakePool → DepositAccounts
deposit_accounts p = record {
  user = account 30 0 AccountData.empty;
  pool_pda = pool_account p;
  user_ata = account 31 2 AccountData.short_bytes;
  vault = account 24 2 AccountData.short_bytes;
  lp_mint = account 23 2 AccountData.short_bytes;
  user_lp_ata = account 32 2 AccountData.short_bytes;
  vault_auth = account 12 0 AccountData.empty;
  deposit_pda = account 13 0 AccountData.empty;
  token_program = account 2 0 AccountData.empty;
}

abbrev pub withdraw_accounts : StakePool → StakeDeposit → WithdrawAccounts
withdraw_accounts p d = record {
  user = account 30 0 AccountData.empty;
  pool_pda = pool_account p;
  user_lp_ata = account 32 2 AccountData.short_bytes;
  lp_mint = account 23 2 AccountData.short_bytes;
  vault = account 24 2 AccountData.short_bytes;
  user_ata = account 31 2 AccountData.short_bytes;
  vault_auth = account 12 0 AccountData.empty;
  deposit_pda = account 13 1 (AccountData.deposit_bytes d);
  token_program = account 2 0 AccountData.empty;
}

abbrev pub flush_accounts : StakePool → FlushAccounts
flush_accounts p = record {
  caller = admin;
  pool_pda = pool_account p;
  vault = account 24 2 AccountData.short_bytes;
  vault_auth = account 12 0 AccountData.empty;
  slab = account 20 25 AccountData.short_bytes;
  wrapper_vault = account 40 2 AccountData.short_bytes;
  percolator_program = account 25 0 AccountData.empty;
  token_program = account 2 0 AccountData.empty;
}

abbrev pub return_accounts : StakePool → ReturnAccounts
return_accounts p = record {
  admin = admin;
  pool_pda = pool_account p;
  admin_ata = account 33 2 AccountData.short_bytes;
  vault = account 24 2 AccountData.short_bytes;
  token_program = account 2 0 AccountData.empty;
}

abbrev pub recover_accounts : StakePool → RecoverAccounts
recover_accounts p = record {
  pool_pda = pool_account p;
  vault = account 24 2 AccountData.short_bytes;
  vault_auth = account 12 0 AccountData.empty;
  market = account 20 25 AccountData.short_bytes;
  wrapper_vault = account 40 2 AccountData.short_bytes;
  wrapper_vault_auth = account 41 0 AccountData.empty;
  token_program = account 2 0 AccountData.empty;
  percolator_program = account 25 0 AccountData.empty;
}

abbrev pub accrue_accounts : (balance : ℕ) → StakePool → AccrueAccounts (runtime balance)
accrue_accounts balance p = record {
  caller = admin;
  pool_ai = pool_account p;
  vault_ai = account 24 2 AccountData.short_bytes;
}

abbrev pub init_accounts : InitAccounts
init_accounts = record {
  admin = admin;
  slab = account 20 percolator_mainnet AccountData.short_bytes;
  pool_pda = account 10 0 AccountData.empty;
  lp_mint = account 23 2 AccountData.short_bytes;
  vault = account 24 2 AccountData.short_bytes;
  vault_auth = account 12 0 AccountData.empty;
  collateral_mint = account 22 2 AccountData.short_bytes;
  percolator_program = account percolator_mainnet 0 AccountData.empty;
  token_program = account 2 0 AccountData.empty;
  rent_sysvar = account 50 0 AccountData.empty;
}

abbrev pub bind_accounts : StakePool → BindAccounts
bind_accounts p = record {
  admin = admin;
  pool_pda = pool_account p;
  vault_auth = account 12 0 AccountData.empty;
  slab = account 20 25 AccountData.short_bytes;
  percolator_program = account 25 0 AccountData.empty;
}

abbrev pub rotate_accounts : StakePool → RotateAccounts
rotate_accounts p = record { bound = bind_accounts p; new_target = account 77 0 AccountData.empty }

abbrev pub proxy_accounts : StakePool → ProxyAccounts
proxy_accounts p = record {
  admin = admin;
  pool_pda = pool_account p;
  vault_auth = account 12 0 AccountData.empty;
  slab = account 20 25 AccountData.short_bytes;
  percolator_program = account 25 0 AccountData.empty;
}
