-- ===== src/SplToken/State.antt =====
-- The token accounts and mints that the program reads: `mod state` of src/spl_token.rs, and the
-- slices of a token account's bytes that the handlers compare.
use percolator_stake.Prelude.{ℕ, Bool, not, Option, none, some, List, ◌==◌, ltb, if◌then◌else◌}
use percolator_stake.Bytes.{length, slice}
use percolator_stake.State.{Pubkey}
use percolator_stake.Runtime.{Runtime, AccountState}

abbrev pub account_len : ℕ
account_len = 165

abbrev pub mint_len : ℕ
mint_len = 82

-- The fields of a token account that the program reads.
pub record TokenAccount : Type 0 where
  pub mint : Pubkey
  pub owner : Pubkey
  pub amount : ℕ
  pub state : AccountState

pub record Mint : Type 0 where
  pub decimals : ℕ
  pub is_initialized : Bool

abbrev pub account_state : ℕ → AccountState
account_state b =
    if b == 0
    then AccountState.uninitialized
    else if b == 1
    then AccountState.initialized
    else AccountState.frozen

-- `none` where the data is shorter than an account.
unfoldable pub unpack_account : List ℕ → Option TokenAccount
unpack_account bytes =
    if ltb (length bytes) account_len
    then none
    else some (record {
      mint = slice 0 32 bytes;
      owner = slice 32 64 bytes;
      amount = slice 64 72 bytes;
      state = account_state (slice 108 109 bytes);
    })

unfoldable pub unpack_mint : List ℕ → Option Mint
unpack_mint bytes =
    if ltb (length bytes) mint_len
    then none
    else some
        (record { decimals = slice 44 45 bytes; is_initialized = not (slice 45 46 bytes == 0) })

module _ (R : Runtime) where
  open R use {Ledger, account_data}

  -- The token account at a key.
  unfoldable pub token_account : Ledger → Pubkey → Option TokenAccount
  unfolding unpack_account
  token_account ledger k = unpack_account (account_data ledger k)
