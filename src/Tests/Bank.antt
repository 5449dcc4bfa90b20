-- ===== src/Tests/Bank.antt =====
-- A runtime whose token program moves balances, and that it keeps the laws of Solvency/Backing.
pub mod Lawful
use percolator_stake.Prelude.{
  ℕ, ◌+◌, ◌-◌, ◌&&◌, ◌==◌, ltb, if◌then◌else◌, u64_max, Option, none, some, List, [], ◌∷◌, ◌++◌,
}
use percolator_stake.State.{Pubkey}
use percolator_stake.Bytes.{to_le_bytes, from_le_bytes, slice}
use percolator_stake.Runtime.{Runtime, AccountMeta, Instruction, Seed}
use percolator_stake.Tests.Fixtures.{clock, token, program_address, no_instruction}

-- What each account holds.
abbrev pub Balances : Type 0
Balances = Pubkey → ℕ

-- Key 22 is the collateral's mint, with 6 decimals; every other key is a token account: 32 for
-- shares, of user 30; 33 of the admin 21; 24 of the vault's authority 12; 40 of the wrapper's
-- authority 41; all others of user 30.
abbrev pub mint_of : Pubkey → Pubkey
mint_of k = if k == 32 then 23 else 22

abbrev pub owner_of : Pubkey → Pubkey
owner_of k = if k == 24 then 12 else if k == 33 then 21 else if k == 40 then 41 else 30

abbrev pub bytes_at : Pubkey → (balance : ℕ) → List ℕ
bytes_at k balance =
    if k == 22
    then to_le_bytes 44 0 ++ (6 ∷ 1 ∷ to_le_bytes 36 0)
    else token (mint_of k) (owner_of k) balance

-- A balance as its eight bytes give it.
unfoldable pub read_back : ℕ → ℕ
read_back x = from_le_bytes (to_le_bytes 8 x)

unfoldable pub move : Balances → (source dest : Pubkey) → (amount : ℕ) → Option Balances
move balances source dest amount =
    let from_ = read_back (balances source) in
    let to = read_back (balances dest) in
    if source == dest
    then none
    else if ltb from_ amount
    then none
    else if ltb u64_max from_
    then none
    else if ltb u64_max (to + amount)
    then none
    else some
        (λ k. if k == source then from_ - amount else if k == dest then to + amount else balances k)

-- The transfer that an instruction asks for: tag 3 of the token program, tags 9 and 57 of the
-- wrapper.
abbrev pub asked : List AccountMeta → List ℕ → Option (AccountMeta × AccountMeta × ℕ)
asked (a ∷ b ∷ c ∷ []) (tag ∷ rest) = if tag == 3 then some (a, b, slice 0 8 rest) else none
asked (a ∷ b ∷ c ∷ d ∷ ms) (tag ∷ rest) =
    if tag == 9
    then some (c, d, slice 0 16 rest)
    else if tag == 57
    then some (d, c, slice 2 18 rest)
    else none
asked _ _ = none

abbrev pub settle : Balances → Option (AccountMeta × AccountMeta × ℕ) → Option Balances
settle balances none = some balances
settle balances (some (s, d, amount)) =
    if s.is_writable && d.is_writable then move balances s.pubkey d.pubkey amount else some balances

abbrev pub bank : Runtime
bank = record {
  Ledger = Balances;
  token_program_id = 2;
  account_data = λ balances k. bytes_at k (balances k);
  account_owner = λ _ _. 1;
  rent_sysvar_id = 50;
  is_rent = λ _ k. k == 50;
  clock = λ _ k. if k == 51 then some clock else none;
  lamports = λ _ _. 0;
  minimum_balance = λ _. 1;
  invoke = λ balances i _. settle balances (asked i.accounts i.data_bytes);
  find_program_address = λ s _. (program_address s, 254);
  create_account = λ _ _ _ _ _. no_instruction;
  system_transfer = λ _ _ _. no_instruction;
  allocate = λ _ _. no_instruction;
  assign = λ _ _. no_instruction;
}
