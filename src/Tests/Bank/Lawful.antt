-- ===== src/Tests/Bank/Lawful.antt =====
-- The runtime of Tests/Bank keeps the laws of Solvency/Backing.
use percolator_stake.Prelude.{
  ℕ, Bool-cases, ◌+◌, ◌-◌, ◌≤◌, ◌≡◌, ◌≢◌, refl, sym, ap, ◌∙◌, ◌==◌, u64_max, ◌⊎◌, none, some, List,
  [], ◌∷◌, ◌++◌, arith, inl, inr, true, false,
}
use percolator_stake.State.{Pubkey}
use percolator_stake.Bytes.{to_le_bytes, from_le_bytes, slice, from_le_bytes-to_le_bytes}
use percolator_stake.Runtime.{AccountMeta, AccountState}
use percolator_stake.SplToken.State.{TokenAccount, token_account, unpack_account}
use percolator_stake.SplToken.{transfer}
use percolator_stake.Cpi.{top_up_insurance, withdraw_insurance_asset}
use percolator_stake.Tests.Fixtures.{token}
use percolator_stake.Tests.Bank.{
  Balances, mint_of, owner_of, bytes_at, read_back, move, asked, settle, bank,
}
use percolator_stake.Solvency.Backing.Laws.{IsLawful, IsUnwritten, Draws, Pays, Keeps}

-- A token account reads back its owner and its mint whatever its balance.
reads_token :
    (mint owner : ℕ)
    → (t : TokenAccount) × ((x : ℕ)
        → unpack_account (token mint owner x) ≡ some (record t { amount = read_back x }))
unfolding unpack_account read_back to_le_bytes from_le_bytes
reads_token mint owner =
    let t : TokenAccount = record {
      mint = from_le_bytes (to_le_bytes 32 mint);
      owner = from_le_bytes (to_le_bytes 32 owner);
      amount = 0;
      state = AccountState.initialized;
    } in
    (t, λ x. refl)

read_back-le : (x : ℕ) → x ≤ u64_max → read_back x ≡ x
unfolding read_back
read_back-le x h = from_le_bytes-to_le_bytes 8 x (omega arith)

bytes_at-mint : (k x : ℕ) → k == 22 ≡ true → unpack_account (bytes_at k x) ≡ none
unfolding unpack_account to_le_bytes
bytes_at-mint k x mint = rw mint refl

bytes_at-token : (k x : ℕ) → k == 22 ≡ false → bytes_at k x ≡ token (mint_of k) (owner_of k) x
bytes_at-token k x other = rw other refl

-- An account keeps all but its amount when its balance changes.
view_token :
    (k x y : ℕ) (t : TokenAccount)
    → unpack_account (bytes_at k x) ≡ some t
    → (t.amount ≡ read_back x)
      × (unpack_account (bytes_at k y) ≡ some (record t { amount = read_back y }))
view_token k x y t held = elim (Bool-cases (k == 22)) [
  | inl mint ↦ (let missing = bytes_at-mint k x mint in absurd cc)
  | inr other ↦
      (let (v, reads) = reads_token (mint_of k) (owner_of k) in
        let at_x : some (record v { amount = read_back x }) ≡ some t =
          sym (reads x) ∙ ap unpack_account (sym (bytes_at-token k x other)) ∙ held in
        let same : record v { amount = read_back x } ≡ t = cc in
        (
          ap (λ (z : TokenAccount). z.amount) (sym same),
          ap unpack_account (bytes_at-token k y other)
              ∙ reads y
              ∙ ap (λ (z : TokenAccount). some (record z { amount = read_back y })) same,
        ))
]

moved :
    (l after : Balances) (s d amount : ℕ)
    → s ≢ d
    → move l s d amount ≡ some after
    → (after s ≡ read_back (l s) - amount)
      × (after d ≡ read_back (l d) + amount)
      × (amount ≤ read_back (l s))
      × (read_back (l s) ≤ u64_max)
      × (read_back (l d) + amount ≤ u64_max)
unfolding move
moved l after s d amount apart e = ground arith

unmoved :
    (l after : Balances) (s d amount k : ℕ)
    → k ≢ s
    → k ≢ d
    → move l s d amount ≡ some after
    → after k ≡ l k
unfolding move
unmoved l after s d amount k from_ to e = ground arith

-- What `k` holds follows from its balance alone.
same_balance : (l after : Balances) (k : Pubkey) → after k ≡ l k → Keeps bank l after k
unfolding token_account
same_balance l after k same t held = ap (λ x. unpack_account (bytes_at k x)) same ∙ held

move-apart : (l after : Balances) (s d amount : ℕ) → move l s d amount ≡ some after → s ≢ d
unfolding move
move-apart l after s d amount e = ground arith

move-Draws :
    (l after : Balances) (s d amount : ℕ)
    → s ≢ d
    → move l s d amount ≡ some after
    → Draws bank l after s amount
unfolding token_account
move-Draws l after s d amount apart e t held =
    let (left, _, enough, fits, _) = moved l after s d amount apart e in
    let (has, then_) = view_token s (l s) (after s) t held in
    let now = read_back-le (after s) (omega (arith, left, fits)) in
    (_, then_, record { owner = refl; amount = omega (arith, left, now, has, enough) })

move-Pays :
    (l after : Balances) (s d amount : ℕ)
    → s ≢ d
    → move l s d amount ≡ some after
    → Pays bank l after d amount
unfolding token_account
move-Pays l after s d amount apart e t held =
    let (_, more, _, _, fits) = moved l after s d amount apart e in
    let (has, then_) = view_token d (l d) (after d) t held in
    let now = read_back-le (after d) (omega (arith, more, fits)) in
    (_, then_, record { owner = refl; amount = omega (arith, more, now, has) })

-- The amounts of the three instructions.
amount_read :
    (amount : ℕ)
    → amount ≤ u64_max
    → (slice 0 8 (to_le_bytes 8 amount) ≡ amount)
      × (slice 0 16 (to_le_bytes 16 amount) ≡ amount)
      × (slice 2 18 (to_le_bytes 2 0 ++ to_le_bytes 16 amount) ≡ amount)
unfolding to_le_bytes from_le_bytes
amount_read amount h =
    let eight = from_le_bytes-to_le_bytes 8 amount (omega arith) in
    let sixteen = from_le_bytes-to_le_bytes 16 amount (omega arith) in (eight, sixteen, sixteen)

settled :
    (l after : Balances) (s d : AccountMeta) (amount k : ℕ)
    → (s.is_writable ≡ false) ⊎ (k ≢ s.pubkey)
    → (d.is_writable ≡ false) ⊎ (k ≢ d.pubkey)
    → settle l (some (s, d, amount)) ≡ some after
    → after k ≡ l k
unfolding move
settled l after s d amount k from_ to e = ground arith

nothing : (l after : Balances) (k : Pubkey) → some l ≡ some after → after k ≡ l k
nothing l after k e = let same : l ≡ after = cc in ap (λ (z : Balances). z k) (sym same)

settle-unwritten :
    (l after : Balances) (ms : List AccountMeta) (bytes : List ℕ) (k : Pubkey)
    → settle l (asked ms bytes) ≡ some after
    → IsUnwritten k ms
    → after k ≡ l k
settle-unwritten l after [] bytes k e u = nothing l after k e
settle-unwritten l after (a ∷ []) bytes k e u = nothing l after k e
settle-unwritten l after (a ∷ b ∷ []) bytes k e u = nothing l after k e
settle-unwritten l after (a ∷ b ∷ c ∷ []) [] k e u = nothing l after k e
settle-unwritten l after (a ∷ b ∷ c ∷ []) (tag ∷ rest) k e (ua, (ub, _)) =
    grind (arith, settled l after a b (slice 0 8 rest) k, nothing l after k)
settle-unwritten l after (a ∷ b ∷ c ∷ d ∷ ms) [] k e u = nothing l after k e
settle-unwritten l after (a ∷ b ∷ c ∷ d ∷ ms) (tag ∷ rest) k e (_, (_, (uc, (ud, _)))) =
    grind (arith, settled l after c d (slice 0 16 rest) k, settled l after d c (slice 2 18 rest) k)

pub bank-IsLawful : IsLawful bank 25
unfolding transfer top_up_insurance withdraw_insurance_asset to_le_bytes
bank-IsLawful = record {
  unwritten = λ l after i seeds k e u.
      same_balance l after k (settle-unwritten l after i.accounts i.data_bytes k e u);
  transfer_draws = λ l after s d auth amount seeds fits apart e.
      move-Draws l after s d amount apart (ap (move l s d) (sym (amount_read amount fits).0) ∙ e);
  transfer_pays = λ l after s d auth amount seeds fits apart e.
      move-Pays l after s d amount apart (ap (move l s d) (sym (amount_read amount fits).0) ∙ e);
  create_keeps = λ l after payer target lamports space owner k seeds e.
      same_balance l after k (nothing l after k e);
  fund_keeps =
      λ l after payer target lamports k seeds e. same_balance l after k (nothing l after k e);
  allocate_keeps = λ l after target space k seeds e. same_balance l after k (nothing l after k e);
  assign_keeps = λ l after target owner k seeds e. same_balance l after k (nothing l after k e);
  top_up_draws = λ l after auth slab ata vault amount seeds fits e.
      move-Draws l after ata vault amount
        (move-apart l after ata vault amount
          (ap (move l ata vault) (sym (amount_read amount fits).1) ∙ e))
        (ap (move l ata vault) (sym (amount_read amount fits).1) ∙ e);
  withdraw_insurance_pays =
      λ l after auth market dest vault vault_auth amount seeds t fits held _ e.
        let e = ap (move l vault dest) (sym (amount_read amount fits).2) ∙ e in
        move-Pays l after vault dest amount (move-apart l after vault dest amount e) e t held;
}
