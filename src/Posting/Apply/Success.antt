-- ===== src/Posting/Apply/Success.antt =====
-- `applyPosting` does not fail when the accounts of the lines are there.
use mathlib.Core.Option
use fin_matrix_backend.Prelude.{
  ℕ, ◌≡◌, refl, ◌∙◌, ap, some, List, [], ◌∷◌, ◌++◌, map, ◌==◌, or_else, String, All, All-map, ok,
  inl, inr, Bool-cases,
}
use fin_matrix_backend.Prelude.Int.{ℤ, pos, ◌+ℤ◌, ◌-ℤ◌}
use fin_matrix_backend.Money.{Decimals}
use fin_matrix_backend.Store.{Account, JournalEntryLine, JournalEntry, GeneralLedgerEntry, Db}
use fin_matrix_backend.Posting.Apply.{
  signed_delta, account_of, add_balance, set_balance, add_delta, get_delta, put_delta,
  collect_deltas, apply_deltas, ledger_row, write_rows, apply_posting,
}
use fin_matrix_backend.Posting.Apply.Deltas.{IsFound}
use fin_matrix_backend.Posting.Apply.Balances.{
  Agree, account_of-add_balance, account_of-set_balance,
}

-- The ids of the map are those of accounts that are there.
abbrev IsKnown : List Account → ℕ × ℤ → Type 0
IsKnown accounts d = (a : Account) × (account_of d.0 accounts ≡ some a)

add_delta-IsKnown :
    (accounts : List Account) (id : ℕ) (x : ℤ) (m : List (ℕ × ℤ))
    → (a : Account) × (account_of id accounts ≡ some a)
    → All (IsKnown accounts) m
    → All (IsKnown accounts) (add_delta id x m)
unfolding add_delta
add_delta-IsKnown accounts id x [] k ks = (k, tt)
add_delta-IsKnown accounts id x ((j, d) ∷ m) k (own, ks) = elim (Bool-cases (id == j)) [
  | inl hit ↦ rw hit (own, ks)
  | inr miss ↦ rw miss (own, add_delta-IsKnown accounts id x m k ks)
]

collect_deltas-succeeds :
    (accounts : List Account) (lines : List JournalEntryLine) (m : List (ℕ × ℤ))
    → All (IsFound accounts) lines
    → All (IsKnown accounts) m
    → (deltas : List (ℕ × ℤ)) × (collect_deltas accounts lines m ≡ ok deltas)
      × All (IsKnown accounts) deltas
unfolding collect_deltas
collect_deltas-succeeds accounts [] m found known = (m, refl, known)
collect_deltas-succeeds accounts (l ∷ ls) m ((a, e), found) known =
    let d = signed_delta a.kind l.debit l.credit in
    let (deltas, done, all_known) =
      collect_deltas-succeeds accounts ls (add_delta l.account_id d m) found
        (add_delta-IsKnown accounts l.account_id d m (a, e) known) in
    (deltas, rw (collect_deltas, e, done), all_known)

-- Updates of balances lose no account.
set_balance-kept :
    (id k : ℕ) (v : ℤ) (accounts : List Account)
    → (a : Account) × (account_of id accounts ≡ some a)
    → (a : Account) × (account_of id (map (set_balance k v) accounts) ≡ some a)
set_balance-kept id k v accounts (a, e) = (
  set_balance k v a,
  account_of-set_balance id k v accounts ∙ ap (Option.map (set_balance k v)) e,
)

add_balance-kept :
    (id k : ℕ) (v : ℤ) (accounts : List Account)
    → (a : Account) × (account_of id accounts ≡ some a)
    → (a : Account) × (account_of id (map (add_balance k v) accounts) ≡ some a)
add_balance-kept id k v accounts (a, e) = (
  add_balance k v a,
  account_of-add_balance id k v accounts ∙ ap (Option.map (add_balance k v)) e,
)

module _ (lib : Decimals) where
  open lib use {to_fixed}

  apply_deltas-succeeds :
      (deltas : List (ℕ × ℤ)) (accounts table : List Account) (lines : List JournalEntryLine)
      → All (IsKnown accounts) deltas
      → All (IsKnown table) deltas
      → All (IsFound accounts) lines
      → (accounts' : List Account) × (table' : List Account) × (apply_deltas lib deltas accounts
            table
          ≡ ok (accounts', table'))
        × All (IsFound accounts') lines
  unfolding apply_deltas
  apply_deltas-succeeds [] accounts table lines known there found = (accounts, table, refl, found)
  apply_deltas-succeeds ((id, d) ∷ deltas) accounts table lines ((a, e), known) (own, there) found =
      let table₁ = map (add_balance id (to_fixed d)) table in
      let (row, e') = add_balance-kept id id (to_fixed d) table own in
      let v = to_fixed row.balance in
      let (accounts', table', done, found') =
        apply_deltas-succeeds deltas (map (set_balance id v) accounts) table₁ lines
          (All-map _ _ (λ (p : ℕ × ℤ). set_balance-kept p.0 id v accounts) deltas known)
          (All-map _ _ (λ (p : ℕ × ℤ). add_balance-kept p.0 id (to_fixed d) table) deltas there)
          (All-map _ _ (λ (l : JournalEntryLine). set_balance-kept l.account_id id v accounts) lines
            found) in
      (accounts', table', rw (apply_deltas, e, e', done), found')

  module _ (entry : JournalEntry) (source_type : String) (source_id : ℕ) where
    write_rows-succeeds :
        (deltas : List (ℕ × ℤ)) (accounts : List Account) (touched : List (ℕ × ℤ))
        (lines : List JournalEntryLine)
        → All (IsFound accounts) lines
        → (rows : List GeneralLedgerEntry) × (write_rows lib entry source_type source_id deltas
              accounts touched lines
            ≡ ok rows)
    unfolding write_rows
    write_rows-succeeds deltas accounts touched [] found = ([], refl)
    write_rows-succeeds deltas accounts touched (l ∷ ls) ((a, e), found) =
        let prior =
          or_else (get_delta a.id touched) (a.balance -ℤ or_else (get_delta a.id deltas) (pos 0)) in
        let running = prior +ℤ signed_delta a.kind l.debit l.credit in
        let (rows, done) =
          write_rows-succeeds deltas accounts (put_delta a.id running touched) ls found in
        (ledger_row lib entry source_type source_id a l running ∷ rows, rw (write_rows, e, done))

    -- A posting whose lines are on accounts in memory that are in the table goes through.
    pub apply_posting-succeeds :
        (accounts : List Account) (db : Db)
        → All (IsFound accounts) entry.lines
        → Agree accounts db.accounts
        → (db' : Db) × (apply_posting lib entry accounts source_type source_id db ≡ ok db')
    unfolding apply_posting
    apply_posting-succeeds accounts db found agree =
        let (deltas, collected, known) = collect_deltas-succeeds accounts entry.lines [] found tt in
        let there =
          All-map (IsKnown accounts) (IsKnown db.accounts) (λ p k. (k.0, agree p.0 k.0 k.1)) deltas
            known in
        let (accounts', table, applied, found') =
          apply_deltas-succeeds deltas accounts db.accounts entry.lines known there found in
        let (rows, written) = write_rows-succeeds deltas accounts' [] entry.lines found' in
        (
          record db { accounts = table; general_ledger = db.general_ledger ++ rows },
          rw (collected, applied, written),
        )
