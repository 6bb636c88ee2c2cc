-- ===== src/Posting/Apply.antt =====
-- `applyPosting` of src/modules/journal-entries/posting.service.ts: the balances and the ledger
-- rows that a posted entry writes.
pub mod Deltas
pub mod Balances
pub mod Rows
pub mod Sequential
pub mod Success
use fin_matrix_backend.Prelude.{
  ℕ, Option, none, some, String, List, [], ◌∷◌, ◌++◌, map, ◌==◌, if◌then◌else◌, or_else, find,
  Result, ok, err, ◌>>=◌,
}
use fin_matrix_backend.Prelude.Int.{ℤ, pos, ◌+ℤ◌, ◌-ℤ◌}
use fin_matrix_backend.Money.{Decimals}
use fin_matrix_backend.Store.{
  AccountType, asset, liability, equity, revenue, expense, Account, JournalEntryLine, JournalEntry,
  GeneralLedgerEntry, Db, Error, type_error,
}

-- Assets and expenses grow with debits, the others with credits.
unfoldable pub signed_delta : AccountType → ℤ → ℤ → ℤ
signed_delta asset debit credit = debit -ℤ credit
signed_delta expense debit credit = debit -ℤ credit
signed_delta liability debit credit = credit -ℤ debit
signed_delta equity debit credit = credit -ℤ debit
signed_delta revenue debit credit = credit -ℤ debit

-- `accountMap.get`.
abbrev pub account_of : ℕ → List Account → Option Account
account_of id = find (λ (a : Account). id == a.id)

abbrev pub add_balance : ℕ → ℤ → Account → Account
add_balance id delta a = if id == a.id then record a { balance = a.balance +ℤ delta } else a

abbrev pub set_balance : ℕ → ℤ → Account → Account
set_balance id balance a = if id == a.id then record a { balance = balance } else a

-- `deltas.set(id, (deltas.get(id) ?? 0).plus(delta))` on a `Map` in insertion order.
unfoldable pub add_delta : ℕ → ℤ → List (ℕ × ℤ) → List (ℕ × ℤ)
add_delta id delta [] = (id, delta) ∷ []
add_delta id delta ((j, d) ∷ m) =
    if id == j then (j, d +ℤ delta) ∷ m else (j, d) ∷ add_delta id delta m

unfoldable pub get_delta : ℕ → List (ℕ × ℤ) → Option ℤ
get_delta id [] = none
get_delta id ((j, d) ∷ m) = if id == j then some d else get_delta id m

unfoldable pub put_delta : ℕ → ℤ → List (ℕ × ℤ) → List (ℕ × ℤ)
put_delta id v [] = (id, v) ∷ []
put_delta id v ((j, d) ∷ m) = if id == j then (j, v) ∷ m else (j, d) ∷ put_delta id v m

-- "Aggregate deltas per account."
unfoldable pub collect_deltas :
    List Account → List JournalEntryLine → List (ℕ × ℤ) → Result Error (List (ℕ × ℤ))
unfolding signed_delta add_delta
collect_deltas accounts [] deltas = ok deltas
collect_deltas accounts (l ∷ ls) deltas = elim (account_of l.account_id accounts) [
  | none ↦ err type_error
  | some a ↦
      collect_deltas accounts ls
        (add_delta l.account_id (signed_delta a.kind l.debit l.credit) deltas)
]

module _ (lib : Decimals) where
  open lib use {to_fixed}

  -- The loop of UPDATE statements. `accounts` are the objects in memory, whose balances are read
  -- back from the rows of the table.
  unfoldable pub apply_deltas :
      List (ℕ × ℤ) → List Account → List Account → Result Error (List Account × List Account)
  apply_deltas [] accounts table = ok (accounts, table)
  apply_deltas ((id, delta) ∷ deltas) accounts table =
      let table' = map (add_balance id (to_fixed delta)) table in
      elim (account_of id accounts) [
        | none ↦ err type_error
        | some a ↦ elim (account_of id table') [
          | none ↦ err type_error
          | some row ↦
              apply_deltas deltas (map (set_balance id (to_fixed row.balance)) accounts) table'
        ]
      ]

  abbrev pub ledger_row :
      JournalEntry → String → ℕ → Account → JournalEntryLine → ℤ → GeneralLedgerEntry
  ledger_row entry source_type source_id a l running = record {
    company_id = entry.company_id;
    date = entry.date;
    reference = entry.reference;
    account_id = a.id;
    debit = to_fixed l.debit;
    credit = to_fixed l.credit;
    balance = to_fixed running;
    source_type = source_type;
    source_id = source_id;
    memo = entry.memo;
    reconciliation_id = none;
  }

  -- "Write GL rows with running balance per account." `touched` is `accountsTouched`.
  unfoldable pub write_rows :
      JournalEntry
      → String
      → ℕ
      → List (ℕ × ℤ)
      → List Account
      → List (ℕ × ℤ)
      → List JournalEntryLine
      → Result Error (List GeneralLedgerEntry)
  unfolding signed_delta get_delta put_delta
  write_rows entry source_type source_id deltas accounts touched [] = ok []
  write_rows entry source_type source_id deltas accounts touched (l ∷ ls) =
      elim (account_of l.account_id accounts) [
        | none ↦ err type_error
        | some a ↦
            let prior =
              or_else (get_delta a.id touched)
                (a.balance -ℤ or_else (get_delta a.id deltas) (pos 0)) in
            let running = prior +ℤ signed_delta a.kind l.debit l.credit in
            write_rows entry source_type source_id deltas accounts (put_delta a.id running touched)
              ls
            >>= λ rows. ok (ledger_row entry source_type source_id a l running ∷ rows)
      ]

  unfoldable pub apply_posting : JournalEntry → List Account → String → ℕ → Db → Result Error Db
  unfolding collect_deltas apply_deltas write_rows
  apply_posting entry accounts source_type source_id db = do
    deltas ← collect_deltas accounts entry.lines []
    (accounts', table) ← apply_deltas deltas accounts db.accounts
    rows ← write_rows entry source_type source_id deltas accounts' [] entry.lines
    ok (record db { accounts = table; general_ledger = db.general_ledger ++ rows })
