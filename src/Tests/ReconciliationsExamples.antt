-- ===== src/Tests/ReconciliationsExamples.antt =====
-- A bank account with three rows: a statement finished and undone, and the theorems applied.
use fin_matrix_backend.Prelude.{ℕ, ◌≡◌, refl, false, none, some, [], ◌∷◌, map, ok, err}
use fin_matrix_backend.Prelude.Int.{ℤ, pos, ◌+ℤ◌, ◌-ℤ◌}
use fin_matrix_backend.Money.Rounding.{half_up, eight_places}
use fin_matrix_backend.Store.{bank, Db, transaction_reconciled}
use fin_matrix_backend.JournalEntries.{assert_not_reconciled}
use fin_matrix_backend.Reconciliations.{
  LedgerRow, Reconciliation, Books, get_reconcilable_account, set_cleared, beginning_balance,
  beginning_mismatch, reconciliation_out_of_balance, cleared_entry_after_statement,
}
use fin_matrix_backend.Reconciliations.Statements.{
  CreateReconciliationDto, stamp, cleared_entries, audit_of, create, remove,
}
use fin_matrix_backend.Reconciliations.Chain.{closing, IsValid}
use fin_matrix_backend.Reconciliations.Reach.{creates, Reach, here, next, Reach-beginning_balance}
use fin_matrix_backend.Reconciliations.RoundTrip.{create-remove}
use fin_matrix_backend.Reconciliations.Lock.{entries_of, create_locks}
use fin_matrix_backend.Tests.{rupees, cash, env}

abbrev row : ℕ → ℕ → ℤ → ℤ → ℕ → LedgerRow
row id date debit credit source_id = record {
  id = id;
  cleared = false;
  entry = record {
    company_id = 1;
    date = date;
    reference = 1;
    account_id = cash;
    debit = debit;
    credit = credit;
    balance = pos 0;
    source_type = "payment";
    source_id = source_id;
    memo = none;
    reconciliation_id = none;
  };
}

abbrev bank_books : Books
bank_books = record {
  accounts = record { id = cash; company_id = 1; sub_type = bank; name = "Checking" } ∷ [];
  ledger =
      row 1 100 (rupees 70) (pos 0) 501
      ∷ row 2 120 (pos 0) (rupees 20) 502
      ∷ row 3 160 (rupees 9) (pos 0) 503
      ∷ [];
  reconciliations = [];
  audit = [];
}

bank_books-IsValid : IsValid eight_places bank_books
unfolding half_up
bank_books-IsValid = record {
  ids = (refl, (refl, (refl, tt)));
  money = ((refl, refl), ((refl, refl), ((refl, refl), tt)));
  stamps = (refl, (refl, (refl, tt)));
  chained = tt;
}

abbrev june : CreateReconciliationDto
june = record {
  account_id = cash;
  statement_date = 150;
  statement_ending_balance = rupees 50;
  cleared_entry_ids = 1 ∷ 2 ∷ [];
  notes = none;
}

abbrev june_row : Reconciliation
june_row = record {
  id = 7;
  company_id = 1;
  created_at = 777;
  account_id = cash;
  statement_date = 150;
  statement_ending_balance = rupees 50;
  beginning_balance = pos 0;
  cleared_balance = rupees 50;
  difference = pos 0;
  cleared_count = 2;
  notes = none;
  created_by = 2;
}

abbrev finished_books : Books
finished_books = record bank_books {
  ledger =
      stamp 7 (row 1 100 (rupees 70) (pos 0) 501)
      ∷ stamp 7 (row 2 120 (pos 0) (rupees 20) 502)
      ∷ row 3 160 (rupees 9) (pos 0) 503
      ∷ [];
  reconciliations = june_row ∷ [];
}

june_is_finished : create eight_places env bank_books 1 2 june ≡ ok (finished_books, june_row)
unfolding create get_reconcilable_account cleared_entries half_up ◌+ℤ◌ ◌-ℤ◌
june_is_finished = refl

-- The third row is dated after the statement, and without the second one it does not tie out.
late_row_is_refused :
    create eight_places env bank_books 1 2 (record june { cleared_entry_ids = 3 ∷ [] })
    ≡ err cleared_entry_after_statement
unfolding create get_reconcilable_account cleared_entries half_up ◌+ℤ◌ ◌-ℤ◌
late_row_is_refused = refl

half_statement_is_refused :
    create eight_places env bank_books 1 2 (record june { cleared_entry_ids = 1 ∷ [] })
    ≡ err reconciliation_out_of_balance
unfolding create get_reconcilable_account cleared_entries half_up ◌+ℤ◌ ◌-ℤ◌
half_statement_is_refused = refl

june_is_undone :
    remove finished_books 1 7 (some 2)
    ≡ ok (record bank_books { audit = audit_of 1 (some 2) 7 june_row ∷ [] })
unfolding remove
june_is_undone = refl

to_june : Reach eight_places bank_books finished_books
to_june =
    next here
      (creates env bank_books 1 2 june (finished_books, june_row) refl tt june_is_finished refl)

Reach-beginning_balance_example :
    (beginning_balance eight_places finished_books 1 cash
      ≡ closing 1 cash finished_books.reconciliations)
    × (beginning_mismatch eight_places finished_books 1 cash ≡ none)
Reach-beginning_balance_example =
    Reach-beginning_balance eight_places bank_books finished_books 1 cash bank_books-IsValid to_june

create-remove_example :
    remove finished_books 1 7 (some 2)
    ≡ ok (record bank_books {
      ledger = map (set_cleared 1 cash june.cleared_entry_ids false) bank_books.ledger;
      audit = audit_of 1 (some 2) 7 june_row ∷ [];
    })
create-remove_example =
    create-remove eight_places env bank_books 1 2 june (finished_books, june_row) (some 2)
      bank_books-IsValid refl tt june_is_finished

abbrev bank_db : Db
bank_db = record {
  companies = [];
  accounts = [];
  entries = [];
  general_ledger = entries_of finished_books.ledger;
}

create_locks_example : assert_not_reconciled bank_db 1 502 ≡ err transaction_reconciled
create_locks_example =
    create_locks eight_places env bank_books 1 2 june (finished_books, june_row) 502 bank_db
      bank_books-IsValid refl tt june_is_finished refl refl
