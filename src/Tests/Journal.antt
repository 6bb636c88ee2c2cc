-- ===== src/Tests/Journal.antt =====
-- Runs of the posting engine and of the journal on the small company.
use fin_matrix_backend.Prelude.{ℕ, ◌≡◌, refl, true, false, none, some, [], ◌∷◌, ◌++◌, ok, err}
use fin_matrix_backend.Prelude.Int.{ℤ, pos, ◌+ℤ◌, ◌-ℤ◌}
use fin_matrix_backend.Money.Rounding.{half_up, eight_places}
use fin_matrix_backend.Store.{
  asset, liability, revenue, draft, posted, void, JournalEntry, GeneralLedgerEntry, Db,
  period_locked, unbalanced_entry,
}
use fin_matrix_backend.Posting.Checks.{next_journal_reference, validate_lines, assert_period_open}
use fin_matrix_backend.Posting.Apply.{apply_posting}
use fin_matrix_backend.Posting.Create.{
  save_and_post, check_entry, create_entry, check_draft, post_draft, assert_entry_balanced,
}
use fin_matrix_backend.JournalEntries.{
  assert_not_reconciled, commit, check_voidable, reverse_posted, void_entry, post,
}
use fin_matrix_backend.JournalEntries.Steps.{IsValid}
use fin_matrix_backend.Tests.{
  rupees, cash, loan, sales, stored, account, odd_draft, even_draft, books, env, later, sale,
}

-- The sale as it is stored: five places are rounded to four.
abbrev pub sale_entry : JournalEntry
sale_entry = record {
  id = 7;
  company_id = 1;
  reference = 3;
  date = 203;
  memo = some "sale";
  status = posted;
  total_debits = rupees 12;
  total_credits = rupees 12;
  created_by = 2;
  posted_by = some 2;
  posted_at = some 777;
  void_reason = none;
  reversal_of_id = none;
  lines =
      stored cash (rupees 7) (pos 0) 0
      ∷ stored sales (pos 0) (rupees 12) 1
      ∷ stored cash (rupees 5) (pos 0) 2
      ∷ [];
}

abbrev sale_row : ℕ → ℤ → ℤ → ℤ → GeneralLedgerEntry
sale_row id debit credit balance = record {
  company_id = 1;
  date = 203;
  reference = 3;
  account_id = id;
  debit = debit;
  credit = credit;
  balance = balance;
  source_type = "invoice";
  source_id = 44;
  memo = some "sale";
  reconciliation_id = none;
}

abbrev pub after_sale : Db
after_sale = record books {
  accounts =
      account cash asset (rupees 62)
      ∷ account loan liability (rupees 50)
      ∷ account sales revenue (rupees 12)
      ∷ [];
  entries = books.entries ++ (sale_entry ∷ []);
  general_ledger =
      sale_row cash (rupees 7) (pos 0) (rupees 57)
      ∷ sale_row sales (pos 0) (rupees 12) (rupees 12)
      ∷ sale_row cash (rupees 5) (pos 0) (rupees 62)
      ∷ [];
}

abbrev pub draft_sale : JournalEntry
draft_sale = record sale_entry { status = draft; posted_by = none; posted_at = none }

-- The totals differ by a fifth of the tolerance before they are rounded.
pub sale_posts : create_entry eight_places env (sale true) books ≡ ok (sale_entry, after_sale)
unfolding create_entry check_entry save_and_post assert_period_open next_journal_reference
    validate_lines apply_posting half_up ◌+ℤ◌ ◌-ℤ◌
sale_posts = refl

pub sale_commits : commit (7 ∷ []) after_sale ≡ ok after_sale
unfolding commit assert_entry_balanced ◌+ℤ◌ ◌-ℤ◌
sale_commits = refl

pub sale_accepted :
    check_entry eight_places (sale true) books ≡ ok (cash ∷ sales ∷ [], pos 1200002000, rupees 12)
unfolding check_entry assert_period_open validate_lines ◌+ℤ◌ ◌-ℤ◌
sale_accepted = refl

locked_sale :
    create_entry eight_places env (record (sale true) { date = 100 }) books ≡ err period_locked
unfolding create_entry check_entry assert_period_open
locked_sale = refl

abbrev pub voided_sale : JournalEntry
voided_sale = record sale_entry { status = void; void_reason = some "mistake" }

-- The entry that takes the sale back.
abbrev sale_reversal : JournalEntry
sale_reversal = record sale_entry {
  id = 8;
  reference = 4;
  date = 206;
  memo = some "Void JE-3: mistake";
  posted_at = some 888;
  reversal_of_id = some 7;
  lines =
      stored cash (pos 0) (rupees 7) 0
      ∷ stored sales (rupees 12) (pos 0) 1
      ∷ stored cash (pos 0) (rupees 5) 2
      ∷ [];
}

abbrev reversal_row : ℕ → ℤ → ℤ → ℤ → GeneralLedgerEntry
reversal_row id debit credit balance = record (sale_row id debit credit balance) {
  date = 206;
  reference = 4;
  source_type = "journal_entry";
  source_id = 8;
  memo = some "Void JE-3: mistake";
}

abbrev pub after_void : Db
after_void = record after_sale {
  accounts = books.accounts;
  entries = books.entries ++ (voided_sale ∷ sale_reversal ∷ []);
  general_ledger =
      after_sale.general_ledger
      ++ (reversal_row cash (pos 0) (rupees 7) (rupees 55)
          ∷ reversal_row sales (rupees 12) (pos 0) (pos 0)
          ∷ reversal_row cash (pos 0) (rupees 5) (rupees 50)
          ∷ []);
}

pub sale_voids :
    void_entry eight_places later 1 7 2 "mistake" "Void JE-3: mistake" after_sale ≡ ok after_void
unfolding void_entry check_voidable assert_not_reconciled reverse_posted commit create_entry
    check_entry save_and_post assert_period_open next_journal_reference validate_lines apply_posting
    assert_entry_balanced half_up ◌+ℤ◌ ◌-ℤ◌
sale_voids = refl

abbrev pub posted_even : JournalEntry
posted_even = record even_draft { status = posted; posted_by = some 2; posted_at = some 777 }

abbrev even_row : ℕ → ℤ → ℤ → ℤ → GeneralLedgerEntry
even_row id debit credit balance = record (sale_row id debit credit balance) {
  date = 200;
  reference = 2;
  source_type = "journal_entry";
  source_id = 5;
  memo = none;
}

abbrev pub after_post : Db
after_post = record books {
  accounts =
      account cash asset (rupees 59)
      ∷ account loan liability (rupees 59)
      ∷ account sales revenue (pos 0)
      ∷ [];
  entries = odd_draft ∷ posted_even ∷ [];
  general_ledger =
      even_row cash (rupees 9) (pos 0) (rupees 59)
      ∷ even_row loan (pos 0) (rupees 9) (rupees 59)
      ∷ [];
}

pub even_posts : post_draft eight_places env 1 5 2 books ≡ ok (posted_even, after_post)
unfolding post_draft check_draft assert_period_open apply_posting half_up ◌+ℤ◌ ◌-ℤ◌
even_posts = refl

-- The draft with nine debits and five credits does not post.
odd_refused : post eight_places env 1 4 2 books ≡ err unbalanced_entry
unfolding post post_draft check_draft assert_period_open ◌+ℤ◌ ◌-ℤ◌
odd_refused = refl

pub books-IsValid : IsValid eight_places books
unfolding half_up
books-IsValid = record {
  sound = record { unique = (refl, (refl, (refl, tt))); stored = (refl, (refl, (refl, tt))) };
  entries_money = (((refl, refl), ((refl, refl), tt)), (((refl, refl), ((refl, refl), tt)), tt));
}

pub after_sale-IsValid : IsValid eight_places after_sale
unfolding half_up
after_sale-IsValid = record {
  sound = record { unique = (refl, (refl, (refl, tt))); stored = (refl, (refl, (refl, tt))) };
  entries_money = (
    ((refl, refl), ((refl, refl), tt)),
    (((refl, refl), ((refl, refl), tt)), (((refl, refl), ((refl, refl), ((refl, refl), tt))), tt)),
  );
}

pub even_post_commits : post eight_places env 1 5 2 books ≡ ok after_post
unfolding post post_draft check_draft assert_period_open apply_posting commit assert_entry_balanced
    half_up ◌+ℤ◌ ◌-ℤ◌
even_post_commits = refl

pub draft_saves :
    create_entry eight_places env (sale false) books
    ≡ ok (draft_sale, record books { entries = books.entries ++ (draft_sale ∷ []) })
unfolding create_entry check_entry save_and_post next_journal_reference validate_lines half_up ◌+ℤ◌
    ◌-ℤ◌
draft_saves = refl
