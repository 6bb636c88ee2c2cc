-- ===== src/Tests.antt =====
-- A small company on which the operations run: its cash, its sales and a loan.
pub mod Journal
pub mod JournalExamples
pub mod DeliveryExamples
pub mod AgingExamples
pub mod RulesExamples
pub mod FeaturesExamples
pub mod ReconciliationsExamples
pub mod PaymentsExamples
pub mod ReceiptExamples
use fin_matrix_backend.Prelude.{ℕ, ◌+◌, ◌*◌, Bool, true, false, none, some, List, [], ◌∷◌}
use fin_matrix_backend.Prelude.Int.{ℤ, pos}
use fin_matrix_backend.Store.{
  AccountType, asset, liability, revenue, draft, Company, Account, JournalEntryLine, JournalEntry,
  Db, Env,
}
use fin_matrix_backend.Posting.Checks.{PostingLineInput, CreatePostingInput}

-- An amount in rupees, in eighth decimal places.
abbrev pub rupees : ℕ → ℤ
rupees n = pos (n * 100000000)

abbrev pub account : ℕ → AccountType → ℤ → Account
account id kind balance = record {
  id = id;
  company_id = 1;
  account_number = 1000 + id;
  kind = kind;
  balance = balance;
  is_active = true;
}

abbrev pub cash : ℕ
cash = 10

abbrev pub loan : ℕ
loan = 20

abbrev pub sales : ℕ
sales = 30

abbrev pub line : ℕ → ℤ → ℤ → PostingLineInput
line id debit credit = record {
  account_id = id;
  description = none;
  debit = debit;
  credit = credit;
  line_order = none;
}

abbrev pub stored : ℕ → ℤ → ℤ → ℕ → JournalEntryLine
stored id debit credit i = record {
  account_id = id;
  description = none;
  debit = debit;
  credit = credit;
  line_order = i;
}

-- A draft that was saved with debits that its credits do not match.
abbrev pub odd_draft : JournalEntry
odd_draft = record {
  id = 4;
  company_id = 1;
  reference = 1;
  date = 200;
  memo = none;
  status = draft;
  total_debits = rupees 9;
  total_credits = rupees 5;
  created_by = 2;
  posted_by = none;
  posted_at = none;
  void_reason = none;
  reversal_of_id = none;
  lines = stored cash (rupees 9) (pos 0) 0 ∷ stored loan (pos 0) (rupees 5) 1 ∷ [];
}

abbrev pub even_draft : JournalEntry
even_draft = record odd_draft {
  id = 5;
  reference = 2;
  total_credits = rupees 9;
  lines = stored cash (rupees 9) (pos 0) 0 ∷ stored loan (pos 0) (rupees 9) 1 ∷ [];
}

abbrev pub books : Db
books = record {
  companies = record { id = 1; books_locked_until = some 100 } ∷ [];
  accounts =
      account cash asset (rupees 50)
      ∷ account loan liability (rupees 50)
      ∷ account sales revenue (pos 0)
      ∷ [];
  entries = odd_draft ∷ even_draft ∷ [];
  general_ledger = [];
}

abbrev pub env : Env
env = record { now = 777; today = 205; new_id = 7 }

abbrev pub later : Env
later = record { now = 888; today = 206; new_id = 8 }

-- Twelve rupees in two payments, one of them given to five places.
abbrev pub sale : Bool → CreatePostingInput
sale is_posted = record {
  company_id = 1;
  date = 203;
  memo = some "sale";
  created_by = 2;
  lines =
      line cash (rupees 7) (pos 0)
      ∷ line sales (pos 0) (rupees 12)
      ∷ line cash (pos 500002000) (pos 0)
      ∷ [];
  is_posted = is_posted;
  source_type = some "invoice";
  source_id = some 44;
  reversal_of_id = none;
}
