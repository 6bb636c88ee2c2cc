-- ===== src/Store.antt =====
-- The tables that the posting engine and the journal touch: the entities Company, Account,
-- JournalEntry, JournalEntryLine and GeneralLedgerEntry of src/modules, with the columns that the
-- code reads or writes. Ids are numbers that are only compared; dates are day numbers, which order
-- as the ISO strings do.
use fin_matrix_backend.Prelude.{ℕ, Bool, Option, String, List}
use fin_matrix_backend.Prelude.Int.{ℤ}

pub data AccountType : Type 0 where
  asset liability equity revenue expense : AccountType

pub data SubType : Type 0 where
  cash bank other_sub_type : SubType

pub data JournalEntryStatus : Type 0 where
  draft posted void : JournalEntryStatus

pub record Company : Type 0 where
  pub id : ℕ
  pub books_locked_until : Option ℕ

pub record Account : Type 0 where
  pub id : ℕ
  pub company_id : ℕ
  pub account_number : ℕ
  pub kind : AccountType
  pub balance : ℤ
  pub is_active : Bool

pub record JournalEntryLine : Type 0 where
  pub account_id : ℕ
  pub description : Option String
  pub debit : ℤ
  pub credit : ℤ
  pub line_order : ℕ

pub record JournalEntry : Type 0 where
  pub id : ℕ
  pub company_id : ℕ
  pub reference : ℕ
  pub date : ℕ
  pub memo : Option String
  pub status : JournalEntryStatus
  pub total_debits : ℤ
  pub total_credits : ℤ
  pub created_by : ℕ
  pub posted_by : Option ℕ
  pub posted_at : Option ℕ
  pub void_reason : Option String
  pub reversal_of_id : Option ℕ
  pub lines : List JournalEntryLine

pub record GeneralLedgerEntry : Type 0 where
  pub company_id : ℕ
  pub date : ℕ
  pub reference : ℕ
  pub account_id : ℕ
  pub debit : ℤ
  pub credit : ℤ
  pub balance : ℤ
  pub source_type : String
  pub source_id : ℕ
  pub memo : Option String
  pub reconciliation_id : Option ℕ

pub record Db : Type 0 where
  pub companies : List Company
  pub accounts : List Account
  pub entries : List JournalEntry
  pub general_ledger : List GeneralLedgerEntry

-- The codes of the exceptions. `type_error` is a read of a property of `undefined`, and
-- `check_violation` a constraint of the database that refuses the write.
pub data Error : Type 0 where
  insufficient_lines period_locked line_shape negative_amount account_not_found : Error
  account_inactive unbalanced_entry not_found cannot_edit_non_draft already_void : Error
  transaction_reconciled type_error check_violation : Error

-- What a request takes from outside: the clock, the business date, and the id that the database
-- generates for a new entry.
pub record Env : Type 0 where
  pub now : ℕ
  pub today : ℕ
  pub new_id : ℕ
