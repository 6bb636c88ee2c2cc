-- ===== src/JournalEntries.antt =====
-- src/modules/journal-entries/journal-entries.service.ts: `JournalEntriesService`, which owns the
-- transaction of a manual journal, and the lock of reconciled transactions
-- (src/modules/reconciliations/reconciliations.util.ts).
pub mod Commit
pub mod Trial
pub mod Reversal
pub mod Effects
pub mod Steps
pub mod Unbalanced
use fin_matrix_backend.Prelude.{
  ℕ, suc, Bool, true, false, ◌&&◌, Option, none, some, String, List, [], ◌∷◌, ltb, ◌==◌,
  if◌then◌else◌, or_else, is_some, any, find, Result, ok, ◌>>=◌, ◌>>◌, throw_if, or_throw,
}
use fin_matrix_backend.Money.{Decimals}
use fin_matrix_backend.Store.{
  JournalEntryStatus, draft, posted, void, JournalEntryLine, JournalEntry, GeneralLedgerEntry, Db,
  Error, not_found, already_void, transaction_reconciled, Env,
}
use fin_matrix_backend.Posting.Checks.{PostingLineInput, CreatePostingInput}
use fin_matrix_backend.Posting.Create.{save_entry, assert_entry_balanced, create_entry, post_draft}

pub record CreateJournalEntryDto : Type 0 where
  pub date : ℕ
  pub memo : Option String
  pub status : Option JournalEntryStatus
  pub lines : List PostingLineInput
  pub is_opening_balance : Bool

abbrev pub is_posted_status : JournalEntryStatus → Bool
is_posted_status posted = true
is_posted_status _ = false

abbrev pub is_void : JournalEntryStatus → Bool
is_void void = true
is_void _ = false

-- `assertNotReconciled` of one source id.
unfoldable pub assert_not_reconciled : Db → ℕ → ℕ → Result Error (Unit {0})
assert_not_reconciled db company_id source_id =
    throw_if
      (any
        (λ (g : GeneralLedgerEntry).
          (g.company_id == company_id) && (g.source_id == source_id) && is_some g.reconciliation_id)
        db.general_ledger)
      transaction_reconciled

-- A stable sort by `lineOrder`.
abbrev pub insert_line : JournalEntryLine → List JournalEntryLine → List JournalEntryLine
insert_line l [] = l ∷ []
insert_line l (m ∷ ms) = if ltb m.line_order l.line_order then m ∷ insert_line l ms else l ∷ m ∷ ms

abbrev pub sort_lines : List JournalEntryLine → List JournalEntryLine
sort_lines [] = []
sort_lines (l ∷ ls) = insert_line l (sort_lines ls)

-- Debit and credit are swapped; the lines are numbered anew.
abbrev pub reversed_line : JournalEntryLine → ℕ → PostingLineInput
reversed_line l i = record {
  account_id = l.account_id;
  description = l.description;
  debit = l.credit;
  credit = l.debit;
  line_order = some i;
}

abbrev pub reversed_lines : List JournalEntryLine → ℕ → List PostingLineInput
reversed_lines [] i = []
reversed_lines (l ∷ ls) i = reversed_line l i ∷ reversed_lines ls (suc i)

abbrev pub reversal_input : Env → ℕ → ℕ → JournalEntry → String → CreatePostingInput
reversal_input env company_id user_id entry memo = record {
  company_id = company_id;
  date = env.today;
  memo = some memo;
  created_by = user_id;
  lines = reversed_lines (sort_lines entry.lines) 0;
  is_posted = true;
  source_type = none;
  source_id = none;
  reversal_of_id = some entry.id;
}

-- The lines get the order of their place where the request gives none.
abbrev pub numbered_lines : List PostingLineInput → ℕ → List PostingLineInput
numbered_lines [] i = []
numbered_lines (l ∷ ls) i =
    record l { line_order = some (or_else l.line_order i) } ∷ numbered_lines ls (suc i)

-- COMMIT, with the entries that the transaction has written.
unfoldable pub commit : List ℕ → Db → Result Error Db
commit [] db = ok db
commit (id ∷ ids) db = assert_entry_balanced id db >> commit ids db

abbrev pub create_input : ℕ → ℕ → CreateJournalEntryDto → CreatePostingInput
create_input company_id user_id dto = record {
  company_id = company_id;
  date = dto.date;
  memo = dto.memo;
  created_by = user_id;
  lines = numbered_lines dto.lines 0;
  is_posted = is_posted_status (or_else dto.status draft);
  source_type = some (if dto.is_opening_balance then "opening_balance" else "journal_entry");
  source_id = none;
  reversal_of_id = none;
}

-- The entry that `void` finds and may void.
unfoldable pub check_voidable : ℕ → ℕ → Db → Result Error JournalEntry
check_voidable company_id id db = do
  entry ←
      or_throw
        (find (λ (e : JournalEntry). (id == e.id) && (e.company_id == company_id)) db.entries)
        not_found
  throw_if (is_void entry.status) already_void
  assert_not_reconciled db company_id entry.id
  ok entry

module _ (lib : Decimals) where
  -- `dataSource.transaction`: what throws leaves the tables as they were, and so does a deferred
  -- trigger that fails at COMMIT.
  unfoldable pub create : Env → ℕ → ℕ → CreateJournalEntryDto → Db → Result Error Db
  create env company_id user_id dto db = do
    (entry, db') ← create_entry lib env (create_input company_id user_id dto) db
    commit (entry.id ∷ []) db'

  unfoldable pub post : Env → ℕ → ℕ → ℕ → Db → Result Error Db
  post env company_id id user_id db = do
    (entry, db') ← post_draft lib env company_id id user_id db
    commit (entry.id ∷ []) db'

  -- The reversing entry of a posted one, and its id if there is one.
  unfoldable pub reverse_posted :
      Env → ℕ → ℕ → JournalEntry → String → Db → Result Error (List ℕ × Db)
  reverse_posted env company_id user_id entry memo db =
      if is_posted_status entry.status
      then (create_entry lib env (reversal_input env company_id user_id entry memo) db >>= λ r.
          ok (r.0.id ∷ [], r.1))
      else ok ([], db)

  -- `void`. `memo` is the text that is made of the reference and the reason.
  unfoldable pub void_entry : Env → ℕ → ℕ → ℕ → String → String → Db → Result Error Db
  void_entry env company_id id user_id reason memo db = do
    entry ← check_voidable company_id id db
    (written, db') ← reverse_posted env company_id user_id entry memo db
    let entry' = record entry { status = void; void_reason = some reason }
    commit (entry.id ∷ written) (record db' { entries = save_entry entry' db'.entries })
