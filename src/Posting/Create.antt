-- ===== src/Posting/Create.antt =====
-- `createEntry` and `postDraft` of src/modules/journal-entries/posting.service.ts, and the
-- constraints of src/database/migrations/1783800000000-LedgerIntegrityConstraints.ts.
pub mod Effect
pub mod Posted
pub mod Success
use fin_matrix_backend.Prelude.{
  ℕ, suc, Bool, true, false, not, ◌&&◌, ◌||◌, Option, none, some, List, [], ◌∷◌, ◌++◌, map, ltb,
  ◌==◌, if◌then◌else◌, or_else, length, any, all, find, set_add, Result, ok, ◌>>=◌, ◌>>◌, throw_if,
  or_throw,
}
use fin_matrix_backend.Prelude.Int.{ℤ, pos, ◌+ℤ◌, ◌-ℤ◌}
use fin_matrix_backend.Money.{Decimals, money_equals, is_positive, is_zero}
use fin_matrix_backend.Store.{
  JournalEntryStatus, draft, posted, Account, JournalEntryLine, JournalEntry, Db, Error,
  insufficient_lines, account_not_found, account_inactive, unbalanced_entry, not_found,
  cannot_edit_non_draft, check_violation, Env,
}
use fin_matrix_backend.Posting.Checks.{
  PostingLineInput, CreatePostingInput, assert_period_open, next_journal_reference, validate_lines,
  find_accounts,
}
use fin_matrix_backend.Posting.Apply.{apply_posting}

-- CHECK "chk_line_shape".
abbrev pub has_line_shape : JournalEntryLine → Bool
has_line_shape l =
    (is_positive l.debit && is_zero l.credit) || (is_positive l.credit && is_zero l.debit)

abbrev pub sum_debits : List JournalEntryLine → ℤ
sum_debits [] = pos 0
sum_debits (l ∷ ls) = l.debit +ℤ sum_debits ls

abbrev pub sum_credits : List JournalEntryLine → ℤ
sum_credits [] = pos 0
sum_credits (l ∷ ls) = l.credit +ℤ sum_credits ls

abbrev pub is_draft : JournalEntryStatus → Bool
is_draft draft = true
is_draft _ = false

abbrev pub entry_of : ℕ → List JournalEntry → Option JournalEntry
entry_of id = find (λ (e : JournalEntry). id == e.id)

abbrev same_sum : ℤ → ℤ → Bool
same_sum a b = is_zero (a -ℤ b)

-- The constraint trigger `finmatrix_assert_entry_balanced`, at COMMIT, for an entry that the
-- transaction has written.
unfoldable pub assert_entry_balanced : ℕ → Db → Result Error (Unit {0})
assert_entry_balanced id db = elim (entry_of id db.entries) [
  | none ↦ ok tt
  | some e ↦
      if is_draft e.status
      then ok tt
      else throw_if (not (same_sum (sum_debits e.lines) (sum_credits e.lines))) check_violation
]

-- `manager.save` of an entry that is in the table.
abbrev pub save_entry : JournalEntry → List JournalEntry → List JournalEntry
save_entry e = map (λ x. if e.id == x.id then e else x)

-- The totals that `postDraft` adds up.
abbrev pub total_lines : List JournalEntryLine → ℤ → ℤ → ℤ × ℤ
total_lines [] debits credits = (debits, credits)
total_lines (l ∷ ls) debits credits = total_lines ls (debits +ℤ l.debit) (credits +ℤ l.credit)

abbrev pub account_ids : List JournalEntryLine → List ℕ → List ℕ
account_ids [] ids = ids
account_ids (l ∷ ls) ids = account_ids ls (set_add l.account_id ids)

module _ (lib : Decimals) where
  open lib use {to_fixed}

  abbrev pub stored_line : PostingLineInput → ℕ → JournalEntryLine
  stored_line l i = record {
    account_id = l.account_id;
    description = l.description;
    debit = to_fixed l.debit;
    credit = to_fixed l.credit;
    line_order = or_else l.line_order i;
  }

  abbrev pub stored_lines : List PostingLineInput → ℕ → List JournalEntryLine
  stored_lines [] i = []
  stored_lines (l ∷ ls) i = stored_line l i ∷ stored_lines ls (suc i)

  abbrev pub new_entry : Env → CreatePostingInput → ℕ → ℤ → ℤ → JournalEntry
  new_entry env input reference debits credits = record {
    id = env.new_id;
    company_id = input.company_id;
    reference = reference;
    date = input.date;
    memo = input.memo;
    status = if input.is_posted then posted else draft;
    total_debits = to_fixed debits;
    total_credits = to_fixed credits;
    created_by = input.created_by;
    posted_by = if input.is_posted then some input.created_by else none;
    posted_at = if input.is_posted then some env.now else none;
    void_reason = none;
    reversal_of_id = input.reversal_of_id;
    lines = stored_lines input.lines 0;
  }

  -- The last part of `createEntry`: the entry and its lines are saved, and posted.
  unfoldable pub save_and_post :
      CreatePostingInput → JournalEntry → List Account → Db → Result Error (JournalEntry × Db)
  save_and_post input entry accounts db =
      throw_if (not (all has_line_shape entry.lines)) check_violation
      >> let db' = record db { entries = db.entries ++ (entry ∷ []) } in
        if input.is_posted
        then (apply_posting lib entry accounts (or_else input.source_type "journal_entry")
              (or_else input.source_id entry.id) db'
            >>= λ db''. ok (entry, db''))
        else ok (entry, db')

  -- The first part: every check that `createEntry` makes, in its order. The account ids and the
  -- totals of the request.
  unfoldable pub check_entry : CreatePostingInput → Db → Result Error (List ℕ × ℤ × ℤ)
  check_entry input db = do
    throw_if (ltb (length input.lines) 2) insufficient_lines
    if input.is_posted then assert_period_open db input.company_id input.date else ok tt
    (ids, debits, credits) ← validate_lines input.lines [] (pos 0) (pos 0)
    let accounts = find_accounts db input.company_id ids
    throw_if (not (length accounts == length ids)) account_not_found
    throw_if (any (λ (a : Account). not a.is_active) accounts) account_inactive
    throw_if (input.is_posted && not (money_equals lib debits credits)) unbalanced_entry
    ok (ids, debits, credits)

  unfoldable pub create_entry : Env → CreatePostingInput → Db → Result Error (JournalEntry × Db)
  create_entry env input db = do
    (ids, debits, credits) ← check_entry input db
    save_and_post input
        (new_entry env input (next_journal_reference db input.company_id) debits credits)
        (find_accounts db input.company_id ids) db

  -- The draft that `postDraft` finds and may post.
  unfoldable pub check_draft : ℕ → ℕ → Db → Result Error JournalEntry
  check_draft company_id entry_id db = do
    entry ←
        or_throw
          (find (λ (e : JournalEntry). (entry_id == e.id) && (e.company_id == company_id))
            db.entries)
          not_found
    throw_if (not (is_draft entry.status)) cannot_edit_non_draft
    assert_period_open db company_id entry.date
    let (debits, credits) = total_lines entry.lines (pos 0) (pos 0)
    throw_if (not (money_equals lib debits credits)) unbalanced_entry
    ok entry

  -- The same entry, posted.
  abbrev pub posted_entry : Env → ℕ → JournalEntry → JournalEntry
  posted_entry env posted_by entry =
      let (debits, credits) = total_lines entry.lines (pos 0) (pos 0) in
      record entry {
        status = posted;
        posted_by = some posted_by;
        posted_at = some env.now;
        total_debits = to_fixed debits;
        total_credits = to_fixed credits;
      }

  unfoldable pub post_draft : Env → ℕ → ℕ → ℕ → Db → Result Error (JournalEntry × Db)
  post_draft env company_id entry_id posted_by db = do
    entry ← check_draft company_id entry_id db
    let accounts = find_accounts db company_id (account_ids entry.lines [])
    let entry' = posted_entry env posted_by entry
    db' ←
        apply_posting lib entry' accounts "journal_entry" entry'.id
          (record db { entries = save_entry entry' db.entries })
    ok (entry', db')
