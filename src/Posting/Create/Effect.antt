-- ===== src/Posting/Create/Effect.antt =====
-- What `createEntry` and `postDraft` do to the tables when they succeed.
use fin_matrix_backend.Prelude.{
  ℕ, suc, String, ◌≤◌, ◌≡◌, true, false, not, ◌&&◌, List, [], ◌∷◌, ◌++◌, map, or_else, length, any,
  all, All, arith, ok, unbind,
}
use fin_matrix_backend.Prelude.Int.{ℤ, pos}
use fin_matrix_backend.Money.{Decimals, money_equals}
use fin_matrix_backend.Store.{Account, JournalEntry, Db, Env}
use fin_matrix_backend.Posting.Checks.{
  PostingLineInput, CreatePostingInput, assert_period_open, is_locked, locked_until,
  next_journal_reference, validate_lines, find_accounts,
}
use fin_matrix_backend.Posting.Apply.{apply_posting}
use fin_matrix_backend.Posting.Apply.Deltas.{IsMoneyLine, IsFound}
use fin_matrix_backend.Posting.Apply.Balances.{IsUnique, AreStored, filter-Agree}
use fin_matrix_backend.Posting.Apply.Rows.{sequential_rows}
use fin_matrix_backend.Posting.Apply.Sequential.{
  post_lines, apply_posting_lem, apply_posting-IsFound,
}
use fin_matrix_backend.Posting.Create.{
  has_line_shape, stored_lines, new_entry, save_and_post, check_entry, create_entry,
}

-- The tables that a posting starts from: no account twice, balances as the column holds them.
pub record IsSound (lib : Decimals) (db : Db) : Type 0 where
  pub unique : IsUnique db.accounts
  pub stored : AreStored lib db.accounts

module _ (lib : Decimals) (env : Env) (input : CreatePostingInput) (db : Db) where
  open lib use {to_fixed, to_fixed_idem}

  -- The conditions that `createEntry` has checked by the time it saves.
  pub record IsAccepted (ids : List ℕ) (debits credits : ℤ) : Type 0 where
    pub two_lines : 2 ≤ length input.lines
    pub period_open :
        (input.is_posted && is_locked (locked_until input.company_id db.companies) input.date)
        ≡ false
    pub validated : validate_lines input.lines [] (pos 0) (pos 0) ≡ ok (ids, debits, credits)
    pub all_found : length (find_accounts db input.company_id ids) ≡ length ids
    pub all_active :
        any (λ (a : Account). not a.is_active) (find_accounts db input.company_id ids) ≡ false
    pub balanced : (input.is_posted && not (money_equals lib debits credits)) ≡ false

  pub check_entry-IsAccepted :
      (ids : List ℕ) (debits credits : ℤ)
      → check_entry lib input db ≡ ok (ids, debits, credits)
      → IsAccepted ids debits credits
  unfolding check_entry assert_period_open
  check_entry-IsAccepted ids debits credits h = ground arith

  pub IsAccepted-check_entry :
      (ids : List ℕ) (debits credits : ℤ)
      → IsAccepted ids debits credits
      → check_entry lib input db ≡ ok (ids, debits, credits)
  unfolding check_entry assert_period_open
  IsAccepted-check_entry ids debits credits accepted =
      ground (arith, accepted.two_lines, accepted.all_found)

  abbrev pub accepted_entry : ℤ → ℤ → JournalEntry
  accepted_entry debits credits =
      new_entry lib env input (next_journal_reference db input.company_id) debits credits

  pub stored_lines-IsMoneyLine :
      (lines : List PostingLineInput) (i : ℕ) → All (IsMoneyLine lib) (stored_lines lib lines i)
  stored_lines-IsMoneyLine [] i = tt
  stored_lines-IsMoneyLine (l ∷ ls) i =
      ((to_fixed_idem l.debit, to_fixed_idem l.credit), stored_lines-IsMoneyLine ls (suc i))

  pub create_entry-checked :
      {e : JournalEntry} {db' : Db}
      → create_entry lib env input db ≡ ok (e, db')
      → (ids : List ℕ) × (debits : ℤ) × (credits : ℤ) × IsAccepted ids debits credits
        × (save_and_post lib input
              (accepted_entry debits credits)
              (find_accounts db input.company_id ids)
              db
            ≡ ok (e, db'))
  unfolding create_entry
  create_entry-checked h =
      unbind (check_entry lib input db) _ h
        λ v checked saved. (v.0, v.1, v.2, check_entry-IsAccepted v.0 v.1 v.2 checked, saved)

-- The source that is stamped on the ledger rows.
abbrev pub type_of : CreatePostingInput → String
type_of input = or_else input.source_type "journal_entry"

abbrev pub source_of : CreatePostingInput → JournalEntry → ℕ
source_of input e = or_else input.source_id e.id

-- The tables after an entry is saved and posted line by line.
abbrev pub posted_db : Decimals → JournalEntry → String → ℕ → Db → Db
posted_db lib e source_type source_id db = record db {
  accounts = map (post_lines e.lines) db.accounts;
  entries = db.entries ++ (e ∷ []);
  general_ledger =
      db.general_ledger ++ sequential_rows lib e source_type source_id db.accounts e.lines;
}

module _ (lib : Decimals) (input : CreatePostingInput) (entry : JournalEntry) (ids : List ℕ)
    (db : Db) where
  abbrev IsSaved : JournalEntry → Db → Type 0
  IsSaved e db' =
      save_and_post lib input entry (find_accounts db input.company_id ids) db ≡ ok (e, db')

  abbrev saved_db : Db
  saved_db = record db { entries = db.entries ++ (entry ∷ []) }

  save_and_post-applied :
      (e : JournalEntry) (db' : Db)
      → input.is_posted ≡ true
      → IsSaved e db'
      → (e ≡ entry)
        × (all has_line_shape entry.lines ≡ true)
        × (apply_posting lib entry
              (find_accounts db input.company_id ids)
              (type_of input)
              (source_of input entry)
              saved_db
            ≡ ok db')
  unfolding save_and_post
  save_and_post-applied e db' is_post h = ground arith

  pub save_and_post-draft :
      {e : JournalEntry} {db' : Db}
      → input.is_posted ≡ false
      → IsSaved e db'
      → (e ≡ entry)
        × (db' ≡ record db { entries = db.entries ++ (entry ∷ []) })
        × (all has_line_shape entry.lines ≡ true)
  unfolding save_and_post
  save_and_post-draft is_draft h = ground arith

  module _ (sound : IsSound lib db) (money : All (IsMoneyLine lib) entry.lines) where
    pub save_and_post-posted :
        {e : JournalEntry} {db' : Db}
        → input.is_posted ≡ true
        → IsSaved e db'
        → (e ≡ entry)
          × (db' ≡ posted_db lib entry (type_of input) (source_of input entry) db)
          × All (IsFound (find_accounts db input.company_id ids)) entry.lines
          × (all has_line_shape entry.lines ≡ true)
    save_and_post-posted {e} {db'} is_post h =
        let accounts = find_accounts db input.company_id ids in
        let (same_entry, shaped, applied) = save_and_post-applied e db' is_post h in
        (
          same_entry,
          apply_posting_lem lib entry accounts (type_of input) (source_of input entry) saved_db
              money sound.unique sound.stored (filter-Agree _ db.accounts sound.unique) applied,
          apply_posting-IsFound lib entry accounts (type_of input) (source_of input entry) saved_db
              applied,
          shaped,
        )
