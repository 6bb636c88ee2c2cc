-- ===== src/Posting/Checks.antt =====
-- src/modules/journal-entries/posting.service.ts: what a posting is given, and the checks that
-- `createEntry` and `postDraft` make before anything is written.
use fin_matrix_backend.Prelude.{
  ℕ, ◌+◌, Bool, false, ◌&&◌, ◌||◌, Option, none, some, String, List, [], ◌∷◌, leb, ◌==◌, same,
  if◌then◌else◌, length, filter, find, contains, set_add, Result, ok, err, throw_if,
}
use fin_matrix_backend.Prelude.Int.{ℤ, pos, ◌+ℤ◌, ltb_ℤ}
use fin_matrix_backend.Money.{is_positive}
use fin_matrix_backend.Store.{
  Company, Account, JournalEntry, Db, Error, period_locked, line_shape, negative_amount,
}

pub record PostingLineInput : Type 0 where
  pub account_id : ℕ
  pub description : Option String
  pub debit : ℤ
  pub credit : ℤ
  pub line_order : Option ℕ

-- `status` is 'draft' or 'posted'.
pub record CreatePostingInput : Type 0 where
  pub company_id : ℕ
  pub date : ℕ
  pub memo : Option String
  pub created_by : ℕ
  pub lines : List PostingLineInput
  pub is_posted : Bool
  pub source_type : Option String
  pub source_id : Option ℕ
  pub reversal_of_id : Option ℕ

-- The lock is inclusive; a company that is not there has none.
abbrev pub locked_until : ℕ → List Company → Option ℕ
locked_until company_id companies = elim (find (λ (c : Company). c.id == company_id) companies) [
  | none ↦ none
  | some c ↦ c.books_locked_until
]

abbrev pub is_locked : Option ℕ → ℕ → Bool
is_locked none date = false
is_locked (some lock) date = leb date lock

unfoldable pub assert_period_open : Db → ℕ → ℕ → Result Error (Unit {0})
assert_period_open db company_id date =
    throw_if (is_locked (locked_until company_id db.companies) date) period_locked

-- COUNT(*) + 1 over the entries of the company. The text is `JE-` and this number.
unfoldable pub next_journal_reference : Db → ℕ → ℕ
next_journal_reference db company_id =
    length (filter (λ (e : JournalEntry). e.company_id == company_id) db.entries) + 1

-- The loop over the lines of `createEntry`: the account ids, the debits and the credits so far.
unfoldable pub validate_lines :
    List PostingLineInput → List ℕ → ℤ → ℤ → Result Error (List ℕ × ℤ × ℤ)
validate_lines [] ids debits credits = ok (ids, debits, credits)
validate_lines (l ∷ ls) ids debits credits =
    let rest =
      validate_lines ls (set_add l.account_id ids) (debits +ℤ l.debit) (credits +ℤ l.credit) in
    if same (is_positive l.debit) (is_positive l.credit)
    then err line_shape
    else if ltb_ℤ l.debit (pos 0) || ltb_ℤ l.credit (pos 0)
    then err negative_amount
    else rest

abbrev pub find_accounts : Db → ℕ → List ℕ → List Account
find_accounts db company_id ids =
    filter (λ (a : Account). (a.company_id == company_id) && contains a.id ids) db.accounts
