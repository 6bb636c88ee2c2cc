-- ===== src/JournalEntries/Steps.antt =====
-- Every committed transaction of the journal, and of any document that posts through
-- `createEntry`, as a step from tables to tables.
pub mod Posts
pub mod Drafts
pub mod Voids
pub mod Reach
pub mod Periods
use mathlib.Core.Path.{ap₂, subst}
use mathlib.Core.List.{append-nil}
use fin_matrix_backend.Prelude.{
  ℕ, ◌≡◌, refl, sym, ◌∙◌, ap, true, false, ◌&&◌, Option, some, none, String, List, [], ◌∷◌, ◌++◌,
  map, ◌==◌, find, All, All-map, All-append, arith, ok, inl, inr, Bool-cases, Option-cases, unbind,
  ok-injective, eq_of_some,
}
use fin_matrix_backend.Prelude.Int.{ℤ, pos}
use fin_matrix_backend.Money.{Decimals}
use fin_matrix_backend.Store.{
  JournalEntryStatus, draft, posted, void, Account, JournalEntryLine, JournalEntry,
  GeneralLedgerEntry, Db, Env,
}
use fin_matrix_backend.Posting.Checks.{CreatePostingInput, find_accounts}
use fin_matrix_backend.Posting.Apply.Deltas.{posted_delta, IsMoneyLine, IsFound}
use fin_matrix_backend.Posting.Apply.Balances.{IsUnique}
use fin_matrix_backend.Posting.Apply.Rows.{sequential_rows}
use fin_matrix_backend.Posting.Apply.Sequential.{post_lines}
use fin_matrix_backend.Posting.Create.{
  entry_of, is_draft, stored_lines, save_entry, account_ids, create_entry, post_draft,
}
use fin_matrix_backend.Posting.Create.Effect.{IsSound, stored_lines-IsMoneyLine, type_of, source_of}
use fin_matrix_backend.Posting.Create.Posted.{
  create_entry_posts, create_entry_drafts, post_draft_posts, IsPostable, posted_draft_db,
}
use fin_matrix_backend.Posting.Equation.{IsOwned, post_lines-nil}
use fin_matrix_backend.JournalEntries.{is_posted_status, commit, post, reverse_posted, void_entry}
use fin_matrix_backend.JournalEntries.Commit.{
  IsBalanced, assert_entry_balanced-IsBalanced, commit-head, commit-same, entry_of-append,
  entry_of-save_entry,
}
use fin_matrix_backend.JournalEntries.Trial.{
  IsFound-IsOwned, create_entry-IsOwned, create_entry-IsBalanced,
}
use fin_matrix_backend.JournalEntries.Reversal.{
  IsVoidable, voided, void_entry-parts, reversal, reverse_posted-parts, void_entry_of_draft,
}
use fin_matrix_backend.JournalEntries.Effects.{
  HasPosted, ledger_total, ledger_total-sequential_rows, HasPosted-IsSound,
}

-- The tables between two transactions: sound, and every line as its columns hold it.
abbrev pub HasMoneyLines : Decimals → JournalEntry → Type 0
HasMoneyLines lib e = All (IsMoneyLine lib) e.lines

pub record IsValid (lib : Decimals) (db : Db) : Type 0 where
  pub sound : IsSound lib db
  pub entries_money : All (HasMoneyLines lib) db.entries

pub data Step (lib : Decimals) (db db' : Db) : Type 0 where
  posting :
      (env : Env) (input : CreatePostingInput) (e : JournalEntry) (db₁ : Db)
      → entry_of env.new_id db.entries ≡ none
      → create_entry lib env input db ≡ ok (e, db₁)
      → commit (e.id ∷ []) db₁ ≡ ok db'
      → Step lib db db'
  posting_draft :
      (env : Env) (company_id id user_id : ℕ)
      → post lib env company_id id user_id db ≡ ok db'
      → Step lib db db'
  voiding :
      (env : Env) (company_id id user_id : ℕ) (reason memo : String)
      → entry_of env.new_id db.entries ≡ none
      → void_entry lib env company_id id user_id reason memo db ≡ ok db'
      → Step lib db db'
