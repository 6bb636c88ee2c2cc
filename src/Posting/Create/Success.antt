-- ===== src/Posting/Create/Success.antt =====
-- `createEntry` succeeds on every request that its checks and the constraint on lines accept.
use fin_matrix_backend.Prelude.{ℕ, ◌≡◌, Bool, true, ◌&&◌, List, ◌==◌, contains, all}
use fin_matrix_backend.Prelude.Int.{ℤ}
use fin_matrix_backend.Money.{Decimals}
use fin_matrix_backend.Store.{Account, JournalEntry, Db, Env}
use fin_matrix_backend.Posting.Checks.{CreatePostingInput, find_accounts, next_journal_reference}
use fin_matrix_backend.Posting.Create.{has_line_shape, stored_lines, new_entry}
use fin_matrix_backend.Posting.Create.Effect.{IsSound, IsAccepted}

-- The accounts of a company among some, and that one of them has a given id.
abbrev is_among : ℕ → List ℕ → Account → Bool
is_among company ids a = (a.company_id == company) && contains a.id ids

abbrev is_own : ℕ → ℕ → Account → Bool
is_own company k a = (a.company_id == company) && (a.id == k)

module _ (lib : Decimals) (env : Env) (input : CreatePostingInput) (db : Db)
    (sound : IsSound lib db) where
  module _ (ids : List ℕ) (debits credits : ℤ)
      (accepted : IsAccepted lib env input db ids debits credits)
      (shaped : all has_line_shape (stored_lines lib input.lines 0) ≡ true) where
    abbrev entry : JournalEntry
    entry = new_entry lib env input (next_journal_reference db input.company_id) debits credits

    abbrev accounts : List Account
    accounts = find_accounts db input.company_id ids
