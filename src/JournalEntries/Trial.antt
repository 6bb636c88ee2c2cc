-- ===== src/JournalEntries/Trial.antt =====
-- The journal keeps the accounting equation: no transaction that commits moves the trial balance.
use fin_matrix_backend.Prelude.{
  ℕ, ◌≡◌, ◌∙◌, ap, true, Bool, ◌&&◌, none, some, List, [], ◌∷◌, map, ◌==◌, filter, contains, All,
  All-map, arith, ok, inl, inr, Bool-cases,
}
use fin_matrix_backend.Prelude.Int.{pos, ◌+ℤ◌, +ℤ_zero, int_laws}
use fin_matrix_backend.Money.{Decimals}
use fin_matrix_backend.Store.{Account, JournalEntryLine, JournalEntry, Db, Env}
use fin_matrix_backend.Posting.Checks.{CreatePostingInput, find_accounts}
use fin_matrix_backend.Posting.Apply.{account_of}
use fin_matrix_backend.Posting.Apply.Deltas.{IsFound}
use fin_matrix_backend.Posting.Apply.Balances.{IsUnique, filter-Agree}
use fin_matrix_backend.Posting.Apply.Sequential.{post_lines}
use fin_matrix_backend.Posting.Create.{entry_of, create_entry}
use fin_matrix_backend.Posting.Create.Effect.{
  IsSound, create_entry-checked, stored_lines-IsMoneyLine, save_and_post-posted,
}
use fin_matrix_backend.Posting.Create.Posted.{create_entry_posts}
use fin_matrix_backend.Posting.Equation.{
  IsOwned, trial_balance, entry_share, trial_balance-post_lines,
}
use fin_matrix_backend.JournalEntries.{commit}
use fin_matrix_backend.JournalEntries.Commit.{
  IsBalanced, assert_entry_balanced-IsBalanced, commit-head, entry_of-append,
}

-- A filter lets through only what passes its test.
account_of-filter :
    (p : Account → Bool) (id : ℕ) (table : List Account) (a : Account)
    → account_of id (filter p table) ≡ some a
    → p a ≡ true
account_of-filter p id [] a h = cc
account_of-filter p id (x ∷ table) a h = ground (arith, account_of-filter p id table a)

pub IsFound-IsOwned :
    (db : Db) (company : ℕ) (ids : List ℕ) (l : JournalEntryLine)
    → IsUnique db.accounts
    → IsFound (find_accounts db company ids) l
    → IsOwned company db.accounts l
IsFound-IsOwned db company ids l unique (a, found) =
    let test = λ (x : Account). (x.company_id == company) && contains x.id ids in
    (
      a,
      filter-Agree test db.accounts unique l.account_id a found,
      ground (arith, account_of-filter test l.account_id db.accounts a found),
    )

entry_share-balanced :
    (company owner : ℕ) (lines : List JournalEntryLine)
    → IsBalanced lines
    → entry_share company owner lines ≡ pos 0
entry_share-balanced company owner lines balanced = elim (Bool-cases (owner == company)) [
  | inl mine ↦ rw mine (rw balanced (omega int_laws))
  | inr not_mine ↦ rw not_mine
]

-- Balanced lines on accounts of one company move no trial balance.
pub trial_balance-balanced :
    (company owner : ℕ) (lines : List JournalEntryLine) (table : List Account)
    → IsUnique table
    → All (IsOwned owner table) lines
    → IsBalanced lines
    → trial_balance company (map (post_lines lines) table) ≡ trial_balance company table
trial_balance-balanced company owner lines table unique owned balanced =
    trial_balance-post_lines company owner lines table unique owned
    ∙ ap (λ d. trial_balance company table +ℤ d) (entry_share-balanced company owner lines balanced)
    ∙ +ℤ_zero (trial_balance company table)

module _ (lib : Decimals) (env : Env) (input : CreatePostingInput) (db : Db) where
  -- The lines of a posted entry are on accounts of its company.
  pub create_entry-IsOwned :
      {e : JournalEntry} {db' : Db}
      → IsSound lib db
      → input.is_posted ≡ true
      → create_entry lib env input db ≡ ok (e, db')
      → All (IsOwned input.company_id db.accounts) e.lines
  create_entry-IsOwned {e} {db'} sound is_post h =
      let (ids, debits, credits, accepted, saved) = create_entry-checked lib env input db h in
      let (same_entry, _, found, _) =
        save_and_post-posted lib input _ ids db sound
          (stored_lines-IsMoneyLine lib env input db input.lines 0) is_post saved in
      let same_lines = ap (λ (x : JournalEntry). x.lines) same_entry in
      rw same_lines
        (All-map _ _ (λ l f. IsFound-IsOwned db input.company_id ids l sound.unique f) _ found)

  module _ (e : JournalEntry) (db' db'' : Db) (sound : IsSound lib db)
      (fresh : entry_of env.new_id db.entries ≡ none)
      (created : create_entry lib env input db ≡ ok (e, db'))
      (committed : commit (e.id ∷ []) db' ≡ ok db'') where
    -- In sound tables and under a fresh id, a posted entry that is committed has equal debits and
    -- credits, to the last place, though `createEntry` itself allows a tolerance.
    pub create_entry-IsBalanced : input.is_posted ≡ true → IsBalanced e.lines
    create_entry-IsBalanced is_post =
        let (_, is_final, same_id, _, same_db) =
          create_entry_posts lib env input db sound is_post created in
        let found : entry_of e.id db'.entries ≡ some e =
          ap (λ (d : Db). entry_of e.id d.entries) same_db
          ∙ entry_of-append e.id db.entries e (rw same_id fresh)
          ∙ ground arith in
        assert_entry_balanced-IsBalanced e.id db' e (commit-head e.id [] db' committed).0 found
          (ground arith)
