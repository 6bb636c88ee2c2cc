-- ===== src/JournalEntries/Steps/Drafts.antt =====
-- A committed `post` posts the lines of the draft and nothing else.
use mathlib.Core.Path.{subst}
use fin_matrix_backend.Prelude.{
  find-All, ℕ, ◌≡◌, sym, ◌∙◌, ap, false, ◌≢◌, ◌&&◌, some, none, List, [], ◌∷◌, ◌==◌, find, All,
  All-map, arith, ok, unbind,
}
use fin_matrix_backend.Money.{Decimals}
use fin_matrix_backend.Store.{JournalEntry, Db, Env}
use fin_matrix_backend.Posting.Apply.Deltas.{IsMoneyLine}
use fin_matrix_backend.Posting.Create.{entry_of, is_draft, save_entry, account_ids, post_draft}
use fin_matrix_backend.Posting.Create.Posted.{post_draft_posts}
use fin_matrix_backend.Posting.Equation.{IsOwned}
use fin_matrix_backend.JournalEntries.{post}
use fin_matrix_backend.JournalEntries.Commit.{
  assert_entry_balanced-IsBalanced, commit-head, commit-same, entry_of-save_entry,
}
use fin_matrix_backend.JournalEntries.Trial.{IsFound-IsOwned}
use fin_matrix_backend.JournalEntries.Effects.{HasPosted}
use fin_matrix_backend.JournalEntries.Steps.{HasMoneyLines, IsValid}
use fin_matrix_backend.JournalEntries.Steps.Posts.{posted_lines}

-- An entry that is found with a further condition is there without it.
pub entry_of-found :
    (id company_id : ℕ) (entries : List JournalEntry) (e : JournalEntry)
    → find (λ (x : JournalEntry). (id == x.id) && (x.company_id == company_id)) entries ≡ some e
    → (e.id ≡ id) × (entry_of id entries ≢ none)
entry_of-found id company_id [] e h = absurd (cc h)
entry_of-found id company_id (x ∷ xs) e h = ground (arith, entry_of-found id company_id xs e)

pub entry_of-saved :
    (e : JournalEntry) (entries : List JournalEntry)
    → entry_of e.id entries ≢ none
    → entry_of e.id (save_entry e entries) ≡ some e
entry_of-saved e entries there = ground (arith, entry_of-save_entry e.id e entries)

module _ (lib : Decimals) (env : Env) (company_id id user_id : ℕ) (db db' : Db) where
  pub post-HasPosted :
      IsValid lib db → post lib env company_id id user_id db ≡ ok db' → HasPosted lib db db'
  unfolding post
  post-HasPosted valid h =
      unbind (post_draft lib env company_id id user_id db) _ h λ r posted_it committed.
        let (entry, postable, same_entry, same_db, found) =
          post_draft_posts lib env company_id id user_id db valid.sound
            (λ x postable.
              find-All (HasMoneyLines lib) _ db.entries x valid.entries_money postable.found)
            posted_it in
        let same_lines : r.0.lines ≡ entry.lines = ap (λ (x : JournalEntry). x.lines) same_entry in
        let same_id : r.0.id ≡ entry.id = ap (λ (x : JournalEntry). x.id) same_entry in
        let (own_id, there) = entry_of-found id company_id db.entries entry postable.found in
        let listed : entry_of r.0.id r.1.entries ≡ some r.0 =
          ap (λ (d : Db). entry_of r.0.id d.entries) same_db
          ∙ entry_of-saved r.0 db.entries (rw (same_id, own_id) there) in
        let final : is_draft r.0.status ≡ false =
          ap (λ (x : JournalEntry). is_draft x.status) same_entry in
        posted_lines lib db valid.sound r.0 "journal_entry" r.0.id company_id
          (save_entry r.0 db.entries) r.0.lines db'
          (commit-same (r.0.id ∷ []) r.1 committed ∙ same_db)
          (subst (All (IsOwned company_id db.accounts)) (sym same_lines) (
            All-map _ _
              (λ l f.
                IsFound-IsOwned db company_id (account_ids entry.lines []) l valid.sound.unique f)
              entry.lines found))
          (assert_entry_balanced-IsBalanced r.0.id r.1 r.0 (commit-head r.0.id [] r.1 committed).0
            listed final)
          (subst (All (IsMoneyLine lib)) (sym same_lines)
            (find-All (HasMoneyLines lib) _ db.entries entry valid.entries_money postable.found))
