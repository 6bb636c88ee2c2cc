-- ===== src/JournalEntries/Steps/Voids.antt =====
-- A committed `void` posts the reversal of the entry, or nothing.
use mathlib.Core.Path.{subst}
use fin_matrix_backend.Prelude.{
  ℕ, ◌≡◌, refl, sym, ◌∙◌, ap, false, some, none, String, List, [], ◌∷◌, ◌++◌, ◌==◌, All, arith, ok,
  inl, inr, ◌⊎◌, ne→==,
}
use fin_matrix_backend.Money.{Decimals}
use fin_matrix_backend.Store.{JournalEntryStatus, draft, posted, void, JournalEntry, Db, Env}
use fin_matrix_backend.Posting.Apply.Deltas.{IsMoneyLine}
use fin_matrix_backend.Posting.Create.{entry_of, is_draft, save_entry, create_entry}
use fin_matrix_backend.Posting.Create.Effect.{stored_lines-IsMoneyLine}
use fin_matrix_backend.Posting.Create.Posted.{create_entry_posts}
use fin_matrix_backend.JournalEntries.{is_void, commit, void_entry}
use fin_matrix_backend.JournalEntries.Commit.{
  assert_entry_balanced-IsBalanced, commit-head, commit-same, entry_of-append, entry_of-save_entry,
}
use fin_matrix_backend.JournalEntries.Trial.{create_entry-IsOwned}
use fin_matrix_backend.JournalEntries.Reversal.{
  IsVoidable, voided, void_entry-parts, reversal, reverse_posted-parts, void_entry_of_draft,
}
use fin_matrix_backend.JournalEntries.Effects.{HasPosted}
use fin_matrix_backend.JournalEntries.Steps.{IsValid}
use fin_matrix_backend.JournalEntries.Steps.Posts.{nothing_posted, posted_lines}
use fin_matrix_backend.JournalEntries.Steps.Drafts.{entry_of-found}

pub status-cases : (s : JournalEntryStatus) → is_void s ≡ false → (s ≡ draft) ⊎ (s ≡ posted)
status-cases draft h = inl refl
status-cases posted h = inr refl
status-cases void h = absurd (cc h)

module _ (lib : Decimals) (env : Env) (company_id id user_id : ℕ) (reason memo : String)
    (db db' : Db) (valid : IsValid lib db) (fresh : entry_of env.new_id db.entries ≡ none) where
  abbrev undone : JournalEntry → Db → Db
  undone e db₁ = record db₁ {
    entries = save_entry (voided lib env company_id id user_id reason memo db e) db₁.entries;
  }

  void_posted-HasPosted :
      (e r : JournalEntry) (db₁ : Db)
      → IsVoidable lib env company_id id user_id reason memo db e
      → create_entry lib env (reversal lib env company_id id user_id reason memo db e) db
        ≡ ok (r, db₁)
      → commit (e.id ∷ r.id ∷ []) (undone e db₁) ≡ ok db'
      → HasPosted lib db db'
  void_posted-HasPosted e r db₁ voidable created done =
      let input = reversal lib env company_id id user_id reason memo db e in
      let (lines, is_final, same_id, _, same) =
        create_entry_posts lib env input db valid.sound refl created in
      let (own_id, there) = entry_of-found id company_id db.entries e voidable.found in
      let other : (r.id == e.id) ≡ false =
        ne→== r.id e.id (λ q. there (rw (sym own_id) (rw (sym q) (rw same_id fresh)))) in
      let appended : entry_of r.id db₁.entries ≡ some r =
        ap (λ (d : Db). entry_of r.id d.entries) same
        ∙ entry_of-append r.id db.entries r (rw same_id fresh)
        ∙ ground arith in
      let listed : entry_of r.id (undone e db₁).entries ≡ some r =
        entry_of-save_entry r.id (voided lib env company_id id user_id reason memo db e) db₁.entries
        ∙ rw (appended, other) in
      let (_, rest) = commit-head e.id (r.id ∷ []) (undone e db₁) done in
      posted_lines lib db valid.sound r "journal_entry" r.id company_id
        (save_entry (voided lib env company_id id user_id reason memo db e)
          (db.entries ++ (r ∷ [])))
        r.lines db' (commit-same (e.id ∷ r.id ∷ []) (undone e db₁) done ∙ ap (undone e) same)
        (create_entry-IsOwned lib env input db valid.sound refl created)
        (assert_entry_balanced-IsBalanced r.id (undone e db₁) r
          (commit-head r.id [] (undone e db₁) rest).0 listed (ap is_draft is_final))
        (subst (All (IsMoneyLine lib)) (sym lines)
          (stored_lines-IsMoneyLine lib env input db input.lines 0))

  pub void_entry-HasPosted :
      void_entry lib env company_id id user_id reason memo db ≡ ok db' → HasPosted lib db db'
  void_entry-HasPosted h =
      let (e, ids, db₁, voidable, reversed, done) =
        void_entry-parts lib env company_id id user_id reason memo db h in
      elim (status-cases e.status voidable.not_void) [
        | inl is_draft ↦
            subst (HasPosted lib db)
              (sym (
                void_entry_of_draft lib env company_id id user_id reason memo db e voidable.found
                  is_draft h))
              (nothing_posted lib db
                (save_entry (voided lib env company_id id user_id reason memo db e) db.entries))
        | inr is_post ↦
            let (r, created, same_ids) =
              reverse_posted-parts lib env company_id id user_id reason memo db e is_post
                reversed in
            void_posted-HasPosted e r db₁ voidable created
              (subst (λ (js : List ℕ). commit (e.id ∷ js) (undone e db₁) ≡ ok db') same_ids done)
      ]
