-- ===== src/JournalEntries/Steps/Reach.antt =====
-- What holds of the tables after any sequence of committed transactions.
use mathlib.Core.Path.{subst}
use fin_matrix_backend.Prelude.{
  find-All, ℕ, ◌≡◌, refl, sym, ◌∙◌, String, List, [], ◌∷◌, ◌==◌, All, All-append, arith, ok, inl,
  inr, Bool-cases, unbind,
}
use fin_matrix_backend.Money.{Decimals}
use fin_matrix_backend.Store.{JournalEntry, Db, Env}
use fin_matrix_backend.Posting.Checks.{CreatePostingInput}
use fin_matrix_backend.Posting.Apply.Deltas.{IsMoneyLine}
use fin_matrix_backend.Posting.Create.{is_draft, stored_lines, save_entry, create_entry, post_draft}
use fin_matrix_backend.Posting.Create.Effect.{stored_lines-IsMoneyLine}
use fin_matrix_backend.Posting.Create.Posted.{
  create_entry_posts, create_entry_drafts, post_draft_posts, IsPostable,
}
use fin_matrix_backend.JournalEntries.{post, reverse_posted, void_entry}
use fin_matrix_backend.JournalEntries.Commit.{commit-same}
use fin_matrix_backend.JournalEntries.Reversal.{
  voided, void_entry-parts, reversal, reverse_posted-parts,
}
use fin_matrix_backend.JournalEntries.Effects.{HasPosted, HasPosted-IsSound}
use fin_matrix_backend.JournalEntries.Steps.{HasMoneyLines, IsValid}
use fin_matrix_backend.JournalEntries.Steps.{Step, posting, posting_draft, voiding}
use fin_matrix_backend.JournalEntries.Steps.Posts.{create_entry-HasPosted}
use fin_matrix_backend.JournalEntries.Steps.Drafts.{post-HasPosted}
use fin_matrix_backend.JournalEntries.Steps.Voids.{status-cases, void_entry-HasPosted}
use fin_matrix_backend.JournalEntries.Effects.{
  openings, HasPosted-trial_balance, HasPosted-openings,
}
use fin_matrix_backend.Posting.Equation.{trial_balance}

save_entry-money :
    (lib : Decimals) (e : JournalEntry) (entries : List JournalEntry)
    → HasMoneyLines lib e
    → All (HasMoneyLines lib) entries
    → All (HasMoneyLines lib) (save_entry e entries)
save_entry-money lib e [] m ms = tt
save_entry-money lib e (x ∷ xs) m ms = elim (Bool-cases (e.id == x.id)) [
  | inl hit ↦ rw hit (m, save_entry-money lib e xs m ms.1)
  | inr miss ↦ rw miss (ms.0, save_entry-money lib e xs m ms.1)
]

module _ (lib : Decimals) (db : Db) (valid : IsValid lib db) where
  create_entry-money :
      (env : Env) (input : CreatePostingInput) (e : JournalEntry) (db₁ : Db)
      → create_entry lib env input db ≡ ok (e, db₁)
      → All (HasMoneyLines lib) db₁.entries
  create_entry-money env input e db₁ created =
      let grown = λ (lines : e.lines ≡ stored_lines lib input.lines 0).
        All-append (HasMoneyLines lib) db.entries (e ∷ []) valid.entries_money (
          subst (All (IsMoneyLine lib)) (sym lines)
              (stored_lines-IsMoneyLine lib env input db input.lines 0),
          tt,
        ) in
      elim (Bool-cases input.is_posted) [
        | inl is_post ↦
            let (lines, _, _, _, same) =
              create_entry_posts lib env input db valid.sound is_post created in
            subst (λ (d : Db). All (HasMoneyLines lib) d.entries) (sym same) (grown lines)
        | inr is_draft ↦
            let (lines, _, _, same) = create_entry_drafts lib env input db is_draft created in
            subst (λ (d : Db). All (HasMoneyLines lib) d.entries) (sym same) (grown lines)
      ]

  post-money :
      (env : Env) (company_id id user_id : ℕ) (db' : Db)
      → post lib env company_id id user_id db ≡ ok db'
      → All (HasMoneyLines lib) db'.entries
  unfolding post
  post-money env company_id id user_id db' h =
      unbind (post_draft lib env company_id id user_id db) _ h λ r posted_it committed.
        let money = λ (x : JournalEntry) (postable : IsPostable lib env company_id id user_id db x).
          find-All (HasMoneyLines lib) _ db.entries x valid.entries_money postable.found in
        let (entry, postable, same_entry, same_db, _) =
          post_draft_posts lib env company_id id user_id db valid.sound money posted_it in
        subst (λ (d : Db). All (HasMoneyLines lib) d.entries)
          (sym (commit-same (r.0.id ∷ []) r.1 committed ∙ same_db))
          (save_entry-money lib r.0 db.entries
            (subst (HasMoneyLines lib) (sym same_entry) (money entry postable)) valid.entries_money)

  void_entry-money :
      (env : Env) (company_id id user_id : ℕ) (reason memo : String) (db' : Db)
      → void_entry lib env company_id id user_id reason memo db ≡ ok db'
      → All (HasMoneyLines lib) db'.entries
  unfolding reverse_posted
  void_entry-money env company_id id user_id reason memo db' h =
      let (e, ids, db₁, voidable, reversed, done) =
        void_entry-parts lib env company_id id user_id reason memo db h in
      let own = find-All (HasMoneyLines lib) _ db.entries e valid.entries_money voidable.found in
      let before : All (HasMoneyLines lib) db₁.entries =
        elim (status-cases e.status voidable.not_void) [
          | inl is_draft ↦
              let same : db ≡ db₁ = ground arith in
              subst (λ (d : Db). All (HasMoneyLines lib) d.entries) same valid.entries_money
          | inr is_post ↦
              let (r, created, _) =
                reverse_posted-parts lib env company_id id user_id reason memo db e is_post
                  reversed in
              create_entry-money env (reversal lib env company_id id user_id reason memo db e) r db₁
                created
        ] in
      subst (λ (d : Db). All (HasMoneyLines lib) d.entries) (sym (commit-same (e.id ∷ ids) _ done))
        (save_entry-money lib (voided lib env company_id id user_id reason memo db e) db₁.entries
          own before)

pub Step-HasPosted :
    {lib : Decimals} {db db' : Db} → IsValid lib db → Step lib db db' → HasPosted lib db db'
Step-HasPosted {lib} {db} {db'} valid (posting env input e db₁ fresh created committed) =
    create_entry-HasPosted lib db valid.sound env input e db₁ db' fresh created committed
Step-HasPosted {lib} {db} {db'} valid (posting_draft env company_id id user_id h) =
    post-HasPosted lib env company_id id user_id db db' valid h
Step-HasPosted {lib} {db} {db'} valid (voiding env company_id id user_id reason memo fresh h) =
    void_entry-HasPosted lib env company_id id user_id reason memo db db' valid fresh h

Step-money :
    {lib : Decimals} {db db' : Db}
    → IsValid lib db
    → Step lib db db'
    → All (HasMoneyLines lib) db'.entries
Step-money {lib} {db} {db'} valid (posting env input e db₁ fresh created committed) =
    subst (λ (d : Db). All (HasMoneyLines lib) d.entries)
      (sym (commit-same (e.id ∷ []) db₁ committed))
      (create_entry-money lib db valid env input e db₁ created)
Step-money {lib} {db} {db'} valid (posting_draft env company_id id user_id h) =
    post-money lib db valid env company_id id user_id db' h
Step-money {lib} {db} {db'} valid (voiding env company_id id user_id reason memo fresh h) =
    void_entry-money lib db valid env company_id id user_id reason memo db' h

pub Step-IsValid :
    {lib : Decimals} {db db' : Db} → IsValid lib db → Step lib db db' → IsValid lib db'
Step-IsValid {lib} valid step = record {
  sound = HasPosted-IsSound lib (Step-HasPosted valid step) valid.sound;
  entries_money = Step-money valid step;
}

pub data Reach (lib : Decimals) (db : Db) : Db → Type 0 where
  here : Reach lib db db
  next : {db₁ db₂ : Db} → Reach lib db db₁ → Step lib db₁ db₂ → Reach lib db db₂

pub Reach-IsValid :
    {lib : Decimals} {db db' : Db} → IsValid lib db → Reach lib db db' → IsValid lib db'
Reach-IsValid valid here = valid
Reach-IsValid valid (next r step) = Step-IsValid (Reach-IsValid valid r) step

-- From valid tables, no sequence of committed transactions moves the trial balance of any company:
-- what its assets and expenses hold in excess of its liabilities, equity and revenue stays as it
-- was.
pub Reach-trial_balance :
    {lib : Decimals} {db db' : Db}
    → IsValid lib db
    → Reach lib db db'
    → (company : ℕ) → trial_balance company db'.accounts ≡ trial_balance company db.accounts
Reach-trial_balance valid here company = refl
Reach-trial_balance {lib} valid (next r step) company =
    let before = Reach-IsValid valid r in
    HasPosted-trial_balance lib (Step-HasPosted before step) before.sound company
    ∙ Reach-trial_balance valid r company

-- From valid tables, the balance of every account less what the ledger rows of the account add up
-- to stays as it was after any sequence of committed transactions.
pub Reach-openings :
    {lib : Decimals} {db db' : Db} → IsValid lib db → Reach lib db db' → openings db' ≡ openings db
Reach-openings valid here = refl
Reach-openings {lib} valid (next r step) =
    HasPosted-openings lib (Step-HasPosted (Reach-IsValid valid r) step) ∙ Reach-openings valid r
