-- ===== src/JournalEntries/Steps/Periods.antt =====
-- The books of a closed period: no transaction writes into them, and none rewrites the ledger.
use mathlib.Core.Path.{subst}
use mathlib.Core.List.{append-nil}
use fin_matrix_backend.Prelude.{
  ℕ, ◌≡◌, sym, ◌∙◌, ap, true, false, some, String, List, [], ◌∷◌, ◌++◌, map, find, find-All, All,
  arith, ok, inl, inr, Bool, Bool-cases, Option-cases, eq_of_some, unbind,
}
use fin_matrix_backend.Money.{Decimals}
use fin_matrix_backend.Store.{
  Company, Account, JournalEntryLine, JournalEntry, GeneralLedgerEntry, Db, Env,
}
use fin_matrix_backend.Posting.Checks.{CreatePostingInput, is_locked, locked_until}
use fin_matrix_backend.Posting.Apply.{account_of}
use fin_matrix_backend.Posting.Apply.Rows.{post_line, sequential_rows}
use fin_matrix_backend.Posting.Create.{create_entry, post_draft}
use fin_matrix_backend.Posting.Create.Effect.{
  IsSound, create_entry-checked, stored_lines-IsMoneyLine, save_and_post-posted,
}
use fin_matrix_backend.Posting.Create.Posted.{create_entry_drafts, post_draft_posts}
use fin_matrix_backend.JournalEntries.{post, void_entry}
use fin_matrix_backend.JournalEntries.Commit.{commit-same}
use fin_matrix_backend.JournalEntries.Reversal.{
  void_entry-parts, reversal, reverse_posted-parts, void_entry_of_draft,
}
use fin_matrix_backend.JournalEntries.Steps.{
  HasMoneyLines, IsValid, Step, posting, posting_draft, voiding,
}
use fin_matrix_backend.JournalEntries.Steps.Voids.{status-cases}
use fin_matrix_backend.JournalEntries.Steps.Reach.{Reach}

-- The date of the row lies after the lock of its company.
abbrev pub IsOpenRow : List Company → GeneralLedgerEntry → Type 0
IsOpenRow companies g = is_locked (locked_until g.company_id companies) g.date ≡ false

-- The ledger has grown at its end, by rows of open periods, and the locks are where they were.
pub record HasAppended (db db' : Db) : Type 0 where
  pub rows : List GeneralLedgerEntry
  pub grown : db'.general_ledger ≡ db.general_ledger ++ rows
  pub open_rows : All (IsOpenRow db.companies) rows
  pub same_companies : db'.companies ≡ db.companies

nothing_appended :
    (db db' : Db)
    → db'.general_ledger ≡ db.general_ledger
    → db'.companies ≡ db.companies
    → HasAppended db db'
nothing_appended db db' same locks = record {
  rows = [];
  grown = same ∙ sym (append-nil db.general_ledger);
  open_rows = tt;
  same_companies = locks;
}

sequential_rows-IsOpenRow :
    (lib : Decimals) (e : JournalEntry) (source_type : String) (source_id : ℕ)
    (companies : List Company) (table : List Account) (lines : List JournalEntryLine)
    → is_locked (locked_until e.company_id companies) e.date ≡ false
    → All (IsOpenRow companies) (sequential_rows lib e source_type source_id table lines)
unfolding sequential_rows
sequential_rows-IsOpenRow lib e source_type source_id companies table [] h = tt
sequential_rows-IsOpenRow lib e source_type source_id companies table (l ∷ ls) h =
    elim (Option-cases (account_of l.account_id table)) [
      | inl missing ↦ rw (sequential_rows, missing) tt
      | inr (a, found) ↦
          rw (sequential_rows, found)
            (
              h,
              sequential_rows-IsOpenRow lib e source_type source_id companies
                  (map (post_line l) table) ls h,
            )
    ]

module _ (lib : Decimals) (db : Db) (sound : IsSound lib db) where
  create_entry-HasAppended :
      (env : Env) (input : CreatePostingInput) (e : JournalEntry) (db' : Db)
      → create_entry lib env input db ≡ ok (e, db')
      → HasAppended db db'
  create_entry-HasAppended env input e db' created = elim (Bool-cases input.is_posted) [
    | inl is_post ↦
        let (ids, debits, credits, accepted, saved) =
          create_entry-checked lib env input db created in
        let (same_entry, same_db, _, _) =
          save_and_post-posted lib input _ ids db sound
            (stored_lines-IsMoneyLine lib env input db input.lines 0) is_post saved in
        let open_period : is_locked (locked_until input.company_id db.companies) input.date
            ≡ false =
          rw is_post at accepted.period_open in
        record {
          rows = _;
          grown = ap (λ (d : Db). d.general_ledger) same_db;
          open_rows = sequential_rows-IsOpenRow lib _ _ _ db.companies db.accounts _ open_period;
          same_companies = ap (λ (d : Db). d.companies) same_db;
        }
    | inr is_draft ↦
        let (_, _, _, same) = create_entry_drafts lib env input db is_draft created in
        nothing_appended db db' (ap (λ (d : Db). d.general_ledger) same)
          (ap (λ (d : Db). d.companies) same)
  ]

find-holds {ℓ} : {A : Type ℓ} (p : A → Bool) (xs : List A) (x : A) → find p xs ≡ some x → p x ≡ true
find-holds p [] x h = absurd (cc h)
find-holds p (y ∷ ys) x h = elim (Bool-cases (p y)) [
  | inl hit ↦ subst (λ z. p z ≡ true) (eq_of_some (rw hit at h)) hit
  | inr miss ↦ find-holds p ys x (rw miss at h)
]

module _ (lib : Decimals) (db : Db) (valid : IsValid lib db) where
  post-HasAppended :
      (env : Env) (company_id id user_id : ℕ) (db' : Db)
      → post lib env company_id id user_id db ≡ ok db'
      → HasAppended db db'
  unfolding post
  post-HasAppended env company_id id user_id db' h =
      unbind (post_draft lib env company_id id user_id db) _ h λ r posted_it committed.
        let (entry, postable, same_entry, same_db, _) =
          post_draft_posts lib env company_id id user_id db valid.sound
            (λ x postable.
              find-All (HasMoneyLines lib) _ db.entries x valid.entries_money postable.found)
            posted_it in
        let test = find-holds _ db.entries entry postable.found in
        let mine : entry.company_id ≡ company_id = ground arith in
        let owner : r.0.company_id ≡ company_id =
          ap (λ (x : JournalEntry). x.company_id) same_entry ∙ mine in
        let dated : r.0.date ≡ entry.date = ap (λ (x : JournalEntry). x.date) same_entry in
        let open_period : is_locked (locked_until r.0.company_id db.companies) r.0.date ≡ false =
          rw (owner, dated) postable.period_open in
        let done = commit-same (r.0.id ∷ []) r.1 committed ∙ same_db in
        record {
          rows = sequential_rows lib r.0 "journal_entry" r.0.id db.accounts r.0.lines;
          grown = ap (λ (d : Db). d.general_ledger) done;
          open_rows =
              sequential_rows-IsOpenRow lib r.0 "journal_entry" r.0.id db.companies db.accounts
                r.0.lines open_period;
          same_companies = ap (λ (d : Db). d.companies) done;
        }

  void_entry-HasAppended :
      (env : Env) (company_id id user_id : ℕ) (reason memo : String) (db' : Db)
      → void_entry lib env company_id id user_id reason memo db ≡ ok db'
      → HasAppended db db'
  void_entry-HasAppended env company_id id user_id reason memo db' h =
      let (e, ids, db₁, voidable, reversed, done) =
        void_entry-parts lib env company_id id user_id reason memo db h in
      elim (status-cases e.status voidable.not_void) [
        | inl is_draft ↦
            let same =
              void_entry_of_draft lib env company_id id user_id reason memo db e voidable.found
                is_draft h in
            nothing_appended db db' (ap (λ (d : Db). d.general_ledger) same)
              (ap (λ (d : Db). d.companies) same)
        | inr is_post ↦
            let (r, created, _) =
              reverse_posted-parts lib env company_id id user_id reason memo db e is_post
                reversed in
            let committed = commit-same (e.id ∷ ids) _ done in
            let appended =
              create_entry-HasAppended lib db valid.sound env
                (reversal lib env company_id id user_id reason memo db e) r db₁ created in
            record {
              rows = appended.rows;
              grown = ap (λ (d : Db). d.general_ledger) committed ∙ appended.grown;
              open_rows = appended.open_rows;
              same_companies = ap (λ (d : Db). d.companies) committed ∙ appended.same_companies;
            }
      ]

-- In valid tables, a committed transaction only appends to the ledger, every row that it appends is
-- dated after the lock of its company, and no lock moves.
pub Step-HasAppended :
    {lib : Decimals} {db db' : Db} → IsValid lib db → Step lib db db' → HasAppended db db'
Step-HasAppended {lib} {db} {db'} valid (posting env input e db₁ fresh created committed) =
    let same = commit-same (e.id ∷ []) db₁ committed in
    subst (HasAppended db) (sym same)
      (create_entry-HasAppended lib db valid.sound env input e db₁ created)
Step-HasAppended {lib} {db} {db'} valid (posting_draft env company_id id user_id h) =
    post-HasAppended lib db valid env company_id id user_id db' h
Step-HasAppended {lib} {db} {db'} valid (voiding env company_id id user_id reason memo fresh h) =
    void_entry-HasAppended lib db valid env company_id id user_id reason memo db' h
