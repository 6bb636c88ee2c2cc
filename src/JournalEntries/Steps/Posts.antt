-- ===== src/JournalEntries/Steps/Posts.antt =====
-- A committed `createEntry` posts its lines and nothing else.
use mathlib.Core.Path.{subst}
use mathlib.Core.List.{append-nil}
use fin_matrix_backend.Prelude.{
  ℕ, ◌≡◌, refl, sym, ◌∙◌, ap, none, String, List, [], ◌∷◌, ◌++◌, map, All, All-map, ok, inl, inr,
  Bool-cases,
}
use fin_matrix_backend.Money.{Decimals}
use fin_matrix_backend.Store.{Account, JournalEntryLine, JournalEntry, Db, Env}
use fin_matrix_backend.Posting.Checks.{CreatePostingInput}
use fin_matrix_backend.Posting.Apply.Deltas.{IsMoneyLine, IsFound}
use fin_matrix_backend.Posting.Apply.Rows.{sequential_rows}
use fin_matrix_backend.Posting.Apply.Sequential.{post_lines}
use fin_matrix_backend.Posting.Create.{entry_of, is_draft, create_entry}
use fin_matrix_backend.Posting.Create.Effect.{IsSound, stored_lines-IsMoneyLine, type_of, source_of}
use fin_matrix_backend.Posting.Create.Posted.{create_entry_posts, create_entry_drafts}
use fin_matrix_backend.Posting.Equation.{IsOwned, post_lines-nil}
use fin_matrix_backend.JournalEntries.{commit}
use fin_matrix_backend.JournalEntries.Commit.{IsBalanced, commit-same}
use fin_matrix_backend.JournalEntries.Trial.{create_entry-IsOwned, create_entry-IsBalanced}
use fin_matrix_backend.JournalEntries.Effects.{HasPosted, ledger_total-sequential_rows}

-- A transaction that touches neither the accounts nor the ledger.
pub nothing_posted :
    (lib : Decimals) (db : Db) (entries : List JournalEntry)
    → HasPosted lib db (record db { entries = entries })
nothing_posted lib db entries = record {
  owner = 0;
  lines = [];
  rows = [];
  accounts_moved = sym (post_lines-nil db.accounts);
  ledger_grown = sym (append-nil db.general_ledger);
  rows_agree = λ a. refl;
  owned = tt;
  balanced = refl;
  money = tt;
}

IsOwned-IsFound :
    (owner : ℕ) (table : List Account) (l : JournalEntryLine)
    → IsOwned owner table l
    → IsFound table l
IsOwned-IsFound owner table l (a, found, _) = (a, found)

module _ (lib : Decimals) (db : Db) (sound : IsSound lib db) where
  -- What a posting that is spelled out has in common with all others.
  pub posted_lines :
      (e : JournalEntry) (source_type : String) (source_id owner : ℕ) (entries : List JournalEntry)
      (lines : List JournalEntryLine) (db' : Db)
      → db' ≡ record db {
        accounts = map (post_lines lines) db.accounts;
        entries = entries;
        general_ledger =
            db.general_ledger ++ sequential_rows lib e source_type source_id db.accounts lines;
      }
      → All (IsOwned owner db.accounts) lines
      → IsBalanced lines
      → All (IsMoneyLine lib) lines
      → HasPosted lib db db'
  posted_lines e source_type source_id owner entries lines db' same owned balanced money = record {
    owner = owner;
    lines = lines;
    rows = sequential_rows lib e source_type source_id db.accounts lines;
    accounts_moved = ap (λ (d : Db). d.accounts) same;
    ledger_grown = ap (λ (d : Db). d.general_ledger) same;
    rows_agree = λ a.
        ledger_total-sequential_rows lib e source_type source_id a db.accounts lines money
          (All-map _ _ (IsOwned-IsFound owner db.accounts) lines owned);
    owned = owned;
    balanced = balanced;
    money = money;
  }

  pub create_entry-HasPosted :
      (env : Env) (input : CreatePostingInput) (e : JournalEntry) (db₁ db' : Db)
      → entry_of env.new_id db.entries ≡ none
      → create_entry lib env input db ≡ ok (e, db₁)
      → commit (e.id ∷ []) db₁ ≡ ok db'
      → HasPosted lib db db'
  create_entry-HasPosted env input e db₁ db' fresh created committed =
      elim (Bool-cases input.is_posted) [
        | inl is_post ↦
            let (lines, _, _, _, same) =
              create_entry_posts lib env input db sound is_post created in
            posted_lines e (type_of input) (source_of input e) input.company_id
              (db.entries ++ (e ∷ [])) e.lines db' (commit-same (e.id ∷ []) db₁ committed ∙ same)
              (create_entry-IsOwned lib env input db sound is_post created)
              (create_entry-IsBalanced lib env input db e db₁ db' sound fresh created committed
                is_post)
              (subst (All (IsMoneyLine lib)) (sym lines)
                (stored_lines-IsMoneyLine lib env input db input.lines 0))
        | inr is_draft ↦
            let (_, _, _, same) = create_entry_drafts lib env input db is_draft created in
            subst (HasPosted lib db) (sym (commit-same (e.id ∷ []) db₁ committed ∙ same))
              (nothing_posted lib db (db.entries ++ (e ∷ [])))
      ]
