-- ===== src/Posting/Create/Posted.antt =====
-- `createEntry` and `postDraft` as a whole: what a success has written.
use fin_matrix_backend.Prelude.{
  ℕ, ◌≡◌, sym, ◌∙◌, ap, true, false, ◌&&◌, some, [], ◌∷◌, ◌++◌, ◌==◌, find, map, All, arith, ok,
  unbind, ok-injective,
}
use fin_matrix_backend.Prelude.Int.{pos}
use fin_matrix_backend.Money.{Decimals, money_equals}
use fin_matrix_backend.Store.{draft, posted, JournalEntry, Db, Env}
use fin_matrix_backend.Posting.Checks.{
  CreatePostingInput, next_journal_reference, find_accounts, is_locked, locked_until,
  assert_period_open,
}
use fin_matrix_backend.Posting.Apply.{apply_posting}
use fin_matrix_backend.Posting.Apply.Deltas.{IsMoneyLine, IsFound}
use fin_matrix_backend.Posting.Apply.Balances.{filter-Agree}
use fin_matrix_backend.Posting.Apply.Rows.{sequential_rows}
use fin_matrix_backend.Posting.Apply.Sequential.{
  post_lines, apply_posting_lem, apply_posting-IsFound,
}
use fin_matrix_backend.Posting.Create.{
  is_draft, stored_lines, save_entry, posted_entry, account_ids, total_lines, create_entry,
  check_draft, post_draft,
}
use fin_matrix_backend.Posting.Create.Effect.{
  IsSound, create_entry-checked, stored_lines-IsMoneyLine, type_of, source_of, posted_db,
  save_and_post-posted, save_and_post-draft,
}

module _ (lib : Decimals) (env : Env) (input : CreatePostingInput) (db : Db) where
  -- When `createEntry` posts an entry in sound tables, the entry has the lines of the request
  -- rounded to four places, the id of the database and the next reference, and the tables are those
  -- of a posting that takes these lines one at a time: every account has moved by the lines that
  -- name it, and each ledger row shows the balance of its account just after its line.
  pub create_entry_posts :
      {e : JournalEntry} {db' : Db}
      → IsSound lib db
      → input.is_posted ≡ true
      → create_entry lib env input db ≡ ok (e, db')
      → (e.lines ≡ stored_lines lib input.lines 0)
        × (e.status ≡ posted)
        × (e.id ≡ env.new_id)
        × (e.reference ≡ next_journal_reference db input.company_id)
        × (db' ≡ posted_db lib e (type_of input) (source_of input e) db)
  create_entry_posts {e} {db'} sound is_post h =
      let (ids, debits, credits, accepted, saved) = create_entry-checked lib env input db h in
      let (same_entry, same_db, _, _) =
        save_and_post-posted lib input _ ids db sound
          (stored_lines-IsMoneyLine lib env input db input.lines 0) is_post saved in
      ground arith

  pub create_entry_drafts :
      {e : JournalEntry} {db' : Db}
      → input.is_posted ≡ false
      → create_entry lib env input db ≡ ok (e, db')
      → (e.lines ≡ stored_lines lib input.lines 0)
        × (e.status ≡ draft)
        × (e.id ≡ env.new_id)
        × (db' ≡ record db { entries = db.entries ++ (e ∷ []) })
  create_entry_drafts {e} {db'} is_draft h =
      let (ids, debits, credits, accepted, saved) = create_entry-checked lib env input db h in
      let (same_entry, same_db, _) = save_and_post-draft lib input _ ids db is_draft saved in
      ground arith

-- The tables after a draft is posted line by line.
abbrev pub posted_draft_db : Decimals → JournalEntry → Db → Db
posted_draft_db lib e db = record db {
  accounts = map (post_lines e.lines) db.accounts;
  entries = save_entry e db.entries;
  general_ledger =
      db.general_ledger ++ sequential_rows lib e "journal_entry" e.id db.accounts e.lines;
}

module _ (lib : Decimals) (env : Env) (company_id entry_id posted_by : ℕ) (db : Db) where
  -- The draft that may be posted: of the company, with its period open and its totals within the
  -- tolerance.
  pub record IsPostable (entry : JournalEntry) : Type 0 where
    pub found :
        find (λ (e : JournalEntry). (entry_id == e.id) && (e.company_id == company_id)) db.entries
        ≡ some entry
    pub drafted : entry.status ≡ draft
    pub period_open : is_locked (locked_until company_id db.companies) entry.date ≡ false
    pub balanced :
        let (debits, credits) = total_lines entry.lines (pos 0) (pos 0) in
        money_equals lib debits credits ≡ true

  check_draft-IsPostable :
      (entry : JournalEntry) → check_draft lib company_id entry_id db ≡ ok entry → IsPostable entry
  unfolding check_draft assert_period_open
  check_draft-IsPostable entry h = ground arith

  -- In sound tables, a draft that `postDraft` posts, with lines of four places, keeps its lines, is
  -- marked as posted where it stands, and moves the accounts and the ledger as its lines one at a
  -- time do.
  pub post_draft_posts :
      {e : JournalEntry} {db' : Db}
      → IsSound lib db
      → ((entry : JournalEntry) → IsPostable entry → All (IsMoneyLine lib) entry.lines)
      → post_draft lib env company_id entry_id posted_by db ≡ ok (e, db')
      → (entry : JournalEntry) × IsPostable entry
        × (e ≡ posted_entry lib env posted_by entry)
        × (db' ≡ posted_draft_db lib e db)
        × All (IsFound (find_accounts db company_id (account_ids entry.lines []))) entry.lines
  unfolding post_draft
  post_draft_posts {e} {db'} sound money h =
      unbind (check_draft lib company_id entry_id db) _ h λ entry checked h₁.
        let entry' = posted_entry lib env posted_by entry in
        let accounts = find_accounts db company_id (account_ids entry.lines []) in
        let db₁ = record db { entries = save_entry entry' db.entries } in
        let postable = check_draft-IsPostable entry checked in
        unbind (apply_posting lib entry' accounts "journal_entry" entry'.id db₁) _ h₁
          λ db₂ applied last.
            let done =
              apply_posting_lem lib entry' accounts "journal_entry" entry'.id db₁
                (money entry postable) sound.unique sound.stored
                (filter-Agree _ db.accounts sound.unique) applied in
            let same_entry : entry' ≡ e = ap (λ p. p.0) (ok-injective last) in
            let same_db : db₂ ≡ db' = ap (λ p. p.1) (ok-injective last) in
            (
              entry,
              postable,
              sym same_entry,
              sym same_db ∙ done ∙ ap (λ x. posted_draft_db lib x db) same_entry,
              apply_posting-IsFound lib entry' accounts "journal_entry" entry'.id db₁ applied,
            )
