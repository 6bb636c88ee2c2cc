-- ===== src/JournalEntries/Reversal.antt =====
-- Voiding a posted entry takes its effect on every balance back.
use mathlib.Core.Path.{ap₂, subst, fun_ext}
use fin_matrix_backend.Prelude.{
  ℕ, suc, ◌≡◌, refl, sym, ◌∙◌, ap, false, ◌&&◌, some, String, List, [], ◌∷◌, map, ltb, ◌==◌, find,
  All, arith, ok, inl, inr, Bool-cases, unbind, ok-injective, eq_of_some, eq_of_some,
}
use fin_matrix_backend.Prelude.Int.{ℤ, pos, ◌+ℤ◌, ◌-ℤ◌, int_laws}
use fin_matrix_backend.Money.{Decimals}
use fin_matrix_backend.Store.{
  AccountType, asset, liability, equity, revenue, expense, draft, posted, void, Account,
  JournalEntryLine, JournalEntry, Db, Env,
}
use fin_matrix_backend.Posting.Checks.{CreatePostingInput}
use fin_matrix_backend.Posting.Apply.{signed_delta}
use fin_matrix_backend.Posting.Apply.Deltas.{line_delta, posted_delta, IsMoneyLine}
use fin_matrix_backend.Posting.Apply.Sequential.{post_lines}
use fin_matrix_backend.Posting.Create.{stored_line, stored_lines, save_entry, create_entry}
use fin_matrix_backend.Posting.Create.Effect.{IsSound}
use fin_matrix_backend.Posting.Create.Posted.{create_entry_posts}
use fin_matrix_backend.JournalEntries.{
  is_void, assert_not_reconciled, check_voidable, insert_line, sort_lines, reversed_line,
  reversed_lines, reversal_input, reverse_posted, commit, void_entry,
}
use fin_matrix_backend.JournalEntries.Commit.{commit-same}

signed_delta-swap : (k : AccountType) (d c : ℤ) → signed_delta k c d ≡ pos 0 -ℤ signed_delta k d c
unfolding signed_delta
signed_delta-swap asset d c = omega int_laws
signed_delta-swap expense d c = omega int_laws
signed_delta-swap liability d c = omega int_laws
signed_delta-swap equity d c = omega int_laws
signed_delta-swap revenue d c = omega int_laws

posted_delta-insert_line :
    (a : Account) (l : JournalEntryLine) (ls : List JournalEntryLine)
    → posted_delta a (insert_line l ls) ≡ line_delta a l +ℤ posted_delta a ls
posted_delta-insert_line a l [] = refl
posted_delta-insert_line a l (m ∷ ms) = elim (Bool-cases (ltb m.line_order l.line_order)) [
  | inl later ↦ rw later (rw (posted_delta-insert_line a l ms) (omega int_laws))
  | inr here ↦ rw here
]

-- The order of the lines does not matter to a balance.
pub posted_delta-sort_lines :
    (a : Account) (ls : List JournalEntryLine) → posted_delta a (sort_lines ls) ≡ posted_delta a ls
posted_delta-sort_lines a [] = refl
posted_delta-sort_lines a (l ∷ ls) =
    posted_delta-insert_line a l (sort_lines ls)
    ∙ ap (λ d. line_delta a l +ℤ d) (posted_delta-sort_lines a ls)

insert_line-All {ℓ} :
    (P : JournalEntryLine → Type ℓ) (l : JournalEntryLine) (ls : List JournalEntryLine)
    → P l
    → All P ls
    → All P (insert_line l ls)
insert_line-All P l [] h hs = (h, tt)
insert_line-All P l (m ∷ ms) h hs = elim (Bool-cases (ltb m.line_order l.line_order)) [
  | inl later ↦ rw later (hs.0, insert_line-All P l ms h hs.1)
  | inr here ↦ rw here (h, hs)
]

pub sort_lines-All {ℓ} :
    (P : JournalEntryLine → Type ℓ) (ls : List JournalEntryLine) → All P ls → All P (sort_lines ls)
sort_lines-All P [] h = tt
sort_lines-All P (l ∷ ls) (h, hs) = insert_line-All P l (sort_lines ls) h (sort_lines-All P ls hs)

module _ (lib : Decimals) where
  open lib use {to_fixed}

  line_delta-reversed :
      (a : Account) (l : JournalEntryLine) (i j : ℕ)
      → IsMoneyLine lib l
      → line_delta a (stored_line lib (reversed_line l i) j) ≡ pos 0 -ℤ line_delta a l
  line_delta-reversed a l i j (d, c) = elim (Bool-cases (l.account_id == a.id)) [
    | inl own ↦ rw own (rw (d, c) (signed_delta-swap a.kind l.debit l.credit))
    | inr other ↦ rw other (omega int_laws)
  ]

  posted_delta-reversed :
      (a : Account) (ls : List JournalEntryLine) (i j : ℕ)
      → All (IsMoneyLine lib) ls
      → posted_delta a (stored_lines lib (reversed_lines ls i) j) ≡ pos 0 -ℤ posted_delta a ls
  posted_delta-reversed a [] i j m = omega int_laws
  posted_delta-reversed a (l ∷ ls) i j (m, ms) =
      ap₂ ◌+ℤ◌ (line_delta-reversed a l i j m) (posted_delta-reversed a ls (suc i) (suc j) ms)
      ∙ omega int_laws

  -- The balance of an account with the effect of some lines taken off.
  abbrev pub unpost_lines : List JournalEntryLine → Account → Account
  unpost_lines lines a = record a { balance = a.balance -ℤ posted_delta a lines }

  pub post-reversed_lines :
      (ls : List JournalEntryLine) (table : List Account)
      → All (IsMoneyLine lib) ls
      → map (post_lines (stored_lines lib (reversed_lines (sort_lines ls) 0) 0)) table
        ≡ map (unpost_lines ls) table
  post-reversed_lines ls table money =
      ap (λ f. map f table)
        (fun_ext λ a.
          ap (λ b. record a { balance = b })
            (ap (λ d. a.balance +ℤ d)
                (posted_delta-reversed a (sort_lines ls) 0 0
                    (sort_lines-All (IsMoneyLine lib) ls money)
                  ∙ ap (λ d. pos 0 -ℤ d) (posted_delta-sort_lines a ls))
              ∙ omega int_laws))

  module _ (env : Env) (company_id id user_id : ℕ) (reason memo : String) (db : Db) where
    -- What `void` has checked of the entry before it changes anything.
    pub record IsVoidable (e : JournalEntry) : Type 0 where
      pub found :
          find (λ (x : JournalEntry). (id == x.id) && (x.company_id == company_id)) db.entries
          ≡ some e
      pub not_void : is_void e.status ≡ false
      pub not_reconciled : assert_not_reconciled db company_id e.id ≡ ok tt

    check_voidable-IsVoidable :
        (e : JournalEntry) → check_voidable company_id id db ≡ ok e → IsVoidable e
    unfolding check_voidable
    check_voidable-IsVoidable e h = ground arith

    abbrev pub voided : JournalEntry → JournalEntry
    voided e = record e { status = void; void_reason = some reason }

    pub void_entry-parts :
        {db' : Db}
        → void_entry lib env company_id id user_id reason memo db ≡ ok db'
        → (e : JournalEntry) × (ids : List ℕ) × (db₁ : Db) × IsVoidable e
          × (reverse_posted lib env company_id user_id e memo db ≡ ok (ids, db₁))
          × (commit (e.id ∷ ids) (record db₁ { entries = save_entry (voided e) db₁.entries })
              ≡ ok db')
    unfolding void_entry
    void_entry-parts h = unbind (check_voidable company_id id db) _ h λ e checked h₁.
        unbind (reverse_posted lib env company_id user_id e memo db) _ h₁
          λ r reversed done. (e, r.0, r.1, check_voidable-IsVoidable e checked, reversed, done)

    abbrev pub reversal : JournalEntry → CreatePostingInput
    reversal e = reversal_input env company_id user_id e memo

    pub reverse_posted-parts :
        (e : JournalEntry) {ids : List ℕ} {db₁ : Db}
        → e.status ≡ posted
        → reverse_posted lib env company_id user_id e memo db ≡ ok (ids, db₁)
        → (r : JournalEntry) × (create_entry lib env (reversal e) db ≡ ok (r, db₁))
          × (ids ≡ r.id ∷ [])
    unfolding reverse_posted
    reverse_posted-parts e {ids} {db₁} is_post h =
        unbind (create_entry lib env (reversal e) db) _ (rw is_post at h) λ r created done.
          let same = ok-injective done in
          (
            r.0,
            created ∙ ap (λ (p : List ℕ × Db). ok (r.0, p.1)) same,
            sym (ap (λ (p : List ℕ × Db). p.0) same),
          )

    reverse_posted-accounts :
        (e : JournalEntry) {ids : List ℕ} {db₁ : Db}
        → IsSound lib db
        → e.status ≡ posted
        → All (IsMoneyLine lib) e.lines
        → reverse_posted lib env company_id user_id e memo db ≡ ok (ids, db₁)
        → db₁.accounts ≡ map (unpost_lines e.lines) db.accounts
    reverse_posted-accounts e sound is_post money h =
        let (r, created, _) = reverse_posted-parts e is_post h in
        let (lines, _, _, _, same_db) =
          create_entry_posts lib env (reversal e) db sound refl created in
        ap (λ (d : Db). d.accounts) same_db
        ∙ ap (λ ls. map (post_lines ls) db.accounts) lines
        ∙ post-reversed_lines e.lines db.accounts money

    -- In sound tables, voiding a posted entry whose lines have four places takes from every account
    -- exactly what the entry had added to it.
    pub void_entry_reverses :
        {db' : Db} (e : JournalEntry)
        → IsSound lib db
        → find (λ (x : JournalEntry). (id == x.id) && (x.company_id == company_id)) db.entries
          ≡ some e
        → e.status ≡ posted
        → All (IsMoneyLine lib) e.lines
        → void_entry lib env company_id id user_id reason memo db ≡ ok db'
        → db'.accounts ≡ map (unpost_lines e.lines) db.accounts
    void_entry_reverses e sound found is_post money h =
        let (x, ids, db₁, voidable, reversed, done) = void_entry-parts h in
        let same_entry : x ≡ e = eq_of_some (sym voidable.found ∙ found) in
        ap (λ (d : Db). d.accounts) (commit-same (x.id ∷ ids) _ done)
        ∙ reverse_posted-accounts e sound is_post money (
            subst (λ y. reverse_posted lib env company_id user_id y memo db ≡ ok (ids, db₁))
              same_entry reversed)

    -- Voiding an entry that is not posted changes no balance and no ledger row.
    pub void_entry_of_draft :
        {db' : Db} (e : JournalEntry)
        → find (λ (x : JournalEntry). (id == x.id) && (x.company_id == company_id)) db.entries
          ≡ some e
        → e.status ≡ draft
        → void_entry lib env company_id id user_id reason memo db ≡ ok db'
        → db' ≡ record db { entries = save_entry (voided e) db.entries }
    unfolding reverse_posted
    void_entry_of_draft e found is_draft h =
        let (x, ids, db₁, voidable, reversed, done) = void_entry-parts h in
        let same_entry : x ≡ e = eq_of_some (sym voidable.found ∙ found) in
        let same_db : db₁ ≡ db = ground arith in
        commit-same (x.id ∷ ids) _ done
        ∙ ap₂
            (λ (d : Db) (y : JournalEntry). record d { entries = save_entry (voided y) d.entries })
            same_db same_entry
