-- ===== src/JournalEntries/Unbalanced.antt =====
-- `void` of a draft: the trigger at COMMIT asks for a balance of every entry that is not a draft,
-- and a voided entry is not one.
use fin_matrix_backend.Prelude.{
  ℕ, ◌≡◌, refl, ◌∙◌, false, ◌&&◌, some, String, ◌==◌, find, arith, ok, err, inl, inr, Bool-cases,
}
use fin_matrix_backend.Prelude.Int.{◌-ℤ◌}
use fin_matrix_backend.Money.{Decimals, is_zero}
use fin_matrix_backend.Store.{draft, JournalEntry, Db, Env, check_violation}
use fin_matrix_backend.Posting.Create.{
  entry_of, sum_debits, sum_credits, is_draft, save_entry, assert_entry_balanced,
}
use fin_matrix_backend.JournalEntries.{
  assert_not_reconciled, check_voidable, reverse_posted, commit, void_entry,
}
use fin_matrix_backend.JournalEntries.Commit.{IsBalanced, zero-sub, entry_of-save_entry}
use fin_matrix_backend.JournalEntries.Reversal.{voided}

unbalanced-test :
    (e : JournalEntry)
    → ¬ (IsBalanced e.lines)
    → is_zero (sum_debits e.lines -ℤ sum_credits e.lines) ≡ false
unbalanced-test e odd = elim (Bool-cases (is_zero (sum_debits e.lines -ℤ sum_credits e.lines))) [
  | inl same ↦ absurd (odd (zero-sub _ _ same))
  | inr differ ↦ differ
]

assert_entry_balanced-refuses :
    (id : ℕ) (db : Db) (e : JournalEntry)
    → entry_of id db.entries ≡ some e
    → is_draft e.status ≡ false
    → ¬ (IsBalanced e.lines)
    → assert_entry_balanced id db ≡ err check_violation
unfolding assert_entry_balanced
assert_entry_balanced-refuses id db e found final odd =
    let differ = unbalanced-test e odd in ground arith

module _ (lib : Decimals) (env : Env) (company_id id user_id : ℕ) (reason memo : String)
    (db : Db) where
  -- A draft that is not reconciled and whose debits and credits differ cannot be voided: `void`
  -- marks it, and the database refuses the transaction when it commits.
  pub void_entry_of_unbalanced :
      (e : JournalEntry)
      → find (λ (x : JournalEntry). (id == x.id) && (x.company_id == company_id)) db.entries
        ≡ some e
      → entry_of e.id db.entries ≡ some e
      → e.status ≡ draft
      → assert_not_reconciled db company_id e.id ≡ ok tt
      → ¬ (IsBalanced e.lines)
      → void_entry lib env company_id id user_id reason memo db ≡ err check_violation
  unfolding void_entry check_voidable reverse_posted commit
  void_entry_of_unbalanced e found own drafted open_row odd =
      let db₁ = record db {
        entries = save_entry (voided lib env company_id id user_id reason memo db e) db.entries;
      } in
      let saved =
        entry_of-save_entry e.id (voided lib env company_id id user_id reason memo db e)
          db.entries in
      let refused =
        assert_entry_balanced-refuses e.id db₁
          (voided lib env company_id id user_id reason memo db e) (saved ∙ ground arith) refl odd in
      rw (found, drafted, open_row, refused)
