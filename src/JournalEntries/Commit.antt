-- ===== src/JournalEntries/Commit.antt =====
-- What COMMIT guarantees of the entries that a transaction has written.
use fin_matrix_backend.Prelude.{
  ℕ, ◌+◌, ◌≡◌, refl, sym, true, false, none, some, List, [], ◌∷◌, ◌++◌, ◌==◌, if◌then◌else◌, arith,
  ok, unbind, ok-injective, ==→eq,
}
use fin_matrix_backend.Prelude.Int.{ℤ, ◌-ℤ◌, pos_part, neg_part, int_laws}
use fin_matrix_backend.Store.{JournalEntryLine, JournalEntry, Db}
use fin_matrix_backend.Posting.Create.{
  is_draft, entry_of, sum_debits, sum_credits, save_entry, assert_entry_balanced,
}
use fin_matrix_backend.JournalEntries.{commit}

-- Debits and credits of the lines are equal, to the last place.
abbrev pub IsBalanced : List JournalEntryLine → Type 0
IsBalanced lines = sum_debits lines ≡ sum_credits lines

pub zero-sub : (a b : ℤ) → (pos_part (a -ℤ b) + neg_part (a -ℤ b) == 0) ≡ true → a ≡ b
zero-sub a b h =
    let zero_both : pos_part (a -ℤ b) + neg_part (a -ℤ b) ≡ 0 = ==→eq _ _ h in omega int_laws

pub assert_entry_balanced-IsBalanced :
    (id : ℕ) (db : Db) (e : JournalEntry)
    → assert_entry_balanced id db ≡ ok tt
    → entry_of id db.entries ≡ some e
    → is_draft e.status ≡ false
    → IsBalanced e.lines
unfolding assert_entry_balanced
assert_entry_balanced-IsBalanced id db e h found final =
    zero-sub (sum_debits e.lines) (sum_credits e.lines) (ground arith)

pub commit-head :
    (id : ℕ) (ids : List ℕ) (db : Db) {db' : Db}
    → commit (id ∷ ids) db ≡ ok db'
    → (assert_entry_balanced id db ≡ ok tt) × (commit ids db ≡ ok db')
unfolding commit
commit-head id ids db h = unbind (assert_entry_balanced id db) _ h λ _ fine rest. (fine, rest)

-- COMMIT changes nothing.
pub commit-same : (ids : List ℕ) (db : Db) {db' : Db} → commit ids db ≡ ok db' → db' ≡ db
unfolding commit
commit-same [] db h = sym (ok-injective h)
commit-same (id ∷ ids) db h = commit-same ids db (commit-head id ids db h).1

pub entry_of-append :
    (id : ℕ) (entries : List JournalEntry) (e : JournalEntry)
    → entry_of id entries ≡ none
    → entry_of id (entries ++ (e ∷ [])) ≡ (if id == e.id then some e else none)
entry_of-append id [] e h = refl
entry_of-append id (x ∷ xs) e h = ground (arith, entry_of-append id xs e)

pub entry_of-save_entry :
    (id : ℕ) (e : JournalEntry) (entries : List JournalEntry)
    → entry_of id (save_entry e entries) ≡ (elim (entry_of id entries) [
      | none ↦ none
      | some x ↦ if id == e.id then some e else some x
    ])
entry_of-save_entry id e [] = refl
entry_of-save_entry id e (x ∷ xs) = ground (arith, entry_of-save_entry id e xs)
