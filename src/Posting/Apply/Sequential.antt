-- ===== src/Posting/Apply/Sequential.antt =====
-- `applyPosting` is a posting of the lines one at a time.
use mathlib.Core.Path.{subst, ap₂}
use mathlib.Core.Option
use fin_matrix_backend.Prelude.{
  ℕ, ◌≡◌, refl, sym, ◌∙◌, ap, some, String, List, [], ◌∷◌, ◌++◌, map, All, All-map, arith, ok, inl,
  inr, Option-cases, ok-injective, >>=-eq-ok,
}
use fin_matrix_backend.Prelude.Int.{ℤ, ◌+ℤ◌, ◌-ℤ◌, pos_part, neg_part, zero_+ℤ, int_laws}
use fin_matrix_backend.Money.{Decimals}
use fin_matrix_backend.Store.{Account, JournalEntryLine, JournalEntry, GeneralLedgerEntry, Db}
use fin_matrix_backend.Posting.Apply.{
  account_of, get_delta, collect_deltas, apply_deltas, write_rows, apply_posting,
}
use fin_matrix_backend.Posting.Apply.Deltas.{
  posted_delta, total_of, known, get_delta-add_delta, total_of-add_delta, collect_deltas-summary,
  collect_deltas-untouched, posted_delta-untouched, IsMoneyLine, collect_deltas-AreMoney, IsFound,
  collect_deltas-IsFound,
}
use fin_matrix_backend.Posting.Apply.Balances.{
  IsUnique, Agree, AreStored, add_total, apply_deltas_lem,
}
use fin_matrix_backend.Posting.Apply.Rows.{Tracks, sequential_rows, write_rows-eq-sequential_rows}

-- The lines of an entry posted to one account.
abbrev pub post_lines : List JournalEntryLine → Account → Account
post_lines lines a = record a { balance = a.balance +ℤ posted_delta a lines }

pub IsUnique-found :
    (table : List Account) → IsUnique table → All (λ a. account_of a.id table ≡ some a) table
IsUnique-found [] u = tt
IsUnique-found (x ∷ xs) u = (
  ground arith,
  All-map (λ a. account_of a.id xs ≡ some a) (λ a. account_of a.id (x ∷ xs) ≡ some a)
      (λ a h. ground (arith, u.0)) xs (IsUnique-found xs u.1),
)

pub map-eq_of_All {ℓ κ} :
    {A : Type ℓ} {B : Type κ} (f g : A → B) (xs : List A)
    → All (λ x. f x ≡ g x) xs
    → map f xs ≡ map g xs
map-eq_of_All f g [] h = refl
map-eq_of_All f g (x ∷ xs) (h, hs) = ap₂ (λ y ys. y ∷ ys) h (map-eq_of_All f g xs hs)

account_of-add_total :
    (deltas : List (ℕ × ℤ)) (id : ℕ) (table : List Account)
    → account_of id (map (add_total deltas) table)
      ≡ Option.map (add_total deltas) (account_of id table)
account_of-add_total deltas id [] = refl
account_of-add_total deltas id (x ∷ xs) = ground (arith, account_of-add_total deltas id xs)

module _ (accounts : List Account) (lines : List JournalEntryLine) (deltas : List (ℕ × ℤ))
    (collected : collect_deltas accounts lines [] ≡ ok deltas) where
  -- Both summaries of the deltas agree, since the map has one delta for each id.
  known-eq-total_of : (id : ℕ) → known (get_delta id deltas) ≡ total_of id deltas
  unfolding get_delta
  known-eq-total_of id = elim (Option-cases (account_of id accounts)) [
    | inl gone ↦
        collect_deltas-untouched id (λ m. known (get_delta id m))
          (λ k d m. get_delta-add_delta id k d m) accounts lines [] deltas gone collected
        ∙ sym (
            collect_deltas-untouched id (total_of id) (λ k d m. total_of-add_delta id k d m)
              accounts lines [] deltas gone collected)
    | inr (a, e) ↦
        collect_deltas-summary id (λ m. known (get_delta id m))
          (λ k d m. get_delta-add_delta id k d m) accounts lines [] deltas a e collected
        ∙ sym (
            collect_deltas-summary id (total_of id) (λ k d m. total_of-add_delta id k d m) accounts
              lines [] deltas a e collected)
  ]

  total_of-eq-posted_delta :
      (table : List Account) (a : Account)
      → Agree accounts table
      → account_of a.id table ≡ some a
      → total_of a.id deltas ≡ posted_delta a lines
  total_of-eq-posted_delta table a agree self = elim (Option-cases (account_of a.id accounts)) [
    | inl gone ↦
        collect_deltas-untouched a.id (total_of a.id) (λ k d m. total_of-add_delta a.id k d m)
          accounts lines [] deltas gone collected
        ∙ sym (posted_delta-untouched accounts lines [] deltas a gone collected)
    | inr (b, e) ↦
        let same_account : b ≡ a = ground (arith, agree a.id b e) in
        collect_deltas-summary a.id (total_of a.id) (λ k d m. total_of-add_delta a.id k d m)
          accounts lines [] deltas a (e ∙ ap some same_account) collected
        ∙ zero_+ℤ (posted_delta a lines)
  ]

  add_total-eq-post_lines :
      (table : List Account)
      → IsUnique table
      → Agree accounts table
      → map (add_total deltas) table ≡ map (post_lines lines) table
  add_total-eq-post_lines table unique agree =
      map-eq_of_All (add_total deltas) (post_lines lines) table (
        All-map _ _
          (λ a self.
            ap (λ d. record a { balance = a.balance +ℤ d })
              (total_of-eq-posted_delta table a agree self))
          table (IsUnique-found table unique))

  -- Before the first line, what is left after the deltas are taken off is the old balance.
  Tracks-start :
      (accounts' table : List Account)
      → Agree accounts' (map (add_total deltas) table)
      → Tracks deltas accounts' [] table
  unfolding get_delta
  Tracks-start accounts' table agree id a found = elim (Option-cases (account_of id table)) [
    | inl gone ↦ absurd (ground (arith, agree id a found, account_of-add_total deltas id table))
    | inr (b, e) ↦
        let moved : a ≡ add_total deltas b =
          ground (arith, agree id a found, account_of-add_total deltas id table) in
        let back : b.balance +ℤ total_of b.id deltas -ℤ known (get_delta b.id deltas) ≡ b.balance =
          omega (
            int_laws,
            ap pos_part (known-eq-total_of b.id),
            ap neg_part (known-eq-total_of b.id),
          ) in
        rw (e, moved) (ap some (λ i. record b { balance = sym back i }))
  ]

module _ (lib : Decimals) (entry : JournalEntry) (accounts : List Account) (source_type : String)
    (source_id : ℕ) (db : Db) where
  module _ (money : All (IsMoneyLine lib) entry.lines) (unique : IsUnique db.accounts)
      (stored : AreStored lib db.accounts) (agree : Agree accounts db.accounts) where
    posting_from_parts :
        (deltas : List (ℕ × ℤ)) (accounts' table : List Account) (rows : List GeneralLedgerEntry)
        → collect_deltas accounts entry.lines [] ≡ ok deltas
        → apply_deltas lib deltas accounts db.accounts ≡ ok (accounts', table)
        → write_rows lib entry source_type source_id deltas accounts' [] entry.lines ≡ ok rows
        → (table ≡ map (post_lines entry.lines) db.accounts)
          × (rows ≡ sequential_rows lib entry source_type source_id db.accounts entry.lines)
    posting_from_parts deltas accounts' table rows collected applied written =
        let (moved, _, agree') =
          apply_deltas_lem lib deltas accounts db.accounts accounts' table
            (collect_deltas-AreMoney lib accounts entry.lines [] deltas money tt collected) stored
            agree applied in
        (
          moved
              ∙ add_total-eq-post_lines accounts entry.lines deltas collected db.accounts unique
                  agree,
          write_rows-eq-sequential_rows lib entry source_type source_id deltas accounts' []
              db.accounts entry.lines rows
              (Tracks-start accounts entry.lines deltas collected accounts' db.accounts
                (subst (Agree accounts') moved agree'))
              written,
        )

    pub apply_posting_lem :
        {db' : Db}
        → apply_posting lib entry accounts source_type source_id db ≡ ok db'
        → db' ≡ record db {
          accounts = map (post_lines entry.lines) db.accounts;
          general_ledger =
              db.general_ledger
              ++ sequential_rows lib entry source_type source_id db.accounts entry.lines;
        }
    unfolding apply_posting
    apply_posting_lem h =
        let (deltas, collected, h₁) = >>=-eq-ok (collect_deltas accounts entry.lines []) _ h in
        let ((accounts', table), applied, h₂) =
          >>=-eq-ok (apply_deltas lib deltas accounts db.accounts) _ h₁ in
        let (rows, written, h₃) =
          >>=-eq-ok (write_rows lib entry source_type source_id deltas accounts' [] entry.lines) _
            h₂ in
        let (moved, listed) =
          posting_from_parts deltas accounts' table rows collected applied written in
        sym (ok-injective h₃)
        ∙ ap₂ (λ t r. record db { accounts = t; general_ledger = db.general_ledger ++ r }) moved
            listed

  pub apply_posting-IsFound :
      {db' : Db}
      → apply_posting lib entry accounts source_type source_id db ≡ ok db'
      → All (IsFound accounts) entry.lines
  unfolding apply_posting
  apply_posting-IsFound h =
      let (deltas, collected, _) = >>=-eq-ok (collect_deltas accounts entry.lines []) _ h in
      collect_deltas-IsFound accounts entry.lines [] deltas collected
