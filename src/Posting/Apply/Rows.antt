-- ===== src/Posting/Apply/Rows.antt =====
-- The running balances of the ledger rows, against a posting of the lines one at a time.
use mathlib.Core.Option
use fin_matrix_backend.Prelude.{
  ℕ, ◌≡◌, refl, sym, ◌∙◌, none, some, String, List, [], ◌∷◌, map, or_else, arith, ok, ◌>>=◌, inl,
  inr, Option-cases, ok-injective, >>=-eq-ok,
}
use fin_matrix_backend.Prelude.Int.{ℤ, ◌+ℤ◌, ◌-ℤ◌, +ℤ_zero}
use fin_matrix_backend.Money.{Decimals}
use fin_matrix_backend.Store.{Account, JournalEntryLine, JournalEntry, GeneralLedgerEntry}
use fin_matrix_backend.Posting.Apply.{
  signed_delta, account_of, get_delta, put_delta, ledger_row, write_rows,
}
use fin_matrix_backend.Posting.Apply.Deltas.{line_delta, known, account_of_id, get_delta-put_delta}

-- One line posted to one account.
abbrev pub post_line : JournalEntryLine → Account → Account
post_line l a = record a { balance = a.balance +ℤ line_delta a l }

pub account_of-post_line :
    (id : ℕ) (l : JournalEntryLine) (table : List Account)
    → account_of id (map (post_line l) table) ≡ Option.map (post_line l) (account_of id table)
account_of-post_line id l [] = refl
account_of-post_line id l (x ∷ xs) = ground (arith, account_of-post_line id l xs)

-- The balance of an account before its next line.
abbrev pub prior_of : List (ℕ × ℤ) → List (ℕ × ℤ) → Account → ℤ
prior_of deltas touched a =
    or_else (get_delta a.id touched) (a.balance -ℤ known (get_delta a.id deltas))

module _ (deltas : List (ℕ × ℤ)) (accounts : List Account) where
  -- The running balances that `accountsTouched` holds are the balances of the table.
  abbrev pub Tracks : List (ℕ × ℤ) → List Account → Type 0
  Tracks touched table =
      (id : ℕ) (a : Account)
      → account_of id accounts ≡ some a
      → account_of id table ≡ some (record a { balance = prior_of deltas touched a })

  pub Tracks-put :
      (touched : List (ℕ × ℤ)) (table : List Account) (l : JournalEntryLine) (a : Account)
      → account_of l.account_id accounts ≡ some a
      → Tracks touched table
      → Tracks
          (put_delta a.id
            (prior_of deltas touched a +ℤ signed_delta a.kind l.debit l.credit)
            touched)
          (map (post_line l) table)
  Tracks-put touched table l a found tracks id b h = ground (
    arith,
    account_of-post_line id l table,
    tracks id b h,
    account_of_id id accounts b h,
    account_of_id l.account_id accounts a found,
    get_delta-put_delta b.id a.id
        (prior_of deltas touched a +ℤ signed_delta a.kind l.debit l.credit) touched,
    +ℤ_zero (prior_of deltas touched b),
  )

module _ (lib : Decimals) (entry : JournalEntry) (source_type : String) (source_id : ℕ) where
  -- The rows of a posting that takes the lines one at a time: each shows the balance of its account
  -- just after its line.
  unfoldable pub sequential_rows : List Account → List JournalEntryLine → List GeneralLedgerEntry
  sequential_rows table [] = []
  sequential_rows table (l ∷ ls) =
      let rest = sequential_rows (map (post_line l) table) ls in
      elim (account_of l.account_id table) [
        | none ↦ []
        | some a ↦
            ledger_row lib entry source_type source_id a l
              (a.balance +ℤ signed_delta a.kind l.debit l.credit)
            ∷ rest
      ]

  module _ (deltas : List (ℕ × ℤ)) (accounts : List Account) where
    write_rows_step :
        (touched : List (ℕ × ℤ)) (l : JournalEntryLine) (ls : List JournalEntryLine) (a : Account)
        → account_of l.account_id accounts ≡ some a
        → let running = prior_of deltas touched a +ℤ signed_delta a.kind l.debit l.credit in
          write_rows lib entry source_type source_id deltas accounts touched (l ∷ ls) ≡ (
            write_rows lib entry source_type source_id deltas accounts
              (put_delta a.id running touched)
              ls
            >>= λ rows. ok (ledger_row lib entry source_type source_id a l running ∷ rows))
    unfolding write_rows
    write_rows_step touched l ls a e = rw (e, write_rows)

    pub write_rows-eq-sequential_rows :
        (touched : List (ℕ × ℤ)) (table : List Account) (lines : List JournalEntryLine)
        (rows : List GeneralLedgerEntry)
        → Tracks deltas accounts touched table
        → write_rows lib entry source_type source_id deltas accounts touched lines ≡ ok rows
        → rows ≡ sequential_rows table lines
    unfolding write_rows sequential_rows
    write_rows-eq-sequential_rows touched table [] rows tracks h = sym (ok-injective h)
    write_rows-eq-sequential_rows touched table (l ∷ ls) rows tracks h =
        elim (Option-cases (account_of l.account_id accounts)) [
          | inl missing ↦ absurd (ground arith)
          | inr (a, e) ↦
              let running = prior_of deltas touched a +ℤ signed_delta a.kind l.debit l.credit in
              let (rest, ran, last) =
                >>=-eq-ok
                  (write_rows lib entry source_type source_id deltas accounts
                    (put_delta a.id running touched) ls)
                  _ (sym (write_rows_step touched l ls a e) ∙ h) in
              let tail =
                write_rows-eq-sequential_rows (put_delta a.id running touched)
                  (map (post_line l) table) ls rest
                  (Tracks-put deltas accounts touched table l a e tracks) ran in
              ground (arith, tracks l.account_id a e, tail, last)
        ]
