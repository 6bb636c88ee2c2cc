-- ===== src/JournalEntries/Effects.antt =====
-- What every committed transaction of the journal has in common, and what follows from that: the
-- trial balance, the agreement of balances with the ledger, and the soundness of the tables.
use mathlib.Core.Path.{ap₂, fun_ext, subst}
use mathlib.Core.List.{map-map}
use mathlib.Core.Option
use fin_matrix_backend.Prelude.{
  ℕ, ◌≡◌, refl, sym, ◌∙◌, ap, some, String, List, [], ◌∷◌, ◌++◌, map, ◌==◌, if◌then◌else◌, All,
  All-map, inl, inr, Bool-cases,
}
use fin_matrix_backend.Prelude.Int.{ℤ, pos, ◌+ℤ◌, ◌-ℤ◌, zero_+ℤ, +ℤ_assoc, int_laws}
use fin_matrix_backend.Money.{Decimals, IsMoney}
use fin_matrix_backend.Store.{
  AccountType, Account, JournalEntryLine, JournalEntry, GeneralLedgerEntry, Db,
}
use fin_matrix_backend.Posting.Apply.{signed_delta, account_of, ledger_row}
use fin_matrix_backend.Posting.Apply.Deltas.{
  line_delta, posted_delta, IsMoneyLine, IsFound, signed_delta-IsMoney, account_of_id,
}
use fin_matrix_backend.Posting.Apply.Balances.{IsUnique, AreStored}
use fin_matrix_backend.Posting.Apply.Rows.{post_line, account_of-post_line, sequential_rows}
use fin_matrix_backend.Posting.Apply.Sequential.{post_lines}
use fin_matrix_backend.Posting.Create.Effect.{IsSound}
use fin_matrix_backend.Posting.Equation.{
  IsOwned, trial_balance, post_line-IsUnique, post_lines-cons, post_lines-nil,
}
use fin_matrix_backend.JournalEntries.Commit.{IsBalanced}
use fin_matrix_backend.JournalEntries.Trial.{trial_balance-balanced}

abbrev pub row_delta : ℕ → AccountType → GeneralLedgerEntry → ℤ
row_delta id kind g = if g.account_id == id then signed_delta kind g.debit g.credit else pos 0

-- What the rows of the general ledger add up to for an account.
abbrev pub ledger_total : ℕ → AccountType → List GeneralLedgerEntry → ℤ
ledger_total id kind [] = pos 0
ledger_total id kind (g ∷ gs) = row_delta id kind g +ℤ ledger_total id kind gs

pub ledger_total-append :
    (id : ℕ) (kind : AccountType) (gs hs : List GeneralLedgerEntry)
    → ledger_total id kind (gs ++ hs) ≡ ledger_total id kind gs +ℤ ledger_total id kind hs
ledger_total-append id kind [] hs = sym (zero_+ℤ (ledger_total id kind hs))
ledger_total-append id kind (g ∷ gs) hs =
    ap (λ d. row_delta id kind g +ℤ d) (ledger_total-append id kind gs hs)
    ∙ sym (+ℤ_assoc (row_delta id kind g) (ledger_total id kind gs) (ledger_total id kind hs))

post_line-IsFound :
    (m : JournalEntryLine) (table : List Account) (l : JournalEntryLine)
    → IsFound table l
    → IsFound (map (post_line m) table) l
post_line-IsFound m table l (a, found) =
    (post_line m a, account_of-post_line l.account_id m table ∙ ap (Option.map (post_line m)) found)

module _ (lib : Decimals) (entry : JournalEntry) (source_type : String) (source_id : ℕ) where
  row_delta-ledger_row :
      (a b : Account) (l : JournalEntryLine) (running : ℤ)
      → b.id ≡ l.account_id
      → IsMoneyLine lib l
      → row_delta a.id a.kind (ledger_row lib entry source_type source_id b l running)
        ≡ line_delta a l
  row_delta-ledger_row a b l running same_id (d, c) = rw (same_id, d, c)

  sequential_rows_step :
      (table : List Account) (l : JournalEntryLine) (ls : List JournalEntryLine) (b : Account)
      → account_of l.account_id table ≡ some b
      → sequential_rows lib entry source_type source_id table (l ∷ ls)
        ≡ ledger_row lib entry source_type source_id b l
            (b.balance +ℤ signed_delta b.kind l.debit l.credit)
          ∷ sequential_rows lib entry source_type source_id (map (post_line l) table) ls
  unfolding sequential_rows
  sequential_rows_step table l ls b e = rw (e, sequential_rows)

  -- The ledger rows of a posting add up to what it posts.
  pub ledger_total-sequential_rows :
      (a : Account) (table : List Account) (lines : List JournalEntryLine)
      → All (IsMoneyLine lib) lines
      → All (IsFound table) lines
      → ledger_total a.id a.kind (sequential_rows lib entry source_type source_id table lines)
        ≡ posted_delta a lines
  unfolding sequential_rows
  ledger_total-sequential_rows a table [] money found = refl
  ledger_total-sequential_rows a table (l ∷ ls) ((d, c), money) ((b, e), found) =
      ap (ledger_total a.id a.kind) (sequential_rows_step table l ls b e)
      ∙ ap₂ ◌+ℤ◌
          (row_delta-ledger_row a b l (b.balance +ℤ signed_delta b.kind l.debit l.credit)
            (account_of_id l.account_id table b e) (d, c))
          (ledger_total-sequential_rows a (map (post_line l) table) ls money
            (All-map _ _ (post_line-IsFound l table) ls found))

-- A transaction that has posted some lines, on accounts of one company, and nothing else.
pub record HasPosted (lib : Decimals) (db db' : Db) : Type 0 where
  pub owner : ℕ
  pub lines : List JournalEntryLine
  pub rows : List GeneralLedgerEntry
  pub accounts_moved : db'.accounts ≡ map (post_lines lines) db.accounts
  pub ledger_grown : db'.general_ledger ≡ db.general_ledger ++ rows
  pub rows_agree : (a : Account) → ledger_total a.id a.kind rows ≡ posted_delta a lines
  pub owned : All (IsOwned owner db.accounts) lines
  pub balanced : IsBalanced lines
  pub money : All (IsMoneyLine lib) lines

-- The balance that an account had before the first row of the ledger.
abbrev pub opening : List GeneralLedgerEntry → Account → ℤ
opening gl a = a.balance -ℤ ledger_total a.id a.kind gl

abbrev pub openings : Db → List ℤ
openings db = map (opening db.general_ledger) db.accounts

post_lines-IsUnique :
    (ls : List JournalEntryLine) (table : List Account)
    → IsUnique table
    → IsUnique (map (post_lines ls) table)
post_lines-IsUnique [] table u = rw (post_lines-nil table) u
post_lines-IsUnique (l ∷ ls) table u =
    rw (post_lines-cons l ls table)
      (post_lines-IsUnique ls (map (post_line l) table) (post_line-IsUnique l table u))

module _ (lib : Decimals) where
  open lib use {fixed_add, fixed_zero}

  posted_delta-IsMoney :
      (a : Account) (ls : List JournalEntryLine)
      → All (IsMoneyLine lib) ls
      → IsMoney lib (posted_delta a ls)
  posted_delta-IsMoney a [] m = fixed_zero
  posted_delta-IsMoney a (l ∷ ls) ((d, c), ms) =
      fixed_add (line_delta a l) (posted_delta a ls)
        (elim (Bool-cases (l.account_id == a.id)) [
          | inl own ↦ rw own (signed_delta-IsMoney lib a.kind l.debit l.credit d c)
          | inr other ↦ rw other fixed_zero
        ])
        (posted_delta-IsMoney a ls ms)

  post_lines-AreStored :
      (ls : List JournalEntryLine) (table : List Account)
      → All (IsMoneyLine lib) ls
      → AreStored lib table
      → AreStored lib (map (post_lines ls) table)
  post_lines-AreStored ls [] m s = tt
  post_lines-AreStored ls (a ∷ table) m (s, ss) = (
    fixed_add a.balance (posted_delta a ls) s (posted_delta-IsMoney a ls m),
    post_lines-AreStored ls table m ss,
  )

  module _ {db db' : Db} (posting : HasPosted lib db db') where
    open posting use {
      owner, lines, rows, accounts_moved, ledger_grown, rows_agree, owned, balanced, money,
    }

    pub HasPosted-IsSound : IsSound lib db → IsSound lib db'
    HasPosted-IsSound sound = record {
      unique =
          subst IsUnique (sym accounts_moved) (post_lines-IsUnique lines db.accounts sound.unique);
      stored =
          subst (AreStored lib) (sym accounts_moved)
            (post_lines-AreStored lines db.accounts money sound.stored);
    }

    pub HasPosted-trial_balance :
        IsSound lib db
        → (company : ℕ) → trial_balance company db'.accounts ≡ trial_balance company db.accounts
    HasPosted-trial_balance sound company =
        ap (trial_balance company) accounts_moved
        ∙ trial_balance-balanced company owner lines db.accounts sound.unique owned balanced

    opening-post_lines :
        (a : Account)
        → opening (db.general_ledger ++ rows) (post_lines lines a) ≡ opening db.general_ledger a
    opening-post_lines a =
        ap (λ t. a.balance +ℤ posted_delta a lines -ℤ t)
          (ledger_total-append a.id a.kind db.general_ledger rows
            ∙ ap (λ d. ledger_total a.id a.kind db.general_ledger +ℤ d) (rows_agree a))
        ∙ omega int_laws

    pub HasPosted-openings : openings db' ≡ openings db
    HasPosted-openings =
        ap₂ (λ gl t. map (opening gl) t) ledger_grown accounts_moved
        ∙ map-map (opening (db.general_ledger ++ rows)) (post_lines lines) db.accounts
        ∙ ap (λ f. map f db.accounts) (fun_ext opening-post_lines)
