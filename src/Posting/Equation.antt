-- ===== src/Posting/Equation.antt =====
-- The accounting equation: the balances of a company on the debit side less those on the credit
-- side, and what a posting moves that by.
use mathlib.Core.List.{map-map}
use mathlib.Core.Path.{fun_ext, ap₂}
use mathlib.Core.Option
use fin_matrix_backend.Prelude.{
  ℕ, ◌≡◌, refl, sym, ◌∙◌, ap, true, false, none, some, List, [], ◌∷◌, map, ◌==◌, if◌then◌else◌, All,
  All-map, arith, inl, inr, Bool-cases,
}
use fin_matrix_backend.Prelude.Int.{ℤ, pos, ◌+ℤ◌, ◌-ℤ◌, +ℤ_zero, +ℤ_assoc, int_laws}
use fin_matrix_backend.Store.{
  AccountType, asset, liability, equity, revenue, expense, Account, JournalEntryLine,
}
use fin_matrix_backend.Posting.Apply.{signed_delta, account_of}
use fin_matrix_backend.Posting.Apply.Deltas.{line_delta, posted_delta}
use fin_matrix_backend.Posting.Apply.Balances.{IsUnique}
use fin_matrix_backend.Posting.Apply.Rows.{post_line, account_of-post_line}
use fin_matrix_backend.Posting.Apply.Sequential.{post_lines}
use fin_matrix_backend.Posting.Create.{sum_debits, sum_credits}

-- A balance as the trial balance shows it: assets and expenses count as debits.
abbrev pub debit_side : AccountType → ℤ → ℤ
debit_side asset b = b
debit_side expense b = b
debit_side liability b = pos 0 -ℤ b
debit_side equity b = pos 0 -ℤ b
debit_side revenue b = pos 0 -ℤ b

abbrev pub trial_share : ℕ → Account → ℤ
trial_share company a = if a.company_id == company then debit_side a.kind a.balance else pos 0

-- The debit balances of a company less its credit balances.
abbrev pub trial_balance : ℕ → List Account → ℤ
trial_balance company [] = pos 0
trial_balance company (a ∷ table) = trial_share company a +ℤ trial_balance company table

debit_side-post :
    (k : AccountType) (b d c : ℤ)
    → debit_side k (b +ℤ signed_delta k d c) ≡ debit_side k b +ℤ (d -ℤ c)
unfolding signed_delta
debit_side-post asset b d c = refl
debit_side-post expense b d c = refl
debit_side-post liability b d c = omega int_laws
debit_side-post equity b d c = omega int_laws
debit_side-post revenue b d c = omega int_laws

-- What one line moves the trial balance of a company by, at the account it names.
abbrev pub line_share : ℕ → ℕ → JournalEntryLine → ℤ
line_share company owner l = if owner == company then l.debit -ℤ l.credit else pos 0

trial_share-other :
    (company : ℕ) (l : JournalEntryLine) (a : Account)
    → (l.account_id == a.id) ≡ false
    → trial_share company (post_line l a) ≡ trial_share company a
trial_share-other company l a other = rw other (ground (arith, +ℤ_zero a.balance))

trial_share-own :
    (company : ℕ) (l : JournalEntryLine) (a : Account)
    → (l.account_id == a.id) ≡ true
    → trial_share company (post_line l a)
      ≡ trial_share company a +ℤ line_share company a.company_id l
trial_share-own company l a own = rw own (elim (Bool-cases (a.company_id == company)) [
  | inl mine ↦ rw mine (debit_side-post a.kind a.balance l.debit l.credit)
  | inr not_mine ↦ rw not_mine (sym (+ℤ_zero (pos 0)))
])

swap_last : (a b c : ℤ) → a +ℤ b +ℤ c ≡ a +ℤ c +ℤ b
swap_last a b c = omega int_laws

trial_balance-absent :
    (company : ℕ) (l : JournalEntryLine) (table : List Account)
    → account_of l.account_id table ≡ none
    → trial_balance company (map (post_line l) table) ≡ trial_balance company table
trial_balance-absent company l [] h = refl
trial_balance-absent company l (a ∷ table) h =
    let other : (l.account_id == a.id) ≡ false = ground arith in
    let gone : account_of l.account_id table ≡ none = ground arith in
    ap₂ ◌+ℤ◌ (trial_share-other company l a other) (trial_balance-absent company l table gone)

-- A line moves the trial balance of the company that owns its account by debit less credit.
trial_balance-post_line :
    (company : ℕ) (l : JournalEntryLine) (table : List Account) (a : Account)
    → IsUnique table
    → account_of l.account_id table ≡ some a
    → trial_balance company (map (post_line l) table)
      ≡ trial_balance company table +ℤ line_share company a.company_id l
trial_balance-post_line company l [] a unique h = cc
trial_balance-post_line company l (x ∷ table) a unique h =
    elim (Bool-cases (l.account_id == x.id)) [
      | inl own ↦
          let same_account : x ≡ a = ground arith in
          let gone : account_of l.account_id table ≡ none = ground (arith, unique.0) in
          ap₂ ◌+ℤ◌ (trial_share-own company l x own) (trial_balance-absent company l table gone)
          ∙ swap_last (trial_share company x) (line_share company x.company_id l)
              (trial_balance company table)
          ∙ ap
              (λ (y : Account).
                trial_share company x
                +ℤ trial_balance company table
                +ℤ line_share company y.company_id l)
              same_account
      | inr other ↦
          ap₂ ◌+ℤ◌ (trial_share-other company l x other)
            (trial_balance-post_line company l table a unique.1 (ground arith))
          ∙ sym (
              +ℤ_assoc (trial_share company x) (trial_balance company table)
                (line_share company a.company_id l))
    ]

pub post_line-IsUnique :
    (l : JournalEntryLine) (table : List Account)
    → IsUnique table
    → IsUnique (map (post_line l) table)
post_line-IsUnique l [] u = tt
post_line-IsUnique l (a ∷ table) u =
    (ground (arith, account_of-post_line a.id l table, u.0), post_line-IsUnique l table u.1)

pub post_lines-nil : (table : List Account) → map (post_lines []) table ≡ table
post_lines-nil [] = refl
post_lines-nil (a ∷ table) =
    ap₂ (λ x xs. x ∷ xs) (ap (λ b. record a { balance = b }) (+ℤ_zero a.balance))
      (post_lines-nil table)

posted_delta-post_line :
    (l : JournalEntryLine) (a : Account) (ls : List JournalEntryLine)
    → posted_delta (post_line l a) ls ≡ posted_delta a ls
posted_delta-post_line l a [] = refl
posted_delta-post_line l a (m ∷ ls) = ap (λ d. line_delta a m +ℤ d) (posted_delta-post_line l a ls)

-- Posting a list of lines is posting the first and then the others.
pub post_lines-cons :
    (l : JournalEntryLine) (ls : List JournalEntryLine) (table : List Account)
    → map (post_lines (l ∷ ls)) table ≡ map (post_lines ls) (map (post_line l) table)
post_lines-cons l ls table = sym (
    map-map (post_lines ls) (post_line l) table
    ∙ ap (λ f. map f table)
        (fun_ext λ a.
          ap (λ b. record a { balance = b })
            (+ℤ_assoc a.balance (line_delta a l) (posted_delta (post_line l a) ls)
              ∙ ap (λ d. a.balance +ℤ (line_delta a l +ℤ d)) (posted_delta-post_line l a ls))))

-- The account of a line is in the table, and belongs to the company.
abbrev pub IsOwned : ℕ → List Account → JournalEntryLine → Type 0
IsOwned owner table l =
    (a : Account) × (account_of l.account_id table ≡ some a) × (a.company_id ≡ owner)

post_line-IsOwned :
    (owner : ℕ) (m : JournalEntryLine) (table : List Account) (l : JournalEntryLine)
    → IsOwned owner table l
    → IsOwned owner (map (post_line m) table) l
post_line-IsOwned owner m table l (a, found, mine) = (
  post_line m a,
  account_of-post_line l.account_id m table ∙ ap (Option.map (post_line m)) found,
  mine,
)

abbrev pub entry_share : ℕ → ℕ → List JournalEntryLine → ℤ
entry_share company owner lines =
    if owner == company then sum_debits lines -ℤ sum_credits lines else pos 0

entry_share-nil : (company owner : ℕ) → entry_share company owner [] ≡ pos 0
entry_share-nil company owner = elim (Bool-cases (owner == company)) [
  | inl mine ↦ rw mine (omega int_laws)
  | inr not_mine ↦ rw not_mine
]

entry_share-cons :
    (company owner : ℕ) (l : JournalEntryLine) (ls : List JournalEntryLine)
    → entry_share company owner (l ∷ ls)
      ≡ line_share company owner l +ℤ entry_share company owner ls
entry_share-cons company owner l ls = elim (Bool-cases (owner == company)) [
  | inl mine ↦ rw mine (omega int_laws)
  | inr not_mine ↦ rw not_mine (sym (+ℤ_zero (pos 0)))
]

-- The lines of an entry move the trial balance of its company by debits less credits, and that of
-- no other company.
pub trial_balance-post_lines :
    (company owner : ℕ) (lines : List JournalEntryLine) (table : List Account)
    → IsUnique table
    → All (IsOwned owner table) lines
    → trial_balance company (map (post_lines lines) table)
      ≡ trial_balance company table +ℤ entry_share company owner lines
trial_balance-post_lines company owner [] table unique owned =
    ap (trial_balance company) (post_lines-nil table)
    ∙ sym (+ℤ_zero (trial_balance company table))
    ∙ ap (λ d. trial_balance company table +ℤ d) (sym (entry_share-nil company owner))
trial_balance-post_lines company owner (l ∷ ls) table unique ((a, found, mine), owned) =
    ap (trial_balance company) (post_lines-cons l ls table)
    ∙ trial_balance-post_lines company owner ls (map (post_line l) table)
        (post_line-IsUnique l table unique) (All-map _ _ (post_line-IsOwned owner l table) ls owned)
    ∙ ap (λ t. t +ℤ entry_share company owner ls)
        (trial_balance-post_line company l table a unique found
          ∙ ap (λ o. trial_balance company table +ℤ line_share company o l) mine)
    ∙ +ℤ_assoc (trial_balance company table) (line_share company owner l)
        (entry_share company owner ls)
    ∙ ap (λ d. trial_balance company table +ℤ d) (sym (entry_share-cons company owner l ls))
