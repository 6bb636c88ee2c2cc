-- ===== src/Posting/Apply/Deltas.antt =====
-- What the deltas of `applyPosting` add up to, account by account.
use mathlib.Core.Path.{subst}
use fin_matrix_backend.Prelude.{
  ℕ, ◌≡◌, refl, Option, none, some, List, [], ◌∷◌, ◌==◌, if◌then◌else◌, or_else, All, arith, ok,
  inl, inr, ◌≢◌, Option-cases, Bool-cases, ok-injective,
}
use fin_matrix_backend.Prelude.Int.{ℤ, pos, ◌+ℤ◌, int_laws}
use fin_matrix_backend.Money.{Decimals, IsMoney}
use fin_matrix_backend.Store.{
  AccountType, asset, liability, equity, revenue, expense, Account, JournalEntryLine,
}
use fin_matrix_backend.Posting.Apply.{
  signed_delta, account_of, add_delta, get_delta, put_delta, collect_deltas,
}

-- What a line moves the balance of an account by.
abbrev pub line_delta : Account → JournalEntryLine → ℤ
line_delta a l = if l.account_id == a.id then signed_delta a.kind l.debit l.credit else pos 0

abbrev pub posted_delta : Account → List JournalEntryLine → ℤ
posted_delta a [] = pos 0
posted_delta a (l ∷ ls) = line_delta a l +ℤ posted_delta a ls

-- The sum of all deltas that stand under an id.
abbrev pub total_of : ℕ → List (ℕ × ℤ) → ℤ
total_of id [] = pos 0
total_of id ((j, d) ∷ m) = (if id == j then d else pos 0) +ℤ total_of id m

abbrev pub known : Option ℤ → ℤ
known o = or_else o (pos 0)

pub get_delta-add_delta :
    (id k : ℕ) (d : ℤ) (m : List (ℕ × ℤ))
    → known (get_delta id (add_delta k d m))
      ≡ known (get_delta id m) +ℤ (if k == id then d else pos 0)
unfolding get_delta add_delta
get_delta-add_delta id k d [] = grind int_laws
get_delta-add_delta id k d ((j, e) ∷ m) = grind (int_laws, get_delta-add_delta id k d m)

pub total_of-add_delta :
    (id k : ℕ) (d : ℤ) (m : List (ℕ × ℤ))
    → total_of id (add_delta k d m) ≡ total_of id m +ℤ (if k == id then d else pos 0)
unfolding add_delta
total_of-add_delta id k d [] = grind int_laws
total_of-add_delta id k d ((j, e) ∷ m) = grind (int_laws, total_of-add_delta id k d m)

pub get_delta-put_delta :
    (id k : ℕ) (v : ℤ) (m : List (ℕ × ℤ))
    → get_delta id (put_delta k v m) ≡ (if k == id then some v else get_delta id m)
unfolding get_delta put_delta
get_delta-put_delta id k v [] = ground arith
get_delta-put_delta id k v ((j, e) ∷ m) = ground (arith, get_delta-put_delta id k v m)

pub account_of_id :
    (id : ℕ) (accounts : List Account) (a : Account) → account_of id accounts ≡ some a → a.id ≡ id
account_of_id id [] a h = ground arith
account_of_id id (x ∷ xs) a h = ground (arith, account_of_id id xs a)

-- What holds of both summaries of the map of deltas: `collect_deltas` adds to the summary of an id
-- what the lines post to its account.
module _ (id : ℕ) (summary : List (ℕ × ℤ) → ℤ)
    (adds : (k : ℕ) (d : ℤ) (m : List (ℕ × ℤ))
      → summary (add_delta k d m) ≡ summary m +ℤ (if k == id then d else pos 0)) where
  pub collect_deltas-summary :
      (accounts : List Account) (lines : List JournalEntryLine) (m m' : List (ℕ × ℤ)) (a : Account)
      → account_of id accounts ≡ some a
      → collect_deltas accounts lines m ≡ ok m'
      → summary m' ≡ summary m +ℤ posted_delta a lines
  unfolding collect_deltas
  collect_deltas-summary accounts [] m m' a known_a h = grind int_laws
  collect_deltas-summary accounts (l ∷ ls) m m' a known_a h =
      elim (Option-cases (account_of l.account_id accounts)) [
        | inl missing ↦ absurd (ground arith)
        | inr (b, e) ↦
            let d = signed_delta b.kind l.debit l.credit in
            let rest : collect_deltas accounts ls (add_delta l.account_id d m) ≡ ok m' =
              ground arith in
            grind (
              int_laws,
              collect_deltas-summary accounts ls (add_delta l.account_id d m) m' a known_a rest,
              adds l.account_id d m,
              account_of_id id accounts a known_a,
            )
      ]

  pub collect_deltas-untouched :
      (accounts : List Account) (lines : List JournalEntryLine) (m m' : List (ℕ × ℤ))
      → account_of id accounts ≡ none
      → collect_deltas accounts lines m ≡ ok m'
      → summary m' ≡ summary m
  unfolding collect_deltas
  collect_deltas-untouched accounts [] m m' gone h = grind int_laws
  collect_deltas-untouched accounts (l ∷ ls) m m' gone h =
      elim (Option-cases (account_of l.account_id accounts)) [
        | inl missing ↦ absurd (ground arith)
        | inr (b, e) ↦
            let d = signed_delta b.kind l.debit l.credit in
            let rest : collect_deltas accounts ls (add_delta l.account_id d m) ≡ ok m' =
              ground arith in
            let other : l.account_id ≢ id = λ same_id. absurd (ground arith) in
            grind (
              int_laws,
              collect_deltas-untouched accounts ls (add_delta l.account_id d m) m' gone rest,
              adds l.account_id d m,
            )
      ]

-- An account that the lines do not find is on none of them.
pub posted_delta-untouched :
    (accounts : List Account) (lines : List JournalEntryLine) (m m' : List (ℕ × ℤ)) (a : Account)
    → account_of a.id accounts ≡ none
    → collect_deltas accounts lines m ≡ ok m'
    → posted_delta a lines ≡ pos 0
unfolding collect_deltas
posted_delta-untouched accounts [] m m' a gone h = refl
posted_delta-untouched accounts (l ∷ ls) m m' a gone h =
    elim (Option-cases (account_of l.account_id accounts)) [
      | inl missing ↦ absurd (ground arith)
      | inr (b, e) ↦
          let d = signed_delta b.kind l.debit l.credit in
          let rest : collect_deltas accounts ls (add_delta l.account_id d m) ≡ ok m' =
            ground arith in
          let other : l.account_id ≢ a.id = λ same_id. absurd (ground arith) in
          grind (
            int_laws,
            posted_delta-untouched accounts ls (add_delta l.account_id d m) m' a gone rest,
          )
    ]

-- Every account of a line was there.
abbrev pub IsFound : List Account → JournalEntryLine → Type 0
IsFound accounts l = (a : Account) × (account_of l.account_id accounts ≡ some a)

pub collect_deltas-IsFound :
    (accounts : List Account) (lines : List JournalEntryLine) (m m' : List (ℕ × ℤ))
    → collect_deltas accounts lines m ≡ ok m'
    → All (IsFound accounts) lines
unfolding collect_deltas
collect_deltas-IsFound accounts [] m m' h = tt
collect_deltas-IsFound accounts (l ∷ ls) m m' h =
    elim (Option-cases (account_of l.account_id accounts)) [
      | inl missing ↦ absurd (ground arith)
      | inr (b, e) ↦
          let d = signed_delta b.kind l.debit l.credit in
          let rest : collect_deltas accounts ls (add_delta l.account_id d m) ≡ ok m' =
            ground arith in
          ((b, e), collect_deltas-IsFound accounts ls (add_delta l.account_id d m) m' rest)
    ]

module _ (lib : Decimals) where
  open lib use {fixed_add, fixed_sub}

  abbrev pub IsMoneyLine : JournalEntryLine → Type 0
  IsMoneyLine l = IsMoney lib l.debit × IsMoney lib l.credit

  abbrev pub AreMoney : List (ℕ × ℤ) → Type 0
  AreMoney = All λ (p : ℕ × ℤ). IsMoney lib p.1

  pub signed_delta-IsMoney :
      (k : AccountType) (d c : ℤ) → IsMoney lib d → IsMoney lib c → IsMoney lib (signed_delta k d c)
  unfolding signed_delta
  signed_delta-IsMoney asset d c p q = fixed_sub d c p q
  signed_delta-IsMoney expense d c p q = fixed_sub d c p q
  signed_delta-IsMoney liability d c p q = fixed_sub c d q p
  signed_delta-IsMoney equity d c p q = fixed_sub c d q p
  signed_delta-IsMoney revenue d c p q = fixed_sub c d q p

  add_delta-AreMoney :
      (k : ℕ) (d : ℤ) (m : List (ℕ × ℤ)) → IsMoney lib d → AreMoney m → AreMoney (add_delta k d m)
  unfolding add_delta
  add_delta-AreMoney k d [] p h = (p, tt)
  add_delta-AreMoney k d ((j, e) ∷ m) p h = elim (Bool-cases (k == j)) [
    | inl hit ↦ rw hit (fixed_add e d h.0 p, h.1)
    | inr miss ↦ rw miss (h.0, add_delta-AreMoney k d m p h.1)
  ]

  pub collect_deltas-AreMoney :
      (accounts : List Account) (lines : List JournalEntryLine) (m m' : List (ℕ × ℤ))
      → All IsMoneyLine lines
      → AreMoney m
      → collect_deltas accounts lines m ≡ ok m'
      → AreMoney m'
  unfolding collect_deltas
  collect_deltas-AreMoney accounts [] m m' p q h = subst AreMoney (ok-injective h) q
  collect_deltas-AreMoney accounts (l ∷ ls) m m' p q h =
      elim (Option-cases (account_of l.account_id accounts)) [
        | inl missing ↦ absurd (ground arith)
        | inr (b, e) ↦
            let d = signed_delta b.kind l.debit l.credit in
            let rest : collect_deltas accounts ls (add_delta l.account_id d m) ≡ ok m' =
              ground arith in
            let (pd, pc) = p.0 in
            collect_deltas-AreMoney accounts ls (add_delta l.account_id d m) m' p.1
              (add_delta-AreMoney l.account_id d m (signed_delta-IsMoney b.kind _ _ pd pc) q) rest
      ]
