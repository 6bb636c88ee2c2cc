-- ===== src/Reconciliations/Sums.antt =====
-- Sums of the amounts of ledger rows: under a change of the rows, and over parts of them.
use mathlib.Core.Path.{subst}
use fin_matrix_backend.Prelude.{
  ℕ, ◌≡◌, refl, sym, ◌∙◌, Bool, true, false, ◌&&◌, ◌||◌, List, [], ◌∷◌, map, filter, All, arith,
  if◌then◌else◌, Bool-cases, inl, inr, contains, ◌==◌,
}
use fin_matrix_backend.Prelude.Int.{ℤ, pos, ◌+ℤ◌, int_laws, zero_+ℤ}
use fin_matrix_backend.Money.{Decimals, IsMoney}
use fin_matrix_backend.Reconciliations.{LedgerRow, row_amount, sum_where}
use fin_matrix_backend.Reconciliations.Statements.{net_of_entries, ids_of}

-- What the code changes in a row leaves its row_amount alone.
abbrev pub KeepsAmounts : (LedgerRow → LedgerRow) → Type 0
KeepsAmounts f = (g : LedgerRow) → row_amount (f g) ≡ row_amount g

pub sum_where-map :
    (p q : LedgerRow → Bool) (f : LedgerRow → LedgerRow)
    → KeepsAmounts f
    → (gs : List LedgerRow) → All (λ g. p (f g) ≡ q g) gs
    → sum_where p (map f gs) ≡ sum_where q gs
sum_where-map p q f keeps [] h = refl
sum_where-map p q f keeps (g ∷ gs) (h, hs) = rw (h, keeps g, sum_where-map p q f keeps gs hs)

pub sum_where_cong :
    (p q : LedgerRow → Bool) (gs : List LedgerRow)
    → All (λ g. p g ≡ q g) gs
    → sum_where p gs ≡ sum_where q gs
sum_where_cong p q [] h = refl
sum_where_cong p q (g ∷ gs) (h, hs) = rw (h, sum_where_cong p q gs hs)

pub sum_where_none :
    (p : LedgerRow → Bool) (gs : List LedgerRow)
    → All (λ g. p g ≡ false) gs
    → sum_where p gs ≡ pos 0
sum_where_none p [] h = refl
sum_where_none p (g ∷ gs) (h, hs) = rw (h, sum_where_none p gs hs) (zero_+ℤ (pos 0))

-- Two conditions that no row meets together, and that make up a third.
abbrev pub Splits : Bool → Bool → Bool → Type 0
Splits b c d = (b ≡ (c || d)) × ((c && d) ≡ false)

add_apart :
    (b c d : Bool) (a x y : ℤ)
    → Splits b c d
    → (if b then a else pos 0) +ℤ (x +ℤ y)
      ≡ ((if c then a else pos 0) +ℤ x) +ℤ ((if d then a else pos 0) +ℤ y)
add_apart b true true a x y h = cc
add_apart b true false a x y h = rw h.0 (omega int_laws)
add_apart b false true a x y h = rw h.0 (omega int_laws)
add_apart b false false a x y h = rw h.0 (omega int_laws)

pub sum_where_split :
    (p q r : LedgerRow → Bool) (gs : List LedgerRow)
    → All (λ g. Splits (p g) (q g) (r g)) gs
    → sum_where p gs ≡ sum_where q gs +ℤ sum_where r gs
sum_where_split p q r [] h = omega int_laws
sum_where_split p q r (g ∷ gs) (h, hs) =
    rw (sum_where_split p q r gs hs)
      (add_apart (p g) (q g) (r g) (row_amount g) (sum_where q gs) (sum_where r gs) h)

pub net_of_entries-filter :
    (p : LedgerRow → Bool) (gs : List LedgerRow) → net_of_entries (filter p gs) ≡ sum_where p gs
net_of_entries-filter p [] = refl
net_of_entries-filter p (g ∷ gs) = elim (Bool-cases (p g)) [
  | inl hit ↦ rw (hit, net_of_entries-filter p gs)
  | inr miss ↦ rw (miss, net_of_entries-filter p gs) (sym (zero_+ℤ (sum_where p gs)))
]

-- The columns of a row hold money.
abbrev pub RowIsMoney : Decimals → LedgerRow → Type 0
RowIsMoney lib g = IsMoney lib g.entry.debit × IsMoney lib g.entry.credit

pub sum_where-IsMoney :
    (lib : Decimals) (p : LedgerRow → Bool) (gs : List LedgerRow)
    → All (RowIsMoney lib) gs
    → IsMoney lib (sum_where p gs)
sum_where-IsMoney lib p [] h = lib.fixed_zero
sum_where-IsMoney lib p (g ∷ gs) (h, hs) = elim (Bool-cases (p g)) [
  | inl hit ↦ rw hit (
      lib.fixed_add (row_amount g) (sum_where p gs)
        (lib.fixed_sub g.entry.debit g.entry.credit h.0 h.1) (sum_where-IsMoney lib p gs hs))
  | inr miss ↦
      rw miss
        (lib.fixed_add (pos 0) (sum_where p gs) lib.fixed_zero (sum_where-IsMoney lib p gs hs))
]

-- Ids are a primary key.
abbrev pub HasUniqueIds : List LedgerRow → Type 0
HasUniqueIds [] = Unit
HasUniqueIds (g ∷ gs) = (contains g.id (ids_of gs) ≡ false) × HasUniqueIds gs

others :
    (k : ℕ) (gs : List LedgerRow)
    → contains k (ids_of gs) ≡ false
    → All (λ (g : LedgerRow). (g.id == k) ≡ false) gs
others k [] h = tt
others k (g ∷ gs) h = (ground arith, others k gs (ground arith))

not_filtered :
    (k : ℕ) (p : LedgerRow → Bool) (gs : List LedgerRow)
    → contains k (ids_of gs) ≡ false
    → contains k (ids_of (filter p gs)) ≡ false
not_filtered k p [] h = refl
not_filtered k p (g ∷ gs) h =
    let rest = not_filtered k p gs (ground arith) in
    elim (Bool-cases (p g)) [ inl hit ↦ rw hit (ground arith) | inr miss ↦ rw miss rest ]

head_listed : (k : ℕ) (ids : List ℕ) → contains k (k ∷ ids) ≡ true
head_listed k ids = ground arith

abbrev pub PicksOut : (LedgerRow → Bool) → List LedgerRow → List ℕ → Type 0
PicksOut p gs ids = All (λ (g : LedgerRow). contains g.id ids ≡ p g) gs

with_head :
    (p : LedgerRow → Bool) (k : ℕ) (hs : List LedgerRow) (ids : List ℕ)
    → All (λ (h : LedgerRow). (h.id == k) ≡ false) hs
    → PicksOut p hs ids
    → PicksOut p hs (k ∷ ids)
with_head p k [] ids a b = tt
with_head p k (h ∷ hs) ids (a, as_) (b, bs) = (rw (a, b), with_head p k hs ids as_ bs)

-- To pick rows by the ids of those that meet a condition is to pick those.
pub listed_iff :
    (p : LedgerRow → Bool) (gs : List LedgerRow)
    → HasUniqueIds gs
    → PicksOut p gs (ids_of (filter p gs))
listed_iff p [] h = tt
listed_iff p (g ∷ gs) (fresh, hs) =
    let rest = listed_iff p gs hs in
    elim (Bool-cases (p g)) [
      | inl hit ↦
          let ids : ids_of (filter p (g ∷ gs)) ≡ g.id ∷ ids_of (filter p gs) = rw hit in
          subst (PicksOut p (g ∷ gs)) (sym ids) (
            head_listed g.id (ids_of (filter p gs)) ∙ sym hit,
            with_head p g.id gs (ids_of (filter p gs)) (others g.id gs fresh) rest,
          )
      | inr miss ↦
          let ids : ids_of (filter p (g ∷ gs)) ≡ ids_of (filter p gs) = rw miss in
          subst (PicksOut p (g ∷ gs)) (sym ids) (not_filtered g.id p gs fresh ∙ sym miss, rest)
    ]
