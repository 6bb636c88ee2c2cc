-- ===== src/Reconciliations/Rows.antt =====
-- Changes of the rows that leave all but ticks and stamps alone, and what they keep.
use fin_matrix_backend.Prelude.{
  ℕ, ◌≡◌, refl, sym, ap, ◌∙◌, Bool, List, [], ◌∷◌, map, All, Bool-cases, inl, inr, if◌then◌else◌,
}
use fin_matrix_backend.Prelude.Int.{◌+ℤ◌}
use fin_matrix_backend.Money.{Decimals}
use fin_matrix_backend.Reconciliations.{LedgerRow, Reconciliation, row_amount}
use fin_matrix_backend.Reconciliations.Statements.{stamped_with, ids_of, stamp, unstamp}
use fin_matrix_backend.Reconciliations.Sums.{sum_where-map, RowIsMoney, HasUniqueIds}
use fin_matrix_backend.Reconciliations.Chain.{closing, Carries, Chained, BelongsTo}

pub record SameRow (g h : LedgerRow) : Type 0 where
  pub id : g.id ≡ h.id
  pub debit : g.entry.debit ≡ h.entry.debit
  pub credit : g.entry.credit ≡ h.entry.credit
  pub company_id : g.entry.company_id ≡ h.entry.company_id
  pub account_id : g.entry.account_id ≡ h.entry.account_id

abbrev pub Keeps : (LedgerRow → LedgerRow) → Type 0
Keeps f = (g : LedgerRow) → SameRow (f g) g

pub SameRow-refl : (g : LedgerRow) → SameRow g g
SameRow-refl g = record {
  id = refl;
  debit = refl;
  credit = refl;
  company_id = refl;
  account_id = refl;
}

-- A change of the rows that meet a condition.
abbrev pub change_if : (LedgerRow → Bool) → (LedgerRow → LedgerRow) → LedgerRow → LedgerRow
change_if p f g = if p g then f g else g

pub change_if-Keeps :
    (p : LedgerRow → Bool) (f : LedgerRow → LedgerRow) → Keeps f → Keeps (change_if p f)
change_if-Keeps p f keeps g = elim (Bool-cases (p g)) [
  | inl hit ↦ rw hit (keeps g)
  | inr miss ↦ rw miss (SameRow-refl g)
]

pub stamp-Keeps : (id : ℕ) → Keeps (stamp id)
stamp-Keeps id g = record {
  id = refl;
  debit = refl;
  credit = refl;
  company_id = refl;
  account_id = refl;
}

pub unstamp-Keeps : Keeps unstamp
unstamp-Keeps g = record {
  id = refl;
  debit = refl;
  credit = refl;
  company_id = refl;
  account_id = refl;
}

pub tick-Keeps : (b : Bool) → Keeps (λ g. record g { cleared = b })
tick-Keeps b g = record {
  id = refl;
  debit = refl;
  credit = refl;
  company_id = refl;
  account_id = refl;
}

module _ (f : LedgerRow → LedgerRow) (keeps : Keeps f) where
  pub keeps_amounts : (g : LedgerRow) → row_amount (f g) ≡ row_amount g
  keeps_amounts g = rw ((keeps g).debit, (keeps g).credit)

  pub ids_of-map : (gs : List LedgerRow) → ids_of (map f gs) ≡ ids_of gs
  ids_of-map [] = refl
  ids_of-map (g ∷ gs) = rw ((keeps g).id, ids_of-map gs)

  pub map-HasUniqueIds : (gs : List LedgerRow) → HasUniqueIds gs → HasUniqueIds (map f gs)
  map-HasUniqueIds [] h = tt
  map-HasUniqueIds (g ∷ gs) (h, hs) = (rw ((keeps g).id, ids_of-map gs) h, map-HasUniqueIds gs hs)

  pub map-RowIsMoney :
      (lib : Decimals) (gs : List LedgerRow)
      → All (RowIsMoney lib) gs
      → All (RowIsMoney lib) (map f gs)
  map-RowIsMoney lib [] h = tt
  map-RowIsMoney lib (g ∷ gs) (h, hs) =
      (rw ((keeps g).debit, (keeps g).credit) h, map-RowIsMoney lib gs hs)

  -- The change leaves the stamps of one reconciliation alone.
  abbrev pub KeepsStamp : Reconciliation → LedgerRow → Type 0
  KeepsStamp r g = stamped_with r.id (f g) ≡ stamped_with r.id g

  map-BelongsTo :
      (r : Reconciliation) (gs : List LedgerRow)
      → All (KeepsStamp r) gs
      → All (BelongsTo r) gs
      → All (BelongsTo r) (map f gs)
  map-BelongsTo r [] k h = tt
  map-BelongsTo r (g ∷ gs) (k, ks) (h, hs) = (
    λ s. rw ((keeps g).company_id, (keeps g).account_id) (h (sym k ∙ s)),
    map-BelongsTo r gs ks hs,
  )

  pub map-Carries :
      (lib : Decimals) (gs : List LedgerRow) (r : Reconciliation) (rs : List Reconciliation)
      → All (KeepsStamp r) gs
      → Carries lib gs r rs
      → Carries lib (map f gs) r rs
  map-Carries lib gs r rs k h = record {
    carried =
        h.carried
        ∙ ap (λ n. closing r.company_id r.account_id rs +ℤ n)
            (sym (sum_where-map (stamped_with r.id) (stamped_with r.id) f keeps_amounts gs k));
    begun = h.begun;
    tied = h.tied;
    follows = h.follows;
    belong = map-BelongsTo r gs k h.belong;
    fresh = h.fresh;
  }

  pub map-Chained :
      (lib : Decimals) (gs : List LedgerRow) (rs : List Reconciliation)
      → All (λ r. All (KeepsStamp r) gs) rs
      → Chained lib gs rs
      → Chained lib (map f gs) rs
  map-Chained lib gs [] k h = tt
  map-Chained lib gs (r ∷ rs) (k, ks) (h, hs) =
      (map-Carries lib gs r rs k h, map-Chained lib gs rs ks hs)
