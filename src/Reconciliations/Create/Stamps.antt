-- ===== src/Reconciliations/Create/Stamps.antt =====
-- What a new reconciliation does to rows, dates and balances, one at a time.
use mathlib.Core.Path.{subst}
use fin_matrix_backend.Prelude.{
  ℕ, suc, ◌≤◌, ◌≡◌, sym, ◌∙◌, Bool, true, false, List, [], ◌∷◌, All, All-map, All-intro, arith,
  Bool-cases, inl, inr, ◌==◌, ltb,
}
use fin_matrix_backend.Prelude.Int.{
  ℤ, pos, negsuc, ◌+ℤ◌, ◌-ℤ◌, ◌≤ℤ◌, leb_ℤ, abs, int_laws, +ℤ_parts, -ℤ_parts,
}
use fin_matrix_backend.Money.{Decimals, IsMoney, money_equals}
use fin_matrix_backend.Reconciliations.{LedgerRow, Reconciliation, is_for, is_stamped}
use fin_matrix_backend.Reconciliations.Statements.{stamped_with, is_out_of_order, stamp}
use fin_matrix_backend.Reconciliations.Chain.{
  has_id, Follows, Chained, stamped_in, one_stamp, place_of, not_stamped_with,
}
use fin_matrix_backend.Reconciliations.Latest.{newest}
use fin_matrix_backend.Reconciliations.Rows.{change_if, change_if-Keeps, stamp-Keeps, KeepsStamp}

is_near : (d : ℤ) (u : ℕ) → d ≤ℤ pos u → pos 0 ≤ℤ d +ℤ pos u → leb_ℤ (abs d) (pos u) ≡ true
is_near (pos n) u a b = ground arith
is_near (negsuc n) u a b =
    let c : suc n ≤ u = omega (arith, +ℤ_parts (negsuc n) (pos u)) in ground arith

distance_le :
    (lib : Decimals) (x y : ℤ) → money_equals lib x y ≡ true → abs (x -ℤ y) ≤ℤ pos lib.unit
distance_le lib x y h = ground arith

-- To a cleared balance that is money, the statement is as near once it is stored.
pub fixed_near :
    (lib : Decimals) (x y : ℤ)
    → IsMoney lib y
    → money_equals lib (x -ℤ y) (pos 0) ≡ true
    → money_equals lib y (lib.to_fixed x) ≡ true
fixed_near lib x y m h =
    let d = distance_le lib (x -ℤ y) (pos 0) h in
    let below =
      lib.to_fixed_mono (y -ℤ pos lib.unit) x
        (omega (int_laws, -ℤ_parts (x -ℤ y) (pos 0), -ℤ_parts x y)) in
    let above =
      lib.to_fixed_mono x (y +ℤ pos lib.unit)
        (omega (int_laws, -ℤ_parts (x -ℤ y) (pos 0), -ℤ_parts x y)) in
    near (lib.to_fixed x) (rw (lib.fixed_sub y (pos lib.unit) m lib.fixed_unit) at below)
      (rw (lib.fixed_add y (pos lib.unit) m lib.fixed_unit) at above)
  where
    near : (z : ℤ) → y -ℤ pos lib.unit ≤ℤ z → z ≤ℤ y +ℤ pos lib.unit → money_equals lib y z ≡ true
    near z a b = is_near (y -ℤ z) lib.unit (omega int_laws) (omega int_laws)

-- A date that is in order is not before any statement of the account.
pub dated_in_order :
    (lib : Decimals) (c a d : ℕ) (gs : List LedgerRow) (rs : List Reconciliation)
    → Chained lib gs rs
    → is_out_of_order d (newest c a rs) ≡ false
    → All (λ q. is_for c a q ≡ true → q.statement_date ≤ d) rs
dated_in_order lib c a d gs [] h order = tt
dated_in_order lib c a d gs (r ∷ rs) (h, hs) order = elim (Bool-cases (is_for c a r)) [
  | inl mine ↦
      let here : r.statement_date ≤ d = in_order (rw mine at order) in
      let (ec, ea) = place_of c a r mine in
      (
        λ _. here,
        All-map (Follows r) (λ q. is_for c a q ≡ true → q.statement_date ≤ d)
            (λ q follows of_account.
              let older = follows (rw (ec, ea) of_account) in omega (arith, older.0, here))
            rs h.follows,
      )
  | inr other ↦
      (λ mine. absurd (cc (mine, other)), dated_in_order lib c a d gs rs hs (rw other at order))
]
  where
    in_order : ltb d r.statement_date ≡ false → r.statement_date ≤ d
    in_order h = ground arith

-- The stamp of a new reconciliation is on no row yet.
pub unused :
    (id : ℕ) (rs : List Reconciliation) (g : LedgerRow)
    → has_id id rs ≡ false
    → is_stamped g ≡ stamped_in rs g
    → stamped_with id g ≡ false
unused id rs g fresh e = elim (Bool-cases (stamped_with id g)) [
  | inl s ↦ not_stamped_with g id (e ∙ one_stamp id rs g fresh s)
  | inr s ↦ s
]

-- Rows that have no stamp are stamped anew; the others keep theirs.
module _ (p : LedgerRow → Bool) (id : ℕ)
    (unstamped : (g : LedgerRow) → p g ≡ true → is_stamped g ≡ false) where
  pub stamp_other :
      (j : ℕ) (g : LedgerRow)
      → (j == id) ≡ false
      → stamped_with j (change_if p (stamp id) g) ≡ stamped_with j g
  stamp_other j g other = elim (Bool-cases (p g)) [
    | inl hit ↦ rw (hit, not_stamped_with g j (unstamped g hit)) (ground arith)
    | inr miss ↦ rw miss
  ]

  pub stamp_this :
      (g : LedgerRow) → stamped_with id g ≡ false → stamped_with id (change_if p (stamp id) g) ≡ p g
  stamp_this g not_yet = elim (Bool-cases (p g)) [
    | inl hit ↦ rw hit (ground arith)
    | inr miss ↦ rw miss not_yet
  ]

  pub stamps_after :
      (rs : List Reconciliation) (r : Reconciliation) (g : LedgerRow)
      → r.id ≡ id
      → stamped_with id g ≡ false
      → is_stamped g ≡ stamped_in rs g
      → is_stamped (change_if p (stamp id) g) ≡ stamped_in (r ∷ rs) (change_if p (stamp id) g)
  stamps_after rs r g same not_yet e = elim (Bool-cases (p g)) [
    | inl hit ↦ rw (hit, same) (ground arith)
    | inr miss ↦
        let as_before : change_if p (stamp id) g ≡ g = rw miss in
        subst (λ h. is_stamped h ≡ stamped_in (r ∷ rs) h) (sym as_before) (rw (same, not_yet) e)
  ]

  pub keeps_stamps :
      (gs : List LedgerRow) (rs : List Reconciliation)
      → has_id id rs ≡ false
      → All
          (λ r.
            All
              (KeepsStamp
                (change_if p (stamp id))
                (change_if-Keeps p (stamp id) (stamp-Keeps id))
                r)
              gs)
          rs
  keeps_stamps gs [] fresh = tt
  keeps_stamps gs (r ∷ rs) fresh =
      let other : (r.id == id) ≡ false = ground arith in
      (
        All-intro (λ g. stamped_with r.id (change_if p (stamp id) g) ≡ stamped_with r.id g)
            (λ g. stamp_other r.id g other) gs,
        keeps_stamps gs rs (ground arith),
      )
