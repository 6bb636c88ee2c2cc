-- ===== src/Reconciliations/Remove/Valid.antt =====
-- Undoing the newest reconciliation of an account keeps the books valid.
use mathlib.Core.Path.{subst}
use fin_matrix_backend.Prelude.{
  ℕ, ◌≡◌, refl, sym, ◌∙◌, Bool, true, false, ◌&&◌, ◌||◌, Option, none, some, List, [], ◌∷◌, map,
  All, All-map, All-intro, All-both, All-map_of, any, arith, Bool-cases, inl, inr, ◌==◌, find, ◌⊎◌,
  eq_of_some, ok, ==→eq, eq→==,
}
use fin_matrix_backend.Money.{Decimals}
use fin_matrix_backend.Reconciliations.{LedgerRow, Reconciliation, Books, is_for, is_stamped}
use fin_matrix_backend.Reconciliations.Statements.{
  stamped_with, unstamp, unstamp_of, is_newer, without, audit_of, remove,
}
use fin_matrix_backend.Reconciliations.Chain.{
  has_id, Follows, BelongsTo, Carries, Chained, stamped_in, IsValid, none_in,
}
use fin_matrix_backend.Reconciliations.Rows.{
  Keeps, change_if-Keeps, unstamp-Keeps, map-HasUniqueIds, map-RowIsMoney, KeepsStamp, map-Carries,
  map-Chained,
}
use fin_matrix_backend.Reconciliations.Remove.{
  is_asked, Removable, without_recon, found_is_asked, remove_inv, only_found, closing-without,
  has_id-without, All-without, without_absent, stamped_in-without, not_of_account,
}

module _ (lib : Decimals) (gs : List LedgerRow) (company_id id : ℕ) (recon : Reconciliation)
    (has_asked : (recon.id ≡ id) × (recon.company_id ≡ company_id)) where
  abbrev released : LedgerRow → LedgerRow
  released = unstamp_of company_id id

  released-Keeps : Keeps released
  released-Keeps =
      change_if-Keeps (λ g. (g.entry.company_id == company_id) && stamped_with id g) unstamp
        unstamp-Keeps

  keeps_stamp :
      (r : Reconciliation)
      → (r.id == id) ≡ false
      → (g : LedgerRow) → KeepsStamp released released-Keeps r g
  keeps_stamp r other g =
      elim (Bool-cases ((g.entry.company_id == company_id) && stamped_with id g)) [
        | inl hit ↦ rw hit (
            sym (
              other_stamp g.entry.reconciliation_id
                (stamp_of (g.entry.company_id == company_id) hit)))
        | inr miss ↦ rw miss
      ]
    where
      stamp_of : (b : Bool) {s : Bool} → (b && s) ≡ true → s ≡ true
      stamp_of true h = h
      stamp_of false h = absurd (cc h)

      other_stamp :
          (s : Option ℕ)
          → (elim s [ none ↦ false | some j ↦ j == id ]) ≡ true
          → (elim s [ none ↦ false | some j ↦ j == r.id ]) ≡ false
      other_stamp none e = refl
      other_stamp (some j) e = ground arith

  stamps_kept :
      (rs : List Reconciliation)
      → has_id id rs ≡ false
      → All (λ r. All (KeepsStamp released released-Keeps r) gs) rs
  stamps_kept [] absent = tt
  stamps_kept (r ∷ rs) absent =
      let other : (r.id == id) ≡ false = ground arith in
      (
        All-intro (KeepsStamp released released-Keeps r) (keeps_stamp r other) gs,
        stamps_kept rs (ground arith),
      )

  or_false : (b : Bool) {c : Bool} → (b || c) ≡ false → (b ≡ false) × (c ≡ false)
  or_false true h = absurd (cc h)
  or_false false h = (refl, h)

  -- An older or foreign reconciliation carries what it carried.
  kept :
      (q : Reconciliation) (rs : List Reconciliation)
      → Carries lib gs q rs
      → (q.id == id) ≡ false
      → is_newer company_id recon q ≡ false
      → All (λ (x : Reconciliation). (x.id == id) ≡ true → x ≡ recon) rs
      → Carries lib (map released gs) q (without id rs)
  kept q rs h other newer only =
      let before =
        map-Carries released released-Keeps lib gs q rs
          (All-intro (KeepsStamp released released-Keeps q) (keeps_stamp q other) gs) h in
      let same_closing = closing-without q.company_id q.account_id id rs (
        All-map (λ (x : Reconciliation). Follows q x × ((x.id == id) ≡ true → x ≡ recon))
          (λ (x : Reconciliation). (x.id == id) ≡ true → is_for q.company_id q.account_id x ≡ false)
          (λ x f same. foreign x f.0 (f.1 same)) rs
          (All-both (Follows q) (λ (x : Reconciliation). (x.id == id) ≡ true → x ≡ recon) rs
            h.follows only)) in
      record {
        carried = rw same_closing before.carried;
        begun = rw same_closing before.begun;
        tied = h.tied;
        follows = All-without (Follows q) id rs h.follows;
        belong = before.belong;
        fresh = has_id-without q.id id rs h.fresh;
      }
    where
      foreign :
          (x : Reconciliation)
          → Follows q x
          → x ≡ recon
          → is_for q.company_id q.account_id x ≡ false
      foreign x follows same =
          subst (λ (y : Reconciliation). is_for q.company_id q.account_id y ≡ false) (sym same)
            (not_of_account company_id recon q (ground arith) has_asked.1
              (subst (Follows q) same follows) newer)

  -- The chain without the newest reconciliation of an account, over the rows it releases.
  released-Chained :
      (rs : List Reconciliation)
      → find (is_asked company_id id) rs ≡ some recon
      → any (is_newer company_id recon) rs ≡ false
      → Chained lib gs rs
      → Chained lib (map released gs) (without id rs)
  released-Chained [] found newest h = tt
  released-Chained (q ∷ rs) found newest (h, hs) = elim (Bool-cases (q.id == id)) [
    | inl same ↦
        let absent : has_id id rs ≡ false = rw (==→eq q.id id same) at h.fresh in
        rw (same, without_absent id rs absent)
          (map-Chained released released-Keeps lib gs rs (stamps_kept rs absent) hs)
    | inr other ↦
        let found' : find (is_asked company_id id) rs ≡ some recon = rw other at found in
        let (newer, newest') = or_false (is_newer company_id recon q) newest in
        rw other (
          kept q rs h other newer (only_found lib gs company_id id rs recon hs found'),
          released-Chained rs found' newest' hs,
        )
  ]

  -- The stamps of the rows still refer to reconciliations.
  released_stamps :
      (rs : List Reconciliation) (g : LedgerRow)
      → BelongsTo recon g
      → is_stamped g ≡ stamped_in rs g
      → is_stamped (released g) ≡ stamped_in (without id rs) (released g)
  released_stamps rs g belongs e =
      elim (Bool-cases ((g.entry.company_id == company_id) && stamped_with id g)) [
        | inl hit ↦
            let as_unstamped : released g ≡ unstamp g = rw hit in
            subst (λ h. is_stamped h ≡ stamped_in (without id rs) h) (sym as_unstamped)
              (sym (none_in (without id rs) (unstamp g) refl))
        | inr miss ↦
            let as_before : released g ≡ g = rw miss in
            subst (λ h. is_stamped h ≡ stamped_in (without id rs) h) (sym as_before)
              (e ∙ sym (stamped_in-without id rs g (not_its (Bool-cases (stamped_with id g)) miss)))
      ]
    where
      not_its :
          (stamped_with id g ≡ true) ⊎ (stamped_with id g ≡ false)
          → ((g.entry.company_id == company_id) && stamped_with id g) ≡ false
          → stamped_with id g ≡ false
      not_its (inr no_) miss = no_
      not_its (inl its) miss =
          let place = belongs (subst (λ k. stamped_with k g ≡ true) (sym has_asked.0) its) in
          let hit : (g.entry.company_id == company_id) ≡ true =
            eq→== g.entry.company_id company_id (place.0 ∙ has_asked.1) in
          absurd (cc (rw (hit, its) at miss))

  found_belongs :
      (rs : List Reconciliation)
      → find (is_asked company_id id) rs ≡ some recon
      → Chained lib gs rs
      → All (BelongsTo recon) gs
  found_belongs [] found h = absurd (cc found)
  found_belongs (q ∷ rs) found (h, hs) = elim (Bool-cases (is_asked company_id id q)) [
    | inl hit ↦
        let same : q ≡ recon = eq_of_some (rw hit at found) in
        subst (λ (r : Reconciliation). All (BelongsTo r) gs) same h.belong
    | inr miss ↦ found_belongs rs (rw miss at found) hs
  ]

-- Undoing a reconciliation keeps the books valid.
pub remove-IsValid :
    (lib : Decimals) (books : Books) (company_id id : ℕ) (actor : Option ℕ) (books' : Books)
    → IsValid lib books
    → remove books company_id id actor ≡ ok books'
    → IsValid lib books'
remove-IsValid lib books company_id id actor books' valid h =
    let (recon, checked, effect) = remove_inv books company_id id actor books' h in
    let asked = found_is_asked company_id id books.reconciliations recon checked.is_found in
    subst (IsValid lib) effect (after recon checked asked)
  where
    after :
        (recon : Reconciliation)
        → Removable books company_id id recon
        → (asked : (recon.id ≡ id) × (recon.company_id ≡ company_id))
        → IsValid lib (
            without_recon books company_id id recon
              (audit_of company_id actor id recon ∷ books.audit))
    after recon checked asked =
        let keeps = released-Keeps lib books.ledger company_id id recon asked in
        let belong =
          found_belongs lib books.ledger company_id id recon asked books.reconciliations
            checked.is_found valid.chained in
        record {
          ids = map-HasUniqueIds (unstamp_of company_id id) keeps books.ledger valid.ids;
          money = map-RowIsMoney (unstamp_of company_id id) keeps lib books.ledger valid.money;
          stamps =
              subst
                (λ k.
                  All (λ g. is_stamped g ≡ stamped_in (without k books.reconciliations) g)
                    (map (unstamp_of company_id id) books.ledger))
                (sym asked.0)
                (All-map_of (λ g. is_stamped g ≡ stamped_in (without id books.reconciliations) g)
                  (unstamp_of company_id id) books.ledger
                  (All-map
                    (λ g. BelongsTo recon g × (is_stamped g ≡ stamped_in books.reconciliations g))
                    (λ g.
                      is_stamped (unstamp_of company_id id g)
                      ≡ stamped_in (without id books.reconciliations) (unstamp_of company_id id g))
                    (λ g h.
                      released_stamps lib books.ledger company_id id recon asked
                        books.reconciliations g h.0 h.1)
                    books.ledger
                    (All-both (BelongsTo recon)
                      (λ g. is_stamped g ≡ stamped_in books.reconciliations g) books.ledger belong
                      valid.stamps)));
          chained =
              subst
                (λ k.
                  Chained lib (map (unstamp_of company_id id) books.ledger)
                    (without k books.reconciliations))
                (sym asked.0)
                (released-Chained lib books.ledger company_id id recon asked books.reconciliations
                  checked.is_found checked.newest valid.chained);
        }
