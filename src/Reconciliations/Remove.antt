-- ===== src/Reconciliations/Remove.antt =====
-- Undoing the newest reconciliation of an account keeps the books valid.
pub mod Valid
use mathlib.Core.Path.{subst}
use fin_matrix_backend.Prelude.{
  ℕ, ◌≤◌, ◌<◌, ◌≡◌, refl, sym, ap, ◌∙◌, Bool, true, false, not, ◌&&◌, ◌||◌, Option, none, some,
  List, [], ◌∷◌, map, filter, All, All-map, All-intro, All-both, All-map_of, any, arith, Bool-cases,
  inl, inr, ◌==◌, ltb, if◌then◌else◌, is_some, find, ◌⊎◌, eq_of_some, Result, ok, err, ◌>>=◌, ◌>>◌,
  throw_if, or_throw, unbind, unthrow, ok-injective, ==→eq,
}
use fin_matrix_backend.Prelude.Int.{ℤ, pos}
use fin_matrix_backend.Money.{Decimals}
use fin_matrix_backend.Reconciliations.{
  LedgerRow, Reconciliation, Books, AuditRecord, is_for, is_stamped, comes_after,
  reconciliation_not_found, reconciliation_not_latest,
}
use fin_matrix_backend.Reconciliations.Statements.{
  stamped_with, unstamp, unstamp_of, is_newer, without, audit_of, remove,
}
use fin_matrix_backend.Reconciliations.Chain.{
  closing, has_id, Follows, BelongsTo, Carries, Chained, stamped_in, IsValid, one_stamp,
}
use fin_matrix_backend.Reconciliations.Rows.{
  Keeps, change_if, change_if-Keeps, unstamp-Keeps, map-HasUniqueIds, map-RowIsMoney, KeepsStamp,
  map-Carries, map-Chained,
}

abbrev pub is_asked : ℕ → ℕ → Reconciliation → Bool
is_asked company_id id r = (r.id == id) && (r.company_id == company_id)

-- What `remove` has found and checked.
pub record Removable (books : Books) (company_id id : ℕ) (recon : Reconciliation) : Type 0 where
  pub is_found : find (is_asked company_id id) books.reconciliations ≡ some recon
  pub newest : any (is_newer company_id recon) books.reconciliations ≡ false

abbrev pub without_recon : Books → ℕ → ℕ → Reconciliation → List AuditRecord → Books
without_recon books company_id id recon audit = record books {
  ledger = map (unstamp_of company_id id) books.ledger;
  reconciliations = without recon.id books.reconciliations;
  audit = audit;
}

pub found_is_asked :
    (company_id id : ℕ) (rs : List Reconciliation) (r : Reconciliation)
    → find (is_asked company_id id) rs ≡ some r
    → (r.id ≡ id) × (r.company_id ≡ company_id)
found_is_asked company_id id [] r e = absurd (cc e)
found_is_asked company_id id (q ∷ rs) r e = elim (Bool-cases (is_asked company_id id q)) [
  | inl hit ↦
      let same : q ≡ r = eq_of_some (rw hit at e) in
      let asked : is_asked company_id id r ≡ true = rw same at hit in ground arith
  | inr miss ↦ found_is_asked company_id id rs r (rw miss at e)
]

pub remove_inv :
    (books : Books) (company_id id : ℕ) (actor : Option ℕ) (books' : Books)
    → remove books company_id id actor ≡ ok books'
    → (recon : Reconciliation) × Removable books company_id id recon
      × (without_recon books company_id id recon (audit_of company_id actor id recon ∷ books.audit)
          ≡ books')
unfolding remove
remove_inv books company_id id actor books' h =
    unbind (or_throw (find (is_asked company_id id) books.reconciliations) reconciliation_not_found)
      _ h
      λ recon found rest.
        unthrow (any (is_newer company_id recon) books.reconciliations) reconciliation_not_latest _
          rest
          λ newest last. (
            recon,
            record {
              is_found =
                  of_or_throw (find (is_asked company_id id) books.reconciliations) recon found;
              newest = newest;
            },
            ok-injective last,
          )
  where
    of_or_throw :
        (o : Option Reconciliation) (r : Reconciliation)
        → or_throw o reconciliation_not_found ≡ ok r
        → o ≡ some r
    of_or_throw none r e = cc
    of_or_throw (some q) r e = ap some (ok-injective e)

find_absent :
    (company_id id : ℕ) (rs : List Reconciliation)
    → has_id id rs ≡ false
    → find (is_asked company_id id) rs ≡ none
find_absent company_id id [] h = refl
find_absent company_id id (q ∷ rs) h =
    let other : (q.id == id) ≡ false = ground arith in
    rw other (find_absent company_id id rs (ground arith))

none_has {κ} :
    (P : Reconciliation → Type κ) (id : ℕ) (rs : List Reconciliation)
    → has_id id rs ≡ false
    → All (λ (x : Reconciliation). (x.id == id) ≡ true → P x) rs
none_has P id [] absent = tt
none_has P id (x ∷ xs) absent =
    let other : (x.id == id) ≡ false = ground arith in
    (λ same. absurd (cc (same, other)), none_has P id xs (ground arith))

-- Ids are a primary key: what has the id is what was found.
pub only_found :
    (lib : Decimals) (gs : List LedgerRow) (company_id id : ℕ) (rs : List Reconciliation)
    (recon : Reconciliation)
    → Chained lib gs rs
    → find (is_asked company_id id) rs ≡ some recon
    → All (λ (x : Reconciliation). (x.id == id) ≡ true → x ≡ recon) rs
only_found lib gs company_id id [] recon h e = tt
only_found lib gs company_id id (q ∷ rs) recon (h, hs) e = elim (Bool-cases (q.id == id)) [
  | inl same ↦
      let absent : has_id id rs ≡ false = rw (==→eq q.id id same) at h.fresh in
      (
        λ _. first same absent (Bool-cases (q.company_id == company_id)),
        none_has (λ x. x ≡ recon) id rs absent,
      )
  | inr other ↦ (
    λ same. absurd (cc (same, other)),
    only_found lib gs company_id id rs recon hs (rw other at e),
  )
]
  where
    first :
        (q.id == id) ≡ true
        → has_id id rs ≡ false
        → ((q.company_id == company_id) ≡ true) ⊎ ((q.company_id == company_id) ≡ false)
        → q ≡ recon
    first same absent (inl here) = eq_of_some (rw (same, here) at e)
    first same absent (inr elsewhere) =
        absurd (cc (rw (same, elsewhere) at e, find_absent company_id id rs absent))

pub closing-without :
    (c a id : ℕ) (rs : List Reconciliation)
    → All (λ (x : Reconciliation). (x.id == id) ≡ true → is_for c a x ≡ false) rs
    → closing c a (without id rs) ≡ closing c a rs
closing-without c a id [] h = refl
closing-without c a id (q ∷ rs) (h, hs) = elim (Bool-cases (q.id == id)) [
  | inl same ↦ rw (same, h same) (closing-without c a id rs hs)
  | inr other ↦
      rw other
        (ap (λ x. if is_for c a q then q.cleared_balance else x) (closing-without c a id rs hs))
]

pub has_id-without :
    (k id : ℕ) (rs : List Reconciliation) → has_id k rs ≡ false → has_id k (without id rs) ≡ false
has_id-without k id [] h = refl
has_id-without k id (q ∷ rs) h =
    let rest = has_id-without k id rs (ground arith) in
    elim (Bool-cases (q.id == id)) [
      | inl same ↦ rw same rest
      | inr other ↦ rw (other, rest) (ground arith)
    ]

pub All-without {κ} :
    (P : Reconciliation → Type κ) (id : ℕ) (rs : List Reconciliation)
    → All P rs
    → All P (without id rs)
All-without P id [] h = tt
All-without P id (q ∷ rs) (h, hs) = elim (Bool-cases (q.id == id)) [
  | inl same ↦ rw same (All-without P id rs hs)
  | inr other ↦ rw other (h, All-without P id rs hs)
]

pub without_absent : (id : ℕ) (rs : List Reconciliation) → has_id id rs ≡ false → without id rs ≡ rs
without_absent id [] h = refl
without_absent id (q ∷ rs) h =
    let other : (q.id == id) ≡ false = ground arith in
    rw other (ap (◌∷◌ q) (without_absent id rs (ground arith)))

pub stamped_in-without :
    (id : ℕ) (rs : List Reconciliation) (g : LedgerRow)
    → stamped_with id g ≡ false
    → stamped_in (without id rs) g ≡ stamped_in rs g
stamped_in-without id [] g h = refl
stamped_in-without id (q ∷ rs) g h = elim (Bool-cases (q.id == id)) [
  | inl same ↦ rw (same, ==→eq q.id id same, h) (stamped_in-without id rs g h)
  | inr other ↦ rw other (ap (λ b. stamped_with q.id g || b) (stamped_in-without id rs g h))
]

-- A reconciliation that is kept and not newer is none of the account of the one undone.
pub not_of_account :
    (company_id : ℕ) (recon q : Reconciliation)
    → (q.id == recon.id) ≡ false
    → recon.company_id ≡ company_id
    → Follows q recon
    → is_newer company_id recon q ≡ false
    → is_for q.company_id q.account_id recon ≡ false
not_of_account company_id recon q other of_company follows newest =
    elim (Bool-cases (is_for q.company_id q.account_id recon)) [
      | inl mine ↦ let older = follows mine in absurd (ground arith)
      | inr not_mine ↦ not_mine
    ]

-- What is found and newest is undone.
pub remove_of :
    (books : Books) (company_id id : ℕ) (actor : Option ℕ) (recon : Reconciliation)
    → Removable books company_id id recon
    → remove books company_id id actor
      ≡ ok (
          without_recon books company_id id recon
            (audit_of company_id actor id recon ∷ books.audit))
unfolding remove
remove_of books company_id id actor recon h = rw (h.is_found, h.newest)
