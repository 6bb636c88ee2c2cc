-- ===== src/Reconciliations/Latest.antt =====
-- The newest reconciliation of an account, and the warning of the reconcile screen.
use fin_matrix_backend.Prelude.{
  ℕ, ◌≤◌, ◌<◌, ◌≡◌, refl, sym, ap, ◌∙◌, Bool, true, false, Option, none, some, List, [], ◌∷◌, All,
  arith, Bool-cases, Option-cases, inl, inr, find, find-All, eq_of_some,
}
use fin_matrix_backend.Money.{Decimals, money_equals}
use fin_matrix_backend.Reconciliations.{
  LedgerRow, Reconciliation, Books, is_for, comes_after, later_of, last_in, last_reconciliation,
  mismatch_with, beginning_mismatch,
}
use fin_matrix_backend.Reconciliations.Chain.{
  closing, Follows, Chained, IsValid, beginning_balance_lem, place_of,
}

-- Of the reconciliations that are kept newest first, the first one of the account.
abbrev pub newest : ℕ → ℕ → List Reconciliation → Option Reconciliation
newest c a = find (is_for c a)

find_hit {ℓ} : {A : Type ℓ} (p : A → Bool) (xs : List A) (x : A) → find p xs ≡ some x → p x ≡ true
find_hit p [] x e = absurd (cc e)
find_hit p (y ∷ ys) x e = elim (Bool-cases (p y)) [
  | inl hit ↦ rw (eq_of_some (rw hit at e)) at hit
  | inr miss ↦ find_hit p ys x (rw miss at e)
]

older_is_not_after :
    (r q : Reconciliation)
    → (q.statement_date ≤ r.statement_date) × (q.created_at < r.created_at)
    → comes_after q r ≡ false
older_is_not_after r q (h, k) = ground arith

later_of-Follows :
    (c a : ℕ) (r : Reconciliation) (rs : List Reconciliation)
    → All (Follows r) rs
    → is_for c a r ≡ true
    → later_of r (newest c a rs) ≡ r
later_of-Follows c a r rs follows mine = elim (Option-cases (newest c a rs)) [
  | inl e ↦ rw e
  | inr (q, e) ↦
      let (ec, ea) = place_of c a r mine in
      let of_account : is_for r.company_id r.account_id q ≡ true =
        rw (ec, ea) (find_hit (is_for c a) rs q e) in
      let older =
        older_is_not_after r q (find-All (Follows r) (is_for c a) rs q follows e of_account) in
      rw e (rw older)
]

-- The order of the statement dates and times is the order in which they were made.
pub last_in-newest :
    (lib : Decimals) (c a : ℕ) (gs : List LedgerRow) (rs : List Reconciliation)
    → Chained lib gs rs
    → last_in c a rs ≡ newest c a rs
last_in-newest lib c a gs [] h = refl
last_in-newest lib c a gs (r ∷ rs) (h, hs) =
    let rest = last_in-newest lib c a gs rs hs in
    elim (Bool-cases (is_for c a r)) [
      | inl mine ↦ rw (mine, rest) (ap some (later_of-Follows c a r rs h.follows mine))
      | inr other ↦ rw other rest
    ]

closing_tied :
    (lib : Decimals) (c a : ℕ) (gs : List LedgerRow) (rs : List Reconciliation) (r : Reconciliation)
    → Chained lib gs rs
    → newest c a rs ≡ some r
    → (closing c a rs ≡ r.cleared_balance)
      × (money_equals lib (closing c a rs) r.statement_ending_balance ≡ true)
closing_tied lib c a gs [] r h e = absurd (cc e)
closing_tied lib c a gs (q ∷ rs) r (h, hs) e = elim (Bool-cases (is_for c a q)) [
  | inl mine ↦
      let same_one : q ≡ r = eq_of_some (rw mine at e) in
      rw mine (ap (λ (x : Reconciliation). x.cleared_balance) same_one, tied_to q r same_one h.tied)
  | inr other ↦ rw other (closing_tied lib c a gs rs r hs (rw other at e))
]
  where
    tied_to :
        (q r : Reconciliation)
        → q ≡ r
        → money_equals lib q.cleared_balance q.statement_ending_balance ≡ true
        → money_equals lib q.cleared_balance r.statement_ending_balance ≡ true
    tied_to q r e h =
        sym (
          ap (λ (x : Reconciliation). money_equals lib q.cleared_balance x.statement_ending_balance)
            e)
        ∙ h

module _ (lib : Decimals) (books : Books) (valid : IsValid lib books) where
  pub last_reconciliation-newest :
      (c a : ℕ) → last_reconciliation books c a ≡ newest c a books.reconciliations
  last_reconciliation-newest c a =
      last_in-newest lib c a books.ledger books.reconciliations valid.chained

  -- In valid books the screen has nothing to warn of: the beginning balance of an account is what
  -- its last reconciliation cleared, and meets the ending balance of that statement.
  pub beginning_mismatch-none : (c a : ℕ) → beginning_mismatch lib books c a ≡ none
  unfolding beginning_mismatch
  beginning_mismatch-none c a =
      rw (beginning_balance_lem lib books valid c a, last_reconciliation-newest c a)
        (no_warning (newest c a books.reconciliations)
          (closing_tied lib c a books.ledger books.reconciliations))
    where
      no_warning :
          (last : Option Reconciliation)
          → ((r : Reconciliation)
              → Chained lib books.ledger books.reconciliations
              → last ≡ some r
              → (closing c a books.reconciliations ≡ r.cleared_balance)
                × (money_equals lib (closing c a books.reconciliations) r.statement_ending_balance
                    ≡ true))
          → mismatch_with lib (closing c a books.reconciliations) last ≡ none
      no_warning none h = refl
      no_warning (some r) h = rw (h r valid.chained refl).1
