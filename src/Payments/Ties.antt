-- ===== src/Payments/Ties.antt =====
-- The balance of a customer against the invoices and the receipts: what both sides stand for, and
-- how a table of rows that one operation adds changes it.
pub mod Customers
pub mod Chosen
pub mod Received
pub mod Receipts
pub mod Spent
pub mod Applications
pub mod Removed
pub mod Deleted
pub mod Deletions
use mathlib.Core.Path.{subst}
use fin_matrix_backend.Prelude.{
  ℕ, ◌≡◌, refl, sym, ap, ◌∙◌, Bool, true, false, not, ◌&&◌, Option, none, some, List, [], ◌∷◌, ◌++◌,
  map, filter, find, All, All-both, All-map, arith, Bool-cases, inl, inr, ◌⊎◌, ◌==◌, ==→eq,
  if◌then◌else◌,
}
use fin_matrix_backend.Prelude.Int.{
  ℤ, pos, ◌+ℤ◌, ◌-ℤ◌, int_laws, +ℤ_assoc, +ℤ_zero, pos_part, neg_part,
}
use fin_matrix_backend.Prelude.Keys.{IsOther, HasUniqueKeys, is_row, found_cases}
use fin_matrix_backend.Money.{Decimals, IsMoney}
use fin_matrix_backend.Invoices.Owed.{owed}
use fin_matrix_backend.Payments.{
  Customer, Payment, PaymentApplication, Tables, PaymentApplicationDto, total_of,
}
use fin_matrix_backend.Payments.Receive.{application_rows}
use fin_matrix_backend.Payments.Apply.{applied_rows, sum_applied}
use fin_matrix_backend.Payments.Applied.{InvoicesAreSound, AmountIsMoney, share, share_zero}

-- What a receipt from before advances were posted still holds: it has lowered the balance of its
-- customer by its whole amount.
abbrev pub held : List PaymentApplication → Payment → ℤ
held apps p = if p.advance_posted then pos 0 else p.amount -ℤ sum_applied (applied_rows p.id apps)

abbrev pub held_on : ℕ → List PaymentApplication → Payment → ℤ
held_on k apps p = if p.customer_id == k then held apps p else pos 0

abbrev pub held_for : ℕ → List PaymentApplication → List Payment → ℤ
held_for k apps [] = pos 0
held_for k apps (p ∷ ps) = (if p.customer_id == k then held apps p else pos 0) +ℤ held_for k apps ps

abbrev pub payment_id : Payment → ℕ
payment_id p = p.id

abbrev pub customer_key : Customer → ℕ
customer_key c = c.id

-- A customer owes what is open on their invoices, less what older receipts hold.
abbrev pub Owes : Tables → Customer → Type 0
Owes t c = c.balance +ℤ held_for c.id t.applications t.payments ≡ owed c.id t.invoices

pub record IsTied (lib : Decimals) (t : Tables) : Type 0 where
  pub invoices : InvoicesAreSound lib t.invoices
  pub payments : HasUniqueKeys payment_id t.payments
  pub customers : HasUniqueKeys customer_key t.customers
  pub money : All (λ (c : Customer). IsMoney lib c.balance) t.customers
  pub owes : All (Owes t) t.customers

swap : (a b c : ℤ) → a +ℤ b +ℤ c ≡ a +ℤ c +ℤ b
swap a b c = omega int_laws

less : (a t b : ℤ) → a -ℤ (t +ℤ b) +ℤ t ≡ a -ℤ b
less a t b = omega int_laws

module _ (lib : Decimals) (id : ℕ) (on entry : Option ℕ) where
  rows_of_others :
      (p : ℕ) (as_ : List PaymentApplicationDto) (apps : List PaymentApplication)
      → (p == id) ≡ false
      → applied_rows p (application_rows lib id on entry as_ ++ apps) ≡ applied_rows p apps
  rows_of_others p [] apps other = refl
  rows_of_others p (a ∷ as_) apps other =
      let differs : (id == p) ≡ false = ground arith in rw differs (rows_of_others p as_ apps other)

  -- The rows of the receipt itself add the total.
  rows_of_own :
      (as_ : List PaymentApplicationDto) (apps : List PaymentApplication)
      → All (AmountIsMoney lib) as_
      → sum_applied (applied_rows id (application_rows lib id on entry as_ ++ apps))
        ≡ total_of as_ +ℤ sum_applied (applied_rows id apps)
  rows_of_own [] apps m = omega int_laws
  rows_of_own (a ∷ as_) apps (m, ms) =
      let own : (id == id) ≡ true = ground arith in
      rw (own, m, rows_of_own as_ apps ms)
        (sym (+ℤ_assoc a.amount (total_of as_) (sum_applied (applied_rows id apps))))

  held_other :
      (p : Payment) (as_ : List PaymentApplicationDto) (apps : List PaymentApplication)
      → (p.id == id) ≡ false
      → held (application_rows lib id on entry as_ ++ apps) p ≡ held apps p
  held_other p as_ apps other = rw (rows_of_others p.id as_ apps other)

  -- Rows of a receipt that is not in the table change nothing.
  pub held_for_absent :
      (k : ℕ) (ps : List Payment) (as_ : List PaymentApplicationDto)
      (apps : List PaymentApplication)
      → All (IsOther payment_id id) ps
      → held_for k (application_rows lib id on entry as_ ++ apps) ps ≡ held_for k apps ps
  held_for_absent k [] as_ apps h = refl
  held_for_absent k (p ∷ ps) as_ apps (h, hs) =
      rw (held_other p as_ apps h, held_for_absent k ps as_ apps hs)

  -- What the receipt gives up when it is applied: nothing if its remainder was posted.
  abbrev pub given_up : Payment → ℕ → ℤ → ℤ
  given_up p k total = if p.advance_posted then pos 0 else share p.customer_id k total

  -- Its own rows lower what the receipt holds.
  held_own :
      (k : ℕ) (p : Payment) (as_ : List PaymentApplicationDto) (apps : List PaymentApplication)
      → p.id ≡ id
      → All (AmountIsMoney lib) as_
      → held_on k (application_rows lib id on entry as_ ++ apps) p +ℤ given_up p k (total_of as_)
        ≡ held_on k apps p
  held_own k p as_ apps here m = by_kind p.advance_posted (Bool-cases (p.customer_id == k)) (
      ap (λ n. sum_applied (applied_rows n (application_rows lib id on entry as_ ++ apps))) here
      ∙ rows_of_own as_ apps m
      ∙ ap (λ n. total_of as_ +ℤ sum_applied (applied_rows n apps)) (sym here))
    where
      after : ℤ
      after = sum_applied (applied_rows p.id (application_rows lib id on entry as_ ++ apps))

      before : ℤ
      before = sum_applied (applied_rows p.id apps)

      by_kind :
          (posted : Bool)
          → ((p.customer_id == k) ≡ true) ⊎ ((p.customer_id == k) ≡ false)
          → after ≡ total_of as_ +ℤ before
          → (if p.customer_id == k then (if posted then pos 0 else p.amount -ℤ after) else pos 0)
              +ℤ (if posted then pos 0 else share p.customer_id k (total_of as_))
            ≡ (if p.customer_id == k then (if posted then pos 0 else p.amount -ℤ before) else pos 0)
      by_kind true c e = +ℤ_zero _
      by_kind false (inl mine) e = rw (mine, e) (less p.amount (total_of as_) before)
      by_kind false (inr other) e = rw other (+ℤ_zero (pos 0))

  pub held_for_applied :
      (company_id k : ℕ) (ps : List Payment) (p : Payment) (as_ : List PaymentApplicationDto)
      (apps : List PaymentApplication)
      → HasUniqueKeys payment_id ps
      → find (is_row payment_id (λ (x : Payment). x.company_id == company_id) id) ps ≡ some p
      → All (AmountIsMoney lib) as_
      → held_for k (application_rows lib id on entry as_ ++ apps) ps +ℤ given_up p k (total_of as_)
        ≡ held_for k apps ps
  held_for_applied company_id k [] p as_ apps u e m = absurd (cc e)
  held_for_applied company_id k (x ∷ ps) p as_ apps u e m =
      elim (found_cases payment_id (λ (y : Payment). y.company_id == company_id) id x ps p u e) [
        | inl (same, here, absent) ↦
            ap
              (λ n.
                held_on k (application_rows lib id on entry as_ ++ apps) x
                +ℤ n
                +ℤ given_up p k (total_of as_))
              (held_for_absent k ps as_ apps absent)
            ∙ ap
                (λ (q : Payment).
                  held_on k (application_rows lib id on entry as_ ++ apps) x
                  +ℤ held_for k apps ps
                  +ℤ given_up q k (total_of as_))
                (sym same)
            ∙ swap (held_on k (application_rows lib id on entry as_ ++ apps) x) (held_for k apps ps)
                (given_up x k (total_of as_))
            ∙ ap (λ n. n +ℤ held_for k apps ps) (held_own k x as_ apps here m)
        | inr (other, rest) ↦
            ap
              (λ n.
                n
                +ℤ held_for k (application_rows lib id on entry as_ ++ apps) ps
                +ℤ given_up p k (total_of as_))
              (ap (λ h. if x.customer_id == k then h else pos 0) (held_other x as_ apps other))
            ∙ +ℤ_assoc (held_on k apps x)
                (held_for k (application_rows lib id on entry as_ ++ apps) ps)
                (given_up p k (total_of as_))
            ∙ ap (λ n. held_on k apps x +ℤ n)
                (held_for_applied company_id k ps p as_ apps u.1 rest m)
      ]
