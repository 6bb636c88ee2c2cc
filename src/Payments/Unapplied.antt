-- ===== src/Payments/Unapplied.antt =====
-- What taking the applications of a receipt back does to what customers owe.
use mathlib.Core.Path.{subst}
use fin_matrix_backend.Prelude.{
  ℕ, ◌≡◌, refl, sym, ap, ◌∙◌, true, false, Option, some, List, [], ◌∷◌, find, find-All, All,
  All-map, Bool-cases, inl, inr, ◌⊎◌, ◌==◌, eq→==,
}
use fin_matrix_backend.Prelude.Int.{
  ℤ, pos, ◌+ℤ◌, ◌≤ℤ◌, int_laws, +ℤ_assoc, +ℤ_zero, pos_part, neg_part,
}
use fin_matrix_backend.Money.{Decimals}
use fin_matrix_backend.Invoices.{Invoice, is_invoice, save_invoice, without_paid}
use fin_matrix_backend.Invoices.Settle.{IsSound}
use fin_matrix_backend.Invoices.Reopen.{
  without_paid-amount_paid, without_paid-balance, without_paid-IsSound, save_invoice_finds,
}
use fin_matrix_backend.Invoices.Owed.{
  owed, owed_on, found_id, owed-save_invoice, save_invoice-HasUniqueIds, save_invoice-All,
}
use fin_matrix_backend.Payments.{DeliveryRow, PaymentApplication}
use fin_matrix_backend.Payments.Apply.{sum_applied}
use fin_matrix_backend.Payments.Delete.{unapply_found, unapply_one, unapply_each}
use fin_matrix_backend.Payments.Applied.{InvoicesAreSound, share, share_zero}
use fin_matrix_backend.Payments.Covered.{
  applied_to, IsCovered, IsAmount, HasInvoice, drop_second, move_first, applied_to_not_negative,
  rest_IsCovered,
}

regrow : (a b x d : ℤ) → a +ℤ x ≡ b +ℤ (x +ℤ d) → a ≡ b +ℤ d
regrow a b x d h = omega (int_laws, ap pos_part h, ap neg_part h)

regrow_zero : (a b : ℤ) → a +ℤ pos 0 ≡ b +ℤ pos 0 → a ≡ b +ℤ pos 0
regrow_zero a b h = sym (+ℤ_zero a) ∙ h

module _ (lib : Decimals) (today company_id customer_id : ℕ) (a : PaymentApplication)
    (as_ : List PaymentApplication) (invoices : List Invoice) (deliveries : List DeliveryRow)
    (sound : InvoicesAreSound lib invoices) (amount : IsAmount lib a)
    (amounts : All (IsAmount lib) as_) (covered : All (IsCovered (a ∷ as_)) invoices)
    (invoice : Invoice) (found : find (is_invoice company_id a.invoice_id) invoices ≡ some invoice)
    (mine : invoice.customer_id ≡ customer_id) where
  abbrev reopened : Invoice
  reopened = without_paid lib today invoice a.amount_applied

  stepped :
      (unapply_one lib today company_id a (invoices, deliveries)).0 ≡ save_invoice reopened invoices
  stepped =
      ap (λ (o : Option Invoice). (unapply_found lib today company_id a o (invoices, deliveries)).0)
        found

  found_IsSound : IsSound lib invoice
  found_IsSound =
      find-All (IsSound lib) (is_invoice company_id a.invoice_id) invoices invoice sound.sound found

  key : invoice.id ≡ a.invoice_id
  key = found_id company_id a.invoice_id invoices invoice sound.unique found

  row_covered : a.amount_applied +ℤ applied_to invoice.id as_ ≤ℤ invoice.amount_paid
  row_covered =
      let own : (a.invoice_id == invoice.id) ≡ true = eq→== a.invoice_id invoice.id (sym key) in
      rw own at (
        find-All (IsCovered (a ∷ as_)) (is_invoice company_id a.invoice_id) invoices invoice covered
          found)

  is_paid : a.amount_applied ≤ℤ invoice.amount_paid
  is_paid =
      drop_second a.amount_applied (applied_to invoice.id as_) invoice.amount_paid
        (applied_to_not_negative lib invoice.id as_ amounts) row_covered

  reopened-InvoicesAreSound : InvoicesAreSound lib (save_invoice reopened invoices)
  reopened-InvoicesAreSound = record {
    sound =
        save_invoice-All (IsSound lib) reopened invoices
          (without_paid-IsSound lib today invoice a.amount_applied found_IsSound amount.0 is_paid
            amount.1)
          sound.sound;
    unique = save_invoice-HasUniqueIds reopened invoices sound.unique;
  }

  reopened_IsCovered : All (IsCovered as_) (save_invoice reopened invoices)
  reopened_IsCovered =
      save_invoice-All (IsCovered as_) reopened invoices
        (subst (λ n. applied_to invoice.id as_ ≤ℤ n)
          (sym (
            without_paid-amount_paid lib today invoice a.amount_applied found_IsSound amount.0
              is_paid))
          (move_first a.amount_applied (applied_to invoice.id as_) invoice.amount_paid row_covered))
        (rest_IsCovered lib a as_ invoices amount covered)

  reopened-HasInvoice :
      (b : PaymentApplication)
      → HasInvoice company_id customer_id invoices b
      → HasInvoice company_id customer_id (save_invoice reopened invoices) b
  reopened-HasInvoice b (i, here, of_customer) =
      let (i', there, same) =
        save_invoice_finds company_id a.invoice_id b.invoice_id invoices invoice reopened i
          sound.unique found refl refl refl here in
      (i', there, same ∙ of_customer)

  reopened-owed :
      (k : ℕ)
      → owed k (save_invoice reopened invoices)
        ≡ owed k invoices +ℤ share customer_id k a.amount_applied
  reopened-owed k =
      by_customer (Bool-cases (customer_id == k))
        (owed-save_invoice company_id a.invoice_id k invoices invoice reopened sound.unique found
          key)
        (without_paid-balance lib today invoice a.amount_applied found_IsSound amount.0 is_paid)
    where
      by_customer :
          ((customer_id == k) ≡ true) ⊎ ((customer_id == k) ≡ false)
          → owed k (save_invoice reopened invoices) +ℤ owed_on k invoice
            ≡ owed k invoices +ℤ owed_on k reopened
          → reopened.balance ≡ invoice.balance +ℤ a.amount_applied
          → owed k (save_invoice reopened invoices)
            ≡ owed k invoices +ℤ share customer_id k a.amount_applied
      by_customer (inl same) changed grew =
          let c : (invoice.customer_id == k) ≡ true = rw mine same in
          rw same (
            regrow (owed k (save_invoice reopened invoices)) (owed k invoices) invoice.balance
              a.amount_applied (rw c at changed ∙ ap (λ n. owed k invoices +ℤ n) grew))
      by_customer (inr other) changed grew =
          let c : (invoice.customer_id == k) ≡ false = rw mine other in
          rw other (
            regrow_zero (owed k (save_invoice reopened invoices)) (owed k invoices)
              (rw c at changed))

total_grew :
    (customer_id k : ℕ) (o o' s x y : ℤ)
    → o' ≡ o +ℤ share customer_id k x
    → s ≡ o' +ℤ share customer_id k y
    → s ≡ o +ℤ share customer_id k (x +ℤ y)
total_grew customer_id k o o' s x y p q = elim (Bool-cases (customer_id == k)) [
  | inl same ↦ rw same ((rw same at q) ∙ ap (λ n. n +ℤ y) (rw same at p) ∙ +ℤ_assoc o x y)
  | inr other ↦
      rw other ((rw other at q) ∙ ap (λ n. n +ℤ pos 0) (rw other at p) ∙ +ℤ_zero (o +ℤ pos 0))
]

-- Rows taken back from invoices that cover them keep the invoices sound, and the customer owes
-- their sum again.
pub unapply_each-owed :
    (lib : Decimals) (today company_id customer_id : ℕ) (rows : List PaymentApplication)
    (state : List Invoice × List DeliveryRow)
    → InvoicesAreSound lib state.0
    → All (IsAmount lib) rows
    → All (HasInvoice company_id customer_id state.0) rows
    → All (IsCovered rows) state.0
    → InvoicesAreSound lib (unapply_each lib today company_id rows state).0
      × ((k : ℕ)
          → owed k (unapply_each lib today company_id rows state).0
            ≡ owed k state.0 +ℤ share customer_id k (sum_applied rows))
unapply_each-owed lib today company_id customer_id [] state sound amounts there covered =
    (sound, λ k. sym (share_zero customer_id k (owed k state.0)))
unapply_each-owed lib today company_id customer_id (a ∷ as_) (invoices, deliveries) sound (m, ms)
      ((invoice, found, mine), there) covered =
    let next = unapply_one lib today company_id a (invoices, deliveries) in
    let after =
      stepped lib today company_id customer_id a as_ invoices deliveries sound m ms covered invoice
        found mine in
    let (sound', owes) =
      unapply_each-owed lib today company_id customer_id as_ next
        (subst (InvoicesAreSound lib) (sym after) (
          reopened-InvoicesAreSound lib today company_id customer_id a as_ invoices deliveries sound
            m ms covered invoice found mine))
        ms
        (subst (λ (l : List Invoice). All (HasInvoice company_id customer_id l) as_) (sym after)
          (All-map (HasInvoice company_id customer_id invoices)
            (HasInvoice company_id customer_id
              (save_invoice (without_paid lib today invoice a.amount_applied) invoices))
            (reopened-HasInvoice lib today company_id customer_id a as_ invoices deliveries sound m
              ms covered invoice found mine)
            as_ there))
        (subst (All (IsCovered as_)) (sym after) (
          reopened_IsCovered lib today company_id customer_id a as_ invoices deliveries sound m ms
            covered invoice found mine)) in
    (
      sound',
      λ k.
          total_grew customer_id k (owed k invoices) (owed k next.0) _ a.amount_applied
            (sum_applied as_)
            (ap (owed k) after
              ∙ reopened-owed lib today company_id customer_id a as_ invoices deliveries sound m ms
                  covered invoice found mine k)
            (owes k),
    )
