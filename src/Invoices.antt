-- ===== src/Invoices.antt =====
-- The part of src/modules/invoices/invoices.service.ts that settles invoices: the outstanding ones of
-- a customer, oldest due first, and the application of an amount to one; and the reverse of it, in
-- `delete` of src/modules/payments/payments.service.ts.
pub mod Settle
pub mod Owed
pub mod Reopen
use fin_matrix_backend.Prelude.{
  ℕ, Bool, true, false, not, ◌&&◌, ◌||◌, Option, none, some, List, [], ◌∷◌, map, filter, find, ltb,
  ◌==◌, if◌then◌else◌, Result, ok, err, ◌>>=◌, ◌>>◌, throw_if, or_throw,
}
use fin_matrix_backend.Prelude.Int.{ℤ, pos, ◌+ℤ◌, ◌-ℤ◌, ltb_ℤ, leb_ℤ}
use fin_matrix_backend.Money.{Decimals, is_positive}

pub data InvoiceStatus : Type 0 where
  draft sent partial paid overdue void : InvoiceStatus

pub record Invoice : Type 0 where
  pub id : ℕ
  pub company_id : ℕ
  pub customer_id : ℕ
  pub invoice_number : ℕ
  pub invoice_date : ℕ
  pub due_date : ℕ
  pub total : ℤ
  pub amount_paid : ℤ
  pub balance : ℤ
  pub status : InvoiceStatus

pub data InvoiceError : Type 0 where
  invoice_not_found validation_failed payment_exceeds_balance : InvoiceError

abbrev pub is_closed : InvoiceStatus → Bool
is_closed draft = true
is_closed void = true
is_closed _ = false

abbrev pub is_invoice : ℕ → ℕ → Invoice → Bool
is_invoice company_id id i = (i.id == id) && (i.company_id == company_id)

abbrev pub save_invoice : Invoice → List Invoice → List Invoice
save_invoice i = map (λ (x : Invoice). if x.id == i.id then i else x)

-- Due date, date, number: the order of the sweep.
abbrev pub is_before : Invoice → Invoice → Bool
is_before i j =
    ltb i.due_date j.due_date
    || ((i.due_date == j.due_date)
        && (ltb i.invoice_date j.invoice_date
            || ((i.invoice_date == j.invoice_date) && ltb i.invoice_number j.invoice_number)))

abbrev pub insert_invoice : Invoice → List Invoice → List Invoice
insert_invoice i [] = i ∷ []
insert_invoice i (j ∷ js) = if is_before j i then j ∷ insert_invoice i js else i ∷ j ∷ js

abbrev pub sort_invoices : List Invoice → List Invoice
sort_invoices [] = []
sort_invoices (i ∷ is) = insert_invoice i (sort_invoices is)

abbrev pub is_outstanding : ℕ → ℕ → Invoice → Bool
is_outstanding company_id customer_id i =
    (i.company_id == company_id)
    && (i.customer_id == customer_id)
    && ltb_ℤ (pos 0) i.balance
    && not (is_closed i.status)

unfoldable pub outstanding_for_customer : ℕ → ℕ → List Invoice → List Invoice
outstanding_for_customer company_id customer_id invoices =
    sort_invoices (filter (is_outstanding company_id customer_id) invoices)

module _ (lib : Decimals) where
  open lib use {to_fixed}

  abbrev pub status_paid : ℕ → Invoice → InvoiceStatus
  status_paid today i =
      if leb_ℤ i.total i.amount_paid
      then paid
      else if ltb i.due_date today
      then overdue
      else partial

  -- The invoice with more paid on it; the balance is derived, and then the status.
  abbrev pub with_paid : ℕ → Invoice → ℤ → Invoice
  with_paid today i amount =
      let amount_paid = to_fixed (i.amount_paid +ℤ amount) in
      let i' = record i {
        amount_paid = amount_paid;
        balance = to_fixed (i.total -ℤ amount_paid);
      } in
      record i' { status = status_paid today i' }

  unfoldable pub apply_payment :
      ℕ → ℕ → ℕ → ℤ → List Invoice → Result InvoiceError (Invoice × List Invoice)
  apply_payment today company_id invoice_id amount invoices = do
    invoice ← or_throw (find (is_invoice company_id invoice_id) invoices) invoice_not_found
    throw_if (is_closed invoice.status) validation_failed
    throw_if (not (is_positive amount)) validation_failed
    throw_if (ltb_ℤ invoice.balance amount) payment_exceeds_balance
    let invoice' = with_paid today invoice amount
    ok (invoice', save_invoice invoice' invoices)

  abbrev pub status_reopened : ℕ → Invoice → InvoiceStatus
  status_reopened today i =
      if leb_ℤ i.total i.amount_paid
      then paid
      else if ltb i.due_date today
      then overdue
      else if is_positive i.amount_paid
      then partial
      else sent

  -- What deleting a receipt takes back of an invoice.
  abbrev pub without_paid : ℕ → Invoice → ℤ → Invoice
  without_paid today i amount =
      let reduced = i.amount_paid -ℤ amount in
      let amount_paid = to_fixed (if ltb_ℤ reduced (pos 0) then pos 0 else reduced) in
      let i' = record i {
        amount_paid = amount_paid;
        balance = to_fixed (i.total -ℤ amount_paid);
      } in
      record i' { status = status_reopened today i' }
