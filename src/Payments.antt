-- ===== src/Payments.antt =====
-- src/modules/payments/payments.service.ts: receipts of customers, their application to invoices, the
-- money held as an advance, and the deletion of a receipt. Texts (references, memos, names) and the
-- messages that are queued are left out.
pub mod Receive
pub mod Apply
pub mod Delete
pub mod Lines
pub mod Sweep
pub mod Applied
pub mod Covered
pub mod Unapplied
pub mod Ties
use fin_matrix_backend.Prelude.{
  ℕ, suc, Bool, true, false, not, ◌&&◌, ◌||◌, Option, none, some, String, List, [], ◌∷◌, ◌++◌, map,
  filter, any, all, find, length, ltb, ◌==◌, if◌then◌else◌, or_else, set_add, Result, ok, err,
  ◌>>=◌, ◌>>◌, throw_if, or_throw,
}
use fin_matrix_backend.Prelude.Int.{ℤ, pos, ◌+ℤ◌, ◌-ℤ◌, ltb_ℤ, max_ℤ}
use fin_matrix_backend.Money.{Decimals, is_positive, money_tolerance}
use fin_matrix_backend.Store.{SubType, Account, JournalEntryLine, JournalEntry, Db, Env, Error}
use fin_matrix_backend.Accounts.{
  AccountError, acct_cash, acct_bank, acct_ar, acct_customer_advances, get_by_number,
  get_or_create_system_account, resolve_money_account,
}
use fin_matrix_backend.Invoices.{
  Invoice, InvoiceError, is_invoice, save_invoice, outstanding_for_customer, apply_payment,
  without_paid,
}
use fin_matrix_backend.Delivery.{
  DeliveryPaidStatus, paid, partial, unpaid, DeliveryLedgerStatus, not_on_ledger, committed,
  invoice_paid_status,
}
use fin_matrix_backend.Posting.Checks.{PostingLineInput, CreatePostingInput}
use fin_matrix_backend.Posting.Create.{create_entry}
use fin_matrix_backend.JournalEntries.{assert_not_reconciled, sort_lines, reversed_lines}

pub data DeliveryStatus : Type 0 where
  unassigned pending picked_up in_transit arrived delivered failed returned cancelled :
      DeliveryStatus

-- The columns of a delivery that payments read and write.
pub record DeliveryRow : Type 0 where
  pub id : ℕ
  pub company_id : ℕ
  pub status : DeliveryStatus
  pub ledger_status : DeliveryLedgerStatus
  pub invoice_id : Option ℕ
  pub advance_payment_id : Option ℕ
  pub paid_status : DeliveryPaidStatus

pub record Customer : Type 0 where
  pub id : ℕ
  pub company_id : ℕ
  pub balance : ℤ

pub record Payment : Type 0 where
  pub id : ℕ
  pub company_id : ℕ
  pub customer_id : ℕ
  pub payment_number : ℕ
  pub payment_date : ℕ
  pub amount : ℤ
  pub bank_account_id : ℕ
  pub journal_entry_id : Option ℕ
  pub advance_posted : Bool

pub record PaymentApplication : Type 0 where
  pub payment_id : ℕ
  pub invoice_id : ℕ
  pub amount_applied : ℤ
  pub applied_on : Option ℕ
  pub journal_entry_id : Option ℕ

pub record Tables : Type 0 where
  pub db : Db
  pub invoices : List Invoice
  pub payments : List Payment
  pub applications : List PaymentApplication
  pub customers : List Customer
  pub deliveries : List DeliveryRow

pub data PaymentError : Type 0 where
  customer_not_found payment_not_found validation_failed : PaymentError
  invalid_payment_application exceeds_unapplied advance_reserved : PaymentError
  applied_before_receipt future_date invoice_customer_mismatch advance_in_use : PaymentError
  of_invoice : InvoiceError → PaymentError
  of_account : AccountError → PaymentError
  of_posting : Error → PaymentError

-- An exception of another service passes through.
abbrev pub lift : {E A : Type 0} → (E → PaymentError) → Result E A → Result PaymentError A
lift f (ok a) = ok a
lift f (err e) = err (f e)

-- What the database and the numbering hand out.
pub record PaymentEnv : Type 0 where
  pub now : ℕ
  pub today : ℕ
  pub payment_id : ℕ
  pub payment_number : ℕ
  pub account_id : ℕ
  -- The id of the n-th journal entry of the transaction.
  pub entry_id : ℕ → ℕ

abbrev pub posting_env : PaymentEnv → ℕ → Env
posting_env env n = record { now = env.now; today = env.today; new_id = env.entry_id n }

pub record PaymentApplicationDto : Type 0 where
  pub invoice_id : ℕ
  pub amount : ℤ

pub record ReceivePaymentDto : Type 0 where
  pub customer_id : ℕ
  pub payment_date : ℕ
  pub by_cash : Bool
  pub amount : ℤ
  pub bank_account_id : Option ℕ
  pub applications : List PaymentApplicationDto
  pub hold_as_advance : Bool

abbrev pub is_customer : ℕ → ℕ → Customer → Bool
is_customer company_id id c = (c.id == id) && (c.company_id == company_id)

abbrev pub save_customer : Customer → List Customer → List Customer
save_customer c = map (λ (x : Customer). if x.id == c.id then c else x)

abbrev pub total_of : List PaymentApplicationDto → ℤ
total_of [] = pos 0
total_of (a ∷ as_) = a.amount +ℤ total_of as_

abbrev pub is_invoice_of : ℕ → ℕ → DeliveryRow → Bool
is_invoice_of company_id invoice_id d =
    elim d.invoice_id [ none ↦ false | some id ↦ id == invoice_id ] && (d.company_id == company_id)

abbrev pub is_committed : DeliveryLedgerStatus → Bool
is_committed committed = true
is_committed _ = false

abbrev pub set_paid_status : DeliveryPaidStatus → DeliveryRow → List DeliveryRow → List DeliveryRow
set_paid_status next d =
    map (λ (x : DeliveryRow). if x.id == d.id then record d { paid_status = next } else x)

abbrev pub is_open_status : DeliveryStatus → Bool
is_open_status cancelled = false
is_open_status failed = false
is_open_status returned = false
is_open_status _ = true

abbrev pub is_before_approval : DeliveryLedgerStatus → Bool
is_before_approval not_on_ledger = true
is_before_approval DeliveryLedgerStatus.in_transit = true
is_before_approval _ = false

-- OPEN_DELIVERY_ADVANCE_SQL.
abbrev pub holds_advance : ℕ → DeliveryRow → Bool
holds_advance payment_id d =
    elim d.advance_payment_id [ none ↦ false | some id ↦ id == payment_id ]
    && is_before_approval d.ledger_status
    && is_open_status d.status

abbrev pub open_delivery_holding_advance : ℕ → List DeliveryRow → Option DeliveryRow
open_delivery_holding_advance payment_id = find (holds_advance payment_id)

module _ (lib : Decimals) where
  open lib use {unit, to_fixed}

  -- Only a committed delivery shows what is true of its invoice; an equal status is not written.
  unfoldable pub refresh_delivery_paid_status : ℕ → Invoice → List DeliveryRow → List DeliveryRow
  refresh_delivery_paid_status company_id invoice deliveries =
      elim (find (is_invoice_of company_id invoice.id) deliveries) [
        | none ↦ deliveries
        | some d ↦
            if is_committed d.ledger_status
            then set_paid_status (invoice_paid_status lib invoice.balance invoice.amount_paid) d
                deliveries
            else deliveries
      ]

  -- One application: the invoice is the customer's, takes the amount, and its delivery follows.
  unfoldable pub apply_one :
      ℕ
      → ℕ
      → ℕ
      → PaymentApplicationDto
      → List Invoice × List DeliveryRow
      → Result PaymentError (List Invoice × List DeliveryRow)
  apply_one today company_id customer_id app (invoices, deliveries) = do
    invoice ←
        or_throw (find (is_invoice company_id app.invoice_id) invoices)
          (of_invoice InvoiceError.invoice_not_found)
    throw_if (not (invoice.customer_id == customer_id)) invoice_customer_mismatch
    (invoice', invoices') ←
        lift of_invoice (apply_payment lib today company_id app.invoice_id app.amount invoices)
    ok (invoices', refresh_delivery_paid_status company_id invoice' deliveries)

  abbrev pub apply_each :
      ℕ
      → ℕ
      → ℕ
      → List PaymentApplicationDto
      → List Invoice × List DeliveryRow
      → Result PaymentError (List Invoice × List DeliveryRow)
  apply_each today company_id customer_id [] state = ok state
  apply_each today company_id customer_id (a ∷ as_) state =
      apply_one today company_id customer_id a state >>= apply_each today company_id customer_id as_

  -- Oldest due first, until the money is used up.
  abbrev pub sweep : List Invoice → ℤ → List PaymentApplicationDto
  sweep [] remaining = []
  sweep (i ∷ is) remaining =
      let portion = if ltb_ℤ remaining i.balance then remaining else i.balance in
      let rest = sweep is (remaining -ℤ portion) in
      if not (is_positive remaining)
      then []
      else record { invoice_id = i.id; amount = to_fixed portion } ∷ rest

  unfoldable pub auto_apply : ℕ → ℕ → ℤ → List Invoice → List PaymentApplicationDto
  auto_apply company_id customer_id amount invoices =
      sweep (outstanding_for_customer company_id customer_id invoices) amount
