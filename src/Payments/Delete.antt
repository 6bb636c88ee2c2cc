-- ===== src/Payments/Delete.antt =====
-- `delete` of src/modules/payments/payments.service.ts: a receipt, its applications and its entries
-- are taken back.
use fin_matrix_backend.Prelude.{
  ℕ, suc, String, true, not, Option, none, some, List, [], ◌∷◌, filter, find, ◌==◌, if◌then◌else◌,
  is_some, set_add, Result, ok, ◌>>=◌, ◌>>◌, throw_if, or_throw,
}
use fin_matrix_backend.Prelude.Int.{ℤ, ◌+ℤ◌}
use fin_matrix_backend.Money.{Decimals}
use fin_matrix_backend.Store.{JournalEntryLine, JournalEntry, Db}
use fin_matrix_backend.Invoices.{Invoice, is_invoice, save_invoice, without_paid}
use fin_matrix_backend.Posting.Checks.{PostingLineInput, CreatePostingInput}
use fin_matrix_backend.Posting.Create.{create_entry}
use fin_matrix_backend.JournalEntries.{assert_not_reconciled, sort_lines, reversed_lines}
use fin_matrix_backend.Payments.{
  DeliveryRow, Customer, Payment, PaymentApplication, Tables, PaymentError, payment_not_found,
  advance_in_use, of_posting, lift, PaymentEnv, posting_env, is_customer,
  open_delivery_holding_advance, refresh_delivery_paid_status,
}
use fin_matrix_backend.Payments.Apply.{is_payment, applied_rows, sum_applied, save_customer_if}

-- The entries of the applications, each once, in their order.
abbrev pub entry_ids : List PaymentApplication → List ℕ → List ℕ
entry_ids [] seen = seen
entry_ids (a ∷ as_) seen =
    entry_ids as_ (elim a.journal_entry_id [ none ↦ seen | some id ↦ set_add id seen ])

abbrev pub lines_of_entry : Option JournalEntry → List JournalEntryLine
lines_of_entry none = []
lines_of_entry (some e) = sort_lines e.lines

module _ (lib : Decimals) where
  open lib use {to_fixed}

  -- An invoice that is gone is passed over.
  abbrev pub unapply_found :
      ℕ
      → ℕ
      → PaymentApplication
      → Option Invoice
      → List Invoice × List DeliveryRow
      → List Invoice × List DeliveryRow
  unapply_found today company_id app none state = state
  unapply_found today company_id app (some invoice) (invoices, deliveries) =
      let invoice' = without_paid lib today invoice app.amount_applied in
      (
        save_invoice invoice' invoices,
        refresh_delivery_paid_status lib company_id invoice' deliveries,
      )

  abbrev pub unapply_one :
      ℕ → ℕ → PaymentApplication → List Invoice × List DeliveryRow → List Invoice × List DeliveryRow
  unapply_one today company_id app (invoices, deliveries) =
      unapply_found today company_id app (find (is_invoice company_id app.invoice_id) invoices)
        (invoices, deliveries)

  abbrev pub unapply_each :
      ℕ
      → ℕ
      → List PaymentApplication
      → List Invoice × List DeliveryRow
      → List Invoice × List DeliveryRow
  unapply_each today company_id [] state = state
  unapply_each today company_id (a ∷ as_) state =
      unapply_each today company_id as_ (unapply_one today company_id a state)

  abbrev pub mirror_input : ℕ → ℕ → ℕ → String → ℕ → ℕ → List PostingLineInput → CreatePostingInput
  mirror_input company_id user_id date source_type source_id entry_id lines = record {
    company_id = company_id;
    date = date;
    memo = none;
    created_by = user_id;
    lines = lines;
    is_posted = true;
    source_type = some source_type;
    source_id = some source_id;
    reversal_of_id = some entry_id;
  }

  abbrev pub post_reversed : PaymentEnv → ℕ → CreatePostingInput → Db → Result PaymentError Db
  post_reversed env n input db = elim input.lines [
    | [] ↦ ok db
    | _ ∷ _ ↦ lift of_posting (create_entry lib (posting_env env n) input db) >>= λ (_, db'). ok db'
  ]

  -- `postMirror`: debit and credit swapped on every line of the entry.
  unfoldable pub post_mirror : PaymentEnv → ℕ → ℕ → ℕ → String → ℕ → ℕ → Db → Result PaymentError Db
  post_mirror env n company_id user_id source_type source_id entry_id db =
      let original = lines_of_entry (find (λ (e : JournalEntry). e.id == entry_id) db.entries) in
      post_reversed env n
        (mirror_input company_id user_id env.today source_type source_id entry_id
          (reversed_lines original 0))
        db

  abbrev pub mirror_each : PaymentEnv → ℕ → ℕ → ℕ → ℕ → List ℕ → Db → Result PaymentError Db
  mirror_each env n company_id user_id source_id [] db = ok db
  mirror_each env n company_id user_id source_id (entry_id ∷ ids) db =
      post_mirror env n company_id user_id "payment_application_void" source_id entry_id db
      >>= mirror_each env (suc n) company_id user_id source_id ids

  abbrev pub mirror_receipt : PaymentEnv → ℕ → ℕ → ℕ → Option ℕ → Db → Result PaymentError Db
  mirror_receipt env company_id user_id source_id none db = ok db
  mirror_receipt env company_id user_id source_id (some entry_id) db =
      post_mirror env 0 company_id user_id "payment_void" source_id entry_id db

  abbrev pub owes_again : Customer → ℤ → Customer
  owes_again customer amount = record customer { balance = to_fixed (customer.balance +ℤ amount) }

  unfoldable pub delete : PaymentEnv → ℕ → ℕ → ℕ → Tables → Result PaymentError Tables
  delete env company_id id user_id tables = do
    payment ← or_throw (find (is_payment company_id id) tables.payments) payment_not_found
    lift of_posting (assert_not_reconciled tables.db company_id payment.id)
    throw_if (is_some (open_delivery_holding_advance payment.id tables.deliveries)) advance_in_use
    let rows = applied_rows payment.id tables.applications
    let (invoices, deliveries) =
        unapply_each env.today company_id rows (tables.invoices, tables.deliveries)
    let restore = if payment.advance_posted then sum_applied rows else payment.amount
    db' ← mirror_receipt env company_id user_id payment.id payment.journal_entry_id tables.db
    db'' ← mirror_each env 1 company_id user_id payment.id (entry_ids rows []) db'
    ok record tables {
      db = db'';
      invoices = invoices;
      payments = filter (λ (p : Payment). not (p.id == payment.id)) tables.payments;
      applications =
          filter (λ (a : PaymentApplication). not (a.payment_id == payment.id)) tables.applications;
      customers =
          save_customer_if (find (is_customer company_id payment.customer_id) tables.customers)
            restore owes_again tables.customers;
      deliveries = deliveries;
    }
