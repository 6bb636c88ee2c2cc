-- ===== src/Payments/Apply.antt =====
-- `applyInTransaction` of src/modules/payments/payments.service.ts: money that a receipt still holds
-- goes to invoices.
use fin_matrix_backend.Prelude.{
  ℕ, Bool, true, false, not, ◌&&◌, Option, none, some, List, [], ◌∷◌, ◌++◌, all, find, filter, ltb,
  ◌==◌, if◌then◌else◌, or_else, Result, ok, ◌>>=◌, ◌>>◌, throw_if, or_throw,
}
use fin_matrix_backend.Prelude.Int.{ℤ, pos, ◌+ℤ◌, ◌-ℤ◌, ltb_ℤ}
use fin_matrix_backend.Money.{Decimals, is_positive, money_tolerance}
use fin_matrix_backend.Store.{JournalEntry, Db}
use fin_matrix_backend.Accounts.{
  acct_ar, acct_customer_advances, get_by_number, get_or_create_system_account,
}
use fin_matrix_backend.Invoices.{Invoice}
use fin_matrix_backend.Posting.Checks.{PostingLineInput, CreatePostingInput}
use fin_matrix_backend.Posting.Create.{create_entry}
use fin_matrix_backend.Payments.{
  DeliveryRow, Customer, Payment, PaymentApplication, Tables, PaymentError, payment_not_found,
  validation_failed, exceeds_unapplied, advance_reserved, applied_before_receipt, future_date,
  of_account, of_posting, lift, PaymentEnv, posting_env, PaymentApplicationDto, is_customer,
  save_customer, total_of, open_delivery_holding_advance, apply_each,
}
use fin_matrix_backend.Payments.Receive.{posting_line, application_rows, pays}

abbrev pub is_payment : ℕ → ℕ → Payment → Bool
is_payment company_id id p = (p.id == id) && (p.company_id == company_id)

abbrev pub applied_rows : ℕ → List PaymentApplication → List PaymentApplication
applied_rows payment_id = filter (λ (a : PaymentApplication). a.payment_id == payment_id)

abbrev pub sum_applied : List PaymentApplication → ℤ
sum_applied [] = pos 0
sum_applied (a ∷ as_) = a.amount_applied +ℤ sum_applied as_

-- The delivery that holds the advance, unless it is the one that claims it.
abbrev pub is_reserved : Option DeliveryRow → Option ℕ → Bool
is_reserved none claimant = false
is_reserved (some holder) none = true
is_reserved (some holder) (some id) = not (holder.id == id)

abbrev pub save_customer_if :
    Option Customer → ℤ → (Customer → ℤ → Customer) → List Customer → List Customer
save_customer_if none x change customers = customers
save_customer_if (some c) x change customers = save_customer (change c x) customers

module _ (lib : Decimals) where
  open lib use {to_fixed}

  abbrev pub application_input : ℕ → ℕ → ℕ → ℕ → List PostingLineInput → CreatePostingInput
  application_input company_id user_id date payment_id lines = record {
    company_id = company_id;
    date = date;
    memo = none;
    created_by = user_id;
    lines = lines;
    is_posted = true;
    source_type = some "payment_application";
    source_id = some payment_id;
    reversal_of_id = none;
  }

  -- Dr Customer Advances, Cr Accounts Receivable.
  abbrev pub post_application :
      PaymentEnv → ℕ → ℕ → ℕ → ℕ → ℤ → Db → Result PaymentError (JournalEntry × Db)
  post_application env company_id user_id date payment_id requested db = do
    (advances, db') ←
        lift of_account
          (get_or_create_system_account env.account_id db company_id acct_customer_advances)
    ar ← lift of_account (get_by_number db' company_id acct_ar)
    lift of_posting (
        create_entry lib (posting_env env 0)
          (application_input company_id user_id date payment_id (
            posting_line advances.id (to_fixed requested) (pos 0) 0
            ∷ posting_line ar.id (pos 0) (to_fixed requested) 1
            ∷ []))
          db')

  -- A receipt from before advances were posted has credited receivables already.
  abbrev pub settle_application :
      PaymentEnv
      → ℕ
      → ℕ
      → ℕ
      → Payment
      → List PaymentApplicationDto
      → List Invoice × List DeliveryRow
      → Tables
      → Result PaymentError Tables
  settle_application env company_id user_id date payment applications (invoices, deliveries)
        tables =
      let requested = total_of applications in
      let customer = find (is_customer company_id payment.customer_id) tables.customers in
      if payment.advance_posted
      then (post_application env company_id user_id date payment.id requested tables.db
          >>= λ (entry, db'). ok (record tables {
            db = db';
            invoices = invoices;
            deliveries = deliveries;
            customers = save_customer_if customer requested (pays lib) tables.customers;
            applications =
                application_rows lib payment.id (some date) (some entry.id) applications
                ++ tables.applications;
          }))
      else ok (record tables {
        invoices = invoices;
        deliveries = deliveries;
        applications =
            application_rows lib payment.id (some date) none applications ++ tables.applications;
      })

  unfoldable pub apply :
      PaymentEnv
      → ℕ
      → ℕ
      → ℕ
      → List PaymentApplicationDto
      → Option ℕ
      → Option ℕ
      → Tables
      → Result PaymentError Tables
  apply env company_id user_id payment_id applications date for_delivery tables = do
    payment ← or_throw (find (is_payment company_id payment_id) tables.payments) payment_not_found
    throw_if (is_reserved (open_delivery_holding_advance payment.id tables.deliveries) for_delivery)
        advance_reserved
    let available = payment.amount -ℤ sum_applied (applied_rows payment_id tables.applications)
    throw_if (not (all (λ (a : PaymentApplicationDto). is_positive a.amount) applications))
        validation_failed
    throw_if (ltb_ℤ (available +ℤ money_tolerance lib) (total_of applications)) exceeds_unapplied
    let on = or_else date env.today
    throw_if (ltb env.today on) future_date
    throw_if (ltb on payment.payment_date) applied_before_receipt
    state ←
        apply_each lib env.today company_id payment.customer_id applications
          (tables.invoices, tables.deliveries)
    settle_application env company_id user_id on payment applications state tables
