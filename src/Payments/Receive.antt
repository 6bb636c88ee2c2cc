-- ===== src/Payments/Receive.antt =====
-- `receiveInTransaction` of src/modules/payments/payments.service.ts.
use fin_matrix_backend.Prelude.{
  ℕ, Bool, true, false, not, Option, none, some, List, [], ◌∷◌, ◌++◌, all, find, length,
  if◌then◌else◌, Result, ok, ◌>>=◌, ◌>>◌, throw_if, or_throw,
}
use fin_matrix_backend.Prelude.Int.{ℤ, pos, ◌+ℤ◌, ◌-ℤ◌, ltb_ℤ, max_ℤ}
use fin_matrix_backend.Money.{Decimals, is_positive, money_tolerance}
use fin_matrix_backend.Store.{SubType, Account, Db}
use fin_matrix_backend.Accounts.{
  acct_cash, acct_bank, acct_ar, acct_customer_advances, get_by_number,
  get_or_create_system_account, resolve_money_account,
}
use fin_matrix_backend.Invoices.{Invoice}
use fin_matrix_backend.Delivery.{over_tolerance}
use fin_matrix_backend.Posting.Checks.{PostingLineInput, CreatePostingInput}
use fin_matrix_backend.Posting.Create.{create_entry}
use fin_matrix_backend.Payments.{
  Customer, Payment, PaymentApplication, Tables, PaymentError, customer_not_found,
  validation_failed, invalid_payment_application, of_account, of_posting, lift, PaymentEnv,
  posting_env, PaymentApplicationDto, ReceivePaymentDto, is_customer, save_customer, total_of,
  apply_each, auto_apply,
}

abbrev pub posting_line : ℕ → ℤ → ℤ → ℕ → PostingLineInput
posting_line account_id debit credit line_order = record {
  account_id = account_id;
  description = none;
  debit = debit;
  credit = credit;
  line_order = some line_order;
}

abbrev pub is_empty : List PaymentApplicationDto → Bool
is_empty [] = true
is_empty (_ ∷ _) = false

module _ (lib : Decimals) where
  open lib use {unit, to_fixed}

  -- What the receipt is applied to: what the request says, nothing, or the sweep.
  unfoldable pub choose_applications :
      ℕ → ReceivePaymentDto → List Invoice → Result PaymentError (List PaymentApplicationDto)
  choose_applications company_id dto invoices =
      if not (is_empty dto.applications)
      then throw_if
          (not (all (λ (a : PaymentApplicationDto). is_positive a.amount) dto.applications))
          validation_failed
        >> (throw_if (ltb_ℤ (dto.amount +ℤ money_tolerance lib) (total_of dto.applications))
              invalid_payment_application
            >> ok dto.applications)
      else if dto.hold_as_advance
      then ok []
      else ok (auto_apply lib company_id dto.customer_id (to_fixed dto.amount) invoices)

  -- The rows that say what was applied; `entry` is known for an advance that is used later.
  abbrev pub application_rows :
      ℕ → Option ℕ → Option ℕ → List PaymentApplicationDto → List PaymentApplication
  application_rows payment_id applied_on entry [] = []
  application_rows payment_id applied_on entry (a ∷ as_) =
      record {
        payment_id = payment_id;
        invoice_id = a.invoice_id;
        amount_applied = to_fixed a.amount;
        applied_on = applied_on;
        journal_entry_id = entry;
      }
      ∷ application_rows payment_id applied_on entry as_

  abbrev pub unapplied_of : ℤ → ℤ → ℤ
  unapplied_of amount applied = max_ℤ (amount -ℤ applied) (pos 0)

  -- Cr Accounts Receivable, when there is something to credit.
  abbrev pub receivable_lines :
      ℕ → ℤ → List PostingLineInput → Db → Result PaymentError (List PostingLineInput)
  receivable_lines company_id applied lines db =
      if over_tolerance lib applied
      then (lift of_account (get_by_number db company_id acct_ar) >>= λ (ar : Account).
          ok (lines ++ posting_line ar.id (pos 0) (to_fixed applied) (length lines) ∷ []))
      else ok lines

  -- Cr Customer Advances, likewise; the account is made if there is none.
  abbrev pub advance_lines :
      PaymentEnv
      → ℕ
      → ℤ
      → List PostingLineInput
      → Db
      → Result PaymentError (List PostingLineInput × Db)
  advance_lines env company_id unapplied lines db =
      if over_tolerance lib unapplied
      then (lift of_account
            (get_or_create_system_account env.account_id db company_id acct_customer_advances)
          >>= λ (advances, db'). ok (
            lines ++ posting_line advances.id (pos 0) (to_fixed unapplied) (length lines) ∷ [],
            db',
          ))
      else ok (lines, db)

  abbrev pub receipt_input :
      ℕ → ℕ → ReceivePaymentDto → ℕ → List PostingLineInput → CreatePostingInput
  receipt_input company_id user_id dto payment_id lines = record {
    company_id = company_id;
    date = dto.payment_date;
    memo = none;
    created_by = user_id;
    lines = lines;
    is_posted = true;
    source_type = some "payment";
    source_id = some payment_id;
    reversal_of_id = none;
  }

  abbrev pub new_payment : PaymentEnv → ℕ → ReceivePaymentDto → ℕ → ℕ → Payment
  new_payment env company_id dto bank_id entry_id = record {
    id = env.payment_id;
    company_id = company_id;
    customer_id = dto.customer_id;
    payment_number = env.payment_number;
    payment_date = dto.payment_date;
    amount = to_fixed dto.amount;
    bank_account_id = bank_id;
    journal_entry_id = some entry_id;
    advance_posted = true;
  }

  -- The lines of the receipt and the tables in which its accounts are.
  unfoldable pub receipt_lines :
      PaymentEnv → ℕ → ℕ → ℤ → ℤ → Db → Result PaymentError (List PostingLineInput × Db)
  receipt_lines env company_id bank_id amount applied db =
      receivable_lines company_id applied (posting_line bank_id (to_fixed amount) (pos 0) 0 ∷ []) db
      >>= λ lines. advance_lines env company_id (unapplied_of amount applied) lines db

  abbrev pub pays : Customer → ℤ → Customer
  pays customer applied = record customer { balance = to_fixed (customer.balance -ℤ applied) }

  unfoldable pub receive :
      PaymentEnv
      → (ℕ → SubType)
      → ℕ
      → ℕ
      → ReceivePaymentDto
      → Tables
      → Result PaymentError (Payment × Tables)
  receive env sub_type_of company_id user_id dto tables = do
    customer ←
        or_throw (find (is_customer company_id dto.customer_id) tables.customers) customer_not_found
    throw_if (not (is_positive dto.amount)) validation_failed
    applications ← choose_applications company_id dto tables.invoices
    account ← lift of_account (
        resolve_money_account sub_type_of tables.db company_id dto.bank_account_id
          (if dto.by_cash then acct_cash else acct_bank))
    (invoices, deliveries) ←
        apply_each lib env.today company_id customer.id applications
          (tables.invoices, tables.deliveries)
    let applied = total_of applications
    (lines, db) ← receipt_lines env company_id account.id dto.amount applied tables.db
    (entry, db') ← lift of_posting (
        create_entry lib (posting_env env 0)
          (receipt_input company_id user_id dto env.payment_id lines) db)
    let payment = new_payment env company_id dto account.id entry.id
    ok (
      payment,
      record {
        db = db';
        invoices = invoices;
        payments = payment ∷ tables.payments;
        applications =
            application_rows env.payment_id none none applications ++ tables.applications;
        customers = save_customer (pays customer applied) tables.customers;
        deliveries = deliveries;
      },
    )
