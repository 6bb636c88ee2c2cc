-- ===== src/Payments/Ties/Received.antt =====
-- A receipt keeps the balances of the customers tied to their invoices.
use mathlib.Core.Path.{subst}
use fin_matrix_backend.Prelude.{
  ℕ, ◌≡◌, refl, sym, ap, true, not, none, some, List, ◌∷◌, ◌++◌, find, if◌then◌else◌, ok, or_throw,
  unbind, unthrow, ok-injective,
}
use fin_matrix_backend.Money.{Decimals, is_positive}
use fin_matrix_backend.Store.{SubType}
use fin_matrix_backend.Accounts.{acct_cash, acct_bank, resolve_money_account}
use fin_matrix_backend.Invoices.{Invoice}
use fin_matrix_backend.Posting.Create.{create_entry}
use fin_matrix_backend.Payments.{
  DeliveryRow, Customer, Payment, Tables, customer_not_found, validation_failed, of_account,
  of_posting, lift, PaymentEnv, posting_env, PaymentApplicationDto, ReceivePaymentDto, is_customer,
  save_customer, total_of, apply_each,
}
use fin_matrix_backend.Payments.Receive.{
  choose_applications, application_rows, receipt_lines, receipt_input, pays, receive,
}
use fin_matrix_backend.Payments.Applied.{some_of_or_throw}

-- What `receive` has found, and what it leaves.
pub record Received (lib : Decimals) (env : PaymentEnv) (company_id : ℕ) (dto : ReceivePaymentDto)
    (tables : Tables) (customer : Customer) (apps : List PaymentApplicationDto)
    (state : List Invoice × List DeliveryRow) (out : Payment × Tables) : Type 0 where
  pub is_found : find (is_customer company_id dto.customer_id) tables.customers ≡ some customer
  pub chosen : choose_applications lib company_id dto tables.invoices ≡ ok apps
  pub applied :
      apply_each lib env.today company_id customer.id apps (tables.invoices, tables.deliveries)
      ≡ ok state
  pub payment_key : out.0.id ≡ env.payment_id
  pub posted : out.0.advance_posted ≡ true
  pub effect :
      record {
        db = out.1.db;
        invoices = state.0;
        payments = out.0 ∷ tables.payments;
        applications = application_rows lib env.payment_id none none apps ++ tables.applications;
        customers = save_customer (pays lib customer (total_of apps)) tables.customers;
        deliveries = state.1;
      }
      ≡ out.1

module _ (lib : Decimals) (env : PaymentEnv) (sub_type_of : ℕ → SubType) (company_id user_id : ℕ)
    (dto : ReceivePaymentDto) (tables : Tables) where
  pub receive_inv :
      (out : Payment × Tables)
      → receive lib env sub_type_of company_id user_id dto tables ≡ ok out
      → (customer : Customer) × (apps : List PaymentApplicationDto) × (state : List Invoice
          × List DeliveryRow)
        × Received lib env company_id dto tables customer apps state out
  unfolding receive
  receive_inv out h =
      unbind
        (or_throw (find (is_customer company_id dto.customer_id) tables.customers)
          customer_not_found)
        _ h
        λ customer found rest.
          unthrow (not (is_positive dto.amount)) validation_failed _ rest λ _ rest.
            unbind (choose_applications lib company_id dto tables.invoices) _ rest
              λ apps chosen rest.
                unbind
                  (lift of_account (
                    resolve_money_account sub_type_of tables.db company_id dto.bank_account_id
                      (if dto.by_cash then acct_cash else acct_bank)))
                  _ rest
                  λ account _ rest.
                    unbind
                      (apply_each lib env.today company_id customer.id apps
                        (tables.invoices, tables.deliveries))
                      _ rest
                      λ state applied rest.
                        unbind
                          (receipt_lines lib env company_id account.id dto.amount (total_of apps)
                            tables.db)
                          _ rest
                          λ lines _ rest.
                            unbind
                              (lift of_posting (
                                create_entry lib (posting_env env 0)
                                  (receipt_input lib company_id user_id dto env.payment_id lines.0)
                                  lines.1))
                              _ rest
                              λ entry _ last.
                                let same = ok-injective last in
                                let payment = ap (λ (o : Payment × Tables). o.0) same in
                                (
                                  customer,
                                  apps,
                                  state,
                                  record {
                                    is_found =
                                        some_of_or_throw
                                          (find (is_customer company_id dto.customer_id)
                                            tables.customers)
                                          customer_not_found customer found;
                                    chosen = chosen;
                                    applied = applied;
                                    payment_key = sym (ap (λ (p : Payment). p.id) payment);
                                    posted = sym (ap (λ (p : Payment). p.advance_posted) payment);
                                    effect =
                                        subst
                                          (λ (o : Payment × Tables).
                                            record {
                                              db = o.1.db;
                                              invoices = state.0;
                                              payments = o.0 ∷ tables.payments;
                                              applications =
                                                  application_rows lib env.payment_id none none apps
                                                  ++ tables.applications;
                                              customers =
                                                  save_customer (pays lib customer (total_of apps))
                                                    tables.customers;
                                              deliveries = state.1;
                                            }
                                            ≡ o.1)
                                          same refl;
                                  },
                                )
