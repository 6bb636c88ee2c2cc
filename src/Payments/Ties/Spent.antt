-- ===== src/Payments/Ties/Spent.antt =====
-- What is found when a receipt that is there already goes to invoices, and what is left.
use fin_matrix_backend.Prelude.{
  ℕ, ◌≡◌, not, Option, none, some, List, ◌++◌, all, find, inl, inr, Bool-cases, ltb, if◌then◌else◌,
  or_else, ok, or_throw, unbind, unthrow, ok-injective,
}
use fin_matrix_backend.Prelude.Int.{ℤ, ◌+ℤ◌, ◌-ℤ◌, ltb_ℤ}
use fin_matrix_backend.Money.{Decimals, is_positive, money_tolerance}
use fin_matrix_backend.Store.{Db}
use fin_matrix_backend.Invoices.{Invoice}
use fin_matrix_backend.Payments.{
  DeliveryRow, Customer, Payment, Tables, payment_not_found, validation_failed, exceeds_unapplied,
  advance_reserved, applied_before_receipt, future_date, PaymentEnv, PaymentApplicationDto,
  is_customer, total_of, open_delivery_holding_advance, apply_each,
}
use fin_matrix_backend.Payments.Receive.{application_rows, pays}
use fin_matrix_backend.Payments.Apply.{
  is_payment, applied_rows, sum_applied, is_reserved, save_customer_if, post_application,
  settle_application, apply,
}
use fin_matrix_backend.Payments.Applied.{some_of_or_throw}

-- The tables after money that is posted as an advance, or credited already, is applied.
abbrev pub customers_after : Decimals → ℕ → Payment → ℤ → List Customer → List Customer
customers_after lib company_id payment requested customers =
    if payment.advance_posted
    then save_customer_if (find (is_customer company_id payment.customer_id) customers) requested
        (pays lib) customers
    else customers

pub record Spent (lib : Decimals) (env : PaymentEnv) (company_id payment_id : ℕ)
    (apps : List PaymentApplicationDto) (tables : Tables) (payment : Payment)
    (state : List Invoice × List DeliveryRow) (entry : Option ℕ) (on : ℕ) (db : Db) (out : Tables)
    : Type 0 where
  pub is_found : find (is_payment company_id payment_id) tables.payments ≡ some payment
  pub applied :
      apply_each lib env.today company_id payment.customer_id apps
        (tables.invoices, tables.deliveries)
      ≡ ok state
  pub effect :
      record tables {
        db = db;
        invoices = state.0;
        deliveries = state.1;
        customers = customers_after lib company_id payment (total_of apps) tables.customers;
        applications = application_rows lib payment.id (some on) entry apps ++ tables.applications;
      }
      ≡ out

module _ (lib : Decimals) (env : PaymentEnv) (company_id user_id : ℕ)
    (apps : List PaymentApplicationDto) (tables : Tables) where
  settled :
      (on : ℕ) (payment : Payment) (state : List Invoice × List DeliveryRow) (out : Tables)
      → settle_application lib env company_id user_id on payment apps state tables ≡ ok out
      → (entry : Option ℕ) × (db : Db) × (record tables {
        db = db;
        invoices = state.0;
        deliveries = state.1;
        customers = customers_after lib company_id payment (total_of apps) tables.customers;
        applications = application_rows lib payment.id (some on) entry apps ++ tables.applications;
      }
          ≡ out)
  settled on payment (invoices, deliveries) out h = elim (Bool-cases payment.advance_posted) [
    | inl posted ↦
        unbind (post_application lib env company_id user_id on payment.id (total_of apps) tables.db)
          _ (rw posted at h) λ made _ last. (some made.0.id, made.1, rw posted (ok-injective last))
    | inr legacy ↦ (none, tables.db, rw legacy (ok-injective (rw legacy at h)))
  ]

  pub apply_inv :
      (payment_id : ℕ) (date for_delivery : Option ℕ) (out : Tables)
      → apply lib env company_id user_id payment_id apps date for_delivery tables ≡ ok out
      → (payment : Payment) × (state : List Invoice × List DeliveryRow) × (entry : Option ℕ)
        × (on : ℕ) × (db : Db) × Spent lib env company_id payment_id apps tables payment state entry
            on db out
  unfolding apply
  apply_inv payment_id date for_delivery out h =
      unbind (or_throw (find (is_payment company_id payment_id) tables.payments) payment_not_found)
        _ h
        λ payment found rest.
          unthrow
            (is_reserved (open_delivery_holding_advance payment.id tables.deliveries) for_delivery)
            advance_reserved _ rest
            λ _ rest.
              unthrow (not (all (λ (a : PaymentApplicationDto). is_positive a.amount) apps))
                validation_failed _ rest
                λ _ rest.
                  unthrow
                    (ltb_ℤ
                      (payment.amount
                        -ℤ sum_applied (applied_rows payment_id tables.applications)
                        +ℤ money_tolerance lib)
                      (total_of apps))
                    exceeds_unapplied _ rest
                    λ _ rest.
                      unthrow (ltb env.today (or_else date env.today)) future_date _ rest λ _ rest.
                        unthrow (ltb (or_else date env.today) payment.payment_date)
                          applied_before_receipt _ rest
                          λ _ rest.
                            unbind
                              (apply_each lib env.today company_id payment.customer_id apps
                                (tables.invoices, tables.deliveries))
                              _ rest
                              λ state applied last.
                                let (entry, db, effect) =
                                  settled (or_else date env.today) payment state out last in
                                (
                                  payment,
                                  state,
                                  entry,
                                  or_else date env.today,
                                  db,
                                  record {
                                    is_found =
                                        some_of_or_throw
                                          (find (is_payment company_id payment_id) tables.payments)
                                          payment_not_found payment found;
                                    applied = applied;
                                    effect = effect;
                                  },
                                )
