-- ===== src/Payments/Ties/Applications.antt =====
-- Money that a receipt still holds, applied later, keeps the balances tied to the invoices.
use fin_matrix_backend.Prelude.{ℕ, ◌≡◌, List, All, if◌then◌else◌}
use fin_matrix_backend.Prelude.Int.{ℤ, pos, ◌+ℤ◌}
use fin_matrix_backend.Prelude.Keys.{HasUniqueKeys}
use fin_matrix_backend.Money.{Decimals, IsMoney}
use fin_matrix_backend.Invoices.{Invoice}
use fin_matrix_backend.Invoices.Owed.{owed}
use fin_matrix_backend.Payments.{Customer, Payment, PaymentApplication, Tables}
use fin_matrix_backend.Payments.Applied.{share}
use fin_matrix_backend.Payments.Ties.{customer_key, held_for, IsTied}
use fin_matrix_backend.Payments.Ties.Customers.{Agrees}
use fin_matrix_backend.Payments.Ties.Spent.{Spent}

module _ (lib : Decimals) (company_id : ℕ) (payment : Payment) (total : ℤ)
    (total_fixed : IsMoney lib total) (tables : Tables) (tied : IsTied lib tables)
    (rows : List PaymentApplication) (invoices : List Invoice)
    (less_held : (k : ℕ)
      → held_for k rows tables.payments
          +ℤ (if payment.advance_posted then pos 0 else share payment.customer_id k total)
        ≡ held_for k tables.applications tables.payments)
    (less_owed : (k : ℕ)
      → owed k invoices +ℤ share payment.customer_id k total ≡ owed k tables.invoices) where
  abbrev CustomersAreTied : List Customer → Type 0
  CustomersAreTied cs =
      HasUniqueKeys customer_key cs
      × All (λ (c : Customer). IsMoney lib c.balance) cs
      × All (Agrees (λ k. held_for k rows tables.payments) (λ k. owed k invoices)) cs
