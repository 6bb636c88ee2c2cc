-- ===== src/Payments/Ties/Deletions.antt =====
-- A receipt that is deleted leaves the balances of the customers tied to their invoices.
use fin_matrix_backend.Prelude.{ℕ, ◌≡◌, some, List, find, All}
use fin_matrix_backend.Prelude.Int.{ℤ}
use fin_matrix_backend.Money.{Decimals, IsMoney}
use fin_matrix_backend.Store.{Db}
use fin_matrix_backend.Invoices.{Invoice}
use fin_matrix_backend.Payments.{
  Customer, Payment, PaymentApplication, Tables, PaymentEnv, is_customer,
}
use fin_matrix_backend.Payments.Apply.{applied_rows}
use fin_matrix_backend.Payments.Delete.{unapply_each, owes_again}
use fin_matrix_backend.Payments.Covered.{IsCovered, IsAmount, HasInvoice}
use fin_matrix_backend.Payments.Ties.{held_for, IsTied}
use fin_matrix_backend.Payments.Ties.Removed.{payments_without, rows_without}
use fin_matrix_backend.Payments.Ties.Deleted.{restored, Deleted}

-- The rows of a receipt fit the invoices: amounts of four places that are not negative, on invoices
-- of its customer that have been paid at least that much.
pub record FitsInvoices (lib : Decimals) (company_id : ℕ) (tables : Tables) (payment : Payment)
    : Type 0 where
  pub amount : IsMoney lib payment.amount
  pub amounts : All (IsAmount lib) (applied_rows payment.id tables.applications)
  pub there :
      All
        (HasInvoice company_id payment.customer_id tables.invoices)
        (applied_rows payment.id tables.applications)
  pub covered : All (IsCovered (applied_rows payment.id tables.applications)) tables.invoices

module _ (lib : Decimals) (env : PaymentEnv) (company_id id : ℕ) (tables : Tables)
    (tied : IsTied lib tables) (payment : Payment) (customer : Customer)
    (fits : FitsInvoices lib company_id tables payment)
    (payer : find (is_customer company_id payment.customer_id) tables.customers ≡ some customer)
    (db : Db) (out : Tables) (run : Deleted lib env company_id id tables payment db out) where
  abbrev rows : List PaymentApplication
  rows = applied_rows payment.id tables.applications

  abbrev invoices_after : List Invoice
  invoices_after =
      (unapply_each lib env.today company_id rows (tables.invoices, tables.deliveries)).0

  abbrev held_before : ℕ → ℤ
  held_before k = held_for k tables.applications tables.payments

  abbrev held_after : ℕ → ℤ
  held_after k =
      held_for k (rows_without payment.id tables.applications)
        (payments_without payment.id tables.payments)

  abbrev changed : Customer
  changed = owes_again lib customer (restored payment rows)
