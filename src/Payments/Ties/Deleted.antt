-- ===== src/Payments/Ties/Deleted.antt =====
-- What the deletion of a receipt finds and leaves, and what its customer owes again.
use fin_matrix_backend.Prelude.{
  ℕ, ◌≡◌, sym, ap, true, false, some, List, [], find, arith, Bool-cases, inl, inr, ◌==◌, eq→==,
  if◌then◌else◌, is_some, ok, or_throw, unbind, unthrow, ok-injective,
}
use fin_matrix_backend.Prelude.Int.{ℤ, pos, ◌+ℤ◌, ◌-ℤ◌, int_laws, pos_part, neg_part}
use fin_matrix_backend.Prelude.Keys.{IsOther}
use fin_matrix_backend.Money.{Decimals, IsMoney}
use fin_matrix_backend.Store.{Db}
use fin_matrix_backend.JournalEntries.{assert_not_reconciled}
use fin_matrix_backend.Payments.{
  Customer, Payment, PaymentApplication, Tables, payment_not_found, advance_in_use, of_posting,
  lift, PaymentEnv, is_customer, open_delivery_holding_advance,
}
use fin_matrix_backend.Payments.Apply.{is_payment, applied_rows, sum_applied, save_customer_if}
use fin_matrix_backend.Payments.Delete.{
  unapply_each, mirror_receipt, mirror_each, entry_ids, owes_again, delete,
}
use fin_matrix_backend.Payments.Applied.{share, some_of_or_throw}
use fin_matrix_backend.Payments.Ties.{customer_key, held_on}
use fin_matrix_backend.Payments.Ties.Customers.{Agrees}
use fin_matrix_backend.Payments.Ties.Removed.{payments_without, rows_without}

-- What the customer owes again.
abbrev pub restored : Payment → List PaymentApplication → ℤ
restored p rows = if p.advance_posted then sum_applied rows else p.amount

pub record Deleted (lib : Decimals) (env : PaymentEnv) (company_id id : ℕ) (tables : Tables)
    (payment : Payment) (db : Db) (out : Tables) : Type 0 where
  pub is_found : find (is_payment company_id id) tables.payments ≡ some payment
  pub effect :
      record {
        db = db;
        invoices =
            (unapply_each lib env.today company_id
              (applied_rows payment.id tables.applications)
              (tables.invoices, tables.deliveries)).0;
        payments = payments_without payment.id tables.payments;
        applications = rows_without payment.id tables.applications;
        customers =
            save_customer_if
              (find (is_customer company_id payment.customer_id) tables.customers)
              (restored payment (applied_rows payment.id tables.applications))
              (owes_again lib)
              tables.customers;
        deliveries =
            (unapply_each lib env.today company_id
              (applied_rows payment.id tables.applications)
              (tables.invoices, tables.deliveries)).1;
      }
      ≡ out

pub delete_inv :
    (lib : Decimals) (env : PaymentEnv) (company_id id user_id : ℕ) (tables out : Tables)
    → delete lib env company_id id user_id tables ≡ ok out
    → (payment : Payment) × (db : Db) × Deleted lib env company_id id tables payment db out
unfolding delete
delete_inv lib env company_id id user_id tables out h =
    unbind (or_throw (find (is_payment company_id id) tables.payments) payment_not_found) _ h
      λ payment found rest.
        unbind (lift of_posting (assert_not_reconciled tables.db company_id payment.id)) _ rest
          λ _ _ rest.
            unthrow (is_some (open_delivery_holding_advance payment.id tables.deliveries))
              advance_in_use _ rest
              λ _ rest.
                unbind
                  (mirror_receipt lib env company_id user_id payment.id payment.journal_entry_id
                    tables.db)
                  _ rest
                  λ db' _ rest.
                    unbind
                      (mirror_each lib env 1 company_id user_id payment.id
                        (entry_ids (applied_rows payment.id tables.applications) []) db')
                      _ rest
                      λ db'' _ last. (
                        payment,
                        db'',
                        record {
                          is_found =
                              some_of_or_throw (find (is_payment company_id id) tables.payments)
                                payment_not_found payment found;
                          effect = ok-injective last;
                        },
                      )

restores_posted :
    (b s h h' o o' : ℤ) → h' +ℤ pos 0 ≡ h → o' ≡ o +ℤ s → b +ℤ h ≡ o → b +ℤ s +ℤ h' ≡ o'
restores_posted b s h h' o o' p q r = omega (
  int_laws,
  ap pos_part p,
  ap neg_part p,
  ap pos_part q,
  ap neg_part q,
  ap pos_part r,
  ap neg_part r,
)

restores_legacy :
    (b a s h h' o o' : ℤ) → h' +ℤ (a -ℤ s) ≡ h → o' ≡ o +ℤ s → b +ℤ h ≡ o → b +ℤ a +ℤ h' ≡ o'
restores_legacy b a s h h' o o' p q r = omega (
  int_laws,
  ap pos_part p,
  ap neg_part p,
  ap pos_part q,
  ap neg_part q,
  ap pos_part r,
  ap neg_part r,
)

same_again : (b h h' o o' : ℤ) → h' +ℤ pos 0 ≡ h → o' ≡ o +ℤ pos 0 → b +ℤ h ≡ o → b +ℤ h' ≡ o'
same_again b h h' o o' p q r = omega (
  int_laws,
  ap pos_part p,
  ap neg_part p,
  ap pos_part q,
  ap neg_part q,
  ap pos_part r,
  ap neg_part r,
)

module _ (lib : Decimals) (company_id : ℕ) (payment : Payment) (apps : List PaymentApplication)
    (held_by held_after owed_by owed_after : ℕ → ℤ) (amount_money : IsMoney lib payment.amount)
    (sum_money : IsMoney lib (sum_applied (applied_rows payment.id apps)))
    (less_held : (k : ℕ) → held_after k +ℤ held_on k apps payment ≡ held_by k)
    (more_owed : (k : ℕ)
      → owed_after k
        ≡ owed_by k
          +ℤ share payment.customer_id k (sum_applied (applied_rows payment.id apps))) where
  abbrev pub back : ℤ
  back = restored payment (applied_rows payment.id apps)

  pub restored_Agrees :
      (c : Customer)
      → c.id ≡ payment.customer_id
      → IsMoney lib c.balance
      → Agrees held_by owed_by c
      → Agrees held_after owed_after (owes_again lib c back)
  restored_Agrees c here money h =
      let mine : (payment.customer_id == c.id) ≡ true = eq→== payment.customer_id c.id (sym here) in
      let owes = rw mine at (more_owed c.id) in
      elim (Bool-cases payment.advance_posted) [
        | inl posted ↦
            let gave = rw (mine, posted) at (less_held c.id) in
            rw
              (
                posted,
                lib.fixed_add c.balance (sum_applied (applied_rows payment.id apps)) money
                    sum_money,
              )
              (restores_posted c.balance (sum_applied (applied_rows payment.id apps)) (held_by c.id)
                (held_after c.id) (owed_by c.id) (owed_after c.id) gave owes h)
        | inr legacy ↦
            let gave = rw (mine, legacy) at (less_held c.id) in
            rw (legacy, lib.fixed_add c.balance payment.amount money amount_money)
              (restores_legacy c.balance payment.amount (sum_applied (applied_rows payment.id apps))
                (held_by c.id) (held_after c.id) (owed_by c.id) (owed_after c.id) gave owes h)
      ]

  pub untouched_Agrees :
      (c : Customer)
      → IsOther customer_key payment.customer_id c
      → Agrees held_by owed_by c
      → Agrees held_after owed_after c
  untouched_Agrees c other h =
      let elsewhere : (payment.customer_id == c.id) ≡ false = ground arith in
      same_again c.balance (held_by c.id) (held_after c.id) (owed_by c.id) (owed_after c.id)
        (rw elsewhere at (less_held c.id)) (rw elsewhere at (more_owed c.id)) h
