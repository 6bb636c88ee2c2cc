-- ===== src/Invoices/Settle.antt =====
-- Invoices that are sound, and what applying an amount does to them.
use fin_matrix_backend.Prelude.{
  ℕ, ◌≡◌, sym, ap, ◌∙◌, true, false, not, Option, none, some, List, find, arith, ok, or_throw,
  unbind, unthrow, ok-injective,
}
use fin_matrix_backend.Prelude.Int.{
  ℤ, pos, ◌+ℤ◌, ◌-ℤ◌, ◌≤ℤ◌, ◌<ℤ◌, ltb_ℤ, pos_part, neg_part, int_laws,
}
use fin_matrix_backend.Money.{Decimals, IsMoney, is_positive}
use fin_matrix_backend.Invoices.{
  Invoice, invoice_not_found, validation_failed, payment_exceeds_balance, is_closed, is_invoice,
  save_invoice, with_paid, apply_payment,
}

-- The amounts of an invoice hold money and belong together, and it is not paid over its total.
pub record IsSound (lib : Decimals) (i : Invoice) : Type 0 where
  pub total_money : IsMoney lib i.total
  pub paid_money : IsMoney lib i.amount_paid
  pub derived : i.balance ≡ i.total -ℤ i.amount_paid
  pub not_negative : pos 0 ≤ℤ i.amount_paid
  pub not_over : i.amount_paid ≤ℤ i.total

pub balance-IsMoney : (lib : Decimals) (i : Invoice) → IsSound lib i → IsMoney lib i.balance
balance-IsMoney lib i s =
    rw s.derived (lib.fixed_sub i.total i.amount_paid s.total_money s.paid_money)

-- Between zero and the balance, an amount leaves a sound invoice sound.
pub with_paid-IsSound :
    (lib : Decimals) (today : ℕ) (i : Invoice) (amount : ℤ)
    → IsSound lib i
    → pos 0 ≤ℤ amount
    → amount ≤ℤ i.balance
    → IsSound lib (with_paid lib today i amount)
with_paid-IsSound lib today i amount s low high =
    let paid_before = s.paid_money in
    let below =
      rw paid_before at
        (lib.to_fixed_mono i.amount_paid (i.amount_paid +ℤ amount) (omega int_laws)) in
    let fits : i.amount_paid +ℤ amount ≤ℤ i.total =
      omega (int_laws, ap pos_part s.derived, ap neg_part s.derived) in
    let above = rw s.total_money at (lib.to_fixed_mono (i.amount_paid +ℤ amount) i.total fits) in
    let money = lib.to_fixed_idem (i.amount_paid +ℤ amount) in
    record {
      total_money = s.total_money;
      paid_money = money;
      derived = lib.fixed_sub i.total (lib.to_fixed (i.amount_paid +ℤ amount)) s.total_money money;
      not_negative = omega (int_laws, s.not_negative, below);
      not_over = above;
    }

-- For money the balance falls by the amount.
pub with_paid-balance :
    (lib : Decimals) (today : ℕ) (i : Invoice) (amount : ℤ)
    → IsSound lib i
    → IsMoney lib amount
    → (with_paid lib today i amount).balance ≡ i.balance -ℤ amount
with_paid-balance lib today i amount s money =
    let sum = lib.fixed_add i.amount_paid amount s.paid_money money in
    let summed : (with_paid lib today i amount).amount_paid ≡ i.amount_paid +ℤ amount = sum in
    let left = lib.fixed_sub i.total (i.amount_paid +ℤ amount) s.total_money sum in
    rw sum (left ∙ rw s.derived (omega int_laws))

-- What `apply_payment` has found and checked, and what it gives.
pub record Applied (lib : Decimals) (today company_id invoice_id : ℕ) (amount : ℤ)
    (invoices : List Invoice) (invoice : Invoice) (out : Invoice × List Invoice) : Type 0 where
  pub is_found : find (is_invoice company_id invoice_id) invoices ≡ some invoice
  pub is_payable : is_closed invoice.status ≡ false
  pub positive : pos 0 <ℤ amount
  pub covered : amount ≤ℤ invoice.balance
  pub effect : out ≡ (
    with_paid lib today invoice amount,
    save_invoice (with_paid lib today invoice amount) invoices,
  )

pub apply_payment_inv :
    (lib : Decimals) (today company_id invoice_id : ℕ) (amount : ℤ) (invoices : List Invoice)
    (out : Invoice × List Invoice)
    → apply_payment lib today company_id invoice_id amount invoices ≡ ok out
    → (invoice : Invoice) × Applied lib today company_id invoice_id amount invoices invoice out
unfolding apply_payment
apply_payment_inv lib today company_id invoice_id amount invoices out h =
    unbind (or_throw (find (is_invoice company_id invoice_id) invoices) invoice_not_found) _ h
      λ invoice found rest.
        unthrow (is_closed invoice.status) validation_failed _ rest λ is_payable rest'.
          unthrow (not (is_positive amount)) validation_failed _ rest' λ positive rest''.
            unthrow (ltb_ℤ invoice.balance amount) payment_exceeds_balance _ rest'' λ covered last.
              (
                invoice,
                record {
                  is_found = of_or_throw (find (is_invoice company_id invoice_id) invoices) found;
                  is_payable = is_payable;
                  positive = ground arith;
                  covered = ground arith;
                  effect = sym (ok-injective last);
                },
              )
  where
    of_or_throw :
        (o : Option Invoice) {i : Invoice} → or_throw o invoice_not_found ≡ ok i → o ≡ some i
    of_or_throw none e = cc
    of_or_throw (some j) e = ap some (ok-injective e)

pub apply_payment_of :
    (lib : Decimals) (today company_id invoice_id : ℕ) (amount : ℤ) (invoices : List Invoice)
    (invoice : Invoice)
    → find (is_invoice company_id invoice_id) invoices ≡ some invoice
    → is_closed invoice.status ≡ false
    → pos 0 <ℤ amount
    → amount ≤ℤ invoice.balance
    → apply_payment lib today company_id invoice_id amount invoices
      ≡ ok (
        with_paid lib today invoice amount,
        save_invoice (with_paid lib today invoice amount) invoices,
      )
unfolding apply_payment
apply_payment_of lib today company_id invoice_id amount invoices invoice found is_payable positive
      covered =
    let p : is_positive amount ≡ true = ground arith in
    let c : ltb_ℤ invoice.balance amount ≡ false = ground arith in rw (found, is_payable, p, c)
