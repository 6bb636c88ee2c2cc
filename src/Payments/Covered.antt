-- ===== src/Payments/Covered.antt =====
-- Invoices that have been paid at least what rows of receipts say.
use fin_matrix_backend.Prelude.{
  ℕ, ◌≡◌, some, List, [], ◌∷◌, find, All, All-map, Bool-cases, inl, inr, ◌==◌, if◌then◌else◌,
}
use fin_matrix_backend.Prelude.Int.{ℤ, pos, ◌+ℤ◌, ◌-ℤ◌, ◌≤ℤ◌, int_laws}
use fin_matrix_backend.Money.{Decimals, IsMoney}
use fin_matrix_backend.Invoices.{Invoice, is_invoice}
use fin_matrix_backend.Payments.{PaymentApplication}

-- What rows say was applied to one invoice.
abbrev pub applied_to : ℕ → List PaymentApplication → ℤ
applied_to id [] = pos 0
applied_to id (a ∷ as_) =
    (if a.invoice_id == id then a.amount_applied else pos 0) +ℤ applied_to id as_

-- An invoice has been paid at least what the rows say.
abbrev pub IsCovered : List PaymentApplication → Invoice → Type 0
IsCovered rows i = applied_to i.id rows ≤ℤ i.amount_paid

abbrev pub IsAmount : Decimals → PaymentApplication → Type 0
IsAmount lib a = IsMoney lib a.amount_applied × (pos 0 ≤ℤ a.amount_applied)

-- The invoice of a row is there, and it is the customer's.
abbrev pub HasInvoice : ℕ → ℕ → List Invoice → PaymentApplication → Type 0
HasInvoice company_id customer_id invoices a =
    (i : Invoice) × (find (is_invoice company_id a.invoice_id) invoices ≡ some i)
    × (i.customer_id ≡ customer_id)

sum_not_negative : (x y : ℤ) → pos 0 ≤ℤ x → pos 0 ≤ℤ y → pos 0 ≤ℤ x +ℤ y
sum_not_negative x y p q = omega (int_laws, p, q)

drop_first : (x y z : ℤ) → pos 0 ≤ℤ x → x +ℤ y ≤ℤ z → y ≤ℤ z
drop_first x y z p q = omega (int_laws, p, q)

pub drop_second : (x y z : ℤ) → pos 0 ≤ℤ y → x +ℤ y ≤ℤ z → x ≤ℤ z
drop_second x y z p q = omega (int_laws, p, q)

pub move_first : (x y z : ℤ) → x +ℤ y ≤ℤ z → y ≤ℤ z -ℤ x
move_first x y z q = omega (int_laws, q)

module _ (lib : Decimals) where
  on_not_negative :
      (id : ℕ) (a : PaymentApplication)
      → pos 0 ≤ℤ a.amount_applied
      → pos 0 ≤ℤ (if a.invoice_id == id then a.amount_applied else pos 0)
  on_not_negative id a p = elim (Bool-cases (a.invoice_id == id)) [
    | inl same ↦ rw same p
    | inr other ↦ rw other (omega int_laws)
  ]

  pub applied_to_not_negative :
      (id : ℕ) (as_ : List PaymentApplication) → All (IsAmount lib) as_ → pos 0 ≤ℤ applied_to id as_
  applied_to_not_negative id [] h = omega int_laws
  applied_to_not_negative id (a ∷ as_) (h, hs) =
      sum_not_negative (if a.invoice_id == id then a.amount_applied else pos 0) (applied_to id as_)
        (on_not_negative id a h.1) (applied_to_not_negative id as_ hs)

  pub rest_IsCovered :
      (a : PaymentApplication) (as_ : List PaymentApplication) (is : List Invoice)
      → IsAmount lib a
      → All (IsCovered (a ∷ as_)) is
      → All (IsCovered as_) is
  rest_IsCovered a as_ is h =
      All-map (IsCovered (a ∷ as_)) (IsCovered as_)
        (λ i c.
          drop_first (if a.invoice_id == i.id then a.amount_applied else pos 0)
            (applied_to i.id as_) i.amount_paid (on_not_negative i.id a h.1) c)
        is
