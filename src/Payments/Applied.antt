-- ===== src/Payments/Applied.antt =====
-- What applying money to invoices does to what customers owe.
use mathlib.Core.Path.{subst}
use fin_matrix_backend.Prelude.{
  ℕ, ◌≡◌, refl, sym, ap, ◌∙◌, Bool, true, false, not, Option, none, some, List, [], ◌∷◌, find,
  find-All, All, arith, Bool-cases, inl, inr, ◌⊎◌, eq_of_some, ◌==◌, ==→eq, if◌then◌else◌, Result,
  ok, err, or_throw, unbind, unthrow, ok-injective,
}
use fin_matrix_backend.Prelude.Int.{
  ℤ, pos, ◌+ℤ◌, ◌-ℤ◌, ◌≤ℤ◌, ◌<ℤ◌, int_laws, +ℤ_zero, pos_part, neg_part,
}
use fin_matrix_backend.Money.{Decimals, IsMoney}
use fin_matrix_backend.Invoices.{
  Invoice, InvoiceError, is_invoice, save_invoice, with_paid, apply_payment,
}
use fin_matrix_backend.Invoices.Settle.{
  IsSound, apply_payment_inv, with_paid-IsSound, with_paid-balance,
}
use fin_matrix_backend.Invoices.Owed.{
  owed, owed_on, HasUniqueIds, found_id, owed-save_invoice, save_invoice-HasUniqueIds,
  save_invoice-All,
}
use fin_matrix_backend.Payments.{
  DeliveryRow, PaymentError, of_invoice, invoice_customer_mismatch, lift, PaymentApplicationDto,
  total_of, apply_one, apply_each,
}

pub record InvoicesAreSound (lib : Decimals) (is : List Invoice) : Type 0 where
  pub sound : All (IsSound lib) is
  pub unique : HasUniqueIds is

-- A customer's part of an amount that one customer pays.
abbrev pub share : ℕ → ℕ → ℤ → ℤ
share customer_id k amount = if customer_id == k then amount else pos 0

pub lift_inv :
    {E A : Type 0} (f : E → PaymentError) (r : Result E A) (a : A) → lift f r ≡ ok a → r ≡ ok a
lift_inv f (ok b) a h = ap ok (ok-injective h)
lift_inv f (err e) a h = absurd (cc h)

pub some_of_or_throw :
    {E A : Type 0} (o : Option A) (e : E) (a : A) → or_throw o e ≡ ok a → o ≡ some a
some_of_or_throw none e a h = absurd (cc h)
some_of_or_throw (some b) e a h = ap some (ok-injective h)

-- What one application has found, and what it leaves.
pub record AppliedOne (lib : Decimals) (today company_id customer_id : ℕ)
    (app : PaymentApplicationDto) (invoices : List Invoice) (invoice : Invoice)
    (after : List Invoice) : Type 0 where
  pub is_found : find (is_invoice company_id app.invoice_id) invoices ≡ some invoice
  pub of_customer : invoice.customer_id ≡ customer_id
  pub positive : pos 0 <ℤ app.amount
  pub covered : app.amount ≤ℤ invoice.balance
  pub effect : after ≡ save_invoice (with_paid lib today invoice app.amount) invoices

bool_of_not : (b : Bool) → not b ≡ false → b ≡ true
bool_of_not true h = refl
bool_of_not false h = sym h

pub apply_one_inv :
    (lib : Decimals) (today company_id customer_id : ℕ) (app : PaymentApplicationDto)
    (state out : List Invoice × List DeliveryRow)
    → apply_one lib today company_id customer_id app state ≡ ok out
    → (invoice : Invoice) × AppliedOne lib today company_id customer_id app state.0 invoice out.0
unfolding apply_one
apply_one_inv lib today company_id customer_id app (invoices, deliveries) out h =
    unbind
      (or_throw (find (is_invoice company_id app.invoice_id) invoices)
        (of_invoice InvoiceError.invoice_not_found))
      _ h
      λ invoice found rest.
        unthrow (not (invoice.customer_id == customer_id)) invoice_customer_mismatch _ rest
          λ mine rest'.
            unbind
              (lift of_invoice
                (apply_payment lib today company_id app.invoice_id app.amount invoices))
              _ rest'
              λ paid applied last.
                let (x, run) =
                  apply_payment_inv lib today company_id app.invoice_id app.amount invoices paid (
                    lift_inv of_invoice
                      (apply_payment lib today company_id app.invoice_id app.amount invoices) paid
                      applied) in
                let here =
                  some_of_or_throw (find (is_invoice company_id app.invoice_id) invoices)
                    (of_invoice InvoiceError.invoice_not_found) invoice found in
                let same : some x ≡ some invoice = sym run.is_found ∙ here in
                (
                  x,
                  record {
                    is_found = run.is_found;
                    of_customer =
                        ap (λ (i : Invoice). i.customer_id) (eq_of_some same)
                        ∙ ==→eq invoice.customer_id customer_id (bool_of_not _ mine);
                    positive = run.positive;
                    covered = run.covered;
                    effect =
                        sym (ap (λ (o : List Invoice × List DeliveryRow). o.0) (ok-injective last))
                        ∙ ap (λ (o : Invoice × List Invoice). o.1) run.effect;
                  },
                )

cancel : (a b x d : ℤ) → a +ℤ x ≡ b +ℤ (x -ℤ d) → a +ℤ d ≡ b
cancel a b x d h = omega (int_laws, ap pos_part h, ap neg_part h)

cancel_zero : (a b : ℤ) → a +ℤ pos 0 ≡ b +ℤ pos 0 → a +ℤ pos 0 ≡ b
cancel_zero a b h = h ∙ +ℤ_zero b

le_of_lt : (a b : ℤ) → a <ℤ b → a ≤ℤ b
le_of_lt a b h = omega arith

module _ (lib : Decimals) (today company_id customer_id : ℕ) (app : PaymentApplicationDto)
    (invoices : List Invoice) (invoice : Invoice) (after : List Invoice)
    (sound : InvoicesAreSound lib invoices)
    (run : AppliedOne lib today company_id customer_id app invoices invoice after) where
  found_IsSound : IsSound lib invoice
  found_IsSound =
      find-All (IsSound lib) (is_invoice company_id app.invoice_id) invoices invoice sound.sound
        run.is_found

  applied-InvoicesAreSound : InvoicesAreSound lib after
  applied-InvoicesAreSound = subst (InvoicesAreSound lib) (sym run.effect) record {
    sound =
        save_invoice-All (IsSound lib) (with_paid lib today invoice app.amount) invoices
          (with_paid-IsSound lib today invoice app.amount found_IsSound
            (le_of_lt (pos 0) app.amount run.positive) run.covered)
          sound.sound;
    unique =
        save_invoice-HasUniqueIds (with_paid lib today invoice app.amount) invoices sound.unique;
  }

  owed_applied :
      (k : ℕ)
      → IsMoney lib app.amount
      → owed k after +ℤ share customer_id k app.amount ≡ owed k invoices
  owed_applied k money =
      let changed =
        owed-save_invoice company_id app.invoice_id k invoices invoice
          (with_paid lib today invoice app.amount) sound.unique run.is_found
          (found_id company_id app.invoice_id invoices invoice sound.unique run.is_found) in
      let fell = with_paid-balance lib today invoice app.amount found_IsSound money in
      rw run.effect (
        by_customer (owed k (save_invoice (with_paid lib today invoice app.amount) invoices))
          (owed k invoices) changed fell run.of_customer (Bool-cases (customer_id == k)))
    where
      by_customer :
          (a b : ℤ)
          → a +ℤ owed_on k invoice ≡ b +ℤ owed_on k (with_paid lib today invoice app.amount)
          → (with_paid lib today invoice app.amount).balance ≡ invoice.balance -ℤ app.amount
          → invoice.customer_id ≡ customer_id
          → ((customer_id == k) ≡ true) ⊎ ((customer_id == k) ≡ false)
          → a +ℤ share customer_id k app.amount ≡ b
      by_customer a b changed fell mine (inl same) =
          let c : (invoice.customer_id == k) ≡ true = rw mine same in
          rw same (cancel a b invoice.balance app.amount (rw c at changed ∙ ap (λ z. b +ℤ z) fell))
      by_customer a b changed fell mine (inr other) =
          let c : (invoice.customer_id == k) ≡ false = rw mine other in
          rw other (cancel_zero a b (rw c at changed))

abbrev pub AmountIsMoney : Decimals → PaymentApplicationDto → Type 0
AmountIsMoney lib a = IsMoney lib a.amount

regroup : (x y z w : ℤ) → z +ℤ y ≡ w → z +ℤ (x +ℤ y) ≡ w +ℤ x
regroup x y z w h = omega (int_laws, ap pos_part h, ap neg_part h)

pub share_zero : (c k : ℕ) (z : ℤ) → z +ℤ share c k (pos 0) ≡ z
share_zero c k z = elim (Bool-cases (c == k)) [
  | inl same ↦ rw same (+ℤ_zero z)
  | inr other ↦ rw other (+ℤ_zero z)
]

share_add :
    (c k : ℕ) (x y z w : ℤ) → z +ℤ share c k y ≡ w → z +ℤ share c k (x +ℤ y) ≡ w +ℤ share c k x
share_add c k x y z w h = elim (Bool-cases (c == k)) [
  | inl same ↦ rw same (regroup x y z w (rw same at h))
  | inr other ↦ rw other (rw other at h ∙ sym (+ℤ_zero w))
]

-- An application to each invoice keeps the invoices sound, and what each customer owes falls by
-- their share of the total.
pub apply_each-owed :
    (lib : Decimals) (today company_id customer_id : ℕ) (apps : List PaymentApplicationDto)
    (state out : List Invoice × List DeliveryRow)
    → InvoicesAreSound lib state.0
    → All (AmountIsMoney lib) apps
    → apply_each lib today company_id customer_id apps state ≡ ok out
    → InvoicesAreSound lib out.0
      × ((k : ℕ) → owed k out.0 +ℤ share customer_id k (total_of apps) ≡ owed k state.0)
apply_each-owed lib today company_id customer_id [] state out sound money h =
    subst
      (λ (o : List Invoice × List DeliveryRow).
        InvoicesAreSound lib o.0
        × ((k : ℕ) → owed k o.0 +ℤ share customer_id k (pos 0) ≡ owed k state.0))
      (ok-injective h) (sound, λ k. share_zero customer_id k (owed k state.0))
apply_each-owed lib today company_id customer_id (a ∷ as_) state out sound (m, ms) h =
    unbind (apply_one lib today company_id customer_id a state) _ h λ next applied rest.
      let (invoice, run) = apply_one_inv lib today company_id customer_id a state next applied in
      let sound' =
        applied-InvoicesAreSound lib today company_id customer_id a state.0 invoice next.0 sound
          run in
      let (after, owes) =
        apply_each-owed lib today company_id customer_id as_ next out sound' ms rest in
      (
        after,
        λ k.
            share_add customer_id k a.amount (total_of as_) (owed k out.0) (owed k next.0) (owes k)
            ∙ owed_applied lib today company_id customer_id a state.0 invoice next.0 sound run k m,
      )
