-- ===== src/Payments/Ties/Chosen.antt =====
-- Where a receipt is not told what to pay, it is told in whole cents by the sweep.
use mathlib.Core.Path.{subst}
use fin_matrix_backend.Prelude.{
  ℕ, ◌≡◌, not, List, [], ◌∷◌, all, All, Bool-cases, inl, inr, if◌then◌else◌, ok, unthrow,
  ok-injective,
}
use fin_matrix_backend.Prelude.Int.{ℤ, ◌+ℤ◌, ◌-ℤ◌, ltb_ℤ}
use fin_matrix_backend.Money.{Decimals, is_positive, money_tolerance}
use fin_matrix_backend.Invoices.{Invoice, outstanding_for_customer}
use fin_matrix_backend.Payments.{
  validation_failed, invalid_payment_application, PaymentApplicationDto, ReceivePaymentDto,
  total_of, sweep, auto_apply,
}
use fin_matrix_backend.Payments.Receive.{is_empty, choose_applications}
use fin_matrix_backend.Payments.Applied.{AmountIsMoney}

sweep_money :
    (lib : Decimals) (is : List Invoice) (remaining : ℤ)
    → All (AmountIsMoney lib) (sweep lib is remaining)
sweep_money lib [] remaining = tt
sweep_money lib (i ∷ is) remaining = elim (Bool-cases (is_positive remaining)) [
  | inl p ↦ rw p (
    lib.to_fixed_idem (if ltb_ℤ remaining i.balance then remaining else i.balance),
    sweep_money lib is (remaining -ℤ (if ltb_ℤ remaining i.balance then remaining else i.balance)),
  )
  | inr n ↦ rw n tt
]

auto_apply_money :
    (lib : Decimals) (company_id customer_id : ℕ) (amount : ℤ) (invoices : List Invoice)
    → All (AmountIsMoney lib) (auto_apply lib company_id customer_id amount invoices)
unfolding auto_apply
auto_apply_money lib company_id customer_id amount invoices =
    sweep_money lib (outstanding_for_customer company_id customer_id invoices) amount

module _ (lib : Decimals) (company_id : ℕ) (dto : ReceivePaymentDto) (invoices : List Invoice)
    (given : All (AmountIsMoney lib) dto.applications) where
  pub chosen_money :
      (apps : List PaymentApplicationDto)
      → choose_applications lib company_id dto invoices ≡ ok apps
      → All (AmountIsMoney lib) apps
  unfolding choose_applications
  chosen_money apps h = elim (Bool-cases (is_empty dto.applications)) [
    | inl e ↦ elim (Bool-cases dto.hold_as_advance) [
      | inl hold ↦ subst (All (AmountIsMoney lib)) (ok-injective (rw (e, hold) at h)) tt
      | inr swept ↦
          subst (All (AmountIsMoney lib)) (ok-injective (rw (e, swept) at h))
            (auto_apply_money lib company_id dto.customer_id (lib.to_fixed dto.amount) invoices)
    ]
    | inr named ↦
        unthrow (not (all (λ (a : PaymentApplicationDto). is_positive a.amount) dto.applications))
          validation_failed _ (rw named at h)
          λ _ rest.
            unthrow (ltb_ℤ (dto.amount +ℤ money_tolerance lib) (total_of dto.applications))
              invalid_payment_application _ rest
              λ _ last. subst (All (AmountIsMoney lib)) (ok-injective last) given
  ]
