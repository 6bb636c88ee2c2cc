-- ===== src/Credit/Advance.antt =====
-- What lets a sale past the credit limit: an advance or the owner.
use fin_matrix_backend.Prelude.{
  ℕ, ◌≡◌, sym, ap, ◌∙◌, Bool, true, false, not, ◌&&◌, ◌||◌, Option, none, some, List, ltb, length,
  arith, ok, err, Result, inl, inr, Bool-cases,
}
use fin_matrix_backend.Prelude.Int.{ℤ, pos, ◌+ℤ◌, ◌-ℤ◌, ltb_ℤ, leb_ℤ, max_ℤ, int_laws}
use fin_matrix_backend.Money.{Decimals, IsMoney}
use fin_matrix_backend.Aging.Request.{trim_start, trim_end}
use fin_matrix_backend.Credit.{
  CreditRow, CreditOverride, AuditEvent, CreditError, is_admin, exposure_of, excess_of,
  assess_credit, enforce_credit_limit,
}

-- A customer with a limit is within it exactly when the exposure does not exceed it.
abbrev pub is_within : CreditRow → ℤ → Bool
is_within row adds =
    not (ltb_ℤ (pos 0) row.limit) || leb_ℤ (exposure_of row adds -ℤ row.limit) (pos 0)

max_zero : (x : ℤ) → leb_ℤ (max_ℤ x (pos 0)) (pos 0) ≡ leb_ℤ x (pos 0)
max_zero x = ground arith

within_limit_lem :
    (row : CreditRow) (adds : ℤ) → leb_ℤ (excess_of row adds) (pos 0) ≡ is_within row adds
within_limit_lem row adds = elim (Bool-cases (ltb_ℤ (pos 0) row.limit)) [
  | inl limited ↦ rw limited (max_zero (exposure_of row adds -ℤ row.limit))
  | inr free ↦ rw free
]

-- An owner's override with a reason of five characters.
abbrev pub is_override : Option CreditOverride → Bool
is_override none = false
is_override (some o) = is_admin o.role && not (ltb (length (trim_end (trim_start o.reason))) 5)

abbrev pub passes : {A : Type 0} → Result CreditError A → Bool
passes (ok _) = true
passes (err _) = false

-- A sale passes exactly when the customer has no limit, the exposure with the sale does not exceed
-- it, or the owner overrides it with a reason of at least five characters.
pub enforce_credit_limit_lem :
    (lib : Decimals) (company_id : ℕ) (row : CreditRow) (adds : ℤ) (target_id : Option ℕ)
    (override : Option CreditOverride) (trail : List AuditEvent)
    → passes (enforce_credit_limit lib company_id (some row) adds target_id override trail)
      ≡ (is_within row adds || is_override override)
unfolding enforce_credit_limit assess_credit
enforce_credit_limit_lem lib company_id row adds target_id none trail =
    ground (arith, within_limit_lem row adds)
enforce_credit_limit_lem lib company_id row adds target_id (some o) trail =
    ground (arith, within_limit_lem row adds)

-- With the money of an advance.
abbrev pub with_advance : ℤ → CreditRow → CreditRow
with_advance a row = record row { advances = row.advances +ℤ a }

leb-sub : (x a : ℤ) → leb_ℤ (x -ℤ a) (pos 0) ≡ leb_ℤ x a
unfolding ◌-ℤ◌
leb-sub x a = ground arith

max_zero_over : (x : ℤ) → leb_ℤ (max_ℤ x (pos 0)) (pos 0) ≡ false → max_ℤ x (pos 0) ≡ x
max_zero_over x h = ground arith

advance_counts :
    (row : CreditRow) (adds advance : ℤ)
    → exposure_of (with_advance advance row) adds -ℤ row.limit
      ≡ exposure_of row adds -ℤ row.limit -ℤ advance
advance_counts row adds advance = omega int_laws

-- For a customer past the limit, with an excess of four places, an advance lets the sale pass exactly
-- when it is at least the required one.
pub required_advance_suffices :
    (lib : Decimals) (row : CreditRow) (adds advance : ℤ)
    → ltb_ℤ (pos 0) row.limit ≡ true
    → IsMoney lib (excess_of row adds)
    → (assess_credit lib (some row) adds).within_limit ≡ false
    → (assess_credit lib (some (with_advance advance row)) adds).within_limit
      ≡ leb_ℤ (assess_credit lib (some row) adds).required_advance advance
unfolding assess_credit
required_advance_suffices lib row adds advance limited exact past =
    let over = exposure_of row adds -ℤ row.limit in
    let excess : excess_of row adds ≡ over = rw limited (max_zero_over over (rw limited at past)) in
    let needed : lib.to_fixed (excess_of row adds) ≡ over = exact ∙ excess in
    let left : leb_ℤ (excess_of (with_advance advance row) adds) (pos 0) ≡ leb_ℤ over advance =
      within_limit_lem (with_advance advance row) adds
      ∙ rw (limited, advance_counts row adds advance) (leb-sub over advance) in
    left ∙ ap (λ x. leb_ℤ x advance) (sym needed)
