-- ===== src/Delivery/Gross.antt =====
-- The value of what the customer kept.
use mathlib.Core.Path.{subst}
use fin_matrix_backend.Prelude.{ℕ, ◌≡◌, sym, arith, List, [], ◌∷◌, or_else, All}
use fin_matrix_backend.Prelude.Int.{ℤ, pos, ◌≤ℤ◌, min_ℤ, max_ℤ, int_laws}
use fin_matrix_backend.Money.{Products}
use fin_matrix_backend.Delivery.{
  DeliveryLine, lookup, dispatched_qty, delivered_qty, delivered_gross, gross_value,
}
use fin_matrix_backend.Delivery.Bounds.{min_ℤ-le}

-- An item that the map does not name counts as fully delivered.
delivered_qty-nil : (l : DeliveryLine) → delivered_qty [] l ≡ dispatched_qty l
delivered_qty-nil l = whole (dispatched_qty l)
  where
    whole : (d : ℤ) → min_ℤ (max_ℤ d (pos 0)) d ≡ d
    whole d = ground arith

-- A price and a tax rate that are not negative.
abbrev pub HasPrice : DeliveryLine → Type 0
HasPrice l = (pos 0 ≤ℤ l.unit_price) × (pos 0 ≤ℤ or_else l.tax_rate (pos 0))

module _ (products : Products) where
  open products use {times, divided_by_100, times_mono, divided_by_100_mono}

  gross_value-mono :
      (q q' price rate : ℤ)
      → pos 0 ≤ℤ price
      → pos 0 ≤ℤ rate
      → q ≤ℤ q'
      → gross_value products q price rate ≤ℤ gross_value products q' price rate
  gross_value-mono q q' price rate p r h =
      let base = times_mono q q' price p h in
      let tax =
        divided_by_100_mono (times (times q price) rate) (times (times q' price) rate)
          (times_mono (times q price) (times q' price) rate r base) in
      omega (int_laws, base, tax)

  delivered_line-le :
      (delivered : List (ℕ × ℤ)) (l : DeliveryLine)
      → HasPrice l
      → gross_value products (delivered_qty delivered l) l.unit_price (or_else l.tax_rate (pos 0))
        ≤ℤ gross_value products (delivered_qty [] l) l.unit_price (or_else l.tax_rate (pos 0))
  delivered_line-le delivered l (p, r) =
      gross_value-mono _ _ l.unit_price (or_else l.tax_rate (pos 0)) p r (
        subst (λ d. delivered_qty delivered l ≤ℤ d) (sym (delivered_qty-nil l))
          (min_ℤ-le (max_ℤ (or_else (lookup l.item_id delivered) (dispatched_qty l)) (pos 0))
            (dispatched_qty l)))

  -- For prices and tax rates that are not negative, and whatever quantities are claimed as
  -- delivered, the customer is never charged more than for all that left on the van.
  pub delivered_gross-le :
      (lines : List DeliveryLine) (delivered : List (ℕ × ℤ))
      → All HasPrice lines
      → delivered_gross products lines delivered ≤ℤ delivered_gross products lines []
  delivered_gross-le [] delivered h = omega arith
  delivered_gross-le (l ∷ ls) delivered (p, ps) =
      omega (int_laws, delivered_line-le delivered l p, delivered_gross-le ls delivered ps)
