-- ===== src/Delivery.antt =====
-- src/modules/deliveries/delivery-collection.util.ts: who has paid for a delivery, and what the
-- rider collects. A decimal has no negative zero here.
pub mod Bounds
pub mod Answers
pub mod Gross
use fin_matrix_backend.Prelude.{
  ℕ, ◌*◌, Bool, true, false, not, ◌&&◌, ◌||◌, Option, none, some, List, [], ◌∷◌, map, ◌==◌, ltb,
  if◌then◌else◌, or_else, is_some, Result, ok, err, ◌>>=◌, ◌>>◌, throw_if,
}
use fin_matrix_backend.Prelude.Int.{ℤ, pos, ◌+ℤ◌, ◌-ℤ◌, ltb_ℤ, leb_ℤ, max_ℤ, min_ℤ}
use fin_matrix_backend.Money.{Decimals, Products, money_tolerance, to_decimal}

pub data DeliveryPaidStatus : Type 0 where
  paid partial unpaid : DeliveryPaidStatus

pub data DeliveryLedgerStatus : Type 0 where
  not_on_ledger in_transit committed returned : DeliveryLedgerStatus

-- The exceptions by their codes, and the error that the decimal library throws on text that is no
-- number.
pub data CollectionError : Type 0 where
  collected_out_of_range validation_failed : CollectionError

-- An amount as a request gives it: no number, a number that is not finite, or a decimal.
pub data Amount : Type 0 where
  not_a_number not_finite : Amount
  amount : ℤ → Amount

pub record PricedLine : Type 0 where
  pub quantity : ℤ
  pub unit_price : ℤ
  pub tax_rate : Option ℤ

pub record Collection : Type 0 where
  pub paid_status : DeliveryPaidStatus
  pub amount_collected : ℤ
  pub amount_due : ℤ
  pub advance_applied : ℤ

-- `grossValue` of src/common/utils/credit-control.util.ts.
abbrev pub gross_value : Products → ℤ → ℤ → ℤ → ℤ
gross_value products quantity unit_price tax_rate =
    let base = products.times quantity unit_price in
    base +ℤ products.divided_by_100 (products.times base tax_rate)

abbrev pub gross_of : Products → List PricedLine → ℤ
gross_of products [] = pos 0
gross_of products (l ∷ ls) =
    gross_value products l.quantity l.unit_price (or_else l.tax_rate (pos 0))
    +ℤ gross_of products ls

-- The part of the advance that the sale uses, and what it leaves.
abbrev pub advance_of : ℤ → ℤ → ℤ
advance_of gross advance = min_ℤ (max_ℤ advance (pos 0)) (max_ℤ gross (pos 0))

abbrev pub due_of : ℤ → ℤ → ℤ
due_of gross advance = max_ℤ gross (pos 0) -ℤ advance_of gross advance

-- The rider's answer: one of the three, or some other text.
pub data Answer : Type 0 where
  answer : DeliveryPaidStatus → Answer
  unknown : Answer

pub record CollectionInput : Type 0 where
  pub gross : ℤ
  pub advance : ℤ
  pub paid_status : Option Answer
  -- None when the amount is missing or blank.
  pub amount_collected : Option Amount

-- The figure that the request gives, once it is known to be a finite number that is not negative.
abbrev pub read_amount : Amount → Result CollectionError ℤ
read_amount not_a_number = err collected_out_of_range
read_amount not_finite = err collected_out_of_range
read_amount (amount x) = if ltb_ℤ x (pos 0) then err collected_out_of_range else ok x

-- A partial payment of nothing is refused.
abbrev pub some_paid : Collection → Result CollectionError Collection
some_paid c = elim c.paid_status [ unpaid ↦ err collected_out_of_range | _ ↦ ok c ]

module _ (lib : Decimals) where
  open lib use {unit, to_fixed}

  -- COLLECTION_TOLERANCE, 0.005.
  abbrev pub collection_tolerance : ℤ
  collection_tolerance = pos (50 * unit)

  abbrev pub over_tolerance : ℤ → Bool
  over_tolerance x = ltb_ℤ (money_tolerance lib) x

  unfoldable pub invoice_paid_status : ℤ → ℤ → DeliveryPaidStatus
  invoice_paid_status balance amount_paid =
      if not (over_tolerance balance)
      then paid
      else if over_tolerance amount_paid
      then partial
      else unpaid

  abbrev pub collection : DeliveryPaidStatus → ℤ → ℤ → ℤ → Collection
  collection status collected gross advance = record {
    paid_status = status;
    amount_collected = to_fixed collected;
    amount_due = to_fixed (due_of gross advance);
    advance_applied = to_fixed (advance_of gross advance);
  }

  -- The answer that a figure within the amount due makes.
  abbrev pub settle : ℤ → ℤ → ℤ → Collection
  settle gross advance collected =
      let due = due_of gross advance in
      if leb_ℤ (due -ℤ collection_tolerance) collected
      then collection paid due gross advance
      else if not (over_tolerance collected)
      then collection unpaid (pos 0) gross advance
      else collection partial (to_fixed collected) gross advance

  unfoldable pub collection_from_amount : ℤ → ℤ → Amount → Result CollectionError Collection
  collection_from_amount gross advance figure =
      let due = due_of gross advance in
      if not (over_tolerance due)
      then ok (collection paid (pos 0) gross advance)
      else (read_amount figure >>= λ collected.
          throw_if (ltb_ℤ (due +ℤ collection_tolerance) collected) collected_out_of_range
          >> ok (settle gross advance collected))

  -- The `switch` on the answer, where something is due.
  abbrev pub resolve_answer : CollectionInput → Answer → Result CollectionError Collection
  resolve_answer input (answer paid) =
      ok (collection paid (due_of input.gross input.advance) input.gross input.advance)
  resolve_answer input (answer unpaid) = ok (collection unpaid (pos 0) input.gross input.advance)
  resolve_answer input (answer partial) = elim input.amount_collected [
    | none ↦ err collected_out_of_range
    | some figure ↦ collection_from_amount input.gross input.advance figure >>= some_paid
  ]
  resolve_answer input unknown = err validation_failed

  unfoldable pub resolve_collection : CollectionInput → Result CollectionError Collection
  unfolding collection_from_amount
  resolve_collection input =
      if not (over_tolerance (due_of input.gross input.advance))
      then ok (collection paid (pos 0) input.gross input.advance)
      else resolve_answer input (or_else input.paid_status (answer unpaid))

-- What `deliveredGross` reads of a line of the delivery.
pub record DeliveryLine : Type 0 where
  pub item_id : ℕ
  pub ordered_qty : ℤ
  pub quantity : ℤ
  pub unit_price : ℤ
  pub tax_rate : Option ℤ

abbrev pub dispatched_qty : DeliveryLine → ℤ
dispatched_qty l = if ltb_ℤ (pos 0) l.ordered_qty then l.ordered_qty else l.quantity

-- A `Map` of item ids to quantities.
abbrev pub lookup : ℕ → List (ℕ × ℤ) → Option ℤ
lookup id [] = none
lookup id ((j, q) ∷ m) = if id == j then some q else lookup id m

-- The quantity that counts as delivered, clamped to what left on the van.
abbrev pub delivered_qty : List (ℕ × ℤ) → DeliveryLine → ℤ
delivered_qty delivered l =
    min_ℤ (max_ℤ (or_else (lookup l.item_id delivered) (dispatched_qty l)) (pos 0))
      (dispatched_qty l)

abbrev pub delivered_line : List (ℕ × ℤ) → DeliveryLine → PricedLine
delivered_line delivered l = record {
  quantity = delivered_qty delivered l;
  unit_price = l.unit_price;
  tax_rate = l.tax_rate;
}

abbrev pub delivered_gross : Products → List DeliveryLine → List (ℕ × ℤ) → ℤ
delivered_gross products lines delivered = gross_of products (map (delivered_line delivered) lines)

pub record Delivery : Type 0 where
  pub prepaid : Bool
  pub advance_payment_id : Option ℕ
  pub advance_amount : Option ℤ
  pub ledger_status : DeliveryLedgerStatus

abbrev pub delivery_advance : Delivery → ℤ → ℤ
delivery_advance d gross =
    if d.prepaid && not (is_some d.advance_payment_id) then gross else to_decimal d.advance_amount

abbrev pub accepts_collection_answer : DeliveryLedgerStatus → Bool
accepts_collection_answer not_on_ledger = true
accepts_collection_answer in_transit = true
accepts_collection_answer _ = false
