-- ===== src/Tests/DeliveryExamples.antt =====
-- Deliveries on which the rules of the collection run, and the theorems applied to them.
use fin_matrix_backend.Prelude.{ℕ, ◌≡◌, refl, false, none, some, List, [], ◌∷◌, ok, arith}
use fin_matrix_backend.Prelude.Int.{ℤ, pos, ◌+ℤ◌, ◌-ℤ◌, ◌*ℤ◌, ◌≤ℤ◌}
use fin_matrix_backend.Money.Rounding.{eight_places, half_up, whole_products}
use fin_matrix_backend.Delivery.{
  paid, partial, amount, answer, Collection, CollectionInput, resolve_collection,
  collection_from_amount, collection, over_tolerance, due_of, DeliveryLine, delivered_gross,
}
use fin_matrix_backend.Delivery.Bounds.{IsCollection}
use fin_matrix_backend.Delivery.Answers.{
  resolve_collection-IsCollection, resolve_collection_prepaid,
}
use fin_matrix_backend.Delivery.Gross.{delivered_gross-le}
use fin_matrix_backend.Tests.{rupees}

-- A sale of 120 with an advance of 20, of which the customer pays 60 at the door.
abbrev at_the_door : CollectionInput
at_the_door = record {
  gross = rupees 120;
  advance = rupees 20;
  paid_status = some (answer partial);
  amount_collected = some (amount (rupees 60));
}

abbrev collected : Collection
collected = record {
  paid_status = partial;
  amount_collected = rupees 60;
  amount_due = rupees 100;
  advance_applied = rupees 20;
}

collects : resolve_collection eight_places at_the_door ≡ ok collected
unfolding resolve_collection collection_from_amount half_up ◌+ℤ◌ ◌-ℤ◌
collects = refl

rounds_120 : half_up (rupees 120) ≡ rupees 120
unfolding half_up
rounds_120 = refl

rounds_20 : half_up (rupees 20) ≡ rupees 20
unfolding half_up
rounds_20 = refl

resolve_collection-IsCollection_example :
    IsCollection eight_places (rupees 120) (rupees 20) collected
resolve_collection-IsCollection_example =
    resolve_collection-IsCollection eight_places at_the_door rounds_120 rounds_20 collects

abbrev no_advance : CollectionInput
no_advance = record at_the_door { advance = pos 0 }

abbrev collected_bare : Collection
collected_bare = record collected { amount_due = rupees 120; advance_applied = pos 0 }

abbrev covered : CollectionInput
covered = record at_the_door { advance = rupees 150 }

nothing_due : over_tolerance eight_places (due_of (rupees 120) (rupees 150)) ≡ false
unfolding ◌-ℤ◌
nothing_due = refl

prepaid_collects_nothing :
    resolve_collection eight_places covered
    ≡ ok (collection eight_places paid (pos 0) (rupees 120) (rupees 150))
prepaid_collects_nothing = resolve_collection_prepaid eight_places covered nothing_due

-- Ten pieces at 50, of which the customer kept seven; the second item is claimed as twelve of five.
abbrev van : List DeliveryLine
van =
    record {
      item_id = 1;
      ordered_qty = pos 10;
      quantity = pos 0;
      unit_price = pos 50;
      tax_rate = some (pos 16);
    }
    ∷ record {
      item_id = 2;
      ordered_qty = pos 0;
      quantity = pos 5;
      unit_price = pos 20;
      tax_rate = none;
    }
    ∷ []

abbrev kept : List (ℕ × ℤ)
kept = (1, pos 7) ∷ (2, pos 12) ∷ []

kept_gross : delivered_gross whole_products van kept ≡ pos 506
unfolding ◌+ℤ◌ ◌*ℤ◌
kept_gross = refl

delivered_gross-le_example :
    delivered_gross whole_products van kept ≤ℤ delivered_gross whole_products van []
delivered_gross-le_example =
    delivered_gross-le whole_products van kept
      ((ground arith, ground arith), ((ground arith, ground arith), tt))
