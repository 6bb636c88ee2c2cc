-- ===== src/SalesLines/Kinds.antt =====
-- Which lines a company with inventory may save.
use fin_matrix_backend.Prelude.{
  ◌≡◌, refl, Bool, true, false, not, ◌&&◌, ◌||◌, List, [], ◌∷◌, is_some, all, Result, ok, err,
  arith,
}
use fin_matrix_backend.SalesLines.{
  ClassifiableLine, is_service, assert_lines_classified, assert_sales_lines_classified,
}

-- A line sells an item and is not declared a service, or sells none and is declared a service or
-- may be taken for one.
abbrev pub is_classified : Bool → ClassifiableLine → Bool
is_classified free_text_as_service l =
    (is_some l.item_id && not (is_service l.line_kind))
    || (not (is_some l.item_id) && (is_service l.line_kind || free_text_as_service))

abbrev pub is_ok : {E : Type 0} → Result E (Unit {0}) → Bool
is_ok (ok _) = true
is_ok (err _) = false

-- The lines of a document are accepted exactly when the company has no inventory or every line is
-- classified.
pub assert_sales_lines_classified_lem :
    (has_inventory free_text_as_service : Bool) (lines : List ClassifiableLine)
    → is_ok (assert_sales_lines_classified has_inventory free_text_as_service lines)
      ≡ (not has_inventory || all (is_classified free_text_as_service) lines)
unfolding assert_sales_lines_classified assert_lines_classified
assert_sales_lines_classified_lem false free_text lines = refl
assert_sales_lines_classified_lem true free_text [] = refl
assert_sales_lines_classified_lem true free_text (l ∷ ls) =
    ground (arith, assert_sales_lines_classified_lem true free_text ls)
