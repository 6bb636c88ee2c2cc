-- ===== src/SalesLines/Backorder.antt =====
-- The shortfall of an order: what its lines ask for together, against what is available.
use fin_matrix_backend.Prelude.{ℕ, ◌≡◌, Option, none, some, List, [], ◌∷◌, ◌==◌, if◌then◌else◌}
use fin_matrix_backend.Prelude.Int.{ℤ, pos, ◌+ℤ◌, ◌≤ℤ◌}
use fin_matrix_backend.Money.{Decimals}
use fin_matrix_backend.SalesLines.{
  OrderLine, requested_of, request_ids, StockPosition, BackorderLine, Stock, stock_positions,
}

-- What the map holds for an item; nothing counts as zero.
abbrev request_total : ℕ → List (ℕ × ℤ) → ℤ
request_total id [] = pos 0
request_total id ((j, q) ∷ m) = if j == id then q else request_total id m

abbrev request_of : ℕ → List (ℕ × ℤ) → Option ℤ
request_of id [] = none
request_of id ((j, q) ∷ m) = if j == id then some q else request_of id m

-- A row of the result: what is asked for, what there is, and the difference, which is not nothing.
abbrev pub IsShort : BackorderLine → Type 0
IsShort b =
    (b.requested ≡ b.available +ℤ b.shortfall) × (pos 0 ≤ℤ b.available) × (pos 1 ≤ℤ b.shortfall)

module _ (lib : Decimals) where
  open lib use {to_fixed, to_fixed_idem, fixed_add}

  module _ (stock : Stock) (company_id : ℕ) (lines : List OrderLine) (exclude : Option ℕ) where
    abbrev pub positions_of : List StockPosition
    positions_of =
        stock_positions lib stock company_id (request_ids (requested_of lines [])) exclude
