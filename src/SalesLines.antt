-- ===== src/SalesLines.antt =====
-- src/common/utils/sales-lines.util.ts: what a line of an estimate, a sales order or an invoice
-- sells, the stock that is available to sales, and the shortfall of an order. The result of
-- `companyFeatures` is an argument. An item id that is missing or empty is `none`.
pub mod Backorder
pub mod Kinds
use fin_matrix_backend.Prelude.{
  ℕ, Bool, true, false, not, ◌&&◌, ◌||◌, Option, none, some, List, [], ◌∷◌, ◌==◌, if◌then◌else◌,
  or_else, is_some, filter, find, any, map, contains, Result, ok, err, ◌>>=◌, ◌>>◌, throw_if,
}
use fin_matrix_backend.Prelude.Int.{ℤ, pos, ◌+ℤ◌, ◌-ℤ◌, ltb_ℤ, max_ℤ}
use fin_matrix_backend.Money.{Decimals}

pub data SalesLineKind : Type 0 where
  item service : SalesLineKind

pub data LineError : Type 0 where
  line_kind_mismatch line_item_required : LineError

pub record ClassifiableLine : Type 0 where
  pub item_id : Option ℕ
  pub line_kind : Option SalesLineKind

abbrev pub line_kind_of : Option ℕ → SalesLineKind
line_kind_of none = service
line_kind_of (some _) = item

abbrev pub is_service : Option SalesLineKind → Bool
is_service (some service) = true
is_service _ = false

unfoldable pub assert_lines_classified : Bool → List ClassifiableLine → Result LineError (Unit {0})
assert_lines_classified free_text_as_service [] = ok tt
assert_lines_classified free_text_as_service (l ∷ ls) =
    throw_if (is_some l.item_id && is_service l.line_kind) line_kind_mismatch
    >> (throw_if
          (not (is_some l.item_id) && not (is_service l.line_kind) && not free_text_as_service)
          line_item_required
        >> assert_lines_classified free_text_as_service ls)

unfoldable pub assert_sales_lines_classified :
    Bool → Bool → List ClassifiableLine → Result LineError (Unit {0})
unfolding assert_lines_classified
assert_sales_lines_classified has_inventory free_text_as_service lines =
    if not has_inventory then ok tt else assert_lines_classified free_text_as_service lines

pub data SalesOrderStatus : Type 0 where
  draft_order open_order partial fulfilled closed : SalesOrderStatus

pub record OrderLine : Type 0 where
  pub item_id : Option ℕ
  pub quantity : ℤ

pub record SalesOrder : Type 0 where
  pub id : ℕ
  pub company_id : ℕ
  pub status : SalesOrderStatus
  pub lines : List OrderLine

pub record InventoryItem : Type 0 where
  pub id : ℕ
  pub company_id : ℕ
  pub quantity_on_hand : ℤ

-- `deliveries` are the sales orders that a delivery was made for.
pub record Stock : Type 0 where
  pub items : List InventoryItem
  pub orders : List SalesOrder
  pub deliveries : List ℕ

abbrev pub is_promising : SalesOrderStatus → Bool
is_promising draft_order = false
is_promising closed = false
is_promising _ = true

abbrev pub asks_for : ℕ → Option ℕ → Bool
asks_for id none = false
asks_for id (some j) = j == id

abbrev pub asked_for : ℕ → List OrderLine → ℤ
asked_for id [] = pos 0
asked_for id (l ∷ ls) = (if asks_for id l.item_id then l.quantity else pos 0) +ℤ asked_for id ls

abbrev pub excluded : Option ℕ → ℕ → Bool
excluded none id = false
excluded (some x) id = id == x

-- The orders that hold stock back, and what they hold of an item.
abbrev pub holds_back : Stock → ℕ → Option ℕ → SalesOrder → Bool
holds_back stock company_id exclude o =
    (o.company_id == company_id)
    && is_promising o.status
    && not (excluded exclude o.id)
    && not (contains o.id stock.deliveries)

abbrev pub committed_in : ℕ → List SalesOrder → ℤ
committed_in id [] = pos 0
committed_in id (o ∷ orders) = asked_for id o.lines +ℤ committed_in id orders

abbrev pub committed : Stock → ℕ → Option ℕ → ℕ → ℤ
committed stock company_id exclude id =
    committed_in id (filter (holds_back stock company_id exclude) stock.orders)

pub record StockPosition : Type 0 where
  pub item_id : ℕ
  pub on_hand : ℤ
  pub committed_quantity : ℤ
  pub available : ℤ

pub record BackorderLine : Type 0 where
  pub item_id : ℕ
  pub requested : ℤ
  pub available : ℤ
  pub shortfall : ℤ

-- `requested.set(id, (requested.get(id) ?? 0).plus(quantity))`.
abbrev pub add_request : ℕ → ℤ → List (ℕ × ℤ) → List (ℕ × ℤ)
add_request id q [] = (id, q) ∷ []
add_request id q ((j, r) ∷ m) = if id == j then (j, r +ℤ q) ∷ m else (j, r) ∷ add_request id q m

abbrev pub requested_of : List OrderLine → List (ℕ × ℤ) → List (ℕ × ℤ)
requested_of [] m = m
requested_of (l ∷ ls) m =
    requested_of ls (elim l.item_id [ none ↦ m | some id ↦ add_request id l.quantity m ])

abbrev pub request_ids : List (ℕ × ℤ) → List ℕ
request_ids [] = []
request_ids ((id, _) ∷ m) = id ∷ request_ids m

abbrev pub position_in : ℕ → List StockPosition → Option StockPosition
position_in id = find (λ (p : StockPosition). id == p.item_id)

module _ (lib : Decimals) where
  open lib use {to_fixed}

  abbrev pub position_of : Stock → ℕ → Option ℕ → InventoryItem → StockPosition
  position_of stock company_id exclude i =
      let promised = committed stock company_id exclude i.id in
      record {
        item_id = i.id;
        on_hand = to_fixed i.quantity_on_hand;
        committed_quantity = to_fixed promised;
        available = to_fixed (i.quantity_on_hand -ℤ promised);
      }

  unfoldable pub stock_positions : Stock → ℕ → List ℕ → Option ℕ → List StockPosition
  stock_positions stock company_id ids exclude = map (position_of stock company_id exclude) (
      filter (λ (i : InventoryItem). (i.company_id == company_id) && contains i.id ids) stock.items)

  -- The last loop of `backorderLines`.
  abbrev pub shortfalls : List StockPosition → List (ℕ × ℤ) → List BackorderLine
  shortfalls positions [] = []
  shortfalls positions ((id, qty) ∷ m) =
      let rest = shortfalls positions m in
      elim (position_in id positions) [
        | none ↦ rest
        | some p ↦
            let available = max_ℤ p.available (pos 0) in
            if ltb_ℤ available qty
            then (record {
              item_id = id;
              requested = to_fixed qty;
              available = to_fixed available;
              shortfall = to_fixed (qty -ℤ available);
            }
                ∷ rest)
            else rest
      ]

  unfoldable pub backorder_lines : Stock → ℕ → List OrderLine → Option ℕ → List BackorderLine
  unfolding stock_positions
  backorder_lines stock company_id lines exclude =
      let requested = requested_of lines [] in
      shortfalls (stock_positions stock company_id (request_ids requested) exclude) requested
