-- ===== src/Tests/RulesExamples.antt =====
-- Documents, companies and orders on which the rules run, and the theorems applied to them.
use fin_matrix_backend.Prelude.{
  ℕ, ◌≡◌, refl, true, false, not, ◌||◌, none, some, List, [], ◌∷◌, length, all, contains, set_add,
  ◌==◌,
}
use fin_matrix_backend.Prelude.Int.{pos, ◌+ℤ◌, ◌-ℤ◌, leb_ℤ}
use fin_matrix_backend.Money.Rounding.{eight_places, half_up}
use fin_matrix_backend.DocumentStatus.{
  Document, overdue, derived_status, derived_status_sql, is_listed, document_list_summary,
}
use fin_matrix_backend.DocumentStatus.Filter.{derived_status_sql_same, derived_status_filter_same}
use fin_matrix_backend.DocumentStatus.Summary.{balance_of, tab, showing, document_list_summary_lem}
use fin_matrix_backend.CompanyStatus.{
  Company, raw_active, paid, at, is_subscription_expired, effective_company_status,
  is_active_status,
}
use fin_matrix_backend.SalesLines.{
  OrderLine, Stock, open_order, StockPosition, stock_positions, backorder_lines,
  assert_sales_lines_classified, ClassifiableLine,
}
use fin_matrix_backend.SalesLines.Kinds.{is_ok, is_classified, assert_sales_lines_classified_lem}
use fin_matrix_backend.Credit.{CreditRow, excess_of, assess_credit, enforce_credit_limit}
use fin_matrix_backend.Credit.Advance.{
  is_within, is_override, passes, with_advance, enforce_credit_limit_lem, required_advance_suffices,
}
use fin_matrix_backend.Tests.{rupees}

abbrev sent : ℕ
sent = 1

abbrev open_statuses : List ℕ
open_statuses = sent ∷ 2 ∷ []

-- Due on day 100 and unpaid.
abbrev late : Document
late = record { status = sent; due_date = some 100; balance = some (rupees 40) }

abbrev invoices : List Document
invoices = late ∷ record late { due_date = some 300 } ∷ record late { balance = some (pos 0) } ∷ []

late_shows : derived_status late open_statuses 200 ≡ overdue
unfolding derived_status
late_shows = refl

derived_status_sql_same_example :
    derived_status_sql late open_statuses 200 ≡ derived_status late open_statuses 200
derived_status_sql_same_example = derived_status_sql_same late open_statuses 200

derived_status_filter_same_example :
    is_listed (some sent) open_statuses 200 late ≡ (derived_status late open_statuses 200 == sent)
derived_status_filter_same_example =
    derived_status_filter_same late open_statuses 200 sent (rupees 40) refl

document_list_summary_lem_example :
    let summary = document_list_summary eight_places open_statuses 200 invoices in
    (summary.count ≡ length invoices)
    × (summary.outstanding
        ≡ half_up (
            balance_of open_statuses 200
              (λ s. contains s (set_add overdue open_statuses))
              invoices))
    × (summary.overdue_balance
        ≡ half_up (balance_of open_statuses 200 (λ s. s == overdue) invoices))
    × ((s : ℕ)
        → tab s summary.by_status ≡ (
          (showing open_statuses 200 s invoices).0,
          half_up (showing open_statuses 200 s invoices).1,
        ))
document_list_summary_lem_example =
    document_list_summary_lem open_statuses 200 eight_places invoices

-- Active and paid until the moment 500.
abbrev customer : Company
customer = record {
  status = some raw_active;
  subscription_plan = some paid;
  subscription_expiry_date = some (at 500);
  payment_status = none;
}

lapsed : is_active_status (effective_company_status (some customer) 500) ≡ false
unfolding effective_company_status is_subscription_expired
lapsed = refl

-- Ten pieces, four of them promised to another order.
abbrev shelf : Stock
shelf = record {
  items = record { id = 5; company_id = 1; quantity_on_hand = rupees 10 } ∷ [];
  orders =
      record {
        id = 9;
        company_id = 1;
        status = open_order;
        lines = record { item_id = some 5; quantity = rupees 4 } ∷ [];
      }
      ∷ [];
  deliveries = [];
}

abbrev two_lines : List OrderLine
two_lines =
    record { item_id = some 5; quantity = rupees 3 }
    ∷ record { item_id = some 5; quantity = rupees 3 }
    ∷ []

abbrev shelf_position : StockPosition
shelf_position = record {
  item_id = 5;
  on_hand = rupees 10;
  committed_quantity = rupees 4;
  available = rupees 6;
}

abbrev three_lines : List OrderLine
three_lines = record { item_id = some 5; quantity = rupees 1 } ∷ two_lines

one_short : length (backorder_lines eight_places shelf 1 three_lines none) ≡ 1
unfolding backorder_lines stock_positions half_up ◌+ℤ◌ ◌-ℤ◌
one_short = refl

abbrev typed_lines : List ClassifiableLine
typed_lines =
    record { item_id = some 5; line_kind = none } ∷ record { item_id = none; line_kind = none } ∷ []

assert_sales_lines_classified_lem_example :
    is_ok (assert_sales_lines_classified true false typed_lines)
    ≡ (not true || all (is_classified false) typed_lines)
assert_sales_lines_classified_lem_example = assert_sales_lines_classified_lem true false typed_lines

-- A limit of 100, of which 90 are used.
abbrev debtor : CreditRow
debtor = record {
  limit = rupees 100;
  open_invoices = rupees 70;
  in_transit = rupees 15;
  shipped = rupees 10;
  advances = rupees 5;
  credits = pos 0;
}

enforce_credit_limit_lem_example :
    passes (enforce_credit_limit eight_places 1 (some debtor) (rupees 20) none none [])
    ≡ (is_within debtor (rupees 20) || is_override none)
enforce_credit_limit_lem_example =
    enforce_credit_limit_lem eight_places 1 debtor (rupees 20) none none []

debtor_excess : half_up (excess_of debtor (rupees 20)) ≡ excess_of debtor (rupees 20)
unfolding half_up ◌+ℤ◌ ◌-ℤ◌
debtor_excess = refl

debtor_past : (assess_credit eight_places (some debtor) (rupees 20)).within_limit ≡ false
unfolding assess_credit ◌+ℤ◌ ◌-ℤ◌
debtor_past = refl

required_advance_suffices_example :
    (assess_credit eight_places (some (with_advance (rupees 10) debtor)) (rupees 20)).within_limit
    ≡ leb_ℤ (assess_credit eight_places (some debtor) (rupees 20)).required_advance (rupees 10)
required_advance_suffices_example =
    required_advance_suffices eight_places debtor (rupees 20) (rupees 10) refl debtor_excess
      debtor_past
