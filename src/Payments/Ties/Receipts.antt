-- ===== src/Payments/Ties/Receipts.antt =====
-- A receipt keeps the balances of the customers tied to their invoices.
use fin_matrix_backend.Prelude.{List, [], ◌∷◌, All}
use fin_matrix_backend.Money.{Decimals, IsMoney}
use fin_matrix_backend.Payments.{PaymentApplicationDto, total_of}
use fin_matrix_backend.Payments.Applied.{AmountIsMoney}
use fin_matrix_backend.Payments.Ties.Received.{Received}

pub total-IsMoney :
    (lib : Decimals) (apps : List PaymentApplicationDto)
    → All (AmountIsMoney lib) apps
    → IsMoney lib (total_of apps)
total-IsMoney lib [] h = lib.fixed_zero
total-IsMoney lib (a ∷ as_) (h, hs) =
    lib.fixed_add a.amount (total_of as_) h (total-IsMoney lib as_ hs)
