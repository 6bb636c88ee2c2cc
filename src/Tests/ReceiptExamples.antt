-- ===== src/Tests/ReceiptExamples.antt =====
-- The lines of two receipts, the second with a ten-thousandth left over, and a sweep.
use fin_matrix_backend.Prelude.{All, ◌≡◌, refl, ap, arith, List, [], ok}
use fin_matrix_backend.Prelude.Int.{pos, ◌+ℤ◌, ◌-ℤ◌, min_ℤ, int_laws, pos_part}
use fin_matrix_backend.Money.Rounding.{half_up, eight_places}
use fin_matrix_backend.Store.{Db}
use fin_matrix_backend.Accounts.{get_by_number, get_or_create_system_account}
use fin_matrix_backend.Posting.Checks.{PostingLineInput}
use fin_matrix_backend.Invoices.Settle.{IsSound}
use fin_matrix_backend.Payments.{total_of, auto_apply}
use fin_matrix_backend.Payments.Sweep.{outstanding_total, total_of-auto_apply}
use fin_matrix_backend.Payments.Receive.{receipt_lines}
use fin_matrix_backend.Payments.Lines.{
  debit_total, credit_total, receipt_lines_balance, receipt_lines_short,
}
use fin_matrix_backend.Tests.{rupees, cash}
use fin_matrix_backend.Tests.PaymentsExamples.{
  open_tables, open_tables-IsTied, payment_env, or_as_before,
}

abbrev fifty : List PostingLineInput × Db
fifty =
    or_as_before ([], open_tables.db)
      (receipt_lines eight_places payment_env 1 cash (rupees 50) (rupees 20) open_tables.db)

fifty_lem :
    receipt_lines eight_places payment_env 1 cash (rupees 50) (rupees 20) open_tables.db ≡ ok fifty
unfolding receipt_lines get_by_number get_or_create_system_account half_up ◌+ℤ◌ ◌-ℤ◌
fifty_lem = refl

fixed : (half_up (rupees 50) ≡ rupees 50) × (half_up (rupees 20) ≡ rupees 20)
unfolding half_up
fixed = (refl, refl)

receipt_lines_balance_example : debit_total fifty.0 ≡ credit_total fifty.0
unfolding ◌-ℤ◌
receipt_lines_balance_example =
    receipt_lines_balance eight_places payment_env 1 cash (rupees 50) (rupees 20) open_tables.db
      fifty fixed.0 fixed.1 (omega int_laws) (omega int_laws) (λ e. omega (arith, ap pos_part e))
      (λ e. omega (arith, ap pos_part e)) fifty_lem

abbrev odd_twenty : List PostingLineInput × Db
odd_twenty =
    or_as_before ([], open_tables.db)
      (receipt_lines eight_places payment_env 1 cash (rupees 20 +ℤ pos 10000) (rupees 20)
        open_tables.db)

odd_twenty_lem :
    receipt_lines eight_places payment_env 1 cash
      (rupees 20 +ℤ pos 10000)
      (rupees 20)
      open_tables.db
    ≡ ok odd_twenty
unfolding receipt_lines get_by_number get_or_create_system_account half_up ◌+ℤ◌ ◌-ℤ◌
odd_twenty_lem = refl

receipt_lines_short_example : debit_total odd_twenty.0 ≡ credit_total odd_twenty.0 +ℤ pos 10000
receipt_lines_short_example =
    receipt_lines_short eight_places payment_env 1 cash (rupees 20) open_tables.db odd_twenty
      fixed.1 (omega int_laws) (λ e. omega (arith, ap pos_part e)) odd_twenty_lem

open_invoices-IsSound : All (IsSound eight_places) open_tables.invoices
open_invoices-IsSound = open_tables-IsTied.invoices.sound

total_of-auto_apply_example :
    total_of (auto_apply eight_places 1 5 (rupees 50) open_tables.invoices)
    ≡ min_ℤ (rupees 50) (outstanding_total 1 5 open_tables.invoices)
total_of-auto_apply_example =
    total_of-auto_apply eight_places 1 5 (rupees 50) open_tables.invoices open_invoices-IsSound
      fixed.0 (omega int_laws)

-- All fifty: a hundred and thirty are open.
fifty_are_applied : min_ℤ (rupees 50) (outstanding_total 1 5 open_tables.invoices) ≡ rupees 50
unfolding ◌+ℤ◌
fifty_are_applied = refl
