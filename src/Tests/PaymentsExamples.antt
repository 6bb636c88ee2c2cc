-- ===== src/Tests/PaymentsExamples.antt =====
-- A customer with two open invoices who pays in advance, and the theorems applied.
use fin_matrix_backend.Prelude.{ℕ, refl, ◌+◌, true, false, none, List, [], ◌∷◌, Result, ok, err}
use fin_matrix_backend.Prelude.Int.{ℤ, pos, ◌+ℤ◌, ◌-ℤ◌, int_laws}
use fin_matrix_backend.Money.Rounding.{half_up, eight_places}
use fin_matrix_backend.Store.{SubType, other_sub_type, asset}
use fin_matrix_backend.Invoices.{Invoice, sent}
use fin_matrix_backend.Payments.{
  Customer, Payment, Tables, PaymentError, PaymentEnv, PaymentApplicationDto, ReceivePaymentDto,
}
use fin_matrix_backend.Payments.Receive.{receive}
use fin_matrix_backend.Payments.Apply.{apply}
use fin_matrix_backend.Payments.Delete.{delete}
use fin_matrix_backend.Payments.Ties.{IsTied}
use fin_matrix_backend.Tests.{rupees, account, cash}

abbrev no_sub_type : ℕ → SubType
no_sub_type id = other_sub_type

abbrev invoice : ℕ → ℕ → ℤ → Invoice
invoice id due_date total = record {
  id = id;
  company_id = 1;
  customer_id = 5;
  invoice_number = id;
  invoice_date = 100;
  due_date = due_date;
  total = total;
  amount_paid = pos 0;
  balance = total;
  status = sent;
}

abbrev pub open_tables : Tables
open_tables = record {
  db = record {
    companies = record { id = 1; books_locked_until = none } ∷ [];
    accounts =
        record (account cash asset (pos 0)) { account_number = 1000 }
        ∷ record (account 11 asset (rupees 130)) { account_number = 1100 }
        ∷ [];
    entries = [];
    general_ledger = [];
  };
  invoices = invoice 61 300 (rupees 100) ∷ invoice 62 200 (rupees 30) ∷ [];
  payments = [];
  applications = [];
  customers = record { id = 5; company_id = 1; balance = rupees 130 } ∷ [];
  deliveries = [];
}

pub open_tables-IsTied : IsTied eight_places open_tables
unfolding half_up ◌+ℤ◌ ◌-ℤ◌
open_tables-IsTied = record {
  invoices = record {
    sound = (
      record {
        total_money = refl;
        paid_money = refl;
        derived = refl;
        not_negative = omega int_laws;
        not_over = omega int_laws;
      },
      (
        record {
          total_money = refl;
          paid_money = refl;
          derived = refl;
          not_negative = omega int_laws;
          not_over = omega int_laws;
        },
        tt,
      ),
    );
    unique = ((refl, tt), (tt, tt));
  };
  payments = tt;
  customers = (tt, tt);
  money = (refl, tt);
  owes = (refl, tt);
}

abbrev receipt : ReceivePaymentDto
receipt = record {
  customer_id = 5;
  payment_date = 210;
  by_cash = true;
  amount = rupees 50;
  bank_account_id = none;
  applications = [];
  hold_as_advance = false;
}

abbrev pub payment_env : PaymentEnv
payment_env = record {
  now = 999;
  today = 210;
  payment_id = 71;
  payment_number = 1;
  account_id = 24;
  entry_id = λ n. n + 81;
}

abbrev no_payment : Payment
no_payment = record {
  id = 0;
  company_id = 1;
  customer_id = 5;
  payment_number = 0;
  payment_date = 0;
  amount = pos 0;
  bank_account_id = 0;
  journal_entry_id = none;
  advance_posted = true;
}

abbrev pub or_as_before : {A : Type 0} → A → Result PaymentError A → A
or_as_before before (ok out) = out
or_as_before before (err e) = before

-- Thirty go to the invoice that is due first, and twenty to the other.
abbrev received : Payment × Tables
received =
    or_as_before (no_payment, open_tables)
      (receive eight_places payment_env no_sub_type 1 2 receipt open_tables)

-- The same receipt held as an advance, and thirty of it used the day after.
abbrev advance : Payment × Tables
advance =
    or_as_before (no_payment, open_tables)
      (receive eight_places payment_env no_sub_type 1 2 (record receipt { hold_as_advance = true })
        open_tables)

abbrev next_env : PaymentEnv
next_env = record payment_env { today = 211; account_id = 25; entry_id = λ n. n + 91 }

abbrev thirty : List PaymentApplicationDto
thirty = record { invoice_id = 62; amount = rupees 30 } ∷ []

abbrev spent : Tables
spent = or_as_before open_tables (apply eight_places next_env 1 2 71 thirty none none advance.1)

-- The customer still owes both invoices while the receipt is held.
abbrev payer : Customer
payer = record { id = 5; company_id = 1; balance = rupees 130 }

-- The receipt of both invoices is deleted again.
abbrev void_env : PaymentEnv
void_env = record payment_env { today = 212; entry_id = λ n. n + 95 }

abbrev after_delete : Tables
after_delete = or_as_before open_tables (delete eight_places void_env 1 71 2 received.1)

abbrev debtor : Customer
debtor = record { id = 5; company_id = 1; balance = rupees 80 }
