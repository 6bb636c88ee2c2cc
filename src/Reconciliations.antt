-- ===== src/Reconciliations.antt =====
-- src/modules/reconciliations/reconciliations.service.ts: the rows of a cash or bank account are
-- matched against a statement, stamped, and released again by undoing the latest statement. Amounts
-- that are only shown keep all their places here.
pub mod Statements
pub mod Sums
pub mod Chain
pub mod Latest
pub mod Rows
pub mod Create
pub mod Remove
pub mod Reach
pub mod RoundTrip
pub mod Lock
use fin_matrix_backend.Prelude.{
  ℕ, ◌+◌, Bool, true, false, not, ◌&&◌, ◌||◌, Option, none, some, String, List, [], ◌∷◌, map,
  filter, any, all, find, length, contains, ltb, leb, ◌==◌, if◌then◌else◌, or_else, is_some, Result,
  ok, err, ◌>>=◌, ◌>>◌, throw_if, or_throw,
}
use fin_matrix_backend.Prelude.Int.{ℤ, pos, ◌-ℤ◌}
use fin_matrix_backend.Money.{Decimals, money_equals, add_money}
use fin_matrix_backend.Store.{GeneralLedgerEntry, Env, SubType, cash, bank, other_sub_type}

pub record BankAccount : Type 0 where
  pub id : ℕ
  pub company_id : ℕ
  pub sub_type : SubType
  pub name : String

-- A row of the ledger with the columns that a posting leaves to the database.
pub record LedgerRow : Type 0 where
  pub id : ℕ
  pub cleared : Bool
  pub entry : GeneralLedgerEntry

pub record Reconciliation : Type 0 where
  pub id : ℕ
  pub company_id : ℕ
  pub created_at : ℕ
  pub account_id : ℕ
  pub statement_date : ℕ
  pub statement_ending_balance : ℤ
  pub beginning_balance : ℤ
  pub cleared_balance : ℤ
  pub difference : ℤ
  pub cleared_count : ℕ
  pub notes : Option String
  pub created_by : ℕ

pub record AuditRecord : Type 0 where
  pub company_id : ℕ
  pub actor_user_id : Option ℕ
  pub target_id : ℕ
  pub account_id : ℕ
  pub statement_date : ℕ
  pub statement_ending_balance : ℤ
  pub cleared_count : ℕ

-- The tables; new rows stand first.
pub record Books : Type 0 where
  pub accounts : List BankAccount
  pub ledger : List LedgerRow
  pub reconciliations : List Reconciliation
  pub audit : List AuditRecord

pub data ReconciliationError : Type 0 where
  account_not_found not_reconcilable reconciliation_out_of_order : ReconciliationError
  invalid_cleared_entries cleared_entry_after_statement : ReconciliationError
  reconciliation_out_of_balance reconciliation_not_found : ReconciliationError
  reconciliation_not_latest : ReconciliationError

-- RECONCILABLE_SUB_TYPES.
abbrev pub is_reconcilable : SubType → Bool
is_reconcilable cash = true
is_reconcilable bank = true
is_reconcilable other_sub_type = false

unfoldable pub get_reconcilable_account : Books → ℕ → ℕ → Result ReconciliationError BankAccount
get_reconcilable_account books company_id account_id = do
  account ←
      or_throw
        (find (λ (a : BankAccount). (a.id == account_id) && (a.company_id == company_id))
          books.accounts)
        account_not_found
  throw_if (not (is_reconcilable account.sub_type)) not_reconcilable
  ok account

-- The rows of one account of a company.
abbrev pub is_of : ℕ → ℕ → LedgerRow → Bool
is_of company_id account_id g =
    (g.entry.company_id == company_id) && (g.entry.account_id == account_id)

-- What a row adds to an account that grows with debits.
abbrev pub row_amount : LedgerRow → ℤ
row_amount g = g.entry.debit -ℤ g.entry.credit

-- `SUM` over the rows that meet a condition, no row being zero.
abbrev pub sum_where : (LedgerRow → Bool) → List LedgerRow → ℤ
sum_where p [] = pos 0
sum_where p (g ∷ gs) = add_money (if p g then row_amount g else pos 0) (sum_where p gs)

abbrev pub is_stamped : LedgerRow → Bool
is_stamped g = is_some g.entry.reconciliation_id

abbrev pub beginning_balance : Decimals → Books → ℕ → ℕ → ℤ
beginning_balance lib books company_id account_id =
    lib.to_fixed (sum_where (λ g. is_of company_id account_id g && is_stamped g) books.ledger)

abbrev pub is_for : ℕ → ℕ → Reconciliation → Bool
is_for company_id account_id r = (r.company_id == company_id) && (r.account_id == account_id)

-- `order: { statementDate: 'DESC', createdAt: 'DESC' }`.
abbrev pub comes_after : Reconciliation → Reconciliation → Bool
comes_after r q =
    ltb q.statement_date r.statement_date
    || ((r.statement_date == q.statement_date) && ltb q.created_at r.created_at)

abbrev pub later_of : Reconciliation → Option Reconciliation → Reconciliation
later_of r none = r
later_of r (some q) = if comes_after q r then q else r

abbrev pub last_in : ℕ → ℕ → List Reconciliation → Option Reconciliation
last_in company_id account_id [] = none
last_in company_id account_id (r ∷ rs) =
    let rest = last_in company_id account_id rs in
    if is_for company_id account_id r then some (later_of r rest) else rest

abbrev pub last_reconciliation : Books → ℕ → ℕ → Option Reconciliation
last_reconciliation books company_id account_id =
    last_in company_id account_id books.reconciliations

-- The warning of the reconcile screen: by how much the beginning balance is off the last statement.
abbrev pub mismatch_with : Decimals → ℤ → Option Reconciliation → Option ℤ
mismatch_with lib beginning none = none
mismatch_with lib beginning (some last) =
    if not (money_equals lib beginning last.statement_ending_balance)
    then some (lib.to_fixed beginning -ℤ lib.to_fixed last.statement_ending_balance)
    else none

unfoldable pub beginning_mismatch : Decimals → Books → ℕ → ℕ → Option ℤ
beginning_mismatch lib books company_id account_id =
    mismatch_with lib (beginning_balance lib books company_id account_id)
      (last_reconciliation books company_id account_id)

abbrev pub until : Option ℕ → LedgerRow → Bool
until none g = true
until (some end_date) g = leb g.entry.date end_date

pub record Unreconciled : Type 0 where
  pub account : BankAccount
  pub beginning : ℤ
  pub last_statement_date : Option ℕ
  pub mismatch : Option ℤ
  pub entries : List LedgerRow

abbrev pub statement_date_of : Option Reconciliation → Option ℕ
statement_date_of none = none
statement_date_of (some r) = some r.statement_date

unfoldable pub get_unreconciled :
    Decimals → Books → ℕ → ℕ → Option ℕ → Result ReconciliationError Unreconciled
unfolding get_reconcilable_account beginning_mismatch
get_unreconciled lib books company_id account_id end_date = do
  account ← get_reconcilable_account books company_id account_id
  ok record {
    account = account;
    beginning = beginning_balance lib books company_id account.id;
    last_statement_date = statement_date_of (last_reconciliation books company_id account.id);
    mismatch = beginning_mismatch lib books company_id account.id;
    entries =
        filter (λ g. is_of company_id account_id g && not (is_stamped g) && until end_date g)
          books.ledger;
  }

pub record ClearedMark : Type 0 where
  pub entry_id : ℕ
  pub cleared : Bool

abbrev pub ids_marked : Bool → List ClearedMark → List ℕ
ids_marked cleared [] = []
ids_marked cleared (m ∷ ms) =
    let rest = ids_marked cleared ms in
    if (if m.cleared then cleared else not cleared) then m.entry_id ∷ rest else rest

-- The rows that a mark or a statement may touch: of the account, listed, and not stamped.
abbrev pub is_open : ℕ → ℕ → List ℕ → LedgerRow → Bool
is_open company_id account_id ids g =
    is_of company_id account_id g && contains g.id ids && not (is_stamped g)

abbrev pub set_cleared : ℕ → ℕ → List ℕ → Bool → LedgerRow → LedgerRow
set_cleared company_id account_id ids cleared g =
    if is_open company_id account_id ids g then record g { cleared = cleared } else g

unfoldable pub mark_cleared :
    Books → ℕ → ℕ → List ClearedMark → Result ReconciliationError (Books × ℕ)
unfolding get_reconcilable_account
mark_cleared books company_id account_id marks = do
  account ← get_reconcilable_account books company_id account_id
  let to_set = ids_marked true marks
  let to_unset = ids_marked false marks
  let ticked = map (set_cleared company_id account.id to_set true) books.ledger
  let unticked = map (set_cleared company_id account.id to_unset false) ticked
  let updated =
      length (filter (is_open company_id account.id to_set) books.ledger)
      + length (filter (is_open company_id account.id to_unset) ticked)
  ok (record books { ledger = unticked }, updated)
