-- ===== src/Reconciliations/Statements.antt =====
-- Statements of src/modules/reconciliations/reconciliations.service.ts: `create` finishes one and stamps
-- its rows, `remove` undoes the latest.
use fin_matrix_backend.Prelude.{
  ℕ, Bool, true, false, not, ◌&&◌, Option, none, some, String, List, [], ◌∷◌, map, filter, any,
  find, length, contains, ltb, ◌==◌, if◌then◌else◌, Result, ok, ◌>>=◌, ◌>>◌, throw_if, or_throw,
}
use fin_matrix_backend.Prelude.Int.{ℤ, pos, ◌-ℤ◌}
use fin_matrix_backend.Money.{Decimals, money_equals, add_money}
use fin_matrix_backend.Store.{Env}
use fin_matrix_backend.Reconciliations.{
  LedgerRow, Reconciliation, AuditRecord, Books, ReconciliationError, get_reconcilable_account,
  row_amount, beginning_balance, is_for, comes_after, last_reconciliation, is_open,
  reconciliation_out_of_order, invalid_cleared_entries, cleared_entry_after_statement,
  reconciliation_out_of_balance, reconciliation_not_found, reconciliation_not_latest,
}

pub record CreateReconciliationDto : Type 0 where
  pub account_id : ℕ
  pub statement_date : ℕ
  pub statement_ending_balance : ℤ
  pub cleared_entry_ids : List ℕ
  pub notes : Option String

-- The rows that the statement clears. No ids give no rows.
unfoldable pub cleared_entries :
    Books → ℕ → ℕ → CreateReconciliationDto → Result ReconciliationError (List LedgerRow)
cleared_entries books company_id account_id dto = do
  let entries = filter (is_open company_id account_id dto.cleared_entry_ids) books.ledger
  throw_if (not (length entries == length dto.cleared_entry_ids)) invalid_cleared_entries
  throw_if (any (λ (g : LedgerRow). ltb dto.statement_date g.entry.date) entries)
      cleared_entry_after_statement
  ok entries

abbrev pub net_of_entries : List LedgerRow → ℤ
net_of_entries [] = pos 0
net_of_entries (g ∷ gs) = add_money (row_amount g) (net_of_entries gs)

abbrev pub is_out_of_order : ℕ → Option Reconciliation → Bool
is_out_of_order date none = false
is_out_of_order date (some last) = ltb date last.statement_date

abbrev pub ids_of : List LedgerRow → List ℕ
ids_of [] = []
ids_of (g ∷ gs) = g.id ∷ ids_of gs

abbrev pub stamp : ℕ → LedgerRow → LedgerRow
stamp id g = record g { cleared = true; entry = record g.entry { reconciliation_id = some id } }

abbrev pub stamp_listed : List ℕ → ℕ → LedgerRow → LedgerRow
stamp_listed ids id g = if contains g.id ids then stamp id g else g

-- What `create` saves, `difference` being what the check has found small enough.
abbrev pub new_reconciliation :
    Decimals → Env → ℕ → ℕ → ℕ → CreateReconciliationDto → ℤ → ℤ → ℕ → Reconciliation
new_reconciliation lib env company_id account_id user_id dto beginning cleared count = record {
  id = env.new_id;
  company_id = company_id;
  created_at = env.now;
  account_id = account_id;
  statement_date = dto.statement_date;
  statement_ending_balance = lib.to_fixed dto.statement_ending_balance;
  beginning_balance = lib.to_fixed beginning;
  cleared_balance = lib.to_fixed cleared;
  difference = lib.to_fixed (dto.statement_ending_balance -ℤ cleared);
  cleared_count = count;
  notes = dto.notes;
  created_by = user_id;
}

-- The books with what `create` saves, and that row.
abbrev pub finished : Books → List LedgerRow → Reconciliation → Books × Reconciliation
finished books entries saved = (
  record books {
    ledger = map (stamp_listed (ids_of entries) saved.id) books.ledger;
    reconciliations = saved ∷ books.reconciliations;
  },
  saved,
)

unfoldable pub create :
    Decimals
    → Env
    → Books
    → ℕ
    → ℕ
    → CreateReconciliationDto
    → Result ReconciliationError (Books × Reconciliation)
create lib env books company_id user_id dto = do
  account ← get_reconcilable_account books company_id dto.account_id
  throw_if (is_out_of_order dto.statement_date (last_reconciliation books company_id account.id))
      reconciliation_out_of_order
  entries ← cleared_entries books company_id account.id dto
  let beginning = beginning_balance lib books company_id account.id
  let cleared = add_money beginning (net_of_entries entries)
  throw_if (not (money_equals lib (dto.statement_ending_balance -ℤ cleared) (pos 0)))
      reconciliation_out_of_balance
  ok (
      finished books entries (
        new_reconciliation lib env company_id account.id user_id dto beginning cleared
          (length entries)))

abbrev pub stamped_with : ℕ → LedgerRow → Bool
stamped_with id g = elim g.entry.reconciliation_id [ none ↦ false | some j ↦ j == id ]

abbrev pub unstamp : LedgerRow → LedgerRow
unstamp g = record g { cleared = false; entry = record g.entry { reconciliation_id = none } }

abbrev pub unstamp_of : ℕ → ℕ → LedgerRow → LedgerRow
unstamp_of company_id id g =
    if (g.entry.company_id == company_id) && stamped_with id g then unstamp g else g

-- The reconciliations of the account that are newer than one.
abbrev pub is_newer : ℕ → Reconciliation → Reconciliation → Bool
is_newer company_id recon r =
    is_for company_id recon.account_id r && not (r.id == recon.id) && comes_after r recon

abbrev pub without : ℕ → List Reconciliation → List Reconciliation
without id = filter (λ (r : Reconciliation). not (r.id == id))

-- The record of the operational audit trail.
abbrev pub audit_of : ℕ → Option ℕ → ℕ → Reconciliation → AuditRecord
audit_of company_id actor_user_id id recon = record {
  company_id = company_id;
  actor_user_id = actor_user_id;
  target_id = id;
  account_id = recon.account_id;
  statement_date = recon.statement_date;
  statement_ending_balance = recon.statement_ending_balance;
  cleared_count = recon.cleared_count;
}

unfoldable pub remove : Books → ℕ → ℕ → Option ℕ → Result ReconciliationError Books
remove books company_id id actor_user_id = do
  recon ←
      or_throw
        (find (λ (r : Reconciliation). (r.id == id) && (r.company_id == company_id))
          books.reconciliations)
        reconciliation_not_found
  throw_if (any (is_newer company_id recon) books.reconciliations) reconciliation_not_latest
  ok record books {
    ledger = map (unstamp_of company_id id) books.ledger;
    reconciliations = without recon.id books.reconciliations;
    audit = audit_of company_id actor_user_id id recon ∷ books.audit;
  }
