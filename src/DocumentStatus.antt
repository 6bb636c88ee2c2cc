-- ===== src/DocumentStatus.antt =====
-- src/common/utils/document-status.util.ts: the status that an invoice or a bill shows, its SQL
-- twin, the filter of the lists and the summary of their tabs. A status is text that is only
-- compared, and is a number here. Conditions of SQL are true, false or NULL (`none`).
pub mod Filter
pub mod Summary
use fin_matrix_backend.Prelude.{
  ℕ, suc, ◌+◌, Bool, true, false, not, ◌&&◌, ◌||◌, Option, none, some, List, [], ◌∷◌, ltb, ◌==◌,
  if◌then◌else◌, contains, set_add,
}
use fin_matrix_backend.Prelude.Int.{ℤ, pos, ◌+ℤ◌, ltb_ℤ}
use fin_matrix_backend.Money.{Decimals, to_decimal}

abbrev pub overdue : ℕ
overdue = 0

pub record Document : Type 0 where
  pub status : ℕ
  pub due_date : Option ℕ
  pub balance : Option ℤ

abbrev pub due_before : Option ℕ → ℕ → Bool
due_before none today = false
due_before (some due) today = ltb due today

unfoldable pub derived_status : Document → List ℕ → ℕ → ℕ
derived_status doc open_statuses today =
    if ltb_ℤ (pos 0) (to_decimal doc.balance)
      && due_before doc.due_date today
      && contains doc.status open_statuses
    then overdue
    else doc.status

-- AND, OR and NOT of SQL.
abbrev pub sql_and : Option Bool → Option Bool → Option Bool
sql_and (some false) b = some false
sql_and (some true) b = b
sql_and none (some false) = some false
sql_and none _ = none

abbrev pub sql_or : Option Bool → Option Bool → Option Bool
sql_or (some true) b = some true
sql_or (some false) b = b
sql_or none (some true) = some true
sql_or none _ = none

abbrev pub sql_not : Option Bool → Option Bool
sql_not none = none
sql_not (some b) = some (not b)

-- A condition holds, in WHERE and in CASE, only if it is true.
abbrev pub sql_true : Option Bool → Bool
sql_true (some true) = true
sql_true _ = false

abbrev pub owes_sql : Option ℤ → Option Bool
owes_sql none = none
owes_sql (some b) = some (ltb_ℤ (pos 0) b)

abbrev pub before_sql : Option ℕ → ℕ → Option Bool
before_sql none today = none
before_sql (some due) today = some (ltb due today)

abbrev pub not_null : Option ℕ → Bool
not_null none = false
not_null (some _) = true

unfoldable pub past_due_sql : Document → ℕ → Option Bool
past_due_sql doc today =
    sql_and (sql_and (owes_sql doc.balance) (some (not_null doc.due_date)))
      (before_sql doc.due_date today)

unfoldable pub derived_status_sql : Document → List ℕ → ℕ → ℕ
unfolding past_due_sql
derived_status_sql doc open_statuses today =
    if sql_true (sql_and (some (contains doc.status open_statuses)) (past_due_sql doc today))
    then overdue
    else doc.status

-- The WHERE clause that the filter adds for a status.
unfoldable pub derived_status_filter : ℕ → List ℕ → ℕ → Document → Option Bool
unfolding past_due_sql
derived_status_filter status open_statuses today doc =
    if status == overdue
    then sql_or (some (doc.status == overdue))
        (sql_and (some (contains doc.status open_statuses)) (past_due_sql doc today))
    else if contains status open_statuses
    then sql_and (some (doc.status == status)) (sql_not (past_due_sql doc today))
    else some (doc.status == status)

-- The documents that a list shows; without a status, all of them.
abbrev pub is_listed : Option ℕ → List ℕ → ℕ → Document → Bool
is_listed none open_statuses today doc = true
is_listed (some status) open_statuses today doc =
    sql_true (derived_status_filter status open_statuses today doc)

pub record StatusRow : Type 0 where
  pub derived_status : ℕ
  pub count : ℕ
  pub balance : ℤ

-- GROUP BY the derived status, with COUNT(*) and SUM(balance).
abbrev pub add_row : ℕ → ℤ → List StatusRow → List StatusRow
add_row status balance [] = record { derived_status = status; count = 1; balance = balance } ∷ []
add_row status balance (r ∷ rows) =
    let rest = add_row status balance rows in
    if status == r.derived_status
    then record r { count = suc r.count; balance = r.balance +ℤ balance } ∷ rows
    else r ∷ rest

unfoldable pub grouped : List ℕ → ℕ → List Document → List StatusRow
unfolding derived_status_sql
grouped open_statuses today [] = []
grouped open_statuses today (doc ∷ docs) =
    add_row (derived_status_sql doc open_statuses today) (to_decimal doc.balance)
      (grouped open_statuses today docs)

pub record DocumentListSummary : Type 0 where
  pub count : ℕ
  pub outstanding : ℤ
  pub overdue_balance : ℤ
  pub by_status : List StatusRow

-- The loop over the rows, from the sums so far.
abbrev pub add_up : List ℕ → List StatusRow → ℕ → ℤ → ℤ → ℕ × ℤ × ℤ
add_up owing [] count outstanding past = (count, outstanding, past)
add_up owing (r ∷ rows) count outstanding past =
    add_up owing rows (count + r.count)
      (if contains r.derived_status owing then outstanding +ℤ r.balance else outstanding)
      (if r.derived_status == overdue then past +ℤ r.balance else past)

module _ (lib : Decimals) where
  open lib use {to_fixed}

  abbrev pub printed : List StatusRow → List StatusRow
  printed [] = []
  printed (r ∷ rows) = record r { balance = to_fixed r.balance } ∷ printed rows

  unfoldable pub document_list_summary : List ℕ → ℕ → List Document → DocumentListSummary
  unfolding grouped
  document_list_summary open_statuses today docs =
      let rows = grouped open_statuses today docs in
      let (count, outstanding, past) =
        add_up (set_add overdue open_statuses) rows 0 (pos 0) (pos 0) in
      record {
        count = count;
        outstanding = to_fixed outstanding;
        overdue_balance = to_fixed past;
        by_status = printed rows;
      }
