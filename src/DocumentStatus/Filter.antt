-- ===== src/DocumentStatus/Filter.antt =====
-- The status in the code, its SQL twin and the filter agree.
use fin_matrix_backend.Prelude.{
  ℕ, ◌≡◌, ap, some, List, contains, ◌==◌, arith, inl, inr, Bool-cases, ==→eq,
}
use fin_matrix_backend.Prelude.Int.{ℤ}
use fin_matrix_backend.DocumentStatus.{
  Document, derived_status, derived_status_sql, past_due_sql, derived_status_filter, is_listed,
}

-- The status that the database derives is the one that the code derives, also where the balance or
-- the due date is missing.
pub derived_status_sql_same :
    (doc : Document) (open_statuses : List ℕ) (today : ℕ)
    → derived_status_sql doc open_statuses today ≡ derived_status doc open_statuses today
unfolding derived_status derived_status_sql past_due_sql
derived_status_sql_same doc open_statuses today = ground arith

-- A list that is filtered by a status holds exactly the documents that show it, where the balance
-- is not missing.
pub derived_status_filter_same :
    (doc : Document) (open_statuses : List ℕ) (today status : ℕ) (b : ℤ)
    → doc.balance ≡ some b
    → is_listed (some status) open_statuses today doc
      ≡ (derived_status doc open_statuses today == status)
unfolding derived_status past_due_sql derived_status_filter
derived_status_filter_same doc open_statuses today status b stored =
    elim (Bool-cases (doc.status == status)) [
      | inl same ↦
          let shown : contains doc.status open_statuses ≡ contains status open_statuses =
            ap (λ s. contains s open_statuses) (==→eq _ _ same) in
          ground (arith, same, shown)
      | inr differ ↦ ground (arith, differ)
    ]
