-- ===== src/DocumentStatus/Summary.antt =====
-- The summary of a list counts every document once, under the status that it shows.
use fin_matrix_backend.Prelude.{
  ℕ, suc, ◌+◌, ◌≡◌, refl, sym, ap, ◌∙◌, Bool, true, false, List, [], ◌∷◌, length, contains, set_add,
  ◌==◌, if◌then◌else◌, arith, inl, inr, Bool-cases, ==→eq,
}
use fin_matrix_backend.Prelude.Int.{ℤ, pos, ◌+ℤ◌, zero_+ℤ, int_laws}
use fin_matrix_backend.Money.{Decimals, to_decimal}
use fin_matrix_backend.DocumentStatus.{
  Document, overdue, derived_status, derived_status_sql, StatusRow, add_row, grouped, add_up,
  printed, document_list_summary,
}
use fin_matrix_backend.DocumentStatus.Filter.{derived_status_sql_same}

-- The balances of the rows and of the documents whose status passes a test.
abbrev row_share : (ℕ → Bool) → StatusRow → ℤ
row_share p r = if p r.derived_status then r.balance else pos 0

abbrev sum_rows : (ℕ → Bool) → List StatusRow → ℤ
sum_rows p [] = pos 0
sum_rows p (r ∷ rows) = row_share p r +ℤ sum_rows p rows

abbrev count_rows : List StatusRow → ℕ
count_rows [] = 0
count_rows (r ∷ rows) = r.count + count_rows rows

module _ (open_statuses : List ℕ) (today : ℕ) where
  abbrev pub shows : Document → ℕ
  shows doc = derived_status doc open_statuses today

  abbrev pub balance_of : (ℕ → Bool) → List Document → ℤ
  balance_of p [] = pos 0
  balance_of p (doc ∷ docs) =
      (if p (shows doc) then to_decimal doc.balance else pos 0) +ℤ balance_of p docs

sum_rows-add_row :
    (p : ℕ → Bool) (s : ℕ) (b : ℤ) (rows : List StatusRow)
    → sum_rows p (add_row s b rows) ≡ (if p s then b else pos 0) +ℤ sum_rows p rows
sum_rows-add_row p s b [] = refl
sum_rows-add_row p s b (r ∷ rows) = elim (Bool-cases (s == r.derived_status)) [
  | inl same ↦
      let share : p s ≡ p r.derived_status = ap p (==→eq _ _ same) in
      elim (Bool-cases (p r.derived_status)) [
        | inl on ↦ rw (same, share, on) (omega int_laws)
        | inr off ↦ rw (same, share, off) (omega int_laws)
      ]
  | inr other ↦ rw other (rw (sum_rows-add_row p s b rows) (omega int_laws))
]

count_rows-add_row :
    (s : ℕ) (b : ℤ) (rows : List StatusRow) → count_rows (add_row s b rows) ≡ suc (count_rows rows)
count_rows-add_row s b [] = refl
count_rows-add_row s b (r ∷ rows) = ground (arith, count_rows-add_row s b rows)

sum_rows-grouped :
    (p : ℕ → Bool) (open_statuses : List ℕ) (today : ℕ) (docs : List Document)
    → sum_rows p (grouped open_statuses today docs) ≡ balance_of open_statuses today p docs
unfolding grouped
sum_rows-grouped p open_statuses today [] = refl
sum_rows-grouped p open_statuses today (doc ∷ docs) =
    sum_rows-add_row p (derived_status_sql doc open_statuses today) (to_decimal doc.balance)
      (grouped open_statuses today docs)
    ∙ rw (
      derived_status_sql_same doc open_statuses today,
      sum_rows-grouped p open_statuses today docs,
    )

count_rows-grouped :
    (open_statuses : List ℕ) (today : ℕ) (docs : List Document)
    → count_rows (grouped open_statuses today docs) ≡ length docs
unfolding grouped
count_rows-grouped open_statuses today [] = refl
count_rows-grouped open_statuses today (doc ∷ docs) =
    count_rows-add_row (derived_status_sql doc open_statuses today) (to_decimal doc.balance)
      (grouped open_statuses today docs)
    ∙ ap (λ n. suc n) (count_rows-grouped open_statuses today docs)

eq_triple :
    {a a' : ℕ} {b b' c c' : ℤ}
    → a ≡ a'
    → b ≡ b'
    → c ≡ c'
    → ◌≡◌ {A = ℕ × ℤ × ℤ} (a, b, c) (a', b', c')
eq_triple p q r = cc

-- A balance that is added under a test is added to the sum.
added_under :
    (test : Bool) (x b rest : ℤ)
    → (if test then x +ℤ b else x) +ℤ rest ≡ x +ℤ ((if test then b else pos 0) +ℤ rest)
added_under true x b rest = omega int_laws
added_under false x b rest = omega int_laws

add_up_lem :
    (owing : List ℕ) (rows : List StatusRow) (count : ℕ) (outstanding past : ℤ)
    → add_up owing rows count outstanding past ≡ (
      count + count_rows rows,
      outstanding +ℤ sum_rows (λ s. contains s owing) rows,
      past +ℤ sum_rows (λ s. s == overdue) rows,
    )
add_up_lem owing [] count outstanding past =
    eq_triple (omega arith) (omega int_laws) (omega int_laws)
add_up_lem owing (r ∷ rows) count outstanding past =
    add_up_lem owing rows (count + r.count)
      (if contains r.derived_status owing then outstanding +ℤ r.balance else outstanding)
      (if r.derived_status == overdue then past +ℤ r.balance else past)
    ∙ eq_triple (omega arith)
        (added_under (contains r.derived_status owing) outstanding r.balance
          (sum_rows (λ s. contains s owing) rows))
        (added_under (r.derived_status == overdue) past r.balance
          (sum_rows (λ s. s == overdue) rows))

-- The tab of a status: how many, and what they owe. A status without a row has an empty tab.
abbrev pub tab : ℕ → List StatusRow → ℕ × ℤ
tab s [] = (0, pos 0)
tab s (r ∷ rows) = if s == r.derived_status then (r.count, r.balance) else tab s rows

abbrev add_doc : ℤ → ℕ × ℤ → ℕ × ℤ
add_doc b (n, x) = (suc n, x +ℤ b)

tab-add_row :
    (s t : ℕ) (b : ℤ) (rows : List StatusRow)
    → tab s (add_row t b rows) ≡ (if t == s then add_doc b (tab s rows) else tab s rows)
tab-add_row s t b [] = ground (arith, zero_+ℤ b)
tab-add_row s t b (r ∷ rows) = ground (arith, tab-add_row s t b rows)

module _ (open_statuses : List ℕ) (today : ℕ) where
  -- The documents that show a status: how many, and what they owe.
  abbrev pub showing : ℕ → List Document → ℕ × ℤ
  showing s [] = (0, pos 0)
  showing s (doc ∷ docs) =
      let rest = showing s docs in
      if derived_status doc open_statuses today == s
      then (suc rest.0, rest.1 +ℤ to_decimal doc.balance)
      else rest

  tab-grouped :
      (s : ℕ) (docs : List Document) → tab s (grouped open_statuses today docs) ≡ showing s docs
  unfolding grouped
  tab-grouped s [] = refl
  tab-grouped s (doc ∷ docs) =
      tab-add_row s (derived_status_sql doc open_statuses today) (to_decimal doc.balance)
        (grouped open_statuses today docs)
      ∙ rw (derived_status_sql_same doc open_statuses today, tab-grouped s docs)

  module _ (lib : Decimals) where
    open lib use {to_fixed, fixed_zero}

    tab-printed :
        (s : ℕ) (rows : List StatusRow)
        → tab s (printed lib rows) ≡ ((tab s rows).0, to_fixed (tab s rows).1)
    tab-printed s [] = ap (λ (x : ℤ). (0, x)) (sym fixed_zero)
    tab-printed s (r ∷ rows) = ground (arith, tab-printed s rows)

    -- The summary counts every document; `outstanding` and `overdue` are what the documents owe
    -- that show an open status or `overdue`, and those that show `overdue`; and the tab of each
    -- status holds the documents that show it.
    pub document_list_summary_lem :
        (docs : List Document)
        → let summary = document_list_summary lib open_statuses today docs in
          (summary.count ≡ length docs)
          × (summary.outstanding
              ≡ to_fixed (
                  balance_of open_statuses today
                    (λ s. contains s (set_add overdue open_statuses))
                    docs))
          × (summary.overdue_balance
              ≡ to_fixed (balance_of open_statuses today (λ s. s == overdue) docs))
          × ((s : ℕ) → tab s summary.by_status ≡ ((showing s docs).0, to_fixed (showing s docs).1))
    unfolding document_list_summary
    document_list_summary_lem docs =
        let owing = set_add overdue open_statuses in
        let rows = grouped open_statuses today docs in
        let plain : 0 + count_rows rows ≡ count_rows rows = omega arith in
        let sums = add_up_lem owing rows 0 (pos 0) (pos 0) in
        (
          ap (λ (t : ℕ × ℤ × ℤ). t.0) sums ∙ plain ∙ count_rows-grouped open_statuses today docs,
          ap (λ (t : ℕ × ℤ × ℤ). to_fixed t.1) sums
              ∙ ap to_fixed (
                  zero_+ℤ (sum_rows (λ s. contains s owing) rows)
                  ∙ sum_rows-grouped (λ s. contains s owing) open_statuses today docs),
          ap (λ (t : ℕ × ℤ × ℤ). to_fixed t.2) sums
              ∙ ap to_fixed (
                  zero_+ℤ (sum_rows (λ s. s == overdue) rows)
                  ∙ sum_rows-grouped (λ s. s == overdue) open_statuses today docs),
          λ s. tab-printed s rows ∙ ap (λ (t : ℕ × ℤ). (t.0, to_fixed t.1)) (tab-grouped s docs),
        )
