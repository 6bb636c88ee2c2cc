-- ===== src/Reconciliations/Create/Valid.antt =====
-- Finishing a reconciliation keeps the books valid.
use mathlib.Core.Path.{subst}
use fin_matrix_backend.Prelude.{
  ℕ, ◌≤◌, ◌<◌, ◌≡◌, refl, sym, ap, ◌∙◌, Bool, true, false, List, ◌∷◌, map, filter, All, All-both,
  All-map, All-map_of, map_cong, arith, contains, if◌then◌else◌, ok,
}
use fin_matrix_backend.Prelude.Int.{◌+ℤ◌}
use fin_matrix_backend.Money.{Decimals, IsMoney}
use fin_matrix_backend.Store.{Env}
use fin_matrix_backend.Reconciliations.{
  LedgerRow, Reconciliation, Books, is_for, is_open, is_stamped, beginning_balance,
}
use fin_matrix_backend.Reconciliations.Statements.{
  CreateReconciliationDto, stamped_with, is_out_of_order, net_of_entries, ids_of, stamp,
  stamp_listed, create,
}
use fin_matrix_backend.Reconciliations.Sums.{
  sum_where-map, sum_where-IsMoney, net_of_entries-filter, listed_iff,
}
use fin_matrix_backend.Reconciliations.Chain.{
  closing, net_of, has_id, Follows, BelongsTo, Carries, stamped_in, IsValid, beginning_balance_lem,
  closing-IsMoney,
}
use fin_matrix_backend.Reconciliations.Latest.{last_reconciliation-newest}
use fin_matrix_backend.Reconciliations.Rows.{
  Keeps, change_if, change_if-Keeps, stamp-Keeps, keeps_amounts, map-HasUniqueIds, map-RowIsMoney,
  map-Chained,
}
use fin_matrix_backend.Reconciliations.Create.{Created, create_inv, saved_for}
use fin_matrix_backend.Reconciliations.Create.Stamps.{
  fixed_near, dated_in_order, unused, stamp_this, stamps_after, keeps_stamps,
}

-- What holds of a run of `create` that succeeded.
module _ (lib : Decimals) (env : Env) (books : Books) (company_id user_id : ℕ)
    (dto : CreateReconciliationDto) (account_id : ℕ) (entries : List LedgerRow)
    (out : Books × Reconciliation) (valid : IsValid lib books)
    (fresh : has_id env.new_id books.reconciliations ≡ false)
    (later : All (λ (r : Reconciliation). r.created_at < env.now) books.reconciliations)
    (run : Created lib env books company_id user_id dto account_id entries out) where
  abbrev pub is_picked : LedgerRow → Bool
  is_picked = is_open company_id account_id dto.cleared_entry_ids

  abbrev pub saved : Reconciliation
  saved = saved_for lib env books company_id user_id dto account_id entries

  abbrev pub stamped_row : LedgerRow → LedgerRow
  stamped_row = change_if is_picked (stamp env.new_id)

  pub picked_is_open : (g : LedgerRow) → is_picked g ≡ true → is_stamped g ≡ false
  picked_is_open g h = ground arith

  -- To stamp by the ids of the rows is to stamp the rows.
  pub stamped_ledger :
      map (stamp_listed (ids_of entries) env.new_id) books.ledger ≡ map stamped_row books.ledger
  stamped_ledger = rw run.clears.picked (
      map_cong (stamp_listed (ids_of (filter is_picked books.ledger)) env.new_id) stamped_row
        books.ledger
        (All-map
          (λ (g : LedgerRow). contains g.id (ids_of (filter is_picked books.ledger)) ≡ is_picked g)
          (λ g. stamp_listed (ids_of (filter is_picked books.ledger)) env.new_id g ≡ stamped_row g)
          (λ g e. ap (λ b. if b then stamp env.new_id g else g) e) books.ledger
          (listed_iff is_picked books.ledger valid.ids)))

  pub not_yet : All (λ g. stamped_with env.new_id g ≡ false) books.ledger
  not_yet =
      All-map (λ g. is_stamped g ≡ stamped_in books.reconciliations g)
        (λ g. stamped_with env.new_id g ≡ false)
        (λ g e. unused env.new_id books.reconciliations g fresh e) books.ledger valid.stamps

  keeps : Keeps stamped_row
  keeps = change_if-Keeps is_picked (stamp env.new_id) (stamp-Keeps env.new_id)

  beginning-is-closing :
      beginning_balance lib books company_id account_id
      ≡ closing company_id account_id books.reconciliations
  beginning-is-closing = beginning_balance_lem lib books valid company_id account_id

  net_of_stamped : net_of env.new_id (map stamped_row books.ledger) ≡ net_of_entries entries
  net_of_stamped =
      sum_where-map (stamped_with env.new_id) is_picked stamped_row
        (keeps_amounts stamped_row keeps) books.ledger
        (All-map (λ g. stamped_with env.new_id g ≡ false)
          (λ g. stamped_with env.new_id (stamped_row g) ≡ is_picked g)
          (stamp_this is_picked env.new_id picked_is_open) books.ledger not_yet)
      ∙ sym (net_of_entries-filter is_picked books.ledger)
      ∙ ap net_of_entries (sym run.clears.picked)

  cleared-IsMoney :
      IsMoney lib (beginning_balance lib books company_id account_id +ℤ net_of_entries entries)
  cleared-IsMoney =
      lib.fixed_add (beginning_balance lib books company_id account_id) (net_of_entries entries)
        (rw beginning-is-closing (
          closing-IsMoney lib company_id account_id books.ledger books.reconciliations valid.money
            valid.chained))
        (rw (run.clears.picked, net_of_entries-filter is_picked books.ledger)
          (sum_where-IsMoney lib is_picked books.ledger valid.money))

  pub saved-Follows : All (Follows saved) books.reconciliations
  saved-Follows =
      All-map
        (λ (q : Reconciliation).
          (is_for company_id account_id q ≡ true → q.statement_date ≤ dto.statement_date)
          × (q.created_at < env.now))
        (Follows saved) (λ q h mine. (h.0 mine, h.1)) books.reconciliations
        (All-both
          (λ (q : Reconciliation).
            is_for company_id account_id q ≡ true → q.statement_date ≤ dto.statement_date)
          (λ (q : Reconciliation). q.created_at < env.now) books.reconciliations
          (dated_in_order lib company_id account_id dto.statement_date books.ledger
            books.reconciliations valid.chained
            (ap (is_out_of_order dto.statement_date)
                (sym (last_reconciliation-newest lib books valid company_id account_id))
              ∙ run.in_order))
          later)

  pub place_of_picked :
      (g : LedgerRow)
      → is_picked g ≡ true
      → (g.entry.company_id ≡ company_id) × (g.entry.account_id ≡ account_id)
  place_of_picked g h = ground arith

  saved-BelongsTo : All (BelongsTo saved) (map stamped_row books.ledger)
  saved-BelongsTo = All-map_of (BelongsTo saved) stamped_row books.ledger (
      All-map (λ g. stamped_with env.new_id g ≡ false) (λ g. BelongsTo saved (stamped_row g))
        (λ g n s.
          let place =
            place_of_picked g (sym (stamp_this is_picked env.new_id picked_is_open g n) ∙ s) in
          ((keeps g).company_id ∙ place.0, (keeps g).account_id ∙ place.1))
        books.ledger not_yet)

  saved-Carries : Carries lib (map stamped_row books.ledger) saved books.reconciliations
  saved-Carries = record {
    carried = cleared-IsMoney ∙ rw (beginning-is-closing, net_of_stamped);
    begun = lib.to_fixed_idem _ ∙ beginning-is-closing;
    tied = rw cleared-IsMoney (
        fixed_near lib dto.statement_ending_balance
          (beginning_balance lib books company_id account_id +ℤ net_of_entries entries)
          cleared-IsMoney run.balanced);
    follows = saved-Follows;
    belong = saved-BelongsTo;
    fresh = fresh;
  }

  created-IsValid : IsValid lib (record books {
    ledger = map stamped_row books.ledger;
    reconciliations = saved ∷ books.reconciliations;
  })
  created-IsValid = record {
    ids = map-HasUniqueIds stamped_row keeps books.ledger valid.ids;
    money = map-RowIsMoney stamped_row keeps lib books.ledger valid.money;
    stamps =
        All-map_of (λ g. is_stamped g ≡ stamped_in (saved ∷ books.reconciliations) g) stamped_row
          books.ledger
          (All-map
            (λ g.
              (stamped_with env.new_id g ≡ false)
              × (is_stamped g ≡ stamped_in books.reconciliations g))
            (λ g.
              is_stamped (stamped_row g)
              ≡ stamped_in (saved ∷ books.reconciliations) (stamped_row g))
            (λ g h.
              stamps_after is_picked env.new_id picked_is_open books.reconciliations saved g refl
                h.0 h.1)
            books.ledger
            (All-both (λ g. stamped_with env.new_id g ≡ false)
              (λ g. is_stamped g ≡ stamped_in books.reconciliations g) books.ledger not_yet
              valid.stamps));
    chained = (
      saved-Carries,
      map-Chained stamped_row keeps lib books.ledger books.reconciliations
          (keeps_stamps is_picked env.new_id picked_is_open books.ledger books.reconciliations
            fresh)
          valid.chained,
    );
  }

-- Finishing a reconciliation under a fresh id and a later time keeps the books valid.
pub create-IsValid :
    (lib : Decimals) (env : Env) (books : Books) (company_id user_id : ℕ)
    (dto : CreateReconciliationDto) (out : Books × Reconciliation)
    → IsValid lib books
    → has_id env.new_id books.reconciliations ≡ false
    → All (λ (r : Reconciliation). r.created_at < env.now) books.reconciliations
    → create lib env books company_id user_id dto ≡ ok out
    → IsValid lib out.0
create-IsValid lib env books company_id user_id dto out valid fresh later h =
    let (account, entries, found, run) = create_inv lib env books company_id user_id dto out h in
    let after =
      created-IsValid lib env books company_id user_id dto account.id entries out valid fresh later
        run in
    let ledger =
      stamped_ledger lib env books company_id user_id dto account.id entries out valid fresh later
        run in
    subst (λ (o : Books × Reconciliation). IsValid lib o.0) (sym run.effect) (rw ledger after)
