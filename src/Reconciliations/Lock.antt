-- ===== src/Reconciliations/Lock.antt =====
-- The lock that a finished reconciliation puts on documents: `assertNotReconciled` over its rows.
use fin_matrix_backend.Prelude.{
  ℕ, ◌<◌, ◌≡◌, refl, ap, ◌∙◌, Bool, true, false, ◌&&◌, ◌||◌, List, [], ◌∷◌, map, All, any, arith,
  Bool-cases, inl, inr, ◌⊎◌, ◌==◌, is_some, ok, err,
}
use fin_matrix_backend.Money.{Decimals}
use fin_matrix_backend.Store.{Env, GeneralLedgerEntry, Db, transaction_reconciled}
use fin_matrix_backend.JournalEntries.{assert_not_reconciled}
use fin_matrix_backend.Reconciliations.{LedgerRow, Reconciliation, Books, is_open}
use fin_matrix_backend.Reconciliations.Statements.{CreateReconciliationDto, stamp, create}
use fin_matrix_backend.Reconciliations.Chain.{has_id, IsValid}
use fin_matrix_backend.Reconciliations.Rows.{change_if}
use fin_matrix_backend.Reconciliations.Create.{create_inv}
use fin_matrix_backend.Reconciliations.RoundTrip.{out_is}

abbrev pub is_locked_row : ℕ → ℕ → GeneralLedgerEntry → Bool
is_locked_row company_id source_id g =
    (g.company_id == company_id) && (g.source_id == source_id) && is_some g.reconciliation_id

abbrev pub entries_of : List LedgerRow → List GeneralLedgerEntry
entries_of [] = []
entries_of (g ∷ gs) = g.entry ∷ entries_of gs

or_right : (b : Bool) {c : Bool} → c ≡ true → (b || c) ≡ true
or_right true h = refl
or_right false h = h

or_left : (b c : Bool) → b ≡ true → (b || c) ≡ true
or_left b c h = ap (λ x. x || c) h

locked_row :
    (c a source_id id : ℕ) (ids : List ℕ) (g : LedgerRow)
    → is_open c a ids g ≡ true
    → (g.entry.source_id == source_id) ≡ true
    → is_locked_row c source_id (stamp id g).entry ≡ true
locked_row c a source_id id ids g hit source =
    let mine : (g.entry.company_id == c) ≡ true = ground arith in rw (mine, source)

locked_after :
    (c a source_id id : ℕ) (ids : List ℕ) (gs : List LedgerRow)
    → any (λ g. is_open c a ids g && (g.entry.source_id == source_id)) gs ≡ true
    → any (is_locked_row c source_id) (entries_of (map (change_if (is_open c a ids) (stamp id)) gs))
      ≡ true
locked_after c a source_id id ids [] h = absurd (cc h)
locked_after c a source_id id ids (g ∷ gs) h =
    by_cases (Bool-cases (is_open c a ids g)) (Bool-cases (g.entry.source_id == source_id))
      (locked_after c a source_id id ids gs)
  where
    by_cases :
        (is_open c a ids g ≡ true) ⊎ (is_open c a ids g ≡ false)
        → ((g.entry.source_id == source_id) ≡ true) ⊎ ((g.entry.source_id == source_id) ≡ false)
        → (any (λ g. is_open c a ids g && (g.entry.source_id == source_id)) gs ≡ true
            → any
                (is_locked_row c source_id)
                (entries_of (map (change_if (is_open c a ids) (stamp id)) gs))
              ≡ true)
        → any
            (is_locked_row c source_id)
            (entries_of (map (change_if (is_open c a ids) (stamp id)) (g ∷ gs)))
          ≡ true
    by_cases (inl hit) (inl source) rest =
        let after : change_if (is_open c a ids) (stamp id) g ≡ stamp id g = rw hit in
        or_left (is_locked_row c source_id (change_if (is_open c a ids) (stamp id) g).entry) _ (
          ap (λ (h : LedgerRow). is_locked_row c source_id h.entry) after
          ∙ locked_row c a source_id id ids g hit source)
    by_cases (inl hit) (inr other) rest =
        let later : any (λ g. is_open c a ids g && (g.entry.source_id == source_id)) gs ≡ true =
          rw (hit, other) at h in
        or_right (is_locked_row c source_id (change_if (is_open c a ids) (stamp id) g).entry)
          (rest later)
    by_cases (inr miss) s rest =
        let later : any (λ g. is_open c a ids g && (g.entry.source_id == source_id)) gs ≡ true =
          rw miss at h in
        or_right (is_locked_row c source_id (change_if (is_open c a ids) (stamp id) g).entry)
          (rest later)

-- In valid books, when a reconciliation is finished under a fresh id and at a later time, the
-- documents of the rows that it cleared are locked: the check that voiding and deleting make
-- refuses each of them.
pub create_locks :
    (lib : Decimals) (env : Env) (books : Books) (company_id user_id : ℕ)
    (dto : CreateReconciliationDto) (out : Books × Reconciliation) (source_id : ℕ) (db : Db)
    → IsValid lib books
    → has_id env.new_id books.reconciliations ≡ false
    → All (λ (r : Reconciliation). r.created_at < env.now) books.reconciliations
    → create lib env books company_id user_id dto ≡ ok out
    → any
        (λ g.
          is_open company_id out.1.account_id dto.cleared_entry_ids g
          && (g.entry.source_id == source_id))
        books.ledger
      ≡ true
    → db.general_ledger ≡ entries_of out.0.ledger
    → assert_not_reconciled db company_id source_id ≡ err transaction_reconciled
unfolding assert_not_reconciled
create_locks lib env books company_id user_id dto out source_id db valid fresh later h cleared
      same =
    let (account, entries, found, run) = create_inv lib env books company_id user_id dto out h in
    let is =
      out_is lib env books company_id user_id dto account.id entries out valid fresh later run in
    let account_same = ap (λ (o : Books × Reconciliation). o.1.account_id) is in
    let ledger_same = ap (λ (o : Books × Reconciliation). entries_of o.0.ledger) is in
    rw (
      same ∙ ledger_same,
      locked_after company_id account.id source_id env.new_id dto.cleared_entry_ids books.ledger
          (rw account_same at cleared),
    )
