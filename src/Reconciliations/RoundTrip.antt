-- ===== src/Reconciliations/RoundTrip.antt =====
-- Undoing what was just finished.
use mathlib.Core.Path.{subst}
use fin_matrix_backend.Prelude.{
  ℕ, ◌<◌, ◌≡◌, refl, sym, ap, ◌∙◌, Bool, true, false, Option, none, some, List, [], ◌∷◌, map, All,
  any, arith, Bool-cases, inl, inr, ◌⊎◌, ◌==◌, eq→==, is_some, ok,
}
use fin_matrix_backend.Money.{Decimals}
use fin_matrix_backend.Store.{Env}
use fin_matrix_backend.Reconciliations.{
  LedgerRow, Reconciliation, Books, is_for, is_open, is_stamped, set_cleared, comes_after,
}
use fin_matrix_backend.Reconciliations.Statements.{
  CreateReconciliationDto, stamped_with, stamp, unstamp, unstamp_of, is_newer, without, audit_of,
  create, remove,
}
use fin_matrix_backend.Reconciliations.Chain.{has_id, Follows, IsValid}
use fin_matrix_backend.Reconciliations.Rows.{change_if}
use fin_matrix_backend.Reconciliations.Create.{Created, create_inv, saved_for}
use fin_matrix_backend.Reconciliations.Create.Valid.{
  picked_is_open, stamped_ledger, not_yet, saved-Follows, place_of_picked,
}
use fin_matrix_backend.Reconciliations.Remove.{without_absent, Removable, remove_of}

-- None of the older ones is newer.
none_newer :
    (company_id : ℕ) (r : Reconciliation) (rs : List Reconciliation)
    → r.company_id ≡ company_id
    → All (Follows r) rs
    → any (is_newer company_id r) rs ≡ false
none_newer company_id r [] same h = refl
none_newer company_id r (q ∷ rs) same (h, hs) =
    rw (not_newer (Bool-cases (is_for company_id r.account_id q)))
      (none_newer company_id r rs same hs)
  where
    not_newer :
        (is_for company_id r.account_id q ≡ true) ⊎ (is_for company_id r.account_id q ≡ false)
        → is_newer company_id r q ≡ false
    not_newer (inr other) = rw other
    not_newer (inl mine) =
        let older = h (rw same mine) in
        let not_after : comes_after q r ≡ false = ground arith in
        rw (mine, not_after) (ground arith)

not_newer_than_itself : (company_id : ℕ) (r : Reconciliation) → is_newer company_id r r ≡ false
not_newer_than_itself company_id r =
    let own : (r.id == r.id) ≡ true = eq→== r.id r.id refl in rw own (ground arith)

-- A row of the statement is ticked and stamped, and then neither.
release_picked :
    (id company_id : ℕ) (g : LedgerRow)
    → is_stamped g ≡ false
    → g.entry.company_id ≡ company_id
    → unstamp_of company_id id (stamp id g) ≡ record g { cleared = false }
release_picked id company_id g free mine =
    let own : (id == id) ≡ true = eq→== id id refl in
    let here : (g.entry.company_id == company_id) ≡ true = eq→== _ _ mine in
    rw (here, own) (restored g.entry.reconciliation_id free refl)
  where
    restored :
        (s : Option ℕ)
        → is_some s ≡ false
        → g.entry.reconciliation_id ≡ s
        → unstamp (stamp id g) ≡ record g { cleared = false }
    restored none e same =
        ap
          (λ (o : Option ℕ). record g {
            cleared = false;
            entry = record g.entry { reconciliation_id = o };
          })
          (sym same)
    restored (some j) e same = absurd (cc e)

module _ (lib : Decimals) (env : Env) (books : Books) (company_id user_id : ℕ)
    (dto : CreateReconciliationDto) (account_id : ℕ) (entries : List LedgerRow)
    (out : Books × Reconciliation) (valid : IsValid lib books)
    (fresh : has_id env.new_id books.reconciliations ≡ false)
    (later : All (λ (r : Reconciliation). r.created_at < env.now) books.reconciliations)
    (run : Created lib env books company_id user_id dto account_id entries out) where
  abbrev made : Reconciliation
  made = saved_for lib env books company_id user_id dto account_id entries

  abbrev picks : LedgerRow → Bool
  picks = is_open company_id account_id dto.cleared_entry_ids

  abbrev restamped : LedgerRow → LedgerRow
  restamped = change_if picks (stamp env.new_id)

  released_row :
      (g : LedgerRow)
      → stamped_with env.new_id g ≡ false
      → unstamp_of company_id env.new_id (restamped g)
        ≡ set_cleared company_id account_id dto.cleared_entry_ids false g
  released_row g not_its = elim (Bool-cases (picks g)) [
    | inl hit ↦ rw hit (
        release_picked env.new_id company_id g
          (picked_is_open lib env books company_id user_id dto account_id entries out valid fresh
            later run g hit)
          (place_of_picked lib env books company_id user_id dto account_id entries out valid fresh
            later run g hit).0)
    | inr miss ↦ rw (miss, not_its) (ground arith)
  ]

  released_ledger :
      (gs : List LedgerRow)
      → All (λ g. stamped_with env.new_id g ≡ false) gs
      → map (unstamp_of company_id env.new_id) (map restamped gs)
        ≡ map (set_cleared company_id account_id dto.cleared_entry_ids false) gs
  released_ledger [] h = refl
  released_ledger (g ∷ gs) (h, hs) = rw (released_row g h, released_ledger gs hs)

  abbrev after_create : Books
  after_create = record books {
    ledger = map restamped books.ledger;
    reconciliations = made ∷ books.reconciliations;
  }

  pub out_is : out ≡ (after_create, made)
  out_is =
      run.effect
      ∙ rw (
          stamped_ledger lib env books company_id user_id dto account_id entries out valid fresh
            later run)

  made_is_newest : Removable after_create company_id env.new_id made
  made_is_newest =
      let own : (env.new_id == env.new_id) ≡ true = eq→== env.new_id env.new_id refl in
      let mine : (company_id == company_id) ≡ true = eq→== company_id company_id refl in
      record {
        is_found = rw (own, mine);
        newest = rw (not_newer_than_itself company_id made) (
            none_newer company_id made books.reconciliations refl (
              saved-Follows lib env books company_id user_id dto account_id entries out valid fresh
                later run));
      }

  made_is_dropped : without env.new_id (made ∷ books.reconciliations) ≡ books.reconciliations
  made_is_dropped =
      let own : (env.new_id == env.new_id) ≡ true = eq→== env.new_id env.new_id refl in
      rw own (without_absent env.new_id books.reconciliations fresh)

  remove-made :
      (actor : Option ℕ)
      → remove after_create company_id env.new_id actor
        ≡ ok (record books {
          ledger = map (set_cleared company_id account_id dto.cleared_entry_ids false) books.ledger;
          audit = audit_of company_id actor env.new_id made ∷ books.audit;
        })
  remove-made actor =
      remove_of after_create company_id env.new_id actor made made_is_newest
      ∙ rw (
        released_ledger books.ledger (
            not_yet lib env books company_id user_id dto account_id entries out valid fresh later
              run),
        made_is_dropped,
      )

-- In valid books, a reconciliation that was just finished, under a fresh id and at a later time,
-- can be undone, and undoing it gives back the tables: the reconciliations as they were, and the
-- ledger rows as they were but for the ticks of the rows of the statement, which are taken off. The
-- audit trail has a record more.
pub create-remove :
    (lib : Decimals) (env : Env) (books : Books) (company_id user_id : ℕ)
    (dto : CreateReconciliationDto) (out : Books × Reconciliation) (actor : Option ℕ)
    → IsValid lib books
    → has_id env.new_id books.reconciliations ≡ false
    → All (λ (r : Reconciliation). r.created_at < env.now) books.reconciliations
    → create lib env books company_id user_id dto ≡ ok out
    → remove out.0 company_id out.1.id actor
      ≡ ok (record books {
        ledger =
            map (set_cleared company_id out.1.account_id dto.cleared_entry_ids false) books.ledger;
        audit = audit_of company_id actor out.1.id out.1 ∷ books.audit;
      })
create-remove lib env books company_id user_id dto out actor valid fresh later h =
    let (account, entries, found, run) = create_inv lib env books company_id user_id dto out h in
    subst
      (λ (o : Books × Reconciliation).
        remove o.0 company_id o.1.id actor
        ≡ ok (record books {
          ledger =
              map (set_cleared company_id o.1.account_id dto.cleared_entry_ids false) books.ledger;
          audit = audit_of company_id actor o.1.id o.1 ∷ books.audit;
        }))
      (sym
        (out_is lib env books company_id user_id dto account.id entries out valid fresh later run))
      (remove-made lib env books company_id user_id dto account.id entries out valid fresh later run
        actor)
