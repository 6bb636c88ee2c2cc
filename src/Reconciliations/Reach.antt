-- ===== src/Reconciliations/Reach.antt =====
-- The books of a bank as its service and the postings move them, and what holds in all of them.
use mathlib.Core.Path.{subst}
use fin_matrix_backend.Prelude.{
  ℕ, ◌<◌, ◌≡◌, sym, ap, ◌∙◌, Bool, true, false, Option, none, List, [], ◌∷◌, map, All, All-map,
  All-intro, All-map_of, contains, Bool-cases, inl, inr, ok, unbind, ok-injective,
}
use fin_matrix_backend.Prelude.Int.{◌+ℤ◌, zero_+ℤ}
use fin_matrix_backend.Money.{Decimals}
use fin_matrix_backend.Store.{Env}
use fin_matrix_backend.Reconciliations.{
  LedgerRow, Reconciliation, Books, ClearedMark, is_open, is_stamped, ids_marked, set_cleared,
  get_reconcilable_account, mark_cleared, beginning_balance, beginning_mismatch,
}
use fin_matrix_backend.Reconciliations.Statements.{
  CreateReconciliationDto, stamped_with, ids_of, create, remove,
}
use fin_matrix_backend.Reconciliations.Sums.{RowIsMoney}
use fin_matrix_backend.Reconciliations.Chain.{
  closing, net_of, has_id, Chained, stamped_in, not_stamped_with, none_in, IsValid,
  beginning_balance_lem,
}
use fin_matrix_backend.Reconciliations.Latest.{beginning_mismatch-none}
use fin_matrix_backend.Reconciliations.Rows.{
  Keeps, change_if-Keeps, tick-Keeps, KeepsStamp, map-HasUniqueIds, map-RowIsMoney, map-Chained,
}
use fin_matrix_backend.Reconciliations.Create.Valid.{create-IsValid}
use fin_matrix_backend.Reconciliations.Remove.Valid.{remove-IsValid}

-- A transaction that commits: the three that write of this service, and a posting, which adds a
-- row that no statement has cleared.
pub data Step (lib : Decimals) : Books → Books → Type 0 where
  creates :
      (env : Env) (books : Books) (company_id user_id : ℕ) (dto : CreateReconciliationDto)
      (out : Books × Reconciliation)
      → has_id env.new_id books.reconciliations ≡ false
      → All (λ (r : Reconciliation). r.created_at < env.now) books.reconciliations
      → create lib env books company_id user_id dto ≡ ok out
      → {books' : Books} → books' ≡ out.0
      → Step lib books books'
  removes :
      (books : Books) (company_id id : ℕ) (actor : Option ℕ) {books' : Books}
      → remove books company_id id actor ≡ ok books'
      → Step lib books books'
  marks :
      (books : Books) (company_id account_id : ℕ) (ms : List ClearedMark) (n : ℕ) {books' : Books}
      → mark_cleared books company_id account_id ms ≡ ok (books', n)
      → Step lib books books'
  posts :
      (books : Books) (g : LedgerRow) {books' : Books}
      → is_stamped g ≡ false
      → contains g.id (ids_of books.ledger) ≡ false
      → RowIsMoney lib g
      → books' ≡ record books { ledger = g ∷ books.ledger }
      → Step lib books books'

pub data Reach (lib : Decimals) (start : Books) : Books → Type 0 where
  here : Reach lib start start
  next : {now after : Books} → Reach lib start now → Step lib now after → Reach lib start after

module _ (c a : ℕ) (ids : List ℕ) (b : Bool) where
  abbrev ticked : LedgerRow → LedgerRow
  ticked = set_cleared c a ids b

  ticked-Keeps : Keeps ticked
  ticked-Keeps = change_if-Keeps (is_open c a ids) (λ g. record g { cleared = b }) (tick-Keeps b)

  -- A tick touches no stamp.
  ticked_stamp : (j : ℕ) (g : LedgerRow) → stamped_with j (ticked g) ≡ stamped_with j g
  ticked_stamp j g = elim (Bool-cases (is_open c a ids g)) [ inl hit ↦ rw hit | inr miss ↦ rw miss ]

  ticked_stamps :
      (rs : List Reconciliation) (g : LedgerRow)
      → is_stamped g ≡ stamped_in rs g
      → is_stamped (ticked g) ≡ stamped_in rs (ticked g)
  ticked_stamps rs g e = elim (Bool-cases (is_open c a ids g)) [
    | inl hit ↦
        let after : ticked g ≡ record g { cleared = b } = rw hit in
        subst (λ h. is_stamped h ≡ stamped_in rs h) (sym after) e
    | inr miss ↦
        let after : ticked g ≡ g = rw miss in
        subst (λ h. is_stamped h ≡ stamped_in rs h) (sym after) e
  ]

  ticked-IsValid :
      (lib : Decimals) (books : Books)
      → IsValid lib books
      → IsValid lib (record books { ledger = map ticked books.ledger })
  ticked-IsValid lib books valid = record {
    ids = map-HasUniqueIds ticked ticked-Keeps books.ledger valid.ids;
    money = map-RowIsMoney ticked ticked-Keeps lib books.ledger valid.money;
    stamps =
        All-map_of (λ g. is_stamped g ≡ stamped_in books.reconciliations g) ticked books.ledger
          (All-map (λ g. is_stamped g ≡ stamped_in books.reconciliations g)
            (λ g. is_stamped (ticked g) ≡ stamped_in books.reconciliations (ticked g))
            (ticked_stamps books.reconciliations) books.ledger valid.stamps);
    chained =
        map-Chained ticked ticked-Keeps lib books.ledger books.reconciliations
          (All-intro (λ r. All (KeepsStamp ticked ticked-Keeps r) books.ledger)
            (λ r. All-intro (KeepsStamp ticked ticked-Keeps r) (ticked_stamp r.id) books.ledger)
            books.reconciliations)
          valid.chained;
  }

mark_cleared-IsValid :
    (lib : Decimals) (books : Books) (company_id account_id : ℕ) (ms : List ClearedMark)
    (out : Books × ℕ)
    → IsValid lib books
    → mark_cleared books company_id account_id ms ≡ ok out
    → IsValid lib out.0
unfolding mark_cleared
mark_cleared-IsValid lib books company_id account_id ms out valid h =
    unbind (get_reconcilable_account books company_id account_id) _ h λ account found rest.
      subst (λ (o : Books × ℕ). IsValid lib o.0) (ok-injective rest)
        (ticked-IsValid company_id account.id (ids_marked false ms) false lib
          (record books {
            ledger = map (set_cleared company_id account.id (ids_marked true ms) true) books.ledger;
          })
          (ticked-IsValid company_id account.id (ids_marked true ms) true lib books valid))

-- A new row is in no sum of stamped rows.
posted-Chained :
    (lib : Decimals) (g : LedgerRow) (gs : List LedgerRow) (rs : List Reconciliation)
    → is_stamped g ≡ false
    → Chained lib gs rs
    → Chained lib (g ∷ gs) rs
posted-Chained lib g gs [] free h = tt
posted-Chained lib g gs (r ∷ rs) free (h, hs) =
    let not_its = not_stamped_with g r.id free in
    (
      record {
        carried =
            h.carried
            ∙ ap (λ n. closing r.company_id r.account_id rs +ℤ n)
                (rw not_its (sym (zero_+ℤ (net_of r.id gs))));
        begun = h.begun;
        tied = h.tied;
        follows = h.follows;
        belong = (λ its. absurd (cc (its, not_its)), h.belong);
        fresh = h.fresh;
      },
      posted-Chained lib g gs rs free hs,
    )

posted-IsValid :
    (lib : Decimals) (books : Books) (g : LedgerRow)
    → is_stamped g ≡ false
    → contains g.id (ids_of books.ledger) ≡ false
    → RowIsMoney lib g
    → IsValid lib books
    → IsValid lib (record books { ledger = g ∷ books.ledger })
posted-IsValid lib books g free fresh money valid = record {
  ids = (fresh, valid.ids);
  money = (money, valid.money);
  stamps = (free ∙ sym (none_in books.reconciliations g free), valid.stamps);
  chained = posted-Chained lib g books.ledger books.reconciliations free valid.chained;
}

Step-IsValid :
    (lib : Decimals) {now after : Books} → Step lib now after → IsValid lib now → IsValid lib after
Step-IsValid lib (creates env books company_id user_id dto out fresh later run same) valid =
    subst (IsValid lib) (sym same)
      (create-IsValid lib env books company_id user_id dto out valid fresh later run)
Step-IsValid lib (removes books company_id id actor {books'} run) valid =
    remove-IsValid lib books company_id id actor books' valid run
Step-IsValid lib (marks books company_id account_id ms n {books'} run) valid =
    mark_cleared-IsValid lib books company_id account_id ms (books', n) valid run
Step-IsValid lib (posts books g free fresh money same) valid =
    subst (IsValid lib) (sym same) (posted-IsValid lib books g free fresh money valid)

Reach-IsValid :
    (lib : Decimals) {start after : Books}
    → IsValid lib start
    → Reach lib start after
    → IsValid lib after
Reach-IsValid lib valid here = valid
Reach-IsValid lib valid (next r s) = Step-IsValid lib s (Reach-IsValid lib valid r)

-- From valid books, after any sequence of committed transactions (reconciliations finished under
-- fresh ids and at later times, undone, rows ticked, rows posted), the balance carried into the
-- next reconciliation of an account is the cleared balance of the newest one that is kept, zero
-- if there is none, and the reconcile screen has no mismatch to warn of.
pub Reach-beginning_balance :
    (lib : Decimals) (start after : Books) (c a : ℕ)
    → IsValid lib start
    → Reach lib start after
    → (beginning_balance lib after c a ≡ closing c a after.reconciliations)
      × (beginning_mismatch lib after c a ≡ none)
Reach-beginning_balance lib start after c a valid r =
    let now = Reach-IsValid lib valid r in
    (beginning_balance_lem lib after now c a, beginning_mismatch-none lib after now c a)
