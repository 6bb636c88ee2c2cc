-- ===== src/Reconciliations/Chain.antt =====
-- The roll-forward of a bank account: what its reconciliations carry from one to the next, and what
-- the rows that they stamped add up to.
use fin_matrix_backend.Prelude.{
  is_some, ℕ, ◌≤◌, ◌<◌, ◌≡◌, refl, sym, ap, ◌∙◌, Bool, true, false, ◌&&◌, ◌||◌, Option, none, some,
  List, [], ◌∷◌, All, any, arith, if◌then◌else◌, Bool-cases, inl, inr, ◌==◌, All-map, All-intro,
  ◌⊎◌,
}
use fin_matrix_backend.Prelude.Int.{ℤ, pos, ◌+ℤ◌, zero_+ℤ, +ℤ_comm}
use fin_matrix_backend.Money.{Decimals, IsMoney, money_equals}
use fin_matrix_backend.Reconciliations.{
  LedgerRow, Reconciliation, Books, is_of, is_stamped, is_for, sum_where, beginning_balance,
}
use fin_matrix_backend.Reconciliations.Statements.{stamped_with}
use fin_matrix_backend.Reconciliations.Sums.{
  sum_where_cong, sum_where_none, sum_where_split, sum_where-IsMoney, Splits, RowIsMoney,
  HasUniqueIds,
}

-- What the statements of an account have cleared: the cleared balance of the newest one.
abbrev pub closing : ℕ → ℕ → List Reconciliation → ℤ
closing c a [] = pos 0
closing c a (r ∷ rs) = if is_for c a r then r.cleared_balance else closing c a rs

abbrev pub net_of : ℕ → List LedgerRow → ℤ
net_of id = sum_where (stamped_with id)

abbrev pub has_id : ℕ → List Reconciliation → Bool
has_id id = any (λ (r : Reconciliation). r.id == id)

-- A reconciliation is dated and created after the older ones of its account.
abbrev pub Follows : Reconciliation → Reconciliation → Type 0
Follows r q =
    is_for r.company_id r.account_id q ≡ true
    → (q.statement_date ≤ r.statement_date) × (q.created_at < r.created_at)

-- The rows that a reconciliation stamped are of its account.
abbrev pub BelongsTo : Reconciliation → LedgerRow → Type 0
BelongsTo r g =
    stamped_with r.id g ≡ true
    → (g.entry.company_id ≡ r.company_id) × (g.entry.account_id ≡ r.account_id)

-- One reconciliation over the older ones: its cleared balance is theirs and its rows', and meets
-- the statement.
pub record Carries (lib : Decimals) (gs : List LedgerRow) (r : Reconciliation)
    (rs : List Reconciliation) : Type 0 where
  pub carried : r.cleared_balance ≡ closing r.company_id r.account_id rs +ℤ net_of r.id gs
  pub begun : r.beginning_balance ≡ closing r.company_id r.account_id rs
  pub tied : money_equals lib r.cleared_balance r.statement_ending_balance ≡ true
  pub follows : All (Follows r) rs
  pub belong : All (BelongsTo r) gs
  pub fresh : has_id r.id rs ≡ false

abbrev pub Chained : Decimals → List LedgerRow → List Reconciliation → Type 0
Chained lib gs [] = Unit
Chained lib gs (r ∷ rs) = Carries lib gs r rs × Chained lib gs rs

-- The stamp of a row refers to one of the reconciliations.
abbrev pub stamped_in : List Reconciliation → LedgerRow → Bool
stamped_in rs g = any (λ (r : Reconciliation). stamped_with r.id g) rs

pub record IsValid (lib : Decimals) (books : Books) : Type 0 where
  pub ids : HasUniqueIds books.ledger
  pub money : All (RowIsMoney lib) books.ledger
  pub stamps : All (λ g. is_stamped g ≡ stamped_in books.reconciliations g) books.ledger
  pub chained : Chained lib books.ledger books.reconciliations

pub not_stamped_with : (g : LedgerRow) (j : ℕ) → is_stamped g ≡ false → stamped_with j g ≡ false
not_stamped_with g j h = by_stamp g.entry.reconciliation_id h
  where
    by_stamp :
        (s : Option ℕ) → is_some s ≡ false → (elim s [ none ↦ false | some k ↦ k == j ]) ≡ false
    by_stamp none e = refl
    by_stamp (some k) e = absurd (cc e)

pub none_in :
    (rs : List Reconciliation) (g : LedgerRow) → is_stamped g ≡ false → stamped_in rs g ≡ false
none_in [] g h = refl
none_in (r ∷ rs) g h = rw (not_stamped_with g r.id h) (none_in rs g h)

-- No row has the stamp of a reconciliation and that of another one.
pub one_stamp :
    (id : ℕ) (rs : List Reconciliation) (g : LedgerRow)
    → has_id id rs ≡ false
    → stamped_with id g ≡ true
    → stamped_in rs g ≡ false
one_stamp id [] g fresh stamped = refl
one_stamp id (r ∷ rs) g fresh stamped =
    by_stamp g.entry.reconciliation_id stamped (one_stamp id rs g (ground arith) stamped)
  where
    by_stamp :
        (s : Option ℕ)
        → (elim s [ none ↦ false | some j ↦ j == id ]) ≡ true
        → stamped_in rs g ≡ false
        → ((elim s [ none ↦ false | some j ↦ j == r.id ]) || stamped_in rs g) ≡ false
    by_stamp none h rest = cc
    by_stamp (some j) h rest = ground arith

pub place_of :
    (c a : ℕ) (r : Reconciliation) → is_for c a r ≡ true → (r.company_id ≡ c) × (r.account_id ≡ a)
place_of c a r h = ground arith

-- What the rows of one reconciliation are to an account.
of_this :
    (c a : ℕ) (r : Reconciliation) (g : LedgerRow)
    → BelongsTo r g
    → stamped_with r.id g ≡ true
    → is_of c a g ≡ is_for c a r
of_this c a r g belongs stamped = rw ((belongs stamped).0, (belongs stamped).1)

stamped_for :
    (c a : ℕ) (r : Reconciliation) (gs : List LedgerRow)
    → All (BelongsTo r) gs
    → sum_where (λ g. is_of c a g && stamped_with r.id g) gs
      ≡ (if is_for c a r then net_of r.id gs else pos 0)
stamped_for c a r gs belong = elim (Bool-cases (is_for c a r)) [
  | inl yes_ ↦ rw yes_ (
      sum_where_cong (λ g. is_of c a g && stamped_with r.id g) (stamped_with r.id) gs
        (All-map (BelongsTo r) (λ g. (is_of c a g && stamped_with r.id g) ≡ stamped_with r.id g)
          (λ g b. in_account g (λ s. of_this c a r g b s ∙ yes_)) gs belong))
  | inr no_ ↦ rw no_ (
      sum_where_none (λ g. is_of c a g && stamped_with r.id g) gs
        (All-map (BelongsTo r) (λ g. (is_of c a g && stamped_with r.id g) ≡ false)
          (λ g b. not_in_account g (λ s. of_this c a r g b s ∙ no_)) gs belong))
]
  where
    in_account :
        (g : LedgerRow)
        → (stamped_with r.id g ≡ true → is_of c a g ≡ true)
        → (is_of c a g && stamped_with r.id g) ≡ stamped_with r.id g
    in_account g h = elim (Bool-cases (stamped_with r.id g)) [
      | inl s ↦ rw (s, h s)
      | inr s ↦ ground arith
    ]

    not_in_account :
        (g : LedgerRow)
        → (stamped_with r.id g ≡ true → is_of c a g ≡ false)
        → (is_of c a g && stamped_with r.id g) ≡ false
    not_in_account g h = elim (Bool-cases (stamped_with r.id g)) [
      | inl s ↦ rw (s, h s)
      | inr s ↦ ground arith
    ]

split_stamps :
    (c a : ℕ) (r : Reconciliation) (rs : List Reconciliation)
    → has_id r.id rs ≡ false
    → (g : LedgerRow)
    → Splits
        (is_of c a g && stamped_in (r ∷ rs) g)
        (is_of c a g && stamped_with r.id g)
        (is_of c a g && stamped_in rs g)
split_stamps c a r rs fresh g = elim (Bool-cases (stamped_with r.id g)) [
  | inl s ↦ parts (is_of c a g) s (one_stamp r.id rs g fresh s)
  | inr s ↦ rw s (both (is_of c a g) (stamped_in rs g))
]
  where
    parts :
        (b : Bool) {s t : Bool} → s ≡ true → t ≡ false → Splits (b && (s || t)) (b && s) (b && t)
    parts true e f = rw (e, f) (refl, refl)
    parts false e f = (refl, refl)

    both : (b t : Bool) → Splits (b && t) (b && false) (b && t)
    both true t = (refl, refl)
    both false t = (refl, refl)

-- The rows of an account that its reconciliations have stamped add up to the newest cleared
-- balance.
pub stamped_sum :
    (lib : Decimals) (c a : ℕ) (gs : List LedgerRow) (rs : List Reconciliation)
    → Chained lib gs rs
    → sum_where (λ g. is_of c a g && stamped_in rs g) gs ≡ closing c a rs
stamped_sum lib c a gs [] h =
    sum_where_none (λ g. is_of c a g && stamped_in [] g) gs
      (All-intro (λ g. (is_of c a g && stamped_in [] g) ≡ false) (λ g. ground arith) gs)
stamped_sum lib c a gs (r ∷ rs) (h, hs) =
    sum_where_split (λ g. is_of c a g && stamped_in (r ∷ rs) g)
      (λ g. is_of c a g && stamped_with r.id g) (λ g. is_of c a g && stamped_in rs g) gs
      (All-intro
        (λ g.
          Splits (is_of c a g && stamped_in (r ∷ rs) g) (is_of c a g && stamped_with r.id g)
            (is_of c a g && stamped_in rs g))
        (split_stamps c a r rs h.fresh) gs)
    ∙ rw (stamped_for c a r gs h.belong, stamped_sum lib c a gs rs hs)
        (newest (Bool-cases (is_for c a r)))
  where
    newest :
        (is_for c a r ≡ true) ⊎ (is_for c a r ≡ false)
        → (if is_for c a r then net_of r.id gs else pos 0) +ℤ closing c a rs
          ≡ (if is_for c a r then r.cleared_balance else closing c a rs)
    newest (inl e) =
        let (ec, ea) = place_of c a r e in
        rw e (+ℤ_comm (net_of r.id gs) (closing c a rs) ∙ sym (rw (ec, ea) at h.carried))
    newest (inr e) = rw e (zero_+ℤ (closing c a rs))

pub closing-IsMoney :
    (lib : Decimals) (c a : ℕ) (gs : List LedgerRow) (rs : List Reconciliation)
    → All (RowIsMoney lib) gs
    → Chained lib gs rs
    → IsMoney lib (closing c a rs)
closing-IsMoney lib c a gs [] m h = lib.fixed_zero
closing-IsMoney lib c a gs (r ∷ rs) m (h, hs) = elim (Bool-cases (is_for c a r)) [
  | inl e ↦ rw e (
      rw h.carried (
        lib.fixed_add (closing r.company_id r.account_id rs) (net_of r.id gs)
          (closing-IsMoney lib r.company_id r.account_id gs rs m hs)
          (sum_where-IsMoney lib (stamped_with r.id) gs m)))
  | inr e ↦ rw e (closing-IsMoney lib c a gs rs m hs)
]

module _ (lib : Decimals) (books : Books) (valid : IsValid lib books) where
  -- The balance carried in is what the newest reconciliation of the account has cleared.
  pub beginning_balance_lem :
      (c a : ℕ) → beginning_balance lib books c a ≡ closing c a books.reconciliations
  beginning_balance_lem c a =
      ap lib.to_fixed (
        sum_where_cong (λ g. is_of c a g && is_stamped g)
          (λ g. is_of c a g && stamped_in books.reconciliations g) books.ledger
          (All-map (λ g. is_stamped g ≡ stamped_in books.reconciliations g)
            (λ g.
              (is_of c a g && is_stamped g) ≡ (is_of c a g && stamped_in books.reconciliations g))
            (λ g e. ap (λ b. is_of c a g && b) e) books.ledger valid.stamps)
        ∙ stamped_sum lib c a books.ledger books.reconciliations valid.chained)
      ∙ closing-IsMoney lib c a books.ledger books.reconciliations valid.money valid.chained
