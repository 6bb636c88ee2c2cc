-- ===== src/Posting/Apply/Balances.antt =====
-- The balances that `applyPosting` leaves: every account of the table moves by what the lines post
-- to it.
use mathlib.Core.Path.{subst, subst₂, ap₂, fun_ext}
use mathlib.Core.List.{map-map}
use mathlib.Core.Option
use fin_matrix_backend.Prelude.{
  ℕ, ◌≡◌, refl, sym, ◌∙◌, ap, Bool, none, some, List, [], ◌∷◌, map, ◌==◌, filter, All, arith, ok,
  inl, inr, Option-cases, Bool-cases, ok-injective,
}
use fin_matrix_backend.Prelude.Int.{ℤ, ◌+ℤ◌, +ℤ_zero, zero_+ℤ, +ℤ_assoc}
use fin_matrix_backend.Money.{Decimals, IsMoney}
use fin_matrix_backend.Store.{Account}
use fin_matrix_backend.Posting.Apply.{account_of, add_balance, set_balance, apply_deltas}
use fin_matrix_backend.Posting.Apply.Deltas.{total_of, account_of_id, AreMoney}

-- No id stands twice: the primary key.
abbrev pub IsUnique : List Account → Type 0
IsUnique [] = Unit
IsUnique (a ∷ rest) = (account_of a.id rest ≡ none) × IsUnique rest

-- The objects in memory are rows of the table.
abbrev pub Agree : List Account → List Account → Type 0
Agree accounts table =
    (id : ℕ) (a : Account) → account_of id accounts ≡ some a → account_of id table ≡ some a

pub filter-Agree :
    (p : Account → Bool) (table : List Account) → IsUnique table → Agree (filter p table) table
filter-Agree p [] u id a h = h
filter-Agree p (x ∷ xs) u id a h = grind (arith, filter-Agree p xs u.1 id a, account_of_id id xs a)

pub account_of-add_balance :
    (id k : ℕ) (d : ℤ) (table : List Account)
    → account_of id (map (add_balance k d) table)
      ≡ Option.map (add_balance k d) (account_of id table)
account_of-add_balance id k d [] = refl
account_of-add_balance id k d (x ∷ xs) = ground (arith, account_of-add_balance id k d xs)

pub account_of-set_balance :
    (id k : ℕ) (v : ℤ) (table : List Account)
    → account_of id (map (set_balance k v) table)
      ≡ Option.map (set_balance k v) (account_of id table)
account_of-set_balance id k v [] = refl
account_of-set_balance id k v (x ∷ xs) = ground (arith, account_of-set_balance id k v xs)

abbrev pub add_total : List (ℕ × ℤ) → Account → Account
add_total deltas a = record a { balance = a.balance +ℤ total_of a.id deltas }

add_total-nil : (a : Account) → add_total [] a ≡ a
add_total-nil a = ground (arith, +ℤ_zero a.balance)

add_total-cons :
    (id : ℕ) (d : ℤ) (deltas : List (ℕ × ℤ)) (a : Account)
    → add_total deltas (add_balance id d a) ≡ add_total ((id, d) ∷ deltas) a
add_total-cons id d deltas a =
    ground (arith, +ℤ_assoc a.balance d (total_of a.id deltas), zero_+ℤ (total_of a.id deltas))

map_nil_total : (table : List Account) → map (add_total []) table ≡ table
map_nil_total [] = refl
map_nil_total (a ∷ table) = ap₂ (λ x xs. x ∷ xs) (add_total-nil a) (map_nil_total table)

module _ (lib : Decimals) where
  open lib use {to_fixed, fixed_add}

  -- The balances are as the column holds them.
  abbrev pub AreStored : List Account → Type 0
  AreStored = All λ (a : Account). IsMoney lib a.balance

  account_of-IsMoney :
      (id : ℕ) (table : List Account) (a : Account)
      → AreStored table
      → account_of id table ≡ some a
      → IsMoney lib a.balance
  account_of-IsMoney id [] a s h = cc
  account_of-IsMoney id (x ∷ xs) a s h = elim (Bool-cases (id == x.id)) [
    | inl hit ↦
        let same_row : x ≡ a = ground arith in
        subst (λ (r : Account). IsMoney lib r.balance) same_row s.0
    | inr miss ↦ account_of-IsMoney id xs a s.1 (ground arith)
  ]

  add_balance-AreStored :
      (k : ℕ) (d : ℤ) (table : List Account)
      → IsMoney lib d
      → AreStored table
      → AreStored (map (add_balance k d) table)
  add_balance-AreStored k d [] p s = tt
  add_balance-AreStored k d (x ∷ xs) p s = elim (Bool-cases (k == x.id)) [
    | inl hit ↦ rw hit (fixed_add x.balance d s.0 p, add_balance-AreStored k d xs p s.1)
    | inr miss ↦ rw miss (s.0, add_balance-AreStored k d xs p s.1)
  ]

  -- One round of the loop keeps memory and table in step.
  add_balance-Agree :
      (id : ℕ) (d : ℤ) (accounts table : List Account) (row : Account)
      → IsMoney lib d
      → AreStored table
      → Agree accounts table
      → account_of id (map (add_balance id d) table) ≡ some row
      → Agree (map (set_balance id (to_fixed row.balance)) accounts) (map (add_balance id d) table)
  add_balance-Agree id d accounts table row p s agree found j b h =
      let money : IsMoney lib row.balance =
        account_of-IsMoney id _ row (add_balance-AreStored id d table p s) found in
      elim (Option-cases (account_of j accounts)) [
        | inl gone ↦
            absurd (ground (arith, account_of-set_balance j id (to_fixed row.balance) accounts))
        | inr (a, e) ↦ ground (
          arith,
          money,
          account_of-set_balance j id (to_fixed row.balance) accounts,
          account_of-add_balance j id d table,
          account_of-add_balance id id d table,
          agree j a e,
          account_of_id j accounts a e,
        )
      ]

  apply_deltas_step :
      (id : ℕ) (d : ℤ) (deltas : List (ℕ × ℤ)) (accounts table : List Account) (a row : Account)
      → account_of id accounts ≡ some a
      → account_of id (map (add_balance id (to_fixed d)) table) ≡ some row
      → apply_deltas lib ((id, d) ∷ deltas) accounts table
        ≡ apply_deltas lib deltas
            (map (set_balance id (to_fixed row.balance)) accounts)
            (map (add_balance id (to_fixed d)) table)
  unfolding apply_deltas
  apply_deltas_step id d deltas accounts table a row e f = ground arith

  pub apply_deltas_lem :
      (deltas : List (ℕ × ℤ)) (accounts table accounts' table' : List Account)
      → AreMoney lib deltas
      → AreStored table
      → Agree accounts table
      → apply_deltas lib deltas accounts table ≡ ok (accounts', table')
      → (table' ≡ map (add_total deltas) table) × AreStored table' × Agree accounts' table'
  unfolding apply_deltas
  apply_deltas_lem [] accounts table accounts' table' m s g h =
      let same_pair : (accounts, table) ≡ (accounts', table') = ok-injective h in
      let same_table : table ≡ table' = ap (λ p. p.1) same_pair in
      let same_accounts : accounts ≡ accounts' = ap (λ p. p.0) same_pair in
      (
        sym same_table ∙ sym (map_nil_total table),
        subst AreStored same_table s,
        subst₂ Agree same_accounts same_table g,
      )
  apply_deltas_lem ((id, d) ∷ deltas) accounts table accounts' table' m s g h =
      elim (Option-cases (account_of id accounts)) [
        | inl missing ↦ absurd (ground arith)
        | inr (a, e) ↦
            elim (Option-cases (account_of id (map (add_balance id (to_fixed d)) table))) [
              | inl missing ↦ absurd (ground arith)
              | inr (row, f) ↦
                  let stored = add_balance-AreStored id d table m.0 s in
                  let step : map (add_balance id (to_fixed d)) table
                      ≡ map (add_balance id d) table =
                    ap (λ v. map (add_balance id v) table) m.0 in
                  let f' : account_of id (map (add_balance id d) table) ≡ some row = rw step at f in
                  let rest =
                    subst
                      (λ t.
                        apply_deltas lib deltas
                          (map (set_balance id (to_fixed row.balance)) accounts) t
                        ≡ ok (accounts', table'))
                      step (sym (apply_deltas_step id d deltas accounts table a row e f) ∙ h) in
                  let (sum, stored', agree') =
                    apply_deltas_lem deltas _ (map (add_balance id d) table) accounts' table' m.1
                      stored (add_balance-Agree id d accounts table row m.0 s g f') rest in
                  (
                    sum
                        ∙ map-map (add_total deltas) (add_balance id d) table
                        ∙ ap (λ f. map f table) (fun_ext (add_total-cons id d deltas)),
                    stored',
                    agree',
                  )
            ]
      ]
