-- ===== src/Payments/Ties/Removed.antt =====
-- What receipts hold when one of them is removed with its rows.
use fin_matrix_backend.Prelude.{
  ℕ, ◌≡◌, refl, sym, ap, ◌∙◌, true, false, not, some, List, [], ◌∷◌, filter, find, All, arith,
  Bool-cases, inl, inr, ◌==◌, eq→==,
}
use fin_matrix_backend.Prelude.Int.{ℤ, ◌+ℤ◌, int_laws, +ℤ_assoc}
use fin_matrix_backend.Prelude.Keys.{IsOther, HasUniqueKeys, is_row, found_cases}
use fin_matrix_backend.Payments.{Payment, PaymentApplication}
use fin_matrix_backend.Payments.Apply.{applied_rows}
use fin_matrix_backend.Payments.Ties.{held_on, held_for, payment_id}

abbrev pub payments_without : ℕ → List Payment → List Payment
payments_without id = filter (λ (p : Payment). not (p.id == id))

abbrev pub rows_without : ℕ → List PaymentApplication → List PaymentApplication
rows_without id = filter (λ (a : PaymentApplication). not (a.payment_id == id))

rows_of_others_kept :
    (id q : ℕ) (apps : List PaymentApplication)
    → (q == id) ≡ false
    → applied_rows q (rows_without id apps) ≡ applied_rows q apps
rows_of_others_kept id q [] other = refl
rows_of_others_kept id q (a ∷ apps) other = elim (Bool-cases (a.payment_id == id)) [
  | inl mine ↦
      let differs : (a.payment_id == q) ≡ false = ground arith in
      rw (mine, differs) (rows_of_others_kept id q apps other)
  | inr theirs ↦ elim (Bool-cases (a.payment_id == q)) [
    | inl same ↦ rw (theirs, same) (ap (λ l. a ∷ l) (rows_of_others_kept id q apps other))
    | inr differs ↦ rw (theirs, differs) (rows_of_others_kept id q apps other)
  ]
]

held_on_kept :
    (k id : ℕ) (apps : List PaymentApplication) (p : Payment)
    → IsOther payment_id id p
    → held_on k (rows_without id apps) p ≡ held_on k apps p
held_on_kept k id apps p other = rw (rows_of_others_kept id p.id apps other)

held_for_kept :
    (k id : ℕ) (apps : List PaymentApplication) (ps : List Payment)
    → All (IsOther payment_id id) ps
    → held_for k (rows_without id apps) ps ≡ held_for k apps ps
held_for_kept k id apps [] h = refl
held_for_kept k id apps (p ∷ ps) (h, hs) =
    ap (λ n. n +ℤ held_for k (rows_without id apps) ps) (held_on_kept k id apps p h)
    ∙ ap (λ n. held_on k apps p +ℤ n) (held_for_kept k id apps ps hs)

all_kept :
    (id : ℕ) (ps : List Payment) → All (IsOther payment_id id) ps → payments_without id ps ≡ ps
all_kept id [] h = refl
all_kept id (p ∷ ps) (h, hs) = rw h (ap (λ l. p ∷ l) (all_kept id ps hs))

others_kept :
    (k id : ℕ) (ps : List Payment)
    → All (IsOther payment_id k) ps
    → All (IsOther payment_id k) (payments_without id ps)
others_kept k id [] h = tt
others_kept k id (p ∷ ps) (h, hs) = elim (Bool-cases (p.id == id)) [
  | inl same ↦ rw same (others_kept k id ps hs)
  | inr differs ↦ rw differs (h, others_kept k id ps hs)
]

pub payments_without-HasUniqueKeys :
    (id : ℕ) (ps : List Payment)
    → HasUniqueKeys payment_id ps
    → HasUniqueKeys payment_id (payments_without id ps)
payments_without-HasUniqueKeys id [] u = tt
payments_without-HasUniqueKeys id (p ∷ ps) (others, u) = elim (Bool-cases (p.id == id)) [
  | inl same ↦ rw same (payments_without-HasUniqueKeys id ps u)
  | inr differs ↦ rw differs (others_kept p.id id ps others, payments_without-HasUniqueKeys id ps u)
]

commute : (a b : ℤ) → a +ℤ b ≡ b +ℤ a
commute a b = omega int_laws

-- What the others hold and what the removed one held is what they all held.
pub held_for_removed :
    (k company_id id : ℕ) (apps : List PaymentApplication) (ps : List Payment) (p : Payment)
    → HasUniqueKeys payment_id ps
    → find (is_row payment_id (λ (x : Payment). x.company_id == company_id) id) ps ≡ some p
    → held_for k (rows_without id apps) (payments_without id ps) +ℤ held_on k apps p
      ≡ held_for k apps ps
held_for_removed k company_id id apps [] p u e = absurd (cc e)
held_for_removed k company_id id apps (x ∷ ps) p u e =
    elim (found_cases payment_id (λ (y : Payment). y.company_id == company_id) id x ps p u e) [
      | inl (same, here, absent) ↦
          let mine : (x.id == id) ≡ true = eq→== x.id id here in
          let left : payments_without id (x ∷ ps) ≡ ps = rw mine (all_kept id ps absent) in
          ap (λ l. held_for k (rows_without id apps) l +ℤ held_on k apps p) left
          ∙ ap (λ n. n +ℤ held_on k apps p) (held_for_kept k id apps ps absent)
          ∙ ap (λ (q : Payment). held_for k apps ps +ℤ held_on k apps q) (sym same)
          ∙ commute (held_for k apps ps) (held_on k apps x)
      | inr (other, rest) ↦
          let left : payments_without id (x ∷ ps) ≡ x ∷ payments_without id ps = rw other in
          ap (λ l. held_for k (rows_without id apps) l +ℤ held_on k apps p) left
          ∙ ap
              (λ n.
                n +ℤ held_for k (rows_without id apps) (payments_without id ps) +ℤ held_on k apps p)
              (held_on_kept k id apps x other)
          ∙ +ℤ_assoc (held_on k apps x) (held_for k (rows_without id apps) (payments_without id ps))
              (held_on k apps p)
          ∙ ap (λ n. held_on k apps x +ℤ n) (held_for_removed k company_id id apps ps p u.1 rest)
    ]
