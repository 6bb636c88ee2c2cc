-- ===== src/Invoices/Owed.antt =====
-- What each customer owes on invoices, and how saving one invoice changes it.
use mathlib.Core.Path.{subst}
use fin_matrix_backend.Prelude.{
  ℕ, ◌≡◌, refl, sym, ap, ◌∙◌, true, false, none, some, List, [], ◌∷◌, find, All, arith, Bool-cases,
  inl, inr, ◌⊎◌, ◌==◌, ==→eq, eq→==, if◌then◌else◌, eq_of_some,
}
use fin_matrix_backend.Prelude.Int.{ℤ, pos, ◌+ℤ◌, int_laws, +ℤ_assoc}
use fin_matrix_backend.Invoices.{Invoice, is_invoice, save_invoice}

abbrev pub owed_on : ℕ → Invoice → ℤ
owed_on customer_id i = if i.customer_id == customer_id then i.balance else pos 0

abbrev pub owed : ℕ → List Invoice → ℤ
owed customer_id [] = pos 0
owed customer_id (i ∷ is) = owed_on customer_id i +ℤ owed customer_id is

abbrev pub IsOther : ℕ → Invoice → Type 0
IsOther id i = (i.id == id) ≡ false

-- Ids are a primary key.
abbrev pub HasUniqueIds : List Invoice → Type 0
HasUniqueIds [] = Unit
HasUniqueIds (i ∷ is) = All (IsOther i.id) is × HasUniqueIds is

pub save_absent : (j : Invoice) (is : List Invoice) → All (IsOther j.id) is → save_invoice j is ≡ is
save_absent j [] h = refl
save_absent j (i ∷ is) (h, hs) = rw (h, save_absent j is hs)

find_absent :
    (company_id id : ℕ) (is : List Invoice)
    → All (IsOther id) is
    → find (is_invoice company_id id) is ≡ none
find_absent company_id id [] h = refl
find_absent company_id id (i ∷ is) (h, hs) = rw h (find_absent company_id id is hs)

-- The invoice that is found stands once in the list: the head, or in the tail.
pub found_cases :
    (company_id id : ℕ) (i : Invoice) (is : List Invoice) (x : Invoice)
    → HasUniqueIds (i ∷ is)
    → find (is_invoice company_id id) (i ∷ is) ≡ some x
    → ((i ≡ x) × (i.id ≡ id))
      ⊎ (((i.id == id) ≡ false) × (find (is_invoice company_id id) is ≡ some x))
found_cases company_id id i is x (others, unique) e = elim (Bool-cases (i.id == id)) [
  | inl same ↦ inl (this (Bool-cases (i.company_id == company_id)) same, ==→eq i.id id same)
  | inr other ↦ inr (other, rw other at e)
]
  where
    this :
        ((i.company_id == company_id) ≡ true) ⊎ ((i.company_id == company_id) ≡ false)
        → (i.id == id) ≡ true
        → i ≡ x
    this (inl here) same = eq_of_some (rw (same, here) at e)
    this (inr elsewhere) same =
        let absent = find_absent company_id id is (rw (==→eq i.id id same) at others) in
        absurd (cc (rw (same, elsewhere) at e, absent))

pub found_id :
    (company_id id : ℕ) (is : List Invoice) (x : Invoice)
    → HasUniqueIds is
    → find (is_invoice company_id id) is ≡ some x
    → x.id ≡ id
found_id company_id id [] x u e = absurd (cc e)
found_id company_id id (i ∷ is) x u e = elim (found_cases company_id id i is x u e) [
  | inl (same, here) ↦ rw (← same) here
  | inr (other, rest) ↦ found_id company_id id is x u.1 rest
]

shuffle : (a b c : ℤ) → a +ℤ b +ℤ c ≡ c +ℤ b +ℤ a
shuffle a b c = omega int_laws

push : (i a b x j : ℤ) → a +ℤ x ≡ b +ℤ j → i +ℤ a +ℤ x ≡ i +ℤ b +ℤ j
push i a b x j h = +ℤ_assoc i a x ∙ ap (λ z. i +ℤ z) h ∙ sym (+ℤ_assoc i b j)

-- To save an invoice changes what its customer owes by the change of its balance.
pub owed-save_invoice :
    (company_id id k : ℕ) (is : List Invoice) (x j : Invoice)
    → HasUniqueIds is
    → find (is_invoice company_id id) is ≡ some x
    → j.id ≡ id
    → owed k (save_invoice j is) +ℤ owed_on k x ≡ owed k is +ℤ owed_on k j
owed-save_invoice company_id id k [] x j u e same = absurd (cc e)
owed-save_invoice company_id id k (i ∷ is) x j u e same =
    elim (found_cases company_id id i is x u e) [
      | inl (this, here) ↦
          let mine : (i.id == j.id) ≡ true = eq→== i.id j.id (here ∙ sym same) in
          let absent = save_absent j is (rw (here ∙ sym same) at u.0) in
          let stepped : save_invoice j (i ∷ is) ≡ j ∷ is = rw (mine, absent) in
          ap (λ (l : List Invoice). owed k l +ℤ owed_on k x) stepped
          ∙ shuffle (owed_on k j) (owed k is) (owed_on k x)
          ∙ ap (λ (a : Invoice). owed_on k a +ℤ owed k is +ℤ owed_on k j) (sym this)
      | inr (other, rest) ↦
          let differs : (i.id == j.id) ≡ false = rw same other in
          let stepped : save_invoice j (i ∷ is) ≡ i ∷ save_invoice j is = rw differs in
          ap (λ (l : List Invoice). owed k l +ℤ owed_on k x) stepped
          ∙ push (owed_on k i) (owed k (save_invoice j is)) (owed k is) (owed_on k x) (owed_on k j)
              (owed-save_invoice company_id id k is x j u.1 rest same)
    ]

others_saved :
    (k : ℕ) (j : Invoice) (is : List Invoice)
    → All (IsOther k) is
    → (j.id == k) ≡ false
    → All (IsOther k) (save_invoice j is)
others_saved k j [] h other = tt
others_saved k j (i ∷ is) (h, hs) other = elim (Bool-cases (i.id == j.id)) [
  | inl same ↦ rw same (other, others_saved k j is hs other)
  | inr differs ↦ rw differs (h, others_saved k j is hs other)
]

pub save_invoice-HasUniqueIds :
    (j : Invoice) (is : List Invoice) → HasUniqueIds is → HasUniqueIds (save_invoice j is)
save_invoice-HasUniqueIds j [] u = tt
save_invoice-HasUniqueIds j (i ∷ is) (others, u) = elim (Bool-cases (i.id == j.id)) [
  | inl same ↦
      let here = ==→eq i.id j.id same in
      let absent = save_absent j is (rw here at others) in
      let stepped : save_invoice j (i ∷ is) ≡ j ∷ is = rw (same, absent) in
      subst HasUniqueIds (sym stepped) (rw here at others, u)
  | inr differs ↦
      let stepped : save_invoice j (i ∷ is) ≡ i ∷ save_invoice j is = rw differs in
      subst HasUniqueIds (sym stepped)
        (others_saved i.id j is others (ground arith), save_invoice-HasUniqueIds j is u)
]

pub save_invoice-All {κ} :
    (P : Invoice → Type κ) (j : Invoice) (is : List Invoice)
    → P j
    → All P is
    → All P (save_invoice j is)
save_invoice-All P j [] new h = tt
save_invoice-All P j (i ∷ is) new (h, hs) = elim (Bool-cases (i.id == j.id)) [
  | inl same ↦ rw same (new, save_invoice-All P j is new hs)
  | inr differs ↦ rw differs (h, save_invoice-All P j is new hs)
]
