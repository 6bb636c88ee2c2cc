-- ===== src/Payments/Ties/Customers.antt =====
-- A payment of one customer, in the table of all of them.
use mathlib.Core.Path.{subst}
use fin_matrix_backend.Prelude.{
  ℕ, ◌≡◌, refl, sym, ap, ◌∙◌, true, false, some, List, [], ◌∷◌, find, All, arith, Bool-cases, inl,
  inr, ◌==◌, ==→eq, eq→==,
}
use fin_matrix_backend.Prelude.Int.{ℤ, pos, ◌+ℤ◌, ◌-ℤ◌, int_laws, +ℤ_zero, pos_part, neg_part}
use fin_matrix_backend.Prelude.Keys.{IsOther, HasUniqueKeys, found_cases, found_key}
use fin_matrix_backend.Money.{Decimals, IsMoney}
use fin_matrix_backend.Payments.{Customer, is_customer, save_customer}
use fin_matrix_backend.Payments.Receive.{pays}
use fin_matrix_backend.Payments.Applied.{share}
use fin_matrix_backend.Payments.Ties.{customer_key}

-- What a customer owes on one side and the balance with what is held on the other.
abbrev pub Agrees : (ℕ → ℤ) → (ℕ → ℤ) → Customer → Type 0
Agrees held_by owed_by c = c.balance +ℤ held_by c.id ≡ owed_by c.id

save_absent :
    (j : Customer) (cs : List Customer)
    → All (IsOther customer_key j.id) cs
    → save_customer j cs ≡ cs
save_absent j [] h = refl
save_absent j (c ∷ cs) (h, hs) = rw (h, save_absent j cs hs)

others_saved :
    (j : Customer) (k : ℕ) (cs : List Customer)
    → (j.id == k) ≡ false
    → All (IsOther customer_key k) cs
    → All (IsOther customer_key k) (save_customer j cs)
others_saved j k [] other h = tt
others_saved j k (c ∷ cs) other (h, hs) = elim (Bool-cases (c.id == j.id)) [
  | inl same ↦ rw same (other, others_saved j k cs other hs)
  | inr differs ↦ rw differs (h, others_saved j k cs other hs)
]

pub save_customer-HasUniqueKeys :
    (j : Customer) (cs : List Customer)
    → HasUniqueKeys customer_key cs
    → HasUniqueKeys customer_key (save_customer j cs)
save_customer-HasUniqueKeys j [] u = tt
save_customer-HasUniqueKeys j (c ∷ cs) (others, u) = elim (Bool-cases (c.id == j.id)) [
  | inl same ↦
      let here = ==→eq c.id j.id same in
      let absent : All (IsOther customer_key j.id) cs = rw here at others in
      let stepped : save_customer j (c ∷ cs) ≡ j ∷ cs = rw (same, save_absent j cs absent) in
      subst (HasUniqueKeys customer_key) (sym stepped) (absent, u)
  | inr differs ↦
      let stepped : save_customer j (c ∷ cs) ≡ c ∷ save_customer j cs = rw differs in
      subst (HasUniqueKeys customer_key) (sym stepped)
        (others_saved j c.id cs (ground arith) others, save_customer-HasUniqueKeys j cs u)
]

pub save_customer-All {κ} :
    (P : Customer → Type κ) (j : Customer) (cs : List Customer)
    → P j
    → All P cs
    → All P (save_customer j cs)
save_customer-All P j [] new h = tt
save_customer-All P j (c ∷ cs) new (h, hs) = elim (Bool-cases (c.id == j.id)) [
  | inl same ↦ rw same (new, save_customer-All P j cs new hs)
  | inr differs ↦ rw differs (h, save_customer-All P j cs new hs)
]

-- When one customer is changed so that both sides agree again, and the sides of the others are what
-- they were, all customers agree.
module _ (lib : Decimals) (company_id id : ℕ) (held_by held_after owed_by owed_after : ℕ → ℤ)
    (change : Customer → Customer) (same_id : (c : Customer) → (change c).id ≡ c.id)
    (own : (c : Customer)
      → c.id ≡ id
      → IsMoney lib c.balance
      → Agrees held_by owed_by c
      → Agrees held_after owed_after (change c))
    (other_one : (c : Customer)
      → IsOther customer_key id c
      → Agrees held_by owed_by c
      → Agrees held_after owed_after c) where
  untouched :
      (cs : List Customer)
      → All (IsOther customer_key id) cs
      → All (Agrees held_by owed_by) cs
      → All (Agrees held_after owed_after) cs
  untouched [] others h = tt
  untouched (c ∷ cs) (other, others) (h, hs) = (other_one c other h, untouched cs others hs)

  pub changed-Agrees :
      (cs : List Customer) (payer : Customer)
      → HasUniqueKeys customer_key cs
      → find (is_customer company_id id) cs ≡ some payer
      → All (λ (c : Customer). IsMoney lib c.balance) cs
      → All (Agrees held_by owed_by) cs
      → All (Agrees held_after owed_after) (save_customer (change payer) cs)
  changed-Agrees [] payer u e m h = absurd (cc e)
  changed-Agrees (c ∷ cs) payer u e (m, ms) (h, hs) =
      elim (found_cases customer_key (λ (x : Customer). x.company_id == company_id) id c cs payer u
        e) [
          | inl (same, here, absent) ↦
              let key : (change payer).id ≡ c.id = same_id payer ∙ ap customer_key (sym same) in
              let mine : (c.id == (change payer).id) ≡ true =
                eq→== c.id (change payer).id (sym key) in
              let none_else : All (IsOther customer_key (change payer).id) cs =
                subst (λ k. All (IsOther customer_key k) cs) (sym (key ∙ here)) absent in
              let stepped : save_customer (change payer) (c ∷ cs) ≡ change payer ∷ cs =
                rw (mine, save_absent (change payer) cs none_else) in
              subst (All (Agrees held_after owed_after)) (sym stepped) (
                subst (λ (x : Customer). Agrees held_after owed_after (change x)) same
                    (own c here m h),
                untouched cs absent hs,
              )
          | inr (other, rest) ↦
              let key : (change payer).id ≡ id =
                same_id payer
                ∙ found_key customer_key (λ (x : Customer). x.company_id == company_id) id cs payer
                    u.1 rest in
              let differs : (c.id == (change payer).id) ≡ false =
                subst (λ k. (c.id == k) ≡ false) (sym key) other in
              let stepped : save_customer (change payer) (c ∷ cs)
                  ≡ c ∷ save_customer (change payer) cs =
                rw differs in
              subst (All (Agrees held_after owed_after)) (sym stepped)
                (other_one c other h, changed-Agrees cs payer u.1 rest ms hs)
        ]

settled_sums : (b t h o o' : ℤ) → b +ℤ h ≡ o → o' +ℤ t ≡ o → b -ℤ t +ℤ h ≡ o'
settled_sums b t h o o' p q =
    omega (int_laws, ap pos_part p, ap neg_part p, ap pos_part q, ap neg_part q)

module _ (lib : Decimals) (company_id id : ℕ) (total : ℤ)
    (held_by held_after owed_by owed_after : ℕ → ℤ) (total_money : IsMoney lib total)
    (same_held : (k : ℕ) → held_after k ≡ held_by k)
    (less_owed : (k : ℕ) → owed_after k +ℤ share id k total ≡ owed_by k) where
  paid-Agrees :
      (c : Customer)
      → c.id ≡ id
      → IsMoney lib c.balance
      → Agrees held_by owed_by c
      → Agrees held_after owed_after (pays lib c total)
  paid-Agrees c here money h =
      let own : (id == c.id) ≡ true = eq→== id c.id (sym here) in
      let owes : owed_after c.id +ℤ total ≡ owed_by c.id = rw own at (less_owed c.id) in
      rw (lib.fixed_sub c.balance total money total_money, same_held c.id)
        (settled_sums c.balance total (held_by c.id) (owed_by c.id) (owed_after c.id) h owes)

  untouched_one :
      (c : Customer)
      → IsOther customer_key id c
      → Agrees held_by owed_by c
      → Agrees held_after owed_after c
  untouched_one c other h =
      let elsewhere : (id == c.id) ≡ false = ground arith in
      let owes : owed_after c.id +ℤ pos 0 ≡ owed_by c.id = rw elsewhere at (less_owed c.id) in
      ap (λ n. c.balance +ℤ n) (same_held c.id) ∙ h ∙ sym owes ∙ +ℤ_zero (owed_after c.id)

  -- When the one who pays owes less by the amount, on both sides, all customers agree as before.
  pub payer-Agrees :
      (cs : List Customer) (payer : Customer)
      → HasUniqueKeys customer_key cs
      → find (is_customer company_id id) cs ≡ some payer
      → All (λ (c : Customer). IsMoney lib c.balance) cs
      → All (Agrees held_by owed_by) cs
      → All (Agrees held_after owed_after) (save_customer (pays lib payer total) cs)
  payer-Agrees =
      changed-Agrees lib company_id id held_by held_after owed_by owed_after (λ c. pays lib c total)
        (λ c. refl) paid-Agrees untouched_one
