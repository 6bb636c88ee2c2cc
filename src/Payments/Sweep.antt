-- ===== src/Payments/Sweep.antt =====
-- The automatic application of a receipt: how much of it the open invoices take.
use fin_matrix_backend.Prelude.{
  ℕ, zero, suc, ◌≡◌, refl, sym, ap, ◌∙◌, true, false, List, [], ◌∷◌, filter, All, arith, Bool-cases,
  inl, inr, if◌then◌else◌,
}
use fin_matrix_backend.Prelude.Int.{
  ℤ, pos, negsuc, ◌+ℤ◌, ◌-ℤ◌, ◌≤ℤ◌, ◌<ℤ◌, ltb_ℤ, min_ℤ, int_laws, +ℤ_zero, zero_+ℤ,
}
use fin_matrix_backend.Money.{Decimals, IsMoney, is_positive}
use fin_matrix_backend.Invoices.{
  Invoice, is_before, insert_invoice, sort_invoices, is_outstanding, outstanding_for_customer,
}
use fin_matrix_backend.Invoices.Settle.{IsSound, balance-IsMoney}
use fin_matrix_backend.Payments.{total_of, sweep, auto_apply}

abbrev balances : List Invoice → ℤ
balances [] = pos 0
balances (i ∷ is) = i.balance +ℤ balances is

-- What is open on the invoices that the customer may pay.
abbrev pub outstanding_total : ℕ → ℕ → List Invoice → ℤ
outstanding_total company_id customer_id [] = pos 0
outstanding_total company_id customer_id (i ∷ is) =
    (if is_outstanding company_id customer_id i then i.balance else pos 0)
    +ℤ outstanding_total company_id customer_id is

swap_first : (a b c : ℤ) → a +ℤ (b +ℤ c) ≡ b +ℤ (a +ℤ c)
swap_first a b c = omega int_laws

balances-insert_invoice :
    (i : Invoice) (is : List Invoice) → balances (insert_invoice i is) ≡ i.balance +ℤ balances is
balances-insert_invoice i [] = refl
balances-insert_invoice i (j ∷ js) = elim (Bool-cases (is_before j i)) [
  | inl before ↦ rw before (
      ap (λ n. j.balance +ℤ n) (balances-insert_invoice i js)
      ∙ swap_first j.balance i.balance (balances js))
  | inr after ↦ rw after refl
]

balances-sort_invoices : (is : List Invoice) → balances (sort_invoices is) ≡ balances is
balances-sort_invoices [] = refl
balances-sort_invoices (i ∷ is) =
    balances-insert_invoice i (sort_invoices is)
    ∙ ap (λ n. i.balance +ℤ n) (balances-sort_invoices is)

module _ (P : Invoice → Type 0) where
  insert_invoice-All :
      (i : Invoice) (is : List Invoice) → P i → All P is → All P (insert_invoice i is)
  insert_invoice-All i [] p h = (p, tt)
  insert_invoice-All i (j ∷ js) p (q, h) = elim (Bool-cases (is_before j i)) [
    | inl before ↦ rw before (q, insert_invoice-All i js p h)
    | inr after ↦ rw after (p, (q, h))
  ]

  sort_invoices-All : (is : List Invoice) → All P is → All P (sort_invoices is)
  sort_invoices-All [] h = tt
  sort_invoices-All (i ∷ is) (p, h) =
      insert_invoice-All i (sort_invoices is) p (sort_invoices-All is h)

-- A balance of an invoice that is open.
abbrev IsOpenBalance : Decimals → Invoice → Type 0
IsOpenBalance lib i = IsMoney lib i.balance × (pos 0 <ℤ i.balance)

is_open_of :
    (company_id customer_id : ℕ) (i : Invoice)
    → is_outstanding company_id customer_id i ≡ true
    → pos 0 <ℤ i.balance
is_open_of company_id customer_id i h = ground arith

module _ (lib : Decimals) (company_id customer_id : ℕ) where
  open_balances :
      (is : List Invoice)
      → All (IsSound lib) is
      → All (IsOpenBalance lib) (filter (is_outstanding company_id customer_id) is)
  open_balances [] h = tt
  open_balances (i ∷ is) (s, h) = elim (Bool-cases (is_outstanding company_id customer_id i)) [
    | inl open_ ↦
        rw open_
          ((balance-IsMoney lib i s, is_open_of company_id customer_id i open_), open_balances is h)
    | inr closed ↦ rw closed (open_balances is h)
  ]

  balances-filter :
      (is : List Invoice)
      → balances (filter (is_outstanding company_id customer_id) is)
        ≡ outstanding_total company_id customer_id is
  balances-filter [] = refl
  balances-filter (i ∷ is) = elim (Bool-cases (is_outstanding company_id customer_id i)) [
    | inl open_ ↦ rw open_ (ap (λ n. i.balance +ℤ n) (balances-filter is))
    | inr closed ↦
        rw closed (balances-filter is ∙ sym (zero_+ℤ (outstanding_total company_id customer_id is)))
  ]

  not_negative : (is : List Invoice) → All (IsOpenBalance lib) is → pos 0 ≤ℤ balances is
  not_negative [] h = omega int_laws
  not_negative (i ∷ is) ((_, p), h) = let rest = not_negative is h in omega (int_laws, p, rest)

min_zero : (b : ℤ) → pos 0 ≤ℤ b → min_ℤ (pos 0) b ≡ pos 0
min_zero b h = ground arith

min_of_le : (a b : ℤ) → a ≤ℤ b → min_ℤ a b ≡ a
min_of_le a b h = ground arith

min_of_ge : (a : ℤ) → pos 0 ≤ℤ a → min_ℤ a (pos 0) ≡ pos 0
min_of_ge (pos zero) h = refl
min_of_ge (pos (suc n)) h = ground arith
min_of_ge (negsuc n) h = absurd (omega int_laws)

-- After an invoice that is paid in full the rest of the money meets the rest of the invoices.
min_shift : (r b s : ℤ) → b +ℤ min_ℤ (r -ℤ b) s ≡ min_ℤ r (b +ℤ s)
min_shift r b s = elim (Bool-cases (ltb_ℤ s (r -ℤ b))) [
  | inl less ↦
      let d : s <ℤ r -ℤ b = ground arith in
      let e : b +ℤ s <ℤ r = omega (int_laws, d) in
      let t : ltb_ℤ (b +ℤ s) r ≡ true = ground arith in rw (less, t) refl
  | inr more ↦
      let d : r -ℤ b ≤ℤ s = ground arith in
      let e : r ≤ℤ b +ℤ s = omega (int_laws, d) in
      let t : ltb_ℤ (b +ℤ s) r ≡ false = ground arith in rw (more, t) (omega int_laws)
]

self : (r : ℤ) → r -ℤ r ≡ pos 0
self r = omega int_laws

zero_of : (r : ℤ) → pos 0 ≤ℤ r → is_positive r ≡ false → r ≡ pos 0
zero_of (pos zero) h n = refl
zero_of (pos (suc k)) h n = absurd (ground arith)
zero_of (negsuc k) h n = absurd (omega int_laws)

module _ (lib : Decimals) where
  sweep_total :
      (is : List Invoice) (r : ℤ)
      → All (IsOpenBalance lib) is
      → IsMoney lib r
      → pos 0 ≤ℤ r
      → total_of (sweep lib is r) ≡ min_ℤ r (balances is)
  sweep_total [] r h m p = sym (min_of_ge r p)
  sweep_total (i ∷ is) r ((bm, b), h) m p = elim (Bool-cases (is_positive r)) [
    | inr spent ↦
        let none_left = zero_of r p spent in
        let more = not_negative lib 0 0 (i ∷ is) ((bm, b), h) in
        rw spent (sym (ap (λ n. min_ℤ n (balances (i ∷ is))) none_left ∙ min_zero _ more))
    | inl some_left ↦ elim (Bool-cases (ltb_ℤ r i.balance)) [
      | inl part ↦
          let rest = not_negative lib 0 0 is h in
          let below : r ≤ℤ i.balance = ground arith in
          rw (some_left, part)
            (ap (λ n. n +ℤ total_of (sweep lib is (r -ℤ r))) m
              ∙ ap (λ n. r +ℤ n)
                  (ap (λ z. total_of (sweep lib is z)) (self r)
                    ∙ sweep_total is (pos 0) h lib.fixed_zero (omega int_laws)
                    ∙ min_zero (balances is) rest)
              ∙ +ℤ_zero r
              ∙ sym (min_of_le r (i.balance +ℤ balances is) (omega (int_laws, below, rest))))
      | inr full ↦
          let above : i.balance ≤ℤ r = ground arith in
          rw (some_left, full)
            (ap (λ n. n +ℤ total_of (sweep lib is (r -ℤ i.balance))) bm
              ∙ ap (λ n. i.balance +ℤ n)
                  (sweep_total is (r -ℤ i.balance) h (lib.fixed_sub r i.balance m bm)
                    (omega (int_laws, above)))
              ∙ min_shift r i.balance (balances is))
    ]
  ]

-- A receipt that is swept over the open invoices of sound tables applies all of its money, or all
-- that is open on them, whichever is less.
pub total_of-auto_apply :
    (lib : Decimals) (company_id customer_id : ℕ) (amount : ℤ) (invoices : List Invoice)
    → All (IsSound lib) invoices
    → IsMoney lib amount
    → pos 0 ≤ℤ amount
    → total_of (auto_apply lib company_id customer_id amount invoices)
      ≡ min_ℤ amount (outstanding_total company_id customer_id invoices)
unfolding auto_apply outstanding_for_customer
total_of-auto_apply lib company_id customer_id amount invoices sound money positive =
    let open_ = filter (is_outstanding company_id customer_id) invoices in
    sweep_total lib (sort_invoices open_) amount
      (sort_invoices-All (IsOpenBalance lib) open_
        (open_balances lib company_id customer_id invoices sound))
      money positive
    ∙ ap (min_ℤ amount)
        (balances-sort_invoices open_ ∙ balances-filter lib company_id customer_id invoices)
