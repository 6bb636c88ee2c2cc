-- ===== src/Invoices/Reopen.antt =====
-- What taking back an amount does to a sound invoice.
use mathlib.Core.Path.{subst}
use fin_matrix_backend.Prelude.{
  ℕ, ◌≡◌, refl, sym, ap, ◌∙◌, true, false, some, List, [], ◌∷◌, find, All, arith, Bool-cases, inl,
  inr, ◌⊎◌, ◌==◌, eq→==, eq_of_some,
}
use fin_matrix_backend.Prelude.Int.{ℤ, pos, ◌+ℤ◌, ◌-ℤ◌, ◌≤ℤ◌, ltb_ℤ, int_laws}
use fin_matrix_backend.Money.{Decimals, IsMoney}
use fin_matrix_backend.Invoices.{Invoice, is_invoice, save_invoice, without_paid}
use fin_matrix_backend.Invoices.Settle.{IsSound}
use fin_matrix_backend.Invoices.Owed.{IsOther, HasUniqueIds, save_absent, found_id, found_cases}

not_below : (a b : ℤ) → b ≤ℤ a → ltb_ℤ (a -ℤ b) (pos 0) ≡ false
not_below a b h = let d : pos 0 ≤ℤ a -ℤ b = omega int_laws in ground arith

module _ (lib : Decimals) (today : ℕ) (i : Invoice) (amount : ℤ) (s : IsSound lib i)
    (money : IsMoney lib amount) (covered : amount ≤ℤ i.amount_paid) where
  pub without_paid-amount_paid :
      (without_paid lib today i amount).amount_paid ≡ i.amount_paid -ℤ amount
  without_paid-amount_paid =
      rw (not_below i.amount_paid amount covered)
        (lib.fixed_sub i.amount_paid amount s.paid_money money)

  pub without_paid-balance : (without_paid lib today i amount).balance ≡ i.balance +ℤ amount
  without_paid-balance =
      let paid_money : IsMoney lib (i.amount_paid -ℤ amount) =
        lib.fixed_sub i.amount_paid amount s.paid_money money in
      ap (λ n. lib.to_fixed (i.total -ℤ n)) without_paid-amount_paid
      ∙ lib.fixed_sub i.total (i.amount_paid -ℤ amount) s.total_money paid_money
      ∙ rw s.derived (omega int_laws)

  pub without_paid-IsSound : pos 0 ≤ℤ amount → IsSound lib (without_paid lib today i amount)
  without_paid-IsSound positive = record {
    total_money = s.total_money;
    paid_money = lib.to_fixed_idem _;
    derived = lib.fixed_sub i.total _ s.total_money (lib.to_fixed_idem _);
    not_negative = subst (λ n. pos 0 ≤ℤ n) (sym without_paid-amount_paid) (omega int_laws);
    not_over =
        subst (λ n. n ≤ℤ i.total) (sym without_paid-amount_paid) (omega (int_laws, s.not_over));
  }

-- An invoice that is found is found after another of the table is saved, for the same customer.
pub save_invoice_finds :
    (company_id id k : ℕ) (is : List Invoice) (x j i : Invoice)
    → HasUniqueIds is
    → find (is_invoice company_id id) is ≡ some x
    → j.id ≡ x.id
    → j.company_id ≡ x.company_id
    → j.customer_id ≡ x.customer_id
    → find (is_invoice company_id k) is ≡ some i
    → (i' : Invoice) × (find (is_invoice company_id k) (save_invoice j is) ≡ some i')
      × (i'.customer_id ≡ i.customer_id)
save_invoice_finds company_id id k [] x j i u e a b c h = absurd (cc h)
save_invoice_finds company_id id k (y ∷ is) x j i u e a b c h =
    elim (found_cases company_id id y is x u e) [
      | inl (this, _) ↦
          let same_id : j.id ≡ y.id = a ∙ ap (λ (z : Invoice). z.id) (sym this) in
          let same_company : j.company_id ≡ y.company_id =
            b ∙ ap (λ (z : Invoice). z.company_id) (sym this) in
          let mine : (y.id == j.id) ≡ true = eq→== y.id j.id (sym same_id) in
          let absent : All (IsOther j.id) is = subst (λ n. All (IsOther n) is) (sym same_id) u.0 in
          let stepped : save_invoice j (y ∷ is) ≡ j ∷ is = rw (mine, save_absent j is absent) in
          let alike : is_invoice company_id k j ≡ is_invoice company_id k y =
            rw (same_id, same_company) in
          subst
            (λ (l : List Invoice).
              (i' : Invoice) × (find (is_invoice company_id k) l ≡ some i')
              × (i'.customer_id ≡ i.customer_id))
            (sym stepped)
            (head alike (c ∙ ap (λ (z : Invoice). z.customer_id) (sym this))
              (Bool-cases (is_invoice company_id k y)))
      | inr (other, rest) ↦
          let key = found_id company_id id is x u.1 rest in
          let differs : (y.id == j.id) ≡ false =
            subst (λ n. (y.id == n) ≡ false) (sym key ∙ sym a) other in
          elim (Bool-cases (is_invoice company_id k y)) [
            | inl here ↦
                let found : y ≡ i = eq_of_some (rw here at h) in
                (y, rw (differs, here), ap (λ (z : Invoice). z.customer_id) found)
            | inr elsewhere ↦
                let (i', found, same) =
                  save_invoice_finds company_id id k is x j i u.1 rest a b c (rw elsewhere at h) in
                (i', rw (differs, elsewhere) found, same)
          ]
    ]
  where
    head :
        is_invoice company_id k j ≡ is_invoice company_id k y
        → j.customer_id ≡ y.customer_id
        → (is_invoice company_id k y ≡ true) ⊎ (is_invoice company_id k y ≡ false)
        → (i' : Invoice) × (find (is_invoice company_id k) (j ∷ is) ≡ some i')
          × (i'.customer_id ≡ i.customer_id)
    head alike same (inl here) =
        let found : y ≡ i = eq_of_some (rw here at h) in
        (j, rw (alike ∙ here), same ∙ ap (λ (z : Invoice). z.customer_id) found)
    head alike same (inr elsewhere) = (i, rw (alike ∙ elsewhere) (rw elsewhere at h), refl)
