-- ===== src/Delivery/Bounds.antt =====
-- The figures that a collection can hold: never less than nothing, never more than what is due.
use mathlib.Core.Path.{subst}
use fin_matrix_backend.Prelude.{
  suc, ◌≡◌, true, false, arith, not_leb→gt, ltb→lt, not_ltb→le, lt→ltb, le→not_ltb, ok, unbind,
  ok-injective, ◌≢◌, ◌*◌, inl, inr, ◌⊎◌, Bool-cases,
}
use fin_matrix_backend.Prelude.Int.{ℤ, pos, ◌+ℤ◌, ◌-ℤ◌, ◌≤ℤ◌, max_ℤ, min_ℤ, leb_ℤ, int_laws}
use fin_matrix_backend.Money.{Decimals, IsMoney}
use fin_matrix_backend.Delivery.{
  DeliveryPaidStatus, paid, partial, unpaid, Collection, Amount, advance_of, due_of, collection,
  over_tolerance, collection_tolerance, settle, read_amount, collection_from_amount,
}

pub min_ℤ-le : (a b : ℤ) → min_ℤ a b ≤ℤ b
min_ℤ-le a b = ground arith

max_ℤ-nonneg : (a : ℤ) → pos 0 ≤ℤ max_ℤ a (pos 0)
max_ℤ-nonneg a = ground arith

-- The advance that is used and what it leaves are the sale.
pub advance_and_due :
    (gross advance : ℤ) → advance_of gross advance +ℤ due_of gross advance ≡ max_ℤ gross (pos 0)
advance_and_due gross advance = omega int_laws

pub due_of-nonneg : (gross advance : ℤ) → pos 0 ≤ℤ due_of gross advance
due_of-nonneg gross advance =
    omega (int_laws, min_ℤ-le (max_ℤ advance (pos 0)) (max_ℤ gross (pos 0)))

read_amount-nonneg : (figure : Amount) (x : ℤ) → read_amount figure ≡ ok x → pos 0 ≤ℤ x
read_amount-nonneg figure x h = ground arith

-- With no advance, all of the sale is due.
pub due_of-bare : (gross : ℤ) → pos 0 ≤ℤ gross → due_of gross (pos 0) ≡ gross
unfolding ◌-ℤ◌
due_of-bare gross sale = ground arith

module _ (lib : Decimals) where
  open lib use {
    unit, unit_pos, to_fixed, to_fixed_idem, to_fixed_mono, fixed_zero, fixed_add, fixed_sub,
    fixed_unit,
  }

  pub over_of : (x : ℤ) → pos (suc unit) ≤ℤ x → over_tolerance lib x ≡ true
  over_of x h = lt→ltb _ _ (omega arith)

  pub not_over_of : (x : ℤ) → x ≤ℤ pos unit → over_tolerance lib x ≡ false
  not_over_of x h = le→not_ltb _ _ (omega arith)

  pub over→owed : (x : ℤ) → over_tolerance lib x ≡ true → pos (suc unit) ≤ℤ x
  over→owed x h = let over = ltb→lt _ _ h in omega arith

  max_ℤ-IsMoney : (a : ℤ) → IsMoney lib a → IsMoney lib (max_ℤ a (pos 0))
  max_ℤ-IsMoney a m = ground (arith, m, fixed_zero)

  min_ℤ-IsMoney : (a b : ℤ) → IsMoney lib a → IsMoney lib b → IsMoney lib (min_ℤ a b)
  min_ℤ-IsMoney a b m n = ground (arith, m, n)

  pub due_of-IsMoney :
      (gross advance : ℤ)
      → IsMoney lib gross
      → IsMoney lib advance
      → IsMoney lib (due_of gross advance)
  due_of-IsMoney gross advance g a =
      fixed_sub (max_ℤ gross (pos 0)) (advance_of gross advance) (max_ℤ-IsMoney gross g)
        (min_ℤ-IsMoney _ _ (max_ℤ-IsMoney advance a) (max_ℤ-IsMoney gross g))

  -- What a collection must be, for what is due on a sale.
  pub record IsCollection (gross advance : ℤ) (c : Collection) : Type 0 where
    pub due_stated : c.amount_due ≡ due_of gross advance
    pub not_negative : pos 0 ≤ℤ c.amount_collected
    pub never_more : c.amount_collected ≤ℤ due_of gross advance
    pub paid_in_full :
        c.paid_status ≡ paid
        → (c.amount_collected ≡ due_of gross advance) ⊎ (due_of gross advance ≤ℤ pos unit)
    pub nothing_paid : c.paid_status ≡ unpaid → c.amount_collected ≡ pos 0
    pub still_owed : c.paid_status ≡ unpaid → pos (suc unit) ≤ℤ due_of gross advance
    pub part_paid :
        c.paid_status ≡ partial
        → (pos unit ≤ℤ c.amount_collected)
          × (c.amount_collected +ℤ pos (2 * unit) ≤ℤ due_of gross advance)

  module _ (gross advance : ℤ) (g : IsMoney lib gross) (a : IsMoney lib advance) where
    abbrev due : ℤ
    due = due_of gross advance

    pub paid-IsCollection : IsCollection gross advance (collection lib paid due gross advance)
    paid-IsCollection =
        let money = due_of-IsMoney gross advance g a in
        record {
          due_stated = money;
          not_negative = rw money (due_of-nonneg gross advance);
          never_more = rw money (omega arith);
          paid_in_full = λ _. inl money;
          nothing_paid = λ h. absurd (cc h);
          still_owed = λ h. absurd (cc h);
          part_paid = λ h. absurd (cc h);
        }

    pub nothing-IsCollection :
        (s : DeliveryPaidStatus)
        → (s ≡ paid → due ≤ℤ pos unit)
        → (s ≡ unpaid → pos (suc unit) ≤ℤ due)
        → s ≢ partial
        → IsCollection gross advance (collection lib s (pos 0) gross advance)
    nothing-IsCollection s small owed whole = record {
      due_stated = due_of-IsMoney gross advance g a;
      not_negative = rw fixed_zero (omega arith);
      never_more = rw fixed_zero (due_of-nonneg gross advance);
      paid_in_full = λ h. inr (small h);
      nothing_paid = λ _. fixed_zero;
      still_owed = owed;
      part_paid = λ h. absurd (whole h);
    }

    two_units-IsMoney : IsMoney lib (pos (2 * unit))
    two_units-IsMoney =
        subst (IsMoney lib) (omega int_laws) (fixed_add (pos unit) (pos unit) fixed_unit fixed_unit)

    -- A figure below the amount due by the tolerance stays below it when it is rounded.
    rounded_below : (x : ℤ) → x ≤ℤ due -ℤ pos (2 * unit) → to_fixed x ≤ℤ due -ℤ pos (2 * unit)
    rounded_below x below =
        subst (λ y. to_fixed x ≤ℤ y)
          (fixed_sub due (pos (2 * unit)) (due_of-IsMoney gross advance g a) two_units-IsMoney)
          (to_fixed_mono x (due -ℤ pos (2 * unit)) below)

    rounded_above : (x : ℤ) → pos unit ≤ℤ x → pos unit ≤ℤ to_fixed x
    rounded_above x above =
        subst (λ y. y ≤ℤ to_fixed x) fixed_unit (to_fixed_mono (pos unit) x above)

    partial-IsCollection :
        (x : ℤ)
        → x ≤ℤ due -ℤ pos (2 * unit)
        → pos unit ≤ℤ x
        → IsCollection gross advance (collection lib partial (to_fixed x) gross advance)
    partial-IsCollection x below above =
        let under = rounded_below x below in
        let over = rounded_above x above in
        rw (to_fixed_idem x) (record {
          due_stated = due_of-IsMoney gross advance g a;
          not_negative = omega (int_laws, over);
          never_more = omega (int_laws, under);
          paid_in_full = λ h. absurd (cc h);
          nothing_paid = λ h. absurd (cc h);
          still_owed = λ h. absurd (cc h);
          part_paid = λ _. (over, omega (int_laws, under));
        })

    settle-IsCollection :
        (x : ℤ)
        → pos (suc unit) ≤ℤ due
        → pos 0 ≤ℤ x
        → IsCollection gross advance (settle lib gross advance x)
    settle-IsCollection x owing nonneg =
        elim (Bool-cases (leb_ℤ (due -ℤ collection_tolerance lib) x)) [
          | inl all ↦ rw all paid-IsCollection
          | inr some_left ↦ elim (Bool-cases (over_tolerance lib x)) [
            | inl enough ↦
                rw (some_left, enough)
                  (partial-IsCollection x (omega (int_laws, unit_pos, not_leb→gt _ _ some_left))
                    (ground arith))
            | inr little ↦
                rw (some_left, little)
                  (nothing-IsCollection unpaid (λ h. absurd (cc h)) (λ _. owing) (λ h. cc h))
          ]
        ]

    -- Whatever figure is sent, what is recorded is no more than what is due, and the status says
    -- how much of it was paid.
    pub collection_from_amount-IsCollection :
        (figure : Amount) {c : Collection}
        → collection_from_amount lib gross advance figure ≡ ok c
        → IsCollection gross advance c
    unfolding collection_from_amount
    collection_from_amount-IsCollection figure {c} h = elim (Bool-cases (over_tolerance lib due)) [
      | inr small ↦
          subst (IsCollection gross advance) (ok-injective (rw small at h))
            (nothing-IsCollection paid (λ _. not_ltb→le _ _ small) (λ e. absurd (cc e)) (λ e. cc e))
      | inl owing ↦ unbind (read_amount figure) _ (rw owing at h) λ x read rest.
          let settled : settle lib gross advance x ≡ c = ground arith in
          subst (IsCollection gross advance) settled
            (settle-IsCollection x (over→owed due owing) (read_amount-nonneg figure x read))
    ]
