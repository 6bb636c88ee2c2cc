-- ===== src/Payments/Lines.antt =====
-- The lines of a receipt: what is debited to the bank is credited to receivables and to advances.
use mathlib.Core.Path.{subst}
use fin_matrix_backend.Prelude.{
  ℕ, zero, suc, ◌≡◌, ◌≢◌, refl, sym, ap, ◌∙◌, false, List, [], ◌∷◌, ◌++◌, length, arith, Bool-cases,
  inl, inr, ok, unbind, ok-injective,
}
use fin_matrix_backend.Prelude.Int.{ℤ, pos, negsuc, ◌+ℤ◌, ◌-ℤ◌, ◌≤ℤ◌, int_laws, +ℤ_assoc, +ℤ_zero}
use fin_matrix_backend.Money.{Decimals, IsMoney}
use fin_matrix_backend.Store.{Db}
use fin_matrix_backend.Accounts.{
  acct_ar, acct_customer_advances, get_by_number, get_or_create_system_account,
}
use fin_matrix_backend.Delivery.{over_tolerance}
use fin_matrix_backend.Posting.Checks.{PostingLineInput}
use fin_matrix_backend.Payments.{of_account, lift, PaymentEnv}
use fin_matrix_backend.Payments.Receive.{
  posting_line, unapplied_of, receivable_lines, advance_lines, receipt_lines,
}

abbrev pub debit_total : List PostingLineInput → ℤ
debit_total [] = pos 0
debit_total (l ∷ ls) = l.debit +ℤ debit_total ls

abbrev pub credit_total : List PostingLineInput → ℤ
credit_total [] = pos 0
credit_total (l ∷ ls) = l.credit +ℤ credit_total ls

debit_total-append :
    (ls ms : List PostingLineInput) → debit_total (ls ++ ms) ≡ debit_total ls +ℤ debit_total ms
debit_total-append [] ms = omega int_laws
debit_total-append (l ∷ ls) ms =
    ap (λ n. l.debit +ℤ n) (debit_total-append ls ms)
    ∙ sym (+ℤ_assoc l.debit (debit_total ls) (debit_total ms))

credit_total-append :
    (ls ms : List PostingLineInput) → credit_total (ls ++ ms) ≡ credit_total ls +ℤ credit_total ms
credit_total-append [] ms = omega int_laws
credit_total-append (l ∷ ls) ms =
    ap (λ n. l.credit +ℤ n) (credit_total-append ls ms)
    ∙ sym (+ℤ_assoc l.credit (credit_total ls) (credit_total ms))

-- Lines that debit and credit so much more than before.
abbrev Adds : ℤ → List PostingLineInput → List PostingLineInput → Type 0
Adds x before after =
    (debit_total after ≡ debit_total before) × (credit_total after ≡ credit_total before +ℤ x)

at_end : (a b : ℤ) → a +ℤ (b +ℤ pos 0) ≡ a +ℤ b
at_end a b = omega int_laws

no_more : (a : ℤ) → a +ℤ (pos 0 +ℤ pos 0) ≡ a
no_more a = omega int_laws

module _ (lib : Decimals) where
  -- An amount that is not over the tolerance and is not the tolerance is nothing.
  small_is_zero :
      (x : ℤ)
      → IsMoney lib x
      → pos 0 ≤ℤ x
      → x ≢ pos lib.unit
      → over_tolerance lib x ≡ false
      → x ≡ pos 0
  small_is_zero (pos zero) m p d o = refl
  small_is_zero (pos (suc n)) m p d o =
      let apart = lib.fixed_apart (pos 0) (pos (suc n)) lib.fixed_zero m (omega int_laws) in
      let below : pos (suc n) ≤ℤ pos lib.unit = ground arith in
      let same : suc n ≡ lib.unit = omega (int_laws, apart, below) in absurd (d (ap pos same))
  small_is_zero (negsuc n) m p d o = absurd (omega int_laws)

  line_Adds :
      (account_id order : ℕ) (x : ℤ) (lines : List PostingLineInput)
      → IsMoney lib x
      → Adds x lines (lines ++ posting_line account_id (pos 0) (lib.to_fixed x) order ∷ [])
  line_Adds account_id order x lines m = (
    debit_total-append lines (posting_line account_id (pos 0) (lib.to_fixed x) order ∷ [])
        ∙ no_more (debit_total lines),
    credit_total-append lines (posting_line account_id (pos 0) (lib.to_fixed x) order ∷ [])
        ∙ at_end (credit_total lines) (lib.to_fixed x)
        ∙ ap (λ n. credit_total lines +ℤ n) m,
  )

  nothing_Adds : (x : ℤ) (lines : List PostingLineInput) → x ≡ pos 0 → Adds x lines lines
  nothing_Adds x lines z = (refl, sym (rw z (+ℤ_zero (credit_total lines))))

  module _ (company_id : ℕ) where
    receivable_lines-Adds :
        (applied : ℤ) (lines out : List PostingLineInput) (db : Db)
        → IsMoney lib applied
        → pos 0 ≤ℤ applied
        → applied ≢ pos lib.unit
        → receivable_lines lib company_id applied lines db ≡ ok out
        → Adds applied lines out
    receivable_lines-Adds applied lines out db m p d h =
        elim (Bool-cases (over_tolerance lib applied)) [
          | inl over ↦
              unbind (lift of_account (get_by_number db company_id acct_ar)) _ (rw over at h)
                λ ar _ last.
                  subst (Adds applied lines) (ok-injective last)
                    (line_Adds ar.id (length lines) applied lines m)
          | inr small ↦
              subst (Adds applied lines) (ok-injective (rw small at h))
                (nothing_Adds applied lines (small_is_zero applied m p d small))
        ]

    advance_lines-Adds :
        (env : PaymentEnv) (unapplied : ℤ) (lines : List PostingLineInput)
        (out : List PostingLineInput × Db) (db : Db)
        → IsMoney lib unapplied
        → pos 0 ≤ℤ unapplied
        → unapplied ≢ pos lib.unit
        → advance_lines lib env company_id unapplied lines db ≡ ok out
        → Adds unapplied lines out.0
    advance_lines-Adds env unapplied lines out db m p d h =
        elim (Bool-cases (over_tolerance lib unapplied)) [
          | inl over ↦
              unbind
                (lift of_account (
                  get_or_create_system_account env.account_id db company_id acct_customer_advances))
                _ (rw over at h)
                λ made _ last.
                  subst (Adds unapplied lines)
                    (ap (λ (o : List PostingLineInput × Db). o.0) (ok-injective last))
                    (line_Adds made.0.id (length lines) unapplied lines m)
          | inr small ↦
              subst (Adds unapplied lines)
                (ap (λ (o : List PostingLineInput × Db). o.0) (ok-injective (rw small at h)))
                (nothing_Adds unapplied lines (small_is_zero unapplied m p d small))
        ]

  unapplied_is :
      (amount applied : ℤ) → applied ≤ℤ amount → unapplied_of lib amount applied ≡ amount -ℤ applied
  unapplied_is amount applied h =
      let left : pos 0 ≤ℤ amount -ℤ applied = omega int_laws in ground arith

whole :
    (amount applied d c c' : ℤ)
    → d ≡ amount +ℤ pos 0
    → c ≡ pos 0 +ℤ pos 0 +ℤ applied
    → c' ≡ c +ℤ (amount -ℤ applied)
    → d ≡ c'
whole amount applied d c c' p q r =
    p ∙ sums amount applied ∙ ap (λ n. n +ℤ (amount -ℤ applied)) (sym q) ∙ sym r
  where
    sums : (a b : ℤ) → a +ℤ pos 0 ≡ pos 0 +ℤ pos 0 +ℤ b +ℤ (a -ℤ b)
    sums a b = omega int_laws

-- What a receipt debits it credits to the last place, for an amount of four places and a part of it
-- that is applied, when neither that part nor what is left is exactly one ten-thousandth.
pub receipt_lines_balance :
    (lib : Decimals) (env : PaymentEnv) (company_id bank_id : ℕ) (amount applied : ℤ) (db : Db)
    (out : List PostingLineInput × Db)
    → IsMoney lib amount
    → IsMoney lib applied
    → pos 0 ≤ℤ applied
    → applied ≤ℤ amount
    → applied ≢ pos lib.unit
    → amount -ℤ applied ≢ pos lib.unit
    → receipt_lines lib env company_id bank_id amount applied db ≡ ok out
    → debit_total out.0 ≡ credit_total out.0
unfolding receipt_lines
receipt_lines_balance lib env company_id bank_id amount applied db out ma mp low high d e h =
    let first = posting_line bank_id (lib.to_fixed amount) (pos 0) 0 ∷ [] in
    let left = unapplied_is lib amount applied high in
    unbind (receivable_lines lib company_id applied first db) _ h λ lines credited rest.
      let (same, more) =
        receivable_lines-Adds lib company_id applied first lines db mp low d credited in
      let (same', more') =
        advance_lines-Adds lib company_id env (amount -ℤ applied) lines out db
          (lib.fixed_sub amount applied ma mp) (omega int_laws) e (rw left at rest) in
      whole amount applied (debit_total out.0) (credit_total lines) (credit_total out.0)
        (same' ∙ same ∙ ap (λ n. n +ℤ pos 0) ma) more more'

-- When exactly one ten-thousandth of a receipt is left over, its line is missing and the debits
-- are one ten-thousandth more than the credits.
pub receipt_lines_short :
    (lib : Decimals) (env : PaymentEnv) (company_id bank_id : ℕ) (applied : ℤ) (db : Db)
    (out : List PostingLineInput × Db)
    → IsMoney lib applied
    → pos 0 ≤ℤ applied
    → applied ≢ pos lib.unit
    → receipt_lines lib env company_id bank_id (applied +ℤ pos lib.unit) applied db ≡ ok out
    → debit_total out.0 ≡ credit_total out.0 +ℤ pos lib.unit
unfolding receipt_lines
receipt_lines_short lib env company_id bank_id applied db out m low d h =
    let amount = applied +ℤ pos lib.unit in
    let first = posting_line bank_id (lib.to_fixed amount) (pos 0) 0 ∷ [] in
    let left : unapplied_of lib amount applied ≡ pos lib.unit =
      unapplied_is lib amount applied (omega int_laws) ∙ rest_of applied (pos lib.unit) in
    let not_over : over_tolerance lib (pos lib.unit) ≡ false = ground arith in
    unbind (receivable_lines lib company_id applied first db) _ h λ lines credited rest.
      let (same, more) =
        receivable_lines-Adds lib company_id applied first lines db m low d credited in
      let kept : lines ≡ out.0 =
        ap (λ (o : List PostingLineInput × Db). o.0) (ok-injective (rw (left, not_over) at rest)) in
      ap debit_total (sym kept)
      ∙ same
      ∙ ap (λ n. n +ℤ pos 0) (lib.fixed_add applied (pos lib.unit) m lib.fixed_unit)
      ∙ short applied (pos lib.unit)
      ∙ ap (λ n. n +ℤ pos lib.unit) (sym more)
      ∙ ap (λ l. credit_total l +ℤ pos lib.unit) kept
  where
    rest_of : (a b : ℤ) → a +ℤ b -ℤ a ≡ b
    rest_of a b = omega int_laws

    short : (a b : ℤ) → a +ℤ b +ℤ pos 0 ≡ pos 0 +ℤ pos 0 +ℤ a +ℤ b
    short a b = omega int_laws
