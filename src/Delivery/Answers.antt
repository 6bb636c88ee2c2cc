-- ===== src/Delivery/Answers.antt =====
-- The rider's answer and the invoice: what a delivery can be recorded as.
use mathlib.Core.Path.{subst}
use fin_matrix_backend.Prelude.{
  suc, ◌≡◌, false, arith, or_else, ok, unbind, ok-injective, inl, inr, Bool-cases, Option-cases,
  not_ltb→le,
}
use fin_matrix_backend.Prelude.Int.{pos, ◌≤ℤ◌}
use fin_matrix_backend.Money.{Decimals, IsMoney}
use fin_matrix_backend.Delivery.{
  paid, partial, unpaid, Collection, Answer, answer, unknown, CollectionInput, due_of, collection,
  over_tolerance, collection_from_amount, some_paid, resolve_answer, resolve_collection,
}
use fin_matrix_backend.Delivery.Bounds.{
  IsCollection, paid-IsCollection, nothing-IsCollection, collection_from_amount-IsCollection,
  over→owed,
}

module _ (lib : Decimals) (input : CollectionInput) where
  open lib use {unit, unit_pos}

  -- When the advance covers the sale, the delivery is paid and the rider collects nothing, whatever
  -- the rider or an old app sends.
  pub resolve_collection_prepaid :
      over_tolerance lib (due_of input.gross input.advance) ≡ false
      → resolve_collection lib input ≡ ok (collection lib paid (pos 0) input.gross input.advance)
  unfolding resolve_collection
  resolve_collection_prepaid covered = rw covered

  module _ (g : IsMoney lib input.gross) (a : IsMoney lib input.advance) where
    open input use {gross, advance}

    resolve_answer-IsCollection :
        (s : Answer) {c : Collection}
        → pos (suc unit) ≤ℤ due_of gross advance
        → resolve_answer lib input s ≡ ok c
        → IsCollection lib gross advance c
    resolve_answer-IsCollection (answer paid) owing h =
        subst (IsCollection lib gross advance) (ok-injective h)
          (paid-IsCollection lib gross advance g a)
    resolve_answer-IsCollection (answer unpaid) owing h =
        subst (IsCollection lib gross advance) (ok-injective h) (
          nothing-IsCollection lib gross advance g a unpaid (λ e. absurd (cc e)) (λ _. owing)
            (λ e. cc e))
    resolve_answer-IsCollection (answer partial) {c} owing h =
        elim (Option-cases input.amount_collected) [
          | inl missing ↦ absurd (cc (rw missing at h))
          | inr (figure, given) ↦
              unbind (collection_from_amount lib gross advance figure) some_paid (rw given at h)
                λ x settled rest.
                  let same : x ≡ c = ground arith in
                  subst (IsCollection lib gross advance) same
                    (collection_from_amount-IsCollection lib gross advance g a figure settled)
        ]
    resolve_answer-IsCollection unknown owing h = absurd (cc h)

    -- For a gross and an advance of four places and whatever answer, a collection that is accepted
    -- states what the advance leaves due, holds no more than that and nothing negative, and is
    -- marked paid only if it holds it all (or if no more than the tolerance is due), unpaid only if
    -- it holds nothing, partial only if it is strictly between.
    pub resolve_collection-IsCollection :
        {c : Collection} → resolve_collection lib input ≡ ok c → IsCollection lib gross advance c
    unfolding resolve_collection
    resolve_collection-IsCollection {c} h =
        elim (Bool-cases (over_tolerance lib (due_of gross advance))) [
          | inr small ↦ subst (IsCollection lib gross advance) (ok-injective (rw small at h)) (
              nothing-IsCollection lib gross advance g a paid (λ _. not_ltb→le _ _ small)
                (λ e. absurd (cc e)) (λ e. cc e))
          | inl owing ↦
              resolve_answer-IsCollection (or_else input.paid_status (answer unpaid))
                (over→owed lib (due_of gross advance) owing) (rw owing at h)
        ]
