-- ===== src/Aging/Slices.antt =====
-- Cutting balances into buckets loses nothing: the amounts of a row add up to its total, whatever
-- the buckets are.
use fin_matrix_backend.Prelude.{ℕ, ◌≡◌, List, [], ◌∷◌, map, ok}
use fin_matrix_backend.Prelude.Int.{ℤ, pos, ◌+ℤ◌}
use fin_matrix_backend.Aging.{
  BucketKey, AgingBucketDef, build_bucket_spec, Amounts, OpenDocument, AgingRow,
}

abbrev pub sum_amounts : Amounts → ℤ
sum_amounts [] = pos 0
sum_amounts ((k, x) ∷ m) = x +ℤ sum_amounts m

abbrev keys : Amounts → List BucketKey
keys = map (λ (p : BucketKey × ℤ). p.0)

abbrev keys_of : List AgingBucketDef → List BucketKey
keys_of = map (λ (b : AgingBucketDef). b.key)

abbrev tail {ℓ} : {A : Type ℓ} → List A → List A
tail [] = []
tail (_ ∷ xs) = xs

abbrev head {ℓ} : {A : Type ℓ} → A → List A → A
head d [] = d
head d (x ∷ _) = x

-- Both shapes of a row add up to its total.
pub record Foots (spec legacy_spec : List AgingBucketDef) (row : AgingRow) : Type 0 where
  pub amounts_foot : sum_amounts row.amounts ≡ row.total
  pub legacy_foot : sum_amounts row.legacy ≡ row.total
  pub has_buckets : keys row.amounts ≡ keys_of spec
  pub has_legacy : keys row.legacy ≡ keys_of legacy_spec

abbrev pub total_of : List AgingRow → ℤ
total_of [] = pos 0
total_of (row ∷ rows) = row.total +ℤ total_of rows

abbrev pub owed : List OpenDocument → ℤ
owed [] = pos 0
owed (doc ∷ docs) = doc.balance +ℤ owed docs

module _ (bs legacy_bs : List ℕ) (spec legacy_spec : List AgingBucketDef)
    (built : build_bucket_spec bs ≡ ok spec)
    (legacy_built : build_bucket_spec legacy_bs ≡ ok legacy_spec) where
  abbrev Fine : AgingRow → Type 0
  Fine = Foots spec legacy_spec
