-- ===== src/Aging.antt =====
-- src/modules/reports/aging-buckets.ts, and the pass over the open documents that slices their
-- balances (`bucketAging` of src/modules/reports/reports.service.ts). The key of a bucket is text
-- made of its bounds; here it is the bounds. Balances add up exactly.
pub mod Spec
pub mod Slices
pub mod Request
use fin_matrix_backend.Prelude.{
  ℕ, suc, ◌+◌, ◌*◌, ◌-◌, Bool, true, false, not, ◌&&◌, ◌||◌, Option, none, some, List, [], ◌∷◌, map,
  ltb, leb, ◌==◌, if◌then◌else◌, length, or_else, Result, ok, err, ◌>>=◌, ◌>>◌, throw_if,
}
use fin_matrix_backend.Prelude.Int.{ℤ, pos, ◌+ℤ◌, leb_ℤ, pos_part}

pub data BucketKey : Type 0 where
  current : BucketKey
  days_to : ℕ → ℕ → BucketKey
  days_plus : ℕ → BucketKey

pub record AgingBucketDef : Type 0 where
  pub key : BucketKey
  pub min_days : ℕ
  pub max_days : Option ℕ

pub data AgingError : Type 0 where
  no_boundaries too_many_boundaries boundary_below_one not_ascending : AgingError
  not_whole_days custom_without_buckets unknown_preset : AgingError

abbrev pub max_boundaries : ℕ
max_boundaries = 12

-- The checks on each boundary and the one before it (0 before the first, which passes whenever the
-- boundary is at least 1). Boundaries come from digits or from a preset, so they are whole.
unfoldable pub check_boundaries : ℕ → List ℕ → Result AgingError (Unit {0})
check_boundaries before [] = ok tt
check_boundaries before (b ∷ bs) =
    throw_if (ltb b 1) boundary_below_one
    >> (throw_if (leb b before) not_ascending >> check_boundaries b bs)

-- The buckets after `current`, and the open-ended one at the end.
abbrev pub buckets_from : ℕ → List ℕ → List AgingBucketDef
buckets_from before [] =
    record { key = days_plus (suc before); min_days = suc before; max_days = none } ∷ []
buckets_from before (b ∷ bs) =
    record { key = days_to (suc before) b; min_days = suc before; max_days = some b }
    ∷ buckets_from b bs

abbrev pub current_bucket : AgingBucketDef
current_bucket = record { key = current; min_days = 0; max_days = some 0 }

unfoldable pub build_bucket_spec : List ℕ → Result AgingError (List AgingBucketDef)
unfolding check_boundaries
build_bucket_spec boundaries = do
  throw_if (length boundaries == 0) no_boundaries
  throw_if (ltb max_boundaries (length boundaries)) too_many_boundaries
  check_boundaries 0 boundaries
  ok (current_bucket ∷ buckets_from 0 boundaries)

abbrev pub within : ℕ → AgingBucketDef → Bool
within days b = leb b.min_days days && (elim b.max_days [ none ↦ true | some m ↦ leb days m ])

-- The loop of `bucketKeyFor`, for a positive number of days.
abbrev pub find_bucket : ℕ → List AgingBucketDef → Option BucketKey
find_bucket days [] = none
find_bucket days (b ∷ bs) =
    if not (b.min_days == 0) && within days b then some b.key else find_bucket days bs

abbrev pub first_key : List AgingBucketDef → Option BucketKey
first_key [] = none
first_key (b ∷ _) = some b.key

abbrev pub last_key : List AgingBucketDef → Option BucketKey
last_key [] = none
last_key (b ∷ bs) = some (or_else (last_key bs) b.key)

-- None is a read of `key` of `undefined`.
unfoldable pub bucket_key_for : ℤ → List AgingBucketDef → Option BucketKey
bucket_key_for days spec =
    if leb_ℤ days (pos 0)
    then first_key spec
    else elim (find_bucket (pos_part days) spec) [ none ↦ last_key spec | some k ↦ some k ]

-- `===` on keys.
abbrev pub same_key : BucketKey → BucketKey → Bool
same_key current current = true
same_key (days_to a b) (days_to c d) = (a == c) && (b == d)
same_key (days_plus a) (days_plus b) = a == b
same_key _ _ = false

abbrev pub Amounts : Type 0
Amounts = List (BucketKey × ℤ)

abbrev pub zero_amounts : List AgingBucketDef → Amounts
zero_amounts spec = map (λ (b : AgingBucketDef). (b.key, pos 0)) spec

-- `amounts[key] += x`; a key that is not there makes the sum not a number.
unfoldable pub add_amount : BucketKey → ℤ → Amounts → Option Amounts
add_amount key x [] = none
add_amount key x ((k, y) ∷ rest) =
    let after = add_amount key x rest in
    if same_key key k
    then some ((k, y +ℤ x) ∷ rest)
    else elim after [ none ↦ none | some rest' ↦ some ((k, y) ∷ rest') ]

-- `age` is 0 where the due date is missing.
pub record OpenDocument : Type 0 where
  pub party_id : ℕ
  pub age : ℤ
  pub balance : ℤ

pub record AgingRow : Type 0 where
  pub id : ℕ
  pub amounts : Amounts
  pub legacy : Amounts
  pub total : ℤ

abbrev pub legacy_boundaries : List ℕ
legacy_boundaries = 30 ∷ 60 ∷ 90 ∷ []

abbrev pub add_to : List AgingBucketDef → ℤ → ℤ → Amounts → Option Amounts
add_to s age balance amounts = elim (bucket_key_for age s) [
  | none ↦ none
  | some key ↦ add_amount key balance amounts
]

module _ (spec legacy_spec : List AgingBucketDef) where
  abbrev pub blank_row : ℕ → AgingRow
  blank_row id = record {
    id = id;
    amounts = zero_amounts spec;
    legacy = zero_amounts legacy_spec;
    total = pos 0;
  }

  unfoldable pub add_document : OpenDocument → AgingRow → Option AgingRow
  unfolding bucket_key_for add_amount
  add_document doc row = elim (add_to spec doc.age doc.balance row.amounts) [
    | none ↦ none
    | some amounts ↦ elim (add_to legacy_spec doc.age doc.balance row.legacy) [
      | none ↦ none
      | some legacy ↦
          some (record row { amounts = amounts; legacy = legacy; total = row.total +ℤ doc.balance })
    ]
  ]

  -- The row of the party, in insertion order; a party without one starts with a blank row.
  unfoldable pub place_document : OpenDocument → List AgingRow → Option (List AgingRow)
  unfolding add_document
  place_document doc [] = elim (add_document doc (blank_row doc.party_id)) [
    | none ↦ none
    | some row ↦ some (row ∷ [])
  ]
  place_document doc (row ∷ rows) =
      let after = place_document doc rows in
      if doc.party_id == row.id
      then elim (add_document doc row) [ none ↦ none | some row' ↦ some (row' ∷ rows) ]
      else elim after [ none ↦ none | some rows' ↦ some (row ∷ rows') ]

  unfoldable pub bucket_rows : List OpenDocument → List AgingRow → Option (List AgingRow)
  unfolding place_document
  bucket_rows [] rows = some rows
  bucket_rows (doc ∷ docs) rows = elim (place_document doc rows) [
    | none ↦ none
    | some rows' ↦ bucket_rows docs rows'
  ]
