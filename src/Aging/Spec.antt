-- ===== src/Aging/Spec.antt =====
-- The buckets of a spec cut the days apart.
use mathlib.Core.Path.{subst}
use fin_matrix_backend.Prelude.{
  ℕ, suc, ◌+◌, ◌≤◌, ◌<◌, ◌≡◌, refl, sym, ap, true, false, none, some, List, [], ◌∷◌, leb, ◌==◌,
  if◌then◌else◌, arith, ok, unbind, ok-injective, ◌⊎◌, inl, inr, Bool-cases, Option-cases, leb→le,
  not_leb→gt,
}
use fin_matrix_backend.Prelude.Int.{ℤ, pos, negsuc, ◌≤ℤ◌, leb_ℤ}
use fin_matrix_backend.Aging.{
  AgingBucketDef, check_boundaries, buckets_from, current_bucket, build_bucket_spec, within,
  find_bucket, bucket_key_for,
}

abbrev pub Has : AgingBucketDef → List AgingBucketDef → Type 0
Has b [] = ⊥
Has b (x ∷ xs) = (b ≡ x) ⊎ Has b xs

-- The days that a bucket stands for; the first one holds all that is not overdue.
abbrev pub Holds : ℤ → AgingBucketDef → Type 0
Holds days b =
    if b.min_days == 0
    then days ≤ℤ pos 0
    else (pos b.min_days ≤ℤ days) × (elim b.max_days [ none ↦ Unit | some m ↦ days ≤ℤ pos m ])

-- Each boundary lies above the one before it.
abbrev pub Ascends : ℕ → List ℕ → Type 0
Ascends before [] = Unit
Ascends before (b ∷ bs) = (before < b) × Ascends b bs

check_boundaries-Ascends :
    (before : ℕ) (bs : List ℕ) → check_boundaries before bs ≡ ok tt → Ascends before bs
unfolding check_boundaries
check_boundaries-Ascends before [] h = tt
check_boundaries-Ascends before (b ∷ bs) h =
    let above : before < b = ground arith in
    let rest : check_boundaries b bs ≡ ok tt = ground arith in
    (above, check_boundaries-Ascends b bs rest)

pub build_bucket_spec-buckets :
    (bs : List ℕ) {spec : List AgingBucketDef}
    → build_bucket_spec bs ≡ ok spec
    → (spec ≡ current_bucket ∷ buckets_from 0 bs) × Ascends 0 bs
unfolding build_bucket_spec
build_bucket_spec-buckets bs {spec} h =
    unbind (check_boundaries 0 bs) (λ _. ok (current_bucket ∷ buckets_from 0 bs)) (ground arith)
      λ u checked made. (sym (ok-injective made), check_boundaries-Ascends 0 bs checked)

positive : (n : ℕ) → (suc n == 0) ≡ false
positive n = ground arith

-- Beyond a boundary some bucket of those that follow it holds every day.
find_bucket-Holds :
    (before days : ℕ) (bs : List ℕ)
    → Ascends before bs
    → before < days
    → (b : AgingBucketDef) × Has b (buckets_from before bs)
      × Holds (pos days) b
      × (find_bucket days (buckets_from before bs) ≡ some b.key)
find_bucket-Holds before days [] asc late =
    (_, inl refl, rw (positive before) (omega arith, tt), ground arith)
find_bucket-Holds before days (b ∷ bs) (above, asc) late = elim (Bool-cases (leb days b)) [
  | inl here ↦
      let small = leb→le days b here in
      (_, inl refl, rw (positive before) (omega arith, omega (arith, small)), ground arith)
  | inr beyond ↦
      let (c, has, holds, found) = find_bucket-Holds b days bs asc (not_leb→gt days b beyond) in
      (c, inr has, holds, ground (arith, found))
]

min_days-after :
    (before : ℕ) (bs : List ℕ) (c : AgingBucketDef)
    → Ascends before bs
    → Has c (buckets_from before bs)
    → before < c.min_days
min_days-after before [] c asc (inl e) = rw e (omega arith)
min_days-after before [] c asc (inr has) = elim has [ ]
min_days-after before (b ∷ bs) c asc (inl e) = rw e (omega arith)
min_days-after before (b ∷ bs) c (above, asc) (inr has) =
    omega (arith, min_days-after b bs c asc has)

-- What a bucket of a positive bound holds.
Holds-positive :
    (days : ℕ) (c : AgingBucketDef) → 0 < c.min_days → Holds (pos days) c → within days c ≡ true
Holds-positive days c late holds =
    let overdue : (c.min_days == 0) ≡ false = ground arith in
    let (low, high) = rw overdue at holds in
    elim (Option-cases c.max_days) [
      | inl open_ended ↦ rw open_ended (ground (arith, low))
      | inr (m, bound) ↦
          let top : days + 0 ≤ m + 0 = rw bound at high in rw bound (ground (arith, low, top))
    ]

-- A bucket that holds the days is the one that is found.
find_bucket_unique :
    (before days : ℕ) (bs : List ℕ) (c : AgingBucketDef)
    → Ascends before bs
    → Has c (buckets_from before bs)
    → Holds (pos days) c
    → find_bucket days (buckets_from before bs) ≡ some c.key
find_bucket_unique before days [] c asc (inl e) holds =
    let found = Holds-positive days c (rw e (omega arith)) holds in
    ground (arith, rw e at found, ap (λ (b : AgingBucketDef). b.key) e)
find_bucket_unique before days [] c asc (inr has) holds = elim has [ ]
find_bucket_unique before days (b ∷ bs) c asc (inl e) holds =
    let found = Holds-positive days c (rw e (omega arith)) holds in
    ground (arith, rw e at found, ap (λ (b : AgingBucketDef). b.key) e)
find_bucket_unique before days (b ∷ bs) c (above, asc) (inr has) holds =
    let late = min_days-after b bs c asc has in
    let overdue : (c.min_days == 0) ≡ false = ground arith in
    let (low, high) = rw overdue at holds in
    ground (arith, find_bucket_unique b days bs c asc has holds, low, late)

abbrev cut : List ℕ → List AgingBucketDef
cut bs = current_bucket ∷ buckets_from 0 bs

cut-Holds :
    (bs : List ℕ) (days : ℤ)
    → Ascends 0 bs
    → (b : AgingBucketDef) × Has b (cut bs)
      × Holds days b
      × (bucket_key_for days (cut bs) ≡ some b.key)
unfolding bucket_key_for
cut-Holds bs (negsuc d) asc = (current_bucket, inl refl, omega arith, ground arith)
cut-Holds bs (pos d) asc = elim (Bool-cases (leb d 0)) [
  | inl not_late ↦
      let small = leb→le d 0 not_late in
      (current_bucket, inl refl, omega (arith, small), ground arith)
  | inr late ↦
      let (c, has, holds, found) = find_bucket-Holds 0 d bs asc (not_leb→gt d 0 late) in
      (c, inr has, holds, ground (arith, found))
]

cut_unique :
    (bs : List ℕ) (days : ℤ) (b : AgingBucketDef)
    → Ascends 0 bs
    → Has b (cut bs)
    → Holds days b
    → bucket_key_for days (cut bs) ≡ some b.key
unfolding bucket_key_for
cut_unique bs days b asc (inl e) holds =
    let not_late : days ≤ℤ pos 0 = subst (Holds days) e holds in
    let first : leb_ℤ days (pos 0) ≡ true = ground (arith, not_late) in
    rw first (ap (λ (c : AgingBucketDef). some c.key) (sym e))
cut_unique bs (negsuc d) b asc (inr has) holds =
    let late = min_days-after 0 bs b asc has in
    let overdue : (b.min_days == 0) ≡ false = ground arith in
    let (low, high) = rw overdue at holds in absurd (omega (arith, low, late))
cut_unique bs (pos d) b asc (inr has) holds =
    let late = min_days-after 0 bs b asc has in
    let overdue : (b.min_days == 0) ≡ false = ground arith in
    let (low, high) = rw overdue at holds in
    ground (arith, find_bucket_unique 0 d bs b asc has holds, low, late)

-- For any spec that is built, every number of days lies in a bucket of it, and that bucket's key is
-- the one that `bucketKeyFor` gives.
pub bucket_key_for-Holds :
    (bs : List ℕ) {spec : List AgingBucketDef} (days : ℤ)
    → build_bucket_spec bs ≡ ok spec
    → (b : AgingBucketDef) × Has b spec × Holds days b × (bucket_key_for days spec ≡ some b.key)
bucket_key_for-Holds bs {spec} days h =
    let (made, asc) = build_bucket_spec-buckets bs h in
    subst
      (λ s. (b : AgingBucketDef) × Has b s × Holds days b × (bucket_key_for days s ≡ some b.key))
      (sym made) (cut-Holds bs days asc)

-- A bucket of a spec that is built has the key that `bucketKeyFor` gives to every number of days
-- that the bucket holds: no two buckets overlap.
pub bucket_key_for_unique :
    (bs : List ℕ) {spec : List AgingBucketDef} (days : ℤ) (b : AgingBucketDef)
    → build_bucket_spec bs ≡ ok spec
    → Has b spec
    → Holds days b
    → bucket_key_for days spec ≡ some b.key
bucket_key_for_unique bs {spec} days b h has holds =
    let (made, asc) = build_bucket_spec-buckets bs h in
    rw made (cut_unique bs days b asc (subst (Has b) made has) holds)
