-- ===== src/Tests/AgingExamples.antt =====
-- Aging reports that run, and the theorems applied to them.
use fin_matrix_backend.Prelude.{
  ℕ, ◌<◌, ◌≡◌, refl, none, some, Option, List, [], ◌∷◌, ok, err, length, All, inl, inr, arith,
}
use fin_matrix_backend.Prelude.Int.{pos, negsuc}
use fin_matrix_backend.Aging.{
  days_to, AgingBucketDef, build_bucket_spec, check_boundaries, current_bucket, buckets_from,
  bucket_key_for, OpenDocument, not_ascending,
}
use fin_matrix_backend.Aging.Spec.{Has, Holds, bucket_key_for-Holds, bucket_key_for_unique}
use fin_matrix_backend.Aging.Request.{
  Text, AgingSpecRequest, ResolvedAgingSpec, parse_parts, parse_boundaries, custom, unknown, pick,
  resolve_aging_spec,
}
use fin_matrix_backend.Aging.Request.Resolved.{resolve_aging_spec_total, parse_boundaries-lt}

abbrev weeks : List ℕ
weeks = 7 ∷ 14 ∷ 21 ∷ []

abbrev weeks_spec : List AgingBucketDef
weeks_spec = current_bucket ∷ buckets_from 0 weeks

weeks_built : build_bucket_spec weeks ≡ ok weeks_spec
unfolding build_bucket_spec check_boundaries
weeks_built = refl

abbrev months_spec : List AgingBucketDef
months_spec = current_bucket ∷ buckets_from 0 (30 ∷ 60 ∷ 90 ∷ [])

descending : build_bucket_spec (7 ∷ 7 ∷ []) ≡ err not_ascending
unfolding build_bucket_spec check_boundaries
descending = refl

bucket_key_for-Holds_example :
    (b : AgingBucketDef) × Has b weeks_spec
    × Holds (pos 15) b
    × (bucket_key_for (pos 15) weeks_spec ≡ some b.key)
bucket_key_for-Holds_example = bucket_key_for-Holds weeks (pos 15) weeks_built

abbrev third_week : AgingBucketDef
third_week = record { key = days_to 15 21; min_days = 15; max_days = some 21 }

bucket_key_for_unique_example : bucket_key_for (pos 15) weeks_spec ≡ some (days_to 15 21)
bucket_key_for_unique_example =
    bucket_key_for_unique weeks (pos 15) third_week weeks_built (inr (inr (inr (inl refl))))
      (ground arith, ground arith)

abbrev documents : List OpenDocument
documents =
    record { party_id = 1; age = pos 15; balance = pos 40 }
    ∷ record { party_id = 2; age = negsuc 3; balance = pos 25 }
    ∷ record { party_id = 1; age = pos 95; balance = pos 10 }
    ∷ []

-- "7, 14,21"
abbrev weeks_text : Text
weeks_text = 55 ∷ 44 ∷ 32 ∷ 49 ∷ 52 ∷ 44 ∷ 50 ∷ 49 ∷ []

weeks_parsed : parse_boundaries weeks_text ≡ ok weeks
unfolding parse_boundaries parse_parts
weeks_parsed = refl

weeks_are_small : (0 < length weeks) × All (λ b. b < 10000) weeks
weeks_are_small = parse_boundaries-lt weeks_text weeks_parsed

abbrev weeks_request : Option AgingSpecRequest
weeks_request = some (record { preset = some custom; buckets = some weeks_text })

-- A saved preference that names no preset.
abbrev broken : Option AgingSpecRequest
broken = some (record { preset = some unknown; buckets = none })

abbrev weeks_resolved : ResolvedAgingSpec
weeks_resolved = record { preset = custom; boundaries = weeks; spec = weeks_spec }

weeks_picked : pick weeks_request ≡ ok (some weeks_resolved)
unfolding pick parse_boundaries parse_parts build_bucket_spec check_boundaries
weeks_picked = refl

nothing_picked : pick none ≡ ok none
unfolding pick
nothing_picked = refl

resolve_aging_spec_total_example :
    (r : ResolvedAgingSpec) × (resolve_aging_spec none broken ≡ ok r)
    × ((x : ResolvedAgingSpec) → none ≡ some x → r ≡ x)
resolve_aging_spec_total_example = resolve_aging_spec_total none broken none nothing_picked
