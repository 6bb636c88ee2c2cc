-- ===== src/Aging/Request/Resolved.antt =====
-- What a request for an aging report settles on.
use mathlib.Core.Path.{subst}
use fin_matrix_backend.Prelude.{
  ℕ, suc, ◌+◌, ◌*◌, ◌-◌, ◌≤◌, ◌<◌, ◌≡◌, refl, ap, ◌∙◌, true, false, Option, none, some, List, [],
  ◌∷◌, leb, ◌==◌, length, all, All, arith, ok, err, ◌>>=◌, unbind, ok-injective, inl, inr,
  Bool-cases, Option-cases, eq_of_some,
}
use fin_matrix_backend.Aging.{AgingBucketDef, AgingError, build_bucket_spec}
use fin_matrix_backend.Aging.Request.{
  Text, is_digit, is_day_count, number_of, parse_parts, parse_boundaries, parts_of,
  AgingSpecRequest, ResolvedAgingSpec, monthly, pick, from_saved, or_default, resolve_aging_spec,
}

-- The buckets are those of the boundaries.
abbrev pub IsBuilt : ResolvedAgingSpec → Type 0
IsBuilt r = build_bucket_spec r.boundaries ≡ ok r.spec

monthly_spec : (spec : List AgingBucketDef) × (build_bucket_spec (30 ∷ 60 ∷ 90 ∷ []) ≡ ok spec)
unfolding build_bucket_spec
monthly_spec = (_, refl)

-- A malformed saved preference never breaks a report: if the request itself is read without an
-- error, there is a spec, and it is the one that the request names if it names one.
pub resolve_aging_spec_total :
    (request saved : Option AgingSpecRequest) (picked : Option ResolvedAgingSpec)
    → pick request ≡ ok picked
    → (r : ResolvedAgingSpec) × (resolve_aging_spec request saved ≡ ok r)
      × ((x : ResolvedAgingSpec) → picked ≡ some x → r ≡ x)
unfolding resolve_aging_spec
resolve_aging_spec_total request saved (some x) asked = (x, rw asked, λ y e. eq_of_some e)
resolve_aging_spec_total request saved none asked = elim (Option-cases (from_saved saved)) [
  | inr (x, preferred) ↦ (x, rw (asked, or_default, preferred), λ y e. absurd (cc e))
  | inl unsaved ↦
      let (spec, built) = monthly_spec in
      (
        record { preset = monthly; boundaries = 30 ∷ 60 ∷ 90 ∷ []; spec = spec },
        rw asked (
            ap or_default unsaved
            ∙ ap
                (λ m. m >>= λ spec.
                  ok (record { preset = monthly; boundaries = 30 ∷ 60 ∷ 90 ∷ []; spec = spec }))
                built),
        λ y e. absurd (cc e),
      )
]

-- A request that is malformed is refused with its own error, whatever is saved.
pub resolve_aging_spec_refuses :
    (request saved : Option AgingSpecRequest) (e : AgingError)
    → pick request ≡ err e
    → resolve_aging_spec request saved ≡ err e
unfolding resolve_aging_spec
resolve_aging_spec_refuses request saved e refused = rw refused

-- Ten times as much for every digit.
abbrev scaled : ℕ → Text → ℕ
scaled b [] = b
scaled b (c ∷ cs) = scaled (b * 10) cs

number_of-lt :
    (n : ℕ) (s : Text) (b : ℕ) → all is_digit s ≡ true → n < b → number_of n s < scaled b s
number_of-lt n [] b h small = small
number_of-lt n (c ∷ cs) b h small =
    let digit : c ≤ 57 = ground arith in
    let rest : all is_digit cs ≡ true = ground arith in
    number_of-lt (n * 10 + (c - 48)) cs (b * 10) rest (omega (arith, digit, small))

scaled-four : (s : Text) → leb (length s) 4 ≡ true → scaled 1 s ≤ 10000
scaled-four [] h = omega arith
scaled-four (a ∷ []) h = omega arith
scaled-four (a ∷ b ∷ []) h = omega arith
scaled-four (a ∷ b ∷ c ∷ []) h = omega arith
scaled-four (a ∷ b ∷ c ∷ d ∷ []) h = omega arith
scaled-four (a ∷ b ∷ c ∷ d ∷ e ∷ s) h = absurd (ground arith)

parse_parts-lt :
    (parts : List Text) {bs : List ℕ}
    → parse_parts parts ≡ ok bs
    → (length bs ≡ length parts) × All (λ b. b < 10000) bs
unfolding parse_parts
parse_parts-lt [] h =
    subst (λ bs. (length bs ≡ 0) × All (λ b. b < 10000) bs) (ok-injective h) (refl, tt)
parse_parts-lt (s ∷ parts) {bs} h = elim (Bool-cases (is_day_count s)) [
  | inr other ↦ absurd (cc (rw other at h))
  | inl counts ↦
      unbind (parse_parts parts) (λ rest. ok (number_of 0 s ∷ rest)) (rw counts at h)
        λ rest parsed made.
          let digits : all is_digit s ≡ true = ground arith in
          let short : leb (length s) 4 ≡ true = ground arith in
          let (same_length, small) = parse_parts-lt parts parsed in
          subst (λ bs. (length bs ≡ suc (length parts)) × All (λ b. b < 10000) bs)
            (ok-injective made)
            (
              ap (λ n. suc n) same_length,
              (omega (arith, number_of-lt 0 s 1 digits (omega arith), scaled-four s short), small),
            )
]

-- A list of boundaries that is read is not empty, and no boundary has more than four digits.
pub parse_boundaries-lt :
    (raw : Text) {bs : List ℕ}
    → parse_boundaries raw ≡ ok bs
    → (0 < length bs) × All (λ b. b < 10000) bs
unfolding parse_boundaries
parse_boundaries-lt raw {bs} h =
    let parsed : parse_parts (parts_of raw) ≡ ok bs = ground arith in
    let some_part : (length (parts_of raw) == 0) ≡ false = ground arith in
    let (same_length, small) = parse_parts-lt (parts_of raw) parsed in
    (ground (arith, same_length, some_part), small)
