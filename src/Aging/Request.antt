-- ===== src/Aging/Request.antt =====
-- `parseBoundaries` and `resolveAgingSpec` of src/modules/reports/aging-buckets.ts. Text is a list
-- of code units.
pub mod Resolved
use fin_matrix_backend.Prelude.{
  ℕ, suc, ◌+◌, ◌*◌, ◌-◌, Bool, true, false, not, ◌&&◌, ◌||◌, Option, none, some, List, [], ◌∷◌, map,
  ltb, leb, ◌==◌, if◌then◌else◌, length, filter, any, all, or_else, Result, ok, err, ◌>>=◌, ◌>>◌,
  throw_if,
}
use fin_matrix_backend.Aging.{
  AgingBucketDef, AgingError, no_boundaries, not_whole_days, custom_without_buckets, unknown_preset,
  build_bucket_spec,
}

abbrev pub Text : Type 0
Text = List ℕ

-- The blanks that `trim` takes off.
abbrev pub is_space : ℕ → Bool
is_space c =
    (leb 9 c && leb c 13)
    || (leb 8192 c && leb c 8202)
    || any (λ d. c == d) (32 ∷ 160 ∷ 5760 ∷ 8232 ∷ 8233 ∷ 8239 ∷ 8287 ∷ 12288 ∷ 65279 ∷ [])

abbrev pub is_digit : ℕ → Bool
is_digit c = leb 48 c && leb c 57

-- `split(',')`: the part before the first comma, and the parts after it.
abbrev pub split_parts : Text → Text × List Text
split_parts [] = ([], [])
split_parts (c ∷ cs) =
    let (part, parts) = split_parts cs in if c == 44 then ([], part ∷ parts) else (c ∷ part, parts)

abbrev pub trim_start : Text → Text
trim_start [] = []
trim_start (c ∷ cs) = let rest = trim_start cs in if is_space c then rest else c ∷ cs

abbrev pub is_blank : Text → Bool
is_blank = all is_space

abbrev pub trim_end : Text → Text
trim_end [] = []
trim_end (c ∷ cs) = let rest = trim_end cs in if is_blank (c ∷ cs) then [] else c ∷ rest

abbrev pub parts_of : Text → List Text
parts_of raw =
    filter (λ s. ltb 0 (length s))
      (map (λ s. trim_end (trim_start s)) ((split_parts raw).0 ∷ (split_parts raw).1))

-- `Number` of digits, most significant first.
abbrev pub number_of : ℕ → Text → ℕ
number_of n [] = n
number_of n (c ∷ cs) = number_of (n * 10 + (c - 48)) cs

-- One to four digits.
abbrev pub is_day_count : Text → Bool
is_day_count s = leb 1 (length s) && leb (length s) 4 && all is_digit s

unfoldable pub parse_parts : List Text → Result AgingError (List ℕ)
parse_parts [] = ok []
parse_parts (s ∷ parts) =
    throw_if (not (is_day_count s)) not_whole_days
    >> (parse_parts parts >>= λ rest. ok (number_of 0 s ∷ rest))

unfoldable pub parse_boundaries : Text → Result AgingError (List ℕ)
unfolding parse_parts
parse_boundaries raw =
    throw_if (length (parts_of raw) == 0) no_boundaries >> parse_parts (parts_of raw)

-- `unknown` is a text that is no preset.
pub data AgingPresetKey : Type 0 where
  days3 weekly biweekly monthly custom unknown : AgingPresetKey

-- AGING_PRESETS.
abbrev pub aging_presets : AgingPresetKey → Option (List ℕ)
aging_presets days3 = some (3 ∷ 6 ∷ 9 ∷ 12 ∷ [])
aging_presets weekly = some (7 ∷ 14 ∷ 21 ∷ 28 ∷ [])
aging_presets biweekly = some (14 ∷ 28 ∷ 42 ∷ 56 ∷ [])
aging_presets monthly = some (30 ∷ 60 ∷ 90 ∷ [])
aging_presets _ = none

pub record AgingSpecRequest : Type 0 where
  pub preset : Option AgingPresetKey
  pub buckets : Option Text

pub record ResolvedAgingSpec : Type 0 where
  pub preset : AgingPresetKey
  pub boundaries : List ℕ
  pub spec : List AgingBucketDef

abbrev pub resolved : AgingPresetKey → List ℕ → Result AgingError ResolvedAgingSpec
resolved preset boundaries = do
  spec ← build_bucket_spec boundaries
  ok (record { preset = preset; boundaries = boundaries; spec = spec })

abbrev pub custom_spec : Text → Result AgingError ResolvedAgingSpec
custom_spec raw = do boundaries ← parse_boundaries raw; resolved custom boundaries

-- A text that is there and not empty.
abbrev pub given : Option Text → Option Text
given none = none
given (some []) = none
given (some (c ∷ cs)) = some (c ∷ cs)

abbrev pub found :
    Result AgingError ResolvedAgingSpec → Result AgingError (Option ResolvedAgingSpec)
found r = r >>= λ x. ok (some x)

abbrev pub pick_preset : AgingPresetKey → Option Text → Result AgingError (Option ResolvedAgingSpec)
pick_preset custom buckets = elim (given buckets) [
  | none ↦ err custom_without_buckets
  | some raw ↦ found (custom_spec raw)
]
pick_preset key buckets = elim (aging_presets key) [
  | none ↦ err unknown_preset
  | some boundaries ↦ found (resolved key boundaries)
]

-- Boundaries with no preset named.
abbrev pub pick_buckets : Option Text → Result AgingError (Option ResolvedAgingSpec)
pick_buckets buckets = elim (given buckets) [ none ↦ ok none | some raw ↦ found (custom_spec raw) ]

unfoldable pub pick : Option AgingSpecRequest → Result AgingError (Option ResolvedAgingSpec)
unfolding build_bucket_spec parse_boundaries
pick none = ok none
pick (some src) = elim src.preset [
  | some key ↦ pick_preset key src.buckets
  | none ↦ pick_buckets src.buckets
]

-- The saved preference, whose errors are caught.
unfoldable pub from_saved : Option AgingSpecRequest → Option ResolvedAgingSpec
unfolding pick
from_saved saved = elim (pick saved) [ err _ ↦ none | ok r ↦ r ]

-- DEFAULT_PRESET, where nothing is saved either.
abbrev pub or_default : Option ResolvedAgingSpec → Result AgingError ResolvedAgingSpec
or_default (some r) = ok r
or_default none = resolved monthly (30 ∷ 60 ∷ 90 ∷ [])

unfoldable pub resolve_aging_spec :
    Option AgingSpecRequest → Option AgingSpecRequest → Result AgingError ResolvedAgingSpec
unfolding pick
resolve_aging_spec request saved = do
  picked ← pick request
  elim picked [ some r ↦ ok r | none ↦ or_default (from_saved saved) ]
