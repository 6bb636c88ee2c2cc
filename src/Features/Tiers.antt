-- ===== src/Features/Tiers.antt =====
-- Upgrades, and whom the guard turns away.
use fin_matrix_backend.Prelude.{
  ℕ, ◌≤◌, ◌≡◌, refl, Bool, true, false, not, ◌||◌, Option, none, some, Result, ok, err,
  if◌then◌else◌, arith,
}
use fin_matrix_backend.Features.{
  CompanyType, small_business, large_org, warehouse, RawCompanyType, named, unknown, FeatureKey,
  estimates, journal_entries, credit_memos, bank_reconciliation, multi_user, audit_log,
  period_close, payroll, budgets, inventory, purchase_orders, sales_orders, agencies, delivery,
  whatsapp_connect, feature_map, effective, CompanyFeatureSource, compute_features, CompanyRow,
  source_of, company_id_of, can_activate, feature_not_available, of_type, as_company_type,
  check_company, GuardError,
}

-- The types in the order in which a company grows.
abbrev pub tier : CompanyType → ℕ
tier small_business = 0
tier large_org = 1
tier warehouse = 2

-- Whether the table gives a feature to a type, for a company with this choice on inventory.
abbrev pub is_on : CompanyType → Bool → FeatureKey → Bool
is_on t e k = effective (feature_map t k) e

small_in_large :
    (k : FeatureKey) (e : Bool) → is_on small_business e k ≡ true → is_on large_org e k ≡ true
small_in_large estimates e on = refl
small_in_large journal_entries e on = refl
small_in_large credit_memos e on = refl
small_in_large bank_reconciliation e on = refl
small_in_large multi_user e on = refl
small_in_large audit_log e on = refl
small_in_large period_close e on = refl
small_in_large payroll e on = refl
small_in_large budgets e on = refl
small_in_large inventory e on = on
small_in_large purchase_orders e on = on
small_in_large sales_orders e on = on
small_in_large agencies e on = on
small_in_large delivery e on = on
small_in_large whatsapp_connect e on = refl

warehouse_all : (k : FeatureKey) (e : Bool) → is_on warehouse e k ≡ true
warehouse_all estimates e = refl
warehouse_all journal_entries e = refl
warehouse_all credit_memos e = refl
warehouse_all bank_reconciliation e = refl
warehouse_all multi_user e = refl
warehouse_all audit_log e = refl
warehouse_all period_close e = refl
warehouse_all payroll e = refl
warehouse_all budgets e = refl
warehouse_all inventory e = refl
warehouse_all purchase_orders e = refl
warehouse_all sales_orders e = refl
warehouse_all agencies e = refl
warehouse_all delivery e = refl
warehouse_all whatsapp_connect e = refl

is_on_upgrade :
    (lower upper : CompanyType) (k : FeatureKey) (e : Bool)
    → tier lower ≤ tier upper
    → is_on lower e k ≡ true
    → is_on upper e k ≡ true
is_on_upgrade small_business small_business k e order on = on
is_on_upgrade small_business large_org k e order on = small_in_large k e on
is_on_upgrade lower warehouse k e order on = warehouse_all k e
is_on_upgrade large_org large_org k e order on = on
is_on_upgrade large_org small_business k e order on = absurd (omega arith)
is_on_upgrade warehouse small_business k e order on = absurd (omega arith)
is_on_upgrade warehouse large_org k e order on = absurd (omega arith)

abbrev pub upgraded : CompanyFeatureSource → CompanyType → CompanyFeatureSource
upgraded src t = record src { company_type = some (named t) }

-- A company that moves to a larger type keeps every feature that it has, whatever its switches
-- and its choice on inventory.
pub compute_features_upgrade :
    (disabled : Bool) (src : CompanyFeatureSource) (lower upper : CompanyType) (k : FeatureKey)
    → tier lower ≤ tier upper
    → compute_features disabled (upgraded src lower) k ≡ true
    → compute_features disabled (upgraded src upper) k ≡ true
unfolding compute_features
compute_features_upgrade disabled src lower upper k order =
    by_switch (src.all_features_unlocked || disabled)
  where
    by_switch :
        (b : Bool)
        → (if b then true else is_on lower src.inventory_enabled k) ≡ true
        → (if b then true else is_on upper src.inventory_enabled k) ≡ true
    by_switch true on = refl
    by_switch false on = is_on_upgrade lower upper k src.inventory_enabled order on

-- What a refusal for the plan is about: nothing is unlocked, and the type of the company is known
-- and does not have the feature.
abbrev pub IsOutsidePlan : Bool → CompanyFeatureSource → FeatureKey → Type 0
IsOutsidePlan disabled src k =
    (disabled ≡ false)
    × (src.all_features_unlocked ≡ false)
    × ((t : CompanyType) × (src.company_type ≡ some (named t))
        × (is_on t src.inventory_enabled k ≡ false))

typed_and_off :
    (disabled : Bool) (raw : Option RawCompanyType) (e unlocked : Bool) (k : FeatureKey)
    → (if unlocked || disabled then true else of_type (as_company_type raw) e k) ≡ false
    → IsOutsidePlan disabled
        (record { company_type = raw; inventory_enabled = e; all_features_unlocked = unlocked })
        k
typed_and_off disabled raw e true k off = absurd (cc off)
typed_and_off true raw e false k off = absurd (cc off)
typed_and_off false none e false k off = absurd (cc off)
typed_and_off false (some unknown) e false k off = absurd (cc off)
typed_and_off false (some (named t)) e false k off = (refl, refl, (t, refl, off))

compute_features-off :
    (disabled : Bool) (src : CompanyFeatureSource) (k : FeatureKey)
    → compute_features disabled src k ≡ false
    → IsOutsidePlan disabled src k
unfolding compute_features
compute_features-off disabled src k =
    typed_and_off disabled src.company_type src.inventory_enabled src.all_features_unlocked k

refused :
    (b : Bool)
    → ◌≡◌ {A = Result GuardError Bool}
        (if not b then err feature_not_available else ok true)
        (err feature_not_available)
    → b ≡ false
refused true h = absurd (cc h)
refused false h = refl

check_company_refused :
    (disabled : Bool) (rows : ℕ → Option CompanyRow) (k : FeatureKey) (company : Option ℕ)
    → check_company disabled rows k company ≡ err feature_not_available
    → (id : ℕ) × (company ≡ some id) × IsOutsidePlan disabled (source_of (rows id)) k
check_company_refused disabled rows k none h = absurd (cc h)
check_company_refused disabled rows k (some id) h = (
  id,
  refl,
  compute_features-off disabled (source_of (rows id)) k
      (refused (compute_features disabled (source_of (rows id)) k) h),
)

-- The guard answers that the plan lacks the feature only to a request that has a company, when the
-- global switch and the company's own are off, and the company has one of the three types, to
-- which the table does not give the feature: nobody is refused for a value that is missing.
pub can_activate_refused :
    (disabled : Bool) (rows : ℕ → Option CompanyRow) (k : FeatureKey) (request user : Option ℕ)
    → can_activate disabled rows (some k) request user ≡ err feature_not_available
    → (id : ℕ) × (company_id_of request user ≡ some id)
      × IsOutsidePlan disabled (source_of (rows id)) k
unfolding can_activate
can_activate_refused disabled rows k request user =
    check_company_refused disabled rows k (company_id_of request user)
