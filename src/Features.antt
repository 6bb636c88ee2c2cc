-- ===== src/Features.antt =====
-- src/common/features/feature-map.ts and feature.guard.ts: the feature areas that each type of company
-- reaches, and the guard of the routes that belong to one. The global switch FEATURES_DISABLED is an
-- argument, true when the variable is 'true'.
pub mod Tiers
use fin_matrix_backend.Prelude.{
  ℕ, Bool, true, false, not, ◌||◌, Option, none, some, or_else, Result, ok, err, if◌then◌else◌,
}

pub data CompanyType : Type 0 where
  small_business large_org warehouse : CompanyType

-- The text of the column: one of the three names, or any other.
pub data RawCompanyType : Type 0 where
  named : CompanyType → RawCompanyType
  unknown : RawCompanyType

pub data FeatureKey : Type 0 where
  estimates : FeatureKey
  journal_entries : FeatureKey
  credit_memos : FeatureKey
  bank_reconciliation : FeatureKey
  multi_user : FeatureKey
  audit_log : FeatureKey
  period_close : FeatureKey
  payroll : FeatureKey
  budgets : FeatureKey
  inventory : FeatureKey
  purchase_orders : FeatureKey
  sales_orders : FeatureKey
  agencies : FeatureKey
  delivery : FeatureKey
  whatsapp_connect : FeatureKey

pub data FeatureSetting : Type 0 where
  fixed : Bool → FeatureSetting
  toggle : FeatureSetting

abbrev pub feature_map : CompanyType → FeatureKey → FeatureSetting
feature_map small_business estimates = fixed true
feature_map small_business journal_entries = fixed true
feature_map small_business credit_memos = fixed true
feature_map small_business bank_reconciliation = fixed true
feature_map small_business multi_user = fixed true
feature_map small_business audit_log = fixed false
feature_map small_business period_close = fixed false
feature_map small_business payroll = fixed false
feature_map small_business budgets = fixed false
feature_map small_business inventory = fixed false
feature_map small_business purchase_orders = fixed false
feature_map small_business sales_orders = fixed false
feature_map small_business agencies = fixed false
feature_map small_business delivery = fixed false
feature_map small_business whatsapp_connect = fixed false
feature_map large_org estimates = fixed true
feature_map large_org journal_entries = fixed true
feature_map large_org credit_memos = fixed true
feature_map large_org bank_reconciliation = fixed true
feature_map large_org multi_user = fixed true
feature_map large_org audit_log = fixed true
feature_map large_org period_close = fixed true
feature_map large_org payroll = fixed true
feature_map large_org budgets = fixed true
feature_map large_org inventory = fixed false
feature_map large_org purchase_orders = fixed false
feature_map large_org sales_orders = fixed false
feature_map large_org agencies = fixed false
feature_map large_org delivery = fixed false
feature_map large_org whatsapp_connect = fixed true
feature_map warehouse estimates = fixed true
feature_map warehouse journal_entries = fixed true
feature_map warehouse credit_memos = fixed true
feature_map warehouse bank_reconciliation = fixed true
feature_map warehouse multi_user = fixed true
feature_map warehouse audit_log = fixed true
feature_map warehouse period_close = fixed true
feature_map warehouse payroll = fixed true
feature_map warehouse budgets = fixed true
feature_map warehouse inventory = fixed true
feature_map warehouse purchase_orders = fixed true
feature_map warehouse sales_orders = fixed true
feature_map warehouse agencies = fixed true
feature_map warehouse delivery = fixed true
feature_map warehouse whatsapp_connect = fixed true

pub record CompanyFeatureSource : Type 0 where
  pub company_type : Option RawCompanyType
  pub inventory_enabled : Bool
  pub all_features_unlocked : Bool

abbrev pub as_company_type : Option RawCompanyType → Option CompanyType
as_company_type (some (named t)) = some t
as_company_type _ = none

abbrev pub effective : FeatureSetting → Bool → Bool
effective toggle enabled = enabled
effective (fixed b) enabled = b

-- The features of a company of a type: all of them when there is no type.
abbrev pub of_type : Option CompanyType → Bool → FeatureKey → Bool
of_type none enabled k = true
of_type (some t) enabled k = effective (feature_map t k) enabled

unfoldable pub compute_features : Bool → CompanyFeatureSource → FeatureKey → Bool
compute_features disabled src k =
    if src.all_features_unlocked || disabled
    then true
    else of_type (as_company_type src.company_type) src.inventory_enabled k

pub data GuardError : Type 0 where
  not_company_member feature_not_available : GuardError

pub record CompanyRow : Type 0 where
  pub company_type : Option RawCompanyType
  pub inventory_enabled : Option Bool
  pub all_features_unlocked : Option Bool

abbrev pub source_of : Option CompanyRow → CompanyFeatureSource
source_of none = record {
  company_type = none;
  inventory_enabled = false;
  all_features_unlocked = false;
}
source_of (some row) = record {
  company_type = row.company_type;
  inventory_enabled = or_else row.inventory_enabled false;
  all_features_unlocked = or_else row.all_features_unlocked false;
}

-- The company of the request, else that of the user.
abbrev pub company_id_of : Option ℕ → Option ℕ → Option ℕ
company_id_of (some id) user = some id
company_id_of none user = user

abbrev pub check_feature : Bool → Option CompanyRow → FeatureKey → Result GuardError Bool
check_feature disabled row feature =
    if not (compute_features disabled (source_of row) feature)
    then err feature_not_available
    else ok true

-- The feature check for the company at hand, whose row `rows` looks up.
abbrev pub check_company :
    Bool → (ℕ → Option CompanyRow) → FeatureKey → Option ℕ → Result GuardError Bool
check_company disabled rows feature none = err not_company_member
check_company disabled rows feature (some id) = check_feature disabled (rows id) feature

-- The guard: the feature that the route declares, the company of the request and that of the user.
unfoldable pub can_activate :
    Bool
    → (ℕ → Option CompanyRow)
    → Option FeatureKey
    → Option ℕ
    → Option ℕ
    → Result GuardError Bool
can_activate disabled rows none request user = ok true
can_activate disabled rows (some feature) request user =
    check_company disabled rows feature (company_id_of request user)
