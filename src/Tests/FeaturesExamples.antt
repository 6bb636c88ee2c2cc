-- ===== src/Tests/FeaturesExamples.antt =====
-- Two companies and their routes: what they reach, and the theorems on features applied to them.
use fin_matrix_backend.Prelude.{
  ℕ, suc, zero, ◌≡◌, refl, true, false, Option, none, some, ok, err, arith,
}
use fin_matrix_backend.Features.{
  small_business, large_org, named, unknown, payroll, estimates, inventory, compute_features,
  CompanyRow, source_of, company_id_of, can_activate, feature_not_available, not_company_member,
}
use fin_matrix_backend.Features.Tiers.{
  upgraded, IsOutsidePlan, compute_features_upgrade, can_activate_refused,
}

abbrev corner_shop : CompanyRow
corner_shop = record {
  company_type = some (named small_business);
  inventory_enabled = none;
  all_features_unlocked = some false;
}

abbrev old_customer : CompanyRow
old_customer = record {
  company_type = some unknown;
  inventory_enabled = none;
  all_features_unlocked = none;
}

-- The shop has id 1, the old customer any other.
abbrev companies : ℕ → Option CompanyRow
companies (suc zero) = some corner_shop
companies _ = some old_customer

shop_has_no_payroll :
    can_activate false companies (some payroll) none (some 1) ≡ err feature_not_available
unfolding can_activate compute_features
shop_has_no_payroll = refl

old_customer_keeps_payroll : can_activate false companies (some payroll) (some 2) (some 1) ≡ ok true
unfolding can_activate compute_features
old_customer_keeps_payroll = refl

switch_opens_all : can_activate true companies (some inventory) none (some 1) ≡ ok true
unfolding can_activate compute_features
switch_opens_all = refl

stranger_is_refused :
    can_activate true companies (some estimates) none none ≡ err not_company_member
unfolding can_activate
stranger_is_refused = refl

shop_has_estimates :
    compute_features false (upgraded (source_of (some corner_shop)) small_business) estimates ≡ true
unfolding compute_features
shop_has_estimates = refl

compute_features_upgrade_example :
    compute_features false (upgraded (source_of (some corner_shop)) large_org) estimates ≡ true
compute_features_upgrade_example =
    compute_features_upgrade false (source_of (some corner_shop)) small_business large_org estimates
      (omega arith) shop_has_estimates

can_activate_refused_example :
    (id : ℕ) × (company_id_of none (some 1) ≡ some id)
    × IsOutsidePlan false (source_of (companies id)) payroll
can_activate_refused_example =
    can_activate_refused false companies payroll none (some 1) shop_has_no_payroll
