-- ===== src/CompanyStatus.antt =====
-- src/common/utils/company-status.util.ts: the account status of a company, and the live check of
-- its subscription. Dates are milliseconds; an expiry date that is no date is `invalid`.
pub mod Access
use fin_matrix_backend.Prelude.{
  ℕ, Bool, true, false, Option, none, some, leb, if◌then◌else◌, ◌&&◌, or_else,
}

pub data AccountStatus : Type 0 where
  draft pending active inactive rejected : AccountStatus

-- The text that the column holds; `other` is any that the switch does not name, `empty` is ''.
pub data RawStatus : Type 0 where
  raw_active approved raw_rejected raw_inactive suspended email_verified empty other : RawStatus

pub data Plan : Type 0 where
  free paid : Plan

pub data PaymentStatus : Type 0 where
  submitted settled : PaymentStatus

pub data ExpiryDate : Type 0 where
  invalid : ExpiryDate
  at : ℕ → ExpiryDate

pub record Company : Type 0 where
  pub status : Option RawStatus
  pub subscription_plan : Option Plan
  pub subscription_expiry_date : Option ExpiryDate
  pub payment_status : Option PaymentStatus

abbrev pub normalize_raw : RawStatus → AccountStatus
normalize_raw empty = active
normalize_raw raw_active = active
normalize_raw approved = active
normalize_raw raw_rejected = rejected
normalize_raw raw_inactive = inactive
normalize_raw suspended = inactive
normalize_raw email_verified = draft
normalize_raw other = pending

abbrev pub normalize_company_status : Option RawStatus → AccountStatus
normalize_company_status none = active
normalize_company_status (some raw) = normalize_raw raw

abbrev pub is_active_status : AccountStatus → Bool
is_active_status active = true
is_active_status _ = false

abbrev pub is_draft_status : AccountStatus → Bool
is_draft_status draft = true
is_draft_status _ = false

abbrev pub is_company_draft : Option RawStatus → Bool
is_company_draft raw = is_draft_status (normalize_company_status raw)

abbrev pub is_company_active : Option RawStatus → Bool
is_company_active raw = is_active_status (normalize_company_status raw)

abbrev pub is_free : Plan → Bool
is_free free = true
is_free paid = false

abbrev pub is_past : Option ExpiryDate → ℕ → Bool
is_past none now = false
is_past (some invalid) now = false
is_past (some (at t)) now = leb t now

unfoldable pub is_subscription_expired : Company → ℕ → Bool
is_subscription_expired company now =
    if is_free (or_else company.subscription_plan free)
    then false
    else is_past company.subscription_expiry_date now

abbrev pub is_submitted : Option PaymentStatus → Bool
is_submitted (some submitted) = true
is_submitted _ = false

-- A company that is missing has no status, which counts as active.
unfoldable pub effective_company_status : Option Company → ℕ → AccountStatus
unfolding is_subscription_expired
effective_company_status none now = active
effective_company_status (some company) now =
    let status = normalize_company_status company.status in
    if is_active_status status && is_subscription_expired company now
    then inactive
    else if is_draft_status status && is_submitted company.payment_status
    then pending
    else status
