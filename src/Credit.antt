-- ===== src/Credit.antt =====
-- src/common/utils/credit-control.util.ts: the exposure of a customer, and the check of the credit
-- limit where goods leave or an invoice posts. The sums that the query reads are the fields of a
-- row; the audit trail is a list of events.
pub mod Advance
use fin_matrix_backend.Prelude.{
  ℕ, Bool, true, false, not, Option, none, some, List, [], ◌∷◌, ◌++◌, ltb, if◌then◌else◌, length,
  Result, ok, err, ◌>>=◌, ◌>>◌, throw_if,
}
use fin_matrix_backend.Prelude.Int.{ℤ, pos, ◌+ℤ◌, ◌-ℤ◌, ltb_ℤ, leb_ℤ, max_ℤ}
use fin_matrix_backend.Money.{Decimals, to_decimal}
use fin_matrix_backend.Aging.Request.{Text, trim_start, trim_end}

-- What the query returns for a customer.
pub record CreditRow : Type 0 where
  pub limit : ℤ
  pub open_invoices : ℤ
  pub in_transit : ℤ
  pub shipped : ℤ
  pub advances : ℤ
  pub credits : ℤ

-- A customer that is not there owes nothing and has no limit.
abbrev pub no_row : CreditRow
no_row = record {
  limit = pos 0;
  open_invoices = pos 0;
  in_transit = pos 0;
  shipped = pos 0;
  advances = pos 0;
  credits = pos 0;
}

abbrev pub row_or_none : Option CreditRow → CreditRow
row_or_none none = no_row
row_or_none (some row) = row

pub record CreditAssessment : Type 0 where
  pub limited : Bool
  pub limit : ℤ
  pub exposure : ℤ
  pub excess : ℤ
  pub required_advance : ℤ
  pub within_limit : Bool

pub data Role : Type 0 where
  admin staff : Role

pub record CreditOverride : Type 0 where
  pub reason : Text
  pub user_id : ℕ
  pub role : Role

pub record AuditEvent : Type 0 where
  pub company_id : ℕ
  pub actor_user_id : ℕ
  pub target_id : Option ℕ
  pub reason : Text
  pub assessment : CreditAssessment

pub data CreditError : Type 0 where
  override_owner_only override_reason_required limit_exceeded : CreditError

abbrev pub exposure_of : CreditRow → ℤ → ℤ
exposure_of row adds =
    row.open_invoices +ℤ row.in_transit +ℤ row.shipped -ℤ row.advances -ℤ row.credits +ℤ adds

abbrev pub excess_of : CreditRow → ℤ → ℤ
excess_of row adds =
    if ltb_ℤ (pos 0) row.limit then max_ℤ (exposure_of row adds -ℤ row.limit) (pos 0) else pos 0

abbrev pub is_admin : Role → Bool
is_admin admin = true
is_admin staff = false

module _ (lib : Decimals) where
  open lib use {to_fixed}

  unfoldable pub assess_credit : Option CreditRow → ℤ → CreditAssessment
  assess_credit found adds =
      let row = row_or_none found in
      record {
        limited = ltb_ℤ (pos 0) row.limit;
        limit = to_fixed row.limit;
        exposure = to_fixed (exposure_of row adds);
        excess = to_fixed (excess_of row adds);
        required_advance = to_fixed (excess_of row adds);
        within_limit = leb_ℤ (excess_of row adds) (pos 0);
      }

  -- The assessment, and the audit trail after the call.
  unfoldable pub enforce_credit_limit :
      ℕ
      → Option CreditRow
      → ℤ
      → Option ℕ
      → Option CreditOverride
      → List AuditEvent
      → Result CreditError (CreditAssessment × List AuditEvent)
  unfolding assess_credit
  enforce_credit_limit company_id found adds target_id override trail =
      let assessment = assess_credit found adds in
      if assessment.within_limit then ok (assessment, trail) else elim override [
        | none ↦ err limit_exceeded
        | some o ↦
            throw_if (not (is_admin o.role)) override_owner_only
            >> (throw_if (ltb (length (trim_end (trim_start o.reason))) 5) override_reason_required
                >> ok (
                  assessment,
                  trail
                      ++ (record {
                        company_id = company_id;
                        actor_user_id = o.user_id;
                        target_id = target_id;
                        reason = trim_end (trim_start o.reason);
                        assessment = assessment;
                      }
                          ∷ []),
                ))
      ]
