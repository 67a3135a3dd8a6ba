-- ===== src/Reports.antt =====
-- ts_reports/models/package_report.py, and `report_package_listing` of
-- api/cyberstorm/services/package_listing.py.
pub mod Reported
use thunderstore.Prelude.{
  ℕ, Bool, true, false, not, Option, none, some, List, [], ◌∷◌, ◌++◌, ◌==ℕ◌, select, Refusal,
  Result, ◌>>=◌, ◌>>◌, raise_if, validation, ok, Text, codes,
}
use thunderstore.Permissions.{User, validate_user}

-- A listing or a version, with the key of its package
pub record ReportTarget : Type 0 where
  pub pk : ℕ
  pub package_id : ℕ

pub record PackageReport : Type 0 where
  pub is_active : Bool
  pub category : Text
  pub reason : Text
  pub submitted_by : Option ℕ
  pub is_automated : Bool
  pub package_id : ℕ
  pub package_listing : Option ReportTarget
  pub package_version : Option ReportTarget
  pub description : Option Text

-- `ActiveManager.active`
unfoldable pub active_reports : List PackageReport → List PackageReport
active_reports reports = select (λ (r : PackageReport). r.is_active) reports

abbrev pub check_package : ℕ → Option ReportTarget → Result Refusal (Unit {0})
check_package package_id none = ok tt
check_package package_id (some t) =
    raise_if (not (t.package_id ==ℕ package_id)) (validation "Package mismatch!")

unfoldable pub validate : PackageReport → Result Refusal (Unit {0})
validate r = do
  check_package r.package_id r.package_listing
  check_package r.package_id r.package_version

-- `save` of a new report
unfoldable pub save : PackageReport → List PackageReport → Result Refusal (List PackageReport)
unfolding validate
save r reports = do validate r; ok (reports ++ r ∷ [])

-- The report that `handle_user_report` creates
abbrev pub user_report :
    Text → User → ℕ → Option ReportTarget → Option ReportTarget → Option Text → PackageReport
user_report reason submitted_by package_id package_listing package_version description = record {
  is_active = true;
  category = codes "UserReport";
  reason = reason;
  submitted_by = some submitted_by.pk;
  is_automated = false;
  package_id = package_id;
  package_listing = package_listing;
  package_version = package_version;
  description = description;
}

unfoldable pub handle_user_report :
    Text
    → User
    → ℕ
    → Option ReportTarget
    → Option ReportTarget
    → Option Text
    → List PackageReport
    → Result Refusal (List PackageReport)
unfolding save
handle_user_report reason submitted_by package_id package_listing package_version description
      reports =
    save (user_report reason submitted_by package_id package_listing package_version description)
      reports

unfoldable pub report_package_listing :
    Option User
    → Text
    → ℕ
    → Option ReportTarget
    → Option ReportTarget
    → Option Text
    → List PackageReport
    → Result Refusal (List PackageReport)
unfolding handle_user_report
report_package_listing agent reason package_id package_listing package_version description reports =
    do
      user ← validate_user agent false
      handle_user_report reason user package_id package_listing package_version description reports
