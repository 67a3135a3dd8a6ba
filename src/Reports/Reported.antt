-- ===== src/Reports/Reported.antt =====
-- Which reports are stored.
use thunderstore.Prelude.{
  ℕ, ◌≡◌, sym, ap, subst, inl, inr, false, Option, none, some, List, [], ◌∷◌, ◌++◌, arith, All,
  All-append, some_inj, Result-cases, ok, Text,
}
use thunderstore.Permissions.{User, IsEligible, validate_user-eq-ok_iff, validate_user}
use thunderstore.Reports.{
  ReportTarget, PackageReport, user_report, check_package, validate, save, handle_user_report,
  report_package_listing,
}

-- What is reported, if anything, is of the package.
abbrev pub IsOf : ℕ → Option ReportTarget → Type 0
IsOf package_id none = Unit
IsOf package_id (some t) = t.package_id ≡ package_id

abbrev pub IsValid : PackageReport → Type 0
IsValid r = IsOf r.package_id r.package_listing × IsOf r.package_id r.package_version

check_package-IsOf :
    (package_id : ℕ) (t : Option ReportTarget)
    → check_package package_id t ≡ ok tt
    → IsOf package_id t
check_package-IsOf package_id none h = tt
check_package-IsOf package_id (some t) h = ground arith

save-ok :
    (r : PackageReport) (reports reports' : List PackageReport)
    → save r reports ≡ ok reports'
    → IsValid r × (reports' ≡ reports ++ r ∷ [])
unfolding save validate
save-ok r reports reports' h = (
  (
    check_package-IsOf r.package_id r.package_listing (ground arith),
    check_package-IsOf r.package_id r.package_version (ground arith),
  ),
  ground arith,
)

-- A report of a user is stored only for an eligible user, names that user, and its listing and
-- version are of the reported package; the earlier reports stay, and all stored reports stay valid.
pub report_package_listing-IsValid :
    (agent : User) (reason : Text) (package_id : ℕ)
    (package_listing package_version : Option ReportTarget) (description : Option Text)
    (reports reports' : List PackageReport)
    → report_package_listing
        (some agent)
        reason
        package_id
        package_listing
        package_version
        description
        reports
      ≡ ok reports'
    → All IsValid reports
    → IsEligible false agent
      × (All IsValid reports'
          × ((r : PackageReport) × (reports' ≡ reports ++ r ∷ [])
              × (r.submitted_by ≡ some agent.pk)))
unfolding report_package_listing handle_user_report save validate
report_package_listing-IsValid agent reason package_id package_listing package_version description
      reports reports' h v =
    elim (Result-cases (validate_user (some agent) false)) [
      | inl (user, e) ↦
          let (given, eligible) = (validate_user-eq-ok_iff (some agent) false user).0 e in
          let report =
            user_report reason user package_id package_listing package_version description in
          let equal : user ≡ agent = sym (some_inj given) in
          let (valid, added) =
            save-ok report reports reports'
              (rw (report_package_listing, e, handle_user_report) at h) in
          (
            subst (IsEligible false) equal eligible,
            (
              rw added (All-append IsValid reports (report ∷ []) v (valid, tt)),
              (report, added, ap (λ (u : User). some u.pk) equal),
            ),
          )
      | inr (refusal, e) ↦ absurd (let k = rw (report_package_listing, e) at h in cc)
    ]
