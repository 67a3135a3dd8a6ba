-- ===== src/Listing/Services.antt =====
-- api/cyberstorm/services/package_listing.py. The cached answers that the services drop are left
-- out.
use thunderstore.Prelude.{
  ℕ, true, false, not, Option, some, List, Refusal, Result, ◌>>=◌, ◌>>◌, raise_if, Failure, lift,
  permission, ok, Text,
}
use thunderstore.Package.{PackageListing, Package, deactivate}
use thunderstore.Listing.{
  AuditEvent, clear_review_request, reject, approve, ensure_update_categories_permission,
  update_categories,
}
use thunderstore.Team.{Team, Db}
use thunderstore.Community.{ensure_user_can_moderate_packages}
use thunderstore.Permissions.{User, validate_user}

abbrev pub Reviewed : Type 0
Reviewed = PackageListing × List AuditEvent

unfoldable pub reject_package_listing :
    User → Text → Option Text → PackageListing → Result Failure Reviewed
reject_package_listing agent reason notes l = do
  lift (ensure_user_can_moderate_packages l.community (some agent))
  (l', events) ← reject (some agent) reason false notes true l
  ok (clear_review_request l', events)

unfoldable pub approve_package_listing :
    User → Option Text → PackageListing → Result Failure Reviewed
approve_package_listing agent notes l = do
  lift (ensure_user_can_moderate_packages l.community (some agent))
  (l', events) ← approve (some agent) false notes l
  ok (clear_review_request l', events)

-- The service checks the permission, and the method checks it once more.
unfoldable pub update_listing_categories :
    Db → Team → User → List (ℕ × ℕ) → PackageListing → Result Refusal PackageListing
update_listing_categories db team agent categories l = do
  ensure_update_categories_permission db team l (some agent)
  update_categories db team agent categories l

unfoldable pub unlist_package_listing : User → Package → Result Refusal Package
unfolding deactivate
unlist_package_listing agent p = do
  user ← validate_user (some agent) false
  raise_if (not user.is_superuser) (permission "Only superusers can unlist packages")
  ok (deactivate p)
