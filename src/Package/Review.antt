-- ===== src/Package/Review.antt =====
-- The review of a version: `reject`, `approve` and their checks in
-- repository/models/package_version.py.
use thunderstore.Prelude.{
  ℕ, ◌≡◌, Bool, false, ◌&&◌, ◌||◌, Option, none, some, List, [], ◌∷◌, arith, if◌then◌else◌, Result,
  Failure, ok, err, permission_error, Text,
}
use thunderstore.Package.{PackageVersion, Package, full_package_name}
use thunderstore.Listing.{AuditAction, audit_approved, audit_rejected}
use thunderstore.Community.{approved, rejected}
use thunderstore.Permissions.{User}

-- The event, less its timestamp and its address
pub record VersionEvent : Type 0 where
  pub action : AuditAction
  pub user_id : Option ℕ
  pub message : Option Text
  pub package_name : Text

unfoldable pub can_user_manage_approval_status : Option User → Bool
can_user_manage_approval_status none = false
can_user_manage_approval_status (some u) = u.is_authenticated && u.is_superuser

unfoldable pub build_version_event :
    Package → AuditAction → Option User → Option Text → VersionEvent
unfolding full_package_name
build_version_event p action agent message = record {
  action = action;
  user_id = elim agent [ none ↦ none | some u ↦ some u.pk ];
  message = message;
  package_name = full_package_name p;
}

unfoldable pub reject_version :
    Option User
    → Bool
    → Option Text
    → Package
    → PackageVersion
    → Result Failure (PackageVersion × List VersionEvent)
unfolding can_user_manage_approval_status build_version_event
reject_version agent is_system message p v =
    if is_system || can_user_manage_approval_status agent
    then ok (
      record v { review_status = rejected },
      build_version_event p audit_rejected agent message ∷ [],
    )
    else err permission_error

unfoldable pub approve_version :
    Option User
    → Bool
    → Option Text
    → Package
    → PackageVersion
    → Result Failure (PackageVersion × List VersionEvent)
unfolding can_user_manage_approval_status build_version_event
approve_version agent is_system message p v =
    if is_system || can_user_manage_approval_status agent
    then ok (
      record v { review_status = approved },
      build_version_event p audit_approved agent message ∷ [],
    )
    else err permission_error

-- A later review of a version by the same agent settles its status, whatever the earlier one was.
pub approve_version-reject_version :
    (agent : Option User) (is_system : Bool) (message notes : Option Text) (p : Package)
    (v w : PackageVersion) (events : List VersionEvent)
    → reject_version agent is_system message p v ≡ ok (w, events)
    → approve_version agent is_system notes p w ≡ approve_version agent is_system notes p v
unfolding reject_version approve_version
approve_version-reject_version agent is_system message notes p v w events h = ground arith
