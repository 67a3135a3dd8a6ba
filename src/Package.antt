-- ===== src/Package.antt =====
-- repository/models/package.py with the rows that hang on a package: its versions
-- (repository/models/package_version.py) and its listings (community/models/package_listing.py).
-- Cached properties are the values that they cache, and the flushing of web caches is left out.
pub mod Latest
pub mod Deprecation
pub mod Listings
pub mod Rating
pub mod Chunks
pub mod Review
pub mod Downloads
use thunderstore.Prelude.{
  ℕ, Bool, true, false, not, ◌&&◌, ◌||◌, Option, none, some, List, ◌∷◌, ◌++◌, ltb, ◌==ℕ◌,
  if◌then◌else◌, length, any, select, first, Refusal, Result, raise_if, Failure, validation, Text,
}
use thunderstore.Names.{is_package_name}
use thunderstore.Reference.{PackageReference, reference_of}
use thunderstore.Visibility.{VisibilityFlags, is_visible_by_flags}
use thunderstore.Team.{Team, Db}
use thunderstore.Community.{ReviewStatus, Community, can_moderate_packages, unreviewed, rejected}
use thunderstore.Permissions.{User}
use thunderstore.Team.Checks.{can_user_access}

pub record PackageVersion : Type 0 where
  pub pk : ℕ
  pub name : Text
  pub version_number : Text
  pub is_active : Bool
  pub review_status : ReviewStatus
  pub visibility : Option VisibilityFlags
  pub downloads : ℕ
  pub file_size : ℕ

pub record PackageListing : Type 0 where
  pub pk : ℕ
  pub community : Community
  -- the keys of its categories
  pub categories : List ℕ
  pub is_review_requested : Bool
  pub review_status : ReviewStatus
  pub rejection_reason : Option Text
  pub notes : Option Text
  pub has_nsfw_content : Bool
  pub visibility : Option VisibilityFlags

pub record Package : Type 0 where
  pub pk : ℕ
  pub owner : Team
  pub name : Text
  pub is_active : Bool
  pub is_deprecated : Bool
  pub date_updated : ℕ
  -- the key of the latest version
  pub latest : Option ℕ
  pub visibility : Option VisibilityFlags
  pub versions : List PackageVersion
  pub listings : List PackageListing

-- `Package.validate`
unfoldable pub validate_package : Package → Result Refusal (Unit {0})
validate_package p =
    raise_if (not (is_package_name p.name))
      (validation "Package names can only contain a-z A-Z 0-9 _ characters")

-- `is_effectively_active` and `is_removed`
unfoldable pub is_effectively_active : Package → Bool
is_effectively_active p =
    p.is_active && ltb 0 (length (select (λ (v : PackageVersion). v.is_active) p.versions))

unfoldable pub is_removed : Package → Bool
unfolding is_effectively_active
is_removed p = not (is_effectively_active p)

abbrev pub lists_in : Community → PackageListing → Bool
lists_in c l = l.community.pk ==ℕ c.pk

unfoldable pub get_package_listing : Package → Community → Option PackageListing
get_package_listing p c = first (lists_in c) p.listings

-- `PackageListing.is_waiting_for_approval`, `.is_rejected` and `.is_unavailable`
unfoldable pub is_waiting_for_approval : PackageListing → Bool
is_waiting_for_approval l =
    l.community.require_package_listing_approval
    && elim l.review_status [ unreviewed ↦ true | _ ↦ false ]

unfoldable pub is_rejected : PackageListing → Bool
is_rejected l = elim l.review_status [ rejected ↦ true | _ ↦ false ]

unfoldable pub is_listing_unavailable : PackageListing → Bool
unfolding is_waiting_for_approval is_rejected
is_listing_unavailable l = is_rejected l || is_waiting_for_approval l

-- `Package.is_unavailable(community)`
unfoldable pub is_unavailable : Package → Community → Bool
unfolding is_effectively_active get_package_listing is_listing_unavailable
is_unavailable p c =
    if not (is_effectively_active p)
    then true
    else elim (get_package_listing p c) [ none ↦ true | some l ↦ is_listing_unavailable l ]

-- `PackageVersion.is_unavailable(community)`, `.is_removed` and `.is_effectively_active`
unfoldable pub is_version_unavailable : Package → PackageVersion → Community → Bool
is_version_unavailable p v c = is_unavailable p c || not v.is_active

unfoldable pub is_version_removed : Package → PackageVersion → Bool
is_version_removed p v = if is_removed p then true else not v.is_active

unfoldable pub is_version_effectively_active : Package → PackageVersion → Bool
is_version_effectively_active p v = v.is_active && p.is_active

-- `full_package_name`, and `full_version_name` of a version
unfoldable pub full_package_name : Package → Text
full_package_name p = p.owner.name ++ b'-' ∷ p.name

unfoldable pub full_version_name : Package → PackageVersion → Text
full_version_name p v = full_package_name p ++ b'-' ∷ v.version_number

-- `Package.reference` and `PackageVersion.reference`
unfoldable pub package_reference : Package → PackageReference
package_reference p = record { namespace = p.owner.name; name = p.name; version = none }

unfoldable pub version_reference : Package → PackageVersion → Result Failure PackageReference
version_reference p v = reference_of p.owner.name v.name (some v.version_number)

-- `deprecate`, `undeprecate` and `deactivate`
unfoldable pub deprecate : Package → Package
deprecate p = record p { is_deprecated = true }

unfoldable pub undeprecate : Package → Package
undeprecate p = record p { is_deprecated = false }

unfoldable pub deactivate : Package → Package
deactivate p = record p { is_active = false }

abbrev pub hide_from_users : VisibilityFlags → VisibilityFlags
hide_from_users v = record v {
  public_detail = false;
  public_list = false;
  owner_detail = false;
  owner_list = false;
  moderator_detail = false;
  moderator_list = false;
}

-- `Package.set_visibility_from_active_status`
unfoldable pub set_package_visibility_from_active_status :
    Package → VisibilityFlags → VisibilityFlags
set_package_visibility_from_active_status p v = if not p.is_active then hide_from_users v else v

-- `PackageVersion.set_visibility_from_active_status`
unfoldable pub set_version_visibility_from_active_status :
    Package → PackageVersion → VisibilityFlags → VisibilityFlags
set_version_visibility_from_active_status p version v =
    if not version.is_active || not p.is_active then hide_from_users v else v

-- `PackageVersion.set_visibility_from_review_status`
unfoldable pub set_version_visibility_from_review_status :
    PackageVersion → VisibilityFlags → VisibilityFlags
set_version_visibility_from_review_status version v = elim version.review_status [
  | rejected ↦ record v { public_detail = false; public_list = false }
  | _ ↦ v
]

-- Whether an active version shows the flag; a version without flags shows none.
abbrev pub any_version_visible : (VisibilityFlags → Bool) → List PackageVersion → Bool
any_version_visible flag versions =
    any
      (λ (version : PackageVersion).
        version.is_active && elim version.visibility [ none ↦ false | some v ↦ flag v ])
      versions

-- `Package.set_visibility_from_versions`
unfoldable pub set_visibility_from_versions : Package → VisibilityFlags → VisibilityFlags
set_visibility_from_versions p v =
    let keep = λ (flag : VisibilityFlags → Bool).
      if any_version_visible flag p.versions then flag v else false in
    record v {
      public_detail = keep (λ f. f.public_detail);
      public_list = keep (λ f. f.public_list);
      owner_detail = keep (λ f. f.owner_detail);
      owner_list = keep (λ f. f.owner_list);
      moderator_detail = keep (λ f. f.moderator_detail);
      moderator_list = keep (λ f. f.moderator_list);
    }

-- `Package.is_visible_to_user` and `PackageVersion.is_visible_to_user`
unfoldable pub is_package_visible_to_user : Db → Package → Option User → Bool
unfolding is_visible_by_flags
is_package_visible_to_user db p none = is_visible_by_flags p.visibility false false false false
is_package_visible_to_user db p (some user) =
    is_visible_by_flags p.visibility true (can_user_access db p.owner (some user))
      (any (λ (l : PackageListing). can_moderate_packages l.community (some user)) p.listings)
      user.is_superuser

unfoldable pub is_version_visible_to_user : Db → Package → PackageVersion → Option User → Bool
unfolding is_visible_by_flags
is_version_visible_to_user db p v none = is_visible_by_flags v.visibility false false false false
is_version_visible_to_user db p v (some user) =
    is_visible_by_flags v.visibility true (can_user_access db p.owner (some user))
      (any (λ (l : PackageListing). can_moderate_packages l.community (some user)) p.listings)
      user.is_superuser
