-- ===== src/Listing/View.antt =====
-- The checks of community/models/package_listing.py, its querysets and the flags of
-- permissions/mixins.py that decide whether a listing is shown.
use thunderstore.Prelude.{
  ◌≡◌, refl, true, not, ◌&&◌, ◌||◌, none, some, List, [], ◌∷◌, arith, ltb, length, any, select,
  text_eq_refl,
}
use thunderstore.Package.{
  PackageVersion, PackageListing, Package, is_effectively_active, get_package_listing,
  is_listing_unavailable, is_unavailable,
}
use thunderstore.Visibility.{VisibilityFlags, is_visible_by_flags}
use thunderstore.Listing.{
  ensure_can_be_viewed_by_user, can_be_viewed_by_user, is_listing_visible_to_user,
  set_visibility_from_review_status, in_active, in_approval_rule, in_base_queryset,
}
use thunderstore.Team.{Team, Db}
use thunderstore.Community.{Community, can_moderate_packages}
use thunderstore.Permissions.{User}
use thunderstore.Team.Checks.{can_user_access}

in_approval_rule-eq : (l : PackageListing) → in_approval_rule l ≡ not (is_listing_unavailable l)
unfolding in_approval_rule is_listing_unavailable
in_approval_rule-eq l = ground arith

-- Three definitions agree: an anonymous visitor may view a listing exactly if the queryset for the
-- community's approval rule has it, and exactly if the listing is not unavailable.
pub can_be_viewed-anonymous :
    (db : Db) (team : Team) (l : PackageListing)
    → (can_be_viewed_by_user db team l none ≡ in_approval_rule l)
      × (in_approval_rule l ≡ not (is_listing_unavailable l))
unfolding ensure_can_be_viewed_by_user in_approval_rule is_listing_unavailable
can_be_viewed-anonymous db team l = (ground arith, in_approval_rule-eq l)

-- A user may view a listing exactly if an anonymous visitor may, or if the user is authenticated and
-- moderates the community or has access to the team that owns the package.
pub can_be_viewed-eq :
    (db : Db) (team : Team) (l : PackageListing) (user : User)
    → can_be_viewed_by_user db team l (some user) ≡ (
        can_be_viewed_by_user db team l none
        || (user.is_authenticated
            && (can_moderate_packages l.community (some user)
                || can_user_access db team (some user))))
unfolding ensure_can_be_viewed_by_user
can_be_viewed-eq db team l user = ground arith

any-length :
    (vs : List PackageVersion)
    → any (λ (v : PackageVersion). v.is_active) vs
      ≡ ltb 0 (length (select (λ (v : PackageVersion). v.is_active) vs))
any-length [] = refl
any-length (v ∷ vs) = ground (arith, any-length vs)

in_active-eq : (p : Package) → in_active p ≡ is_effectively_active p
unfolding in_active is_effectively_active
in_active-eq p = ground (arith, any-length p.versions)

-- A package that has a listing in a community is available there exactly if the queryset of the
-- community's package list has that listing.
pub is_unavailable-eq :
    (p : Package) (c : Community) (l : PackageListing)
    → get_package_listing p c ≡ some l
    → is_unavailable p c ≡ not (in_base_queryset l.community.identifier p l)
unfolding is_unavailable in_base_queryset
is_unavailable-eq p c l h =
    ground (arith, h, in_active-eq p, text_eq_refl l.community.identifier, in_approval_rule-eq l)

-- A package without a listing in a community is unavailable there.
pub is_unavailable-unlisted :
    (p : Package) (c : Community) → get_package_listing p c ≡ none → is_unavailable p c ≡ true
unfolding is_unavailable
is_unavailable-unlisted p c h = ground arith

-- Flags that are set from the review status hide the listing from an anonymous visitor exactly if the
-- listing is unavailable, or the public detail was off before.
pub set_visibility_from_review_status-anonymous :
    (db : Db) (p : Package) (l : PackageListing) (v : VisibilityFlags)
    → is_listing_visible_to_user db p
        (record l { visibility = some (set_visibility_from_review_status l v) })
        none
      ≡ (v.public_detail && not (is_listing_unavailable l))
unfolding is_listing_visible_to_user set_visibility_from_review_status is_listing_unavailable
set_visibility_from_review_status-anonymous db p l v = ground arith

-- Who sees a listing by its flags: everybody if the public detail is on; and a user also by the
-- owner's flag with access to the team, by the moderator's flag with a listing of the package in a
-- community of theirs, and by the admin's flag as a superuser.
pub is_listing_visible_to_user_iff :
    (db : Db) (p : Package) (l : PackageListing) (v : VisibilityFlags) (user : User)
    → l.visibility ≡ some v
    → is_listing_visible_to_user db p l (some user) ≡ (
        v.public_detail
        || ((v.owner_detail && can_user_access db p.owner (some user))
            || ((v.moderator_detail
                  && any
                      (λ (k : PackageListing). can_moderate_packages k.community (some user))
                      p.listings)
                || (v.admin_detail && user.is_superuser))))
unfolding is_listing_visible_to_user
is_listing_visible_to_user_iff db p l v user h = rw (h, is_visible_by_flags) (ground arith)
