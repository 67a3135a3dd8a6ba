-- ===== src/Package/Deprecation.antt =====
-- Who may deprecate a package: `get_moderatable_communities` of repository/views/package/_utils.py,
-- `ensure_user_can_manage_deprecation` of repository/models/package.py, and the services of
-- api/cyberstorm/services/package.py.
use thunderstore.Prelude.{
  ℕ, ◌≡◌, ◌↔◌, Bool, true, false, not, ◌&&◌, ◌||◌, Option, none, some, List, [], map, arith, ltb,
  ◌==ℕ◌, if◌then◌else◌, is_some, length, any, all, select, Refusal, Result, ◌>>=◌, ◌>>◌, ok,
}
use thunderstore.Package.{PackageListing, Package, deprecate, undeprecate}
use thunderstore.Team.{Db, get_membership_for_user}
use thunderstore.Community.{Community, community_membership, may_moderate}
use thunderstore.Permissions.{
  User, validate_user, check_validity, IsEligible, change_package, change_packagelisting,
  Permission,
}
use thunderstore.Team.Checks.{ensure_user_can_manage_packages}

-- The keys of the communities that the user moderates; they are compared as numbers here and as
-- their decimal texts there.
unfoldable pub get_moderatable_communities : List Community → Option User → List ℕ
get_moderatable_communities communities none = []
get_moderatable_communities communities (some user) =
    let everywhere = user.is_superuser || (user.is_staff && user.has_perm change_packagelisting) in
    let keys = map (λ (c : Community). c.pk) in
    if not user.is_authenticated
    then []
    else if everywhere
    then keys communities
    else keys (select (λ c. may_moderate (community_membership c user)) communities)

abbrev pub contains : List ℕ → ℕ → Bool
contains ks k = any (λ j. j ==ℕ k) ks

-- All the communities that list the package, of which there is one, are the user's to moderate.
unfoldable pub moderates_all_listings : List Community → Package → User → Bool
unfolding get_moderatable_communities
moderates_all_listings communities p user =
    ltb 0 (length p.listings)
    && all
        (λ (l : PackageListing).
          contains (get_moderatable_communities communities (some user)) l.community.pk)
        p.listings

unfoldable pub ensure_user_can_manage_deprecation :
    Db → List Community → Package → Option User → Result Refusal (Unit {0})
unfolding moderates_all_listings
ensure_user_can_manage_deprecation db communities p o = do
  user ← validate_user o false
  if user.is_staff && (user.has_perm change_package || user.has_perm Permission.deprecate_package)
      then ok tt
      else if moderates_all_listings communities p user
      then ok tt
      else ensure_user_can_manage_packages db p.owner (some user)

abbrev pub can_user_manage_deprecation : Db → List Community → Package → Option User → Bool
can_user_manage_deprecation db communities p user =
    check_validity (ensure_user_can_manage_deprecation db communities p user)

-- `ensure_user_can_manage_wiki`
unfoldable pub ensure_user_can_manage_wiki : Db → Package → Option User → Result Refusal (Unit {0})
ensure_user_can_manage_wiki db p user = ensure_user_can_manage_packages db p.owner user

unfoldable pub deprecate_package : Db → List Community → User → Package → Result Refusal Package
deprecate_package db communities agent p = do
  ensure_user_can_manage_deprecation db communities p (some agent)
  ok (deprecate p)

unfoldable pub undeprecate_package : Db → List Community → User → Package → Result Refusal Package
undeprecate_package db communities agent p = do
  ensure_user_can_manage_deprecation db communities p (some agent)
  ok (undeprecate p)

-- The service succeeds, with the package marked as deprecated and otherwise as it was, exactly for
-- the active, authenticated users that are no service account and are staff with one of two
-- permissions, moderators of all the communities that list the package, or members of its team.
pub deprecate_package_iff :
    (db : Db) (communities : List Community) (agent : User) (p p' : Package)
    → (deprecate_package db communities agent p ≡ ok p') ↔ (
        (p' ≡ deprecate p)
        × IsEligible false agent
        × (((agent.is_staff
                && (agent.has_perm change_package || agent.has_perm Permission.deprecate_package))
              || (moderates_all_listings communities p agent
                  || is_some (get_membership_for_user db p.owner agent)))
            ≡ true))
unfolding deprecate_package ensure_user_can_manage_deprecation ensure_user_can_manage_packages
    validate_user
deprecate_package_iff db communities agent p p' = (
  λ h. (
    ground arith,
    record { authenticated = ground arith; active = ground arith; account = ground arith },
    ground arith,
  ),
  λ (e, who, right). ground (arith, who.authenticated, who.active, who.account),
)

-- After a package is deprecated, the user who did it may undo it, and that gives a package that is
-- like the one before but for its deprecation, which is off.
pub undeprecate-deprecate :
    (db : Db) (communities : List Community) (agent : User) (p p' : Package)
    → deprecate_package db communities agent p ≡ ok p'
    → undeprecate_package db communities agent p' ≡ ok (record p { is_deprecated = false })
unfolding deprecate_package undeprecate_package ensure_user_can_manage_deprecation deprecate
    undeprecate
undeprecate-deprecate db communities agent p p' h = ground arith
