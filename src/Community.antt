-- ===== src/Community.antt =====
-- community/models/community.py: who moderates a community, which reviews make a listing valid, and
-- the site that its addresses are built from.
pub mod Sites
use thunderstore.Prelude.{
  ℕ, ◌≡◌, Bool, true, false, not, ◌&&◌, ◌||◌, Option, none, some, List, [], ◌∷◌, arith,
  if◌then◌else◌, first, Refusal, Result, ◌>>=◌, ◌>>◌, raise_if, permission, Text,
}
use thunderstore.Permissions.{User, same_user, validate_user, check_validity}

pub data CommunityMemberRole : Type 0 where
  owner moderator janitor member : CommunityMemberRole

pub record CommunityMembership : Type 0 where
  pub user : User
  pub role : CommunityMemberRole

-- PackageListingReviewStatus
pub data ReviewStatus : Type 0 where
  unreviewed approved rejected : ReviewStatus

pub record CommunitySite : Type 0 where
  pub pk : ℕ
  pub domain : Text

pub record Community : Type 0 where
  pub pk : ℕ
  pub identifier : Text
  pub require_package_listing_approval : Bool
  pub members : List CommunityMembership
  pub sites : List CommunitySite

unfoldable pub community_membership : Community → User → Option CommunityMembership
community_membership c user = first (λ (m : CommunityMembership). same_user m.user user) c.members

abbrev pub may_moderate : Option CommunityMembership → Bool
may_moderate none = false
may_moderate (some m) = elim m.role [ owner ↦ true | moderator ↦ true | _ ↦ false ]

abbrev pub may_categorise : Option CommunityMembership → Bool
may_categorise none = false
may_categorise (some m) = elim m.role [ member ↦ false | _ ↦ true ]

unfoldable pub ensure_user_can_moderate_packages :
    Community → Option User → Result Refusal (Unit {0})
unfolding community_membership
ensure_user_can_moderate_packages c user = do
  u ← validate_user user false
  raise_if (not (may_moderate (community_membership c u)) && not (u.is_superuser || u.is_staff))
      (permission "Must be a moderator or higher to manage packages")

unfoldable pub ensure_user_can_manage_categories :
    Community → Option User → Result Refusal (Unit {0})
unfolding community_membership
ensure_user_can_manage_categories c user = do
  u ← validate_user user false
  raise_if (not (may_categorise (community_membership c u)) && not (u.is_superuser || u.is_staff))
      (permission "Must be a janitor or higher to manage categories")

abbrev pub can_moderate_packages : Community → Option User → Bool
can_moderate_packages c user = check_validity (ensure_user_can_moderate_packages c user)

abbrev pub can_user_manage_categories : Community → Option User → Bool
can_user_manage_categories c user = check_validity (ensure_user_can_manage_categories c user)

-- `Community.valid_review_statuses`
unfoldable pub valid_review_statuses : Community → List ReviewStatus
valid_review_statuses c =
    if c.require_package_listing_approval then approved ∷ [] else approved ∷ unreviewed ∷ []

-- Whoever may manage packages of a community may manage its categories.
pub categories_of_moderate :
    (c : Community) (user : Option User)
    → can_moderate_packages c user ≡ true
    → can_user_manage_categories c user ≡ true
unfolding ensure_user_can_moderate_packages ensure_user_can_manage_categories validate_user
categories_of_moderate c none h = h
categories_of_moderate c (some u) h = ground arith
