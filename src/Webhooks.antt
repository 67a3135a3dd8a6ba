-- ===== src/Webhooks.antt =====
-- webhooks/models/release.py: which webhooks a release is sent to, and what is sent.
pub mod Release
use thunderstore.Prelude.{
  ℕ, String, Bool, true, false, not, ◌&&◌, ◌||◌, Option, none, some, List, [], ◌∷◌, ◌++◌, map,
  ◌==ℕ◌, if◌then◌else◌, any, select, Text, codes, text_eq, decimal,
}
use thunderstore.Names.{is_nil}
use thunderstore.Zip.{starts_with}
use thunderstore.Package.{PackageVersion, PackageListing, Package, get_package_listing}
use thunderstore.Community.{
  Community, ReviewStatus, approved, unreviewed, rejected, valid_review_statuses,
}
use thunderstore.Catalog.{total_downloads}

abbrev pub mod_release : String
mod_release = "mod_release"

-- Categories by their keys; the key of the community is that of `community`.
pub record Webhook : Type 0 where
  pub webhook_url : Text
  pub webhook_type : Text
  pub community : Community
  pub is_active : Bool
  pub exclude_categories : List ℕ
  pub require_categories : List ℕ
  pub allow_nsfw : Bool

abbrev pub is_status : ReviewStatus → ReviewStatus → Bool
is_status approved s = elim s [ approved ↦ true | _ ↦ false ]
is_status unreviewed s = elim s [ unreviewed ↦ true | _ ↦ false ]
is_status rejected s = elim s [ rejected ↦ true | _ ↦ false ]

-- `listing.review_status in listing.community.valid_review_statuses`
unfoldable pub is_validly_reviewed : PackageListing → Bool
unfolding valid_review_statuses
is_validly_reviewed l = any (is_status l.review_status) (valid_review_statuses l.community)

abbrev pub have_common : List ℕ → List ℕ → Bool
have_common ids categories = any (λ i. any (λ c. i ==ℕ c) categories) ids

-- `query`, for one listing
unfoldable pub listing_query : PackageListing → Webhook → Bool
listing_query l w =
    let query =
      not (have_common w.exclude_categories l.categories)
      && ((is_nil w.require_categories || have_common w.require_categories l.categories)
          && (w.community.pk ==ℕ l.community.pk)) in
    if l.has_nsfw_content then query && w.allow_nsfw else query

-- A `Q`: the empty one restricts nothing, and is dropped by `|=`.
abbrev pub Query : Type 0
Query = Option (Webhook → Bool)

abbrev pub or_query : Query → (Webhook → Bool) → Query
or_query none q = some q
or_query (some p) q = some (λ w. p w || q w)

abbrev pub passes : Query → Webhook → Bool
passes none w = true
passes (some p) w = p w

-- The loop over the listings, with `community_query` and `communities`
unfoldable pub collect : List PackageListing → Query → List Community → Query × List Community
unfolding is_validly_reviewed listing_query
collect [] community_query communities = (community_query, communities)
collect (l ∷ ls) community_query communities =
    let skipped = collect ls community_query communities in
    let added =
      collect ls (or_query community_query (listing_query l)) (communities ++ l.community ∷ []) in
    if not (is_validly_reviewed l) then skipped else added

unfoldable pub get_for_package_release : List Webhook → Package → List Webhook
unfolding collect
get_for_package_release webhooks p =
    select
      (λ w.
        (text_eq w.webhook_type (codes mod_release) && w.is_active)
        && (passes (collect p.listings none []).0 w
            && any (λ (c : Community). w.community.pk ==ℕ c.pk) (collect p.listings none []).1))
      webhooks

-- The embed that is sent, less its constant parts and its timestamp
pub record ReleaseMessage : Type 0 where
  pub title : Text
  pub description : Text
  pub url : Text
  pub thumbnail_url : Text
  pub author : Text
  pub downloads : Text
  pub categories : Text

-- `", ".join(names)`
unfoldable pub join_names : List Text → Text
join_names [] = []
join_names (t ∷ []) = t
join_names (t ∷ u ∷ ts) = t ++ (44 ∷ 32 ∷ join_names (u ∷ ts))

-- The addresses and texts that come from elsewhere: a version's icon and description, a listing's
-- address, a category's name, and the start of the site's own addresses.
module _ (icon_url : PackageVersion → Text) (description_of : PackageVersion → Text)
    (get_full_url : PackageListing → Text) (category_name : ℕ → Text) (site_root : Text) where
  unfoldable pub absolute_url : Text → Text
  absolute_url url =
      if not (starts_with (codes "http://") url || starts_with (codes "https://") url)
      then site_root ++ url
      else url

  unfoldable pub get_version_release_json :
      Webhook → Package → PackageVersion → Option ReleaseMessage
  unfolding get_package_listing absolute_url join_names
  get_version_release_json w p v = elim (get_package_listing p w.community) [
    | none ↦ none
    | some l ↦ some (record {
      title = v.name ++ (codes " v" ++ v.version_number);
      description = description_of v;
      url = get_full_url l;
      thumbnail_url = absolute_url (icon_url v);
      author = p.owner.name;
      downloads = decimal (total_downloads p.versions);
      categories = join_names (map category_name l.categories);
    })
  ]

  -- `call_with_json`: the posts that are queued
  unfoldable pub call_with_json : Webhook → ReleaseMessage → List (Text × ReleaseMessage)
  call_with_json w message = if not w.is_active then [] else (w.webhook_url, message) ∷ []

  unfoldable pub post_package_version_release :
      Webhook → Package → PackageVersion → List (Text × ReleaseMessage)
  unfolding get_version_release_json call_with_json
  post_package_version_release w p v = elim (get_version_release_json w p v) [
    | none ↦ []
    | some message ↦ call_with_json w message
  ]

  unfoldable pub post_each : List Webhook → Package → PackageVersion → List (Text × ReleaseMessage)
  unfolding post_package_version_release
  post_each [] p v = []
  post_each (w ∷ ws) p v = post_package_version_release w p v ++ post_each ws p v

  -- `PackageVersion.announce_release`
  unfoldable pub announce_release :
      List Webhook → Package → PackageVersion → List (Text × ReleaseMessage)
  unfolding get_for_package_release post_each
  announce_release webhooks p v = post_each (get_for_package_release webhooks p) p v
