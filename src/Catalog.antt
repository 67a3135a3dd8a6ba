-- ===== src/Catalog.antt =====
-- The package lists of api/cyberstorm/views/package_listing_list.py, with the sections of
-- community/models/package_listing_section.py. The web pages' lists are in the child `Pages`.
pub mod Shown
pub mod Pages
pub mod Agree
pub mod Totals
pub mod Frontend
use thunderstore.Prelude.{
  ℤ, ℕ, ◌+◌, Bool, true, false, not, ◌||◌, Option, none, some, List, [], ◌∷◌, ◌==ℕ◌, if◌then◌else◌,
  any, all, select, first, Result, ◌>>=◌, ◌>>◌, Failure, ok, err, http_404, Text, text_eq, split,
  OrderKey, bit, order_by, asc, desc,
}
use thunderstore.Names.{is_nil}
use thunderstore.Package.{PackageVersion, PackageListing, Package}
use thunderstore.Package.Rating.{PackageRating, rating_score}
use thunderstore.Community.{Community, ReviewStatus, approved, unreviewed, rejected}
use thunderstore.Listing.{in_active}

-- A listing with what a list reads of its package: `description` is that of the latest version, and
-- `dependencies` has the keys of the packages that the latest version depends on.
pub record CatalogRow : Type 0 where
  pub package_row : Package
  pub listing : PackageListing
  pub is_pinned : Bool
  pub date_created : ℕ
  pub description : Text
  pub dependencies : List ℕ

-- PackageListingSection, with the keys of its categories
pub record PackageListingSection : Type 0 where
  pub uuid : ℕ
  pub community : ℕ
  pub slug : Text
  pub is_listed : Bool
  pub priority : ℤ
  pub datetime_created : ℕ
  pub require_categories : List ℕ
  pub exclude_categories : List ℕ

-- The keys of ORDER_ARGS
pub data Ordering : Type 0 where
  last_updated most_downloaded newest top_rated : Ordering

-- The query's parameters, with categories by their keys; the page is left to the paginator.
pub record PackageListRequest : Type 0 where
  pub deprecated : Bool
  pub excluded_categories : List ℕ
  pub included_categories : List ℕ
  pub nsfw : Bool
  pub ordering : Ordering
  pub q : Option Text
  pub section : Option ℕ

-- `categories__id__in`
abbrev pub in_categories : List ℕ → CatalogRow → Bool
in_categories ids row = any (λ c. any (λ i. i ==ℕ c) ids) row.listing.categories

abbrev pub total_downloads : List PackageVersion → ℕ
total_downloads [] = 0
total_downloads (v ∷ vs) = v.downloads + total_downloads vs

-- `review_status_to_reject`
abbrev pub is_status_to_reject : Bool → ReviewStatus → Bool
is_status_to_reject require_approval rejected = true
is_status_to_reject require_approval unreviewed = require_approval
is_status_to_reject require_approval approved = false

unfoldable pub filter_by_review_status : Bool → List CatalogRow → List CatalogRow
filter_by_review_status require_approval rows =
    select (λ (r : CatalogRow). not (is_status_to_reject require_approval r.listing.review_status))
      rows

unfoldable pub filter_by_listed_in_community : Text → List CatalogRow → List CatalogRow
filter_by_listed_in_community identifier rows =
    select (λ (r : CatalogRow). text_eq r.listing.community.identifier identifier) rows

unfoldable pub filter_deprecated : Bool → List CatalogRow → List CatalogRow
filter_deprecated true rows = rows
filter_deprecated false rows = select (λ (r : CatalogRow). not r.package_row.is_deprecated) rows

unfoldable pub filter_nsfw : Bool → List CatalogRow → List CatalogRow
filter_nsfw true rows = rows
filter_nsfw false rows = select (λ (r : CatalogRow). not r.listing.has_nsfw_content) rows

unfoldable pub filter_in_categories : List ℕ → List CatalogRow → List CatalogRow
filter_in_categories [] rows = rows
filter_in_categories (i ∷ ids) rows = select (in_categories (i ∷ ids)) rows

unfoldable pub filter_not_in_categories : List ℕ → List CatalogRow → List CatalogRow
filter_not_in_categories [] rows = rows
filter_not_in_categories (i ∷ ids) rows = select (λ r. not (in_categories (i ∷ ids) r)) rows

abbrev pub find_section : List PackageListingSection → ℕ → Option PackageListingSection
find_section sections uuid = first (λ (s : PackageListingSection). s.uuid ==ℕ uuid) sections

-- The categories of a section that is found, and none of one that is not
abbrev pub required_by : Option PackageListingSection → List ℕ
required_by none = []
required_by (some s) = s.require_categories

abbrev pub excluded_by : Option PackageListingSection → List ℕ
excluded_by none = []
excluded_by (some s) = s.exclude_categories

unfoldable pub filter_by_section :
    List PackageListingSection → Option ℕ → List CatalogRow → List CatalogRow
unfolding filter_in_categories filter_not_in_categories
filter_by_section sections none rows = rows
filter_by_section sections (some uuid) rows =
    let section = find_section sections uuid in
    filter_not_in_categories (excluded_by section) (filter_in_categories (required_by section) rows)

-- The words of a query: `[x for x in query.split(" ") if x]`
unfoldable pub query_parts : Text → List Text
query_parts query = select (λ x. not (is_nil x)) (split b' ' query)

-- What the database's `icontains` says of a field and a part of the query
module _ (icontains : Text → Text → Bool) where
  abbrev pub has_part : CatalogRow → Text → Bool
  has_part row part =
      icontains row.package_row.name part
      || (icontains row.package_row.owner.name part || icontains row.description part)

  unfoldable pub filter_by_query : Option Text → List CatalogRow → List CatalogRow
  unfolding query_parts
  filter_by_query none rows = rows
  filter_by_query (some query) rows =
      if is_nil query then rows else select (λ r. all (has_part r) (query_parts query)) rows

  module _ (ratings : List PackageRating) where
    -- The key that ORDER_ARGS has for an ordering
    abbrev pub order_arg : Ordering → CatalogRow → ℕ
    order_arg last_updated row = row.package_row.date_updated
    order_arg most_downloaded row = total_downloads row.package_row.versions
    order_arg newest row = row.date_created
    order_arg top_rated row = rating_score row.package_row.pk ratings

    -- The keys that `filter_queryset` orders by
    abbrev pub order_keys : Ordering → List (OrderKey CatalogRow)
    order_keys ordering =
        desc (λ r. bit r.is_pinned)
        ∷ asc (λ r. bit r.package_row.is_deprecated)
        ∷ desc (order_arg ordering)
        ∷ desc (λ r. r.package_row.date_updated)
        ∷ desc (λ r. r.package_row.pk)
        ∷ []

    -- `get_queryset`
    unfoldable pub get_queryset : List CatalogRow → List CatalogRow
    get_queryset rows = select (λ (r : CatalogRow). in_active r.package_row) rows

    -- `get_object_or_404(Community, identifier=community_id)`
    unfoldable pub get_community : List Community → Text → Result Failure Community
    get_community communities community_id =
        elim (first (λ (c : Community). text_eq c.identifier community_id) communities) [
          | none ↦ err http_404
          | some c ↦ ok c
        ]

    unfoldable pub filter_queryset :
        List Community
        → List PackageListingSection
        → Text
        → PackageListRequest
        → List CatalogRow
        → Result Failure (List CatalogRow)
    unfolding get_community
    filter_queryset communities sections community_id params rows = do
      community ← get_community communities community_id
      let qs1 = filter_by_review_status community.require_package_listing_approval rows
      let qs2 = filter_by_listed_in_community community.identifier qs1
      let qs3 = filter_deprecated params.deprecated qs2
      let qs4 = filter_nsfw params.nsfw qs3
      let qs5 = filter_in_categories params.included_categories qs4
      let qs6 = filter_not_in_categories params.excluded_categories qs5
      let qs7 = filter_by_section sections params.section qs6
      let qs8 = filter_by_query params.q qs7
      ok (order_by (order_keys params.ordering) qs8)

    -- `list` without its pages: `filter_queryset(get_queryset())`
    unfoldable pub list_packages :
        List Community
        → List PackageListingSection
        → Text
        → PackageListRequest
        → List CatalogRow
        → Result Failure (List CatalogRow)
    unfolding get_queryset filter_queryset
    list_packages communities sections community_id params rows =
        filter_queryset communities sections community_id params (get_queryset rows)
