-- ===== src/Catalog/Frontend.antt =====
-- The package list of frontend/api/experimental/views/community_package_list.py, of packages rather
-- than of listings. Categories are named by slugs in a request, and by keys in a section.
pub mod Listed
use thunderstore.Prelude.{
  ℕ, zero, suc, ◌*◌, Bool, true, false, not, ◌&&◌, ◌||◌, Option, none, some, List, [], ◌∷◌, ◌==ℕ◌,
  if◌then◌else◌, length, any, all, select, Text, text_eq, OrderKey, bit, order_by, asc, desc,
}
use thunderstore.Names.{is_nil}
use thunderstore.Package.{PackageListing, Package}
use thunderstore.Package.Rating.{PackageRating, rating_score}
use thunderstore.Community.{Community, approved, unreviewed, rejected}
use thunderstore.Listing.{in_active}
use thunderstore.Catalog.{
  PackageListingSection, Ordering, last_updated, most_downloaded, newest, top_rated,
  total_downloads, query_parts,
}

-- A package with what the list reads of it; `description` is that of the latest version.
pub record FrontendRow : Type 0 where
  pub package_row : Package
  pub is_pinned : Bool
  pub date_created : ℕ
  pub description : Text

-- The parameters that are validated; the page is left to the paginator.
pub record FrontendRequest : Type 0 where
  pub deprecated : Bool
  pub nsfw : Bool
  pub included_categories : List Text
  pub excluded_categories : List Text
  pub section : Option Text
  pub q : Option Text
  pub ordering : Ordering

-- `review_status__in`
abbrev pub in_review_statuses : Community → PackageListing → Bool
in_review_statuses c l = elim l.review_status [
  | approved ↦ true
  | unreviewed ↦ not c.require_package_listing_approval
  | rejected ↦ false
]

-- The two conditions of `get_queryset` hold of one listing.
unfoldable pub get_queryset : Community → List FrontendRow → List FrontendRow
get_queryset c rows =
    select
      (λ (r : FrontendRow).
        in_active r.package_row
        && any (λ (l : PackageListing). (l.community.pk ==ℕ c.pk) && in_review_statuses c l)
            r.package_row.listings)
      rows

unfoldable pub filter_deprecated : Bool → List FrontendRow → List FrontendRow
filter_deprecated show_deprecated rows =
    if show_deprecated
    then rows
    else select (λ (r : FrontendRow). not r.package_row.is_deprecated) rows

-- Any listing of the package counts, in whichever community.
unfoldable pub filter_nsfw : Bool → List FrontendRow → List FrontendRow
filter_nsfw show_nsfw rows =
    if show_nsfw
    then rows
    else select
        (λ (r : FrontendRow).
          not (any (λ (l : PackageListing). l.has_nsfw_content) r.package_row.listings))
        rows

-- Whether some listing of the package has a category that passes a test
abbrev pub in_some_category : (ℕ → Bool) → FrontendRow → Bool
in_some_category test r = any (λ (l : PackageListing). any test l.categories) r.package_row.listings

abbrev pub is_key_of : List ℕ → ℕ → Bool
is_key_of keys c = any (λ k. k ==ℕ c) keys

-- `filter_by_section`; `none` where the slug is that of several sections, which raises
unfoldable pub filter_by_section :
    List PackageListingSection → Option Text → List FrontendRow → Option (List FrontendRow)
filter_by_section sections none rows = some rows
filter_by_section sections (some slug) rows =
    if is_nil slug
    then some rows
    else elim (select (λ (s : PackageListingSection). text_eq s.slug slug) sections) [
      | [] ↦ some rows
      | s ∷ others ↦
          let required =
            if is_nil s.require_categories
            then rows
            else select (in_some_category (is_key_of s.require_categories)) rows in
          let kept =
            if is_nil s.exclude_categories
            then required
            else select (λ r. not (in_some_category (is_key_of s.exclude_categories) r)) required in
          elim others [ [] ↦ some kept | _ ↦ none ]
    ]

module _ (slug_of : ℕ → Text) where
  abbrev pub has_slug_of : List Text → ℕ → Bool
  has_slug_of slugs c = any (λ s. text_eq (slug_of c) s) slugs

  abbrev pub include_by_slugs : List Text → List FrontendRow → List FrontendRow
  include_by_slugs [] rows = rows
  include_by_slugs (s ∷ slugs) rows = select (in_some_category (has_slug_of (s ∷ slugs))) rows

  abbrev pub exclude_by_slugs : List Text → List FrontendRow → List FrontendRow
  exclude_by_slugs [] rows = rows
  exclude_by_slugs (s ∷ slugs) rows =
      select (λ r. not (in_some_category (has_slug_of (s ∷ slugs)) r)) rows

  unfoldable pub filter_by_categories : FrontendRequest → List FrontendRow → List FrontendRow
  filter_by_categories params rows =
      exclude_by_slugs params.excluded_categories (include_by_slugs params.included_categories rows)

-- What the database's `icontains` says
module _ (icontains : Text → Text → Bool) where
  abbrev pub row_has_part : FrontendRow → Text → Bool
  row_has_part r part =
      icontains r.package_row.name part
      || (icontains r.package_row.owner.name part || icontains r.description part)

  unfoldable pub filter_rows_by_query : Option Text → List FrontendRow → List FrontendRow
  filter_rows_by_query none rows = rows
  filter_rows_by_query (some query) rows =
      if is_nil query then rows else select (λ r. all (row_has_part r) (query_parts query)) rows

-- The rows that a row becomes in a left outer join with `n` rows
abbrev pub joined_rows : ℕ → ℕ
joined_rows zero = 1
joined_rows (suc n) = suc n

module _ (ratings : List PackageRating) where
  -- Both totals are taken over the rows of the packages joined with their versions and their ratings,
  -- where each version stands once for each rating and each rating once for each version. The listing
  -- that a row is found by is one, so it adds none.
  abbrev pub total_of_downloads : FrontendRow → ℕ
  total_of_downloads r =
      total_downloads r.package_row.versions * joined_rows (rating_score r.package_row.pk ratings)

  abbrev pub total_rating : FrontendRow → ℕ
  total_rating r =
      rating_score r.package_row.pk ratings * joined_rows (length r.package_row.versions)

  abbrev pub frontend_order_arg : Ordering → FrontendRow → ℕ
  frontend_order_arg last_updated r = r.package_row.date_updated
  frontend_order_arg most_downloaded r = total_of_downloads r
  frontend_order_arg newest r = r.date_created
  frontend_order_arg top_rated r = total_rating r

  abbrev pub frontend_order_keys : Ordering → List (OrderKey FrontendRow)
  frontend_order_keys ordering =
      desc (λ r. bit r.is_pinned)
      ∷ asc (λ r. bit r.package_row.is_deprecated)
      ∷ desc (frontend_order_arg ordering)
      ∷ []

-- `get` of a community that is there, up to the paginator; `slug_of` is the slug of a category.
unfoldable pub community_packages :
    (ℕ → Text)
    → (Text → Text → Bool)
    → List PackageRating
    → List PackageListingSection
    → Community
    → FrontendRequest
    → List FrontendRow
    → Option (List FrontendRow)
unfolding get_queryset filter_deprecated filter_nsfw filter_by_categories filter_by_section
    filter_rows_by_query
community_packages slug_of icontains ratings sections c params rows =
    elim (filter_by_section sections params.section (
      filter_by_categories slug_of params
        (filter_nsfw params.nsfw (filter_deprecated params.deprecated (get_queryset c rows))))) [
          | none ↦ none
          | some found ↦ some (
              order_by (frontend_order_keys ratings params.ordering)
                (filter_rows_by_query icontains params.q found))
        ]
