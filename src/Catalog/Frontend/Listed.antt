-- ===== src/Catalog/Frontend/Listed.antt =====
-- What the package list of the frontend has.
use thunderstore.Prelude.{
  ℕ, ◌*◌, ◌≡◌, refl, sym, ap, ◌∙◌, inl, inr, Bool, true, false, not, ◌&&◌, ◌||◌, Option, none, some,
  List, [], ◌∷◌, ◌==ℕ◌, Bool-cases, length, any, all, select, Text, OrderKey, bit, order_by, asc,
  desc,
}
use thunderstore.Names.{is_nil}
use thunderstore.Package.{PackageListing}
use thunderstore.Package.Rating.{PackageRating, rating_score}
use thunderstore.Community.{Community}
use thunderstore.Listing.{in_active}
use thunderstore.Catalog.{
  query_parts, PackageListingSection, Ordering, total_downloads, last_updated, most_downloaded,
  newest, top_rated,
}
use thunderstore.Catalog.Shown.{select-select, select-true, select-ext, All-always}
use thunderstore.Catalog.Frontend.{
  FrontendRow, FrontendRequest, in_review_statuses, get_queryset, filter_deprecated, filter_nsfw,
  in_some_category, filter_by_section, has_slug_of, include_by_slugs, exclude_by_slugs,
  filter_by_categories, row_has_part, filter_rows_by_query, frontend_order_keys, community_packages,
  joined_rows,
}

-- A package that is active, has a valid listing in the community, and is not deprecated or, by a
-- listing in any community, NSFW unless that is asked for
abbrev pub is_visible : Community → FrontendRequest → FrontendRow → Bool
is_visible c params r =
    ((in_active r.package_row
        && any (λ (l : PackageListing). (l.community.pk ==ℕ c.pk) && in_review_statuses c l)
            r.package_row.listings)
      && (params.deprecated || not r.package_row.is_deprecated))
    && (params.nsfw
        || not (any (λ (l : PackageListing). l.has_nsfw_content) r.package_row.listings))

filter_deprecated-eq :
    (b : Bool) (rows : List FrontendRow)
    → filter_deprecated b rows
      ≡ select (λ (r : FrontendRow). b || not r.package_row.is_deprecated) rows
unfolding filter_deprecated
filter_deprecated-eq true rows = sym (select-true rows)
filter_deprecated-eq false rows = refl

filter_nsfw-eq :
    (b : Bool) (rows : List FrontendRow)
    → filter_nsfw b rows
      ≡ select
          (λ (r : FrontendRow).
            b || not (any (λ (l : PackageListing). l.has_nsfw_content) r.package_row.listings))
          rows
unfolding filter_nsfw
filter_nsfw-eq true rows = sym (select-true rows)
filter_nsfw-eq false rows = refl

visible_rows :
    (c : Community) (params : FrontendRequest) (rows : List FrontendRow)
    → filter_nsfw params.nsfw (filter_deprecated params.deprecated (get_queryset c rows))
      ≡ select (is_visible c params) rows
unfolding get_queryset
visible_rows c params rows =
    filter_nsfw-eq params.nsfw (filter_deprecated params.deprecated (get_queryset c rows))
    ∙ (ap
          (λ rs.
            select
              (λ (r : FrontendRow).
                params.nsfw
                || not (any (λ (l : PackageListing). l.has_nsfw_content) r.package_row.listings))
              rs)
          (filter_deprecated-eq params.deprecated (get_queryset c rows) ∙ select-select _ _ rows)
        ∙ select-select _ _ rows)

-- The words of the query, if there is one, are found.
abbrev pub is_found : (Text → Text → Bool) → Option Text → FrontendRow → Bool
is_found icontains none r = true
is_found icontains (some query) r =
    is_nil query || all (row_has_part icontains r) (query_parts query)

query-eq :
    (icontains : Text → Text → Bool) (q : Option Text) (rows : List FrontendRow)
    → filter_rows_by_query icontains q rows ≡ select (is_found icontains q) rows
unfolding filter_rows_by_query
query-eq icontains none rows = sym (select-true rows)
query-eq icontains (some query) rows =
    let has_words = λ (r : FrontendRow). all (row_has_part icontains r) (query_parts query) in
    elim (Bool-cases (is_nil query)) [
      | inl e ↦ rw e (
          sym (select-true rows)
          ∙ select-ext (λ r. true) (is_found icontains (some query)) rows
              (All-always rows (λ r. rw e refl)))
      | inr e ↦ rw e (
          select-ext has_words (is_found icontains (some query)) rows
            (All-always rows (λ r. rw e refl)))
    ]

-- The order asked for, pinned packages first and deprecated ones last. Downloads are counted once for
-- each rating of the package, and ratings once for each of its versions.
abbrev pub asked_order : List PackageRating → Ordering → List (OrderKey FrontendRow)
asked_order ratings ordering =
    desc (λ r. bit r.is_pinned)
    ∷ asc (λ r. bit r.package_row.is_deprecated)
    ∷ elim ordering as (λ o. OrderKey FrontendRow) [
      | last_updated ↦ desc (λ r. r.package_row.date_updated)
      | most_downloaded ↦ desc (λ r.
          total_downloads r.package_row.versions
          * joined_rows (rating_score r.package_row.pk ratings))
      | newest ↦ desc (λ r. r.date_created)
      | top_rated ↦
          desc (λ r.
            rating_score r.package_row.pk ratings * joined_rows (length r.package_row.versions))
    ]
    ∷ []

asked_order-eq :
    (ratings : List PackageRating) (ordering : Ordering)
    → frontend_order_keys ratings ordering ≡ asked_order ratings ordering
asked_order-eq ratings last_updated = refl
asked_order-eq ratings most_downloaded = refl
asked_order-eq ratings newest = refl
asked_order-eq ratings top_rated = refl

module _ (slug_of : ℕ → Text) where
  -- A listing, in any community, has one of the categories, if there are any.
  abbrev pub is_included : List Text → FrontendRow → Bool
  is_included [] r = true
  is_included (s ∷ slugs) r = in_some_category (has_slug_of slug_of (s ∷ slugs)) r

  -- No listing, in any community, has one of the categories.
  abbrev pub is_left : List Text → FrontendRow → Bool
  is_left [] r = true
  is_left (s ∷ slugs) r = not (in_some_category (has_slug_of slug_of (s ∷ slugs)) r)

  include-eq :
      (slugs : List Text) (rows : List FrontendRow)
      → include_by_slugs slug_of slugs rows ≡ select (is_included slugs) rows
  include-eq [] rows = sym (select-true rows)
  include-eq (s ∷ slugs) rows = refl

  exclude-eq :
      (slugs : List Text) (rows : List FrontendRow)
      → exclude_by_slugs slug_of slugs rows ≡ select (is_left slugs) rows
  exclude-eq [] rows = sym (select-true rows)
  exclude-eq (s ∷ slugs) rows = refl

  -- Without a section, the list has exactly the packages that are visible, by the categories of their
  -- listings in any community, and by the query, in the order asked for, where the most downloaded
  -- and the top rated are told by totals that are multiplied by each other's number of rows.
  pub community_packages-IsListed :
      (icontains : Text → Text → Bool) (ratings : List PackageRating)
      (sections : List PackageListingSection) (c : Community) (params : FrontendRequest)
      (rows : List FrontendRow)
      → params.section ≡ none
      → community_packages slug_of icontains ratings sections c params rows
        ≡ some (
            order_by (asked_order ratings params.ordering) (
              select
                (λ r.
                  ((is_visible c params r && is_included params.included_categories r)
                    && is_left params.excluded_categories r)
                  && is_found icontains params.q r)
                rows))
  unfolding community_packages filter_by_section filter_by_categories
  community_packages-IsListed icontains ratings sections c params rows e =
      let visible = select (is_visible c params) rows in
      let kept : filter_by_categories slug_of params
            (filter_nsfw params.nsfw (filter_deprecated params.deprecated (get_queryset c rows)))
          ≡ select
              (λ r.
                (is_visible c params r && is_included params.included_categories r)
                && is_left params.excluded_categories r)
              rows =
        ap (filter_by_categories slug_of params) (visible_rows c params rows)
        ∙ (ap (exclude_by_slugs slug_of params.excluded_categories)
              (include-eq params.included_categories visible ∙ select-select _ _ rows)
            ∙ (exclude-eq params.excluded_categories _ ∙ select-select _ _ rows)) in
      rw (community_packages, e, filter_by_section, sym (asked_order-eq ratings params.ordering))
        (ap (λ rs. some (order_by (frontend_order_keys ratings params.ordering) rs))
          (ap (filter_rows_by_query icontains params.q) kept
            ∙ (query-eq icontains params.q _ ∙ select-select _ _ rows)))
