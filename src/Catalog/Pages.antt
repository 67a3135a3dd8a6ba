-- ===== src/Catalog/Pages.antt =====
-- The package lists of the web pages, repository/views/package/list.py: all packages of a community,
-- those of a team, those that depend on a package, and the review queue.
use thunderstore.Prelude.{
  ℕ, Bool, true, false, not, ◌&&◌, Option, none, some, List, [], ◌∷◌, ◌++◌, ◌==ℕ◌, if◌then◌else◌,
  all, select, first, Result, ◌>>=◌, ◌>>◌, raise_if, Failure, ok, err, permission_denied, http_404,
  Text, codes, text_eq, OrderKey, bit, order_by, asc, desc, pos_part, neg_part,
}
use thunderstore.Names.{is_nil}
use thunderstore.Package.Rating.{PackageRating}
use thunderstore.Package.Deprecation.{get_moderatable_communities, contains}
use thunderstore.Permissions.{User}
use thunderstore.Community.{Community, approved, rejected}
use thunderstore.Listing.{in_active}
use thunderstore.Catalog.{
  CatalogRow, PackageListingSection, Ordering, last_updated, most_downloaded, newest, top_rated,
  in_categories, required_by, excluded_by, query_parts, has_part, order_arg,
}

-- The parameters of a request: `none` where one is not given, and in a list of categories where
-- `int` refuses the text
pub record PageRequest : Type 0 where
  pub section : Option Text
  pub included_categories : List (Option ℕ)
  pub excluded_categories : List (Option ℕ)
  pub nsfw : Option Text
  pub deprecated : Option Text
  pub ordering : Option Text
  pub q : Option Text

-- The subclasses of PackageListSearchView: the list by owner has the key of the team, that by
-- dependency the key of the package, and the queue the keys of the communities that are moderated.
pub data PageKind : Type 0 where
  all_mods : PageKind
  by_owner by_dependency : ℕ → PageKind
  review_queue : List ℕ → PageKind

-- `_get_int_list`
abbrev pub get_int_list : List (Option ℕ) → List ℕ
get_int_list [] = []
get_int_list (none ∷ selections) = get_int_list selections
get_int_list (some i ∷ selections) = i ∷ get_int_list selections

-- `bool(self.request.GET.get(..., False))`
abbrev pub is_given : Option Text → Bool
is_given none = false
is_given (some t) = not (is_nil t)

-- `get_search_query`
abbrev pub get_search_query : Option Text → Text
get_search_query none = []
get_search_query (some t) = t

-- `get_sections`, and none for the review queue
unfoldable pub get_sections :
    PageKind → Community → List PackageListingSection → List PackageListingSection
get_sections (review_queue ids) c sections = []
get_sections _ c sections =
    order_by
      (desc (λ s. pos_part s.priority)
        ∷ asc (λ s. neg_part s.priority)
        ∷ asc (λ s. s.datetime_created)
        ∷ [])
      (select (λ (s : PackageListingSection). s.community ==ℕ c.pk) sections)

-- `active_section`, of the sections in their order
unfoldable pub active_section :
    List PackageListingSection → Option Text → Result Failure (Option PackageListingSection)
active_section sections (some section_param) =
    elim (first (λ (s : PackageListingSection). text_eq s.slug section_param) sections) [
      | none ↦ err http_404
      | some s ↦ ok (some s)
    ]
active_section [] none = ok none
active_section (s ∷ sections) none = ok (some s)

-- `filter_require_categories` and `filter_exclude_categories`, as lists
unfoldable pub filter_require_categories : PageRequest → Option PackageListingSection → List ℕ
filter_require_categories request section =
    get_int_list request.included_categories ++ required_by section

unfoldable pub filter_exclude_categories : PageRequest → Option PackageListingSection → List ℕ
filter_exclude_categories request section =
    get_int_list request.excluded_categories ++ excluded_by section

abbrev pub ordering_named : Text → Ordering
ordering_named name =
    if text_eq name (codes "newest")
    then newest
    else if text_eq name (codes "most-downloaded")
    then most_downloaded
    else if text_eq name (codes "top-rated")
    then top_rated
    else last_updated

-- `get_active_ordering`: any other text stands for the first choice.
unfoldable pub get_active_ordering : Option Text → Ordering
get_active_ordering none = last_updated
get_active_ordering (some name) = ordering_named name

-- `filter_approval_status`
unfoldable pub filter_approval_status : PageKind → Community → List CatalogRow → List CatalogRow
filter_approval_status (review_queue ids) c rows = rows
filter_approval_status _ c rows =
    let approved_rows =
      select (λ (r : CatalogRow). elim r.listing.review_status [ approved ↦ true | _ ↦ false ])
        rows in
    if c.require_package_listing_approval
    then approved_rows
    else select (λ (r : CatalogRow). elim r.listing.review_status [ rejected ↦ false | _ ↦ true ])
        rows

abbrev pub is_in : Community → CatalogRow → Bool
is_in c row = row.listing.community.pk ==ℕ c.pk

-- Whether a listing is in `get_base_queryset`; the list by dependency is that of the dependants,
-- in whichever community.
unfoldable pub in_page_base : PageKind → Community → CatalogRow → Bool
in_page_base all_mods c row = in_active row.package_row && is_in c row
in_page_base (by_owner team) c row =
    in_active row.package_row && ((row.package_row.owner.pk ==ℕ team) && is_in c row)
in_page_base (by_dependency pk) c row = contains row.dependencies pk && in_active row.package_row
in_page_base (review_queue community_ids) c row =
    in_active row.package_row
    && contains community_ids row.listing.community.pk
    && row.listing.is_review_requested

-- The filter by a set of categories, which is left out for none
unfoldable pub require_some : List ℕ → List CatalogRow → List CatalogRow
require_some ids rows = if is_nil ids then rows else select (in_categories ids) rows

unfoldable pub exclude_some : List ℕ → List CatalogRow → List CatalogRow
exclude_some ids rows = if is_nil ids then rows else select (λ r. not (in_categories ids r)) rows

module _ (icontains : Text → Text → Bool) (ratings : List PackageRating) where
  unfoldable pub perform_search : List CatalogRow → Text → List CatalogRow
  perform_search rows search_query =
      select (λ r. all (has_part icontains r) (query_parts search_query)) rows

  -- The keys of `order_queryset`
  abbrev pub page_order_keys : Ordering → List (OrderKey CatalogRow)
  page_order_keys newest =
      desc (λ r. bit r.is_pinned)
      ∷ asc (λ r. bit r.package_row.is_deprecated)
      ∷ desc (λ r. r.date_created)
      ∷ []
  page_order_keys last_updated =
      desc (λ r. bit r.is_pinned)
      ∷ asc (λ r. bit r.package_row.is_deprecated)
      ∷ desc (λ r. r.package_row.date_updated)
      ∷ []
  page_order_keys ordering =
      desc (λ r. bit r.is_pinned)
      ∷ asc (λ r. bit r.package_row.is_deprecated)
      ∷ desc (order_arg icontains ratings ordering)
      ∷ desc (λ r. r.package_row.date_updated)
      ∷ []

  -- `get_queryset`
  unfoldable pub get_page_queryset :
      PageKind
      → Community
      → List PackageListingSection
      → PageRequest
      → List CatalogRow
      → Result Failure (List CatalogRow)
  get_page_queryset kind community all_sections request rows = do
    section ← active_section (get_sections kind community all_sections) request.section
    let qs1 = select (in_page_base kind community) rows
    let qs2 = require_some (filter_require_categories request section) qs1
    let qs3 = exclude_some (filter_exclude_categories request section) qs2
    let qs4 =
        if is_given request.nsfw
        then qs3
        else select (λ (r : CatalogRow). not r.listing.has_nsfw_content) qs3
    let qs5 =
        if is_given request.deprecated
        then qs4
        else select (λ (r : CatalogRow). not r.package_row.is_deprecated) qs4
    let qs6 = filter_approval_status kind community qs5
    let search_query = get_search_query request.q
    let qs7 = if is_nil search_query then qs6 else perform_search qs6 search_query
    ok (order_by (page_order_keys (get_active_ordering request.ordering)) qs7)

  -- The review queue for a user, with the keys that its `dispatch` finds
  unfoldable pub get_review_queue :
      List Community
      → Option User
      → Community
      → List PackageListingSection
      → PageRequest
      → List CatalogRow
      → Result Failure (List CatalogRow)
  unfolding get_page_queryset
  get_review_queue communities user community sections request rows = do
    raise_if (is_nil (get_moderatable_communities communities user)) permission_denied
    get_page_queryset (review_queue (get_moderatable_communities communities user)) community
        sections request rows
