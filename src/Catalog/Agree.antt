-- ===== src/Catalog/Agree.antt =====
-- The package list of the web page and that of the API beside one another.
use thunderstore.Prelude.{
  ℕ, ◌≡◌, refl, sym, ap, ◌∙◌, ◌⊎◌, inl, inr, Bool, true, false, not, ◌&&◌, ◌||◌, Option, none, some,
  List, [], ◌∷◌, ◌++◌, Perm, arith, ◌==ℕ◌, if◌then◌else◌, Bool-cases, any, select, any-append, All,
  All-weaken, ok_inj, ok, Text, text_eq, split_from, split, order_by, order_by_perm,
}
use thunderstore.Names.{is_nil}
use thunderstore.Package.Rating.{PackageRating}
use thunderstore.Community.{Community, ReviewStatus, approved, unreviewed, rejected}
use thunderstore.Catalog.{
  PackageListRequest, CatalogRow, PackageListingSection, in_categories, is_status_to_reject,
  query_parts, find_section, required_by, excluded_by, get_community, list_packages,
}
use thunderstore.Catalog.Pages.{
  PageRequest, all_mods, is_given, get_search_query, get_sections, active_section,
  filter_require_categories, filter_exclude_categories, get_active_ordering, filter_approval_status,
  in_page_base, require_some, exclude_some, perform_search, page_order_keys, get_page_queryset,
  get_int_list, is_in,
}
use thunderstore.Catalog.Shown.{
  has_required, select-true, select-ext, no_ids, All-always, matches, select-select, in_section,
  passes, list_packages-eq,
}

in_categories-append :
    (a b : List ℕ) (r : CatalogRow)
    → in_categories (a ++ b) r ≡ (in_categories a r || in_categories b r)
in_categories-append a b r = go r.listing.categories
  where
    go :
        (cs : List ℕ)
        → any (λ c. any (λ i. i ==ℕ c) (a ++ b)) cs
          ≡ (any (λ c. any (λ i. i ==ℕ c) a) cs || any (λ c. any (λ i. i ==ℕ c) b) cs)
    go [] = refl
    go (c ∷ cs) = ground (arith, any-append (λ i. i ==ℕ c) a b, go cs)

require_some-eq :
    (ids : List ℕ) (rows : List CatalogRow) → require_some ids rows ≡ select (has_required ids) rows
unfolding require_some is_nil
require_some-eq [] rows = sym (select-true rows)
require_some-eq (i ∷ ids) rows = refl

exclude_some-eq :
    (ids : List ℕ) (rows : List CatalogRow)
    → exclude_some ids rows ≡ select (λ r. not (in_categories ids r)) rows
unfolding exclude_some is_nil
exclude_some-eq [] rows = sym (
    select-ext (λ (r : CatalogRow). not (in_categories [] r)) (λ r. true) rows
      (All-always rows (λ r. ap not (no_ids r.listing.categories)))
    ∙ select-true rows)
exclude_some-eq (i ∷ ids) rows = refl

unless_given :
    (b : Bool) (p : CatalogRow → Bool) (rows : List CatalogRow)
    → (if b then rows else select p rows) ≡ select (λ r. b || p r) rows
unless_given true p rows = sym (select-true rows)
unless_given false p rows = refl

filter_approval_status-eq :
    (c : Community) (rows : List CatalogRow)
    → filter_approval_status all_mods c rows
      ≡ select
          (λ (r : CatalogRow).
            not (is_status_to_reject c.require_package_listing_approval r.listing.review_status))
          rows
unfolding filter_approval_status
filter_approval_status-eq c rows = elim (Bool-cases c.require_package_listing_approval) [
  | inl e ↦ rw e (select-ext _ _ rows (All-always rows (λ r. status_true r.listing.review_status)))
  | inr e ↦ rw e (select-ext _ _ rows (All-always rows (λ r. status_false r.listing.review_status)))
]
  where
    status_true :
        (s : ReviewStatus)
        → elim s as (λ s. Bool) [ approved ↦ true | _ ↦ false ] ≡ not (is_status_to_reject true s)
    status_true approved = refl
    status_true unreviewed = refl
    status_true rejected = refl

    status_false :
        (s : ReviewStatus)
        → elim s as (λ s. Bool) [ rejected ↦ false | _ ↦ true ] ≡ not (is_status_to_reject false s)
    status_false approved = refl
    status_false unreviewed = refl
    status_false rejected = refl

module _ (icontains : Text → Text → Bool) (ratings : List PackageRating) where
  search-eq :
      (q : Text) (rows : List CatalogRow)
      → (if is_nil q then rows else perform_search icontains ratings rows q)
        ≡ select (matches icontains (some q)) rows
  unfolding perform_search query_parts split split_from is_nil
  search-eq [] rows = sym (select-true rows)
  search-eq (c ∷ q) rows = refl

  -- The tests of the page's filters
  abbrev page_passes : Community → Option PackageListingSection → PageRequest → CatalogRow → Bool
  page_passes c section request row =
      in_page_base all_mods c row
      && has_required (filter_require_categories request section) row
      && not (in_categories (filter_exclude_categories request section) row)
      && (is_given request.nsfw || not row.listing.has_nsfw_content)
      && (is_given request.deprecated || not row.package_row.is_deprecated)
      && not (is_status_to_reject c.require_package_listing_approval row.listing.review_status)
      && matches icontains (some (get_search_query request.q)) row

  page-eq :
      (c : Community) (sections : List PackageListingSection) (request : PageRequest)
      (rows : List CatalogRow) (section : Option PackageListingSection)
      → active_section (get_sections all_mods c sections) request.section ≡ ok section
      → get_page_queryset icontains ratings all_mods c sections request rows
        ≡ ok (
            order_by
              (page_order_keys icontains ratings (get_active_ordering request.ordering))
              (select (page_passes c section request) rows))
  unfolding get_page_queryset
  page-eq c sections request rows section h = rw h (
      simp unless_given (
        simp
          (require_some-eq, exclude_some-eq, filter_approval_status-eq, search-eq, select-select)))

  -- What the API is asked for where the page is asked for the same
  abbrev pub api_request : PageRequest → Option PackageListingSection → PackageListRequest
  api_request request section = record {
    deprecated = is_given request.deprecated;
    excluded_categories = get_int_list request.excluded_categories;
    included_categories = get_int_list request.included_categories;
    nsfw = is_given request.nsfw;
    ordering = get_active_ordering request.ordering;
    q = request.q;
    section = elim section [ none ↦ none | some s ↦ some s.uuid ];
  }

  -- The section is found by its key.
  abbrev pub IsFound : List PackageListingSection → Option PackageListingSection → Type 0
  IsFound sections none = Unit
  IsFound sections (some s) = find_section sections s.uuid ≡ some s

  -- The key of a listing's community and its identifier name the same community.
  abbrev pub NamesOne : Community → CatalogRow → Type 0
  NamesOne c row = is_in c row ≡ text_eq row.listing.community.identifier c.identifier

  matches-eq :
      (q : Option Text) (row : CatalogRow)
      → matches icontains (some (get_search_query q)) row ≡ matches icontains q row
  unfolding query_parts split split_from is_nil
  matches-eq none row = refl
  matches-eq (some q) row = refl

  in_section-eq :
      (sections : List PackageListingSection) (request : PageRequest)
      (section : Option PackageListingSection) (row : CatalogRow)
      → IsFound sections section
      → in_section sections (api_request request section).section row
        ≡ (has_required (required_by section) row && not (in_categories (excluded_by section) row))
  unfolding is_nil
  in_section-eq sections request none row f = ground (arith, no_ids row.listing.categories)
  in_section-eq sections request (some s) row f = rw f refl

  has_required-append :
      (a b : List ℕ) (row : CatalogRow)
      → (is_nil a ≡ true) ⊎ (is_nil b ≡ true)
      → has_required (a ++ b) row ≡ (has_required a row && has_required b row)
  unfolding is_nil
  has_required-append [] b row h = refl
  has_required-append (i ∷ a) [] row h =
      ground (arith, in_categories-append (i ∷ a) [] row, no_ids row.listing.categories)
  has_required-append (i ∷ a) (j ∷ b) row h = ground arith

  same_tests :
      (c : Community) (sections : List PackageListingSection) (request : PageRequest)
      (section : Option PackageListingSection) (row : CatalogRow)
      → IsFound sections section
      → (is_nil (get_int_list request.included_categories) ≡ true)
        ⊎ (is_nil (required_by section) ≡ true)
      → NamesOne c row
      → page_passes c section request row
        ≡ passes icontains sections c (api_request request section) row
  unfolding in_page_base filter_require_categories filter_exclude_categories
  same_tests c sections request section row f h n = ground (
    arith,
    in_section-eq sections request section row f,
    matches-eq request.q row,
    has_required-append (get_int_list request.included_categories) (required_by section) row h,
    in_categories-append (get_int_list request.excluded_categories) (excluded_by section) row,
  )

  -- The page of all packages of a community and the list of the API have the same listings for the
  -- same parameters, each as often, if no categories are asked for or the section requires none, the
  -- section is found by its key, and keys and identifiers name the same communities.
  pub get_page_queryset-list_packages :
      (communities : List Community) (c : Community) (sections : List PackageListingSection)
      (request : PageRequest) (section : Option PackageListingSection) (community_id : Text)
      (rows pages packages : List CatalogRow)
      → get_community icontains ratings communities community_id ≡ ok c
      → active_section (get_sections all_mods c sections) request.section ≡ ok section
      → IsFound sections section
      → All (NamesOne c) rows
      → (is_nil (get_int_list request.included_categories) ≡ true)
        ⊎ (is_nil (required_by section) ≡ true)
      → get_page_queryset icontains ratings all_mods c sections request rows ≡ ok pages
      → list_packages icontains ratings communities sections community_id
          (api_request request section)
          rows
        ≡ ok packages
      → Perm pages packages
  get_page_queryset-list_packages communities c sections request section community_id rows pages
        packages found active f n h p q =
      let chosen =
        select-ext (page_passes c section request)
          (passes icontains sections c (api_request request section)) rows
          (All-weaken rows (λ row. same_tests c sections request section row f h) n) in
      let page_rows = ok_inj (sym p ∙ page-eq c sections request rows section active) in
      let api_rows = ok_inj (
        sym q
        ∙ list_packages-eq icontains ratings communities sections community_id
            (api_request request section) rows c found) in
      rw (page_rows, api_rows, chosen) (order_by_perm _ _ _)
