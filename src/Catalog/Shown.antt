-- ===== src/Catalog/Shown.antt =====
-- Which listings a package list has, and in which order.
use thunderstore.Prelude.{
  ℕ, ◌≡◌, refl, sym, ap, ◌∙◌, subst, Bool, true, false, not, ◌&&◌, ◌||◌, Option, none, some, List,
  [], ◌∷◌, Perm, arith, ◌==ℕ◌, any, all, select, All, All-weaken, ok_inj, ok, Text, text_eq,
  split_from, split, IsSorted, OrderKey, bit, comes_first, order_by, order_by-IsSorted,
  order_by-perm, asc, desc,
}
use thunderstore.Names.{is_nil}
use thunderstore.Catalog.{
  CatalogRow, in_categories, filter_deprecated, filter_nsfw, filter_in_categories,
  filter_not_in_categories, PackageListingSection, PackageListRequest, is_status_to_reject,
  find_section, required_by, excluded_by, filter_by_section, query_parts, has_part, filter_by_query,
  filter_by_review_status, filter_by_listed_in_community, order_keys, get_queryset, get_community,
  filter_queryset, list_packages, Ordering, total_downloads, last_updated, most_downloaded, newest,
  top_rated,
}
use thunderstore.Listing.{ensure_can_be_viewed_by_user, can_be_viewed_by_user, in_active}
use thunderstore.Team.{Db}
use thunderstore.Community.{Community}
use thunderstore.Package.Rating.{PackageRating, rating_score}

-- The order asked for: pinned packages first and deprecated ones last, then by the value that is asked
-- for, the last update and the key, greatest first.
abbrev pub asked_keys : List PackageRating → Ordering → List (OrderKey CatalogRow)
asked_keys ratings ordering =
    desc (λ r. bit r.is_pinned)
    ∷ asc (λ r. bit r.package_row.is_deprecated)
    ∷ elim ordering as (λ o. OrderKey CatalogRow) [
      | last_updated ↦ desc (λ r. r.package_row.date_updated)
      | most_downloaded ↦ desc (λ r. total_downloads r.package_row.versions)
      | newest ↦ desc (λ r. r.date_created)
      | top_rated ↦ desc (λ r. rating_score r.package_row.pk ratings)
    ]
    ∷ desc (λ r. r.package_row.date_updated)
    ∷ desc (λ r. r.package_row.pk)
    ∷ []

asked_keys-eq :
    (icontains : Text → Text → Bool) (ratings : List PackageRating) (ordering : Ordering)
    → order_keys icontains ratings ordering ≡ asked_keys ratings ordering
asked_keys-eq icontains ratings last_updated = refl
asked_keys-eq icontains ratings most_downloaded = refl
asked_keys-eq icontains ratings newest = refl
asked_keys-eq icontains ratings top_rated = refl

-- Whether a listing has one of the categories, or none are asked for
abbrev pub has_required : List ℕ → CatalogRow → Bool
has_required ids row = is_nil ids || in_categories ids row

-- Filtering twice is filtering by both tests.
pub select-select {ℓ} :
    {A : Type ℓ} (p q : A → Bool) (xs : List A)
    → select p (select q xs) ≡ select (λ x. q x && p x) xs
select-select p q [] = refl
select-select p q (x ∷ xs) = ground (arith, select-select p q xs)

pub select-true {ℓ} : {A : Type ℓ} (xs : List A) → select (λ x. true) xs ≡ xs
select-true [] = refl
select-true (x ∷ xs) = ap (λ ys. x ∷ ys) (select-true xs)

pub select-ext {ℓ} :
    {A : Type ℓ} (p q : A → Bool) (xs : List A)
    → All (λ x. p x ≡ q x) xs
    → select p xs ≡ select q xs
select-ext p q [] h = refl
select-ext p q (x ∷ xs) (e, h) = ground (arith, select-ext p q xs h)

pub All-always {ℓ} : {A : Type ℓ} {P : A → Type 0} (xs : List A) → ((x : A) → P x) → All P xs
All-always [] h = tt
All-always (x ∷ xs) h = (h x, All-always xs h)

filter_deprecated-eq :
    (b : Bool) (rows : List CatalogRow)
    → filter_deprecated b rows
      ≡ select (λ (r : CatalogRow). b || not r.package_row.is_deprecated) rows
unfolding filter_deprecated
filter_deprecated-eq true rows = sym (select-true rows)
filter_deprecated-eq false rows = refl

filter_nsfw-eq :
    (b : Bool) (rows : List CatalogRow)
    → filter_nsfw b rows ≡ select (λ (r : CatalogRow). b || not r.listing.has_nsfw_content) rows
unfolding filter_nsfw
filter_nsfw-eq true rows = sym (select-true rows)
filter_nsfw-eq false rows = refl

filter_in_categories-eq :
    (ids : List ℕ) (rows : List CatalogRow)
    → filter_in_categories ids rows ≡ select (has_required ids) rows
unfolding filter_in_categories is_nil
filter_in_categories-eq [] rows = sym (select-true rows)
filter_in_categories-eq (i ∷ ids) rows = refl

pub no_ids : (cs : List ℕ) → any (λ c. any (λ i. i ==ℕ c) []) cs ≡ false
no_ids [] = refl
no_ids (c ∷ cs) = no_ids cs

filter_not_in_categories-eq :
    (ids : List ℕ) (rows : List CatalogRow)
    → filter_not_in_categories ids rows ≡ select (λ r. not (in_categories ids r)) rows
unfolding filter_not_in_categories
filter_not_in_categories-eq [] rows = sym (
    select-ext (λ (r : CatalogRow). not (in_categories [] r)) (λ r. true) rows
      (All-always rows (λ r. ap not (no_ids r.listing.categories)))
    ∙ select-true rows)
filter_not_in_categories-eq (i ∷ ids) rows = refl

abbrev pub in_section : List PackageListingSection → Option ℕ → CatalogRow → Bool
in_section sections none row = true
in_section sections (some uuid) row =
    has_required (required_by (find_section sections uuid)) row
    && not (in_categories (excluded_by (find_section sections uuid)) row)

filter_by_section-eq :
    (sections : List PackageListingSection) (section : Option ℕ) (rows : List CatalogRow)
    → filter_by_section sections section rows ≡ select (in_section sections section) rows
unfolding filter_by_section
filter_by_section-eq sections none rows = sym (select-true rows)
filter_by_section-eq sections (some uuid) rows =
    filter_not_in_categories-eq (excluded_by (find_section sections uuid))
      (filter_in_categories (required_by (find_section sections uuid)) rows)
    ∙ (ap (select (λ r. not (in_categories (excluded_by (find_section sections uuid)) r)))
          (filter_in_categories-eq (required_by (find_section sections uuid)) rows)
        ∙ select-select
            (λ (r : CatalogRow). not (in_categories (excluded_by (find_section sections uuid)) r))
            (has_required (required_by (find_section sections uuid))) rows)

module _ (icontains : Text → Text → Bool) where
  -- Whether each word of the query is in one of the fields that are searched
  abbrev pub matches : Option Text → CatalogRow → Bool
  matches none row = true
  matches (some query) row = all (has_part icontains row) (query_parts query)

  pub filter_by_query-eq :
      (q : Option Text) (rows : List CatalogRow)
      → filter_by_query icontains q rows ≡ select (matches q) rows
  unfolding filter_by_query query_parts is_nil split split_from
  filter_by_query-eq none rows = sym (select-true rows)
  filter_by_query-eq (some []) rows = sym (select-true rows)
  filter_by_query-eq (some (c ∷ q)) rows = refl

  -- Whether a list that is asked for has the listing: its package is active, it is one of the
  -- community that an anonymous visitor may view, and it is what the parameters ask for.
  pub is_shown : Db → List PackageListingSection → Text → PackageListRequest → CatalogRow → Bool
  is_shown db sections identifier params row =
      in_active row.package_row
      && text_eq row.listing.community.identifier identifier
      && can_be_viewed_by_user db row.package_row.owner row.listing none
      && (params.deprecated || not row.package_row.is_deprecated)
      && (params.nsfw || not row.listing.has_nsfw_content)
      && has_required params.included_categories row
      && not (in_categories params.excluded_categories row)
      && in_section sections params.section row
      && matches params.q row

  -- The community that a listing names is the stored one.
  abbrev pub IsOf : Community → CatalogRow → Type 0
  IsOf c row =
      text_eq row.listing.community.identifier c.identifier ≡ true
      → row.listing.community.require_package_listing_approval ≡ c.require_package_listing_approval

  is_shown-eq :
      (db : Db) (sections : List PackageListingSection) (c : Community)
      (params : PackageListRequest) (row : CatalogRow)
      → IsOf c row
      → (in_active row.package_row
          && (not (is_status_to_reject c.require_package_listing_approval row.listing.review_status)
              && text_eq row.listing.community.identifier c.identifier))
        ≡ (in_active row.package_row
            && text_eq row.listing.community.identifier c.identifier
            && can_be_viewed_by_user db row.package_row.owner row.listing none)
  unfolding ensure_can_be_viewed_by_user
  is_shown-eq db sections c params row h = ground (arith, h)

  -- The tests of the filters, one after another
  abbrev pub passes :
      List PackageListingSection → Community → PackageListRequest → CatalogRow → Bool
  passes sections c params row =
      in_active row.package_row
      && not (is_status_to_reject c.require_package_listing_approval row.listing.review_status)
      && text_eq row.listing.community.identifier c.identifier
      && (params.deprecated || not row.package_row.is_deprecated)
      && (params.nsfw || not row.listing.has_nsfw_content)
      && has_required params.included_categories row
      && not (in_categories params.excluded_categories row)
      && in_section sections params.section row
      && matches params.q row

  passes-eq :
      (db : Db) (sections : List PackageListingSection) (c : Community)
      (params : PackageListRequest) (row : CatalogRow)
      → IsOf c row
      → passes sections c params row ≡ is_shown db sections c.identifier params row
  unfolding is_shown
  passes-eq db sections c params row h = ground (arith, is_shown-eq db sections c params row h)

  module _ (ratings : List PackageRating) where
    pub list_packages-eq :
        (communities : List Community) (sections : List PackageListingSection) (community_id : Text)
        (params : PackageListRequest) (rows : List CatalogRow) (c : Community)
        → get_community icontains ratings communities community_id ≡ ok c
        → list_packages icontains ratings communities sections community_id params rows
          ≡ ok (
              order_by
                (order_keys icontains ratings params.ordering)
                (select (passes sections c params) rows))
    unfolding list_packages filter_queryset get_queryset filter_by_review_status
        filter_by_listed_in_community
    list_packages-eq communities sections community_id params rows c h = rw h (
        simp (
          filter_deprecated-eq, filter_nsfw-eq, filter_in_categories-eq,
          filter_not_in_categories-eq, filter_by_section-eq, filter_by_query-eq, select-select,
        ))

    -- A package list of a community has exactly the listings that are to be shown, each as often as
    -- the table has it, in the order that was asked for, if the listings name the community as it is
    -- stored. Those are the listings of the community whose package is active, that an anonymous
    -- visitor may view, and that pass the parameters.
    pub list_packages-IsShown :
        (db : Db) (communities : List Community) (sections : List PackageListingSection)
        (community_id : Text) (params : PackageListRequest) (rows result : List CatalogRow)
        (c : Community)
        → get_community icontains ratings communities community_id ≡ ok c
        → All (IsOf c) rows
        → list_packages icontains ratings communities sections community_id params rows ≡ ok result
        → Perm result (select (is_shown db sections c.identifier params) rows)
          × IsSorted (comes_first (asked_keys ratings params.ordering)) result
    list_packages-IsShown db communities sections community_id params rows result c h o r =
        let chosen : select (passes sections c params) rows
            ≡ select (is_shown db sections c.identifier params) rows =
          select-ext (passes sections c params) (is_shown db sections c.identifier params) rows
            (All-weaken rows (passes-eq db sections c params) o) in
        let ordered = list_packages-eq communities sections community_id params rows c h in
        let is_result : result
            ≡ order_by (order_keys icontains ratings params.ordering)
                (select (is_shown db sections c.identifier params) rows) =
          ok_inj (sym r ∙ (rw chosen at ordered)) in
        rw is_result (
          order_by-perm (order_keys icontains ratings params.ordering)
              (select (is_shown db sections c.identifier params) rows),
          subst
              (λ keys. IsSorted (comes_first keys) (
                order_by (order_keys icontains ratings params.ordering)
                  (select (is_shown db sections c.identifier params) rows)))
              (asked_keys-eq icontains ratings params.ordering)
              (order_by-IsSorted (order_keys icontains ratings params.ordering)
                (select (is_shown db sections c.identifier params) rows)),
        )
