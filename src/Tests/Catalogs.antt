-- ===== src/Tests/Catalogs.antt =====
-- The theorems on package lists at concrete inputs.
use thunderstore.Prelude.{
  ℕ, ◌≡◌, refl, inl, Bool, true, false, none, some, List, [], ◌∷◌, Perm, select, ok, codes, text_eq,
  sort_by, IsSorted, comes_first, order_by, pos,
}
use thunderstore.Package.{PackageVersion}
use thunderstore.Package.Listings.{new_listing}
use thunderstore.Visibility.{create_public}
use thunderstore.Community.{approved, unreviewed}
use thunderstore.Tests.Samples.{crew, tables, valley}
use thunderstore.Catalog.{
  CatalogRow, PackageListingSection, PackageListRequest, last_updated, list_packages,
  filter_by_review_status, filter_by_listed_in_community, filter_deprecated, filter_nsfw,
  filter_by_section, filter_by_query, get_community,
}
use thunderstore.Catalog.Shown.{is_shown, list_packages-IsShown, asked_keys}
use thunderstore.Catalog.Pages.{
  PageRequest, all_mods, get_page_queryset, get_sections, active_section, filter_require_categories,
  filter_exclude_categories, get_active_ordering, filter_approval_status, in_page_base,
  require_some, exclude_some,
}
use thunderstore.Catalog.Agree.{get_page_queryset-list_packages}
use thunderstore.Names.{is_nil}
use thunderstore.Listing.{in_active}

abbrev only_version : PackageVersion
only_version = record {
  pk = 60;
  name = codes "Mod";
  version_number = codes "1.0.0";
  is_active = true;
  review_status = approved;
  visibility = some create_public;
  downloads = 7;
  file_size = 100;
}

-- An approved listing of a package, with a category
abbrev row : ℕ → Bool → CatalogRow
row pk pinned = record {
  package_row = record {
    pk = pk;
    owner = crew;
    name = codes "Mod";
    is_active = true;
    is_deprecated = false;
    date_updated = 1000;
    latest = some 60;
    visibility = some create_public;
    versions = only_version ∷ [];
    listings = [];
  };
  listing = record (new_listing 70 valley) { review_status = approved; categories = 3 ∷ [] };
  is_pinned = pinned;
  date_created = 900;
  description = codes "A mod";
  dependencies = [];
}

abbrev waiting : CatalogRow
waiting = record (row 52 true) {
  listing = record (new_listing 70 valley) { review_status = unreviewed };
}

abbrev rows : List CatalogRow
rows = row 50 false ∷ waiting ∷ row 51 true ∷ []

abbrev modpacks : PackageListingSection
modpacks = record {
  uuid = 80;
  community = 40;
  slug = codes "mods";
  is_listed = true;
  priority = pos 0;
  datetime_created = 1;
  require_categories = 3 ∷ [];
  exclude_categories = 4 ∷ [];
}

abbrev request : PackageListRequest
request = record {
  deprecated = false;
  excluded_categories = [];
  included_categories = 3 ∷ [];
  nsfw = false;
  ordering = last_updated;
  q = none;
  section = some 80;
}

two_are_listed :
    list_packages text_eq [] (valley ∷ []) (modpacks ∷ []) (codes "valley") request rows
    ≡ ok (row 51 true ∷ row 50 false ∷ [])
unfolding list_packages text_eq order_by sort_by filter_by_query filter_by_section filter_nsfw
    filter_deprecated filter_by_listed_in_community filter_by_review_status in_active comes_first
two_are_listed = refl

list_packages-IsShown_example :
    Perm
      (row 51 true ∷ row 50 false ∷ [])
      (select (is_shown text_eq tables (modpacks ∷ []) (codes "valley") request) rows)
    × IsSorted (comes_first (asked_keys [] last_updated)) (row 51 true ∷ row 50 false ∷ [])
unfolding get_community text_eq
list_packages-IsShown_example =
    list_packages-IsShown text_eq [] tables (valley ∷ []) (modpacks ∷ []) (codes "valley") request
      rows (row 51 true ∷ row 50 false ∷ []) valley refl (λ h. refl, (λ h. refl, (λ h. refl, tt)))
      two_are_listed

abbrev page_request : PageRequest
page_request = record {
  section = some (codes "mods");
  included_categories = none ∷ [];
  excluded_categories = [];
  nsfw = none;
  deprecated = none;
  ordering = none;
  q = none;
}

two_are_on_page :
    get_page_queryset text_eq [] all_mods valley (modpacks ∷ []) page_request rows
    ≡ ok (row 51 true ∷ row 50 false ∷ [])
unfolding get_page_queryset active_section get_sections order_by sort_by text_eq is_nil
    filter_approval_status exclude_some filter_exclude_categories require_some
    filter_require_categories in_page_base in_active comes_first get_active_ordering
two_are_on_page = refl

two_by_api :
    list_packages text_eq []
      (valley ∷ [])
      (modpacks ∷ [])
      (codes "valley")
      (record request { included_categories = [] })
      rows
    ≡ ok (row 51 true ∷ row 50 false ∷ [])
unfolding list_packages text_eq order_by sort_by filter_by_query filter_by_section filter_nsfw
    filter_deprecated filter_by_listed_in_community filter_by_review_status in_active comes_first
two_by_api = refl

get_page_queryset-list_packages_example :
    Perm (row 51 true ∷ row 50 false ∷ []) (row 51 true ∷ row 50 false ∷ [])
unfolding get_community text_eq active_section get_sections order_by sort_by is_nil
    get_active_ordering
get_page_queryset-list_packages_example =
    get_page_queryset-list_packages text_eq [] (valley ∷ []) valley (modpacks ∷ []) page_request
      (some modpacks) (codes "valley") rows (row 51 true ∷ row 50 false ∷ [])
      (row 51 true ∷ row 50 false ∷ []) refl refl refl (refl, (refl, (refl, tt))) (inl refl)
      two_are_on_page two_by_api
