-- ===== src/Tests/Packages.antt =====
-- The theorems on packages at concrete inputs.
use thunderstore.Package.Deprecation.{deprecate_package, ensure_user_can_manage_deprecation}
use thunderstore.Prelude.{
  suc, String, ◌≡◌, refl, true, false, ◌||◌, some, List, [], ◌∷◌, ◌++◌, ok, codes, sort_by,
}
use thunderstore.Package.{Package, deprecate}
use thunderstore.Visibility.{create_public}
use thunderstore.Team.{get_membership_for_user}
use thunderstore.Version.{number, dot, optional_patch, optional_prerelease, parse_version}
use thunderstore.Permissions.{validate_user}
use thunderstore.Tests.Samples.{alice, crew, mod_version, tables, valley}
use thunderstore.Package.Listings.{get_or_create_package_listing}
use thunderstore.Package.Latest.{delete_version, parse_numbers, available_versions, recache_latest}
use thunderstore.Package.Deprecation.{contains}
use thunderstore.Package.Latest.Newest.{HasLatest, VersionStep-HasLatest, deleted}
use thunderstore.Names.{at_end, span_digits, is_nil}
use thunderstore.Team.Checks.{ensure_user_can_manage_packages}
use thunderstore.Package.Rating.{
  PackageRating, get_or_create_rating, change_rating, rating_score, rate_package,
}
use thunderstore.Package.Rating.Scores.{DistinctRatings, other_ratings, rate_package-score}

abbrev mod_package : Package
mod_package = record {
  pk = 50;
  owner = crew;
  name = codes "Mod";
  is_active = true;
  is_deprecated = false;
  date_updated = 1000;
  latest = some 61;
  visibility = some create_public;
  versions = mod_version 60 "1.2.0" true ∷ mod_version 61 "1.10.0" true ∷ [];
  listings = [];
}

abbrev without_second : Package
without_second = record mod_package {
  latest = some 60;
  versions = mod_version 60 "1.2.0" true ∷ [];
}

delete_second : delete_version (mod_version 61 "1.10.0" true) mod_package ≡ ok without_second
unfolding delete_version recache_latest available_versions parse_numbers parse_version number is_nil
    span_digits dot at_end optional_prerelease optional_patch sort_by
delete_second = refl

VersionStep-HasLatest_example : HasLatest without_second
VersionStep-HasLatest_example =
    VersionStep-HasLatest mod_package without_second
      (deleted (mod_version 61 "1.10.0" true) delete_second)

deprecate_mod : deprecate_package tables [] alice mod_package ≡ ok (deprecate mod_package)
unfolding deprecate_package ensure_user_can_manage_deprecation validate_user
    ensure_user_can_manage_packages get_membership_for_user
deprecate_mod = refl

has_nine :
    (contains (get_or_create_package_listing 70 valley mod_package).0.categories 9
      || contains (8 ∷ 9 ∷ []) 9)
    ≡ true
unfolding get_or_create_package_listing
has_nine = refl

abbrev rated_state : String
rated_state = "rated"

abbrev one_rating : List PackageRating
one_rating = record { rater = 2; package_id = 5 } ∷ record { rater = 1; package_id = 6 } ∷ []

abbrev two_ratings : List PackageRating
two_ratings = one_rating ++ record { rater = 1; package_id = 5 } ∷ []

alice_rates : rate_package (some alice) 5 rated_state one_rating ≡ ok (2, rated_state, two_ratings)
unfolding rate_package change_rating rating_score validate_user get_or_create_rating
alice_rates = refl

rate_package-score_example :
    DistinctRatings two_ratings
    × ((rated_state ≡ rated_state) × (2 ≡ suc (other_ratings 1 5 one_rating)))
rate_package-score_example =
    rate_package-score alice 5 rated_state rated_state one_rating two_ratings 2
      ((refl, tt), (tt, tt)) alice_rates
