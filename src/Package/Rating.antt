-- ===== src/Package/Rating.antt =====
-- repository/models/package_rating.py, with repository/permissions.py, the score of a package, and
-- the service `rate_package` of api/cyberstorm/services/package.py.
pub mod Scores
use thunderstore.Prelude.{
  ℕ, String, Bool, false, not, ◌&&◌, ◌||◌, Option, List, [], ◌∷◌, ◌++◌, ◌==◌, ◌==ℕ◌, if◌then◌else◌,
  length, any, select, Refusal, Result, ◌>>=◌, ◌>>◌, raise_if, validation, ok,
}
use thunderstore.Permissions.{User, validate_user}

-- A row of the table, with the keys of its user and its package
pub record PackageRating : Type 0 where
  pub rater : ℕ
  pub package_id : ℕ

abbrev pub is_rating_of : ℕ → ℕ → PackageRating → Bool
is_rating_of rater package_id r = r.rater ==ℕ rater && r.package_id ==ℕ package_id

-- A `PermissionDenied` with the message of the refusal is the refusal itself.
abbrev pub ensure_can_rate_package : Option User → Result Refusal User
ensure_can_rate_package user = validate_user user false

-- `PackageRating.objects.get_or_create`
unfoldable pub get_or_create_rating : ℕ → ℕ → List PackageRating → List PackageRating
get_or_create_rating rater package_id rs =
    if any (is_rating_of rater package_id) rs
    then rs
    else rs ++ record { rater = rater; package_id = package_id } ∷ []

-- `PackageRating.rate_package`
unfoldable pub change_rating :
    Option User → ℕ → String → List PackageRating → Result Refusal (String × List PackageRating)
change_rating agent package_id target_state rs = do
  raise_if (not (target_state == "rated" || target_state == "unrated"))
      (validation "Invalid target_state")
  user ← ensure_can_rate_package agent
  ok (
      if target_state == "rated"
      then ("rated", get_or_create_rating user.pk package_id rs)
      else ("unrated", select (λ r. not (is_rating_of user.pk package_id r)) rs))

-- `Package.rating_score`
unfoldable pub rating_score : ℕ → List PackageRating → ℕ
rating_score package_id rs = length (select (λ (r : PackageRating). r.package_id ==ℕ package_id) rs)

-- `rate_package` of the services, with the table that it leaves
unfoldable pub rate_package :
    Option User → ℕ → String → List PackageRating → Result Refusal (ℕ × String × List PackageRating)
unfolding change_rating rating_score
rate_package agent package_id target_state rs = do
  (result_state, rs') ← change_rating agent package_id target_state rs
  ok (rating_score package_id rs', result_state, rs')
