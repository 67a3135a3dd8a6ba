-- ===== src/Package/Latest.antt =====
-- Which version is the latest: `available_versions`, `recache_latest` and the handlers of
-- repository/models/package.py, and the signals of repository/models/package_version.py.
pub mod Newest
use mathlib.Core.List.{reverse}
use thunderstore.Prelude.{
  ℕ, ◌+◌, Bool, true, false, not, Option, none, some, List, [], ◌∷◌, ◌++◌, ◌==ℕ◌, if◌then◌else◌,
  is_none, any, select, update_where, Refusal, Result, ◌>>=◌, ◌>>◌, raise_if, Failure, lift,
  validation, ok, integrity_error, text_eq, sort_by,
}
use thunderstore.Names.{is_package_name}
use thunderstore.Package.{PackageVersion, Package}
use thunderstore.Visibility.{create_public}
use thunderstore.Version.{Version, parse_version}
use thunderstore.Version.Order.{compare_versions, more}

-- A row with its parsed number. `StrictVersion` raises on a number that is none.
pub record Numbered : Type 0 where
  pub row : PackageVersion
  pub number : Version

unfoldable pub parse_numbers : List PackageVersion → Result Failure (List Numbered)
parse_numbers [] = ok []
parse_numbers (v ∷ vs) = do
  number ← parse_version v.version_number
  rest ← parse_numbers vs
  ok (record { row = v; number = number } ∷ rest)

-- `sorted(versions, key=StrictVersion)`, which is stable
abbrev pub not_after : Numbered → Numbered → Bool
not_after a b = elim (compare_versions a.number b.number) [ more ↦ false | _ ↦ true ]

-- `Package.available_versions`
unfoldable pub available_versions : Package → Result Failure (List Numbered)
available_versions p = do
  numbered ← parse_numbers (select (λ (v : PackageVersion). v.is_active) p.versions)
  ok (reverse (sort_by not_after numbered))

abbrev pub head_key : List Numbered → Option ℕ
head_key [] = none
head_key (a ∷ as') = some a.row.pk

-- `Package.recache_latest`
unfoldable pub recache_latest : Package → Result Failure Package
recache_latest p = do
  available ← available_versions p
  ok (record p { latest = head_key available })

-- `handle_created_version`, `handle_updated_version` and `handle_deleted_version`
unfoldable pub handle_created_version : ℕ → Package → Package
handle_created_version now p = record p { date_updated = now; is_deprecated = false }

unfoldable pub handle_updated_version : Package → Result Failure Package
handle_updated_version p = recache_latest p

unfoldable pub handle_deleted_version : Package → Result Failure Package
handle_deleted_version p = recache_latest p

-- `PackageVersion.validate`
unfoldable pub validate_version_row : PackageVersion → Result Refusal (Unit {0})
validate_version_row v =
    raise_if (not (is_package_name v.name))
      (validation "Package names can only contain a-z A-Z 0-9 _ characters")

-- `PackageVersion.save` of a new row, with `post_save`; the constraint is
-- `unique_version_per_package`. The webhooks run after the commit.
unfoldable pub create_version : ℕ → PackageVersion → Package → Result Failure Package
unfolding handle_created_version handle_updated_version
create_version now v p = do
  lift (validate_version_row v)
  raise_if (any (λ (w : PackageVersion). text_eq w.version_number v.version_number) p.versions)
      integrity_error
  let visible : PackageVersion =
      if is_none v.visibility then record v { visibility = some create_public } else v
  handle_updated_version
      (handle_created_version now (record p { versions = p.versions ++ visible ∷ [] }))

-- `PackageVersion.save` of a stored row
unfoldable pub save_version : PackageVersion → Package → Result Failure Package
unfolding handle_updated_version
save_version v p = do
  lift (validate_version_row v)
  handle_updated_version (record p {
    versions = update_where (λ (w : PackageVersion). w.pk ==ℕ v.pk) (λ _. v) p.versions;
  })

-- `PackageVersion.delete`, with `post_delete`
unfoldable pub delete_version : PackageVersion → Package → Result Failure Package
unfolding handle_deleted_version
delete_version v p =
    handle_deleted_version
      (record p { versions = select (λ (w : PackageVersion). not (w.pk ==ℕ v.pk)) p.versions })

-- `_increase_download_counter`
unfoldable pub increase_download_counter : PackageVersion → Package → Result Failure Package
unfolding save_version
increase_download_counter v p = save_version (record v { downloads = v.downloads + 1 }) p

-- `PackageVersion.get_total_used_disk_space`
unfoldable pub total_file_size : List PackageVersion → ℕ
total_file_size [] = 0
total_file_size (v ∷ vs) = v.file_size + total_file_size vs
