-- ===== src/Form.antt =====
-- repository/package_upload.py: the form that an uploaded package passes, and what saving it writes.
-- The package's file is opened by `zipfile`, which is a parameter. The communities and their
-- categories are those that the form's fields found.
pub mod Valid
pub mod Saving
pub mod Categories
use thunderstore.Prelude.{
  ℕ, suc, ◌+◌, String, Bool, true, false, not, ◌&&◌, Option, none, some, List, [], ◌∷◌, ◌++◌, ltb,
  ◌==ℕ◌, length, first, Refusal, Result, ◌>>=◌, ◌>>◌, raise_if, Failure, lift, validation, ok, err,
  refused, Text, codes, text_eq,
}
use thunderstore.Package.{Package, PackageVersion, validate_package}
use thunderstore.Manifest.{
  Readers, ValidManifest, get_active_format, validate_manifest, validate_icon, validate_markdown,
}
use thunderstore.Zip.{
  ZipInfo, check_unsafe_paths, check_zero_offset, check_duplicate_filenames,
  check_exceeds_max_file_count_per_zip,
}
use thunderstore.Team.{Team, Db}
use thunderstore.Permissions.{User}
use thunderstore.Team.Checks.{ensure_can_upload_package}
use thunderstore.Visibility.{create_public}
use thunderstore.Community.{Community, unreviewed}
use thunderstore.Team.Storage.{Platform, get_namespace}
use thunderstore.Package.Listings.{update_listing}
use thunderstore.Package.Latest.{create_version}

-- What `ZipFile` gives of a file: whether `testzip` finds a bad entry, the entries, and `read`, which
-- raises KeyError on a missing name
pub record Archive : Type 0 where
  pub testzip : Bool
  pub infolist : List ZipInfo
  pub read : Text → Option Text

pub record UploadLimits : Type 0 where
  pub max_package_size : ℕ
  pub max_total_size : ℕ
  pub max_file_count_per_zip : ℕ

-- What `clean` leaves in the form; `errors` are those that `validate_markdown` adds.
pub record CleanedForm : Type 0 where
  pub manifest : ValidManifest
  pub icon : Text
  pub readme : Option Text
  pub changelog : Option Text
  pub file_size : ℕ
  pub errors : List Refusal

-- `PackageUploadForm.validate_markdown`
unfoldable pub clean_markdown : Readers → Text → Option Text × List Refusal
clean_markdown readers contents = elim (validate_markdown readers contents) [
  | ok s ↦ (some s, [])
  | err e ↦ (none, e ∷ [])
]

unfoldable pub clean_changelog : Readers → Option Text → Option Text × List Refusal
unfolding clean_markdown
clean_changelog readers none = (none, [])
clean_changelog readers (some contents) = clean_markdown readers contents

abbrev pub read_entry : Archive → Text → String → Result Failure Text
read_entry archive name message = elim (archive.read name) [
  | none ↦ err (refused (validation message))
  | some contents ↦ ok contents
]

-- The checks of the archive's entries in `clean`
unfoldable pub check_archive : (Text → Text) → ℕ → Archive → Team → Result Failure (Unit {0})
check_archive lower limit archive team = do
  raise_if archive.testzip (refused (validation "Corrupted zip file"))
  raise_if (check_unsafe_paths archive.infolist)
      (refused (validation "There is an error with the zip's folder structure"))
  raise_if (not (check_zero_offset archive.infolist))
      (refused (validation "The zip includes bogus data at the beginning of the file."))
  raise_if (check_duplicate_filenames lower archive.infolist)
      (refused (validation "The zip includes multiple files with the same file name."))
  raise_if (check_exceeds_max_file_count_per_zip limit archive.infolist team)
      (refused (validation "There are too many files in the zip."))

-- The checks of the file's size; `used` is `PackageVersion.get_total_used_disk_space()`.
unfoldable pub check_sizes : UploadLimits → ℕ → Text → Result Failure (Unit {0})
check_sizes limits used file = do
  raise_if (ltb limits.max_package_size (length file)) (refused (validation "Too large package"))
  raise_if (ltb limits.max_total_size (length file + used))
      (refused (validation "The server has reached maximum total storage used"))

abbrev pub opened : Option Archive → Result Failure Archive
opened none = err (refused (validation "Invalid zip file format"))
opened (some archive) = ok archive

module _ (readers : Readers) (lower : Text → Text) (iexact : Text → Text → Bool)
    (open_zip : Text → Option Archive) (limits : UploadLimits) where
  -- What `clean` reads from the archive
  unfoldable pub clean_entries :
      Db → List Package → List Text → User → ℕ → Team → Archive → Result Failure CleanedForm
  unfolding clean_markdown clean_changelog
  clean_entries db packages known user file_size team archive = do
    manifest_data ← read_entry archive (codes "manifest.json") "Package is missing manifest.json"
    manifest ←
        validate_manifest readers iexact db packages known get_active_format (some user) (some team)
          manifest_data
    icon_data ← read_entry archive (codes "icon.png") "Package is missing icon.png"
    icon ← lift (validate_icon readers icon_data)
    readme_data ← read_entry archive (codes "README.md") "Package is missing README.md"
    let (readme, readme_errors) = clean_markdown readers readme_data
    let (changelog, changelog_errors) =
        clean_changelog readers (archive.read (codes "CHANGELOG.md"))
    ok (record {
      manifest = manifest;
      icon = icon;
      readme = readme;
      changelog = changelog;
      file_size = file_size;
      errors = readme_errors ++ changelog_errors;
    })

  -- `clean`: the file and the team are missing if their fields are not valid.
  unfoldable pub clean :
      Db
      → List Package
      → List Text
      → ℕ
      → User
      → Option Text
      → Option Team
      → Result Failure CleanedForm
  unfolding check_sizes check_archive clean_entries
  clean db packages known used user none team = err (refused (validation "Must upload a file"))
  clean db packages known used user (some file) none =
      err (refused (validation "A team must be selected"))
  clean db packages known used user (some file) (some team) = do
    check_sizes limits used file
    archive ← opened (open_zip file)
    check_archive lower limits.max_file_count_per_zip archive team
    clean_entries db packages known user (length file) team archive

  -- `is_valid`, after `clean_team`
  unfoldable pub validate_form :
      Db
      → List Package
      → List Text
      → ℕ
      → User
      → Option Text
      → Option Team
      → Result Failure CleanedForm
  unfolding clean
  validate_form db packages known used user file team = do
    elim team [ none ↦ ok tt | some t ↦ lift (ensure_can_upload_package db t (some user)) ]
    form ← clean db packages known used user file team
    elim form.errors [ [] ↦ ok form | e ∷ es ↦ err (refused e) ]

-- The listings that `save` updates, with the categories that the form has for each community
unfoldable pub update_listings : ℕ → Bool → List (Community × List ℕ) → Package → Package
update_listings fresh has_nsfw_content [] p = p
update_listings fresh has_nsfw_content ((c, categories) ∷ rest) p =
    update_listings (suc fresh) has_nsfw_content rest
      (update_listing fresh has_nsfw_content categories c p)

-- The row that `save` makes
abbrev pub new_version : ℕ → CleanedForm → PackageVersion
new_version pk form = record {
  pk = pk;
  name = form.manifest.name;
  version_number = form.manifest.version_number;
  is_active = true;
  review_status = unreviewed;
  visibility = none;
  downloads = 0;
  file_size = form.file_size;
}

abbrev pub new_package : ℕ → ℕ → Team → Text → Package
new_package pk now team name = record {
  pk = pk;
  owner = team;
  name = name;
  is_active = true;
  is_deprecated = false;
  date_updated = now;
  latest = none;
  visibility = some create_public;
  versions = [];
  listings = [];
}

-- `Package.objects.get_or_create(owner=team, name=name, namespace=namespace)`; a package's namespace
-- is its owner's.
unfoldable pub get_or_create_package : ℕ → ℕ → Team → Text → List Package → Result Failure Package
get_or_create_package fresh now team name packages =
    elim (first (λ (p : Package). (p.owner.pk ==ℕ team.pk) && text_eq p.name name) packages) [
      | some p ↦ ok p
      | none ↦ do let p = new_package fresh now team name; lift (validate_package p); ok p
    ]

-- `save`: the package as it is stored then, and the teams' tables. `fresh` is a key that nothing has.
unfoldable pub save_form :
    Platform
    → ℕ
    → ℕ
    → Db
    → List Package
    → User
    → Team
    → Bool
    → List (Community × List ℕ)
    → CleanedForm
    → Result Failure (Package × Db)
unfolding update_listings get_or_create_package
save_form platform fresh now db packages user team has_nsfw_content communities form = do
  lift (ensure_can_upload_package db team (some user))
  (namespace, db') ← get_namespace platform team db
  p ← get_or_create_package fresh now team form.manifest.name packages
  let listed = update_listings (suc fresh) has_nsfw_content communities p
  p' ← create_version now (new_version fresh form) listed
  ok (p', db')
