-- ===== src/Tests/Releases.antt =====
-- The theorems on archives, manifests and upload forms at concrete inputs.
use thunderstore.Prelude.{
  ℕ, String, ◌≡◌, refl, true, false, none, some, List, [], ◌∷◌, All, ok, Text, codes, text_eq, join,
  int_from, int, decimal, insert_by, sort_by,
}
use thunderstore.Package.{Package, validate_package}
use thunderstore.Manifest.{
  RawManifest, Readers, ValidManifest, get_active_format, validate_manifest, reference_exists,
  validate_icon, validate_markdown,
}
use thunderstore.Form.{
  Archive, UploadLimits, CleanedForm, validate_form, new_version, new_package,
  get_or_create_package, save_form, check_archive, clean,
}
use thunderstore.Zip.{
  ZipInfo, check_unsafe_paths, check_duplicate_filenames, starts_with, contains_text,
  check_zero_offset, check_exceeds_max_file_count_per_zip,
}
use thunderstore.Zip.Paths.{path_parts, NotParent, IsNamed, check_unsafe_paths-parts}
use thunderstore.Tests.Samples.{alice, crew, tables, platform}
use thunderstore.Manifest.Valid.{IsPublishable, validate_manifest-IsPublishable}
use thunderstore.Form.Saving.{stored_version, IsReleased, save_form-IsReleased}
use thunderstore.Form.Valid.{IsAccepted, validate_form-IsAccepted}
use thunderstore.Names.{
  is_alnum, at_end, is_package_name, span_digits, is_nil, digits_then, dot_then, is_package_version,
  is_word, star_to_end,
}
use thunderstore.Reference.{
  reference_of, without_version, does_contain_package, has_duplicate_packages,
}
use thunderstore.Team.{get_membership_for_user}
use thunderstore.Version.{
  number, dot, optional_patch, optional_prerelease, parse_version, version_str,
  validate_version_number,
}
use thunderstore.Permissions.{validate_user}
use thunderstore.Team.Checks.{ensure_can_upload_package}
use thunderstore.Team.Storage.{get_namespace}
use thunderstore.Package.Latest.{
  parse_numbers, available_versions, recache_latest, validate_version_row, create_version,
}

abbrev entry : String → ℕ → ZipInfo
entry name offset = record { filename = codes name; header_offset = offset }

abbrev infolist : List ZipInfo
infolist = entry "manifest.json" 0 ∷ entry "d/a.dll" 40 ∷ []

safe_infolist : check_unsafe_paths infolist ≡ false
unfolding check_unsafe_paths
safe_infolist = refl

check_unsafe_paths-parts_example :
    All
      (λ (e : ZipInfo). All NotParent (path_parts e.filename) × IsNamed (path_parts e.filename))
      infolist
check_unsafe_paths-parts_example = check_unsafe_paths-parts infolist safe_infolist

abbrev unchanged : Text → Text
unchanged s = s

abbrev raw : RawManifest
raw = record {
  name = codes "Mod";
  version_number = codes "1.2.0";
  website_url = [];
  description = [];
  dependencies = [];
  installers = none;
}

abbrev manifest : ValidManifest
manifest = record {
  name = codes "Mod";
  version_number = codes "1.2.0";
  website_url = [];
  description = [];
  dependencies = [];
  installers = [];
}

abbrev readers : Readers
readers = record {
  decode_utf8 = λ s. some s;
  open_image = λ s. some (codes "PNG", 256, 256);
  load_json = λ s. some raw;
  is_url = λ s. true;
}

accept_manifest :
    validate_manifest readers text_eq tables [] [] get_active_format (some alice) (some crew) []
    ≡ ok manifest
unfolding validate_manifest is_package_name is_package_version validate_version_number parse_version
    number dot optional_patch optional_prerelease version_str decimal int ensure_can_upload_package
    validate_user get_membership_for_user reference_of at_end digits_then dot_then span_digits
    is_alnum is_nil reference_exists has_duplicate_packages does_contain_package without_version
    text_eq join int_from
accept_manifest = refl

validate_manifest-IsPublishable_example : IsPublishable tables [] (some alice) crew manifest
validate_manifest-IsPublishable_example =
    validate_manifest-IsPublishable readers text_eq tables [] [] get_active_format (some alice) crew
      [] manifest accept_manifest

abbrev archive : Archive
archive = record { testzip = false; infolist = infolist; read = λ name. some [] }

abbrev limits : UploadLimits
limits = record { max_package_size = 100; max_total_size = 1000; max_file_count_per_zip = 10 }

abbrev form : CleanedForm
form = record {
  manifest = manifest;
  icon = [];
  readme = some [];
  changelog = some [];
  file_size = 1;
  errors = [];
}

accept_form :
    validate_form readers unchanged text_eq
      (λ file. some archive)
      limits
      tables
      []
      []
      0
      alice
      (some (7 ∷ []))
      (some crew)
    ≡ ok form
unfolding validate_manifest is_package_name is_package_version validate_version_number parse_version
    number dot optional_patch optional_prerelease version_str decimal int ensure_can_upload_package
    validate_user get_membership_for_user reference_of at_end digits_then dot_then span_digits
    is_alnum is_nil reference_exists has_duplicate_packages does_contain_package without_version
    text_eq join int_from validate_form clean check_archive check_unsafe_paths
    check_duplicate_filenames check_zero_offset check_exceeds_max_file_count_per_zip validate_icon
    validate_markdown starts_with contains_text
accept_form = refl

validate_form-IsAccepted_example :
    (a : Archive) × (some archive ≡ some a)
    × IsAccepted unchanged limits tables [] 0 alice crew (7 ∷ []) a form
validate_form-IsAccepted_example =
    validate_form-IsAccepted readers unchanged text_eq (λ file. some archive) limits tables [] [] 0
      alice crew (7 ∷ []) form accept_form

abbrev released : Package
released = record (new_package 80 2000 crew (codes "Mod")) {
  latest = some 80;
  versions = stored_version (new_version 80 form) ∷ [];
}

save : save_form platform 80 2000 tables [] alice crew false [] form ≡ ok (released, tables)
unfolding save_form ensure_can_upload_package validate_user get_membership_for_user get_namespace
    text_eq validate_package is_package_name create_version validate_version_row recache_latest
    available_versions parse_numbers parse_version number is_nil span_digits at_end is_alnum is_word
    star_to_end int int_from sort_by insert_by dot optional_patch optional_prerelease
save = refl

save_form-IsReleased_example :
    (p : Package) × (get_or_create_package 80 2000 crew form.manifest.name [] ≡ ok p)
    × IsReleased 2000 80 form p released
save_form-IsReleased_example =
    save_form-IsReleased platform 80 2000 tables [] alice crew false [] form released tables save
