-- ===== src/Manifest.antt =====
-- The checks of a package's manifest.json, icon and texts: repository/package_manifest.py,
-- repository/serializer_fields.py and repository/validation/. The readers of JSON, images and UTF-8
-- are parameters, and the database is the list of its packages.
pub mod Valid
use thunderstore.Prelude.{
  ℕ, ◌*◌, Bool, true, false, not, ◌&&◌, ◌||◌, Option, none, some, List, [], ◌∷◌, ltb, ◌==ℕ◌,
  if◌then◌else◌, length, any, all, Refusal, Result, ◌>>=◌, ◌>>◌, raise_if, Failure, lift,
  validation, permission, ok, err, refused, Text, codes, text_eq,
}
use thunderstore.Names.{is_package_name, is_nil, is_package_version}
use thunderstore.Package.{PackageVersion, Package}
use thunderstore.Reference.{
  PackageReference, reference_of, parse, without_version, validate_reference, does_contain_package,
  has_duplicate_packages,
}
use thunderstore.Zip.{starts_with}
use thunderstore.Team.{Team, Db}
use thunderstore.Version.{version_str, validate_version_number}
use thunderstore.Permissions.{User}
use thunderstore.Team.Checks.{can_user_upload}

-- A manifest as its fields read it, before their validators
pub record RawManifest : Type 0 where
  pub name : Text
  pub version_number : Text
  pub website_url : Text
  pub description : Text
  pub dependencies : List Text
  pub installers : Option (List Text)

-- What the libraries answer
pub record Readers : Type 0 where
  pub decode_utf8 : Text → Option Text
  -- the format and the dimensions of an image
  pub open_image : Text → Option (Text × ℕ × ℕ)
  -- `json.loads`, with what the fields of the serializer take it for
  pub load_json : Text → Option RawManifest
  pub is_url : Text → Bool

-- `validated_data`
pub record ValidManifest : Type 0 where
  pub name : Text
  pub version_number : Text
  pub website_url : Text
  pub description : Text
  pub dependencies : List PackageReference
  pub installers : List Text

-- PackageFormats
pub data PackageFormats : Type 0 where
  v0_0 v0_1 v0_2 v0_3 : PackageFormats

abbrev pub is_supported_format : PackageFormats → Bool
is_supported_format v0_0 = false
is_supported_format _ = true

abbrev pub get_active_format : PackageFormats
get_active_format = v0_3

-- `PackageReference.exists`, over the rows
abbrev pub is_package_of : PackageReference → Package → Bool
is_package_of r p = text_eq p.owner.name r.namespace && text_eq p.name r.name

unfoldable pub reference_exists : List Package → PackageReference → Bool
reference_exists packages r = elim r.version [
  | none ↦ any (is_package_of r) packages
  | some v ↦
      any
        (λ (p : Package).
          is_package_of r p
          && any (λ (w : PackageVersion). text_eq w.version_number (version_str v)) p.versions)
        packages
]

-- `package_exists_in_any_case`; `iexact` is the comparison of the database.
unfoldable pub package_exists_in_any_case : (Text → Text → Bool) → List Package → Text → Text → Bool
package_exists_in_any_case iexact packages namespace name =
    any (λ (p : Package). text_eq p.owner.name namespace && iexact p.name name) packages

-- `DependencyField`
unfoldable pub read_dependency : List Package → Text → Result Refusal PackageReference
read_dependency packages s = do
  validate_reference (reference_exists packages) true true s
  elim (parse s) [ ok r ↦ ok r | err e ↦ err (validation "Invalid package reference string") ]

unfoldable pub read_dependencies : List Package → List Text → Result Refusal (List PackageReference)
unfolding read_dependency
read_dependencies packages [] = ok []
read_dependencies packages (s ∷ ss) = do
  r ← read_dependency packages s
  rest ← read_dependencies packages ss
  ok (r ∷ rest)

-- `validate_unique_installers`
unfoldable pub has_seen_installer : List Text → List Text → Bool
has_seen_installer seen [] = false
has_seen_installer seen (i ∷ is) =
    let rest = has_seen_installer (i ∷ seen) is in if any (text_eq i) seen then true else rest

unfoldable pub read_installers : List Text → Option (List Text) → Result Refusal (List Text)
unfolding has_seen_installer
read_installers known none = ok []
read_installers known (some is) = do
  raise_if (not (all (λ i. any (text_eq i) known) is)) (validation "Matching installer not found.")
  raise_if (ltb (length is) 1) (validation "This list may not be empty.")
  raise_if (ltb 100 (length is)) (validation "Ensure this field has no more than 100 elements.")
  raise_if (has_seen_installer [] is) (validation "Duplicate use of installer")
  ok is

-- The text fields of ManifestV1Serializer. The serializer gathers the errors of all fields, and any
-- error is a failure.
unfoldable pub validate_texts : Readers → RawManifest → Result Refusal (Unit {0})
validate_texts readers m = do
  raise_if (ltb 128 (length m.name) || not (is_package_name m.name))
      (validation "Package names can only contain a-z A-Z 0-9 _ characters")
  raise_if (ltb 16 (length m.version_number) || not (is_package_version m.version_number))
      (validation "Version numbers must follow the Major.Minor.Patch format")
  raise_if
      (not (is_nil m.website_url)
        && (ltb 1024 (length m.website_url) || not (readers.is_url m.website_url)))
      (validation "Enter a valid URL.")
  raise_if (ltb 256 (length m.description)) (validation "Ensure this field is not too long.")
  raise_if (ltb 1000 (length m.dependencies)) (validation "Ensure this field is not too long.")
  validate_version_number m.version_number

-- All its fields
unfoldable pub validate_fields :
    Readers → List Package → List Text → RawManifest → Result Refusal ValidManifest
unfolding validate_texts read_dependencies read_installers
validate_fields readers packages known m = do
  validate_texts readers m
  dependencies ← read_dependencies packages m.dependencies
  installers ← read_installers known m.installers
  ok (record {
    name = m.name;
    version_number = m.version_number;
    website_url = m.website_url;
    description = m.description;
    dependencies = dependencies;
    installers = installers;
  })

-- `ManifestV1Serializer.validate`
unfoldable pub validate_data :
    (Text → Text → Bool)
    → Db
    → List Package
    → Option User
    → Option Team
    → ValidManifest
    → Result Failure (Unit {0})
unfolding reference_exists package_exists_in_any_case
validate_data iexact db packages user none m =
    err (refused (validation "Unable to validate package when no team is selected"))
validate_data iexact db packages user (some team) m = do
  raise_if (not (can_user_upload db team user))
      (refused (permission "Missing privileges to upload under author"))
  reference ← reference_of team.name m.name (some m.version_number)
  raise_if (reference_exists packages reference)
      (refused (validation "Package of the same namespace, name and version already exists"))
  raise_if (has_duplicate_packages m.dependencies)
      (refused (validation "Cannot depend on multiple versions of the same package"))
  raise_if (does_contain_package m.dependencies reference)
      (refused (validation "Package depending on itself is not allowed"))
  raise_if
      (not (reference_exists packages (without_version reference))
        && package_exists_in_any_case iexact packages reference.namespace reference.name)
      (refused (validation "Package name already exists with different capitalization"))

-- `validate_manifest`
unfoldable pub validate_manifest :
    Readers
    → (Text → Text → Bool)
    → Db
    → List Package
    → List Text
    → PackageFormats
    → Option User
    → Option Team
    → Text
    → Result Failure ValidManifest
unfolding validate_fields validate_data
validate_manifest readers iexact db packages known format_spec user team manifest_data = do
  raise_if (not (is_supported_format format_spec))
      (refused (validation "Unsupported package format"))
  raw ← elim (readers.load_json manifest_data) [
    | none ↦ err (refused (validation "Unable to parse manifest.json"))
    | some m ↦ ok m
  ]
  m ← lift (validate_fields readers packages known raw)
  validate_data iexact db packages user team m
  ok m

-- `validate_icon`
abbrev pub max_icon_size : ℕ
max_icon_size = 1024 * 1024 * 6

unfoldable pub validate_icon : Readers → Text → Result Refusal Text
validate_icon readers icon_data = do
  raise_if (ltb max_icon_size (length icon_data)) (validation "icon.png filesize is too big")
  (format, width, height) ← elim (readers.open_image icon_data) [
    | none ↦ err (validation "Unsupported or corrupt icon, must be png")
    | some i ↦ ok i
  ]
  raise_if (not (text_eq format (codes "PNG"))) (validation "Icon must be in png format")
  raise_if (not (width ==ℕ 256 && height ==ℕ 256))
      (validation "Invalid icon dimensions, must be 256x256")
  ok icon_data

-- `validate_markdown`
abbrev pub max_markdown_size : ℕ
max_markdown_size = 1000 * 100

unfoldable pub validate_markdown : Readers → Text → Result Refusal Text
validate_markdown readers readme_data = do
  readme ← elim (readers.decode_utf8 readme_data) [
    | none ↦ err (validation "Unable to parse as UTF-8")
    | some s ↦ ok s
  ]
  raise_if (ltb max_markdown_size (length readme)) (validation "too long")
  raise_if (starts_with (239 ∷ 187 ∷ 191 ∷ []) readme_data) (validation "starts with a UTF-8 BOM")
  ok readme
