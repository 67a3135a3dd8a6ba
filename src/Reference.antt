-- ===== src/Reference.antt =====
-- repository/package_reference.py, the validator of references in repository/validators.py, and
-- the scans over references in repository/utils.py.
pub mod Splitting
pub mod Roundtrip
pub mod Duplicates
use thunderstore.Prelude.{
  ℕ, zero, suc, ◌+◌, ◌-◌, Bool, true, false, not, ◌&&◌, ◌||◌, Option, none, some, List, [], ◌∷◌,
  ◌++◌, ltb, ◌==ℕ◌, if◌then◌else◌, is_none, is_some, length, any, Refusal, Result, ◌>>=◌, ◌>>◌,
  raise_if, Failure, validation, ok, err, value_error, type_error, Text, text_eq, split, join,
  count,
}
use thunderstore.Names.{is_nil}
use thunderstore.Version.{Version, parse_version, version_str}
use thunderstore.Version.Order.{Sign, compare_versions, less, same, more}

pub record PackageReference : Type 0 where
  pub namespace : Text
  pub name : Text
  pub version : Option Version

-- `split("-")[-1]`
unfoldable pub last_part : List Text → Text
last_part [] = []
last_part (p ∷ []) = p
last_part (p ∷ q ∷ ps) = last_part (q ∷ ps)

-- `split("-")[:-1]`
unfoldable pub init_parts : List Text → List Text
init_parts [] = []
init_parts (p ∷ []) = []
init_parts (p ∷ q ∷ ps) = p ∷ init_parts (q ∷ ps)

unfoldable pub take : ℕ → Text → Text
take zero s = []
take (suc n) [] = []
take (suc n) (c ∷ s) = c ∷ take n s

-- `PackageReference(namespace, name, version)` where the version is a text
unfoldable pub reference_of : Text → Text → Option Text → Result Failure PackageReference
reference_of namespace name none =
    ok (record { namespace = namespace; name = name; version = none })
reference_of namespace name (some version) = do
  v ← parse_version version
  ok (record { namespace = namespace; name = name; version = some v })

unfoldable pub version_str_of : PackageReference → Text
version_str_of r = elim r.version [ none ↦ [] | some v ↦ version_str v ]

-- `str(reference)`
unfoldable pub reference_str : PackageReference → Text
reference_str r = elim r.version [
  | none ↦ r.namespace ++ b'-' ∷ r.name
  | some v ↦ (r.namespace ++ b'-' ∷ r.name) ++ b'-' ∷ version_str v
]

-- What `parse` does once the version is off.
unfoldable pub parse_unversioned : Option Version → Text → Result Failure PackageReference
parse_unversioned version unparsed =
    let parts = split b'-' unparsed in
    let name = last_part parts in
    let namespace = join b'-' (init_parts parts) in
    if is_nil namespace || is_nil name
    then err value_error
    else ok (record { namespace = namespace; name = name; version = version })

-- The branch of `parse` for a text whose last part has a dot.
unfoldable pub parse_versioned : Text → Text → Result Failure PackageReference
parse_versioned version_string unparsed = do
  raise_if (not (count b'.' version_string ==ℕ 2)) value_error
  raise_if (ltb (count b'-' unparsed) 2) value_error
  version ← parse_version version_string
  parse_unversioned (some version) (take (length unparsed - (length version_string + 1)) unparsed)

-- `PackageReference.parse`
unfoldable pub parse : Text → Result Failure PackageReference
parse unparsed =
    let version_string = last_part (split b'-' unparsed) in
    if ltb 0 (count b'.' version_string)
    then parse_versioned version_string unparsed
    else parse_unversioned none unparsed

abbrev pub version_eq : Option Version → Option Version → Bool
version_eq none none = true
version_eq (some v) none = false
version_eq none (some w) = false
version_eq (some v) (some w) = elim (compare_versions v w) [ same ↦ true | _ ↦ false ]

unfoldable pub is_same_package : PackageReference → PackageReference → Bool
is_same_package a b = text_eq a.namespace b.namespace && text_eq a.name b.name

-- `__eq__`
unfoldable pub is_same_version : PackageReference → PackageReference → Bool
unfolding is_same_package
is_same_version a b = if is_same_package a b then version_eq a.version b.version else false

-- What `__gt__` and `__lt__` ask before they compare the versions
unfoldable pub compare_references : PackageReference → PackageReference → Result Failure Sign
compare_references a b = if not (is_same_package a b) then err type_error else elim a.version [
  | none ↦ err type_error
  | some v ↦ elim b.version [ none ↦ err type_error | some w ↦ ok (compare_versions v w) ]
]

unfoldable pub reference_gt : PackageReference → PackageReference → Result Failure Bool
unfolding compare_references
reference_gt a b = do s ← compare_references a b; ok (elim s [ more ↦ true | _ ↦ false ])

unfoldable pub reference_lt : PackageReference → PackageReference → Result Failure Bool
unfolding compare_references
reference_lt a b = do s ← compare_references a b; ok (elim s [ less ↦ true | _ ↦ false ])

unfoldable pub without_version : PackageReference → PackageReference
without_version r = if is_some r.version then record r { version = none } else r

unfoldable pub with_version : PackageReference → Option Text → Result Failure PackageReference
with_version r version = reference_of r.namespace r.name version

-- `PackageReferenceValidator(require_version, resolve)`; `resolves` tells whether the database has
-- the package or the version.
unfoldable pub validate_reference :
    (PackageReference → Bool) → Bool → Bool → Text → Result Refusal (Unit {0})
validate_reference resolves require_version resolve value = elim (parse value) [
  | err e ↦ err (validation "Invalid package reference string")
  | ok r ↦ do
    raise_if (is_none r.version && require_version)
        (validation "Package reference is missing version")
    raise_if (resolve && not (resolves r)) (validation "No matching package found for reference")
]

-- `does_contain_package`
unfoldable pub does_contain_package : List PackageReference → PackageReference → Bool
does_contain_package packages wanted =
    any (λ r. is_same_version (without_version r) (without_version wanted)) packages

-- One round of the inner loop of `has_duplicate_packages`
unfoldable pub is_duplicate : PackageReference → PackageReference → Bool
is_duplicate a b =
    if is_same_version a b then false else is_same_version (without_version a) (without_version b)

unfoldable pub has_duplicate_packages : List PackageReference → Bool
unfolding is_duplicate
has_duplicate_packages packages = any (λ a. any (is_duplicate a) packages) packages
