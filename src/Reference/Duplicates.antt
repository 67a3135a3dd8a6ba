-- ===== src/Reference/Duplicates.antt =====
-- `does_contain_package` and `has_duplicate_packages` of repository/utils.py, and the comparisons of
-- repository/package_reference.py.
use thunderstore.Prelude.{
  ◌≡◌, sym, ap, ◌∙◌, ◌↔◌, true, false, Option, none, some, List, arith, Any, some_inj, any_iff,
  Any-map, Text, text_eq_iff,
}
use thunderstore.Reference.{
  PackageReference, version_eq, is_same_package, is_same_version, without_version,
  does_contain_package, is_duplicate, has_duplicate_packages, reference_gt, reference_lt,
}
use thunderstore.Version.{Version}
use thunderstore.Version.Order.{
  compare_versions, compare_versions-flip, compare_versions_same, same,
}

abbrev pub SamePackage : PackageReference → PackageReference → Type 0
SamePackage a b = (a.namespace ≡ b.namespace) × (a.name ≡ b.name)

is_same_package_iff : (a b : PackageReference) → (is_same_package a b ≡ true) ↔ SamePackage a b
unfolding is_same_package
is_same_package_iff a b =
    ground (arith, text_eq_iff a.namespace b.namespace, text_eq_iff a.name b.name)

-- Without their versions, references are equal if they name one package.
pub same_without_version :
    (a b : PackageReference)
    → is_same_version (without_version a) (without_version b) ≡ is_same_package a b
unfolding is_same_version without_version is_same_package
same_without_version a b = ground arith

-- `does_contain_package` answers whether one of the references names the package, whatever the
-- versions are.
pub does_contain_package_iff :
    (packages : List PackageReference) (wanted : PackageReference)
    → (does_contain_package packages wanted ≡ true) ↔ Any (λ r. SamePackage r wanted) packages
unfolding does_contain_package
does_contain_package_iff packages wanted = (
  λ h.
      Any-map packages
        (λ r k. (is_same_package_iff r wanted).0 (sym (same_without_version r wanted) ∙ k))
        ((any_iff _ packages).0 h),
  λ h. (any_iff _ packages).1 (
      Any-map packages (λ r k. same_without_version r wanted ∙ (is_same_package_iff r wanted).1 k)
        h),
)

-- Two references to one package whose versions differ.
abbrev pub IsConflict : PackageReference → PackageReference → Type 0
IsConflict a b = SamePackage a b × (version_eq a.version b.version ≡ false)

is_duplicate_iff : (a b : PackageReference) → (is_duplicate a b ≡ true) ↔ IsConflict a b
unfolding is_duplicate is_same_version
is_duplicate_iff a b = ground (arith, is_same_package_iff a b, same_without_version a b)

-- `has_duplicate_packages` answers whether two of the references name one package with versions
-- that differ; a reference that stands in the list twice is no duplicate.
pub has_duplicate_packages_iff :
    (packages : List PackageReference)
    → (has_duplicate_packages packages ≡ true)
      ↔ Any (λ a. Any (λ b. IsConflict a b) packages) packages
unfolding has_duplicate_packages
has_duplicate_packages_iff packages = (
  λ h.
      Any-map packages
        (λ a k.
          Any-map packages (λ b. (is_duplicate_iff a b).0)
            ((any_iff (is_duplicate a) packages).0 k))
        ((any_iff _ packages).0 h),
  λ h. (any_iff _ packages).1 (
      Any-map packages
        (λ a k.
          (any_iff (is_duplicate a) packages).1
            (Any-map packages (λ b. (is_duplicate_iff a b).1) k))
        h),
)

compare_versions_refl : (v : Version) → compare_versions v v ≡ same
compare_versions_refl v = ground (arith, compare_versions-flip v v)

version_eq_iff : (v w : Option Version) → (version_eq v w ≡ true) ↔ (v ≡ w)
version_eq_iff none none = ground arith
version_eq_iff (some v) none = ground arith
version_eq_iff none (some w) = ground arith
version_eq_iff (some v) (some w) = (
  λ h. ap some (compare_versions_same v w (ground arith)),
  λ h. rw (some_inj h) (ground (arith, compare_versions_refl w)),
)

-- `==` of references holds exactly between references with the same namespace, name and version,
-- the pre-release of the version included.
pub is_same_version_iff : (a b : PackageReference) → (is_same_version a b ≡ true) ↔ (a ≡ b)
unfolding is_same_version
is_same_version_iff a b =
    ground (arith, is_same_package_iff a b, version_eq_iff a.version b.version)

is_same_package-sym : (a b : PackageReference) → is_same_package a b ≡ is_same_package b a
unfolding is_same_package
is_same_package-sym a b = ground (
  arith,
  text_eq_iff a.namespace b.namespace,
  text_eq_iff a.name b.name,
  text_eq_iff b.namespace a.namespace,
  text_eq_iff b.name a.name,
)

gt-eq-lt_parts :
    (n m : Text) (v : Option Version) (n' m' : Text) (w : Option Version)
    → let a : PackageReference = record { namespace = n; name = m; version = v } in
      let b : PackageReference = record { namespace = n'; name = m'; version = w } in
      reference_gt a b ≡ reference_lt b a
unfolding reference_gt reference_lt
gt-eq-lt_parts n m none n' m' w = ground (
  arith,
  is_same_package-sym (record { namespace = n; name = m; version = none })
      (record { namespace = n'; name = m'; version = w }),
)
gt-eq-lt_parts n m (some v) n' m' none = ground (
  arith,
  is_same_package-sym (record { namespace = n; name = m; version = some v })
      (record { namespace = n'; name = m'; version = none }),
)
gt-eq-lt_parts n m (some v) n' m' (some w) = ground (
  arith,
  is_same_package-sym (record { namespace = n; name = m; version = some v })
      (record { namespace = n'; name = m'; version = some w }),
  compare_versions-flip v w,
)

-- Of two references that can be compared, the first is greater exactly when the second is less; and
-- where one comparison raises, so does the other.
pub reference_gt-eq-lt : (a b : PackageReference) → reference_gt a b ≡ reference_lt b a
reference_gt-eq-lt a b = gt-eq-lt_parts a.namespace a.name a.version b.namespace b.name b.version
