-- ===== src/Manifest/Valid.antt =====
-- The manifests that repository/package_manifest.py accepts.
use thunderstore.Prelude.{
  ◌≡◌, refl, subst, inl, inr, Bool, true, false, not, ◌&&◌, Option, none, some, List, [], ◌∷◌,
  arith, Option-cases, is_some, any, Any, All, any_iff, Any-map, raise_if, >>=-eq-ok, >>-eq-ok,
  lift, lift-eq-ok, Result-cases, ok_inj, validation, ok, err, refused, Text, text_eq, text_eq_iff,
}
use thunderstore.Package.{Package, PackageVersion}
use thunderstore.Manifest.{
  reference_exists, read_dependency, read_dependencies, RawManifest, Readers, ValidManifest,
  validate_fields, validate_data, read_installers, validate_texts, PackageFormats,
  is_supported_format, validate_manifest, is_package_of,
}
use thunderstore.Reference.{
  PackageReference, parse, validate_reference, reference_of, does_contain_package,
  has_duplicate_packages,
}
use thunderstore.Names.{is_package_name}
use thunderstore.Team.{Team, Db}
use thunderstore.Version.{Version, version_str, validate_version_number, number}
use thunderstore.Permissions.{User}
use thunderstore.Team.Checks.{can_user_upload}
use thunderstore.Version.Roundtrip.{validate_version_number_iff}

-- The package has the reference's namespace and name, and a version with the number.
abbrev pub HasVersion : PackageReference → Version → Package → Type 0
HasVersion r v p =
    (p.owner.name ≡ r.namespace)
    × (p.name ≡ r.name)
    × Any (λ (w : PackageVersion). w.version_number ≡ version_str v) p.versions

HasVersion-of :
    (r : PackageReference) (v : Version) (p : Package)
    → (is_package_of r p
        && any (λ (w : PackageVersion). text_eq w.version_number (version_str v)) p.versions)
      ≡ true
    → HasVersion r v p
HasVersion-of r v p h =
    let found : any (λ (w : PackageVersion). text_eq w.version_number (version_str v)) p.versions
        ≡ true =
      ground arith in
    (
      (text_eq_iff p.owner.name r.namespace).0 (ground arith),
      (text_eq_iff p.name r.name).0 (ground arith),
      Any-map p.versions (λ w k. (text_eq_iff w.version_number (version_str v)).0 k)
          ((any_iff (λ (w : PackageVersion). text_eq w.version_number (version_str v)) p.versions).0
            found),
    )

HasVersion-found :
    (r : PackageReference) (v : Version) (p : Package)
    → HasVersion r v p
    → (is_package_of r p
        && any (λ (w : PackageVersion). text_eq w.version_number (version_str v)) p.versions)
      ≡ true
HasVersion-found r v p (owner, name, versions) =
    let same_owner = (text_eq_iff p.owner.name r.namespace).1 owner in
    let same_name = (text_eq_iff p.name r.name).1 name in
    let found =
      (any_iff (λ (w : PackageVersion). text_eq w.version_number (version_str v)) p.versions).1
        (Any-map p.versions (λ w k. (text_eq_iff w.version_number (version_str v)).1 k) versions) in
    rw (same_owner, same_name, found) refl

module _ (packages : List Package) where
  -- A version is stored that the reference names.
  abbrev pub IsStored : PackageReference → Type 0
  IsStored r = (v : Version) × (r.version ≡ some v) × Any (HasVersion r v) packages

  reference_exists-IsStored :
      (r : PackageReference)
      → is_some r.version ≡ true
      → reference_exists packages r ≡ true
      → IsStored r
  unfolding reference_exists
  reference_exists-IsStored r s h = elim (Option-cases r.version) [
    | inl e ↦ absurd (ground arith)
    | inr (v, e) ↦
        (v, e, Any-map packages (λ p k. HasVersion-of r v p k) ((any_iff _ packages).0 (rw e at h)))
  ]

  IsStored-reference_exists :
      (r : PackageReference) → IsStored r → reference_exists packages r ≡ true
  unfolding reference_exists
  IsStored-reference_exists r (v, e, found) =
      rw e ((any_iff _ packages).1 (Any-map packages (λ p k. HasVersion-found r v p k) found))

  validate_reference-IsStored :
      (s : Text) (r : PackageReference)
      → parse s ≡ ok r
      → validate_reference (reference_exists packages) true true s ≡ ok tt
      → IsStored r
  unfolding validate_reference
  validate_reference-IsStored s r e h = reference_exists-IsStored r (ground arith) (ground arith)

  read_dependency-IsStored :
      (s : Text) (r : PackageReference) → read_dependency packages s ≡ ok r → IsStored r
  unfolding read_dependency
  read_dependency-IsStored s r h =
      let (checked, parsed) =
        >>-eq-ok (validate_reference (reference_exists packages) true true s) _ h in
      elim (Result-cases (parse s)) [
        | inl (q, e) ↦
            let here : q ≡ r = ok_inj (rw e at parsed) in
            subst IsStored here (validate_reference-IsStored s q e checked)
        | inr (x, e) ↦ cc (rw e at parsed)
      ]

  read_dependencies-IsStored :
      (ss : List Text) (rs : List PackageReference)
      → read_dependencies packages ss ≡ ok rs
      → All IsStored rs
  unfolding read_dependencies
  read_dependencies-IsStored [] rs h = subst (All IsStored) (ok_inj h) tt
  read_dependencies-IsStored (s ∷ ss) rs h =
      let (r, first_ok, h₁) = >>=-eq-ok (read_dependency packages s) _ h in
      let (qs, rest_ok, h₂) = >>=-eq-ok (read_dependencies packages ss) _ h₁ in
      subst (All IsStored) (ok_inj h₂)
        (read_dependency-IsStored s r first_ok, read_dependencies-IsStored ss qs rest_ok)

-- What a manifest has that is accepted for a team.
pub record IsPublishable (db : Db) (packages : List Package) (user : Option User) (team : Team)
    (m : ValidManifest) : Type 0 where
  pub uploader : can_user_upload db team user ≡ true
  pub name : is_package_name m.name ≡ true
  pub version : Version
  pub release : version.prerelease ≡ none
  pub version_number : m.version_number ≡ version_str version
  pub reference : PackageReference
  pub named : reference_of team.name m.name (some m.version_number) ≡ ok reference
  pub fresh : ¬ IsStored packages reference
  pub stored : All (IsStored packages) m.dependencies
  pub no_duplicates : has_duplicate_packages m.dependencies ≡ false
  pub not_itself : does_contain_package m.dependencies reference ≡ false

validate_texts-valid :
    (readers : Readers) (raw : RawManifest)
    → validate_texts readers raw ≡ ok tt
    → (is_package_name raw.name ≡ true) × (validate_version_number raw.version_number ≡ ok tt)
unfolding validate_texts
validate_texts-valid readers raw h = ground arith

validate_fields-valid :
    (readers : Readers) (packages : List Package) (known : List Text) (raw : RawManifest)
    (m : ValidManifest)
    → validate_fields readers packages known raw ≡ ok m
    → (is_package_name m.name ≡ true)
      × (validate_version_number m.version_number ≡ ok tt)
      × All (IsStored packages) m.dependencies
unfolding validate_fields
validate_fields-valid readers packages known raw m h =
    let (texts, h₁) = >>-eq-ok (validate_texts readers raw) _ h in
    let (rs, read, h₂) = >>=-eq-ok (read_dependencies packages raw.dependencies) _ h₁ in
    let (is, installed, h₃) = >>=-eq-ok (read_installers known raw.installers) _ h₂ in
    let (name, version) = validate_texts-valid readers raw texts in
    subst
      (λ (x : ValidManifest).
        (is_package_name x.name ≡ true)
        × (validate_version_number x.version_number ≡ ok tt)
        × All (IsStored packages) x.dependencies)
      (ok_inj h₃) (name, version, read_dependencies-IsStored packages raw.dependencies rs read)

validate_data-valid :
    (iexact : Text → Text → Bool) (db : Db) (packages : List Package) (user : Option User)
    (team : Team) (m : ValidManifest)
    → validate_data iexact db packages user (some team) m ≡ ok tt
    → (can_user_upload db team user ≡ true)
      × (r : PackageReference) × (reference_of team.name m.name (some m.version_number) ≡ ok r)
      × (reference_exists packages r ≡ false)
      × (has_duplicate_packages m.dependencies ≡ false)
      × (does_contain_package m.dependencies r ≡ false)
unfolding validate_data
validate_data-valid iexact db packages user team m h =
    elim (Result-cases (reference_of team.name m.name (some m.version_number))) [
      | inl (r, e) ↦ ground arith
      | inr (x, e) ↦ ground arith
    ]

-- A manifest that is accepted for a team is publishable: the user can upload for the team, the name
-- and the version number have the form that is asked for, that version is not stored yet, the
-- dependencies are stored versions, no two of which name one package with versions that differ, and
-- the package is not among them.
pub validate_manifest-IsPublishable :
    (readers : Readers) (iexact : Text → Text → Bool) (db : Db) (packages : List Package)
    (known : List Text) (format_spec : PackageFormats) (user : Option User) (team : Team)
    (contents : Text) (m : ValidManifest)
    → validate_manifest readers iexact db packages known format_spec user (some team) contents
      ≡ ok m
    → IsPublishable db packages user team m
unfolding validate_manifest
validate_manifest-IsPublishable readers iexact db packages known format_spec user team contents m
      h =
    let (supported, h₁) = >>-eq-ok (raise_if (not (is_supported_format format_spec)) _) _ h in
    let (raw, loaded, h₂) =
      >>=-eq-ok {A = RawManifest}
        (elim (readers.load_json contents) [
          | none ↦ err (refused (validation "Unable to parse manifest.json"))
          | some r ↦ ok r
        ])
        _ h₁ in
    let (n, fields, h₃) = >>=-eq-ok (lift (validate_fields readers packages known raw)) _ h₂ in
    let (checked, last) = >>-eq-ok (validate_data iexact db packages user (some team) n) _ h₃ in
    let (name, number, stored) =
      validate_fields-valid readers packages known raw n (lift-eq-ok _ fields) in
    let (uploader, r, named, fresh, no_duplicates, not_itself) =
      validate_data-valid iexact db packages user team n checked in
    let (v, release, shown) = (validate_version_number_iff n.version_number).0 number in
    subst (IsPublishable db packages user team) (ok_inj last) (record {
      uploader = uploader;
      name = name;
      version = v;
      release = release;
      version_number = shown;
      reference = r;
      named = named;
      fresh = λ found. let clash = IsStored-reference_exists packages r found in cc;
      stored = stored;
      no_duplicates = no_duplicates;
      not_itself = not_itself;
    })
