-- ===== src/Form/Valid.antt =====
-- The forms that `PackageUploadForm.is_valid` accepts, in repository/package_upload.py.
use thunderstore.Prelude.{
  ℕ, ◌+◌, ◌≤◌, ◌≡◌, refl, subst, Bool, true, false, Option, some, List, [], ◌∷◌, ◌++◌, arith,
  is_some, length, All, Refusal, Result, >>=-eq-ok, >>-eq-ok, Failure, lift, ok_inj, ok, err,
  refused, Text, codes,
}
use thunderstore.Package.{Package}
use thunderstore.Form.{
  Archive, UploadLimits, CleanedForm, check_archive, read_entry, clean, clean_markdown, check_sizes,
  opened, clean_entries, validate_form,
}
use thunderstore.Zip.{check_unsafe_paths, check_duplicate_filenames, ZipInfo}
use thunderstore.Team.{Team, Db}
use thunderstore.Permissions.{User}
use thunderstore.Manifest.Valid.{IsPublishable, validate_manifest-IsPublishable}
use thunderstore.Manifest.{Readers, get_active_format, validate_manifest, validate_icon}
use thunderstore.Team.Checks.{ensure_can_upload_package}
use thunderstore.Zip.Duplicates.{IsDistinct, check_duplicate_filenames_iff}
use thunderstore.Zip.Paths.{path_parts, NotParent, IsNamed, check_unsafe_paths-parts}

-- What an accepted form has.
pub record IsAccepted (lower : Text → Text) (limits : UploadLimits) (db : Db)
    (packages : List Package) (used : ℕ) (user : User) (team : Team) (file : Text)
    (archive : Archive) (form : CleanedForm) : Type 0 where
  pub size : length file ≤ limits.max_package_size
  pub total : length file + used ≤ limits.max_total_size
  pub paths :
      All
        (λ (e : ZipInfo). All NotParent (path_parts e.filename) × IsNamed (path_parts e.filename))
        archive.infolist
  pub names : IsDistinct lower archive.infolist
  pub manifest : IsPublishable db packages (some user) team form.manifest
  pub file_size : form.file_size ≡ length file
  pub readme : is_some form.readme ≡ true

check_archive-valid :
    (lower : Text → Text) (limit : ℕ) (archive : Archive) (team : Team)
    → check_archive lower limit archive team ≡ ok tt
    → (check_unsafe_paths archive.infolist ≡ false)
      × (check_duplicate_filenames lower archive.infolist ≡ false)
unfolding check_archive
check_archive-valid lower limit archive team h = ground arith

check_sizes-valid :
    (limits : UploadLimits) (used : ℕ) (file : Text)
    → check_sizes limits used file ≡ ok tt
    → (length file ≤ limits.max_package_size) × (length file + used ≤ limits.max_total_size)
unfolding check_sizes
check_sizes-valid limits used file h = ground arith

clean_markdown-valid :
    (readers : Readers) (contents : Text) (es : List Refusal)
    → (clean_markdown readers contents).1 ++ es ≡ []
    → is_some (clean_markdown readers contents).0 ≡ true
unfolding clean_markdown
clean_markdown-valid readers contents es h = ground arith

opened-eq-ok : (o : Option Archive) (archive : Archive) → opened o ≡ ok archive → o ≡ some archive
opened-eq-ok o archive h = ground arith

without_errors :
    (errors : List Refusal) (f form : CleanedForm)
    → (elim errors as (λ _. Result Failure CleanedForm) [ [] ↦ ok f | e ∷ es ↦ err (refused e) ])
      ≡ ok form
    → (errors ≡ []) × (f ≡ form)
without_errors [] f form h = (refl, ok_inj h)
without_errors (e ∷ es) f form h = cc

module _ (readers : Readers) (lower : Text → Text) (iexact : Text → Text → Bool)
    (open_zip : Text → Option Archive) (limits : UploadLimits) (db : Db) (packages : List Package)
    (known : List Text) (used : ℕ) (user : User) (team : Team) where
  clean_entries-valid :
      (file_size : ℕ) (archive : Archive) (form : CleanedForm)
      → clean_entries readers lower iexact open_zip limits db packages known user file_size team
          archive
        ≡ ok form
      → form.errors ≡ []
      → IsPublishable db packages (some user) team form.manifest
        × (form.file_size ≡ file_size)
        × (is_some form.readme ≡ true)
  unfolding clean_entries
  clean_entries-valid file_size archive form h none_left =
      let (contents, _, h₁) =
        >>=-eq-ok (read_entry archive (codes "manifest.json") "Package is missing manifest.json") _
          h in
      let (m, valid, h₂) =
        >>=-eq-ok
          (validate_manifest readers iexact db packages known get_active_format (some user)
            (some team) contents)
          _ h₁ in
      let (icon_data, _, h₃) =
        >>=-eq-ok (read_entry archive (codes "icon.png") "Package is missing icon.png") _ h₂ in
      let (icon, _, h₄) = >>=-eq-ok (lift (validate_icon readers icon_data)) _ h₃ in
      let (readme, _, h₅) =
        >>=-eq-ok (read_entry archive (codes "README.md") "Package is missing README.md") _ h₄ in
      subst
        (λ (x : CleanedForm).
          x.errors ≡ []
          → IsPublishable db packages (some user) team x.manifest
            × (x.file_size ≡ file_size)
            × (is_some x.readme ≡ true))
        (ok_inj h₅)
        (λ e. (
          validate_manifest-IsPublishable readers iexact db packages known get_active_format
              (some user) team contents m valid,
          refl,
          clean_markdown-valid readers readme _ e,
        ))
        none_left

  -- A form that is accepted has a file and, with what is used, a total within the limits; a readme;
  -- a manifest that is publishable; and an archive in which no two names are the same in lower
  -- case, no part of a path is the parent directory, and no part but the last is empty or the
  -- directory itself.
  pub validate_form-IsAccepted :
      (file : Text) (form : CleanedForm)
      → validate_form readers lower iexact open_zip limits db packages known used user
          (some file)
          (some team)
        ≡ ok form
      → (archive : Archive) × (open_zip file ≡ some archive)
        × IsAccepted lower limits db packages used user team file archive form
  unfolding validate_form clean
  validate_form-IsAccepted file form h =
      let (_, h₁) = >>-eq-ok (lift (ensure_can_upload_package db team (some user))) _ h in
      let (f, cleaned, h₂) =
        >>=-eq-ok
          (clean readers lower iexact open_zip limits db packages known used user (some file)
            (some team))
          _ h₁ in
      let (sizes, c₁) = >>-eq-ok (check_sizes limits used file) _ cleaned in
      let (archive, open_eq, c₂) = >>=-eq-ok (opened (open_zip file)) _ c₁ in
      let (checked, entries) =
        >>-eq-ok (check_archive lower limits.max_file_count_per_zip archive team) _ c₂ in
      let (clean_form, here) = without_errors f.errors f form h₂ in
      let (manifest, size, readme) =
        clean_entries-valid (length file) archive f entries clean_form in
      let (paths, names) =
        check_archive-valid lower limits.max_file_count_per_zip archive team checked in
      let (own, total) = check_sizes-valid limits used file sizes in
      (
        archive,
        opened-eq-ok (open_zip file) archive open_eq,
        subst (IsAccepted lower limits db packages used user team file archive) here (record {
          size = own;
          total = total;
          paths = check_unsafe_paths-parts archive.infolist paths;
          names = (check_duplicate_filenames_iff lower archive.infolist).0 names;
          manifest = manifest;
          file_size = size;
          readme = readme;
        }),
      )
