-- ===== src/Form/Saving.antt =====
-- `PackageUploadForm.save` in repository/package_upload.py.
use thunderstore.Prelude.{
  ℕ, suc, ◌≡◌, refl, sym, ap, ◌∙◌, subst, Bool, false, some, List, [], ◌∷◌, ◌++◌, arith,
  if◌then◌else◌, is_none, any, raise_if, >>=-eq-ok, >>-eq-ok, raise_if-eq-ok, lift, ok_inj, ok,
  integrity_error, text_eq,
}
use thunderstore.Package.{PackageVersion, Package}
use thunderstore.Visibility.{create_public}
use thunderstore.Form.{CleanedForm, update_listings, new_version, get_or_create_package, save_form}
use thunderstore.Team.{Team, Db}
use thunderstore.Community.{Community}
use thunderstore.Permissions.{User}
use thunderstore.Team.Checks.{ensure_can_upload_package}
use thunderstore.Team.Storage.{Platform, get_namespace}
use thunderstore.Package.Listings.{get_or_create_package_listing, update_listing}
use thunderstore.Package.Latest.{
  available_versions, recache_latest, handle_created_version, handle_updated_version,
  validate_version_row, create_version,
}
use thunderstore.Package.Latest.Newest.{HasLatest, VersionStep-HasLatest, created}

update_listing-versions :
    (fresh : ℕ) (nsfw : Bool) (categories : List ℕ) (c : Community) (p : Package)
    → (update_listing fresh nsfw categories c p).versions ≡ p.versions
unfolding update_listing get_or_create_package_listing
update_listing-versions fresh nsfw categories c p = ground arith

update_listings-versions :
    (fresh : ℕ) (nsfw : Bool) (communities : List (Community × List ℕ)) (p : Package)
    → (update_listings fresh nsfw communities p).versions ≡ p.versions
unfolding update_listings
update_listings-versions fresh nsfw [] p = refl
update_listings-versions fresh nsfw ((c, categories) ∷ rest) p =
    update_listings-versions (suc fresh) nsfw rest (update_listing fresh nsfw categories c p)
    ∙ update_listing-versions fresh nsfw categories c p

recache_latest-rest :
    (p p' : Package)
    → recache_latest p ≡ ok p'
    → (p'.versions ≡ p.versions)
      × (p'.is_deprecated ≡ p.is_deprecated)
      × (p'.listings ≡ p.listings)
      × (p'.date_updated ≡ p.date_updated)
unfolding recache_latest
recache_latest-rest p p' h =
    let (available, _, e) = >>=-eq-ok (available_versions p) _ h in
    subst
      (λ (x : Package).
        (x.versions ≡ p.versions)
        × (x.is_deprecated ≡ p.is_deprecated)
        × (x.listings ≡ p.listings)
        × (x.date_updated ≡ p.date_updated))
      (ok_inj e) (refl, refl, refl, refl)

-- The row as `PackageVersion.save` stores it, with the flags that it gives it
abbrev pub stored_version : PackageVersion → PackageVersion
stored_version v = if is_none v.visibility then record v { visibility = some create_public } else v

create_version-rest :
    (now : ℕ) (v : PackageVersion) (p p' : Package)
    → create_version now v p ≡ ok p'
    → (p'.versions ≡ p.versions ++ stored_version v ∷ [])
      × (p'.is_deprecated ≡ false)
      × (p'.listings ≡ p.listings)
      × (p'.date_updated ≡ now)
      × (any (λ (w : PackageVersion). text_eq w.version_number v.version_number) p.versions ≡ false)
unfolding create_version handle_created_version handle_updated_version
create_version-rest now v p p' h =
    let (_, h₁) = >>-eq-ok (lift (validate_version_row v)) _ h in
    let (free, h₂) =
      >>-eq-ok
        (raise_if
          (any (λ (w : PackageVersion). text_eq w.version_number v.version_number) p.versions)
          integrity_error)
        _ h₁ in
    let (versions, deprecated, listings, updated) = recache_latest-rest _ p' h₂ in
    (versions, deprecated, listings, updated, raise_if-eq-ok _ integrity_error free)

-- What saving a form makes of a package.
pub record IsReleased (now fresh : ℕ) (form : CleanedForm) (p p' : Package) : Type 0 where
  pub versions : p'.versions ≡ p.versions ++ stored_version (new_version fresh form) ∷ []
  pub undeprecated : p'.is_deprecated ≡ false
  pub date_updated : p'.date_updated ≡ now
  pub latest : HasLatest p'
  pub new_number :
      any (λ (w : PackageVersion). text_eq w.version_number form.manifest.version_number) p.versions
      ≡ false

-- If saving a form succeeds, the package that is found or made has exactly one version more than
-- before, the one of the form, whose number it did not have. It is not deprecated, it was updated
-- now, and its latest version is an active one that no active version is after.
pub save_form-IsReleased :
    (platform : Platform) (fresh now : ℕ) (db : Db) (packages : List Package) (user : User)
    (team : Team) (nsfw : Bool) (communities : List (Community × List ℕ)) (form : CleanedForm)
    (p' : Package) (db' : Db)
    → save_form platform fresh now db packages user team nsfw communities form ≡ ok (p', db')
    → (p : Package) × (get_or_create_package fresh now team form.manifest.name packages ≡ ok p)
      × IsReleased now fresh form p p'
unfolding save_form
save_form-IsReleased platform fresh now db packages user team nsfw communities form p' db' h =
    let (_, h₁) = >>-eq-ok (lift (ensure_can_upload_package db team (some user))) _ h in
    let (n, _, h₂) = >>=-eq-ok (get_namespace platform team db) _ h₁ in
    let (p, found, h₃) =
      >>=-eq-ok (get_or_create_package fresh now team form.manifest.name packages) _ h₂ in
    let listed = update_listings (suc fresh) nsfw communities p in
    let (q, made, h₄) = >>=-eq-ok (create_version now (new_version fresh form) listed) _ h₃ in
    let there : q ≡ p' = ap (λ x. x.0) (ok_inj h₄) in
    let (versions, undeprecated, _, updated, free) =
      create_version-rest now (new_version fresh form) listed q made in
    let old = update_listings-versions (suc fresh) nsfw communities p in
    (
      p,
      found,
      subst (IsReleased now fresh form p) there (record {
        versions = versions ∙ ap (λ vs. vs ++ stored_version (new_version fresh form) ∷ []) old;
        undeprecated = undeprecated;
        date_updated = updated;
        latest = VersionStep-HasLatest listed q (created now (new_version fresh form) made);
        new_number =
            ap (any (λ (w : PackageVersion). text_eq w.version_number form.manifest.version_number))
              (sym old)
            ∙ free;
      }),
    )
