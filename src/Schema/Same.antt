-- ===== src/Schema/Same.antt =====
-- The loops of schema_import/sync.py over listings, categories and sections at rows that are there.
use thunderstore.Prelude.{
  ℕ, suc, ◌≡◌, refl, ◌∙◌, inl, inr, Bool, true, false, not, ◌&&◌, Option, none, some, List, [], ◌∷◌,
  ◌++◌, arith, ◌==ℕ◌, ==ℕ_refl, Bool-cases, select, any-append, All, Text, negated, upsert_same,
  any-FirstHas,
}
use thunderstore.Schema.{
  AutoListing, SchemaDb, is_listed_in, SchemaSection, PackageCategory, SectionRow, is_category,
  is_section, import_category, section_as, import_section, import_categories, import_sections,
  add_listing,
}
use thunderstore.Schema.Imported.{HasCategory, HasSections, HasSection}

-- The package that was found, if there is one, has a listing in the community.
abbrev pub IsListedAs : ℕ → List AutoListing → Option ℕ → Type 0
IsListedAs community rows none = Unit
IsListedAs community rows (some pk) = is_listed_in community pk rows ≡ true

pub add_listing-IsListedAs :
    (community : ℕ) (o : Option ℕ) (db : SchemaDb)
    → IsListedAs community (add_listing community o db).listings o
unfolding add_listing
add_listing-IsListedAs community none db = tt
add_listing-IsListedAs community (some pk) db =
    elim (Bool-cases (is_listed_in community pk db.listings)) [
      | inl e ↦ rw e e
      | inr e ↦
          let added : AutoListing = record {
            listed_package = pk;
            community = community;
            is_auto_imported = true;
          } in
          rw e (
            any-append (λ (l : AutoListing). (l.listed_package ==ℕ pk) && l.community ==ℕ community)
              db.listings (added ∷ [])
            ∙ (rw (==ℕ_refl pk, ==ℕ_refl community) (ground arith)))
    ]

pub add_listing-keeps :
    (community : ℕ) (o p : Option ℕ) (db : SchemaDb)
    → IsListedAs community db.listings o
    → IsListedAs community (add_listing community p db).listings o
unfolding add_listing
add_listing-keeps community none p db h = tt
add_listing-keeps community (some pk) none db h = h
add_listing-keeps community (some pk) (some pk') db h = ground (
  arith,
  any-append (λ (l : AutoListing). (l.listed_package ==ℕ pk) && l.community ==ℕ community)
      db.listings
      (record { listed_package = pk'; community = community; is_auto_imported = true } ∷ []),
)

pub add_listing_same :
    (community : ℕ) (o : Option ℕ) (db : SchemaDb)
    → IsListedAs community db.listings o
    → add_listing community o db ≡ db
unfolding add_listing
add_listing_same community none db h = refl
add_listing_same community (some pk) db h = rw h refl

select-append_other :
    (p : AutoListing → Bool) (xs : List AutoListing) (y : AutoListing)
    → p y ≡ false
    → select p (xs ++ y ∷ []) ≡ select p xs
select-append_other p [] y h = rw h refl
select-append_other p (x ∷ xs) y h = ground (arith, select-append_other p xs y h)

-- A new listing is of the community.
pub add_listing_others :
    (community : ℕ) (o : Option ℕ) (db : SchemaDb)
    → select
        (λ (l : AutoListing). not (l.community ==ℕ community))
        (add_listing community o db).listings
      ≡ select (λ (l : AutoListing). not (l.community ==ℕ community)) db.listings
unfolding add_listing
add_listing_others community none db = refl
add_listing_others community (some pk) db =
    let added : AutoListing = record {
      listed_package = pk;
      community = community;
      is_auto_imported = true;
    } in
    elim (Bool-cases (is_listed_in community pk db.listings)) [
      | inl e ↦ rw e refl
      | inr e ↦ rw e (
          select-append_other (λ (l : AutoListing). not (l.community ==ℕ community)) db.listings
            added (rw ==ℕ_refl refl))
    ]

import_category_same :
    (now community : ℕ) (e : Text × Text) (db : SchemaDb)
    → HasCategory now community db.categories e
    → import_category now community e db ≡ db
unfolding import_category
import_category_same now community (slug, label) db h =
    let rows =
      upsert_same (is_category community slug)
        (λ (r : PackageCategory). record r { name = label; datetime_updated = now })
        (record {
          pk = db.fresh;
          slug = slug;
          community = community;
          name = [];
          datetime_updated = now;
        })
        (λ (r : PackageCategory). (r.name ≡ label) × (r.datetime_updated ≡ now)) db.categories
        (λ x p. rw (p.0, p.1) refl) h in
    let found =
      any-FirstHas (is_category community slug)
        (λ (r : PackageCategory). (r.name ≡ label) × (r.datetime_updated ≡ now)) db.categories h in
    rw (rows, found) refl

pub import_categories_same :
    (now community : ℕ) (es : List (Text × Text)) (db : SchemaDb)
    → All (HasCategory now community db.categories) es
    → import_categories now community es db ≡ db
unfolding import_categories
import_categories_same now community [] db h = refl
import_categories_same now community (e ∷ es) db (k, h) =
    rw (import_category_same now community e db k) (import_categories_same now community es db h)

import_section_same :
    (now community index : ℕ) (e : Text × SchemaSection) (db : SchemaDb)
    → HasSection now community db.categories db.sections index e
    → import_section now community index e db ≡ db
unfolding import_section
import_section_same now community index (slug, v) db h =
    let kept = λ (r : SectionRow). section_as now community db.categories index v r ≡ r in
    let rows =
      upsert_same (is_section community slug) (section_as now community db.categories index v)
        (record {
          uuid = db.fresh;
          slug = slug;
          community = community;
          name = [];
          priority = negated 0;
          is_listed = true;
          require_categories = [];
          exclude_categories = [];
          datetime_updated = now;
        })
        kept db.sections (λ x p. p) h in
    rw (rows, any-FirstHas (is_section community slug) kept db.sections h) refl

pub import_sections_same :
    (now community index : ℕ) (es : List (Text × SchemaSection)) (db : SchemaDb)
    → HasSections now community db.categories db.sections index es
    → import_sections now community index es db ≡ db
unfolding import_sections
import_sections_same now community index [] db h = refl
import_sections_same now community index (e ∷ es) db (k, h) =
    rw (import_section_same now community index e db k)
      (import_sections_same now community (suc index) es db h)
