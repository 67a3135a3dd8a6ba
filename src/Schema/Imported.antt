-- ===== src/Schema/Imported.antt =====
-- What an import of schema_import/sync.py leaves in the tables.
use thunderstore.Prelude.{
  ℕ, suc, ◌≡◌, refl, sym, ◌∙◌, inl, inr, true, false, not, List, [], ◌∷◌, arith, ◌==ℕ◌, ==ℕ_refl,
  Bool-cases, select, All, Text, text_eq, text_eq_refl, text_eq_iff, negated, FirstHas,
  upsert-FirstHas, FirstHas-upsert_other, select-upsert_other,
}
use thunderstore.Schema.{
  SchemaSection, PackageCategory, SectionRow, SchemaDb, is_category, is_section, section_as,
  import_category, import_categories, import_section, import_sections,
}

-- The keys of a dictionary differ.
abbrev pub DistinctSlugs {ℓ} : {V : Type ℓ} → List (Text × V) → Type 0
DistinctSlugs [] = Unit
DistinctSlugs (e ∷ es) = All (λ f. text_eq e.0 f.0 ≡ false) es × DistinctSlugs es

text_ne : (a b c : Text) → text_eq a b ≡ false → text_eq c b ≡ true → text_eq c a ≡ false
text_ne a b c h e = elim (Bool-cases (text_eq c a)) [
  | inl t ↦
      let same_a = (text_eq_iff c a).0 t in
      let same_b = (text_eq_iff c b).0 e in
      let clash : text_eq a b ≡ true = (text_eq_iff a b).1 (sym same_a ∙ same_b) in cc
  | inr t ↦ t
]

module _ (now community : ℕ) where
  -- The community's category with the slug has the label.
  abbrev pub HasCategory : List PackageCategory → Text × Text → Type 0
  HasCategory rows (slug, label) =
      FirstHas (is_category community slug)
        (λ (r : PackageCategory). (r.name ≡ label) × (r.datetime_updated ≡ now)) rows

  -- The community's section with the slug is as the schema has it at its place.
  abbrev pub HasSection : List PackageCategory → List SectionRow → ℕ → Text × SchemaSection → Type 0
  HasSection categories rows index (slug, v) =
      FirstHas (is_section community slug)
        (λ (r : SectionRow). section_as now community categories index v r ≡ r) rows

  abbrev pub HasSections :
      List PackageCategory → List SectionRow → ℕ → List (Text × SchemaSection) → Type 0
  HasSections categories rows index [] = Unit
  HasSections categories rows index (e ∷ es) =
      HasSection categories rows index e × HasSections categories rows (suc index) es

  import_category-Has :
      (e : Text × Text) (db : SchemaDb)
      → HasCategory (import_category now community e db).categories e
  unfolding import_category
  import_category-Has (slug, label) db =
      upsert-FirstHas (is_category community slug)
        (λ (r : PackageCategory). record r { name = label; datetime_updated = now })
        (record {
          pk = db.fresh;
          slug = slug;
          community = community;
          name = [];
          datetime_updated = now;
        })
        (λ (r : PackageCategory). (r.name ≡ label) × (r.datetime_updated ≡ now)) db.categories
        (rw (text_eq_refl slug, ==ℕ_refl community) refl) (λ x h. (h, (refl, refl)))

  import_category-keeps :
      (e f : Text × Text) (db : SchemaDb)
      → text_eq e.0 f.0 ≡ false
      → HasCategory db.categories e
      → HasCategory (import_category now community f db).categories e
  unfolding import_category
  import_category-keeps (slug, label) (slug', label') db h c =
      let other : text_eq slug' slug ≡ false = text_ne slug slug' slug' h (text_eq_refl slug') in
      FirstHas-upsert_other (is_category community slug')
        (λ (r : PackageCategory). record r { name = label'; datetime_updated = now })
        (record {
          pk = db.fresh;
          slug = slug';
          community = community;
          name = [];
          datetime_updated = now;
        })
        (is_category community slug)
        (λ (r : PackageCategory). (r.name ≡ label) × (r.datetime_updated ≡ now)) db.categories
        (rw other refl)
        (λ x k.
          let n : text_eq x.slug slug ≡ false = text_ne slug slug' x.slug h (ground arith) in
          (rw n refl, rw n refl))
        c

  import_categories-keeps :
      (e : Text × Text) (es : List (Text × Text)) (db : SchemaDb)
      → All (λ (f : Text × Text). text_eq e.0 f.0 ≡ false) es
      → HasCategory db.categories e
      → HasCategory (import_categories now community es db).categories e
  unfolding import_categories
  import_categories-keeps e [] db h c = c
  import_categories-keeps e (f ∷ es) db (n, h) c =
      import_categories-keeps e es (import_category now community f db) h
        (import_category-keeps e f db n c)

  pub import_categories-Has :
      (es : List (Text × Text)) (db : SchemaDb)
      → DistinctSlugs es
      → All (HasCategory (import_categories now community es db).categories) es
  unfolding import_categories
  import_categories-Has [] db d = tt
  import_categories-Has (e ∷ es) db (n, d) = (
    import_categories-keeps e es (import_category now community e db) n (import_category-Has e db),
    import_categories-Has es (import_category now community e db) d,
  )

  -- Categories of other communities stay as they are.
  pub import_categories_others :
      (es : List (Text × Text)) (db : SchemaDb)
      → select
          (λ (r : PackageCategory). not (r.community ==ℕ community))
          (import_categories now community es db).categories
        ≡ select (λ (r : PackageCategory). not (r.community ==ℕ community)) db.categories
  unfolding import_categories import_category
  import_categories_others [] db = refl
  import_categories_others ((slug, label) ∷ es) db =
      import_categories_others es (import_category now community (slug, label) db)
      ∙ select-upsert_other (is_category community slug)
          (λ (r : PackageCategory). record r { name = label; datetime_updated = now })
          (record {
            pk = db.fresh;
            slug = slug;
            community = community;
            name = [];
            datetime_updated = now;
          })
          (λ (r : PackageCategory). not (r.community ==ℕ community)) db.categories
          (rw ==ℕ_refl refl) (λ x k. (ground arith, ground arith))

  new_section : ℕ → Text → SectionRow
  new_section uuid slug = record {
    uuid = uuid;
    slug = slug;
    community = community;
    name = [];
    priority = negated 0;
    is_listed = true;
    require_categories = [];
    exclude_categories = [];
    datetime_updated = now;
  }

  import_section-Has :
      (index : ℕ) (e : Text × SchemaSection) (db : SchemaDb)
      → HasSection db.categories (import_section now community index e db).sections index e
  unfolding import_section new_section
  import_section-Has index (slug, v) db =
      upsert-FirstHas (is_section community slug) (section_as now community db.categories index v)
        (new_section db.fresh slug)
        (λ (r : SectionRow). section_as now community db.categories index v r ≡ r) db.sections
        (rw (text_eq_refl slug, ==ℕ_refl community) refl) (λ x h. (h, refl))

  import_section-keeps :
      (index index' : ℕ) (e f : Text × SchemaSection) (db : SchemaDb)
      → text_eq e.0 f.0 ≡ false
      → HasSection db.categories db.sections index e
      → HasSection db.categories (import_section now community index' f db).sections index e
  unfolding import_section new_section
  import_section-keeps index index' (slug, v) (slug', v') db h c =
      let other : text_eq slug' slug ≡ false = text_ne slug slug' slug' h (text_eq_refl slug') in
      FirstHas-upsert_other (is_section community slug')
        (section_as now community db.categories index' v') (new_section db.fresh slug')
        (is_section community slug)
        (λ (r : SectionRow). section_as now community db.categories index v r ≡ r) db.sections
        (rw other refl)
        (λ x k.
          let n : text_eq x.slug slug ≡ false = text_ne slug slug' x.slug h (ground arith) in
          (rw n refl, rw n refl))
        c

  import_sections-keeps :
      (index index' : ℕ) (e : Text × SchemaSection) (es : List (Text × SchemaSection))
      (db : SchemaDb)
      → All (λ (f : Text × SchemaSection). text_eq e.0 f.0 ≡ false) es
      → HasSection db.categories db.sections index e
      → HasSection db.categories (import_sections now community index' es db).sections index e
  unfolding import_sections import_section
  import_sections-keeps index index' e [] db h c = c
  import_sections-keeps index index' e (f ∷ es) db (n, h) c =
      import_sections-keeps index (suc index') e es (import_section now community index' f db) h
        (import_section-keeps index index' e f db n c)

  pub import_sections-Has :
      (index : ℕ) (es : List (Text × SchemaSection)) (db : SchemaDb)
      → DistinctSlugs es
      → HasSections db.categories (import_sections now community index es db).sections index es
  unfolding import_sections import_section
  import_sections-Has index [] db d = tt
  import_sections-Has index (e ∷ es) db (n, d) = (
    import_sections-keeps index (suc index) e es (import_section now community index e db) n
        (import_section-Has index e db),
    import_sections-Has (suc index) es (import_section now community index e db) d,
  )

  pub import_sections_others :
      (index : ℕ) (es : List (Text × SchemaSection)) (db : SchemaDb)
      → select
          (λ (r : SectionRow). not (r.community ==ℕ community))
          (import_sections now community index es db).sections
        ≡ select (λ (r : SectionRow). not (r.community ==ℕ community)) db.sections
  unfolding import_sections import_section new_section
  import_sections_others index [] db = refl
  import_sections_others index ((slug, v) ∷ es) db =
      import_sections_others (suc index) es (import_section now community index (slug, v) db)
      ∙ select-upsert_other (is_section community slug)
          (section_as now community db.categories index v) (new_section db.fresh slug)
          (λ (r : SectionRow). not (r.community ==ℕ community)) db.sections (rw ==ℕ_refl refl)
          (λ x k. (ground arith, ground arith))

  -- The sections' import leaves the other tables.
  pub import_sections_rest :
      (index : ℕ) (es : List (Text × SchemaSection)) (db : SchemaDb)
      → ((import_sections now community index es db).categories ≡ db.categories)
        × ((import_sections now community index es db).communities ≡ db.communities)
        × ((import_sections now community index es db).listings ≡ db.listings)
  unfolding import_sections import_section
  import_sections_rest index [] db = (refl, refl, refl)
  import_sections_rest index ((slug, v) ∷ es) db =
      import_sections_rest (suc index) es (import_section now community index (slug, v) db)

  pub import_categories_rest :
      (es : List (Text × Text)) (db : SchemaDb)
      → ((import_categories now community es db).sections ≡ db.sections)
        × ((import_categories now community es db).communities ≡ db.communities)
        × ((import_categories now community es db).listings ≡ db.listings)
  unfolding import_categories import_category
  import_categories_rest [] db = (refl, refl, refl)
  import_categories_rest ((slug, label) ∷ es) db =
      import_categories_rest es (import_category now community (slug, label) db)
