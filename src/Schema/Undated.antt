-- ===== src/Schema/Undated.antt =====
-- The times of the saves of schema_import/sync.py, apart from the other columns.
use thunderstore.Prelude.{
  ℕ, suc, ◌≡◌, refl, ap, ◌∙◌, true, inl, inr, Option, none, some, List, [], ◌∷◌, map, arith,
  Bool-cases, Option-cases, first, Text, map-upsert, any-map_same, first-map, negated,
}
use thunderstore.Reference.{PackageReference}
use thunderstore.Schema.{
  SchemaSection, SchemaCommunity, CommunityRow, PackageCategory, SectionRow, SchemaDb, is_category,
  is_section, is_community, import_category, categories_named, section_as, import_section,
  import_categories, import_sections, is_listed_in, add_listing, community_as, new_community,
  find_package, import_listing, import_listings, save_community, ids_to_list, update_community,
  import_community,
}

abbrev pub undated_community : CommunityRow → CommunityRow
undated_community c = record c { datetime_updated = 0 }

abbrev pub undated_category : PackageCategory → PackageCategory
undated_category r = record r { datetime_updated = 0 }

abbrev pub undated_section : SectionRow → SectionRow
undated_section r = record r { datetime_updated = 0 }

-- The tables without the times of the last saves
abbrev pub undated : SchemaDb → SchemaDb
undated db = record db {
  communities = map undated_community db.communities;
  categories = map undated_category db.categories;
  sections = map undated_section db.sections;
}

categories_named-undated :
    (community : ℕ) (slugs : List Text) (rows : List PackageCategory)
    → categories_named community slugs (map undated_category rows)
      ≡ categories_named community slugs rows
unfolding categories_named
categories_named-undated community slugs [] = refl
categories_named-undated community slugs (r ∷ rows) =
    ground (arith, categories_named-undated community slugs rows)

undated-import_category :
    (now community : ℕ) (e : Text × Text) (db : SchemaDb)
    → undated (import_category now community e db) ≡ import_category 0 community e (undated db)
unfolding import_category
undated-import_category now community (slug, label) db =
    let key = is_category community slug in
    rw
      (
        map-upsert key undated_category (λ x. refl)
            (λ (r : PackageCategory). record r { name = label; datetime_updated = now })
            (λ (r : PackageCategory). record r { name = label; datetime_updated = 0 })
            (record {
              pk = db.fresh;
              slug = slug;
              community = community;
              name = [];
              datetime_updated = now;
            })
            (record {
              pk = db.fresh;
              slug = slug;
              community = community;
              name = [];
              datetime_updated = 0;
            })
            db.categories (λ x. refl) refl,
        any-map_same key undated_category (λ x. refl) db.categories,
      )
      refl

undated-import_categories :
    (now community : ℕ) (es : List (Text × Text)) (db : SchemaDb)
    → undated (import_categories now community es db)
      ≡ import_categories 0 community es (undated db)
unfolding import_categories
undated-import_categories now community [] db = refl
undated-import_categories now community (e ∷ es) db =
    undated-import_categories now community es (import_category now community e db)
    ∙ ap (import_categories 0 community es) (undated-import_category now community e db)

section_row : ℕ → ℕ → ℕ → Text → SectionRow
section_row now uuid community slug = record {
  uuid = uuid;
  slug = slug;
  community = community;
  name = [];
  priority = negated 0;
  is_listed = true;
  require_categories = [];
  exclude_categories = [];
  datetime_updated = now;
}

undated-import_section :
    (now community index : ℕ) (e : Text × SchemaSection) (db : SchemaDb)
    → undated (import_section now community index e db)
      ≡ import_section 0 community index e (undated db)
unfolding import_section section_row
undated-import_section now community index (slug, v) db =
    let key = is_section community slug in
    rw
      (
        map-upsert key undated_section (λ x. refl) (section_as now community db.categories index v)
            (section_as 0 community (map undated_category db.categories) index v)
            (section_row now db.fresh community slug) (section_row 0 db.fresh community slug)
            db.sections
            (λ x.
              rw
                (
                  categories_named-undated community v.require_categories db.categories,
                  categories_named-undated community v.exclude_categories db.categories,
                )
                refl)
            refl,
        any-map_same key undated_section (λ x. refl) db.sections,
      )
      refl

undated-import_sections :
    (now community index : ℕ) (es : List (Text × SchemaSection)) (db : SchemaDb)
    → undated (import_sections now community index es db)
      ≡ import_sections 0 community index es (undated db)
unfolding import_sections
undated-import_sections now community index [] db = refl
undated-import_sections now community index (e ∷ es) db =
    undated-import_sections now community (suc index) es (import_section now community index e db)
    ∙ ap (import_sections 0 community (suc index) es)
        (undated-import_section now community index e db)

undated-add_listing :
    (community : ℕ) (o : Option ℕ) (db : SchemaDb)
    → undated (add_listing community o db) ≡ add_listing community o (undated db)
unfolding add_listing
undated-add_listing community none db = refl
undated-add_listing community (some pk) db =
    elim (Bool-cases (is_listed_in community pk db.listings)) [
      | inl e ↦ rw e refl
      | inr e ↦ rw e refl
    ]

module _ (lower : Text → Text) (package_of : PackageReference → Option ℕ) where
  undated-import_listings :
      (community : ℕ) (ids : List Text) (db : SchemaDb)
      → undated (import_listings lower package_of community ids db)
        ≡ import_listings lower package_of community ids (undated db)
  unfolding import_listings import_listing
  undated-import_listings community [] db = refl
  undated-import_listings community (id ∷ ids) db =
      let found = find_package lower package_of id in
      undated-import_listings community ids (add_listing community found db)
      ∙ ap (import_listings lower package_of community ids) (undated-add_listing community found db)

  undated-save_community :
      (now : ℕ) (identifier : Text) (schema : SchemaCommunity) (db : SchemaDb)
      → undated (save_community lower package_of now identifier schema db)
        ≡ save_community lower package_of 0 identifier schema (undated db)
  unfolding save_community community_as new_community
  undated-save_community now identifier schema db =
      rw
        (
          map-upsert (is_community identifier) undated_community (λ x. refl)
              (community_as lower package_of now schema) (community_as lower package_of 0 schema)
              (new_community db.fresh identifier) (new_community db.fresh identifier) db.communities
              (λ x. refl) refl,
          any-map_same (is_community identifier) undated_community (λ x. refl) db.communities,
        )
        refl

  undated-update_community :
      (now pk : ℕ) (identifier : Text) (schema : SchemaCommunity) (db : SchemaDb)
      → undated (update_community lower package_of now pk identifier schema db)
        ≡ update_community lower package_of 0 pk identifier schema (undated db)
  unfolding update_community
  undated-update_community now pk identifier schema db =
      let ids = ids_to_list lower package_of schema in
      let db1 = save_community lower package_of now identifier schema db in
      let db2 = import_listings lower package_of pk ids db1 in
      let db3 = import_categories now pk schema.categories db2 in
      undated-import_sections now pk 0 schema.sections db3
      ∙ ap (import_sections 0 pk 0 schema.sections) (
          undated-import_categories now pk schema.categories db2
          ∙ ap (import_categories 0 pk schema.categories) (
              undated-import_listings pk ids db1
              ∙ ap (import_listings lower package_of pk ids)
                  (undated-save_community now identifier schema db)))

  -- But for the times of saves, an import does the same at any time.
  pub undated-import_community :
      (now : ℕ) (identifier : Text) (schema : SchemaCommunity) (db : SchemaDb)
      → undated (import_community lower package_of now identifier schema db)
        ≡ import_community lower package_of 0 identifier schema (undated db)
  unfolding import_community
  undated-import_community now identifier schema db =
      let found =
        first-map (is_community identifier) undated_community (λ x. refl) db.communities in
      elim (Option-cases (first (is_community identifier) db.communities)) [
        | inl e ↦
            rw (found, e, import_community)
              (undated-update_community now db.fresh identifier schema db)
        | inr (c, e) ↦
            rw (found, e, import_community)
              (elim (Bool-cases c.block_auto_updates) [
                | inl b ↦ rw b refl
                | inr b ↦ rw b (undated-update_community now c.pk identifier schema db)
              ])
      ]
