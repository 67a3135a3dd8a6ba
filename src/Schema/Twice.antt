-- ===== src/Schema/Twice.antt =====
-- What `import_community` of schema_import/sync.py does, and that it may be repeated.
use thunderstore.Prelude.{
  ℕ, ◌≡◌, refl, sym, ap, ◌∙◌, subst, inl, inr, true, false, not, Option, some, ◌==ℕ◌, Bool-cases,
  Option-cases, select, first, Text, text_eq_refl, select-upsert_other, FirstHas-first,
}
use thunderstore.Reference.{PackageReference}
use thunderstore.Schema.{
  SchemaCommunity, CommunityRow, PackageCategory, SectionRow, AutoListing, SchemaDb, is_community,
  new_community, community_as, save_community, import_listings, import_categories, ids_to_list,
  update_community, import_community,
}
use thunderstore.Schema.Imported.{
  import_categories_others, import_sections_others, import_sections_rest, import_categories_rest,
  DistinctSlugs,
}
use thunderstore.Schema.Undated.{undated, undated-import_community}
use thunderstore.Schema.Contents.{IsImported, update_community-IsImported}
use thunderstore.Schema.Again.{
  import_listings_rest, Updates, IsSettled, update_community-IsSettled, update_community_same,
}

module _ (lower : Text → Text) (package_of : PackageReference → Option ℕ) (now : ℕ) where
  -- The rows of the other communities are as before.
  pub record LeavesOthers (pk : ℕ) (identifier : Text) (db db' : SchemaDb) : Type 0 where
    pub communities :
        select (λ c. not (is_community identifier c)) db'.communities
        ≡ select (λ c. not (is_community identifier c)) db.communities
    pub categories :
        select (λ (r : PackageCategory). not (r.community ==ℕ pk)) db'.categories
        ≡ select (λ (r : PackageCategory). not (r.community ==ℕ pk)) db.categories
    pub sections :
        select (λ (r : SectionRow). not (r.community ==ℕ pk)) db'.sections
        ≡ select (λ (r : SectionRow). not (r.community ==ℕ pk)) db.sections
    pub listings :
        select (λ (r : AutoListing). not (r.community ==ℕ pk)) db'.listings
        ≡ select (λ (r : AutoListing). not (r.community ==ℕ pk)) db.listings

  save_community_others :
      (identifier : Text) (schema : SchemaCommunity) (db : SchemaDb)
      → (select
            (λ c. not (is_community identifier c))
            (save_community lower package_of now identifier schema db).communities
          ≡ select (λ c. not (is_community identifier c)) db.communities)
        × ((save_community lower package_of now identifier schema db).categories ≡ db.categories)
        × ((save_community lower package_of now identifier schema db).sections ≡ db.sections)
        × ((save_community lower package_of now identifier schema db).listings ≡ db.listings)
  unfolding save_community community_as new_community
  save_community_others identifier schema db = (
    select-upsert_other (is_community identifier) (community_as lower package_of now schema)
        (new_community db.fresh identifier) (λ c. not (is_community identifier c)) db.communities
        (rw (text_eq_refl identifier) refl) (λ x k. (rw k refl, rw k refl)),
    refl,
    refl,
    refl,
  )

  update_community-LeavesOthers :
      (pk : ℕ) (identifier : Text) (schema : SchemaCommunity) (db : SchemaDb)
      → LeavesOthers pk identifier db
          (update_community lower package_of now pk identifier schema db)
  unfolding update_community
  update_community-LeavesOthers pk identifier schema db =
      let db1 = save_community lower package_of now identifier schema db in
      let ids = ids_to_list lower package_of schema in
      let db2 = import_listings lower package_of pk ids db1 in
      let db3 = import_categories now pk schema.categories db2 in
      let (cats, comms, lists) = import_sections_rest now pk 0 schema.sections db3 in
      let (secs3, comms3, lists3) = import_categories_rest now pk schema.categories db2 in
      let (comms2, cats2, secs2, others2) = import_listings_rest lower package_of now pk ids db1 in
      let (others1, cats1, secs1, lists1) = save_community_others identifier schema db in
      let other_category = select (λ (r : PackageCategory). not (r.community ==ℕ pk)) in
      let other_section = select (λ (r : SectionRow). not (r.community ==ℕ pk)) in
      let other_listing = select (λ (r : AutoListing). not (r.community ==ℕ pk)) in
      record {
        communities =
            ap (select (λ c. not (is_community identifier c))) (comms ∙ (comms3 ∙ comms2))
            ∙ others1;
        categories =
            ap other_category cats
            ∙ (import_categories_others now pk schema.categories db2
                ∙ ap other_category (cats2 ∙ cats1));
        sections =
            import_sections_others now pk 0 schema.sections db3
            ∙ ap other_section (secs3 ∙ (secs2 ∙ secs1));
        listings = ap other_listing (lists ∙ lists3) ∙ (others2 ∙ ap other_listing lists1);
      }

  -- Whether an import is blocked, or for which community it updates the tables
  data ImportCase (identifier : Text) (schema : SchemaCommunity) (db : SchemaDb) : Type 0 where
    blocked :
        (c : CommunityRow)
        → first (is_community identifier) db.communities ≡ some c
        → c.block_auto_updates ≡ true
        → import_community lower package_of now identifier schema db ≡ db
        → ImportCase identifier schema db
    updated :
        (pk : ℕ)
        → Updates lower package_of now pk identifier db
        → import_community lower package_of now identifier schema db
          ≡ update_community lower package_of now pk identifier schema db
        → ImportCase identifier schema db

  Updates-eq :
      (pk : ℕ) (identifier : Text) (schema : SchemaCommunity) (db : SchemaDb)
      → Updates lower package_of now pk identifier db
      → import_community lower package_of now identifier schema db
        ≡ update_community lower package_of now pk identifier schema db
  unfolding import_community
  Updates-eq pk identifier schema db (inl (c, found, key, open_to)) =
      subst
        (λ k.
          import_community lower package_of now identifier schema db
          ≡ update_community lower package_of now k identifier schema db)
        key (rw (found, import_community) (rw open_to refl))
  Updates-eq pk identifier schema db (inr (absent, key)) =
      subst
        (λ k.
          import_community lower package_of now identifier schema db
          ≡ update_community lower package_of now k identifier schema db)
        key (rw (absent, import_community) refl)

  import_case :
      (identifier : Text) (schema : SchemaCommunity) (db : SchemaDb)
      → ImportCase identifier schema db
  unfolding import_community
  import_case identifier schema db =
      elim (Option-cases (first (is_community identifier) db.communities)) [
        | inl e ↦
            updated db.fresh (inr (e, refl))
              (Updates-eq db.fresh identifier schema db (inr (e, refl)))
        | inr (c, e) ↦ elim (Bool-cases c.block_auto_updates) [
          | inl b ↦ blocked c e b (rw (e, import_community) (rw b refl))
          | inr b ↦
              updated c.pk (inl (c, e, refl, b))
                (Updates-eq c.pk identifier schema db (inl (c, e, refl, b)))
        ]
      ]

  import_community-IsSettled :
      (pk : ℕ) (identifier : Text) (schema : SchemaCommunity) (db : SchemaDb)
      → DistinctSlugs schema.categories
      → DistinctSlugs schema.sections
      → Updates lower package_of now pk identifier db
      → IsSettled lower package_of now pk identifier schema
          (import_community lower package_of now identifier schema db)
  import_community-IsSettled pk identifier schema db d d' u =
      rw (Updates-eq pk identifier schema db u)
        (update_community-IsSettled lower package_of now pk identifier schema db d d' u)

  -- An import of a community that takes updates, or of a new one, leaves the community with the
  -- schema's name, addresses and description, a slogan of the name, and what is listed and shown of it
  -- as the schema has it or as before; its categories with their labels; its sections listed in the
  -- schema's order, with the names and the required and excluded categories of the schema; a listing of
  -- each package that is found, where new ones are marked as imported and none is taken away; and the
  -- rows of all other communities as they were, if the slugs of the schema's categories differ, and
  -- those of its sections.
  pub import_community-IsImported :
      (pk : ℕ) (identifier : Text) (schema : SchemaCommunity) (db : SchemaDb)
      → DistinctSlugs schema.categories
      → DistinctSlugs schema.sections
      → Updates lower package_of now pk identifier db
      → IsImported lower package_of now pk identifier schema
          (first (is_community identifier) db.communities)
          db
          (import_community lower package_of now identifier schema db)
        × LeavesOthers pk identifier db (import_community lower package_of now identifier schema db)
  import_community-IsImported pk identifier schema db d d' u =
      rw (Updates-eq pk identifier schema db u) (
        update_community-IsImported lower package_of now pk identifier schema db d d' u,
        update_community-LeavesOthers pk identifier schema db,
      )

  -- After an import a community is found that takes updates.
  imported-Updates :
      (pk : ℕ) (identifier : Text) (schema : SchemaCommunity) (db : SchemaDb)
      → IsSettled lower package_of now pk identifier schema db
      → Updates lower package_of now pk identifier db
  imported-Updates pk identifier schema db i =
      let (c, e, p) =
        FirstHas-first (is_community identifier)
          (λ (c : CommunityRow).
            (community_as lower package_of now schema c ≡ c)
            × ((c.pk ≡ pk) × (c.block_auto_updates ≡ false)))
          db.communities i.community in
      inl (c, e, p.1.0, p.1.1)

  import_community_same :
      (identifier : Text) (schema : SchemaCommunity) (db : SchemaDb)
      → DistinctSlugs schema.categories
      → DistinctSlugs schema.sections
      → import_community lower package_of now identifier schema
          (import_community lower package_of now identifier schema db)
        ≡ import_community lower package_of now identifier schema db
  import_community_same identifier schema db d d' = elim (import_case identifier schema db) [
    | blocked c e b unchanged ↦
        ap (import_community lower package_of now identifier schema) unchanged
    | updated pk u changed ↦
        let db' = import_community lower package_of now identifier schema db in
        let imported = import_community-IsSettled pk identifier schema db d d' u in
        Updates-eq pk identifier schema db' (imported-Updates pk identifier schema db' imported)
        ∙ update_community_same lower package_of now pk identifier schema db' imported
  ]

module _ (lower : Text → Text) (package_of : PackageReference → Option ℕ) where
  -- Importing the same schema of a community a second time, at any time, changes nothing but the times
  -- of the last saves, whether the community is new, stored or blocks its updates, if the slugs of its
  -- categories differ, and those of its sections.
  pub import_community-again :
      (now later : ℕ) (identifier : Text) (schema : SchemaCommunity) (db : SchemaDb)
      → DistinctSlugs schema.categories
      → DistinctSlugs schema.sections
      → let db' = import_community lower package_of now identifier schema db in
        undated (import_community lower package_of later identifier schema db') ≡ undated db'
  import_community-again now later identifier schema db d d' =
      let once = λ (x : SchemaDb). import_community lower package_of 0 identifier schema x in
      let stored = undated-import_community lower package_of now identifier schema db in
      undated-import_community lower package_of later identifier schema
        (import_community lower package_of now identifier schema db)
      ∙ (ap once stored
          ∙ (import_community_same lower package_of 0 identifier schema (undated db) d d'
              ∙ sym stored))
