-- ===== src/Schema/Again.antt =====
-- An import of schema_import/sync.py as a whole.
use thunderstore.Prelude.{
  ℕ, ◌≡◌, refl, sym, ap, ◌∙◌, subst, ◌⊎◌, inl, inr, false, not, Option, none, some, List, [], ◌∷◌,
  arith, ◌==ℕ◌, select, first, All, Text, text_eq_refl, FirstHas, upsert-FirstHas_of,
  upsert-FirstHas_new, upsert_same, any-FirstHas, first-FirstHas,
}
use thunderstore.Reference.{PackageReference}
use thunderstore.Schema.{
  given_or, save_community, ids_to_list, SchemaCommunity, CommunityRow, AutoListing, SchemaDb,
  community_as, find_package, is_community, import_categories, import_sections, add_listing,
  import_listing, import_listings, update_community, new_community,
}
use thunderstore.Schema.Imported.{
  HasCategory, HasSections, DistinctSlugs, import_categories-Has, import_sections-Has,
  import_sections_rest, import_categories_rest,
}
use thunderstore.Schema.Same.{
  IsListedAs, add_listing-IsListedAs, add_listing-keeps, add_listing_same, add_listing_others,
  import_categories_same, import_sections_same,
}

module _ (lower : Text → Text) (package_of : PackageReference → Option ℕ) (now : ℕ) where
  -- The package that the identifier names, if there is one, has a listing.
  abbrev pub HasListing : ℕ → List AutoListing → Text → Type 0
  HasListing community rows id = IsListedAs community rows (find_package lower package_of id)

  -- The row of the community is as the schema has it, under the key, and takes updates.
  abbrev pub HasCommunity : ℕ → Text → SchemaCommunity → List CommunityRow → Type 0
  HasCommunity pk identifier schema rows =
      FirstHas (is_community identifier)
        (λ (c : CommunityRow).
          (community_as lower package_of now schema c ≡ c)
          × ((c.pk ≡ pk) × (c.block_auto_updates ≡ false)))
        rows

  -- What an import of a community at the time changes no more.
  pub record IsSettled (pk : ℕ) (identifier : Text) (schema : SchemaCommunity) (db' : SchemaDb)
      : Type 0 where
    pub community : HasCommunity pk identifier schema db'.communities
    pub categories : All (HasCategory now pk db'.categories) schema.categories
    pub sections : HasSections now pk db'.categories db'.sections 0 schema.sections
    pub listings : All (HasListing pk db'.listings) (ids_to_list lower package_of schema)

  import_listings-keeps :
      (community : ℕ) (o : Option ℕ) (ids : List Text) (db : SchemaDb)
      → IsListedAs community db.listings o
      → IsListedAs community (import_listings lower package_of community ids db).listings o
  unfolding import_listings import_listing
  import_listings-keeps community o [] db h = h
  import_listings-keeps community o (id ∷ ids) db h =
      import_listings-keeps community o ids
        (add_listing community (find_package lower package_of id) db)
        (add_listing-keeps community o (find_package lower package_of id) db h)

  import_listings-Has :
      (community : ℕ) (ids : List Text) (db : SchemaDb)
      → All (HasListing community (import_listings lower package_of community ids db).listings) ids
  unfolding import_listings import_listing
  import_listings-Has community [] db = tt
  import_listings-Has community (id ∷ ids) db =
      let found = find_package lower package_of id in
      let db' = add_listing community found db in
      (
        import_listings-keeps community found ids db' (add_listing-IsListedAs community found db),
        import_listings-Has community ids db',
      )

  import_listings_same :
      (community : ℕ) (ids : List Text) (db : SchemaDb)
      → All (HasListing community db.listings) ids
      → import_listings lower package_of community ids db ≡ db
  unfolding import_listings import_listing
  import_listings_same community [] db h = refl
  import_listings_same community (id ∷ ids) db (k, h) =
      rw (add_listing_same community (find_package lower package_of id) db k)
        (import_listings_same community ids db h)

  add_listing_rest :
      (community : ℕ) (o : Option ℕ) (db : SchemaDb)
      → ((add_listing community o db).communities ≡ db.communities)
        × ((add_listing community o db).categories ≡ db.categories)
        × ((add_listing community o db).sections ≡ db.sections)
  unfolding add_listing
  add_listing_rest community none db = (refl, refl, refl)
  add_listing_rest community (some pk) db = ground arith

  -- The tables of communities, categories and sections stay, and so do listings elsewhere.
  pub import_listings_rest :
      (community : ℕ) (ids : List Text) (db : SchemaDb)
      → ((import_listings lower package_of community ids db).communities ≡ db.communities)
        × ((import_listings lower package_of community ids db).categories ≡ db.categories)
        × ((import_listings lower package_of community ids db).sections ≡ db.sections)
        × (select
              (λ (l : AutoListing). not (l.community ==ℕ community))
              (import_listings lower package_of community ids db).listings
            ≡ select (λ (l : AutoListing). not (l.community ==ℕ community)) db.listings)
  unfolding import_listings import_listing
  import_listings_rest community [] db = (refl, refl, refl, refl)
  import_listings_rest community (id ∷ ids) db =
      let o = find_package lower package_of id in
      let (a, b, c, d) = import_listings_rest community ids (add_listing community o db) in
      let (a', b', c') = add_listing_rest community o db in
      (a ∙ a', b ∙ b', c ∙ c', d ∙ add_listing_others community o db)

  save_community_same :
      (pk : ℕ) (identifier : Text) (schema : SchemaCommunity) (db : SchemaDb)
      → HasCommunity pk identifier schema db.communities
      → save_community lower package_of now identifier schema db ≡ db
  unfolding save_community
  save_community_same pk identifier schema db h =
      let P = λ (c : CommunityRow).
        (community_as lower package_of now schema c ≡ c)
        × ((c.pk ≡ pk) × (c.block_auto_updates ≡ false)) in
      let rows =
        upsert_same (is_community identifier) (community_as lower package_of now schema)
          (new_community db.fresh identifier) P db.communities (λ x p. p.0) h in
      rw (rows, any-FirstHas (is_community identifier) P db.communities h) refl

  -- What a second import finds, it leaves.
  pub update_community_same :
      (pk : ℕ) (identifier : Text) (schema : SchemaCommunity) (db : SchemaDb)
      → IsSettled pk identifier schema db
      → update_community lower package_of now pk identifier schema db ≡ db
  unfolding update_community
  update_community_same pk identifier schema db i =
      rw
        (
          save_community_same pk identifier schema db i.community,
          import_listings_same pk (ids_to_list lower package_of schema) db i.listings,
          import_categories_same now pk schema.categories db i.categories,
          import_sections_same now pk 0 schema.sections db i.sections,
        )
        refl

  -- The community whose import changes the tables: the stored one, if it takes updates, or a new one
  abbrev pub Updates : ℕ → Text → SchemaDb → Type 0
  Updates pk identifier db =
      ((c : CommunityRow) × (first (is_community identifier) db.communities ≡ some c)
        × (c.pk ≡ pk)
        × (c.block_auto_updates ≡ false))
      ⊎ ((first (is_community identifier) db.communities ≡ none) × (db.fresh ≡ pk))

  given_or-again {ℓ} :
      {A : Type ℓ} (o : Option A) (a : A) → given_or o (given_or o a) ≡ given_or o a
  given_or-again none a = refl
  given_or-again (some b) a = refl

  community_as-again :
      (schema : SchemaCommunity) (c : CommunityRow)
      → community_as lower package_of now schema (community_as lower package_of now schema c)
        ≡ community_as lower package_of now schema c
  unfolding community_as
  community_as-again schema c =
      rw (given_or-again schema.listed c.is_listed, given_or-again schema.paths c.images) refl

  save_community-Has :
      (pk : ℕ) (identifier : Text) (schema : SchemaCommunity) (db : SchemaDb)
      → Updates pk identifier db
      → HasCommunity pk identifier schema
          (save_community lower package_of now identifier schema db).communities
  unfolding save_community community_as new_community
  save_community-Has pk identifier schema db (inl (c, e, k, u)) =
      upsert-FirstHas_of (is_community identifier) (community_as lower package_of now schema)
        (new_community db.fresh identifier) (λ (x : CommunityRow). x ≡ c)
        (λ (x : CommunityRow).
          (community_as lower package_of now schema x ≡ x)
          × ((x.pk ≡ pk) × (x.block_auto_updates ≡ false)))
        db.communities
        (λ x t q. (
          t,
          (
            community_as-again schema x,
            (
              ap (λ (y : CommunityRow). y.pk) q ∙ k,
              ap (λ (y : CommunityRow). y.block_auto_updates) q ∙ u,
            ),
          ),
        ))
        (first-FirstHas (is_community identifier) db.communities c e)
  save_community-Has pk identifier schema db (inr (e, k)) =
      upsert-FirstHas_new (is_community identifier) (community_as lower package_of now schema)
        (new_community db.fresh identifier)
        (λ (x : CommunityRow).
          (community_as lower package_of now schema x ≡ x)
          × ((x.pk ≡ pk) × (x.block_auto_updates ≡ false)))
        db.communities (text_eq_refl identifier)
        (community_as-again schema (new_community db.fresh identifier), (k, refl)) e

  pub update_community-IsSettled :
      (pk : ℕ) (identifier : Text) (schema : SchemaCommunity) (db : SchemaDb)
      → DistinctSlugs schema.categories
      → DistinctSlugs schema.sections
      → Updates pk identifier db
      → IsSettled pk identifier schema
          (update_community lower package_of now pk identifier schema db)
  unfolding update_community
  update_community-IsSettled pk identifier schema db d d' u =
      let db1 = save_community lower package_of now identifier schema db in
      let ids = ids_to_list lower package_of schema in
      let db2 = import_listings lower package_of pk ids db1 in
      let db3 = import_categories now pk schema.categories db2 in
      let (cats, comms, lists) = import_sections_rest now pk 0 schema.sections db3 in
      let (secs3, comms3, lists3) = import_categories_rest now pk schema.categories db2 in
      let comms2 = (import_listings_rest pk ids db1).0 in
      record {
        community =
            subst (HasCommunity pk identifier schema) (sym (comms ∙ (comms3 ∙ comms2)))
              (save_community-Has pk identifier schema db u);
        categories =
            subst (λ rows. All (HasCategory now pk rows) schema.categories) (sym cats)
              (import_categories-Has now pk schema.categories db2 d);
        sections =
            subst
              (λ rows.
                HasSections now pk rows (import_sections now pk 0 schema.sections db3).sections 0
                  schema.sections)
              (sym cats) (import_sections-Has now pk 0 schema.sections db3 d');
        listings =
            subst (λ rows. All (HasListing pk rows) ids) (sym (lists ∙ lists3))
              (import_listings-Has pk ids db1);
      }
