-- ===== src/Schema/Contents.antt =====
-- What an import of schema_import/sync.py leaves of a community, told apart from how it assigns it.
use thunderstore.Prelude.{
  ℕ, ◌≡◌, refl, sym, ap, ◌∙◌, subst, inl, inr, true, Option, none, some, List, [], ◌∷◌, ◌++◌,
  append_assoc, append-nil, Bool-cases, first, All, All-append, Text, FirstHas,
}
use thunderstore.Reference.{PackageReference}
use thunderstore.Schema.{
  SchemaCommunity, CommunityRow, AutoListing, SchemaDb, is_community, is_listed_in, add_listing,
  find_package, import_listing, import_listings, save_community, import_categories, ids_to_list,
  update_community,
}
use thunderstore.Schema.Imported.{
  HasCategory, DistinctSlugs, import_sections_rest, import_categories_rest,
}
use thunderstore.Schema.Again.{
  HasListing, Updates, import_listings_rest, update_community-IsSettled,
}
use thunderstore.Schema.Rows.{
  HasSectionsAs, sections-HasSectionsAs, IsCommunityAs, save_community-IsCommunityAs,
}

module _ (lower : Text → Text) (package_of : PackageReference → Option ℕ) where
  -- Listings that an import adds to those that are there
  abbrev pub AddsListings : ℕ → List AutoListing → List AutoListing → Type 0
  AddsListings pk before after =
      (added : List AutoListing) × (after ≡ before ++ added)
      × All (λ (l : AutoListing). (l.community ≡ pk) × (l.is_auto_imported ≡ true)) added

  AddsListings-trans :
      (pk : ℕ) (a b c : List AutoListing)
      → AddsListings pk a b
      → AddsListings pk b c
      → AddsListings pk a c
  AddsListings-trans pk a b c (xs, e, h) (ys, f, k) =
      (xs ++ ys, f ∙ (ap (λ zs. zs ++ ys) e ∙ append_assoc a xs ys), All-append _ xs ys h k)

  add_listing-AddsListings :
      (pk : ℕ) (o : Option ℕ) (db : SchemaDb)
      → AddsListings pk db.listings (add_listing pk o db).listings
  unfolding add_listing
  add_listing-AddsListings pk none db = ([], sym (append-nil db.listings), tt)
  add_listing-AddsListings pk (some k) db = elim (Bool-cases (is_listed_in pk k db.listings)) [
    | inl e ↦ rw e ([], sym (append-nil db.listings), tt)
    | inr e ↦ rw e (
      record { listed_package = k; community = pk; is_auto_imported = true } ∷ [],
      refl,
      ((refl, refl), tt),
    )
  ]

  import_listings-AddsListings :
      (pk : ℕ) (ids : List Text) (db : SchemaDb)
      → AddsListings pk db.listings (import_listings lower package_of pk ids db).listings
  unfolding import_listings import_listing
  import_listings-AddsListings pk [] db = ([], sym (append-nil db.listings), tt)
  import_listings-AddsListings pk (id ∷ ids) db =
      let db' = add_listing pk (find_package lower package_of id) db in
      AddsListings-trans pk db.listings db'.listings
        (import_listings lower package_of pk ids db').listings
        (add_listing-AddsListings pk (find_package lower package_of id) db)
        (import_listings-AddsListings pk ids db')

  -- The community's row, its categories with their labels, its sections, and a listing of each package
  -- that is found, beside the listings that were there
  pub record IsImported (now pk : ℕ) (identifier : Text) (schema : SchemaCommunity)
      (before : Option CommunityRow) (db db' : SchemaDb) : Type 0 where
    pub community :
        FirstHas
          (is_community identifier)
          (IsCommunityAs lower package_of now pk schema before)
          db'.communities
    pub categories : All (HasCategory now pk db'.categories) schema.categories
    pub sections : HasSectionsAs now pk db'.categories db'.sections 0 schema.sections
    pub added : AddsListings pk db.listings db'.listings
    pub listings :
        All (HasListing lower package_of now pk db'.listings) (ids_to_list lower package_of schema)

  pub update_community-IsImported :
      (now pk : ℕ) (identifier : Text) (schema : SchemaCommunity) (db : SchemaDb)
      → DistinctSlugs schema.categories
      → DistinctSlugs schema.sections
      → Updates lower package_of now pk identifier db
      → IsImported now pk identifier schema
          (first (is_community identifier) db.communities)
          db
          (update_community lower package_of now pk identifier schema db)
  unfolding update_community save_community
  update_community-IsImported now pk identifier schema db d d' u =
      let db' = update_community lower package_of now pk identifier schema db in
      let settled =
        update_community-IsSettled lower package_of now pk identifier schema db d d' u in
      let db1 = save_community lower package_of now identifier schema db in
      let ids = ids_to_list lower package_of schema in
      let db2 = import_listings lower package_of pk ids db1 in
      let db3 = import_categories now pk schema.categories db2 in
      let after =
        (import_sections_rest now pk 0 schema.sections db3).1
        ∙ ((import_categories_rest now pk schema.categories db2).1
            ∙ (import_listings_rest lower package_of now pk ids db1).0) in
      record {
        community =
            subst
              (FirstHas (is_community identifier) (
                IsCommunityAs lower package_of now pk schema
                  (first (is_community identifier) db.communities)))
              (sym after)
              (save_community-IsCommunityAs lower package_of now pk identifier schema db u);
        categories = settled.categories;
        sections =
            sections-HasSectionsAs now pk db'.categories db'.sections 0 schema.sections
              settled.sections;
        added =
            subst (AddsListings pk db.listings)
              (sym (
                (import_sections_rest now pk 0 schema.sections db3).2
                ∙ (import_categories_rest now pk schema.categories db2).2))
              (import_listings-AddsListings pk ids db1);
        listings = settled.listings;
      }
