-- ===== src/Schema.antt =====
-- schema_import/sync.py, with the schema of schema_import/schema.py: communities, their categories
-- and sections, listings and installers that are taken over from the ecosystem's schema.
pub mod Imported
pub mod Same
pub mod Again
pub mod Undated
pub mod Rows
pub mod Contents
pub mod Twice
use thunderstore.Prelude.{
  ℕ, zero, suc, Bool, true, false, ◌&&◌, Option, none, some, List, [], ◌∷◌, ◌++◌, map, ◌==ℕ◌,
  if◌then◌else◌, any, select, first, ok, err, Text, codes, text_eq, ℤ, negated, upsert,
}
use thunderstore.Reference.{PackageReference, parse}
use thunderstore.WebCache.Fresh.{kept}

-- The classes of schema.py; a dictionary is the list of its items, whose keys differ.
pub record SchemaSection : Type 0 where
  pub name : Text
  pub exclude_categories : List Text
  pub require_categories : List Text

pub record SchemaMeta : Type 0 where
  pub icon : Option Text
  pub cover : Option Text
  pub background : Option Text
  pub hero : Option Text

pub record SchemaCommunity : Type 0 where
  pub display_name : Text
  -- the label of each slug
  pub categories : List (Text × Text)
  pub sections : List (Text × SchemaSection)
  pub short_description : Option Text
  pub discord_url : Option Text
  pub wiki_url : Option Text
  pub autolist_package_ids : Option (List Text)
  pub listed : Option Bool
  pub paths : Option SchemaMeta

-- The rows of the tables. Those that an import saves again have the time of their last save, which
-- TimestampMixin sets in every `save`; the time of the first save is left out. All saves of an import
-- are at one time, `now`.
pub record CommunityRow : Type 0 where
  pub pk : ℕ
  pub identifier : Text
  pub is_listed : Bool
  pub block_auto_updates : Bool
  pub slogan : Text
  pub short_description : Option Text
  pub description : Text
  pub name : Text
  pub discord_url : Option Text
  pub wiki_url : Option Text
  pub images : SchemaMeta
  pub datetime_updated : ℕ

pub record PackageCategory : Type 0 where
  pub pk : ℕ
  pub slug : Text
  pub community : ℕ
  pub name : Text
  pub datetime_updated : ℕ

pub record SectionRow : Type 0 where
  pub uuid : ℕ
  pub slug : Text
  pub community : ℕ
  pub name : Text
  pub priority : ℤ
  pub is_listed : Bool
  pub require_categories : List ℕ
  pub exclude_categories : List ℕ
  pub datetime_updated : ℕ

pub record AutoListing : Type 0 where
  pub listed_package : ℕ
  pub community : ℕ
  pub is_auto_imported : Bool

-- `fresh` is a key that no row has.
pub record SchemaDb : Type 0 where
  pub communities : List CommunityRow
  pub categories : List PackageCategory
  pub sections : List SectionRow
  pub listings : List AutoListing
  pub fresh : ℕ

abbrev no_images : SchemaMeta
no_images = record { icon = none; cover = none; background = none; hero = none }

-- `Community(identifier=identifier, is_listed=False, block_auto_updates=False)`
unfoldable pub new_community : ℕ → Text → CommunityRow
new_community pk identifier = record {
  pk = pk;
  identifier = identifier;
  is_listed = false;
  block_auto_updates = false;
  slogan = [];
  short_description = none;
  description = [];
  name = [];
  discord_url = none;
  wiki_url = none;
  images = no_images;
  datetime_updated = 0;
}

-- `text.startswith(prefix)`, and the text after that many characters
abbrev pub starts_with : Text → Text → Bool
starts_with [] text = true
starts_with (c ∷ prefix) [] = false
starts_with (c ∷ prefix) (d ∷ text) = (c ==ℕ d) && starts_with prefix text

abbrev pub drop_codes : ℕ → Text → Text
drop_codes zero text = text
drop_codes (suc n) [] = []
drop_codes (suc n) (c ∷ text) = drop_codes n text

-- A key of the table: the slug within the community
abbrev pub is_category : ℕ → Text → PackageCategory → Bool
is_category community slug r = text_eq r.slug slug && r.community ==ℕ community

abbrev pub is_section : ℕ → Text → SectionRow → Bool
is_section community slug r = text_eq r.slug slug && r.community ==ℕ community

-- The loop body over `schema.categories`
unfoldable pub import_category : ℕ → ℕ → Text × Text → SchemaDb → SchemaDb
import_category now community (slug, label) db = record db {
  categories =
      upsert (is_category community slug)
        (λ (r : PackageCategory). record r { name = label; datetime_updated = now })
        (record {
          pk = db.fresh;
          slug = slug;
          community = community;
          name = [];
          datetime_updated = now;
        })
        db.categories;
  fresh = if any (is_category community slug) db.categories then db.fresh else suc db.fresh;
}

-- The keys of the community's categories that have one of the slugs
unfoldable pub categories_named : ℕ → List Text → List PackageCategory → List ℕ
categories_named community slugs rows =
    map (λ (r : PackageCategory). r.pk)
      (select
        (λ (r : PackageCategory).
          any (λ slug. text_eq r.slug slug) slugs && r.community ==ℕ community)
        rows)

abbrev pub section_as : ℕ → ℕ → List PackageCategory → ℕ → SchemaSection → SectionRow → SectionRow
section_as now community categories index v r = record r {
  datetime_updated = now;
  name = v.name;
  priority = negated index;
  is_listed = true;
  require_categories = categories_named community v.require_categories categories;
  exclude_categories = categories_named community v.exclude_categories categories;
}

-- The loop body over `enumerate(schema.sections.items())`
unfoldable pub import_section : ℕ → ℕ → ℕ → Text × SchemaSection → SchemaDb → SchemaDb
import_section now community index (slug, v) db = record db {
  sections =
      upsert (is_section community slug) (section_as now community db.categories index v)
        (record {
          uuid = db.fresh;
          slug = slug;
          community = community;
          name = [];
          priority = negated 0;
          is_listed = true;
          require_categories = [];
          exclude_categories = [];
          datetime_updated = now;
        })
        db.sections;
  fresh = if any (is_section community slug) db.sections then db.fresh else suc db.fresh;
}

unfoldable pub import_categories : ℕ → ℕ → List (Text × Text) → SchemaDb → SchemaDb
import_categories now community [] db = db
import_categories now community (e ∷ entries) db =
    import_categories now community entries (import_category now community e db)

unfoldable pub import_sections : ℕ → ℕ → ℕ → List (Text × SchemaSection) → SchemaDb → SchemaDb
import_sections now community index [] db = db
import_sections now community index (e ∷ entries) db =
    import_sections now community (suc index) entries (import_section now community index e db)

abbrev pub is_community : Text → CommunityRow → Bool
is_community identifier c = text_eq c.identifier identifier

-- `package.get_package_listing(community) is not None`
abbrev pub is_listed_in : ℕ → ℕ → List AutoListing → Bool
is_listed_in community pk rows =
    any (λ (l : AutoListing). (l.listed_package ==ℕ pk) && l.community ==ℕ community) rows

-- The listing of a package that was found, if it has none
unfoldable pub add_listing : ℕ → Option ℕ → SchemaDb → SchemaDb
add_listing community none db = db
add_listing community (some pk) db =
    if is_listed_in community pk db.listings then db else record db {
      listings =
          db.listings
          ++ record { listed_package = pk; community = community; is_auto_imported = true } ∷ [];
    }

-- The value that the schema gives, or the one that is there
abbrev pub given_or {ℓ} : {A : Type ℓ} → Option A → A → A
given_or none kept = kept
given_or (some a) kept = a

-- What the program leaves to others: `str.lower`, and the package that the tables have for a reference
module _ (lower : Text → Text) (package_of : PackageReference → Option ℕ) where
  unfoldable pub get_slogan_from_display_name : Text → Text
  get_slogan_from_display_name name =
      let slogan_name =
        if starts_with (codes "the ") (lower name) then drop_codes 4 name else name in
      codes "The " ++ (slogan_name ++ codes " Mod Database")

  -- The community's attributes from the schema
  unfoldable pub community_as : ℕ → SchemaCommunity → CommunityRow → CommunityRow
  unfolding get_slogan_from_display_name
  community_as now schema c = record c {
    datetime_updated = now;
    slogan = get_slogan_from_display_name schema.display_name;
    short_description = schema.short_description;
    description = codes "Thunderstore is a mod database and API for downloading mods";
    name = schema.display_name;
    discord_url = schema.discord_url;
    wiki_url = schema.wiki_url;
    is_listed = given_or schema.listed c.is_listed;
    images = given_or schema.paths c.images;
  }

  -- `PackageReference.parse(package_id).package`; what it raises is logged and skipped.
  unfoldable pub find_package : Text → Option ℕ
  find_package package_id = elim (parse package_id) [
    | err e ↦ none
    | ok reference ↦ package_of reference
  ]

  -- The loop body over `schema.autolist_package_ids`
  unfoldable pub import_listing : ℕ → Text → SchemaDb → SchemaDb
  import_listing community package_id db = add_listing community (find_package package_id) db

  unfoldable pub import_listings : ℕ → List Text → SchemaDb → SchemaDb
  import_listings community [] db = db
  import_listings community (id ∷ ids) db =
      import_listings community ids (import_listing community id db)

  -- The row of the community, made if there is none, with the attributes from the schema
  unfoldable pub save_community : ℕ → Text → SchemaCommunity → SchemaDb → SchemaDb
  save_community now identifier schema db = record db {
    communities =
        upsert (is_community identifier) (community_as now schema)
          (new_community db.fresh identifier) db.communities;
    fresh = if any (is_community identifier) db.communities then db.fresh else suc db.fresh;
  }

  abbrev pub ids_to_list : SchemaCommunity → List Text
  ids_to_list schema = elim schema.autolist_package_ids as (λ o. List Text) [
    | none ↦ []
    | some ids ↦ ids
  ]

  -- `import_community` where the updates are not blocked, for the community with a key
  unfoldable pub update_community : ℕ → ℕ → Text → SchemaCommunity → SchemaDb → SchemaDb
  update_community now pk identifier schema db =
      let db1 = save_community now identifier schema db in
      let db2 = import_listings pk (ids_to_list schema) db1 in
      let db3 = import_categories now pk schema.categories db2 in
      import_sections now pk 0 schema.sections db3

  unfoldable pub import_community : ℕ → Text → SchemaCommunity → SchemaDb → SchemaDb
  unfolding update_community
  import_community now identifier schema db =
      elim (first (is_community identifier) db.communities) [
        | none ↦ update_community now db.fresh identifier schema db
        | some c ↦
            if c.block_auto_updates then db else update_community now c.pk identifier schema db
      ]

  -- `import_schema_communities`, where no import raises
  unfoldable pub import_schema_communities : ℕ → List (Text × SchemaCommunity) → SchemaDb → SchemaDb
  unfolding import_community
  import_schema_communities now [] db = db
  import_schema_communities now ((identifier, schema) ∷ entries) db =
      import_schema_communities now entries (import_community now identifier schema db)

pub record SchemaPackageInstaller : Type 0 where
  pub name : Text
  pub description : Text

-- The times of saves are left out.
pub record PackageInstaller : Type 0 where
  pub identifier : Text
  pub name : Text
  pub description : Text

unfoldable pub import_installer :
    Text × SchemaPackageInstaller → List PackageInstaller → List PackageInstaller
import_installer (identifier, schema) rows =
    upsert (λ (r : PackageInstaller). text_eq r.identifier identifier)
      (λ (r : PackageInstaller). record r { name = schema.name; description = schema.description })
      (record { identifier = identifier; name = []; description = [] }) rows

unfoldable pub import_schema_package_installers :
    Option (List (Text × SchemaPackageInstaller)) → List PackageInstaller → List PackageInstaller
import_schema_package_installers none rows = rows
import_schema_package_installers (some []) rows = rows
import_schema_package_installers (some (e ∷ entries)) rows =
    import_schema_package_installers (some entries) (import_installer e rows)
