-- ===== src/Wiki.antt =====
-- wiki/models/wiki.py and repository/models/wiki.py: wikis with their pages, and the wiki of a
-- package. `slugify` is Django's.
pub mod Pages
use thunderstore.Prelude.{
  ℕ, suc, Bool, not, Option, none, some, List, [], ◌∷◌, ◌++◌, ◌==ℕ◌, if◌then◌else◌, select, first,
  update_where, Text, codes, upsert,
}
use thunderstore.Team.Storage.{create}
use thunderstore.Package.Latest.Newest.{saved}

pub record WikiRow : Type 0 where
  pub pk : ℕ
  pub title : Text
  pub slug : Text
  pub datetime_updated : ℕ

-- `wiki` is the key of the page's wiki.
pub record WikiPage : Type 0 where
  pub pk : ℕ
  pub wiki : ℕ
  pub title : Text
  pub slug : Text
  pub markdown_content : Option Text

-- The keys of the package and of its wiki
pub record PackageWiki : Type 0 where
  pub package_id : ℕ
  pub wiki : ℕ

pub record WikiDb : Type 0 where
  pub wikis : List WikiRow
  pub pages : List WikiPage
  pub package_wikis : List PackageWiki
  -- the next key
  pub fresh : ℕ

-- What `get_for_package` returns: a stored row, or one that is made for the occasion, with the title
-- of its wiki
pub data FoundWiki : Type 0 where
  stored : PackageWiki → FoundWiki
  dummy : Text → FoundWiki

abbrev pub is_wiki : ℕ → WikiRow → Bool
is_wiki pk w = w.pk ==ℕ pk

abbrev pub is_of_package : ℕ → PackageWiki → Bool
is_of_package package_id w = w.package_id ==ℕ package_id

-- The title of `create_wiki_for_package`
abbrev pub wiki_title : Text → Text → Text
wiki_title namespace name = namespace ++ (47 ∷ (name ++ codes " Wiki"))

module _ (slugify : Text → Text) where
  -- `create_wiki_for_package` with `save`, and the row of PackageWiki
  unfoldable pub create_package_wiki : ℕ → ℕ → Text → WikiDb → WikiDb × PackageWiki
  create_package_wiki now package_id title db =
      let row : PackageWiki = record { package_id = package_id; wiki = db.fresh } in
      let wiki : WikiRow = record {
        pk = db.fresh;
        title = title;
        slug = slugify title;
        datetime_updated = now;
      } in
      (
        record db {
          wikis = db.wikis ++ wiki ∷ [];
          package_wikis = db.package_wikis ++ row ∷ [];
          fresh = suc db.fresh;
        },
        row,
      )

  unfoldable pub get_for_package :
      ℕ → ℕ → Text → Text → Bool → Bool → WikiDb → WikiDb × Option FoundWiki
  unfolding create_package_wiki
  get_for_package now package_id namespace name create use_dummy db =
      let title = wiki_title namespace name in
      let made = create_package_wiki now package_id title db in
      elim (first (is_of_package package_id) db.package_wikis) [
        | some row ↦ (db, some (stored row))
        | none ↦
            if create
            then (made.0, some (stored made.1))
            else if use_dummy
            then (db, some (dummy title))
            else (db, none)
      ]

  -- `on_page_updated`, which saves the wiki
  unfoldable pub on_page_updated : ℕ → ℕ → WikiDb → WikiDb
  on_page_updated now wiki db = record db {
    wikis =
        update_where (is_wiki wiki)
          (λ (w : WikiRow). record w { datetime_updated = now; slug = slugify w.title }) db.wikis;
  }

  -- `WikiPage.save`
  unfoldable pub save_page : ℕ → WikiPage → WikiDb → WikiDb
  unfolding on_page_updated
  save_page now page db =
      let saved : WikiPage = record page { slug = slugify page.title } in
      on_page_updated now page.wiki (record db {
        pages = upsert (λ (p : WikiPage). p.pk ==ℕ page.pk) (λ _. saved) saved db.pages;
      })

  -- `WikiPage.delete`
  unfoldable pub delete_page : ℕ → WikiPage → WikiDb → WikiDb
  unfolding on_page_updated
  delete_page now page db =
      on_page_updated now page.wiki
        (record db { pages = select (λ (p : WikiPage). not (p.pk ==ℕ page.pk)) db.pages })
