-- ===== src/Wiki/Pages.antt =====
-- What pages do to their wiki, and what a package's wiki is.
use thunderstore.Prelude.{
  ℕ, ◌≡◌, refl, sym, ap, subst, inl, inr, Bool, true, Option, none, some, List, [], ◌∷◌, ◌++◌,
  arith, ==ℕ_refl, Bool-cases, Option-cases, first, update_where, some_inj, Text,
}
use thunderstore.Wiki.{
  WikiRow, WikiPage, PackageWiki, WikiDb, FoundWiki, stored, is_wiki, is_of_package, wiki_title,
  create_package_wiki, get_for_package, on_page_updated, save_page, delete_page,
}

first-append_one :
    (package_id : ℕ) (row : PackageWiki) (rows : List PackageWiki)
    → first (is_of_package package_id) rows ≡ none
    → is_of_package package_id row ≡ true
    → first (is_of_package package_id) (rows ++ row ∷ []) ≡ some row
first-append_one package_id row [] h e = rw e refl
first-append_one package_id row (r ∷ rows) h e =
    ground (arith, first-append_one package_id row rows)

module _ (slugify : Text → Text) where
  get_found :
      (now package_id : ℕ) (namespace name : Text) (create use_dummy : Bool) (db : WikiDb)
      (row : PackageWiki)
      → first (is_of_package package_id) db.package_wikis ≡ some row
      → get_for_package slugify now package_id namespace name create use_dummy db
        ≡ (db, some (stored row))
  unfolding get_for_package
  get_found now package_id namespace name create use_dummy db row h = rw (get_for_package, h) refl

  -- A wiki that was created for a package is found from then on, and nothing is made again.
  pub get_for_package-again :
      (now later package_id : ℕ) (namespace name : Text) (use_dummy create_later dummy_later : Bool)
      (db : WikiDb)
      → let made = get_for_package slugify now package_id namespace name true use_dummy db in
        get_for_package slugify later package_id namespace name create_later dummy_later made.0
        ≡ made
  unfolding get_for_package create_package_wiki
  get_for_package-again now later package_id namespace name use_dummy create_later dummy_later db =
      elim (Option-cases (first (is_of_package package_id) db.package_wikis)) [
        | inl e ↦
            let new_wiki =
              create_package_wiki slugify now package_id (wiki_title namespace name) db in
            let made : get_for_package slugify now package_id namespace name true use_dummy db
                ≡ (new_wiki.0, some (stored new_wiki.1)) =
              rw (get_for_package, e) refl in
            let found =
              first-append_one package_id new_wiki.1 db.package_wikis e (==ℕ_refl package_id) in
            subst
              (λ (m : WikiDb × Option FoundWiki).
                get_for_package slugify later package_id namespace name create_later dummy_later m.0
                ≡ m)
              (sym made)
              (get_found later package_id namespace name create_later dummy_later new_wiki.0
                new_wiki.1 found)
        | inr (row, e) ↦
            subst
              (λ (m : WikiDb × Option FoundWiki).
                get_for_package slugify later package_id namespace name create_later dummy_later m.0
                ≡ m)
              (sym (get_found now package_id namespace name true use_dummy db row e))
              (get_found later package_id namespace name create_later dummy_later db row e)
      ]

  updated_wiki : ℕ → WikiRow → WikiRow
  updated_wiki now w = record w { datetime_updated = now; slug = slugify w.title }

  first-updated :
      (now wiki : ℕ) (ws : List WikiRow) (w : WikiRow)
      → first (is_wiki wiki) ws ≡ some w
      → first (is_wiki wiki) (update_where (is_wiki wiki) (updated_wiki now) ws)
        ≡ some (updated_wiki now w)
  unfolding updated_wiki
  first-updated now wiki [] w h = cc
  first-updated now wiki (v ∷ ws) w h = elim (Bool-cases (is_wiki wiki v)) [
    | inl e ↦ let k = rw e at h in rw (e, e) (ap (λ x. some (updated_wiki now x)) (some_inj k))
    | inr e ↦ let k = rw e at h in rw (e, e) (first-updated now wiki ws w k)
  ]

  -- A page that is saved or deleted marks its wiki as updated, which keeps its title.
  pub save_page-updated :
      (now : ℕ) (page : WikiPage) (db : WikiDb) (w : WikiRow)
      → first (is_wiki page.wiki) db.wikis ≡ some w
      → let after = record w { datetime_updated = now; slug = slugify w.title } in
        (first (is_wiki page.wiki) (save_page slugify now page db).wikis ≡ some after)
        × (first (is_wiki page.wiki) (delete_page slugify now page db).wikis ≡ some after)
  unfolding save_page delete_page on_page_updated updated_wiki
  save_page-updated now page db w h =
      (first-updated now page.wiki db.wikis w h, first-updated now page.wiki db.wikis w h)
