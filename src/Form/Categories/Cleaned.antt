-- ===== src/Form/Categories/Cleaned.antt =====
-- What the named categories become.
use thunderstore.Prelude.{
  ◌≡◌, refl, ap, ◌∙◌, subst, ◌⊎◌, inl, inr, some, List, [], ◌∷◌, ◌++◌, map, arith, Bool-cases,
  Option-cases, select, All, some_inj, ok_inj, ok, Text, text_eq_iff,
}
use thunderstore.Form.Categories.{
  CategoryRow, CategoryNames, is_named, get_match, match_each, is_queried, add_entry_of,
  match_items, clean_community_categories,
}

-- The rows are of the community.
abbrev pub IsOfCommunity : Text × List CategoryRow → Type 0
IsOfCommunity (community, ms) = All (λ (m : CategoryRow). m.community_identifier ≡ community) ms

abbrev pub slugs_of : Text × List CategoryRow → Text × List Text
slugs_of (community, ms) = (community, map (λ (m : CategoryRow). m.slug) ms)

-- The items that name a category
abbrev pub naming : CategoryNames → CategoryNames
naming [] = []
naming ((community, []) ∷ items) = naming items
naming ((community, s ∷ slugs) ∷ items) = (community, s ∷ slugs) ∷ naming items

get_match-named :
    (community category : Text) (rows : List CategoryRow) (m : CategoryRow)
    → get_match community category rows ≡ some m
    → (m.community_identifier ≡ community) × (m.slug ≡ category)
unfolding get_match
get_match-named community category [] m h = cc
get_match-named community category (r ∷ rows) m h =
    elim (Option-cases (get_match community category rows)) [
      | inl e ↦ elim (Bool-cases (is_named community category r)) [
        | inl t ↦
            let equal : r ≡ m = some_inj (rw (get_match, e, t) at h) in
            subst (λ (x : CategoryRow). (x.community_identifier ≡ community) × (x.slug ≡ category))
              equal
              (
                (text_eq_iff r.community_identifier community).0 (ground arith),
                (text_eq_iff r.slug category).0 (ground arith),
              )
        | inr t ↦ absurd (let k = rw (get_match, e, t) at h in cc)
      ]
      | inr (n, e) ↦ get_match-named community category rows m (e ∙ (rw (get_match, e) at h))
    ]

match_each-slugs :
    (rows : List CategoryRow) (community : Text) (categories : List Text)
    → (match_each rows community categories).1 ≡ []
    → IsOfCommunity (community, (match_each rows community categories).0)
      × (map (λ (m : CategoryRow). m.slug) (match_each rows community categories).0 ≡ categories)
unfolding match_each
match_each-slugs rows community [] h = (tt, refl)
match_each-slugs rows community (category ∷ categories) h =
    elim (Option-cases (get_match community category rows)) [
      | inl e ↦ absurd (let k = rw (match_each, e) at h in cc)
      | inr (m, e) ↦
          let (c, s) = get_match-named community category rows m e in
          let k = rw (match_each, e) at h in
          let (cs, ss) = match_each-slugs rows community categories k in
          rw (match_each, e)
            (
              (c, cs),
              ap
                    (λ x.
                      x
                      ∷ map (λ (x : CategoryRow). x.slug) (match_each rows community categories).0)
                    s
                  ∙ ap (λ xs. category ∷ xs) ss,
            )
    ]

-- All rows are of their communities, and their slugs are those that the items name.
abbrev pub IsCleaned : CategoryNames → List (Text × List CategoryRow) → Type 0
IsCleaned items result = All IsOfCommunity result × (map slugs_of result ≡ naming items)

add_entry-IsCleaned :
    (community : Text) (ms : List CategoryRow) (categories : List Text) (items : CategoryNames)
    (result : List (Text × List CategoryRow))
    → IsOfCommunity (community, ms)
    → map (λ (m : CategoryRow). m.slug) ms ≡ categories
    → IsCleaned items result
    → IsCleaned ((community, categories) ∷ items) (add_entry_of community ms result)
add_entry-IsCleaned community [] [] items result h e c = c
add_entry-IsCleaned community [] (s ∷ slugs) items result h e c = absurd (ground arith)
add_entry-IsCleaned community (m ∷ ms) [] items result h e c = absurd (ground arith)
add_entry-IsCleaned community (m ∷ ms) (s ∷ slugs) items result h e (a, c) = (
  (h, a),
  ap (λ xs. (community, xs) ∷ map slugs_of result) e ∙ ap (λ xs. (community, s ∷ slugs) ∷ xs) c,
)

append-nil_parts : (xs ys : List (Text × Text)) → xs ++ ys ≡ [] → (xs ≡ []) × (ys ≡ [])
append-nil_parts [] ys h = (refl, h)
append-nil_parts (x ∷ xs) ys h = cc

match_items-IsCleaned :
    (rows : List CategoryRow) (items : CategoryNames)
    → (match_items rows items).1 ≡ []
    → IsCleaned items (match_items rows items).0
unfolding match_items
match_items-IsCleaned rows [] h = (tt, refl)
match_items-IsCleaned rows ((community, categories) ∷ items) h =
    let found = match_each rows community categories in
    let rest = match_items rows items in
    let (none_found, none_rest) = append-nil_parts found.1 rest.1 h in
    let (c, s) = match_each-slugs rows community categories none_found in
    add_entry-IsCleaned community found.0 categories items rest.0 c s
      (match_items-IsCleaned rows items none_rest)

errors-cases :
    (xs : List (Text × Text))
    → (xs ≡ []) ⊎ ((x : Text × Text) × (ys : List (Text × Text)) × (xs ≡ x ∷ ys))
errors-cases [] = inl refl
errors-cases (x ∷ xs) = inr (x, xs, refl)

-- Where no error is raised, each named category has become a row of its community with its slug, in
-- the order of the request, and a community that names none is left out.
pub clean_community_categories-IsCleaned :
    (items : CategoryNames) (rows : List CategoryRow) (result : List (Text × List CategoryRow))
    → clean_community_categories (some items) rows ≡ ok result
    → IsCleaned items result
unfolding clean_community_categories
clean_community_categories-IsCleaned items rows result h =
    let found = match_items (select (is_queried items) rows) items in
    elim (errors-cases found.1) [
      | inl e ↦
          subst (IsCleaned items) (ok_inj (rw (clean_community_categories, e) at h))
            (match_items-IsCleaned (select (is_queried items) rows) items e)
      | inr (x, xs, e) ↦ absurd (let k = rw (clean_community_categories, e) at h in cc)
    ]
