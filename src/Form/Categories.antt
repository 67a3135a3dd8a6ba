-- ===== src/Form/Categories.antt =====
-- repository/validation/categories.py: the categories that an upload names, by community.
pub mod Cleaned
use thunderstore.Prelude.{
  ℕ, Bool, ◌&&◌, Option, none, some, List, [], ◌∷◌, ◌++◌, if◌then◌else◌, any, select, Result, ok,
  err, Text, text_eq,
}

-- A row of PackageCategory, with the identifier of its community
pub record CategoryRow : Type 0 where
  pub pk : ℕ
  pub community_identifier : Text
  pub slug : Text

-- The dictionary of the request, by its items
abbrev pub CategoryNames : Type 0
CategoryNames = List (Text × List Text)

-- `query`
abbrev pub is_queried : CategoryNames → CategoryRow → Bool
is_queried items r =
    any
      (λ (item : Text × List Text).
        text_eq r.community_identifier item.0 && any (λ s. text_eq r.slug s) item.1)
      items

abbrev pub is_named : Text → Text → CategoryRow → Bool
is_named community category r = text_eq r.community_identifier community && text_eq r.slug category

-- `matches.get((community, category))`: of rows with the same key the last one counts.
unfoldable pub get_match : Text → Text → List CategoryRow → Option CategoryRow
get_match community category [] = none
get_match community category (r ∷ rows) =
    let later = get_match community category rows in
    elim later [
      | some match ↦ some match
      | none ↦ if is_named community category r then some r else none
    ]

-- The inner loop over the categories of a community: the matches, and the categories that are missing
unfoldable pub match_each :
    List CategoryRow → Text → List Text → List CategoryRow × List (Text × Text)
unfolding get_match
match_each rows community [] = ([], [])
match_each rows community (category ∷ categories) =
    let rest = match_each rows community categories in
    elim (get_match community category rows) [
      | none ↦ (rest.0, (category, community) ∷ rest.1)
      | some match ↦ (match ∷ rest.0, rest.1)
    ]

-- A community is a key of the result from its first match on.
abbrev pub add_entry_of :
    Text → List CategoryRow → List (Text × List CategoryRow) → List (Text × List CategoryRow)
add_entry_of community [] result = result
add_entry_of community (m ∷ ms) result = (community, m ∷ ms) ∷ result

-- The loop over the items
unfoldable pub match_items :
    List CategoryRow → CategoryNames → List (Text × List CategoryRow) × List (Text × Text)
unfolding match_each
match_items rows [] = ([], [])
match_items rows ((community, categories) ∷ items) =
    let found = match_each rows community categories in
    let rest = match_items rows items in (add_entry_of community found.0 rest.0, found.1 ++ rest.1)

-- The errors are the categories that are missing, each with its community.
unfoldable pub clean_community_categories :
    Option CategoryNames
    → List CategoryRow
    → Result (List (Text × Text)) (List (Text × List CategoryRow))
unfolding match_items
clean_community_categories none rows = ok []
clean_community_categories (some items) rows =
    let found = match_items (select (is_queried items) rows) items in
    elim found.1 [ [] ↦ ok found.0 | e ∷ errors ↦ err (e ∷ errors) ]
