-- ===== src/Package/Chunks.antt =====
-- `PackageVersionQuerySet.chunked_enumerate` of repository/models/package_version.py.
pub mod Enumerated
use thunderstore.Prelude.{
  ℕ, zero, suc, Bool, true, ◌&&◌, Option, none, some, List, [], ◌∷◌, ◌++◌, ltb, leb, select,
  OrderKey, order_by, asc,
}

-- What the enumeration reads of a version
pub record VersionRow : Type 0 where
  pub id : ℕ
  pub date_created : ℕ

abbrev pub take_rows : ℕ → List VersionRow → List VersionRow
take_rows zero rows = []
take_rows (suc n) [] = []
take_rows (suc n) (r ∷ rows) = r ∷ take_rows n rows

abbrev pub last_row : VersionRow → List VersionRow → VersionRow
last_row r [] = r
last_row r (s ∷ rows) = last_row s rows

-- `Q(date_created__gte=page[-1].date_created, id__gt=page[-1].id)`
abbrev pub is_after_cursor : VersionRow → VersionRow → Bool
is_after_cursor last r = leb last.date_created r.date_created && ltb last.id r.id

-- The loop over the pages, on fuel; `none` where it has not ended.
unfoldable pub enumerate_pages :
    ℕ → ℕ → (VersionRow → Bool) → List VersionRow → Option (List VersionRow)
enumerate_pages zero chunk_size cursor qs = none
enumerate_pages (suc fuel) chunk_size cursor qs = elim (take_rows chunk_size (select cursor qs)) [
  | [] ↦ some []
  | r ∷ rows ↦ elim (enumerate_pages fuel chunk_size (is_after_cursor (last_row r rows)) qs) [
    | none ↦ none
    | some rest ↦ some (r ∷ (rows ++ rest))
  ]
]

-- `order_by("date_created", "id")`
abbrev pub enumeration_order : List (OrderKey VersionRow)
enumeration_order = asc (λ r. r.date_created) ∷ asc (λ r. r.id) ∷ []

unfoldable pub chunked_enumerate : ℕ → ℕ → List VersionRow → Option (List VersionRow)
chunked_enumerate fuel chunk_size rows =
    enumerate_pages fuel chunk_size (λ r. true) (order_by enumeration_order rows)
