-- ===== src/Package/Chunks/Enumerated.antt =====
-- Which versions `chunked_enumerate` of repository/models/package_version.py enumerates.
use thunderstore.Prelude.{
  ℕ, zero, suc, ◌≤◌, ◌<◌, ◌≡◌, refl, sym, ap, ◌∙◌, subst, Bool, true, some, List, [], ◌∷◌, ◌++◌,
  append_assoc, arith, length, select, All, insert_by, sort_by, comes_first, order_by,
}
use thunderstore.Package.Chunks.{
  VersionRow, take_rows, last_row, is_after_cursor, enumerate_pages, chunked_enumerate,
  enumeration_order,
}

-- The keys grow with the dates.
abbrev pub IsAligned : List VersionRow → Type 0
IsAligned [] = Unit
IsAligned (r ∷ rows) =
    All (λ (s : VersionRow). (r.date_created ≤ s.date_created) × (r.id < s.id)) rows
    × IsAligned rows

abbrev drop_rows : ℕ → List VersionRow → List VersionRow
drop_rows zero rows = rows
drop_rows (suc n) [] = []
drop_rows (suc n) (r ∷ rows) = drop_rows n rows

take-drop : (n : ℕ) (rows : List VersionRow) → take_rows n rows ++ drop_rows n rows ≡ rows
take-drop zero rows = refl
take-drop (suc n) [] = refl
take-drop (suc n) (r ∷ rows) = ap (λ rs. r ∷ rs) (take-drop n rows)

length-drop-le : (n : ℕ) (rows : List VersionRow) → length (drop_rows n rows) ≤ length rows
length-drop-le zero rows = omega arith
length-drop-le (suc n) [] = omega arith
length-drop-le (suc n) (r ∷ rows) = omega (arith, length-drop-le n rows)

-- What is after a row of aligned rows is all after the cursor.
select_later :
    (l : VersionRow) (rest : List VersionRow)
    → All (λ (s : VersionRow). (l.date_created ≤ s.date_created) × (l.id < s.id)) rest
    → select (is_after_cursor l) rest ≡ rest
select_later l [] h = refl
select_later l (s ∷ rest) (p, h) = ground (arith, select_later l rest h)

later_of :
    (r l : VersionRow) (pre rest : List VersionRow)
    → All (λ (s : VersionRow). (r.date_created ≤ s.date_created) × (r.id < s.id)) (pre ++ l ∷ rest)
    → r.id < l.id
later_of r l [] rest h = h.0.1
later_of r l (s ∷ pre) rest (p, h) = later_of r l pre rest h

select-after :
    (pre : List VersionRow) (l : VersionRow) (rest : List VersionRow)
    → IsAligned (pre ++ l ∷ rest)
    → select (is_after_cursor l) (pre ++ l ∷ rest) ≡ rest
select-after [] l rest (h, a) = ground (arith, select_later l rest h)
select-after (r ∷ pre) l rest (h, a) =
    ground (arith, later_of r l pre rest h, select-after pre l rest a)

-- A page is what stands before its last row, and that row.
page_split :
    (r : VersionRow) (rows : List VersionRow)
    → (init : List VersionRow) × (r ∷ rows ≡ init ++ last_row r rows ∷ [])
page_split r [] = ([], refl)
page_split r (s ∷ rows) = let (init, e) = page_split s rows in (r ∷ init, ap (λ rs. r ∷ rs) e)

select-page :
    (before : List VersionRow) (r : VersionRow) (rows rest : List VersionRow)
    → IsAligned (before ++ (r ∷ rows) ++ rest)
    → select (is_after_cursor (last_row r rows)) (before ++ (r ∷ rows) ++ rest) ≡ rest
select-page before r rows rest a =
    let (init, e) = page_split r rows in
    let whole : before ++ (r ∷ rows) ++ rest ≡ (before ++ init) ++ last_row r rows ∷ rest =
      ap (λ xs. (before ++ xs) ++ rest) e
      ∙ append_assoc before (init ++ last_row r rows ∷ []) rest
      ∙ ap (λ xs. before ++ xs) (append_assoc init (last_row r rows ∷ []) rest)
      ∙ sym (append_assoc before init (last_row r rows ∷ rest)) in
    subst (λ xs. select (is_after_cursor (last_row r rows)) xs ≡ rest) (sym whole)
      (select-after (before ++ init) (last_row r rows) rest (subst IsAligned whole a))

pages_all :
    (fuel k : ℕ) (cursor : VersionRow → Bool) (before rest : List VersionRow)
    → IsAligned (before ++ rest)
    → select cursor (before ++ rest) ≡ rest
    → length rest < fuel
    → enumerate_pages fuel (suc k) cursor (before ++ rest) ≡ some rest
unfolding enumerate_pages
pages_all zero k cursor before rest a e h = absurd (omega arith)
pages_all (suc fuel) k cursor before [] a e h = rw (e, enumerate_pages) refl
pages_all (suc fuel) k cursor before (r ∷ rest) a e h =
    let page = take_rows k rest in
    let left = drop_rows k rest in
    let whole : before ++ r ∷ rest ≡ (before ++ r ∷ page) ++ left =
      rw (append_assoc, take-drop k rest) refl in
    let ordered = subst IsAligned whole a in
    let next =
      pages_all fuel k (is_after_cursor (last_row r page)) (before ++ r ∷ page) left ordered
        (select-page before r page left ordered) (omega (arith, h, length-drop-le k rest)) in
    let rest_of_run : enumerate_pages fuel (suc k) (is_after_cursor (last_row r page))
          (before ++ r ∷ rest)
        ≡ some left =
      ap (enumerate_pages fuel (suc k) (is_after_cursor (last_row r page))) whole ∙ next in
    rw (enumerate_pages, e, rest_of_run, take-drop k rest) refl

select-true : (rows : List VersionRow) → select (λ r. true) rows ≡ rows
select-true [] = refl
select-true (r ∷ rows) = ap (λ rs. r ∷ rs) (select-true rows)

-- Where the keys grow with the dates, an enumeration with enough fuel and pages of at least one
-- version ends with all the versions in order of their dates.
pub chunked_enumerate-all :
    (fuel k : ℕ) (rows : List VersionRow)
    → IsAligned (order_by enumeration_order rows)
    → length (order_by enumeration_order rows) < fuel
    → chunked_enumerate fuel (suc k) rows ≡ some (order_by enumeration_order rows)
unfolding chunked_enumerate
chunked_enumerate-all fuel k rows a h =
    pages_all fuel k (λ r. true) [] (order_by enumeration_order rows) a
      (select-true (order_by enumeration_order rows)) h

-- Of two versions of which the older one has the larger key, an enumeration with pages of one
-- version gives the older one only.
pub chunked_enumerate-skips :
    (fuel : ℕ) (v w : VersionRow)
    → v.date_created < w.date_created
    → w.id < v.id
    → chunked_enumerate (suc (suc fuel)) 1 (v ∷ w ∷ []) ≡ some (v ∷ [])
unfolding chunked_enumerate enumerate_pages order_by sort_by insert_by comes_first
chunked_enumerate-skips fuel v w d i = ground arith
