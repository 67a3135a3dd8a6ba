-- ===== src/Package/Latest/Newest.antt =====
-- `recache_latest` of repository/models/package.py and what calls it.

use mathlib.Core.List.{reverse, reverse-reverse}
use thunderstore.Prelude.{
  ℕ, ◌≡◌, refl, sym, ap, ◌∙◌, subst, ◌≢◌, inl, inr, true, false, Option, none, some, List, [], ◌∷◌,
  arith, select, Any, All, All-weaken, >>=-eq-ok, >>-eq-ok, lift, ok_inj, ok, sort_by, sort_by-nil,
  All-sort_by, All-unsort_by, sort_by-IsSorted, reverse-last,
}
use thunderstore.Version.{Version, parse_version}
use thunderstore.Version.Order.{
  compare_versions, compare_versions-flip, compare_versions_trans, more,
}
use thunderstore.Package.Latest.{
  Numbered, not_after, parse_numbers, available_versions, head_key, recache_latest,
  validate_version_row, create_version, save_version, delete_version, increase_download_counter,
}
use thunderstore.Package.{PackageVersion, Package}

abbrev pub NotAfter : Version → Version → Type 0
NotAfter v w = compare_versions v w ≢ more

total : (a b : Numbered) → not_after a b ≡ false → not_after b a ≡ true
total a b h = ground (arith, compare_versions-flip a.number b.number)

trans : (a b c : Numbered) → not_after a b ≡ true → not_after b c ≡ true → not_after a c ≡ true
trans a b c h k = ground (arith, compare_versions_trans a.number b.number c.number)

always : (a : Numbered) → not_after a a ≡ true
always a = ground (arith, compare_versions-flip a.number a.number)

-- What `parse_numbers` returned: each row with its own number, in order.
abbrev Parsed : List PackageVersion → List Numbered → Type 0
Parsed [] [] = Unit
Parsed (v ∷ vs) (a ∷ bs) =
    (v ≡ a.row) × (parse_version v.version_number ≡ ok a.number) × Parsed vs bs
Parsed [] (a ∷ bs) = ⊥
Parsed (v ∷ vs) [] = ⊥

parse_numbers-Parsed :
    (vs : List PackageVersion) (bs : List Numbered) → parse_numbers vs ≡ ok bs → Parsed vs bs
unfolding parse_numbers
parse_numbers-Parsed [] [] h = tt
parse_numbers-Parsed [] (a ∷ bs) h = cc
parse_numbers-Parsed (v ∷ vs) bs h =
    let (n, parsed, h₁) = >>=-eq-ok (parse_version v.version_number) _ h in
    let (rest, others, h₂) = >>=-eq-ok (parse_numbers vs) _ h₁ in
    subst (Parsed (v ∷ vs)) (ok_inj h₂) (refl, parsed, parse_numbers-Parsed vs rest others)

-- A row of the table, under its own number.
abbrev pub IsRow : List PackageVersion → Numbered → Type 0
IsRow vs a = Any (λ v. v ≡ a.row) vs × (parse_version a.row.version_number ≡ ok a.number)

Parsed-IsRow : (vs : List PackageVersion) (bs : List Numbered) → Parsed vs bs → All (IsRow vs) bs
Parsed-IsRow vs [] h = tt
Parsed-IsRow [] (a ∷ bs) h = elim h [ ]
Parsed-IsRow (v ∷ vs) (a ∷ bs) (row_eq, parsed, h) = (
  (
    inl row_eq,
    subst (λ (r : PackageVersion). parse_version r.version_number ≡ ok a.number) row_eq parsed,
  ),
  All-weaken bs (λ c (k, n). (inr k, n)) (Parsed-IsRow vs bs h),
)

-- Each row has a number, which is not after the version `w`.
abbrev pub NoneAfter : Version → List PackageVersion → Type 0
NoneAfter w vs =
    All (λ v. (n : Version) × (parse_version v.version_number ≡ ok n) × NotAfter n w) vs

earlier : (a z : Numbered) → not_after a z ≡ true → NotAfter a.number z.number
earlier a z h = ground arith

Parsed-NoneAfter :
    (z : Numbered) (vs : List PackageVersion) (bs : List Numbered)
    → Parsed vs bs
    → All (λ b. not_after b z ≡ true) bs
    → NoneAfter z.number vs
Parsed-NoneAfter z [] [] h k = tt
Parsed-NoneAfter z [] (a ∷ bs) h k = elim h [ ]
Parsed-NoneAfter z (v ∷ vs) [] h k = elim h [ ]
Parsed-NoneAfter z (v ∷ vs) (a ∷ bs) (row_eq, parsed, h) (p, k) =
    ((a.number, parsed, earlier a z p), Parsed-NoneAfter z vs bs h k)

-- The key of a latest version of the rows: there is none only if there are no rows, and otherwise
-- it is the key of one of the rows, whose number no other row's number is after.
abbrev pub IsLatest : List PackageVersion → Option ℕ → Type 0
IsLatest vs none = vs ≡ []
IsLatest vs (some k) = (z : Numbered) × (z.row.pk ≡ k) × IsRow vs z × NoneAfter z.number vs

Parsed-nil : (vs : List PackageVersion) (bs : List Numbered) → Parsed vs bs → bs ≡ [] → vs ≡ []
Parsed-nil [] bs h e = refl
Parsed-nil (v ∷ vs) [] h e = elim h [ ]
Parsed-nil (v ∷ vs) (b ∷ bs) h e = cc

head_key-IsLatest :
    (vs : List PackageVersion) (bs : List Numbered)
    → Parsed vs bs
    → IsLatest vs (head_key (reverse (sort_by not_after bs)))
head_key-IsLatest vs bs h = step (reverse (sort_by not_after bs)) refl
  where
    step : (rs : List Numbered) → reverse (sort_by not_after bs) ≡ rs → IsLatest vs (head_key rs)
    step [] r =
        Parsed-nil vs bs h
          (sort_by-nil not_after bs (sym (reverse-reverse (sort_by not_after bs)) ∙ ap reverse r))
    step (z ∷ zs) r =
        let (row, below) =
          reverse-last not_after always (IsRow vs) (sort_by not_after bs) z zs
            (sort_by-IsSorted not_after total trans bs)
            (All-sort_by not_after (IsRow vs) bs (Parsed-IsRow vs bs h)) r in
        (
          z,
          refl,
          row,
          Parsed-NoneAfter z vs bs h (All-unsort_by not_after (λ b. not_after b z ≡ true) bs below),
        )

abbrev pub active_versions : Package → List PackageVersion
active_versions p = select (λ (v : PackageVersion). v.is_active) p.versions

-- The latest version of the package is one of its active versions with no later one.
abbrev pub HasLatest : Package → Type 0
HasLatest p = IsLatest (active_versions p) p.latest

pub recache_latest-HasLatest : (p p' : Package) → recache_latest p ≡ ok p' → HasLatest p'
unfolding recache_latest available_versions
recache_latest-HasLatest p p' h =
    let (available, found, h₁) = >>=-eq-ok (available_versions p) _ h in
    let (numbered, parsed, h₂) = >>=-eq-ok (parse_numbers (active_versions p)) _ found in
    let latest =
      head_key-IsLatest (active_versions p) numbered
        (parse_numbers-Parsed (active_versions p) numbered parsed) in
    subst HasLatest (ok_inj h₁)
      (subst (λ a. IsLatest (active_versions p) (head_key a)) (ok_inj h₂) latest)

-- What can happen to the versions of a package.
pub data VersionStep (p p' : Package) : Type 0 where
  created : (now : ℕ) (v : PackageVersion) → create_version now v p ≡ ok p' → VersionStep p p'
  saved : (v : PackageVersion) → save_version v p ≡ ok p' → VersionStep p p'
  deleted : (v : PackageVersion) → delete_version v p ≡ ok p' → VersionStep p p'
  downloaded : (v : PackageVersion) → increase_download_counter v p ≡ ok p' → VersionStep p p'

saved-HasLatest : (v : PackageVersion) (p p' : Package) → save_version v p ≡ ok p' → HasLatest p'
unfolding save_version
saved-HasLatest v p p' h =
    recache_latest-HasLatest _ p' (>>-eq-ok (lift (validate_version_row v)) _ h).1

-- Whatever is done to the versions of a package, be it a creation, a write, a deletion or a count of
-- a download, the latest version afterwards is an active one that no active version is after, and
-- there is none only if no version is active.
pub VersionStep-HasLatest : (p p' : Package) → VersionStep p p' → HasLatest p'
unfolding create_version delete_version increase_download_counter
VersionStep-HasLatest p p' (created now v h) =
    let (_, h₁) = >>-eq-ok (lift (validate_version_row v)) _ h in
    let (_, h₂) = >>-eq-ok _ _ h₁ in recache_latest-HasLatest _ p' h₂
VersionStep-HasLatest p p' (saved v h) = saved-HasLatest v p p' h
VersionStep-HasLatest p p' (deleted v h) = recache_latest-HasLatest _ p' h
VersionStep-HasLatest p p' (downloaded v h) = saved-HasLatest _ p p' h
