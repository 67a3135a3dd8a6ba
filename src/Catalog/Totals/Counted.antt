-- ===== src/Catalog/Totals/Counted.antt =====
-- What the totals of a community count, against the listings that visitors are shown.
use thunderstore.Prelude.{
  ◌+◌, ◌≡◌, refl, subst, ◌⊎◌, inl, inr, Bool, true, false, not, ◌&&◌, ◌||◌, some, List, [], ◌∷◌,
  map, arith, if◌then◌else◌, Bool-cases, Option-cases, length, select, All,
}
use thunderstore.Package.{Package, PackageListing, is_rejected}
use thunderstore.Community.{Community}
use thunderstore.Listing.{in_active, in_approved, in_approval_rule}
use thunderstore.Catalog.Totals.{
  AggregatedFields, CommunityRow, package_listings, is_in_single_community, sum_downloads,
  create_row, counted_listings, update_for_community, update_each,
  update_community_aggregated_fields,
}

-- Number and downloads of the rows that pass a test
abbrev pub tally :
    (Package × PackageListing → Bool) → List (Package × PackageListing) → AggregatedFields
tally test rows = record {
  package_count = length (select test rows);
  download_count = sum_downloads (select test rows);
}

abbrev pub plus : AggregatedFields → AggregatedFields → AggregatedFields
plus a b = record {
  package_count = a.package_count + b.package_count;
  download_count = a.download_count + b.download_count;
}

-- A listing that is shown to visitors, of a package in no other community
abbrev pub is_shown : Package × PackageListing → Bool
is_shown (p, l) = (in_active p && in_approval_rule l) && is_in_single_community (p, l)

-- A rejected listing of an active package in no other community, where listings need no approval
abbrev pub is_hidden : Package × PackageListing → Bool
is_hidden (p, l) =
    ((in_active p && is_rejected l) && is_in_single_community (p, l))
    && not l.community.require_package_listing_approval

abbrev pub IsHosted : Community → Package × PackageListing → Type 0
IsHosted c (p, l) = l.community ≡ c

abbrev is_counted : Community → Package × PackageListing → Bool
is_counted c (p, l) =
    (in_active p && (not c.require_package_listing_approval || in_approved l))
    && is_in_single_community (p, l)

select_counted :
    (c : Community) (rows : List (Package × PackageListing))
    → select is_in_single_community (
        if c.require_package_listing_approval
        then select
            (λ (x : Package × PackageListing). in_approved x.1)
            (select (λ (x : Package × PackageListing). in_active x.0) rows)
        else select (λ (x : Package × PackageListing). in_active x.0) rows)
      ≡ select (is_counted c) rows
select_counted c [] = elim (Bool-cases c.require_package_listing_approval) [
  | inl r ↦ rw r refl
  | inr r ↦ rw r refl
]
select_counted c ((p, l) ∷ rows) = ground (arith, select_counted c rows)

-- A counted listing is shown or hidden, and no other is either.
Split : Bool → Bool → Bool → Type 0
Split counted shown hidden =
    ((counted ≡ true) × ((shown ≡ true) × (hidden ≡ false)))
    ⊎ (((counted ≡ true) × ((shown ≡ false) × (hidden ≡ true)))
        ⊎ ((counted ≡ false) × ((shown ≡ false) × (hidden ≡ false))))

is_counted-Split :
    (p : Package) (l : PackageListing)
    → Split (is_counted l.community (p, l)) (is_shown (p, l)) (is_hidden (p, l))
unfolding Split in_approved in_approval_rule is_rejected
is_counted-Split p l = ground arith

filter_parts :
    (t a b : Package × PackageListing → Bool) (rows : List (Package × PackageListing))
    → All (λ x. Split (t x) (a x) (b x)) rows
    → (length (select t rows) ≡ length (select a rows) + length (select b rows))
      × (sum_downloads (select t rows)
          ≡ sum_downloads (select a rows) + sum_downloads (select b rows))
unfolding Split
filter_parts t a b [] h = (refl, refl)
filter_parts t a b (x ∷ rows) (inl (u, (v, w)), h) =
    let (m, n) = filter_parts t a b rows h in rw (u, v, w) (omega (arith, m), omega (arith, n))
filter_parts t a b (x ∷ rows) (inr (inl (u, (v, w))), h) =
    let (m, n) = filter_parts t a b rows h in rw (u, v, w) (omega (arith, m), omega (arith, n))
filter_parts t a b (x ∷ rows) (inr (inr (u, (v, w))), h) =
    let (m, n) = filter_parts t a b rows h in rw (u, v, w) (m, n)

All-Split :
    (c : Community) (rows : List (Package × PackageListing))
    → All (IsHosted c) rows
    → All (λ x. Split (is_counted c x) (is_shown x) (is_hidden x)) rows
All-Split c [] h = tt
All-Split c ((p, l) ∷ rows) (e, h) = (
  subst (λ d. Split (is_counted d (p, l)) (is_shown (p, l)) (is_hidden (p, l))) e
      (is_counted-Split p l),
  All-Split c rows h,
)

-- The totals of a community: the listings that are shown and those that are hidden
abbrev pub totals : Community → List Package → AggregatedFields
totals c packages =
    plus (tally is_shown (package_listings c packages))
      (tally is_hidden (package_listings c packages))

abbrev counts : Community → List Package → AggregatedFields
counts c packages = record {
  package_count = length (counted_listings c packages);
  download_count = sum_downloads (counted_listings c packages);
}

counts-totals :
    (c : Community) (packages : List Package)
    → All (IsHosted c) (package_listings c packages)
    → counts c packages ≡ totals c packages
unfolding counted_listings
counts-totals c packages h =
    let rows = package_listings c packages in
    let (m, n) = filter_parts (is_counted c) is_shown is_hidden rows (All-Split c rows h) in
    let e = select_counted c rows in rw (e, m, n) refl

abbrev pub with_totals : List Package → CommunityRow → CommunityRow
with_totals packages row = record row { aggregated_fields = some (totals row.community packages) }

update_created :
    (packages : List Package) (row : CommunityRow)
    → All (IsHosted row.community) (package_listings row.community packages)
    → update_for_community packages (create_row row) ≡ some (with_totals packages row)
unfolding update_for_community
update_created packages row h = elim (Option-cases row.aggregated_fields) [
  | inl e ↦ rw (e, counts-totals row.community packages h) refl
  | inr (f, e) ↦ rw (e, counts-totals row.community packages h) refl
]

-- The task always ends without an error.
pub update_community_aggregated_fields-totals :
    (packages : List Package) (rows : List CommunityRow)
    → All
        (λ (row : CommunityRow).
          All (IsHosted row.community) (package_listings row.community packages))
        rows
    → update_community_aggregated_fields packages rows ≡ some (map (with_totals packages) rows)
unfolding update_community_aggregated_fields update_each update_for_community
update_community_aggregated_fields-totals packages [] h = refl
update_community_aggregated_fields-totals packages (row ∷ rows) (h, k) =
    let e = update_created packages row h in
    let ih = update_community_aggregated_fields-totals packages rows k in
    rw (update_community_aggregated_fields, update_each, e, ih) refl
