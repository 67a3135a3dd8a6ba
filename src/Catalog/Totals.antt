-- ===== src/Catalog/Totals.antt =====
-- `CommunityAggregatedFields` of community/models/community.py and the task of community/tasks.py
-- that refreshes them. The row of a one-to-one relation is held by the community that refers to it.
pub mod Counted
use thunderstore.Prelude.{
  ℕ, ◌+◌, Bool, Option, none, some, List, [], ◌∷◌, ◌++◌, map, ◌==ℕ◌, if◌then◌else◌, length, select,
}
use thunderstore.Package.{Package, PackageListing, lists_in}
use thunderstore.Community.{Community}
use thunderstore.Listing.{in_active, in_approved}
use thunderstore.Catalog.{total_downloads}

pub record AggregatedFields : Type 0 where
  pub download_count : ℕ
  pub package_count : ℕ

pub record CommunityRow : Type 0 where
  pub community : Community
  pub aggregated_fields : Option AggregatedFields

-- `get_empty`
abbrev pub get_empty : AggregatedFields
get_empty = record { download_count = 0; package_count = 0 }

-- `Community.aggregated`
abbrev pub aggregated : CommunityRow → AggregatedFields
aggregated row = elim row.aggregated_fields [ none ↦ get_empty | some f ↦ f ]

-- `community.package_listings`, each with its package
abbrev pub package_listings : Community → List Package → List (Package × PackageListing)
package_listings c [] = []
package_listings c (p ∷ ps) =
    map (λ (l : PackageListing). (p, l)) (select (lists_in c) p.listings) ++ package_listings c ps

-- `filter_with_single_community`
abbrev pub is_in_single_community : Package × PackageListing → Bool
is_in_single_community (p, l) = length p.listings ==ℕ 1

abbrev pub sum_downloads : List (Package × PackageListing) → ℕ
sum_downloads [] = 0
sum_downloads ((p, l) ∷ rows) = total_downloads p.versions + sum_downloads rows

-- Communities without a row of totals get one.
abbrev pub create_row : CommunityRow → CommunityRow
create_row row = elim row.aggregated_fields [
  | none ↦ record row { aggregated_fields = some get_empty }
  | some f ↦ row
]

abbrev pub create_missing : List CommunityRow → List CommunityRow
create_missing rows = map create_row rows

-- The listings that the totals of a community count
unfoldable pub counted_listings : Community → List Package → List (Package × PackageListing)
counted_listings c packages =
    let active =
      select (λ (x : Package × PackageListing). in_active x.0) (package_listings c packages) in
    select is_in_single_community (
      if c.require_package_listing_approval
      then select (λ (x : Package × PackageListing). in_approved x.1) active
      else active)

-- `none` where the community has no row of totals
unfoldable pub update_for_community : List Package → CommunityRow → Option CommunityRow
update_for_community packages row = elim row.aggregated_fields [
  | none ↦ none
  | some f ↦
      let listings = counted_listings row.community packages in
      some (record row {
        aggregated_fields =
            some
              (record { package_count = length listings; download_count = sum_downloads listings });
      })
]

unfoldable pub update_each : List Package → List CommunityRow → Option (List CommunityRow)
update_each packages [] = some []
update_each packages (row ∷ rows) =
    let rest = update_each packages rows in
    elim (update_for_community packages row) [
      | none ↦ none
      | some r ↦ elim rest [ none ↦ none | some rs ↦ some (r ∷ rs) ]
    ]

-- The task of community/tasks.py
unfoldable pub update_community_aggregated_fields :
    List Package → List CommunityRow → Option (List CommunityRow)
update_community_aggregated_fields packages rows = update_each packages (create_missing rows)
