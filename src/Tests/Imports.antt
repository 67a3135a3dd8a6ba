-- ===== src/Tests/Imports.antt =====
-- The theorems on profiles and on the import of the schema at concrete inputs.
use thunderstore.Prelude.{
  ℕ, ◌≤◌, ◌≡◌, refl, inr, true, false, Option, none, some, List, [], ◌∷◌, codes, text_eq,
}
use thunderstore.Profiles.{ProfileSettings, total_size}
use thunderstore.Profiles.Refinement.{
  ProfileRequest, upload, file_url, drop, run, run_stored, table, empty_store, run-run_stored,
}
use thunderstore.Reference.{PackageReference}
use thunderstore.Schema.{SchemaSection, SchemaCommunity, SchemaDb, import_community}
use thunderstore.Schema.Contents.{IsImported}
use thunderstore.Schema.Undated.{undated}
use thunderstore.Schema.Twice.{LeavesOthers, import_community-IsImported, import_community-again}

-- The content stands for its checksum.
abbrev plain_settings : ProfileSettings
plain_settings = record {
  sha256 = λ c. c;
  saved_name = λ id. id ∷ [];
  url = λ name. 47 ∷ name;
  storage_cap = 5;
}

-- The same content twice with a loss of all of the cache between, then one that does not fit
abbrev requests : List ProfileRequest
requests =
    upload (1 ∷ 2 ∷ [])
    ∷ drop (λ e. false) (λ e. false) false
    ∷ upload (1 ∷ 2 ∷ [])
    ∷ upload (1 ∷ 2 ∷ 3 ∷ 4 ∷ [])
    ∷ file_url 0
    ∷ []

run-run_stored_example :
    ((run plain_settings requests empty_store).0
      ≡ (run_stored plain_settings requests (table empty_store)).0)
    × (table (run plain_settings requests empty_store).1
        ≡ (run_stored plain_settings requests (table empty_store)).1)
    × (total_size (run plain_settings requests empty_store).1.profiles ≤ plain_settings.storage_cap)
run-run_stored_example = run-run_stored plain_settings requests (λ a b e. e)

abbrev mods_section : SchemaSection
mods_section = record {
  name = codes "Mods";
  exclude_categories = [];
  require_categories = codes "mods" ∷ [];
}

abbrev schema : SchemaCommunity
schema = record {
  display_name = codes "The Valley";
  categories = (codes "mods", codes "Mods") ∷ (codes "packs", codes "Packs") ∷ [];
  sections = (codes "mods", mods_section) ∷ [];
  short_description = none;
  discord_url = none;
  wiki_url = none;
  autolist_package_ids = some (codes "Team-Mod" ∷ []);
  listed = some true;
  paths = none;
}

abbrev no_rows : SchemaDb
no_rows = record { communities = []; categories = []; sections = []; listings = []; fresh = 1 }

abbrev known_package : PackageReference → Option ℕ
known_package r = some 50

abbrev imported : SchemaDb
imported = import_community (λ t. t) known_package 100 (codes "valley") schema no_rows

import_community-IsImported_example :
    IsImported (λ t. t) known_package 100 1 (codes "valley") schema none no_rows imported
    × LeavesOthers (λ t. t) known_package 100 1 (codes "valley") no_rows imported
unfolding text_eq
import_community-IsImported_example =
    import_community-IsImported (λ t. t) known_package 100 1 (codes "valley") schema no_rows
      ((refl, tt), (tt, tt)) (tt, tt) (inr (refl, refl))

import_community-again_example :
    undated (import_community (λ t. t) known_package 200 (codes "valley") schema imported)
    ≡ undated imported
unfolding text_eq
import_community-again_example =
    import_community-again (λ t. t) known_package 100 200 (codes "valley") schema no_rows
      ((refl, tt), (tt, tt)) (tt, tt)
