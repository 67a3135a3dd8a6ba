-- ===== src/Tests/References.antt =====
-- The theorems on names, versions, references and paths at concrete inputs.
use thunderstore.Prelude.{ℕ, ◌≡◌, refl, ◌≢◌, ◌↔◌, true, none, some, [], ◌∷◌, Any, ok, codes}
use thunderstore.Names.{strip_unsupported_characters, is_nil}
use thunderstore.Reference.{PackageReference, reference_str, parse, has_duplicate_packages}
use thunderstore.Version.{Version, version_str, validate_version_number}
use thunderstore.Version.Roundtrip.{validate_version_number_iff}
use thunderstore.Reference.Duplicates.{IsConflict, has_duplicate_packages_iff}
use thunderstore.Reference.Roundtrip.{IsWellFormed, parse-reference_str}

abbrev release : ℕ → ℕ → ℕ → Version
release major minor patch = record {
  major = major;
  minor = minor;
  patch = patch;
  prerelease = none;
}

abbrev crew_mod : PackageReference
crew_mod = record {
  namespace = codes "my-crew";
  name = codes "Mod";
  version = some (release 1 20 3);
}

abbrev older : PackageReference
older = record { namespace = codes "my-crew"; name = codes "Mod"; version = some (release 1 9 0) }

crew_mod-IsWellFormed : IsWellFormed crew_mod
unfolding is_nil
crew_mod-IsWellFormed = record {
  named = refl;
  spaced = refl;
  undashed = (refl, (refl, (refl, tt)));
}

parse-reference_str_example : parse (reference_str crew_mod) ≡ ok crew_mod
parse-reference_str_example = parse-reference_str crew_mod crew_mod-IsWellFormed refl

has_duplicate_packages_iff_example :
    (has_duplicate_packages (older ∷ crew_mod ∷ []) ≡ true)
    ↔ Any (λ a. Any (λ b. IsConflict a b) (older ∷ crew_mod ∷ [])) (older ∷ crew_mod ∷ [])
has_duplicate_packages_iff_example = has_duplicate_packages_iff (older ∷ crew_mod ∷ [])

validate_version_number_iff_example :
    (validate_version_number (codes "1.20.3") ≡ ok tt)
    ↔ ((v : Version) × (v.prerelease ≡ none) × (codes "1.20.3" ≡ version_str v))
validate_version_number_iff_example = validate_version_number_iff (codes "1.20.3")

stripped : strip_unsupported_characters (codes "_al.ice_") ≢ []
unfolding strip_unsupported_characters
stripped = cc
