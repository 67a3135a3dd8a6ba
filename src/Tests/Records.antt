-- ===== src/Tests/Records.antt =====
-- The theorems on caches of values, flags and reports at concrete inputs.
use thunderstore.Prelude.{
  ℕ, ◌≡◌, refl, inl, Option, true, false, ◌&&◌, none, some, List, [], ◌∷◌, ◌++◌, arith, length, any,
  All, ok, Text, codes, text_eq,
}
use thunderstore.Zip.{starts_with}
use thunderstore.WebCache.{
  Entry, get, old_key_of, cache_get_or_set, get_cache_key, any_package_updated, invalidate_cache,
  CacheSettings, Caches, get_cache, put_cache, dynamic_html_updated,
}
use thunderstore.WebCache.Fresh.{made_anew, invalidate_cache-answer}
use thunderstore.WebCache.Kept.{
  Operation, request, clear, invalidate, run, Spares, cache_get_or_set-kept,
}
use thunderstore.Reports.{
  ReportTarget, PackageReport, report_package_listing, user_report, validate, save,
  handle_user_report,
}
use thunderstore.Reports.Reported.{IsValid, report_package_listing-IsValid}
use thunderstore.Permissions.{IsEligible, validate_user}
use thunderstore.Tests.Samples.{alice}
use thunderstore.Flags.{UserFlagMembership, is_active_at, get_active_flags_on_user}
use thunderstore.Flags.Active.{IsIncreasing, AreSeparate, get_active_flags_on_user-IsIncreasing}
use thunderstore.SchemaServer.{
  SchemaFile, SchemaChannelFile, SchemaChannel, SchemaDb, get_or_create, create_version,
  add_new_version, is_unauthorized, update_channel,
}
use thunderstore.SchemaServer.Updated.{IsUpdated, update_channel-IsUpdated}

abbrev digest : List Text → Text
digest ts = []

abbrev page_key : Text
page_key = get_cache_key digest any_package_updated (codes "view") (codes "list") []

abbrev entries : List Entry
entries =
    record { key = page_key; value = some (codes "page"); expires_at = some 300 }
    ∷ record { key = old_key_of page_key; value = some (codes "earlier"); expires_at = none }
    ∷ []

-- Without a server for the legacy cache of its own, and with one
abbrev together : CacheSettings
together = record { use_multiple_caches = true; has_legacy_url = false }

abbrev apart : CacheSettings
apart = record { use_multiple_caches = true; has_legacy_url = true }

abbrev filled : Caches
filled = record { default_entries = entries; legacy_entries = [] }

abbrev left_of_entries : Caches
left_of_entries = record {
  default_entries =
      record { key = old_key_of page_key; value = some (codes "earlier"); expires_at = none } ∷ [];
  legacy_entries = [];
}

entries_invalidated : invalidate_cache true any_package_updated filled ≡ some left_of_entries
unfolding invalidate_cache starts_with get_cache_key
entries_invalidated = refl

invalidate_cache-answer_example :
    (cache_get_or_set true 200 page_key
      (some (codes "new"))
      (some 300)
      left_of_entries.default_entries).1
    ≡ made_anew true (get 200 (old_key_of page_key) entries) (some (codes "new"))
invalidate_cache-answer_example =
    invalidate_cache-answer digest together true any_package_updated filled left_of_entries
      entries_invalidated (codes "view") (codes "list") [] true 200 (some (codes "new")) (some 300)

nothing_cached : get 100 page_key [] ≡ none
unfolding get
nothing_cached = refl

-- A call of another page, an invalidation that does not reach the values, and one of another condition
abbrev between : List Operation
between =
    request false 200 (get_cache_key digest any_package_updated (codes "view") (codes "detail") [])
      (some (codes "detail")) (some 60)
    ∷ invalidate true any_package_updated
    ∷ invalidate true dynamic_html_updated
    ∷ clear (get_cache_key digest any_package_updated (codes "view") (codes "detail") [])
    ∷ []

between-Spares : All (Spares apart page_key 400) between
unfolding get_cache_key starts_with text_eq
between-Spares = ((omega arith, refl), (inl refl, (inl refl, ((refl, refl), tt))))

abbrev empty_caches : Caches
empty_caches = record { default_entries = []; legacy_entries = [] }

abbrev page_made : List Entry × Option Text
page_made = cache_get_or_set false 100 page_key (some (codes "page")) (some 300) []

cache_get_or_set-kept_example :
    (cache_get_or_set true 399 page_key
      (some (codes "new"))
      none
      (get_cache apart (run apart between (put_cache apart page_made.0 empty_caches)))).1
    ≡ page_made.1
cache_get_or_set-kept_example =
    cache_get_or_set-kept apart 100 399 page_key (some (codes "page")) (some (codes "new")) 300 none
      true between empty_caches nothing_cached between-Spares (omega arith)

abbrev report_target : ReportTarget
report_target = record { pk = 70; package_id = 50 }

abbrev spam : PackageReport
spam = user_report (codes "Spam") alice 50 (some report_target) none none

stored_report :
    report_package_listing (some alice) (codes "Spam") 50 (some report_target) none none []
    ≡ ok (spam ∷ [])
unfolding report_package_listing handle_user_report save validate validate_user
stored_report = refl

report_package_listing-IsValid_example :
    IsEligible false alice
    × (All IsValid (spam ∷ [])
        × ((r : PackageReport) × (◌≡◌ {A = List PackageReport} (spam ∷ []) ([] ++ r ∷ []))
            × (r.submitted_by ≡ some alice.pk)))
report_package_listing-IsValid_example =
    report_package_listing-IsValid alice (codes "Spam") 50 (some report_target) none none []
      (spam ∷ []) stored_report tt

abbrev flag_row : Text → ℕ → UserFlagMembership
flag_row flag from = record {
  user = 1;
  flag = flag;
  datetime_valid_from = from;
  datetime_valid_until = none;
}

abbrev collation : Text → ℕ
collation [] = 0
collation (c ∷ cs) = c

abbrev flag_rows : List UserFlagMembership
flag_rows =
    flag_row (codes "tester") 10 ∷ flag_row (codes "early") 20 ∷ flag_row (codes "tester") 5 ∷ []

tester_early :
    collation (codes "tester") ≡ collation (codes "early") → codes "tester" ≡ codes "early"
tester_early e = absurd (omega (arith, e))

early_tester :
    collation (codes "early") ≡ collation (codes "tester") → codes "early" ≡ codes "tester"
early_tester e = absurd (omega (arith, e))

rows-AreSeparate : AreSeparate collation flag_rows
rows-AreSeparate = (
  (λ e. refl, (tester_early, (λ e. refl, tt))),
  (
    (early_tester, (λ e. refl, (early_tester, tt))),
    ((λ e. refl, (tester_early, (λ e. refl, tt))), tt),
  ),
)

get_active_flags_on_user-IsIncreasing_example :
    IsIncreasing collation (get_active_flags_on_user collation (some 1) 30 flag_rows)
    × ((f : Text)
        → any (text_eq f) (get_active_flags_on_user collation (some 1) 30 flag_rows)
          ≡ any (λ m. is_active_at 1 30 m && text_eq f m.flag) flag_rows)
get_active_flags_on_user-IsIncreasing_example =
    get_active_flags_on_user-IsIncreasing collation 1 30 flag_rows (ground arith) rows-AreSeparate

abbrev empty_channel : SchemaChannel
empty_channel = record { identifier = codes "eco"; authorized_users = 1 ∷ []; latest = none }

abbrev schema_tables : SchemaDb
schema_tables = record { files = []; channel_files = []; channels = empty_channel ∷ [] }

abbrev first_file : SchemaFile
first_file = record {
  content = codes "{}";
  checksum_sha256 = codes "{}";
  file_size = 2;
  gzip_size = 2;
  last_modified = 50;
}

abbrev first_row : SchemaChannelFile
first_row = record { channel = codes "eco"; file = codes "{}"; is_active = true }

abbrev updated_tables : SchemaDb
updated_tables = record {
  files = first_file ∷ [];
  channel_files = first_row ∷ [];
  channels = record empty_channel { latest = some first_row } ∷ [];
}

update_by_alice :
    update_channel (λ s. s) (λ s. length s) 50 (some alice) (codes "eco") (codes "{}") schema_tables
    ≡ ok (updated_tables, first_row)
unfolding update_channel is_unauthorized add_new_version create_version get_or_create text_eq
update_by_alice = refl

update_channel-IsUpdated_example :
    IsUpdated
      (λ s. s)
      (λ s. length s)
      (codes "eco")
      (codes "{}")
      alice
      schema_tables
      updated_tables
      first_row
update_channel-IsUpdated_example =
    update_channel-IsUpdated (λ s. s) (λ s. length s) 50 alice (codes "eco") (codes "{}")
      schema_tables updated_tables first_row update_by_alice
