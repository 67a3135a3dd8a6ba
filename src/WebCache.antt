-- ===== src/WebCache.antt =====
-- cache/cache.py and cache/tasks.py: values that are cached under a key and a second, older key, and
-- what removes them. Times are in seconds; `None`, which a missing entry reads as, is `none`.
pub mod Fresh
pub mod Kept
use thunderstore.Prelude.{
  ℕ, ◌+◌, ◌*◌, String, Bool, true, not, ◌&&◌, Option, none, some, List, [], ◌∷◌, ◌++◌, ltb,
  if◌then◌else◌, select, Text, codes, text_eq,
}
use thunderstore.Zip.{starts_with}

-- An entry without `expires_at` stays.
pub record Entry : Type 0 where
  pub key : Text
  pub value : Option Text
  pub expires_at : Option ℕ

abbrev pub is_current : ℕ → Option ℕ → Bool
is_current now none = true
is_current now (some t) = ltb now t

-- `cache.get`
unfoldable pub get : ℕ → Text → List Entry → Option Text
get now key [] = none
get now key (e ∷ es) =
    let later = get now key es in
    if text_eq e.key key then (if is_current now e.expires_at then e.value else none) else later

-- `cache.delete`
unfoldable pub delete : Text → List Entry → List Entry
delete key es = select (λ (e : Entry). not (text_eq e.key key)) es

-- `cache.set`, with the timeout `None` for an entry that stays
unfoldable pub set : ℕ → Text → Option Text → Option ℕ → List Entry → List Entry
set now key value timeout es =
    record {
      key = key;
      value = value;
      expires_at = elim timeout [ none ↦ none | some t ↦ some (now + t) ];
    }
    ∷ es

-- `old.{key}`
abbrev pub old_key_of : Text → Text
old_key_of key = codes "old." ++ key

-- A value that is `None` is replaced.
abbrev pub or_empty : Option Text → Option Text
or_empty none = some []
or_empty (some t) = some t

unfoldable pub try_regenerate_cache :
    ℕ → Text → Option Text → Option ℕ → Option ℕ → List Entry → List Entry × Option Text
unfolding set
try_regenerate_cache now key generated timeout old_timeout es = (
  set now (old_key_of key) (or_empty generated) old_timeout
      (set now key (or_empty generated) timeout es),
  or_empty generated,
)

-- `regenerate_cache`, by whether the lock is taken
unfoldable pub regenerate_cache :
    Bool → ℕ → Text → Option Text → Option ℕ → Option ℕ → List Entry → List Entry × Option Text
unfolding try_regenerate_cache get
regenerate_cache is_locked now key generated timeout old_timeout es =
    if not is_locked
    then try_regenerate_cache now key generated timeout old_timeout es
    else elim (get now (old_key_of key) es) [
      | some old ↦ (es, some old)
      | none ↦
          (set now (old_key_of key) generated none (set now key generated timeout es), generated)
    ]

-- `cache_get_or_set`: `generated` is what the default returns at the time.
unfoldable pub cache_get_or_set :
    Bool → ℕ → Text → Option Text → Option ℕ → List Entry → List Entry × Option Text
unfolding regenerate_cache
cache_get_or_set is_locked now key generated expiry es = elim (get now key es) [
  | some value ↦ (es, some value)
  | none ↦
      regenerate_cache is_locked now key generated expiry
        (elim expiry [ none ↦ none | some t ↦ some (t * 2) ]) es
]

-- CacheBustCondition
pub data CacheBustCondition : Type 0 where
  background_update_only any_package_updated dynamic_html_updated : CacheBustCondition

abbrev pub condition_name : CacheBustCondition → String
condition_name background_update_only = "manual_update_only"
condition_name any_package_updated = "any_package_updated"
condition_name dynamic_html_updated = "dynamic_html_updated"

-- `get_cache_key`, for a condition that is valid; `digest` is the MD5 sum of what a key varies on.
unfoldable pub get_cache_key :
    (List Text → Text) → CacheBustCondition → Text → Text → List Text → Text
get_cache_key digest condition cache_type key vary_on =
    codes "cache."
    ++ (codes (condition_name condition)
        ++ (46
            ∷ (cache_type
                ++ (46
                    ∷ (key
                        ++ (46 ∷ elim vary_on [ [] ↦ codes "None" | v ∷ vs ↦ digest (v ∷ vs) ]))))))

-- `clear_cache_with_args`
unfoldable pub clear_cache : Text → List Entry → List Entry
unfolding delete
clear_cache key es = delete (old_key_of key) (delete key es)

-- `delete_pattern(f"cache.{cache_bust_condition}.*")`
abbrev pub is_of_condition : CacheBustCondition → Entry → Bool
is_of_condition condition e =
    starts_with (codes "cache." ++ (codes (condition_name condition) ++ (46 ∷ []))) e.key

-- The settings on which cache `get_cache("legacy")` is: USE_MULTIPLE_CACHES, and whether
-- REDIS_URL_LEGACY names a server other than that of REDIS_URL. Aliases of one server share its
-- entries, since no alias has a prefix for its keys.
pub record CacheSettings : Type 0 where
  pub use_multiple_caches : Bool
  pub has_legacy_url : Bool

-- The entries of Django's default cache and of the server of REDIS_URL_LEGACY
pub record Caches : Type 0 where
  pub default_entries : List Entry
  pub legacy_entries : List Entry

abbrev pub is_apart : CacheSettings → Bool
is_apart s = s.use_multiple_caches && s.has_legacy_url

-- `get_cache("legacy")`, the cache that the values are stored in, and what a change of it leaves
abbrev pub get_cache : CacheSettings → Caches → List Entry
get_cache s caches = if is_apart s then caches.legacy_entries else caches.default_entries

abbrev pub put_cache : CacheSettings → List Entry → Caches → Caches
put_cache s es caches =
    if is_apart s
    then record caches { legacy_entries = es }
    else record caches { default_entries = es }

-- `invalidate_cache`, on Django's default cache, by whether that has a `delete_pattern`; `none` where
-- it raises
unfoldable pub invalidate_cache : Bool → CacheBustCondition → Caches → Option Caches
invalidate_cache has_delete_pattern background_update_only caches = none
invalidate_cache has_delete_pattern any_package_updated caches = some (
    if has_delete_pattern
    then record caches {
      default_entries =
          select (λ e. not (is_of_condition any_package_updated e)) caches.default_entries;
    }
    else caches)
invalidate_cache has_delete_pattern dynamic_html_updated caches = some (
    if has_delete_pattern
    then record caches {
      default_entries =
          select (λ e. not (is_of_condition dynamic_html_updated e)) caches.default_entries;
    }
    else caches)
