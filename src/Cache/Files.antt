-- ===== src/Cache/Files.antt =====
-- The two older caches of repository/models/cache.py, with S3FileMixin and SafeDeleteMixin of
-- core/mixins.py. gzip is a parameter, `fails` says whose file the storage does not delete, and times
-- are in seconds.
pub mod Newest
use thunderstore.Prelude.{
  ℕ, ◌+◌, ◌*◌, Bool, true, false, not, ◌&&◌, ◌||◌, Option, none, some, List, [], ◌∷◌, ◌++◌, ltb,
  leb, if◌then◌else◌, is_some, select, Text, text_eq,
}
use thunderstore.Names.{is_nil}
use thunderstore.Profiles.Refinement.{dropped}

-- A row of either cache, with the identifier of its community; `file_data` is the stored file.
pub record CacheFile : Type 0 where
  pub community : Option Text
  pub file_data : Option Text
  pub last_modified : ℕ
  pub is_deleted : Bool

-- `S3FileMixinQueryset.active`
abbrev pub is_active_file : CacheFile → Bool
is_active_file c = not (c.is_deleted || elim c.file_data [ none ↦ true | some d ↦ false ])

-- `order_by("-last_modified").first()`
unfoldable pub newest_of : Option CacheFile → List CacheFile → Option CacheFile
newest_of best [] = best
newest_of none (c ∷ cs) = newest_of (some c) cs
newest_of (some b) (c ∷ cs) =
    if ltb b.last_modified c.last_modified then newest_of (some c) cs else newest_of (some b) cs

unfoldable pub get_latest : List CacheFile → Option CacheFile
unfolding newest_of
get_latest rows = newest_of none (select is_active_file rows)

abbrev pub is_of : Text → CacheFile → Bool
is_of identifier c = elim c.community [ none ↦ false | some i ↦ text_eq i identifier ]

-- `get_latest_for_community`
unfoldable pub get_latest_for : Text → List CacheFile → Option CacheFile
unfolding newest_of
get_latest_for identifier rows =
    if is_nil identifier
    then none
    else newest_of none (select (is_of identifier) (select is_active_file rows))

-- `update` and `update_for_community`
unfoldable pub add_file : (Text → Text) → Option Text → ℕ → Text → List CacheFile → List CacheFile
add_file compress community now content rows =
    rows
    ++ record {
      community = community;
      file_data = some (compress content);
      last_modified = now;
      is_deleted = false;
    }
      ∷ []

module _ (fails : CacheFile → Bool) where
  -- The deletion of the rows that pass a test, one after another. A row is marked before its file is
  -- deleted, and where that raises the loop ends with the row still there.
  unfoldable pub delete_each : (CacheFile → Bool) → List CacheFile → List CacheFile × Bool
  delete_each test [] = ([], true)
  delete_each test (c ∷ cs) =
      let rest = delete_each test cs in
      let gone = if fails c then (record c { is_deleted = true } ∷ cs, false) else rest in
      if test c then gone else (c ∷ rest.0, rest.1)

  -- `APIExperimentalPackageIndexCache.drop_stale_cache`
  unfoldable pub drop_stale_index : List CacheFile → List CacheFile × Bool
  unfolding get_latest delete_each
  drop_stale_index rows = elim (get_latest rows) [
    | none ↦ (rows, true)
    | some latest ↦ delete_each (λ c. leb (c.last_modified + 3 * 60 * 60) latest.last_modified) rows
  ]

  -- The loop over the communities of `APIV1PackageCache.drop_stale_cache`
  unfoldable pub drop_stale_of_each : List Text → List CacheFile → List CacheFile × Bool
  unfolding get_latest_for delete_each
  drop_stale_of_each [] rows = (rows, true)
  drop_stale_of_each (i ∷ is) rows =
      let dropped : List CacheFile × Bool = elim (get_latest_for i rows) [
        | none ↦ (rows, true)
        | some latest ↦
            delete_each (λ c. leb (c.last_modified + 60 * 60) latest.last_modified && is_of i c)
              rows
      ] in
      let continued = drop_stale_of_each is dropped.0 in if dropped.1 then continued else dropped

  unfoldable pub drop_stale_v1 : List Text → List CacheFile → List CacheFile × Bool
  unfolding drop_stale_of_each
  drop_stale_v1 identifiers rows =
      let dropped = drop_stale_of_each identifiers rows in
      let orphans = delete_each (λ c. not (is_some c.community)) dropped.0 in
      if dropped.1 then orphans else dropped
