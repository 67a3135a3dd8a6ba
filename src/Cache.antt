-- ===== src/Cache.antt =====
-- repository/models/cache.py: the chunked package lists of the communities, and utils/batch.py. The
-- JSON of each listing and the gzip compression are parameters, and times are in seconds.
pub mod Chunks
pub mod Batches
pub mod Stale
pub mod Files
use thunderstore.Prelude.{
  ℕ, ◌+◌, ◌*◌, Bool, true, false, not, ◌&&◌, ◌||◌, Option, none, some, List, [], ◌∷◌, ◌++◌, ltb,
  leb, ◌==ℕ◌, if◌then◌else◌, length, select, update_where, Result, ◌>>=◌, ◌>>◌, Failure, ok, err,
  Text, codes,
}
use thunderstore.Names.{is_nil}
use thunderstore.Community.{Community}
use thunderstore.Storage.{
  DataBlob, DataBlobReference, DataBlobGroup, Storage, get_or_create_blob, add_entry, set_complete,
  group_entries,
}

-- `batch(batch_size, iterable)`, with what is collected
unfoldable pub batch_from {ℓ} : {A : Type ℓ} → ℕ → List A → List A → List (List A)
batch_from batch_size collected [] = if ltb 0 (length collected) then collected ∷ [] else []
batch_from batch_size collected (x ∷ xs) =
    let extended = collected ++ x ∷ [] in
    let full = extended ∷ batch_from batch_size [] xs in
    let open_batch = batch_from batch_size extended xs in
    if leb batch_size (length extended) then full else open_batch

unfoldable pub batch {ℓ} : {A : Type ℓ} → ℕ → List A → List (List A)
unfolding batch_from
batch batch_size xs = batch_from batch_size [] xs

-- What `finalize_blob` compresses
unfoldable pub in_brackets : Text → Text
in_brackets content = b'[' ∷ content ++ b']' ∷ []

-- The loop of `update_for_community` over the bytes of the listings, with `chunk_content`: what
-- `finalize_blob` is called on. `has_entries` tells whether the group has an entry by then.
unfoldable pub chunks_from : ℕ → Bool → Text → List Text → List Text
unfolding in_brackets
chunks_from limit has_entries content [] =
    if not (is_nil content) || not has_entries then in_brackets content ∷ [] else []
chunks_from limit has_entries content (l ∷ ls) =
    let started = chunks_from limit has_entries l ls in
    let closed = in_brackets content ∷ chunks_from limit true l ls in
    let extended = chunks_from limit has_entries (content ++ b',' ∷ l) ls in
    if is_nil content
    then started
    else if ltb limit (length content + length l + 2)
    then closed
    else extended

unfoldable pub package_list_chunks : ℕ → List Text → List Text
unfolding chunks_from
package_list_chunks limit listings = chunks_from limit false [] listings

-- `chunk_size_limit or cls.UNCOMPRESSED_CHUNK_LIMIT`
unfoldable pub chunk_limit : Option ℕ → ℕ
chunk_limit none = 14000000
chunk_limit (some limit) = if limit ==ℕ 0 then 14000000 else limit

-- `group.add_entry` of each chunk
unfoldable pub add_chunks :
    (Text → Text)
    → (Text → Text)
    → DataBlobGroup
    → Text
    → List Text
    → Storage
    → Result Failure Storage
add_chunks sha256 compress group name [] db = ok db
add_chunks sha256 compress group name (c ∷ cs) db =
    let (stored, added) =
      add_entry sha256 group (compress c) name (some (codes "application/json"))
        (some (codes "gzip")) db in
    let continued = add_chunks sha256 compress group name cs stored in
    elim added [ ok r ↦ continued | err e ↦ err e ]

-- APIV1ChunkedPackageCache, with the keys of its community and of its group
pub record ChunkedPackageCache : Type 0 where
  pub community : ℕ
  pub index : DataBlob
  pub chunks : ℕ
  pub created_at : ℕ
  pub is_deleted : Bool

-- `update_for_community` at a time, with the key of the new group; `index_of` is the JSON of the
-- addresses of the entries.
unfoldable pub update_for_community :
    (Text → Text)
    → (Text → Text)
    → (List DataBlobReference → Text)
    → ℕ
    → Community
    → ℕ
    → Option ℕ
    → List Text
    → List ChunkedPackageCache
    → Storage
    → Result Failure (List ChunkedPackageCache × Storage)
unfolding package_list_chunks add_chunks
update_for_community sha256 compress index_of now community pk limit listings caches db = do
  let group : DataBlobGroup = record {
    pk = pk;
    name = codes "Chunked package list: " ++ community.identifier;
    is_complete = false;
  }
  stored ←
      add_chunks sha256 compress group (codes "Package list chunk for " ++ community.identifier)
        (package_list_chunks (chunk_limit limit) listings) db
  let (indexed, index) =
      get_or_create_blob sha256 (compress (index_of (group_entries (set_complete group) stored)))
        stored
  ok (
    caches
        ++ record {
          community = community.pk;
          index = index;
          chunks = pk;
          created_at = now;
          is_deleted = false;
        }
          ∷ [],
    indexed,
  )

-- `latest()` by `created_at`, among the caches of a community
unfoldable pub latest_of :
    Option ChunkedPackageCache → List ChunkedPackageCache → Option ChunkedPackageCache
latest_of best [] = best
latest_of none (c ∷ cs) = latest_of (some c) cs
latest_of (some b) (c ∷ cs) =
    if ltb b.created_at c.created_at then latest_of (some c) cs else latest_of (some b) cs

unfoldable pub get_latest_for_community : ℕ → List ChunkedPackageCache → Option ChunkedPackageCache
unfolding latest_of
get_latest_for_community community caches =
    latest_of none (select (λ (c : ChunkedPackageCache). c.community ==ℕ community) caches)

-- `CACHE_CUTOFF_HOURS`
abbrev pub cache_cutoff : ℕ
cache_cutoff = 3 * 60 * 60

-- `created_at__lte=cutoff`, `community=community`
abbrev pub is_stale : ℕ → ℕ → ChunkedPackageCache → Bool
is_stale community latest c = leb (c.created_at + cache_cutoff) latest && c.community ==ℕ community

unfoldable pub drop_stale_of : ℕ → List ChunkedPackageCache → List ChunkedPackageCache
unfolding get_latest_for_community
drop_stale_of community caches = elim (get_latest_for_community community caches) [
  | none ↦ caches
  | some latest ↦
      update_where (is_stale community latest.created_at)
        (λ (c : ChunkedPackageCache). record c { is_deleted = true }) caches
]

-- `drop_stale_cache`, over the keys of the communities
unfoldable pub drop_stale_cache : List ℕ → List ChunkedPackageCache → List ChunkedPackageCache
unfolding drop_stale_of
drop_stale_cache [] caches = caches
drop_stale_cache (community ∷ rest) caches = drop_stale_cache rest (drop_stale_of community caches)
