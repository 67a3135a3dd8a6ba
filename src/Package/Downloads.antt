-- ===== src/Package/Downloads.antt =====
-- The counting of downloads: `log_download_event` of repository/models/package_version.py, and the
-- task of repository/tasks/downloads.py. A cache entry has its key and the time at which it expires;
-- an entry is not lost before that. Times are in seconds.
pub mod Limited
pub mod Counted
use thunderstore.Prelude.{
  ℕ, ◌+◌, Bool, true, false, not, Option, none, some, List, [], ◌∷◌, ◌++◌, ltb, ◌==ℕ◌,
  if◌then◌else◌, update_where, Text, codes, text_eq, decimal,
}
use thunderstore.Names.{is_nil}
use thunderstore.Package.{PackageVersion}

pub record CacheEntry : Type 0 where
  pub key : Text
  pub expires_at : ℕ

-- A request for a version's file
pub record Download : Type 0 where
  pub version_id : ℕ
  pub client_ip : Option Text
  pub time : ℕ

-- What the task is given
pub record DownloadEvent : Type 0 where
  pub version_id : ℕ
  pub timestamp : ℕ

-- `_get_log_key`
unfoldable pub get_log_key : ℕ → Text → Text
get_log_key version_id client_ip =
    codes "metrics." ++ (client_ip ++ (codes ".download." ++ decimal version_id))

unfoldable pub expiry_of : Text → List CacheEntry → Option ℕ
expiry_of key [] = none
expiry_of key (e ∷ es) =
    let later = expiry_of key es in if text_eq key e.key then some e.expires_at else later

abbrev pub is_live : ℕ → Option ℕ → Bool
is_live now none = false
is_live now (some t) = ltb now t

-- `cache.set(..., nx=True)`: the cache, and whether the key was set
unfoldable pub set_nx : Text → ℕ → ℕ → List CacheEntry → List CacheEntry × Bool
unfolding expiry_of
set_nx key timeout now cache =
    if is_live now (expiry_of key cache)
    then (cache, false)
    else (record { key = key; expires_at = now + timeout } ∷ cache, true)

-- The settings USE_TIME_SERIES_PACKAGE_DOWNLOAD_METRICS and DOWNLOAD_METRICS_TTL_SECONDS
module _ (use_metrics : Bool) (ttl : ℕ) where
  unfoldable pub can_log_download_event :
      ℕ → Option Text → ℕ → List CacheEntry → List CacheEntry × Bool
  unfolding get_log_key set_nx
  can_log_download_event version_id none now cache = (cache, false)
  can_log_download_event version_id (some client_ip) now cache =
      if is_nil client_ip
      then (cache, false)
      else if not use_metrics
      then (cache, false)
      else set_nx (get_log_key version_id client_ip) ttl now cache

  -- The cache, and the task that is queued
  unfoldable pub log_download_event :
      Download → List CacheEntry → List CacheEntry × Option DownloadEvent
  unfolding can_log_download_event
  log_download_event d cache =
      let answer = can_log_download_event d.version_id d.client_ip d.time cache in
      (
        answer.0,
        if not answer.1
            then none
            else some (record { version_id = d.version_id; timestamp = d.time }),
      )

  -- The cache after a number of requests
  unfoldable pub log_each : List Download → List CacheEntry → List CacheEntry
  unfolding log_download_event
  log_each [] cache = cache
  log_each (d ∷ ds) cache = log_each ds (log_download_event d cache).0

abbrev pub has_pk : ℕ → PackageVersion → Bool
has_pk pk v = v.pk ==ℕ pk

-- `log_version_download`: one more download of the version with the key
unfoldable pub log_version_download : DownloadEvent → List PackageVersion → List PackageVersion
log_version_download e versions =
    update_where (has_pk e.version_id)
      (λ (v : PackageVersion). record v { downloads = v.downloads + 1 }) versions

unfoldable pub run_tasks : List DownloadEvent → List PackageVersion → List PackageVersion
unfolding log_version_download
run_tasks [] versions = versions
run_tasks (e ∷ es) versions = run_tasks es (log_version_download e versions)
