-- ===== src/Package/Downloads/Limited.antt =====
-- How often downloads by one client are counted.
use thunderstore.Prelude.{
  ℕ, ◌+◌, ◌<◌, ◌≡◌, refl, sym, ◌∙◌, inl, inr, Bool, true, none, some, List, [], ◌∷◌, arith,
  Bool-cases, Option-cases, All, Text, text_eq, text_eq_refl, text_eq_iff,
}
use thunderstore.Package.Downloads.{
  CacheEntry, expiry_of, set_nx, Download, DownloadEvent, get_log_key, is_live,
  can_log_download_event, log_download_event, log_each,
}

-- A live entry stays as it is.
expiry-set_nx :
    (key other : Text) (timeout now t : ℕ) (cache : List CacheEntry)
    → expiry_of key cache ≡ some t
    → now < t
    → expiry_of key (set_nx other timeout now cache).0 ≡ some t
unfolding set_nx expiry_of
expiry-set_nx key other timeout now t cache e h = elim (Bool-cases (text_eq key other)) [
  | inl s ↦
      let equal : other ≡ key = sym ((text_eq_iff key other).0 s) in
      let live : is_live now (expiry_of other cache) ≡ true = rw (equal, e) (ground arith) in
      rw live e
  | inr s ↦ ground arith
]

expiry_of_set :
    (key : Text) (timeout now : ℕ) (cache : List CacheEntry)
    → (set_nx key timeout now cache).1 ≡ true
    → expiry_of key (set_nx key timeout now cache).0 ≡ some (now + timeout)
unfolding set_nx expiry_of
expiry_of_set key timeout now cache h = elim (Bool-cases (is_live now (expiry_of key cache))) [
  | inl l ↦ absurd (let k = rw (l, set_nx) at h in cc)
  | inr l ↦ rw (l, set_nx, text_eq_refl key) refl
]

module _ (use_metrics : Bool) (ttl : ℕ) where
  expiry-log :
      (key : Text) (d : Download) (t : ℕ) (cache : List CacheEntry)
      → expiry_of key cache ≡ some t
      → d.time < t
      → expiry_of key (log_download_event use_metrics ttl d cache).0 ≡ some t
  unfolding log_download_event can_log_download_event
  expiry-log key d t cache e h = elim (Option-cases d.client_ip) [
    | inl n ↦ rw (n, can_log_download_event) e
    | inr (ip, n) ↦
        let kept = expiry-set_nx key (get_log_key d.version_id ip) ttl d.time t cache e h in
        rw (n, can_log_download_event) (ground arith)
  ]

  expiry-log_each :
      (key : Text) (t : ℕ) (ds : List Download) (cache : List CacheEntry)
      → All (λ (d : Download). d.time < t) ds
      → expiry_of key cache ≡ some t
      → expiry_of key (log_each use_metrics ttl ds cache) ≡ some t
  unfolding log_each
  expiry-log_each key t [] cache h e = e
  expiry-log_each key t (d ∷ ds) cache (p, h) e =
      expiry-log_each key t ds (log_download_event use_metrics ttl d cache).0 h
        (expiry-log key d t cache e p)

  -- After a download is counted its key is live for the whole time.
  expiry_of_logged :
      (d : Download) (ip : Text) (event : DownloadEvent) (cache : List CacheEntry)
      → d.client_ip ≡ some ip
      → (log_download_event use_metrics ttl d cache).1 ≡ some event
      → expiry_of (get_log_key d.version_id ip) (log_download_event use_metrics ttl d cache).0
        ≡ some (d.time + ttl)
  unfolding log_download_event can_log_download_event set_nx expiry_of
  expiry_of_logged d ip event cache n h =
      rw (n, can_log_download_event)
        (let k = rw (log_download_event, n, can_log_download_event) at h in
          ground (arith, expiry_of_set (get_log_key d.version_id ip) ttl d.time cache))

  counted_has_ip :
      (d : Download) (event : DownloadEvent) (cache : List CacheEntry)
      → d.client_ip ≡ none
      → (log_download_event use_metrics ttl d cache).1 ≡ some event
      → ⊥
  unfolding log_download_event can_log_download_event
  counted_has_ip d event cache n h =
      let k = rw (log_download_event, n, can_log_download_event) at h in ground arith

  refused_of_live :
      (d : Download) (ip : Text) (t : ℕ) (cache : List CacheEntry)
      → d.client_ip ≡ some ip
      → expiry_of (get_log_key d.version_id ip) cache ≡ some t
      → d.time < t
      → (log_download_event use_metrics ttl d cache).1 ≡ none
  unfolding log_download_event can_log_download_event set_nx
  refused_of_live d ip t cache n e h = rw (n, can_log_download_event, e) (ground arith)

  -- Once a download of a version by a client is counted, no other of that version by that client is
  -- counted until the time to live has passed, whatever requests come in between.
  pub log_download_event-once :
      (c d : Download) (event : DownloadEvent) (between : List Download) (cache : List CacheEntry)
      → (log_download_event use_metrics ttl c cache).1 ≡ some event
      → d.client_ip ≡ c.client_ip
      → d.version_id ≡ c.version_id
      → All (λ (x : Download). x.time < c.time + ttl) between
      → d.time < c.time + ttl
      → (log_download_event use_metrics ttl d
          (log_each use_metrics ttl between (log_download_event use_metrics ttl c cache).0)).1
        ≡ none
  log_download_event-once c d event between cache h i v b t = elim (Option-cases c.client_ip) [
    | inl n ↦ absurd (counted_has_ip c event cache n h)
    | inr (ip, n) ↦
        let counted = expiry_of_logged c ip event cache n h in
        let kept =
          expiry-log_each (get_log_key c.version_id ip) (c.time + ttl) between
            (log_download_event use_metrics ttl c cache).0 b counted in
        refused_of_live d ip (c.time + ttl)
          (log_each use_metrics ttl between (log_download_event use_metrics ttl c cache).0) (i ∙ n)
          (rw v kept) t
  ]
