-- ===== src/Profiles/Refinement.antt =====
-- The profiles without a cache, and that no answer of modpacks/models/legacyprofile.py shows whether
-- there is one.
use thunderstore.Prelude.{
  ℕ, suc, ◌+◌, ◌≤◌, ◌≡◌, refl, ap, ap₂, ◌∙◌, subst, ◌⊎◌, inl, inr, Bool, true, false, Option, none,
  some, List, [], ◌∷◌, ◌++◌, arith, ltb, ◌==ℕ◌, if◌then◌else◌, Bool-cases, Option-cases, length,
  select, first, All-select, Refusal, Result, Failure, validation, ok, err, does_not_exist, Text,
}
use thunderstore.Profiles.{
  LegacyProfile, ProfileStore, ProfileSettings, total_size, get_total_used_disk_space,
  get_or_create_from_upload, store_upload, get_file_url, cached_id, remember, create_profile,
  cached_name,
}
use thunderstore.Profiles.Coherent.{
  found_id, found_name, IsCollisionFree, IsCoherent, IsSized, first-found, cached_id-found,
  remember-Coherent, create_profile-Coherent, cached_name-found, total_size-append, get_total-cases,
  resized-Coherent,
}

-- The table alone
pub record ProfileTable : Type 0 where
  pub profiles : List LegacyProfile
  pub fresh : ℕ

abbrev pub table : ProfileStore → ProfileTable
table s = record { profiles = s.profiles; fresh = s.fresh }

pub data ProfileRequest : Type 0 where
  upload : Text → ProfileRequest
  file_url : ℕ → ProfileRequest
  -- The cache drops the entries that are not kept, and the size if it is not kept.
  drop : (Text × ℕ → Bool) → (ℕ × Text → Bool) → Bool → ProfileRequest

pub data ProfileAnswer : Type 0 where
  uploaded : Result Refusal ℕ → ProfileAnswer
  located : Result Failure Text → ProfileAnswer
  dropped : ProfileAnswer

module _ (settings : ProfileSettings) where
  open settings use {sha256, saved_name, url, storage_cap}

  abbrev storage_full : Refusal
  storage_full =
      validation "The server has reached maximum total storage used, and can't receive new uploads"

  -- Uploads and addresses as they are meant: one row for each content, while there is room
  pub stored_upload : Text → ProfileTable → Result Refusal ℕ × ProfileTable
  stored_upload content t =
      if ltb storage_cap (length content + total_size t.profiles)
      then (err storage_full, t)
      else elim (found_id (sha256 content) t.profiles) [
        | some id ↦ (ok id, t)
        | none ↦ (
          ok t.fresh,
          record {
            profiles =
                t.profiles
                ++ record {
                  id = t.fresh;
                  file_name = saved_name t.fresh;
                  file_sha256 = sha256 content;
                  file_size = length content;
                }
                  ∷ [];
            fresh = suc t.fresh;
          },
        )
      ]

  pub stored_url : ℕ → ProfileTable → Result Failure Text
  stored_url id t = elim (found_name id t.profiles) [
    | none ↦ err does_not_exist
    | some name ↦ ok (url name)
  ]

  pub serve : ProfileRequest → ProfileStore → ProfileAnswer × ProfileStore
  serve (upload content) s =
      let (answer, s') = get_or_create_from_upload settings content s in (uploaded answer, s')
  serve (file_url id) s = let (answer, s') = get_file_url settings id s in (located answer, s')
  serve (drop keep_id keep_name keep_size) s = (
    dropped,
    record s {
      id_cache = select keep_id s.id_cache;
      file_cache = select keep_name s.file_cache;
      size_cache = if keep_size then s.size_cache else none;
    },
  )

  pub serve_stored : ProfileRequest → ProfileTable → ProfileAnswer × ProfileTable
  unfolding stored_upload stored_url
  serve_stored (upload content) t =
      let (answer, t') = stored_upload content t in (uploaded answer, t')
  serve_stored (file_url id) t = (located (stored_url id t), t)
  serve_stored (drop keep_id keep_name keep_size) t = (dropped, t)

  pub run : List ProfileRequest → ProfileStore → List ProfileAnswer × ProfileStore
  unfolding serve
  run [] s = ([], s)
  run (r ∷ rs) s =
      let (answer, s') = serve r s in let (answers, s'') = run rs s' in (answer ∷ answers, s'')

  pub run_stored : List ProfileRequest → ProfileTable → List ProfileAnswer × ProfileTable
  unfolding serve_stored
  run_stored [] t = ([], t)
  run_stored (r ∷ rs) t =
      let (answer, t') = serve_stored r t in
      let (answers, t'') = run_stored rs t' in (answer ∷ answers, t'')

  -- One request: the same answer and the same table, a cache that is right, and room in the storage.
  record Refines (r : ProfileRequest) (s : ProfileStore) : Type 0 where
    answer : (serve r s).0 ≡ (serve_stored r (table s)).0
    rows : table (serve r s).1 ≡ (serve_stored r (table s)).1
    coherent : IsCoherent settings (serve r s).1
    room : total_size (serve r s).1.profiles ≤ storage_cap

  upload-Refines :
      (content : Text) (s s1 s' : ProfileStore) (a : Result Refusal ℕ)
      → table s1 ≡ table s
      → get_or_create_from_upload settings content s ≡ (a, s')
      → stored_upload content (table s1) ≡ (a, table s')
      → IsCoherent settings s'
      → total_size s'.profiles ≤ storage_cap
      → Refines (upload content) s
  unfolding serve serve_stored
  upload-Refines content s s1 s' a t u v c room =
      let w : stored_upload content (table s) ≡ (a, table s') =
        subst (λ x. stored_upload content x ≡ (a, table s')) t v in
      record { answer = rw (u, w) refl; rows = rw (u, w) refl; coherent = rw u c; room = rw u room }

  module _ (free : IsCollisionFree settings) where
    -- With the space that is used at hand
    after_total :
        (content : Text) (s s1 : ProfileStore)
        → IsCoherent settings s1
        → table s1 ≡ table s
        → total_size s1.profiles ≤ storage_cap
        → get_total_used_disk_space s ≡ (total_size s1.profiles, s1)
        → Refines (upload content) s
    unfolding get_or_create_from_upload store_upload stored_upload total_size
    after_total content s s1 c t room e =
        let start : get_or_create_from_upload settings content s
            ≡ store_upload settings content (total_size s1.profiles) s1 =
          ap (λ (x : ℕ × ProfileStore). store_upload settings content x.0 x.1) e in
        elim (Bool-cases (ltb storage_cap (length content + total_size s1.profiles))) [
          | inl full ↦
              upload-Refines content s s1 s1 (err storage_full) t (start ∙ (rw full refl))
                (rw full refl) c room
          | inr fits ↦ elim (Option-cases (cached_id (sha256 content) s1.id_cache)) [
            | inr (id, hit) ↦
                let found =
                  cached_id-found settings s1.profiles (sha256 content) id s1.id_cache c.ids hit in
                upload-Refines content s s1 s1 (ok id) t (start ∙ (rw (fits, hit) refl))
                  (rw (fits, found) refl) c room
            | inl miss ↦
                elim (first-found settings s1.profiles s1.fresh content free c.rows c.distinct) [
                  | inl (m, n) ↦
                      let made = create_profile settings content (sha256 content) s1 in
                      upload-Refines content s s1 (remember settings made.0 (sha256 content) made.1)
                        (ok s1.fresh) t (start ∙ (rw (fits, miss, m) refl)) (rw (fits, n) refl)
                        (create_profile-Coherent settings s1 content c n)
                        (ground (arith, total_size-append settings s1.profiles made.0))
                  | inr (p, m, n, name) ↦
                      upload-Refines content s s1 (remember settings p (sha256 content) s1)
                        (ok p.id) t (start ∙ (rw (fits, miss, m) refl)) (rw (fits, n) refl)
                        (remember-Coherent settings s1 p (sha256 content) c n name) room
                ]
          ]
        ]

  IsSized-drop :
      (b : Bool) (o : Option ℕ) (ps : List LegacyProfile)
      → IsSized o ps
      → IsSized (if b then o else none) ps
  IsSized-drop true o ps h = h
  IsSized-drop false o ps h = tt

  drop-Refines :
      (keep_id : Text × ℕ → Bool) (keep_name : ℕ × Text → Bool) (keep_size : Bool)
      (s : ProfileStore)
      → IsCoherent settings s
      → total_size s.profiles ≤ storage_cap
      → Refines (drop keep_id keep_name keep_size) s
  unfolding serve serve_stored
  drop-Refines keep_id keep_name keep_size s c room = record {
    answer = refl;
    rows = refl;
    coherent = record {
      rows = c.rows;
      distinct = c.distinct;
      sized = IsSized-drop keep_size s.size_cache s.profiles c.sized;
      ids =
          All-select (λ (e : Text × ℕ). found_id e.0 s.profiles ≡ some e.1) keep_id s.id_cache
            c.ids;
      names =
          All-select (λ (e : ℕ × Text). found_name e.0 s.profiles ≡ some e.1) keep_name s.file_cache
            c.names;
    };
    room = room;
  }

  found_name-first :
      (key : ℕ) (ps : List LegacyProfile)
      → ((first (λ (p : LegacyProfile). p.id ==ℕ key) ps ≡ none) × (found_name key ps ≡ none))
        ⊎ ((p : LegacyProfile) × (first (λ (p : LegacyProfile). p.id ==ℕ key) ps ≡ some p)
            × (found_name key ps ≡ some p.file_name))
  found_name-first key [] = inl (refl, refl)
  found_name-first key (p ∷ ps) = elim (Bool-cases (p.id ==ℕ key)) [
    | inl e ↦ inr (p, rw e refl, rw e refl)
    | inr e ↦ elim (found_name-first key ps) [
      | inl (m, n) ↦ inl (rw e m, rw e n)
      | inr (q, m, n) ↦ inr (q, rw e m, rw e n)
    ]
  ]

  named-Coherent :
      (s : ProfileStore) (key : ℕ) (name : Text)
      → IsCoherent settings s
      → found_name key s.profiles ≡ some name
      → IsCoherent settings (record s { file_cache = (key, name) ∷ s.file_cache })
  named-Coherent s key name c h = record {
    rows = c.rows;
    distinct = c.distinct;
    sized = c.sized;
    ids = c.ids;
    names = (h, c.names);
  }

  located-Refines :
      (key : ℕ) (s s' : ProfileStore) (a : Result Failure Text)
      → get_file_url settings key s ≡ (a, s')
      → stored_url key (table s) ≡ a
      → table s' ≡ table s
      → IsCoherent settings s'
      → total_size s'.profiles ≤ storage_cap
      → Refines (file_url key) s
  unfolding serve serve_stored
  located-Refines key s s' a u v t c room = record {
    answer = rw (u, v) refl;
    rows = rw u t;
    coherent = rw u c;
    room = rw u room;
  }

  uncached_url-Refines :
      (key : ℕ) (s : ProfileStore)
      → IsCoherent settings s
      → total_size s.profiles ≤ storage_cap
      → (cached_name key s.file_cache ≡ none) ⊎ (cached_name key s.file_cache ≡ some [])
      → Refines (file_url key) s
  unfolding get_file_url stored_url
  uncached_url-Refines key s c room miss = elim (found_name-first key s.profiles) [
    | inl (m, n) ↦
        located-Refines key s s (err does_not_exist) (ground (arith, m)) (rw (n, stored_url) refl)
          refl c room
    | inr (p, m, n) ↦
        located-Refines key s (record s { file_cache = (key, p.file_name) ∷ s.file_cache })
          (ok (url p.file_name)) (ground (arith, m)) (rw (n, stored_url) refl) refl
          (named-Coherent s key p.file_name c n) room
  ]

  url-Refines :
      (key : ℕ) (s : ProfileStore)
      → IsCoherent settings s
      → total_size s.profiles ≤ storage_cap
      → Refines (file_url key) s
  unfolding get_file_url stored_url
  url-Refines key s c room = elim (Option-cases (cached_name key s.file_cache)) [
    | inl e ↦ uncached_url-Refines key s c room (inl e)
    | inr ([], e) ↦ uncached_url-Refines key s c room (inr e)
    | inr (x ∷ name, e) ↦
        let found = cached_name-found settings s.profiles key (x ∷ name) s.file_cache c.names e in
        located-Refines key s s (ok (url (x ∷ name))) (rw (e, get_file_url) refl)
          (rw (found, stored_url) refl) refl c room
  ]

  module _ (free : IsCollisionFree settings) where
    serve-Refines :
        (r : ProfileRequest) (s : ProfileStore)
        → IsCoherent settings s
        → total_size s.profiles ≤ storage_cap
        → Refines r s
    serve-Refines (upload content) s c room =
        let (o, e, right) = get_total-cases settings s c in
        after_total free content s (record s { size_cache = o })
          (resized-Coherent settings s o c right) refl room e
    serve-Refines (file_url key) s c room = url-Refines key s c room
    serve-Refines (drop keep_id keep_name keep_size) s c room =
        drop-Refines keep_id keep_name keep_size s c room

    run-Refines :
        (rs : List ProfileRequest) (s : ProfileStore)
        → IsCoherent settings s
        → total_size s.profiles ≤ storage_cap
        → ((run rs s).0 ≡ (run_stored rs (table s)).0)
          × (table (run rs s).1 ≡ (run_stored rs (table s)).1)
          × (total_size (run rs s).1.profiles ≤ storage_cap)
    unfolding run run_stored
    run-Refines [] s c room = (refl, refl, room)
    run-Refines (r ∷ rs) s c room =
        let step = serve-Refines r s c room in
        let (answers, rows, fits) = run-Refines rs (serve r s).1 step.coherent step.room in
        (
          ap₂ (λ a as'. a ∷ as') step.answer (answers ∙ ap (λ t. (run_stored rs t).0) step.rows),
          rows ∙ ap (λ t. (run_stored rs t).1) step.rows,
          fits,
        )

abbrev pub empty_store : ProfileStore
empty_store = record { profiles = []; fresh = 0; id_cache = []; file_cache = []; size_cache = none }

-- Whatever is uploaded and asked for, and whenever the cache loses entries: from an empty store on,
-- every answer is the one that the table alone gives, with one row for each content, the table is the
-- same, and the files are never more than the storage may hold, if the checksums have no collision.
pub run-run_stored :
    (settings : ProfileSettings) (rs : List ProfileRequest)
    → IsCollisionFree settings
    → ((run settings rs empty_store).0 ≡ (run_stored settings rs (table empty_store)).0)
      × (table (run settings rs empty_store).1 ≡ (run_stored settings rs (table empty_store)).1)
      × (total_size (run settings rs empty_store).1.profiles ≤ settings.storage_cap)
unfolding total_size
run-run_stored settings rs free =
    run-Refines settings free rs empty_store
      (record { rows = tt; distinct = tt; sized = tt; ids = tt; names = tt }) (omega arith)
