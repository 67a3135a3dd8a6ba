-- ===== src/Profiles/Coherent.antt =====
-- What the cache of the profiles knows, and that uploads keep it right.
use thunderstore.Prelude.{
  ℕ, zero, suc, ◌+◌, ◌<◌, ◌≡◌, refl, sym, ◌∙◌, subst, ◌⊎◌, inl, inr, true, false, ◌&&◌, Option,
  none, some, List, [], ◌∷◌, ◌++◌, arith, ◌==ℕ◌, if◌then◌else◌, ==ℕ_refl, Bool-cases, Option-cases,
  length, first, All, All-append, All-weaken, Text, text_eq, text_eq_refl, text_eq_iff,
}
use thunderstore.Profiles.{
  LegacyProfile, ProfileStore, ProfileSettings, total_size, cached_id, cached_name,
  get_total_used_disk_space, remember, create_profile,
}

-- The key of the first row with a checksum, and the name of the file of the first row with a key
abbrev pub found_id : Text → List LegacyProfile → Option ℕ
found_id checksum [] = none
found_id checksum (p ∷ ps) =
    if text_eq p.file_sha256 checksum then some p.id else found_id checksum ps

abbrev pub found_name : ℕ → List LegacyProfile → Option Text
found_name key [] = none
found_name key (p ∷ ps) = if p.id ==ℕ key then some p.file_name else found_name key ps

abbrev pub DistinctIds : List LegacyProfile → Type 0
DistinctIds [] = Unit
DistinctIds (p ∷ ps) = All (λ (q : LegacyProfile). (p.id ==ℕ q.id) ≡ false) ps × DistinctIds ps

-- The cached size is that of the rows.
abbrev pub IsSized : Option ℕ → List LegacyProfile → Type 0
IsSized none ps = Unit
IsSized (some n) ps = n ≡ total_size ps

-- Different contents have different checksums.
abbrev pub IsCollisionFree : ProfileSettings → Type 0
IsCollisionFree settings = (a b : Text) → settings.sha256 a ≡ settings.sha256 b → a ≡ b

module _ (settings : ProfileSettings) where
  open settings use {sha256}

  -- A row whose key is in use, made from a content.
  pub record IsRow (fresh : ℕ) (p : LegacyProfile) : Type 0 where
    pub used : p.id < fresh
    pub content : Text
    pub checksum : p.file_sha256 ≡ sha256 content
    pub size : p.file_size ≡ length content

  -- The cache agrees with the rows, whatever it still has.
  pub record IsCoherent (s : ProfileStore) : Type 0 where
    pub rows : All (IsRow s.fresh) s.profiles
    pub distinct : DistinctIds s.profiles
    pub sized : IsSized s.size_cache s.profiles
    pub ids : All (λ (e : Text × ℕ). found_id e.0 s.profiles ≡ some e.1) s.id_cache
    pub names : All (λ (e : ℕ × Text). found_name e.0 s.profiles ≡ some e.1) s.file_cache

  pub cached_id-found :
      (ps : List LegacyProfile) (checksum : Text) (id : ℕ) (entries : List (Text × ℕ))
      → All (λ (e : Text × ℕ). found_id e.0 ps ≡ some e.1) entries
      → cached_id checksum entries ≡ some id
      → found_id checksum ps ≡ some id
  cached_id-found ps checksum id [] h e = cc
  cached_id-found ps checksum id ((c, i) ∷ entries) (k, h) e =
      elim (Bool-cases (text_eq c checksum)) [
        | inl t ↦
            let same_text = (text_eq_iff c checksum).0 t in
            subst (λ x. found_id x ps ≡ some id) same_text (k ∙ (rw t at e))
        | inr t ↦ cached_id-found ps checksum id entries h (rw t at e)
      ]

  pub cached_name-found :
      (ps : List LegacyProfile) (key : ℕ) (name : Text) (entries : List (ℕ × Text))
      → All (λ (e : ℕ × Text). found_name e.0 ps ≡ some e.1) entries
      → cached_name key entries ≡ some name
      → found_name key ps ≡ some name
  cached_name-found ps key name [] h e = cc
  cached_name-found ps key name ((i, n) ∷ entries) (k, h) e =
      ground (arith, cached_name-found ps key name entries h)

  pub total_size-append :
      (ps : List LegacyProfile) (p : LegacyProfile)
      → total_size (ps ++ p ∷ []) ≡ total_size ps + p.file_size
  unfolding total_size
  total_size-append [] p = omega arith
  total_size-append (q ∷ ps) p = omega (arith, total_size-append ps p)

  found_id-append :
      (ps : List LegacyProfile) (p : LegacyProfile) (checksum : Text) (id : ℕ)
      → found_id checksum ps ≡ some id
      → found_id checksum (ps ++ p ∷ []) ≡ some id
  found_id-append [] p checksum id h = cc
  found_id-append (q ∷ ps) p checksum id h = ground (arith, found_id-append ps p checksum id)

  found_name-append :
      (ps : List LegacyProfile) (p : LegacyProfile) (key : ℕ) (name : Text)
      → found_name key ps ≡ some name
      → found_name key (ps ++ p ∷ []) ≡ some name
  found_name-append [] p key name h = cc
  found_name-append (q ∷ ps) p key name h = ground (arith, found_name-append ps p key name)

  found_id-new :
      (ps : List LegacyProfile) (p : LegacyProfile) (checksum : Text)
      → found_id checksum ps ≡ none
      → p.file_sha256 ≡ checksum
      → found_id checksum (ps ++ p ∷ []) ≡ some p.id
  found_id-new [] p checksum h e = rw (e, text_eq_refl checksum) refl
  found_id-new (q ∷ ps) p checksum h e = ground (arith, found_id-new ps p checksum)

  found_name-new :
      (ps : List LegacyProfile) (p : LegacyProfile)
      → All (IsRow p.id) ps
      → found_name p.id (ps ++ p ∷ []) ≡ some p.file_name
  found_name-new [] p h = rw ==ℕ_refl refl
  found_name-new (q ∷ ps) p (r, h) = let below = r.used in ground (arith, found_name-new ps p h)

  DistinctIds-append :
      (ps : List LegacyProfile) (p : LegacyProfile)
      → DistinctIds ps
      → All (IsRow p.id) ps
      → DistinctIds (ps ++ p ∷ [])
  DistinctIds-append [] p d h = (tt, tt)
  DistinctIds-append (q ∷ ps) p (n, d) (r, h) =
      let below = r.used in
      let differ : (q.id ==ℕ p.id) ≡ false = ground arith in
      (
        All-append (λ (x : LegacyProfile). (q.id ==ℕ x.id) ≡ false) ps (p ∷ []) n (differ, tt),
        DistinctIds-append ps p d h,
      )

  other_name :
      (q : LegacyProfile) (ps : List LegacyProfile) (key : ℕ) (name : Text)
      → All (λ (p : LegacyProfile). (q.id ==ℕ p.id) ≡ false) ps
      → found_name key ps ≡ some name
      → (q.id ==ℕ key) ≡ false
  other_name q [] key name n h = cc
  other_name q (p ∷ ps) key name (e, n) h = ground (arith, other_name q ps key name n)

  -- The query for a size and a checksum finds the row that the checksum alone finds, and no other row
  -- has its key.
  pub first-found :
      (ps : List LegacyProfile) (fresh : ℕ) (content : Text)
      → IsCollisionFree settings
      → All (IsRow fresh) ps
      → DistinctIds ps
      → ((first
              (λ (p : LegacyProfile).
                (p.file_size ==ℕ length content) && text_eq p.file_sha256 (sha256 content))
              ps
            ≡ none)
          × (found_id (sha256 content) ps ≡ none))
        ⊎ ((p : LegacyProfile) × (first
                (λ (p : LegacyProfile).
                  (p.file_size ==ℕ length content) && text_eq p.file_sha256 (sha256 content))
                ps
              ≡ some p)
            × (found_id (sha256 content) ps ≡ some p.id)
            × (found_name p.id ps ≡ some p.file_name))
  first-found [] fresh content free h d = inl (refl, refl)
  first-found (q ∷ ps) fresh content free (r, h) (n, d) =
      elim (Bool-cases (text_eq q.file_sha256 (sha256 content))) [
        | inl t ↦
            let key = (text_eq_iff q.file_sha256 (sha256 content)).0 t in
            let one = free r.content content (sym r.checksum ∙ key) in
            let sized : (q.file_size ==ℕ length content) ≡ true =
              rw (r.size, one) (==ℕ_refl (length content)) in
            inr (q, rw (sized, t) refl, rw t refl, rw ==ℕ_refl refl)
        | inr t ↦ elim (first-found ps fresh content free h d) [
          | inl (e, f) ↦ inl (ground arith, ground arith)
          | inr (p, e, f, g) ↦
              let other = other_name q ps p.id p.file_name n g in
              inr (p, ground arith, ground arith, ground arith)
        ]
      ]

  -- The space that is used is answered rightly, and a size that is cached then is right.
  pub get_total-cases :
      (s : ProfileStore)
      → IsCoherent s
      → (o : Option ℕ) × (get_total_used_disk_space s
          ≡ (total_size s.profiles, record s { size_cache = o }))
        × IsSized o s.profiles
  unfolding get_total_used_disk_space
  get_total-cases s c = elim (Option-cases s.size_cache) [
    | inl e ↦ (some (total_size s.profiles), rw e refl, refl)
    | inr (zero, e) ↦ (some (total_size s.profiles), rw e refl, refl)
    | inr (suc n, e) ↦
        let right : suc n ≡ total_size s.profiles = subst (λ o. IsSized o s.profiles) e c.sized in
        (some (suc n), ground arith, right)
  ]

  -- A cache whose size is right or unknown stays right.
  pub resized-Coherent :
      (s : ProfileStore) (o : Option ℕ)
      → IsCoherent s
      → IsSized o s.profiles
      → IsCoherent (record s { size_cache = o })
  resized-Coherent s o c h = record {
    rows = c.rows;
    distinct = c.distinct;
    sized = h;
    ids = c.ids;
    names = c.names;
  }

  pub remember-Coherent :
      (s : ProfileStore) (p : LegacyProfile) (checksum : Text)
      → IsCoherent s
      → found_id checksum s.profiles ≡ some p.id
      → found_name p.id s.profiles ≡ some p.file_name
      → IsCoherent (remember settings p checksum s)
  unfolding remember
  remember-Coherent s p checksum c f g = record {
    rows = c.rows;
    distinct = c.distinct;
    sized = c.sized;
    ids = (f, c.ids);
    names = (g, c.names);
  }

  IsRow-weaken :
      (fresh : ℕ) (ps : List LegacyProfile) → All (IsRow fresh) ps → All (IsRow (suc fresh)) ps
  IsRow-weaken fresh ps h =
      All-weaken ps
        (λ p r. record {
          used = omega (arith, r.used);
          content = r.content;
          checksum = r.checksum;
          size = r.size;
        })
        h

  IsSized-append :
      (o : Option ℕ) (ps : List LegacyProfile) (p : LegacyProfile)
      → IsSized o ps
      → IsSized (elim o [ none ↦ none | some n ↦ some (n + p.file_size) ]) (ps ++ p ∷ [])
  IsSized-append none ps p h = tt
  IsSized-append (some n) ps p h = omega (arith, total_size-append ps p)

  -- A new profile is found by its checksum and by its key, and the cache stays right.
  pub create_profile-Coherent :
      (s : ProfileStore) (content : Text)
      → IsCoherent s
      → found_id (sha256 content) s.profiles ≡ none
      → IsCoherent (
          remember settings
            (create_profile settings content (sha256 content) s).0
            (sha256 content)
            (create_profile settings content (sha256 content) s).1)
  unfolding create_profile
  create_profile-Coherent s content c h =
      let p = (create_profile settings content (sha256 content) s).0 in
      let s' = (create_profile settings content (sha256 content) s).1 in
      remember-Coherent s' p (sha256 content)
        (record {
          rows =
              All-append (IsRow (suc s.fresh)) s.profiles (p ∷ [])
                (IsRow-weaken s.fresh s.profiles c.rows)
                (
                  record { used = omega arith; content = content; checksum = refl; size = refl },
                  tt,
                );
          distinct = DistinctIds-append s.profiles p c.distinct c.rows;
          sized = IsSized-append s.size_cache s.profiles p c.sized;
          ids = All-weaken s.id_cache (λ e k. found_id-append s.profiles p e.0 e.1 k) c.ids;
          names = All-weaken s.file_cache (λ e k. found_name-append s.profiles p e.0 e.1 k) c.names;
        })
        (found_id-new s.profiles p (sha256 content) h refl) (found_name-new s.profiles p c.rows)
