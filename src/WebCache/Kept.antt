-- ===== src/WebCache/Kept.antt =====
-- How long a cached value is given out.
use thunderstore.Prelude.{
  ℕ, ◌+◌, ◌*◌, ◌<◌, ◌≡◌, refl, sym, ap, ◌∙◌, subst, ◌⊎◌, inl, inr, Bool, true, false, not, ◌&&◌,
  Option, none, some, List, [], ◌∷◌, ◌++◌, arith, Bool-cases, Option-cases, length, All, Text,
  codes, text_eq, text_eq_refl, text_eq_iff,
}
use thunderstore.Zip.{starts_with}
use thunderstore.WebCache.Fresh.{get-select, kept-get, stored_left}
use thunderstore.WebCache.{
  CacheSettings, Caches, CacheBustCondition, condition_name, is_apart, get_cache, put_cache,
  clear_cache, invalidate_cache, delete, Entry, get, set, old_key_of, or_empty,
  try_regenerate_cache, regenerate_cache, cache_get_or_set,
}

old_key_differs : (key : Text) → text_eq (old_key_of key) key ≡ false
old_key_differs key = elim (Bool-cases (text_eq (old_key_of key) key)) [
  | inl t ↦ absurd (
      let e = ap (λ (s : Text). length s) ((text_eq_iff (old_key_of key) key).0 t) in
      omega (arith, e))
  | inr t ↦ t
]

stored :
    (now later : ℕ) (key : Text) (generated : Option Text) (expiry : ℕ) (old_timeout : Option ℕ)
    (es : List Entry)
    → later < now + expiry
    → get later key (try_regenerate_cache now key generated (some expiry) old_timeout es).0
      ≡ or_empty generated
unfolding try_regenerate_cache set get
stored now later key generated expiry old_timeout es h =
    rw (try_regenerate_cache, old_key_differs key, text_eq_refl key) (ground arith)

answer_of_hit :
    (is_locked : Bool) (now : ℕ) (key : Text) (other : Option Text) (expiry : Option ℕ)
    (es : List Entry) (value : Text)
    → get now key es ≡ some value
    → cache_get_or_set is_locked now key other expiry es ≡ (es, some value)
unfolding cache_get_or_set
answer_of_hit is_locked now key other expiry es value h = rw (cache_get_or_set, h) refl

has_value : (generated : Option Text) → (value : Text) × (or_empty generated ≡ some value)
has_value none = ([], refl)
has_value (some t) = (t, refl)

-- What the program does to the caches: a cached call, with whether the lock is taken, the time, the
-- key, what the default returns and the expiry; a cleared key; an invalidation
pub data Operation : Type 0 where
  request : Bool → ℕ → Text → Option Text → Option ℕ → Operation
  clear : Text → Operation
  invalidate : Bool → CacheBustCondition → Operation

-- An invalidation that raises leaves the caches.
abbrev pub perform : CacheSettings → Operation → Caches → Caches
perform s (request is_locked now key generated expiry) caches =
    put_cache s (cache_get_or_set is_locked now key generated expiry (get_cache s caches)).0 caches
perform s (clear key) caches = put_cache s (clear_cache key (get_cache s caches)) caches
perform s (invalidate has_delete_pattern condition) caches =
    elim (invalidate_cache has_delete_pattern condition caches) [ none ↦ caches | some left ↦ left ]

abbrev pub run : CacheSettings → List Operation → Caches → Caches
run s [] caches = caches
run s (op ∷ ops) caches = run s ops (perform s op caches)

-- The operation leaves the key alone: a call is before the deadline, and not of a key whose older key
-- this is; a cleared key, and its older key, is another; an invalidation is of a condition that the
-- key is not of, or does not reach the cache that the values are stored in.
abbrev pub Spares : CacheSettings → Text → ℕ → Operation → Type 0
Spares s key deadline (request is_locked now k generated expiry) =
    (now < deadline) × (text_eq (old_key_of k) key ≡ false)
Spares s key deadline (clear k) = (text_eq k key ≡ false) × (text_eq (old_key_of k) key ≡ false)
Spares s key deadline (invalidate has_delete_pattern condition) =
    (has_delete_pattern && not (is_apart s) ≡ false)
    ⊎ (starts_with (codes "cache." ++ (codes (condition_name condition) ++ (46 ∷ []))) key ≡ false)

-- The key has the value up to the deadline.
abbrev Keeps : Text → Text → ℕ → List Entry → Type 0
Keeps key value deadline es = (now : ℕ) → now < deadline → get now key es ≡ some value

get_cache-put_cache :
    (s : CacheSettings) (es : List Entry) (caches : Caches)
    → get_cache s (put_cache s es caches) ≡ es
get_cache-put_cache s es caches = elim (Bool-cases (is_apart s)) [
  | inl a ↦ rw a refl
  | inr a ↦ rw a refl
]

get-delete_other :
    (now : ℕ) (k key : Text) (es : List Entry)
    → text_eq k key ≡ false
    → get now key (delete k es) ≡ get now key es
unfolding delete
get-delete_other now k key es h =
    get-select (λ (e : Entry). not (text_eq e.key k)) now key es
      (λ e same. elim (Bool-cases (text_eq e.key k)) [
        | inl t ↦
            let equal = sym ((text_eq_iff e.key k).0 t) ∙ same in
            let clash : text_eq k key ≡ true = (text_eq_iff k key).1 equal in cc
        | inr t ↦ ap not t
      ])

-- A call of another key leaves the answers of this one.
get-cache_get_or_set_other :
    (is_locked : Bool) (now later : ℕ) (k key : Text) (generated : Option Text) (expiry : Option ℕ)
    (es : List Entry)
    → text_eq k key ≡ false
    → text_eq (old_key_of k) key ≡ false
    → get later key (cache_get_or_set is_locked now k generated expiry es).0 ≡ get later key es
unfolding cache_get_or_set regenerate_cache try_regenerate_cache set get
get-cache_get_or_set_other is_locked now later k key generated expiry es h o =
    elim (Option-cases (get now k es)) [
      | inr (v, e) ↦ rw (cache_get_or_set, e) refl
      | inl e ↦ elim (Bool-cases is_locked) [
        | inr l ↦ rw (cache_get_or_set, e, l, regenerate_cache, try_regenerate_cache, o, h) refl
        | inl l ↦ elim (Option-cases (get now (old_key_of k) es)) [
          | inr (v, f) ↦ rw (cache_get_or_set, e, l, regenerate_cache, f) refl
          | inl f ↦ rw (cache_get_or_set, e, l, regenerate_cache, f, o, h) refl
        ]
      ]
    ]

module _ (s : CacheSettings) (key value : Text) (deadline : ℕ) where
  perform-Keeps :
      (op : Operation) (caches : Caches)
      → Spares s key deadline op
      → Keeps key value deadline (get_cache s caches)
      → Keeps key value deadline (get_cache s (perform s op caches))
  unfolding clear_cache
  perform-Keeps (request is_locked now k generated expiry) caches (before, o) h t b =
      ap (get t key) (get_cache-put_cache s _ caches) ∙ elim (Bool-cases (text_eq k key)) [
        | inl e ↦
            let hit : get now k (get_cache s caches) ≡ some value =
              ap (λ x. get now x (get_cache s caches)) ((text_eq_iff k key).0 e) ∙ h now before in
            ap (λ (r : List Entry × Option Text). get t key r.0)
              (answer_of_hit is_locked now k generated expiry (get_cache s caches) value hit)
            ∙ h t b
        | inr n ↦
            get-cache_get_or_set_other is_locked now t k key generated expiry (get_cache s caches) n
              o
            ∙ h t b
      ]
  perform-Keeps (clear k) caches (n, o) h t b =
      ap (get t key) (get_cache-put_cache s _ caches)
      ∙ (get-delete_other t (old_key_of k) key (delete k (get_cache s caches)) o
          ∙ (get-delete_other t k key (get_cache s caches) n ∙ h t b))
  perform-Keeps (invalidate has_delete_pattern condition) caches spared h t b =
      elim (Option-cases (invalidate_cache has_delete_pattern condition caches)) [
        | inl e ↦ rw (e, perform) (h t b)
        | inr (left, e) ↦
            rw (e, perform, stored_left s has_delete_pattern condition caches left e)
              (elim spared [
                | inl d ↦ rw d (h t b)
                | inr n ↦ elim (Bool-cases (has_delete_pattern && not (is_apart s))) [
                  | inl d ↦ rw d (kept-get condition t key (get_cache s caches) n ∙ h t b)
                  | inr d ↦ rw d (h t b)
                ]
              ])
      ]

  run-Keeps :
      (ops : List Operation) (caches : Caches)
      → All (Spares s key deadline) ops
      → Keeps key value deadline (get_cache s caches)
      → Keeps key value deadline (get_cache s (run s ops caches))
  run-Keeps [] caches a h = h
  run-Keeps (op ∷ ops) caches (o, a) h =
      run-Keeps ops (perform s op caches) a (perform-Keeps op caches o h)

-- A value that a call makes with the lock, where nothing is cached under the key, is the answer of
-- every call under the key before it expires, whatever the default returns by then and whether the
-- lock is taken, after any calls before then of keys whose older key is not this one, any clearing of
-- other keys, and any invalidations of conditions that the key is not of or that do not reach the cache.
pub cache_get_or_set-kept :
    (s : CacheSettings) (now later : ℕ) (key : Text) (generated other : Option Text) (expiry : ℕ)
    (other_expiry : Option ℕ) (is_locked : Bool) (ops : List Operation) (caches : Caches)
    → get now key (get_cache s caches) ≡ none
    → All (Spares s key (now + expiry)) ops
    → later < now + expiry
    → let made_first =
        cache_get_or_set false now key generated (some expiry) (get_cache s caches) in
      let caches' = run s ops (put_cache s made_first.0 caches) in
      (cache_get_or_set is_locked later key other other_expiry (get_cache s caches')).1
      ≡ made_first.1
unfolding cache_get_or_set regenerate_cache try_regenerate_cache
cache_get_or_set-kept s now later key generated other expiry other_expiry is_locked ops caches h a
      l =
    let es = get_cache s caches in
    let made = try_regenerate_cache now key generated (some expiry) (some (expiry * 2)) es in
    let (value, v) = has_value generated in
    let e : cache_get_or_set false now key generated (some expiry) es ≡ made =
      rw (cache_get_or_set, h, regenerate_cache) refl in
    let at_first : Keeps key value (now + expiry) (get_cache s (put_cache s made.0 caches)) = λ t b.
      ap (get t key) (get_cache-put_cache s made.0 caches)
      ∙ (stored now t key generated expiry (some (expiry * 2)) es b ∙ v) in
    subst
      (λ (made_first : List Entry × Option Text).
        (cache_get_or_set is_locked later key other other_expiry
          (get_cache s (run s ops (put_cache s made_first.0 caches)))).1
        ≡ made_first.1)
      (sym e)
      (ap (λ (r : List Entry × Option Text). r.1)
          (answer_of_hit is_locked later key other other_expiry
            (get_cache s (run s ops (put_cache s made.0 caches))) value
            (run-Keeps s key value (now + expiry) ops (put_cache s made.0 caches) a at_first later
              l))
        ∙ sym v)
