-- ===== src/WebCache/Fresh.antt =====
-- When a cached value is made anew.
use thunderstore.Prelude.{
  ℕ, ◌≡◌, refl, sym, ap, ◌∙◌, inl, inr, Bool, true, false, not, ◌&&◌, Option, none, some, List, [],
  ◌∷◌, ◌++◌, arith, if◌then◌else◌, Bool-cases, Option-cases, select, All, All-select, some_inj,
  Text, codes, text_eq, text_eq_iff,
}
use thunderstore.Zip.{starts_with}
use thunderstore.WebCache.{
  Entry, get, delete, old_key_of, or_empty, try_regenerate_cache, regenerate_cache,
  cache_get_or_set, clear_cache, CacheBustCondition, condition_name, is_of_condition, get_cache_key,
  invalidate_cache, CacheSettings, Caches, is_apart, get_cache, background_update_only,
  any_package_updated, dynamic_html_updated,
}

abbrev HasNo : Text → List Entry → Type 0
HasNo key es = All (λ (e : Entry). text_eq e.key key ≡ false) es

get_of_none : (now : ℕ) (key : Text) (es : List Entry) → HasNo key es → get now key es ≡ none
unfolding get
get_of_none now key [] h = refl
get_of_none now key (e ∷ es) (p, h) = let ih = get_of_none now key es h in rw (p, get) ih

delete-HasNo : (key : Text) (es : List Entry) → HasNo key (delete key es)
unfolding delete
delete-HasNo key [] = tt
delete-HasNo key (e ∷ es) = elim (Bool-cases (text_eq e.key key)) [
  | inl t ↦ rw t (delete-HasNo key es)
  | inr t ↦ rw t (t, delete-HasNo key es)
]

-- The answer where nothing is cached under the key
abbrev pub made_anew : Bool → Option Text → Option Text → Option Text
made_anew is_locked old generated =
    if not is_locked then or_empty generated else elim old [ none ↦ generated | some t ↦ some t ]

answer_of_miss :
    (is_locked : Bool) (now : ℕ) (key : Text) (generated : Option Text) (expiry : Option ℕ)
    (es : List Entry)
    → get now key es ≡ none
    → (cache_get_or_set is_locked now key generated expiry es).1
      ≡ made_anew is_locked (get now (old_key_of key) es) generated
unfolding cache_get_or_set regenerate_cache try_regenerate_cache
answer_of_miss is_locked now key generated expiry es h = elim (Bool-cases is_locked) [
  | inl l ↦ elim (Option-cases (get now (old_key_of key) es)) [
    | inl o ↦ rw (cache_get_or_set, h, l, regenerate_cache, o) refl
    | inr (t, o) ↦ rw (cache_get_or_set, h, l, regenerate_cache, o) refl
  ]
  | inr l ↦ rw (cache_get_or_set, h, l, regenerate_cache, try_regenerate_cache) refl
]

-- After a key is cleared the next answer is what the default returns, whether the lock is taken or not.
pub clear_cache-fresh :
    (is_locked : Bool) (now : ℕ) (key : Text) (generated : Option Text) (expiry : Option ℕ)
    (es : List Entry)
    → (cache_get_or_set is_locked now key generated expiry (clear_cache key es)).1
      ≡ (if not is_locked then or_empty generated else generated)
unfolding clear_cache
clear_cache-fresh is_locked now key generated expiry es =
    let old = old_key_of key in
    let cleared = delete old (delete key es) in
    let h = get_of_none now key cleared (
      All-select (λ (e : Entry). text_eq e.key key ≡ false) (λ (e : Entry). not (text_eq e.key old))
        (delete key es) (delete-HasNo key es)) in
    let o = get_of_none now old cleared (delete-HasNo old (delete key es)) in
    answer_of_miss is_locked now key generated expiry cleared h
    ∙ ap (λ v. made_anew is_locked v generated) o

-- Removing entries of other keys changes no answer.
pub get-select :
    (test : Entry → Bool) (now : ℕ) (key : Text) (es : List Entry)
    → ((e : Entry) → e.key ≡ key → test e ≡ true)
    → get now key (select test es) ≡ get now key es
unfolding get
get-select test now key [] h = refl
get-select test now key (e ∷ es) h = elim (Bool-cases (text_eq e.key key)) [
  | inl t ↦ rw (h e ((text_eq_iff e.key key).0 t), get, t) refl
  | inr t ↦
      let ih = get-select test now key es h in
      elim (Bool-cases (test e)) [ inl c ↦ rw (c, get, t) ih | inr c ↦ rw (c, get, t) ih ]
]

-- What an invalidation keeps
module _ (condition : CacheBustCondition) where
  abbrev pub kept : List Entry → List Entry
  kept es = select (λ (e : Entry). not (is_of_condition condition e)) es

  starts_with-append : (s t : Text) → starts_with s (s ++ t) ≡ true
  unfolding starts_with
  starts_with-append [] t = refl
  starts_with-append (c ∷ s) t = ground (arith, starts_with-append s t)

  pub kept-get :
      (now : ℕ) (key : Text) (es : List Entry)
      → starts_with (codes "cache." ++ (codes (condition_name condition) ++ (46 ∷ []))) key ≡ false
      → get now key (kept es) ≡ get now key es
  kept-get now key es h =
      get-select (λ (e : Entry). not (is_of_condition condition e)) now key es
        (λ e k.
          let other : is_of_condition condition e ≡ false =
            ap (starts_with (codes "cache." ++ (codes (condition_name condition) ++ (46 ∷ [])))) k
            ∙ h in
          ap not other)

  other_key :
      (key : Text) (e : Entry)
      → starts_with (codes "cache." ++ (codes (condition_name condition) ++ (46 ∷ []))) key ≡ true
      → is_of_condition condition e ≡ false
      → text_eq e.key key ≡ false
  other_key key e h c = elim (Bool-cases (text_eq e.key key)) [
    | inl t ↦
        let equal : e.key ≡ key = (text_eq_iff e.key key).0 t in
        absurd (
          let k =
            sym c
            ∙ (ap (starts_with (codes "cache." ++ (codes (condition_name condition) ++ (46 ∷ []))))
                  equal
                ∙ h) in
          cc)
    | inr t ↦ t
  ]

  kept-HasNo :
      (key : Text) (es : List Entry)
      → starts_with (codes "cache." ++ (codes (condition_name condition) ++ (46 ∷ []))) key ≡ true
      → HasNo key (kept es)
  kept-HasNo key [] h = tt
  kept-HasNo key (e ∷ es) h = elim (Bool-cases (is_of_condition condition e)) [
    | inl c ↦ rw c (kept-HasNo key es h)
    | inr c ↦ rw c (other_key key e h c, kept-HasNo key es h)
  ]

-- What is left in the cache that the values are stored in
pub stored_left :
    (s : CacheSettings) (has_delete_pattern : Bool) (condition : CacheBustCondition)
    (caches left : Caches)
    → invalidate_cache has_delete_pattern condition caches ≡ some left
    → get_cache s left ≡ (
        if has_delete_pattern && not (is_apart s)
        then kept condition (get_cache s caches)
        else get_cache s caches)
unfolding invalidate_cache
stored_left s has_delete_pattern background_update_only caches left e = absurd (ground arith)
stored_left s has_delete_pattern any_package_updated caches left e =
    ap (get_cache s) (sym (some_inj e)) ∙ elim (Bool-cases has_delete_pattern) [
      | inl d ↦ elim (Bool-cases (is_apart s)) [ inl a ↦ rw (d, a) refl | inr a ↦ rw (d, a) refl ]
      | inr d ↦ rw d refl
    ]
stored_left s has_delete_pattern dynamic_html_updated caches left e =
    ap (get_cache s) (sym (some_inj e)) ∙ elim (Bool-cases has_delete_pattern) [
      | inl d ↦ elim (Bool-cases (is_apart s)) [ inl a ↦ rw (d, a) refl | inr a ↦ rw (d, a) refl ]
      | inr d ↦ rw d refl
    ]

module _ (digest : List Text → Text) where
  key_of_condition :
      (condition : CacheBustCondition) (cache_type key : Text) (vary_on : List Text)
      → starts_with
          (codes "cache." ++ (codes (condition_name condition) ++ (46 ∷ [])))
          (get_cache_key digest condition cache_type key vary_on)
        ≡ true
  unfolding get_cache_key starts_with
  key_of_condition background_update_only cache_type key vary_on = refl
  key_of_condition any_package_updated cache_type key vary_on = refl
  key_of_condition dynamic_html_updated cache_type key vary_on = refl

  old_key_is_other :
      (condition : CacheBustCondition) (key : Text)
      → starts_with
          (codes "cache." ++ (codes (condition_name condition) ++ (46 ∷ [])))
          (old_key_of key)
        ≡ false
  unfolding starts_with
  old_key_is_other condition key = refl

  -- The next answer under a key of the condition from entries that its invalidation kept
  answer_of_kept :
      (condition : CacheBustCondition) (cache_type name : Text) (vary_on : List Text)
      (is_locked : Bool) (now : ℕ) (generated : Option Text) (expiry : Option ℕ) (es : List Entry)
      → let key = get_cache_key digest condition cache_type name vary_on in
        (cache_get_or_set is_locked now key generated expiry (kept condition es)).1
        ≡ made_anew is_locked (get now (old_key_of key) es) generated
  answer_of_kept condition cache_type name vary_on is_locked now generated expiry es =
      let key = get_cache_key digest condition cache_type name vary_on in
      let missing =
        get_of_none now key (kept condition es)
          (kept-HasNo condition key es (key_of_condition condition cache_type name vary_on)) in
      answer_of_miss is_locked now key generated expiry (kept condition es) missing
      ∙ ap (λ v. made_anew is_locked v generated)
          (kept-get condition now (old_key_of key) es (old_key_is_other condition key))

  -- After an invalidation that does not raise, the next answer under a key of the condition is what
  -- the default returns, or, where the lock is taken, the value of the older key if it has one, as long
  -- as the values are stored in Django's default cache and that can delete by a pattern. Where they are
  -- stored apart, or it cannot, the next answer is what it is without the invalidation.
  pub invalidate_cache-answer :
      (s : CacheSettings) (has_delete_pattern : Bool) (condition : CacheBustCondition)
      (caches left : Caches)
      → invalidate_cache has_delete_pattern condition caches ≡ some left
      → (cache_type name : Text) (vary_on : List Text) (is_locked : Bool) (now : ℕ)
        (generated : Option Text) (expiry : Option ℕ)
      → let key = get_cache_key digest condition cache_type name vary_on in
        (cache_get_or_set is_locked now key generated expiry (get_cache s left)).1 ≡ (
          if has_delete_pattern && not (s.use_multiple_caches && s.has_legacy_url)
          then made_anew is_locked (get now (old_key_of key) (get_cache s caches)) generated
          else (cache_get_or_set is_locked now key generated expiry (get_cache s caches)).1)
  invalidate_cache-answer s has_delete_pattern condition caches left e cache_type name vary_on
        is_locked now generated expiry =
      rw (stored_left s has_delete_pattern condition caches left e)
        (elim (Bool-cases (has_delete_pattern && not (is_apart s))) [
          | inl d ↦ rw d (
              answer_of_kept condition cache_type name vary_on is_locked now generated expiry
                (get_cache s caches))
          | inr d ↦ rw d refl
        ])
