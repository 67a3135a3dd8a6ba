-- ===== src/Flags/Active.antt =====
-- Which flags a user has.
use thunderstore.Prelude.{
  ℕ, ◌≤◌, ◌<◌, ◌≡◌, refl, ap, ◌∙◌, ◌≢◌, inl, inr, Bool, true, false, ◌&&◌, ◌||◌, some, List, [],
  ◌∷◌, arith, ◌==ℕ◌, Bool-cases, any, select, All, All-select, All-weaken, Text, text_eq,
  text_eq_iff, insert_by, sort_by, IsSorted, All-sort_by, comes_first, order_by, order_by-IsSorted,
  asc,
}
use thunderstore.Flags.{
  UserFlagMembership, distinct_flags, is_active_at, prepend_distinct, get_active_flags_on_user,
}

abbrev has_flag : Text → UserFlagMembership → Bool
has_flag f m = text_eq f m.flag

any-insert :
    (p : UserFlagMembership → Bool) (test : UserFlagMembership → UserFlagMembership → Bool)
    (m : UserFlagMembership) (ms : List UserFlagMembership)
    → any p (insert_by test m ms) ≡ (p m || any p ms)
unfolding insert_by
any-insert p test m [] = refl
any-insert p test m (n ∷ ms) = ground (arith, any-insert p test m ms)

any-sort :
    (p : UserFlagMembership → Bool) (test : UserFlagMembership → UserFlagMembership → Bool)
    (ms : List UserFlagMembership)
    → any p (sort_by test ms) ≡ any p ms
unfolding sort_by
any-sort p test [] = refl
any-sort p test (m ∷ ms) = ground (arith, any-insert p test m (sort_by test ms), any-sort p test ms)

any-select :
    (p q : UserFlagMembership → Bool) (ms : List UserFlagMembership)
    → any p (select q ms) ≡ any (λ m. q m && p m) ms
any-select p q [] = refl
any-select p q (m ∷ ms) = ground (arith, any-select p q ms)

any-prepend :
    (f g : Text) (fs : List Text)
    → any (text_eq f) (prepend_distinct g fs) ≡ (text_eq f g || any (text_eq f) fs)
unfolding prepend_distinct
any-prepend f g [] = refl
any-prepend f g (h ∷ fs) = elim (Bool-cases (text_eq g h)) [
  | inl t ↦
      let equal : g ≡ h = (text_eq_iff g h).0 t in rw (t, prepend_distinct, equal) (ground arith)
  | inr t ↦ rw (t, prepend_distinct) refl
]

any-distinct :
    (f : Text) (ms : List UserFlagMembership)
    → any (text_eq f) (distinct_flags ms) ≡ any (has_flag f) ms
unfolding distinct_flags
any-distinct f [] = refl
any-distinct f (m ∷ ms) =
    any-prepend f m.flag (distinct_flags ms) ∙ ap (λ b. text_eq f m.flag || b) (any-distinct f ms)

module _ (collation : Text → ℕ) where
  -- Each flag comes before all that follow it.
  abbrev pub IsIncreasing : List Text → Type 0
  IsIncreasing [] = Unit
  IsIncreasing (f ∷ fs) = All (λ g. collation f < collation g) fs × IsIncreasing fs

  abbrev pub AgreeWith : UserFlagMembership → UserFlagMembership → Type 0
  AgreeWith m n = collation m.flag ≡ collation n.flag → m.flag ≡ n.flag

  -- No two of the rows have identifiers that differ and have the same place.
  abbrev pub AreSeparate : List UserFlagMembership → Type 0
  AreSeparate ms = All (λ (m : UserFlagMembership). All (AgreeWith m) ms) ms

  All-prepend :
      (P : Text → Type 0) (f : Text) (fs : List Text)
      → P f
      → All P fs
      → All P (prepend_distinct f fs)
  unfolding prepend_distinct
  All-prepend P f [] p h = (p, tt)
  All-prepend P f (g ∷ fs) p h = elim (Bool-cases (text_eq f g)) [
    | inl t ↦ rw (t, prepend_distinct) h
    | inr t ↦ rw (t, prepend_distinct) (p, h)
  ]

  All-distinct :
      (P : Text → Type 0) (ms : List UserFlagMembership)
      → All (λ (m : UserFlagMembership). P m.flag) ms
      → All P (distinct_flags ms)
  unfolding distinct_flags
  All-distinct P [] h = tt
  All-distinct P (m ∷ ms) (p, h) = All-prepend P m.flag (distinct_flags ms) p (All-distinct P ms h)

  All-above :
      (m n : ℕ) (fs : List Text)
      → m < n
      → All (λ g. n < collation g) fs
      → All (λ g. m < collation g) fs
  All-above m n [] h k = tt
  All-above m n (f ∷ fs) h (p, k) = (omega (arith, h, p), All-above m n fs h k)

  prepend-IsIncreasing :
      (f : Text) (fs : List Text)
      → All (λ g. collation f ≤ collation g) fs
      → All (λ g. collation f ≡ collation g → f ≡ g) fs
      → IsIncreasing fs
      → IsIncreasing (prepend_distinct f fs)
  unfolding prepend_distinct
  prepend-IsIncreasing f [] h s k = (tt, tt)
  prepend-IsIncreasing f (g ∷ fs) (p, h) (s, ss) (q, k) = elim (Bool-cases (text_eq f g)) [
    | inl t ↦ rw (t, prepend_distinct) (q, k)
    | inr t ↦
        let differs : collation f ≢ collation g =
          λ e. (let equal = (text_eq_iff f g).1 (s e) in cc) in
        let below : collation f < collation g = omega (arith, p, differs) in
        rw (t, prepend_distinct) ((below, All-above (collation f) (collation g) fs below q), (q, k))
  ]

  abbrev by_flag : UserFlagMembership → UserFlagMembership → Bool
  by_flag = comes_first (asc (λ (m : UserFlagMembership). collation m.flag) ∷ [])

  not_above :
      (m : UserFlagMembership) (ms : List UserFlagMembership)
      → All (λ (n : UserFlagMembership). by_flag m n ≡ true) ms
      → All (λ (n : UserFlagMembership). collation m.flag ≤ collation n.flag) ms
  unfolding comes_first
  not_above m [] h = tt
  not_above m (n ∷ ms) (p, h) = (ground arith, not_above m ms h)

  distinct-IsIncreasing :
      (ms : List UserFlagMembership)
      → IsSorted by_flag ms
      → AreSeparate ms
      → IsIncreasing (distinct_flags ms)
  unfolding distinct_flags
  distinct-IsIncreasing [] h s = tt
  distinct-IsIncreasing (m ∷ ms) (p, h) ((e, s), ss) =
      prepend-IsIncreasing m.flag (distinct_flags ms)
        (All-distinct (λ g. collation m.flag ≤ collation g) ms (not_above m ms p))
        (All-distinct (λ g. collation m.flag ≡ collation g → m.flag ≡ g) ms s)
        (distinct-IsIncreasing ms h (All-weaken ms (λ k q. q.1) ss))

  ordered-AreSeparate :
      (p : UserFlagMembership → Bool) (test : UserFlagMembership → UserFlagMembership → Bool)
      (rows : List UserFlagMembership)
      → AreSeparate rows
      → AreSeparate (sort_by test (select p rows))
  ordered-AreSeparate p test rows h =
      let kept = select p rows in
      All-sort_by test (λ (m : UserFlagMembership). All (AgreeWith m) (sort_by test kept)) kept
        (All-select (λ (m : UserFlagMembership). All (AgreeWith m) (sort_by test kept)) p rows
          (All-weaken rows
            (λ m q. All-sort_by test (AgreeWith m) kept (All-select (AgreeWith m) p rows q)) h))

  -- Where no two identifiers have the same place, a user's flags are listed in order, each once, and
  -- are those that the user has a membership of that is valid at the time.
  pub get_active_flags_on_user-IsIncreasing :
      (user : ℕ) (timestamp : ℕ) (rows : List UserFlagMembership)
      → user ≢ 0
      → AreSeparate rows
      → IsIncreasing (get_active_flags_on_user collation (some user) timestamp rows)
        × ((f : Text)
            → any (text_eq f) (get_active_flags_on_user collation (some user) timestamp rows)
              ≡ any (λ m. is_active_at user timestamp m && text_eq f m.flag) rows)
  unfolding get_active_flags_on_user order_by
  get_active_flags_on_user-IsIncreasing user timestamp rows u s =
      let keys = asc (λ (m : UserFlagMembership). collation m.flag) ∷ [] in
      let current = select (is_active_at user timestamp) rows in
      let n : (user ==ℕ 0) ≡ false = ground (arith, u) in
      rw (n, get_active_flags_on_user)
        (
          distinct-IsIncreasing (order_by keys current) (order_by-IsSorted keys current)
              (ordered-AreSeparate (is_active_at user timestamp) (comes_first keys) rows s),
          λ f.
              any-distinct f (order_by keys current)
              ∙ (any-sort (has_flag f) (comes_first keys) current
                  ∙ any-select (has_flag f) (is_active_at user timestamp) rows),
        )
