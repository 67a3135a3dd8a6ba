-- ===== src/Cache/Stale.antt =====
-- `drop_stale_cache` of the chunked package lists in repository/models/cache.py.
use mathlib.Core.List.{Memᴰ}
use thunderstore.Prelude.{
  ℕ, ◌≤◌, ◌≡◌, sym, ap, ◌∙◌, subst, ◌⊎◌, inl, inr, Bool, true, false, none, some, List, [], ◌∷◌,
  arith, ltb, ◌==ℕ◌, Bool-cases, Option-cases, select, update_where, All, All-select, some_inj,
}
use thunderstore.Cache.{
  ChunkedPackageCache, latest_of, get_latest_for_community, is_stale, drop_stale_of,
  drop_stale_cache,
}

abbrev in_community : ℕ → ChunkedPackageCache → Bool
in_community community c = c.community ==ℕ community

-- A cache of another community, or one that is not newer than `l`
abbrev pub NotNewer : ChunkedPackageCache → ChunkedPackageCache → Type 0
NotNewer l c = ((c.community ==ℕ l.community) ≡ false) ⊎ (c.created_at ≤ l.created_at)

-- A cache that is stored, with none of its community newer
abbrev pub IsNewest : ChunkedPackageCache → List ChunkedPackageCache → Type 0
IsNewest l caches = Memᴰ l caches × All (NotNewer l) caches

module _ (P : ChunkedPackageCache → Type 0) where
  latest_of-All :
      (b : ChunkedPackageCache) (cs : List ChunkedPackageCache) (l : ChunkedPackageCache)
      → P b
      → All P cs
      → latest_of (some b) cs ≡ some l
      → P l
  unfolding latest_of
  latest_of-All b [] l p h e = subst P (some_inj e) p
  latest_of-All b (c ∷ cs) l p (q, h) e = elim (Bool-cases (ltb b.created_at c.created_at)) [
    | inl t ↦ latest_of-All c cs l q h (rw t at e)
    | inr t ↦ latest_of-All b cs l p h (rw t at e)
  ]

  latest-All :
      (cs : List ChunkedPackageCache) (l : ChunkedPackageCache)
      → All P cs
      → latest_of none cs ≡ some l
      → P l
  unfolding latest_of
  latest-All [] l h e = cc
  latest-All (c ∷ cs) l (p, h) e = latest_of-All c cs l p h e

All-both :
    (P Q : ChunkedPackageCache → Type 0) (cs : List ChunkedPackageCache)
    → All P cs
    → All Q cs
    → All (λ c. P c × Q c) cs
All-both P Q [] h k = tt
All-both P Q (c ∷ cs) (p, h) (q, k) = ((p, q), All-both P Q cs h k)

All-selected :
    (p : ChunkedPackageCache → Bool) (cs : List ChunkedPackageCache)
    → All (λ c. p c ≡ true) (select p cs)
All-selected p [] = tt
All-selected p (c ∷ cs) = elim (Bool-cases (p c)) [
  | inl e ↦ rw e (e, All-selected p cs)
  | inr e ↦ rw e (All-selected p cs)
]

-- The latest cache of a community is in it, and is not newer than the newest.
latest-NotNewer :
    (community : ℕ) (caches : List ChunkedPackageCache) (l m : ChunkedPackageCache)
    → All (NotNewer l) caches
    → get_latest_for_community community caches ≡ some m
    → ((m.community ==ℕ community) ≡ true) × NotNewer l m
unfolding get_latest_for_community
latest-NotNewer community caches l m h e =
    let p = in_community community in
    latest-All (λ c. (p c ≡ true) × NotNewer l c) (select p caches) m
      (All-both (λ c. p c ≡ true) (NotNewer l) (select p caches) (All-selected p caches)
        (All-select (NotNewer l) p caches h))
      e

soft_delete : ChunkedPackageCache → ChunkedPackageCache
soft_delete c = record c { is_deleted = true }

module _ (p : ChunkedPackageCache → Bool) (l : ChunkedPackageCache) where
  update_where-NotNewer :
      (cs : List ChunkedPackageCache)
      → All (NotNewer l) cs
      → All (NotNewer l) (update_where p soft_delete cs)
  unfolding soft_delete
  update_where-NotNewer [] h = tt
  update_where-NotNewer (c ∷ cs) (q, h) = elim (Bool-cases (p c)) [
    | inl e ↦ rw e (q, update_where-NotNewer cs h)
    | inr e ↦ rw e (q, update_where-NotNewer cs h)
  ]

  update_where-Mem :
      (cs : List ChunkedPackageCache)
      → p l ≡ false
      → Memᴰ l cs
      → Memᴰ l (update_where p soft_delete cs)
  update_where-Mem [] n m = elim m [ ]
  update_where-Mem (c ∷ cs) n (Memᴰ.head e) = Memᴰ.head (rw (ap p (sym e) ∙ n) e)
  update_where-Mem (c ∷ cs) n (Memᴰ.tail m) = Memᴰ.tail (update_where-Mem cs n m)

drop_stale_of-IsNewest :
    (community : ℕ) (caches : List ChunkedPackageCache) (l : ChunkedPackageCache)
    → IsNewest l caches
    → IsNewest l (drop_stale_of community caches)
unfolding drop_stale_of soft_delete
drop_stale_of-IsNewest community caches l (m, h) =
    elim (Option-cases (get_latest_for_community community caches)) [
      | inl e ↦ rw (drop_stale_of, e) (m, h)
      | inr (latest, e) ↦
          let (inside, older) = latest-NotNewer community caches l latest h e in
          let kept : is_stale community latest.created_at l ≡ false = ground arith in
          rw (drop_stale_of, e)
            (
              update_where-Mem (is_stale community latest.created_at) l caches kept m,
              update_where-NotNewer (is_stale community latest.created_at) l caches h,
            )
    ]

-- A stored cache that no cache of its community is newer than stays stored as it is when the stale
-- caches of any communities are dropped, and none is newer then.
pub drop_stale_cache-IsNewest :
    (communities : List ℕ) (caches : List ChunkedPackageCache) (l : ChunkedPackageCache)
    → IsNewest l caches
    → IsNewest l (drop_stale_cache communities caches)
unfolding drop_stale_cache
drop_stale_cache-IsNewest [] caches l h = h
drop_stale_cache-IsNewest (k ∷ ks) caches l h =
    drop_stale_cache-IsNewest ks (drop_stale_of k caches) l (drop_stale_of-IsNewest k caches l h)
