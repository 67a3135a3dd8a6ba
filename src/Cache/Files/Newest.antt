-- ===== src/Cache/Files/Newest.antt =====
-- What the clean-up of the package index leaves.
use mathlib.Core.List.{Memᴰ}
use thunderstore.Prelude.{
  ◌+◌, ◌*◌, ◌≤◌, ◌≡◌, sym, ap, ◌∙◌, subst, inl, inr, Bool, true, false, none, some, List, [], ◌∷◌,
  arith, ltb, leb, Bool-cases, Option-cases, select, All, some_inj,
}
use thunderstore.Cache.Files.{
  CacheFile, is_active_file, newest_of, get_latest, delete_each, drop_stale_index,
}

-- A row that is not active, or is not newer than `l`
abbrev pub IsOlder : CacheFile → CacheFile → Type 0
IsOlder l c = is_active_file c ≡ true → c.last_modified ≤ l.last_modified

select-IsOlder :
    (l : CacheFile) (cs : List CacheFile)
    → All (IsOlder l) cs
    → All (λ (c : CacheFile). c.last_modified ≤ l.last_modified) (select is_active_file cs)
select-IsOlder l [] h = tt
select-IsOlder l (c ∷ cs) (p, h) = elim (Bool-cases (is_active_file c)) [
  | inl e ↦ rw e (p e, select-IsOlder l cs h)
  | inr e ↦ rw e (select-IsOlder l cs h)
]

module _ (l : CacheFile) where
  newest-All :
      (b : CacheFile) (cs : List CacheFile) (m : CacheFile)
      → b.last_modified ≤ l.last_modified
      → All (λ (c : CacheFile). c.last_modified ≤ l.last_modified) cs
      → newest_of (some b) cs ≡ some m
      → m.last_modified ≤ l.last_modified
  unfolding newest_of
  newest-All b [] m p h e =
      subst (λ (x : CacheFile). x.last_modified ≤ l.last_modified) (some_inj e) p
  newest-All b (c ∷ cs) m p (q, h) e = elim (Bool-cases (ltb b.last_modified c.last_modified)) [
    | inl t ↦ newest-All c cs m q h (rw t at e)
    | inr t ↦ newest-All b cs m p h (rw t at e)
  ]

  latest-le :
      (cs : List CacheFile) (m : CacheFile)
      → All (λ (c : CacheFile). c.last_modified ≤ l.last_modified) cs
      → newest_of none cs ≡ some m
      → m.last_modified ≤ l.last_modified
  unfolding newest_of
  latest-le [] m h e = cc
  latest-le (c ∷ cs) m (p, h) e = newest-All c cs m p h e

  module _ (fails test : CacheFile → Bool) where
    delete_each-kept :
        (cs : List CacheFile) → test l ≡ false → Memᴰ l cs → Memᴰ l (delete_each fails test cs).0
    unfolding delete_each
    delete_each-kept [] t m = elim m [ ]
    delete_each-kept (c ∷ cs) t (Memᴰ.head e) = rw (delete_each, ap test (sym e) ∙ t) (Memᴰ.head e)
    delete_each-kept (c ∷ cs) t (Memᴰ.tail m) = elim (Bool-cases (test c)) [
      | inl e ↦ elim (Bool-cases (fails c)) [
        | inl f ↦ rw (delete_each, e, f) (Memᴰ.tail m)
        | inr f ↦ rw (delete_each, e, f) (delete_each-kept cs t m)
      ]
      | inr e ↦ rw (delete_each, e) (Memᴰ.tail (delete_each-kept cs t m))
    ]

-- Whether or not the storage fails, a stored entry of the index that no active one is newer than
-- stays as it is when the stale entries are dropped.
pub drop_stale_index-kept :
    (fails : CacheFile → Bool) (rows : List CacheFile) (l : CacheFile)
    → Memᴰ l rows
    → All (IsOlder l) rows
    → Memᴰ l (drop_stale_index fails rows).0
unfolding drop_stale_index get_latest
drop_stale_index-kept fails rows l m h = elim (Option-cases (get_latest rows)) [
  | inl e ↦ rw (drop_stale_index, e) m
  | inr (latest, e) ↦
      let older = latest-le l (select is_active_file rows) latest (select-IsOlder l rows h) e in
      let kept : leb (l.last_modified + 3 * 60 * 60) latest.last_modified ≡ false =
        ground (arith, older) in
      rw (drop_stale_index, e)
        (delete_each-kept l fails (λ c. leb (c.last_modified + 3 * 60 * 60) latest.last_modified)
          rows kept m)
]
