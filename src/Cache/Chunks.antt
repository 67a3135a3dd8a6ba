-- ===== src/Cache/Chunks.antt =====
-- The chunks that `update_for_community` of repository/models/cache.py makes of the listings.
use thunderstore.Prelude.{
  ℕ, ◌+◌, ◌≤◌, ◌≡◌, refl, sym, ap, ◌∙◌, ◌≢◌, ◌⊎◌, inl, inr, Bool, true, false, List, [], ◌∷◌, ◌++◌,
  map, append_assoc, arith, ltb, Bool-cases, length, length-append, All, Text, join,
}
use thunderstore.Names.{is_nil}
use thunderstore.Cache.{in_brackets, chunks_from, package_list_chunks}

-- The bytes of a chunk with the given listings
abbrev pub chunk_of : List Text → Text
chunk_of ls = in_brackets (join b',' ls)

abbrev pub concatenated : List (List Text) → List Text
concatenated [] = []
concatenated (ls ∷ rest) = ls ++ concatenated rest

module _ (limit : ℕ) where
  -- A chunk has one listing, or at most one byte more than the limit.
  abbrev pub Fits : List Text → Type 0
  Fits ls = (length ls ≤ 1) ⊎ (length (chunk_of ls) ≤ limit + 1)

  -- The bytes collected so far are those of some listings, and fit.
  abbrev Collected : Text → List Text → Type 0
  Collected content ls = (is_nil content ≡ false) × (join b',' ls ≡ content) × (ls ≢ []) × Fits ls

  join-append :
      (ls : List Text) (l : Text) → ls ≢ [] → join b',' (ls ++ l ∷ []) ≡ join b',' ls ++ b',' ∷ l
  unfolding join
  join-append [] l h = absurd (h refl)
  join-append (a ∷ []) l h = refl
  join-append (a ∷ b ∷ ls) l h =
      rw (join-append (b ∷ ls) l cc) (sym (append_assoc a (b',' ∷ join b',' (b ∷ ls)) (b',' ∷ l)))

  is_nil-append : (s t : Text) → is_nil s ≡ false → is_nil (s ++ t) ≡ false
  unfolding is_nil
  is_nil-append [] t h = cc
  is_nil-append (c ∷ s) t h = refl

  append-ne : (ls : List Text) (l : Text) → (ls ++ l ∷ []) ≢ []
  append-ne [] l = cc
  append-ne (a ∷ ls) l = cc

  fits :
      (content l : Text)
      → ltb limit (length content + length l + 2) ≡ false
      → length (in_brackets (content ++ b',' ∷ l)) ≤ limit + 1
  unfolding in_brackets
  fits content l h =
      let small : length content + length l + 2 ≤ limit = ground arith in
      omega
        (arith, length-append (content ++ b',' ∷ l) (b']' ∷ []), length-append content (b',' ∷ l))

  Collected-longer :
      (content l : Text) (ls : List Text)
      → Collected content ls
      → ltb limit (length content + length l + 2) ≡ false
      → Collected (content ++ b',' ∷ l) (ls ++ l ∷ [])
  Collected-longer content l ls (n, j, ne, f) h =
      let joined : join b',' (ls ++ l ∷ []) ≡ content ++ b',' ∷ l =
        join-append ls l ne ∙ ap (λ x. x ++ b',' ∷ l) j in
      (
        is_nil-append content (b',' ∷ l) n,
        joined,
        append-ne ls l,
        inr (rw joined (fits content l h)),
      )

  listed :
      {l : Text} {ls : List Text} {groups : List (List Text)}
      → concatenated groups ≡ l ∷ ls
      → groups ≢ []
  listed h = cc

  chunks_from-Fits :
      (has_entries : Bool) (content : Text) (ls rest : List Text)
      → Collected content ls
      → All (λ l. is_nil l ≡ false) rest
      → (groups : List (List Text)) × (chunks_from limit has_entries content rest
          ≡ map chunk_of groups)
        × (concatenated groups ≡ ls ++ rest)
        × All Fits groups
  unfolding chunks_from join
  chunks_from-Fits has_entries content ls [] (n, j, ne, f) h =
      (ls ∷ [], rw (n, j) refl, refl, (f, tt))
  chunks_from-Fits has_entries content ls (l ∷ rest) (n, j, ne, f) (m, h) =
      elim (Bool-cases (ltb limit (length content + length l + 2))) [
        | inl e ↦
            let (groups, made, all_listings, fit) =
              chunks_from-Fits true l (l ∷ []) rest (m, refl, cc, inl (omega arith)) h in
            (ls ∷ groups, rw (n, e, made, j) refl, ap (λ x. ls ++ x) all_listings, (f, fit))
        | inr e ↦
            let (groups, made, all_listings, fit) =
              chunks_from-Fits has_entries (content ++ b',' ∷ l) (ls ++ l ∷ []) rest
                (Collected-longer content l ls (n, j, ne, f) e) h in
            (groups, rw (n, e, made) refl, all_listings ∙ append_assoc ls (l ∷ []) rest, fit)
      ]

  -- The chunks of a community's package list, of which there is at least one, are the JSON lists of
  -- consecutive listings: together they have all the listings in order, and a chunk with more than
  -- one listing has at most one byte more than the limit. This is where no listing is without
  -- bytes.
  pub package_list_chunks-Fits :
      (listings : List Text)
      → All (λ l. is_nil l ≡ false) listings
      → (groups : List (List Text)) × (package_list_chunks limit listings ≡ map chunk_of groups)
        × (concatenated groups ≡ listings)
        × All Fits groups
        × (groups ≢ [])
  unfolding package_list_chunks is_nil join
  package_list_chunks-Fits [] h = ([] ∷ [], refl, refl, (inl (omega arith), tt), cc)
  package_list_chunks-Fits (l ∷ ls) (m, h) =
      let (groups, made, all_listings, fit) =
        chunks_from-Fits false l (l ∷ []) ls (m, refl, cc, inl (omega arith)) h in
      (groups, made, all_listings, fit, listed all_listings)

  -- Two listings whose bytes and brackets fill the limit exactly, and of which the first is not
  -- empty, are put in one chunk, which is one byte longer than the limit.
  pub package_list_chunks_exceed :
      (a b : Text)
      → is_nil a ≡ false
      → length a + length b + 2 ≡ limit
      → (package_list_chunks limit (a ∷ b ∷ []) ≡ chunk_of (a ∷ b ∷ []) ∷ [])
        × (length (chunk_of (a ∷ b ∷ [])) ≡ limit + 1)
  unfolding package_list_chunks chunks_from is_nil join in_brackets
  package_list_chunks_exceed a b n e =
      let joined : ltb limit (length a + length b + 2) ≡ false = ground arith in
      let nonempty : is_nil (a ++ b',' ∷ b) ≡ false = is_nil-append a (b',' ∷ b) n in
      (
        rw (n, joined, nonempty) refl,
        omega (arith, length-append (a ++ b',' ∷ b) (b']' ∷ []), length-append a (b',' ∷ b)),
      )
