-- ===== src/Cache/Batches.antt =====
-- `batch` of utils/batch.py.
use thunderstore.Prelude.{
  ℕ, suc, ◌≤◌, ◌<◌, ◌≡◌, refl, ap, ◌∙◌, inl, inr, true, List, [], ◌∷◌, ◌++◌, append_assoc, arith,
  ltb, leb, Bool-cases, length, length-append,
}
use thunderstore.Cache.{batch_from, batch}

module _ {ℓ} {A : Type ℓ} where
  abbrev pub flattened : List (List A) → List A
  flattened [] = []
  flattened (b ∷ bs) = b ++ flattened bs

  -- Each batch but the last is full, and the last has something.
  abbrev pub IsBatched : ℕ → List (List A) → Type 0
  IsBatched batch_size [] = Unit
  IsBatched batch_size (b ∷ []) = (1 ≤ length b) × (length b ≤ batch_size)
  IsBatched batch_size (b ∷ c ∷ bs) = (length b ≡ batch_size) × IsBatched batch_size (c ∷ bs)

  IsBatched-full :
      (batch_size : ℕ) (b : List A) (bs : List (List A))
      → 1 ≤ batch_size
      → length b ≡ batch_size
      → IsBatched batch_size bs
      → IsBatched batch_size (b ∷ bs)
  IsBatched-full batch_size b [] p e h = (omega arith, omega arith)
  IsBatched-full batch_size b (c ∷ bs) p e h = (e, h)

  batch_from-IsBatched :
      (batch_size : ℕ) (collected xs : List A)
      → length collected < batch_size
      → IsBatched batch_size (batch_from batch_size collected xs)
        × (flattened (batch_from batch_size collected xs) ≡ collected ++ xs)
  unfolding batch_from
  batch_from-IsBatched batch_size [] [] h = (tt, refl)
  batch_from-IsBatched batch_size (c ∷ cs) [] h =
      let some_left : ltb 0 (suc (length cs)) ≡ true = ground arith in
      rw some_left ((omega arith, omega arith), refl)
  batch_from-IsBatched batch_size collected (x ∷ xs) h =
      elim (Bool-cases (leb batch_size (length (collected ++ x ∷ [])))) [
        | inl e ↦
            let full : length (collected ++ x ∷ []) ≡ batch_size =
              ground (arith, length-append collected (x ∷ [])) in
            let (batched, flat) = batch_from-IsBatched batch_size [] xs (omega arith) in
            rw e (
              IsBatched-full batch_size (collected ++ x ∷ []) (batch_from batch_size [] xs)
                  (omega arith) full batched,
              ap (λ ys. (collected ++ x ∷ []) ++ ys) flat ∙ append_assoc collected (x ∷ []) xs,
            )
        | inr e ↦
            let more_room : length (collected ++ x ∷ []) < batch_size = ground arith in
            let (batched, flat) =
              batch_from-IsBatched batch_size (collected ++ x ∷ []) xs more_room in
            rw e (batched, flat ∙ append_assoc collected (x ∷ []) xs)
      ]

  -- The batches have all the elements in order, each batch but the last has the size asked for, and
  -- the last has at least one element and at most that size, where the size is positive.
  pub batch-IsBatched :
      (batch_size : ℕ) (xs : List A)
      → 1 ≤ batch_size
      → IsBatched batch_size (batch batch_size xs) × (flattened (batch batch_size xs) ≡ xs)
  unfolding batch
  batch-IsBatched batch_size xs p = batch_from-IsBatched batch_size [] xs p
