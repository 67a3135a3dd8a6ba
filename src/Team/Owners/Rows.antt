-- ===== src/Team/Owners/Rows.antt =====
-- Counting the rows that pass a test, for the tables of repository/models/team.py.
use thunderstore.Prelude.{
  ℕ, ◌+◌, ◌≤◌, ◌≡◌, refl, subst, inl, inr, Bool, true, false, not, List, [], ◌∷◌, arith, ◌==ℕ◌,
  ==ℕ_iff, ==ℕ_refl, length, select, update_where, Any, All,
}
use thunderstore.Team.{TeamMember}

abbrev pub DistinctKeys : List TeamMember → Type 0
DistinctKeys [] = Unit
DistinctKeys (m ∷ ms) = All (λ n. (n.pk ==ℕ m.pk) ≡ false) ms × DistinctKeys ms

-- 1 if the row passes the test
abbrev pub bit : Bool → ℕ
bit true = 1
bit false = 0

pub bit-le : (b : Bool) → bit b ≤ 1
bit-le true = omega arith
bit-le false = omega arith

abbrev pub count_where : (TeamMember → Bool) → List TeamMember → ℕ
count_where p xs = length (select p xs)

key-ne :
    (k : ℕ) (m : TeamMember) (xs : List TeamMember)
    → All (λ n. (n.pk ==ℕ k) ≡ false) xs
    → Any (λ x. x ≡ m) xs
    → (m.pk ==ℕ k) ≡ false
key-ne k m [] h s = absurd s
key-ne k m (x ∷ xs) (n, h) (inl e) = subst (λ y. (y.pk ==ℕ k) ≡ false) e n
key-ne k m (x ∷ xs) (n, h) (inr s) = key-ne k m xs h s

module _ (p : TeamMember → Bool) where
  count-cons :
      (x : TeamMember) (xs : List TeamMember)
      → count_where p (x ∷ xs) ≡ bit (p x) + count_where p xs
  count-cons x xs = ground arith

  delete-absent :
      (k : ℕ) (xs : List TeamMember)
      → All (λ n. (n.pk ==ℕ k) ≡ false) xs
      → count_where p (select (λ n. not (n.pk ==ℕ k)) xs) ≡ count_where p xs
  delete-absent k [] h = refl
  delete-absent k (x ∷ xs) (n, h) = rw n (ground (arith, delete-absent k xs h))

  delete-head :
      (x : TeamMember) (xs : List TeamMember)
      → All (λ n. (n.pk ==ℕ x.pk) ≡ false) xs
      → count_where p (select (λ n. not (n.pk ==ℕ x.pk)) (x ∷ xs)) + bit (p x)
        ≡ count_where p (x ∷ xs)
  delete-head x xs n = rw (==ℕ_refl x.pk) (omega (arith, delete-absent x.pk xs n, count-cons x xs))

  -- Deleting a stored row takes away exactly its own share of the count.
  pub count-delete :
      (m : TeamMember) (xs : List TeamMember)
      → DistinctKeys xs
      → Any (λ x. x ≡ m) xs
      → count_where p (select (λ n. not (n.pk ==ℕ m.pk)) xs) + bit (p m) ≡ count_where p xs
  count-delete m [] d s = absurd s
  count-delete m (x ∷ xs) (n, d) (inl e) =
      subst
        (λ y.
          count_where p (select (λ n. not (n.pk ==ℕ y.pk)) (x ∷ xs)) + bit (p y)
          ≡ count_where p (x ∷ xs))
        e (delete-head x xs n)
  count-delete m (x ∷ xs) (n, d) (inr s) =
      let ih = count-delete m xs d s in
      let other = key-ne x.pk m xs n s in
      ground (arith, ==ℕ_iff m.pk x.pk, ==ℕ_iff x.pk m.pk, ih, other)

  update-absent :
      (k : ℕ) (m' : TeamMember) (xs : List TeamMember)
      → All (λ n. (n.pk ==ℕ k) ≡ false) xs
      → update_where (λ n. n.pk ==ℕ k) (λ _. m') xs ≡ xs
  update-absent k m' [] h = refl
  update-absent k m' (x ∷ xs) (n, h) = rw (n, update-absent k m' xs h)

  update-head :
      (x m' : TeamMember) (xs : List TeamMember)
      → All (λ n. (n.pk ==ℕ x.pk) ≡ false) xs
      → count_where p (update_where (λ n. n.pk ==ℕ x.pk) (λ _. m') (x ∷ xs)) + bit (p x)
        ≡ count_where p (x ∷ xs) + bit (p m')
  update-head x m' xs n =
      rw (==ℕ_refl x.pk)
        (rw (update-absent x.pk m' xs n) (omega (arith, count-cons x xs, count-cons m' xs)))

  -- Rewriting a stored row exchanges its share of the count for that of the new row.
  pub count-update :
      (m m' : TeamMember) (xs : List TeamMember)
      → DistinctKeys xs
      → Any (λ x. x ≡ m) xs
      → count_where p (update_where (λ n. n.pk ==ℕ m.pk) (λ _. m') xs) + bit (p m)
        ≡ count_where p xs + bit (p m')
  count-update m m' [] d s = absurd s
  count-update m m' (x ∷ xs) (n, d) (inl e) =
      subst
        (λ y.
          count_where p (update_where (λ n. n.pk ==ℕ y.pk) (λ _. m') (x ∷ xs)) + bit (p y)
          ≡ count_where p (x ∷ xs) + bit (p m'))
        e (update-head x m' xs n)
  count-update m m' (x ∷ xs) (n, d) (inr s) =
      let ih = count-update m m' xs d s in
      let other = key-ne x.pk m xs n s in
      ground (arith, ==ℕ_iff m.pk x.pk, ==ℕ_iff x.pk m.pk, ih, other)
