-- ===== src/Prelude/Sorting.antt =====
-- Python's `sorted` with a key, as insertion by a test "not after"; it is stable, since an element
-- goes before the first that it is not after, and the elements are inserted from the last one on.
use mathlib.Core.Path.{◌≡◌, refl, sym, ap, subst, ◌∙◌}
use mathlib.Core.Bool.{Bool, true, false}
use mathlib.Core.Logic.{inl, inr, ◌≢◌}
use mathlib.Core.List.{List, [], ◌∷◌, ◌++◌, reverse, reverse-cons, reverse-reverse}
use native.Mathlib.Omega.{arith}
use thunderstore.Prelude.Tests.{if◌then◌else◌, Bool-cases}
use thunderstore.Prelude.Lists.{All, All-append, All-weaken}

module _ {ℓ} {A : Type ℓ} (not_after : A → A → Bool) where
  unfoldable pub insert_by : A → List A → List A
  insert_by a [] = a ∷ []
  insert_by a (b ∷ bs) = if not_after a b then a ∷ b ∷ bs else b ∷ insert_by a bs

  unfoldable pub sort_by : List A → List A
  unfolding insert_by
  sort_by [] = []
  sort_by (a ∷ bs) = insert_by a (sort_by bs)

  abbrev pub Precedes : A → A → Type 0
  Precedes a b = not_after a b ≡ true

  abbrev pub IsSorted : List A → Type 0
  IsSorted [] = Unit
  IsSorted (a ∷ bs) = All (Precedes a) bs × IsSorted bs

  pub insert_by-ne : (a : A) (bs : List A) → insert_by a bs ≢ []
  unfolding insert_by
  insert_by-ne a [] = cc
  insert_by-ne a (b ∷ bs) = ground arith

  pub sort_by-nil : (bs : List A) → sort_by bs ≡ [] → bs ≡ []
  unfolding sort_by
  sort_by-nil [] e = refl
  sort_by-nil (b ∷ bs) e = absurd (insert_by-ne b (sort_by bs) e)

  module _ (P : A → Type 0) where
    All-insert_by : (a : A) (bs : List A) → P a → All P bs → All P (insert_by a bs)
    unfolding insert_by
    All-insert_by a [] p h = (p, tt)
    All-insert_by a (b ∷ bs) p (q, h) = elim (Bool-cases (not_after a b)) [
      | inl e ↦ rw (e, insert_by) (p, (q, h))
      | inr e ↦ rw (e, insert_by) (q, All-insert_by a bs p h)
    ]

    -- What all elements have, all elements of the sorted list have, and the other way round.
    pub All-sort_by : (bs : List A) → All P bs → All P (sort_by bs)
    unfolding sort_by
    All-sort_by [] h = tt
    All-sort_by (b ∷ bs) (q, h) = All-insert_by b (sort_by bs) q (All-sort_by bs h)

    All-uninsert : (a : A) (bs : List A) → All P (insert_by a bs) → P a × All P bs
    unfolding insert_by
    All-uninsert a [] h = (h.0, tt)
    All-uninsert a (b ∷ bs) h = elim (Bool-cases (not_after a b)) [
      | inl e ↦ rw (e, insert_by) at h
      | inr e ↦
          let k : P b × All P (insert_by a bs) = rw (e, insert_by) at h in
          let (p, r) = All-uninsert a bs k.1 in (p, (k.0, r))
    ]

    pub All-unsort_by : (bs : List A) → All P (sort_by bs) → All P bs
    unfolding sort_by
    All-unsort_by [] h = tt
    All-unsort_by (b ∷ bs) h = let (p, r) = All-uninsert b (sort_by bs) h in (p, All-unsort_by bs r)

    pub All-reverse : (bs : List A) → All P bs → All P (reverse bs)
    All-reverse [] h = tt
    All-reverse (b ∷ bs) (p, h) =
        subst (All P) (sym (reverse-cons b bs))
          (All-append P (reverse bs) (b ∷ []) (All-reverse bs h) (p, tt))

  module _ (total : (a b : A) → not_after a b ≡ false → Precedes b a)
      (trans : (a b c : A) → Precedes a b → Precedes b c → Precedes a c) where
    insert_by-IsSorted : (a : A) (bs : List A) → IsSorted bs → IsSorted (insert_by a bs)
    unfolding insert_by
    insert_by-IsSorted a [] h = (tt, tt)
    insert_by-IsSorted a (b ∷ bs) (q, h) = elim (Bool-cases (not_after a b)) [
      | inl e ↦ rw (e, insert_by) ((e, All-weaken bs (λ c k. trans a b c e k) q), (q, h))
      | inr e ↦
          rw (e, insert_by)
            (All-insert_by (Precedes b) a bs (total a b e) q, insert_by-IsSorted a bs h)
    ]

    pub sort_by-IsSorted : (bs : List A) → IsSorted (sort_by bs)
    unfolding sort_by
    sort_by-IsSorted [] = tt
    sort_by-IsSorted (b ∷ bs) = insert_by-IsSorted b (sort_by bs) (sort_by-IsSorted bs)

  -- What stands first when a sorted list is reversed is after all of it, and has what all have.
  pub reverse-last :
      (always : (a : A) → Precedes a a) (P : A → Type 0) (bs : List A) (z : A) (zs : List A)
      → IsSorted bs
      → All P bs
      → reverse bs ≡ z ∷ zs
      → P z × All (λ b. Precedes b z) bs
  reverse-last always P [] z zs s h e = cc
  reverse-last always P (b ∷ bs) z zs (q, s) (p, h) e =
      step (reverse bs) refl (sym (reverse-cons b bs) ∙ e)
        (λ y ys r. reverse-last always P bs y ys s h r)
    where
      step :
          (rs : List A)
          → reverse bs ≡ rs
          → rs ++ b ∷ [] ≡ z ∷ zs
          → ((y : A) (ys : List A) → reverse bs ≡ y ∷ ys → P y × All (λ c. Precedes c y) bs)
          → P z × All (λ c. Precedes c z) (b ∷ bs)
      step [] r f ih =
          let empty : bs ≡ [] = sym (reverse-reverse bs) ∙ ap reverse r in
          let head : b ≡ z = cc in
          subst (λ y. P y × All (λ c. Precedes c y) (b ∷ bs)) head
            (p, (always b, subst (All (λ c. Precedes c b)) (sym empty) tt))
      step (y ∷ ys) r f ih =
          let head : y ≡ z = cc in
          let (py, below) = ih y ys r in
          let b_below = (subst (All (Precedes b)) r (All-reverse (Precedes b) bs q)).0 in
          subst (λ w. P w × All (λ c. Precedes c w) (b ∷ bs)) head (py, (b_below, below))
