-- ===== src/Prelude/Ordering.antt =====
-- A queryset's `order_by`: keys that are compared one after another, each ascending or descending.
-- Rows that agree on all keys keep the order of the table.
use Prim.Native.Nat.{ℕ}
use mathlib.Core.Path.{◌≡◌, refl}
use mathlib.Core.Bool.{Bool, true, false}
use mathlib.Core.List.{List, [], ◌∷◌, Perm}
use mathlib.Core.List.Perm
use mathlib.Core.Logic.{inl, inr}
use native.Mathlib.Omega.{arith}
use thunderstore.Prelude.Tests.{ltb, if◌then◌else◌, Bool-cases}
use thunderstore.Prelude.Sorting.{insert_by, sort_by, IsSorted, sort_by-IsSorted}

pub data OrderKey {ℓ} (A : Type ℓ) : Type ℓ where
  asc desc : (A → ℕ) → OrderKey A

-- A truth value as a key: false comes before true.
abbrev pub bit : Bool → ℕ
bit true = 1
bit false = 0

module _ {ℓ} {A : Type ℓ} where
  unfoldable pub comes_first : List (OrderKey A) → A → A → Bool
  comes_first [] a b = true
  comes_first (asc key ∷ keys) a b =
      let tied = comes_first keys a b in
      if ltb (key a) (key b) then true else if ltb (key b) (key a) then false else tied
  comes_first (desc key ∷ keys) a b =
      let tied = comes_first keys a b in
      if ltb (key b) (key a) then true else if ltb (key a) (key b) then false else tied

  unfoldable pub order_by : List (OrderKey A) → List A → List A
  order_by keys rows = sort_by (comes_first keys) rows

  comes_first-total :
      (keys : List (OrderKey A)) (a b : A)
      → comes_first keys a b ≡ false
      → comes_first keys b a ≡ true
  unfolding comes_first
  comes_first-total [] a b h = refl
  comes_first-total (asc key ∷ keys) a b h = ground (arith, comes_first-total keys a b)
  comes_first-total (desc key ∷ keys) a b h = ground (arith, comes_first-total keys a b)

  comes_first_trans :
      (keys : List (OrderKey A)) (a b c : A)
      → comes_first keys a b ≡ true
      → comes_first keys b c ≡ true
      → comes_first keys a c ≡ true
  unfolding comes_first
  comes_first_trans [] a b c h k = refl
  comes_first_trans (asc key ∷ keys) a b c h k = ground (arith, comes_first_trans keys a b c)
  comes_first_trans (desc key ∷ keys) a b c h k = ground (arith, comes_first_trans keys a b c)

  pub order_by-IsSorted :
      (keys : List (OrderKey A)) (rows : List A) → IsSorted (comes_first keys) (order_by keys rows)
  unfolding order_by
  order_by-IsSorted keys rows =
      sort_by-IsSorted (comes_first keys) (comes_first-total keys) (comes_first_trans keys) rows

  insert_by-perm : (test : A → A → Bool) (a : A) (bs : List A) → Perm (insert_by test a bs) (a ∷ bs)
  unfolding insert_by
  insert_by-perm test a [] = Perm.refl (a ∷ [])
  insert_by-perm test a (b ∷ bs) = elim (Bool-cases (test a b)) [
    | inl e ↦ rw (e, insert_by) (Perm.refl (a ∷ b ∷ bs))
    | inr e ↦
        rw (e, insert_by) (Perm.trans (Perm.cons b (insert_by-perm test a bs)) (Perm.swap a b bs))
  ]

  sort_by-perm : (test : A → A → Bool) (bs : List A) → Perm (sort_by test bs) bs
  unfolding sort_by
  sort_by-perm test [] = Perm.refl []
  sort_by-perm test (b ∷ bs) =
      Perm.trans (insert_by-perm test b (sort_by test bs)) (Perm.cons b (sort_by-perm test bs))

  -- Ordering keeps the rows, each as often as before.
  pub order_by-perm : (keys : List (OrderKey A)) (rows : List A) → Perm (order_by keys rows) rows
  unfolding order_by
  order_by-perm keys rows = sort_by-perm (comes_first keys) rows

  -- Two orders of the same rows have the same rows.
  pub order_by_perm :
      (keys other_keys : List (OrderKey A)) (rows : List A)
      → Perm (order_by keys rows) (order_by other_keys rows)
  order_by_perm keys other_keys rows =
      Perm.trans (order_by-perm keys rows) (Perm.symm (order_by-perm other_keys rows))
