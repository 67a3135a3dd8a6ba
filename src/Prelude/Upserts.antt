-- ===== src/Prelude/Upserts.antt =====
-- `filter(...).first()` or a new row, then changed and saved.
use mathlib.Core.Path.{◌≡◌, refl, ap, ◌∙◌}
use mathlib.Core.Bool.{Bool, true, false}
use mathlib.Core.Logic.{◌⊎◌, inl, inr}
use mathlib.Core.List.{List, [], ◌∷◌, map}
use mathlib.Core.Option.{Option, none, some}
use native.Mathlib.Omega.{arith}
use thunderstore.Prelude.Tests.{if◌then◌else◌, Bool-cases}
use thunderstore.Prelude.Lists.{any, select, first, some_inj}

module _ {ℓ} {A : Type ℓ} where
  -- The first row that passes the test is changed, or the new row is added changed.
  unfoldable pub upsert : (A → Bool) → (A → A) → A → List A → List A
  upsert is_key change new [] = change new ∷ []
  upsert is_key change new (x ∷ xs) =
      let kept = x ∷ upsert is_key change new xs in if is_key x then change x ∷ xs else kept

  -- The first row that passes the test is there and has the property.
  abbrev pub FirstHas : (A → Bool) → (A → Type 0) → List A → Type 0
  FirstHas is_key P [] = ⊥
  FirstHas is_key P (x ∷ xs) =
      ((is_key x ≡ true) × P x) ⊎ ((is_key x ≡ false) × FirstHas is_key P xs)

  module _ (is_key : A → Bool) (change : A → A) (new : A) where
    pub upsert-FirstHas :
        (P : A → Type 0) (xs : List A)
        → is_key new ≡ true
        → ((x : A) → is_key x ≡ true → (is_key (change x) ≡ true) × P (change x))
        → FirstHas is_key P (upsert is_key change new xs)
    unfolding upsert
    upsert-FirstHas P [] h k = inl (k new h)
    upsert-FirstHas P (x ∷ xs) h k = elim (Bool-cases (is_key x)) [
      | inl e ↦ rw (e, upsert) (inl (k x e))
      | inr e ↦ rw (e, upsert) (inr (e, upsert-FirstHas P xs h k))
    ]

    -- What the first row has decides what it has when it is changed.
    pub upsert-FirstHas_of :
        (Q P : A → Type 0) (xs : List A)
        → ((x : A) → is_key x ≡ true → Q x → (is_key (change x) ≡ true) × P (change x))
        → FirstHas is_key Q xs
        → FirstHas is_key P (upsert is_key change new xs)
    unfolding upsert
    upsert-FirstHas_of Q P [] k f = absurd f
    upsert-FirstHas_of Q P (x ∷ xs) k (inl (e, q)) = rw (e, upsert) (inl (k x e q))
    upsert-FirstHas_of Q P (x ∷ xs) k (inr (e, f)) =
        rw (e, upsert) (inr (e, upsert-FirstHas_of Q P xs k f))

    pub upsert-FirstHas_new :
        (P : A → Type 0) (xs : List A)
        → is_key (change new) ≡ true
        → P (change new)
        → first is_key xs ≡ none
        → FirstHas is_key P (upsert is_key change new xs)
    unfolding upsert
    upsert-FirstHas_new P [] h p e = inl (h, p)
    upsert-FirstHas_new P (x ∷ xs) h p e = elim (Bool-cases (is_key x)) [
      | inl t ↦ absurd (ground arith)
      | inr t ↦ rw (t, upsert) (inr (t, upsert-FirstHas_new P xs h p (rw t at e)))
    ]

    -- A row that is there and would not change stays.
    pub upsert_same :
        (P : A → Type 0) (xs : List A)
        → ((x : A) → P x → change x ≡ x)
        → FirstHas is_key P xs
        → upsert is_key change new xs ≡ xs
    unfolding upsert
    upsert_same P [] k f = absurd f
    upsert_same P (x ∷ xs) k (inl (e, p)) = rw (e, upsert) (ap (λ y. y ∷ xs) (k x p))
    upsert_same P (x ∷ xs) k (inr (e, f)) =
        rw (e, upsert) (ap (λ ys. x ∷ ys) (upsert_same P xs k f))

    -- Rows that another test picks are as before.
    pub FirstHas-upsert_other :
        (other : A → Bool) (P : A → Type 0) (xs : List A)
        → other (change new) ≡ false
        → ((x : A) → is_key x ≡ true → (other x ≡ false) × (other (change x) ≡ false))
        → FirstHas other P xs
        → FirstHas other P (upsert is_key change new xs)
    unfolding upsert
    FirstHas-upsert_other other P [] h k f = absurd f
    FirstHas-upsert_other other P (x ∷ xs) h k f = elim (Bool-cases (is_key x)) [
      | inl e ↦
          rw (e, upsert)
            (elim f [
              | inl (o, p) ↦ absurd (ground (arith, k x e))
              | inr (o, g) ↦ inr ((k x e).1, g)
            ])
      | inr e ↦
          rw (e, upsert)
            (elim f [
              | inl (o, p) ↦ inl (o, p)
              | inr (o, g) ↦ inr (o, FirstHas-upsert_other other P xs h k g)
            ])
    ]

    pub select-upsert_other :
        (other : A → Bool) (xs : List A)
        → other (change new) ≡ false
        → ((x : A) → is_key x ≡ true → (other x ≡ false) × (other (change x) ≡ false))
        → select other (upsert is_key change new xs) ≡ select other xs
    unfolding upsert
    select-upsert_other other [] h k = rw h refl
    select-upsert_other other (x ∷ xs) h k = elim (Bool-cases (is_key x)) [
      | inl e ↦ rw (e, upsert) (rw ((k x e).0, (k x e).1) refl)
      | inr e ↦ rw (e, upsert) (ground (arith, select-upsert_other other xs h k))
    ]

  pub any-FirstHas :
      (is_key : A → Bool) (P : A → Type 0) (xs : List A)
      → FirstHas is_key P xs
      → any is_key xs ≡ true
  any-FirstHas is_key P [] f = absurd f
  any-FirstHas is_key P (x ∷ xs) (inl (e, p)) = rw e refl
  any-FirstHas is_key P (x ∷ xs) (inr (e, f)) = rw e (any-FirstHas is_key P xs f)

  pub FirstHas-first :
      (is_key : A → Bool) (P : A → Type 0) (xs : List A)
      → FirstHas is_key P xs
      → (a : A) × (first is_key xs ≡ some a) × P a
  FirstHas-first is_key P [] f = absurd f
  FirstHas-first is_key P (x ∷ xs) (inl (t, p)) = (x, rw t refl, p)
  FirstHas-first is_key P (x ∷ xs) (inr (t, f)) =
      let (a, e, p) = FirstHas-first is_key P xs f in (a, rw t e, p)

pub FirstHas-map :
    {A : Type 0} (is_key : A → Bool) (P Q : A → Type 0) (xs : List A)
    → ((x : A) → P x → Q x)
    → FirstHas is_key P xs
    → FirstHas is_key Q xs
FirstHas-map is_key P Q [] k f = absurd f
FirstHas-map is_key P Q (x ∷ xs) k (inl (t, p)) = inl (t, k x p)
FirstHas-map is_key P Q (x ∷ xs) k (inr (t, f)) = inr (t, FirstHas-map is_key P Q xs k f)

pub first-FirstHas :
    {A : Type 0} (is_key : A → Bool) (xs : List A) (a : A)
    → first is_key xs ≡ some a
    → FirstHas is_key (λ x. x ≡ a) xs
first-FirstHas is_key [] a e = cc
first-FirstHas is_key (x ∷ xs) a e = elim (Bool-cases (is_key x)) [
  | inl t ↦ inl (t, some_inj (rw t at e))
  | inr t ↦ inr (t, first-FirstHas is_key xs a (rw t at e))
]

-- A change of all rows that keeps the key
module _ {A : Type 0} (is_key : A → Bool) (f : A → A)
    (keeps : (x : A) → is_key (f x) ≡ is_key x) where
  pub map-upsert :
      (change change' : A → A) (new new' : A) (xs : List A)
      → ((x : A) → f (change x) ≡ change' (f x))
      → f new ≡ new'
      → map f (upsert is_key change new xs) ≡ upsert is_key change' new' (map f xs)
  unfolding upsert
  map-upsert change change' new new' [] c n = ap (λ x. x ∷ []) (c new ∙ ap change' n)
  map-upsert change change' new new' (x ∷ xs) c n = elim (Bool-cases (is_key x)) [
    | inl e ↦ rw (e, keeps x, upsert) (rw e (ap (λ y. y ∷ map f xs) (c x)))
    | inr e ↦
        rw (e, keeps x, upsert)
          (rw e (ap (λ ys. f x ∷ ys) (map-upsert change change' new new' xs c n)))
  ]

  pub any-map_same : (xs : List A) → any is_key (map f xs) ≡ any is_key xs
  any-map_same [] = refl
  any-map_same (x ∷ xs) = rw (keeps x, any-map_same xs) refl

  pub first-map :
      (xs : List A)
      → first is_key (map f xs)
        ≡ elim (first is_key xs) as (λ o. Option A) [ none ↦ none | some a ↦ some (f a) ]
  first-map [] = refl
  first-map (x ∷ xs) = elim (Bool-cases (is_key x)) [
    | inl e ↦ rw (keeps x, e) refl
    | inr e ↦ rw (keeps x, e) (first-map xs)
  ]
