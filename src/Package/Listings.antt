-- ===== src/Package/Listings.antt =====
-- `get_or_create_package_listing` and `update_listing` of repository/models/package.py.
use thunderstore.Prelude.{
  ℕ, ◌≡◌, refl, inl, inr, Bool, true, false, ◌||◌, none, some, List, [], ◌∷◌, ◌++◌, arith, ◌==ℕ◌,
  if◌then◌else◌, ==ℕ_iff, ==ℕ_refl, Bool-cases, Option-cases, first, update_where, any-append,
  some_inj, first-eq-some,
}
use thunderstore.Package.{PackageListing, Package, get_package_listing, lists_in}
use thunderstore.Visibility.{create_public}
use thunderstore.Community.{Community, unreviewed}
use thunderstore.Package.Deprecation.{contains}

-- A listing as it is created, with the flags that `VisibilityMixin.save` gives it
abbrev pub new_listing : ℕ → Community → PackageListing
new_listing pk c = record {
  pk = pk;
  community = c;
  categories = [];
  is_review_requested = false;
  review_status = unreviewed;
  rejection_reason = none;
  notes = none;
  has_nsfw_content = false;
  visibility = some create_public;
}

-- The listing of the package in the community, and the package that has it; `fresh` is its key if
-- it is made.
unfoldable pub get_or_create_package_listing : ℕ → Community → Package → PackageListing × Package
unfolding get_package_listing
get_or_create_package_listing fresh c p = elim (get_package_listing p c) [
  | some l ↦ (l, p)
  | none ↦ let l = new_listing fresh c in (l, record p { listings = p.listings ++ l ∷ [] })
]

-- `listing.categories.add(*categories)`: what is there already is not added again.
unfoldable pub add_categories : List ℕ → List ℕ → List ℕ
add_categories old [] = old
add_categories old (c ∷ cs) = add_categories (if contains old c then old else old ++ c ∷ []) cs

unfoldable pub update_listing : ℕ → Bool → List ℕ → Community → Package → Package
unfolding get_or_create_package_listing add_categories
update_listing fresh has_nsfw_content categories c p =
    let (l, p') = get_or_create_package_listing fresh c p in
    let l' : PackageListing = record l {
      has_nsfw_content = has_nsfw_content;
      categories = add_categories l.categories categories;
    } in
    record p' {
      listings = update_where (λ (k : PackageListing). k.pk ==ℕ l.pk) (λ _. l') p'.listings;
    }

add_categories-keeps :
    (old cs : List ℕ) (k : ℕ) → contains old k ≡ true → contains (add_categories old cs) k ≡ true
unfolding add_categories
add_categories-keeps old [] k h = h
add_categories-keeps old (c ∷ cs) k h =
    add_categories-keeps (if contains old c then old else old ++ c ∷ []) cs k
      (ground (arith, any-append (λ j. j ==ℕ k) old (c ∷ [])))

add_categories-adds :
    (old cs : List ℕ) (k : ℕ) → contains cs k ≡ true → contains (add_categories old cs) k ≡ true
unfolding add_categories
add_categories-adds old [] k h = cc
add_categories-adds old (c ∷ cs) k h = elim (Bool-cases (c ==ℕ k)) [
  | inl e ↦
      add_categories-keeps (if contains old c then old else old ++ c ∷ []) cs k
        (ground (arith, any-append (λ j. j ==ℕ k) old (c ∷ []), ==ℕ_iff c k))
  | inr e ↦ add_categories-adds (if contains old c then old else old ++ c ∷ []) cs k (ground arith)
]

-- Adding categories to a listing keeps those that it has, and adds those that are given.
pub add_categories-contains :
    (old cs : List ℕ) (k : ℕ)
    → (contains old k || contains cs k) ≡ true
    → contains (add_categories old cs) k ≡ true
add_categories-contains old cs k h = elim (Bool-cases (contains old k)) [
  | inl e ↦ add_categories-keeps old cs k e
  | inr e ↦ add_categories-adds old cs k (ground arith)
]

first-update :
    (p : PackageListing → Bool) (ls : List PackageListing) (l l' : PackageListing)
    → first p ls ≡ some l
    → p l' ≡ true
    → first p (update_where (λ (k : PackageListing). k.pk ==ℕ l.pk) (λ _. l') ls) ≡ some l'
first-update p [] l l' h k = cc
first-update p (m ∷ ls) l l' h k = elim (Bool-cases (p m)) [
  | inl e ↦ let found : m ≡ l = some_inj (rw e at h) in rw (found, ==ℕ_refl l.pk) (rw k refl)
  | inr e ↦ ground (arith, first-update p ls l l' (rw e at h) k)
]

first_at_end :
    (p : PackageListing → Bool) (ls : List PackageListing) (l : PackageListing)
    → first p ls ≡ none
    → p l ≡ true
    → first p (ls ++ l ∷ []) ≡ some l
first_at_end p [] l h k = rw k refl
first_at_end p (m ∷ ls) l h k = ground (arith, first_at_end p ls l)

get_or_create-found :
    (fresh : ℕ) (c : Community) (p : Package)
    → first (lists_in c) (get_or_create_package_listing fresh c p).1.listings
      ≡ some (get_or_create_package_listing fresh c p).0
unfolding get_or_create_package_listing
get_or_create-found fresh c p = elim (Option-cases (first (lists_in c) p.listings)) [
  | inl e ↦
      rw (e, get_or_create_package_listing)
        (first_at_end (lists_in c) p.listings (new_listing fresh c) e (==ℕ_refl c.pk))
  | inr (l, e) ↦ rw (e, get_or_create_package_listing) e
]

-- After a listing is updated, the package is listed in the community, by a listing that has the
-- given mark for adult content, and any category that is given or that it had.
pub update_listing-get_package_listing :
    (fresh : ℕ) (nsfw : Bool) (categories : List ℕ) (c : Community) (p : Package) (k : ℕ)
    → (contains (get_or_create_package_listing fresh c p).0.categories k || contains categories k)
      ≡ true
    → (l : PackageListing) × (get_package_listing (update_listing fresh nsfw categories c p) c
        ≡ some l)
      × (l.has_nsfw_content ≡ nsfw)
      × (contains l.categories k ≡ true)
unfolding update_listing get_package_listing
update_listing-get_package_listing fresh nsfw categories c p k h =
    let (l, p') = get_or_create_package_listing fresh c p in
    let l' : PackageListing = record l {
      has_nsfw_content = nsfw;
      categories = add_categories l.categories categories;
    } in
    let found = get_or_create-found fresh c p in
    (
      l',
      first-update (lists_in c) p'.listings l l' found
          (first-eq-some (lists_in c) p'.listings found).0,
      refl,
      add_categories-contains l.categories categories k h,
    )
