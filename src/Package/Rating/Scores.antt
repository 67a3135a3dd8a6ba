-- ===== src/Package/Rating/Scores.antt =====
-- The ratings of packages in repository/models/package_rating.py: one by each user, and the score.
use thunderstore.Prelude.{
  ℕ, suc, String, ◌≡◌, refl, inl, inr, Bool, true, false, not, ◌&&◌, some, List, [], ◌∷◌, ◌++◌,
  arith, ◌==◌, eq_iff, ◌==ℕ◌, if◌then◌else◌, Bool-cases, length, any, select, All, All-append,
  All-select, ok,
}
use thunderstore.Permissions.{User, validate_user}
use thunderstore.Package.Rating.{
  PackageRating, is_rating_of, rating_score, get_or_create_rating, change_rating, rate_package,
}

-- `one_rating_per_rater`
abbrev pub DistinctRatings : List PackageRating → Type 0
DistinctRatings [] = Unit
DistinctRatings (r ∷ rs) =
    All (λ (s : PackageRating). is_rating_of r.rater r.package_id s ≡ false) rs × DistinctRatings rs

module _ (rater package_id : ℕ) where
  -- The number of other users' ratings of the package
  abbrev pub other_ratings : List PackageRating → ℕ
  other_ratings rs =
      length
        (select (λ (r : PackageRating). r.package_id ==ℕ package_id && not (r.rater ==ℕ rater)) rs)

  abbrev without : List PackageRating → List PackageRating
  without rs = select (λ r. not (is_rating_of rater package_id r)) rs

  abbrev new_rating : PackageRating
  new_rating = record { rater = rater; package_id = package_id }

  score-without :
      (rs : List PackageRating) → rating_score package_id (without rs) ≡ other_ratings rs
  unfolding rating_score
  score-without [] = refl
  score-without (r ∷ rs) = ground (arith, score-without rs)

  score-absent :
      (rs : List PackageRating)
      → any (is_rating_of rater package_id) rs ≡ false
      → rating_score package_id rs ≡ other_ratings rs
  unfolding rating_score
  score-absent [] h = refl
  score-absent (r ∷ rs) h = ground (arith, score-absent rs)

  score-append :
      (rs : List PackageRating)
      → any (is_rating_of rater package_id) rs ≡ false
      → rating_score package_id (rs ++ new_rating ∷ []) ≡ suc (other_ratings rs)
  unfolding rating_score
  score-append [] h = ground arith
  score-append (r ∷ rs) h = ground (arith, score-append rs)

  none-later :
      (r : PackageRating) (rs : List PackageRating)
      → All (λ (s : PackageRating). is_rating_of r.rater r.package_id s ≡ false) rs
      → is_rating_of rater package_id r ≡ true
      → any (is_rating_of rater package_id) rs ≡ false
  none-later r [] h e = refl
  none-later r (s ∷ rs) (p, h) e = ground (arith, none-later r rs h e)

  score-present :
      (rs : List PackageRating)
      → DistinctRatings rs
      → any (is_rating_of rater package_id) rs ≡ true
      → rating_score package_id rs ≡ suc (other_ratings rs)
  unfolding rating_score
  score-present [] d h = cc
  score-present (r ∷ rs) (n, d) h = elim (Bool-cases (is_rating_of rater package_id r)) [
    | inl e ↦ ground (arith, score-absent rs (none-later r rs n e))
    | inr e ↦ ground (arith, score-present rs d)
  ]

  Distinct-append :
      (rs : List PackageRating)
      → DistinctRatings rs
      → any (is_rating_of rater package_id) rs ≡ false
      → DistinctRatings (rs ++ new_rating ∷ [])
  Distinct-append [] d h = (tt, tt)
  Distinct-append (r ∷ rs) (n, d) h =
      let differ : is_rating_of r.rater r.package_id new_rating ≡ false = ground arith in
      (
        All-append (λ (s : PackageRating). is_rating_of r.rater r.package_id s ≡ false) rs
            (new_rating ∷ []) n (differ, tt),
        Distinct-append rs d (ground arith),
      )

Distinct-select :
    (p : PackageRating → Bool) (rs : List PackageRating)
    → DistinctRatings rs
    → DistinctRatings (select p rs)
Distinct-select p [] d = tt
Distinct-select p (r ∷ rs) (n, d) = elim (Bool-cases (p r)) [
  | inl e ↦ rw e (
    All-select (λ (s : PackageRating). is_rating_of r.rater r.package_id s ≡ false) p rs n,
    Distinct-select p rs d,
  )
  | inr e ↦ rw e (Distinct-select p rs d)
]

-- If no user has two ratings of one package, a change of a rating that succeeds keeps that, answers
-- the state that was asked for, and gives as score the number of the other users' ratings of the
-- package, with one more exactly where the state is "rated".
pub rate_package-score :
    (user : User) (package_id : ℕ) (target_state state : String) (rs rs' : List PackageRating)
    (n : ℕ)
    → DistinctRatings rs
    → rate_package (some user) package_id target_state rs ≡ ok (n, state, rs')
    → DistinctRatings rs'
      × ((state ≡ target_state)
          × (n ≡ (
              if target_state == "rated"
              then suc (other_ratings user.pk package_id rs)
              else other_ratings user.pk package_id rs)))
unfolding rate_package change_rating validate_user get_or_create_rating
rate_package-score user package_id target_state state rs rs' n d h =
    let is_rated = (eq_iff target_state "rated").0 in
    let is_unrated = (eq_iff target_state "unrated").0 in
    let gone = score-without user.pk package_id rs in
    let kept = Distinct-select (λ r. not (is_rating_of user.pk package_id r)) rs d in
    elim (Bool-cases (any (is_rating_of user.pk package_id) rs)) [
      | inl e ↦
          let score = score-present user.pk package_id rs d e in
          (ground arith, (ground arith, ground arith))
      | inr e ↦
          let score = score-append user.pk package_id rs e in
          let added = Distinct-append user.pk package_id rs d e in
          (ground arith, (ground arith, ground arith))
    ]
