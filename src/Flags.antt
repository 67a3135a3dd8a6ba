-- ===== src/Flags.antt =====
-- account/models/user_flag.py: the flags of a user at a time. The collation that the database orders
-- identifiers by is a parameter, as the place of each identifier.
pub mod Active
use thunderstore.Prelude.{
  ℕ, Bool, true, ◌&&◌, Option, none, some, List, [], ◌∷◌, ltb, leb, ◌==ℕ◌, if◌then◌else◌, select,
  Text, text_eq, order_by, asc,
}

-- A row with the key of its user and the identifier of its flag
pub record UserFlagMembership : Type 0 where
  pub user : ℕ
  pub flag : Text
  pub datetime_valid_from : ℕ
  pub datetime_valid_until : Option ℕ

-- `query`
abbrev pub is_active_at : ℕ → ℕ → UserFlagMembership → Bool
is_active_at user timestamp m =
    (m.user ==ℕ user)
    && (leb m.datetime_valid_from timestamp
        && elim m.datetime_valid_until [ none ↦ true | some t ↦ ltb timestamp t ])

-- An identifier before others, unless the first of them is the same
unfoldable pub prepend_distinct : Text → List Text → List Text
prepend_distinct f [] = f ∷ []
prepend_distinct f (g ∷ gs) = if text_eq f g then g ∷ gs else f ∷ g ∷ gs

-- `distinct("flag__identifier").values_list("flag__identifier", flat=True)` of ordered rows
unfoldable pub distinct_flags : List UserFlagMembership → List Text
unfolding prepend_distinct
distinct_flags [] = []
distinct_flags (m ∷ ms) = prepend_distinct m.flag (distinct_flags ms)

-- The user by the key, which an anonymous user has not
unfoldable pub get_active_flags_on_user :
    (Text → ℕ) → Option ℕ → ℕ → List UserFlagMembership → List Text
unfolding distinct_flags
get_active_flags_on_user collation none timestamp rows = []
get_active_flags_on_user collation (some user) timestamp rows =
    if user ==ℕ 0
    then []
    else distinct_flags (
        order_by (asc (λ (m : UserFlagMembership). collation m.flag) ∷ [])
          (select (is_active_at user timestamp) rows))
