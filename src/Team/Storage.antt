-- ===== src/Team/Storage.antt =====
-- The methods of `Team` that write to the tables, and `Namespace.validate` of
-- repository/models/namespace.py. A method that raises leaves the tables as they were, since each
-- runs in a transaction.
use thunderstore.Prelude.{
  ℕ, suc, String, Bool, true, false, not, ◌&&◌, Option, none, some, [], ◌∷◌, ◌++◌, ◌==ℕ◌,
  if◌then◌else◌, any, first, Refusal, Result, ◌>>=◌, ◌>>◌, raise_if, Failure, lift, validation, ok,
  err, integrity_error, does_not_exist, Text, text_eq,
}
use thunderstore.Names.{is_component, is_nil, strip_unsupported_characters}
use thunderstore.Team.{role_owner, TeamMember, Team, Namespace, Db, is_member_of}
use thunderstore.Permissions.{User, same_user}
use thunderstore.Team.Checks.{can_user_access}

-- What the program leaves to the database and to Django: the test of `name__iexact`, `str.lower`,
-- and `URLValidator(["https"])`.
pub record Platform : Type 0 where
  pub iexact : Text → Text → Bool
  pub lower : Text → Text
  pub is_https_url : Text → Bool

abbrev pub new_team : ℕ → Text → Team
new_team pk name = record {
  pk = pk;
  name = name;
  donation_link = none;
  is_active = true;
  max_file_count_per_zip = none;
}

module _ (platform : Platform) where
  open platform use {iexact, lower, is_https_url}

  abbrev pub team_exists : Db → Text → Bool
  team_exists db name = any (λ t. iexact t.name name) db.teams

  abbrev pub namespace_exists : Db → Text → Bool
  namespace_exists db name = any (λ n. iexact n.name name) db.namespaces

  unfoldable pub validate_donation_link : Option Text → Result Refusal (Unit {0})
  validate_donation_link none = ok tt
  validate_donation_link (some link) =
      raise_if (not (is_https_url link)) (validation "Enter a valid URL.")

  -- `Team.validate` of a team that has no key yet
  unfoldable pub validate_new : Db → Text → Option Text → Result Refusal (Unit {0})
  unfolding validate_donation_link
  validate_new db name link = do
    raise_if (not (is_component name)) (validation "Author name is invalid")
    raise_if (team_exists db name) (validation "Team with this name already exists")
    raise_if (namespace_exists db name) (validation "Namespace with this name already exists")
    validate_donation_link link

  -- `Team.validate` of a stored team
  unfoldable pub validate_stored : Db → Team → Result Failure (Unit {0})
  unfolding validate_donation_link
  validate_stored db team = elim (first (λ t. t.pk ==ℕ team.pk) db.teams) [
    | none ↦ err does_not_exist
    | some stored ↦ lift (do
      raise_if (not (text_eq stored.name team.name)) (validation "Team name is read only")
      validate_donation_link team.donation_link)
  ]

  -- `Namespace.validate` while adding, and the row that is added
  unfoldable pub create_namespace : Text → ℕ → Db → Result Failure Db
  create_namespace name team db = do
    lift (do
      raise_if (not (is_component name)) (validation "Namespace name is invalid")
      raise_if (namespace_exists db (lower name)) (validation "The namespace name already exists"))
    ok (record db { namespaces = db.namespaces ++ (record { name = name; team = some team }) ∷ [] })

  -- `Team.create(name)`
  unfoldable pub create : Text → Db → Result Failure (Team × Db)
  create name db = do
    lift (validate_new db name none)
    let team = new_team db.fresh name
    db' ←
        create_namespace name team.pk
          (record db { teams = db.teams ++ team ∷ []; fresh = suc db.fresh })
    ok (team, db')

  -- `Team.get_namespace`
  unfoldable pub get_namespace : Team → Db → Result Failure (Namespace × Db)
  unfolding create_namespace
  get_namespace team db =
      let found : Option Namespace =
        first
          (λ n. iexact n.name team.name && elim n.team [ none ↦ false | some t ↦ t ==ℕ team.pk ])
          db.namespaces in
      elim found [
        | none ↦ do
          db' ← create_namespace team.name team.pk db
          ok (record { name = team.name; team = some team.pk }, db')
        | some n ↦ ok (n, db)
      ]

-- `team.add_member(user, role)`, with the constraint `one_membership_per_user`
unfoldable pub add_member : Team → User → String → Db → Result Failure (TeamMember × Db)
add_member team user role db = do
  raise_if (any (λ m. is_member_of team.pk m && same_user m.user user) db.members) integrity_error
  let m : TeamMember = record { pk = db.fresh; user = user; team = team.pk; role = role }
  ok (m, record db { members = db.members ++ m ∷ []; fresh = suc db.fresh })

module _ (platform : Platform) where
  open platform use {iexact}

  unfoldable pub create_for_user : User → Text → Db → Result Failure (Option Team × Db)
  unfolding create add_member
  create_for_user user name db = do
    (team, db') ← create platform name db
    (m, db'') ← add_member team user role_owner db'
    ok (some team, db'')

  unfoldable pub get_or_create_for_user : User → Db → Result Failure (Option Team × Db)
  unfolding create_for_user
  get_or_create_for_user user db =
      let name = strip_unsupported_characters user.username in
      let existing = first (λ (t : Team). iexact t.name name) db.teams in
      if is_nil name then ok (none, db) else elim existing [
        | some team ↦ ok (if can_user_access db team (some user) then some team else none, db)
        | none ↦ create_for_user user name db
      ]

  -- `capture_exception` raises the error again where ALWAYS_RAISE_EXCEPTIONS is set.
  unfoldable pub get_default_for_user : Bool → Option User → Db → Result Failure (Option Team × Db)
  unfolding get_or_create_for_user
  get_default_for_user always_raise none db = ok (none, db)
  get_default_for_user always_raise (some user) db =
      let joined =
        first (λ (t : Team). any (λ m. is_member_of t.pk m && same_user m.user user) db.members)
          db.teams in
      let other : Result Failure (Option Team × Db) = elim (get_or_create_for_user user db) [
        | ok found ↦ ok found
        | err e ↦ if always_raise then err e else ok (none, db)
      ] in
      if not user.is_authenticated then ok (none, db) else elim joined [
        | some team ↦ if can_user_access db team (some user) then ok (some team, db) else other
        | none ↦ other
      ]
