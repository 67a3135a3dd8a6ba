-- ===== src/Team/Creation.antt =====
-- `Team.create`, `get_or_create_for_user` and `get_default_for_user` of repository/models/team.py.
use thunderstore.Prelude.{
  suc, String, ◌≡◌, refl, ap, subst, inl, inr, Bool, true, false, ◌&&◌, some, List, [], ◌∷◌, ◌++◌,
  arith, ◌==ℕ◌, ==ℕ_refl, Bool-cases, Option-cases, is_none, any, first, All, All-append, >>=-eq-ok,
  ok, Text,
}
use thunderstore.Names.{is_component, is_nil, strip_unsupported_characters}
use thunderstore.Team.{Team, Db, TeamMember, get_membership_for_user, is_member_of, role_owner}
use thunderstore.Team.Storage.{
  Platform, team_exists, validate_new, create_namespace, new_team, create, add_member,
  get_or_create_for_user, create_for_user,
}
use thunderstore.Permissions.{User, validate_user, IsEligible}
use thunderstore.Team.Checks.{ensure_user_can_access, can_user_access}

-- No two teams have names that are equal up to case; the earlier one comes first.
abbrev pub DistinctNames : (Text → Text → Bool) → List Team → Type 0
DistinctNames iexact [] = Unit
DistinctNames iexact (t ∷ ts) =
    All (λ (u : Team). iexact t.name u.name ≡ false) ts × DistinctNames iexact ts

DistinctNames-append :
    (iexact : Text → Text → Bool) (ts : List Team) (t : Team)
    → DistinctNames iexact ts
    → any (λ (u : Team). iexact u.name t.name) ts ≡ false
    → DistinctNames iexact (ts ++ t ∷ [])
DistinctNames-append iexact [] t d h = (tt, tt)
DistinctNames-append iexact (u ∷ us) t (n, d) h = (
  All-append (λ (v : Team). iexact u.name v.name ≡ false) us (t ∷ []) n (ground arith, tt),
  DistinctNames-append iexact us t d (ground arith),
)

module _ (platform : Platform) where
  open platform use {iexact}

  -- What a creation that succeeds has done.
  pub record Created (name : Text) (db : Db) (team : Team) (db' : Db) : Type 0 where
    pub valid : is_component name ≡ true
    pub unused : team_exists platform db name ≡ false
    pub is_new : team ≡ new_team db.fresh name
    pub teams : db'.teams ≡ db.teams ++ team ∷ []
    pub members : db'.members ≡ db.members
    pub namespaces :
        db'.namespaces ≡ db.namespaces ++ (record { name = name; team = some team.pk }) ∷ []
    pub fresh : db'.fresh ≡ suc db.fresh

  pub create-Created :
      (name : Text) (db : Db) (team : Team) (db' : Db)
      → create platform name db ≡ ok (team, db')
      → Created name db team db'
  unfolding create create_namespace validate_new
  create-Created name db team db' h = record {
    valid = ground arith;
    unused = ground arith;
    is_new = ground arith;
    teams = ground arith;
    members = ground arith;
    namespaces = ground arith;
    fresh = ground arith;
  }

  -- If no two teams have names that are equal up to case, that is so after a team is created as
  -- well.
  pub create-DistinctNames :
      (name : Text) (db : Db) (team : Team) (db' : Db)
      → create platform name db ≡ ok (team, db')
      → DistinctNames iexact db.teams
      → DistinctNames iexact db'.teams
  create-DistinctNames name db team db' h d =
      let c = create-Created name db team db' h in
      rw c.teams (
        DistinctNames-append iexact db.teams team d
          (rw (ap (λ (t : Team). t.name) c.is_new) c.unused))

-- A membership at the end of the table is found if there is none before it.
found_at_end :
    (p : TeamMember → Bool) (ms : List TeamMember) (m : TeamMember)
    → p m ≡ true
    → is_none (first p (ms ++ m ∷ [])) ≡ false
found_at_end p [] m h = rw h refl
found_at_end p (n ∷ ms) m h = ground (arith, found_at_end p ms m h)

access_of_membership :
    (db : Db) (team : Team) (user : User)
    → IsEligible true user
    → is_none (get_membership_for_user db team user) ≡ false
    → can_user_access db team (some user) ≡ true
unfolding ensure_user_can_access validate_user
access_of_membership db team user e h = ground (arith, e.account, e.active, e.authenticated)

record Added (team : Team) (user : User) (role : String) (db : Db) (m : TeamMember) (db' : Db)
    : Type 0 where
  row : m ≡ record { pk = db.fresh; user = user; team = team.pk; role = role }
  members : db'.members ≡ db.members ++ m ∷ []
  teams : db'.teams ≡ db.teams

add_member-Added :
    (team : Team) (user : User) (role : String) (db : Db) (m : TeamMember) (db' : Db)
    → add_member team user role db ≡ ok (m, db')
    → Added team user role db m db'
unfolding add_member
add_member-Added team user role db m db' h = record {
  row = ground arith;
  members = ground arith;
  teams = ground arith;
}

add_member-access :
    (team : Team) (user : User) (role : String) (db : Db) (m : TeamMember) (db' : Db)
    → IsEligible true user
    → add_member team user role db ≡ ok (m, db')
    → can_user_access db' team (some user) ≡ true
unfolding get_membership_for_user
add_member-access team user role db m db' e h =
    let a = add_member-Added team user role db m db' h in
    access_of_membership db' team user e (
      rw a.members (
        found_at_end (λ n. is_member_of team.pk n && n.user.pk ==ℕ user.pk) db.members m
          (rw a.row (rw ==ℕ_refl (==ℕ_refl user.pk)))))

module _ (platform : Platform) where
  create_for_user-access :
      (user : User) (name : Text) (db : Db) (team : Team) (db' : Db)
      → IsEligible true user
      → create_for_user platform user name db ≡ ok (some team, db')
      → can_user_access db' team (some user) ≡ true
  unfolding create_for_user
  create_for_user-access user name db team db' e h =
      let ((made, db₁), created, h₁) = >>=-eq-ok (create platform name db) _ h in
      let ((m, db₂), added, h₂) = >>=-eq-ok (add_member made user role_owner db₁) _ h₁ in
      let same : made ≡ team = cc in
      let after : db₂ ≡ db' = cc in
      subst (λ d. can_user_access d team (some user) ≡ true) after
        (subst (λ t. can_user_access db₂ t (some user) ≡ true) same
          (add_member-access made user role_owner db₁ m db₂ e added))

  -- The team that is returned to an authenticated and active user, service accounts included, be it
  -- found by the user's name or made, is one that the user may access.
  pub get_or_create_for_user-access :
      (user : User) (db : Db) (team : Team) (db' : Db)
      → IsEligible true user
      → get_or_create_for_user platform user db ≡ ok (some team, db')
      → can_user_access db' team (some user) ≡ true
  unfolding get_or_create_for_user
  get_or_create_for_user-access user db team db' e h =
      let name = strip_unsupported_characters user.username in
      elim (Bool-cases (is_nil name)) [
        | inl empty ↦ cc (rw (empty, get_or_create_for_user) at h)
        | inr named ↦
            elim (Option-cases (first (λ (t : Team). platform.iexact t.name name) db.teams)) [
              | inl missing ↦ create_for_user-access user name db team db' e (ground arith)
              | inr (t, found) ↦ ground arith
            ]
      ]
