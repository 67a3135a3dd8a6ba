-- ===== src/Team/Services.antt =====
-- api/cyberstorm/services/team.py. Each service runs in a transaction, so an error leaves the tables
-- as they were.
use thunderstore.Prelude.{
  ℕ, String, true, not, ◌||◌, Option, none, some, ◌==ℕ◌, if◌then◌else◌, select, first, update_where,
  Result, ◌>>=◌, ◌>>◌, raise_if, Failure, lift, validation, permission, ok, err, refused,
  does_not_exist, Text,
}
use thunderstore.Team.{role_owner, TeamMember, Team, Namespace, ServiceAccount, Db, is_member_of}
use thunderstore.Permissions.{User, same_user}
use thunderstore.Team.Checks.{
  ensure_user_can_manage_members, ensure_user_can_access, ensure_member_can_be_removed,
  ensure_member_role_can_be_changed, ensure_user_can_disband, ensure_user_can_edit_info,
}
use thunderstore.Team.Storage.{
  Platform, team_exists, namespace_exists, validate_stored, create, add_member,
}

-- The team that a row's foreign key names.
unfoldable pub team_of : Db → ℕ → Result Failure Team
team_of db pk = elim (first (λ (t : Team). t.pk ==ℕ pk) db.teams) [
  | none ↦ err does_not_exist
  | some t ↦ ok t
]

-- `team.delete()`: what names the team goes with it.
unfoldable pub delete_team : Team → Db → Db
delete_team team db = record db {
  teams = select (λ (t : Team). not (t.pk ==ℕ team.pk)) db.teams;
  members = select (λ (m : TeamMember). not (is_member_of team.pk m)) db.members;
  namespaces =
      select (λ (n : Namespace). elim n.team [ none ↦ true | some t ↦ not (t ==ℕ team.pk) ])
        db.namespaces;
  accounts = select (λ (a : ServiceAccount). not (a.owner ==ℕ team.pk)) db.accounts;
}

unfoldable pub disband_team : User → Team → Db → Result Failure Db
disband_team agent team db = do
  lift (ensure_user_can_access db team (some agent))
  lift (ensure_user_can_disband db team (some agent))
  ok (delete_team team db)

module _ (platform : Platform) where
  -- `agent` is falsy only if there is none.
  unfoldable pub create_team : Option User → Text → Db → Result Failure (Team × Db)
  create_team none team_name db = err (refused (permission "Must be authenticated to create teams"))
  create_team (some agent) team_name db = do
    lift (
        raise_if (not agent.is_authenticated || not agent.is_active)
          (permission "Must be authenticated to create teams"))
    lift (raise_if agent.service_account (permission "Service accounts cannot create teams"))
    lift (
        raise_if (team_exists platform db team_name)
          (validation "Team with this name already exists"))
    lift (
        raise_if (namespace_exists platform db team_name)
          (validation "Namespace with this name already exists"))
    (team, db') ← create platform team_name db
    (m, db'') ← add_member team agent role_owner db'
    ok (team, db'')

  -- The update writes all fields of the team.
  unfoldable pub update_team : User → Team → Option Text → Db → Result Failure (Team × Db)
  update_team agent team donation_link db = do
    lift (ensure_user_can_access db team (some agent))
    lift (ensure_user_can_edit_info db team (some agent))
    let team' : Team = record team { donation_link = donation_link }
    validate_stored platform db team'
    ok (
      team',
      record db { teams = update_where (λ (t : Team). t.pk ==ℕ team.pk) (λ _. team') db.teams },
    )

unfoldable pub delete_member : TeamMember → Db → Db
delete_member member db = record db {
  members = select (λ (m : TeamMember). not (m.pk ==ℕ member.pk)) db.members;
}

unfoldable pub remove_team_member : User → TeamMember → Db → Result Failure Db
unfolding delete_member
remove_team_member agent member db = do
  team ← team_of db member.team
  if same_user member.user agent
      then ok tt
      else lift (ensure_user_can_manage_members db team (some agent))
  lift (ensure_member_can_be_removed db team (some member))
  ok (delete_member member db)

unfoldable pub set_role : TeamMember → String → Db → Db
set_role member role db = record db {
  members =
      update_where (λ (m : TeamMember). m.pk ==ℕ member.pk) (λ _. record member { role = role })
        db.members;
}

unfoldable pub update_team_member :
    User → TeamMember → String → Db → Result Failure (TeamMember × Db)
unfolding set_role
update_team_member agent member role db = do
  team ← team_of db member.team
  lift (ensure_user_can_access db team (some agent))
  lift (ensure_user_can_manage_members db team (some agent))
  lift (ensure_member_role_can_be_changed db team (some member) (some role))
  ok (record member { role = role }, set_role member role db)
