-- ===== src/Team/Forms.antt =====
-- repository/forms/team.py: the forms that the team pages submit. A form collects its errors; the
-- first of them is its outcome here.
pub mod Added
use thunderstore.Prelude.{
  String, Bool, false, not, ◌&&◌, ◌||◌, Option, none, some, ◌==◌, any, Result, ◌>>◌, raise_if,
  Failure, lift, validation, Text, text_eq,
}
use thunderstore.Names.{is_component}
use thunderstore.Permissions.{User, same_user}
use thunderstore.Team.{TeamMember, Team, Db, role_options, is_member_of, is_real_user}
use thunderstore.Team.Checks.{ensure_user_can_manage_members}
use thunderstore.Team.Storage.{Platform, team_exists, add_member}
use thunderstore.Team.Services.{
  create_team, update_team, disband_team, remove_team_member, update_team_member,
}

module _ (platform : Platform) where
  -- `CreateTeamForm`
  unfoldable pub create_team_form : Option User → Text → Db → Result Failure (Team × Db)
  create_team_form user name db = do
    lift (raise_if (not (is_component name)) (validation "Invalid author name"))
    lift (raise_if (team_exists platform db name) (validation "Team with this name already exists"))
    create_team platform user name db

  -- `DonationLinkTeamForm`
  unfoldable pub donation_link_form : User → Team → Option Text → Db → Result Failure (Team × Db)
  donation_link_form user team donation_link db = update_team platform user team donation_link db

-- The choices of the field `team` of `AddTeamMemberForm`
unfoldable pub is_choice : Option User → Team → Db → Bool
is_choice none team db = false
is_choice (some u) team db =
    u.is_authenticated && any (λ m. is_member_of team.pk m && same_user m.user u) db.members

-- `AddTeamMemberForm`: its fields, `clean`, the uniqueness of memberships and `save`
unfoldable pub add_team_member_form :
    Option User → Team → User → String → Db → Result Failure (TeamMember × Db)
unfolding is_choice
add_team_member_form agent team user role db = do
  lift (raise_if (user.service_account || not user.is_active) (validation "Select a valid choice"))
  lift (raise_if (not (any (λ r. role == r) role_options)) (validation "Select a valid choice"))
  lift (raise_if (not (is_choice agent team db)) (validation "Invalid team"))
  lift (ensure_user_can_manage_members db team agent)
  lift (
      raise_if (any (λ m. is_member_of team.pk m && same_user m.user user) db.members)
        (validation "Team member with this User and Team already exists."))
  add_member team user role db

-- `RemoveTeamMemberForm`, whose choices are the memberships of real users
unfoldable pub remove_team_member_form : User → TeamMember → Db → Result Failure Db
remove_team_member_form agent member db = do
  lift (raise_if (not (is_real_user member)) (validation "Select a valid choice"))
  remove_team_member agent member db

-- `EditTeamMemberForm`, of a stored membership
unfoldable pub edit_team_member_form :
    User → TeamMember → String → Db → Result Failure (TeamMember × Db)
edit_team_member_form agent member role db = do
  lift (raise_if (not (any (λ r. role == r) role_options)) (validation "Select a valid choice"))
  update_team_member agent member role db

-- `DisbandTeamForm`
unfoldable pub disband_team_form : User → Team → Text → Db → Result Failure Db
disband_team_form agent team verification db = do
  lift (raise_if (not (text_eq verification team.name)) (validation "Invalid verification"))
  disband_team agent team db
