-- ===== src/Team/Forms/Added.antt =====
-- Who is added to a team, and by whom.
use thunderstore.Prelude.{String, ◌≡◌, true, false, ◌&&◌, some, [], ◌∷◌, ◌++◌, arith, any, ok}
use thunderstore.Permissions.{User, same_user, validate_user}
use thunderstore.Team.Checks.{ensure_user_can_manage_members}
use thunderstore.Team.{TeamMember, Team, Db, is_member_of, owns, get_membership_for_user}
use thunderstore.Team.Storage.{add_member}
use thunderstore.Team.Forms.{add_team_member_form}

-- Only an owner adds a member; the new one is an active user who is no service account and was not a
-- member, and the other memberships stay as they were.
pub record IsAdded (agent : User) (team : Team) (user : User) (role : String) (db : Db)
    (m : TeamMember) (db' : Db) : Type 0 where
  pub by_owner : owns (get_membership_for_user db team agent) ≡ true
  pub active : user.is_active ≡ true
  pub real : user.service_account ≡ false
  pub new : any (λ x. is_member_of team.pk x && same_user x.user user) db.members ≡ false
  pub row : (m.user ≡ user) × (m.team ≡ team.pk) × (m.role ≡ role)
  pub others : db'.members ≡ db.members ++ m ∷ []

pub add_team_member_form-IsAdded :
    (agent : User) (team : Team) (user : User) (role : String) (db db' : Db) (m : TeamMember)
    → add_team_member_form (some agent) team user role db ≡ ok (m, db')
    → IsAdded agent team user role db m db'
unfolding add_team_member_form add_member ensure_user_can_manage_members validate_user
add_team_member_form-IsAdded agent team user role db db' m h = record {
  by_owner = ground arith;
  active = ground arith;
  real = ground arith;
  new = ground arith;
  row = (ground arith, ground arith, ground arith);
  others = ground arith;
}
