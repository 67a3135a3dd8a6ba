-- ===== src/Team.antt =====
-- repository/models/team.py: teams, their members and their namespaces as tables, and the checks
-- that a team makes of a user. The methods that write to the tables are in the children.
pub mod Storage
pub mod Checks
pub mod Services
pub mod Forms
pub mod Accounts
pub mod Rights
pub mod Creation
pub mod Owners
use thunderstore.Prelude.{
  ℕ, String, Bool, false, not, ◌&&◌, Option, none, some, List, [], ◌∷◌, ◌==◌, leb, ◌==ℕ◌, length,
  any, select, first, Text,
}
use thunderstore.Permissions.{User}

-- TeamMemberRole
abbrev pub role_owner : String
role_owner = "owner"

abbrev pub role_member : String
role_member = "member"

abbrev pub role_options : List String
role_options = role_owner ∷ role_member ∷ []

pub record TeamMember : Type 0 where
  pub pk : ℕ
  pub user : User
  -- the key of its team
  pub team : ℕ
  pub role : String

pub record Team : Type 0 where
  pub pk : ℕ
  pub name : Text
  pub donation_link : Option Text
  pub is_active : Bool
  pub max_file_count_per_zip : Option ℕ

pub record Namespace : Type 0 where
  pub name : Text
  pub team : Option ℕ

-- account/models/service_account.py; the token is stored hashed
pub record ServiceAccount : Type 0 where
  pub uuid : ℕ
  pub user : User
  pub owner : ℕ
  pub api_token : ℕ
  pub created_by : Option ℕ

-- The tables. `owned_packages` has the key of the owning team of each package, and `fresh` is a
-- key that no row and no user has.
pub record Db : Type 0 where
  pub teams : List Team
  pub members : List TeamMember
  pub namespaces : List Namespace
  pub accounts : List ServiceAccount
  pub owned_packages : List ℕ
  pub fresh : ℕ

-- `TeamMemberManager.real_users` and `.owners`, which `real_user_owners` joins
abbrev pub is_real_user : TeamMember → Bool
is_real_user m = not m.user.service_account

abbrev pub has_role : String → TeamMember → Bool
has_role role m = m.role == role

abbrev pub is_member_of : ℕ → TeamMember → Bool
is_member_of team m = m.team ==ℕ team

abbrev pub is_real_owner_of : ℕ → TeamMember → Bool
is_real_owner_of team m = is_member_of team m && (is_real_user m && has_role role_owner m)

pub real_user_owners : ℕ → List TeamMember → List TeamMember
real_user_owners team members = select (is_real_owner_of team) members

-- The attribute that is to hold the answers is never found again, so each call makes the query.
unfoldable pub get_membership_for_user : Db → Team → User → Option TeamMember
get_membership_for_user db team user =
    first (λ m. is_member_of team.pk m && m.user.pk ==ℕ user.pk) db.members

unfoldable pub is_last_owner : Db → Team → Option TeamMember → Bool
unfolding real_user_owners
is_last_owner db team none = false
is_last_owner db team (some m) =
    let owners = real_user_owners team.pk db.members in
    any (λ o. o.pk ==ℕ m.pk) owners && leb (length owners) 1

-- The role tests of the checks: `membership.role != TeamMemberRole.owner`
abbrev pub owns : Option TeamMember → Bool
owns none = false
owns (some m) = has_role role_owner m
