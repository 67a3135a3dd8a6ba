-- ===== src/Team/Rights.antt =====
-- The `ensure_*` and `can_*` methods of `Team` in repository/models/team.py, side by side.
use thunderstore.Prelude.{◌≡◌, refl, ◌↔◌, Bool, true, false, ◌&&◌, Option, none, some, arith}
use thunderstore.Team.{Team, Db, get_membership_for_user, owns}
use thunderstore.Permissions.{User, validate_user, IsEligible}
use thunderstore.Team.Checks.{
  ensure_can_create_service_account, ensure_can_delete_service_account,
  ensure_user_can_manage_members, ensure_user_can_access, ensure_can_upload_package,
  ensure_user_can_manage_packages, ensure_user_can_disband, ensure_user_can_edit_info,
  can_user_upload, can_user_manage_packages, can_user_manage_members,
  can_user_create_service_accounts, can_user_delete_service_accounts, can_user_access,
  can_user_disband, can_user_edit_info,
}

-- The rights in a team form a ladder, whoever the user is: a user who may disband it may edit its
-- information; those who may edit it are those who may manage its members, and those who may create
-- and delete service accounts; they may manage packages, and who may manage packages may access the
-- team; who may upload is who may access, while the team is active.
pub record Ladder (db : Db) (team : Team) (user : Option User) : Type 0 where
  pub disband :
      (can_user_disband db team user && can_user_edit_info db team user)
      ≡ can_user_disband db team user
  pub edit : can_user_edit_info db team user ≡ can_user_manage_members db team user
  pub create : can_user_edit_info db team user ≡ can_user_create_service_accounts db team user
  pub delete : can_user_edit_info db team user ≡ can_user_delete_service_accounts db team user
  pub manage :
      (can_user_manage_members db team user && can_user_manage_packages db team user)
      ≡ can_user_manage_members db team user
  pub access :
      (can_user_manage_packages db team user && can_user_access db team user)
      ≡ can_user_manage_packages db team user
  pub upload : can_user_upload db team user ≡ (can_user_access db team user && team.is_active)

and_of : (a b : Bool) → (a ≡ true → b ≡ true) → (a && b) ≡ a
and_of true b h = h refl
and_of false b h = refl

module _ (db : Db) (team : Team) where
  edit-eq-manage_members :
      (user : Option User) → can_user_edit_info db team user ≡ can_user_manage_members db team user
  unfolding ensure_user_can_edit_info ensure_user_can_manage_members validate_user
  edit-eq-manage_members none = refl
  edit-eq-manage_members (some u) = ground arith

  edit-eq-create :
      (user : Option User)
      → can_user_edit_info db team user ≡ can_user_create_service_accounts db team user
  unfolding ensure_user_can_edit_info ensure_can_create_service_account validate_user
  edit-eq-create none = refl
  edit-eq-create (some u) = ground arith

  edit-eq-delete :
      (user : Option User)
      → can_user_edit_info db team user ≡ can_user_delete_service_accounts db team user
  unfolding ensure_user_can_edit_info ensure_can_delete_service_account validate_user
  edit-eq-delete none = refl
  edit-eq-delete (some u) = ground arith

  edit_of_disband :
      (user : Option User)
      → can_user_disband db team user ≡ true
      → can_user_edit_info db team user ≡ true
  unfolding ensure_user_can_edit_info ensure_user_can_disband validate_user
  edit_of_disband none h = h
  edit_of_disband (some u) h = ground arith

  packages_of_members :
      (user : Option User)
      → can_user_manage_members db team user ≡ true
      → can_user_manage_packages db team user ≡ true
  unfolding ensure_user_can_manage_packages ensure_user_can_manage_members validate_user
  packages_of_members none h = h
  packages_of_members (some u) h = ground arith

  access_of_packages :
      (user : Option User)
      → can_user_manage_packages db team user ≡ true
      → can_user_access db team user ≡ true
  unfolding ensure_user_can_manage_packages ensure_user_can_access validate_user
  access_of_packages none h = h
  access_of_packages (some u) h = ground arith

  upload-eq-access :
      (user : Option User)
      → can_user_upload db team user ≡ (can_user_access db team user && team.is_active)
  unfolding ensure_can_upload_package ensure_user_can_access validate_user
  upload-eq-access none = refl
  upload-eq-access (some u) = ground arith

-- The rights of a user in a team form the ladder of `Ladder`: disbanding needs editing; editing,
-- managing members, creating and deleting service accounts are one right; it gives the managing of
-- packages, which gives access; uploading is access to an active team.
pub rights-Ladder : (db : Db) (team : Team) (user : Option User) → Ladder db team user
rights-Ladder db team user = record {
  disband = and_of _ _ (edit_of_disband db team user);
  edit = edit-eq-manage_members db team user;
  create = edit-eq-create db team user;
  delete = edit-eq-delete db team user;
  manage = and_of _ _ (packages_of_members db team user);
  access = and_of _ _ (access_of_packages db team user);
  upload = upload-eq-access db team user;
}

-- Who may manage the members of a team: an active, authenticated user, no service account, whose
-- membership of the team has the owner's role.
pub can_user_manage_members_iff :
    (db : Db) (team : Team) (user : User)
    → (can_user_manage_members db team (some user) ≡ true)
      ↔ (IsEligible false user × (owns (get_membership_for_user db team user) ≡ true))
unfolding ensure_user_can_manage_members validate_user
can_user_manage_members_iff db team user = (
  λ h. (
    record { authenticated = ground arith; active = ground arith; account = ground arith },
    ground arith,
  ),
  λ h. ground arith,
)
