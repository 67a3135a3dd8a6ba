-- ===== src/Team/Checks.antt =====
-- The `ensure_*` checks of `Team` and the `can_*` tests made of them.
use thunderstore.Prelude.{
  String, Bool, true, false, not, ◌&&◌, ◌||◌, Option, none, some, ◌==◌, ◌==ℕ◌, is_none, any,
  Refusal, Result, ◌>>=◌, ◌>>◌, raise_if, validation, permission, err,
}
use thunderstore.Team.{
  role_owner, role_options, TeamMember, Team, Db, is_member_of, get_membership_for_user,
  is_last_owner, owns,
}
use thunderstore.Permissions.{User, validate_user, check_validity}

module _ (db : Db) (team : Team) where
  -- `validate_user`, and then a test of the membership that it names
  abbrev with_membership :
      Option User
      → Bool
      → (Option TeamMember → Result Refusal (Unit {0}))
      → Result Refusal (Unit {0})
  with_membership user allow check = do
    u ← validate_user user allow
    check (get_membership_for_user db team u)

  unfoldable pub ensure_can_create_service_account : Option User → Result Refusal (Unit {0})
  ensure_can_create_service_account user = with_membership user false λ m. do
    raise_if (is_none m) (permission "Must be a member to create a service account")
    raise_if (not (owns m)) (permission "Must be an owner to create a service account")

  unfoldable pub ensure_can_edit_service_account : Option User → Result Refusal (Unit {0})
  ensure_can_edit_service_account user = with_membership user false λ m. do
    raise_if (is_none m) (permission "Must be a member to edit a service account")
    raise_if (not (owns m)) (permission "Must be an owner to edit a service account")

  unfoldable pub ensure_can_delete_service_account : Option User → Result Refusal (Unit {0})
  ensure_can_delete_service_account user = with_membership user false λ m. do
    raise_if (is_none m) (permission "Must be a member to delete a service account")
    raise_if (not (owns m)) (permission "Must be an owner to delete a service account")

  unfoldable pub ensure_user_can_manage_members : Option User → Result Refusal (Unit {0})
  ensure_user_can_manage_members user = with_membership user false λ m.
      raise_if (is_none m || not (owns m)) (permission "Must be an owner to manage team members")

  unfoldable pub ensure_user_can_access : Option User → Result Refusal (Unit {0})
  ensure_user_can_access user =
      with_membership user true
        λ m. raise_if (is_none m) (permission "Must be a member to access team")

  unfoldable pub ensure_can_upload_package : Option User → Result Refusal (Unit {0})
  ensure_can_upload_package user = with_membership user true λ m. do
    raise_if (is_none m) (permission "Must be a member of team to upload package")
    raise_if (not team.is_active)
        (validation "The team has been deactivated and as such cannot receive new packages")

  unfoldable pub ensure_user_can_manage_packages : Option User → Result Refusal (Unit {0})
  ensure_user_can_manage_packages user =
      with_membership user false
        λ m. raise_if (is_none m) (permission "Must be a member of team to manage packages")

  unfoldable pub ensure_member_can_be_removed : Option TeamMember → Result Refusal (Unit {0})
  ensure_member_can_be_removed none = err (validation "Invalid member")
  ensure_member_can_be_removed (some m) = do
    raise_if (not (is_member_of team.pk m)) (permission "Member is not a part of this team")
    raise_if (is_last_owner db team (some m)) (permission "Cannot remove last owner from team")

  -- `not new_role or new_role not in TeamMemberRole.options()`
  unfoldable pub is_invalid_role : Option String → Bool
  is_invalid_role none = true
  is_invalid_role (some role) = role == "" || not (any (λ o. o == role) role_options)

  unfoldable pub is_owner_role : Option String → Bool
  is_owner_role none = false
  is_owner_role (some role) = role == role_owner

  unfoldable pub ensure_member_role_can_be_changed :
      Option TeamMember → Option String → Result Refusal (Unit {0})
  unfolding is_invalid_role is_owner_role
  ensure_member_role_can_be_changed none role = err (validation "Invalid member")
  ensure_member_role_can_be_changed (some m) role = do
    raise_if (not (is_member_of team.pk m)) (validation "Member is not a part of this team")
    raise_if (is_invalid_role role) (validation "New role is invalid")
    raise_if (not (is_owner_role role) && is_last_owner db team (some m))
        (validation "Cannot remove last owner from team")

  unfoldable pub ensure_user_can_disband : Option User → Result Refusal (Unit {0})
  ensure_user_can_disband user = do
    with_membership user false
        λ m. raise_if (is_none m || not (owns m)) (permission "Must be an owner to disband team")
    raise_if (any (λ owner. owner ==ℕ team.pk) db.owned_packages)
        (validation "Unable to disband teams with packages")

  unfoldable pub ensure_user_can_edit_info : Option User → Result Refusal (Unit {0})
  ensure_user_can_edit_info user =
      with_membership user false
        λ m. raise_if (is_none m || not (owns m)) (permission "Must be an owner to edit team info")

  abbrev pub can_user_upload : Option User → Bool
  can_user_upload user = check_validity (ensure_can_upload_package user)

  abbrev pub can_user_manage_packages : Option User → Bool
  can_user_manage_packages user = check_validity (ensure_user_can_manage_packages user)

  abbrev pub can_user_manage_members : Option User → Bool
  can_user_manage_members user = check_validity (ensure_user_can_manage_members user)

  abbrev pub can_user_create_service_accounts : Option User → Bool
  can_user_create_service_accounts user = check_validity (ensure_can_create_service_account user)

  abbrev pub can_user_delete_service_accounts : Option User → Bool
  can_user_delete_service_accounts user = check_validity (ensure_can_delete_service_account user)

  abbrev pub can_user_access : Option User → Bool
  can_user_access user = check_validity (ensure_user_can_access user)

  abbrev pub can_member_be_removed : Option TeamMember → Bool
  can_member_be_removed m = check_validity (ensure_member_can_be_removed m)

  abbrev pub can_member_role_be_changed : Option TeamMember → Option String → Bool
  can_member_role_be_changed m role = check_validity (ensure_member_role_can_be_changed m role)

  abbrev pub can_user_disband : Option User → Bool
  can_user_disband user = check_validity (ensure_user_can_disband user)

  abbrev pub can_user_edit_info : Option User → Bool
  can_user_edit_info user = check_validity (ensure_user_can_edit_info user)
