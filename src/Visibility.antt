-- ===== src/Visibility.antt =====
-- permissions/models/visibility.py and permissions/mixins.py: who may see a row in lists and in
-- detail.
use thunderstore.Prelude.{Bool, true, false, not, ◌&&◌, ◌||◌, Option, none, some, if◌then◌else◌}

pub record VisibilityFlags : Type 0 where
  pub public_list : Bool
  pub public_detail : Bool
  pub owner_list : Bool
  pub owner_detail : Bool
  pub moderator_list : Bool
  pub moderator_detail : Bool
  pub admin_list : Bool
  pub admin_detail : Bool

-- `VisibilityFlagsQuerySet.create_public`
abbrev pub create_public : VisibilityFlags
create_public = record {
  public_list = true;
  public_detail = true;
  owner_list = true;
  owner_detail = true;
  moderator_list = true;
  moderator_detail = true;
  admin_list = true;
  admin_detail = true;
}

-- `VisibilityFlags.copy_from`
unfoldable pub copy_from : VisibilityFlags → VisibilityFlags → VisibilityFlags
copy_from self from_visibility = record self {
  public_detail = from_visibility.public_detail;
  public_list = from_visibility.public_list;
  owner_detail = from_visibility.owner_detail;
  owner_list = from_visibility.owner_list;
  moderator_detail = from_visibility.moderator_detail;
  moderator_list = from_visibility.moderator_list;
  admin_detail = from_visibility.admin_detail;
  admin_list = from_visibility.admin_list;
}

-- `VisibilityMixin.set_default_visibility`
unfoldable pub set_default_visibility : VisibilityFlags → VisibilityFlags
set_default_visibility v = record v {
  public_detail = true;
  public_list = true;
  owner_detail = true;
  owner_list = true;
  moderator_detail = true;
  moderator_list = true;
  admin_detail = true;
  admin_list = true;
}

-- `VisibilityMixin.set_zero_visibility`
unfoldable pub set_zero_visibility : VisibilityFlags → VisibilityFlags
set_zero_visibility v = record v {
  public_detail = false;
  public_list = false;
  owner_detail = false;
  owner_list = false;
  moderator_detail = false;
  moderator_list = false;
  admin_detail = false;
  admin_list = false;
}

-- Whether a row is in `VisibilityQuerySet.visible_list(is_owner, is_moderator, is_admin)`; a row
-- without flags is not.
unfoldable pub visible_list : Bool → Bool → Bool → Option VisibilityFlags → Bool
visible_list is_owner is_moderator is_admin none = false
visible_list is_owner is_moderator is_admin (some v) =
    v.public_list
    || ((is_owner && v.owner_list)
        || ((is_moderator && v.moderator_list) || (is_admin && v.admin_list)))

unfoldable pub visible_detail : Bool → Bool → Bool → Option VisibilityFlags → Bool
visible_detail is_owner is_moderator is_admin none = false
visible_detail is_owner is_moderator is_admin (some v) =
    v.public_detail
    || ((is_owner && v.owner_detail)
        || ((is_moderator && v.moderator_detail) || (is_admin && v.admin_detail)))

-- `is_visible_to_user` of packages, versions and listings: each asks the same of its flags, the
-- owning team, the communities that list the package, and the user. `owner`, `moderator` and
-- `superuser` are what those answer for the user, if there is one.
unfoldable pub is_visible_by_flags : Option VisibilityFlags → Bool → Bool → Bool → Bool → Bool
is_visible_by_flags none present owner moderator superuser = false
is_visible_by_flags (some v) present owner moderator superuser =
    if v.public_detail
    then true
    else if not present
    then false
    else if v.owner_detail && owner
    then true
    else if v.moderator_detail && moderator
    then true
    else if v.admin_detail && superuser
    then true
    else false
