-- ===== src/Listing.antt =====
-- community/models/package_listing.py: reviewing a listing, who may see it, and the querysets that
-- pick the listings to show. api/cyberstorm/services/package_listing.py is in the child `Services`.
pub mod Review
pub mod View
pub mod Services
use thunderstore.Prelude.{
  ℕ, Bool, true, false, not, ◌&&◌, ◌||◌, Option, none, some, List, [], ◌∷◌, ◌++◌, map, ◌==ℕ◌,
  if◌then◌else◌, any, Refusal, Result, ◌>>=◌, ◌>>◌, raise_if, Failure, validation, permission, ok,
  err, permission_error, Text, text_eq,
}
use thunderstore.Names.{is_nil}
use thunderstore.Package.{
  PackageVersion, PackageListing, Package, is_waiting_for_approval, is_rejected,
}
use thunderstore.Visibility.{VisibilityFlags, is_visible_by_flags}
use thunderstore.Team.{Team, Db}
use thunderstore.Community.{
  Community, can_moderate_packages, can_user_manage_categories, approved, rejected,
}
use thunderstore.Permissions.{User, validate_user, check_validity}
use thunderstore.Team.Checks.{can_user_manage_packages, can_user_access}

-- webhooks/audit.py
pub data AuditAction : Type 0 where
  audit_approved audit_rejected : AuditAction

pub record AuditEvent : Type 0 where
  pub action : AuditAction
  pub user_id : Option ℕ
  pub community_id : ℕ
  pub message : Option Text

unfoldable pub build_audit_event :
    PackageListing → AuditAction → Option User → Option Text → AuditEvent
build_audit_event l action agent message = record {
  action = action;
  user_id = elim agent [ none ↦ none | some u ↦ some u.pk ];
  community_id = l.community.pk;
  message = message;
}

-- `can_be_moderated_by_user`, which is also `can_user_manage_approval_status`
abbrev pub can_be_moderated_by_user : PackageListing → Option User → Bool
can_be_moderated_by_user l user = can_moderate_packages l.community user

-- `validate` of a stored listing, against the community that the table has for it
unfoldable pub validate_listing : Community → PackageListing → Result Refusal (Unit {0})
validate_listing in_db l =
    raise_if (not (in_db.pk ==ℕ l.community.pk))
      (validation "PackageListing.community is read only")

unfoldable pub request_review : PackageListing → PackageListing
request_review l = record l { is_review_requested = true }

unfoldable pub clear_review_request : PackageListing → PackageListing
clear_review_request l = record l { is_review_requested = false }

abbrev pub text_or_empty : Option Text → Text
text_or_empty none = []
text_or_empty (some t) = t

-- `"\n\n".join(filter(bool, (rejection_reason, internal_notes)))`
unfoldable pub rejection_message : Text → Option Text → Text
rejection_message reason notes =
    let n = text_or_empty notes in
    if is_nil reason then n else if is_nil n then reason else reason ++ 10 ∷ 10 ∷ n

unfoldable pub reject :
    Option User
    → Text
    → Bool
    → Option Text
    → Bool
    → PackageListing
    → Result Failure (PackageListing × List AuditEvent)
unfolding rejection_message build_audit_event
reject agent reason is_system internal_notes should_fire l =
    if is_system || can_be_moderated_by_user l agent
    then (let l' : PackageListing = record l {
      rejection_reason = some reason;
      review_status = rejected;
      notes = elim internal_notes [ none ↦ l.notes | some n ↦ some n ];
    } in
        let event =
          build_audit_event l' audit_rejected agent
            (some (rejection_message reason internal_notes)) in
        ok (l', if should_fire then event ∷ [] else []))
    else err permission_error

unfoldable pub approve :
    Option User
    → Bool
    → Option Text
    → PackageListing
    → Result Failure (PackageListing × List AuditEvent)
unfolding build_audit_event
approve agent is_system internal_notes l =
    if is_system || can_be_moderated_by_user l agent
    then (let l' : PackageListing = record l {
      review_status = approved;
      -- `internal_notes or self.notes`
      notes = if is_nil (text_or_empty internal_notes) then l.notes else internal_notes;
    } in
        ok (l', build_audit_event l' audit_approved agent internal_notes ∷ []))
    else err permission_error

module _ (db : Db) (owner_team : Team) where
  unfoldable pub ensure_user_can_manage_listing :
      PackageListing → Option User → Result Refusal (Unit {0})
  ensure_user_can_manage_listing l user = do
    u ← validate_user user false
    raise_if
        (not
          (can_be_moderated_by_user l (some u) || can_user_manage_packages db owner_team (some u)))
        (permission "Must have listing management permission")

  unfoldable pub ensure_update_categories_permission :
      PackageListing → Option User → Result Refusal (Unit {0})
  ensure_update_categories_permission l user = do
    u ← validate_user user false
    raise_if
        (not (
          can_be_moderated_by_user l (some u)
          || (can_user_manage_packages db owner_team (some u)
              || can_user_manage_categories l.community (some u))))
        (permission "User is missing necessary roles or permissions")

  abbrev pub check_update_categories_permission : PackageListing → Option User → Bool
  check_update_categories_permission l user =
      check_validity (ensure_update_categories_permission l user)

  -- `get_has_perms` of `ensure_can_be_viewed_by_user`
  unfoldable pub get_has_perms : PackageListing → Option User → Bool
  get_has_perms l none = false
  get_has_perms l (some u) =
      u.is_authenticated
      && (can_moderate_packages l.community (some u) || can_user_access db owner_team (some u))

  unfoldable pub ensure_can_be_viewed_by_user :
      PackageListing → Option User → Result Refusal (Unit {0})
  unfolding get_has_perms
  ensure_can_be_viewed_by_user l user =
      let hidden = permission "Insufficient permissions to view" in
      if l.community.require_package_listing_approval
      then raise_if
          (elim l.review_status [ approved ↦ false | _ ↦ true ] && not (get_has_perms l user))
          hidden
      else raise_if
          (elim l.review_status [ rejected ↦ true | _ ↦ false ] && not (get_has_perms l user))
          hidden

  abbrev pub can_be_viewed_by_user : PackageListing → Option User → Bool
  can_be_viewed_by_user l user = check_validity (ensure_can_be_viewed_by_user l user)

  -- A category, by its key and the key of its community
  unfoldable pub update_categories :
      User → List (ℕ × ℕ) → PackageListing → Result Refusal PackageListing
  unfolding ensure_update_categories_permission
  update_categories agent categories l = do
    ensure_update_categories_permission l (some agent)
    raise_if (any (λ (c : ℕ × ℕ). not (c.1 ==ℕ l.community.pk)) categories)
        (validation "Community mismatch between package listing and category")
    ok (record l { categories = map (λ (c : ℕ × ℕ). c.0) categories })

-- `is_visible_to_user`; all listings of the package are asked for a moderator.
unfoldable pub is_listing_visible_to_user : Db → Package → PackageListing → Option User → Bool
unfolding is_visible_by_flags
is_listing_visible_to_user db p l none = is_visible_by_flags l.visibility false false false false
is_listing_visible_to_user db p l (some user) =
    is_visible_by_flags l.visibility true (can_user_access db p.owner (some user))
      (any (λ (k : PackageListing). can_moderate_packages k.community (some user)) p.listings)
      user.is_superuser

-- `set_visibility_from_review_status`
unfoldable pub set_visibility_from_review_status :
    PackageListing → VisibilityFlags → VisibilityFlags
set_visibility_from_review_status l v =
    let hide = λ (f : VisibilityFlags). record f { public_detail = false; public_list = false } in
    let v' : VisibilityFlags = if is_rejected l then hide v else v in
    if is_waiting_for_approval l then hide v' else v'

-- Whether a listing of a package is in `PackageListingQueryset.active()`, in `.approved()`, and in
-- `.filter_by_community_approval_rule()`
unfoldable pub in_active : Package → Bool
in_active p = p.is_active && any (λ (v : PackageVersion). v.is_active) p.versions

unfoldable pub in_approved : PackageListing → Bool
in_approved l = elim l.review_status [ approved ↦ true | _ ↦ false ]

unfoldable pub in_approval_rule : PackageListing → Bool
in_approval_rule l =
    elim l.review_status [ rejected ↦ false | _ ↦ true ]
    && not (
        l.community.require_package_listing_approval
        && elim l.review_status [ approved ↦ false | _ ↦ true ])

-- Whether a listing is in `get_package_listing_base_queryset(community_identifier)` of
-- repository/cache.py
unfoldable pub in_base_queryset : Text → Package → PackageListing → Bool
unfolding in_active in_approval_rule
in_base_queryset community_identifier p l =
    in_active p && (in_approval_rule l && text_eq l.community.identifier community_identifier)
