-- ===== src/Listing/Review.antt =====
-- `request_review`, `reject` and `approve` of community/models/package_listing.py and the services of
-- api/cyberstorm/services/package_listing.py, as steps of a listing.
use thunderstore.Prelude.{
  ◌≡◌, refl, true, false, Option, none, some, List, [], ◌∷◌, ◌++◌, arith, is_ok, ok, Text,
}
use thunderstore.Package.{PackageListing, Package, is_listing_unavailable, is_unavailable}
use thunderstore.Listing.{
  AuditEvent, clear_review_request, rejection_message, reject, approve, in_active, audit_rejected,
  text_or_empty, get_has_perms, ensure_can_be_viewed_by_user, can_be_viewed_by_user,
}
use thunderstore.Community.{Community, can_moderate_packages, rejected}
use thunderstore.Permissions.{User, validate_user}
use thunderstore.Listing.Services.{
  reject_package_listing, approve_package_listing, unlist_package_listing,
}
use thunderstore.Names.{is_nil}
use thunderstore.Team.{Team, Db}

-- The rejection of a listing by a user succeeds exactly for those who may moderate packages of its
-- community.
pub reject_package_listing-eq :
    (agent : User) (reason : Text) (notes : Option Text) (l : PackageListing)
    → is_ok (reject_package_listing agent reason notes l)
      ≡ can_moderate_packages l.community (some agent)
unfolding reject_package_listing reject
reject_package_listing-eq agent reason notes l = ground arith

pub approve_package_listing-eq :
    (agent : User) (notes : Option Text) (l : PackageListing)
    → is_ok (approve_package_listing agent notes l) ≡ can_moderate_packages l.community (some agent)
unfolding approve_package_listing approve
approve_package_listing-eq agent notes l = ground arith

-- The message that is logged for a reason and notes: the one that is not empty, or both with an empty
-- line between.
pub record IsMessage (reason notes message : Text) : Type 0 where
  pub no_reason : reason ≡ [] → message ≡ notes
  pub no_notes : notes ≡ [] → message ≡ reason
  pub both : ¬ (reason ≡ []) → ¬ (notes ≡ []) → message ≡ reason ++ (10 ∷ 10 ∷ notes)

rejection_message-IsMessage :
    (reason : Text) (notes : Option Text)
    → IsMessage reason (text_or_empty notes) (rejection_message reason notes)
unfolding rejection_message is_nil
rejection_message-IsMessage [] notes = record {
  no_reason = λ e. refl;
  no_notes = λ e. e;
  both = λ r. absurd (r refl);
}
rejection_message-IsMessage (c ∷ r) none = record {
  no_reason = λ e. e;
  no_notes = λ e. refl;
  both = λ r n. absurd (n refl);
}
rejection_message-IsMessage (c ∷ r) (some []) = record {
  no_reason = λ e. e;
  no_notes = λ e. refl;
  both = λ r n. absurd (n refl);
}
rejection_message-IsMessage (c ∷ r) (some (d ∷ n)) = record {
  no_reason = λ e. cc;
  no_notes = λ e. cc;
  both = λ r n. refl;
}

-- What a rejection leaves: who may do it, what it changes, what it keeps, and what is logged.
pub record IsRejection (agent : User) (reason : Text) (notes : Option Text) (l l' : PackageListing)
    (events : List AuditEvent) : Type 0 where
  pub by_moderator : can_moderate_packages l.community (some agent) ≡ true
  pub status : l'.review_status ≡ rejected
  pub reason_kept : l'.rejection_reason ≡ some reason
  pub noted : l'.notes ≡ elim notes as (λ o. Option Text) [ some n ↦ some n | none ↦ l.notes ]
  pub settled : l'.is_review_requested ≡ false
  pub hidden : is_listing_unavailable l' ≡ true
  pub not_viewable :
      (db : Db) (owner_team : Team) → can_be_viewed_by_user db owner_team l' none ≡ false
  pub key : l'.pk ≡ l.pk
  pub place : l'.community ≡ l.community
  pub categories : l'.categories ≡ l.categories
  pub nsfw_content : l'.has_nsfw_content ≡ l.has_nsfw_content
  pub visibility : l'.visibility ≡ l.visibility
  pub logged :
      (message : Text) × IsMessage reason (text_or_empty notes) message
      × (events
          ≡ (record {
            action = audit_rejected;
            user_id = some agent.pk;
            community_id = l.community.pk;
            message = some message;
          })
            ∷ [])

-- A listing that a user has rejected was rejected by one who may moderate its community's packages, has
-- that status and that reason, the notes given or those before, no open request for a review, is
-- unavailable, and is not shown to visitors; all its other fields are as before, and one event is
-- logged that names the user and the community, with the reason and the notes.
pub reject_package_listing-IsRejection :
    (agent : User) (reason : Text) (notes : Option Text) (l l' : PackageListing)
    (events : List AuditEvent)
    → reject_package_listing agent reason notes l ≡ ok (l', events)
    → IsRejection agent reason notes l l' events
unfolding reject_package_listing reject clear_review_request is_listing_unavailable
    ensure_can_be_viewed_by_user get_has_perms
reject_package_listing-IsRejection agent reason notes l l' events h = record {
  by_moderator = ground arith;
  status = ground arith;
  reason_kept = ground arith;
  noted = ground arith;
  settled = ground arith;
  hidden = ground arith;
  not_viewable = λ db team. ground arith;
  key = ground arith;
  place = ground arith;
  categories = ground arith;
  nsfw_content = ground arith;
  visibility = ground arith;
  logged = (rejection_message reason notes, rejection_message-IsMessage reason notes, ground arith);
}

-- A listing that a user has approved is available, whatever the community's approval rule, has no
-- open request for a review, and keeps its reason for an earlier rejection, its community and its
-- categories.
pub approve_package_listing-available :
    (agent : User) (notes : Option Text) (l l' : PackageListing) (events : List AuditEvent)
    → approve_package_listing agent notes l ≡ ok (l', events)
    → (is_listing_unavailable l' ≡ false)
      × (l'.is_review_requested ≡ false)
      × (l'.rejection_reason ≡ l.rejection_reason)
      × (l'.community ≡ l.community)
      × (l'.categories ≡ l.categories)
unfolding approve_package_listing approve clear_review_request is_listing_unavailable
approve_package_listing-available agent notes l l' events h = ground arith

-- An unlisting that succeeds was a superuser's, makes the package unavailable in every community,
-- and takes it out of the list of active packages, whatever its listings are.
pub unlist_package_listing-is_unavailable :
    (agent : User) (p p' : Package) (c : Community)
    → unlist_package_listing agent p ≡ ok p'
    → (agent.is_superuser ≡ true) × (is_unavailable p' c ≡ true) × (in_active p' ≡ false)
unfolding unlist_package_listing is_unavailable in_active validate_user
unlist_package_listing-is_unavailable agent p p' c h = ground arith
