-- ===== src/Tests/Listings.antt =====
-- The theorems on listings and communities at concrete inputs.
use thunderstore.Prelude.{
  ◌≡◌, refl, true, false, not, ◌&&◌, ◌||◌, Option, none, some, List, [], ◌∷◌, ok, Text, codes,
  text_eq, sort_by,
}
use thunderstore.Package.{
  PackageListing, Package, get_package_listing, is_listing_unavailable, deactivate,
}
use thunderstore.Visibility.{create_public}
use thunderstore.Listing.{
  can_be_viewed_by_user, in_approval_rule, AuditAction, AuditEvent, audit_approved, audit_rejected,
  clear_review_request, reject, approve,
}
use thunderstore.Community.{
  ReviewStatus, can_moderate_packages, rejected, ensure_user_can_moderate_packages,
}
use thunderstore.Tests.Samples.{bob, crew, tables, valley, admin}
use thunderstore.Team.Checks.{can_user_access}
use thunderstore.Community.Sites.{main_site}
use thunderstore.Listing.View.{can_be_viewed-anonymous, can_be_viewed-eq}
use thunderstore.Package.Listings.{new_listing}
use thunderstore.Listing.Services.{
  reject_package_listing, approve_package_listing, unlist_package_listing,
}
use thunderstore.Listing.Review.{IsRejection, reject_package_listing-IsRejection}
use thunderstore.Permissions.{validate_user}
use thunderstore.Names.{is_nil}

abbrev listing : PackageListing
listing = record (new_listing 70 valley) { is_review_requested = true }

abbrev listed : Package
listed = record {
  pk = 50;
  owner = crew;
  name = codes "Mod";
  is_active = true;
  is_deprecated = false;
  date_updated = 1000;
  latest = none;
  visibility = some create_public;
  versions = [];
  listings = listing ∷ [];
}

can_be_viewed-anonymous_example :
    (can_be_viewed_by_user tables crew listing none ≡ in_approval_rule listing)
    × (in_approval_rule listing ≡ not (is_listing_unavailable listing))
can_be_viewed-anonymous_example = can_be_viewed-anonymous tables crew listing

can_be_viewed-eq_example : can_be_viewed_by_user tables crew listing (some bob) ≡ (
    can_be_viewed_by_user tables crew listing none
    || (bob.is_authenticated
        && (can_moderate_packages listing.community (some bob)
            || can_user_access tables crew (some bob))))
can_be_viewed-eq_example = can_be_viewed-eq tables crew listing bob

get_listing : get_package_listing listed valley ≡ some listing
unfolding get_package_listing
get_listing = refl

abbrev approved_listing : PackageListing
approved_listing = record listing {
  is_review_requested = false;
  review_status = ReviewStatus.approved;
  notes = some (codes "good");
}

abbrev rejected_listing : PackageListing
rejected_listing = record listing {
  is_review_requested = false;
  review_status = rejected;
  rejection_reason = some (codes "spam");
  notes = none;
}

main_site_of_valley :
    main_site (codes "a.example") valley ≡ some (record { pk = 4; domain = codes "a.example" })
unfolding main_site sort_by text_eq
main_site_of_valley = refl

abbrev bob_event : AuditAction → Option Text → AuditEvent
bob_event action message = record {
  action = action;
  user_id = some 2;
  community_id = 40;
  message = message;
}

abbrev rejection : List AuditEvent
rejection = bob_event audit_rejected (some (codes "spam")) ∷ []

reject_listing :
    reject_package_listing bob (codes "spam") none listing ≡ ok (rejected_listing, rejection)
unfolding reject_package_listing ensure_user_can_moderate_packages validate_user reject
    clear_review_request is_nil
reject_listing = refl

reject_package_listing-IsRejection_example :
    IsRejection bob (codes "spam") none listing rejected_listing rejection
reject_package_listing-IsRejection_example =
    reject_package_listing-IsRejection bob (codes "spam") none listing rejected_listing rejection
      reject_listing

abbrev approval : List AuditEvent
approval = bob_event audit_approved (some (codes "good")) ∷ []

approve_listing :
    approve_package_listing bob (some (codes "good")) listing ≡ ok (approved_listing, approval)
unfolding approve_package_listing ensure_user_can_moderate_packages validate_user approve
    clear_review_request is_nil
approve_listing = refl

unlist_listed : unlist_package_listing admin listed ≡ ok (deactivate listed)
unfolding unlist_package_listing validate_user
unlist_listed = refl
