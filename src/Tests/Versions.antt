-- ===== src/Tests/Versions.antt =====
-- The theorems on enumerations, totals and reviews of versions at concrete inputs.
use thunderstore.Prelude.{
  ℕ, ◌≡◌, refl, Bool, true, false, ◌&&◌, none, some, List, [], ◌∷◌, map, arith, select, codes,
  decimal, insert_by, sort_by, comes_first, order_by,
}
use thunderstore.Package.Chunks.{VersionRow, chunked_enumerate, enumeration_order}
use thunderstore.Package.Chunks.Enumerated.{
  IsAligned, chunked_enumerate-all, chunked_enumerate-skips,
}
use thunderstore.Webhooks.{mod_release, Webhook, announce_release}
use thunderstore.Names.{is_nil}
use thunderstore.Package.{PackageListing, Package}
use thunderstore.Visibility.{create_public}
use thunderstore.Community.{ReviewStatus}
use thunderstore.Tests.Samples.{crew, mod_version, valley}
use thunderstore.Catalog.Totals.{update_community_aggregated_fields}
use thunderstore.Catalog.Totals.Counted.{with_totals, update_community_aggregated_fields-totals}
use thunderstore.Webhooks.Release.{is_wanted, announce_release-urls}
use thunderstore.Package.Listings.{new_listing}
use thunderstore.Package.Downloads.{
  Download, DownloadEvent, get_log_key, expiry_of, set_nx, can_log_download_event,
  log_download_event, log_each,
}
use thunderstore.Package.Downloads.Limited.{log_download_event-once}
use thunderstore.Catalog.Totals.{CommunityRow}
use thunderstore.Catalog.{last_updated}
use thunderstore.Catalog.Frontend.{FrontendRow, FrontendRequest, community_packages}
use thunderstore.Catalog.Frontend.Listed.{
  asked_order, is_visible, is_found, is_included, is_left, community_packages-IsListed,
}

abbrev row : ℕ → ℕ → VersionRow
row id date = record { id = id; date_created = date }

abbrev uploads : List VersionRow
uploads = row 3 20 ∷ row 1 10 ∷ row 2 10 ∷ []

in_order : order_by enumeration_order uploads ≡ row 1 10 ∷ row 2 10 ∷ row 3 20 ∷ []
unfolding order_by sort_by insert_by comes_first
in_order = refl

uploads-IsAligned : IsAligned (order_by enumeration_order uploads)
uploads-IsAligned = rw in_order (
  ((omega arith, omega arith), ((omega arith, omega arith), tt)),
  (((omega arith, omega arith), tt), (tt, tt)),
)

chunked_enumerate-all_example :
    chunked_enumerate 4 2 uploads ≡ some (order_by enumeration_order uploads)
chunked_enumerate-all_example =
    chunked_enumerate-all 4 1 uploads uploads-IsAligned (rw in_order (omega arith))

chunked_enumerate-skips_example :
    chunked_enumerate 2 1 (row 2 10 ∷ row 1 20 ∷ []) ≡ some (row 2 10 ∷ [])
chunked_enumerate-skips_example =
    chunked_enumerate-skips 0 (row 2 10) (row 1 20) (omega arith) (omega arith)

abbrev shown_listing : PackageListing
shown_listing = record (new_listing 70 valley) { review_status = ReviewStatus.approved }

abbrev shown_package : Package
shown_package = record {
  pk = 50;
  owner = crew;
  name = codes "Mod";
  is_active = true;
  is_deprecated = false;
  date_updated = 1000;
  latest = some 60;
  visibility = some create_public;
  versions = mod_version 60 "1.2.0" true ∷ [];
  listings = shown_listing ∷ [];
}

abbrev community_rows : List CommunityRow
community_rows = record { community = valley; aggregated_fields = none } ∷ []

update_community_aggregated_fields-totals_example :
    update_community_aggregated_fields (shown_package ∷ []) community_rows
    ≡ some (map (with_totals (shown_package ∷ [])) community_rows)
update_community_aggregated_fields-totals_example =
    update_community_aggregated_fields-totals (shown_package ∷ []) community_rows ((refl, tt), tt)

abbrev hook : Bool → Webhook
hook nsfw = record {
  webhook_url = codes "https://a.example";
  webhook_type = codes mod_release;
  community = valley;
  is_active = true;
  exclude_categories = 9 ∷ [];
  require_categories = [];
  allow_nsfw = nsfw;
}

abbrev hooks : List Webhook
hooks = hook true ∷ record (hook false) { is_active = false } ∷ []

announce_release-urls_example :
    map
      (λ post. post.0)
      (announce_release
        (λ v. v.name)
        (λ v. v.name)
        (λ l. [])
        decimal
        (codes "https://b.example")
        hooks
        shown_package
        (mod_version 60 "1.2.0" true))
    ≡ map (λ (w : Webhook). w.webhook_url) (select (is_wanted shown_package) hooks)
announce_release-urls_example =
    announce_release-urls (λ v. v.name) (λ v. v.name) (λ l. []) decimal (codes "https://b.example")
      shown_package (mod_version 60 "1.2.0" true) hooks

abbrev download_at : ℕ → Download
download_at time = record { version_id = 60; client_ip = some (codes "10.0.0.1"); time = time }

first_is_counted :
    (log_download_event true 600 (download_at 1000) []).1
    ≡ some (record { version_id = 60; timestamp = 1000 })
unfolding log_download_event can_log_download_event set_nx expiry_of get_log_key is_nil
first_is_counted = refl

log_download_event-once_example :
    (log_download_event true 600 (download_at 1599) (
      log_each true 600
        (download_at 1200 ∷ [])
        (log_download_event true 600 (download_at 1000) []).0)).1
    ≡ none
log_download_event-once_example =
    log_download_event-once true 600 (download_at 1000) (download_at 1599)
      (record { version_id = 60; timestamp = 1000 }) (download_at 1200 ∷ []) [] first_is_counted
      refl refl (omega arith, tt) (omega arith)

abbrev queued : List DownloadEvent
queued = record { version_id = 60; timestamp = 5 } ∷ record { version_id = 60; timestamp = 6 } ∷ []

abbrev nsfw_elsewhere : PackageListing
nsfw_elsewhere = record (new_listing 71 (record valley { pk = 41 })) { has_nsfw_content = true }

abbrev frontend_rows : List FrontendRow
frontend_rows =
    record {
      package_row = shown_package;
      is_pinned = false;
      date_created = 10;
      description = codes "a mod";
    }
    ∷ record {
      package_row = record shown_package {
        pk = 51;
        listings = shown_listing ∷ nsfw_elsewhere ∷ [];
      };
      is_pinned = true;
      date_created = 20;
      description = codes "another";
    }
    ∷ []

abbrev frontend_request : FrontendRequest
frontend_request = record {
  deprecated = false;
  nsfw = false;
  included_categories = [];
  excluded_categories = codes "tools" ∷ [];
  section = none;
  q = some (codes "mod");
  ordering = last_updated;
}

community_packages-IsListed_example :
    community_packages (λ k. codes "mods") (λ s t. true) [] [] valley frontend_request frontend_rows
    ≡ some (
        order_by (asked_order [] last_updated) (
          select
            (λ r.
              ((is_visible valley frontend_request r && is_included (λ k. codes "mods") [] r)
                && is_left (λ k. codes "mods") (codes "tools" ∷ []) r)
              && is_found (λ s t. true) (some (codes "mod")) r)
            frontend_rows))
community_packages-IsListed_example =
    community_packages-IsListed (λ k. codes "mods") (λ s t. true) [] [] valley frontend_request
      frontend_rows refl
