-- ===== src/Lib.antt =====
-- Thunderstore is a Django application that publishes packages (mods for games) in communities. This
-- library models the core of its server, django/thunderstore, in shallow embedding: pure functions are
-- functions by clauses, rows of the database are records, tables are lists of rows, and code that raises
-- returns a `Result`.
--
-- The parts and how they interact:
-- Teams own packages; a team's members have roles, and every service asks the team's checks first. A
-- package has versions, of which one is the latest, and a listing in each community that it is
-- published in. Moderators review listings, and the review decides where a listing is shown. A user
-- uploads an archive in parts to an object store, submits it, and a background task runs the upload
-- form on it: the archive, its manifest and its texts are checked, and then the version is stored
-- with a tree of the archive's files. The package lists that clients read are written in chunks; those
-- that visitors search are filtered and ordered for each request. Communities and their categories come
-- from a schema that is imported.
--
-- The files, with the code that they model (paths below django/thunderstore):
-- Prelude: tests on numbers, lists, results, texts as code points, decimal numerals and sorting.
-- Names: the expressions of repository/consts.py and `strip_unsupported_characters`.
-- Permissions: permissions/utils.py, core/exceptions.py and `check_validity` of core/utils.py.
-- Version and Reference: Python's `StrictVersion`, repository/package_reference.py, and the
-- validators and scans of repository/validators.py and repository/utils.py.
-- Team: repository/models/team.py and namespace.py, with api/cyberstorm/services/team.py. `Db` has the
-- tables; a service that raises leaves them as they were, since it runs in a transaction. Team.Accounts
-- has the service accounts of account/models/service_account.py, and Team.Forms the forms of
-- repository/forms/team.py.
-- Visibility: permissions/models/visibility.py and permissions/mixins.py.
-- Community: community/models/community.py.
-- Package: repository/models/package.py and package_version.py, with the signals on versions and the
-- services of api/cyberstorm/services/package.py, and repository/models/package_rating.py.
-- Listing: community/models/package_listing.py and api/cyberstorm/services/package_listing.py.
-- Catalog: the package lists of api/cyberstorm/views/package_listing_list.py, and in Catalog.Pages those
-- of the web pages, repository/views/package/list.py; the pages of a list are left to the paginator.
-- Profiles: modpacks/models/legacyprofile.py, against a specification without the cache.
-- Schema: schema_import/, the import of communities and installers, with the times of the saves of the
-- rows that it saves again.
-- Catalog.Totals: CommunityAggregatedFields of community/models/community.py and community/tasks.py.
-- Package.Chunks, Package.Downloads and Package.Review: the enumeration, the counting of downloads and the
-- review of versions in repository/models/package_version.py, with repository/tasks/downloads.py.
-- Catalog.Frontend: the package list of frontend/api/experimental/views/community_package_list.py.
-- SchemaServer: schema_server/models/.
-- Webhooks: webhooks/models/release.py, and the announcement of a release.
-- WebCache: cache/cache.py, cache/enums.py and cache/tasks.py, on the caches of core/settings.py; whether
-- the lock is taken is an argument.
-- Flags: account/models/user_flag.py.
-- Wiki: wiki/models/wiki.py and repository/models/wiki.py.
-- Reports: ts_reports/models/ and `report_package_listing`.
-- Sanitize: the sanitizers of core/utils.py.
-- Upload: usermedia/s3_upload.py and usermedia/models/usermedia.py.
-- Zip, Manifest and Form: repository/validation/, repository/package_manifest.py,
-- repository/serializer_fields.py and repository/package_upload.py.
-- Storage: storage/models/ and repository/filetree.py.
-- Cache: the chunked lists of repository/models/cache.py, in Cache.Files its two older caches, and
-- utils/batch.py.
-- Submission: repository/models/submission.py and repository/tasks/submission.py.
-- Tests: the theorems at concrete inputs.
--
-- Parameters: what the program leaves to others is an argument of the definitions that use it: the
-- database's `iexact`, `str.lower`, `URLValidator`, the object store's client, `zipfile`, the readers
-- of JSON, images and UTF-8, SHA-256 and gzip, and the tokens that are drawn. Times and keys are
-- natural numbers.
--
-- Bounds: numbers are Python's, without a bound. The loops are structural recursions on lists or on a
-- count, with three exceptions. `decimal` runs on fuel, which is the number itself plus one, more than
-- its digits. `pick_token` draws tokens until one is not taken, on fuel that the caller gives: its end
-- is proved where one of that many draws is not taken. `enumerate_pages` reads pages on fuel that the
-- caller gives, of which each page takes one.
--
-- Not modelled: HTTP views and their serializers beside the package lists, pages of results, addresses,
-- the mixins of cached views, social login, most settings, plugins, the times of creation and of the
-- last save where a component's rows do not name them, and the scripts of the browser. Messages of
-- exceptions are shortened to their fixed words. An attribute that caches a property is the value of the
-- property.
pub mod Prelude
pub mod Names
pub mod Permissions
pub mod Version
pub mod Reference
pub mod Team
pub mod Visibility
pub mod Community
pub mod Package
pub mod Listing
pub mod Catalog
pub mod Sanitize
pub mod Upload
pub mod Webhooks
pub mod WebCache
pub mod Wiki
pub mod SchemaServer
pub mod Reports
pub mod Flags
pub mod Zip
pub mod Storage
pub mod Cache
pub mod Manifest
pub mod Form
pub mod Submission
pub mod Profiles
pub mod Schema
pub mod Tests
