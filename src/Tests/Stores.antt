-- ===== src/Tests/Stores.antt =====
-- The theorems on stored contents, package lists and submissions at concrete inputs.

use thunderstore.Prelude.{
  ℕ, String, ◌≡◌, refl, ◌≢◌, true, false, none, some, List, [], ◌∷◌, map, length, All, ok, Text,
  codes,
}
use thunderstore.Submission.{PackageSubmission, process_submission_idempotent, pending, task_failed}
use thunderstore.Upload.{UserMedia, upload_complete}
use thunderstore.Cache.{package_list_chunks, ChunkedPackageCache}
use thunderstore.Storage.{
  DataBlob, DataBlobReference, DataBlobGroup, Storage, group_entries, ArchiveEntry,
  create_file_tree_from_zip_data,
}
use thunderstore.Tests.Samples.{alice}
use thunderstore.Storage.Blobs.{IsDeduplicated}
use thunderstore.Storage.Trees.{archive_files, create_file_tree_from_zip_data-files}
use thunderstore.Cache.Chunks.{chunk_of, concatenated, Fits, package_list_chunks-Fits}
use thunderstore.Submission.Once.{process_submission_idempotent-again}
use thunderstore.Names.{is_nil}

-- Contents that are their own checksums
abbrev identity : Text → Text
identity s = s

abbrev blob : String → DataBlob
blob s = record { content = codes s; data_size = length (codes s); checksum_sha256 = codes s }

abbrev db : Storage
db = record { blobs = blob "x" ∷ []; references = [] }

db-IsDeduplicated : IsDeduplicated identity db.blobs
db-IsDeduplicated = ((refl, refl), tt, tt)

abbrev archive : List ArchiveEntry
archive =
    record { filename = codes "d/"; is_dir = true; content = [] }
    ∷ record { filename = codes "d/a"; is_dir = false; content = codes "x" }
    ∷ []

no_entries : group_entries (record { pk = 1; name = codes "tree"; is_complete = false }) db ≡ []
unfolding group_entries
no_entries = refl

create_file_tree_from_zip_data-files_example :
    (made : Storage × DataBlobGroup) × (create_file_tree_from_zip_data identity 1
        (codes "tree")
        archive
        db
      ≡ ok made)
    × (made.1.is_complete ≡ true)
    × IsDeduplicated identity made.0.blobs
    × (map (λ (r : DataBlobReference). (r.name, r.blob.content)) (group_entries made.1 made.0)
        ≡ archive_files archive)
create_file_tree_from_zip_data-files_example =
    create_file_tree_from_zip_data-files identity (λ a b e. e) 1 (codes "tree") archive db
      db-IsDeduplicated no_entries

package_list_chunks-Fits_example :
    (groups : List (List Text)) × (package_list_chunks 6 (codes "aa" ∷ codes "bb" ∷ codes "cc" ∷ [])
      ≡ map chunk_of groups)
    × (concatenated groups ≡ codes "aa" ∷ codes "bb" ∷ codes "cc" ∷ [])
    × All (Fits 6) groups
    × (groups ≢ [])
unfolding is_nil
package_list_chunks-Fits_example =
    package_list_chunks-Fits 6 (codes "aa" ∷ codes "bb" ∷ codes "cc" ∷ [])
      (refl, (refl, (refl, tt)))

abbrev keys : List ℕ
keys = 1 ∷ 2 ∷ 3 ∷ []

abbrev cache : ℕ → ChunkedPackageCache
cache created_at = record {
  community = 40;
  index = blob "x";
  chunks = 1;
  created_at = created_at;
  is_deleted = false;
}

abbrev upload_of_alice : UserMedia
upload_of_alice = record {
  owner = some 1;
  filename = codes "a.zip";
  key = codes "usermedia/a.zip";
  size = 9;
  uuid = codes "u";
  prefix = none;
  expiry = none;
  status = upload_complete;
  upload_id = none;
}

abbrev submission : PackageSubmission
submission = record {
  pk = 1;
  owner = alice;
  file = upload_of_alice;
  status = pending;
  datetime_scheduled = none;
  datetime_finished = none;
  datetime_polled = 0;
  form_errors = none;
  task_error = false;
  created_version = none;
}

process_first :
    (process_submission_idempotent (λ s. task_failed) (λ pk. false) 10 1 (submission ∷ [])).1 ≡ true
unfolding process_submission_idempotent
process_first = refl

process_submission_idempotent-again_example :
    process_submission_idempotent
      (λ s. task_failed)
      (λ pk. false)
      20
      1
      (process_submission_idempotent (λ s. task_failed) (λ pk. false) 10 1 (submission ∷ [])).0
    ≡ (
      (process_submission_idempotent (λ s. task_failed) (λ pk. false) 10 1 (submission ∷ [])).0,
      false,
    )
process_submission_idempotent-again_example =
    process_submission_idempotent-again (λ s. task_failed) (λ pk. false) (λ pk. false) 10 20 1
      (submission ∷ []) process_first
