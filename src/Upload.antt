-- ===== src/Upload.antt =====
-- usermedia/s3_upload.py and usermedia/models/usermedia.py: a file that a user uploads in parts. The
-- object store is a parameter: what it answers to each call. What is written before an error stays
-- written, so each operation returns the stored row beside its result.
pub mod Parts
pub mod Lifecycle
use thunderstore.Prelude.{
  ℕ, zero, suc, ◌+◌, ◌-◌, ◌*◌, ◌/◌, min, String, Bool, true, false, not, ◌&&◌, ◌||◌, Option, none,
  some, List, [], ◌∷◌, ◌++◌, ◌==◌, ltb, leb, ◌==ℕ◌, if◌then◌else◌, any, select, Result, ◌>>=◌, ◌>>◌,
  raise_if, ok, err, Text, codes, text_eq, join, sort_by,
}
use thunderstore.Names.{is_nil}
use thunderstore.Sanitize.{sanitize_text, sanitize_filepath}

-- UserMediaStatus
pub data UploadStatus : Type 0 where
  initial upload_created upload_error upload_complete upload_aborted : UploadStatus

-- What the operations raise; `client_error` has the code of botocore's ClientError.
pub data UploadError : Type 0 where
  bucket_name_missing upload_too_large upload_too_small upload_denied : UploadError
  invalid_upload_state in_transaction file_key_changed upload_not_expired : UploadError
  client_error : String → UploadError
  other_error : UploadError

pub record UserMedia : Type 0 where
  -- the key of the user who owns it
  pub owner : Option ℕ
  pub filename : Text
  pub key : Text
  pub size : ℕ
  pub uuid : Text
  pub prefix : Option Text
  pub expiry : Option ℕ
  pub status : UploadStatus
  pub upload_id : Option Text

pub record Part : Type 0 where
  pub part_number : ℕ
  pub url : Text
  pub offset : ℕ
  pub length : ℕ

pub record CompletedPart : Type 0 where
  pub number : ℕ
  pub etag : Text

-- The answers of the object store's client.
pub record S3Client : Type 0 where
  pub create_multipart_upload : Text → Result UploadError Text
  pub presigned_url : Text → Option Text → ℕ → ℕ → Text
  pub complete_multipart_upload : Text → Option Text → List CompletedPart → Result UploadError Text
  -- `head_object(...)["ContentLength"]`
  pub head_object : Text → Result UploadError ℕ
  pub abort_multipart_upload : Text → Option Text → Result UploadError (Unit {0})
  pub delete_object : Text → Result UploadError (Unit {0})
  pub download : Text → Result UploadError Text

-- The settings, with the maximum that `MAX_UPLOAD_SIZE` is made of in bytes
pub record UploadSettings : Type 0 where
  pub bucket_name : Text
  pub max_upload_size : ℕ
  pub location : Option Text
  pub disable_transaction_checks : Bool

abbrev pub min_upload_size : ℕ
min_upload_size = 1

abbrev pub upload_part_size : ℕ
upload_part_size = 1024 * 1024 * 50

abbrev pub eq_key : Option ℕ → Option ℕ → Bool
eq_key none none = true
eq_key (some a) (some b) = a ==ℕ b
eq_key none (some b) = false
eq_key (some a) none = false

-- `can_user_write`: `user == self.owner`, where both may be missing
abbrev pub can_user_write : Option ℕ → UserMedia → Bool
can_user_write user media = eq_key user media.owner

-- `has_expired` at a time
unfoldable pub media_has_expired : ℕ → UserMedia → Bool
media_has_expired now media = elim media.expiry [ none ↦ false | some t ↦ leb t now ]

-- `compute_key`: the parts that are not empty
unfoldable pub compute_key : Option Text → Text → Text → Text
compute_key prefix uuid filename =
    let p : Text = elim (sanitize_filepath prefix) [ none ↦ [] | some s ↦ s ] in
    join b'/' (
      select (λ s. not (is_nil s))
        (p ∷ codes "usermedia" ∷ (uuid ++ b'-' ∷ sanitize_text filename) ∷ []))

-- `UserMedia.create_upload`
unfoldable pub new_media :
    UploadSettings → Option ℕ → Text → Text → ℕ → Option ℕ → Result UploadError UserMedia
new_media settings user uuid filename size expiry = do
  raise_if (ltb settings.max_upload_size size) upload_too_large
  raise_if (ltb size min_upload_size) upload_too_small
  let prefix = sanitize_filepath settings.location
  let name = sanitize_text filename
  ok (record {
    owner = user;
    filename = name;
    key = compute_key prefix uuid name;
    size = size;
    uuid = uuid;
    prefix = prefix;
    expiry = expiry;
    status = initial;
    upload_id = none;
  })

-- `create_upload`
unfoldable pub create_upload :
    UploadSettings → S3Client → Option ℕ → Text → Text → ℕ → Option ℕ → Result UploadError UserMedia
unfolding new_media
create_upload settings client user uuid filename size expiry = do
  raise_if (is_nil settings.bucket_name) bucket_name_missing
  media ← new_media settings user uuid filename size expiry
  id ← client.create_multipart_upload media.key
  ok (record media { upload_id = some id; status = upload_created })

-- The guards that the operations begin with
abbrev pub is_status : UploadStatus → UploadStatus → Bool
is_status initial initial = true
is_status upload_created upload_created = true
is_status upload_error upload_error = true
is_status upload_complete upload_complete = true
is_status upload_aborted upload_aborted = true
is_status _ _ = false

unfoldable pub check_access :
    UploadSettings → Option ℕ → UserMedia → List UploadStatus → Result UploadError (Unit {0})
check_access settings user media valid_states = do
  raise_if (is_nil settings.bucket_name) bucket_name_missing
  raise_if (not (can_user_write user media)) upload_denied
  raise_if (not (any (is_status media.status) valid_states)) invalid_upload_state

-- `-(-size // UPLOAD_PART_SIZE)`
unfoldable pub part_count : ℕ → ℕ → ℕ
part_count part_size size = (size + part_size - 1) / part_size

-- The part after `n` others
unfoldable pub part_at : S3Client → UserMedia → ℕ → ℕ → Part
part_at client media part_size n =
    let length = min part_size (media.size - n * part_size) in
    record {
      part_number = suc n;
      url = client.presigned_url media.key media.upload_id (suc n) length;
      offset = n * part_size;
      length = length;
    }

-- The loop over the part numbers: `n` parts are made, and `k` are left.
unfoldable pub parts_from : S3Client → UserMedia → ℕ → ℕ → ℕ → List Part
parts_from client media part_size n zero = []
parts_from client media part_size n (suc k) =
    part_at client media part_size n ∷ parts_from client media part_size (suc n) k

unfoldable pub upload_parts : S3Client → UserMedia → ℕ → List Part
unfolding parts_from
upload_parts client media part_size =
    parts_from client media part_size 0 (part_count part_size media.size)

-- `get_signed_upload_urls`
unfoldable pub get_signed_upload_urls :
    UploadSettings → S3Client → Option ℕ → UserMedia → Result UploadError (List Part)
unfolding check_access
get_signed_upload_urls settings client user media = do
  check_access settings user media (upload_created ∷ [])
  ok (upload_parts client media upload_part_size)

-- The calls to the store in `finalize_upload`: the key is the same, and the size is asked for.
unfoldable pub complete_parts : S3Client → UserMedia → List CompletedPart → Result UploadError ℕ
complete_parts client media parts = do
  key ←
      client.complete_multipart_upload media.key media.upload_id
        (sort_by (λ (a b : CompletedPart). leb a.number b.number) parts)
  raise_if (not (text_eq key media.key)) file_key_changed
  client.head_object media.key

-- What the handler of `finalize_upload` catches: `(ClientError, S3FileKeyChangedException)`
abbrev pub is_caught : UploadError → Bool
is_caught (client_error code) = true
is_caught file_key_changed = true
is_caught _ = false

unfoldable pub finalize_upload :
    UploadSettings
    → S3Client
    → Bool
    → Option ℕ
    → List CompletedPart
    → UserMedia
    → UserMedia × Result UploadError (Unit {0})
unfolding check_access
finalize_upload settings client in_atomic_block user parts media =
    let guards : Result UploadError (Unit {0}) = (do
      check_access settings user media (upload_created ∷ [])
      raise_if (in_atomic_block && not settings.disable_transaction_checks) in_transaction) in
    elim guards [
      | err e ↦ (media, err e)
      | ok _ ↦ elim (complete_parts client media parts) [
        | ok size ↦ (record media { size = size; status = upload_complete }, ok tt)
        | err e ↦ (if is_caught e then record media { status = upload_error } else media, err e)
      ]
    ]

unfoldable pub abort_upload :
    UploadSettings → S3Client → Option ℕ → UserMedia → UserMedia × Result UploadError (Unit {0})
unfolding check_access
abort_upload settings client user media =
    elim (check_access settings user media (upload_created ∷ upload_aborted ∷ upload_error ∷ [])) [
      | err e ↦ (media, err e)
      | ok _ ↦ elim (client.abort_multipart_upload media.key media.upload_id) [
        | ok _ ↦ (record media { status = upload_aborted }, ok tt)
        | err e ↦ (media, err e)
      ]
    ]

-- `download_file`: the bytes of the file
unfoldable pub download_file :
    UploadSettings → S3Client → Option ℕ → UserMedia → Result UploadError Text
unfolding check_access
download_file settings client user media = do
  check_access settings user media (upload_complete ∷ [])
  client.download media.key

unfoldable pub ensure_multipart_upload_aborted :
    S3Client → UserMedia → Result UploadError (Unit {0})
ensure_multipart_upload_aborted client media = elim media.upload_id [
  | none ↦ ok tt
  | some id ↦ elim (client.abort_multipart_upload media.key (some id)) [
    | ok _ ↦ ok tt
    | err (client_error code) ↦ if code == "NoSuchUpload" then ok tt else err (client_error code)
    | err e ↦ err e
  ]
]

-- `cleanup_expired_upload`: the row is gone if this succeeds, and is kept if it raises, since the
-- deletion is rolled back.
unfoldable pub cleanup_expired_upload :
    UploadSettings → S3Client → ℕ → UserMedia → Option UserMedia × Result UploadError (Unit {0})
unfolding media_has_expired ensure_multipart_upload_aborted
cleanup_expired_upload settings client now media =
    let cleanup : Result UploadError (Unit {0}) = (do
      raise_if (is_nil settings.bucket_name) bucket_name_missing
      raise_if (not (media_has_expired now media)) upload_not_expired
      if is_status media.status upload_aborted || is_status media.status upload_complete
          then ok tt
          else ensure_multipart_upload_aborted client media
      if is_status media.status upload_complete then client.delete_object media.key else ok tt) in
    elim cleanup [ ok _ ↦ (none, ok tt) | err e ↦ (some media, err e) ]
