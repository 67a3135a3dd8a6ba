-- ===== src/Tests/Uploads.antt =====
-- The theorems on uploads at concrete inputs.
use thunderstore.Prelude.{◌≡◌, refl, false, none, some, [], ◌∷◌, ok, codes, text_eq}
use thunderstore.Upload.{
  UserMedia, Part, S3Client, UploadSettings, upload_part_size, get_signed_upload_urls,
  finalize_upload, abort_upload, download_file, upload_created, upload_complete, part_count,
  part_at, upload_parts, complete_parts,
}
use thunderstore.Upload.Lifecycle.{
  Uploads-complete, download_file-finalize_upload, UploadStep, Uploads,
}
use thunderstore.Upload.Parts.{Covers, NumberedFrom, get_signed_upload_urls-Covers}
use thunderstore.Names.{is_nil}

-- A store that accepts everything and says that each file has 7 bytes
abbrev client : S3Client
client = record {
  create_multipart_upload = λ key. ok (codes "id");
  presigned_url = λ key id n size. key;
  complete_multipart_upload = λ key id parts. ok key;
  head_object = λ key. ok 7;
  abort_multipart_upload = λ key id. ok tt;
  delete_object = λ key. ok tt;
  download = λ key. ok (codes "content");
}

abbrev settings : UploadSettings
settings = record {
  bucket_name = codes "bucket";
  max_upload_size = 1024;
  location = none;
  disable_transaction_checks = false;
}

abbrev media : UserMedia
media = record {
  owner = some 1;
  filename = codes "a.zip";
  key = codes "usermedia/a.zip";
  size = 9;
  uuid = codes "u";
  prefix = none;
  expiry = none;
  status = upload_created;
  upload_id = some (codes "id");
}

abbrev one_part : Part
one_part = record { part_number = 1; url = codes "usermedia/a.zip"; offset = 0; length = 9 }

sign : get_signed_upload_urls settings client (some 1) media ≡ ok (one_part ∷ [])
unfolding get_signed_upload_urls is_nil upload_parts part_count part_at
sign = refl

get_signed_upload_urls-Covers_example :
    NumberedFrom 1 (one_part ∷ []) × Covers upload_part_size 0 (one_part ∷ []) media.size
get_signed_upload_urls-Covers_example =
    get_signed_upload_urls-Covers settings client (some 1) media (one_part ∷ []) sign

abbrev completed : UserMedia
completed = record media { size = 7; status = upload_complete }

finalize : finalize_upload settings client false (some 1) [] media ≡ (completed, ok tt)
unfolding finalize_upload is_nil complete_parts text_eq
finalize = refl

download_file-finalize_upload_example :
    (download_file settings client (some 1) completed ≡ client.download media.key)
    × (client.head_object media.key ≡ ok completed.size)
download_file-finalize_upload_example =
    download_file-finalize_upload settings client false (some 1) [] media completed finalize

abort_completed : (abort_upload settings client (some 1) completed).0 ≡ completed
unfolding abort_upload is_nil
abort_completed = refl

Uploads-complete_example : completed ≡ completed
Uploads-complete_example =
    Uploads-complete settings completed refl
      (Uploads.next Uploads.here (UploadStep.aborted client (some 1) completed abort_completed))
