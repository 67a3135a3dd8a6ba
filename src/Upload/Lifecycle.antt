-- ===== src/Upload/Lifecycle.antt =====
-- The states of an upload in usermedia/s3_upload.py.
use mathlib.Core.Path.{ap, ◌∙◌}
use thunderstore.Prelude.{
  ℕ, ◌≡◌, refl, subst, ◌⊎◌, inl, inr, Bool, false, Option, List, arith, Result-cases, ok,
}
use thunderstore.Upload.{
  UserMedia, CompletedPart, S3Client, UploadSettings, upload_created, upload_error, upload_complete,
  upload_aborted, finalize_upload, abort_upload, can_user_write, check_access, complete_parts,
  download_file,
}

module _ (settings : UploadSettings) where
  -- What can happen to a stored upload, whoever asks and whatever the store answers.
  pub data UploadStep (m : UserMedia) : UserMedia → Type 0 where
    finalized :
        (client : S3Client) (atomic : Bool) (user : Option ℕ) (parts : List CompletedPart)
        (m' : UserMedia)
        → (finalize_upload settings client atomic user parts m).0 ≡ m'
        → UploadStep m m'
    aborted :
        (client : S3Client) (user : Option ℕ) (m' : UserMedia)
        → (abort_upload settings client user m).0 ≡ m'
        → UploadStep m m'

  pub data Uploads (m : UserMedia) : UserMedia → Type 0 where
    here : Uploads m m
    next : {m' m'' : UserMedia} → Uploads m m' → UploadStep m' m'' → Uploads m m''

  -- What a step changes, by the state before it.
  abbrev pub Allowed : UserMedia → UserMedia → Type 0
  Allowed m m' =
      (m' ≡ m)
      ⊎ ((m.status ≡ upload_created) × ((m'.status ≡ upload_complete) ⊎ (m'.status ≡ upload_error)))
      ⊎ ((m'.status ≡ upload_aborted)
          × ((m.status ≡ upload_created)
              ⊎ ((m.status ≡ upload_aborted) ⊎ (m.status ≡ upload_error)))
          × (m'.size ≡ m.size))

  finalize-Allowed :
      (client : S3Client) (atomic : Bool) (user : Option ℕ) (parts : List CompletedPart)
      (m : UserMedia)
      → Allowed m (finalize_upload settings client atomic user parts m).0
  unfolding finalize_upload
  finalize-Allowed client atomic user parts m = ground arith

  abort-Allowed :
      (client : S3Client) (user : Option ℕ) (m : UserMedia)
      → Allowed m (abort_upload settings client user m).0
  unfolding abort_upload
  abort-Allowed client user m = ground arith

  UploadStep-Allowed : (m : UserMedia) {m' : UserMedia} → UploadStep m m' → Allowed m m'
  UploadStep-Allowed m (finalized client atomic user parts m' h) =
      subst (λ x. Allowed m x) h (finalize-Allowed client atomic user parts m)
  UploadStep-Allowed m (aborted client user m' h) =
      subst (λ x. Allowed m x) h (abort-Allowed client user m)

  complete_only : (m m' : UserMedia) → m.status ≡ upload_complete → Allowed m m' → m' ≡ m
  complete_only m m' complete allowed = ground arith

  -- A completed upload stays as it is, whatever requests to finalize or abort it follow, whoever
  -- makes them and whatever the store answers.
  pub Uploads-complete :
      (m : UserMedia) {m' : UserMedia} → m.status ≡ upload_complete → Uploads m m' → m' ≡ m
  Uploads-complete m complete here = refl
  Uploads-complete m complete (next {m' = k} {m'' = l} us s) =
      let before : k ≡ m = Uploads-complete m complete us in
      let unchanged =
        complete_only k l (ap UserMedia.status before ∙ complete) (UploadStep-Allowed k s) in
      unchanged ∙ before

  -- A user who does not own an upload cannot change it by finalizing or aborting it.
  pub finalize_upload-stranger :
      (client : S3Client) (atomic : Bool) (user : Option ℕ) (parts : List CompletedPart)
      (m : UserMedia)
      → can_user_write user m ≡ false
      → ((finalize_upload settings client atomic user parts m).0 ≡ m)
        × ((abort_upload settings client user m).0 ≡ m)
  unfolding finalize_upload abort_upload check_access
  finalize_upload-stranger client atomic user parts m h = ground arith

  complete_parts-head_object :
      (client : S3Client) (m : UserMedia) (parts : List CompletedPart) (size : ℕ)
      → complete_parts client m parts ≡ ok size
      → client.head_object m.key ≡ ok size
  unfolding complete_parts
  complete_parts-head_object client m parts size h = ground arith

  -- If an upload is finalized, its size is the one the store reports, and the user who did it can
  -- download what the store holds under its key.
  pub download_file-finalize_upload :
      (client : S3Client) (atomic : Bool) (user : Option ℕ) (parts : List CompletedPart)
      (m m' : UserMedia)
      → finalize_upload settings client atomic user parts m ≡ (m', ok tt)
      → (download_file settings client user m' ≡ client.download m.key)
        × (client.head_object m.key ≡ ok m'.size)
  unfolding finalize_upload check_access download_file
  download_file-finalize_upload client atomic user parts m m' h =
      elim (Result-cases (complete_parts client m parts)) [
        | inl (size, e) ↦
            let asked = complete_parts-head_object client m parts size e in ground arith
        | inr (x, e) ↦ ground arith
      ]
