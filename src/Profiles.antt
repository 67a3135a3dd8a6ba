-- ===== src/Profiles.antt =====
-- modpacks/models/legacyprofile.py: profiles that are stored once for each content, with a cache of
-- their keys, their files' names and the space that they take.
pub mod Coherent
pub mod Refinement
use thunderstore.Prelude.{
  ℕ, zero, suc, ◌+◌, ◌&&◌, Option, none, some, List, [], ◌∷◌, ◌++◌, ltb, ◌==ℕ◌, if◌then◌else◌,
  length, first, Refusal, Result, Failure, validation, ok, err, does_not_exist, Text, text_eq,
}

pub record LegacyProfile : Type 0 where
  pub id : ℕ
  pub file_name : Text
  pub file_sha256 : Text
  pub file_size : ℕ

-- The table, a key that no row has, and the cache: `id_cache` by checksum, `file_cache` by key, and
-- the total size. An entry that is not there was never set, has timed out or was dropped.
pub record ProfileStore : Type 0 where
  pub profiles : List LegacyProfile
  pub fresh : ℕ
  pub id_cache : List (Text × ℕ)
  pub file_cache : List (ℕ × Text)
  pub size_cache : Option ℕ

-- What the program leaves to others: SHA-256 as a hexadecimal text, the name under which the storage
-- saves the file of a profile, and its address; and the setting LEGACYPROFILE_STORAGE_CAP
pub record ProfileSettings : Type 0 where
  pub sha256 : Text → Text
  pub saved_name : ℕ → Text
  pub url : Text → Text
  pub storage_cap : ℕ

unfoldable pub total_size : List LegacyProfile → ℕ
total_size [] = 0
total_size (p ∷ ps) = p.file_size + total_size ps

abbrev pub cached_id : Text → List (Text × ℕ) → Option ℕ
cached_id checksum [] = none
cached_id checksum ((c, id) ∷ entries) =
    if text_eq c checksum then some id else cached_id checksum entries

abbrev pub cached_name : ℕ → List (ℕ × Text) → Option Text
cached_name key [] = none
cached_name key ((i, name) ∷ entries) = if i ==ℕ key then some name else cached_name key entries

-- `get_total_used_disk_space`: a cached size of zero is computed again.
unfoldable pub get_total_used_disk_space : ProfileStore → ℕ × ProfileStore
get_total_used_disk_space s = elim s.size_cache [
  | some (suc n) ↦ (suc n, s)
  | some zero ↦ (total_size s.profiles, record s { size_cache = some (total_size s.profiles) })
  | none ↦ (total_size s.profiles, record s { size_cache = some (total_size s.profiles) })
]

module _ (settings : ProfileSettings) where
  open settings use {sha256, saved_name, url, storage_cap}

  -- `cache.set_many` after an upload
  unfoldable pub remember : LegacyProfile → Text → ProfileStore → ProfileStore
  remember p hexdigest s = record s {
    id_cache = (hexdigest, p.id) ∷ s.id_cache;
    file_cache = (p.id, p.file_name) ∷ s.file_cache;
  }

  -- `self.create`, and `cache.incr` of the size, if it is there
  unfoldable pub create_profile : Text → Text → ProfileStore → LegacyProfile × ProfileStore
  create_profile content hexdigest s =
      let p : LegacyProfile = record {
        id = s.fresh;
        file_name = saved_name s.fresh;
        file_sha256 = hexdigest;
        file_size = length content;
      } in
      (
        p,
        record s {
          profiles = s.profiles ++ p ∷ [];
          fresh = suc s.fresh;
          size_cache = elim s.size_cache [ none ↦ none | some n ↦ some (n + length content) ];
        },
      )

  -- `get_or_create_from_upload` from the test of the space on, with the space that is used
  unfoldable pub store_upload : Text → ℕ → ProfileStore → Result Refusal ℕ × ProfileStore
  unfolding create_profile remember
  store_upload content used s =
      let hexdigest = sha256 content in
      let is_content = λ (p : LegacyProfile).
        (p.file_size ==ℕ length content) && text_eq p.file_sha256 hexdigest in
      if ltb storage_cap (length content + used)
      then (
        err (
            validation
              "The server has reached maximum total storage used, and can't receive new uploads"),
        s,
      )
      else elim (cached_id hexdigest s.id_cache) [
        | some id ↦ (ok id, s)
        | none ↦ elim (first is_content s.profiles) [
          | some p ↦ (ok p.id, remember p hexdigest s)
          | none ↦
              let (p, s') = create_profile content hexdigest s in (ok p.id, remember p hexdigest s')
        ]
      ]

  -- `get_or_create_from_upload`: what the cache was told stays also on an error.
  unfoldable pub get_or_create_from_upload : Text → ProfileStore → Result Refusal ℕ × ProfileStore
  unfolding get_total_used_disk_space store_upload
  get_or_create_from_upload content s =
      let (used, s') = get_total_used_disk_space s in store_upload content used s'

  -- `get_file_url`
  unfoldable pub get_file_url : ℕ → ProfileStore → Result Failure Text × ProfileStore
  get_file_url profile_id s = elim (cached_name profile_id s.file_cache) [
    | some (c ∷ name) ↦ (ok (url (c ∷ name)), s)
    | _ ↦ elim (first (λ (p : LegacyProfile). p.id ==ℕ profile_id) s.profiles) [
      | none ↦ (err does_not_exist, s)
      | some p ↦
          (ok (url p.file_name), record s { file_cache = (profile_id, p.file_name) ∷ s.file_cache })
    ]
  ]
