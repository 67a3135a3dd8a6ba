-- ===== src/Zip.antt =====
-- The checks of an uploaded archive in repository/validation/zip.py, over the entries that `zipfile`
-- lists.
pub mod Paths
pub mod Duplicates
use thunderstore.Prelude.{
  ℕ, max, Bool, true, false, ◌&&◌, ◌||◌, none, some, List, [], ◌∷◌, ltb, ◌==ℕ◌, if◌then◌else◌,
  length, any, Text, text_eq,
}
use thunderstore.Team.{Team}
use thunderstore.Prelude.{
  ℕ, max, Bool, true, false, ◌&&◌, ◌||◌, none, some, List, [], ◌∷◌, ltb, ◌==ℕ◌, if◌then◌else◌,
  length, any, Text, text_eq,
}

pub record ZipInfo : Type 0 where
  pub filename : Text
  pub header_offset : ℕ

-- `s.startswith(w)`
unfoldable pub starts_with : Text → Text → Bool
starts_with [] s = true
starts_with (a ∷ w) [] = false
starts_with (a ∷ w) (c ∷ s) = (a ==ℕ c) && starts_with w s

-- `w in s`
unfoldable pub contains_text : Text → Text → Bool
unfolding starts_with
contains_text w [] = starts_with w []
contains_text w (c ∷ s) = starts_with w (c ∷ s) || contains_text w s

-- What `check_unsafe_paths` looks for anywhere in a name
unfoldable pub contains_unsafe : Text → Bool
unfolding contains_text
contains_unsafe s =
    contains_text (b'/' ∷ b'.' ∷ b'.' ∷ []) s
    || contains_text (b'/' ∷ b'/' ∷ []) s
    || contains_text (b'.' ∷ b'/' ∷ []) s
    || contains_text (b'\\' ∷ b'.' ∷ b'.' ∷ []) s
    || contains_text (b'\\' ∷ b'\\' ∷ []) s
    || contains_text (b'.' ∷ b'\\' ∷ []) s
    || contains_text (b'/' ∷ b'\\' ∷ []) s
    || contains_text (b'\\' ∷ b'/' ∷ []) s

-- What it looks for at the start of a name
unfoldable pub starts_unsafe : Text → Bool
unfolding starts_with
starts_unsafe s =
    starts_with (b'.' ∷ b'.' ∷ []) s || starts_with (b'/' ∷ []) s || starts_with (b'\\' ∷ []) s

unfoldable pub is_unsafe_path : Text → Bool
unfolding starts_unsafe contains_unsafe
is_unsafe_path s = starts_unsafe s || contains_unsafe s

-- `check_unsafe_paths`
unfoldable pub check_unsafe_paths : List ZipInfo → Bool
unfolding is_unsafe_path
check_unsafe_paths infolist = any (λ (e : ZipInfo). is_unsafe_path e.filename) infolist

-- `check_zero_offset`
unfoldable pub check_zero_offset : List ZipInfo → Bool
check_zero_offset infolist = any (λ (e : ZipInfo). e.header_offset ==ℕ 0) infolist

-- The loop of `check_duplicate_filenames`, with the names it has seen; `lower` is `str.lower`.
unfoldable pub has_seen_filename : (Text → Text) → List Text → List ZipInfo → Bool
has_seen_filename lower seen [] = false
has_seen_filename lower seen (e ∷ es) =
    let rest = has_seen_filename lower (lower e.filename ∷ seen) es in
    if any (text_eq (lower e.filename)) seen then true else rest

unfoldable pub check_duplicate_filenames : (Text → Text) → List ZipInfo → Bool
unfolding has_seen_filename
check_duplicate_filenames lower infolist = has_seen_filename lower [] infolist

-- `check_exceeds_max_file_count_per_zip`, with `settings.REPOSITORY_MAX_FILE_COUNT_PER_ZIP`
unfoldable pub check_exceeds_max_file_count_per_zip : ℕ → List ZipInfo → Team → Bool
check_exceeds_max_file_count_per_zip limit infolist team =
    let own : ℕ = elim team.max_file_count_per_zip [ none ↦ 0 | some n ↦ n ] in
    ltb (max own limit) (length infolist)
