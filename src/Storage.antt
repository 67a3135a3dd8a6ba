-- ===== src/Storage.antt =====
-- storage/models/blob.py, reference.py and group.py: contents that are stored once by their
-- checksum, the references to them, and the groups of references. `sha256` is the hash function of
-- `hashlib`, and a content is its bytes.
pub mod Blobs
pub mod Trees
use thunderstore.Prelude.{
  ℕ, Bool, true, false, Option, none, some, List, [], ◌∷◌, ◌++◌, ◌==ℕ◌, if◌then◌else◌, length,
  select, first, Result, ◌>>=◌, ◌>>◌, Failure, ok, err, runtime_error, Text, text_eq,
}

-- `content` is the field `data`, as in `ArchiveEntry`.
pub record DataBlob : Type 0 where
  pub content : Text
  pub data_size : ℕ
  pub checksum_sha256 : Text

pub record DataBlobReference : Type 0 where
  pub blob : DataBlob
  pub group : Option ℕ
  pub name : Option Text
  pub content_type : Option Text
  pub content_encoding : Option Text

pub record DataBlobGroup : Type 0 where
  pub pk : ℕ
  pub name : Text
  pub is_complete : Bool

-- The tables of blobs and of references
pub record Storage : Type 0 where
  pub blobs : List DataBlob
  pub references : List DataBlobReference

abbrev pub has_checksum : Text → DataBlob → Bool
has_checksum checksum b = text_eq b.checksum_sha256 checksum

-- `DataBlob.get_or_create`
unfoldable pub get_or_create_blob : (Text → Text) → Text → Storage → Storage × DataBlob
get_or_create_blob sha256 content db =
    let checksum = sha256 content in
    elim (first (has_checksum checksum) db.blobs) [
      | some existing ↦ (db, existing)
      | none ↦
          let blob : DataBlob = record {
            content = content;
            data_size = length content;
            checksum_sha256 = checksum;
          } in
          (record db { blobs = db.blobs ++ blob ∷ [] }, blob)
    ]

-- `DataBlobReference.create`
unfoldable pub create_reference :
    (Text → Text)
    → Text
    → Option ℕ
    → Option Text
    → Option Text
    → Option Text
    → Storage
    → Storage × DataBlobReference
unfolding get_or_create_blob
create_reference sha256 content group name content_type content_encoding db =
    let (stored, blob) = get_or_create_blob sha256 content db in
    let reference : DataBlobReference = record {
      blob = blob;
      group = group;
      name = name;
      content_type = content_type;
      content_encoding = content_encoding;
    } in
    (record stored { references = stored.references ++ reference ∷ [] }, reference)

-- `DataBlobGroup.add_entry`
unfoldable pub add_entry :
    (Text → Text)
    → DataBlobGroup
    → Text
    → Text
    → Option Text
    → Option Text
    → Storage
    → Storage × Result Failure DataBlobReference
unfolding create_reference
add_entry sha256 group content name content_type content_encoding db =
    if group.is_complete
    then (db, err runtime_error)
    else (let (stored, reference) =
          create_reference sha256 content (some group.pk) (some name) content_type content_encoding
            db in
        (stored, ok reference))

-- `set_complete`
unfoldable pub set_complete : DataBlobGroup → DataBlobGroup
set_complete group = record group { is_complete = true }

-- `group.entries.all()`
abbrev pub is_entry_of : DataBlobGroup → DataBlobReference → Bool
is_entry_of group r = elim r.group [ none ↦ false | some pk ↦ pk ==ℕ group.pk ]

unfoldable pub group_entries : DataBlobGroup → Storage → List DataBlobReference
group_entries group db = select (is_entry_of group) db.references

-- A file of an archive: its name, whether it is a directory, and its bytes
pub record ArchiveEntry : Type 0 where
  pub filename : Text
  pub is_dir : Bool
  pub content : Text

-- The loop of `create_file_tree_from_zip_data` in repository/filetree.py
unfoldable pub add_files :
    (Text → Text) → DataBlobGroup → List ArchiveEntry → Storage → Result Failure Storage
add_files sha256 group [] db = ok db
add_files sha256 group (e ∷ es) db =
    let skipped = add_files sha256 group es db in
    let (stored, added) = add_entry sha256 group e.content e.filename none none db in
    let continued = add_files sha256 group es stored in
    if e.is_dir then skipped else elim added [ ok r ↦ continued | err x ↦ err x ]

unfoldable pub create_file_tree_from_zip_data :
    (Text → Text)
    → ℕ
    → Text
    → List ArchiveEntry
    → Storage
    → Result Failure (Storage × DataBlobGroup)
unfolding add_files set_complete
create_file_tree_from_zip_data sha256 pk name infolist db =
    let group : DataBlobGroup = record { pk = pk; name = name; is_complete = false } in
    do stored ← add_files sha256 group infolist db; ok (stored, set_complete group)
