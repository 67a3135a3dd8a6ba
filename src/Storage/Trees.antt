-- ===== src/Storage/Trees.antt =====
-- `create_file_tree_from_zip_data` of repository/filetree.py.
use thunderstore.Prelude.{
  ℕ, ◌≡◌, refl, sym, ap, ap₂, ◌∙◌, inl, inr, true, false, Option, none, some, List, [], ◌∷◌, ◌++◌,
  map, append_assoc, append-nil, if◌then◌else◌, ==ℕ_refl, Bool-cases, select, Result, Failure, ok,
  err, Text,
}
use thunderstore.Storage.{
  DataBlobReference, DataBlobGroup, Storage, is_entry_of, ArchiveEntry, add_files, add_entry,
  get_or_create_blob, create_reference, set_complete, group_entries, create_file_tree_from_zip_data,
}
use thunderstore.Storage.Blobs.{
  IsDeduplicated, get_or_create_blob-IsDeduplicated, references-get_or_create_blob,
}

-- The files of an archive, with their names and bytes
abbrev pub archive_files : List ArchiveEntry → List (Option Text × Text)
archive_files [] = []
archive_files (e ∷ es) =
    if e.is_dir then archive_files es else (some e.filename, e.content) ∷ archive_files es

-- The entries of a group, with their names and bytes
abbrev pub tree_files : DataBlobGroup → List DataBlobReference → List (Option Text × Text)
tree_files group rs =
    map (λ (r : DataBlobReference). (r.name, r.blob.content)) (select (is_entry_of group) rs)

archive_files-file :
    (e : ArchiveEntry) (es : List ArchiveEntry)
    → e.is_dir ≡ false
    → archive_files (e ∷ es) ≡ (some e.filename, e.content) ∷ archive_files es
archive_files-file e es h = rw h refl

tree_files-append :
    (group : DataBlobGroup) (rs qs : List DataBlobReference)
    → tree_files group (rs ++ qs) ≡ tree_files group rs ++ tree_files group qs
tree_files-append group [] qs = refl
tree_files-append group (r ∷ rs) qs = elim (Bool-cases (is_entry_of group r)) [
  | inl e ↦ rw e (ap (λ fs. (r.name, r.blob.content) ∷ fs) (tree_files-append group rs qs))
  | inr e ↦ rw e (tree_files-append group rs qs)
]

module _ (sha256 : Text → Text) (unique : (a b : Text) → sha256 a ≡ sha256 b → a ≡ b) where
  new_reference : DataBlobGroup → Text → Text → Storage → DataBlobReference
  new_reference group content name db = record {
    blob = (get_or_create_blob sha256 content db).1;
    group = some group.pk;
    name = some name;
    content_type = none;
    content_encoding = none;
  }

  with_reference : Text → DataBlobReference → Storage → Storage
  with_reference content r db =
      let stored = (get_or_create_blob sha256 content db).0 in
      record stored { references = stored.references ++ r ∷ [] }

  add_entry_incomplete :
      (group : DataBlobGroup) (content name : Text) (db : Storage)
      → group.is_complete ≡ false
      → add_entry sha256 group content name none none db ≡ (
        with_reference content (new_reference group content name db) db,
        ok (new_reference group content name db),
      )
  unfolding add_entry create_reference with_reference new_reference
  add_entry_incomplete group content name db incomplete = rw (incomplete, add_entry) refl

  tree_files-with_reference :
      (group : DataBlobGroup) (content name : Text) (db : Storage)
      → (get_or_create_blob sha256 content db).1.content ≡ content
      → tree_files group
          (with_reference content (new_reference group content name db) db).references
        ≡ tree_files group db.references ++ (some name, content) ∷ []
  unfolding with_reference new_reference
  tree_files-with_reference group content name db content_eq =
      tree_files-append group (get_or_create_blob sha256 content db).0.references
        (new_reference group content name db ∷ [])
      ∙ ap₂ (λ rs fs. tree_files group rs ++ fs) (references-get_or_create_blob sha256 content db)
          (rw ==ℕ_refl (ap (λ c. (some name, c) ∷ []) content_eq))

  add_files-file :
      (group : DataBlobGroup) (e : ArchiveEntry) (es : List ArchiveEntry) (db : Storage)
      → group.is_complete ≡ false
      → e.is_dir ≡ false
      → add_files sha256 group (e ∷ es) db
        ≡ add_files sha256 group es
            (with_reference e.content (new_reference group e.content e.filename db) db)
  unfolding add_files
  add_files-file group e es db incomplete h = rw h (
      ap
        (λ a. elim a.1 as (λ x. Result Failure Storage) [
          | ok r ↦ add_files sha256 group es a.0
          | err x ↦ err x
        ])
        (add_entry_incomplete group e.content e.filename db incomplete))

  add_files-files :
      (group : DataBlobGroup) (es : List ArchiveEntry) (db : Storage)
      → group.is_complete ≡ false
      → IsDeduplicated sha256 db.blobs
      → (db' : Storage) × (add_files sha256 group es db ≡ ok db')
        × IsDeduplicated sha256 db'.blobs
        × (tree_files group db'.references ≡ tree_files group db.references ++ archive_files es)
  unfolding add_files with_reference
  add_files-files group [] db incomplete d = (db, refl, d, sym (append-nil _))
  add_files-files group (e ∷ es) db incomplete d = elim (Bool-cases e.is_dir) [
    | inl h ↦ rw h (add_files-files group es db incomplete d)
    | inr h ↦
        let (d', content_eq) =
          get_or_create_blob-IsDeduplicated sha256 e.content db d (λ c. unique c e.content) in
        let (db', made, d'', files) =
          add_files-files group es
            (with_reference e.content (new_reference group e.content e.filename db) db) incomplete
            d' in
        (
          db',
          add_files-file group e es db incomplete h ∙ made,
          d'',
          files
              ∙ ap (λ fs. fs ++ archive_files es)
                  (tree_files-with_reference group e.content e.filename db content_eq)
              ∙ append_assoc (tree_files group db.references) ((some e.filename, e.content) ∷ [])
                  (archive_files es)
              ∙ ap (λ fs. tree_files group db.references ++ fs) (sym (archive_files-file e es h)),
        )
  ]

  -- Making the file tree of an archive succeeds, and gives a complete group whose entries are the
  -- files of the archive in order, with their names and bytes; the stored blobs stay deduplicated.
  -- This is where they were, no reference has the new group's key yet, and different contents have
  -- different checksums.
  pub create_file_tree_from_zip_data-files :
      (pk : ℕ) (name : Text) (infolist : List ArchiveEntry) (db : Storage)
      → IsDeduplicated sha256 db.blobs
      → group_entries (record { pk = pk; name = name; is_complete = false }) db ≡ []
      → (made : Storage × DataBlobGroup) × (create_file_tree_from_zip_data sha256 pk name infolist
            db
          ≡ ok made)
        × (made.1.is_complete ≡ true)
        × IsDeduplicated sha256 made.0.blobs
        × (map (λ (r : DataBlobReference). (r.name, r.blob.content)) (group_entries made.1 made.0)
            ≡ archive_files infolist)
  unfolding create_file_tree_from_zip_data set_complete group_entries
  create_file_tree_from_zip_data-files pk name infolist db d fresh =
      let group : DataBlobGroup = record { pk = pk; name = name; is_complete = false } in
      let (db', made, d', files) = add_files-files group infolist db refl d in
      (
        (db', set_complete group),
        rw made refl,
        refl,
        d',
        files
            ∙ ap
                (λ (rs : List DataBlobReference).
                  map (λ (r : DataBlobReference). (r.name, r.blob.content)) rs
                  ++ archive_files infolist)
                fresh,
      )
