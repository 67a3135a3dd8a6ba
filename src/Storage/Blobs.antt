-- ===== src/Storage/Blobs.antt =====
-- The table of blobs of storage/models/blob.py and the file trees of repository/filetree.py.
use thunderstore.Prelude.{
  ◌≡◌, refl, sym, ap, ◌∙◌, inl, inr, Bool, true, false, none, some, List, [], ◌∷◌, ◌++◌, arith,
  Option-cases, length, first, All, All-append, Text, text_eq_refl, text_eq_iff,
}
use thunderstore.Storage.{DataBlob, Storage, has_checksum, get_or_create_blob}

module _ (sha256 : Text → Text) where
  -- What a stored blob says of its data
  abbrev pub IsIntact : DataBlob → Type 0
  IsIntact b = (b.checksum_sha256 ≡ sha256 b.content) × (b.data_size ≡ length b.content)

  -- Each blob is intact, and no two have the same checksum.
  abbrev pub IsDeduplicated : List DataBlob → Type 0
  IsDeduplicated [] = Unit
  IsDeduplicated (b ∷ bs) =
      IsIntact b
      × All (λ (c : DataBlob). has_checksum b.checksum_sha256 c ≡ false) bs
      × IsDeduplicated bs

  first-checksum :
      (s : Text) (bs : List DataBlob) (b : DataBlob)
      → IsDeduplicated bs
      → first (has_checksum s) bs ≡ some b
      → (b.checksum_sha256 ≡ s) × IsIntact b
  first-checksum s [] b d h = cc
  first-checksum s (c ∷ cs) b d h =
      ground (arith, first-checksum s cs b, text_eq_iff c.checksum_sha256 s)

  append-IsDeduplicated :
      (bs : List DataBlob) (b : DataBlob)
      → IsDeduplicated bs
      → IsIntact b
      → first (has_checksum b.checksum_sha256) bs ≡ none
      → IsDeduplicated (bs ++ b ∷ [])
  append-IsDeduplicated [] b d i h = (i, tt, tt)
  append-IsDeduplicated (c ∷ cs) b (j, k, d) i h =
      let rest : first (has_checksum b.checksum_sha256) cs ≡ none = ground arith in
      let differs : has_checksum c.checksum_sha256 b ≡ false = ground (
        arith,
        text_eq_iff c.checksum_sha256 b.checksum_sha256,
        text_eq_iff b.checksum_sha256 c.checksum_sha256,
      ) in
      (
        j,
        All-append (λ (x : DataBlob). has_checksum c.checksum_sha256 x ≡ false) cs (b ∷ []) k
            (differs, tt),
        append-IsDeduplicated cs b d i rest,
      )

  -- Storing a content returns a blob that has it, and keeps each blob intact and the checksums
  -- different, where they were and no other content has the checksum.
  pub get_or_create_blob-IsDeduplicated :
      (content : Text) (db : Storage)
      → IsDeduplicated db.blobs
      → ((c : Text) → sha256 c ≡ sha256 content → c ≡ content)
      → IsDeduplicated (get_or_create_blob sha256 content db).0.blobs
        × ((get_or_create_blob sha256 content db).1.content ≡ content)
  unfolding get_or_create_blob
  get_or_create_blob-IsDeduplicated content db d unique =
      elim (Option-cases (first (has_checksum (sha256 content)) db.blobs)) [
        | inl e ↦
            rw (e, get_or_create_blob) (append-IsDeduplicated db.blobs _ d (refl, refl) e, refl)
        | inr (b, e) ↦
            let (s, (i, _)) = first-checksum (sha256 content) db.blobs b d e in
            rw (e, get_or_create_blob) (d, unique b.content (sym i ∙ s))
      ]

  first-append :
      (p : DataBlob → Bool) (bs : List DataBlob) (b : DataBlob)
      → first p bs ≡ none
      → p b ≡ true
      → first p (bs ++ b ∷ []) ≡ some b
  first-append p [] b h e = rw e refl
  first-append p (c ∷ cs) b h e = ground (arith, first-append p cs b)

  new_blob : Text → DataBlob
  new_blob content = record {
    content = content;
    data_size = length content;
    checksum_sha256 = sha256 content;
  }

  get_or_create_blob_found :
      (content : Text) (db : Storage) (b : DataBlob)
      → first (has_checksum (sha256 content)) db.blobs ≡ some b
      → get_or_create_blob sha256 content db ≡ (db, b)
  unfolding get_or_create_blob
  get_or_create_blob_found content db b e = rw (e, get_or_create_blob) refl

  get_or_create_blob_missing :
      (content : Text) (db : Storage)
      → first (has_checksum (sha256 content)) db.blobs ≡ none
      → get_or_create_blob sha256 content db
        ≡ (record db { blobs = db.blobs ++ new_blob content ∷ [] }, new_blob content)
  unfolding get_or_create_blob new_blob
  get_or_create_blob_missing content db e = rw (e, get_or_create_blob) refl

  -- The references are not touched.
  pub references-get_or_create_blob :
      (content : Text) (db : Storage)
      → (get_or_create_blob sha256 content db).0.references ≡ db.references
  references-get_or_create_blob content db =
      elim (Option-cases (first (has_checksum (sha256 content)) db.blobs)) [
        | inl e ↦ ap (λ r. r.0.references) (get_or_create_blob_missing content db e)
        | inr (b, e) ↦ ap (λ r. r.0.references) (get_or_create_blob_found content db b e)
      ]

  -- A content that is stored again is found, and nothing is written.
  pub get_or_create_blob-again :
      (content : Text) (db : Storage)
      → get_or_create_blob sha256 content (get_or_create_blob sha256 content db).0
        ≡ get_or_create_blob sha256 content db
  unfolding new_blob
  get_or_create_blob-again content db =
      elim (Option-cases (first (has_checksum (sha256 content)) db.blobs)) [
        | inl e ↦
            let m = get_or_create_blob_missing content db e in
            let found =
              first-append (has_checksum (sha256 content)) db.blobs (new_blob content) e
                (text_eq_refl (sha256 content)) in
            ap (λ r. get_or_create_blob sha256 content r.0) m
            ∙ get_or_create_blob_found content _ (new_blob content) found
            ∙ sym m
        | inr (b, e) ↦
            ap (λ r. get_or_create_blob sha256 content r.0)
              (get_or_create_blob_found content db b e)
      ]
