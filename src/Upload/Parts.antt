-- ===== src/Upload/Parts.antt =====
-- `get_signed_upload_urls` in usermedia/s3_upload.py: the byte ranges of the parts.
use thunderstore.Prelude.{
  ℕ, zero, suc, ◌+◌, ◌-◌, ◌*◌, ◌≤◌, ◌<◌, min, ◌≡◌, refl, subst, ◌⊎◌, inr, Option, List, [], ◌∷◌,
  arith, >>-eq-ok, ok_inj, ok,
}
use thunderstore.Upload.{
  UserMedia, Part, S3Client, UploadSettings, upload_part_size, part_count, part_at, parts_from,
  upload_parts, get_signed_upload_urls, check_access, upload_created,
}

-- The parts follow one another without a gap or an overlap from `start` to `end`, and each has at
-- least one byte and at most `part_size`.
abbrev pub Covers : ℕ → ℕ → List Part → ℕ → Type 0
Covers part_size start [] end = start ≡ end
Covers part_size start (p ∷ ps) end =
    (p.offset ≡ start)
    × (1 ≤ p.length)
    × (p.length ≤ part_size)
    × Covers part_size (start + p.length) ps end

-- The parts are numbered from `n` on.
abbrev pub NumberedFrom : ℕ → List Part → Type 0
NumberedFrom n [] = Unit
NumberedFrom n (p ∷ ps) = (p.part_number ≡ n) × NumberedFrom (suc n) ps

module _ (client : S3Client) (media : UserMedia) (part_size : ℕ) (positive : 1 ≤ part_size) where
  parts_from-Covers :
      (k n : ℕ)
      → media.size ≤ n * part_size + k * part_size
      → (k ≡ 0) ⊎ (n * part_size + k * part_size < media.size + part_size)
      → Covers part_size
          (min (n * part_size) media.size)
          (parts_from client media part_size n k)
          media.size
  unfolding parts_from part_at
  parts_from-Covers zero n h g = omega arith
  parts_from-Covers (suc k) n h g =
      let below : n * part_size < media.size = omega arith in
      let next : min (suc n * part_size) media.size
          ≡ min (n * part_size) media.size + min part_size (media.size - n * part_size) =
        omega arith in
      (
        omega arith,
        omega arith,
        omega arith,
        subst (λ s. Covers part_size s (parts_from client media part_size (suc n) k) media.size)
            next (parts_from-Covers k (suc n) (omega arith) (inr (omega arith))),
      )

  parts_from-NumberedFrom : (k n : ℕ) → NumberedFrom (suc n) (parts_from client media part_size n k)
  unfolding parts_from part_at
  parts_from-NumberedFrom zero n = tt
  parts_from-NumberedFrom (suc k) n = (refl, parts_from-NumberedFrom k (suc n))

  part_count_bounds :
      (size : ℕ)
      → (size ≤ part_count part_size size * part_size)
        × (part_count part_size size * part_size < size + part_size)
  unfolding part_count
  part_count_bounds size = (grind arith, grind arith)

  pub upload_parts-Covers : Covers part_size 0 (upload_parts client media part_size) media.size
  unfolding upload_parts
  upload_parts-Covers =
      let (enough, tight) = part_count_bounds media.size in
      subst (λ s. Covers part_size s (upload_parts client media part_size) media.size) (omega arith)
        (parts_from-Covers (part_count part_size media.size) 0 (omega arith) (inr (omega arith)))

  pub upload_parts-NumberedFrom : NumberedFrom 1 (upload_parts client media part_size)
  unfolding upload_parts
  upload_parts-NumberedFrom = parts_from-NumberedFrom (part_count part_size media.size) 0

-- The signed parts of an upload are numbered from 1 on, follow one another without a gap or an
-- overlap from the first byte of the file to its last, and each has at least one byte and at most
-- the size of a part.
pub get_signed_upload_urls-Covers :
    (settings : UploadSettings) (client : S3Client) (user : Option ℕ) (media : UserMedia)
    (parts : List Part)
    → get_signed_upload_urls settings client user media ≡ ok parts
    → NumberedFrom 1 parts × Covers upload_part_size 0 parts media.size
unfolding get_signed_upload_urls
get_signed_upload_urls-Covers settings client user media parts h =
    let (access, made) = >>-eq-ok (check_access settings user media (upload_created ∷ [])) _ h in
    let parts_eq : upload_parts client media upload_part_size ≡ parts = ok_inj made in
    subst (λ ps. NumberedFrom 1 ps × Covers upload_part_size 0 ps media.size) parts_eq
      (
        upload_parts-NumberedFrom client media upload_part_size (omega arith),
        upload_parts-Covers client media upload_part_size (omega arith),
      )
