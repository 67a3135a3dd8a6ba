-- ===== src/Zip/Duplicates.antt =====
-- `check_duplicate_filenames` in repository/validation/zip.py.
use mathlib.Core.Bool.{false≢true}
use thunderstore.Prelude.{
  ◌≡◌, refl, sym, ◌≢◌, ◌↔◌, inl, inr, false, List, [], ◌∷◌, arith, Bool-cases, any, All, Text,
  text_eq, text_eq_iff,
}
use thunderstore.Zip.{ZipInfo, has_seen_filename, check_duplicate_filenames}

module _ (lower : Text → Text) where
  abbrev folded : ZipInfo → Text
  folded e = lower e.filename

  -- No two entries at different places have the same name in lower case.
  abbrev pub IsDistinct : List ZipInfo → Type 0
  IsDistinct [] = Unit
  IsDistinct (e ∷ es) = All (λ (f : ZipInfo). folded e ≢ folded f) es × IsDistinct es

  -- None of the entries has a name that was seen.
  abbrev Unseen : List Text → List ZipInfo → Type 0
  Unseen seen es = All (λ (e : ZipInfo). any (text_eq (folded e)) seen ≡ false) es

  Unseen-cons :
      (s : Text) (seen : List Text) (es : List ZipInfo)
      → Unseen (s ∷ seen) es ↔ (Unseen seen es × All (λ (f : ZipInfo). s ≢ folded f) es)
  Unseen-cons s seen [] = (λ h. (tt, tt), λ h. tt)
  Unseen-cons s seen (e ∷ es) = ground (arith, text_eq_iff (folded e) s, Unseen-cons s seen es)

  Unseen-nil : (es : List ZipInfo) → Unseen [] es
  Unseen-nil [] = tt
  Unseen-nil (e ∷ es) = (refl, Unseen-nil es)

  has_seen_filename_iff :
      (seen : List Text) (es : List ZipInfo)
      → (has_seen_filename lower seen es ≡ false) ↔ (Unseen seen es × IsDistinct es)
  unfolding has_seen_filename
  has_seen_filename_iff seen [] = (λ h. (tt, tt), λ h. refl)
  has_seen_filename_iff seen (e ∷ es) =
      let (to, from) = has_seen_filename_iff (folded e ∷ seen) es in
      let (split_off, put_on) = Unseen-cons (folded e) seen es in
      elim (Bool-cases (any (text_eq (folded e)) seen)) [
        | inl s ↦ rw s (λ h. absurd (false≢true (sym h)), λ h. absurd (false≢true (sym h.0.0)))
        | inr s ↦ rw s (
          λ h. let (u, d) = to h in let (v, n) = split_off u in ((refl, v), (n, d)),
          λ h. from (put_on (h.0.1, h.1.0), h.1.1),
        )
      ]

  -- The check accepts an archive exactly if no two of its entries have the same name in lower case.
  pub check_duplicate_filenames_iff :
      (infolist : List ZipInfo)
      → (check_duplicate_filenames lower infolist ≡ false) ↔ IsDistinct infolist
  unfolding check_duplicate_filenames
  check_duplicate_filenames_iff infolist =
      let (to, from) = has_seen_filename_iff [] infolist in
      (λ h. (to h).1, λ d. from (Unseen-nil infolist, d))
