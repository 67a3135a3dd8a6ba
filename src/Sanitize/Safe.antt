-- ===== src/Sanitize/Safe.antt =====
-- `sanitize_filepath` and `validate_filepath_prefix` in core/utils.py.
use mathlib.Core.Path.{ap₂}
use thunderstore.Prelude.{
  ℕ, ◌≡◌, refl, sym, ap, ◌∙◌, ◌↔◌, inl, inr, Bool, true, false, not, Option, none, some, List, [],
  ◌∷◌, ◌++◌, map, arith, ◌==ℕ◌, if◌then◌else◌, Bool-cases, select, All, some_inj, ok, Text,
  text_eq_iff, split_from, split, join,
}
use thunderstore.Names.{is_alnum, is_nil}
use thunderstore.Sanitize.{
  is_filename_char, sanitize_text, slashes, without_dots, is_kept, sanitized_parts,
  sanitize_filepath, option_text_eq, validate_filepath_prefix,
}
use thunderstore.Reference.Splitting.{NoSep, split-append, split_single}

-- A part of a path that has only the characters of a file name, and one that is not a dot.
abbrev pub IsSafePart : Text → Type 0
IsSafePart p = All (λ c. is_filename_char c ≡ true) p × (is_kept p ≡ true)

select_unchanged : (p : ℕ → Bool) (s : Text) → All (λ c. p c ≡ true) s → select p s ≡ s
select_unchanged p [] h = refl
select_unchanged p (c ∷ s) (e, h) = rw e (ap (λ t. c ∷ t) (select_unchanged p s h))

select_selected : (p : ℕ → Bool) (s : Text) → All (λ c. p c ≡ true) (select p s)
select_selected p [] = tt
select_selected p (c ∷ s) = elim (Bool-cases (p c)) [
  | inl e ↦ rw e (e, select_selected p s)
  | inr e ↦ rw e (select_selected p s)
]

sanitize_text-without_dots :
    (s : Text) → sanitize_text (without_dots (sanitize_text s)) ≡ sanitize_text (without_dots s)
unfolding sanitize_text without_dots
sanitize_text-without_dots [] = refl
sanitize_text-without_dots (c ∷ s) = ground (arith, sanitize_text-without_dots s)

sanitize_text-IsSafePart : (s : Text) → is_kept s ≡ true → IsSafePart (sanitize_text s)
unfolding is_kept
sanitize_text-IsSafePart s h = (
  unfold sanitize_text in select_selected is_filename_char s,
  ap (λ t. not (is_nil t)) (sanitize_text-without_dots s) ∙ h,
)

parts-IsSafePart : (ps : List Text) → All IsSafePart (map sanitize_text (select is_kept ps))
parts-IsSafePart [] = tt
parts-IsSafePart (p ∷ ps) = elim (Bool-cases (is_kept p)) [
  | inl e ↦ rw e (sanitize_text-IsSafePart p e, parts-IsSafePart ps)
  | inr e ↦ rw e (parts-IsSafePart ps)
]

-- Each part of a sanitized path has only characters of file names, and one that is not a dot: it
-- is not empty, nor the directory itself or its parent.
pub sanitized_parts-IsSafePart : (s : Text) → All IsSafePart (sanitized_parts s)
unfolding sanitized_parts
sanitized_parts-IsSafePart s = parts-IsSafePart (split b'/' (slashes s))

-- What is safe already stays as it is.
safe_parts : (ps : List Text) → All IsSafePart ps → map sanitize_text (select is_kept ps) ≡ ps
unfolding sanitize_text
safe_parts [] h = refl
safe_parts (p ∷ ps) ((chars, kept), h) =
    rw kept (ap₂ (λ q qs. q ∷ qs) (select_unchanged is_filename_char p chars) (safe_parts ps h))

slashes_safe : (p : Text) → All (λ c. is_filename_char c ≡ true) p → slashes p ≡ p
unfolding slashes is_filename_char is_alnum
slashes_safe [] h = refl
slashes_safe (c ∷ p) (e, h) =
    let backslash : (c ==ℕ b'\\') ≡ false = ground arith in
    rw backslash (ap (λ s. c ∷ s) (slashes_safe p h))

filename-NoSep : (p : Text) → All (λ c. is_filename_char c ≡ true) p → NoSep b'/' p
unfolding is_filename_char is_alnum
filename-NoSep [] h = tt
filename-NoSep (c ∷ p) (e, h) = (ground arith, filename-NoSep p h)

slashes-append : (s t : Text) → slashes (s ++ t) ≡ slashes s ++ slashes t
unfolding slashes
slashes-append [] t = refl
slashes-append (c ∷ s) t = ap (λ u. (if c ==ℕ b'\\' then b'/' else c) ∷ u) (slashes-append s t)

slashes-join : (ps : List Text) → All IsSafePart ps → slashes (join b'/' ps) ≡ join b'/' ps
unfolding join slashes
slashes-join [] h = refl
slashes-join (p ∷ []) ((chars, _), _) = slashes_safe p chars
slashes-join (p ∷ q ∷ ps) ((chars, _), h) =
    slashes-append p (b'/' ∷ join b'/' (q ∷ ps))
    ∙ ap₂ (λ s t. s ++ b'/' ∷ t) (slashes_safe p chars) (slashes-join (q ∷ ps) h)

split-join :
    (p : Text) (ps : List Text) → All IsSafePart (p ∷ ps) → split b'/' (join b'/' (p ∷ ps)) ≡ p ∷ ps
unfolding join
split-join p [] ((chars, _), _) = split_single b'/' p (filename-NoSep p chars)
split-join p (q ∷ ps) ((chars, _), h) =
    split-append b'/' p (join b'/' (q ∷ ps))
    ∙ ap₂ (λ ss ts. ss ++ ts) (split_single b'/' p (filename-NoSep p chars)) (split-join q ps h)

sanitized_parts-nil : sanitized_parts (join b'/' []) ≡ []
unfolding sanitized_parts join slashes split split_from is_kept sanitize_text without_dots is_nil
sanitized_parts-nil = refl

sanitized_parts-join : (ps : List Text) → All IsSafePart ps → sanitized_parts (join b'/' ps) ≡ ps
unfolding sanitized_parts
sanitized_parts-join [] h = sanitized_parts-nil
sanitized_parts-join (p ∷ ps) h =
    ap (λ s. map sanitize_text (select is_kept (split b'/' s))) (slashes-join (p ∷ ps) h)
    ∙ ap (λ qs. map sanitize_text (select is_kept qs)) (split-join p ps h)
    ∙ safe_parts (p ∷ ps) h

-- Sanitizing a path again changes nothing.
pub sanitize_filepath-again :
    (s : Option Text) → sanitize_filepath (sanitize_filepath s) ≡ sanitize_filepath s
unfolding sanitize_filepath
sanitize_filepath-again none = refl
sanitize_filepath-again (some s) =
    ap (λ ps. some (join b'/' ps))
      (sanitized_parts-join (sanitized_parts s) (sanitized_parts-IsSafePart s))

option_text_eq_iff : (s t : Option Text) → (option_text_eq s t ≡ true) ↔ (s ≡ t)
option_text_eq_iff none none = (λ h. refl, λ e. refl)
option_text_eq_iff none (some t) = (λ h. cc, λ e. cc)
option_text_eq_iff (some s) none = (λ h. cc, λ e. cc)
option_text_eq_iff (some s) (some t) =
    let (to, from) = text_eq_iff s t in (λ h. ap some (to h), λ e. from (some_inj e))

validate_filepath_prefix-eq :
    (s : Option Text) → sanitize_filepath s ≡ s → validate_filepath_prefix s ≡ ok s
unfolding validate_filepath_prefix
validate_filepath_prefix-eq s e = ground (arith, option_text_eq_iff (sanitize_filepath s) s)

validate_filepath_prefix-ok :
    (s r : Option Text)
    → validate_filepath_prefix s ≡ ok r
    → (sanitize_filepath s ≡ s) × (sanitize_filepath s ≡ r)
unfolding validate_filepath_prefix
validate_filepath_prefix-ok s r h = ground (arith, option_text_eq_iff (sanitize_filepath s) s)

-- The prefixes that are accepted are exactly the sanitized paths, and they are used as they are.
pub validate_filepath_prefix_iff :
    (s r : Option Text)
    → (validate_filepath_prefix s ≡ ok r)
      ↔ ((r ≡ s) × ((t : Option Text) × (sanitize_filepath t ≡ s)))
validate_filepath_prefix_iff s r = (
  λ h.
      let (clean_s, there) = validate_filepath_prefix-ok s r h in
      (sym there ∙ clean_s, (s, clean_s)),
  λ (e, (t, k)).
      let clean_s = ap sanitize_filepath (sym k) ∙ sanitize_filepath-again t ∙ k in
      validate_filepath_prefix-eq s clean_s ∙ ap ok (sym e),
)
