-- ===== src/Zip/Paths.antt =====
-- `check_unsafe_paths` in repository/validation/zip.py: the paths that pass it.
use thunderstore.Prelude.{
  ℕ, ◌≡◌, refl, ◌≢◌, inl, inr, Bool, true, false, ◌||◌, List, [], ◌∷◌, ◌++◌, append_assoc,
  append-nil, arith, ◌==ℕ◌, if◌then◌else◌, Bool-cases, All, Text, split_from, split,
}
use thunderstore.Zip.{
  starts_with, contains_unsafe, starts_unsafe, contains_text, ZipInfo, is_unsafe_path,
  check_unsafe_paths,
}
use thunderstore.Sanitize.{slashes}
use thunderstore.Prelude.{
  ℕ, ◌≡◌, refl, ◌≢◌, inl, inr, Bool, true, false, ◌||◌, List, [], ◌∷◌, ◌++◌, append_assoc,
  append-nil, arith, ◌==ℕ◌, if◌then◌else◌, Bool-cases, All, Text, split_from, split,
}

-- The separators of a path, on any system
abbrev pub is_separator : ℕ → Bool
is_separator c = (c ==ℕ b'/') || (c ==ℕ b'\\')

-- The parts of a path
abbrev pub path_parts : Text → List Text
path_parts s = split b'/' (slashes s)

-- The first part of a path, and the parts after it
first_part : Text → Text
first_part [] = []
first_part (c ∷ s) = if is_separator c then [] else c ∷ first_part s

later_parts : Text → List Text
later_parts [] = []
later_parts (c ∷ s) = if is_separator c then first_part s ∷ later_parts s else later_parts s

split_from-slashes :
    (cur s : Text) → split_from b'/' cur (slashes s) ≡ (cur ++ first_part s) ∷ later_parts s
unfolding split_from slashes first_part later_parts
split_from-slashes cur [] = rw append-nil refl
split_from-slashes cur (c ∷ s) = ground (
  arith,
  append-nil cur,
  append_assoc cur (c ∷ []) (first_part s),
  split_from-slashes [] s,
  split_from-slashes (cur ++ c ∷ []) s,
)

abbrev pub NotParent : Text → Type 0
NotParent s = s ≢ b'.' ∷ b'.' ∷ []

-- No part but the last is empty or the directory itself.
abbrev pub IsNamed : List Text → Type 0
IsNamed [] = Unit
IsNamed (p ∷ []) = Unit
IsNamed (p ∷ q ∷ ps) = (p ≢ []) × (p ≢ b'.' ∷ []) × IsNamed (q ∷ ps)

contains_unsafe-tail :
    (c : ℕ) (s : Text) → contains_unsafe (c ∷ s) ≡ false → contains_unsafe s ≡ false
unfolding contains_unsafe contains_text
contains_unsafe-tail c s h = ground arith

contains_unsafe-separator :
    (c : ℕ) (s : Text)
    → is_separator c ≡ true
    → contains_unsafe (c ∷ s) ≡ false
    → starts_unsafe s ≡ false
unfolding contains_unsafe contains_text starts_unsafe starts_with
contains_unsafe-separator c [] e h = refl
contains_unsafe-separator c (d ∷ s) e h = ground arith

first_part-NotParent : (s : Text) → starts_unsafe s ≡ false → NotParent (first_part s)
unfolding starts_unsafe starts_with first_part
first_part-NotParent [] h = cc
first_part-NotParent (c ∷ []) h = ground arith
first_part-NotParent (c ∷ d ∷ s) h = ground arith

later_parts-NotParent : (s : Text) → contains_unsafe s ≡ false → All NotParent (later_parts s)
unfolding later_parts
later_parts-NotParent [] h = tt
later_parts-NotParent (c ∷ s) h =
    let rest = later_parts-NotParent s (contains_unsafe-tail c s h) in
    elim (Bool-cases (is_separator c)) [
      | inl e ↦ rw e (first_part-NotParent s (contains_unsafe-separator c s e h), rest)
      | inr e ↦ rw e rest
    ]

IsNamed-longer :
    (c d : ℕ) (p : Text) (ps : List Text) → IsNamed ((d ∷ p) ∷ ps) → IsNamed ((c ∷ d ∷ p) ∷ ps)
IsNamed-longer c d p [] h = tt
IsNamed-longer c d p (q ∷ ps) (_, _, h) = (cc, cc, h)

-- Whether a path starts with a separator
abbrev is_separator_first : Text → Bool
is_separator_first [] = false
is_separator_first (c ∷ s) = is_separator c

first_separator : (s : Text) → starts_unsafe s ≡ false → is_separator_first s ≡ false
unfolding starts_unsafe starts_with
first_separator [] h = refl
first_separator (c ∷ s) h = ground arith

-- What stands before a separator is not a dot.
not_dot :
    (c d : ℕ) (s : Text) → is_separator d ≡ true → contains_unsafe (c ∷ d ∷ s) ≡ false → c ≢ b'.'
unfolding contains_unsafe contains_text starts_with
not_dot c d s e h = ground arith

-- One more character before a path keeps its parts named.
parts-longer :
    (c : ℕ) (s : Text)
    → is_separator c ≡ false
    → contains_unsafe (c ∷ s) ≡ false
    → (is_separator_first s ≡ false → IsNamed (first_part s ∷ later_parts s))
    → IsNamed (later_parts s)
    → IsNamed (first_part (c ∷ s) ∷ later_parts (c ∷ s))
unfolding first_part later_parts
parts-longer c [] g h whole later = rw g tt
parts-longer c (d ∷ s) g h whole later = elim (Bool-cases (is_separator d)) [
  | inl e ↦
      let no_dot = not_dot c d s e h in
      let named : IsNamed (first_part s ∷ later_parts s) = rw e at later in
      rw (g, e) (cc, λ k. no_dot cc, named)
  | inr e ↦
      let named : IsNamed ((d ∷ first_part s) ∷ later_parts s) = (rw e at whole) refl in
      rw (g, e) (IsNamed-longer c d (first_part s) (later_parts s) named)
]

parts-IsNamed :
    (s : Text)
    → contains_unsafe s ≡ false
    → (is_separator_first s ≡ false → IsNamed (first_part s ∷ later_parts s))
      × IsNamed (later_parts s)
unfolding first_part later_parts
parts-IsNamed [] h = (λ g. tt, tt)
parts-IsNamed (c ∷ s) h =
    let (whole, later) = parts-IsNamed s (contains_unsafe-tail c s h) in
    (
      λ g. parts-longer c s g h whole later,
      elim (Bool-cases (is_separator c)) [
        | inl e ↦ rw e (whole (first_separator s (contains_unsafe-separator c s e h)))
        | inr e ↦ rw e later
      ],
    )

-- No part of a path that `check_unsafe_paths` accepts is the parent directory, whichever separator
-- is used, and no part but the last is empty or the directory itself.
pub check_unsafe_paths-parts :
    (infolist : List ZipInfo)
    → check_unsafe_paths infolist ≡ false
    → All
        (λ (e : ZipInfo). All NotParent (path_parts e.filename) × IsNamed (path_parts e.filename))
        infolist
unfolding check_unsafe_paths is_unsafe_path split
check_unsafe_paths-parts [] h = tt
check_unsafe_paths-parts (e ∷ es) h =
    let starts : starts_unsafe e.filename ≡ false = ground arith in
    let inside : contains_unsafe e.filename ≡ false = ground arith in
    let rest : check_unsafe_paths es ≡ false = ground arith in
    (
      rw (split_from-slashes [] e.filename) (
        (first_part-NotParent e.filename starts, later_parts-NotParent e.filename inside),
        (parts-IsNamed e.filename inside).0 (first_separator e.filename starts),
      ),
      check_unsafe_paths-parts es rest,
    )
