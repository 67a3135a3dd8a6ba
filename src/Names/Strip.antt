-- ===== src/Names/Strip.antt =====
-- `strip_unsupported_characters` of repository/models/team.py.
use thunderstore.Prelude.{
  ℕ, ◌≡◌, refl, ◌≢◌, ◌⊎◌, inl, inr, Bool, true, false, [], ◌∷◌, arith, ◌==ℕ◌, Bool-cases, select,
  All, Text,
}
use thunderstore.Names.{
  is_alnum, is_word, component_rest, is_nil, strip_left, strip_right, is_component,
  strip_unsupported_characters,
}

abbrev IsWord : ℕ → Type 0
IsWord c = is_word c ≡ true

-- A text that does not begin with an underscore.
abbrev NotLeading : Text → Type 0
NotLeading [] = Unit
NotLeading (c ∷ s) = (c ==ℕ b'_') ≡ false

select-IsWord : (s : Text) → All IsWord (select is_word s)
select-IsWord [] = tt
select-IsWord (c ∷ s) = elim (Bool-cases (is_word c)) [
  | inl e ↦ rw e (e, select-IsWord s)
  | inr e ↦ rw e (select-IsWord s)
]

strip_left-All : (s : Text) → All IsWord s → All IsWord (strip_left s)
unfolding strip_left
strip_left-All [] h = tt
strip_left-All (c ∷ s) h = ground (arith, strip_left-All s)

strip_left-NotLeading : (s : Text) → NotLeading (strip_left s)
unfolding strip_left
strip_left-NotLeading [] = tt
strip_left-NotLeading (c ∷ s) = ground (arith, strip_left-NotLeading s)

strip_right-All : (s : Text) → All IsWord s → All IsWord (strip_right s)
unfolding strip_right
strip_right-All [] h = tt
strip_right-All (c ∷ s) h = ground (arith, strip_right-All s)

strip_right-NotLeading : (s : Text) → NotLeading s → NotLeading (strip_right s)
unfolding strip_right
strip_right-NotLeading [] h = tt
strip_right-NotLeading (c ∷ s) h = ground arith

alnum_of_word : (c : ℕ) → is_word c ≡ true → (c ==ℕ b'_') ≡ false → is_alnum c ≡ true
unfolding is_word
alnum_of_word c h k = ground arith

-- What follows is a component's rest if it is not empty, or if the character before may end one.
component_rest-strip_right :
    (ended : Bool) (s : Text)
    → All IsWord s
    → (is_nil (strip_right s) ≡ false) ⊎ (ended ≡ true)
    → component_rest ended (strip_right s) ≡ true
unfolding strip_right component_rest
component_rest-strip_right ended [] h k = ground arith
component_rest-strip_right ended (c ∷ s) (w, h) k =
    ground (arith, component_rest-strip_right (is_alnum c) s h, alnum_of_word c w)

strip-is_component :
    (s : Text)
    → All IsWord s
    → NotLeading s
    → strip_right s ≢ []
    → is_component (strip_right s) ≡ true
unfolding strip_right is_component
strip-is_component [] h k ne = absurd (ne refl)
strip-is_component (c ∷ s) (w, h) k ne =
    ground (arith, component_rest-strip_right true s h (inr refl), alnum_of_word c w k)

-- If anything is left of a user name after the unsupported characters are removed, it is a valid
-- component of a package reference.
pub strip_unsupported_characters-is_component :
    (val : Text)
    → strip_unsupported_characters val ≢ []
    → is_component (strip_unsupported_characters val) ≡ true
unfolding strip_unsupported_characters
strip_unsupported_characters-is_component val =
    strip-is_component (strip_left (select is_word val)) (strip_left-All _ (select-IsWord val))
      (strip_left-NotLeading (select is_word val))
