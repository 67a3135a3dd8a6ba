-- ===== src/Names.antt =====
-- The regular expressions of repository/consts.py as matchers over code points, and
-- `strip_unsupported_characters` of repository/models/team.py. `$` also matches before a newline
-- that ends the text, as in Python.
pub mod Strip
use thunderstore.Prelude.{
  ℕ, Bool, true, false, not, ◌&&◌, ◌||◌, [], ◌∷◌, leb, ◌==ℕ◌, if◌then◌else◌, select, Text,
}

-- `[a-zA-Z0-9]`
unfoldable pub is_alnum : ℕ → Bool
is_alnum c = (leb b'a' c && leb c b'z') || (leb b'A' c && leb c b'Z') || (leb b'0' c && leb c b'9')

-- `[a-zA-Z0-9\_]`
unfoldable pub is_word : ℕ → Bool
unfolding is_alnum
is_word c = is_alnum c || c ==ℕ b'_'

-- `$`: the end, or the newline that ends the text
unfoldable pub at_end : Text → Bool
at_end [] = true
at_end (c ∷ []) = c ==ℕ 10
at_end (c ∷ d ∷ s) = false

-- `[class]*$`
unfoldable pub star_to_end : (ℕ → Bool) → Text → Bool
unfolding at_end
star_to_end p [] = true
star_to_end p (c ∷ s) = let rest = star_to_end p s in if p c then rest else at_end (c ∷ s)

-- PACKAGE_NAME_REGEX: `^[a-zA-Z0-9\_]+$`, which is also the nickname's expression
unfoldable pub is_package_name : Text → Bool
unfolding star_to_end is_word
is_package_name [] = false
is_package_name (c ∷ s) = is_word c && star_to_end is_word s

-- What may follow the first character of a component: word characters, the last alphanumeric.
unfoldable pub component_rest : Bool → Text → Bool
unfolding is_word at_end
component_rest ended [] = ended
component_rest ended (c ∷ s) =
    let rest = component_rest (is_alnum c) s in if is_word c then rest else ended && at_end (c ∷ s)

-- PACKAGE_REFERENCE_COMPONENT_REGEX: `^[a-zA-Z0-9]+([a-zA-Z0-9\_]+[a-zA-Z0-9])?$`
unfoldable pub is_component : Text → Bool
unfolding component_rest
is_component [] = false
is_component (c ∷ s) = is_alnum c && component_rest true s

-- The digits at the start of a text, and what follows them: `[0-9]+` takes all it can, and no
-- expression here can use fewer.
unfoldable pub span_digits : Text → Text × Text
span_digits [] = ([], [])
span_digits (c ∷ s) =
    let (ds, rest) = span_digits s in
    if leb b'0' c && leb c b'9' then (c ∷ ds, rest) else ([], c ∷ s)

unfoldable pub is_nil : Text → Bool
is_nil [] = true
is_nil (c ∷ s) = false

-- `[0-9]+` and then `next`
unfoldable pub digits_then : (Text → Bool) → Text → Bool
unfolding span_digits is_nil
digits_then next s = let (ds, rest) = span_digits s in not (is_nil ds) && next rest

-- `\.` and then `next`
unfoldable pub dot_then : (Text → Bool) → Text → Bool
dot_then next [] = false
dot_then next (c ∷ s) = c ==ℕ b'.' && next s

-- PACKAGE_VERSION_REGEX: `^[0-9]+\.[0-9]+\.[0-9]+$`
unfoldable pub is_package_version : Text → Bool
unfolding digits_then dot_then at_end
is_package_version = digits_then (dot_then (digits_then (dot_then (digits_then at_end))))

-- `while result.startswith("_"): result = result[1:]`
unfoldable pub strip_left : Text → Text
strip_left [] = []
strip_left (c ∷ s) = let rest = strip_left s in if c ==ℕ b'_' then rest else c ∷ s

-- `while result.endswith("_"): result = result[:-1]`, from the other end: a character goes exactly
-- when it and all that follow it are underscores.
unfoldable pub strip_right : Text → Text
unfolding is_nil
strip_right [] = []
strip_right (c ∷ s) = let rest = strip_right s in if c ==ℕ b'_' && is_nil rest then [] else c ∷ rest

unfoldable pub strip_unsupported_characters : Text → Text
unfolding is_word strip_left strip_right
strip_unsupported_characters val = strip_right (strip_left (select is_word val))
