-- ===== src/Sanitize.antt =====
-- The sanitizers of file names and paths in core/utils.py.
pub mod Safe
use thunderstore.Prelude.{
  ℕ, Bool, true, false, not, ◌||◌, Option, none, some, List, map, ◌==ℕ◌, if◌then◌else◌, select,
  Refusal, Result, validation, ok, err, Text, text_eq, split, join,
}
use thunderstore.Names.{is_alnum, is_nil}

-- A character that FILENAME_SANITIZER_REGEX, `[^a-zA-Z0-9\_\-\.]+`, leaves
unfoldable pub is_filename_char : ℕ → Bool
unfolding is_alnum
is_filename_char c = is_alnum c || (c ==ℕ b'_' || (c ==ℕ b'-' || c ==ℕ b'.'))

-- `sanitize_filename` of a text: each run of other characters goes
unfoldable pub sanitize_text : Text → Text
unfolding is_filename_char
sanitize_text s = select is_filename_char s

unfoldable pub sanitize_filename : Option Text → Option Text
unfolding sanitize_text
sanitize_filename none = none
sanitize_filename (some s) = some (sanitize_text s)

-- `filepath.replace("\\", "/")`
unfoldable pub slashes : Text → Text
slashes s = map (λ (c : ℕ). if c ==ℕ b'\\' then b'/' else c) s

-- `x.replace(".", "")`
unfoldable pub without_dots : Text → Text
without_dots s = select (λ c. not (c ==ℕ b'.')) s

-- Whether a part of a path is kept: something is left of it without its dots.
unfoldable pub is_kept : Text → Bool
unfolding sanitize_text without_dots is_nil
is_kept x = not (is_nil (sanitize_text (without_dots x)))

unfoldable pub sanitized_parts : Text → List Text
unfolding is_kept
sanitized_parts s = map sanitize_text (select is_kept (split b'/' (slashes s)))

unfoldable pub sanitize_filepath : Option Text → Option Text
sanitize_filepath none = none
sanitize_filepath (some s) = some (join b'/' (sanitized_parts s))

abbrev pub option_text_eq : Option Text → Option Text → Bool
option_text_eq none none = true
option_text_eq (some s) (some t) = text_eq s t
option_text_eq none (some t) = false
option_text_eq (some s) none = false

-- `validate_filepath_prefix`
unfoldable pub validate_filepath_prefix : Option Text → Result Refusal (Option Text)
validate_filepath_prefix s =
    let stripped = sanitize_filepath s in
    if not (option_text_eq stripped s)
    then err (validation "Invalid filepath prefix")
    else ok stripped
