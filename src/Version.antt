-- ===== src/Version.antt =====
-- `distutils.version.StrictVersion`, by which versions are read and compared, and
-- `VersionNumberValidator` of repository/validators.py.
pub mod Order
pub mod Roundtrip
use thunderstore.Prelude.{
  ℕ, not, ◌||◌, Option, none, some, [], ◌∷◌, ◌==ℕ◌, if◌then◌else◌, Refusal, Result, ◌>>=◌, ◌>>◌,
  raise_if, Failure, validation, ok, err, value_error, Text, text_eq, join, int, decimal,
}
use thunderstore.Names.{at_end, span_digits, is_nil}

pub record Version : Type 0 where
  pub major : ℕ
  pub minor : ℕ
  pub patch : ℕ
  -- the letter and the number of a pre-release
  pub prerelease : Option (ℕ × ℕ)

-- `(\d+)` and what follows
unfoldable pub number : Text → Result Failure (ℕ × Text)
number s =
    let (ds, rest) = span_digits s in if is_nil ds then err value_error else ok (int ds, rest)

-- `\.` and what follows
unfoldable pub dot : Text → Result Failure Text
dot [] = err value_error
dot (c ∷ s) = if c ==ℕ b'.' then ok s else err value_error

-- `(\. (\d+))?`: the patch number is 0 if there is none
unfoldable pub optional_patch : Text → ℕ × Text
optional_patch s = elim (dot s >>= number) [ ok (n, rest) ↦ (n, rest) | err e ↦ (0, s) ]

-- `([ab](\d+))?`
unfoldable pub optional_prerelease : Text → Option (ℕ × ℕ) × Text
optional_prerelease [] = (none, [])
optional_prerelease (c ∷ s) = elim (number s) [
  | ok (n, rest) ↦ if c ==ℕ b'a' || c ==ℕ b'b' then (some (c, n), rest) else (none, c ∷ s)
  | err e ↦ (none, c ∷ s)
]

-- `StrictVersion(vstring)`
unfoldable pub parse_version : Text → Result Failure Version
parse_version s = do
  (major, s₁) ← number s
  s₂ ← dot s₁
  (minor, s₃) ← number s₂
  let (patch, s₄) = optional_patch s₃
  let (prerelease, s₅) = optional_prerelease s₄
  if at_end s₅
      then ok (record { major = major; minor = minor; patch = patch; prerelease = prerelease })
      else err value_error

-- `".".join(str(x) for x in version.version)`
unfoldable pub version_str : Version → Text
unfolding join
version_str v = join b'.' (decimal v.major ∷ decimal v.minor ∷ decimal v.patch ∷ [])

-- `VersionNumberValidator`
unfoldable pub validate_version_number : Text → Result Refusal (Unit {0})
validate_version_number value = elim (parse_version value) [
  | ok v ↦
      raise_if (not (text_eq (version_str v) value)) (validation "Version should be written as")
  | err e ↦ err (validation "invalid version number")
]
