-- ===== src/Version/Roundtrip.antt =====
-- `version_str` of repository/package_reference.py and `VersionNumberValidator` of
-- repository/validators.py.
use thunderstore.Prelude.{
  ℕ, ◌+◌, ◌/◌, ◌%◌, ◌≡◌, refl, subst, ◌↔◌, inl, inr, false, ◌&&◌, none, [], ◌∷◌, ◌++◌, append-nil,
  arith, leb, All, Result-cases, ok, Text, text_eq_refl, text_eq_iff, decimal_from, decimal,
  IsDigit, int-decimal, decimal-IsDigit,
}
use thunderstore.Names.{span_digits, is_nil, at_end}
use thunderstore.Version.{
  Version, number, parse_version, version_str, dot, optional_patch, optional_prerelease,
  validate_version_number,
}

-- Nothing, or a character that is no digit.
abbrev pub StopsDigits : Text → Type 0
StopsDigits [] = Unit
StopsDigits (c ∷ s) = (leb b'0' c && leb c b'9') ≡ false

span_digits-append :
    (ds rest : Text) → All IsDigit ds → StopsDigits rest → span_digits (ds ++ rest) ≡ (ds, rest)
unfolding span_digits
span_digits-append [] [] h k = refl
span_digits-append [] (c ∷ s) h k = ground arith
span_digits-append (d ∷ ds) rest h k = ground (arith, span_digits-append ds rest h.1 k)

is_nil-snoc : (s : Text) (c : ℕ) → is_nil (s ++ c ∷ []) ≡ false
unfolding is_nil
is_nil-snoc [] c = refl
is_nil-snoc (d ∷ s) c = refl

is_nil-decimal : (n : ℕ) → is_nil (decimal n) ≡ false
unfolding decimal is_nil
is_nil-decimal n = ground (arith, is_nil-snoc (decimal_from n (n / 10)) (48 + n % 10))

-- A number is read back, whatever follows that is no digit.
pub number-decimal :
    (n : ℕ) (rest : Text) → StopsDigits rest → number (decimal n ++ rest) ≡ ok (n, rest)
unfolding number
number-decimal n rest h =
    rw (span_digits-append (decimal n) rest (decimal-IsDigit n) h)
      (rw (is_nil-decimal n) (rw (int-decimal n) refl))

dot_lem : (s : Text) → dot (b'.' ∷ s) ≡ ok s
unfolding dot
dot_lem s = refl

optional_patch_lem :
    (n : ℕ) (rest : Text) → StopsDigits rest → optional_patch (b'.' ∷ decimal n ++ rest) ≡ (n, rest)
unfolding optional_patch
optional_patch_lem n rest h =
    rw (dot_lem (decimal n ++ rest), number-decimal n rest h, optional_patch)

optional_patch_end : (n : ℕ) → optional_patch (b'.' ∷ decimal n) ≡ (n, [])
optional_patch_end n =
    subst (λ s. optional_patch (b'.' ∷ s) ≡ (n, [])) (append-nil (decimal n))
      (optional_patch_lem n [] tt)

-- A version without a pre-release is read back from its text.
pub parse_version-version_str :
    (v : Version) → v.prerelease ≡ none → parse_version (version_str v) ≡ ok v
unfolding parse_version version_str at_end optional_prerelease
parse_version-version_str v h = rw (number-decimal v.major _ refl) (
    rw (dot_lem)
      (rw (number-decimal v.minor _ refl) (rw (optional_patch_end v.patch) (ground arith))))

version_str-release : (v : Version) → version_str (record v { prerelease = none }) ≡ version_str v
unfolding version_str
version_str-release v = refl

-- `VersionNumberValidator` accepts exactly the texts of the versions without a pre-release.
pub validate_version_number_iff :
    (s : Text)
    → (validate_version_number s ≡ ok tt)
      ↔ ((v : Version) × (v.prerelease ≡ none) × (s ≡ version_str v))
unfolding validate_version_number
validate_version_number_iff s = (
  λ h. elim (Result-cases (parse_version s)) [
    | inl (v, e) ↦ (
      record v { prerelease = none },
      refl,
      ground (arith, text_eq_iff (version_str v) s, version_str-release v),
    )
    | inr (f, e) ↦ cc (rw (e, validate_version_number) at h)
  ],
  λ (v, h, e). ground (arith, parse_version-version_str v h, text_eq_refl (version_str v)),
)
