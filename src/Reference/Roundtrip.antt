-- ===== src/Reference/Roundtrip.antt =====
-- `PackageReference.parse` and `__str__` of repository/package_reference.py.
use thunderstore.Prelude.{
  ℕ, ◌+◌, ◌-◌, ◌≤◌, ◌<◌, ◌≡◌, refl, subst, inl, inr, false, Option, none, some, [], ◌∷◌, ◌++◌,
  arith, ltb, Bool-cases, length, length-append, All, All-append, >>=-eq-ok, >>-eq-ok, ok, Text,
  split, join, count, decimal, IsDigit, decimal-IsDigit,
}
use thunderstore.Names.{is_nil}
use thunderstore.Reference.{
  PackageReference, last_part, init_parts, parse_unversioned, parse, take, reference_str,
  parse_versioned,
}
use thunderstore.Version.{Version, version_str, parse_version}
use thunderstore.Version.Roundtrip.{parse_version-version_str}
use thunderstore.Reference.Splitting.{
  NoSep, split-append, split_single, join-split, split-NoSep, count-append, count-NoSep, count-sep,
  last_part-append, init_parts-append, last_part-All, take-append,
}

-- What the parts of a reference must be to be told apart in its text.
pub record IsWellFormed (r : PackageReference) : Type 0 where
  pub named : is_nil r.name ≡ false
  pub spaced : is_nil r.namespace ≡ false
  pub undashed : NoSep b'-' r.name

-- A name that stands last must not look like a version, and a pre-release is not written.
abbrev pub IsPlain : PackageReference → Type 0
IsPlain r = elim r.version [ none ↦ NoSep b'.' r.name | some v ↦ v.prerelease ≡ none ]

digits-NoSep : (sep : ℕ) (s : Text) → sep < 48 → All IsDigit s → NoSep sep s
digits-NoSep sep [] h d = tt
digits-NoSep sep (c ∷ s) h (d, ds) = (ground arith, digits-NoSep sep s h ds)

decimal-NoSep : (sep n : ℕ) → sep < 48 → NoSep sep (decimal n)
decimal-NoSep sep n h = digits-NoSep sep (decimal n) h (decimal-IsDigit n)

version_str-parts :
    (v : Version)
    → version_str v ≡ decimal v.major ++ b'.' ∷ (decimal v.minor ++ b'.' ∷ decimal v.patch)
unfolding version_str
version_str-parts v = refl

version_str-undashed : (v : Version) → NoSep b'-' (version_str v)
version_str-undashed v =
    let nodash = λ (n : ℕ). decimal-NoSep b'-' n (omega arith) in
    rw version_str-parts (
      All-append _ (decimal v.major) _ (nodash v.major)
        (refl, All-append _ (decimal v.minor) _ (nodash v.minor) (refl, nodash v.patch)))

version_str-dots : (v : Version) → count b'.' (version_str v) ≡ 2
version_str-dots v =
    let nodot = λ (n : ℕ). count-NoSep b'.' (decimal n) (decimal-NoSep b'.' n (omega arith)) in
    simp (version_str-parts, count-append, count-sep)
      (omega (arith, nodot v.major, nodot v.minor, nodot v.patch))

-- A text with a last part that has no separator.
last_part-split : (sep : ℕ) (a b : Text) → NoSep sep b → last_part (split sep (a ++ sep ∷ b)) ≡ b
last_part-split sep a b h =
    rw (split-append, split_single sep b h) (last_part-append (split sep a) b)

init_parts-split :
    (sep : ℕ) (a b : Text) → NoSep sep b → join sep (init_parts (split sep (a ++ sep ∷ b))) ≡ a
init_parts-split sep a b h =
    rw (split-append, split_single sep b h, init_parts-append) (join-split sep a)

parse_unversioned-str :
    (version : Option Version) (namespace name : Text)
    → is_nil namespace ≡ false
    → is_nil name ≡ false
    → NoSep b'-' name
    → parse_unversioned version (namespace ++ b'-' ∷ name)
      ≡ ok (record { namespace = namespace; name = name; version = version })
unfolding parse_unversioned
parse_unversioned-str version namespace name n m h =
    rw (last_part-split b'-' namespace name h, init_parts-split b'-' namespace name h, n, m) refl

parse_unversioned-IsWellFormed :
    (version : Option Version) (s : Text) (r : PackageReference)
    → parse_unversioned version s ≡ ok r
    → IsWellFormed r
unfolding parse_unversioned
parse_unversioned-IsWellFormed version s r h =
    let undashed = last_part-All (NoSep b'-') (split b'-' s) tt (split-NoSep b'-' s) in
    record {
      named = ground arith;
      spaced = ground arith;
      undashed = subst (NoSep b'-') (ground arith) undashed;
    }

-- Whatever text is parsed, the reference has a namespace, and a name without a dash.
pub parse-IsWellFormed : (s : Text) (r : PackageReference) → parse s ≡ ok r → IsWellFormed r
unfolding parse parse_versioned
parse-IsWellFormed s r h =
    let version_string = last_part (split b'-' s) in
    elim (Bool-cases (ltb 0 (count b'.' version_string))) [
      | inl dotted ↦
          let (_, h₁) = >>-eq-ok _ _ (rw (dotted, parse) at h) in
          let (_, h₂) = >>-eq-ok _ _ h₁ in
          let (v, _, h₃) = >>=-eq-ok (parse_version version_string) _ h₂ in
          parse_unversioned-IsWellFormed (some v) _ r h₃
      | inr plain ↦ parse_unversioned-IsWellFormed none s r (rw (plain, parse) at h)
    ]

parse-none :
    (namespace name : Text)
    → is_nil namespace ≡ false
    → is_nil name ≡ false
    → NoSep b'-' name
    → NoSep b'.' name
    → parse (namespace ++ b'-' ∷ name)
      ≡ ok (record { namespace = namespace; name = name; version = none })
unfolding parse
parse-none namespace name n m h k = ground (
  arith,
  last_part-split b'-' namespace name h,
  count-NoSep b'.' name k,
  parse_unversioned-str none namespace name n m h,
)

-- Cutting the version and its dash off.
take_before :
    (sep : ℕ) (a b : Text) → take (length (a ++ sep ∷ b) - (length b + 1)) (a ++ sep ∷ b) ≡ a
take_before sep a b =
    let size : length (a ++ sep ∷ b) - (length b + 1) ≡ length a =
      omega (arith, length-append a (sep ∷ b)) in
    rw size (take-append a (sep ∷ b))

dashes : (a b c : Text) → 2 ≤ count b'-' ((a ++ b'-' ∷ b) ++ b'-' ∷ c)
dashes a b c = omega (
  arith,
  count-append b'-' (a ++ b'-' ∷ b) (b'-' ∷ c),
  count-append b'-' a (b'-' ∷ b),
  count-sep b'-' b,
  count-sep b'-' c,
)

parse-some :
    (v : Version) (namespace name : Text)
    → is_nil namespace ≡ false
    → is_nil name ≡ false
    → NoSep b'-' name
    → v.prerelease ≡ none
    → parse ((namespace ++ b'-' ∷ name) ++ b'-' ∷ version_str v)
      ≡ ok (record { namespace = namespace; name = name; version = some v })
unfolding parse parse_versioned
parse-some v namespace name n m h k =
    rw
      (
        last_part-split b'-' (namespace ++ b'-' ∷ name) (version_str v) (version_str-undashed v),
        take_before b'-' (namespace ++ b'-' ∷ name) (version_str v),
      )
      (ground (
        arith,
        version_str-dots v,
        parse_version-version_str v k,
        dashes namespace name (version_str v),
        parse_unversioned-str (some v) namespace name n m h,
      ))

parse_parts :
    (namespace name : Text) (version : Option Version)
    → IsWellFormed (record { namespace = namespace; name = name; version = version })
    → IsPlain (record { namespace = namespace; name = name; version = version })
    → parse (reference_str (record { namespace = namespace; name = name; version = version }))
      ≡ ok (record { namespace = namespace; name = name; version = version })
unfolding reference_str
parse_parts namespace name none w p = parse-none namespace name w.spaced w.named w.undashed p
parse_parts namespace name (some v) w p = parse-some v namespace name w.spaced w.named w.undashed p

-- A well-formed reference is parsed back from its text, if its version has no pre-release and, where
-- it has no version, its name has no dot.
pub parse-reference_str :
    (r : PackageReference) → IsWellFormed r → IsPlain r → parse (reference_str r) ≡ ok r
parse-reference_str r w p = parse_parts r.namespace r.name r.version w p
