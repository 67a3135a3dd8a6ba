-- ===== src/Version/Order.antt =====
-- `StrictVersion._cmp` of Python's distutils, by which repository/package_reference.py and
-- repository/models/package.py compare versions.

use thunderstore.Prelude.{
  ℕ, ◌≡◌, refl, ap₂, ◌∙◌, ◌≢◌, Option, none, some, arith, ltb, if◌then◌else◌,
}
use thunderstore.Version.{Version}

pub data Sign : Type 0 where
  less same more : Sign

-- The first difference decides.
abbrev pub then_by : Sign → Sign → Sign
then_by same s = s
then_by less s = less
then_by more s = more

abbrev pub sign : ℕ → ℕ → Sign
sign a b = if ltb a b then less else if ltb b a then more else same

-- A version with a pre-release is earlier than the same without.
abbrev pub compare_prerelease : Option (ℕ × ℕ) → Option (ℕ × ℕ) → Sign
compare_prerelease none none = same
compare_prerelease (some p) none = less
compare_prerelease none (some q) = more
compare_prerelease (some (l, n)) (some (k, m)) = then_by (sign l k) (sign n m)

-- `StrictVersion._cmp`
unfoldable pub compare_versions : Version → Version → Sign
compare_versions v w = then_by (sign v.major w.major) (
    then_by (sign v.minor w.minor)
      (then_by (sign v.patch w.patch) (compare_prerelease v.prerelease w.prerelease)))

abbrev pub flip : Sign → Sign
flip less = more
flip same = same
flip more = less

flip-then_by : (s t : Sign) → flip (then_by s t) ≡ then_by (flip s) (flip t)
flip-then_by less t = refl
flip-then_by same t = refl
flip-then_by more t = refl

flip-sign : (a b : ℕ) → flip (sign a b) ≡ sign b a
flip-sign a b = ground arith

flip-compare_prerelease :
    (p q : Option (ℕ × ℕ)) → flip (compare_prerelease p q) ≡ compare_prerelease q p
flip-compare_prerelease none none = refl
flip-compare_prerelease (some p) none = refl
flip-compare_prerelease none (some q) = refl
flip-compare_prerelease (some (l, n)) (some (k, m)) =
    flip-then_by (sign l k) (sign n m) ∙ ap₂ then_by (flip-sign l k) (flip-sign n m)

-- Comparing the other way round gives the opposite answer.
pub compare_versions-flip : (v w : Version) → compare_versions w v ≡ flip (compare_versions v w)
unfolding compare_versions
compare_versions-flip v w = simp (flip-then_by, flip-sign, flip-compare_prerelease)

sign_same : (a b : ℕ) → sign a b ≡ same → a ≡ b
sign_same a b h = ground arith

then_by_same : (s t : Sign) → then_by s t ≡ same → (s ≡ same) × (t ≡ same)
then_by_same same t h = (refl, h)
then_by_same less t h = cc
then_by_same more t h = cc

prerelease_same : (p q : Option (ℕ × ℕ)) → compare_prerelease p q ≡ same → p ≡ q
prerelease_same none none h = refl
prerelease_same (some p) none h = cc
prerelease_same none (some q) h = cc
prerelease_same (some (l, n)) (some (k, m)) h =
    let (a, b) = then_by_same (sign l k) (sign n m) h in
    ground (arith, sign_same l k a, sign_same n m b)

-- Versions compare as the same only if they are the same, pre-release included.
pub compare_versions_same : (v w : Version) → compare_versions v w ≡ same → v ≡ w
unfolding compare_versions
compare_versions_same v w h =
    let (a, h₁) = then_by_same (sign v.major w.major) _ h in
    let (b, h₂) = then_by_same (sign v.minor w.minor) _ h₁ in
    let (c, d) = then_by_same (sign v.patch w.patch) _ h₂ in
    ground (
      arith,
      sign_same v.major w.major a,
      sign_same v.minor w.minor b,
      sign_same v.patch w.patch c,
      prerelease_same v.prerelease w.prerelease d,
    )

-- What a comparison of the first and the third must be, if neither step goes down.
abbrev Chains : Sign → Sign → Sign → Type 0
Chains s t u = s ≢ more → t ≢ more → u ≡ then_by s t

chain-then_by :
    (s t u s' t' u' : Sign)
    → Chains s t u
    → Chains s' t' u'
    → Chains (then_by s s') (then_by t t') (then_by u u')
chain-then_by less less u s' t' u' h k p q = rw (h p q) refl
chain-then_by less same u s' t' u' h k p q = rw (h p (cc)) refl
chain-then_by same less u s' t' u' h k p q = rw (h (cc) q) (ground arith)
chain-then_by same same u s' t' u' h k p q = rw (h (cc) (cc)) (k p q)
chain-then_by more t u s' t' u' h k p q = absurd (p refl)
chain-then_by less more u s' t' u' h k p q = absurd (q refl)
chain-then_by same more u s' t' u' h k p q = absurd (q refl)

chain-sign : (a b c : ℕ) → Chains (sign a b) (sign b c) (sign a c)
chain-sign a b c h k = ground arith

chain-prerelease :
    (p q r : Option (ℕ × ℕ))
    → Chains (compare_prerelease p q) (compare_prerelease q r) (compare_prerelease p r)
chain-prerelease (some (a, l)) (some (b, m)) (some (c, n)) =
    chain-then_by (sign a b) (sign b c) (sign a c) (sign l m) (sign m n) (sign l n)
      (chain-sign a b c) (chain-sign l m n)
chain-prerelease none none r = λ h k. refl
chain-prerelease none (some q) r = λ h k. absurd (h refl)
chain-prerelease (some p) none none = λ h k. refl
chain-prerelease (some p) none (some r) = λ h k. absurd (k refl)
chain-prerelease (some p) (some q) none = λ h k. ground arith

-- If the first version is not later than the second nor the second later than the third, then the
-- first and the third are the same if both pairs are, and otherwise the first is earlier.
pub compare_versions_trans :
    (v w x : Version)
    → compare_versions v w ≢ more
    → compare_versions w x ≢ more
    → compare_versions v x ≡ then_by (compare_versions v w) (compare_versions w x)
unfolding compare_versions
compare_versions_trans v w x =
    chain-then_by (sign v.major w.major) (sign w.major x.major) (sign v.major x.major) _ _ _
      (chain-sign v.major w.major x.major)
      (chain-then_by (sign v.minor w.minor) (sign w.minor x.minor) (sign v.minor x.minor) _ _ _
        (chain-sign v.minor w.minor x.minor)
        (chain-then_by (sign v.patch w.patch) (sign w.patch x.patch) (sign v.patch x.patch) _ _ _
          (chain-sign v.patch w.patch x.patch)
          (chain-prerelease v.prerelease w.prerelease x.prerelease)))
