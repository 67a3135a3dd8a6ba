-- ===== src/Reference/Splitting.antt =====
-- `split`, `join`, `count` and slices of a text that has a separator.
use thunderstore.Prelude.{
  ℕ, suc, ◌+◌, ◌≡◌, refl, ap, inl, inr, false, List, [], ◌∷◌, ◌++◌, append_assoc, append-nil, arith,
  ◌==ℕ◌, ==ℕ_iff, ==ℕ_refl, Bool-cases, length, All, All-append, Text, split_from, split, join,
  count,
}
use thunderstore.Reference.{last_part, init_parts, take}

abbrev pub NoSep : ℕ → Text → Type 0
NoSep sep s = All (λ c. (c ==ℕ sep) ≡ false) s

module _ (sep : ℕ) where
  split_from-append :
      (cur a b : Text) → split_from sep cur (a ++ sep ∷ b) ≡ split_from sep cur a ++ split sep b
  unfolding split_from split
  split_from-append cur [] b = rw ==ℕ_refl refl
  split_from-append cur (c ∷ a) b =
      ground (arith, split_from-append [] a b, split_from-append (cur ++ c ∷ []) a b)

  -- Splitting where a separator is known to stand.
  pub split-append : (a b : Text) → split sep (a ++ sep ∷ b) ≡ split sep a ++ split sep b
  unfolding split
  split-append a b = split_from-append [] a b

  split_from_single : (cur s : Text) → NoSep sep s → split_from sep cur s ≡ (cur ++ s) ∷ []
  unfolding split_from
  split_from_single cur [] h = rw append-nil refl
  split_from_single cur (c ∷ s) (n, h) =
      rw n (rw (split_from_single (cur ++ c ∷ []) s h) (rw (append_assoc cur (c ∷ []) s) refl))

  pub split_single : (s : Text) → NoSep sep s → split sep s ≡ s ∷ []
  unfolding split
  split_single s h = split_from_single [] s h

  join-cons : (p q : Text) (ps : List Text) → join sep (p ∷ q ∷ ps) ≡ p ++ sep ∷ join sep (q ∷ ps)
  unfolding join
  join-cons p q ps = refl

  split_from-cons : (cur s : Text) → (q : Text) × (qs : List Text) × (split_from sep cur s ≡ q ∷ qs)
  unfolding split_from
  split_from-cons cur [] = (cur, [], refl)
  split_from-cons cur (c ∷ s) = elim (Bool-cases (c ==ℕ sep)) [
    | inl e ↦ (cur, split_from sep [] s, rw e refl)
    | inr e ↦ rw e (split_from-cons (cur ++ c ∷ []) s)
  ]

  join-split_from : (cur s : Text) → join sep (split_from sep cur s) ≡ cur ++ s
  unfolding split_from
  join-split_from cur [] = rw append-nil (unfold join in refl)
  join-split_from cur (c ∷ s) = elim (Bool-cases (c ==ℕ sep)) [
    | inl e ↦
        let (q, qs, shape) = split_from-cons [] s in
        rw e
          (rw (shape, join-cons cur q qs, ← shape, join-split_from [] s, (==ℕ_iff c sep).0 e) refl)
    | inr e ↦ rw (e, join-split_from (cur ++ c ∷ []) s, append_assoc cur (c ∷ []) s) refl
  ]

  -- Joining the parts gives the text back.
  pub join-split : (s : Text) → join sep (split sep s) ≡ s
  unfolding split
  join-split s = join-split_from [] s

  split_from-NoSep : (cur s : Text) → NoSep sep cur → All (NoSep sep) (split_from sep cur s)
  unfolding split_from
  split_from-NoSep cur [] h = (h, tt)
  split_from-NoSep cur (c ∷ s) h = elim (Bool-cases (c ==ℕ sep)) [
    | inl e ↦ rw e (h, split_from-NoSep [] s tt)
    | inr e ↦ rw e (
        split_from-NoSep (cur ++ c ∷ []) s
          (All-append (λ d. (d ==ℕ sep) ≡ false) cur (c ∷ []) h (e, tt)))
  ]

  pub split-NoSep : (s : Text) → All (NoSep sep) (split sep s)
  unfolding split
  split-NoSep s = split_from-NoSep [] s tt

  pub count-append : (a b : Text) → count sep (a ++ b) ≡ count sep a + count sep b
  unfolding count
  count-append [] b = omega arith
  count-append (c ∷ a) b = ground (arith, count-append a b)

  pub count-NoSep : (s : Text) → NoSep sep s → count sep s ≡ 0
  unfolding count
  count-NoSep [] h = refl
  count-NoSep (c ∷ s) (n, h) = rw n (count-NoSep s h)

  pub count-sep : (s : Text) → count sep (sep ∷ s) ≡ suc (count sep s)
  unfolding count
  count-sep s = rw ==ℕ_refl refl

pub last_part-append : (ps : List Text) (p : Text) → last_part (ps ++ p ∷ []) ≡ p
unfolding last_part
last_part-append [] p = refl
last_part-append (q ∷ []) p = refl
last_part-append (q ∷ r ∷ ps) p = last_part-append (r ∷ ps) p

pub init_parts-append : (ps : List Text) (p : Text) → init_parts (ps ++ p ∷ []) ≡ ps
unfolding init_parts
init_parts-append [] p = refl
init_parts-append (q ∷ []) p = refl
init_parts-append (q ∷ r ∷ ps) p = ap (λ l. q ∷ l) (init_parts-append (r ∷ ps) p)

pub last_part-All : (P : Text → Type 0) (ps : List Text) → P [] → All P ps → P (last_part ps)
unfolding last_part
last_part-All P [] n h = n
last_part-All P (p ∷ []) n h = h.0
last_part-All P (p ∷ q ∷ ps) n h = last_part-All P (q ∷ ps) n h.1

pub take-append : (a b : Text) → take (length a) (a ++ b) ≡ a
unfolding take
take-append [] b = refl
take-append (c ∷ a) b = ap (λ l. c ∷ l) (take-append a b)
