-- ===== src/Community/Sites.antt =====
-- `Community.main_site` and `should_use_old_urls` of community/models/community.py.
use thunderstore.Prelude.{
  ◌≤◌, ◌≡◌, sym, ap, ◌∙◌, subst, ◌⊎◌, inl, inr, Bool, true, false, Option, none, some, List, [],
  ◌∷◌, arith, leb, Option-cases, is_some, first, All, some_inj, All-weaken, first-eq-some, Text,
  text_eq, text_eq_iff, sort_by, IsSorted, All-unsort_by, sort_by-IsSorted,
}
use thunderstore.Community.{CommunitySite, Community}

abbrev by_key : CommunitySite → CommunitySite → Bool
by_key a b = leb a.pk b.pk

abbrev on_host : Text → CommunitySite → Bool
on_host primary_host s = text_eq s.domain primary_host

-- `sites.sort(key=lambda x: x.site_id)`
unfoldable pub sort_sites : List CommunitySite → List CommunitySite
sort_sites sites = sort_by by_key sites

abbrev pub head_site : List CommunitySite → Option CommunitySite
head_site [] = none
head_site (s ∷ ss) = some s

unfoldable pub main_site : Text → Community → Option CommunitySite
unfolding sort_sites
main_site primary_host c =
    let sites = sort_sites c.sites in
    elim (first (on_host primary_host) sites) [ some s ↦ some s | none ↦ head_site sites ]

-- `Community.should_use_old_urls`
unfoldable pub should_use_old_urls : Text → Option Community → Bool
should_use_old_urls primary_host none = true
should_use_old_urls primary_host (some c) = is_some (main_site primary_host c)

first-eq-none :
    (p : CommunitySite → Bool) (ss : List CommunitySite)
    → first p ss ≡ none
    → All (λ (t : CommunitySite). p t ≡ false) ss
first-eq-none p [] e = tt
first-eq-none p (s ∷ ss) e = ground (arith, first-eq-none p ss)

sort_sites-IsSorted : (ss : List CommunitySite) → IsSorted by_key (sort_sites ss)
unfolding sort_sites main_site
sort_sites-IsSorted ss =
    sort_by-IsSorted by_key (λ a b h. ground arith) (λ a b c h k. ground arith) ss

head_site-least :
    (ss : List CommunitySite) (s : CommunitySite)
    → IsSorted by_key ss
    → head_site ss ≡ some s
    → All (λ (t : CommunitySite). s.pk ≤ t.pk) ss
head_site-least [] s q h = tt
head_site-least (a ∷ ss) s (q, r) h =
    let there : a ≡ s = some_inj h in
    subst (λ b. All (λ (t : CommunitySite). b.pk ≤ t.pk) (a ∷ ss)) there
      (omega arith, All-weaken ss (λ t e. ground arith) q)

-- The main site of a community is one on the primary host if there is one, and otherwise no site
-- of the community has a lower key.
pub main_site-eq-some :
    (primary_host : Text) (c : Community) (s : CommunitySite)
    → main_site primary_host c ≡ some s
    → (s.domain ≡ primary_host)
      ⊎ (All (λ (t : CommunitySite). text_eq t.domain primary_host ≡ false) c.sites
          × All (λ (t : CommunitySite). s.pk ≤ t.pk) c.sites)
unfolding sort_sites main_site
main_site-eq-some primary_host c s h =
    let sites = sort_by by_key c.sites in
    elim (Option-cases (first (on_host primary_host) sites)) [
      | inl e ↦
          let missing = first-eq-none (on_host primary_host) sites e in
          let least =
            head_site-least sites s (sort_sites-IsSorted c.sites) (rw (main_site, e) at h) in
          inr (
            All-unsort_by by_key (λ (t : CommunitySite). on_host primary_host t ≡ false) c.sites
                missing,
            All-unsort_by by_key (λ (t : CommunitySite). s.pk ≤ t.pk) c.sites least,
          )
      | inr (a, e) ↦
          let (on, m) = first-eq-some (on_host primary_host) sites e in
          let there : a ≡ s = some_inj (rw (main_site, e) at h) in
          inl (ap CommunitySite.domain (sym there) ∙ (text_eq_iff a.domain primary_host).0 on)
    ]
