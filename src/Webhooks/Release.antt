-- ===== src/Webhooks/Release.antt =====
-- To which webhooks a release goes.
use thunderstore.Prelude.{
  ℕ, ◌≡◌, refl, ap, ◌∙◌, inl, inr, Bool, true, false, not, ◌&&◌, ◌||◌, none, some, List, [], ◌∷◌,
  ◌++◌, map, arith, ◌==ℕ◌, Bool-cases, Option-cases, any, all, select, first, Text, codes, text_eq,
}
use thunderstore.Package.{PackageListing, Package, PackageVersion, lists_in, get_package_listing}
use thunderstore.Community.{Community, valid_review_statuses, unreviewed, approved, rejected}
use thunderstore.Webhooks.{
  Webhook, ReleaseMessage, mod_release, is_validly_reviewed, listing_query, or_query, passes,
  collect, get_for_package_release, Query, get_version_release_json, call_with_json,
  post_package_version_release, post_each, announce_release,
}
use thunderstore.Names.{is_nil}

-- A webhook wants a listing that is approved, or unreviewed where no approval is needed, of its own
-- community, with none of the excluded categories, with one of the required ones if there are any,
-- and without NSFW content unless that is allowed.
abbrev pub wants : Webhook → PackageListing → Bool
wants w l =
    elim l.review_status [
      | approved ↦ true
      | unreviewed ↦ not l.community.require_package_listing_approval
      | rejected ↦ false
    ]
    && ((l.community.pk ==ℕ w.community.pk)
        && (all (λ i. not (any (λ c. i ==ℕ c) l.categories)) w.exclude_categories
            && ((is_nil w.require_categories
                  || any (λ i. any (λ c. i ==ℕ c) l.categories) w.require_categories)
                && (not l.has_nsfw_content || w.allow_nsfw))))

-- The release webhooks in use that want a listing of the package
abbrev pub is_wanted : Package → Webhook → Bool
is_wanted p w =
    (text_eq w.webhook_type (codes mod_release) && w.is_active) && any (wants w) p.listings

-- What the loop over the listings asks of a webhook
abbrev asks : Webhook → PackageListing → Bool
asks w l = is_validly_reviewed l && listing_query l w

none_excluded : (p : ℕ → Bool) (ids : List ℕ) → all (λ i. not (p i)) ids ≡ not (any p ids)
none_excluded p [] = refl
none_excluded p (i ∷ ids) = ground (arith, none_excluded p ids)

asks-wants : (w : Webhook) (l : PackageListing) → asks w l ≡ wants w l
unfolding is_validly_reviewed listing_query valid_review_statuses
asks-wants w l =
    ground (arith, none_excluded (λ i. any (λ c. i ==ℕ c) l.categories) w.exclude_categories)

any-asks : (w : Webhook) (ls : List PackageListing) → any (asks w) ls ≡ any (wants w) ls
any-asks w [] = refl
any-asks w (l ∷ ls) = let e = asks-wants w l in let ih = any-asks w ls in rw (e, ih) refl

abbrev is_asked : Package → Webhook → Bool
is_asked p w =
    (text_eq w.webhook_type (codes mod_release) && w.is_active) && any (asks w) p.listings

abbrev is_among : Webhook → List Community → Bool
is_among w cs = any (λ (c : Community). w.community.pk ==ℕ c.pk) cs

module _ (w : Webhook) where
  any-append-one :
      (cs : List Community) (c : Community)
      → is_among w (cs ++ c ∷ []) ≡ (is_among w cs || (w.community.pk ==ℕ c.pk))
  any-append-one [] c = ground arith
  any-append-one (d ∷ cs) c = ground (arith, any-append-one cs c)

  passes-collect :
      (ls : List PackageListing) (q : Webhook → Bool) (cs : List Community)
      → passes (collect ls (some q) cs).0 w ≡ (q w || any (asks w) ls)
  unfolding collect
  passes-collect [] q cs = ground arith
  passes-collect (l ∷ ls) q cs = elim (Bool-cases (is_validly_reviewed l)) [
    | inl e ↦
        let ih = passes-collect ls (λ v. q v || listing_query l v) (cs ++ l.community ∷ []) in
        rw (e, collect, ih) (ground arith)
    | inr e ↦ let ih = passes-collect ls q cs in rw (e, collect, ih) refl
  ]

  abbrev is_hosted : PackageListing → Bool
  is_hosted l = is_validly_reviewed l && (w.community.pk ==ℕ l.community.pk)

  is_among-collect :
      (ls : List PackageListing) (q : Query) (cs : List Community)
      → is_among w (collect ls q cs).1 ≡ (is_among w cs || any is_hosted ls)
  unfolding collect
  is_among-collect [] q cs = ground arith
  is_among-collect (l ∷ ls) q cs = elim (Bool-cases (is_validly_reviewed l)) [
    | inl e ↦
        let ih = is_among-collect ls (or_query q (listing_query l)) (cs ++ l.community ∷ []) in
        rw (e, collect, ih, any-append-one cs l.community) (ground arith)
    | inr e ↦ let ih = is_among-collect ls q cs in rw (e, collect, ih) refl
  ]

  -- What a listing lets through is of its own community.
  hosted_of_query :
      (l : PackageListing) → listing_query l w ≡ true → (w.community.pk ==ℕ l.community.pk) ≡ true
  unfolding listing_query
  hosted_of_query l h = ground arith

  hosted_of_asks : (ls : List PackageListing) → any (asks w) ls ≡ true → any is_hosted ls ≡ true
  hosted_of_asks [] h = h
  hosted_of_asks (l ∷ ls) h = ground (arith, hosted_of_asks ls, hosted_of_query l)

  collect-asks :
      (ls : List PackageListing)
      → (passes (collect ls none []).0 w && is_among w (collect ls none []).1) ≡ any (asks w) ls
  unfolding collect
  collect-asks [] = refl
  collect-asks (l ∷ ls) = elim (Bool-cases (is_validly_reviewed l)) [
    | inl e ↦
        let m = passes-collect ls (listing_query l) (l.community ∷ []) in
        let n = is_among-collect ls (some (listing_query l)) (l.community ∷ []) in
        rw (e, collect, m, n) (ground (arith, hosted_of_asks ls, hosted_of_query l))
    | inr e ↦ let ih = collect-asks ls in rw (e, collect, ih) refl
  ]

select_ext :
    (q r : Webhook → Bool)
    → ((w : Webhook) → q w ≡ r w)
    → (ws : List Webhook) → select q ws ≡ select r ws
select_ext q r h [] = refl
select_ext q r h (w ∷ ws) = let e = h w in let ih = select_ext q r h ws in rw (e, ih) refl

get_for_package_release-eq :
    (webhooks : List Webhook) (p : Package)
    → get_for_package_release webhooks p ≡ select (is_asked p) webhooks
unfolding get_for_package_release
get_for_package_release-eq webhooks p =
    select_ext
      (λ (w : Webhook).
        (text_eq w.webhook_type (codes mod_release) && w.is_active)
        && (passes (collect p.listings none []).0 w && is_among w (collect p.listings none []).1))
      (is_asked p)
      (λ w.
        ap (λ b. (text_eq w.webhook_type (codes mod_release) && w.is_active) && b)
          (collect-asks w p.listings))
      webhooks

listing_of_asks :
    (w : Webhook) (ls : List PackageListing)
    → any (asks w) ls ≡ true
    → (l : PackageListing) × (first (lists_in w.community) ls ≡ some l)
unfolding listing_query
listing_of_asks w [] h = absurd (ground arith)
listing_of_asks w (l ∷ ls) h = elim (Bool-cases (lists_in w.community l)) [
  | inl e ↦ (l, rw e refl)
  | inr e ↦
      let later : any (asks w) ls ≡ true = ground (arith, hosted_of_query w l) in
      let (k, f) = listing_of_asks w ls later in (k, (rw e f))
]

module _ (icon_url description_of : PackageVersion → Text) (get_full_url : PackageListing → Text)
    (category_name : ℕ → Text) (site_root : Text) (p : Package) (v : PackageVersion) where
  post_wanted :
      (w : Webhook)
      → is_asked p w ≡ true
      → (message : ReleaseMessage) × (post_package_version_release icon_url description_of
            get_full_url category_name site_root w p v
          ≡ (w.webhook_url, message) ∷ [])
  unfolding post_package_version_release get_version_release_json get_package_listing call_with_json
  post_wanted w h =
      let (l, e) = listing_of_asks w p.listings (ground arith) in
      let active : w.is_active ≡ true = ground arith in
      elim (Option-cases (
        get_version_release_json icon_url description_of get_full_url category_name site_root w p
          v)) [
            | inl n ↦
                absurd (let k = rw (get_version_release_json, get_package_listing, e) at n in cc)
            | inr (message, f) ↦
                (message, rw (post_package_version_release, f, call_with_json, active) refl)
          ]

  announced :
      (ws : List Webhook)
      → map
          (λ post. post.0)
          (post_each icon_url description_of get_full_url category_name site_root
            (select (is_asked p) ws)
            p
            v)
        ≡ map (λ (w : Webhook). w.webhook_url) (select (is_asked p) ws)
  unfolding post_each
  announced [] = refl
  announced (w ∷ ws) = elim (Bool-cases (is_asked p w)) [
    | inl e ↦
        let (message, once) = post_wanted w e in
        let ih = announced ws in rw (e, post_each, once, ih) refl
    | inr e ↦ let ih = announced ws in rw (e, ih) refl
  ]

  -- A release is posted once to the address of each webhook that wants it, in their order.
  pub announce_release-urls :
      (webhooks : List Webhook)
      → map
          (λ post. post.0)
          (announce_release icon_url description_of get_full_url category_name site_root webhooks p
            v)
        ≡ map (λ (w : Webhook). w.webhook_url) (select (is_wanted p) webhooks)
  unfolding announce_release
  announce_release-urls webhooks =
      let e = get_for_package_release-eq webhooks p in
      let same_hooks =
        select_ext (is_asked p) (is_wanted p)
          (λ w.
            ap (λ b. (text_eq w.webhook_type (codes mod_release) && w.is_active) && b)
              (any-asks w p.listings))
          webhooks in
      rw (announce_release, e)
        (announced webhooks
          ∙ ap (λ (ws : List Webhook). map (λ (w : Webhook). w.webhook_url) ws) same_hooks)
