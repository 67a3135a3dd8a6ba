-- ===== src/Schema/Rows.antt =====
-- What an import of schema_import/sync.py leaves of a community, row by row, told apart from how it assigns
-- them.
use thunderstore.Prelude.{
  ℕ, suc, ◌≡◌, refl, sym, ap, ◌∙◌, subst, ◌⊎◌, inl, inr, Bool, true, false, ◌&&◌, Option, none,
  some, List, [], ◌∷◌, ◌++◌, arith, ◌==ℕ◌, ==ℕ_iff, Bool-cases, any, first, Text, codes, text_eq,
  text_eq_refl, negated, FirstHas, upsert-FirstHas_of, upsert-FirstHas_new, FirstHas-map,
  first-FirstHas,
}
use thunderstore.Reference.{PackageReference}
use thunderstore.Schema.{
  starts_with, drop_codes, SchemaSection, SchemaMeta, SchemaCommunity, CommunityRow,
  PackageCategory, SectionRow, SchemaDb, no_images, is_section, is_community, categories_named,
  section_as, community_as, new_community, given_or, get_slogan_from_display_name, save_community,
}
use thunderstore.Schema.Imported.{HasSections}
use thunderstore.Schema.Again.{Updates}

starts_with-cases :
    (prefix text : Text)
    → ((starts_with prefix text ≡ true) × ((t : Text) × (text ≡ prefix ++ t)))
      ⊎ ((starts_with prefix text ≡ false) × ((t : Text) → ¬ (text ≡ prefix ++ t)))
starts_with-cases [] text = inl (refl, (text, refl))
starts_with-cases (c ∷ prefix) [] = inr (refl, λ t e. cc)
starts_with-cases (c ∷ prefix) (d ∷ text) = elim (Bool-cases (c ==ℕ d)) [
  | inr n ↦ inr (rw n refl, λ t e. let k : d ≡ c = cc in let clash = (==ℕ_iff c d).1 (sym k) in cc)
  | inl q ↦ elim (starts_with-cases prefix text) [
    | inl (s, (t, e)) ↦ inl (rw (q, s) refl, (t, let k = (==ℕ_iff c d).0 q in cc))
    | inr (s, h) ↦ inr (rw (q, s) refl, λ t e. h t cc)
  ]
]

given_or-eq {ℓ} :
    {A : Type ℓ} (o : Option A) (a : A)
    → given_or o a ≡ elim o as (λ x. A) [ some given ↦ given | none ↦ a ]
given_or-eq none a = refl
given_or-eq (some b) a = refl

-- A new community is not listed and has no images.
abbrev pub was_listed : Option CommunityRow → Bool
was_listed none = false
was_listed (some c) = c.is_listed

abbrev pub images_before : Option CommunityRow → SchemaMeta
images_before none = no_images
images_before (some c) = c.images

-- The keys are those of the community's categories that have one of the slugs.
abbrev pub AreKeysOf : ℕ → List PackageCategory → List Text → List ℕ → Type 0
AreKeysOf community categories slugs keys =
    (k : ℕ)
    → any (λ j. j ==ℕ k) keys
      ≡ any
          (λ (r : PackageCategory).
            (r.pk ==ℕ k) && ((r.community ==ℕ community) && any (text_eq r.slug) slugs))
          categories

categories_named-AreKeysOf :
    (community : ℕ) (slugs : List Text) (categories : List PackageCategory)
    → AreKeysOf community categories slugs (categories_named community slugs categories)
unfolding categories_named
categories_named-AreKeysOf community slugs [] k = refl
categories_named-AreKeysOf community slugs (r ∷ rows) k =
    ground (arith, categories_named-AreKeysOf community slugs rows k)

-- The section has the name and the categories of the schema, and its place in it.
pub record IsSectionAs (now community : ℕ) (categories : List PackageCategory) (index : ℕ)
    (v : SchemaSection) (r : SectionRow) : Type 0 where
  pub name : r.name ≡ v.name
  pub priority : r.priority ≡ negated index
  pub is_listed : r.is_listed ≡ true
  pub required : AreKeysOf community categories v.require_categories r.require_categories
  pub excluded : AreKeysOf community categories v.exclude_categories r.exclude_categories
  pub saved : r.datetime_updated ≡ now

section_as-IsSectionAs :
    (now community : ℕ) (categories : List PackageCategory) (index : ℕ) (v : SchemaSection)
    (r : SectionRow)
    → section_as now community categories index v r ≡ r
    → IsSectionAs now community categories index v r
section_as-IsSectionAs now community categories index v r e =
    subst (IsSectionAs now community categories index v) e (record {
      name = refl;
      priority = refl;
      is_listed = refl;
      required = categories_named-AreKeysOf community v.require_categories categories;
      excluded = categories_named-AreKeysOf community v.exclude_categories categories;
      saved = refl;
    })

-- The sections of the schema, in its order, starting at a place
abbrev pub HasSectionsAs :
    ℕ → ℕ → List PackageCategory → List SectionRow → ℕ → List (Text × SchemaSection) → Type 0
HasSectionsAs now community categories rows index [] = Unit
HasSectionsAs now community categories rows index ((slug, v) ∷ es) =
    FirstHas (is_section community slug) (IsSectionAs now community categories index v) rows
    × HasSectionsAs now community categories rows (suc index) es

pub sections-HasSectionsAs :
    (now community : ℕ) (categories : List PackageCategory) (rows : List SectionRow) (index : ℕ)
    (es : List (Text × SchemaSection))
    → HasSections now community categories rows index es
    → HasSectionsAs now community categories rows index es
sections-HasSectionsAs now community categories rows index [] h = tt
sections-HasSectionsAs now community categories rows index ((slug, v) ∷ es) (h, k) = (
  FirstHas-map (is_section community slug)
      (λ (r : SectionRow). section_as now community categories index v r ≡ r)
      (IsSectionAs now community categories index v) rows
      (λ r e. section_as-IsSectionAs now community categories index v r e) h,
  sections-HasSectionsAs now community categories rows (suc index) es k,
)

module _ (lower : Text → Text) (package_of : PackageReference → Option ℕ) where
  -- "The", the name without an article in front of it, and "Mod Database"
  abbrev pub IsSloganOf : Text → Text → Type 0
  IsSloganOf name slogan =
      (rest : Text) × (slogan ≡ codes "The " ++ (rest ++ codes " Mod Database"))
      × (((rest ≡ drop_codes 4 name) × ((t : Text) × (lower name ≡ codes "the " ++ t)))
          ⊎ ((rest ≡ name) × ((t : Text) → ¬ (lower name ≡ codes "the " ++ t))))

  slogan-IsSloganOf :
      (name : Text) → IsSloganOf name (get_slogan_from_display_name lower package_of name)
  unfolding get_slogan_from_display_name
  slogan-IsSloganOf name = elim (starts_with-cases (codes "the ") (lower name)) [
    | inl (s, t) ↦ rw s (drop_codes 4 name, refl, inl (refl, t))
    | inr (s, h) ↦ rw s (name, refl, inr (refl, h))
  ]

  -- The community's columns, by the row that was there before, if there was one
  pub record IsCommunityAs (now pk : ℕ) (schema : SchemaCommunity) (before : Option CommunityRow)
      (c : CommunityRow) : Type 0 where
    pub key : c.pk ≡ pk
    pub name : c.name ≡ schema.display_name
    pub slogan : IsSloganOf schema.display_name c.slogan
    pub short_description : c.short_description ≡ schema.short_description
    pub description :
        c.description ≡ codes "Thunderstore is a mod database and API for downloading mods"
    pub discord_url : c.discord_url ≡ schema.discord_url
    pub wiki_url : c.wiki_url ≡ schema.wiki_url
    pub is_listed : c.is_listed ≡ elim schema.listed [
      | some given ↦ given
      | none ↦ elim before [ none ↦ false | some b ↦ b.is_listed ]
    ]
    pub images : c.images ≡ elim schema.paths [
      | some given ↦ given
      | none ↦ elim before [ none ↦ no_images | some b ↦ b.images ]
    ]
    pub open_to : c.block_auto_updates ≡ false
    pub saved : c.datetime_updated ≡ now

  community_as-IsCommunityAs :
      (now pk : ℕ) (schema : SchemaCommunity) (before : Option CommunityRow) (c : CommunityRow)
      → c.pk ≡ pk
      → c.block_auto_updates ≡ false
      → c.is_listed ≡ was_listed before
      → c.images ≡ images_before before
      → IsCommunityAs now pk schema before (community_as lower package_of now schema c)
  unfolding community_as
  community_as-IsCommunityAs now pk schema before c k o l i = record {
    key = k;
    name = refl;
    slogan = slogan-IsSloganOf schema.display_name;
    short_description = refl;
    description = refl;
    discord_url = refl;
    wiki_url = refl;
    is_listed = ap (given_or schema.listed) l ∙ given_or-eq schema.listed (was_listed before);
    images = ap (given_or schema.paths) i ∙ given_or-eq schema.paths (images_before before);
    open_to = o;
    saved = refl;
  }

  pub save_community-IsCommunityAs :
      (now pk : ℕ) (identifier : Text) (schema : SchemaCommunity) (db : SchemaDb)
      → Updates lower package_of now pk identifier db
      → FirstHas
          (is_community identifier)
          (IsCommunityAs now pk schema (first (is_community identifier) db.communities))
          (save_community lower package_of now identifier schema db).communities
  unfolding save_community community_as new_community
  save_community-IsCommunityAs now pk identifier schema db (inl (c, e, k, u)) =
      upsert-FirstHas_of (is_community identifier) (community_as lower package_of now schema)
        (new_community db.fresh identifier) (λ (x : CommunityRow). x ≡ c)
        (IsCommunityAs now pk schema (first (is_community identifier) db.communities))
        db.communities
        (λ x t q. (
          t,
          rw e (
              community_as-IsCommunityAs now pk schema (some c) x
                (ap (λ (y : CommunityRow). y.pk) q ∙ k)
                (ap (λ (y : CommunityRow). y.block_auto_updates) q ∙ u)
                (ap (λ (y : CommunityRow). y.is_listed) q) (ap (λ (y : CommunityRow). y.images) q)),
        ))
        (first-FirstHas (is_community identifier) db.communities c e)
  save_community-IsCommunityAs now pk identifier schema db (inr (e, k)) =
      upsert-FirstHas_new (is_community identifier) (community_as lower package_of now schema)
        (new_community db.fresh identifier)
        (IsCommunityAs now pk schema (first (is_community identifier) db.communities))
        db.communities (text_eq_refl identifier)
        (rw e (
          community_as-IsCommunityAs now pk schema none (new_community db.fresh identifier) k refl
            refl refl))
        e
