-- ===== src/SchemaServer/Updated.antt =====
-- What an update of a channel leaves.
use thunderstore.Prelude.{
  ℕ, ◌≡◌, refl, sym, ap, ◌∙◌, subst, inl, inr, true, false, none, some, List, [], ◌∷◌, ◌++◌, arith,
  ◌==ℕ◌, if◌then◌else◌, Bool-cases, Option-cases, any, first, update_where, some_inj, first-eq-some,
  ok_inj, ok, Text, text_eq, text_eq_refl, text_eq_iff,
}
use thunderstore.SchemaServer.{
  SchemaFile, SchemaChannelFile, SchemaChannel, SchemaDb, has_sum, is_channel, get_or_create,
  create_version, add_new_version, is_unauthorized, update_channel,
}
use thunderstore.Permissions.{User}

abbrev with_latest : SchemaChannelFile → SchemaChannel → SchemaChannel
with_latest row c = record c { latest = some row }

first-update :
    (identifier : Text) (row : SchemaChannelFile) (cs : List SchemaChannel) (c : SchemaChannel)
    → first (is_channel identifier) cs ≡ some c
    → first (is_channel identifier) (update_where (is_channel identifier) (with_latest row) cs)
      ≡ some (with_latest row c)
first-update identifier row [] c h = absurd (ground arith)
first-update identifier row (d ∷ cs) c h = elim (Bool-cases (is_channel identifier d)) [
  | inl e ↦ let k = rw e at h in rw (e, e) (ap (λ x. some (with_latest row x)) (some_inj k))
  | inr e ↦ let k = rw e at h in rw (e, e) (first-update identifier row cs c k)
]

first-update_other :
    (identifier other : Text) (row : SchemaChannelFile) (cs : List SchemaChannel)
    → text_eq identifier other ≡ false
    → first (is_channel other) (update_where (is_channel identifier) (with_latest row) cs)
      ≡ first (is_channel other) cs
first-update_other identifier other row [] h = refl
first-update_other identifier other row (d ∷ cs) h =
    let ih = first-update_other identifier other row cs h in
    elim (Bool-cases (is_channel identifier d)) [
      | inl e ↦
          let differs : is_channel other d ≡ false =
            ap (λ t. text_eq t other) ((text_eq_iff d.identifier identifier).0 e) ∙ h in
          rw (e, differs) ih
      | inr e ↦ rw e (ap (λ r. if is_channel other d then some d else r) ih)
    ]

module _ (sha256 : Text → Text) (gzip_length : Text → ℕ) where
  first-append :
      (s : Text) (f : SchemaFile) (fs : List SchemaFile)
      → first (has_sum s) fs ≡ none
      → has_sum s f ≡ true
      → first (has_sum s) (fs ++ f ∷ []) ≡ some f
  first-append s f [] h e = rw e refl
  first-append s f (g ∷ fs) h e = ground (arith, first-append s f fs)

  stored-found :
      (now : ℕ) (content : Text) (files : List SchemaFile)
      → let stored = get_or_create sha256 gzip_length now content files in
        (first (has_sum (sha256 content)) stored.0 ≡ some stored.1)
        × (stored.1.checksum_sha256 ≡ sha256 content)
  unfolding get_or_create
  stored-found now content files = elim (Option-cases (first (has_sum (sha256 content)) files)) [
    | inl e ↦
        rw (get_or_create, e)
          (first-append (sha256 content) _ files e (text_eq_refl (sha256 content)), refl)
    | inr (f, e) ↦
        rw (get_or_create, e)
          (
            e,
            (text_eq_iff f.checksum_sha256 (sha256 content)).0
                (first-eq-some (has_sum (sha256 content)) files e).0,
          )
  ]

  -- What a channel names after an update
  pub record IsUpdated (identifier content : Text) (agent : User) (db db' : SchemaDb)
      (row : SchemaChannelFile) : Type 0 where
    pub active : agent.is_active ≡ true
    pub authorized :
        (c : SchemaChannel) × (first (is_channel identifier) db.channels ≡ some c)
        × (any (λ k. k ==ℕ agent.pk) c.authorized_users ≡ true)
        × (first (is_channel identifier) db'.channels ≡ some (with_latest row c))
    pub file :
        (f : SchemaFile) × (first (has_sum row.file) db'.files ≡ some f)
        × (f.checksum_sha256 ≡ sha256 content)
    pub others :
        (other : Text)
        → text_eq identifier other ≡ false
        → first (is_channel other) db'.channels ≡ first (is_channel other) db.channels

  added-IsUpdated :
      (now : ℕ) (agent : User) (identifier content : Text) (db : SchemaDb) (c : SchemaChannel)
      → first (is_channel identifier) db.channels ≡ some c
      → is_unauthorized (some agent) c ≡ false
      → let added = add_new_version sha256 gzip_length now identifier content db in
        IsUpdated identifier content agent db added.0 added.1
  unfolding add_new_version create_version is_unauthorized
  added-IsUpdated now agent identifier content db c e u =
      let stored = get_or_create sha256 gzip_length now content db.files in
      let row = (add_new_version sha256 gzip_length now identifier content db).1 in
      let (found, sum) = stored-found now content db.files in
      record {
        active = ground arith;
        authorized = (c, e, ground arith, first-update identifier row db.channels c e);
        file = (
          stored.1,
          subst (λ t. first (has_sum t) stored.0 ≡ some stored.1) (sym sum) found,
          sum,
        );
        others = λ other n. first-update_other identifier other row db.channels n;
      }

  -- Only an active user that the channel authorizes updates it; then the channel's latest file is a
  -- stored one with the checksum of the content, and the other channels are as they were.
  pub update_channel-IsUpdated :
      (now : ℕ) (agent : User) (identifier content : Text) (db db' : SchemaDb)
      (row : SchemaChannelFile)
      → update_channel sha256 gzip_length now (some agent) identifier content db ≡ ok (db', row)
      → IsUpdated identifier content agent db db' row
  unfolding update_channel add_new_version create_version
  update_channel-IsUpdated now agent identifier content db db' row h =
      elim (Option-cases (first (is_channel identifier) db.channels)) [
        | inl e ↦ absurd (let k = rw (update_channel, e) at h in cc)
        | inr (c, e) ↦ elim (Bool-cases (is_unauthorized (some agent) c)) [
          | inl u ↦ absurd (let k = rw (update_channel, e, u) at h in cc)
          | inr u ↦
              let named : identifier ≡ c.identifier = sym (
                (text_eq_iff c.identifier identifier).0
                  (first-eq-some (is_channel identifier) db.channels e).0) in
              let k : add_new_version sha256 gzip_length now c.identifier content db ≡ (db', row) =
                ok_inj (rw (update_channel, e, u) at h) in
              subst
                (λ (r : SchemaDb × SchemaChannelFile).
                  IsUpdated identifier content agent db r.0 r.1)
                (ap (λ t. add_new_version sha256 gzip_length now t content db) named ∙ k)
                (added-IsUpdated now agent identifier content db c e u)
        ]
      ]
