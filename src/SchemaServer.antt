-- ===== src/SchemaServer.antt =====
-- schema_server/models/: files by their checksums, and the channels that name a latest one. SHA-256
-- and the size of a compressed file are parameters.
pub mod Updated
use thunderstore.Prelude.{
  ℕ, Bool, true, not, ◌||◌, Option, none, some, List, [], ◌∷◌, ◌++◌, ◌==ℕ◌, if◌then◌else◌, length,
  any, first, update_where, Result, Failure, ok, err, does_not_exist, permission_denied, Text,
  text_eq,
}
use thunderstore.Permissions.{User}
use thunderstore.Package.Latest.Newest.{created}

pub record SchemaFile : Type 0 where
  pub content : Text
  pub checksum_sha256 : Text
  pub file_size : ℕ
  pub gzip_size : ℕ
  pub last_modified : ℕ

-- A row with the identifier of its channel and the checksum of its file
pub record SchemaChannelFile : Type 0 where
  pub channel : Text
  pub file : Text
  pub is_active : Bool

-- `authorized_users` by their keys
pub record SchemaChannel : Type 0 where
  pub identifier : Text
  pub authorized_users : List ℕ
  pub latest : Option SchemaChannelFile

pub record SchemaDb : Type 0 where
  pub files : List SchemaFile
  pub channel_files : List SchemaChannelFile
  pub channels : List SchemaChannel

abbrev pub has_sum : Text → SchemaFile → Bool
has_sum checksum f = text_eq f.checksum_sha256 checksum

abbrev pub is_channel : Text → SchemaChannel → Bool
is_channel identifier c = text_eq c.identifier identifier

-- `user is None or not user.is_active or user not in channel.authorized_users.all()`
unfoldable pub is_unauthorized : Option User → SchemaChannel → Bool
is_unauthorized none c = true
is_unauthorized (some u) c = not u.is_active || not (any (λ k. k ==ℕ u.pk) c.authorized_users)

module _ (sha256 : Text → Text) (gzip_length : Text → ℕ) where
  -- The table and the file
  unfoldable pub get_or_create : ℕ → Text → List SchemaFile → List SchemaFile × SchemaFile
  get_or_create now content files = elim (first (has_sum (sha256 content)) files) [
    | some existing ↦ (files, existing)
    | none ↦
        let created : SchemaFile = record {
          content = content;
          checksum_sha256 = sha256 content;
          file_size = length content;
          gzip_size = gzip_length content;
          last_modified = now;
        } in
        (files ++ created ∷ [], created)
  ]

  -- `_create_version`
  unfoldable pub create_version : ℕ → Text → Text → SchemaDb → SchemaDb × SchemaChannelFile
  unfolding get_or_create
  create_version now channel content db =
      let stored = get_or_create now content db.files in
      let row : SchemaChannelFile = record {
        channel = channel;
        file = stored.1.checksum_sha256;
        is_active = true;
      } in
      (record db { files = stored.0; channel_files = db.channel_files ++ row ∷ [] }, row)

  -- `_add_new_version`, with the saved channel
  unfoldable pub add_new_version : ℕ → Text → Text → SchemaDb → SchemaDb × SchemaChannelFile
  unfolding create_version
  add_new_version now channel content db =
      let made = create_version now channel content db in
      (
        record made.0 {
          channels =
              update_where (is_channel channel)
                (λ (c : SchemaChannel). record c { latest = some made.1 }) made.0.channels;
        },
        made.1,
      )

  unfoldable pub update_channel :
      ℕ → Option User → Text → Text → SchemaDb → Result Failure (SchemaDb × SchemaChannelFile)
  unfolding add_new_version is_unauthorized
  update_channel now user identifier content db = elim (first (is_channel identifier) db.channels) [
    | none ↦ err does_not_exist
    | some c ↦
        if is_unauthorized user c
        then err permission_denied
        else ok (add_new_version now c.identifier content db)
  ]
