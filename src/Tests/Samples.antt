-- ===== src/Tests/Samples.antt =====
-- Users, teams and communities that the tests share.
use thunderstore.Prelude.{ℕ, String, Bool, true, false, some, [], ◌∷◌, codes, text_eq}
use thunderstore.Team.{role_owner, TeamMember, Team, Db}
use thunderstore.Community.{CommunityMemberRole, Community, unreviewed}
use thunderstore.Permissions.{User}
use thunderstore.Team.Storage.{Platform, new_team}
use thunderstore.Package.{PackageVersion}
use thunderstore.Visibility.{create_public}
use thunderstore.Version.{number}

abbrev pub person : ℕ → String → User
person pk name = record {
  pk = pk;
  username = codes name;
  is_authenticated = true;
  is_active = true;
  is_staff = false;
  is_superuser = false;
  service_account = false;
  has_perm = λ p. false;
}

abbrev pub alice : User
alice = person 1 "alice"

abbrev pub bob : User
bob = person 2 "bob"

abbrev pub admin : User
admin = record (person 3 "admin") { is_staff = true; is_superuser = true }

abbrev pub crew : Team
crew = new_team 10 (codes "crew")

abbrev pub membership : ℕ → User → String → TeamMember
membership pk user role = record { pk = pk; user = user; team = 10; role = role }

-- A team with two owners
abbrev pub tables : Db
tables = record {
  teams = crew ∷ [];
  members = membership 20 alice role_owner ∷ membership 21 bob role_owner ∷ [];
  namespaces = record { name = codes "crew"; team = some 10 } ∷ [];
  accounts = [];
  owned_packages = [];
  fresh = 30;
}

-- Names are compared as they are, and an address is taken for one with https.
abbrev pub platform : Platform
platform = record { iexact = text_eq; lower = λ s. s; is_https_url = λ s. true }

abbrev pub valley : Community
valley = record {
  pk = 40;
  identifier = codes "valley";
  require_package_listing_approval = true;
  members = record { user = bob; role = CommunityMemberRole.moderator } ∷ [];
  sites =
      record { pk = 5; domain = codes "b.example" }
      ∷ record { pk = 4; domain = codes "a.example" }
      ∷ [];
}

abbrev pub mod_version : ℕ → String → Bool → PackageVersion
mod_version pk number active = record {
  pk = pk;
  name = codes "Mod";
  version_number = codes number;
  is_active = active;
  review_status = unreviewed;
  visibility = some create_public;
  downloads = 0;
  file_size = 100;
}
