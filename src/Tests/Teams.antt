-- ===== src/Tests/Teams.antt =====
-- The theorems on teams at concrete inputs.
use thunderstore.Prelude.{
  ℕ, ◌+◌, ◌≤◌, String, ◌≡◌, refl, inl, inr, false, none, some, [], ◌∷◌, ◌++◌, arith, ◌==ℕ◌, first,
  ok, Text, codes, text_eq,
}
use thunderstore.Team.{
  role_owner, role_member, TeamMember, Team, Db, get_membership_for_user, is_last_owner,
  ServiceAccount,
}
use thunderstore.Permissions.{validate_user}
use thunderstore.Tests.Samples.{alice, bob, crew, membership, tables, platform}
use thunderstore.Team.Owners.{
  owner_count, IsKeyed, remove_team_member-owner_count, update_team_member-owner_count,
}
use thunderstore.Team.Checks.{
  can_user_access, ensure_user_can_manage_members, ensure_user_can_access,
  ensure_member_can_be_removed, ensure_member_role_can_be_changed,
  ensure_can_create_service_account, ensure_can_delete_service_account,
}
use thunderstore.Team.Services.{remove_team_member, update_team_member, team_of}
use thunderstore.Team.Creation.{DistinctNames, create-DistinctNames}
use thunderstore.Team.Storage.{
  new_team, create, get_or_create_for_user, validate_new, create_namespace, add_member,
}
use thunderstore.Names.{is_component, is_nil, strip_unsupported_characters}
use thunderstore.Team.Accounts.{
  TokenSource, pick_token, create_username, dummy_user, create_account, create_service_account,
  delete_account, delete_service_account,
}
use thunderstore.Team.Accounts.Tokens.{
  DistinctTokens, create_service_account-DistinctTokens, create_service_account-ends,
}
use thunderstore.Team.Accounts.Deletion.{delete_service_account-revoked}

abbrev bob_membership : TeamMember
bob_membership = membership 21 bob role_owner

abbrev without_bob : Db
without_bob = record tables { members = membership 20 alice role_owner ∷ [] }

tables-IsKeyed : IsKeyed tables
tables-IsKeyed = ((refl, tt), (tt, tt))

remove_bob : remove_team_member alice bob_membership tables ≡ ok without_bob
unfolding remove_team_member team_of ensure_user_can_manage_members validate_user
    get_membership_for_user ensure_member_can_be_removed is_last_owner
remove_bob = refl

two_owners : 1 ≤ owner_count 10 tables
unfolding owner_count
two_owners = omega arith

remove_team_member-owner_count_example : 1 ≤ owner_count 10 without_bob
remove_team_member-owner_count_example =
    remove_team_member-owner_count alice bob_membership tables without_bob 10 tables-IsKeyed
      (inr (inl refl)) remove_bob two_owners

abbrev bob_as_member : TeamMember
bob_as_member = membership 21 bob role_member

abbrev one_owner : Db
one_owner = record tables { members = membership 20 alice role_owner ∷ bob_as_member ∷ [] }

demote_bob :
    update_team_member alice bob_membership role_member tables ≡ ok (bob_as_member, one_owner)
unfolding update_team_member team_of ensure_user_can_access validate_user get_membership_for_user
    ensure_user_can_manage_members ensure_member_role_can_be_changed is_last_owner
demote_bob = refl

update_team_member-owner_count_example : 1 ≤ owner_count 10 one_owner
update_team_member-owner_count_example =
    update_team_member-owner_count alice bob_membership role_member tables bob_as_member one_owner
      10 tables-IsKeyed (inr (inl refl)) demote_bob two_owners

abbrev pilots : Team
pilots = new_team 30 (codes "pilots")

abbrev with_pilots : Db
with_pilots = record tables {
  teams = crew ∷ pilots ∷ [];
  namespaces =
      record { name = codes "crew"; team = some 10 }
      ∷ record { name = codes "pilots"; team = some 30 }
      ∷ [];
  fresh = 31;
}

create_pilots : create platform (codes "pilots") tables ≡ ok (pilots, with_pilots)
unfolding create validate_new is_component text_eq create_namespace
create_pilots = refl

create-DistinctNames_example : DistinctNames text_eq with_pilots.teams
create-DistinctNames_example =
    create-DistinctNames platform (codes "pilots") tables pilots with_pilots create_pilots (tt, tt)

abbrev alices : Team
alices = new_team 30 (codes "alice")

abbrev with_alices : Db
with_alices = record tables {
  teams = crew ∷ alices ∷ [];
  members = tables.members ++ (record { pk = 31; user = alice; team = 30; role = role_owner }) ∷ [];
  namespaces =
      record { name = codes "crew"; team = some 10 }
      ∷ record { name = codes "alice"; team = some 30 }
      ∷ [];
  fresh = 32;
}

find_alices : get_or_create_for_user platform alice tables ≡ ok (some alices, with_alices)
unfolding get_or_create_for_user is_nil strip_unsupported_characters text_eq validate_new
    is_component create_namespace
find_alices = refl

-- The token that is drawn `n`th has the one code point `n + 7`, which is its hash.
abbrev first_code : Text → ℕ
first_code [] = 0
first_code (c ∷ cs) = c

abbrev drawn_tokens : TokenSource
drawn_tokens = record { draw = λ n. (n + 7) ∷ []; hash = first_code }

abbrev account_of : ℕ → ℕ → String → ℕ → ServiceAccount
account_of uuid pk id hashed = record {
  uuid = uuid;
  user = dummy_user pk (codes id);
  owner = 10;
  api_token = hashed;
  created_by = some 1;
}

abbrev with_account : Db
with_account = record tables { accounts = account_of 40 41 "aa" 7 ∷ [] }

-- The first token that is drawn is taken.
abbrev with_accounts : Db
with_accounts = record tables {
  members =
      membership 20 alice role_owner
      ∷ membership 21 bob role_owner
      ∷ membership 31 (dummy_user 30 (codes "bb")) role_member
      ∷ [];
  accounts = account_of 40 41 "aa" 7 ∷ account_of 50 30 "bb" 8 ∷ [];
  fresh = 32;
}

account_is_created :
    create_service_account drawn_tokens 2 50 (codes "bb") alice crew with_account
    ≡ ok (some (account_of 50 30 "bb" 8, 8 ∷ [], with_accounts))
unfolding create_service_account create_account add_member pick_token create_username
    ensure_user_can_access validate_user get_membership_for_user ensure_can_create_service_account
account_is_created = refl

create_service_account-DistinctTokens_example :
    DistinctTokens with_accounts.accounts
    × (first (λ (a : ServiceAccount). a.api_token ==ℕ 8) with_accounts.accounts
        ≡ some (account_of 50 30 "bb" 8))
create_service_account-DistinctTokens_example =
    create_service_account-DistinctTokens drawn_tokens 2 50 (codes "bb") alice crew with_account
      (account_of 50 30 "bb" 8) (8 ∷ []) with_accounts (tt, tt) account_is_created

create_service_account-ends_example :
    ¬ (create_service_account drawn_tokens 2 50 (codes "bb") alice crew with_account ≡ ok none)
create_service_account-ends_example =
    create_service_account-ends drawn_tokens 2 50 1 (codes "bb") alice crew with_account refl
      (omega arith)

-- What is left of the tables when the new account is deleted again.
abbrev after_deletion : Db
after_deletion = record with_account { fresh = 32 }

account_is_deleted :
    delete_service_account alice (account_of 50 30 "bb" 8) with_accounts ≡ ok after_deletion
unfolding delete_service_account delete_account team_of create_username ensure_user_can_access
    validate_user get_membership_for_user ensure_can_delete_service_account
account_is_deleted = refl

delete_service_account-revoked_example :
    (can_user_access after_deletion crew (some (dummy_user 30 (codes "bb"))) ≡ false)
    × (first (λ (a : ServiceAccount). a.api_token ==ℕ 8) after_deletion.accounts ≡ none)
delete_service_account-revoked_example =
    delete_service_account-revoked alice (account_of 50 30 "bb" 8) with_accounts after_deletion crew
      ((refl, tt), (tt, tt)) (inr (inl refl)) account_is_deleted
