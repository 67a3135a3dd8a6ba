-- ===== src/Team/Accounts.antt =====
-- account/models/service_account.py, and the services that create and delete service accounts in
-- api/cyberstorm/services/team.py. A token is drawn again while its hash is that of another account.
pub mod Tokens
pub mod Deletion
use thunderstore.Prelude.{
  ℕ, zero, suc, Bool, true, false, not, ◌||◌, Option, none, some, [], ◌∷◌, ◌++◌, map, ◌==ℕ◌,
  if◌then◌else◌, any, select, Result, ◌>>=◌, ◌>>◌, Failure, lift, ok, Text, codes,
}
use thunderstore.Team.{role_member, TeamMember, Team, ServiceAccount, Db}
use thunderstore.Permissions.{User, same_user}
use thunderstore.Team.Checks.{
  ensure_can_create_service_account, ensure_can_delete_service_account, ensure_user_can_access,
}
use thunderstore.Team.Services.{team_of}
use thunderstore.Team.Storage.{add_member}

-- What the program leaves to others: the tokens that are drawn, one after another, their hashes, and
-- the identifier of a new account with its text
pub record TokenSource : Type 0 where
  pub draw : ℕ → Text
  pub hash : Text → ℕ

abbrev pub is_taken : Db → ℕ → Bool
is_taken db hashed = any (λ (a : ServiceAccount). a.api_token ==ℕ hashed) db.accounts

-- The loop over `clash`, from the `n`th draw on; it runs on fuel.
unfoldable pub pick_token : TokenSource → Db → ℕ → ℕ → Option Text
pick_token tokens db n zero = none
pick_token tokens db n (suc fuel) =
    let again = pick_token tokens db (suc n) fuel in
    if is_taken db (tokens.hash (tokens.draw n)) then again else some (tokens.draw n)

-- `create_username`
unfoldable pub create_username : Text → Text
create_username id = id ++ codes ".sa@thunderstore.io"

abbrev pub dummy_user : ℕ → Text → User
dummy_user pk id = record {
  pk = pk;
  username = create_username id;
  is_authenticated = true;
  is_active = true;
  is_staff = false;
  is_superuser = false;
  service_account = true;
  has_perm = λ p. false;
}

-- `ServiceAccount.create`, with the account's identifier; `none` stands for a loop that has not ended.
unfoldable pub create_account :
    TokenSource
    → ℕ
    → ℕ
    → Text
    → Team
    → User
    → Db
    → Result Failure (Option (ServiceAccount × Text × Db))
unfolding pick_token
create_account tokens fuel uuid id team creator db = do
  let user = dummy_user db.fresh id
  (m, db') ← add_member team user role_member (record db { fresh = suc db.fresh })
  ok (elim (pick_token tokens db 0 fuel) [
    | none ↦ none
    | some token ↦
        let account : ServiceAccount = record {
          uuid = uuid;
          user = user;
          owner = team.pk;
          api_token = tokens.hash token;
          created_by = some creator.pk;
        } in
        some (account, token, record db' { accounts = db'.accounts ++ account ∷ [] })
  ])

-- `create_service_account`
unfoldable pub create_service_account :
    TokenSource
    → ℕ
    → ℕ
    → Text
    → User
    → Team
    → Db
    → Result Failure (Option (ServiceAccount × Text × Db))
unfolding create_account
create_service_account tokens fuel uuid id agent team db = do
  lift (ensure_user_can_access db team (some agent))
  lift (ensure_can_create_service_account db team (some agent))
  create_account tokens fuel uuid id team agent db

-- `created_by` is emptied when its user is deleted.
abbrev pub forget_creator : User → ServiceAccount → ServiceAccount
forget_creator user a = record a {
  created_by = elim a.created_by [
    | none ↦ none
    | some pk ↦ if pk ==ℕ user.pk then none else some pk
  ];
}

abbrev pub goes_with : ServiceAccount → ServiceAccount → Bool
goes_with account a = same_user a.user account.user || a.uuid ==ℕ account.uuid

-- `ServiceAccount.delete`: the user goes with the memberships and the account that belong to it.
unfoldable pub delete_account : ServiceAccount → Db → Db
delete_account account db = record db {
  members = select (λ (m : TeamMember). not (same_user m.user account.user)) db.members;
  accounts =
      map (forget_creator account.user) (select (λ a. not (goes_with account a)) db.accounts);
}

-- `delete_service_account`
unfoldable pub delete_service_account : User → ServiceAccount → Db → Result Failure Db
unfolding delete_account
delete_service_account agent account db = do
  team ← team_of db account.owner
  lift (ensure_user_can_access db team (some agent))
  lift (ensure_can_delete_service_account db team (some agent))
  ok (delete_account account db)
