-- ===== src/Team/Accounts/Deletion.antt =====
-- The deletion of service accounts in account/models/service_account.py and in
-- api/cyberstorm/services/team.py.
use thunderstore.Prelude.{
  ℕ, ◌≡◌, refl, sym, subst, inl, inr, Bool, true, false, not, ◌&&◌, none, some, List, [], ◌∷◌, map,
  arith, ◌==ℕ◌, ==ℕ_refl, Bool-cases, select, first, Any, All, ok,
}
use thunderstore.Team.{TeamMember, Team, ServiceAccount, Db, get_membership_for_user}
use thunderstore.Permissions.{User, validate_user}
use thunderstore.Team.Checks.{can_user_access, ensure_user_can_access}
use thunderstore.Team.Accounts.{forget_creator, goes_with, delete_account, delete_service_account}
use thunderstore.Team.Accounts.Tokens.{DistinctTokens}

module _ (account : ServiceAccount) where
  abbrev has_token : ServiceAccount → Bool
  has_token a = a.api_token ==ℕ account.api_token

  abbrev left : List ServiceAccount → List ServiceAccount
  left as' = map (forget_creator account.user) (select (λ a. not (goes_with account a)) as')

  no_membership :
      (team : ℕ) (ms : List TeamMember)
      → first
          (λ (m : TeamMember). m.team ==ℕ team && m.user.pk ==ℕ account.user.pk)
          (select (λ (m : TeamMember). not (m.user.pk ==ℕ account.user.pk)) ms)
        ≡ none
  no_membership team [] = refl
  no_membership team (m ∷ ms) = ground (arith, no_membership team ms)

  others_differ :
      (as' : List ServiceAccount)
      → All (λ (b : ServiceAccount). (account.api_token ==ℕ b.api_token) ≡ false) as'
      → first has_token (left as') ≡ none
  others_differ [] h = refl
  others_differ (a ∷ as') (p, h) = elim (Bool-cases (goes_with account a)) [
    | inl e ↦ rw e (others_differ as' h)
    | inr e ↦
        let q : (a.api_token ==ℕ account.api_token) ≡ false = ground arith in
        rw e (rw q (others_differ as' h))
  ]

  differs_from_later :
      (a : ServiceAccount) (as' : List ServiceAccount)
      → All (λ (b : ServiceAccount). (a.api_token ==ℕ b.api_token) ≡ false) as'
      → Any (λ b. b ≡ account) as'
      → (a.api_token ==ℕ account.api_token) ≡ false
  differs_from_later a [] h s = absurd s
  differs_from_later a (b ∷ bs) (p, h) (inl e) =
      subst (λ (c : ServiceAccount). (a.api_token ==ℕ c.api_token) ≡ false) e p
  differs_from_later a (b ∷ bs) (p, h) (inr s) = differs_from_later a bs h s

  token_gone :
      (as' : List ServiceAccount)
      → DistinctTokens as'
      → Any (λ a. a ≡ account) as'
      → first has_token (left as') ≡ none
  token_gone [] d s = absurd s
  token_gone (a ∷ as') (n, d) (inl e) =
      let here : goes_with account a ≡ true =
        subst (λ (b : ServiceAccount). goes_with account b ≡ true) (sym e) (rw ==ℕ_refl refl) in
      rw here (
        others_differ as' (
          subst
            (λ (b : ServiceAccount).
              All (λ (c : ServiceAccount). (b.api_token ==ℕ c.api_token) ≡ false) as')
            e n))
  token_gone (a ∷ as') (n, d) (inr s) = elim (Bool-cases (goes_with account a)) [
    | inl e ↦ rw e (token_gone as' d s)
    | inr e ↦ rw e (rw (differs_from_later a as' n s) (token_gone as' d s))
  ]

delete-result :
    (agent : User) (account : ServiceAccount) (db db' : Db)
    → delete_service_account agent account db ≡ ok db'
    → db' ≡ delete_account account db
unfolding delete_service_account
delete-result agent account db db' h = ground arith

cannot_access :
    (account : ServiceAccount) (team : Team) (db : Db)
    → can_user_access (delete_account account db) team (some account.user) ≡ false
unfolding delete_account ensure_user_can_access validate_user get_membership_for_user
cannot_access account team db = ground (arith, no_membership account team.pk db.members)

-- After a stored service account is deleted through the service, the user of the account has access
-- to no team, and no account has the hash of its token, if the hashes of the stored accounts differ.
pub delete_service_account-revoked :
    (agent : User) (account : ServiceAccount) (db db' : Db) (team : Team)
    → DistinctTokens db.accounts
    → Any (λ a. a ≡ account) db.accounts
    → delete_service_account agent account db ≡ ok db'
    → (can_user_access db' team (some account.user) ≡ false)
      × (first (λ (a : ServiceAccount). a.api_token ==ℕ account.api_token) db'.accounts ≡ none)
unfolding delete_account
delete_service_account-revoked agent account db db' team d s h =
    let e = delete-result agent account db db' h in
    rw e (cannot_access account team db, token_gone account db.accounts d s)
