-- ===== src/Team/Accounts/Tokens.antt =====
-- The tokens of service accounts in account/models/service_account.py.
use thunderstore.Prelude.{
  ℕ, zero, suc, ◌+◌, ◌<◌, ◌≡◌, refl, sym, subst, inl, inr, false, none, some, List, [], ◌∷◌, ◌++◌,
  arith, ◌==ℕ◌, ==ℕ_refl, Bool-cases, Option-cases, any, first, All, All-append, ok, Text,
}
use thunderstore.Team.{Team, ServiceAccount, Db}
use thunderstore.Permissions.{User}
use thunderstore.Team.Accounts.{
  is_taken, pick_token, create_account, create_service_account, TokenSource,
}
use thunderstore.Team.Storage.{add_member}

-- No two accounts have the same hash of a token.
abbrev pub DistinctTokens : List ServiceAccount → Type 0
DistinctTokens [] = Unit
DistinctTokens (a ∷ as') =
    All (λ (b : ServiceAccount). (a.api_token ==ℕ b.api_token) ≡ false) as' × DistinctTokens as'

module _ (tokens : TokenSource) where
  pick_token-free :
      (db : Db) (n fuel : ℕ) (token : Text)
      → pick_token tokens db n fuel ≡ some token
      → is_taken db (tokens.hash token) ≡ false
  unfolding pick_token
  pick_token-free db n zero token h = cc
  pick_token-free db n (suc fuel) token h = ground (arith, pick_token-free db (suc n) fuel token)

  pick_token-found :
      (db : Db) (n fuel k : ℕ)
      → is_taken db (tokens.hash (tokens.draw (n + k))) ≡ false
      → k < fuel
      → (token : Text) × (pick_token tokens db n fuel ≡ some token)
  unfolding pick_token
  pick_token-found db n zero k h l = absurd (omega arith)
  pick_token-found db n (suc fuel) zero h l =
      let here : is_taken db (tokens.hash (tokens.draw n)) ≡ false =
        subst (λ (i : ℕ). is_taken db (tokens.hash (tokens.draw i)) ≡ false) (omega arith) h in
      rw here (tokens.draw n, refl)
  pick_token-found db n (suc fuel) (suc k) h l =
      elim (Bool-cases (is_taken db (tokens.hash (tokens.draw n)))) [
        | inl e ↦ rw e (
            pick_token-found db (suc n) fuel k
              (subst (λ (i : ℕ). is_taken db (tokens.hash (tokens.draw i)) ≡ false) (omega arith) h)
              (omega arith))
        | inr e ↦ rw e (tokens.draw n, refl)
      ]

  DistinctTokens-append :
      (as' : List ServiceAccount) (a : ServiceAccount)
      → DistinctTokens as'
      → any (λ (b : ServiceAccount). b.api_token ==ℕ a.api_token) as' ≡ false
      → DistinctTokens (as' ++ a ∷ [])
        × (first (λ (b : ServiceAccount). b.api_token ==ℕ a.api_token) (as' ++ a ∷ []) ≡ some a)
  DistinctTokens-append [] a d h = ((tt, tt), rw ==ℕ_refl refl)
  DistinctTokens-append (b ∷ bs) a (n, d) h =
      let here : (b.api_token ==ℕ a.api_token) ≡ false = ground arith in
      let (rest, found) = DistinctTokens-append bs a d (ground arith) in
      (
        (
          All-append (λ (c : ServiceAccount). (b.api_token ==ℕ c.api_token) ≡ false) bs (a ∷ []) n
              (here, tt),
          rest,
        ),
        rw here found,
      )

  -- What a creation that ends has done.
  pub record IsCreated (db : Db) (account : ServiceAccount) (token : Text) (db' : Db) : Type 0 where
    pub unused : is_taken db (tokens.hash token) ≡ false
    pub hashed : account.api_token ≡ tokens.hash token
    pub accounts : db'.accounts ≡ db.accounts ++ account ∷ []

  create_service_account-IsCreated :
      (fuel uuid : ℕ) (id : Text) (agent : User) (team : Team) (db : Db) (account : ServiceAccount)
      (token : Text) (db' : Db)
      → create_service_account tokens fuel uuid id agent team db ≡ ok (some (account, token, db'))
      → IsCreated db account token db'
  unfolding create_service_account create_account add_member
  create_service_account-IsCreated fuel uuid id agent team db account token db' h =
      elim (Option-cases (pick_token tokens db 0 fuel)) [
        | inl e ↦ absurd (ground arith)
        | inr (t, e) ↦
            let free = pick_token-free db 0 fuel t e in
            record { unused = ground arith; hashed = ground arith; accounts = ground arith }
      ]

-- If the hashes of the tokens of the stored accounts differ, they still do after a service account is
-- created, and the hash of the token that is handed out finds the new account.
pub create_service_account-DistinctTokens :
    (tokens : TokenSource) (fuel uuid : ℕ) (id : Text) (agent : User) (team : Team) (db : Db)
    (account : ServiceAccount) (token : Text) (db' : Db)
    → DistinctTokens db.accounts
    → create_service_account tokens fuel uuid id agent team db ≡ ok (some (account, token, db'))
    → DistinctTokens db'.accounts
      × (first (λ (a : ServiceAccount). a.api_token ==ℕ tokens.hash token) db'.accounts
          ≡ some account)
create_service_account-DistinctTokens tokens fuel uuid id agent team db account token db' d h =
    let done =
      create_service_account-IsCreated tokens fuel uuid id agent team db account token db' h in
    rw (done.accounts, sym done.hashed)
      (DistinctTokens-append tokens db.accounts account d (rw done.hashed done.unused))

-- If one of the tokens within the fuel has a hash that no stored account has, the creation ends: it
-- hands out an account or it is refused.
pub create_service_account-ends :
    (tokens : TokenSource) (fuel uuid k : ℕ) (id : Text) (agent : User) (team : Team) (db : Db)
    → is_taken db (tokens.hash (tokens.draw k)) ≡ false
    → k < fuel
    → ¬ (create_service_account tokens fuel uuid id agent team db ≡ ok none)
unfolding create_service_account create_account add_member
create_service_account-ends tokens fuel uuid k id agent team db h l r =
    let start : is_taken db (tokens.hash (tokens.draw (0 + k))) ≡ false =
      subst (λ (i : ℕ). is_taken db (tokens.hash (tokens.draw i)) ≡ false) (omega arith) h in
    let (t, e) = pick_token-found tokens db 0 fuel k start l in absurd (ground arith)
