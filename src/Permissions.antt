-- ===== src/Permissions.antt =====
-- permissions/utils.py, core/exceptions.py and `check_validity` of core/utils.py. A user is what
-- the checks read of Django's `User`; users are equal if their keys are.
use thunderstore.Prelude.{
  ℕ, ◌≡◌, ◌↔◌, ◌⊎◌, Bool, true, false, not, ◌&&◌, Option, none, some, arith, ◌==ℕ◌, Refusal, Result,
  ◌>>◌, raise_if, is_ok, permission, ok, err, Text,
}

-- The Django permissions that the program asks for.
pub data Permission : Type 0 where
  change_package deprecate_package change_packagelisting : Permission

pub record User : Type 0 where
  pub pk : ℕ
  pub username : Text
  pub is_authenticated : Bool
  pub is_active : Bool
  pub is_staff : Bool
  pub is_superuser : Bool
  -- `hasattr(user, "service_account")`
  pub service_account : Bool
  pub has_perm : Permission → Bool

abbrev pub same_user : User → User → Bool
same_user u v = u.pk ==ℕ v.pk

unfoldable pub validate_user : Option User → Bool → Result Refusal User
validate_user none allow_serviceaccount = err (permission "Must be authenticated")
validate_user (some user) allow_serviceaccount = do
  raise_if (not user.is_authenticated) (permission "Must be authenticated")
  raise_if (not user.is_active) (permission "User has been deactivated")
  raise_if (user.service_account && not allow_serviceaccount)
      (permission "Service accounts are unable to perform this action")
  ok user

-- `check_validity(fn)`: the checks raise nothing but a `ValidationError`, so it always answers.
abbrev pub check_validity : Result Refusal (Unit {0}) → Bool
check_validity r = is_ok r

-- What a user must be for a check to go on.
pub record IsEligible (allow_serviceaccount : Bool) (user : User) : Type 0 where
  pub authenticated : user.is_authenticated ≡ true
  pub active : user.is_active ≡ true
  pub account : (user.service_account ≡ false) ⊎ (allow_serviceaccount ≡ true)

-- `validate_user` returns exactly the authenticated, active users, and service accounts only where
-- they are allowed; it returns the user that it was given.
pub validate_user-eq-ok_iff :
    (o : Option User) (allow : Bool) (user : User)
    → (validate_user o allow ≡ ok user) ↔ ((o ≡ some user) × IsEligible allow user)
unfolding validate_user
validate_user-eq-ok_iff none allow user = ground arith
validate_user-eq-ok_iff (some u) allow user = (
  λ h. (
    ground arith,
    record { authenticated = ground arith; active = ground arith; account = ground arith },
  ),
  λ h. ground arith,
)
