-- ===== src/Prelude/Errors.antt =====
-- Code that may raise: the exceptions of the permission checks, and a result type over any error.
use Prim.Native.String.{String}
use mathlib.Core.Path.{◌≡◌, refl}
use mathlib.Core.Bool.{Bool, true, false}
use mathlib.Core.Logic.{◌⊎◌, inl, inr}

-- What `check_validity` catches: Django's `ValidationError`, and its subclass
-- `PermissionValidationError`, each with its message.
pub data Refusal : Type 0 where
  validation permission : String → Refusal

pub data Result {ℓ κ} (E : Type ℓ) (A : Type κ) : Type (ℓ ⊔ κ) where
  ok : A → Result E A
  err : E → Result E A

infixl 5 ◌>>=◌ ◌>>◌
abbrev pub ◌>>=◌ {ℓ κ μ} :
    {E : Type ℓ} {A : Type κ} {B : Type μ} → Result E A → (A → Result E B) → Result E B
err failure >>= rest = err failure
ok x >>= rest = rest x

abbrev pub ◌>>◌ {ℓ κ} : {E : Type ℓ} {B : Type κ} → Result E (Unit {0}) → Result E B → Result E B
check >> rest = check >>= λ _. rest

-- `if test: raise e`
abbrev pub raise_if {ℓ} : {E : Type ℓ} → Bool → E → Result E (Unit {0})
raise_if true e = err e
raise_if false e = ok tt

abbrev pub is_ok {ℓ κ} : {E : Type ℓ} {A : Type κ} → Result E A → Bool
is_ok (ok a) = true
is_ok (err e) = false

-- A chain that succeeds has succeeded at each link.
pub >>=-eq-ok {ℓ κ μ} :
    {E : Type ℓ} {A : Type κ} {B : Type μ} (first_part : Result E A) (rest : A → Result E B)
    {last : B}
    → (first_part >>= rest) ≡ ok last
    → (x : A) × (first_part ≡ ok x) × (rest x ≡ ok last)
>>=-eq-ok (err failure) rest done = cc
>>=-eq-ok (ok x) rest done = (x, refl, done)

pub >>-eq-ok {ℓ κ} :
    {E : Type ℓ} {B : Type κ} (m : Result E (Unit {0})) (k : Result E B) {b : B}
    → (m >> k) ≡ ok b
    → (m ≡ ok tt) × (k ≡ ok b)
>>-eq-ok (ok tt) k h = (refl, h)
>>-eq-ok (err e) k h = cc

pub raise_if-eq-ok {ℓ} : {E : Type ℓ} (b : Bool) (e : E) → raise_if b e ≡ ok tt → b ≡ false
raise_if-eq-ok true e h = cc
raise_if-eq-ok false e h = refl

-- What a request can raise.
pub data Failure : Type 0 where
  refused : Refusal → Failure
  integrity_error does_not_exist permission_error permission_denied value_error type_error : Failure
  runtime_error http_404 client_error : Failure

abbrev pub lift {ℓ} : {A : Type ℓ} → Result Refusal A → Result Failure A
lift (ok a) = ok a
lift (err e) = err (refused e)

pub lift-eq-ok {ℓ} : {A : Type ℓ} (r : Result Refusal A) {a : A} → lift r ≡ ok a → r ≡ ok a
lift-eq-ok (ok a) h = cc
lift-eq-ok (err e) h = cc

pub Result-cases {ℓ κ} :
    {E : Type ℓ} {A : Type κ} (r : Result E A) → ((a : A) × (r ≡ ok a)) ⊎ ((e : E) × (r ≡ err e))
Result-cases (ok a) = inl (a, refl)
Result-cases (err e) = inr (e, refl)

pub ok_inj {ℓ κ} : {E : Type ℓ} {A : Type κ} {a b : A} → ◌≡◌ {A = Result E A} (ok a) (ok b) → a ≡ b
ok_inj e = cc
