-- ===== src/Prelude/Decimal.antt =====
-- `str(n)` and `int(s)` on decimal digits.
use Prim.Native.Nat.{ℕ, zero, suc, ◌+◌, ◌-◌, ◌*◌, ◌/◌, ◌%◌, ◌≤◌, ◌<◌}
use mathlib.Core.Path.{◌≡◌, refl}
use mathlib.Core.List.{[], ◌∷◌, ◌++◌}
use native.Mathlib.Omega.{arith}
use thunderstore.Prelude.Tests.{ltb, if◌then◌else◌}
use thunderstore.Prelude.Lists.{All, All-append}
use thunderstore.Prelude.Texts.{Text}

-- `int(s)` of digits, from the value read so far
unfoldable pub int_from : ℕ → Text → ℕ
int_from acc [] = acc
int_from acc (c ∷ s) = int_from (acc * 10 + (c - 48)) s

unfoldable pub int : Text → ℕ
unfolding int_from
int s = int_from 0 s

-- The digits of `n`, most significant first; fuel `f` is enough for every `n < f`.
unfoldable pub decimal_from : ℕ → ℕ → Text
decimal_from zero n = []
decimal_from (suc f) n =
    let higher = decimal_from f (n / 10) in
    if ltb n 10 then (48 + n) ∷ [] else higher ++ (48 + n % 10) ∷ []

unfoldable pub decimal : ℕ → Text
unfolding decimal_from
decimal n = decimal_from (suc n) n

abbrev pub IsDigit : ℕ → Type 0
IsDigit c = (48 ≤ c) × (c ≤ 57)

int_from-append :
    (acc : ℕ) (s : Text) (c : ℕ) → int_from acc (s ++ c ∷ []) ≡ int_from acc s * 10 + (c - 48)
unfolding int_from
int_from-append acc [] c = refl
int_from-append acc (d ∷ s) c = int_from-append (acc * 10 + (d - 48)) s c

int_from-decimal_from : (f n : ℕ) → n < f → int_from 0 (decimal_from f n) ≡ n
unfolding int_from decimal_from
int_from-decimal_from zero n h = elim h [ ]
int_from-decimal_from (suc f) n h = ground (
  arith,
  int_from-decimal_from f (n / 10),
  int_from-append 0 (decimal_from f (n / 10)) (48 + n % 10),
)

-- Every number is read back from its digits.
pub int-decimal : (n : ℕ) → int (decimal n) ≡ n
unfolding int decimal
int-decimal n = int_from-decimal_from (suc n) n (omega arith)

decimal_from-IsDigit : (f n : ℕ) → All IsDigit (decimal_from f n)
unfolding decimal_from
decimal_from-IsDigit zero n = tt
decimal_from-IsDigit (suc f) n = ground (
  arith,
  decimal_from-IsDigit f (n / 10),
  All-append IsDigit (decimal_from f (n / 10)) ((48 + n % 10) ∷ []),
)

pub decimal-IsDigit : (n : ℕ) → All IsDigit (decimal n)
unfolding decimal
decimal-IsDigit n = decimal_from-IsDigit (suc n) n
