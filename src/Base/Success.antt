-- ===== src/Base/Success.antt =====
-- Where a function does not refuse: together with `Ensures P`, that is `Returns P`.
use mathlib.Core.Path.{◌≡◌, refl}
use mathlib.Core.Bool.{Bool, true, false}
use ziftsieve.Base.Tests.{if◌then◌else◌}
use ziftsieve.Base.Fallible.{Outcome, ok, refuse, ◌>>=◌, ◌>>◌, ZiftError, Ensures, returns, fails}
use ziftsieve.Base.Totality.{Returns, gives}

pub data NoError {A : Type 0} : Outcome A → Type 0 where
  no_error : {a : A} → NoError (ok a)

module _ {A : Type 0} where
  pub NoError-refuse :
      (b : Bool) (e : ZiftError) {k : Outcome A} → b ≡ false → NoError k → NoError (refuse b e >> k)
  unfolding ◌>>◌
  NoError-refuse b e h k = rw h k

  pub NoError-if :
      (b : Bool) {m n : Outcome A}
      → (b ≡ true → NoError m)
      → (b ≡ false → NoError n)
      → NoError (if b then m else n)
  NoError-if true f g = f refl
  NoError-if false f g = g refl

  pub Returns-NoError : {P : A → Type 0} {m : Outcome A} → Ensures P m → NoError m → Returns P m
  Returns-NoError (returns p) no_error = gives p
  Returns-NoError fails h = elim h [ ]

-- The rest, behind a step that is known to keep `P`.
pub NoError-bind :
    {A B : Type 0} {P : A → Type 0} {m : Outcome A} {f : A → Outcome B}
    → Ensures P m
    → NoError m
    → ((a : A) → P a → NoError (f a))
    → NoError (m >>= f)
unfolding ◌>>=◌
NoError-bind (returns p) no_error k = k _ p
NoError-bind fails h k = elim h [ ]

pub NoError-step :
    {A B : Type 0} {m : Outcome A} {a : A} (f : A → Outcome B)
    → m ≡ ok a
    → NoError (f a)
    → NoError (m >>= f)
unfolding ◌>>=◌
NoError-step f h k = rw h k

pub NoError-ok :
    {A B : Type 0} {m : Outcome A} (f : A → B) → NoError m → NoError (m >>= λ a. ok (f a))
unfolding ◌>>=◌
NoError-ok f no_error = no_error

pub NoError-Returns : {A : Type 0} {P : A → Type 0} {m : Outcome A} → Returns P m → NoError m
NoError-Returns (gives p) = no_error
