-- ===== src/Base/Fallible.antt =====
-- What a Rust function gives back: a value, a `ZiftError`, or no value at all. `panic` stands for
-- an index out of range, a division by zero, `unreachable!()`, or a model loop that has used up
-- its fuel.
pub mod Error
pub use Error.*
use mathlib.Core.Path.{◌≡◌, refl}
use mathlib.Core.Logic.{◌≢◌}
use mathlib.Core.Bool.{Bool, true, false}
use ziftsieve.Base.Tests.{if◌then◌else◌}

pub data Panic : Type 0 where
  out_of_bounds division_by_zero unreachable_code out_of_fuel : Panic

pub data Outcome (A : Type 0) : Type 0 where
  ok : A → Outcome A
  err : ZiftError → Outcome A
  panic : Panic → Outcome A

-- `if bad { return Err(e); }`
unfoldable pub refuse : Bool → ZiftError → Outcome (Unit {0})
refuse true e = err e
refuse false e = ok tt

infixl 5 ◌>>=◌ ◌>>◌
unfoldable pub ◌>>=◌ : {A B : Type 0} → Outcome A → (A → Outcome B) → Outcome B
ok a >>= f = f a
err e >>= f = err e
panic p >>= f = panic p

unfoldable pub ◌>>◌ : {B : Type 0} → Outcome (Unit {0}) → Outcome B → Outcome B
unfolding ◌>>=◌ refuse
m >> k = m >>= λ _. k

-- The function does not panic, and a value that it returns satisfies `P`.
pub data Ensures {A : Type 0} (P : A → Type 0) : Outcome A → Type 0 where
  returns : {a : A} → P a → Ensures P (ok a)
  fails : {e : ZiftError} → Ensures P (err e)

module _ {A B : Type 0} {P : A → Type 0} {Q : B → Type 0} where
  pub Ensures-bind :
      {m : Outcome A} {f : A → Outcome B}
      → Ensures P m
      → ((a : A) → P a → Ensures Q (f a))
      → Ensures Q (m >>= f)
  unfolding ◌>>=◌
  Ensures-bind (returns p) k = k _ p
  Ensures-bind fails k = fails

pub Ensures-refuse :
    {B : Type 0} {Q : B → Type 0} (b : Bool) (e : ZiftError) {k : Outcome B}
    → (b ≡ false → Ensures Q k)
    → Ensures Q (refuse b e >> k)
unfolding ◌>>◌
Ensures-refuse true e k = fails
Ensures-refuse false e k = k refl

pub Ensures-if :
    {A : Type 0} {P : A → Type 0} (b : Bool) {m n : Outcome A}
    → (b ≡ true → Ensures P m)
    → (b ≡ false → Ensures P n)
    → Ensures P (if b then m else n)
Ensures-if true f g = f refl
Ensures-if false f g = g refl

pub ruleset ensures_rules = (Ensures-bind, Ensures-refuse, Ensures-if, returns, fails)

module _ {A : Type 0} {P : A → Type 0} where
  pub Ensures-map :
      {Q : A → Type 0} {m : Outcome A} → ((a : A) → P a → Q a) → Ensures P m → Ensures Q m
  Ensures-map f (returns p) = returns (f _ p)
  Ensures-map f fails = fails

  -- A returned value is the value.
  pub Ensures-value : {m : Outcome A} → Ensures P m → Ensures (λ a. P a × (m ≡ ok a)) m
  Ensures-value (returns p) = returns (p, refl)
  Ensures-value fails = fails

  pub Ensures-ok : {m : Outcome A} {a : A} → Ensures P m → m ≡ ok a → P a
  Ensures-ok {m} {a} e h = subst-ok (h-at e)
    where
      subst-ok : Ensures P (ok a) → P a
      subst-ok (returns p) = p

      h-at : Ensures P m → Ensures P (ok a)
      h-at e = rw h at e

-- The rest, behind a step whose value is known.
pub Ensures-step :
    {A B : Type 0} {Q : B → Type 0} {m : Outcome A} {a : A} (f : A → Outcome B)
    → m ≡ ok a
    → Ensures Q (f a)
    → Ensures Q (m >>= f)
unfolding ◌>>=◌
Ensures-step f h k = rw h k
