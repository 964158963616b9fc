-- ===== src/Base/Totality.antt =====
-- What a function returns, where it must return: `Returns P r` is `Ensures P r` without an error.
use Prim.Native.Nat.{ℕ, zero, suc, ◌<◌}
use native.Mathlib.Omega.{arith}
use mathlib.Core.Path.{◌≡◌, refl}
use mathlib.Core.Bool.{Bool, true, false}
use ziftsieve.Base.Tests.{if◌then◌else◌}
use ziftsieve.Base.Fallible.{Outcome, ok, refuse, ◌>>=◌, ◌>>◌, ZiftError, Ensures, returns}
use ziftsieve.Base.Loop.{loop, Next, next, again, done, Progress}

pub data Returns {A : Type 0} (P : A → Type 0) : Outcome A → Type 0 where
  gives : {a : A} → P a → Returns P (ok a)

module _ {A B : Type 0} {P : A → Type 0} {Q : B → Type 0} where
  pub Returns-bind :
      {m : Outcome A} {f : A → Outcome B}
      → Returns P m
      → ((a : A) → P a → Returns Q (f a))
      → Returns Q (m >>= f)
  unfolding ◌>>=◌
  Returns-bind (gives p) k = k _ p

module _ {B : Type 0} {Q : B → Type 0} where
  pub Returns-refuse :
      (b : Bool) (e : ZiftError) {k : Outcome B}
      → b ≡ false
      → Returns Q k
      → Returns Q (refuse b e >> k)
  unfolding ◌>>◌
  Returns-refuse b e h k = rw h k

  pub Returns-if :
      (b : Bool) {m n : Outcome B}
      → (b ≡ true → Returns Q m)
      → (b ≡ false → Returns Q n)
      → Returns Q (if b then m else n)
  Returns-if true f g = f refl
  Returns-if false f g = g refl

  pub Returns-map :
      {P : B → Type 0} {m : Outcome B} → ((b : B) → P b → Q b) → Returns P m → Returns Q m
  Returns-map f (gives p) = gives (f _ p)

  pub Returns-Ensures : {m : Outcome B} → Returns Q m → Ensures Q m
  Returns-Ensures (gives q) = returns q

  -- The value that is returned.
  pub Returns-witness : {m : Outcome B} → Returns Q m → (b : B) × (m ≡ ok b) × Q b
  Returns-witness (gives q) = (_, refl, q)

  -- The rest, behind a step whose value is known.
  pub Returns-step :
      {A : Type 0} {m : Outcome A} {a : A} (f : A → Outcome B)
      → m ≡ ok a
      → Returns Q (f a)
      → Returns Q (m >>= f)
  unfolding ◌>>=◌
  Returns-step f h k = rw h k

  pub Returns-value : {m : Outcome B} {b : B} → m ≡ ok b → Q b → Returns Q m
  Returns-value h q = rw h (gives q)

-- Where a round goes on to, for a loop that has `fuel` rounds left.
module _ {S A : Type 0} where
  pub data Onward (fuel : ℕ) (body : S → Outcome (Next S A)) (Q : A → Type 0)
      : Next S A → Type 0 where
    onward : {s : S} → Returns Q (loop fuel body s) → Onward fuel body Q (again s)
    ended : {a : A} → Q a → Onward fuel body Q (done a)

  resume :
      {fuel : ℕ} {body : S → Outcome (Next S A)} {Q : A → Type 0} (n : Next S A)
      → Onward fuel body Q n
      → Returns Q (next (loop fuel body) n)
  resume n (onward r) = r
  resume n (ended q) = gives q

  pub Returns-loop :
      {fuel : ℕ} {body : S → Outcome (Next S A)} {Q : A → Type 0} (s : S)
      → Returns (Onward fuel body Q) (body s)
      → Returns Q (loop (suc fuel) body s)
  unfolding loop
  Returns-loop s r = Returns-bind r λ n h. resume n h

  -- `loop_rule` for a loop whose rounds all return.
  pub Returns-loop_rule :
      (P : S → Type 0) (Q : A → Type 0) (measure : S → ℕ) (body : S → Outcome (Next S A))
      → ((s : S) → P s → Returns (Progress P Q measure s) (body s))
      → (fuel : ℕ) (s : S) → measure s < fuel
      → P s
      → Returns Q (loop fuel body s)
  Returns-loop_rule P Q measure body keep zero s m h = absurd (omega arith)
  Returns-loop_rule P Q measure body keep (suc fuel) s m h =
      Returns-loop s
        (Returns-map (onwards (Returns-loop_rule P Q measure body keep fuel)) (keep s h))
    where
      onwards :
          ((s : S) → measure s < fuel → P s → Returns Q (loop fuel body s))
          → (n : Next S A) → Progress P Q measure s n
          → Onward fuel body Q n
      onwards rest (again s') k = onward (rest s' (omega arith) k.0)
      onwards rest (done a) k = ended k
