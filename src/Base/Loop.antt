-- ===== src/Base/Loop.antt =====
-- Loops with errors and early exits, on fuel.
use Prim.Native.Nat.{ℕ, zero, suc, ◌<◌}
use mathlib.Core.Path.{◌≡◌}
use native.Mathlib.Omega.{arith}
use ziftsieve.Base.Fallible.{
  Outcome, ok, err, panic, out_of_fuel, ◌>>=◌, Ensures, returns, Ensures-bind, ZiftError,
}

-- What one round of a loop decides: to go on from a state, or to leave with a value.
pub data Next (S A : Type 0) : Type 0 where
  again : S → Next S A
  done : A → Next S A

module _ {S A : Type 0} where
  abbrev pub next : (S → Outcome A) → Next S A → Outcome A
  next f (again s) = f s
  next f (done a) = ok a

  -- `loop { … }`: the body is one round.
  unfoldable pub loop : ℕ → (S → Outcome (Next S A)) → S → Outcome A
  unfolding ◌>>=◌
  loop zero body s = panic out_of_fuel
  loop (suc fuel) body s = body s >>= next (loop fuel body)

  -- After one round from `s`: the invariant holds with a smaller measure, or the result is right.
  abbrev pub Progress : (S → Type 0) → (A → Type 0) → (S → ℕ) → S → Next S A → Type 0
  Progress P Q measure s (again s') = P s' × (measure s' < measure s)
  Progress P Q measure s (done a) = Q a

  Progress-loop :
      (P : S → Type 0) (Q : A → Type 0) (measure : S → ℕ) (body : S → Outcome (Next S A)) (fuel : ℕ)
      → ((s : S) → measure s < fuel → P s → Ensures Q (loop fuel body s))
      → (s : S) → measure s < suc fuel
      → (n : Next S A) → Progress P Q measure s n
      → Ensures Q (next (loop fuel body) n)
  Progress-loop P Q measure body fuel rest s m (again s') h = rest s' (omega arith) h.0
  Progress-loop P Q measure body fuel rest s m (done a) h = returns h

  -- Enough fuel, and an invariant that every round keeps: the loop ends with a right result.
  pub loop_rule :
      (P : S → Type 0) (Q : A → Type 0) (measure : S → ℕ) (body : S → Outcome (Next S A))
      → ((s : S) → P s → Ensures (Progress P Q measure s) (body s))
      → (fuel : ℕ) (s : S) → measure s < fuel
      → P s
      → Ensures Q (loop fuel body s)
  unfolding loop
  loop_rule P Q measure body keep zero s m h = absurd (omega arith)
  loop_rule P Q measure body keep (suc fuel) s m h =
      Ensures-bind (keep s h)
        (Progress-loop P Q measure body fuel (loop_rule P Q measure body keep fuel) s m)

  -- One round, seen from outside.
  pub loop_again :
      (fuel : ℕ) (body : S → Outcome (Next S A)) (s s' : S)
      → body s ≡ ok (again s')
      → loop (suc fuel) body s ≡ loop fuel body s'
  unfolding loop
  loop_again fuel body s s' e = rw e

  pub loop_done :
      (fuel : ℕ) (body : S → Outcome (Next S A)) (s : S) (a : A)
      → body s ≡ ok (done a)
      → loop (suc fuel) body s ≡ ok a
  unfolding loop
  loop_done fuel body s a e = rw e

  pub loop_err :
      (fuel : ℕ) (body : S → Outcome (Next S A)) (s : S) (x : ZiftError)
      → body s ≡ err x
      → loop (suc fuel) body s ≡ err x
  unfolding loop
  loop_err fuel body s x e = rw e
