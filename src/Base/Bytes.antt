-- ===== src/Base/Bytes.antt =====
-- Indexing and slicing a byte slice, with the panic of an index out of range.
use Prim.Native.Nat.{ℕ, zero, suc, ◌+◌, ◌-◌, ◌≤◌, ◌<◌, ◌^◌}
use mathlib.Core.Path.{◌≡◌, refl, ap, ◌∙◌}
use mathlib.Core.Bool.{◌&&◌}
use mathlib.Core.Option.{Option, none, some}
use mathlib.Core.List.{List, [], ◌∷◌, ◌++◌}
use native.Mathlib.Omega.{arith}
use ziftsieve.Base.Tests.{leb, le→leb, if◌then◌else◌}
use ziftsieve.Base.Lists.{length, get_elem?, take, drop}
use ziftsieve.Base.Lists.{take-append, drop-append, length-append}
use ziftsieve.Base.Fallible.{Outcome, ok, panic, out_of_bounds, Ensures, returns}

abbrev found : {A : Type 0} → Option A → Outcome A
found none = panic out_of_bounds
found (some x) = ok x

-- A slice has at most `isize::MAX` bytes.
abbrev pub FitsIsize : List ℕ → Type 0
FitsIsize bytes = length bytes < 2 ^ 63

-- `data[i]`
unfoldable pub index : {A : Type 0} → List A → ℕ → Outcome A
index xs i = found (get_elem? xs i)

-- `&data[a..b]`
unfoldable pub slice : {A : Type 0} → List A → ℕ → ℕ → Outcome (List A)
slice xs a b =
    if leb a b && leb b (length xs) then ok (take (b - a) (drop a xs)) else panic out_of_bounds

module _ {A : Type 0} where
  get_elem?-append : (xs ys : List A) (y : A) → get_elem? (xs ++ (y ∷ ys)) (length xs) ≡ some y
  get_elem?-append [] ys y = refl
  get_elem?-append (x ∷ xs) ys y = get_elem?-append xs ys y

  get_elem?-lt : (xs : List A) (i : ℕ) → i < length xs → (x : A) × (get_elem? xs i ≡ some x)
  get_elem?-lt [] i h = absurd (omega arith)
  get_elem?-lt (x ∷ xs) zero h = (x, refl)
  get_elem?-lt (x ∷ xs) (suc i) h = get_elem?-lt xs i (omega arith)

  pub index-lt : (xs : List A) (i : ℕ) → i < length xs → (x : A) × (index xs i ≡ ok x)
  unfolding index
  index-lt xs i h = let (x, e) = get_elem?-lt xs i h in (x, ap found e)

  pub index-Ensures :
      (xs : List A) (i : ℕ) → i < length xs → Ensures (λ x. index xs i ≡ ok x) (index xs i)
  index-Ensures xs i h = let (x, e) = index-lt xs i h in rw e (returns refl)

  pub index-append :
      (xs ys : List A) (y : A) (i : ℕ) → i ≡ length xs → index (xs ++ (y ∷ ys)) i ≡ ok y
  unfolding index
  index-append xs ys y i e = rw e (ap found (get_elem?-append xs ys y))

  get_elem?-drop :
      (xs : List A) (i : ℕ) (x : A) → get_elem? xs i ≡ some x → drop i xs ≡ x ∷ drop (suc i) xs
  get_elem?-drop [] i x e = cc
  get_elem?-drop (y ∷ ys) zero x e = cc
  get_elem?-drop (y ∷ ys) (suc i) x e = get_elem?-drop ys i x e

  found-ok : (o : Option A) (x : A) → found o ≡ ok x → o ≡ some x
  found-ok none x e = cc
  found-ok (some y) x e = cc

  -- The byte at `i` heads what is left at `i`.
  pub index-drop :
      (xs : List A) (i : ℕ) (x : A) → index xs i ≡ ok x → drop i xs ≡ x ∷ drop (suc i) xs
  unfolding index
  index-drop xs i x e = get_elem?-drop xs i x (found-ok _ x e)

  pub slice_lem :
      (xs : List A) (a b : ℕ) → a ≤ b → b ≤ length xs → slice xs a b ≡ ok (take (b - a) (drop a xs))
  unfolding slice
  slice_lem xs a b p q = rw (le→leb a b p, le→leb b (length xs) q)

  pub slice-Ensures :
      (xs : List A) (a b : ℕ)
      → a ≤ b
      → b ≤ length xs
      → Ensures (λ ys. ys ≡ take (b - a) (drop a xs)) (slice xs a b)
  slice-Ensures xs a b p q = rw (slice_lem xs a b p q) (returns refl)

  -- A slice of `k` elements from `a` on.
  pub slice_run-Ensures :
      (xs : List A) (a k : ℕ)
      → a + k ≤ length xs
      → Ensures (λ ys. ys ≡ take k (drop a xs)) (slice xs a (a + k))
  slice_run-Ensures xs a k q =
      let e : a + k - a ≡ k = omega arith in rw e at (slice-Ensures xs a (a + k) (omega arith) q)

  pub slice-append :
      (xs ys zs : List A) (a b : ℕ)
      → a ≡ length xs
      → b ≡ length xs + length ys
      → slice (xs ++ (ys ++ zs)) a b ≡ ok ys
  slice-append xs ys zs a b p q =
      let e : b - a ≡ length ys = omega arith in
      slice_lem (xs ++ (ys ++ zs)) a b (omega arith)
        (omega (arith, length-append xs (ys ++ zs), length-append ys zs))
      ∙ rw (e, p, drop-append, take-append)

  -- The element, as `get_elem?` has it.
  pub index_found :
      (xs : List A) (i : ℕ)
      → i < length xs
      → (x : A) × (index xs i ≡ ok x) × (get_elem? xs i ≡ some x)
  unfolding index
  index_found xs i h = let (x, e) = get_elem?-lt xs i h in (x, ap found e, e)
