-- ===== src/Base/Rest.antt =====
-- Reading at a position, in terms of what is left there: `drop pos bytes`.
use Prim.Native.Nat.{ℕ, zero, suc, ◌+◌, ◌-◌, ◌≤◌}
use mathlib.Core.Path.{◌≡◌, refl, sym, ap, ◌∙◌}
use mathlib.Core.Option.{some}
use mathlib.Core.List.{List, [], ◌∷◌, ◌++◌}
use native.Mathlib.Omega.{arith}
use ziftsieve.Base.Lists.{
  length, take, drop, get_elem?, drop-drop, length-drop, length-append, take_all,
}
use ziftsieve.Base.Lists.{drop-append}
use ziftsieve.Base.Fallible.{ok}
use ziftsieve.Base.Bytes.{index, slice, slice_lem}

module _ {A : Type 0} where
  -- Past the end nothing is left.
  pub rest_bound : (xs : List A) (i : ℕ) (ys : List A) → drop i xs ≡ ys → length xs - i ≡ length ys
  rest_bound xs i ys e = omega (arith, length-drop i xs, ap length e)

  get_elem?-rest :
      (xs : List A) (i : ℕ) (x : A) (r : List A) → drop i xs ≡ x ∷ r → get_elem? xs i ≡ some x
  get_elem?-rest [] zero x r e = cc
  get_elem?-rest [] (suc i) x r e = cc
  get_elem?-rest (y ∷ ys) zero x r e = cc
  get_elem?-rest (y ∷ ys) (suc i) x r e = get_elem?-rest ys i x r e

  pub index-rest :
      (xs : List A) (i : ℕ) (x : A) (r : List A) → drop i xs ≡ x ∷ r → index xs i ≡ ok x
  unfolding index
  index-rest xs i x r e = rw (get_elem?-rest xs i x r e)

  pub rest-run :
      (xs : List A) (i : ℕ) (ys r : List A) → drop i xs ≡ ys ++ r → drop (i + length ys) xs ≡ r
  rest-run xs i ys r e =
      sym (drop-drop i (length ys) xs) ∙ ap (drop (length ys)) e ∙ drop-append ys r

  pub rest-one :
      (xs : List A) (i : ℕ) (x : A) (r : List A) → drop i xs ≡ x ∷ r → drop (i + 1) xs ≡ r
  rest-one xs i x r e = rest-run xs i (x ∷ []) r e

  take-append_le : (k : ℕ) (ys r : List A) → k ≤ length ys → take k (ys ++ r) ≡ take k ys
  take-append_le zero ys r h = refl
  take-append_le (suc k) [] r h = absurd (omega arith)
  take-append_le (suc k) (y ∷ ys) r h = ap (◌∷◌ y) (take-append_le k ys r (omega arith))

  pub slice-rest :
      (xs : List A) (i k : ℕ) (ys r : List A)
      → drop i xs ≡ ys ++ r
      → k ≤ length ys
      → i + k ≤ length xs
      → slice xs i (i + k) ≡ ok (take k ys)
  slice-rest xs i k ys r e h l =
      let d : i + k - i ≡ k = omega arith in
      slice_lem xs i (i + k) (omega arith) l ∙ ap ok (rw (d, e) (take-append_le k ys r h))

  -- What stands behind a prefix.
  pub slice-behind :
      (xs ys : List A) (n : ℕ) → length xs ≡ n → slice (xs ++ ys) n (length (xs ++ ys)) ≡ ok ys
  slice-behind xs ys n e =
      let l : length (xs ++ ys) ≡ n + length ys = omega (arith, length-append xs ys) in
      slice_lem (xs ++ ys) n (length (xs ++ ys)) (omega arith) (omega arith)
      ∙ rw (← e, drop-append) (ap ok (take_all _ ys (omega arith)))
