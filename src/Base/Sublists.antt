-- ===== src/Base/Sublists.antt =====
-- Lists that are left when elements are taken away: the library's `Sublist`.
use Prim.Native.Nat.{ℕ, zero, suc, ◌+◌, ◌-◌, ◌≤◌}
use mathlib.Core.Path.{◌≡◌}
use mathlib.Core.List.{List, [], ◌∷◌, ◌++◌, Sublist, append_assoc}
use mathlib.Core.List.Sublist
use native.Mathlib.Omega.{arith}
use ziftsieve.Base.Lists.{take, drop, drop-drop}

module _ {A : Type 0} where
  pub drop-sublist : (n : ℕ) (xs : List A) → Sublist (drop n xs) xs
  drop-sublist zero xs = Sublist.refl xs
  drop-sublist (suc n) [] = Sublist.refl []
  drop-sublist (suc n) (x ∷ xs) = Sublist.cons x (drop-sublist n xs)

  pub drop-sublist-drop : (n m : ℕ) (xs : List A) → n ≤ m → Sublist (drop m xs) (drop n xs)
  drop-sublist-drop n m xs h =
      let e : m ≡ n + (m - n) = omega arith in
      rw (e, ← drop-drop) (drop-sublist (m - n) (drop n xs))

  take-append-drop-sublist : (k n : ℕ) (xs : List A) → k ≤ n → Sublist (take k xs ++ drop n xs) xs
  take-append-drop-sublist zero n xs h = drop-sublist n xs
  take-append-drop-sublist (suc k) zero xs h = absurd (omega arith)
  take-append-drop-sublist (suc k) (suc n) [] h = Sublist.refl []
  take-append-drop-sublist (suc k) (suc n) (x ∷ xs) h =
      Sublist.cons-cons x (take-append-drop-sublist k n xs (omega arith))

  -- Moving a run of what is left at `p` to the front, and passing over the rest of it.
  pub sublist-run :
      (ys xs : List A) (p q k n : ℕ)
      → p ≤ q
      → k ≤ n
      → Sublist ((ys ++ take k (drop q xs)) ++ drop (q + n) xs) (ys ++ drop p xs)
  sublist-run ys xs p q k n h l =
      rw (append_assoc, ← drop-drop)
        (Sublist.append (Sublist.refl ys)
          (Sublist.trans (take-append-drop-sublist k n (drop q xs) l) (drop-sublist-drop p q xs h)))

  pub sublist-skip :
      (ys xs : List A) (p q : ℕ) → p ≤ q → Sublist (ys ++ drop q xs) (ys ++ drop p xs)
  sublist-skip ys xs p q h = Sublist.append (Sublist.refl ys) (drop-sublist-drop p q xs h)
