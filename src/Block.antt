-- ===== src/Block.antt =====
-- `CompressedBlock` of src/extract/mod.rs: what a parser hands to the index, and the linear search
-- through its literals.
pub mod Search
use ziftsieve.Base.{
  ℕ, Option, none, List, [], ◌∷◌, Bool, true, false, ◌&&◌, ◌||◌, length, ltb, leb, ◌==◌,
  if◌then◌else◌, take, arith, ◌+◌, ◌++◌, ◌≡◌,
}

pub record CompressedBlock : Type 0 where
  pub compressed_offset : ℕ
  pub compressed_len : ℕ
  pub uncompressed_len : Option ℕ
  pub literals : List ℕ

-- `CompressedBlock::new`
abbrev pub new : ℕ → ℕ → CompressedBlock
new offset len = record {
  compressed_offset = offset;
  compressed_len = len;
  uncompressed_len = none;
  literals = [];
}

-- The literals of all blocks together.
abbrev pub sum_literals : List CompressedBlock → ℕ
sum_literals [] = 0
sum_literals (b ∷ bs) = length b.literals + sum_literals bs

pub sum_literals-append :
    (bs cs : List CompressedBlock) → sum_literals (bs ++ cs) ≡ sum_literals bs + sum_literals cs
sum_literals-append [] cs = omega arith
sum_literals-append (b ∷ bs) cs = omega (arith, sum_literals-append bs cs)

-- `slice::windows`, for a size above 0.
unfoldable pub windows : ℕ → List ℕ → List (List ℕ)
windows size [] = []
windows size (x ∷ xs) =
    if leb size (length (x ∷ xs)) then take size (x ∷ xs) ∷ windows size xs else []

-- `==` on slices
unfoldable pub same_bytes : List ℕ → List ℕ → Bool
same_bytes [] [] = true
same_bytes (x ∷ xs) (y ∷ ys) = x == y && same_bytes xs ys
same_bytes _ _ = false

-- `slice::contains`
pub contains : List ℕ → ℕ → Bool
contains [] a = false
contains (x ∷ xs) a = x == a || contains xs a

-- `iter.any(|window| window == pattern)`
pub any_same : List (List ℕ) → List ℕ → Bool
any_same [] pattern = false
any_same (w ∷ ws) pattern = same_bytes w pattern || any_same ws pattern

-- The search in the literals `text`.
pub verify_in : List ℕ → List ℕ → Bool
verify_in text [] = true
verify_in text (c ∷ cs) =
    if ltb (length text) (length (c ∷ cs))
    then false
    else if length (c ∷ cs) == 1
    then contains text c
    else any_same (windows (length (c ∷ cs)) text) (c ∷ cs)

pub verify_contains : CompressedBlock → List ℕ → Bool
unfolding verify_in
verify_contains b pattern = verify_in b.literals pattern
