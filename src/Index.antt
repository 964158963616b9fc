-- ===== src/Index.antt =====
-- src/index.rs: blocks with their Bloom filters, and the search for candidates. The statistics in
-- floating point are left out.
pub mod Candidates
use ziftsieve.Base.{
  ℕ, zero, suc, ◌+◌, ◌≤◌, List, [], ◌∷◌, map, Bool, true, false, length, leb, if◌then◌else◌, Option,
  none, some, get_elem?, CompressionFormat, Outcome, ok, ◌>>=◌, ◌≡◌,
}
use ziftsieve.Platform.{Platform}
use ziftsieve.Block.{CompressedBlock, windows}
use ziftsieve.Bloom.{BloomFilter, may_contain}

-- `(i..i + n).collect()`
pub count_up : ℕ → ℕ → List ℕ
count_up i zero = []
count_up i (suc n) = i ∷ count_up (i + 1) n

module _ (p : Platform) where
  pub record BlockWithBloom : Type 0 where
    pub block : CompressedBlock
    pub bloom : BloomFilter p

  pub record CompressedIndex : Type 0 where
    pub format : CompressionFormat
    pub blocks : List BlockWithBloom

  -- `windows.all(|window| bloom.may_contain(window))`
  pub all_may_contain : BloomFilter p → List (List ℕ) → Outcome Bool
  all_may_contain bloom [] = ok true
  all_may_contain bloom (w ∷ ws) =
      let rest = all_may_contain bloom ws in
      may_contain p bloom w >>= λ found. if found then rest else ok false

  pub pattern_might_contain : BloomFilter p → List ℕ → Outcome Bool
  pattern_might_contain bloom pattern =
      if leb (length pattern) 4
      then may_contain p bloom pattern
      else all_may_contain bloom (windows 4 pattern)

  -- The indices, from `i` on, of the blocks that pass the filter.
  pub filter_from : List ℕ → ℕ → List BlockWithBloom → Outcome (List ℕ)
  filter_from pattern i [] = ok []
  filter_from pattern i (b ∷ bs) = do
    hit ← pattern_might_contain b.bloom pattern
    rest ← filter_from pattern (i + 1) bs
    ok (if hit then i ∷ rest else rest)

  -- All that the iterator yields.
  pub candidate_blocks_iter : CompressedIndex → List ℕ → Outcome (List ℕ)
  candidate_blocks_iter index pattern = filter_from pattern 0 index.blocks

  pub candidate_blocks : CompressedIndex → List ℕ → Outcome (List ℕ)
  candidate_blocks index [] = ok (count_up 0 (length index.blocks))
  candidate_blocks index (c ∷ cs) = filter_from (c ∷ cs) 0 index.blocks

  pub get_block : CompressedIndex → ℕ → Option CompressedBlock
  get_block index i = get_elem? (map (λ b. b.block) index.blocks) i

  pub block_count : CompressedIndex → ℕ
  block_count index = length index.blocks
