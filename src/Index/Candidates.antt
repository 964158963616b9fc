-- ===== src/Index/Candidates.antt =====
-- `candidate_blocks` and `candidate_blocks_iter` of src/index.rs, against `verify_contains`.
use ziftsieve.Base.{
  ℕ, zero, suc, ◌+◌, ◌≤◌, ◌<◌, ◌≡◌, inl, inr, refl, arith, List, [], ◌∷◌, map, Bool, true, false,
  length, leb, if◌then◌else◌, some, get_elem?, get_elem?-bound, ok, ◌>>=◌, Ensures, returns,
  Ensures-bind, Ensures-map, Bool-cases, leb→le, All,
}
use mathlib.Core.Path.{subst}
use ziftsieve.Platform.{Platform}
use ziftsieve.Block.{CompressedBlock, windows, verify_contains}
use ziftsieve.Block.Search.{
  In, Occurs, Occurs-windows, Occurs-trans, length-windows, verify_contains_iff,
}
use ziftsieve.Bloom.{BloomFilter, may_contain}
use ziftsieve.Bloom.Members.{IsValid, may_contain-total}
use ziftsieve.Index.{
  BlockWithBloom, CompressedIndex, all_may_contain, pattern_might_contain, filter_from,
  candidate_blocks, candidate_blocks_iter, get_block, count_up,
}

count_up-In : (i n j : ℕ) → j < n → In (i + j) (count_up i n)
unfolding count_up
count_up-In i zero j h = absurd (omega arith)
count_up-In i (suc n) zero h = inl (omega arith)
count_up-In i (suc n) (suc j) h =
    inr
      (subst (λ k. In k (count_up (i + 1) n)) (omega arith) (count_up-In (i + 1) n j (omega arith)))

module _ (p : Platform) where
  -- The filter of a block contains every run of 1 to 4 bytes of its literals.
  pub record IsIndexed (b : BlockWithBloom p) : Type 0 where
    pub valid : IsValid p b.bloom
    pub covered :
        (w : List ℕ)
        → 1 ≤ length w
        → length w ≤ 4
        → Occurs w b.block.literals
        → may_contain p b.bloom w ≡ ok true

  all_may_contain-true :
      (f : BloomFilter p) (ws : List (List ℕ))
      → ((w : List ℕ) → In w ws → may_contain p f w ≡ ok true)
      → all_may_contain p f ws ≡ ok true
  unfolding all_may_contain ◌>>=◌
  all_may_contain-true f [] h = refl
  all_may_contain-true f (w ∷ ws) h =
      rw (h w (inl refl)) (all_may_contain-true f ws (λ x m. h x (inr m)))

  all_may_contain-total :
      (f : BloomFilter p) (ws : List (List ℕ))
      → IsValid p f
      → (b : Bool) × (all_may_contain p f ws ≡ ok b)
  unfolding all_may_contain ◌>>=◌
  all_may_contain-total f [] v = (true, refl)
  all_may_contain-total f (w ∷ ws) v =
      let (r, e) = all_may_contain-total f ws v in
      let (b, q) = may_contain-total p f w v in (if b then r else false, ground arith)

  -- Every window of a pattern that occurs in the literals passes the filter.
  pattern_might_contain-true :
      (b : BlockWithBloom p) (pattern : List ℕ)
      → IsIndexed b
      → 1 ≤ length pattern
      → Occurs pattern b.block.literals
      → pattern_might_contain p b.bloom pattern ≡ ok true
  unfolding pattern_might_contain
  pattern_might_contain-true b pattern v l o = elim (Bool-cases (leb (length pattern) 4)) [
    | inl short ↦ rw short (v.covered pattern l (leb→le _ _ short) o)
    | inr long ↦ rw long (
        all_may_contain-true b.bloom (windows 4 pattern) λ w m.
          v.covered w (omega (arith, length-windows 4 w pattern m))
            (omega (arith, length-windows 4 w pattern m))
            (Occurs-trans w pattern b.block.literals (Occurs-windows 4 w pattern m) o))
  ]

  pattern_might_contain-total :
      (f : BloomFilter p) (pattern : List ℕ)
      → IsValid p f
      → (b : Bool) × (pattern_might_contain p f pattern ≡ ok b)
  unfolding pattern_might_contain
  pattern_might_contain-total f pattern v = elim (Bool-cases (leb (length pattern) 4)) [
    | inl short ↦ rw short (may_contain-total p f pattern v)
    | inr long ↦ rw long (all_may_contain-total f (windows 4 pattern) v)
  ]

  -- What the filter is to give: the indices, counted from `i`, of the blocks that pass.
  pub record Filtered (pattern : List ℕ) (i : ℕ) (bs : List (BlockWithBloom p)) (cs : List ℕ)
      : Type 0 where
    pub complete :
        (j : ℕ) (b : BlockWithBloom p)
        → get_elem? bs j ≡ some b
        → pattern_might_contain p b.bloom pattern ≡ ok true
        → In (i + j) cs
    pub sound :
        (k : ℕ)
        → In k cs
        → (j : ℕ) × (b : BlockWithBloom p) × (k ≡ i + j)
          × (get_elem? bs j ≡ some b)
          × (pattern_might_contain p b.bloom pattern ≡ ok true)

  abbrev pub AllIndexed : List (BlockWithBloom p) → Type 0
  AllIndexed [] = Unit
  AllIndexed (b ∷ bs) = IsIndexed b × AllIndexed bs

  Filtered-cons :
      (pattern : List ℕ) (i : ℕ) (b : BlockWithBloom p) (bs : List (BlockWithBloom p)) (cs : List ℕ)
      (hit : Bool)
      → pattern_might_contain p b.bloom pattern ≡ ok hit
      → Filtered pattern (i + 1) bs cs
      → Filtered pattern i (b ∷ bs) (if hit then i ∷ cs else cs)
  Filtered-cons pattern i b bs cs true e h = record {
    complete = λ j.
        elim j
          as (λ j.
            (x : BlockWithBloom p)
            → get_elem? (b ∷ bs) j ≡ some x
            → pattern_might_contain p x.bloom pattern ≡ ok true
            → In (i + j) (i ∷ cs)) [
              | zero ↦ λ x g q. inl (omega arith)
              | suc j ↦ λ x g q. inr (subst (λ k. In k cs) (omega arith) (h.complete j x g q))
            ];
    sound = λ k. elim [
      | inl at_head ↦ (0, b, omega arith, refl, e)
      | inr later ↦ let (j, x, q, g, m) = h.sound k later in (suc j, x, omega arith, g, m)
    ];
  }
  Filtered-cons pattern i b bs cs false e h = record {
    complete = λ j.
        elim j
          as (λ j.
            (x : BlockWithBloom p)
            → get_elem? (b ∷ bs) j ≡ some x
            → pattern_might_contain p x.bloom pattern ≡ ok true
            → In (i + j) cs) [
              | zero ↦ λ x g q. cc
              | suc j ↦ λ x g q. subst (λ k. In k cs) (omega arith) (h.complete j x g q)
            ];
    sound = λ k later. let (j, x, q, g, m) = h.sound k later in (suc j, x, omega arith, g, m);
  }

  filter_from-Ensures :
      (pattern : List ℕ) (i : ℕ) (bs : List (BlockWithBloom p))
      → AllIndexed bs
      → Ensures (Filtered pattern i bs) (filter_from p pattern i bs)
  unfolding filter_from
  filter_from-Ensures pattern i [] v =
      returns (record { complete = λ j b g q. cc; sound = λ k m. absurd m })
  filter_from-Ensures pattern i (b ∷ bs) v =
      let (hit, e) = pattern_might_contain-total b.bloom pattern v.0.valid in
      Ensures-bind {P = λ h. pattern_might_contain p b.bloom pattern ≡ ok h} (rw e (returns refl))
        λ h q.
          Ensures-bind (filter_from-Ensures pattern (i + 1) bs v.1)
            λ cs f. returns (Filtered-cons pattern i b bs cs h q f)

  -- The blocks that the search of the literals confirms are among the candidates.
  abbrev pub MissesNone : CompressedIndex p → List ℕ → List ℕ → Type 0
  MissesNone index pattern cs =
      (i : ℕ) (b : CompressedBlock)
      → get_block p index i ≡ some b
      → verify_contains b pattern ≡ true
      → In i cs

  abbrev pub IsComplete : CompressedIndex p → Type 0
  IsComplete index = AllIndexed index.blocks

  found_block :
      (bs : List (BlockWithBloom p)) (i : ℕ) (b : CompressedBlock)
      → AllIndexed bs
      → get_elem? (map (λ x. x.block) bs) i ≡ some b
      → (x : BlockWithBloom p) × (get_elem? bs i ≡ some x) × (x.block ≡ b) × IsIndexed x
  found_block [] i b v e = cc
  found_block (x ∷ bs) zero b v e = (x, refl, cc, v.0)
  found_block (x ∷ bs) (suc i) b v e = found_block bs i b v.1 e

  -- In an index whose filters are valid and cover the runs of 1 to 4 bytes of their blocks,
  -- `candidate_blocks` does not panic, and every block whose literals contain the pattern is among
  -- the candidates; the empty pattern has all blocks.
  pub candidate_blocks-Ensures :
      (index : CompressedIndex p) (pattern : List ℕ)
      → IsComplete index
      → Ensures (MissesNone index pattern) (candidate_blocks p index pattern)
  unfolding candidate_blocks get_block
  candidate_blocks-Ensures index [] v = returns λ i b g q.
      let (x, at, same, indexed) = found_block index.blocks i b v g in
      subst (λ k. In k (count_up 0 (length index.blocks))) (omega arith)
        (count_up-In 0 (length index.blocks) i (get_elem?-bound index.blocks i x at))
  candidate_blocks-Ensures index (c ∷ cs) v =
      Ensures-map
        (λ found f i b g q.
          let (x, at, same, indexed) = found_block index.blocks i b v g in
          subst (λ k. In k found) (omega arith)
            (f.complete i x at (
              pattern_might_contain-true x (c ∷ cs) indexed (omega arith)
                (rw same ((verify_contains_iff b (c ∷ cs)).0 q)))))
        (filter_from-Ensures (c ∷ cs) 0 index.blocks v)

  -- Where no filter of the index answers yes for the empty item, `candidate_blocks_iter` yields no
  -- block for the empty pattern, though `candidate_blocks` returns all of them.
  pub candidate_blocks_iter-nil :
      (index : CompressedIndex p)
      → All (λ b. may_contain p b.bloom [] ≡ ok false) index.blocks
      → (candidate_blocks_iter p index [] ≡ ok [])
        × (candidate_blocks p index [] ≡ ok (count_up 0 (length index.blocks)))
  unfolding candidate_blocks_iter candidate_blocks filter_from pattern_might_contain ◌>>=◌
  candidate_blocks_iter-nil index h = (none_found 0 index.blocks h, refl)
    where
      none_found :
          (i : ℕ) (bs : List (BlockWithBloom p))
          → All (λ b. may_contain p b.bloom [] ≡ ok false) bs
          → filter_from p [] i bs ≡ ok []
      none_found i [] h = refl
      none_found i (b ∷ bs) h = rw (h.0, none_found (i + 1) bs h.1)
