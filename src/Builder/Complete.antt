-- ===== src/Builder/Complete.antt =====
-- The builders of src/builder.rs: their filters, and a search in the index that they build.
use ziftsieve.Base.{
  ℕ, ◌≤◌, ◌≡◌, refl, ap, ap₂, arith, List, [], ◌∷◌, ◌++◌, map, true, Option, none, some, length, ok,
  ◌>>=◌, Ensures, returns, fails, Ensures-bind, Ensures-map, Ensures-value, ltb→ge, length-append,
  length-map, CompressionFormat, Ensures-refuse, Ensures-if, inl, inr,
}
use ziftsieve.Platform.{Platform}
use ziftsieve.Block.{CompressedBlock, windows}
use ziftsieve.Block.Search.{In, Occurs, windows-Occurs}
use ziftsieve.Bloom.{BloomFilter, may_contain}
use ziftsieve.Bloom.Members.{IsValid, insert-Ensures}
use ziftsieve.Bloom.Build.{with_params-IsFresh, new-IsFresh}
use ziftsieve.Extract.{Parsers, extract_from_bytes}
use ziftsieve.Index.{BlockWithBloom, candidate_blocks}
use ziftsieve.Index.Candidates.{
  IsIndexed, AllIndexed, IsComplete, MissesNone, candidate_blocks-Ensures,
}
use ziftsieve.Builder.{
  singles, max_streaming_blocks, Sizing, CompressedIndexBuilder, StreamingIndexBuilder,
  blank_filter, insert_all, index_block, build_block_with_bloom, build_blocks, build_from_bytes,
  process_chunk,
}

singles-Occurs : (b : ℕ) (before after : List ℕ) → In (b ∷ []) (singles (before ++ (b ∷ after)))
unfolding singles
singles-Occurs b [] after = inl refl
singles-Occurs b (x ∷ before) after = inr (singles-Occurs b before after)

module _ (p : Platform) where
  open p use {floats}

  blank_filter-IsValid :
      (rate : Option floats.F) (bits hashes : Option ℕ) (items : ℕ)
      → IsValid p (blank_filter p rate bits hashes items)
  unfolding blank_filter
  blank_filter-IsValid rate (some bits) (some hashes) items =
      (with_params-IsFresh p bits hashes).valid
  blank_filter-IsValid rate none hashes items = (new-IsFresh p _ _).valid
  blank_filter-IsValid rate (some bits) none items = (new-IsFresh p _ _).valid

  -- After the insertions every item is in the filter, and so is all that was there before.
  pub record Holds (f : BloomFilter p) (items : List (List ℕ)) (g : BloomFilter p) : Type 0 where
    pub valid : IsValid p g
    pub members : (x : List ℕ) → In x items → may_contain p g x ≡ ok true
    pub kept : (x : List ℕ) → may_contain p f x ≡ ok true → may_contain p g x ≡ ok true

  pub insert_all-Ensures :
      (f : BloomFilter p) (items : List (List ℕ))
      → IsValid p f
      → Ensures (Holds f items) (insert_all p f items)
  unfolding insert_all
  insert_all-Ensures f [] v =
      returns (record { valid = v; members = λ x m. absurd m; kept = λ x h. h })
  insert_all-Ensures f (item ∷ items) v = Ensures-bind (insert-Ensures p f item v) λ g h.
      Ensures-map
        (λ k r. record {
          valid = r.valid;
          members = λ x. elim [ inl e ↦ r.kept x (rw (← e) h.member) | inr m ↦ r.members x m ];
          kept = λ x q. r.kept x (h.kept x q);
        })
        (insert_all-Ensures g items h.valid)

  -- A block is indexed as it stands, and its filter covers it.
  pub index_block-Ensures :
      (blank : BloomFilter p) (block : CompressedBlock)
      → IsValid p blank
      → Ensures (λ r. IsIndexed p r × (r.block ≡ block)) (index_block p blank block)
  unfolding index_block
  index_block-Ensures blank block v =
      Ensures-bind (insert_all-Ensures blank (windows 4 block.literals) v) λ four h4.
        Ensures-bind (insert_all-Ensures four (windows 3 block.literals) h4.valid) λ three h3.
          Ensures-bind (insert_all-Ensures three (windows 2 block.literals) h3.valid) λ two h2.
            Ensures-bind (insert_all-Ensures two (singles block.literals) h2.valid) λ bloom h1.
              returns (
                record { valid = h1.valid; covered = covers four h4 three h3 two h2 bloom h1 },
                refl,
              )
    where
      covers :
          (four : BloomFilter p)
          → Holds blank (windows 4 block.literals) four
          → (three : BloomFilter p) → Holds four (windows 3 block.literals) three
          → (two : BloomFilter p) → Holds three (windows 2 block.literals) two
          → (bloom : BloomFilter p) → Holds two (singles block.literals) bloom
          → (w : List ℕ) → 1 ≤ length w
          → length w ≤ 4
          → Occurs w block.literals
          → may_contain p bloom w ≡ ok true
      covers four h4 three h3 two h2 bloom h1 [] l u o = absurd (omega arith)
      covers four h4 three h3 two h2 bloom h1 (a ∷ []) l u (before, after, e) =
          h1.members (a ∷ []) (rw e (singles-Occurs a before after))
      covers four h4 three h3 two h2 bloom h1 (a ∷ b ∷ []) l u o =
          h1.kept _ (h2.members _ (windows-Occurs 2 _ block.literals (omega arith) refl o))
      covers four h4 three h3 two h2 bloom h1 (a ∷ b ∷ c ∷ []) l u o =
          h1.kept _
            (h2.kept _ (h3.members _ (windows-Occurs 3 _ block.literals (omega arith) refl o)))
      covers four h4 three h3 two h2 bloom h1 (a ∷ b ∷ c ∷ d ∷ []) l u o = h1.kept _ (
          h2.kept _
            (h3.kept _ (h4.members _ (windows-Occurs 4 _ block.literals (omega arith) refl o))))
      covers four h4 three h3 two h2 bloom h1 (a ∷ b ∷ c ∷ d ∷ x ∷ w) l u o = absurd (omega arith)

  build_blocks-Ensures :
      (z : Sizing p) (items : ℕ → ℕ) (bs : List CompressedBlock)
      → Ensures (λ rs. AllIndexed p rs × (map (λ r. r.block) rs ≡ bs)) (build_blocks p z items bs)
  unfolding build_blocks build_block_with_bloom
  build_blocks-Ensures z items [] = returns (tt, refl)
  build_blocks-Ensures z items (b ∷ bs) =
      Ensures-bind (index_block-Ensures _ b (blank_filter-IsValid _ _ _ _)) λ r h.
        Ensures-bind (build_blocks-Ensures z items bs)
          λ rs hs. returns ((h.0, hs.0), ap₂ ◌∷◌ h.1 hs.1)

  module _ (parsers : Parsers) where
    -- The parser that the format names does not panic on these bytes.
    abbrev pub Parses : CompressionFormat → List ℕ → Type 0
    Parses format bytes = Ensures (λ blocks. Unit {0}) (parsers.parse format bytes)

    extracted :
        (format : CompressionFormat) (bytes : List ℕ)
        → Parses format bytes
        → Ensures
            (λ blocks. parsers.parse format bytes ≡ ok blocks)
            (extract_from_bytes parsers format bytes)
    unfolding extract_from_bytes
    extracted format bytes h =
        Ensures-if (parsers.enabled format) (λ _. Ensures-map (λ bs e. e.1) (Ensures-value h))
          (λ _. fails)

    -- If the parser of the format does not panic on the bytes, `build_from_bytes` does not panic,
    -- and an index that it returns has the blocks of the parser in order, each with a valid filter
    -- that covers its runs of 1 to 4 bytes.
    pub build_from_bytes-Ensures :
        (builder : CompressedIndexBuilder p) (bytes : List ℕ)
        → Parses builder.format bytes
        → Ensures
            (λ index.
              IsComplete p index
              × (parsers.parse builder.format bytes ≡ ok (map (λ r. r.block) index.blocks)))
            (build_from_bytes p parsers builder bytes)
    unfolding build_from_bytes
    build_from_bytes-Ensures builder bytes h =
        Ensures-bind (extracted builder.format bytes h) λ blocks e.
          Ensures-bind (build_blocks-Ensures builder.sizing _ blocks)
            λ indexed k. returns (k.0, rw k.1 e)

    -- If the parser of the format does not panic on the bytes, then building an index and asking it
    -- for candidates does not panic, and every block whose literals contain the pattern is among
    -- the candidates.
    pub build_then_search :
        (builder : CompressedIndexBuilder p) (bytes pattern : List ℕ)
        → Parses builder.format bytes
        → Ensures
            (λ (index, found). MissesNone p index pattern found)
            (do
              index ← build_from_bytes p parsers builder bytes
              found ← candidate_blocks p index pattern
              ok (index, found))
    build_then_search builder bytes pattern h =
        Ensures-bind (build_from_bytes-Ensures builder bytes h) λ index k.
          Ensures-bind (candidate_blocks-Ensures p index pattern k.0) λ found m. returns m

    AllIndexed-append :
        (xs ys : List (BlockWithBloom p))
        → AllIndexed p xs
        → AllIndexed p ys
        → AllIndexed p (xs ++ ys)
    AllIndexed-append [] ys h k = k
    AllIndexed-append (x ∷ xs) ys h k = (h.0, AllIndexed-append xs ys h.1 k)

    -- If the filters of the builder cover their blocks and the parser does not panic on the chunk,
    -- `process_chunk` does not panic, and a builder that it returns has the blocks of the chunk
    -- behind the old ones, filters that cover all of them, and at most 1,000,000 blocks.
    pub process_chunk-Ensures :
        (builder : StreamingIndexBuilder p) (chunk : List ℕ)
        → AllIndexed p builder.blocks
        → Parses builder.format chunk
        → Ensures
            (λ after.
              AllIndexed p after.blocks
              × (length after.blocks ≤ max_streaming_blocks)
              × (added : List (BlockWithBloom p)) × (after.blocks ≡ builder.blocks ++ added)
              × (parsers.parse builder.format chunk ≡ ok (map (λ r. r.block) added)))
            (process_chunk p parsers builder chunk)
    unfolding process_chunk
    process_chunk-Ensures builder chunk v h =
        Ensures-bind (extracted builder.format chunk h) λ blocks e. Ensures-refuse _ _ λ room.
          Ensures-bind (build_blocks-Ensures builder.sizing _ blocks) λ indexed k. returns (
            AllIndexed-append builder.blocks indexed v k.0,
            omega (
              arith,
              ltb→ge _ _ room,
              length-append builder.blocks indexed,
              ap length k.1,
              length-map indexed (λ r. r.block),
            ),
            indexed,
            refl,
            rw k.1 e,
          )
