-- ===== src/Builder.antt =====
-- src/builder.rs: the builders of an index. Setters are updates of the record.
pub mod Complete
pub mod Search
mod Tests
use ziftsieve.Base.{
  ℕ, ◌+◌, ◌/◌, max, List, [], ◌∷◌, ◌++◌, Option, none, some, length, ltb, CompressionFormat,
  Outcome, ok, ◌>>=◌, ◌>>◌, refuse, block_too_large, saturating_add,
}
use ziftsieve.Platform.{Platform}
use ziftsieve.Block.{CompressedBlock, windows}
use ziftsieve.Extract.{Parsers, extract_from_bytes}
use ziftsieve.Bloom
use ziftsieve.Bloom.{BloomFilter}
use ziftsieve.Index.{BlockWithBloom, CompressedIndex}

abbrev pub max_streaming_blocks : ℕ
max_streaming_blocks = 1_000_000

-- The bytes, one at a time.
pub singles : List ℕ → List (List ℕ)
singles [] = []
singles (b ∷ bs) = (b ∷ []) ∷ singles bs

module _ (p : Platform) where
  open p use {floats}

  -- The sizing options that both builders have.
  pub record Sizing : Type 0 where
    pub expected_items : Option ℕ
    pub false_positive_rate : Option floats.F
    pub num_bits : Option ℕ
    pub num_hashes : Option ℕ

  pub record CompressedIndexBuilder : Type 0 where
    pub format : CompressionFormat
    pub sizing : Sizing

  pub record StreamingIndexBuilder : Type 0 where
    pub format : CompressionFormat
    pub blocks : List (BlockWithBloom p)
    pub sizing : Sizing

  pub rate_or_percent : Option floats.F → floats.F
  rate_or_percent none = floats.percent
  rate_or_percent (some rate) = rate

  -- An empty filter: by the explicit sizes if both are given, else for `items` items.
  pub blank_filter : Option floats.F → Option ℕ → Option ℕ → ℕ → BloomFilter p
  blank_filter rate (some bits) (some hashes) items = Bloom.with_params p bits hashes
  blank_filter rate bits hashes items = Bloom.new p (max items 16) (rate_or_percent rate)

  pub insert_all : BloomFilter p → List (List ℕ) → Outcome (BloomFilter p)
  insert_all f [] = ok f
  insert_all f (item ∷ items) = Bloom.insert p f item >>= λ g. insert_all g items

  -- The part that both `build_block_with_bloom` share: all windows of 4, 3, 2 and 1 bytes.
  pub index_block : BloomFilter p → CompressedBlock → Outcome (BlockWithBloom p)
  index_block blank block = do
    four ← insert_all blank (windows 4 block.literals)
    three ← insert_all four (windows 3 block.literals)
    two ← insert_all three (windows 2 block.literals)
    bloom ← insert_all two (singles block.literals)
    ok (record { block = block; bloom = bloom })

  -- `self.expected_items.map_or(literal_count.max(16), |e| e / num_blocks)`
  pub share_of_items : Option ℕ → ℕ → ℕ → ℕ
  share_of_items none num_blocks count = max count 16
  share_of_items (some e) num_blocks count = e / num_blocks

  -- `self.expected_items.unwrap_or(literal_count.max(16))`
  pub items_or_count : Option ℕ → ℕ → ℕ
  items_or_count none count = max count 16
  items_or_count (some e) count = e

  -- `items` is the number of items by the count of literals.
  pub build_block_with_bloom : Sizing → (ℕ → ℕ) → CompressedBlock → Outcome (BlockWithBloom p)
  build_block_with_bloom z items block =
      index_block
        (blank_filter z.false_positive_rate z.num_bits z.num_hashes (items (length block.literals)))
        block

  pub build_blocks : Sizing → (ℕ → ℕ) → List CompressedBlock → Outcome (List (BlockWithBloom p))
  build_blocks z items [] = ok []
  build_blocks z items (b ∷ bs) = do
    first ← build_block_with_bloom z items b
    rest ← build_blocks z items bs
    ok (first ∷ rest)

  pub build_from_bytes : Parsers → CompressedIndexBuilder → List ℕ → Outcome (CompressedIndex p)
  build_from_bytes parsers builder bytes = do
    blocks ← extract_from_bytes parsers builder.format bytes
    let num_blocks = max (length blocks) 1
    indexed ←
        build_blocks builder.sizing (share_of_items builder.sizing.expected_items num_blocks) blocks
    ok (record { format = builder.format; blocks = indexed })

  pub process_chunk : Parsers → StreamingIndexBuilder → List ℕ → Outcome StreamingIndexBuilder
  process_chunk parsers builder chunk = do
    blocks ← extract_from_bytes parsers builder.format chunk
    let total = saturating_add (length builder.blocks) (length blocks)
    refuse (ltb max_streaming_blocks total) (block_too_large total max_streaming_blocks)
    indexed ← build_blocks builder.sizing (items_or_count builder.sizing.expected_items) blocks
    ok (record builder { blocks = builder.blocks ++ indexed })

  pub finalize : StreamingIndexBuilder → Outcome (CompressedIndex p)
  finalize builder = ok (record { format = builder.format; blocks = builder.blocks })
