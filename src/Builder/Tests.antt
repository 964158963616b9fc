-- ===== src/Builder/Tests.antt =====
-- The index: the theorems about src/index.rs, src/builder.rs and src/extract at concrete inputs.
use ziftsieve.Base.{
  ℕ, ◌≡◌, ◌↔◌, ◌≤◌, List, [], ◌∷◌, ◌++◌, map, length, Ensures, Ensures-map, ok, true, some, none,
  arith, ◌>>=◌, lz4, gzip,
}
use ziftsieve.Block.{CompressedBlock, verify_contains}
use ziftsieve.Block.Search.{Occurs, verify_contains_iff}
use ziftsieve.Gzip.Bits.{Bytes}
use ziftsieve.Extract.Formats.{Decoders, parsers_of}
use ziftsieve.Builder.Search.{search_bytes}
use ziftsieve.Lz4.{parse_lz4_blocks}
use ziftsieve.Lz4.Blocks.{parse_lz4_blocks-Ensures}
use ziftsieve.Extract.{Parsers}
use ziftsieve.Index.{
  CompressedIndex, BlockWithBloom, candidate_blocks, candidate_blocks_iter, count_up,
}
use ziftsieve.Index.Candidates.{
  MissesNone, IsComplete, AllIndexed, candidate_blocks-Ensures, candidate_blocks_iter-nil,
}
use ziftsieve.Builder.{
  Sizing, CompressedIndexBuilder, StreamingIndexBuilder, build_from_bytes, process_chunk,
  max_streaming_blocks,
}
use ziftsieve.Builder.Complete.{
  Parses, build_from_bytes-Ensures, build_then_search, process_chunk-Ensures,
}
use ziftsieve.Bloom.{clear}
use ziftsieve.Bloom.Build.{clear_lem}
use ziftsieve.Bloom.Tests.{small, small-IsValid, full, full-IsValid, may_contain-full}
use ziftsieve.Platform.Listed.{listed}

abbrev sample : CompressedBlock
sample = record {
  compressed_offset = 0;
  compressed_len = 3;
  uncompressed_len = none;
  literals = 97 ∷ 98 ∷ 99 ∷ [];
}

verify_contains_iff_example :
    (verify_contains sample (98 ∷ 99 ∷ []) ≡ true) ↔ Occurs (98 ∷ 99 ∷ []) sample.literals
verify_contains_iff_example = verify_contains_iff sample (98 ∷ 99 ∷ [])

-- Every format is read as LZ4.
abbrev parsers : Parsers
parsers = record { enabled = λ f. true; parse = λ f. parse_lz4_blocks }

-- Two raw blocks, "ab" and "cd".
abbrev stream : List ℕ
stream = 2 ∷ 0 ∷ 0 ∷ 0x80 ∷ 97 ∷ 98 ∷ 2 ∷ 0 ∷ 0 ∷ 0x80 ∷ 99 ∷ 100 ∷ []

abbrev sizes : Sizing listed
sizes = record {
  expected_items = none;
  false_positive_rate = none;
  num_bits = some 64;
  num_hashes = some 3;
}

abbrev builder : CompressedIndexBuilder listed
builder = record { format = lz4; sizing = sizes }

abbrev streaming : StreamingIndexBuilder listed
streaming = record { format = lz4; blocks = []; sizing = sizes }

stream-Parses : Parses listed parsers lz4 stream
stream-Parses = Ensures-map (λ bs h. tt) (parse_lz4_blocks-Ensures stream (omega arith))

build_from_bytes-Ensures_example :
    Ensures
      (λ index.
        IsComplete listed index × (parse_lz4_blocks stream ≡ ok (map (λ r. r.block) index.blocks)))
      (build_from_bytes listed parsers builder stream)
build_from_bytes-Ensures_example =
    build_from_bytes-Ensures listed parsers builder stream stream-Parses

build_then_search_example :
    Ensures
      (λ (index, found). MissesNone listed index (99 ∷ []) found)
      (do
        index ← build_from_bytes listed parsers builder stream
        found ← candidate_blocks listed index (99 ∷ [])
        ok (index, found))
build_then_search_example = build_then_search listed parsers builder stream (99 ∷ []) stream-Parses

process_chunk-Ensures_example :
    Ensures
      (λ after.
        AllIndexed listed after.blocks
        × (length after.blocks ≤ max_streaming_blocks)
        × (added : List (BlockWithBloom listed)) × (after.blocks ≡ [] ++ added)
        × (parse_lz4_blocks stream ≡ ok (map (λ r. r.block) added)))
      (process_chunk listed parsers streaming stream)
process_chunk-Ensures_example =
    process_chunk-Ensures listed parsers streaming stream tt stream-Parses

abbrev sample_index : CompressedIndex listed
sample_index = record { format = lz4; blocks = record { block = sample; bloom = full } ∷ [] }

candidate_blocks-Ensures_example :
    Ensures
      (MissesNone listed sample_index (98 ∷ 99 ∷ []))
      (candidate_blocks listed sample_index (98 ∷ 99 ∷ []))
candidate_blocks-Ensures_example =
    candidate_blocks-Ensures listed sample_index (98 ∷ 99 ∷ [])
      (record { valid = full-IsValid; covered = λ w l u o. may_contain-full w }, tt)

-- The filter of the block is cleared.
abbrev cleared_index : CompressedIndex listed
cleared_index = record {
  format = lz4;
  blocks = record { block = sample; bloom = clear listed small } ∷ [];
}

candidate_blocks_iter-nil_example :
    (candidate_blocks_iter listed cleared_index [] ≡ ok [])
    × (candidate_blocks listed cleared_index [] ≡ ok (count_up 0 1))
candidate_blocks_iter-nil_example =
    candidate_blocks_iter-nil listed cleared_index ((clear_lem listed small small-IsValid).1 [], tt)

-- The formats, with a checksum and decoders that do nothing.
abbrev idle : Decoders
idle = record {
  enabled = λ f. true;
  snap = record { decompress_len = λ xs. some (length xs); decompress_vec = λ xs. some xs };
  libraries = record {
    Hasher = Unit;
    hasher = tt;
    update = λ hasher bytes. tt;
    finalize = λ hasher. 0;
    GzDecoder = Unit;
    gz_decoder = λ bytes. tt;
    read = λ decoder size. none;
  };
  decode_literals = λ compressed size streams. none;
}

-- A gzip member with the bytes 97 and 98 in a stored block.
abbrev gzip_member : List ℕ
gzip_member =
    0x1f ∷ 0x8b ∷ 8 ∷ 0 ∷ 0 ∷ 0 ∷ 0 ∷ 0 ∷ 0 ∷ 3 ∷ 1 ∷ 2 ∷ 0 ∷ 0xfd ∷ 0xff ∷ 97 ∷ 98 ∷ 0 ∷ 0 ∷ 0 ∷ 0
    ∷ 2 ∷ 0 ∷ 0 ∷ 0 ∷ []

gzip_member-Bytes : Bytes gzip_member
gzip_member-Bytes = search arith

abbrev gzip_builder : CompressedIndexBuilder listed
gzip_builder = record { format = gzip; sizing = sizes }

search_bytes_example :
    Ensures
      (λ (index, found). MissesNone listed index (97 ∷ 98 ∷ []) found)
      (do
        index ← build_from_bytes listed (parsers_of idle) gzip_builder gzip_member
        found ← candidate_blocks listed index (97 ∷ 98 ∷ [])
        ok (index, found))
search_bytes_example =
    search_bytes listed idle gzip_builder gzip_member (97 ∷ 98 ∷ []) gzip_member-Bytes (omega arith)
