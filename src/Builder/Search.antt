-- ===== src/Builder/Search.antt =====
-- From bytes to candidates, through the parsers of the formats: src/extract/mod.rs, src/builder.rs
-- and src/index.rs together.
use ziftsieve.Base.{ℕ, List, FitsIsize, ok, ◌>>=◌, Ensures}
use ziftsieve.Platform.{Platform}
use ziftsieve.Gzip.Bits.{Bytes}
use ziftsieve.Extract.Formats.{Decoders, parsers_of, parse_format-Ensures}
use ziftsieve.Index.{candidate_blocks}
use ziftsieve.Index.Candidates.{MissesNone}
use ziftsieve.Builder.{CompressedIndexBuilder, build_from_bytes}
use ziftsieve.Builder.Complete.{build_then_search}

-- On any slice of bytes shorter than 2^63, in any format, and with any Huffman decoder of Zstd,
-- building an index with the parsers of the source and asking it for candidates does not panic in a
-- build whose sums of u16 wrap, and every block whose literals contain the pattern is among the
-- candidates.
pub search_bytes :
    (p : Platform) (d : Decoders) (builder : CompressedIndexBuilder p) (bytes pattern : List ℕ)
    → Bytes bytes
    → FitsIsize bytes
    → Ensures
        (λ (index, found). MissesNone p index pattern found)
        (do
          index ← build_from_bytes p (parsers_of d) builder bytes
          found ← candidate_blocks p index pattern
          ok (index, found))
search_bytes p d builder bytes pattern h fits =
    build_then_search p (parsers_of d) builder bytes pattern
      (parse_format-Ensures d builder.format bytes h fits)
