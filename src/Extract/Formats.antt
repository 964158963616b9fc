-- ===== src/Extract/Formats.antt =====
-- The `match` of `extract_from_bytes` of src/extract/mod.rs on the format. The decoder of the crate
-- snap, the checksum and the decoder of gzip members, the Huffman decoder of Zstd and the features
-- that are compiled in are a parameter.
use ziftsieve.Base.{
  ℕ, List, Bool, FitsIsize, CompressionFormat, lz4, snappy, gzip, zstd, Outcome, Ensures,
  Ensures-map,
}
use ziftsieve.Block.{CompressedBlock}
use ziftsieve.Gzip.Bits.{Bytes}
use ziftsieve.Lz4.{parse_lz4_blocks}
use ziftsieve.Lz4.Blocks.{parse_lz4_blocks-Ensures}
use ziftsieve.Snappy
use ziftsieve.Snappy.{Snap}
use ziftsieve.Snappy.Flushed.{extract_literals-WellFlushed}
use ziftsieve.Gzip.Extract
use ziftsieve.Gzip.Member.{Libraries}
use ziftsieve.Gzip.Extract.Safe.{extract_literals-Extracted}
use ziftsieve.Zstd.Decoder.{DecodeLiterals}
use ziftsieve.Zstd.Streaming
use ziftsieve.Zstd.Streaming.Safe.{extract_literals-Apart}
use ziftsieve.Extract.{Parsers}

pub record Decoders : Type 1 where
  pub enabled : CompressionFormat → Bool
  pub snap : Snap
  pub libraries : Libraries
  pub decode_literals : DecodeLiterals

unfoldable pub parse_format : Decoders → CompressionFormat → List ℕ → Outcome (List CompressedBlock)
parse_format d lz4 bytes = parse_lz4_blocks bytes
parse_format d snappy bytes = Snappy.extract_literals d.snap bytes
parse_format d gzip bytes = Extract.extract_literals d.libraries bytes
parse_format d zstd bytes = Streaming.extract_literals d.decode_literals bytes

abbrev pub parsers_of : Decoders → Parsers
parsers_of d = record { enabled = d.enabled; parse = parse_format d }

pub parse_format-Ensures :
    (d : Decoders) (format : CompressionFormat) (bytes : List ℕ)
    → Bytes bytes
    → FitsIsize bytes
    → Ensures (λ blocks. Unit {0}) (parse_format d format bytes)
unfolding parse_format
parse_format-Ensures d lz4 bytes h fits =
    Ensures-map (λ bs k. tt) (parse_lz4_blocks-Ensures bytes fits)
parse_format-Ensures d snappy bytes h fits =
    Ensures-map (λ bs k. tt) (extract_literals-WellFlushed d.snap bytes fits)
parse_format-Ensures d gzip bytes h fits =
    Ensures-map (λ bs k. tt) (extract_literals-Extracted d.libraries bytes h fits)
parse_format-Ensures d zstd bytes h fits =
    Ensures-map (λ bs k. tt) (extract_literals-Apart d.decode_literals bytes fits)
