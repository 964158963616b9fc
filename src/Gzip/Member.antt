-- ===== src/Gzip/Member.antt =====
-- `parse_gzip_member` of src/gzip/header.rs. The CRC32 of the crate `crc32fast` and the decoder of
-- the crate `flate2` are a parameter.
pub mod Ends
pub mod Safe
pub mod RoundTrip
use ziftsieve.Base.{
  ℕ, ◌+◌, List, [], ◌∷◌, length, not, ltb, ◌==◌, if◌then◌else◌, saturating_add, Option, none, some,
}
use ziftsieve.Base.{Outcome, ok, err, ◌>>=◌, ◌>>◌, refuse, slice, loop, Next, again, done}
use ziftsieve.Base.{invalid_data, block_too_large, io, crc_mismatch}
use ziftsieve.Block.{CompressedBlock}
use ziftsieve.Gzip.Reader.{BitReader, align_to_byte, read_u32_le}
use ziftsieve.Gzip.Header.{parse_gzip_header}
use ziftsieve.Gzip.Deflate.Stream.{max_total_literals, parse_deflate_stream}

-- A hash that is fed with runs of bytes, and a decoder whose `read` fills a chunk of a given size:
-- it gives the number of bytes, or an I/O error.
pub record Libraries : Type 1 where
  pub Hasher : Type 0
  pub hasher : Hasher
  pub update : Hasher → List ℕ → Hasher
  pub finalize : Hasher → ℕ
  pub GzDecoder : Type 0
  pub gz_decoder : List ℕ → GzDecoder
  pub read : GzDecoder → ℕ → Option (ℕ × GzDecoder)

pub record Member : Type 0 where
  pub reader : BitReader
  pub blocks : List CompressedBlock
  pub total_literals : ℕ

module _ (libraries : Libraries) where
  pub record Decompression : Type 0 where
    pub decoder : libraries.GzDecoder
    pub decompressed : ℕ

  -- What `read` gave back.
  unfoldable pub after_read :
      Decompression → Option (ℕ × libraries.GzDecoder) → Outcome (Next Decompression (Unit {0}))
  after_read s none = err io
  after_read s (some (n, decoder)) = if n == 0 then ok (done tt) else do
    let decompressed = saturating_add s.decompressed n
    refuse (ltb max_total_literals decompressed) (block_too_large decompressed max_total_literals)
    ok (again (record { decoder = decoder; decompressed = decompressed }))

  unfoldable pub decompress_round : Decompression → Outcome (Next Decompression (Unit {0}))
  decompress_round s = after_read s (libraries.read s.decoder 16384)

  -- Every round but the last adds a byte, and the limit stops the loop.
  unfoldable pub check_decompression : List ℕ → Outcome (Unit {0})
  check_decompression member_data =
      loop (max_total_literals + 2) decompress_round
        (record { decoder = libraries.gz_decoder member_data; decompressed = 0 })

  abbrev pub hash_blocks : libraries.Hasher → List CompressedBlock → libraries.Hasher
  hash_blocks hasher [] = hasher
  hash_blocks hasher (block ∷ blocks) = hash_blocks (libraries.update hasher block.literals) blocks

  unfoldable pub parse_gzip_member : BitReader → List CompressedBlock → ℕ → Outcome Member
  parse_gzip_member r blocks total_literals = do
    header ← parse_gzip_header r
    stream ← parse_deflate_stream header blocks total_literals
    aligned ← align_to_byte stream.reader
    expected_crc32 ← read_u32_le aligned
    isize ← read_u32_le expected_crc32.reader
    added ← slice stream.blocks (length blocks) (length stream.blocks)
    let actual_crc32 = libraries.finalize (hash_blocks libraries.hasher added)
    checked ←
        (if stream.had_matches
          then (do
            member_data ← slice isize.reader.bytes r.byte_pos isize.reader.byte_pos
            check_decompression member_data)
          else refuse (not (expected_crc32.value == actual_crc32))
              (invalid_data isize.reader.byte_pos (crc_mismatch expected_crc32.value actual_crc32)))
    ok (record {
      reader = isize.reader;
      blocks = stream.blocks;
      total_literals = stream.total_literals;
    })
