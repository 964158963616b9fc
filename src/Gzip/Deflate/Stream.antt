-- ===== src/Gzip/Deflate/Stream.antt =====
-- `parse_deflate_stream` of src/gzip/deflate.rs: blocks up to the final one.
pub mod Tiled
pub mod Safe
use ziftsieve.Base.{
  ℕ, ◌+◌, ◌-◌, ◌*◌, ◌/◌, ◌^◌, List, [], ◌∷◌, ◌++◌, length, Bool, false, ◌||◌, ltb, leb, ◌==◌,
  if◌then◌else◌, saturating_add,
}
use ziftsieve.Base.{Outcome, ok, ◌>>=◌, ◌>>◌, refuse, loop, Next, again, done}
use ziftsieve.Base.{invalid_data, block_too_large, too_many_deflate_blocks}
use ziftsieve.Block.{CompressedBlock}
use ziftsieve.Block
use ziftsieve.Gzip.Reader.{BitReader, bit_offset, read_bits}
use ziftsieve.Gzip.Deflate.Tables.{max_deflate_blocks_per_member}
use ziftsieve.Gzip.Deflate.Block.{parse_single_block}

-- `MAX_TOTAL_LITERALS` of src/gzip/mod.rs
abbrev pub max_total_literals : ℕ
max_total_literals = 256 * 1024 * 1024

pub record Stream : Type 0 where
  pub reader : BitReader
  pub blocks : List CompressedBlock
  pub total_literals : ℕ
  pub had_matches : Bool

-- One block, from its header bits on. The block takes its length once its literals are known.
unfoldable pub deflate_round : Stream → Outcome (Next Stream Stream)
deflate_round s = do
  refuse (leb max_deflate_blocks_per_member (length s.blocks))
      (invalid_data s.reader.byte_pos too_many_deflate_blocks)
  let block_start = bit_offset s.reader
  final ← read_bits s.reader 1
  block_type ← read_bits final.reader 2
  step ← parse_single_block block_type.reader block_type.value (Block.new (block_start / 8) 0)
  let total = saturating_add s.total_literals (length step.block.literals)
  refuse (ltb max_total_literals total) (block_too_large total max_total_literals)
  let used_bytes = (bit_offset step.reader - block_start + 7) / 8
  refuse (ltb (2 ^ 32 - 1) used_bytes) (block_too_large used_bytes (2 ^ 32 - 1))
  let next : Stream = record {
    reader = step.reader;
    blocks = s.blocks ++ record step.block { compressed_len = used_bytes } ∷ [];
    total_literals = total;
    had_matches = s.had_matches || step.had_matches;
  }
  ok (if final.value == 1 then done next else again next)

-- The round over the limit of blocks is the last one.
unfoldable pub parse_deflate_stream : BitReader → List CompressedBlock → ℕ → Outcome Stream
parse_deflate_stream r blocks total_literals =
    loop (max_deflate_blocks_per_member + 2) deflate_round
      (record { reader = r; blocks = blocks; total_literals = total_literals; had_matches = false })
