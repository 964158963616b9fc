-- ===== src/Zstd/Streaming.antt =====
-- src/zstd/streaming.rs, with `BlockType` of src/zstd/frame.rs: frame after frame, and the blocks of
-- each. `&mut pos` is a field of what is returned.
pub mod Format
pub mod RoundTrip
pub mod Reading
pub mod Safe
pub mod Taken
mod Tests
use ziftsieve.Base.{
  ℕ, zero, suc, ◌+◌, ◌-◌, ◌*◌, ◌/◌, ◌%◌, ◌^◌, min, max, List, [], ◌∷◌, ◌++◌, length, replicate,
  Bool, true, false, ltb, leb, ◌==◌, has_bit, if◌then◌else◌, saturating_add, usize_max, Option,
  none, some,
}
use ziftsieve.Base.{
  Outcome, ok, err, ◌>>=◌, ◌>>◌, refuse, index, slice, loop, Next, again, done, invalid_data,
  block_too_large, ratio_exceeded, empty_zstd_input, too_many_frames, truncated_content_checksum,
  too_many_zstd_blocks, truncated_zstd_block_header, invalid_block_type, reserved_zstd_block_type,
  block_exceeds_data,
}
use ziftsieve.Block
use ziftsieve.Block.{CompressedBlock}
use ziftsieve.Zstd.Frame.{FrameHeader, Parsed, parse_frame_header}
use ziftsieve.Zstd.Decoder.{DecodeLiterals, extract_literals_from_block}

abbrev pub max_total_literals : ℕ
max_total_literals = 256 * 1024 * 1024

abbrev pub max_decompression_ratio : ℕ
max_decompression_ratio = 250

abbrev pub max_block_size : ℕ
max_block_size = 128 * 1024

abbrev pub max_frames : ℕ
max_frames = 1000

abbrev pub max_blocks : ℕ
max_blocks = 100_000

pub data BlockType : Type 0 where
  raw rle compressed reserved : BlockType

-- `BlockType::from_u8`
unfoldable pub from_u8 : ℕ → Option BlockType
from_u8 v =
    if v == 0
    then some raw
    else if v == 1
    then some rle
    else if v == 2
    then some compressed
    else if v == 3
    then some reserved
    else none

-- `Option::ok_or`
abbrev pub known_type : ℕ → Option BlockType → Outcome BlockType
known_type pos none = err (invalid_data pos invalid_block_type)
known_type pos (some block_type) = ok block_type

-- An RLE block has one byte in the stream, whatever its size.
abbrev pub stream_data_size : BlockType → ℕ → ℕ
stream_data_size rle block_size = 1
stream_data_size _ block_size = block_size

pub record TakenBlock : Type 0 where
  pub block : CompressedBlock
  pub is_last : Bool
  pub pos : ℕ

-- The block, filled from its data; `pos` is where the data begins. A size of at most
-- `max_block_size` is the same as u32.
unfoldable pub fill_block :
    DecodeLiterals → BlockType → CompressedBlock → ℕ → ℕ → List ℕ → Outcome CompressedBlock
fill_block decode_literals raw block pos block_size block_data =
    ok (record block { literals = block_data; uncompressed_len = some block_size })
fill_block decode_literals rle block pos block_size [] = ok block
fill_block decode_literals rle block pos block_size (byte ∷ _) =
    ok (record block { literals = replicate block_size byte; uncompressed_len = some block_size })
fill_block decode_literals compressed block pos block_size block_data = do
  literals ← extract_literals_from_block decode_literals block_data
  ok (record block { literals = literals; uncompressed_len = some block_size })
fill_block decode_literals reserved block pos block_size block_data =
    err (invalid_data (pos - 3) reserved_zstd_block_type)

pub record Streaming : Type 0 where
  pub pos : ℕ
  pub blocks : List CompressedBlock
  pub total_literals : ℕ
  pub frame_count : ℕ

abbrev pub max_allowed_literals : List ℕ → ℕ
max_allowed_literals bytes =
    max (min (length bytes * max_decompression_ratio) usize_max) (1024 * 1024)

unfoldable pub pass_checksum : List ℕ → FrameHeader → Streaming → Outcome Streaming
pass_checksum bytes header s =
    if header.content_checksum
    then (do
      refuse (ltb (length bytes) (s.pos + 4)) (invalid_data s.pos truncated_content_checksum)
      ok (record s { pos = s.pos + 4 }))
    else ok s

module _ (decode_literals : DecodeLiterals) (bytes : List ℕ) where
  -- `pos` is behind the header.
  unfoldable pub block_body : ℕ → Bool → BlockType → ℕ → Outcome TakenBlock
  block_body pos last_block block_type block_size = do
    refuse (ltb max_block_size block_size) (block_too_large block_size max_block_size)
    let size = stream_data_size block_type block_size
    refuse (ltb (length bytes) (saturating_add pos size))
        (invalid_data pos (block_exceeds_data size (length bytes - pos)))
    block_data ← slice bytes pos (pos + size)
    block ←
        fill_block decode_literals block_type
          (Block.new (min (pos - 3) (2 ^ 64 - 1)) (min (size + 3) (2 ^ 32 - 1))) pos block_size
          block_data
    ok (record { block = block; is_last = last_block; pos = pos + size })

  -- The parts of the size do not overlap, so that `|` adds them.
  unfoldable pub parse_block : ℕ → Outcome TakenBlock
  parse_block pos = do
    refuse (ltb (length bytes) (pos + 3)) (invalid_data pos truncated_zstd_block_header)
    b0 ← index bytes pos
    b1 ← index bytes (pos + 1)
    b2 ← index bytes (pos + 2)
    block_type ← known_type pos (from_u8 (b0 / 2 % 2 ^ 2))
    block_body (pos + 3) (has_bit b0 0) block_type (b0 / 2 ^ 3 + 2 ^ 5 * b1 + 2 ^ 13 * b2)

  -- The loop over the blocks of a frame.
  unfoldable pub block_round : Streaming → Outcome (Next Streaming Streaming)
  block_round s = do
    taken ← parse_block s.pos
    let total = saturating_add s.total_literals (length taken.block.literals)
    refuse (ltb max_total_literals total) (block_too_large total max_total_literals)
    refuse (ltb (max_allowed_literals bytes) total) (invalid_data taken.pos ratio_exceeded)
    let pushed : Streaming = record s {
      pos = taken.pos;
      blocks = s.blocks ++ (taken.block ∷ []);
      total_literals = total;
    }
    if taken.is_last then ok (done pushed) else (do
      refuse (leb max_blocks (length pushed.blocks)) (invalid_data taken.pos too_many_zstd_blocks)
      ok (again pushed))

  -- The rest of a round, behind the header. As many blocks as bytes are enough.
  unfoldable pub frame_body :
      Streaming → Option FrameHeader → Outcome (Next Streaming (List CompressedBlock))
  frame_body s none = ok (done s.blocks)
  frame_body s (some header) = do
    last ← loop (length bytes + 1) block_round s
    end ← pass_checksum bytes header last
    ok (again end)

  unfoldable pub stream_round : Streaming → Outcome (Next Streaming (List CompressedBlock))
  stream_round s =
      if ltb s.pos (length bytes)
      then (do
        let count = s.frame_count + 1
        refuse (ltb max_frames count) (invalid_data s.pos too_many_frames)
        parsed ← parse_frame_header bytes s.pos
        frame_body (record s { pos = parsed.pos; frame_count = count }) parsed.header)
      else ok (done s.blocks)

  -- The frame behind the last one that may be there is refused.
  unfoldable pub extract_literals : Outcome (List CompressedBlock)
  extract_literals = do
    refuse (length bytes == 0) (invalid_data 0 empty_zstd_input)
    loop (max_frames + 2) stream_round
        (record { pos = 0; blocks = []; total_literals = 0; frame_count = 0 })
