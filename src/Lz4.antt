-- ===== src/Lz4.antt =====
-- src/lz4.rs: literal extraction from LZ4 blocks and frames. A byte slice is a list of numbers, and
-- `&mut pos` is a field of the state that a round returns. The reservations of capacity are left
-- out: they do not change the bytes.
pub mod Length
pub mod Format
pub mod Bounds
pub mod RoundTrip
pub mod Blocks
pub mod Framing
mod Tests
use ziftsieve.Base.{
  ℕ, ◌+◌, ◌-◌, ◌*◌, ◌/◌, ◌%◌, ◌^◌, min, max, List, [], ◌∷◌, ◌++◌, length, Bool, true, false, not,
  ◌&&◌, has_bit, ltb, leb, ◌==◌, if◌then◌else◌, saturating_add, usize_max,
}
use ziftsieve.Base.{Outcome, ok, ◌>>=◌, ◌>>◌, refuse, index, slice, take, loop, Next, again, done}
use ziftsieve.Base.{invalid_data, block_too_large}
use ziftsieve.Base.{too_many_sequences, literal_exceeds_block, truncated_match_offset}
use ziftsieve.Base.{truncated_length, length_overflow, empty_input, too_many_blocks}
use ziftsieve.Base.{truncated_block_header, truncated_block, block_offset_exceeds_u64}
use ziftsieve.Base.{ratio_exceeded, truncated_frame_header, unsupported_version}
use ziftsieve.Base.{truncated_frame_descriptor}
use ziftsieve.Block
use ziftsieve.Block.{CompressedBlock}

abbrev pub max_block_size : ℕ
max_block_size = 4 * 1024 * 1024

abbrev pub max_sequences_per_block : ℕ
max_sequences_per_block = 100_000

abbrev pub max_blocks_per_stream : ℕ
max_blocks_per_stream = 10_000

abbrev pub max_total_literals : ℕ
max_total_literals = 256 * 1024 * 1024

abbrev pub max_decompression_ratio : ℕ
max_decompression_ratio = 250

-- A length, with the position behind its last byte.
pub record Cursor : Type 0 where
  pub pos : ℕ
  pub len : ℕ

-- One round of the loop of `decode_length`.
pub length_round : List ℕ → Cursor → Outcome (Next Cursor Cursor)
length_round bytes s = do
  refuse (leb (length bytes) s.pos) (invalid_data s.pos truncated_length)
  byte ← index bytes s.pos
  let pos = s.pos + 1
  let len = s.len + byte
  refuse (ltb usize_max len) (invalid_data pos length_overflow)
  if ltb byte 255 then ok (done (record { pos = pos; len = len })) else do
    refuse (ltb max_block_size len) (block_too_large len max_block_size)
    ok (again (record { pos = pos; len = len }))

-- Each round takes a byte, so one round more than there are bytes is enough.
pub decode_length : List ℕ → ℕ → ℕ → Outcome Cursor
decode_length bytes pos initial =
    loop (length bytes + 1) (length_round bytes) (record { pos = pos; len = initial })

-- A nibble of 15 is continued by `decode_length`.
pub field_length : List ℕ → ℕ → ℕ → Outcome Cursor
field_length bytes pos nibble =
    if nibble == 15 then decode_length bytes pos nibble else ok (record { pos = pos; len = nibble })

pub record Scan : Type 0 where
  pub pos : ℕ
  pub literals : List ℕ
  pub sequence_count : ℕ

-- `literals.extend_from_slice(&compressed[pos..pos + to_copy])`
pub copy_run : List ℕ → ℕ → ℕ → List ℕ → Outcome (List ℕ)
copy_run bytes pos to_copy literals =
    if ltb 0 to_copy
    then (do run ← slice bytes pos (pos + to_copy); ok (literals ++ run))
    else ok literals

-- The match section: every sequence but the last has one.
pub skip_match : List ℕ → ℕ → ℕ → Outcome ℕ
skip_match bytes match_len pos =
    if ltb pos (length bytes)
    then (do
      refuse (ltb (length bytes) (pos + 2)) (invalid_data pos truncated_match_offset)
      field ← field_length bytes (pos + 2) match_len
      ok field.pos)
    else ok pos

-- The body of the loop of `extract_literals`, behind its test.
pub sequence : List ℕ → ℕ → Scan → Outcome (Next Scan (List ℕ))
sequence bytes max_output s = do
  let count = s.sequence_count + 1
  refuse (leb max_sequences_per_block count) (invalid_data s.pos too_many_sequences)
  token ← index bytes s.pos
  field ← field_length bytes (s.pos + 1) (token / 16)
  refuse (ltb max_block_size field.len) (block_too_large field.len max_block_size)
  refuse (ltb (length bytes) (field.pos + field.len)) (invalid_data field.pos literal_exceeds_block)
  let to_copy = min field.len (max_output - length s.literals)
  literals ← copy_run bytes field.pos to_copy s.literals
  pos ← skip_match bytes (token % 16) (field.pos + field.len)
  ok (again (record { pos = pos; literals = literals; sequence_count = count }))

pub extract_round : List ℕ → ℕ → Scan → Outcome (Next Scan (List ℕ))
extract_round bytes max_output s =
    if ltb s.pos (length bytes) && ltb (length s.literals) max_output
    then sequence bytes max_output s
    else ok (done s.literals)

-- Each round takes the token at least.
pub extract_literals : List ℕ → ℕ → Outcome (List ℕ)
extract_literals bytes max_output =
    loop (length bytes + 1) (extract_round bytes max_output)
      (record { pos = 0; literals = []; sequence_count = 0 })

-- `u32::from_le_bytes`
abbrev pub le_u32 : ℕ → ℕ → ℕ → ℕ → ℕ
le_u32 a b c d = a + 256 * b + 256 ^ 2 * c + 256 ^ 3 * d

-- `data.len() >= 4 && data[..4] == LZ4_FRAME_MAGIC`
pub has_magic : List ℕ → Bool
has_magic (a ∷ b ∷ c ∷ d ∷ rest) = a == 0x04 && b == 0x22 && c == 0x4D && d == 0x18
has_magic _ = false

pub descriptor_end : ℕ → ℕ
descriptor_end flg = 6 + (if has_bit flg 3 then 8 else 0) + (if has_bit flg 0 then 1 else 0)

pub parse_frame_header : List ℕ → Outcome ℕ
parse_frame_header bytes = do
  refuse (length bytes == 0) (invalid_data 0 empty_input)
  if not (has_magic bytes) then ok 0 else do
    refuse (ltb (length bytes) 7) (invalid_data (length bytes) truncated_frame_header)
    flg ← index bytes 4
    refuse (not (flg / 64 % 4 == 1)) (invalid_data 4 unsupported_version)
    let pos = descriptor_end flg
    refuse (leb (length bytes) pos) (invalid_data pos truncated_frame_descriptor)
    ok (pos + 1)

pub record Stream : Type 0 where
  pub blocks : List CompressedBlock
  pub offset : ℕ
  pub total_literals : ℕ

-- `Err` on an offset or a size that its integer type cannot hold.
pub block_at : ℕ → ℕ → Outcome CompressedBlock
block_at offset size = do
  refuse (ltb (2 ^ 64 - 1) offset) (invalid_data offset block_offset_exceeds_u64)
  refuse (ltb (2 ^ 32 - 1) size) (block_too_large size max_block_size)
  ok (Block.new offset size)

pub block_literals : Bool → List ℕ → Outcome (List ℕ)
block_literals is_uncompressed payload =
    if is_uncompressed then ok payload else extract_literals payload max_block_size

-- The rest of the loop's body, once the block header is known.
pub take_block : List ℕ → Stream → ℕ → Outcome (Next Stream (List CompressedBlock))
take_block bytes s block_size = do
  let size = block_size % 2 ^ 31
  if size == 0 then ok (done s.blocks) else do
    refuse (ltb max_block_size size) (block_too_large size max_block_size)
    let start = saturating_add s.offset 4
    let end = saturating_add start size
    refuse (ltb (length bytes) end) (invalid_data s.offset truncated_block)
    payload ← slice bytes start end
    block ← block_at s.offset size
    literals ← block_literals (has_bit block_size 31) payload
    let total = saturating_add s.total_literals (length literals)
    refuse (ltb max_total_literals total) (block_too_large total max_total_literals)
    refuse (ltb (max (min (length bytes * max_decompression_ratio) usize_max) (1024 * 1024)) total)
        (invalid_data s.offset ratio_exceeded)
    ok (
        again (record {
          blocks = s.blocks ++ (record block { literals = literals } ∷ []);
          offset = end;
          total_literals = total;
        }))

-- The header at `offset`, four bytes, least significant first.
pub block_header : List ℕ → ℕ → Outcome ℕ
block_header bytes offset = do
  a ← index bytes offset
  b ← index bytes (offset + 1)
  c ← index bytes (offset + 2)
  d ← index bytes (offset + 3)
  ok (le_u32 a b c d)

pub blocks_round : List ℕ → Bool → Stream → Outcome (Next Stream (List CompressedBlock))
blocks_round bytes is_framed s =
    if ltb s.offset (length bytes)
    then (do
      refuse (leb max_blocks_per_stream (length s.blocks)) (invalid_data s.offset too_many_blocks)
      if ltb (length bytes) (saturating_add s.offset 4)
          then (do
            refuse (not (s.offset == length bytes) && is_framed)
                (invalid_data s.offset truncated_block_header)
            ok (done s.blocks))
          else do block_size ← block_header bytes s.offset; take_block bytes s block_size)
    else ok (done s.blocks)

-- Each round but the last takes a header at least.
pub parse_lz4_blocks : List ℕ → Outcome (List CompressedBlock)
parse_lz4_blocks bytes = do
  refuse (length bytes == 0) (invalid_data 0 empty_input)
  offset ← parse_frame_header bytes
  loop (length bytes + 1) (blocks_round bytes (has_magic bytes))
      (record { blocks = []; offset = offset; total_literals = 0 })
