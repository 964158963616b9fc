-- ===== src/Snappy.antt =====
-- src/snappy.rs: literals from a stream of Snappy frames. The decoder of the crate snap is
-- a parameter. The reservations of capacity are left out: they do not change the bytes.
pub mod Format
pub mod Flushed
pub mod RoundTrip
mod Tests
use ziftsieve.Base.{
  ℕ, ◌+◌, ◌-◌, ◌*◌, ◌^◌, min, max, List, [], ◌∷◌, ◌++◌, length, Bool, true, false, not, ◌||◌, ltb,
  leb, ◌==◌, if◌then◌else◌, saturating_add, usize_max, Option, none, some,
}
use ziftsieve.Base.{Outcome, ok, err, ◌>>=◌, ◌>>◌, refuse, index, slice, loop, Next, again, done}
use ziftsieve.Base.{ZiftError, invalid_data, block_too_large}
use ziftsieve.Base.{compressed_chunk_too_short, invalid_compressed_chunk, decompression_failed}
use ziftsieve.Base.{uncompressed_chunk_too_short, too_many_chunks, chunk_exceeds_data}
use ziftsieve.Base.{truncated_chunk_length, reserved_chunk, empty_input, ratio_exceeded}
use ziftsieve.Block.{CompressedBlock}
use ziftsieve.Extract.{starts_with}

abbrev pub max_chunk_size : ℕ
max_chunk_size = 64 * 1024

abbrev pub max_chunks_per_stream : ℕ
max_chunks_per_stream = 100_000

abbrev pub max_total_literals : ℕ
max_total_literals = 256 * 1024 * 1024

abbrev pub max_decompression_ratio : ℕ
max_decompression_ratio = 250

-- `snap::raw::decompress_len` and `snap::raw::Decoder::decompress_vec`, with `none` for an error.
pub record Snap : Type 0 where
  pub decompress_len : List ℕ → Option ℕ
  pub decompress_vec : List ℕ → Option (List ℕ)

-- `map_err(|_| e)?`
unfoldable pub or_err : {A : Type 0} → Option A → ZiftError → Outcome A
or_err none e = err e
or_err (some a) e = ok a

-- The chunk of type 0: its first four bytes are a checksum, which nobody looks at.
unfoldable pub decompress_chunk : Snap → List ℕ → ℕ → Outcome (List ℕ)
decompress_chunk snap chunk_data pos = do
  refuse (ltb (length chunk_data) 4) (invalid_data pos compressed_chunk_too_short)
  compressed ← slice chunk_data 4 (length chunk_data)
  uncompressed_len ←
      or_err (snap.decompress_len compressed) (invalid_data pos invalid_compressed_chunk)
  refuse (ltb max_total_literals uncompressed_len)
      (block_too_large uncompressed_len max_total_literals)
  or_err (snap.decompress_vec compressed) (invalid_data pos decompression_failed)

-- The chunk of type 1.
unfoldable pub raw_chunk : List ℕ → ℕ → Outcome (List ℕ)
raw_chunk chunk_data pos = do
  refuse (leb (length chunk_data) 4) (invalid_data pos uncompressed_chunk_too_short)
  slice chunk_data 4 (length chunk_data)

-- The literals behind the chunk.
unfoldable pub handle_snappy_chunk : Snap → ℕ → List ℕ → List ℕ → ℕ → Outcome (List ℕ)
handle_snappy_chunk snap chunk_type chunk_data current_literals pos =
    if chunk_type == 0x00
    then (do literals ← decompress_chunk snap chunk_data pos; ok (current_literals ++ literals))
    else if chunk_type == 0x01
    then (do literals ← raw_chunk chunk_data pos; ok (current_literals ++ literals))
    else if chunk_type == 0xfe || chunk_type == 0xff
    then ok current_literals
    else err (invalid_data pos (reserved_chunk chunk_type))

-- The length and the number of its bytes: three, least significant first, which do not overlap, so
-- that `|` adds them.
unfoldable pub decode_chunk_len : List ℕ → ℕ → Outcome (ℕ × ℕ)
decode_chunk_len bytes start = do
  refuse (ltb (length bytes) (start + 3)) (invalid_data start truncated_chunk_length)
  a ← index bytes start
  b ← index bytes (start + 1)
  c ← index bytes (start + 2)
  ok (a + 256 * b + 256 ^ 2 * c, 3)

pub record Stream : Type 0 where
  pub blocks : List CompressedBlock
  pub current_literals : List ℕ
  pub pos : ℕ
  pub block_start : ℕ
  pub chunk_count : ℕ
  pub total_literals : ℕ

-- The literals so far become a block from `block_start` to `s.pos`, and the next one begins there.
unfoldable pub flush_block : Stream → Outcome Stream
flush_block s = do
  let new_total = s.total_literals + length s.current_literals
  refuse (ltb max_total_literals new_total) (block_too_large new_total max_total_literals)
  let block : CompressedBlock = record {
    compressed_offset = min s.block_start (2 ^ 64 - 1);
    compressed_len = min (s.pos - s.block_start) (2 ^ 32 - 1);
    uncompressed_len = some (min (length s.current_literals) (2 ^ 32 - 1));
    literals = s.current_literals;
  }
  ok (record s {
    blocks = s.blocks ++ (block ∷ []);
    current_literals = [];
    block_start = s.pos;
    total_literals = new_total;
  })

-- `Flush block if getting large`
unfoldable pub flush_large : Stream → Outcome Stream
flush_large s = if ltb (32 * 1024) (length s.current_literals) then flush_block s else ok s

-- `chunk_len` bytes from `pos` on, and the rest of the round.
unfoldable pub take_chunk : Snap → List ℕ → Stream → ℕ → ℕ → Outcome (Next Stream Stream)
take_chunk snap bytes s chunk_type chunk_len = do
  refuse (ltb max_chunk_size chunk_len) (block_too_large chunk_len max_chunk_size)
  refuse (ltb (length bytes) (s.pos + chunk_len)) (invalid_data s.pos chunk_exceeds_data)
  chunk_data ← slice bytes s.pos (s.pos + chunk_len)
  literals ← handle_snappy_chunk snap chunk_type chunk_data s.current_literals s.pos
  flushed ← flush_large (record s { current_literals = literals })
  ok (again (record flushed { pos = flushed.pos + chunk_len }))

-- The round, as far as the chunk's header.
unfoldable pub chunk_round : Snap → List ℕ → Stream → Outcome (Next Stream Stream)
chunk_round snap bytes s =
    if ltb s.pos (length bytes)
    then (do
      let count = s.chunk_count + 1
      refuse (leb max_chunks_per_stream count) (invalid_data s.pos too_many_chunks)
      let literals = saturating_add s.total_literals (length s.current_literals)
      refuse (ltb max_total_literals literals)
          (block_too_large (s.total_literals + length s.current_literals) max_total_literals)
      let allowed = max (min (length bytes * max_decompression_ratio) usize_max) (1024 * 1024)
      refuse (ltb allowed literals) (invalid_data s.pos ratio_exceeded)
      chunk_type ← index bytes s.pos
      len ← decode_chunk_len bytes (s.pos + 1)
      take_chunk snap bytes (record s { pos = s.pos + 1 + len.1; chunk_count = count }) chunk_type
          len.0)
    else ok (done s)

abbrev pub stream_identifier : List ℕ
stream_identifier = 0xff ∷ 0x06 ∷ 0x00 ∷ 0x00 ∷ 0x73 ∷ 0x4e ∷ 0x61 ∷ 0x50 ∷ 0x70 ∷ 0x59 ∷ []

-- `Don't forget final block`
unfoldable pub flush_last : Stream → Outcome (List CompressedBlock)
flush_last s =
    if not (length s.current_literals == 0)
    then (do flushed ← flush_block s; ok flushed.blocks)
    else ok s.blocks

abbrev pub stream_at : ℕ → Stream
stream_at start = record {
  blocks = [];
  current_literals = [];
  pos = start;
  block_start = start;
  chunk_count = 0;
  total_literals = 0;
}

-- Each round takes a chunk's header at least.
unfoldable pub extract_literals : Snap → List ℕ → Outcome (List CompressedBlock)
extract_literals snap bytes = do
  refuse (length bytes == 0) (invalid_data 0 empty_input)
  let start = if starts_with bytes stream_identifier then 10 else 0
  last ← loop (length bytes + 1) (chunk_round snap bytes) (stream_at start)
  flush_last last
