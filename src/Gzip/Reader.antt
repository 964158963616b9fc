-- ===== src/Gzip/Reader.antt =====
-- `BitReader` of src/gzip/bitstream.rs. Its buffer holds up to 64 bits, which are already pulled
-- from the bytes; `byte_pos` and `bit_pos` say where the next bit stands. A method on `&mut self`
-- returns the new reader beside its value; after an error nobody uses the reader.
pub mod Valid
pub mod Refill
pub mod Read
pub mod Aligned
pub mod StandsAt
pub mod Partial
mod Tests
use ziftsieve.Base.{
  ℕ, ◌+◌, ◌-◌, ◌*◌, ◌/◌, ◌%◌, ◌^◌, min, List, length, Bool, not, ◌&&◌, ltb, leb, ◌==◌,
  if◌then◌else◌, saturating_add, usize_max,
}
use ziftsieve.Base.{Outcome, ok, ◌>>=◌, ◌>>◌, refuse, index, slice, loop, Next, again, done}
use ziftsieve.Base.{invalid_data, too_many_bits, truncated_bitstream, value_exceeds_u8}
use ziftsieve.Base.{unaligned_peek, truncated_byte_peek, unaligned_byte, unaligned_bytes}
use ziftsieve.Base.{truncated_byte_data}

pub record BitReader : Type 0 where
  pub bytes : List ℕ
  pub byte_pos : ℕ
  pub bit_pos : ℕ
  pub buffer : ℕ
  pub bits_in_buffer : ℕ
  pub next_byte_to_pull : ℕ

-- A value, with the reader behind it.
pub record Step (A : Type 0) : Type 0 where
  pub value : A
  pub reader : BitReader

abbrev pub new : List ℕ → ℕ → BitReader
new bytes start = record {
  bytes = bytes;
  byte_pos = start;
  bit_pos = 0;
  buffer = 0;
  bits_in_buffer = 0;
  next_byte_to_pull = start;
}

-- `saturating_mul(8).saturating_add(..)`
abbrev pub bit_offset : BitReader → ℕ
bit_offset r = saturating_add (min (r.byte_pos * 8) usize_max) r.bit_pos

abbrev pub remaining_bytes : BitReader → ℕ
remaining_bytes r = saturating_add (length r.bytes - r.next_byte_to_pull) (r.bits_in_buffer / 8)

-- The byte comes above the bits of the buffer, which are below it, so that `|=` adds.
unfoldable pub refill_round : BitReader → Outcome (Next BitReader BitReader)
refill_round r =
    if leb r.bits_in_buffer 56 && ltb r.next_byte_to_pull (length r.bytes)
    then (do
      byte ← index r.bytes r.next_byte_to_pull
      ok (
          again (record r {
            buffer = r.buffer + byte * 2 ^ r.bits_in_buffer % 2 ^ 64;
            next_byte_to_pull = (r.next_byte_to_pull + 1) % 2 ^ 64;
            bits_in_buffer = (r.bits_in_buffer + 8) % 2 ^ 8;
          })))
    else ok (done r)

-- Eight rounds fill the empty buffer.
unfoldable pub refill : BitReader → Outcome BitReader
refill r = loop 9 refill_round r

-- The reader with at least so many bits in its buffer.
unfoldable pub refill_for : BitReader → ℕ → Outcome BitReader
refill_for r bits =
    if ltb r.bits_in_buffer bits
    then (do
      filled ← refill r
      refuse (ltb filled.bits_in_buffer bits) (invalid_data r.byte_pos truncated_bitstream)
      ok filled)
    else ok r

-- The lowest bits of the buffer, and the reader behind them.
unfoldable pub take_bits : BitReader → ℕ → Step ℕ
take_bits r bits = record {
  value = r.buffer % 2 ^ bits % 2 ^ 32;
  reader = record r {
    buffer = r.buffer / 2 ^ bits;
    bits_in_buffer = r.bits_in_buffer - bits;
    byte_pos = saturating_add r.byte_pos ((r.bit_pos + bits) / 8);
    bit_pos = (r.bit_pos + bits) % 8;
  };
}

unfoldable pub read_bits : BitReader → ℕ → Outcome (Step ℕ)
read_bits r bits = if bits == 0 then ok (record { value = 0; reader = r }) else do
  refuse (ltb 32 bits) (invalid_data r.byte_pos (too_many_bits bits))
  filled ← refill_for r bits
  ok (take_bits filled bits)

-- `u8::try_from`; the reader of the error is the one behind the bits.
unfoldable pub read_bits_u8 : BitReader → ℕ → Outcome (Step ℕ)
read_bits_u8 r bits = do
  step ← read_bits r bits
  refuse (leb 256 step.value) (invalid_data step.reader.byte_pos value_exceeds_u8)
  ok step

unfoldable pub read_bit : BitReader → Outcome (Step ℕ)
read_bit r = read_bits_u8 r 1

-- A `u32` is a `usize`.
unfoldable pub read_bits_usize : BitReader → ℕ → Outcome (Step ℕ)
read_bits_usize r bits = read_bits r bits

unfoldable pub align_to_byte : BitReader → Outcome BitReader
align_to_byte r =
    if not (r.bit_pos == 0) then (do step ← read_bits r (8 - r.bit_pos); ok step.reader) else ok r

-- The buffer may be filled, and nothing else changes.
unfoldable pub peek_u8 : BitReader → Outcome (Step ℕ)
peek_u8 r = do
  refuse (not (r.bit_pos == 0)) (invalid_data r.byte_pos unaligned_peek)
  filled ← (if ltb r.bits_in_buffer 8 then refill r else ok r)
  refuse (ltb filled.bits_in_buffer 8) (invalid_data filled.byte_pos truncated_byte_peek)
  ok (record { value = filled.buffer % 2 ^ 8; reader = filled })

unfoldable pub read_u8 : BitReader → Outcome (Step ℕ)
read_u8 r = do
  refuse (not (r.bit_pos == 0)) (invalid_data r.byte_pos unaligned_byte)
  read_bits_u8 r 8

unfoldable pub read_u16_le : BitReader → Outcome (Step ℕ)
read_u16_le r = do
  lo ← read_u8 r
  hi ← read_u8 lo.reader
  ok (record { value = lo.value + 2 ^ 8 * hi.value; reader = hi.reader })

unfoldable pub read_u32_le : BitReader → Outcome (Step ℕ)
read_u32_le r = do
  lo ← read_u16_le r
  hi ← read_u16_le lo.reader
  ok (record { value = lo.value + 2 ^ 16 * hi.value; reader = hi.reader })

-- The buffer is dropped: the bytes are read where they stand.
unfoldable pub read_bytes : BitReader → ℕ → Outcome (Step (List ℕ))
read_bytes r count = do
  refuse (not (r.bit_pos == 0)) (invalid_data r.byte_pos unaligned_bytes)
  let end = saturating_add r.byte_pos count
  refuse (ltb (length r.bytes) end) (invalid_data r.byte_pos truncated_byte_data)
  run ← slice r.bytes r.byte_pos end
  ok (record {
    value = run;
    reader = record r {
      byte_pos = end;
      bit_pos = 0;
      buffer = 0;
      bits_in_buffer = 0;
      next_byte_to_pull = end;
    };
  })

unfoldable pub skip_bytes : BitReader → ℕ → Outcome BitReader
skip_bytes r count = do step ← read_bytes r count; ok step.reader
