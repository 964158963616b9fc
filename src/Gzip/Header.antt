-- ===== src/Gzip/Header.antt =====
-- `parse_gzip_header` of src/gzip/header.rs and what it calls, with the reader passed along.
pub mod Format
pub mod RoundTrip
pub mod Safe
mod Tests
use ziftsieve.Base.{
  ℕ, ◌+◌, ◌-◌, ◌/◌, ◌%◌, ◌^◌, not, ltb, ◌==◌, has_bit, if◌then◌else◌, Outcome, ok, ◌>>=◌, ◌>>◌,
  refuse, loop, Next, again, done, invalid_data, unaligned_gzip_header, truncated_gzip_header,
  invalid_gzip_magic, unsupported_gzip_method, invalid_gzip_flags, header_field_too_long,
}
use ziftsieve.Gzip.Reader.{BitReader, remaining_bytes, peek_u8, read_u8, read_u16_le, skip_bytes}

abbrev pub max_header_field_len : ℕ
max_header_field_len = 1024

pub record FieldScan : Type 0 where
  pub count : ℕ
  pub reader : BitReader

unfoldable pub field_round : FieldScan → Outcome (Next FieldScan BitReader)
field_round s = do
  refuse (ltb max_header_field_len s.count) (invalid_data s.reader.byte_pos header_field_too_long)
  step ← read_u8 s.reader
  ok (
      if step.value == 0
      then done step.reader
      else again (record { count = s.count + 1; reader = step.reader }))

-- The round that finds too many bytes is the last one.
unfoldable pub skip_zero_terminated : BitReader → Outcome BitReader
skip_zero_terminated r =
    loop (max_header_field_len + 2) field_round (record { count = 0; reader = r })

-- FEXTRA
unfoldable pub skip_extra : BitReader → ℕ → Outcome BitReader
skip_extra r flags =
    if has_bit flags 2 then (do xlen ← read_u16_le r; skip_bytes xlen.reader xlen.value) else ok r

-- FNAME and FCOMMENT
unfoldable pub skip_text : BitReader → ℕ → ℕ → Outcome BitReader
skip_text r flags bit = if has_bit flags bit then skip_zero_terminated r else ok r

-- FHCRC
unfoldable pub skip_crc : BitReader → ℕ → Outcome BitReader
skip_crc r flags = if has_bit flags 1 then skip_bytes r 2 else ok r

unfoldable pub parse_gzip_extra_fields : BitReader → ℕ → Outcome BitReader
parse_gzip_extra_fields r flags = do
  extra ← skip_extra r flags
  name ← skip_text extra flags 3
  comment ← skip_text name flags 4
  skip_crc comment flags

-- A byte that must be there, looked at before it is taken.
unfoldable pub expect_magic : BitReader → ℕ → Outcome BitReader
expect_magic r magic = do
  seen ← peek_u8 r
  refuse (not (seen.value == magic)) (invalid_data seen.reader.byte_pos invalid_gzip_magic)
  step ← read_u8 seen.reader
  ok step.reader

unfoldable pub parse_gzip_header : BitReader → Outcome BitReader
parse_gzip_header r = do
  refuse (not (r.bit_pos == 0)) (invalid_data r.byte_pos unaligned_gzip_header)
  refuse (ltb (remaining_bytes r) 10) (invalid_data r.byte_pos truncated_gzip_header)
  first ← expect_magic r 0x1f
  second ← expect_magic first 0x8b
  method ← read_u8 second
  refuse (not (method.value == 8))
      (invalid_data (method.reader.byte_pos - 1) unsupported_gzip_method)
  flags ← read_u8 method.reader
  refuse (not (flags.value / 2 ^ 5 % 2 ^ 3 == 0))
      (invalid_data (flags.reader.byte_pos - 1) invalid_gzip_flags)
  mtime ← skip_bytes flags.reader 4
  xfl ← read_u8 mtime
  os ← read_u8 xfl.reader
  parse_gzip_extra_fields os.reader flags.value
