-- ===== src/Zstd/Decoder.antt =====
-- src/zstd/decoder.rs: the literals of a compressed Zstd block. The Huffman decoder that it calls,
-- `decode_literals` of src/zstd/huffman.rs, is adapted from the library ruzstd and is a parameter.
pub mod Format
pub mod RoundTrip
pub mod Safe
use ziftsieve.Base.{
  ℕ, ◌+◌, ◌-◌, ◌*◌, ◌/◌, ◌%◌, ◌^◌, List, [], ◌∷◌, length, replicate, ltb, leb, ◌==◌, ◌||◌,
  if◌then◌else◌, Option, none, some,
}
use ziftsieve.Base.{
  Outcome, ok, err, panic, unreachable_code, ◌>>=◌, ◌>>◌, refuse, index, slice, invalid_data,
  raw_literals_exceed_block, truncated_rle_literal, uncompressed_literals_exceed_block,
  compressed_literals_exceed_block, huffman_decoding_failed, treeless_literals, truncated_raw_size,
  truncated_compressed_size,
}

-- From the compressed bytes, the size of the literals and the number of streams, to the literals.
abbrev pub DecodeLiterals : Type 0
DecodeLiterals = List ℕ → ℕ → ℕ → Option (List ℕ)

pub record RawSize : Type 0 where
  pub regenerated_size : ℕ
  pub header_size : ℕ

pub record CompressedSize : Type 0 where
  pub regenerated_size : ℕ
  pub compressed_size : ℕ
  pub header_size : ℕ

-- `u16::from_le_bytes([data[0], data[1]])`
unfoldable pub le16 : List ℕ → Outcome ℕ
le16 bytes = do a ← index bytes 0; b ← index bytes 1; ok (a + 2 ^ 8 * b)

-- `u32::from_le_bytes([data[0], data[1], data[2], 0])`
unfoldable pub le24 : List ℕ → Outcome ℕ
le24 bytes = do low ← le16 bytes; c ← index bytes 2; ok (low + 2 ^ 16 * c)

-- `u32::from_le_bytes([data[0], data[1], data[2], data[3]])`
unfoldable pub le32 : List ℕ → Outcome ℕ
le32 bytes = do low ← le24 bytes; d ← index bytes 3; ok (low + 2 ^ 24 * d)

unfoldable pub read_raw_rle_size : ℕ → List ℕ → Outcome RawSize
read_raw_rle_size header bytes =
    let lhl_code = header / 2 ^ 2 % 2 ^ 2 in
    if lhl_code == 0 || lhl_code == 2
    then ok (record { regenerated_size = header / 2 ^ 3; header_size = 1 })
    else if lhl_code == 1
    then (do
      refuse (ltb (length bytes) 2) (invalid_data 1 truncated_raw_size)
      n ← le16 bytes
      ok (record { regenerated_size = n / 2 ^ 4; header_size = 2 }))
    else if lhl_code == 3
    then (do
      refuse (ltb (length bytes) 3) (invalid_data 1 truncated_raw_size)
      n ← le24 bytes
      ok (record { regenerated_size = n / 2 ^ 4; header_size = 3 }))
    else panic unreachable_code

-- The two parts of the compressed size in a header of five bytes do not overlap, so that `|` adds
-- them.
unfoldable pub read_compressed_size : ℕ → List ℕ → Outcome CompressedSize
read_compressed_size header bytes =
    let lhl_code = header / 2 ^ 2 % 2 ^ 2 in
    if lhl_code == 0 || lhl_code == 1
    then (do
      refuse (ltb (length bytes) 3) (invalid_data 1 truncated_compressed_size)
      n ← le24 bytes
      ok (record {
        regenerated_size = n / 2 ^ 4 % 2 ^ 10;
        compressed_size = n / 2 ^ 14 % 2 ^ 10;
        header_size = 3;
      }))
    else if lhl_code == 2
    then (do
      refuse (ltb (length bytes) 4) (invalid_data 1 truncated_compressed_size)
      n ← le32 bytes
      ok (record {
        regenerated_size = n / 2 ^ 4 % 2 ^ 14;
        compressed_size = n / 2 ^ 18;
        header_size = 4;
      }))
    else if lhl_code == 3
    then (do
      refuse (ltb (length bytes) 5) (invalid_data 1 truncated_compressed_size)
      n ← le32 bytes
      high ← index bytes 4
      ok (record {
        regenerated_size = n / 2 ^ 4 % 2 ^ 18;
        compressed_size = n / 2 ^ 22 + 2 ^ 10 * high;
        header_size = 5;
      }))
    else panic unreachable_code

-- `Option::ok_or_else` on what the Huffman decoder gives.
abbrev pub or_failed : ℕ → Option (List ℕ) → Outcome (List ℕ)
or_failed pos none = err (invalid_data pos huffman_decoding_failed)
or_failed pos (some literals) = ok literals

-- Raw literals: all bytes are literals.
unfoldable pub raw_literals : ℕ → List ℕ → Outcome (List ℕ)
raw_literals ls_header bytes = do
  size ← read_raw_rle_size ls_header bytes
  let pos = 1 + (size.header_size - 1)
  refuse (ltb (length bytes) (pos + size.regenerated_size))
      (invalid_data pos raw_literals_exceed_block)
  slice bytes pos (pos + size.regenerated_size)

-- RLE literals: one byte repeated.
unfoldable pub rle_literals : ℕ → List ℕ → Outcome (List ℕ)
rle_literals ls_header bytes = do
  size ← read_raw_rle_size ls_header bytes
  let pos = 1 + (size.header_size - 1)
  refuse (leb (length bytes) pos) (invalid_data pos truncated_rle_literal)
  byte ← index bytes pos
  ok (replicate size.regenerated_size byte)

-- Compressed literals; a compressed size of 0 stands for literals that are not.
unfoldable pub compressed_literals : DecodeLiterals → ℕ → List ℕ → Outcome (List ℕ)
compressed_literals decode_literals ls_header bytes = do
  size ← read_compressed_size ls_header bytes
  let pos = 1 + (size.header_size - 1)
  if size.compressed_size == 0
      then (do
        refuse (ltb (length bytes) (pos + size.regenerated_size))
            (invalid_data pos uncompressed_literals_exceed_block)
        slice bytes pos (pos + size.regenerated_size))
      else (do
        refuse (ltb (length bytes) (pos + size.compressed_size))
            (invalid_data pos compressed_literals_exceed_block)
        compressed ← slice bytes pos (pos + size.compressed_size)
        let num_streams : ℕ = if ls_header / 2 ^ 2 % 2 ^ 2 == 0 then 1 else 4
        or_failed pos (decode_literals compressed size.regenerated_size num_streams))

-- By the type of the literals section.
unfoldable pub literals_section : DecodeLiterals → ℕ → List ℕ → Outcome (List ℕ)
literals_section decode_literals ls_header bytes =
    let ls_type = ls_header % 2 ^ 2 in
    if ls_type == 0
    then raw_literals ls_header bytes
    else if ls_type == 1
    then rle_literals ls_header bytes
    else if ls_type == 2
    then compressed_literals decode_literals ls_header bytes
    else if ls_type == 3
    then err (invalid_data 1 treeless_literals)
    else panic unreachable_code

unfoldable pub extract_literals_from_block : DecodeLiterals → List ℕ → Outcome (List ℕ)
extract_literals_from_block decode_literals bytes =
    if length bytes == 0
    then ok []
    else (do ls_header ← index bytes 0; literals_section decode_literals ls_header bytes)
