-- ===== src/Zstd/Decoder/Format.antt =====
-- The literals section of a compressed Zstd block, written down on its own after RFC 8878: a size
-- format, the bits of the header as one number, and its bytes, least significant first.
use ziftsieve.Base.{
  ℕ, zero, suc, ◌+◌, ◌*◌, ◌/◌, ◌%◌, ◌^◌, ◌<◌, ◌≡◌, List, [], ◌∷◌, ◌++◌, length, replicate, some,
}
use ziftsieve.Zstd.Decoder.{DecodeLiterals}

abbrev pub le_bytes : ℕ → ℕ → List ℕ
le_bytes zero n = []
le_bytes (suc k) n = n % 256 ∷ le_bytes k (n / 256)

-- How the size of raw and of RLE literals is written.
pub data PlainFormat : Type 0 where
  one_byte two_bytes three_bytes : PlainFormat

abbrev pub plain_bytes : PlainFormat → ℕ
plain_bytes one_byte = 1
plain_bytes two_bytes = 2
plain_bytes three_bytes = 3

abbrev pub plain_limit : PlainFormat → ℕ
plain_limit one_byte = 2 ^ 5
plain_limit two_bytes = 2 ^ 12
plain_limit three_bytes = 2 ^ 20

-- The type, the size format and the size.
abbrev pub plain_number : PlainFormat → ℕ → ℕ → ℕ
plain_number one_byte kind size = kind + 8 * size
plain_number two_bytes kind size = kind + 4 * 1 + 16 * size
plain_number three_bytes kind size = kind + 4 * 3 + 16 * size

-- How the two sizes of compressed literals are written; `single` has one stream, the others four.
pub data PackedFormat : Type 0 where
  single ten_bits fourteen_bits eighteen_bits : PackedFormat

abbrev pub packed_bytes : PackedFormat → ℕ
packed_bytes single = 3
packed_bytes ten_bits = 3
packed_bytes fourteen_bits = 4
packed_bytes eighteen_bits = 5

abbrev pub packed_limit : PackedFormat → ℕ
packed_limit single = 2 ^ 10
packed_limit ten_bits = 2 ^ 10
packed_limit fourteen_bits = 2 ^ 14
packed_limit eighteen_bits = 2 ^ 18

abbrev pub packed_number : PackedFormat → ℕ → ℕ → ℕ
packed_number single size packed = 2 + 4 * 0 + 16 * size + 2 ^ 14 * packed
packed_number ten_bits size packed = 2 + 4 * 1 + 16 * size + 2 ^ 14 * packed
packed_number fourteen_bits size packed = 2 + 4 * 2 + 16 * size + 2 ^ 18 * packed
packed_number eighteen_bits size packed = 2 + 4 * 3 + 16 * size + 2 ^ 22 * packed

abbrev pub streams : PackedFormat → ℕ
streams single = 1
streams _ = 4

pub data Section : Type 0 where
  raw_section : PlainFormat → List ℕ → Section
  rle_section : PlainFormat → ℕ → ℕ → Section
  huffman_section : PackedFormat → ℕ → List ℕ → Section

unfoldable pub encode_section : Section → List ℕ
encode_section (raw_section f literals) =
    le_bytes (plain_bytes f) (plain_number f 0 (length literals)) ++ literals
encode_section (rle_section f count byte) =
    le_bytes (plain_bytes f) (plain_number f 1 count) ++ byte ∷ []
encode_section (huffman_section f size payload) =
    le_bytes (packed_bytes f) (packed_number f size (length payload)) ++ payload

-- The section fits its format and stands for these literals.
pub data StandsFor (decode_literals : DecodeLiterals) : Section → List ℕ → Type 0 where
  raw_holds :
      {f : PlainFormat} {literals : List ℕ}
      → length literals < plain_limit f
      → StandsFor decode_literals (raw_section f literals) literals
  rle_holds :
      {f : PlainFormat} {count byte : ℕ}
      → count < plain_limit f
      → StandsFor decode_literals (rle_section f count byte) (replicate count byte)
  huffman_holds :
      {f : PackedFormat} {size : ℕ} {payload literals : List ℕ}
      → size < packed_limit f
      → 0 < length payload
      → length payload < packed_limit f
      → decode_literals payload size (streams f) ≡ some literals
      → StandsFor decode_literals (huffman_section f size payload) literals
