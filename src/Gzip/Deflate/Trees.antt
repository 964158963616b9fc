-- ===== src/Gzip/Deflate/Trees.antt =====
-- The two trees of a dynamic block: `parse_dynamic_trees` of src/gzip/deflate.rs and what it calls.
pub mod Safe
use ziftsieve.Base.{
  ℕ, zero, suc, ◌+◌, List, [], ◌∷◌, length, replicate, set, take, ltb, leb, ◌==◌, ◌||◌,
  if◌then◌else◌,
}
use ziftsieve.Base.{
  Outcome, ok, panic, unreachable_code, ◌>>=◌, ◌>>◌, refuse, index, slice, loop, Next, again, done,
}
use ziftsieve.Base.{code_length, literal_length, distance, invalid_data}
use ziftsieve.Base.{
  invalid_dynamic_header, too_many_code_lengths, repeat_before_length, length_overflow_in_tree,
}
use ziftsieve.Gzip.Reader.{BitReader, read_bits_u8, read_bits_usize}
use ziftsieve.Gzip.Huffman.{HuffmanDecoder, from_lengths, decode}
use ziftsieve.Gzip.Deflate.Tables.{hclen_order, max_deflate_instructions}

-- The lengths, the next one to set, and the one set last by a symbol of its own.
pub record CodeLengths : Type 0 where
  pub reader : BitReader
  pub lengths : List ℕ
  pub i : ℕ
  pub prev : ℕ
  pub instructions : ℕ

-- The lengths, and the next one to set.
pub record Filled : Type 0 where
  pub lengths : List ℕ
  pub i : ℕ

unfoldable pub fill_lengths : List ℕ → ℕ → ℕ → ℕ → ℕ → Outcome Filled
fill_lengths lengths i value zero offset = ok (record { lengths = lengths; i = i })
fill_lengths lengths i value (suc repeat) offset = do
  refuse (leb (length lengths) i) (invalid_data offset length_overflow_in_tree)
  fill_lengths (set lengths i value) (i + 1) value repeat offset

-- A run of `repeat` times `value`, where `r` stands behind the symbol.
unfoldable pub repeat_length : CodeLengths → BitReader → ℕ → ℕ → Outcome CodeLengths
repeat_length s r value repeat = do
  filled ← fill_lengths s.lengths s.i value repeat r.byte_pos
  ok (record s { reader = r; lengths = filled.lengths; i = filled.i })

unfoldable pub handle_code_length_symbol : CodeLengths → ℕ → Outcome CodeLengths
handle_code_length_symbol s symbol =
    if ltb symbol 16
    then (do
      old ← index s.lengths s.i
      ok (record s { lengths = set s.lengths s.i symbol; prev = symbol; i = s.i + 1 }))
    else if symbol == 16
    then (do
      refuse (s.i == 0) (invalid_data s.reader.byte_pos repeat_before_length)
      extra ← read_bits_usize s.reader 2
      repeat_length s extra.reader s.prev (3 + extra.value))
    else if symbol == 17
    then (do extra ← read_bits_usize s.reader 3; repeat_length s extra.reader 0 (3 + extra.value))
    else if symbol == 18
    then (do extra ← read_bits_usize s.reader 7; repeat_length s extra.reader 0 (11 + extra.value))
    else panic unreachable_code

unfoldable pub code_lengths_round :
    HuffmanDecoder → CodeLengths → Outcome (Next CodeLengths CodeLengths)
code_lengths_round decoder s =
    if ltb s.i (length s.lengths)
    then (do
      refuse (ltb max_deflate_instructions (s.instructions + 1))
          (invalid_data s.reader.byte_pos too_many_code_lengths)
      symbol ← decode decoder s.reader
      next ←
          handle_code_length_symbol
            (record s { reader = symbol.reader; instructions = s.instructions + 1 }) symbol.value
      ok (again next))
    else ok (done s)

-- The round over the limit of instructions is the last one.
unfoldable pub decode_code_lengths : BitReader → HuffmanDecoder → List ℕ → Outcome CodeLengths
decode_code_lengths r decoder lengths =
    loop (max_deflate_instructions + 2) (code_lengths_round decoder)
      (record { reader = r; lengths = lengths; i = 0; prev = 0; instructions = 0 })

-- The lengths of the code of the lengths, with the reader behind them.
pub record CodeLengthHeader : Type 0 where
  pub reader : BitReader
  pub lengths : List ℕ

-- The loop over the symbols that the header gives a length to.
unfoldable pub read_lengths : BitReader → List ℕ → List ℕ → Outcome CodeLengthHeader
read_lengths r lengths [] = ok (record { reader = r; lengths = lengths })
read_lengths r lengths (symbol ∷ symbols) = do
  len ← read_bits_u8 r 3
  old ← index lengths symbol
  read_lengths len.reader (set lengths symbol len.value) symbols

pub record Trees : Type 0 where
  pub reader : BitReader
  pub literal_decoder : HuffmanDecoder
  pub distance_decoder : HuffmanDecoder

unfoldable pub parse_dynamic_trees : BitReader → Outcome Trees
parse_dynamic_trees r = do
  lit ← read_bits_usize r 5
  let hlit = lit.value + 257
  dist ← read_bits_usize lit.reader 5
  let hdist = dist.value + 1
  len ← read_bits_usize dist.reader 4
  let hclen = len.value + 4
  refuse (ltb 286 hlit || ltb 30 hdist) (invalid_data len.reader.byte_pos invalid_dynamic_header)
  header ← read_lengths len.reader (replicate 19 0) (take hclen hclen_order)
  code_length_decoder ← from_lengths header.lengths code_length
  decoded ← decode_code_lengths header.reader code_length_decoder (replicate (hlit + hdist) 0)
  literal_lengths ← slice decoded.lengths 0 hlit
  distance_lengths ← slice decoded.lengths hlit (length decoded.lengths)
  literal_decoder ← from_lengths literal_lengths literal_length
  distance_decoder ← from_lengths distance_lengths distance
  ok (record {
    reader = decoded.reader;
    literal_decoder = literal_decoder;
    distance_decoder = distance_decoder;
  })
