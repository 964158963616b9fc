-- ===== src/Gzip/Deflate/Block.antt =====
-- One block of a DEFLATE stream: `parse_stored_block`, `parse_huffman_block`, `parse_match` and
-- `parse_single_block` of src/gzip/deflate.rs.
pub mod Match
pub mod Safe
use ziftsieve.Base.{
  ℕ, ◌+◌, ◌-◌, List, [], ◌∷◌, ◌++◌, length, Bool, true, false, not, ltb, leb, ◌==◌, if◌then◌else◌,
  saturating_add,
}
use ziftsieve.Base.{
  Outcome, ok, err, panic, unreachable_code, ◌>>=◌, ◌>>◌, refuse, index, loop, Next, again, done,
}
use ziftsieve.Base.{fixed, fixed_distance, invalid_data, block_too_large}
use ziftsieve.Base.{stored_length_mismatch, reserved_block_type, too_many_instructions}
use ziftsieve.Base.{reserved_length_code, invalid_length_code, invalid_distance_code}
use ziftsieve.Block.{CompressedBlock}
use ziftsieve.Gzip.Reader.{BitReader, Step, read_bits, align_to_byte, read_u16_le, read_bytes}
use ziftsieve.Gzip.Huffman.{HuffmanDecoder, from_lengths, decode}
use ziftsieve.Gzip.Deflate.Tables.{
  max_block_literals, max_deflate_instructions, fixed_litlen_code_lengths, fixed_dist_code_lengths,
  literal_length_bases, literal_length_extra_bits, distance_bases, distance_extra_bits,
}
use ziftsieve.Gzip.Deflate.Trees.{parse_dynamic_trees}

abbrev pub fits_literal_cap : ℕ → ℕ → Bool
fits_literal_cap current additional = leb (saturating_add current additional) max_block_literals

-- A block with the literals so far.
pub record BlockStep : Type 0 where
  pub block : CompressedBlock
  pub reader : BitReader
  pub had_matches : Bool

abbrev pub push_literals : CompressedBlock → List ℕ → CompressedBlock
push_literals block bytes = record block { literals = block.literals ++ bytes }

unfoldable pub parse_stored_block : BitReader → CompressedBlock → Outcome BlockStep
parse_stored_block r block = do
  aligned ← align_to_byte r
  len ← read_u16_le aligned
  nlen ← read_u16_le len.reader
  refuse (not (len.value == 0xffff - nlen.value))
      (invalid_data nlen.reader.byte_pos stored_length_mismatch)
  refuse (not (fits_literal_cap (length block.literals) len.value))
      (block_too_large (length block.literals + len.value) max_block_literals)
  bytes ← read_bytes nlen.reader len.value
  ok (record {
    block = push_literals block bytes.value;
    reader = bytes.reader;
    had_matches = false;
  })

-- A base, and the extra bits above it, if there are such.
unfoldable pub add_extra_bits : BitReader → ℕ → ℕ → Outcome (Step ℕ)
add_extra_bits r base extra_bits =
    if ltb 0 extra_bits
    then (do
      extra ← read_bits r extra_bits
      ok (record { value = base + extra.value; reader = extra.reader }))
    else ok (record { value = base; reader = r })

-- The first half of `parse_match`: the length of the match.
unfoldable pub match_length : BitReader → ℕ → Outcome (Step ℕ)
match_length r symbol = do
  extra_bits ← index literal_length_extra_bits (symbol - 257)
  base ← index literal_length_bases (symbol - 257)
  add_extra_bits r base extra_bits

-- The second half: its distance.
unfoldable pub match_distance : BitReader → HuffmanDecoder → Outcome (Step ℕ)
match_distance r distance_decoder = do
  dist_symbol ← decode distance_decoder r
  refuse (leb 30 dist_symbol.value) (invalid_data dist_symbol.reader.byte_pos invalid_distance_code)
  base ← index distance_bases dist_symbol.value
  dist_extra ← index distance_extra_bits dist_symbol.value
  add_extra_bits dist_symbol.reader base dist_extra

-- Both are dropped.
unfoldable pub parse_match : BitReader → ℕ → HuffmanDecoder → Outcome BitReader
parse_match r symbol distance_decoder = do
  len ← match_length r symbol
  dist ← match_distance len.reader distance_decoder
  ok dist.reader

pub record HuffmanRun : Type 0 where
  pub block : CompressedBlock
  pub reader : BitReader
  pub had_matches : Bool
  pub instructions : ℕ

-- What the symbol, which the reader stands behind, asks for.
unfoldable pub huffman_symbol :
    HuffmanDecoder → HuffmanRun → ℕ → Outcome (Next HuffmanRun BlockStep)
huffman_symbol distance_decoder s symbol =
    if ltb symbol 256
    then (do
      refuse (not (fits_literal_cap (length s.block.literals) 1))
          (block_too_large (length s.block.literals + 1) max_block_literals)
      ok (again (record s { block = push_literals s.block (symbol ∷ []) })))
    else if symbol == 256
    then ok (done (record { block = s.block; reader = s.reader; had_matches = s.had_matches }))
    else if ltb symbol 286
    then (do
      behind ← parse_match s.reader symbol distance_decoder
      ok (again (record s { reader = behind; had_matches = true })))
    else if ltb symbol 288
    then err (invalid_data s.reader.byte_pos reserved_length_code)
    else err (invalid_data s.reader.byte_pos invalid_length_code)

unfoldable pub huffman_round :
    HuffmanDecoder → HuffmanDecoder → ℕ → HuffmanRun → Outcome (Next HuffmanRun BlockStep)
huffman_round literal_decoder distance_decoder max_instructions s = do
  refuse (ltb max_instructions (s.instructions + 1))
      (invalid_data s.reader.byte_pos (too_many_instructions max_instructions))
  symbol ← decode literal_decoder s.reader
  huffman_symbol distance_decoder
      (record s { reader = symbol.reader; instructions = s.instructions + 1 }) symbol.value

-- The round over the limit of instructions is the last one.
unfoldable pub parse_huffman_block_with_limit :
    BitReader → CompressedBlock → HuffmanDecoder → HuffmanDecoder → ℕ → Outcome BlockStep
parse_huffman_block_with_limit r block literal_decoder distance_decoder max_instructions =
    loop (max_instructions + 2) (huffman_round literal_decoder distance_decoder max_instructions)
      (record { block = block; reader = r; had_matches = false; instructions = 0 })

unfoldable pub parse_huffman_block :
    BitReader → CompressedBlock → HuffmanDecoder → HuffmanDecoder → Outcome BlockStep
parse_huffman_block r block literal_decoder distance_decoder =
    parse_huffman_block_with_limit r block literal_decoder distance_decoder max_deflate_instructions

unfoldable pub parse_single_block : BitReader → ℕ → CompressedBlock → Outcome BlockStep
parse_single_block r block_type block =
    if block_type == 0
    then parse_stored_block r block
    else if block_type == 1
    then (do
      literal_decoder ← from_lengths fixed_litlen_code_lengths fixed
      distance_decoder ← from_lengths fixed_dist_code_lengths fixed_distance
      parse_huffman_block r block literal_decoder distance_decoder)
    else if block_type == 2
    then (do
      trees ← parse_dynamic_trees r
      parse_huffman_block trees.reader block trees.literal_decoder trees.distance_decoder)
    else if block_type == 3
    then err (invalid_data (r.byte_pos - 1) reserved_block_type)
    else panic unreachable_code
