-- ===== src/Gzip/Huffman.antt =====
-- `HuffmanDecoder` of src/gzip/bitstream.rs: a binary tree in a vector of nodes, built from the
-- lengths of the codes. A child or a symbol of -1 is `none`. Sums on `u16` wrap, as in a release
-- build.
pub mod Tree
pub mod Paths
pub mod Mark
pub mod Insert
pub mod Canonical
pub mod Counts
pub mod Sound
pub mod Decode
pub mod Total
pub mod Find
mod Tests
use ziftsieve.Base.{
  ℕ, zero, suc, ◌+◌, ◌-◌, ◌*◌, ◌/◌, ◌%◌, ◌^◌, max, List, [], ◌∷◌, ◌++◌, length, replicate, set,
  Bool, true, false, ltb, leb, ◌==◌, if◌then◌else◌, Option, none, some,
}
use ziftsieve.Base.{Outcome, ok, err, ◌>>=◌, ◌>>◌, refuse, index}
use ziftsieve.Base.{CodeKind, invalid_data, code_length_too_long, invalid_code_length}
use ziftsieve.Base.{max_bits_exceed_u8, code_length_exceeds_u8, symbol_exceeds_u16}
use ziftsieve.Base.{huffman_tree_too_large, duplicate_huffman_code, huffman_symbol_out_of_range}
use ziftsieve.Base.{empty_huffman_decoder, invalid_huffman_code, huffman_code_too_long}
use ziftsieve.Gzip.Reader.{BitReader, Step, read_bit}

abbrev pub deflate_max_bits : ℕ
deflate_max_bits = 15

pub record HuffmanNode : Type 0 where
  pub child0 : Option ℕ
  pub child1 : Option ℕ
  pub symbol : Option ℕ

pub record HuffmanDecoder : Type 0 where
  pub nodes : List HuffmanNode
  pub max_bits : ℕ

abbrev pub leaf : HuffmanNode
leaf = record { child0 = none; child1 = none; symbol = none }

-- `node.children[bit]`, for a bit.
abbrev pub child : HuffmanNode → ℕ → Option ℕ
child n bit = if bit == 0 then n.child0 else n.child1

abbrev pub set_child : HuffmanNode → ℕ → ℕ → HuffmanNode
set_child n bit next =
    if bit == 0 then record n { child0 = some next } else record n { child1 = some next }

abbrev pub new : HuffmanDecoder
new = record { nodes = leaf ∷ []; max_bits = 0 }

-- The greatest length.
abbrev pub max_length : List ℕ → ℕ
max_length [] = 0
max_length (len ∷ lengths) = max len (max_length lengths)

-- One length in the loop that counts them.
unfoldable pub count_length : CodeKind → List ℕ → ℕ → Outcome (List ℕ)
count_length kind count len =
    if ltb 0 len
    then (do
      refuse (leb (length count) len) (invalid_data 0 (invalid_code_length kind))
      n ← index count len
      ok (set count len ((n + 1) % 2 ^ 16)))
    else ok count

unfoldable pub count_lengths : CodeKind → List ℕ → List ℕ → Outcome (List ℕ)
count_lengths kind count [] = ok count
count_lengths kind count (len ∷ lengths) = do
  counted ← count_length kind count len
  count_lengths kind counted lengths

-- `next_code[bits..]`, in so many rounds.
unfoldable pub next_codes_from : ℕ → ℕ → ℕ → List ℕ → Outcome (List ℕ)
next_codes_from zero bits code count = ok []
next_codes_from (suc rounds) bits code count = do
  n ← index count (bits - 1)
  let next = (code + n) % 2 ^ 16 * 2 % 2 ^ 16
  rest ← next_codes_from rounds (bits + 1) next count
  ok (next ∷ rest)

unfoldable pub calculate_next_codes : ℕ → List ℕ → Outcome (List ℕ)
calculate_next_codes max count = do rest ← next_codes_from max 1 0 count; ok (0 ∷ rest)

unfoldable pub reverse_from : ℕ → ℕ → ℕ → ℕ
reverse_from zero value out = out
reverse_from (suc rounds) value out = reverse_from rounds (value / 2) (out * 2 % 2 ^ 16 + value % 2)

unfoldable pub reverse_bits : ℕ → ℕ → ℕ
reverse_bits value len = reverse_from len value 0

-- The nodes, and the one that is reached.
pub record Cursor : Type 0 where
  pub nodes : List HuffmanNode
  pub node : ℕ

-- One step down, to a new node where there is none.
unfoldable pub descend : Cursor → ℕ → Outcome Cursor
descend c bit = do
  n ← index c.nodes c.node
  elim (child n bit) [
    | none ↦ do
      let next_idx = length c.nodes
      refuse (ltb 32767 next_idx) (invalid_data 0 huffman_tree_too_large)
      ok (record {
        nodes = set (c.nodes ++ leaf ∷ []) c.node (set_child n bit next_idx);
        node = next_idx;
      })
    | some next ↦ ok (record { nodes = c.nodes; node = next })
  ]

-- The bits of the code from bit `i` on.
unfoldable pub descend_bits : ℕ → ℕ → ℕ → Cursor → Outcome Cursor
descend_bits zero i code c = ok c
descend_bits (suc rounds) i code c = do
  next ← descend c (code / 2 ^ i % 2)
  descend_bits rounds (i + 1) code next

abbrev pub is_some : {A : Type 0} → Option A → Bool
is_some none = false
is_some (some a) = true

unfoldable pub insert : List HuffmanNode → ℕ → ℕ → ℕ → Outcome (List HuffmanNode)
insert nodes code bits symbol = do
  end ← descend_bits bits 0 code (record { nodes = nodes; node = 0 })
  n ← index end.nodes end.node
  refuse (is_some n.symbol) (invalid_data 0 duplicate_huffman_code)
  refuse (ltb 32767 symbol) (invalid_data 0 huffman_symbol_out_of_range)
  ok (set end.nodes end.node (record n { symbol = some symbol }))

pub record Populate : Type 0 where
  pub nodes : List HuffmanNode
  pub next_code : List ℕ
  pub symbol : ℕ

-- The loop's body on the next symbol, whose code has the length `len`.
unfoldable pub populate_symbol : ℕ → Populate → ℕ → Outcome Populate
populate_symbol max s len =
    if len == 0
    then ok (record s { symbol = s.symbol + 1 })
    else if ltb max len
    then ok (record s { symbol = s.symbol + 1 })
    else (do
      code ← index s.next_code len
      refuse (ltb 255 len) (invalid_data 0 code_length_exceeds_u8)
      refuse (ltb (2 ^ 16 - 1) s.symbol) (invalid_data 0 symbol_exceeds_u16)
      nodes ← insert s.nodes (reverse_bits code len) len s.symbol
      ok (record {
        nodes = nodes;
        next_code = set s.next_code len ((code + 1) % 2 ^ 16);
        symbol = s.symbol + 1;
      }))

unfoldable pub populate_from : ℕ → Populate → List ℕ → Outcome (List HuffmanNode)
populate_from max s [] = ok s.nodes
populate_from max s (len ∷ lengths) = do
  next ← populate_symbol max s len
  populate_from max next lengths

unfoldable pub populate_nodes : HuffmanDecoder → List ℕ → List ℕ → ℕ → Outcome (List HuffmanNode)
populate_nodes d lengths next_code max =
    populate_from max (record { nodes = d.nodes; next_code = next_code; symbol = 0 }) lengths

unfoldable pub from_lengths : List ℕ → CodeKind → Outcome HuffmanDecoder
from_lengths lengths kind = do
  let max = max_length lengths
  refuse (ltb deflate_max_bits max) (invalid_data 0 (code_length_too_long kind max))
  if max == 0 then ok new else do
    count ← count_lengths kind (replicate (max + 1) 0) lengths
    next_code ← calculate_next_codes max count
    nodes ← populate_nodes new lengths next_code max
    refuse (ltb 255 max) (invalid_data 0 max_bits_exceed_u8)
    ok (record { nodes = nodes; max_bits = max })

-- A symbol within so many bits below `node`.
unfoldable pub decode_below : List HuffmanNode → ℕ → ℕ → BitReader → Outcome (Step ℕ)
decode_below nodes zero node r = err (invalid_data r.byte_pos huffman_code_too_long)
decode_below nodes (suc rounds) node r = do
  bit ← read_bit r
  n ← index nodes node
  elim (child n bit.value) [
    | none ↦ err (invalid_data bit.reader.byte_pos invalid_huffman_code)
    | some next ↦ do
      m ← index nodes next
      elim m.symbol [
        | none ↦ decode_below nodes rounds next bit.reader
        | some symbol ↦ ok (record { value = symbol; reader = bit.reader })
      ]
  ]

unfoldable pub decode : HuffmanDecoder → BitReader → Outcome (Step ℕ)
decode d r = do
  refuse (d.max_bits == 0) (invalid_data r.byte_pos empty_huffman_decoder)
  decode_below d.nodes d.max_bits 0 r
