-- ===== src/Gzip/Deflate/Tests.antt =====
-- The blocks of src/gzip/deflate.rs at concrete inputs.
use ziftsieve.Base.{
  ℕ, ◌≡◌, refl, arith, List, [], ◌∷◌, none, some, ok, fixed, Ensures, Ensures-ok, ◌>>=◌, ◌>>◌,
  refuse, index,
}
use ziftsieve.Gzip.Bits.{Bytes}
use ziftsieve.Gzip.Reader.{new}
use ziftsieve.Gzip.Reader.Valid.{new-Valid}
use ziftsieve.Gzip.Huffman.{
  HuffmanDecoder, count_length, count_lengths, next_codes_from, calculate_next_codes, reverse_from,
  reverse_bits, descend, descend_bits, insert, populate_symbol, populate_from, populate_nodes,
  from_lengths,
}
use ziftsieve.Gzip.Huffman.Sound.{Builds, from_lengths-Builds}
use ziftsieve.Gzip.Deflate.Trees.{parse_dynamic_trees}
use ziftsieve.Gzip.Deflate.Trees.Safe.{TwoTrees, parse_dynamic_trees-TwoTrees}
use ziftsieve.Gzip.Deflate.Block.{match_length, match_distance}
use ziftsieve.Gzip.Deflate.Block.Match.{Ranged, match-Ranged}
use ziftsieve.Gzip.Deflate.Stream.{parse_deflate_stream}
use ziftsieve.Gzip.Deflate.Stream.Safe.{Streamed, parse_deflate_stream-Streamed}

-- The trees of a dynamic block, and what follows them.
abbrev dynamic : List ℕ
dynamic =
    32 ∷ 56 ∷ 32 ∷ 0 ∷ 24 ∷ 8 ∷ 98 ∷ 24 ∷ 164 ∷ 117 ∷ 127 ∷ 13 ∷ 254 ∷ 37 ∷ 12 ∷ 190 ∷ 239 ∷ 189
    ∷ 247 ∷ 238 ∷ 238 ∷ []

dynamic-Bytes : Bytes dynamic
dynamic-Bytes = search arith

parse_dynamic_trees-TwoTrees_example :
    Ensures
      (TwoTrees dynamic dynamic-Bytes (omega arith) (new dynamic 0))
      (parse_dynamic_trees (new dynamic 0))
parse_dynamic_trees-TwoTrees_example =
    parse_dynamic_trees-TwoTrees dynamic dynamic-Bytes (omega arith) (new dynamic 0)
      (new-Valid dynamic 0 dynamic-Bytes (omega arith))

-- Two codes of one bit.
abbrev two_lengths : List ℕ
two_lengths = 1 ∷ 1 ∷ []

abbrev two_codes : HuffmanDecoder
two_codes = record {
  nodes =
      record { child0 = some 1; child1 = some 2; symbol = none }
      ∷ record { child0 = none; child1 = none; symbol = some 0 }
      ∷ record { child0 = none; child1 = none; symbol = some 1 }
      ∷ [];
  max_bits = 1;
}

two_codes_lem : from_lengths two_lengths fixed ≡ ok two_codes
unfolding from_lengths count_lengths count_length calculate_next_codes next_codes_from
    populate_nodes populate_from populate_symbol reverse_bits reverse_from insert descend_bits
    descend ◌>>=◌ ◌>>◌ refuse index
two_codes_lem = refl

two_codes-Builds : Builds two_lengths two_codes
two_codes-Builds = Ensures-ok (from_lengths-Builds two_lengths fixed) two_codes_lem

match-Ranged_example :
    Ensures (Ranged dynamic (new dynamic 0) 3 258) (match_length (new dynamic 0) 270)
    × Ensures (Ranged dynamic (new dynamic 0) 1 32768) (match_distance (new dynamic 0) two_codes)
match-Ranged_example =
    match-Ranged dynamic dynamic-Bytes (omega arith) two_lengths two_codes (new dynamic 0) 270
      two_codes-Builds (new-Valid dynamic 0 dynamic-Bytes (omega arith)) (omega arith) (omega arith)

-- The literal `a` in a fixed block.
abbrev letter : List ℕ
letter = 0x4b ∷ 0x04 ∷ 0x00 ∷ []

letter-Bytes : Bytes letter
letter-Bytes = search arith

parse_deflate_stream-Streamed_example :
    Ensures
      (Streamed letter letter-Bytes (omega arith) (new letter 0) [])
      (parse_deflate_stream (new letter 0) [] 0)
parse_deflate_stream-Streamed_example =
    parse_deflate_stream-Streamed letter letter-Bytes (omega arith) (new letter 0) [] 0
      (new-Valid letter 0 letter-Bytes (omega arith))
      (record { placed = tt; summed = refl; few = omega arith })
