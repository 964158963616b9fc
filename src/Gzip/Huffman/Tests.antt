-- ===== src/Gzip/Huffman/Tests.antt =====
-- The Huffman decoder of src/gzip/bitstream.rs at concrete inputs.
use ziftsieve.Base.{
  ◌≤◌, All, true, Returns, zero, suc, ℕ, ◌≡◌, refl, arith, List, [], ◌∷◌, none, some, ok, fixed,
  Ensures, Ensures-ok, ◌>>=◌, ◌>>◌, refuse, index,
}
use ziftsieve.Gzip.Bits.{Bytes, value}
use ziftsieve.Gzip.Reader.{new}
use ziftsieve.Gzip.Reader.Valid.{Valid, position, new-Valid}
use ziftsieve.Gzip.Huffman.{
  HuffmanDecoder, leaf, count_length, count_lengths, next_codes_from, calculate_next_codes,
  reverse_from, reverse_bits, descend, descend_bits, insert, populate_symbol, populate_from,
  populate_nodes, from_lengths, decode,
}
use ziftsieve.Gzip.Huffman.Insert.{Tree, Inserted, insert-Inserted, code_path}
use ziftsieve.Gzip.Huffman.Sound.{root-Tree, Builds, from_lengths-Builds}
use ziftsieve.Gzip.Huffman.Canonical.{first_code}
use ziftsieve.Gzip.Huffman.Total.{fits_below, fits_below-Fit, from_lengths-Fit}
use ziftsieve.Gzip.Deflate.Tables.{fixed_litlen_code_lengths}
use ziftsieve.Gzip.Huffman.Find.{decode-Finds}
use ziftsieve.Gzip.Huffman.Paths.{symbol_below}
use ziftsieve.Gzip.Huffman.Decode.{FirstAt, Decodes, decode-Decodes}

-- The codes 0, 10 and 11.
abbrev three_lengths : List ℕ
three_lengths = 1 ∷ 2 ∷ 2 ∷ []

abbrev three_codes : HuffmanDecoder
three_codes = record {
  nodes =
      record { child0 = some 1; child1 = some 2; symbol = none }
      ∷ record { child0 = none; child1 = none; symbol = some 0 }
      ∷ record { child0 = some 3; child1 = some 4; symbol = none }
      ∷ record { child0 = none; child1 = none; symbol = some 1 }
      ∷ record { child0 = none; child1 = none; symbol = some 2 }
      ∷ [];
  max_bits = 2;
}

from_lengths_example : from_lengths three_lengths fixed ≡ ok three_codes
unfolding from_lengths count_lengths count_length calculate_next_codes next_codes_from
    populate_nodes populate_from populate_symbol reverse_bits reverse_from insert descend_bits
    descend ◌>>=◌ ◌>>◌ refuse index
from_lengths_example = refl

three_codes-Tree : Tree three_codes.nodes
three_codes-Tree = (Ensures-ok (from_lengths-Builds three_lengths fixed) from_lengths_example).tree

insert-Inserted_example :
    Ensures (Inserted (leaf ∷ []) (code_path 1 0 2) 2 7) (insert (leaf ∷ []) 1 2 7)
insert-Inserted_example = insert-Inserted (leaf ∷ []) root-Tree 1 2 7

from_lengths-Builds_example : Ensures (Builds three_lengths) (from_lengths three_lengths fixed)
from_lengths-Builds_example = from_lengths-Builds three_lengths fixed

-- The bits 0, 1 and 1.
abbrev three_bits : List ℕ
three_bits = 6 ∷ []

three_bits-Bytes : Bytes three_bits
three_bits-Bytes = search arith

decode-Decodes_example :
    Ensures
      (Decodes three_bits three_codes.nodes 0 2 (new three_bits 0))
      (decode three_codes (new three_bits 0))
decode-Decodes_example =
    decode-Decodes three_bits three_bits-Bytes (omega arith) three_codes.nodes three_codes-Tree
      three_codes (new three_bits 0) refl (new-Valid three_bits 0 three_bits-Bytes (omega arith))

fixed_litlen-fits : fits_below 15 fixed_litlen_code_lengths ≡ true
unfolding fits_below first_code
fixed_litlen-fits = refl

fixed_litlen-short : All (λ len. len ≤ 15) fixed_litlen_code_lengths
fixed_litlen-short = search arith

from_lengths-Fit_example :
    Returns (Builds fixed_litlen_code_lengths) (from_lengths fixed_litlen_code_lengths fixed)
from_lengths-Fit_example =
    from_lengths-Fit fixed_litlen_code_lengths fixed fixed_litlen-short (omega arith)
      (fits_below-Fit 15 fixed_litlen_code_lengths fixed_litlen-fits)

-- The bits 1 and 1.
abbrev two_bits : List ℕ
two_bits = 3 ∷ []

two_bits-Bytes : Bytes two_bits
two_bits-Bytes = search arith

two_bits-first : FirstAt two_bits three_codes.nodes 0 0 2
unfolding symbol_below code_path value
two_bits-first zero l m = absurd (omega arith)
two_bits-first (suc zero) l m = refl
two_bits-first (suc (suc i)) l m = absurd (omega arith)

two_bits-there : symbol_below three_codes.nodes 0 (code_path (value two_bits) 0 2) ≡ some 2
unfolding symbol_below code_path value
two_bits-there = refl

decode-Finds_example :
    Returns
      (λ s. (s.value ≡ 2) × Valid two_bits s.reader × (position s.reader ≡ 2))
      (decode three_codes (new two_bits 0))
decode-Finds_example =
    decode-Finds two_bits two_bits-Bytes (omega arith) three_codes.nodes three_codes-Tree
      three_codes (new two_bits 0) 2 2 refl (new-Valid two_bits 0 two_bits-Bytes (omega arith))
      (omega arith) (omega arith, omega arith, two_bits-there, two_bits-first)
