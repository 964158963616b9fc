-- ===== src/Gzip/Deflate/Tables.antt =====
-- The limits and the tables of src/gzip/deflate.rs.
use ziftsieve.Base.{ℕ, ◌*◌, List, [], ◌∷◌, ◌++◌, replicate}

abbrev pub max_block_literals : ℕ
max_block_literals = 16 * 1024 * 1024

abbrev pub max_deflate_blocks_per_member : ℕ
max_deflate_blocks_per_member = 100000

abbrev pub max_deflate_instructions : ℕ
max_deflate_instructions = 10000000

abbrev pub hclen_order : List ℕ
hclen_order =
    16 ∷ 17 ∷ 18 ∷ 0 ∷ 8 ∷ 7 ∷ 9 ∷ 6 ∷ 10 ∷ 5 ∷ 11 ∷ 4 ∷ 12 ∷ 3 ∷ 13 ∷ 2 ∷ 14 ∷ 1 ∷ 15 ∷ []

abbrev pub fixed_litlen_code_lengths : List ℕ
fixed_litlen_code_lengths = replicate 144 8 ++ replicate 112 9 ++ replicate 24 7 ++ replicate 8 8

abbrev pub fixed_dist_code_lengths : List ℕ
fixed_dist_code_lengths = replicate 32 5

abbrev pub literal_length_bases : List ℕ
literal_length_bases =
    3 ∷ 4 ∷ 5 ∷ 6 ∷ 7 ∷ 8 ∷ 9 ∷ 10 ∷ 11 ∷ 13 ∷ 15 ∷ 17 ∷ 19 ∷ 23 ∷ 27 ∷ 31 ∷ 35 ∷ 43 ∷ 51 ∷ 59 ∷ 67
    ∷ 83 ∷ 99 ∷ 115 ∷ 131 ∷ 163 ∷ 195 ∷ 227 ∷ 258 ∷ []

abbrev pub literal_length_extra_bits : List ℕ
literal_length_extra_bits =
    0 ∷ 0 ∷ 0 ∷ 0 ∷ 0 ∷ 0 ∷ 0 ∷ 0 ∷ 1 ∷ 1 ∷ 1 ∷ 1 ∷ 2 ∷ 2 ∷ 2 ∷ 2 ∷ 3 ∷ 3 ∷ 3 ∷ 3 ∷ 4 ∷ 4 ∷ 4 ∷ 4
    ∷ 5 ∷ 5 ∷ 5 ∷ 5 ∷ 0 ∷ []

abbrev pub distance_bases : List ℕ
distance_bases =
    1 ∷ 2 ∷ 3 ∷ 4 ∷ 5 ∷ 7 ∷ 9 ∷ 13 ∷ 17 ∷ 25 ∷ 33 ∷ 49 ∷ 65 ∷ 97 ∷ 129 ∷ 193 ∷ 257 ∷ 385 ∷ 513 ∷ 769
    ∷ 1025 ∷ 1537 ∷ 2049 ∷ 3073 ∷ 4097 ∷ 6145 ∷ 8193 ∷ 12289 ∷ 16385 ∷ 24577 ∷ []

abbrev pub distance_extra_bits : List ℕ
distance_extra_bits =
    0 ∷ 0 ∷ 0 ∷ 0 ∷ 1 ∷ 1 ∷ 2 ∷ 2 ∷ 3 ∷ 3 ∷ 4 ∷ 4 ∷ 5 ∷ 5 ∷ 6 ∷ 6 ∷ 7 ∷ 7 ∷ 8 ∷ 8 ∷ 9 ∷ 9 ∷ 10 ∷ 10
    ∷ 11 ∷ 11 ∷ 12 ∷ 12 ∷ 13 ∷ 13 ∷ []
