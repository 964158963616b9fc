-- ===== src/Lz4/Tests.antt =====
-- LZ4: runs of src/lz4.rs and its theorems at concrete inputs.
use ziftsieve.Base.{
  none, true, false, ℕ, ◌≤◌, ◌≡◌, refl, arith, List, [], ◌∷◌, ◌++◌, length, take, ok, err, Ensures,
  invalid_data, literal_exceeds_block, loop, index, slice, ◌>>◌,
}
use mathlib.Core.List.{Sublist}
use ziftsieve.Lz4.{
  decode_length, length_round, extract_literals, extract_round, sequence, field_length, copy_run,
  skip_match, parse_lz4_blocks, parse_frame_header, has_magic, descriptor_end, blocks_round,
  block_header, take_block, block_at, block_literals,
}
use ziftsieve.Lz4.Framing.{
  Descriptor, Payload, stored, packed, encode_descriptor, encode_payload, encode_payloads,
  blocks_at,
}
use ziftsieve.Lz4.Framing.RoundTrip.{parse_lz4_blocks-encode_frame}
use ziftsieve.Lz4.Format.{Sequence, encode_block, encode_literals, long_part, all_literals}
use ziftsieve.Lz4.Bounds.{Advanced, decode_length-Ensures, extract_literals-Ensures}
use ziftsieve.Lz4.RoundTrip.{extract_literals-encode_block}
use ziftsieve.Lz4.Blocks.{WellParsed, parse_lz4_blocks-Ensures}

-- 15 + 255 + 50
decode_length_run : decode_length (255 ∷ 50 ∷ []) 0 15 ≡ ok (record { pos = 2; len = 320 })
unfolding decode_length length_round loop index ◌>>◌
decode_length_run = refl

extract_with_match : extract_literals (0x11 ∷ 65 ∷ 1 ∷ 0 ∷ []) 1024 ≡ ok (65 ∷ [])
unfolding extract_literals extract_round sequence field_length copy_run skip_match loop index slice
    ◌>>◌
extract_with_match = refl

extract_cut_short :
    extract_literals (0x20 ∷ 65 ∷ []) 1024 ≡ err (invalid_data 1 literal_exceeds_block)
unfolding extract_literals extract_round sequence field_length copy_run skip_match loop index slice
    ◌>>◌
extract_cut_short = refl

abbrev framed : List ℕ
framed = 0x04 ∷ 0x22 ∷ 0x4D ∷ 0x18 ∷ 0x60 ∷ 0x40 ∷ 0x00 ∷ 1 ∷ 0 ∷ 0 ∷ 0x80 ∷ 65 ∷ 0 ∷ 0 ∷ 0 ∷ 0 ∷ []

parse_framed :
    parse_lz4_blocks framed
    ≡ ok (
        record {
          compressed_offset = 7;
          compressed_len = 1;
          uncompressed_len = none;
          literals = 65 ∷ [];
        }
        ∷ [])
unfolding parse_lz4_blocks parse_frame_header has_magic descriptor_end blocks_round block_header
    take_block block_at block_literals loop index slice ◌>>◌
parse_framed = refl

abbrev two_a : Sequence
two_a = record { literals = 97 ∷ 97 ∷ []; low = 1; high = 0; match_len = 20 }

decode_length-Ensures_example :
    Ensures (Advanced (255 ∷ 50 ∷ []) 0) (decode_length (255 ∷ 50 ∷ []) 0 15)
decode_length-Ensures_example = decode_length-Ensures (255 ∷ 50 ∷ []) 0 15

extract_literals-Ensures_example :
    Ensures
      (λ literals. (length literals ≤ 1) × Sublist literals (0x20 ∷ 65 ∷ 66 ∷ []))
      (extract_literals (0x20 ∷ 65 ∷ 66 ∷ []) 1)
extract_literals-Ensures_example = extract_literals-Ensures (0x20 ∷ 65 ∷ 66 ∷ []) 1

extract_literals-encode_block_example :
    extract_literals (encode_block (two_a ∷ []) (98 ∷ [])) 1024
    ≡ ok (take 1024 (all_literals (two_a ∷ []) (98 ∷ [])))
extract_literals-encode_block_example =
    extract_literals-encode_block 1024 (two_a ∷ []) (98 ∷ []) (omega arith) (omega arith)
      (omega arith)

parse_lz4_blocks-Ensures_example : Ensures (WellParsed framed) (parse_lz4_blocks framed)
parse_lz4_blocks-Ensures_example = parse_lz4_blocks-Ensures framed (omega arith)

abbrev plain_descriptor : Descriptor
plain_descriptor = record {
  independent = true;
  has_size = true;
  has_checksum = false;
  largest = 0x40;
  content_size = 3 ∷ 0 ∷ 0 ∷ 0 ∷ 0 ∷ 0 ∷ 0 ∷ 0 ∷ [];
  header_checksum = 9;
}

abbrev two_payloads : List Payload
two_payloads = stored (65 ∷ 66 ∷ []) ∷ packed [] (67 ∷ []) ∷ []

parse_lz4_blocks-encode_frame_example :
    parse_lz4_blocks
      (encode_descriptor plain_descriptor ++ (encode_payloads two_payloads ++ 7 ∷ []))
    ≡ ok (blocks_at (length (encode_descriptor plain_descriptor)) two_payloads)
unfolding encode_descriptor encode_payloads encode_payload encode_block encode_literals long_part
    all_literals
parse_lz4_blocks-encode_frame_example =
    parse_lz4_blocks-encode_frame plain_descriptor two_payloads (7 ∷ []) (omega arith) (omega arith)
      (omega arith) (omega arith) (omega arith) (omega arith)
