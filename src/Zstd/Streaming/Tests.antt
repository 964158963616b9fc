-- ===== src/Zstd/Streaming/Tests.antt =====
-- src/zstd/decoder.rs and src/zstd/streaming.rs at concrete inputs.
use ziftsieve.Base.{
  ℕ, ◌≡◌, refl, arith, List, [], ◌∷◌, ◌++◌, true, some, ok, err, invalid_data, ◌>>=◌, ◌>>◌, refuse,
  index, slice, loop, Ensures, Returns, reserved_descriptor_bit,
}
use ziftsieve.Block.{CompressedBlock, same_bytes}
use ziftsieve.Zstd.Frame.{
  skip_field, parse_standard_frame_header, frame_at, frame_round, parse_frame_header,
}
use ziftsieve.Zstd.Frame.Format.{encode_head, encode_skippable, encode_skippables}
use ziftsieve.Zstd.Decoder.{DecodeLiterals, extract_literals_from_block}
use ziftsieve.Zstd.Decoder.Format.{
  Section, huffman_section, ten_bits, encode_section, huffman_holds,
}
use ziftsieve.Zstd.Decoder.RoundTrip.{extract_literals_from_block-encode_section}
use ziftsieve.Zstd.Streaming.{
  from_u8, fill_block, block_body, parse_block, block_round, pass_checksum, frame_body,
  stream_round, extract_literals,
}
use ziftsieve.Zstd.Streaming.Format
use ziftsieve.Zstd.Streaming.Format.{
  Body, raw_body, rle_body, compressed_body, Frame, IsFrame, encode_frames, encode_frame,
  encode_blocks, encode_block, last_block, next_block, no_frame, next_frame,
}
use ziftsieve.Zstd.Streaming.Safe.{Extracted, extract_literals-Apart}
use ziftsieve.Zstd.Streaming.Reading.{literals_of}
use ziftsieve.Zstd.Streaming.RoundTrip.{extract_literals-encode_frames}

-- A Huffman decoder that gives back the bytes, for want of another.
abbrev copy : DecodeLiterals
copy payload size streams = some payload

abbrev frame_of : List ℕ → List ℕ
frame_of literals = 0x28 ∷ 0xb5 ∷ 0x2f ∷ 0xfd ∷ 0x00 ∷ 0x58 ∷ 0x21 ∷ 0x00 ∷ 0x00 ∷ literals

abbrev block_of : ℕ → List ℕ → CompressedBlock
block_of offset literals = record {
  compressed_offset = offset;
  compressed_len = 7;
  uncompressed_len = some 4;
  literals = literals;
}

abbrev two_frames : List ℕ
two_frames = frame_of (65 ∷ 66 ∷ 67 ∷ 68 ∷ []) ++ frame_of (69 ∷ 70 ∷ 71 ∷ 72 ∷ [])

multi_frame :
    extract_literals copy two_frames
    ≡ ok (block_of 6 (65 ∷ 66 ∷ 67 ∷ 68 ∷ []) ∷ block_of 19 (69 ∷ 70 ∷ 71 ∷ 72 ∷ []) ∷ [])
unfolding extract_literals stream_round frame_body pass_checksum block_round parse_block block_body
    fill_block from_u8 same_bytes parse_frame_header frame_round frame_at
    parse_standard_frame_header skip_field loop ◌>>=◌ ◌>>◌ refuse index slice
multi_frame = refl

reserved_bit :
    extract_literals copy (0x28 ∷ 0xb5 ∷ 0x2f ∷ 0xfd ∷ 0x08 ∷ 0x58 ∷ [])
    ≡ err (invalid_data 4 reserved_descriptor_bit)
unfolding extract_literals stream_round same_bytes parse_frame_header frame_round frame_at
    parse_standard_frame_header loop ◌>>=◌ ◌>>◌ refuse index slice
reserved_bit = refl

-- Behind a frame, a skippable frame whose magic number ends in 8 ends the extraction: the frame that
-- follows it is not searched, and there is no error.
abbrev skipped : List ℕ
skipped = 0x58 ∷ 0x2a ∷ 0x4d ∷ 0x18 ∷ 0 ∷ 0 ∷ 0 ∷ 0 ∷ []

rest_lost :
    extract_literals copy
      (frame_of (65 ∷ 66 ∷ 67 ∷ 68 ∷ []) ++ (skipped ++ frame_of (69 ∷ 70 ∷ 71 ∷ 72 ∷ [])))
    ≡ ok (block_of 6 (65 ∷ 66 ∷ 67 ∷ 68 ∷ []) ∷ [])
unfolding extract_literals stream_round frame_body pass_checksum block_round parse_block block_body
    fill_block from_u8 same_bytes parse_frame_header frame_round frame_at
    parse_standard_frame_header skip_field loop ◌>>=◌ ◌>>◌ refuse index slice
rest_lost = refl

extract_literals-Apart_example :
    Ensures (Extracted copy two_frames (omega arith)) (extract_literals copy two_frames)
extract_literals-Apart_example = extract_literals-Apart copy two_frames (omega arith)

-- Three literals in a Huffman section, and a sequence of one byte.
abbrev packed : Section
packed = huffman_section ten_bits 3 (1 ∷ 2 ∷ 3 ∷ [])

extract_literals_from_block-encode_section_example :
    extract_literals_from_block copy (encode_section packed ++ 7 ∷ []) ≡ ok (1 ∷ 2 ∷ 3 ∷ [])
extract_literals_from_block-encode_section_example =
    extract_literals_from_block-encode_section copy packed (1 ∷ 2 ∷ 3 ∷ []) (7 ∷ [])
      (huffman_holds (omega arith) (omega arith) (omega arith) refl)

abbrev sample_frame : Frame
sample_frame = record {
  skippables = record { digit = 1; content = 5 ∷ [] } ∷ [];
  head = record {
    dictionary_flag = 1;
    content_flag = 0;
    single_segment = true;
    checksum = true;
    window = [];
    dictionary = 9 ∷ [];
    content = 6 ∷ [];
  };
  blocks = raw_body (65 ∷ 66 ∷ []) ∷ compressed_body packed (7 ∷ []) ∷ [];
  last = rle_body 2 67;
  checksum = 1 ∷ 2 ∷ 3 ∷ 4 ∷ [];
}

abbrev sample_literals : List (List ℕ)
sample_literals = (65 ∷ 66 ∷ []) ∷ (1 ∷ 2 ∷ 3 ∷ []) ∷ (67 ∷ 67 ∷ []) ∷ []

extract_literals-encode_frames_example :
    Returns
      (λ blocks. literals_of blocks ≡ sample_literals)
      (extract_literals copy (encode_frames (sample_frame ∷ [])))
unfolding encode_frames encode_frame encode_skippables encode_skippable encode_head encode_blocks
    encode_block encode_section
extract_literals-encode_frames_example =
    extract_literals-encode_frames copy sample_frame [] sample_literals (omega arith)
      (next_frame
        (record {
          skippables_fit = omega arith;
          few_skippables = omega arith;
          head_fits = omega arith;
          checksum_there = omega arith;
        })
        (next_block (omega arith) Format.raw_holds (
          next_block (omega arith)
            (Format.compressed_holds (huffman_holds (omega arith) (omega arith) (omega arith) refl))
            (last_block (omega arith) Format.rle_holds)))
        no_frame)
      (omega arith) (omega arith) (omega arith) (omega arith)
