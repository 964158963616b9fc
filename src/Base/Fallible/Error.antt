-- ===== src/Base/Fallible/Error.antt =====
-- `CompressionFormat` and `ZiftError` of src/lib.rs. The text of `InvalidData` is a `Reason`, one
-- for each message of the source; the hint after "Fix:" is left out.
use Prim.Native.Nat.{ℕ}
use mathlib.Core.List.{List}

pub data CompressionFormat : Type 0 where
  lz4 snappy gzip zstd : CompressionFormat

-- The `kind` of a code in a message.
pub data CodeKind : Type 0 where
  fixed fixed_distance code_length literal_length distance : CodeKind

pub data Reason : Type 0 where
  too_many_sequences literal_exceeds_block truncated_match_offset : Reason
  truncated_length length_overflow : Reason
  empty_input too_many_blocks truncated_block_header truncated_block : Reason
  block_offset_exceeds_u64 ratio_exceeded : Reason
  truncated_frame_header unsupported_version truncated_frame_descriptor : Reason
  compressed_chunk_too_short invalid_compressed_chunk decompression_failed : Reason
  uncompressed_chunk_too_short too_many_chunks chunk_exceeds_data truncated_chunk_length : Reason
  reserved_chunk : ℕ → Reason
  empty_bit_vector : Reason
  too_many_bits : ℕ → Reason
  truncated_bitstream value_exceeds_u8 unaligned_peek truncated_byte_peek : Reason
  unaligned_byte unaligned_bytes truncated_byte_data : Reason
  unaligned_gzip_header truncated_gzip_header invalid_gzip_magic : Reason
  unsupported_gzip_method invalid_gzip_flags header_field_too_long : Reason
  code_length_too_long : CodeKind → ℕ → Reason
  invalid_code_length : CodeKind → Reason
  max_bits_exceed_u8 code_length_exceeds_u8 symbol_exceeds_u16 : Reason
  huffman_tree_too_large duplicate_huffman_code huffman_symbol_out_of_range : Reason
  empty_huffman_decoder invalid_huffman_code huffman_code_too_long : Reason
  too_many_deflate_blocks reserved_block_type stored_length_mismatch : Reason
  invalid_dynamic_header too_many_code_lengths repeat_before_length length_overflow_in_tree : Reason
  too_many_instructions : ℕ → Reason
  reserved_length_code invalid_length_code invalid_distance_code : Reason
  crc_mismatch : ℕ → ℕ → Reason
  empty_gzip_input too_many_members : Reason
  short_zstd_header too_many_skippable_frames truncated_after_skippable_frame : Reason
  truncated_skippable_header skippable_size_overflow skippable_frame_beyond_data : Reason
  invalid_zstd_magic truncated_zstd_descriptor reserved_descriptor_bit : Reason
  truncated_window_descriptor truncated_dictionary_id truncated_content_size : Reason
  empty_zstd_input too_many_frames truncated_content_checksum too_many_zstd_blocks : Reason
  truncated_zstd_block_header invalid_block_type reserved_zstd_block_type : Reason
  block_exceeds_data : ℕ → ℕ → Reason
  raw_literals_exceed_block truncated_rle_literal uncompressed_literals_exceed_block : Reason
  compressed_literals_exceed_block huffman_decoding_failed treeless_literals : Reason
  truncated_raw_size truncated_compressed_size : Reason
  invalid_octal_digit tar_size_overflow tar_boundary_overflow tar_header_overflow : Reason
  truncated_tar_member_header end_of_archive_marker tar_content_overflow : Reason
  path_traversal symbolic_link hard_link : List ℕ → Reason
  truncated_tar_content tarball_size_overflow tarball_too_large nested_too_deep : Reason
  not_a_gzip_stream too_many_tar_members truncated_tar_header tar_literals_exceed : Reason
  tar_member_too_large tar_offset_exceeds_u64 tar_size_exceeds_u32 : Reason

pub data ZiftError : Type 0 where
  unsupported_format : CompressionFormat → ZiftError
  invalid_data : ℕ → Reason → ZiftError
  feature_not_enabled : CompressionFormat → ZiftError
  block_too_large : ℕ → ℕ → ZiftError
  io : ZiftError
