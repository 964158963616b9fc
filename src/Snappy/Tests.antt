-- ===== src/Snappy/Tests.antt =====
-- Snappy: runs of src/snappy.rs and its theorems at concrete inputs.
use ziftsieve.Base.{
  ℕ, ◌≡◌, refl, arith, List, [], ◌∷◌, some, ok, err, Ensures, Returns, invalid_data, reserved_chunk,
  uncompressed_chunk_too_short, length, loop, index, slice, ◌>>=◌, ◌>>◌, refuse,
}
use ziftsieve.Extract.{starts_with}
use ziftsieve.Snappy.{
  Snap, decode_chunk_len, handle_snappy_chunk, raw_chunk, extract_literals, chunk_round, take_chunk,
  flush_large, flush_last, flush_block,
}
use ziftsieve.Snappy.Format.{
  Chunk, compressed, uncompressed, padding, encode_stream, AllHold, none_left, one_more,
  decompressed, raw, padded,
}
use ziftsieve.Snappy.Flushed.{WellFlushed, extract_literals-WellFlushed}
use ziftsieve.Snappy.RoundTrip.{joined, extract_literals-encode_stream}

-- A decoder for payloads that are their own contents.
abbrev copying : Snap
copying = record { decompress_len = λ xs. some (length xs); decompress_vec = λ xs. some xs }

abbrev crc : List ℕ
crc = 0xaa ∷ 0xbb ∷ 0xcc ∷ 0xdd ∷ []

decode_chunk_len_run : decode_chunk_len (9 ∷ 5 ∷ 1 ∷ 0 ∷ []) 1 ≡ ok (261, 3)
unfolding decode_chunk_len index ◌>>=◌ ◌>>◌ refuse
decode_chunk_len_run = refl

-- `uncompressed_chunk_of_only_crc_is_rejected_not_silently_dropped`
only_crc :
    handle_snappy_chunk copying 0x01 crc [] 14 ≡ err (invalid_data 14 uncompressed_chunk_too_short)
unfolding handle_snappy_chunk raw_chunk ◌>>=◌ ◌>>◌ refuse
only_crc = refl

-- `test_rejects_reserved_chunk`
reserved : handle_snappy_chunk copying 0x02 [] [] 14 ≡ err (invalid_data 14 (reserved_chunk 0x02))
unfolding handle_snappy_chunk
reserved = refl

-- Without the stream identifier.
one_raw :
    extract_literals copying (1 ∷ 5 ∷ 0 ∷ 0 ∷ 0 ∷ 0 ∷ 0 ∷ 0 ∷ 65 ∷ [])
    ≡ ok (
        record {
          compressed_offset = 0;
          compressed_len = 9;
          uncompressed_len = some 1;
          literals = 65 ∷ [];
        }
        ∷ [])
unfolding extract_literals starts_with chunk_round take_chunk handle_snappy_chunk raw_chunk
    flush_large flush_last flush_block decode_chunk_len loop index slice ◌>>=◌ ◌>>◌ refuse
one_raw = refl

abbrev three_chunks : List Chunk
three_chunks =
    uncompressed crc (65 ∷ 66 ∷ []) ∷ padding (0 ∷ 0 ∷ []) ∷ compressed crc (67 ∷ []) ∷ []

three_chunks-AllHold : AllHold copying three_chunks (65 ∷ 66 ∷ 67 ∷ [])
three_chunks-AllHold =
    one_more (omega arith) (raw refl) (
      one_more (omega arith) padded
        (one_more (omega arith) (decompressed refl refl refl) none_left))

extract_literals-encode_stream_example :
    Returns
      (λ blocks. joined blocks ≡ 65 ∷ 66 ∷ 67 ∷ [])
      (extract_literals copying (encode_stream three_chunks))
extract_literals-encode_stream_example =
    extract_literals-encode_stream copying three_chunks (65 ∷ 66 ∷ 67 ∷ []) three_chunks-AllHold
      (omega arith) (omega arith) (omega arith)

extract_literals-WellFlushed_example :
    Ensures
      (WellFlushed (1 ∷ 5 ∷ 0 ∷ 0 ∷ 0 ∷ 0 ∷ 0 ∷ 0 ∷ 65 ∷ []))
      (extract_literals copying (1 ∷ 5 ∷ 0 ∷ 0 ∷ 0 ∷ 0 ∷ 0 ∷ 0 ∷ 65 ∷ []))
extract_literals-WellFlushed_example =
    extract_literals-WellFlushed copying (1 ∷ 5 ∷ 0 ∷ 0 ∷ 0 ∷ 0 ∷ 0 ∷ 0 ∷ 65 ∷ []) (omega arith)
