-- ===== src/Lz4/Framing/RoundTrip.antt =====
-- `parse_lz4_blocks` of src/lz4.rs on frames of the format.
use ziftsieve.Base.{
  none, drop-append, has_bit-bit, ℕ, zero, suc, ◌+◌, ◌-◌, ◌*◌, ◌/◌, ◌%◌, ◌^◌, ◌≤◌, ◌<◌, ◌≡◌, refl,
  sym, ◌∙◌, ap, arith, List, [], ◌∷◌, ◌++◌, length, drop, All, Bool, true, false, has_bit,
  usize_max, saturating_add, min, max, FitsIsize, ok, ◌>>=◌, ◌>>◌, refuse, slice, loop, again, done,
  loop_again, loop_done, gt→leb, ge→ltb, lt→ltb, ne→==, length-append, append_assoc, append-nil,
  slice-rest, take_all, rest_bound, rest-run, index-rest,
}
use ziftsieve.Block.{CompressedBlock}
use ziftsieve.Lz4.{
  has_magic, Stream, block_at, block_literals, take_block, block_header, blocks_round,
  parse_lz4_blocks, max_block_size, max_total_literals, max_blocks_per_stream,
  max_decompression_ratio, le_u32,
}
use ziftsieve.Lz4.RoundTrip.{extract_literals-encode_block}
use ziftsieve.Lz4.Framing.{
  Payload, stored, packed, payload_bytes, payload_literals, block_size, IsPayload, le_u32_bytes,
  encode_payload, encode_payloads, Descriptor, IsDescriptor, encode_descriptor, blocks_at,
}
use ziftsieve.Lz4.Framing.Header.{length-encode_descriptor, parse_frame_header-encode_descriptor}

abbrev is_stored : Payload → Bool
is_stored (stored bytes) = true
is_stored (packed ss last) = false

module _ (p : Payload) (v : IsPayload p) where
  block_literals-payload : block_literals (is_stored p) (payload_bytes p) ≡ ok (payload_literals p)
  block_literals-payload = by_kind p v
    where
      by_kind :
          (p : Payload)
          → IsPayload p
          → block_literals (is_stored p) (payload_bytes p) ≡ ok (payload_literals p)
      by_kind (stored bytes) v = unfold block_literals in refl
      by_kind (packed ss last) v =
          unfold block_literals in
          extract_literals-encode_block max_block_size ss last v.sequences.0 v.sequences.1
            v.sequences.2

  kind_bits :
      (has_bit (block_size p) 31 ≡ is_stored p)
      × (block_size p % 2 ^ 31 ≡ length (payload_bytes p))
      × (block_size p < 2 ^ 32)
  kind_bits = by_kind p v
    where
      by_kind :
          (p : Payload)
          → IsPayload p
          → (has_bit (block_size p) 31 ≡ is_stored p)
            × (block_size p % 2 ^ 31 ≡ length (payload_bytes p))
            × (block_size p < 2 ^ 32)
      by_kind (stored bytes) v = (
        has_bit-bit _ true (omega (arith, v.small)),
        omega (arith, v.small),
        omega (arith, v.small),
      )
      by_kind (packed ss last) v = (
        has_bit-bit _ false (omega (arith, v.small)),
        omega (arith, v.small),
        omega (arith, v.small),
      )

block_header-found :
    (bytes rest : List ℕ) (pos n : ℕ)
    → drop pos bytes ≡ le_u32_bytes n ++ rest
    → n < 2 ^ 32
    → block_header bytes pos ≡ ok n
unfolding block_header ◌>>=◌
block_header-found bytes rest pos n e small =
    let same : le_u32 (n % 256) (n / 256 % 256) (n / 256 ^ 2 % 256) (n / 256 ^ 3) ≡ n =
      omega arith in
    rw (
      index-rest bytes pos _ _ e,
      index-rest bytes (pos + 1) _ _ (rest-run bytes pos (n % 256 ∷ []) _ e),
      index-rest bytes (pos + 2) _ _ (rest-run bytes pos (n % 256 ∷ n / 256 % 256 ∷ []) _ e),
      index-rest bytes (pos + 3) _ _
          (rest-run bytes pos (n % 256 ∷ n / 256 % 256 ∷ n / 256 ^ 2 % 256 ∷ []) _ e),
      same,
    )

-- The literals of all blocks of a frame together.
abbrev pub all_payload_literals : List Payload → ℕ
all_payload_literals [] = 0
all_payload_literals (p ∷ ps) = length (payload_literals p) + all_payload_literals ps

-- A slice that is shorter than 2^63, and a limit for its literals.
module _ (bytes : List ℕ) (fits : FitsIsize bytes) (is_framed : Bool) (limit : ℕ)
    (small : limit ≤ max_total_literals)
    (fair : limit ≤ max (length bytes * max_decompression_ratio) (1024 * 1024)) where
  abbrev stream : List CompressedBlock → ℕ → ℕ → Stream
  stream blocks offset total = record { blocks = blocks; offset = offset; total_literals = total }

  module _ (p : Payload) (v : IsPayload p) (rest : List ℕ) (pos total : ℕ)
      (blocks : List CompressedBlock) (there : drop pos bytes ≡ encode_payload p ++ rest)
      (room : total + length (payload_literals p) ≤ limit) where
    length-encode_payload : length (encode_payload p) ≡ 4 + length (payload_bytes p)
    unfolding encode_payload
    length-encode_payload = omega arith

    inside : pos + 4 + length (payload_bytes p) ≤ length bytes
    inside = omega (
      arith,
      rest_bound bytes pos _ there,
      length-append (encode_payload p) rest,
      length-encode_payload,
    )

    from_size : drop pos bytes ≡ le_u32_bytes (block_size p) ++ (payload_bytes p ++ rest)
    from_size = there ∙ unfold encode_payload in refl

    payload_found :
        slice bytes (pos + 4) (pos + 4 + length (payload_bytes p)) ≡ ok (payload_bytes p)
    payload_found =
        slice-rest bytes (pos + 4) (length (payload_bytes p)) (payload_bytes p) rest
          (rest-run bytes pos (le_u32_bytes (block_size p)) _ from_size) (omega arith) inside
        ∙ ap ok (take_all (length (payload_bytes p)) (payload_bytes p) (omega arith))

    abbrev one : CompressedBlock
    one = record {
      compressed_offset = pos;
      compressed_len = length (payload_bytes p);
      uncompressed_len = none;
      literals = payload_literals p;
    }

    take_block-payload :
        take_block bytes (stream blocks pos total) (block_size p)
        ≡ ok (
            again (
              stream
                (blocks ++ (one ∷ []))
                (pos + length (encode_payload p))
                (total + length (payload_literals p))))
    unfolding take_block block_at ◌>>=◌ ◌>>◌ refuse
    take_block-payload =
        let (flag, size, word) = kind_bits p v in
        let end = inside in
        let n = length (payload_bytes p) in
        let start : saturating_add pos 4 ≡ pos + 4 = omega arith in
        let stop : saturating_add (pos + 4) n ≡ pos + 4 + n = omega arith in
        let sum : saturating_add total (length (payload_literals p))
            ≡ total + length (payload_literals p) =
          omega arith in
        let next_pos : pos + 4 + n ≡ pos + length (encode_payload p) =
          omega (arith, length-encode_payload) in
        rw (
          size,
          ne→== n 0 (λ e. omega (arith, v.filled, e)),
          ge→ltb max_block_size n v.small,
          start,
          stop,
          ge→ltb (length bytes) (pos + 4 + n) end,
          payload_found,
          ge→ltb (2 ^ 64 - 1) pos (omega arith),
          ge→ltb (2 ^ 32 - 1) n (omega (arith, v.small)),
          flag,
          block_literals-payload p v,
          sum,
          ge→ltb max_total_literals (total + length (payload_literals p)) (omega arith),
          ge→ltb (max (min (length bytes * max_decompression_ratio) usize_max) (1024 * 1024))
              (total + length (payload_literals p)) (omega arith),
          next_pos,
        )

    blocks_round-payload :
        length blocks < max_blocks_per_stream
        → blocks_round bytes is_framed (stream blocks pos total)
          ≡ ok (
              again (
                stream
                  (blocks ++ (one ∷ []))
                  (pos + length (encode_payload p))
                  (total + length (payload_literals p))))
    unfolding blocks_round ◌>>=◌ ◌>>◌ refuse
    blocks_round-payload few =
        let end = inside in
        let start : saturating_add pos 4 ≡ pos + 4 = omega arith in
        rw
          (
            lt→ltb pos (length bytes) (omega arith),
            gt→leb max_blocks_per_stream (length blocks) few,
            start,
            ge→ltb (length bytes) (pos + 4) (omega arith),
            block_header-found bytes (payload_bytes p ++ rest) pos (block_size p) from_size
                ((kind_bits p v).2),
          )
          take_block-payload

  -- The end mark stops the loop, whatever stands behind it.
  end_mark :
      (pos total : ℕ) (blocks : List CompressedBlock) (rest : List ℕ)
      → drop pos bytes ≡ 0 ∷ 0 ∷ 0 ∷ 0 ∷ rest
      → length blocks < max_blocks_per_stream
      → blocks_round bytes is_framed (stream blocks pos total) ≡ ok (done blocks)
  unfolding blocks_round take_block ◌>>=◌ ◌>>◌ refuse
  end_mark pos total blocks rest e few =
      let left = rest_bound bytes pos _ e in
      let start : saturating_add pos 4 ≡ pos + 4 = omega arith in
      rw (
        lt→ltb pos (length bytes) (omega arith),
        gt→leb max_blocks_per_stream (length blocks) few,
        start,
        ge→ltb (length bytes) (pos + 4) (omega arith),
        block_header-found bytes rest pos 0 e (omega arith),
      )

  loop-encode_payloads :
      (ps : List Payload) (fuel pos total : ℕ) (blocks : List CompressedBlock) (rest : List ℕ)
      → All IsPayload ps
      → drop pos bytes ≡ encode_payloads ps ++ rest
      → length blocks + length ps < max_blocks_per_stream
      → total + all_payload_literals ps ≤ limit
      → length ps < fuel
      → loop fuel (blocks_round bytes is_framed) (stream blocks pos total)
        ≡ ok (blocks ++ blocks_at pos ps)
  unfolding encode_payloads blocks_at
  loop-encode_payloads ps zero pos total blocks rest v e few room fuel_left = absurd (omega arith)
  loop-encode_payloads [] (suc fuel) pos total blocks rest v e few room fuel_left =
      loop_done fuel (blocks_round bytes is_framed) _ blocks
        (end_mark pos total blocks rest e (omega (arith, few)))
      ∙ ap ok (sym (append-nil blocks))
  loop-encode_payloads (p ∷ ps) (suc fuel) pos total blocks rest (v, vs) e few room fuel_left =
      let front = e ∙ append_assoc (encode_payload p) (encode_payloads ps) rest in
      let fit : total + length (payload_literals p) ≤ limit = omega (arith, room) in
      loop_again fuel (blocks_round bytes is_framed) _ _
        (blocks_round-payload p v _ pos total blocks front fit (omega (arith, few)))
      ∙ loop-encode_payloads ps fuel (pos + length (encode_payload p))
          (total + length (payload_literals p))
          (blocks ++ (one p v _ pos total blocks front fit ∷ [])) rest vs
          (rest-run bytes pos (encode_payload p) _ front)
          (omega (arith, few, length-append blocks (one p v _ pos total blocks front fit ∷ [])))
          (omega (arith, room)) (omega (arith, fuel_left))
      ∙ ap ok (
          append_assoc blocks (one p v _ pos total blocks front fit ∷ [])
            (blocks_at (pos + length (encode_payload p)) ps))

length-encode_payloads : (ps : List Payload) → length ps < length (encode_payloads ps)
unfolding encode_payloads encode_payload
length-encode_payloads [] = omega arith
length-encode_payloads (p ∷ ps) = omega (
  arith,
  length-encode_payloads ps,
  length-append (le_u32_bytes (block_size p) ++ payload_bytes p) (encode_payloads ps),
)

-- On the bytes of an LZ4 frame of the format with neither a dictionary nor checksums of blocks,
-- shorter than 2^63 with what stands behind it, with fewer than 10,000 blocks of 1 byte to 4 MiB,
-- stored or of sequences that the parser accepts, and with literals that keep the limits on their
-- sum and on their ratio to the bytes, `parse_lz4_blocks` returns exactly the blocks of the frame,
-- each at its offset, and nothing of what stands behind the end mark.
pub parse_lz4_blocks-encode_frame :
    (d : Descriptor) (ps : List Payload) (behind : List ℕ)
    → IsDescriptor d
    → All IsPayload ps
    → FitsIsize (encode_descriptor d ++ (encode_payloads ps ++ behind))
    → length ps < max_blocks_per_stream
    → all_payload_literals ps ≤ max_total_literals
    → all_payload_literals ps
      ≤ max
          (length (encode_descriptor d ++ (encode_payloads ps ++ behind)) * max_decompression_ratio)
          (1024 * 1024)
    → parse_lz4_blocks (encode_descriptor d ++ (encode_payloads ps ++ behind))
      ≡ ok (blocks_at (length (encode_descriptor d)) ps)
unfolding parse_lz4_blocks ◌>>=◌ ◌>>◌ refuse
parse_lz4_blocks-encode_frame d ps behind v vs fits few small fair =
    let rest = encode_payloads ps ++ behind in
    let bytes = encode_descriptor d ++ rest in
    let whole = length-append (encode_descriptor d) rest in
    let header = length-encode_descriptor d v rest in
    rw
      (
        ne→== (length bytes) 0 (λ e. omega (arith, e, whole, header)),
        parse_frame_header-encode_descriptor d v rest,
      )
      (loop-encode_payloads bytes fits (has_magic bytes) (all_payload_literals ps) small fair ps
        (length bytes + 1) (length (encode_descriptor d)) 0 [] behind vs
        (drop-append (encode_descriptor d) rest) (omega (arith, few)) (omega arith)
        (omega
          (arith, whole, length-append (encode_payloads ps) behind, length-encode_payloads ps)))
