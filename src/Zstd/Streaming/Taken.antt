-- ===== src/Zstd/Streaming/Taken.antt =====
-- `parse_block` of src/zstd/streaming.rs on a block of the format.
use ziftsieve.Base.{
  bit-lt, has_bit-bit, ℕ, ◌+◌, ◌*◌, ◌/◌, ◌%◌, ◌^◌, ◌≤◌, ◌<◌, ◌≡◌, refl, ◌∙◌, ap, arith, List, [],
  ◌∷◌, ◌++◌, length, drop, Bool, ok, some, FitsIsize, index-rest, rest_bound, rest-run, slice-rest,
  take_all, ge→ltb, length-append, has_bit, Returns, gives, Returns-bind, Returns-refuse,
  Returns-step,
}
use ziftsieve.Block.{CompressedBlock}
use ziftsieve.Zstd.Decoder.{DecodeLiterals}
use ziftsieve.Zstd.Decoder.Format.{le_bytes}
use ziftsieve.Zstd.Decoder.RoundTrip.{extract_literals_from_block-encode_section}
use ziftsieve.Zstd.Streaming.{
  BlockType, raw, rle, compressed, from_u8, stream_data_size, TakenBlock, fill_block, block_body,
  parse_block, max_block_size,
}
use ziftsieve.Zstd.Streaming.Format.{
  Body, raw_body, rle_body, compressed_body, body_type, body_data, body_size, block_number,
  encode_block, Holds, raw_holds, rle_holds, compressed_holds,
}

abbrev type_of : Body → BlockType
type_of (raw_body bytes) = raw
type_of (rle_body count byte) = rle
type_of (compressed_body section sequences) = compressed

from_u8-body_type : (b : Body) → from_u8 (body_type b) ≡ some (type_of b)
unfolding from_u8
from_u8-body_type (raw_body bytes) = refl
from_u8-body_type (rle_body count byte) = refl
from_u8-body_type (compressed_body section sequences) = refl

body_type-lt : (b : Body) → body_type b < 4
body_type-lt (raw_body bytes) = omega arith
body_type-lt (rle_body count byte) = omega arith
body_type-lt (compressed_body section sequences) = omega arith

data_size : (b : Body) → stream_data_size (type_of b) (body_size b) ≡ length (body_data b)
data_size (raw_body bytes) = refl
data_size (rle_body count byte) = refl
data_size (compressed_body section sequences) = refl

module _ (decode_literals : DecodeLiterals) where
  fill_block-Holds :
      (b : Body) (xs : List ℕ) (block : CompressedBlock) (pos : ℕ)
      → Holds decode_literals b xs
      → Returns
          (λ filled. filled.literals ≡ xs)
          (fill_block decode_literals (type_of b) block pos (body_size b) (body_data b))
  unfolding fill_block
  fill_block-Holds (raw_body _) xs block pos raw_holds = gives refl
  fill_block-Holds (rle_body count byte) _ block pos rle_holds = gives refl
  fill_block-Holds (compressed_body section sequences) xs block pos (compressed_holds h) =
      Returns-step _
        (extract_literals_from_block-encode_section decode_literals section xs sequences h)
        (gives refl)

  module _ (bytes : List ℕ) (fits : FitsIsize bytes) where
    -- The block that stands at `pos`, with its literals.
    abbrev pub TakenAs : Bool → List ℕ → ℕ → TakenBlock → Type 0
    TakenAs last xs end t = (t.block.literals ≡ xs) × (t.is_last ≡ last) × (t.pos ≡ end)

    block_body-Holds :
        (b : Body) (last : Bool) (xs rest : List ℕ) (pos : ℕ)
        → drop pos bytes ≡ body_data b ++ rest
        → body_size b ≤ max_block_size
        → pos + length (body_data b) ≤ length bytes
        → Holds decode_literals b xs
        → Returns
            (TakenAs last xs (pos + length (body_data b)))
            (block_body decode_literals bytes pos last (type_of b) (body_size b))
    unfolding block_body
    block_body-Holds b last xs rest pos e small inside h = Returns-refuse _ _ (ge→ltb _ _ small) (
        rw (data_size b) (
          Returns-refuse _ _ (ge→ltb _ _ (omega (arith, inside))) (
            Returns-step _
              (slice-rest bytes pos (length (body_data b)) (body_data b) rest e (omega arith) inside
                ∙ ap ok (take_all _ (body_data b) (omega arith)))
              (Returns-bind (fill_block-Holds b xs _ pos h) λ filled k. gives (k, refl, refl)))))

    pub length-encode_block :
        (last : Bool) (b : Body) → length (encode_block last b) ≡ 3 + length (body_data b)
    unfolding encode_block
    length-encode_block last b = omega arith

    -- A block of the format at `pos`.
    pub parse_block-Holds :
        (b : Body) (last : Bool) (xs rest : List ℕ) (pos : ℕ)
        → drop pos bytes ≡ encode_block last b ++ rest
        → body_size b ≤ max_block_size
        → Holds decode_literals b xs
        → Returns
            (TakenAs last xs (pos + length (encode_block last b)))
            (parse_block decode_literals bytes pos)
    unfolding parse_block
    parse_block-Holds b last xs rest pos e small h =
        let n = block_number last b in
        let here : drop pos bytes ≡ le_bytes 3 n ++ (body_data b ++ rest) =
          unfold encode_block in e in
        let size = length-encode_block last b in
        let left = rest_bound bytes pos _ e in
        let inside : pos + (3 + length (body_data b)) ≤ length bytes =
          omega (arith, left, size, length-append (encode_block last b) rest) in
        let kind : n % 256 / 2 % 2 ^ 2 ≡ body_type b = omega (arith, bit-lt last, body_type-lt b) in
        let flag : has_bit (n % 256) 0 ≡ last = has_bit-bit _ last (omega (arith, bit-lt last)) in
        let same : n % 256 / 2 ^ 3 + 2 ^ 5 * (n / 256 % 256) + 2 ^ 13 * (n / 256 / 256 % 256)
            ≡ body_size b =
          omega (arith, bit-lt last, body_type-lt b, small) in
        let end : pos + length (encode_block last b) ≡ pos + 3 + length (body_data b) =
          omega arith in
        Returns-refuse _ _ (ge→ltb _ _ (omega (arith, inside))) (
          Returns-step _ (index-rest bytes pos _ _ here) (
            Returns-step _
              (index-rest bytes (pos + 1) _ _ (rest-run bytes pos (n % 256 ∷ []) _ here))
              (Returns-step _
                (index-rest bytes (pos + 2) _ _
                  (rest-run bytes pos (n % 256 ∷ n / 256 % 256 ∷ []) _ here))
                (rw (kind, from_u8-body_type b, flag, same, end)
                  (Returns-step _ refl (
                    block_body-Holds b last xs rest (pos + 3)
                      (rest-run bytes pos (le_bytes 3 n) _ here) small (omega arith) h))))))
