-- ===== src/Zstd/Decoder/RoundTrip.antt =====
-- `extract_literals_from_block` of src/zstd/decoder.rs on the literals sections of the format.
use ziftsieve.Base.{
  ℕ, ◌+◌, ◌-◌, ◌/◌, ◌%◌, ◌^◌, ◌<◌, ◌≡◌, ◌≢◌, refl, arith, List, ◌∷◌, ◌++◌, length, ok, ◌>>=◌, ◌>>◌,
  refuse, index, slice, ge→ltb, gt→leb, slice-append, index-append, length-append, append_assoc,
  zero, suc, ap, ltb, ◌==◌, ne→==, replicate, some, false, if◌then◌else◌,
}
use ziftsieve.Zstd.Decoder.{
  DecodeLiterals, le16, le24, le32, read_raw_rle_size, read_compressed_size, raw_literals,
  rle_literals, compressed_literals, literals_section, extract_literals_from_block,
}
use ziftsieve.Zstd.Decoder.Format.{
  le_bytes, PlainFormat, one_byte, two_bytes, three_bytes, plain_bytes, plain_limit, plain_number,
  PackedFormat, single, ten_bits, fourteen_bits, eighteen_bits, packed_bytes, packed_limit,
  packed_number, streams, Section, raw_section, rle_section, huffman_section, encode_section,
  StandsFor, raw_holds, rle_holds, huffman_holds,
}

read_raw_rle_size-plain_number :
    (f : PlainFormat) (kind size : ℕ) (rest : List ℕ)
    → kind < 4
    → size < plain_limit f
    → read_raw_rle_size
        (plain_number f kind size % 256)
        (le_bytes (plain_bytes f) (plain_number f kind size) ++ rest)
      ≡ ok (record { regenerated_size = size; header_size = plain_bytes f })
unfolding read_raw_rle_size le16 le24 index ◌>>=◌ ◌>>◌ refuse
read_raw_rle_size-plain_number one_byte kind size rest k h = ground arith
read_raw_rle_size-plain_number two_bytes kind size rest k h = ground arith
read_raw_rle_size-plain_number three_bytes kind size rest k h = ground arith

read_compressed_size-packed_number :
    (f : PackedFormat) (size packed : ℕ) (rest : List ℕ)
    → size < packed_limit f
    → packed < packed_limit f
    → read_compressed_size
        (packed_number f size packed % 256)
        (le_bytes (packed_bytes f) (packed_number f size packed) ++ rest)
      ≡ ok (record {
        regenerated_size = size;
        compressed_size = packed;
        header_size = packed_bytes f;
      })
unfolding read_compressed_size le16 le24 le32 index ◌>>=◌ ◌>>◌ refuse
read_compressed_size-packed_number single size packed rest k h = ground arith
read_compressed_size-packed_number ten_bits size packed rest k h = ground arith
read_compressed_size-packed_number fourteen_bits size packed rest k h = ground arith
read_compressed_size-packed_number eighteen_bits size packed rest k h = ground arith

-- The first byte of a section holds its type and its size format.
plain_kind :
    (f : PlainFormat) (kind size : ℕ) → kind < 4 → plain_number f kind size % 256 % 2 ^ 2 ≡ kind
plain_kind one_byte kind size h = omega arith
plain_kind two_bytes kind size h = omega arith
plain_kind three_bytes kind size h = omega arith

packed_kind : (f : PackedFormat) (size packed : ℕ) → packed_number f size packed % 256 % 2 ^ 2 ≡ 2
packed_kind single size packed = omega arith
packed_kind ten_bits size packed = omega arith
packed_kind fourteen_bits size packed = omega arith
packed_kind eighteen_bits size packed = omega arith

length-le_bytes : (k n : ℕ) → length (le_bytes k n) ≡ k
length-le_bytes zero n = refl
length-le_bytes (suc k) n = ap suc (length-le_bytes k (n / 256))

-- A header of `k` bytes, with bytes behind it.
module _ (k n : ℕ) (positive : 0 < k) where
  behind : 1 + (k - 1) ≡ k
  behind = omega arith

  header_found : (xs : List ℕ) → index (le_bytes k n ++ xs) 0 ≡ ok (n % 256)
  unfolding index
  header_found xs = let e : k ≡ suc (k - 1) = omega arith in rw e

  room :
      (ys rest : List ℕ)
      → ltb (length (le_bytes k n ++ (ys ++ rest))) (1 + (k - 1) + length ys) ≡ false
  room ys rest = ge→ltb _ _ (
      omega (
        arith,
        length-append (le_bytes k n) (ys ++ rest),
        length-append ys rest,
        length-le_bytes k n,
      ))

  cut :
      (ys rest : List ℕ)
      → slice (le_bytes k n ++ (ys ++ rest)) (1 + (k - 1)) (1 + (k - 1) + length ys) ≡ ok ys
  cut ys rest =
      slice-append (le_bytes k n) ys rest _ _ (omega (arith, length-le_bytes k n))
        (omega (arith, length-le_bytes k n))

plain_positive : (f : PlainFormat) → 0 < plain_bytes f
plain_positive one_byte = omega arith
plain_positive two_bytes = omega arith
plain_positive three_bytes = omega arith

packed_positive : (f : PackedFormat) → 0 < packed_bytes f
packed_positive single = omega arith
packed_positive ten_bits = omega arith
packed_positive fourteen_bits = omega arith
packed_positive eighteen_bits = omega arith

module _ (f : PlainFormat) (rest : List ℕ) where
  raw_literals-plain :
      (literals : List ℕ)
      → length literals < plain_limit f
      → let n = plain_number f 0 (length literals) in
        raw_literals (n % 256) (le_bytes (plain_bytes f) n ++ (literals ++ rest)) ≡ ok literals
  unfolding raw_literals ◌>>=◌ ◌>>◌ refuse
  raw_literals-plain literals h =
      let n = plain_number f 0 (length literals) in
      rw
        (
          read_raw_rle_size-plain_number f 0 (length literals) (literals ++ rest) (omega arith) h,
          room (plain_bytes f) n (plain_positive f) literals rest,
        )
        (cut (plain_bytes f) n (plain_positive f) literals rest)

  rle_literals-plain :
      (count byte : ℕ)
      → count < plain_limit f
      → let n = plain_number f 1 count in
        rle_literals (n % 256) (le_bytes (plain_bytes f) n ++ (byte ∷ rest))
        ≡ ok (replicate count byte)
  unfolding rle_literals ◌>>=◌ ◌>>◌ refuse
  rle_literals-plain count byte h =
      let n = plain_number f 1 count in
      let k = length-le_bytes (plain_bytes f) n in
      let p = plain_positive f in
      rw (
        read_raw_rle_size-plain_number f 1 count (byte ∷ rest) (omega arith) h,
        gt→leb (length (le_bytes (plain_bytes f) n ++ (byte ∷ rest))) (1 + (plain_bytes f - 1))
            (omega (arith, length-append (le_bytes (plain_bytes f) n) (byte ∷ rest))),
        index-append (le_bytes (plain_bytes f) n) rest byte (1 + (plain_bytes f - 1)) (omega arith),
      )

packed_streams :
    (f : PackedFormat) (size packed : ℕ)
    → (if packed_number f size packed % 256 / 2 ^ 2 % 2 ^ 2 == 0 then 1 else 4) ≡ streams f
packed_streams single size packed = ground arith
packed_streams ten_bits size packed = ground arith
packed_streams fourteen_bits size packed = ground arith
packed_streams eighteen_bits size packed = ground arith

module _ (decode_literals : DecodeLiterals) where
  compressed_literals-packed :
      (f : PackedFormat) (size : ℕ) (payload literals rest : List ℕ)
      → size < packed_limit f
      → 0 < length payload
      → length payload < packed_limit f
      → decode_literals payload size (streams f) ≡ some literals
      → let n = packed_number f size (length payload) in
        compressed_literals decode_literals
          (n % 256)
          (le_bytes (packed_bytes f) n ++ (payload ++ rest))
        ≡ ok literals
  unfolding compressed_literals ◌>>=◌ ◌>>◌ refuse
  compressed_literals-packed f size payload literals rest h filled k decodes =
      let n = packed_number f size (length payload) in
      let p = packed_positive f in
      rw (
        read_compressed_size-packed_number f size (length payload) (payload ++ rest) h k,
        ne→== (length payload) 0 (λ e. omega (arith, filled, e)),
        room (packed_bytes f) n p payload rest,
        cut (packed_bytes f) n p payload rest,
        packed_streams f size (length payload),
        decodes,
      )

  by_type :
      (k n : ℕ) (xs : List ℕ)
      → 0 < k
      → extract_literals_from_block decode_literals (le_bytes k n ++ xs)
        ≡ literals_section decode_literals (n % 256) (le_bytes k n ++ xs)
  unfolding extract_literals_from_block ◌>>=◌
  by_type k n xs h =
      let some_byte : length (le_bytes k n ++ xs) ≢ 0 =
        λ e. omega (arith, length-append (le_bytes k n) xs, length-le_bytes k n, h, e) in
      rw (ne→== _ 0 some_byte, header_found k n h xs)

  raw_kind :
      (header : ℕ) (bytes : List ℕ)
      → header % 2 ^ 2 ≡ 0
      → literals_section decode_literals header bytes ≡ raw_literals header bytes
  unfolding literals_section
  raw_kind header bytes e = rw e

  rle_kind :
      (header : ℕ) (bytes : List ℕ)
      → header % 2 ^ 2 ≡ 1
      → literals_section decode_literals header bytes ≡ rle_literals header bytes
  unfolding literals_section
  rle_kind header bytes e = rw e

  compressed_kind :
      (header : ℕ) (bytes : List ℕ)
      → header % 2 ^ 2 ≡ 2
      → literals_section decode_literals header bytes
        ≡ compressed_literals decode_literals header bytes
  unfolding literals_section
  compressed_kind header bytes e = rw e

  -- On a compressed Zstd block that begins with a literals section of the format, raw, RLE or with
  -- its own Huffman tree, in any of the size formats, `extract_literals_from_block` returns the
  -- literals that the section stands for, whatever sequences follow.
  pub extract_literals_from_block-encode_section :
      (section : Section) (literals rest : List ℕ)
      → StandsFor decode_literals section literals
      → extract_literals_from_block decode_literals (encode_section section ++ rest) ≡ ok literals
  unfolding encode_section
  extract_literals_from_block-encode_section (raw_section f _) literals rest (raw_holds h) =
      let n = plain_number f 0 (length literals) in
      rw
        (
          append_assoc,
          by_type (plain_bytes f) n (literals ++ rest) (plain_positive f),
          raw_kind (n % 256) _ (plain_kind f 0 (length literals) (omega arith)),
        )
        (raw_literals-plain f rest literals h)
  extract_literals_from_block-encode_section (rle_section f count byte) literals rest
        (rle_holds h) =
      let n = plain_number f 1 count in
      rw
        (
          append_assoc,
          by_type (plain_bytes f) n (byte ∷ rest) (plain_positive f),
          rle_kind (n % 256) _ (plain_kind f 1 count (omega arith)),
        )
        (rle_literals-plain f rest count byte h)
  extract_literals_from_block-encode_section (huffman_section f size payload) literals rest
        (huffman_holds h filled k decodes) =
      let n = packed_number f size (length payload) in
      rw
        (
          append_assoc,
          by_type (packed_bytes f) n (payload ++ rest) (packed_positive f),
          compressed_kind (n % 256) _ (packed_kind f size (length payload)),
        )
        (compressed_literals-packed f size payload literals rest h filled k decodes)
