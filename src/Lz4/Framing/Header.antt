-- ===== src/Lz4/Framing/Header.antt =====
-- `parse_frame_header` of src/lz4.rs on headers of the format.
use ziftsieve.Base.{
  bit, bit-lt, has_bit-bit, ℕ, ◌+◌, ◌*◌, ◌/◌, ◌%◌, ◌≡◌, refl, arith, List, [], ◌∷◌, ◌++◌, length,
  Bool, true, false, has_bit, if◌then◌else◌, ok, ◌>>=◌, ◌>>◌, refuse, index, gt→leb, ge→ltb, ne→==,
  length-append,
}
use ziftsieve.Lz4.{has_magic, descriptor_end, parse_frame_header}
use ziftsieve.Lz4.Framing.{Descriptor, IsDescriptor, flags, encode_descriptor}

-- The header.
module _ (d : Descriptor) (v : IsDescriptor d) (rest : List ℕ) where
  size_bit : has_bit (flags d) 3 ≡ d.has_size
  size_bit =
      has_bit-bit _ d.has_size
        (omega (arith, bit-lt d.has_checksum, bit-lt d.has_size, bit-lt d.independent))

  no_dictionary : has_bit (flags d) 0 ≡ false
  no_dictionary = has_bit-bit _ false (omega arith)

  version : flags d / 64 % 4 ≡ 1
  version = omega (arith, bit-lt d.has_checksum, bit-lt d.has_size, bit-lt d.independent)

  eight_if : (b : Bool) → (if b then 8 else 0) ≡ 8 * bit b
  eight_if true = refl
  eight_if false = refl

  pub length-encode_descriptor : length (encode_descriptor d) ≡ 7 + length d.content_size
  unfolding encode_descriptor
  length-encode_descriptor = omega (arith, length-append d.content_size (d.header_checksum ∷ []))

  magic_there : has_magic (encode_descriptor d ++ rest) ≡ true
  unfolding has_magic encode_descriptor
  magic_there = refl

  flags_found : index (encode_descriptor d ++ rest) 4 ≡ ok (flags d)
  unfolding index encode_descriptor
  flags_found = refl

  descriptor_end_lem : descriptor_end (flags d) + 1 ≡ length (encode_descriptor d)
  unfolding descriptor_end
  descriptor_end_lem =
      rw (size_bit, no_dictionary, eight_if d.has_size) (omega (arith, v, length-encode_descriptor))

  pub parse_frame_header-encode_descriptor :
      parse_frame_header (encode_descriptor d ++ rest) ≡ ok (length (encode_descriptor d))
  unfolding parse_frame_header ◌>>=◌ ◌>>◌ refuse
  parse_frame_header-encode_descriptor =
      let bytes = encode_descriptor d ++ rest in
      let whole = length-append (encode_descriptor d) rest in
      let header = length-encode_descriptor in
      rw (
        ne→== (length bytes) 0 (λ e. omega (arith, e, whole, header)),
        magic_there,
        ge→ltb (length bytes) 7 (omega arith),
        flags_found,
        version,
        gt→leb (length bytes) (descriptor_end (flags d)) (omega (arith, whole, descriptor_end_lem)),
        descriptor_end_lem,
      )
