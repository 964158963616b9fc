-- ===== src/Gzip/Reader/Partial.antt =====
-- The readers of src/gzip/bitstream.rs where the bits may be missing: either an error, or a sound
-- reader further on.
use ziftsieve.Base.{
  ℕ, ◌+◌, ◌*◌, ◌/◌, ◌^◌, ◌≤◌, ◌<◌, ◌≡◌, ap, arith, tests, List, length, take, drop, FitsIsize, leb,
  Bool-cases, inl, inr, leb→le, leb→gt, ◌==◌, Ensures, returns, fails, Ensures-bind, Ensures-refuse,
  Ensures-map, Returns-Ensures,
}
use native.Mathlib.Nat.{mod-lt, one-le-pow}
use ziftsieve.Gzip.Bits.{Bytes, value}
use ziftsieve.Gzip.Reader.{
  BitReader, Step, read_bits, read_bits_u8, read_bits_usize, read_bit, align_to_byte, read_u8,
  read_u16_le, read_u32_le, read_bytes, skip_bytes,
}
use ziftsieve.Gzip.Reader.Valid.{Valid, position}
use ziftsieve.Gzip.Reader.Read.{ReadsBits, read_bits-Valid, read_bits_truncated}
use ziftsieve.Gzip.Reader.Aligned.{align_to_byte-Valid, read_bytes-Valid}

-- A reader of the same bytes, not before `r`.
abbrev pub Ahead : List ℕ → BitReader → BitReader → Type 0
Ahead bytes r r' = Valid bytes r' × (position r ≤ position r')

-- A number of `n` bits, and a reader `n` bits further.
abbrev pub Reads : List ℕ → BitReader → ℕ → Step ℕ → Type 0
Reads bytes r n s = (s.value < 2 ^ n) × Valid bytes s.reader × (position s.reader ≡ position r + n)

pub position_bound :
    (bytes : List ℕ) (r : BitReader) → Valid bytes r → position r ≤ 8 * length bytes
position_bound bytes r v = omega (arith, v.sync, v.within)

module _ (bytes : List ℕ) (h : Bytes bytes) (fits : FitsIsize bytes) where
  pub read_bits-ReadsBits :
      (r : BitReader) (bits : ℕ)
      → Valid bytes r
      → bits ≤ 32
      → Ensures (ReadsBits bytes (position r) bits) (read_bits r bits)
  read_bits-ReadsBits r bits v few =
      elim (Bool-cases (leb (position r + bits) (8 * length bytes))) [
        | inl inside ↦
            Returns-Ensures (read_bits-Valid bytes h fits r bits v few (leb→le _ _ inside))
        | inr outside ↦
            rw (read_bits_truncated bytes h fits r bits v few (leb→gt _ _ outside)) fails
      ]

  pub read_bits-Ensures :
      (r : BitReader) (bits : ℕ)
      → Valid bytes r
      → bits ≤ 32
      → Ensures (Reads bytes r bits) (read_bits r bits)
  read_bits-Ensures r bits v few =
      Ensures-map
        (λ s k.
          let below : s.value < 2 ^ bits =
            rw k.0 (mod-lt (value bytes / 2 ^ position r) (one-le-pow bits 2 (omega arith))) in
          (below, k.1, k.2))
        (read_bits-ReadsBits r bits v few)

  pub read_bit-ReadsBits :
      (r : BitReader) → Valid bytes r → Ensures (ReadsBits bytes (position r) 1) (read_bit r)
  unfolding read_bit read_bits_u8
  read_bit-ReadsBits r v =
      Ensures-bind (read_bits-ReadsBits r 1 v (omega arith))
        λ s k. Ensures-refuse _ _ λ _. returns k

  pub read_bits_u8-Ensures :
      (r : BitReader) (bits : ℕ)
      → Valid bytes r
      → bits ≤ 32
      → Ensures (Reads bytes r bits) (read_bits_u8 r bits)
  unfolding read_bits_u8
  read_bits_u8-Ensures r bits v few =
      Ensures-bind (read_bits-Ensures r bits v few) λ s k. Ensures-refuse _ _ λ _. returns k

  pub read_bit-Ensures : (r : BitReader) → Valid bytes r → Ensures (Reads bytes r 1) (read_bit r)
  unfolding read_bit
  read_bit-Ensures r v = read_bits_u8-Ensures r 1 v (omega arith)

  pub read_bits_usize-Ensures :
      (r : BitReader) (bits : ℕ)
      → Valid bytes r
      → bits ≤ 32
      → Ensures (Reads bytes r bits) (read_bits_usize r bits)
  unfolding read_bits_usize
  read_bits_usize-Ensures r bits v few = read_bits-Ensures r bits v few

  pub align_to_byte-Ensures :
      (r : BitReader)
      → Valid bytes r
      → Ensures (λ r'. Ahead bytes r r' × (r'.bit_pos ≡ 0)) (align_to_byte r)
  align_to_byte-Ensures r v =
      Ensures-map (λ r' k. ((k.0, omega (arith, k.1, k.2, v.whole)), k.1))
        (Returns-Ensures (align_to_byte-Valid bytes h fits r v))

  pub read_u8-Ensures : (r : BitReader) → Valid bytes r → Ensures (Reads bytes r 8) (read_u8 r)
  unfolding read_u8
  read_u8-Ensures r v = Ensures-refuse _ _ λ _. read_bits_u8-Ensures r 8 v (omega arith)

  pub read_u16_le-Ensures :
      (r : BitReader) → Valid bytes r → Ensures (Reads bytes r 16) (read_u16_le r)
  unfolding read_u16_le
  read_u16_le-Ensures r v = Ensures-bind (read_u8-Ensures r v) λ lo k.
      Ensures-bind (read_u8-Ensures lo.reader k.1)
        λ hi l. returns (omega (arith, k.0, l.0), l.1, omega (arith, k.2, l.2))

  pub read_u32_le-Ensures :
      (r : BitReader) → Valid bytes r → Ensures (Reads bytes r 32) (read_u32_le r)
  unfolding read_u32_le
  read_u32_le-Ensures r v = Ensures-bind (read_u16_le-Ensures r v) λ lo k.
      Ensures-bind (read_u16_le-Ensures lo.reader k.1)
        λ hi l. returns (omega (arith, k.0, l.0), l.1, omega (arith, k.2, l.2))

  pub read_bytes-Ensures :
      (r : BitReader) (count : ℕ)
      → Valid bytes r
      → Ensures
          (λ s.
            (s.value ≡ take count (drop r.byte_pos bytes))
            × (r.byte_pos + count ≤ length bytes)
            × Valid bytes s.reader
            × (position s.reader ≡ position r + 8 * count))
          (read_bytes r count)
  unfolding read_bytes
  read_bytes-Ensures r count v = elim (Bool-cases (r.bit_pos == 0)) [
    | inl at_byte ↦ elim (Bool-cases (leb (r.byte_pos + count) (length bytes))) [
      | inl inside ↦
          Ensures-map (λ s k. (k.0, leb→le _ _ inside, k.1, k.2))
            (Returns-Ensures
              (read_bytes-Valid bytes h fits r count v (ground arith) (leb→le _ _ inside)))
      | inr outside ↦
          let far : length bytes < r.byte_pos + count = leb→gt _ _ outside in
          Ensures-refuse _ _
            λ _. Ensures-refuse _ _ λ k. absurd (omega (tests, far, ap length v.same))
    ]
    | inr inner ↦ Ensures-refuse _ _ λ k. absurd (ground arith)
  ]

  pub skip_bytes-Ensures :
      (r : BitReader) (count : ℕ) → Valid bytes r → Ensures (Ahead bytes r) (skip_bytes r count)
  unfolding skip_bytes
  skip_bytes-Ensures r count v =
      Ensures-bind (read_bytes-Ensures r count v) λ s k. returns (k.2, omega (arith, k.3))
