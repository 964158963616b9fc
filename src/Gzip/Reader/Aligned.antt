-- ===== src/Gzip/Reader/Aligned.antt =====
-- The readers of src/gzip/bitstream.rs that stand on a byte boundary: `align_to_byte`, `peek_u8`,
-- `read_u8`, `read_u16_le`, `read_u32_le` and `read_bytes`.
use ziftsieve.Base.{
  ℕ, ◌+◌, ◌-◌, ◌*◌, ◌/◌, ◌%◌, ◌^◌, ◌≤◌, ◌<◌, ◌≡◌, refl, sym, ap, ◌∙◌, arith, tests, List, length,
  take, drop, FitsIsize, saturating_add, not, ltb, Returns, gives, Returns-bind, Returns-if,
  Returns-refuse, Returns-map, Returns-step, ge→ltb, gt→leb, ◌==◌, slice, slice_lem, ok,
  if◌then◌else◌, ap₂,
}
use ziftsieve.Gzip.Bits.{Bytes, value, low_bits, join_bits, skip_add}
use ziftsieve.Gzip.Reader.{
  BitReader, new, refill, Step, read_bits_u8, align_to_byte, peek_u8, read_u8, read_u16_le,
  read_u32_le, read_bytes,
}
use ziftsieve.Gzip.Reader.Valid.{Valid, new-Valid, position}
use ziftsieve.Gzip.Reader.Refill.{KeepsBits, refill-Valid}
use ziftsieve.Gzip.Reader.Read.{bits_at, ReadsBits, read_bits-Valid}

module _ (bytes : List ℕ) (h : Bytes bytes) (fits : FitsIsize bytes) where
  -- `align_to_byte` succeeds on every sound reader of a slice of bytes shorter than 2^63, and
  -- returns a sound reader at the next byte boundary, or where it stands if that is one.
  pub align_to_byte-Valid :
      (r : BitReader)
      → Valid bytes r
      → Returns
          (λ r'. Valid bytes r' × (r'.bit_pos ≡ 0) × (r'.byte_pos ≡ (position r + 7) / 8))
          (align_to_byte r)
  unfolding align_to_byte
  align_to_byte-Valid r v =
      Returns-if (not (r.bit_pos == 0))
        (λ between.
          let inner : 0 < r.bit_pos = ground arith in
          Returns-bind
            (read_bits-Valid bytes h fits r (8 - r.bit_pos) v (omega arith)
              (omega (arith, v.whole, v.sync, v.within)))
            λ s k.
              gives (
                k.1,
                omega (arith, k.1.whole, k.2, v.whole),
                omega (arith, k.1.whole, k.2, v.whole),
              ))
        (λ at_byte.
          let zero_bits : r.bit_pos ≡ 0 = ground arith in gives (v, zero_bits, omega arith))

  read_bits_u8-Valid :
      (r : BitReader)
      → Valid bytes r
      → position r + 8 ≤ 8 * length bytes
      → Returns (ReadsBits bytes (position r) 8) (read_bits_u8 r 8)
  unfolding read_bits_u8
  read_bits_u8-Valid r v inside =
      Returns-bind (read_bits-Valid bytes h fits r 8 v (omega arith) inside)
        λ s k. Returns-refuse _ _ (gt→leb 256 s.value (omega (arith, k.0))) (gives k)

  -- Reads from a byte boundary to a byte boundary.
  abbrev pub ReadsBytes : ℕ → ℕ → Step ℕ → Type 0
  ReadsBytes pos bits s = ReadsBits bytes pos bits s × (s.reader.bit_pos ≡ 0)

  -- With a byte left, `read_u8` returns the byte at the position.
  pub read_u8-Valid :
      (r : BitReader)
      → Valid bytes r
      → r.bit_pos ≡ 0
      → r.byte_pos + 1 ≤ length bytes
      → Returns (ReadsBytes (position r) 8) (read_u8 r)
  unfolding read_u8
  read_u8-Valid r v at_byte inside = Returns-refuse _ _ (ground arith) (
      Returns-map (λ s k. (k, omega (arith, k.1.whole, k.2)))
        (read_bits_u8-Valid r v (omega arith)))

  -- Two reads make one.
  two_reads :
      (pos a b : ℕ) (lo hi : Step ℕ)
      → ReadsBytes pos a lo
      → ReadsBytes (position lo.reader) b hi
      → ReadsBytes pos (a + b) (record { value = lo.value + 2 ^ a * hi.value; reader = hi.reader })
  two_reads pos a b lo hi k l = (
    (
      rw (k.0.0, l.0.0, k.0.2, ← skip_add (value bytes) pos a)
          (join_bits (value bytes / 2 ^ pos) a b),
      l.0.1,
      omega (arith, k.0.2, l.0.2),
    ),
    l.1,
  )

  read_u16_le-Valid :
      (r : BitReader)
      → Valid bytes r
      → r.bit_pos ≡ 0
      → r.byte_pos + 2 ≤ length bytes
      → Returns (ReadsBytes (position r) 16) (read_u16_le r)
  unfolding read_u16_le
  read_u16_le-Valid r v at_byte inside =
      Returns-bind (read_u8-Valid r v at_byte (omega arith)) λ lo k.
        Returns-bind (read_u8-Valid lo.reader k.0.1 k.1 (omega (arith, k.0.2, k.1)))
          λ hi l. gives (two_reads (position r) 8 8 lo hi k l)

  -- On a byte boundary of a slice of bytes shorter than 2^63, with four bytes left, `read_u32_le`
  -- on a sound reader returns the 32 bits of the slice at the position as a number, and a sound
  -- reader behind them on a byte boundary.
  pub read_u32_le-Valid :
      (r : BitReader)
      → Valid bytes r
      → r.bit_pos ≡ 0
      → r.byte_pos + 4 ≤ length bytes
      → Returns (λ s. ReadsBits bytes (position r) 32 s × (s.reader.bit_pos ≡ 0)) (read_u32_le r)
  unfolding read_u32_le
  read_u32_le-Valid r v at_byte inside =
      Returns-bind (read_u16_le-Valid r v at_byte (omega arith)) λ lo k.
        Returns-bind (read_u16_le-Valid lo.reader k.0.1 k.1 (omega (arith, k.0.2, k.1)))
          λ hi l. gives (two_reads (position r) 16 16 lo hi k l)

  -- The reader with eight bits in its buffer.
  filled_byte :
      (r : BitReader)
      → Valid bytes r
      → r.bit_pos ≡ 0
      → r.byte_pos + 1 ≤ length bytes
      → Returns
          (λ r'. KeepsBits bytes r r' × (8 ≤ r'.bits_in_buffer))
          (if ltb r.bits_in_buffer 8 then refill r else ok r)
  filled_byte r v at_byte inside =
      Returns-if (ltb r.bits_in_buffer 8)
        (λ _.
          Returns-map (λ r' f. (f.0, grind (arith, f.0.0.sync, f.0.1, f.0.2, f.1)))
            (refill-Valid bytes h fits r v))
        (λ many. gives ((v, refl, refl), omega tests))

  -- On a byte boundary of a slice of bytes shorter than 2^63, with a byte left, `peek_u8` on a
  -- sound reader returns the byte at the position and a sound reader that stands at the same
  -- position.
  pub peek_u8-Valid :
      (r : BitReader)
      → Valid bytes r
      → r.bit_pos ≡ 0
      → r.byte_pos + 1 ≤ length bytes
      → Returns
          (λ s. (s.value ≡ bits_at bytes (position r) 8) × KeepsBits bytes r s.reader)
          (peek_u8 r)
  unfolding peek_u8
  peek_u8-Valid r v at_byte inside = Returns-refuse _ _ (ground arith) (
      Returns-bind (filled_byte r v at_byte inside) λ r' k.
        let unread : ℕ = value (drop r'.next_byte_to_pull bytes) in
        let same : position r' ≡ position r = omega (arith, k.0.1, k.0.2) in
        let byte : r'.buffer % 2 ^ 8 ≡ bits_at bytes (position r') 8 =
          sym (low_bits r'.buffer unread r'.bits_in_buffer 8 k.1)
          ∙ ap (λ n. n % 2 ^ 8) k.0.0.left in
        Returns-refuse _ _ (ge→ltb r'.bits_in_buffer 8 k.1) (gives (rw same at byte, k.0)))

  -- On a byte boundary of a slice of bytes shorter than 2^63, with `count` bytes left, `read_bytes`
  -- on a sound reader returns the bytes of the slice at the position, whatever the buffer holds,
  -- and a sound reader `count` bytes further.
  pub read_bytes-Valid :
      (r : BitReader) (count : ℕ)
      → Valid bytes r
      → r.bit_pos ≡ 0
      → r.byte_pos + count ≤ length bytes
      → Returns
          (λ s.
            (s.value ≡ take count (drop r.byte_pos bytes))
            × Valid bytes s.reader
            × (position s.reader ≡ position r + 8 * count))
          (read_bytes r count)
  unfolding read_bytes
  read_bytes-Valid r count v at_byte inside =
      let end : ℕ = r.byte_pos + count in
      let exact : saturating_add r.byte_pos count ≡ end = omega arith in
      let bound : length r.bytes ≡ length bytes = ap length v.same in
      let cut : end - r.byte_pos ≡ count = omega arith in
      let run : slice r.bytes r.byte_pos end ≡ ok (take count (drop r.byte_pos bytes)) =
        slice_lem r.bytes r.byte_pos end (omega arith) (omega arith)
        ∙ ap₂ (λ n xs. ok (take n (drop r.byte_pos xs))) cut v.same in
      rw exact (
        Returns-refuse _ _ (ground arith) (
          Returns-refuse _ _ (ge→ltb (length r.bytes) end (omega arith))
            (Returns-step _ run (gives (refl, moved r.bytes end v.same inside, omega arith)))))
    where
      moved : (xs : List ℕ) (end : ℕ) → xs ≡ bytes → end ≤ length bytes → Valid bytes (new xs end)
      moved xs end e l = rw e (new-Valid bytes end h l)
