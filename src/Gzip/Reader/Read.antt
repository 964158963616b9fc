-- ===== src/Gzip/Reader/Read.antt =====
-- `read_bits` of src/gzip/bitstream.rs, against the bits of the slice at the position.
use ziftsieve.Base.{
  ℕ, ◌+◌, ◌-◌, ◌*◌, ◌/◌, ◌%◌, ◌^◌, ◌≤◌, ◌<◌, ◌≡◌, refl, sym, ap, ◌∙◌, arith, List, length, drop,
  FitsIsize, saturating_add, Returns, gives, Returns-bind, Returns-if, Returns-refuse, ge→ltb, err,
  invalid_data, truncated_bitstream, ◌>>=◌, ◌>>◌, ◌==◌, ltb, false,
}
use native.Mathlib.Nat.{mod-one, mod-lt, mod-eq_of_lt, pow-le-pow_right, one-le-pow}
use ziftsieve.Gzip.Bits.{Bytes, value, low_bits, high_bits, fewer_bits, skip_add}
use ziftsieve.Gzip.Reader.{BitReader, Step, take_bits, read_bits}
use ziftsieve.Gzip.Reader.Valid.{Valid, position}
use ziftsieve.Gzip.Reader.Refill.{refill_for-Valid, refill_for_truncated}

low_word : (x bits : ℕ) → bits ≤ 32 → x % 2 ^ bits % 2 ^ 32 ≡ x % 2 ^ bits
low_word x bits few =
    let top : 2 ^ bits ≤ 2 ^ 32 = pow-le-pow_right (omega arith) few in
    let below : x % 2 ^ bits < 2 ^ bits = mod-lt x (one-le-pow bits 2 (omega arith)) in
    mod-eq_of_lt (omega arith)

-- `n` bits from bit `pos` on, as a number.
abbrev pub bits_at : List ℕ → ℕ → ℕ → ℕ
bits_at bytes pos n = value bytes / 2 ^ pos % 2 ^ n

-- A step read `bits` bits from bit `pos` on.
abbrev pub ReadsBits : List ℕ → ℕ → ℕ → Step ℕ → Type 0
ReadsBits bytes pos bits s =
    (s.value ≡ bits_at bytes pos bits) × Valid bytes s.reader × (position s.reader ≡ pos + bits)

module _ (bytes : List ℕ) (h : Bytes bytes) (fits : FitsIsize bytes) where
  take_bits-ReadsBits :
      (r : BitReader) (bits : ℕ)
      → Valid bytes r
      → bits ≤ 32
      → bits ≤ r.bits_in_buffer
      → ReadsBits bytes (position r) bits (take_bits r bits)
  unfolding take_bits
  take_bits-ReadsBits r bits v few enough =
      let unread : ℕ = value (drop r.next_byte_to_pull bytes) in
      let moved : saturating_add r.byte_pos ((r.bit_pos + bits) / 8)
          ≡ r.byte_pos + (r.bit_pos + bits) / 8 =
        omega (arith, v.sync, v.within) in
      let at_bit : 8 * (r.byte_pos + (r.bit_pos + bits) / 8) + (r.bit_pos + bits) % 8
          ≡ position r + bits =
        omega arith in
      let low : r.buffer % 2 ^ bits ≡ bits_at bytes (position r) bits =
        sym (low_bits r.buffer unread r.bits_in_buffer bits enough)
        ∙ ap (λ n. n % 2 ^ bits) v.left in
      let high : r.buffer / 2 ^ bits + 2 ^ (r.bits_in_buffer - bits) * unread
          ≡ value bytes / 2 ^ (position r + bits) =
        sym (high_bits r.buffer unread r.bits_in_buffer bits enough)
        ∙ ap (λ n. n / 2 ^ bits) v.left
        ∙ skip_add (value bytes) (position r) bits in
      (
        low_word (r.buffer) bits few ∙ low,
        rw moved record {
          same = v.same;
          whole = omega arith;
          room = omega (arith, v.room);
          small = fewer_bits r.buffer 0 r.bits_in_buffer bits enough v.small;
          sync = omega (arith, v.sync);
          within = v.within;
          left = rw at_bit high;
        },
        rw moved at_bit,
      )

  -- On a slice of bytes shorter than 2^63, a sound bit reader with enough bits left, asked for up
  -- to 32 bits, returns the bits of the slice at its position as a number, least significant first,
  -- and a sound reader behind them, however its buffer is filled.
  pub read_bits-Valid :
      (r : BitReader) (bits : ℕ)
      → Valid bytes r
      → bits ≤ 32
      → position r + bits ≤ 8 * length bytes
      → Returns (ReadsBits bytes (position r) bits) (read_bits r bits)
  unfolding read_bits
  read_bits-Valid r bits v few inside =
      Returns-if (bits == 0)
        (λ none_asked.
          let none_left : bits ≡ 0 = ground arith in
          gives (rw none_left (sym (mod-one (value bytes / 2 ^ position r))), v, omega arith))
        (λ _. Returns-refuse (ltb 32 bits) _ (ge→ltb 32 bits few) (
          Returns-bind (refill_for-Valid bytes h fits r bits v few inside) λ r' k.
            let same : position r' ≡ position r = omega (arith, k.0.1, k.0.2) in
            gives (rw same at (take_bits-ReadsBits r' bits k.0.0 few k.1))))

  -- On a slice of bytes shorter than 2^63, a sound bit reader that is asked for more bits than are
  -- left, up to 32, refuses with a truncated bitstream at its byte position.
  pub read_bits_truncated :
      (r : BitReader) (bits : ℕ)
      → Valid bytes r
      → bits ≤ 32
      → 8 * length bytes < position r + bits
      → read_bits r bits ≡ err (invalid_data r.byte_pos truncated_bitstream)
  unfolding read_bits ◌>>=◌ ◌>>◌
  read_bits_truncated r bits v few outside =
      let some_asked : (bits == 0) ≡ false = ground (arith, v.sync, v.within) in
      rw (some_asked, ge→ltb 32 bits few, refill_for_truncated bytes h fits r bits v few outside)
        refl
