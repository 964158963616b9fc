-- ===== src/Gzip/Reader/Refill.antt =====
-- `refill` of src/gzip/bitstream.rs, and the bits that the reader stands for.
use ziftsieve.Base.{
  ℕ, suc, ◌+◌, ◌-◌, ◌*◌, ◌/◌, ◌%◌, ◌^◌, ◌≤◌, ◌<◌, ◌≡◌, refl, ap, ◌∙◌, arith, tests, List, length,
  FitsIsize, Returns, gives, Returns-bind, Returns-if, Returns-refuse, Returns-step,
  Returns-witness, ge→ltb, lt→ltb, err, invalid_data, truncated_bitstream, ◌>>=◌, ◌>>◌,
  Returns-loop_rule, Progress, index-lt, index, ok, index-drop, All-drop, leb, ltb, ◌&&◌,
}
use ziftsieve.Gzip.Bits.{Bytes, value, push-exact, push_small, push_value}
use ziftsieve.Gzip.Reader.{BitReader, refill_round, refill, refill_for}
use ziftsieve.Gzip.Reader.Valid.{Valid, position}

-- The same bits, at the same position.
abbrev pub KeepsBits : List ℕ → BitReader → BitReader → Type 0
KeepsBits bytes r r' = Valid bytes r' × (r'.byte_pos ≡ r.byte_pos) × (r'.bit_pos ≡ r.bit_pos)

module _ (bytes : List ℕ) (h : Bytes bytes) (fits : FitsIsize bytes) where
  -- One byte more in the buffer.
  pull :
      (r : BitReader)
      → Valid bytes r
      → r.bits_in_buffer ≤ 56
      → r.next_byte_to_pull < length bytes
      → (byte : ℕ) → index bytes r.next_byte_to_pull ≡ ok byte
      → Valid bytes (record r {
        buffer = r.buffer + byte * 2 ^ r.bits_in_buffer % 2 ^ 64;
        next_byte_to_pull = (r.next_byte_to_pull + 1) % 2 ^ 64;
        bits_in_buffer = (r.bits_in_buffer + 8) % 2 ^ 8;
      })
  unfolding value
  pull r v room more byte e =
      let d = index-drop bytes r.next_byte_to_pull byte e in
      let b : byte < 256 = (rw d at (All-drop (λ b. b < 256) r.next_byte_to_pull bytes h)).0 in
      let n : (r.next_byte_to_pull + 1) % 2 ^ 64 ≡ suc r.next_byte_to_pull = omega arith in
      let k : (r.bits_in_buffer + 8) % 2 ^ 8 ≡ r.bits_in_buffer + 8 = omega arith in
      rw (n, k, push-exact r.buffer byte r.bits_in_buffer v.small b room)
        record {
          same = v.same;
          whole = v.whole;
          room = omega arith;
          small = push_small r.buffer byte r.bits_in_buffer v.small b room;
          sync = omega (arith, v.sync);
          within = more;
          left = push_value r.buffer byte r.bits_in_buffer v.small b room _ ∙ rw d at v.left;
        }

  -- A full buffer, or no bytes that are left.
  abbrev pub Filled : BitReader → BitReader → Type 0
  Filled r r' =
      KeepsBits bytes r r'
      × (r'.bits_in_buffer ≤ 56 → length bytes ≤ r'.next_byte_to_pull)
      × (r.bits_in_buffer ≤ r'.bits_in_buffer)

  refill_round-Valid :
      (r s : BitReader)
      → KeepsBits bytes r s
      → r.bits_in_buffer ≤ s.bits_in_buffer
      → Returns
          (Progress
            (λ s. KeepsBits bytes r s × (r.bits_in_buffer ≤ s.bits_in_buffer))
            (Filled r)
            (λ s. (71 - s.bits_in_buffer) / 8)
            s)
          (refill_round s)
  unfolding refill_round
  refill_round-Valid r s k more =
      Returns-if (leb s.bits_in_buffer 56 && ltb s.next_byte_to_pull (length s.bytes))
        (λ go.
          let same : s.bytes ≡ bytes = k.0.same in
          let room : s.bits_in_buffer ≤ 56 = ground arith in
          let more_bytes : s.next_byte_to_pull < length s.bytes = ground arith in
          let inside : s.next_byte_to_pull < length bytes = rw same at more_bytes in
          let (byte, e) = index-lt bytes s.next_byte_to_pull inside in
          Returns-step _ (ap (λ xs. index xs s.next_byte_to_pull) same ∙ e)
            (gives (((pull s k.0 room inside byte e, k.1, k.2), omega arith), omega arith)))
        (λ stop.
          let full : s.bits_in_buffer ≤ 56 → length s.bytes ≤ s.next_byte_to_pull =
            λ low. ground arith in
          gives (k, rw k.0.same at full, more))

  pub refill-Valid : (r : BitReader) → Valid bytes r → Returns (Filled r) (refill r)
  unfolding refill
  refill-Valid r v =
      Returns-loop_rule (λ s. KeepsBits bytes r s × (r.bits_in_buffer ≤ s.bits_in_buffer))
        (Filled r) (λ s. (71 - s.bits_in_buffer) / 8) refill_round
        (λ s k. refill_round-Valid r s k.0 k.1) 9 r (omega arith) ((v, refl, refl), omega arith)

  pub refill_for-Valid :
      (r : BitReader) (bits : ℕ)
      → Valid bytes r
      → bits ≤ 32
      → position r + bits ≤ 8 * length bytes
      → Returns (λ r'. KeepsBits bytes r r' × (bits ≤ r'.bits_in_buffer)) (refill_for r bits)
  unfolding refill_for
  refill_for-Valid r bits v few inside =
      Returns-if (ltb r.bits_in_buffer bits)
        (λ _. Returns-bind (refill-Valid r v) λ r' f.
          let enough : bits ≤ r'.bits_in_buffer = grind (arith, f.0.0.sync, f.0.1, f.0.2, f.1) in
          Returns-refuse _ _ (ge→ltb r'.bits_in_buffer bits enough) (gives (f.0, enough)))
        (λ h. gives ((v, refl, refl), omega tests))

  pub refill_for_truncated :
      (r : BitReader) (bits : ℕ)
      → Valid bytes r
      → bits ≤ 32
      → 8 * length bytes < position r + bits
      → refill_for r bits ≡ err (invalid_data r.byte_pos truncated_bitstream)
  unfolding refill_for ◌>>=◌ ◌>>◌
  refill_for_truncated r bits v few outside =
      let low : r.bits_in_buffer < bits = omega (arith, v.sync, v.within) in
      let (r', e, f) = Returns-witness (refill-Valid r v) in
      let low' : r'.bits_in_buffer < bits = omega (arith, f.0.0.sync, f.0.0.within, f.0.1, f.0.2) in
      rw (lt→ltb r.bits_in_buffer bits low, e, lt→ltb r'.bits_in_buffer bits low') refl
