-- ===== src/Gzip/Reader/StandsAt.antt =====
-- Reading whole bytes with a `BitReader`, in terms of the bytes that are left.
use ziftsieve.Base.{
  ℕ, suc, ◌+◌, ◌-◌, ◌*◌, ◌/◌, ◌^◌, ◌≤◌, ◌<◌, ◌≡◌, refl, ◌∙◌, ap, take, take-append, arith, List, [],
  ◌∷◌, ◌++◌, length, drop, FitsIsize, All-drop, Returns, gives, Returns-bind, Returns-map,
  rest_bound, rest-run, length-append,
}
use ziftsieve.Gzip.Bits.{Bytes, value, value-drop}
use ziftsieve.Gzip.Reader.{
  BitReader, new, peek_u8, read_u8, read_u16_le, read_u32_le, align_to_byte, read_bytes, skip_bytes,
}
use ziftsieve.Gzip.Reader.Valid.{Valid, new-Valid, position}
use ziftsieve.Gzip.Reader.Read.{bits_at}
use ziftsieve.Gzip.Reader.Aligned.{
  align_to_byte-Valid, read_u8-Valid, peek_u8-Valid, read_bytes-Valid,
}

-- The reader is sound and stands on a byte boundary, before `ys`.
pub record StandsAt (bytes ys : List ℕ) (r : BitReader) : Type 0 where
  pub valid : Valid bytes r
  pub at_byte : r.bit_pos ≡ 0
  pub left : drop r.byte_pos bytes ≡ ys

pub new-StandsAt : (bytes : List ℕ) → Bytes bytes → StandsAt bytes bytes (new bytes 0)
new-StandsAt bytes h = record {
  valid = new-Valid bytes 0 h (omega arith);
  at_byte = refl;
  left = refl;
}

module _ (bytes : List ℕ) (h : Bytes bytes) (fits : FitsIsize bytes) where
  pub byte_at :
      (r : BitReader) (b : ℕ) (ys : List ℕ)
      → StandsAt bytes (b ∷ ys) r
      → bits_at bytes (position r) 8 ≡ b
  unfolding value
  byte_at r b ys s =
      let small : b < 256 = (rw s.left at (All-drop (λ b. b < 256) r.byte_pos bytes h)).0 in
      let rest : b + 256 * value ys ≡ value bytes / 2 ^ (8 * r.byte_pos) =
        rw s.left at (value-drop r.byte_pos bytes h) in
      let here : position r ≡ 8 * r.byte_pos = omega (arith, s.at_byte) in
      rw (here, ← rest) (omega arith)

  pub room :
      (r : BitReader) (b : ℕ) (ys : List ℕ)
      → StandsAt bytes (b ∷ ys) r
      → r.byte_pos + 1 ≤ length bytes
  room r b ys s =
      let l : length bytes - r.byte_pos ≡ suc (length ys) = rest_bound bytes r.byte_pos _ s.left in
      omega arith

  -- A sound reader that is so many bytes further.
  pub behind :
      (r r' : BitReader) (xs ys : List ℕ)
      → StandsAt bytes (xs ++ ys) r
      → Valid bytes r'
      → position r' ≡ position r + 8 * length xs
      → StandsAt bytes ys r'
  behind r r' xs ys s v e =
      let further : r'.byte_pos ≡ r.byte_pos + length xs = omega (arith, v.whole, s.at_byte) in
      record {
        valid = v;
        at_byte = omega (arith, v.whole, s.at_byte);
        left = rw further (rest-run bytes r.byte_pos xs ys s.left);
      }

  pub read_u8-StandsAt :
      (r : BitReader) (b : ℕ) (ys : List ℕ)
      → StandsAt bytes (b ∷ ys) r
      → Returns (λ s. (s.value ≡ b) × StandsAt bytes ys s.reader) (read_u8 r)
  read_u8-StandsAt r b ys s =
      Returns-map
        (λ t k.
          (k.0.0 ∙ byte_at r b ys s, behind r t.reader (b ∷ []) ys s k.0.1 (omega (arith, k.0.2))))
        (read_u8-Valid bytes h fits r s.valid s.at_byte (room r b ys s))

  pub peek_u8-StandsAt :
      (r : BitReader) (b : ℕ) (ys : List ℕ)
      → StandsAt bytes (b ∷ ys) r
      → Returns (λ s. (s.value ≡ b) × StandsAt bytes (b ∷ ys) s.reader) (peek_u8 r)
  peek_u8-StandsAt r b ys s =
      Returns-map
        (λ t k. (
          k.0 ∙ byte_at r b ys s,
          record { valid = k.1.0; at_byte = k.1.2 ∙ s.at_byte; left = rw k.1.1 s.left },
        ))
        (peek_u8-Valid bytes h fits r s.valid s.at_byte (room r b ys s))

  pub read_u16_le-StandsAt :
      (r : BitReader) (a b : ℕ) (ys : List ℕ)
      → StandsAt bytes (a ∷ b ∷ ys) r
      → Returns (λ s. (s.value ≡ a + 256 * b) × StandsAt bytes ys s.reader) (read_u16_le r)
  unfolding read_u16_le
  read_u16_le-StandsAt r a b ys s = Returns-bind (read_u8-StandsAt r a (b ∷ ys) s) λ lo k.
      Returns-bind (read_u8-StandsAt lo.reader b ys k.1)
        λ hi l. gives (omega (arith, k.0, l.0), l.1)

  pub read_u32_le-StandsAt :
      (r : BitReader) (a b c d : ℕ) (ys : List ℕ)
      → StandsAt bytes (a ∷ b ∷ c ∷ d ∷ ys) r
      → Returns
          (λ s. (s.value ≡ a + 256 * b + 65536 * (c + 256 * d)) × StandsAt bytes ys s.reader)
          (read_u32_le r)
  unfolding read_u32_le
  read_u32_le-StandsAt r a b c d ys s =
      Returns-bind (read_u16_le-StandsAt r a b (c ∷ d ∷ ys) s) λ lo k.
        Returns-bind (read_u16_le-StandsAt lo.reader c d ys k.1)
          λ hi l. gives (omega (arith, k.0, l.0), l.1)

  pub align_to_byte-StandsAt :
      (r : BitReader) (ys : List ℕ)
      → StandsAt bytes ys r
      → Returns (StandsAt bytes ys) (align_to_byte r)
  align_to_byte-StandsAt r ys s =
      Returns-map (λ r' k. behind r r' [] ys s k.0 (omega (arith, k.1, k.2, s.at_byte)))
        (align_to_byte-Valid bytes h fits r s.valid)

  pub read_bytes-StandsAt :
      (r : BitReader) (xs ys : List ℕ) (count : ℕ)
      → StandsAt bytes (xs ++ ys) r
      → count ≡ length xs
      → Returns (λ s. (s.value ≡ xs) × StandsAt bytes ys s.reader) (read_bytes r count)
  read_bytes-StandsAt r xs ys count s e =
      Returns-map
        (λ t k. (
          k.0 ∙ ap (λ zs. take count zs) s.left ∙ ap (λ n. take n (xs ++ ys)) e ∙ take-append xs ys,
          behind r t.reader xs ys s k.1 (omega (arith, k.2, e)),
        ))
        (read_bytes-Valid bytes h fits r count s.valid s.at_byte (
          omega (
            arith,
            e,
            rest_bound bytes r.byte_pos _ s.left,
            length-append xs ys,
            s.valid.sync,
            s.valid.within,
          )))

  pub skip_bytes-StandsAt :
      (r : BitReader) (xs ys : List ℕ) (count : ℕ)
      → StandsAt bytes (xs ++ ys) r
      → count ≡ length xs
      → Returns (StandsAt bytes ys) (skip_bytes r count)
  unfolding skip_bytes
  skip_bytes-StandsAt r xs ys count s e =
      Returns-bind
        (read_bytes-Valid bytes h fits r count s.valid s.at_byte (
          omega (
            arith,
            rest_bound bytes r.byte_pos _ s.left,
            length-append xs ys,
            s.valid.sync,
            s.valid.within,
          )))
        λ t k. gives (behind r t.reader xs ys s k.1 (omega (arith, k.2)))
