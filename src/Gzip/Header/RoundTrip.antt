-- ===== src/Gzip/Header/RoundTrip.antt =====
-- `parse_gzip_header` of src/gzip/header.rs on headers of the format.
use ziftsieve.Base.{
  ℕ, zero, suc, ◌+◌, ◌/◌, ◌%◌, ◌^◌, ◌≤◌, ◌<◌, ◌≡◌, refl, ap, arith, List, [], ◌∷◌, ◌++◌, length,
  All, FitsIsize, Option, none, some, append_assoc, false, ◌==◌, has_bit, Returns, gives,
  Returns-bind, Returns-refuse, Returns-if, Returns-loop, onward, ended, loop, ge→ltb, rest_bound,
}
use ziftsieve.Gzip.Bits.{Bytes}
use ziftsieve.Gzip.Reader.{BitReader, remaining_bytes}
use ziftsieve.Gzip.Reader.StandsAt.{
  StandsAt, read_u8-StandsAt, peek_u8-StandsAt, read_u16_le-StandsAt, skip_bytes-StandsAt,
}
use ziftsieve.Gzip.Header.{
  max_header_field_len, FieldScan, field_round, skip_zero_terminated, skip_extra, skip_text,
  skip_crc, parse_gzip_extra_fields, expect_magic, parse_gzip_header,
}
use ziftsieve.Gzip.Header.Format.{
  Header, present, flags, encode_extra, encode_text, encode_crc, encode_header, FitsExtra, FitsText,
  FitsHeader,
}

module _ (bytes : List ℕ) (h : Bytes bytes) (fits : FitsIsize bytes) where
  field_loop :
      (xs ys : List ℕ) (s : FieldScan) (fuel : ℕ)
      → StandsAt bytes (xs ++ 0 ∷ ys) s.reader
      → All (λ b. 0 < b) xs
      → s.count + length xs ≤ max_header_field_len
      → length xs < fuel
      → Returns (StandsAt bytes ys) (loop fuel field_round s)
  unfolding field_round
  field_loop xs ys s zero at_text text l f = absurd (omega arith)
  field_loop [] ys s (suc fuel) at_text text l f = Returns-loop s (
      Returns-refuse _ _ (ge→ltb max_header_field_len s.count (omega arith)) (
        Returns-bind (read_u8-StandsAt bytes h fits s.reader 0 ys at_text)
          λ t k. gives (rw k.0 (ended k.1))))
  field_loop (x ∷ xs) ys s (suc fuel) at_text text l f = Returns-loop s (
      Returns-refuse _ _ (ge→ltb max_header_field_len s.count (omega arith)) (
        Returns-bind (read_u8-StandsAt bytes h fits s.reader x (xs ++ 0 ∷ ys) at_text) λ t k.
          let more : (t.value == 0) ≡ false = ground (arith, k.0, text.0) in
          gives (
            rw more (
              onward (
                field_loop xs ys (record { count = s.count + 1; reader = t.reader }) fuel k.1 text.1
                  (omega arith) (omega arith))))))

  skip_extra-StandsAt :
      (o : Option (List ℕ)) (ys : List ℕ) (r : BitReader) (n : ℕ)
      → StandsAt bytes (encode_extra o ++ ys) r
      → FitsExtra o
      → n / 2 ^ 2 % 2 ≡ present o
      → Returns (StandsAt bytes ys) (skip_extra r n)
  unfolding skip_extra
  skip_extra-StandsAt none ys r n s fit e =
      Returns-if (has_bit n 2) (λ set. absurd (ground arith)) (λ _. gives s)
  skip_extra-StandsAt (some xs) ys r n s fit e =
      Returns-if (has_bit n 2)
        (λ _.
          Returns-bind (read_u16_le-StandsAt bytes h fits r _ _ (xs ++ ys) s)
            λ t k. skip_bytes-StandsAt bytes h fits t.reader xs ys t.value k.1 (omega (arith, k.0)))
        (λ unset. absurd (ground arith))

  skip_text-StandsAt :
      (o : Option (List ℕ)) (ys : List ℕ) (r : BitReader) (n bit : ℕ)
      → StandsAt bytes (encode_text o ++ ys) r
      → FitsText o
      → n / 2 ^ bit % 2 ≡ present o
      → Returns (StandsAt bytes ys) (skip_text r n bit)
  unfolding skip_text skip_zero_terminated
  skip_text-StandsAt none ys r n bit s fit e =
      Returns-if (has_bit n bit) (λ set. absurd (ground arith)) (λ _. gives s)
  skip_text-StandsAt (some xs) ys r n bit s fit e =
      Returns-if (has_bit n bit)
        (λ _.
          field_loop xs ys _ _ (rw append_assoc at s) fit.0 (omega (arith, fit.1))
            (omega (arith, fit.1)))
        (λ unset. absurd (ground arith))

  skip_crc-StandsAt :
      (o : Option (ℕ × ℕ)) (ys : List ℕ) (r : BitReader) (n : ℕ)
      → StandsAt bytes (encode_crc o ++ ys) r
      → n / 2 ^ 1 % 2 ≡ present o
      → Returns (StandsAt bytes ys) (skip_crc r n)
  unfolding skip_crc
  skip_crc-StandsAt none ys r n s e =
      Returns-if (has_bit n 1) (λ set. absurd (ground arith)) (λ _. gives s)
  skip_crc-StandsAt (some (a, b)) ys r n s e =
      Returns-if (has_bit n 1) (λ _. skip_bytes-StandsAt bytes h fits r (a ∷ b ∷ []) ys 2 s refl)
        (λ unset. absurd (ground arith))

  expect_magic-StandsAt :
      (r : BitReader) (b : ℕ) (ys : List ℕ)
      → StandsAt bytes (b ∷ ys) r
      → Returns (StandsAt bytes ys) (expect_magic r b)
  unfolding expect_magic
  expect_magic-StandsAt r b ys s = Returns-bind (peek_u8-StandsAt bytes h fits r b ys s) λ t k.
      Returns-refuse _ _ (ground (arith, k.0))
        (Returns-bind (read_u8-StandsAt bytes h fits t.reader b ys k.1) λ u l. gives l.1)

present_bound : {A : Type 0} (o : Option A) → present o ≤ 1
present_bound none = omega arith
present_bound (some x) = omega arith

-- The bits of the flags.
flag_bits :
    (hd : Header)
    → (flags hd / 2 ^ 1 % 2 ≡ present hd.crc)
      × (flags hd / 2 ^ 2 % 2 ≡ present hd.extra)
      × (flags hd / 2 ^ 3 % 2 ≡ present hd.name)
      × (flags hd / 2 ^ 4 % 2 ≡ present hd.comment)
      × (flags hd / 2 ^ 5 % 2 ^ 3 ≡ 0)
flag_bits hd =
    let t = present_bound hd.is_text in
    let c = present_bound hd.crc in
    let e = present_bound hd.extra in
    let n = present_bound hd.name in
    let m = present_bound hd.comment in
    (omega arith, omega arith, omega arith, omega arith, omega arith)

pub length-encode_header : (hd : Header) (rest : List ℕ) → 10 ≤ length (encode_header hd rest)
unfolding encode_header
length-encode_header hd rest = omega arith

module _ (bytes : List ℕ) (h : Bytes bytes) (fits : FitsIsize bytes) (hd : Header) where
  parse_gzip_extra_fields-StandsAt :
      (rest : List ℕ) (r : BitReader)
      → StandsAt bytes
          (encode_extra hd.extra
            ++ (encode_text hd.name ++ (encode_text hd.comment ++ (encode_crc hd.crc ++ rest))))
          r
      → FitsHeader hd
      → Returns (StandsAt bytes rest) (parse_gzip_extra_fields r (flags hd))
  unfolding parse_gzip_extra_fields
  parse_gzip_extra_fields-StandsAt rest r s fit =
      let bits = flag_bits hd in
      Returns-bind (skip_extra-StandsAt bytes h fits hd.extra _ r (flags hd) s fit.0 bits.1)
        λ r₁ s₁.
          Returns-bind (skip_text-StandsAt bytes h fits hd.name _ r₁ (flags hd) 3 s₁ fit.1 bits.2)
            λ r₂ s₂.
              Returns-bind
                (skip_text-StandsAt bytes h fits hd.comment _ r₂ (flags hd) 4 s₂ fit.2 bits.3)
                λ r₃ s₃. skip_crc-StandsAt bytes h fits hd.crc rest r₃ (flags hd) s₃ bits.0

  -- `parse_gzip_header` on a sound reader that stands before the header of a member, with any
  -- fields present, returns a sound reader that stands just behind it, if the extra data has a
  -- length of 16 bits, the name and the comment have at most 1024 bytes and no zero, and the slice
  -- is shorter than 2^63 bytes.
  pub parse_gzip_header-StandsAt :
      (rest : List ℕ) (r : BitReader)
      → FitsHeader hd
      → StandsAt bytes (encode_header hd rest) r
      → Returns (StandsAt bytes rest) (parse_gzip_header r)
  unfolding parse_gzip_header encode_header
  parse_gzip_header-StandsAt rest r fit s =
      let ten : 10 ≤ remaining_bytes r = omega (
        arith,
        rest_bound bytes r.byte_pos _ s.left,
        length-encode_header hd rest,
        ap length s.valid.same,
        s.valid.sync,
        s.at_byte,
        s.valid.within,
        s.valid.room,
      ) in
      let bits = flag_bits hd in
      Returns-refuse _ _ (ground (arith, s.at_byte)) (
        Returns-refuse _ _ (ge→ltb (remaining_bytes r) 10 ten) (
          Returns-bind (expect_magic-StandsAt bytes h fits r _ _ s) λ r₁ s₁.
            Returns-bind (expect_magic-StandsAt bytes h fits r₁ _ _ s₁) λ r₂ s₂.
              Returns-bind (read_u8-StandsAt bytes h fits r₂ _ _ s₂) λ method s₃.
                Returns-refuse _ _ (ground (arith, s₃.0)) (
                  Returns-bind (read_u8-StandsAt bytes h fits method.reader _ _ s₃.1) λ f s₄.
                    Returns-refuse _ _ (ground (arith, s₄.0, bits.4)) (
                      Returns-bind
                        (skip_bytes-StandsAt bytes h fits f.reader
                          (hd.m0 ∷ hd.m1 ∷ hd.m2 ∷ hd.m3 ∷ []) _ 4 s₄.1 refl)
                        λ r₅ s₅. Returns-bind (read_u8-StandsAt bytes h fits r₅ _ _ s₅) λ xfl s₆.
                          Returns-bind (read_u8-StandsAt bytes h fits xfl.reader _ _ s₆.1) λ os s₇.
                            rw s₄.0 (parse_gzip_extra_fields-StandsAt rest os.reader s₇.1 fit)))))
