-- ===== src/Gzip/Header/Safe.antt =====
-- `parse_gzip_header` of src/gzip/header.rs on any bytes.
use ziftsieve.Base.{
  ℕ, ◌+◌, ◌-◌, ◌≤◌, arith, List, FitsIsize, ltb, ltb→ge, ◌==◌, Bool, true, false, again, done,
  loop_rule, Progress, has_bit, Outcome, if◌then◌else◌, Ensures, returns, Ensures-bind,
  Ensures-refuse, Ensures-map, Ensures-if, Returns-Ensures,
}
use ziftsieve.Gzip.Bits.{Bytes}
use ziftsieve.Gzip.Reader.{BitReader, peek_u8}
use ziftsieve.Gzip.Reader.Valid.{Valid}
use ziftsieve.Gzip.Reader.Refill.{refill-Valid}
use ziftsieve.Gzip.Reader.Partial.{Ahead, read_u8-Ensures, read_u16_le-Ensures, skip_bytes-Ensures}
use ziftsieve.Gzip.Header.{
  max_header_field_len, FieldScan, field_round, skip_zero_terminated, skip_extra, skip_text,
  skip_crc, parse_gzip_extra_fields, expect_magic, parse_gzip_header,
}

module _ (bytes : List ℕ) (h : Bytes bytes) (fits : FitsIsize bytes) where
  peek_u8-Ensures :
      (r : BitReader) → Valid bytes r → Ensures (λ s. Ahead bytes r s.reader) (peek_u8 r)
  unfolding peek_u8
  peek_u8-Ensures r v = Ensures-refuse _ _ λ _.
      Ensures-bind {P = Ahead bytes r}
        (Ensures-if (ltb r.bits_in_buffer 8)
          (λ _.
            Ensures-map (λ r' f. (f.0.0, omega (arith, f.0.1, f.0.2)))
              (Returns-Ensures (refill-Valid bytes h fits r v)))
          (λ _. returns (v, omega arith)))
        λ filled k. Ensures-refuse _ _ λ _. returns k

  -- Onward from a reader that is further on.
  onward :
      {m : Outcome BitReader} (r r' : BitReader)
      → Ahead bytes r r'
      → Ensures (Ahead bytes r') m
      → Ensures (Ahead bytes r) m
  onward r r' a = Ensures-map λ end k. (k.0, omega (arith, a.1, k.1))

  module _ (r : BitReader) where
    abbrev Scanning : FieldScan → Type 0
    Scanning s = Ahead bytes r s.reader × (s.count ≤ max_header_field_len + 1)

    decide :
        (s : FieldScan) (r' : BitReader) (end : Bool)
        → Ahead bytes r r'
        → s.count ≤ max_header_field_len
        → Progress Scanning
            (Ahead bytes r)
            (λ s. max_header_field_len + 1 - s.count)
            s
            (if end then done r' else again (record { count = s.count + 1; reader = r' }))
    decide s r' true a few = a
    decide s r' false a few = ((a, omega (arith, few)), omega (arith, few))

    field_round-Scanning :
        (s : FieldScan)
        → Scanning s
        → Ensures
            (Progress Scanning (Ahead bytes r) (λ s. max_header_field_len + 1 - s.count) s)
            (field_round s)
    unfolding field_round
    field_round-Scanning s p = Ensures-refuse _ _ λ few.
        Ensures-bind (read_u8-Ensures bytes h fits s.reader p.0.0) λ step k.
          returns (
            decide s step.reader (step.value == 0) (k.1, omega (arith, p.0.1, k.2))
              (ltb→ge _ _ few))

    skip_zero_terminated-Ahead : Valid bytes r → Ensures (Ahead bytes r) (skip_zero_terminated r)
    unfolding skip_zero_terminated
    skip_zero_terminated-Ahead v =
        loop_rule Scanning (Ahead bytes r) (λ s. max_header_field_len + 1 - s.count) field_round
          field_round-Scanning (max_header_field_len + 2) _ (omega arith)
          ((v, omega arith), omega arith)

  skip_extra-Ahead :
      (r : BitReader) (flags : ℕ) → Valid bytes r → Ensures (Ahead bytes r) (skip_extra r flags)
  unfolding skip_extra
  skip_extra-Ahead r flags v =
      Ensures-if (has_bit flags 2)
        (λ _. Ensures-bind (read_u16_le-Ensures bytes h fits r v) λ xlen k.
          onward r xlen.reader (k.1, omega (arith, k.2))
            (skip_bytes-Ensures bytes h fits xlen.reader xlen.value k.1))
        (λ _. returns (v, omega arith))

  skip_text-Ahead :
      (r : BitReader) (flags bit : ℕ)
      → Valid bytes r
      → Ensures (Ahead bytes r) (skip_text r flags bit)
  unfolding skip_text
  skip_text-Ahead r flags bit v =
      Ensures-if (has_bit flags bit) (λ _. skip_zero_terminated-Ahead r v)
        (λ _. returns (v, omega arith))

  skip_crc-Ahead :
      (r : BitReader) (flags : ℕ) → Valid bytes r → Ensures (Ahead bytes r) (skip_crc r flags)
  unfolding skip_crc
  skip_crc-Ahead r flags v =
      Ensures-if (has_bit flags 1) (λ _. skip_bytes-Ensures bytes h fits r 2 v)
        (λ _. returns (v, omega arith))

  parse_gzip_extra_fields-Ahead :
      (r : BitReader) (flags : ℕ)
      → Valid bytes r
      → Ensures (Ahead bytes r) (parse_gzip_extra_fields r flags)
  unfolding parse_gzip_extra_fields
  parse_gzip_extra_fields-Ahead r flags v = Ensures-bind (skip_extra-Ahead r flags v) λ extra k.
      Ensures-bind (skip_text-Ahead extra flags 3 k.0) λ name l.
        Ensures-bind (skip_text-Ahead name flags 4 l.0) λ comment m.
          onward r comment (m.0, omega (arith, k.1, l.1, m.1)) (skip_crc-Ahead comment flags m.0)

  expect_magic-Ahead :
      (r : BitReader) (magic : ℕ) → Valid bytes r → Ensures (Ahead bytes r) (expect_magic r magic)
  unfolding expect_magic
  expect_magic-Ahead r magic v = Ensures-bind (peek_u8-Ensures r v) λ seen k.
      Ensures-refuse _ _ λ _.
        Ensures-bind (read_u8-Ensures bytes h fits seen.reader k.0)
          λ step l. returns (l.1, omega (arith, k.1, l.2))

  -- On any slice of bytes shorter than 2^63, `parse_gzip_header` on a sound bit reader either
  -- refuses or returns a sound reader that is not behind.
  pub parse_gzip_header-Ahead :
      (r : BitReader) → Valid bytes r → Ensures (Ahead bytes r) (parse_gzip_header r)
  unfolding parse_gzip_header
  parse_gzip_header-Ahead r v = Ensures-refuse _ _ λ _. Ensures-refuse _ _ λ _.
      Ensures-bind (expect_magic-Ahead r 0x1f v) λ first a.
        Ensures-bind (expect_magic-Ahead first 0x8b a.0) λ second b.
          Ensures-bind (read_u8-Ensures bytes h fits second b.0) λ method c. Ensures-refuse _ _ λ _.
            Ensures-bind (read_u8-Ensures bytes h fits method.reader c.1) λ flags d.
              Ensures-refuse _ _ λ _.
                Ensures-bind (skip_bytes-Ensures bytes h fits flags.reader 4 d.1) λ mtime e.
                  Ensures-bind (read_u8-Ensures bytes h fits mtime e.0) λ xfl f.
                    Ensures-bind (read_u8-Ensures bytes h fits xfl.reader f.1) λ os g.
                      onward r os.reader (g.1, omega (arith, a.1, b.1, c.2, d.2, e.1, f.2, g.2))
                        (parse_gzip_extra_fields-Ahead os.reader flags.value g.1)
