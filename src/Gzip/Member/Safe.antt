-- ===== src/Gzip/Member/Safe.antt =====
-- `parse_gzip_member` of src/gzip/header.rs on any bytes, with any checksum and any decoder.
use ziftsieve.Base.{
  Bool, ZiftError, refuse, ℕ, ◌≤◌, ap, arith, List, length, length-append, FitsIsize, true, false,
  slice-Ensures, Ensures, returns, fails, Ensures-bind, Ensures-if,
}
use ziftsieve.Block.{CompressedBlock}
use ziftsieve.Gzip.Bits.{Bytes}
use ziftsieve.Gzip.Reader.{BitReader}
use ziftsieve.Gzip.Reader.Valid.{Valid, position}
use ziftsieve.Gzip.Reader.Partial.{
  Ahead, position_bound, align_to_byte-Ensures, read_u32_le-Ensures,
}
use ziftsieve.Gzip.Header.Safe.{parse_gzip_header-Ahead}
use ziftsieve.Gzip.Deflate.Stream.Safe.{Collected, Appended, parse_deflate_stream-Streamed}
use ziftsieve.Gzip.Member.{Libraries, Member, parse_gzip_member}
use ziftsieve.Gzip.Member.Ends.{check_decompression-Ends, Ends-Ensures}

module _ (libraries : Libraries) where
  verified : (bad : Bool) (e : ZiftError) → Ensures (λ u. Unit) (refuse bad e)
  unfolding refuse
  verified true e = fails
  verified false e = returns tt

  -- What a member adds: blocks behind those that were there, with the bits of one stream that lies
  -- between the two readers.
  pub record Added (bytes : List ℕ) (r : BitReader) (before : List CompressedBlock) (m : Member)
      : Type 0 where
    pub ahead : Ahead bytes r m.reader
    pub collected : Collected bytes m.blocks m.total_literals
    pub first : ℕ
    pub stop : ℕ
    pub behind : position r ≤ first
    pub appended : Appended before first stop m.blocks
    pub within : stop ≤ position m.reader

  pub parse_gzip_member-Added :
      (bytes : List ℕ) (r : BitReader) (blocks : List CompressedBlock) (total : ℕ)
      → Bytes bytes
      → FitsIsize bytes
      → Valid bytes r
      → Collected bytes blocks total
      → Ensures (Added bytes r blocks) (parse_gzip_member libraries r blocks total)
  unfolding parse_gzip_member
  parse_gzip_member-Added bytes r blocks total h fits v c =
      Ensures-bind (parse_gzip_header-Ahead bytes h fits r v) λ header k.
        Ensures-bind (parse_deflate_stream-Streamed bytes h fits header blocks total k.0 c)
          λ stream l.
            Ensures-bind (align_to_byte-Ensures bytes h fits stream.reader l.0.0.0) λ aligned m.
              Ensures-bind (read_u32_le-Ensures bytes h fits aligned m.0.0) λ crc n.
                Ensures-bind (read_u32_le-Ensures bytes h fits crc.reader n.1) λ isize o.
                  let longer : length blocks ≤ length stream.blocks =
                    omega (arith, ap length l.0.2.1, length-append blocks l.0.2.0) in
                  Ensures-bind
                    (slice-Ensures stream.blocks (length blocks) (length stream.blocks) longer
                      (omega arith))
                    λ added a.
                      Ensures-bind {P = λ u. Unit}
                        (Ensures-if stream.had_matches
                          (λ _.
                            Ensures-bind
                              (slice-Ensures isize.reader.bytes r.byte_pos isize.reader.byte_pos
                                (omega (arith, k.1, l.0.0.1, m.0.1, n.2, o.2, o.1.whole))
                                (omega (
                                  arith,
                                  position_bound bytes isize.reader o.1,
                                  ap length o.1.same,
                                )))
                              λ member_data _.
                                Ends-Ensures libraries
                                  (check_decompression-Ends libraries member_data))
                          (λ _. verified _ _))
                        λ u _. returns (record {
                          ahead = (o.1, omega (arith, k.1, l.0.0.1, m.0.1, n.2, o.2));
                          collected = l.0.1;
                          first = position header;
                          stop = position stream.reader;
                          behind = k.1;
                          appended = l.0.2;
                          within = omega (arith, m.0.1, n.2, o.2);
                        })
