-- ===== src/Gzip/Extract/Safe.antt =====
-- `extract_literals` of src/gzip/mod.rs on any bytes.
use ziftsieve.Base.{
  ℕ, ◌+◌, ◌-◌, ◌*◌, ◌≤◌, ◌<◌, refl, arith, List, length, All, FitsIsize, ltb, leb→gt, loop_rule,
  Progress, Ensures, returns, Ensures-bind, Ensures-refuse, Ensures-if,
}
use ziftsieve.Block.{CompressedBlock, sum_literals}
use ziftsieve.Gzip.Bits.{Bytes}
use ziftsieve.Gzip.Reader.{BitReader, remaining_bytes}
use ziftsieve.Gzip.Reader.Valid.{Valid, position, new-Valid}
use ziftsieve.Gzip.Reader.Partial.{position_bound}
use ziftsieve.Gzip.Deflate.Stream.{max_total_literals}
use ziftsieve.Gzip.Deflate.Stream.Safe.{Collected, Placed}
use ziftsieve.Gzip.Deflate.Stream.Tiled.{Spaced, Spaced-append, Spaced-later}
use ziftsieve.Gzip.Member.{Libraries, Member}
use ziftsieve.Gzip.Member.Safe.{Added, parse_gzip_member-Added}
use ziftsieve.Gzip.Extract.{Extraction, member_round, extract_literals}

module _ (libraries : Libraries) (bytes : List ℕ) (h : Bytes bytes) (fits : FitsIsize bytes) where
  abbrev Extracting : Extraction → Type 0
  Extracting s =
      Valid bytes s.reader
      × Collected bytes s.blocks s.total_literals
      × Spaced 0 s.blocks (position s.reader)
      × (s.members < 1024)

  -- The blocks of an extraction: placed in the input, one behind the other, with literals that are
  -- not too many together.
  abbrev pub Extracted : List CompressedBlock → Type 0
  Extracted blocks =
      All (Placed bytes) blocks
      × Spaced 0 blocks (8 * length bytes)
      × (sum_literals blocks ≤ max_total_literals)

  Added-Spaced :
      (r : BitReader) (before : List CompressedBlock) (m : Member)
      → Spaced 0 before (position r)
      → Added libraries bytes r before m
      → Spaced 0 m.blocks (position m.reader)
  Added-Spaced r before m s a = rw a.appended.1 (
      Spaced-append 0 (position r) a.first a.stop (position m.reader) before a.appended.0 s a.behind
        a.appended.2 a.within)

  member_round-Extracting :
      (s : Extraction)
      → Extracting s
      → Ensures (Progress Extracting Extracted (λ s. 1024 - s.members) s) (member_round libraries s)
  unfolding member_round
  member_round-Extracting s p =
      Ensures-if (ltb 0 (remaining_bytes s.reader))
        (λ _.
          Ensures-bind
            (parse_gzip_member-Added libraries bytes s.reader s.blocks s.total_literals h fits p.0
              p.1)
            λ m k. Ensures-refuse _ _ λ few.
              let room : s.members + 1 < 1024 = leb→gt _ _ few in
              returns (
                (k.ahead.0, k.collected, Added-Spaced s.reader s.blocks m p.2 k, room),
                omega (arith, room),
              ))
        (λ _. returns (
          p.1.placed,
          Spaced-later 0 _ _ s.blocks p.2 (position_bound bytes s.reader p.0),
          omega (arith, p.1.summed, p.1.few),
        ))

  -- On any slice of bytes shorter than 2^63, and with any checksum and any gzip decoder, the
  -- `extract_literals` of Gzip ends without a panic in a build whose sums of u16 wrap, and blocks
  -- that it returns have all their bytes within the slice, hold at most 16 MiB of literals each and
  -- 256 MiB together, and lie one behind the other in its bits, each with the offset of the byte in
  -- which its bits begin and with as many bytes as they fill, where a count of bits over 2^64 - 1
  -- is cut.
  pub extract_literals-Extracted : Ensures Extracted (extract_literals libraries bytes)
  unfolding extract_literals
  extract_literals-Extracted = Ensures-refuse _ _ λ _.
      loop_rule Extracting Extracted (λ s. 1024 - s.members) (member_round libraries)
        member_round-Extracting 1025 _ (omega arith)
        (
          new-Valid bytes 0 h (omega arith),
          record { placed = tt; summed = refl; few = omega arith },
          omega arith,
          omega arith,
        )
