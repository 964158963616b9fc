-- ===== src/Gzip/Deflate/Stream/Safe.antt =====
-- A DEFLATE stream (`parse_deflate_stream` of src/gzip/deflate.rs) on any bytes.
use ziftsieve.Base.{
  ℕ, suc, ◌+◌, ◌-◌, ◌/◌, ◌^◌, ◌≤◌, ◌<◌, ◌≡◌, refl, sym, ap, ◌∙◌, arith, List, [], ◌∷◌, ◌++◌, length,
  length-append, append_assoc, append-nil, All, All-append, leb→gt, ltb→ge, ◌==◌, FitsIsize,
  saturating_add, true, false, Bool, if◌then◌else◌, again, done, loop_rule, Progress, Ensures,
  returns, Ensures-bind, Ensures-refuse,
}
use ziftsieve.Block.{CompressedBlock, sum_literals, sum_literals-append}
use ziftsieve.Gzip.Bits.{Bytes}
use ziftsieve.Gzip.Reader.{BitReader, bit_offset}
use ziftsieve.Gzip.Reader.Valid.{Valid, position}
use ziftsieve.Gzip.Reader.Partial.{Ahead, read_bits-Ensures, position_bound}
use ziftsieve.Gzip.Deflate.Tables.{max_deflate_blocks_per_member}
use ziftsieve.Gzip.Deflate.Block.Safe.{Sound, parse_single_block-After}
use ziftsieve.Gzip.Deflate.Stream.Tiled.{Tiled, Spans, Tiled-append, Spans-within}
use ziftsieve.Gzip.Deflate.Stream.{Stream, max_total_literals, deflate_round, parse_deflate_stream}

-- A block of bytes that are not too many, inside the input to its last byte.
abbrev pub Placed : List ℕ → CompressedBlock → Type 0
Placed bytes block =
    Sound block
    × (block.compressed_offset + block.compressed_len ≤ length bytes)
    × (block.compressed_len < 2 ^ 32)

-- The blocks so far, and their literals together.
pub record Collected (bytes : List ℕ) (blocks : List CompressedBlock) (total : ℕ) : Type 0 where
  pub placed : All (Placed bytes) blocks
  pub summed : sum_literals blocks ≡ total
  pub few : total ≤ max_total_literals

-- Blocks behind those that were there, which fill the bits from `start` to `stop`.
abbrev pub Appended : List CompressedBlock → ℕ → ℕ → List CompressedBlock → Type 0
Appended before start stop blocks =
    (added : List CompressedBlock) × (blocks ≡ before ++ added) × Tiled start added stop

append_more :
    (before blocks : List CompressedBlock) (start stop next : ℕ) (block : CompressedBlock)
    → Appended before start stop blocks
    → Spans stop next block
    → Appended before start next (blocks ++ block ∷ [])
append_more before blocks start stop next block a s = (
  a.0 ++ block ∷ [],
  ap (λ bs. bs ++ block ∷ []) a.1 ∙ append_assoc before a.0 (block ∷ []),
  Tiled-append start stop next a.0 block a.2 s,
)

append-Collected :
    (bytes : List ℕ) (blocks : List CompressedBlock) (block : CompressedBlock) (total : ℕ)
    → Collected bytes blocks total
    → Placed bytes block
    → saturating_add total (length block.literals) ≤ max_total_literals
    → Collected bytes (blocks ++ block ∷ []) (saturating_add total (length block.literals))
append-Collected bytes blocks block total c p few = record {
  placed = All-append _ blocks (block ∷ []) c.placed (p, tt);
  summed = sum_literals-append blocks (block ∷ []) ∙ omega (arith, c.summed, c.few, p.0.few);
  few = few;
}

module _ (bytes : List ℕ) (h : Bytes bytes) (fits : FitsIsize bytes) (r : BitReader)
    (before : List CompressedBlock) where
  abbrev pub Streaming : Stream → Type 0
  Streaming s =
      Ahead bytes r s.reader
      × Collected bytes s.blocks s.total_literals
      × Appended before (position r) (position s.reader) s.blocks

  abbrev pub Streamed : Stream → Type 0
  Streamed s =
      Streaming s × (0 < length s.blocks) × (length s.blocks ≤ max_deflate_blocks_per_member)

  abbrev rounds_left : Stream → ℕ
  rounds_left s = max_deflate_blocks_per_member + 1 - length s.blocks

  -- `used_bytes` of a round
  abbrev bytes_between : BitReader → BitReader → ℕ
  bytes_between r' r'' = (bit_offset r'' - bit_offset r' + 7) / 8

  decide :
      (s next : Stream) (final : Bool)
      → Streaming next
      → length next.blocks ≡ suc (length s.blocks)
      → length s.blocks < max_deflate_blocks_per_member
      → Progress Streaming Streamed rounds_left s (if final then done next else again next)
  decide s next true p longer room = (p, omega (arith, longer), omega (arith, longer, room))
  decide s next false p longer room = (p, omega (arith, longer, room))

  deflate_round-Streaming :
      (s : Stream)
      → Streaming s
      → Ensures (Progress Streaming Streamed rounds_left s) (deflate_round s)
  unfolding deflate_round
  deflate_round-Streaming s p = Ensures-refuse _ _ λ room.
      Ensures-bind (read_bits-Ensures bytes h fits s.reader 1 p.0.0 (omega arith)) λ final k.
        Ensures-bind (read_bits-Ensures bytes h fits final.reader 2 k.1 (omega arith))
          λ block_type l.
            Ensures-bind
              (parse_single_block-After bytes h fits block_type.reader block_type.value _ l.1
                (record { bytes = tt; few = omega arith }) (omega (arith, l.0)))
              λ step m. Ensures-refuse _ _ λ capped. Ensures-refuse _ _ λ short.
                let at : Spans (position s.reader) (position step.reader)
                    (record step.block { compressed_len = bytes_between s.reader step.reader }) =
                  record {
                    header = omega (arith, k.2, l.2, m.0.1);
                    offset = omega (arith, m.2);
                    len = omega arith;
                  } in
                let inside =
                  Spans-within (length bytes) _ _ _ at (position_bound bytes step.reader m.0.0) in
                returns (
                  decide s _ (final.value == 1)
                    (
                      (m.0.0, omega (arith, p.0.1, k.2, l.2, m.0.1)),
                      append-Collected bytes s.blocks _ s.total_literals p.1
                          (
                            record { bytes = m.1.bytes; few = m.1.few },
                            inside,
                            omega (arith, ltb→ge _ _ short),
                          )
                          (ltb→ge _ _ capped),
                      append_more before s.blocks _ _ _ _ p.2 at,
                    )
                    (omega (arith, length-append {0} s.blocks (_ ∷ []))) (leb→gt _ _ room))

  -- From a sound bit reader over a slice of bytes shorter than 2^63, and with blocks that have all
  -- their bytes within the slice and at most 16 MiB of literals, and whose literals sum up to a
  -- total of at most 256 MiB, `parse_deflate_stream` ends without a panic in a build whose sums of
  -- u16 wrap, and what it returns is a sound reader that is not behind, the old blocks with at
  -- least one more behind them, at most 100,000 in all, and a total of at most 256 MiB that is the
  -- sum of their literals. The new blocks are like the old ones, and tile the bits between the two
  -- readers without a gap: each has the offset of the byte in which its bits begin and as many
  -- bytes as they fill, where a count of bits over 2^64 - 1 is cut.
  pub parse_deflate_stream-Streamed :
      (total : ℕ)
      → Valid bytes r
      → Collected bytes before total
      → Ensures Streamed (parse_deflate_stream r before total)
  unfolding parse_deflate_stream
  parse_deflate_stream-Streamed total v c =
      loop_rule Streaming Streamed rounds_left deflate_round deflate_round-Streaming
        (max_deflate_blocks_per_member + 2) _ (omega arith)
        ((v, omega arith), c, ([], sym (append-nil before), refl))
