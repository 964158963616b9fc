-- ===== src/Lz4/Blocks.antt =====
-- `parse_frame_header` and `parse_lz4_blocks` of src/lz4.rs on any bytes: the blocks they make.
use ziftsieve.Base.{
  ltb→ge, ◌-◌, ◌%◌, ℕ, ◌+◌, ◌^◌, ◌≤◌, ◌<◌, ◌≡◌, refl, sym, arith, List, [], ◌∷◌, ◌++◌, length, take,
  drop, Bool, true, false, Ensures, returns, Ensures-bind, Ensures-refuse, Ensures-if, Ensures-map,
  ensures_rules, tests, index-Ensures, slice-Ensures, Progress, loop_rule, ltb, ◌==◌,
  saturating_add, has_bit, length-append, FitsIsize,
}
use mathlib.Core.List.{Sublist}
use mathlib.Core.List.Sublist
use ziftsieve.Block.{CompressedBlock, sum_literals, sum_literals-append}
use ziftsieve.Lz4.{
  has_magic, parse_frame_header, parse_lz4_blocks, Stream, block_at, block_literals, take_block,
  block_header, blocks_round, max_block_size, max_total_literals, max_blocks_per_stream,
}
use ziftsieve.Lz4.Bounds.{extract_literals-Ensures}

-- The blocks lie one behind the other from `from` to `to`, each with its four bytes of header, and
-- the literals of each are a sublist of its payload.
abbrev pub Tiles : List ℕ → ℕ → List CompressedBlock → ℕ → Type 0
Tiles bytes from [] to = from ≡ to
Tiles bytes from (b ∷ bs) to =
    (b.compressed_offset ≡ from)
    × (from + 4 + b.compressed_len ≤ length bytes)
    × Sublist b.literals (take b.compressed_len (drop (from + 4) bytes))
    × Tiles bytes (from + 4 + b.compressed_len) bs to

Tiles-append :
    (bytes : List ℕ) (from mid to : ℕ) (bs cs : List CompressedBlock)
    → Tiles bytes from bs mid
    → Tiles bytes mid cs to
    → Tiles bytes from (bs ++ cs) to
Tiles-append bytes from mid to [] cs h k = rw h k
Tiles-append bytes from mid to (b ∷ bs) cs (o, l, s, h) k =
    (o, l, s, Tiles-append bytes (from + 4 + b.compressed_len) mid to bs cs h k)

-- The bytes that a frame header takes; none where the magic number is missing.
pub parse_frame_header-Ensures :
    (bytes : List ℕ) → Ensures (λ pos. pos ≤ length bytes) (parse_frame_header bytes)
unfolding parse_frame_header
parse_frame_header-Ensures bytes = search (ensures_rules, tests, index-Ensures)

-- What a parse has done after some rounds.
record Parsed (bytes : List ℕ) (start : ℕ) (s : Stream) : Type 0 where
  within : s.offset ≤ length bytes
  tiles : Tiles bytes start s.blocks s.offset
  counted : sum_literals s.blocks ≡ s.total_literals
  few : length s.blocks ≤ max_blocks_per_stream
  small : s.total_literals ≤ max_total_literals

-- What holds of the blocks that are returned.
pub record WellParsed (bytes : List ℕ) (blocks : List CompressedBlock) : Type 0 where
  pub start : ℕ
  pub end : ℕ
  pub tiles : Tiles bytes start blocks end
  pub few : length blocks ≤ max_blocks_per_stream
  pub small : sum_literals blocks ≤ max_total_literals

block_at-Ensures :
    (offset size : ℕ)
    → Ensures
        (λ b. (b.compressed_offset ≡ offset) × (b.compressed_len ≡ size))
        (block_at offset size)
unfolding block_at
block_at-Ensures offset size = search (ensures_rules, tests)

block_literals-Ensures :
    (raw : Bool) (payload : List ℕ)
    → Ensures (λ ys. Sublist ys payload) (block_literals raw payload)
unfolding block_literals
block_literals-Ensures true payload = returns (Sublist.refl payload)
block_literals-Ensures false payload =
    Ensures-map (λ ys h. h.1) (extract_literals-Ensures payload max_block_size)

block_header-Ensures :
    (bytes : List ℕ) (offset : ℕ)
    → offset + 4 ≤ length bytes
    → Ensures (λ _. Unit {0}) (block_header bytes offset)
unfolding block_header
block_header-Ensures bytes offset h = Ensures-bind (index-Ensures bytes offset (omega arith)) λ _ _.
    Ensures-bind (index-Ensures bytes (offset + 1) (omega arith)) λ _ _.
      Ensures-bind (index-Ensures bytes (offset + 2) (omega arith))
        λ _ _. Ensures-bind (index-Ensures bytes (offset + 3) (omega arith)) λ _ _. returns tt

module _ (bytes : List ℕ) (start : ℕ) (fits : FitsIsize bytes) where
  finished : (s : Stream) → Parsed bytes start s → WellParsed bytes s.blocks
  finished s h = record {
    start = start;
    end = s.offset;
    tiles = h.tiles;
    few = h.few;
    small = rw h.counted h.small;
  }

  -- Sums on 64 bits are exact here, since the slice is short.
  push_block :
      (s : Stream)
      → Parsed bytes start s
      → length s.blocks < max_blocks_per_stream
      → (block : CompressedBlock) (literals payload : List ℕ) (size : ℕ)
      → (block.compressed_offset ≡ s.offset) × (block.compressed_len ≡ size)
      → size ≤ max_block_size
      → saturating_add (saturating_add s.offset 4) size ≤ length bytes
      → payload
        ≡ take
            (saturating_add (saturating_add s.offset 4) size - saturating_add s.offset 4)
            (drop (saturating_add s.offset 4) bytes)
      → Sublist literals payload
      → saturating_add s.total_literals (length literals) ≤ max_total_literals
      → Parsed bytes start (record {
        blocks = s.blocks ++ (record block { literals = literals } ∷ []);
        offset = saturating_add (saturating_add s.offset 4) size;
        total_literals = saturating_add s.total_literals (length literals);
      })
  push_block s h few block literals payload size b small inside p l total =
      let begin : saturating_add s.offset 4 ≡ s.offset + 4 = omega arith in
      let end : saturating_add (saturating_add s.offset 4) size
          ≡ s.offset + 4 + block.compressed_len =
        omega arith in
      let len : saturating_add (saturating_add s.offset 4) size - saturating_add s.offset 4
          ≡ block.compressed_len =
        omega arith in
      let sum : saturating_add s.total_literals (length literals)
          ≡ s.total_literals + length literals =
        omega arith in
      record {
        within = inside;
        tiles =
            Tiles-append bytes start s.offset _ s.blocks _ h.tiles
              (b.0, omega arith, rw (len, begin) at (rw p at l), sym end);
        counted =
            omega (arith, sum_literals-append s.blocks (record block { literals = literals } ∷ []));
        few = omega (arith, length-append s.blocks (record block { literals = literals } ∷ []));
        small = total;
      }

  take_block-Ensures :
      (s : Stream) (block_size : ℕ)
      → Parsed bytes start s
      → s.offset + 4 ≤ length bytes
      → length s.blocks < max_blocks_per_stream
      → Ensures
          (Progress (Parsed bytes start) (WellParsed bytes) (λ s. length bytes - s.offset) s)
          (take_block bytes s block_size)
  unfolding take_block
  take_block-Ensures s block_size h room few =
      Ensures-if (block_size % 2 ^ 31 == 0) (λ _. returns (finished s h))
        λ _. Ensures-refuse _ _ λ small. Ensures-refuse _ _ λ inside.
          Ensures-bind (slice-Ensures bytes _ _ (omega arith) (omega tests)) λ payload p.
            Ensures-bind (block_at-Ensures s.offset _) λ block b.
              Ensures-bind (block_literals-Ensures (has_bit block_size 31) payload) λ literals l.
                Ensures-refuse _ _ λ total. Ensures-refuse _ _ λ _. returns (
                  push_block s h few block literals payload (block_size % 2 ^ 31) b
                      (ltb→ge _ _ small) (ltb→ge _ _ inside) p l (ltb→ge _ _ total),
                  omega tests,
                )

  blocks_round-Ensures :
      (is_framed : Bool) (s : Stream)
      → Parsed bytes start s
      → Ensures
          (Progress (Parsed bytes start) (WellParsed bytes) (λ s. length bytes - s.offset) s)
          (blocks_round bytes is_framed s)
  unfolding blocks_round
  blocks_round-Ensures is_framed s h =
      Ensures-if (ltb s.offset (length bytes))
        (λ _. Ensures-refuse _ _ λ few.
          Ensures-if (ltb (length bytes) (saturating_add s.offset 4))
            (λ _. Ensures-refuse _ _ λ _. returns (finished s h))
            λ room.
              Ensures-bind (block_header-Ensures bytes s.offset (omega tests))
                λ block_size _. take_block-Ensures s block_size h (omega tests) (omega tests))
        λ _. returns (finished s h)

-- On any slice shorter than 2^63 bytes, `parse_lz4_blocks` ends without a panic, and blocks that it
-- returns are at most 10,000, hold at most 256 MiB of literals together, lie one behind the other
-- within the slice, and hold literals that are a sublist of their payload.
pub parse_lz4_blocks-Ensures :
    (bytes : List ℕ) → FitsIsize bytes → Ensures (WellParsed bytes) (parse_lz4_blocks bytes)
unfolding parse_lz4_blocks
parse_lz4_blocks-Ensures bytes fits = Ensures-refuse _ _ λ _.
    Ensures-bind (parse_frame_header-Ensures bytes) λ offset within.
      loop_rule (Parsed bytes offset) _ (λ s. length bytes - s.offset) _
        (blocks_round-Ensures bytes offset fits (has_magic bytes)) _ _ (omega arith)
        (record {
          within = within;
          tiles = refl;
          counted = omega arith;
          few = omega arith;
          small = omega arith;
        })
