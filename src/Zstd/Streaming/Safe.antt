-- ===== src/Zstd/Streaming/Safe.antt =====
-- `extract_literals` of src/zstd/streaming.rs on any bytes.
use ziftsieve.Base.{
  ℕ, suc, ◌+◌, ◌-◌, ◌/◌, ◌%◌, ◌^◌, ◌≤◌, ◌<◌, ◌≡◌, refl, ◌∙◌, arith, List, [], ◌∷◌, ◌++◌, length,
  Bool, FitsIsize, ltb, saturating_add, ltb→ge, leb→gt, Option, none, some, length-append,
  index_found, slice-Ensures, loop_rule, Progress, Next, again, done, Ensures, returns, fails,
  Ensures-bind, Ensures-map, Ensures-refuse, Ensures-if, Ensures-step,
}
use ziftsieve.Block.{CompressedBlock, sum_literals, sum_literals-append}
use ziftsieve.Zstd.Frame.{FrameHeader}
use ziftsieve.Zstd.Frame.Safe.{parse_frame_header-Placed}
use ziftsieve.Zstd.Decoder.{DecodeLiterals}
use ziftsieve.Zstd.Decoder.Safe.{extract_literals_from_block-Ensures}
use ziftsieve.Zstd.Streaming.{
  BlockType, raw, rle, compressed, reserved, known_type, from_u8, stream_data_size, TakenBlock,
  fill_block, block_body, parse_block, Streaming, block_round, pass_checksum, frame_body,
  stream_round, extract_literals, max_block_size, max_blocks, max_total_literals, max_frames,
}

-- The blocks lie one behind the other between `from` and `to`.
abbrev pub Apart : ℕ → List CompressedBlock → ℕ → Type 0
Apart from [] to = from ≤ to
Apart from (b ∷ bs) to =
    (from ≤ b.compressed_offset) × Apart (b.compressed_offset + b.compressed_len) bs to

Apart-append :
    (from to end : ℕ) (bs : List CompressedBlock) (b : CompressedBlock)
    → Apart from bs to
    → to ≤ b.compressed_offset
    → b.compressed_offset + b.compressed_len ≤ end
    → Apart from (bs ++ (b ∷ [])) end
Apart-append from to end [] b h k l = (omega arith, l)
Apart-append from to end (c ∷ bs) b h k l =
    (h.0, Apart-append (c.compressed_offset + c.compressed_len) to end bs b h.1 k l)

Apart-later :
    (from to end : ℕ) (bs : List CompressedBlock) → Apart from bs to → to ≤ end → Apart from bs end
Apart-later from to end [] h k = omega arith
Apart-later from to end (b ∷ bs) h k =
    (h.0, Apart-later (b.compressed_offset + b.compressed_len) to end bs h.1 k)

module _ (decode_literals : DecodeLiterals) (bytes : List ℕ) (fits : FitsIsize bytes) where
  -- A block keeps its place when it is filled.
  fill_block-Ensures :
      (t : BlockType) (block : CompressedBlock) (pos size : ℕ) (block_data : List ℕ)
      → Ensures
          (λ b.
            (b.compressed_offset ≡ block.compressed_offset)
            × (b.compressed_len ≡ block.compressed_len))
          (fill_block decode_literals t block pos size block_data)
  unfolding fill_block
  fill_block-Ensures raw block pos size block_data = returns (refl, refl)
  fill_block-Ensures rle block pos size [] = returns (refl, refl)
  fill_block-Ensures rle block pos size (byte ∷ rest) = returns (refl, refl)
  fill_block-Ensures compressed block pos size block_data =
      Ensures-bind (extract_literals_from_block-Ensures block_data decode_literals)
        λ literals _. returns (refl, refl)
  fill_block-Ensures reserved block pos size block_data = fails

  known_type-Ensures : (pos : ℕ) (o : Option BlockType) → Ensures (λ _. Unit {0}) (known_type pos o)
  known_type-Ensures pos none = fails
  known_type-Ensures pos (some t) = returns tt

  stream_data_size-le :
      (t : BlockType) (size : ℕ) → size ≤ max_block_size → stream_data_size t size ≤ max_block_size
  stream_data_size-le rle size h = omega arith
  stream_data_size-le raw size h = h
  stream_data_size-le compressed size h = h
  stream_data_size-le reserved size h = h

  -- A block from `pos` on: its header, and its data.
  abbrev TakenAt : ℕ → TakenBlock → Type 0
  TakenAt pos t =
      (t.block.compressed_offset ≡ pos)
      × (3 ≤ t.block.compressed_len)
      × (t.pos ≡ pos + t.block.compressed_len)
      × (t.pos ≤ length bytes)

  block_body-TakenAt :
      (pos : ℕ) (last : Bool) (t : BlockType) (size : ℕ)
      → pos + 3 ≤ length bytes
      → Ensures (TakenAt pos) (block_body decode_literals bytes (pos + 3) last t size)
  unfolding block_body
  block_body-TakenAt pos last t size header = Ensures-refuse _ _ λ small. Ensures-refuse _ _ λ room.
      let bound = stream_data_size-le t size (ltb→ge _ _ small) in
      let inside : pos + 3 + stream_data_size t size ≤ length bytes =
        omega (arith, ltb→ge _ _ room) in
      Ensures-bind
        (slice-Ensures bytes (pos + 3) (pos + 3 + stream_data_size t size) (omega arith) inside)
        λ block_data _.
          Ensures-bind (fill_block-Ensures t _ (pos + 3) size block_data)
            λ block k. returns (omega (arith, k.0), omega (arith, k.1), omega (arith, k.1), inside)

  parse_block-TakenAt : (pos : ℕ) → Ensures (TakenAt pos) (parse_block decode_literals bytes pos)
  unfolding parse_block
  parse_block-TakenAt pos = Ensures-refuse _ _ λ room.
      let header : pos + 3 ≤ length bytes = ltb→ge _ _ room in
      let (b0, e0, _) = index_found bytes pos (omega arith) in
      let (b1, e1, _) = index_found bytes (pos + 1) (omega arith) in
      let (b2, e2, _) = index_found bytes (pos + 2) (omega arith) in
      Ensures-step _ e0 (
        Ensures-step _ e1 (
          Ensures-step _ e2 (
            Ensures-bind (known_type-Ensures pos (from_u8 (b0 / 2 % 2 ^ 2)))
              λ t _. block_body-TakenAt pos _ t _ header)))

  -- What the rounds so far have made, of which `frames` may have left a block over the limit.
  pub record Streamed (frames : ℕ) (s : Streaming) : Type 0 where
    pub within : s.pos ≤ length bytes
    pub apart : Apart 0 s.blocks s.pos
    pub counted : sum_literals s.blocks ≡ s.total_literals
    pub small : s.total_literals ≤ max_total_literals
    pub few : length s.blocks < max_blocks + frames

  start_Streamed : Streamed 0 (record { pos = 0; blocks = []; total_literals = 0; frame_count = 0 })
  start_Streamed = record {
    within = omega arith;
    apart = omega arith;
    counted = refl;
    small = omega arith;
    few = omega arith;
  }

  moved :
      (frames : ℕ) (s : Streaming) (pos count : ℕ)
      → Streamed frames s
      → s.pos ≤ pos
      → pos ≤ length bytes
      → Streamed frames (record s { pos = pos; frame_count = count })
  moved frames s pos count h later inside = record {
    within = inside;
    apart = Apart-later 0 s.pos pos s.blocks h.apart later;
    counted = h.counted;
    small = h.small;
    few = h.few;
  }

  -- A block behind the others, if there are not too many of them.
  pushed :
      (frames more : ℕ) (s : Streaming) (t : TakenBlock)
      → Streamed frames s
      → TakenAt s.pos t
      → saturating_add s.total_literals (length t.block.literals) ≤ max_total_literals
      → length (s.blocks ++ (t.block ∷ [])) < max_blocks + more
      → Streamed more (record s {
        pos = t.pos;
        blocks = s.blocks ++ (t.block ∷ []);
        total_literals = saturating_add s.total_literals (length t.block.literals);
      })
  pushed frames more s t h k total few = record {
    within = k.3;
    apart =
        Apart-append 0 s.pos t.pos s.blocks t.block h.apart (omega (arith, k.0))
          (omega (arith, k.0, k.2));
    counted = omega (arith, sum_literals-append s.blocks (t.block ∷ []), h.counted);
    small = total;
    few = few;
  }

  module _ (frames : ℕ) where
    abbrev InFrame : ℕ → Streaming → Type 0
    InFrame more s = Streamed more s × (s.frame_count ≡ suc frames)

    block_round-InFrame :
        (s : Streaming)
        → InFrame frames s
        → Ensures
            (Progress (InFrame frames) (InFrame (suc frames)) (λ s. length bytes - s.pos) s)
            (block_round decode_literals bytes s)
    unfolding block_round
    block_round-InFrame s h = Ensures-bind (parse_block-TakenAt s.pos) λ t k.
        Ensures-refuse _ _ λ total. Ensures-refuse _ _ λ _.
          let sum = ltb→ge _ _ total in
          let longer = length-append s.blocks (t.block ∷ []) in
          Ensures-if t.is_last
            (λ _.
              returns
                (pushed frames (suc frames) s t h.0 k sum (omega (arith, h.0.few, longer)), h.1))
            λ _. Ensures-refuse _ _ λ few. returns (
              (pushed frames frames s t h.0 k sum (omega (arith, leb→gt _ _ few)), h.1),
              omega (arith, k.1, k.2, k.3),
            )

  -- The blocks of an extraction.
  pub record Extracted (blocks : List CompressedBlock) : Type 0 where
    pub apart : Apart 0 blocks (length bytes)
    pub small : sum_literals blocks ≤ max_total_literals
    pub few : length blocks < max_blocks + max_frames

  counted_frames :
      (frames : ℕ) (s : Streaming)
      → Streamed frames s
      → s.frame_count ≡ frames
      → Streamed s.frame_count s
  counted_frames frames s h e = record {
    within = h.within;
    apart = h.apart;
    counted = h.counted;
    small = h.small;
    few = omega (arith, h.few, e);
  }

  abbrev Framed : Streaming → Type 0
  Framed s = Streamed s.frame_count s × (s.frame_count ≤ max_frames)

  finished : (s : Streaming) → Framed s → Extracted s.blocks
  finished s (h, few) = record {
    apart = Apart-later 0 s.pos (length bytes) s.blocks h.apart h.within;
    small = omega (arith, h.counted, h.small);
    few = omega (arith, h.few);
  }

  pass_checksum-Streamed :
      (header : FrameHeader) (frames : ℕ) (s : Streaming)
      → Streamed frames s
      → Ensures
          (λ s'. Streamed frames s' × (s'.frame_count ≡ s.frame_count))
          (pass_checksum bytes header s)
  unfolding pass_checksum
  pass_checksum-Streamed header frames s h =
      Ensures-if header.content_checksum
        (λ _. Ensures-refuse _ _ λ room.
          returns
            (moved frames s (s.pos + 4) s.frame_count h (omega arith) (ltb→ge _ _ room), refl))
        λ _. returns (h, refl)

  abbrev Onwards : ℕ → Next Streaming (List CompressedBlock) → Type 0
  Onwards frames (again s) = Framed s × (s.frame_count ≡ suc frames)
  Onwards frames (done blocks) = Extracted blocks

  frame_body-Onwards :
      (frames : ℕ) (s : Streaming) (header : Option FrameHeader)
      → Streamed frames s
      → s.frame_count ≡ suc frames
      → suc frames ≤ max_frames
      → Ensures (Onwards frames) (frame_body decode_literals bytes s header)
  unfolding frame_body
  frame_body-Onwards frames s none h count room = returns (record {
    apart = Apart-later 0 s.pos (length bytes) s.blocks h.apart h.within;
    small = omega (arith, h.counted, h.small);
    few = omega (arith, h.few);
  })
  frame_body-Onwards frames s (some header) h count room =
      Ensures-bind
        (loop_rule (InFrame frames frames) (InFrame frames (suc frames)) (λ s. length bytes - s.pos)
          (block_round decode_literals bytes) (block_round-InFrame frames) (length bytes + 1) s
          (omega arith) (h, count))
        λ last k. Ensures-bind (pass_checksum-Streamed header (suc frames) last k.0) λ end l.
          let e : end.frame_count ≡ suc frames = l.1 ∙ k.1 in
          returns ((counted_frames (suc frames) end (l.0) e, omega (arith, e)), e)

  stream_round-Framed :
      (s : Streaming)
      → Framed s
      → Ensures
          (Progress Framed Extracted (λ s. max_frames - s.frame_count) s)
          (stream_round decode_literals bytes s)
  unfolding stream_round
  stream_round-Framed s (h, few) =
      Ensures-if (ltb s.pos (length bytes))
        (λ _. Ensures-refuse _ _ λ room.
          Ensures-bind (parse_frame_header-Placed bytes s.pos h.within) λ parsed k.
            let more : suc s.frame_count ≤ max_frames = omega (arith, ltb→ge _ _ room) in
            Ensures-map (onwards-Progress more) (
              frame_body-Onwards s.frame_count _ parsed.header
                (moved s.frame_count s parsed.pos (s.frame_count + 1) h k.0 k.1) (omega arith)
                more))
        λ _. returns (finished s (h, few))
    where
      onwards-Progress :
          suc s.frame_count ≤ max_frames
          → (n : Next Streaming (List CompressedBlock)) → Onwards s.frame_count n
          → Progress Framed Extracted (λ s. max_frames - s.frame_count) s n
      onwards-Progress more (again s') k = (k.0, omega (arith, k.1))
      onwards-Progress more (done blocks) k = k

  -- On any slice shorter than 2^63 bytes and with any Huffman decoder, the `extract_literals` of
  -- Zstd ends without a panic, and blocks that it returns are fewer than 101,000, hold at most 256
  -- MiB of literals together, and lie one behind the other within the slice.
  pub extract_literals-Apart : Ensures Extracted (extract_literals decode_literals bytes)
  unfolding extract_literals
  extract_literals-Apart = Ensures-refuse _ _ λ _.
      loop_rule Framed Extracted (λ s. max_frames - s.frame_count)
        (stream_round decode_literals bytes) stream_round-Framed (max_frames + 2) _ (omega arith)
        (start_Streamed, omega arith)
