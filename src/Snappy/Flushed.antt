-- ===== src/Snappy/Flushed.antt =====
-- `extract_literals` of src/snappy.rs on any bytes: the blocks it makes.
use ziftsieve.Base.{
  ℕ, ◌+◌, ◌-◌, ◌*◌, ◌^◌, ◌≤◌, ◌<◌, ◌≡◌, refl, min, arith, List, [], ◌∷◌, ◌++◌, length, Option, none,
  some, not, ltb, ◌==◌, Ensures, returns, fails, Ensures-bind, Ensures-refuse, Ensures-if,
  ensures_rules, tests, index-Ensures, slice-Ensures, Progress, loop_rule, ZiftError, length-append,
  All, All-append, if◌then◌else◌, Bool-cases, inl, inr, Next, FitsIsize, ◌>>=◌, ◌>>◌,
}
use ziftsieve.Block.{CompressedBlock, sum_literals, sum_literals-append}
use ziftsieve.Extract.{starts_with, length-starts_with}
use ziftsieve.Snappy.{
  Snap, Stream, or_err, decompress_chunk, raw_chunk, handle_snappy_chunk, decode_chunk_len,
  flush_block, flush_large, take_chunk, chunk_round, flush_last, extract_literals,
  max_total_literals, max_chunks_per_stream, stream_identifier,
}

-- Each block begins where the one before it ends, and its length saturates at 32 bits.
abbrev pub Consecutive : ℕ → List CompressedBlock → ℕ → Type 0
Consecutive from [] to = from ≡ to
Consecutive from (b ∷ bs) to =
    (mid : ℕ) × (from ≤ mid)
    × (b.compressed_offset ≡ from)
    × (b.compressed_len ≡ min (mid - from) (2 ^ 32 - 1))
    × Consecutive mid bs to

-- A block has literals, and says how many.
abbrev pub Counted : CompressedBlock → Type 0
Counted b = (0 < length b.literals) × (b.uncompressed_len ≡ some (length b.literals))

Consecutive-append :
    (from mid to : ℕ) (bs cs : List CompressedBlock)
    → Consecutive from bs mid
    → Consecutive mid cs to
    → Consecutive from (bs ++ cs) to
Consecutive-append from mid to [] cs h k = rw h k
Consecutive-append from mid to (b ∷ bs) cs (m, l, o, n, h) k =
    (m, l, o, n, Consecutive-append m mid to bs cs h k)

-- What holds of the blocks that are returned: they cover `start` to `end` without a gap.
pub record WellFlushed (bytes : List ℕ) (blocks : List CompressedBlock) : Type 0 where
  pub start : ℕ
  pub end : ℕ
  pub within : end ≤ length bytes
  pub consecutive : Consecutive start blocks end
  pub counted : All Counted blocks
  pub few : length blocks ≤ max_chunks_per_stream
  pub small : sum_literals blocks ≤ max_total_literals

-- The blocks so far: at most `n`, from `start` to `block_start`.
record Written (start n : ℕ) (blocks : List CompressedBlock) (block_start total : ℕ) : Type 0 where
  consecutive : Consecutive start blocks block_start
  counted : All Counted blocks
  few : length blocks ≤ n
  summed : sum_literals blocks ≡ total
  small : total ≤ max_total_literals

-- What some rounds have done.
abbrev Scanned : List ℕ → ℕ → ℕ → Stream → Type 0
Scanned bytes start n s =
    Written start n s.blocks s.block_start s.total_literals
    × (s.block_start ≤ s.pos)
    × (s.pos ≤ length bytes)

or_err-Ensures : {A : Type 0} (o : Option A) (e : ZiftError) → Ensures (λ _. Unit {0}) (or_err o e)
unfolding or_err
or_err-Ensures none e = fails
or_err-Ensures (some a) e = returns tt

handle_snappy_chunk-Ensures :
    (snap : Snap) (chunk_type : ℕ) (chunk_data current : List ℕ) (pos : ℕ)
    → Ensures (λ _. Unit {0}) (handle_snappy_chunk snap chunk_type chunk_data current pos)
unfolding handle_snappy_chunk decompress_chunk raw_chunk ◌>>=◌
handle_snappy_chunk-Ensures snap chunk_type chunk_data current pos =
    search (ensures_rules, tests, slice-Ensures, or_err-Ensures)

decode_chunk_len-Ensures :
    (bytes : List ℕ) (start : ℕ)
    → Ensures (λ len. (len.1 ≡ 3) × (start + 3 ≤ length bytes)) (decode_chunk_len bytes start)
unfolding decode_chunk_len ◌>>◌
decode_chunk_len-Ensures bytes start = search (ensures_rules, tests, index-Ensures)

module _ (bytes : List ℕ) (start n : ℕ) (fits : FitsIsize bytes) where
  -- After `flush_block`, with one more block.
  abbrev FlushedFrom : Stream → Stream → Type 0
  FlushedFrom s s' =
      Scanned bytes start (n + 1) s' × (s'.pos ≡ s.pos) × (s'.chunk_count ≡ s.chunk_count)

  flush_block-Ensures :
      (s : Stream)
      → Scanned bytes start n s
      → 0 < length s.current_literals
      → Ensures (FlushedFrom s) (flush_block s)
  unfolding flush_block
  flush_block-Ensures s (w, ahead, within) some_left = Ensures-refuse _ _ λ total.
      let short : min (length s.current_literals) (2 ^ 32 - 1) ≡ length s.current_literals =
        omega tests in
      let offset : min s.block_start (2 ^ 64 - 1) ≡ s.block_start = omega arith in
      returns (
        (
          record {
            consecutive =
                Consecutive-append start s.block_start s.pos s.blocks _ w.consecutive
                  (s.pos, ahead, offset, refl, refl);
            counted = All-append Counted s.blocks _ w.counted ((some_left, rw short refl), tt);
            few = omega (arith, length-append s.blocks (_ ∷ []), w.few);
            summed = omega (arith, sum_literals-append s.blocks (_ ∷ []), w.summed);
            small = omega tests;
          },
          omega arith,
          within,
        ),
        refl,
        refl,
      )

  -- There may be one block more.
  more_room : (s : Stream) → Scanned bytes start n s → Scanned bytes start (n + 1) s
  more_room s (w, ahead, within) = (
    record {
      consecutive = w.consecutive;
      counted = w.counted;
      few = omega (arith, w.few);
      summed = w.summed;
      small = w.small;
    },
    ahead,
    within,
  )

  flush_large-Ensures :
      (s : Stream) → Scanned bytes start n s → Ensures (FlushedFrom s) (flush_large s)
  unfolding flush_large
  flush_large-Ensures s h =
      Ensures-if (ltb (32 * 1024) (length s.current_literals))
        (λ large. flush_block-Ensures s h (omega tests)) (λ _. returns (more_room s h, refl, refl))

-- The blocks are returned.
finished :
    (bytes : List ℕ) (start n : ℕ) (s : Stream)
    → Scanned bytes start n s
    → n ≤ max_chunks_per_stream
    → WellFlushed bytes s.blocks
finished bytes start n s (w, ahead, within) l = record {
  start = start;
  end = s.block_start;
  within = omega arith;
  consecutive = w.consecutive;
  counted = w.counted;
  few = omega (arith, w.few);
  small = rw w.summed w.small;
}

-- At the end of a round there are no more blocks than chunks.
abbrev AtChunk : List ℕ → ℕ → Stream → Type 0
AtChunk bytes start s =
    Scanned bytes start s.chunk_count s × (s.chunk_count < max_chunks_per_stream)

module _ (snap : Snap) (bytes : List ℕ) (start : ℕ) (fits : FitsIsize bytes) where
  flush_last-Ensures :
      (s : Stream) → AtChunk bytes start s → Ensures (WellFlushed bytes) (flush_last s)
  unfolding flush_last
  flush_last-Ensures s (h, few) =
      Ensures-if (not (length s.current_literals == 0))
        (λ some_left.
          Ensures-bind (flush_block-Ensures bytes start s.chunk_count fits s h (ground arith))
            λ s' k. returns (finished bytes start (s.chunk_count + 1) s' k.0 (omega arith)))
        (λ _. returns (finished bytes start s.chunk_count s h (omega arith)))

  -- One round from `s`: it goes on behind `s.pos`, or ends.
  abbrev Round : Stream → Next Stream Stream → Type 0
  Round = Progress (AtChunk bytes start) (AtChunk bytes start) (λ s. length bytes - s.pos)

  take_chunk-Ensures :
      (from s : Stream) (chunk_type chunk_len : ℕ)
      → from.pos < s.pos
      → Scanned bytes start from.chunk_count s
      → s.chunk_count ≡ from.chunk_count + 1
      → s.chunk_count < max_chunks_per_stream
      → Ensures (Round from) (take_chunk snap bytes s chunk_type chunk_len)
  unfolding take_chunk
  take_chunk-Ensures from s chunk_type chunk_len p h count few = Ensures-refuse _ _ λ _.
      Ensures-refuse _ _ λ room.
        Ensures-bind (slice-Ensures bytes s.pos (s.pos + chunk_len) (omega arith) (omega tests))
          λ chunk_data _.
            Ensures-bind (handle_snappy_chunk-Ensures snap chunk_type chunk_data _ s.pos)
              λ literals _.
                Ensures-bind
                  (flush_large-Ensures bytes start from.chunk_count fits
                    (record s { current_literals = literals }) h)
                  λ t k.
                    let same : t.chunk_count ≡ from.chunk_count + 1 = omega arith in
                    returns (((rw same k.0.0, omega arith, omega tests), omega arith), omega arith)

  chunk_round-Ensures :
      (s : Stream) → AtChunk bytes start s → Ensures (Round s) (chunk_round snap bytes s)
  unfolding chunk_round
  chunk_round-Ensures s h =
      Ensures-if (ltb s.pos (length bytes))
        (λ more. Ensures-refuse _ _ λ few. Ensures-refuse _ _ λ _. Ensures-refuse _ _ λ _.
          Ensures-bind (index-Ensures bytes s.pos (omega tests)) λ chunk_type _.
            Ensures-bind (decode_chunk_len-Ensures bytes (s.pos + 1)) λ len l.
              take_chunk-Ensures s
                (record s { pos = s.pos + 1 + len.1; chunk_count = s.chunk_count + 1 }) chunk_type
                len.0 (omega arith) (h.0.0, omega arith, omega arith) refl (omega tests))
        (λ _. returns h)

identifier_bound :
    (bytes : List ℕ) → (if starts_with bytes stream_identifier then 10 else 0) ≤ length bytes
identifier_bound bytes = elim (Bool-cases (starts_with bytes stream_identifier)) [
  | inl h ↦ rw h (length-starts_with bytes stream_identifier h)
  | inr h ↦ rw h (omega arith)
]

-- On any slice shorter than 2^63 bytes and with any decoder, the `extract_literals` of Snappy ends
-- without a panic, and blocks that it returns are at most 100,000, hold at most 256 MiB of literals
-- together, lie one behind the other without a gap within the slice, are not empty, and each states
-- the number of its literals.
pub extract_literals-WellFlushed :
    (snap : Snap) (bytes : List ℕ)
    → FitsIsize bytes
    → Ensures (WellFlushed bytes) (extract_literals snap bytes)
unfolding extract_literals
extract_literals-WellFlushed snap bytes fits =
    let start : ℕ = if starts_with bytes stream_identifier then 10 else 0 in
    Ensures-refuse _ _ λ _.
      Ensures-bind
        (loop_rule (AtChunk bytes start) _ (λ s. length bytes - s.pos) _
          (chunk_round-Ensures snap bytes start fits) _ _ (omega arith)
          (
            (
              record {
                consecutive = refl;
                counted = tt;
                few = omega arith;
                summed = omega arith;
                small = omega arith;
              },
              omega arith,
              identifier_bound bytes,
            ),
            omega arith,
          ))
        λ s h. flush_last-Ensures snap bytes start fits s h
