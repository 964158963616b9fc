-- ===== src/Gzip/Deflate/Stored.antt =====
-- Stored blocks, written down on their own, and `parse_deflate_stream` of src/gzip/deflate.rs on
-- them.
use ziftsieve.Base.{
  ℕ, zero, suc, ◌+◌, ◌-◌, ◌/◌, ◌%◌, ◌^◌, ◌≤◌, ◌<◌, ◌≡◌, refl, ap, ap₂, ◌∙◌, arith, rest_bound, List,
  [], ◌∷◌, ◌++◌, All, length, length-append, append_assoc, FitsIsize, if◌then◌else◌, ◌||◌, ge→ltb,
  gt→leb, false, ◌==◌, saturating_add, loop, again, done, Returns, gives, Returns-bind, Returns-map,
  Returns-refuse, Returns-loop, onward, ended,
}
use ziftsieve.Block.{CompressedBlock}
use ziftsieve.Gzip.Bits.{Bytes, value, skip_add}
use ziftsieve.Gzip.Reader.{BitReader, bit_offset}
use ziftsieve.Gzip.Reader.Valid.{Valid, position}
use ziftsieve.Gzip.Reader.Partial.{position_bound}
use ziftsieve.Gzip.Reader.Read.{read_bits-Valid, bits_at}
use ziftsieve.Gzip.Reader.Aligned.{align_to_byte-Valid}
use ziftsieve.Gzip.Reader.StandsAt.{
  StandsAt, byte_at, room, behind, read_u16_le-StandsAt, read_bytes-StandsAt,
}
use ziftsieve.Gzip.Deflate.Tables.{max_deflate_blocks_per_member}
use ziftsieve.Gzip.Deflate.Block.{push_literals, parse_stored_block, parse_single_block}
use ziftsieve.Gzip.Deflate.Stream.{Stream, max_total_literals, deflate_round, parse_deflate_stream}

-- The length, its complement, and the bytes.
abbrev pub encode_run : List ℕ → List ℕ → List ℕ
encode_run run rest =
    length run % 256
    ∷ length run / 256
    ∷ (65535 - length run) % 256
    ∷ (65535 - length run) / 256
    ∷ (run ++ rest)

-- A stored block for each run; the last one is final.
unfoldable pub encode_runs : List ℕ → List (List ℕ) → List ℕ → List ℕ
encode_runs run [] rest = 1 ∷ encode_run run rest
encode_runs run (next ∷ runs) rest = 0 ∷ encode_run run (encode_runs next runs rest)

module _ (bytes : List ℕ) (h : Bytes bytes) (fits : FitsIsize bytes) where
  -- Behind the bits of a block's header, in the byte that they fill up.
  parse_stored_block-StandsAt :
      (start r : BitReader) (byte : ℕ) (run rest : List ℕ) (block : CompressedBlock)
      → StandsAt bytes (byte ∷ encode_run run rest) start
      → Valid bytes r
      → position r ≡ position start + 3
      → length run < 65536
      → length block.literals ≡ 0
      → Returns
          (λ s.
            (s.block ≡ push_literals block run)
            × StandsAt bytes rest s.reader
            × (s.had_matches ≡ false))
          (parse_stored_block r block)
  unfolding parse_stored_block
  parse_stored_block-StandsAt start r byte run rest block at_start v three short empty =
      Returns-bind (align_to_byte-Valid bytes h fits r v) λ aligned a.
        let at_run : StandsAt bytes (encode_run run rest) aligned =
          behind bytes h fits start aligned (byte ∷ []) _ at_start a.0
            (omega (arith, a.1, a.2, three, at_start.at_byte)) in
        Returns-bind (read_u16_le-StandsAt bytes h fits aligned _ _ _ at_run) λ len k.
          Returns-bind (read_u16_le-StandsAt bytes h fits len.reader _ _ _ k.1) λ nlen m.
            let len-is : len.value ≡ length run = omega (arith, k.0) in
            Returns-refuse _ _ (ground (arith, m.0, len-is, short)) (
              Returns-refuse _ _ (ground (arith, len-is, short, empty)) (
                Returns-bind
                  (read_bytes-StandsAt bytes h fits nlen.reader run rest len.value m.1 len-is)
                  λ taken t. gives (ap (push_literals block) t.0, t.1, refl)))

  -- The header's bits: final or not, and the type 0.
  header_bits :
      (r : BitReader) (byte : ℕ) (ys : List ℕ)
      → StandsAt bytes (byte ∷ ys) r
      → byte < 2
      → (bits_at bytes (position r) 1 ≡ byte) × (bits_at bytes (position r + 1) 2 ≡ 0)
  header_bits r byte ys s small =
      let whole : bits_at bytes (position r) 8 ≡ byte = byte_at bytes h fits r byte ys s in
      (omega (arith, whole), omega (arith, whole, skip_add (value bytes) (position r) 1))

-- The literals of each block.
abbrev pub literals_of : List CompressedBlock → List (List ℕ)
literals_of [] = []
literals_of (b ∷ blocks) = b.literals ∷ literals_of blocks

literals_of-append :
    (blocks : List CompressedBlock) (b : CompressedBlock)
    → literals_of (blocks ++ b ∷ []) ≡ literals_of blocks ++ b.literals ∷ []
literals_of-append [] b = refl
literals_of-append (c ∷ blocks) b = ap (λ ls. c.literals ∷ ls) (literals_of-append blocks b)

-- A stream that stands before `rest`, with so many blocks and literals so far, and no matches.
pub record Reached (bytes rest : List ℕ) (runs : List (List ℕ)) (blocks total : ℕ) (s : Stream)
    : Type 0 where
  pub at_rest : StandsAt bytes rest s.reader
  pub literals : literals_of s.blocks ≡ runs
  pub count : length s.blocks ≡ blocks
  pub sum : s.total_literals ≡ total
  pub unmatched : s.had_matches ≡ false

module _ (bytes : List ℕ) (h : Bytes bytes) (fits : FitsIsize bytes) where
  deflate_round-Reached :
      (s : Stream) (byte blocks total : ℕ) (run rest : List ℕ) (runs : List (List ℕ))
      → Reached bytes (byte ∷ encode_run run rest) runs blocks total s
      → byte < 2
      → length run < 65536
      → blocks < max_deflate_blocks_per_member
      → total + length run ≤ max_total_literals
      → Returns
          (λ n.
            (next : Stream) × (n ≡ (if byte == 1 then done next else again next))
            × Reached bytes rest (runs ++ run ∷ []) (suc blocks) (total + length run) next)
          (deflate_round s)
  unfolding deflate_round parse_single_block
  deflate_round-Reached s byte blocks total run rest runs p bit short few small =
      let at : StandsAt bytes (byte ∷ encode_run run rest) s.reader = p.at_rest in
      let inside : s.reader.byte_pos + 1 ≤ length bytes = room bytes h fits s.reader byte _ at in
      let bits = header_bits bytes h fits s.reader byte _ at bit in
      Returns-refuse _ _
        (gt→leb max_deflate_blocks_per_member (length s.blocks) (omega (arith, p.count)))
        (Returns-bind
          (read_bits-Valid bytes h fits s.reader 1 at.valid (omega arith)
            (omega (arith, at.at_byte, inside)))
          λ final k.
            Returns-bind
              (read_bits-Valid bytes h fits final.reader 2 k.1 (omega arith)
                (omega (arith, k.2, at.at_byte, inside)))
              λ block_type m.
                let stored : block_type.value ≡ 0 =
                  m.0 ∙ ap (λ q. bits_at bytes q 2) k.2 ∙ bits.1 in
                rw stored (
                  Returns-bind
                    (parse_stored_block-StandsAt bytes h fits s.reader block_type.reader byte run
                      rest _ at m.1 (omega (arith, k.2, m.2)) short refl)
                    λ step t.
                      let run-is : step.block.literals ≡ run = ap (λ b. b.literals) t.0 in
                      let total-is : saturating_add s.total_literals (length step.block.literals)
                          ≡ total + length run =
                        omega (arith, ap length run-is, p.sum, small) in
                      let used : (bit_offset step.reader - bit_offset s.reader + 7) / 8
                          ≤ 2 ^ 32 - 1 =
                        omega (
                          arith,
                          short,
                          length-append run rest,
                          rest_bound bytes s.reader.byte_pos _ at.left,
                          rest_bound bytes step.reader.byte_pos _ t.1.left,
                          at.at_byte,
                          t.1.at_byte,
                          inside,
                          position_bound bytes step.reader t.1.valid,
                        ) in
                      let block : CompressedBlock = record step.block {
                        compressed_len = (bit_offset step.reader - bit_offset s.reader + 7) / 8;
                      } in
                      let next : Stream = record {
                        reader = step.reader;
                        blocks = s.blocks ++ block ∷ [];
                        total_literals =
                            saturating_add s.total_literals (length step.block.literals);
                        had_matches = s.had_matches || step.had_matches;
                      } in
                      let flag : final.value ≡ byte = k.0 ∙ bits.0 in
                      Returns-refuse _ _
                        (ge→ltb max_total_literals _ (omega (arith, total-is, small)))
                        (Returns-refuse _ _ (ge→ltb (2 ^ 32 - 1) _ used) (
                          gives (
                            next,
                            ap (λ v. if v == 1 then done next else again next) flag,
                            record {
                              at_rest = t.1;
                              literals =
                                  literals_of-append s.blocks block
                                  ∙ ap₂ (λ ls l. ls ++ l ∷ []) p.literals run-is;
                              count =
                                  omega (arith, length-append {0} s.blocks (block ∷ []), p.count);
                              sum = total-is;
                              unmatched = rw p.unmatched t.2;
                            },
                          )))))

weaken :
    {bytes rest : List ℕ} {runs runs' : List (List ℕ)} {blocks blocks' total total' : ℕ}
    {s : Stream}
    → Reached bytes rest runs blocks total s
    → runs ≡ runs'
    → blocks ≡ blocks'
    → total ≡ total'
    → Reached bytes rest runs' blocks' total' s
weaken p r b t = record {
  at_rest = p.at_rest;
  literals = p.literals ∙ r;
  count = p.count ∙ b;
  sum = p.sum ∙ t;
  unmatched = p.unmatched;
}

abbrev pub sum_lengths : List (List ℕ) → ℕ
sum_lengths [] = 0
sum_lengths (run ∷ runs) = length run + sum_lengths runs

-- Each run has a length of 16 bits, and all together stay within the limits of a stream.
abbrev pub FitsRuns : List (List ℕ) → Type 0
FitsRuns runs =
    All (λ run. length run < 65536) runs
    × (length runs ≤ max_deflate_blocks_per_member)
    × (sum_lengths runs ≤ max_total_literals)

module _ (bytes : List ℕ) (h : Bytes bytes) (fits : FitsIsize bytes) where
  runs_loop :
      (runs : List (List ℕ)) (run rest : List ℕ) (seen : List (List ℕ)) (blocks total fuel : ℕ)
      (s : Stream)
      → Reached bytes (encode_runs run runs rest) seen blocks total s
      → All (λ run. length run < 65536) (run ∷ runs)
      → blocks + length runs < max_deflate_blocks_per_member
      → total + sum_lengths (run ∷ runs) ≤ max_total_literals
      → length runs < fuel
      → Returns
          (Reached bytes rest
            (seen ++ run ∷ runs)
            (blocks + length (run ∷ runs))
            (total + sum_lengths (run ∷ runs)))
          (loop fuel deflate_round s)
  unfolding encode_runs
  runs_loop runs run rest seen blocks total zero s p short few small f = absurd (omega (arith, f))
  runs_loop [] run rest seen blocks total (suc fuel) s p short few small f = Returns-loop s (
      Returns-map
        (λ n e. rw e.1 (
          ended (
            weaken {blocks' = blocks + 1} {total' = total + (length run + 0)} e.2 refl (omega arith)
              (omega arith))))
        (deflate_round-Reached bytes h fits s 1 blocks total run rest seen p (omega arith) short.0
          (omega (arith, few)) (omega (arith, small))))
  runs_loop (next ∷ runs) run rest seen blocks total (suc fuel) s p short few small f =
      Returns-loop s (
        Returns-map
          (λ n e. rw e.1 (
            onward (
              Returns-map
                (λ end k.
                  weaken k (append_assoc seen (run ∷ []) (next ∷ runs)) (omega arith) (omega arith))
                (runs_loop runs next rest (seen ++ run ∷ []) (suc blocks) (total + length run) fuel
                  e.0 e.2 short.1 (omega (arith, few)) (omega (arith, small)) (omega (arith, f))))))
          (deflate_round-Reached bytes h fits s 0 blocks total run _ seen p (omega arith) short.0
            (omega (arith, few)) (omega (arith, small))))

  -- Behind blocks that are there already, a block for each run.
  pub parse_deflate_stream-encode_runs :
      (r : BitReader) (run rest : List ℕ) (runs : List (List ℕ)) (blocks : List CompressedBlock)
      (total : ℕ)
      → StandsAt bytes (encode_runs run runs rest) r
      → All (λ run. length run < 65536) (run ∷ runs)
      → length blocks + length runs < max_deflate_blocks_per_member
      → total + sum_lengths (run ∷ runs) ≤ max_total_literals
      → Returns
          (Reached bytes rest
            (literals_of blocks ++ run ∷ runs)
            (length blocks + length (run ∷ runs))
            (total + sum_lengths (run ∷ runs)))
          (parse_deflate_stream r blocks total)
  unfolding parse_deflate_stream
  parse_deflate_stream-encode_runs r run rest runs blocks total at short few small =
      runs_loop runs run rest (literals_of blocks) (length blocks) total
        (max_deflate_blocks_per_member + 2) _
        (record { at_rest = at; literals = refl; count = refl; sum = refl; unmatched = refl }) short
        few small (omega (arith, few))
