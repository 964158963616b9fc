-- ===== src/Gzip/Deflate/Block/Safe.antt =====
-- One block of a DEFLATE stream (src/gzip/deflate.rs) on any bytes.
use ziftsieve.Base.{
  ℕ, ◌+◌, ◌-◌, ◌≤◌, ◌<◌, ◌≡◌, refl, ap, arith, List, [], ◌∷◌, length, length-append, length-take,
  length-drop, All-take, All-drop, All-append, drop, false, not, ltb, ltb→lt, ltb→ge, ◌==◌,
  FitsIsize, saturating_add, loop_rule, Progress, fixed, fixed_distance, Ensures, returns, fails,
  Ensures-bind, Ensures-refuse, Ensures-map, Ensures-if,
}
use ziftsieve.Block.{CompressedBlock}
use ziftsieve.Gzip.Bits.{Bytes}
use ziftsieve.Gzip.Reader.{BitReader}
use ziftsieve.Gzip.Reader.Valid.{Valid}
use ziftsieve.Gzip.Reader.Partial.{
  Ahead, align_to_byte-Ensures, read_u16_le-Ensures, read_bytes-Ensures,
}
use ziftsieve.Gzip.Huffman.{HuffmanDecoder}
use ziftsieve.Gzip.Huffman.Sound.{Builds, from_lengths-Builds}
use ziftsieve.Gzip.Deflate.Tables.{
  max_block_literals, max_deflate_instructions, fixed_litlen_code_lengths, fixed_dist_code_lengths,
}
use ziftsieve.Gzip.Deflate.Trees.Safe.{decode-below, parse_dynamic_trees-TwoTrees}
use ziftsieve.Gzip.Deflate.Block.{
  BlockStep, HuffmanRun, fits_literal_cap, push_literals, parse_stored_block, huffman_symbol,
  huffman_round, parse_huffman_block_with_limit, parse_huffman_block, parse_single_block,
}
use ziftsieve.Gzip.Deflate.Block.Match.{parse_match-Ahead}

-- Literals are bytes, and not too many.
pub record Sound (block : CompressedBlock) : Type 0 where
  pub bytes : Bytes block.literals
  pub few : length block.literals ≤ max_block_literals

push_literals-Sound :
    (block : CompressedBlock) (run : List ℕ)
    → Bytes run
    → not (fits_literal_cap (length block.literals) (length run)) ≡ false
    → Sound block
    → Sound (push_literals block run)
push_literals-Sound block run b fits s = record {
  bytes = All-append _ block.literals run s.bytes b;
  few =
      let cap : saturating_add (length block.literals) (length run) ≤ max_block_literals =
        ground arith in
      omega (arith, cap, length-append {0} block.literals run);
}

-- The block is sound still and stands where it stood, and the reader is not behind.
abbrev pub After : List ℕ → BitReader → CompressedBlock → BlockStep → Type 0
After bytes r block s =
    Ahead bytes r s.reader × Sound s.block × (s.block.compressed_offset ≡ block.compressed_offset)

module _ (bytes : List ℕ) (h : Bytes bytes) (fits : FitsIsize bytes) where
  pub parse_stored_block-After :
      (r : BitReader) (block : CompressedBlock)
      → Valid bytes r
      → Sound block
      → Ensures (After bytes r block) (parse_stored_block r block)
  unfolding parse_stored_block
  parse_stored_block-After r block v s =
      Ensures-bind (align_to_byte-Ensures bytes h fits r v) λ aligned k.
        Ensures-bind (read_u16_le-Ensures bytes h fits aligned k.0.0) λ len l.
          Ensures-bind (read_u16_le-Ensures bytes h fits len.reader l.1) λ nlen m.
            Ensures-refuse _ _ λ _. Ensures-refuse _ _ λ room.
              Ensures-bind (read_bytes-Ensures bytes h fits nlen.reader len.value m.1) λ run n.
                let whole : length run.value ≡ len.value = omega (
                  arith,
                  n.1,
                  ap length n.0,
                  length-take len.value (drop nlen.reader.byte_pos bytes),
                  length-drop nlen.reader.byte_pos bytes,
                ) in
                let run-Bytes : Bytes run.value =
                  rw n.0 (All-take _ len.value _ (All-drop _ nlen.reader.byte_pos bytes h)) in
                returns (
                  (n.2, omega (arith, k.0.1, l.2, m.2, n.3)),
                  push_literals-Sound block run.value run-Bytes (rw whole room) s,
                  refl,
                )

  module _ (lits dists : List ℕ) (ld dd : HuffmanDecoder) (bl : Builds lits ld)
      (bd : Builds dists dd) (limit : ℕ) (r : BitReader) (block : CompressedBlock) where
    abbrev Running : HuffmanRun → Type 0
    Running s =
        Ahead bytes r s.reader
        × Sound s.block
        × (s.block.compressed_offset ≡ block.compressed_offset)
        × (s.instructions ≤ limit)

    abbrev rounds_left : HuffmanRun → ℕ
    rounds_left s = limit + 1 - s.instructions

    huffman_symbol-Running :
        (s : HuffmanRun) (symbol : ℕ) (before : HuffmanRun)
        → Running s
        → before.instructions < s.instructions
        → Ensures
            (Progress Running (After bytes r block) rounds_left before)
            (huffman_symbol dd s symbol)
    unfolding huffman_symbol
    huffman_symbol-Running s symbol before p one_more =
        Ensures-if (ltb symbol 256)
          (λ literal. Ensures-refuse _ _ λ room. returns (
            (
              p.0,
              push_literals-Sound s.block (symbol ∷ []) (ltb→lt symbol 256 literal, tt) room p.1,
              p.2,
              p.3,
            ),
            omega (arith, p.3, one_more),
          ))
          (λ above.
            Ensures-if (symbol == 256) (λ _. returns (p.0, p.1, p.2))
              (λ other.
                Ensures-if (ltb symbol 286)
                  (λ match.
                    Ensures-bind
                      (parse_match-Ahead bytes h fits dists dd s.reader symbol bd p.0.0
                        (ground arith) (ltb→lt symbol 286 match))
                      λ behind k. returns (
                        ((k.0, omega (arith, p.0.1, k.1)), p.1, p.2, p.3),
                        omega (arith, p.3, one_more),
                      ))
                  (λ _. Ensures-if (ltb symbol 288) (λ _. fails) (λ _. fails))))

    huffman_round-Running :
        (s : HuffmanRun)
        → Running s
        → Ensures
            (Progress Running (After bytes r block) rounds_left s)
            (huffman_round ld dd limit s)
    unfolding huffman_round
    huffman_round-Running s p = Ensures-refuse _ _ λ few.
        Ensures-bind (decode-below bytes h fits lits ld s.reader bl p.0.0) λ symbol k.
          huffman_symbol-Running
            (record s { reader = symbol.reader; instructions = s.instructions + 1 }) symbol.value s
            (
              (k.1.0, omega (arith, p.0.1, k.1.1)),
              p.1,
              p.2,
              omega (arith, ltb→ge limit (s.instructions + 1) few),
            )
            (omega arith)

    pub parse_huffman_block_with_limit-After :
        Valid bytes r
        → Sound block
        → Ensures (After bytes r block) (parse_huffman_block_with_limit r block ld dd limit)
    unfolding parse_huffman_block_with_limit
    parse_huffman_block_with_limit-After v s =
        loop_rule Running (After bytes r block) rounds_left (huffman_round ld dd limit)
          huffman_round-Running (limit + 2) _ (omega arith) ((v, omega arith), s, refl, omega arith)

  no_type :
      {A : Type 0} (block_type : ℕ)
      → block_type < 4
      → (block_type == 0) ≡ false
      → (block_type == 1) ≡ false
      → (block_type == 2) ≡ false
      → (block_type == 3) ≡ false
      → A
  no_type block_type known a b c d = absurd (ground arith)

  pub parse_single_block-After :
      (r : BitReader) (block_type : ℕ) (block : CompressedBlock)
      → Valid bytes r
      → Sound block
      → block_type < 4
      → Ensures (After bytes r block) (parse_single_block r block_type block)
  unfolding parse_single_block parse_huffman_block
  parse_single_block-After r block_type block v s known =
      Ensures-if (block_type == 0) (λ _. parse_stored_block-After r block v s)
        (λ not0.
          Ensures-if (block_type == 1)
            (λ _. Ensures-bind (from_lengths-Builds fixed_litlen_code_lengths fixed) λ ld bl.
              Ensures-bind (from_lengths-Builds fixed_dist_code_lengths fixed_distance) λ dd bd.
                parse_huffman_block_with_limit-After _ _ ld dd bl bd max_deflate_instructions r
                  block v s)
            (λ not1.
              Ensures-if (block_type == 2)
                (λ _. Ensures-bind (parse_dynamic_trees-TwoTrees bytes h fits r v) λ t k.
                  Ensures-map (λ b m. ((m.0.0, omega (arith, k.ahead.1, m.0.1)), m.1, m.2))
                    (parse_huffman_block_with_limit-After _ _ t.literal_decoder t.distance_decoder
                      k.literals k.distances max_deflate_instructions t.reader block k.ahead.0 s))
                (λ not2.
                  Ensures-if (block_type == 3) (λ _. fails)
                    (λ not3. no_type block_type known not0 not1 not2 not3))))
