-- ===== src/Zstd/Streaming/Reading.antt =====
-- The loop over the blocks of a frame of src/zstd/streaming.rs, on blocks of the format.
use ziftsieve.Base.{
  bit, ℕ, zero, suc, ◌+◌, ◌≤◌, ◌<◌, ◌≡◌, refl, ◌∙◌, ap, arith, List, [], ◌∷◌, ◌++◌, map, length,
  drop, Bool, true, false, ok, ◌>>◌, refuse, loop, again, done, FitsIsize, rest-run, ge→ltb, gt→leb,
  append_assoc, length-append, length-map, leb, if◌then◌else◌, saturating_add, Returns, gives,
  Returns-bind, Returns-refuse, Returns-if, Returns-map, Returns-loop, Onward, onward, ended, Next,
  invalid_data, too_many_zstd_blocks,
}
use mathlib.Core.List.{map-append}
use ziftsieve.Block.{CompressedBlock, sum_literals, sum_literals-append}
use ziftsieve.Zstd.Decoder.{DecodeLiterals}
use ziftsieve.Zstd.Streaming.{
  TakenBlock, Streaming, block_round, max_total_literals, max_allowed_literals, max_blocks,
  max_block_size,
}
use ziftsieve.Zstd.Streaming.Taken.{TakenAs, parse_block-Holds}
use ziftsieve.Zstd.Streaming.Format.{
  Body, body_size, encode_block, encode_blocks, Holds, BlocksHold, last_block, next_block,
}

abbrev pub literals_of : List CompressedBlock → List (List ℕ)
literals_of blocks = map (λ (b : CompressedBlock). b.literals) blocks

abbrev pub sum_lengths : List (List ℕ) → ℕ
sum_lengths [] = 0
sum_lengths (xs ∷ xss) = length xs + sum_lengths xss

pub sum_lengths-literals_of :
    (bs : List CompressedBlock) → sum_lengths (literals_of bs) ≡ sum_literals bs
sum_lengths-literals_of [] = refl
sum_lengths-literals_of (b ∷ bs) = omega (arith, sum_lengths-literals_of bs)

pub sum_lengths-append :
    (xss yss : List (List ℕ)) → sum_lengths (xss ++ yss) ≡ sum_lengths xss + sum_lengths yss
sum_lengths-append [] yss = omega arith
sum_lengths-append (xs ∷ xss) yss = omega (arith, sum_lengths-append xss yss)

module _ (whole : List (List ℕ)) where
  -- What the blocks so far do not hold is `todo`.
  pub record Reading (todo : List (List ℕ)) (s : Streaming) : Type 0 where
    pub all : literals_of s.blocks ++ todo ≡ whole
    pub counted : s.total_literals ≡ sum_literals s.blocks

  -- Where a run of bytes has been read, of which `todo` is left.
  abbrev pub ReadOn : List (List ℕ) → ℕ → ℕ → Streaming → Type 0
  ReadOn todo end count s = Reading todo s × (s.pos ≡ end) × (s.frame_count ≡ count)

-- All literals, which keep the limits of the parser.
module _ (decode_literals : DecodeLiterals) (bytes : List ℕ) (fits : FitsIsize bytes)
    (whole : List (List ℕ)) (small : sum_lengths whole ≤ max_total_literals)
    (fair : sum_lengths whole ≤ max_allowed_literals bytes) (few : length whole ≤ max_blocks) where
  module _ (xs : List ℕ) (todo : List (List ℕ)) (s : Streaming)
      (r : Reading whole (xs ∷ todo) s) where
    total_le : s.total_literals + length xs + sum_lengths todo ≡ sum_lengths whole
    total_le = omega (
      arith,
      r.counted,
      sum_lengths-literals_of s.blocks,
      sum_lengths-append (literals_of s.blocks) (xs ∷ todo),
      ap sum_lengths r.all,
    )

    blocks_le : suc (length s.blocks) + length todo ≡ length whole
    blocks_le = omega (
      arith,
      length-append (literals_of s.blocks) (xs ∷ todo),
      length-map s.blocks (λ (b : CompressedBlock). b.literals),
      ap length r.all,
    )

    advance :
        (b : CompressedBlock) (pos : ℕ)
        → b.literals ≡ xs
        → Reading whole todo (record s {
          pos = pos;
          blocks = s.blocks ++ (b ∷ []);
          total_literals = saturating_add s.total_literals (length b.literals);
        })
    advance b pos e = record {
      all =
          rw (map-append (λ (b : CompressedBlock). b.literals) s.blocks (b ∷ []), append_assoc, e)
            r.all;
      counted =
          omega (arith, total_le, r.counted, sum_literals-append s.blocks (b ∷ []), ap length e);
    }

  -- A round ends the frame exactly at its last block.
  abbrev RoundGives : Bool → List (List ℕ) → ℕ → ℕ → Next Streaming Streaming → Type 0
  RoundGives true todo end count (done s) = ReadOn whole todo end count s
  RoundGives false todo end count (again s) = ReadOn whole todo end count s
  RoundGives _ todo end count n = ⊥

  block_round-Reading :
      (flag : Bool) (b : Body) (xs rest : List ℕ) (todo : List (List ℕ)) (s : Streaming)
      → Reading whole (xs ∷ todo) s
      → drop s.pos bytes ≡ encode_block flag b ++ rest
      → body_size b ≤ max_block_size
      → Holds decode_literals b xs
      → 1 ≤ length todo + bit flag
      → Returns
          (RoundGives flag todo (s.pos + length (encode_block flag b)) s.frame_count)
          (block_round decode_literals bytes s)
  unfolding block_round
  block_round-Reading flag b xs rest todo s r e size h more =
      Returns-bind (parse_block-Holds decode_literals bytes fits b flag xs rest s.pos e size h)
        λ t k.
          let total = total_le xs todo s r in
          let count = blocks_le xs todo s r in
          let same = ap length k.0 in
          Returns-refuse _ _ (ge→ltb _ _ (omega (arith, total, same))) (
            Returns-refuse _ _ (ge→ltb (max_allowed_literals bytes) _ (omega (arith, total, same)))
              (ends flag more t k count))
    where
      ends :
          (flag : Bool)
          → 1 ≤ length todo + bit flag
          → (t : TakenBlock)
          → TakenAs decode_literals bytes fits flag xs (s.pos + length (encode_block flag b)) t
          → suc (length s.blocks) + length todo ≡ length whole
          → Returns (RoundGives flag todo (s.pos + length (encode_block flag b)) s.frame_count) (
              if t.is_last
              then ok (
                  done (record s {
                    pos = t.pos;
                    blocks = s.blocks ++ (t.block ∷ []);
                    total_literals = saturating_add s.total_literals (length t.block.literals);
                  }))
              else (do
                refuse
                    (leb max_blocks (length (s.blocks ++ (t.block ∷ []))))
                    (invalid_data t.pos too_many_zstd_blocks)
                ok (
                    again (record s {
                      pos = t.pos;
                      blocks = s.blocks ++ (t.block ∷ []);
                      total_literals = saturating_add s.total_literals (length t.block.literals);
                    }))))
      ends true more t k count =
          Returns-if t.is_last (λ _. gives (advance xs todo s r t.block t.pos k.0, k.2, refl))
            (λ no. absurd (cc))
      ends false more t k count =
          Returns-if t.is_last (λ yes. absurd (cc))
            (λ no.
              Returns-refuse _ _
                (gt→leb max_blocks _ (omega (arith, length-append s.blocks (t.block ∷ []))))
                (gives (advance xs todo s r t.block t.pos k.0, k.2, refl)))

  some_left :
      (bs : List Body) (last : Body) (xss behind : List (List ℕ))
      → BlocksHold decode_literals bs last xss behind
      → 1 ≤ length xss
  some_left bs last xss behind (last_block size h) = omega arith
  some_left bs last xss behind (next_block size h rest) = omega arith

  -- The loop over the blocks of a frame.
  pub blocks-Reading :
      (bs : List Body) (last : Body) (xss behind : List (List ℕ)) (rest : List ℕ) (fuel : ℕ)
      → BlocksHold decode_literals bs last xss behind
      → length bs < fuel
      → (s : Streaming) → Reading whole xss s
      → drop s.pos bytes ≡ encode_blocks bs last ++ rest
      → Returns
          (ReadOn whole behind (s.pos + length (encode_blocks bs last)) s.frame_count)
          (loop fuel (block_round decode_literals bytes) s)
  unfolding encode_blocks
  blocks-Reading bs last xss behind rest zero h room s r e = absurd (omega arith)
  blocks-Reading [] last _ behind rest (suc fuel) (last_block {xs} size h) room s r e =
      Returns-loop s (
        Returns-map ended_here
          (block_round-Reading true last xs rest behind s r e size h (omega arith)))
    where
      ended_here :
          (n : Next Streaming Streaming)
          → RoundGives true behind (s.pos + length (encode_block true last)) s.frame_count n
          → Onward fuel
              (block_round decode_literals bytes)
              (ReadOn whole behind (s.pos + length (encode_block true last)) s.frame_count)
              n
      ended_here (done s') k = ended k
      ended_here (again s') k = elim k [ ]
  blocks-Reading (b ∷ bs) last _ behind rest (suc fuel) (next_block {xs} {xss} size h hs) room s r
        e =
      let front = e ∙ append_assoc (encode_block false b) (encode_blocks bs last) rest in
      Returns-loop s (
        Returns-map (goes_on front (blocks-Reading bs last xss behind rest fuel hs (omega arith))) (
          block_round-Reading false b xs (encode_blocks bs last ++ rest) xss s r front size h
            (omega (arith, some_left bs last xss behind hs))))
    where
      goes_on :
          drop s.pos bytes ≡ encode_block false b ++ (encode_blocks bs last ++ rest)
          → ((s' : Streaming)
              → Reading whole xss s'
              → drop s'.pos bytes ≡ encode_blocks bs last ++ rest
              → Returns
                  (ReadOn whole behind (s'.pos + length (encode_blocks bs last)) s'.frame_count)
                  (loop fuel (block_round decode_literals bytes) s'))
          → (n : Next Streaming Streaming)
          → RoundGives false xss (s.pos + length (encode_block false b)) s.frame_count n
          → Onward fuel
              (block_round decode_literals bytes)
              (ReadOn whole behind
                (s.pos + length (encode_block false b ++ encode_blocks bs last))
                s.frame_count)
              n
      goes_on front ih (done s') k = elim k [ ]
      goes_on front ih (again s') k = onward (
          Returns-map
            (λ last_s l. (
              l.0,
              omega (arith, l.1, k.1, length-append (encode_block false b) (encode_blocks bs last)),
              l.2 ∙ k.2,
            ))
            (ih s' k.0 (rw k.1 (rest-run bytes s.pos (encode_block false b) _ front))))
