-- ===== src/Gzip/Huffman/Decode.antt =====
-- `decode` of src/gzip/bitstream.rs, against the bits that the reader stands at.
use ziftsieve.Base.{
  ℕ, zero, suc, ◌+◌, ◌/◌, ◌%◌, ◌^◌, ◌≤◌, ◌<◌, ◌≡◌, refl, sym, ap, ◌∙◌, arith, List, length, some,
  none, index_found, FitsIsize, Option-cases, inl, inr, Ensures, returns, fails, Ensures-bind,
  Ensures-refuse, Ensures-map, Ensures-step,
}
use ziftsieve.Gzip.Bits.{Bytes, value}
use ziftsieve.Gzip.Reader.{BitReader, Step}
use ziftsieve.Gzip.Reader.Valid.{Valid, position}
use ziftsieve.Gzip.Reader.Partial.{read_bit-ReadsBits}
use ziftsieve.Gzip.Huffman.{HuffmanNode, HuffmanDecoder, child, decode_below, decode}
use ziftsieve.Gzip.Huffman.Paths.{and_then, symbol_below}
use ziftsieve.Gzip.Huffman.Tree.{kid, child_of, symbol_at, symbol_of}
use ziftsieve.Gzip.Huffman.Insert.{Tree, code_path}

-- No symbol stands at the end of fewer than `bits` of the bits from bit `pos` on.
abbrev pub FirstAt : List ℕ → List HuffmanNode → ℕ → ℕ → ℕ → Type 0
FirstAt bytes nodes node pos bits =
    (m : ℕ) → 1 ≤ m → m < bits → symbol_below nodes node (code_path (value bytes) pos m) ≡ none

-- The symbol is the first one at the end of the next bits, and the reader stands behind them.
pub record Decodes (bytes : List ℕ) (nodes : List HuffmanNode) (node most : ℕ) (r : BitReader)
    (s : Step ℕ) : Type 0 where
  pub bits : ℕ
  pub some_bit : 1 ≤ bits
  pub few : bits ≤ most
  pub symbol : symbol_below nodes node (code_path (value bytes) (position r) bits) ≡ some s.value
  pub first : FirstAt bytes nodes node (position r) bits
  pub valid : Valid bytes s.reader
  pub behind : position s.reader ≡ position r + bits

module _ (bytes : List ℕ) (h : Bytes bytes) (fits : FitsIsize bytes) (nodes : List HuffmanNode)
    (t : Tree nodes) where
  pub below_edge :
      (node next b pos n : ℕ)
      → kid nodes node b ≡ some next
      → b ≡ value bytes / 2 ^ pos % 2
      → symbol_below nodes node (code_path (value bytes) pos (suc n))
        ≡ symbol_below nodes next (code_path (value bytes) (pos + 1) n)
  unfolding symbol_below code_path
  below_edge node next b pos n edge at =
      let edge' : kid nodes node (value bytes / 2 ^ pos % 2) ≡ some next = rw at at edge in
      ap (λ o. and_then o (λ k. symbol_below nodes k (code_path (value bytes) (pos + 1) n))) edge'

  pub below_end :
      (node : ℕ) (pos : ℕ)
      → symbol_below nodes node (code_path (value bytes) pos 0) ≡ symbol_at nodes node
  unfolding symbol_below code_path
  below_end node pos = refl

  first_below :
      (node next b pos n : ℕ)
      → kid nodes node b ≡ some next
      → b ≡ value bytes / 2 ^ pos % 2
      → symbol_at nodes next ≡ none
      → FirstAt bytes nodes next (pos + 1) n
      → FirstAt bytes nodes node pos (suc n)
  first_below node next b pos n edge at inner first zero l m = absurd (omega arith)
  first_below node next b pos n edge at inner first (suc zero) l m =
      below_edge node next b pos 0 edge at ∙ below_end next (pos + 1) ∙ inner
  first_below node next b pos n edge at inner first (suc (suc i)) l m =
      below_edge node next b pos (suc i) edge at ∙ first (suc i) (omega arith) (omega arith)

  decode_below-Decodes :
      (rounds node : ℕ) (r : BitReader)
      → node < length nodes
      → Valid bytes r
      → Ensures (Decodes bytes nodes node rounds r) (decode_below nodes rounds node r)
  unfolding decode_below
  decode_below-Decodes zero node r inside v = fails
  decode_below-Decodes (suc rounds) node r inside v =
      Ensures-bind (read_bit-ReadsBits bytes h fits r v) λ bit k.
        let (n, found, here) = index_found nodes node inside in
        Ensures-step _ found (elim (Option-cases (child n bit.value)) [
          | inl free ↦ rw free fails
          | inr (next, taken) ↦
              let bit-is : bit.value ≡ value bytes / 2 ^ position r % 2 = k.0 in
              let edge : kid nodes node bit.value ≡ some next =
                ap (λ o. child_of o bit.value) here ∙ taken in
              let linked : next < length nodes =
                (t.is_tree.linked node bit.value next (omega arith) edge).0 in
              let (m, found', there) = index_found nodes next linked in
              rw taken (
                Ensures-step _ found' (elim (Option-cases m.symbol) [
                  | inl inner ↦ rw inner (
                      Ensures-map
                        (λ s d. record {
                          bits = suc d.bits;
                          some_bit = omega arith;
                          few = omega (arith, d.few);
                          symbol =
                              below_edge node next bit.value (position r) d.bits edge bit-is
                              ∙ ap (λ p. symbol_below nodes next (code_path (value bytes) p d.bits))
                                  (sym k.2)
                              ∙ d.symbol;
                          first =
                              first_below node next bit.value (position r) d.bits edge bit-is
                                (ap symbol_of there ∙ inner) (rw k.2 at d.first);
                          valid = d.valid;
                          behind = omega (arith, d.behind, k.2);
                        })
                        (decode_below-Decodes rounds next bit.reader linked k.1))
                  | inr (symbol, marked) ↦ rw marked (
                      returns (record {
                        bits = 1;
                        some_bit = omega arith;
                        few = omega arith;
                        symbol =
                            below_edge node next bit.value (position r) 0 edge bit-is
                            ∙ below_end next (position r + 1)
                            ∙ ap symbol_of there
                            ∙ marked;
                        first = λ m l f. absurd (omega (arith, l, f));
                        valid = k.1;
                        behind = k.2;
                      }))
                ]))
        ])

  -- On a decoder whose nodes are a tree, and a sound bit reader over a slice of bytes shorter than
  -- 2^63, `decode` does not panic, and it returns the first symbol on the path of the next bits,
  -- and a sound reader just behind them.
  pub decode-Decodes :
      (d : HuffmanDecoder) (r : BitReader)
      → d.nodes ≡ nodes
      → Valid bytes r
      → Ensures (Decodes bytes nodes 0 d.max_bits r) (decode d r)
  unfolding decode
  decode-Decodes d r same v =
      Ensures-refuse _ _
        λ some_bits. rw same (decode_below-Decodes d.max_bits 0 r t.is_tree.some_node v)
