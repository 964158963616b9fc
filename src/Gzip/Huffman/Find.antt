-- ===== src/Gzip/Huffman/Find.antt =====
-- `decode` of src/gzip/bitstream.rs where the bits ahead are a code.
use ziftsieve.Base.{
  ℕ, zero, suc, ◌+◌, ◌*◌, ◌/◌, ◌%◌, ◌^◌, ◌≤◌, ◌<◌, ◌≡◌, ◌≢◌, sym, ap, ◌∙◌, arith, List, length, ltb,
  Bool-cases, some, none, index_found, FitsIsize, Option-cases, inl, inr, gt→leb, ltb→lt, ne→==,
  Returns, Returns-map, NoError, no_error, NoError-bind, NoError-step, NoError-refuse,
  NoError-Returns, Returns-NoError,
}
use ziftsieve.Gzip.Bits.{Bytes, value}
use ziftsieve.Gzip.Reader.{BitReader, read_bit, read_bits_u8}
use ziftsieve.Gzip.Reader.Valid.{Valid, position}
use ziftsieve.Gzip.Reader.Read.{read_bits-Valid}
use ziftsieve.Gzip.Reader.Partial.{read_bits-ReadsBits, read_bit-ReadsBits}
use ziftsieve.Gzip.Huffman.{HuffmanNode, HuffmanDecoder, child, decode_below, decode}
use ziftsieve.Gzip.Huffman.Paths.{and_then, symbol_below}
use ziftsieve.Gzip.Huffman.Tree.{kid, child_of, symbol_at, symbol_of}
use ziftsieve.Gzip.Huffman.Insert.{Tree, code_path}
use ziftsieve.Gzip.Huffman.Decode.{FirstAt, decode-Decodes, below_edge, below_end}

module _ (bytes : List ℕ) (h : Bytes bytes) (fits : FitsIsize bytes) where
  read_bit-total :
      (r : BitReader) → Valid bytes r → position r + 1 ≤ 8 * length bytes → NoError (read_bit r)
  unfolding read_bit read_bits_u8
  read_bit-total r v inside =
      NoError-bind (read_bits-ReadsBits bytes h fits r 1 v (omega arith))
        (NoError-Returns (read_bits-Valid bytes h fits r 1 v (omega arith) inside))
        λ s k. NoError-refuse _ _ (gt→leb 256 s.value (omega (arith, k.0))) no_error

  module _ (nodes : List HuffmanNode) (t : Tree nodes) where
    -- The next `n` bits are the first path to a symbol below the node.
    abbrev pub AheadOf : ℕ → ℕ → ℕ → ℕ → Type 0
    AheadOf node pos n k =
        (1 ≤ n)
        × (pos + n ≤ 8 * length bytes)
        × (symbol_below nodes node (code_path (value bytes) pos n) ≡ some k)
        × FirstAt bytes nodes node pos n

    dead_end :
        (node b pos n k : ℕ)
        → kid nodes node b ≡ none
        → b ≡ value bytes / 2 ^ pos % 2
        → symbol_below nodes node (code_path (value bytes) pos (suc n)) ≢ some k
    unfolding symbol_below code_path
    dead_end node b pos n k free at there =
        let closed : kid nodes node (value bytes / 2 ^ pos % 2) ≡ none = rw at at free in
        let clash : none ≡ some k =
          sym (
            ap (λ o. and_then o (λ c. symbol_below nodes c (code_path (value bytes) (pos + 1) n)))
              closed)
          ∙ there in
        cc

    -- One bit further down.
    below :
        (node next b pos pos' n k : ℕ)
        → kid nodes node b ≡ some next
        → b ≡ value bytes / 2 ^ pos % 2
        → symbol_at nodes next ≡ none
        → pos' ≡ pos + 1
        → AheadOf node pos (suc n) k
        → AheadOf next pos' n k
    below node next b pos pos' zero k edge at inner behind a =
        let found : symbol_at nodes next ≡ some k =
          sym (below_end bytes h fits nodes t next (pos + 1))
          ∙ sym (below_edge bytes h fits nodes t node next b pos 0 edge at)
          ∙ a.2 in
        absurd (let clash : none ≡ some k = sym inner ∙ found in cc)
    below node next b pos pos' (suc n) k edge at inner behind a = rw behind (
      omega arith,
      omega (arith, a.1),
      sym (below_edge bytes h fits nodes t node next b pos (suc n) edge at) ∙ a.2,
      λ m l f.
          sym (below_edge bytes h fits nodes t node next b pos m edge at)
          ∙ a.3 (suc m) (omega arith) (omega (arith, f)),
    )

    decode_below-total :
        (rounds node n k : ℕ) (r : BitReader)
        → node < length nodes
        → Valid bytes r
        → n ≤ rounds
        → AheadOf node (position r) n k
        → NoError (decode_below nodes rounds node r)
    unfolding decode_below
    decode_below-total zero node n k r inside v few a = absurd (omega (arith, a.0, few))
    decode_below-total (suc rounds) node zero k r inside v few a = absurd (omega (arith, a.0))
    decode_below-total (suc rounds) node (suc n) k r inside v few a =
        NoError-bind (read_bit-ReadsBits bytes h fits r v) (read_bit-total r v (omega (arith, a.1)))
          λ bit b.
            let (m, found, here) = index_found nodes node inside in
            let bit-is : bit.value ≡ value bytes / 2 ^ position r % 2 = b.0 in
            NoError-step _ found (elim (Option-cases (child m bit.value)) [
              | inl free ↦ absurd (
                  dead_end node bit.value (position r) n k
                    (ap (λ o. child_of o bit.value) here ∙ free) bit-is a.2)
              | inr (next, taken) ↦
                  let edge : kid nodes node bit.value ≡ some next =
                    ap (λ o. child_of o bit.value) here ∙ taken in
                  let linked : next < length nodes =
                    (t.is_tree.linked node bit.value next (omega arith) edge).0 in
                  let (w, found', there) = index_found nodes next linked in
                  rw taken (
                    NoError-step _ found' (elim (Option-cases w.symbol) [
                      | inr (symbol, marked) ↦ rw marked no_error
                      | inl inner ↦ rw inner (
                          decode_below-total rounds next n k bit.reader linked b.1 (omega arith) (
                            below node next bit.value (position r) (position bit.reader) n k edge
                              bit-is (ap symbol_of there ∙ inner) b.2 a))
                    ]))
            ])

    -- A symbol that is the first one twice is found after the same bits.
    same_bits :
        (node pos m n j k : ℕ)
        → AheadOf node pos n k
        → 1 ≤ m
        → symbol_below nodes node (code_path (value bytes) pos m) ≡ some j
        → FirstAt bytes nodes node pos m
        → m ≡ n
    same_bits node pos m n j k a some_bit there first = elim (Bool-cases (ltb m n)) [
      | inl l ↦
          (let none_there = a.3 m some_bit (ltb→lt m n l) in
            let clash : none ≡ some j = sym none_there ∙ there in absurd cc)
      | inr g ↦ elim (Bool-cases (ltb n m)) [
        | inl l ↦
            (let none_there = first n a.0 (ltb→lt n m l) in
              let clash : none ≡ some k = sym none_there ∙ a.2 in absurd cc)
        | inr g' ↦ ground arith
      ]
    ]

    decode-total :
        (d : HuffmanDecoder) (r : BitReader) (n k : ℕ)
        → d.nodes ≡ nodes
        → Valid bytes r
        → n ≤ d.max_bits
        → AheadOf 0 (position r) n k
        → NoError (decode d r)
    unfolding decode
    decode-total d r n k same v few a =
        NoError-refuse _ _ (ne→== d.max_bits 0 (omega (arith, a.0, few)))
          (rw same (decode_below-total d.max_bits 0 n k r t.is_tree.some_node v few a))

    -- On a decoder whose nodes are a tree, and a sound bit reader over a slice of bytes shorter
    -- than 2^63, where the next bits are the first path to a symbol, with no more bits than the
    -- longest code, `decode` returns that symbol and a sound reader just behind them.
    pub decode-Finds :
        (d : HuffmanDecoder) (r : BitReader) (n k : ℕ)
        → d.nodes ≡ nodes
        → Valid bytes r
        → n ≤ d.max_bits
        → AheadOf 0 (position r) n k
        → Returns
            (λ s. (s.value ≡ k) × Valid bytes s.reader × (position s.reader ≡ position r + n))
            (decode d r)
    decode-Finds d r n k same v few a =
        Returns-map
          (λ s e.
            let bits-is : e.bits ≡ n =
              same_bits 0 (position r) e.bits n s.value k a e.some_bit e.symbol e.first in
            let both : some s.value ≡ some k =
              sym e.symbol
              ∙ ap (λ m. symbol_below nodes 0 (code_path (value bytes) (position r) m)) bits-is
              ∙ a.2 in
            (cc, e.valid, omega (arith, e.behind, bits-is)))
          (Returns-NoError (decode-Decodes bytes h fits nodes t d r same v)
            (decode-total d r n k same v few a))
