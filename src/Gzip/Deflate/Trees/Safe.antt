-- ===== src/Gzip/Deflate/Trees/Safe.antt =====
-- The trees of a dynamic block (`parse_dynamic_trees` of src/gzip/deflate.rs) on any bytes.
use ziftsieve.Base.{
  ◌>>=◌, ◌-◌, length-take, code_length, literal_length, distance, false, All-take, ℕ, zero, suc,
  ◌+◌, ◌≤◌, ◌<◌, ◌≡◌, refl, ap, ◌∙◌, arith, List, [], ◌∷◌, length, length-replicate, length-set,
  replicate, set, take, drop, All, ltb, ◌==◌, ◌||◌, ltb→lt, ltb→ge, FitsIsize, index_found,
  slice-Ensures, loop_rule, Progress, Ensures, returns, Ensures-bind, Ensures-refuse, Ensures-map,
  Ensures-if, Ensures-step,
}
use ziftsieve.Gzip.Bits.{Bytes}
use ziftsieve.Gzip.Reader.{BitReader, read_bits_usize}
use ziftsieve.Gzip.Reader.Valid.{Valid}
use ziftsieve.Gzip.Reader.Partial.{Ahead, read_bits_u8-Ensures, read_bits_usize-Ensures}
use ziftsieve.Gzip.Huffman.{HuffmanDecoder, decode}
use ziftsieve.Gzip.Huffman.Sound.{Builds, from_lengths-Builds}
use ziftsieve.Gzip.Huffman.Decode.{decode-Decodes}
use ziftsieve.Gzip.Huffman.Insert.{code_path-Bits}
use ziftsieve.Gzip.Deflate.Tables.{hclen_order, max_deflate_instructions}
use ziftsieve.Gzip.Deflate.Trees.{
  CodeLengths, Trees, fill_lengths, repeat_length, handle_code_length_symbol, code_lengths_round,
  decode_code_lengths, read_lengths, parse_dynamic_trees,
}

fill_lengths-Ensures :
    (lengths : List ℕ) (i value repeat offset : ℕ)
    → Ensures
        (λ f. (length f.lengths ≡ length lengths) × (i ≤ f.i))
        (fill_lengths lengths i value repeat offset)
unfolding fill_lengths
fill_lengths-Ensures lengths i value zero offset = returns (refl, omega arith)
fill_lengths-Ensures lengths i value (suc repeat) offset = Ensures-refuse _ _ λ inside.
    Ensures-map (λ f k. (k.0 ∙ length-set lengths i value, omega (arith, k.1)))
      (fill_lengths-Ensures (set lengths i value) (i + 1) value repeat offset)

module _ (bytes : List ℕ) (h : Bytes bytes) (fits : FitsIsize bytes) where
  -- A decoder for symbols below `limit`.
  pub decode-below :
      (lengths : List ℕ) (d : HuffmanDecoder) (r : BitReader)
      → Builds lengths d
      → Valid bytes r
      → Ensures (λ s. (s.value < length lengths) × Ahead bytes r s.reader) (decode d r)
  decode-below lengths d r b v =
      Ensures-map
        (λ s k. (
          b.in_range _ s.value (code_path-Bits _ _ k.bits) k.symbol,
          (k.valid, omega (arith, k.behind)),
        ))
        (decode-Decodes bytes h fits d.nodes b.tree d r refl v)

  -- As many lengths as before, and a reader that is not behind.
  abbrev Kept : CodeLengths → CodeLengths → Type 0
  Kept s s' =
      Ahead bytes s.reader s'.reader
      × (length s'.lengths ≡ length s.lengths)
      × (s'.instructions ≡ s.instructions)

  repeat_length-Kept :
      (s : CodeLengths) (r : BitReader) (value repeat : ℕ)
      → Ahead bytes s.reader r
      → Ensures (Kept s) (repeat_length s r value repeat)
  unfolding repeat_length
  repeat_length-Kept s r value repeat v =
      Ensures-bind (fill_lengths-Ensures s.lengths s.i value repeat r.byte_pos)
        λ f k. returns (v, k.0, refl)

  -- So many extra bits, then a run.
  repeat_bits-Kept :
      (s : CodeLengths) (bits value least : ℕ)
      → Valid bytes s.reader
      → bits ≤ 32
      → Ensures (Kept s) (
          read_bits_usize s.reader bits >>= λ extra.
          repeat_length s extra.reader value (least + extra.value))
  repeat_bits-Kept s bits value least v few =
      Ensures-bind (read_bits_usize-Ensures bytes h fits s.reader bits v few)
        λ extra k. repeat_length-Kept s extra.reader value _ (k.1, omega (arith, k.2))

  unknown :
      {A : Type 0} (symbol : ℕ)
      → symbol < 19
      → ltb symbol 16 ≡ false
      → (symbol == 16) ≡ false
      → (symbol == 17) ≡ false
      → (symbol == 18) ≡ false
      → A
  unknown symbol known a b c d = absurd (ground arith)

  handle_code_length_symbol-Kept :
      (s : CodeLengths) (symbol : ℕ)
      → Valid bytes s.reader
      → s.i < length s.lengths
      → symbol < 19
      → Ensures (Kept s) (handle_code_length_symbol s symbol)
  unfolding handle_code_length_symbol
  handle_code_length_symbol-Kept s symbol v inside known =
      Ensures-if (ltb symbol 16)
        (λ literal.
          let (old, found, _) = index_found s.lengths s.i inside in
          Ensures-step _ found (returns ((v, omega arith), length-set s.lengths s.i symbol, refl)))
        (λ run.
          Ensures-if (symbol == 16)
            (λ _. Ensures-refuse _ _ λ _. repeat_bits-Kept s 2 s.prev 3 v (omega arith))
            (λ not16.
              Ensures-if (symbol == 17) (λ _. repeat_bits-Kept s 3 0 3 v (omega arith))
                (λ not17.
                  Ensures-if (symbol == 18) (λ _. repeat_bits-Kept s 7 0 11 v (omega arith))
                    (λ not18. unknown symbol known run not16 not17 not18))))

  module _ (lens : List ℕ) (d : HuffmanDecoder) (r : BitReader) (n : ℕ) (b : Builds lens d)
      (size : length lens ≡ 19) where
    abbrev Decoded : CodeLengths → Type 0
    Decoded s = Ahead bytes r s.reader × (length s.lengths ≡ n)

    abbrev Decoding : CodeLengths → Type 0
    Decoding s =
        Ahead bytes r s.reader
        × (length s.lengths ≡ n)
        × (s.instructions ≤ max_deflate_instructions)

    abbrev rounds_left : CodeLengths → ℕ
    rounds_left s = max_deflate_instructions + 1 - s.instructions

    code_lengths_round-Decoding :
        (s : CodeLengths)
        → Decoding s
        → Ensures (Progress Decoding Decoded rounds_left s) (code_lengths_round d s)
    unfolding code_lengths_round
    code_lengths_round-Decoding s p =
        Ensures-if (ltb s.i (length s.lengths))
          (λ inside. Ensures-refuse _ _ λ few.
            let left : s.instructions + 1 ≤ max_deflate_instructions = ltb→ge _ _ few in
            Ensures-bind (decode-below lens d s.reader b p.0.0) λ symbol k.
              Ensures-bind
                (handle_code_length_symbol-Kept
                  (record s { reader = symbol.reader; instructions = s.instructions + 1 })
                  symbol.value k.1.0 (ltb→lt _ _ inside) (omega (arith, k.0, size)))
                λ next m. returns (
                  (
                    (m.0.0, omega (arith, p.0.1, k.1.1, m.0.1)),
                    m.1 ∙ p.1,
                    omega (arith, m.2, left),
                  ),
                  omega (arith, m.2, left),
                ))
          (λ _. returns (p.0, p.1))

  decode_code_lengths-Ensures :
      (lens : List ℕ) (d : HuffmanDecoder) (r : BitReader) (lengths : List ℕ)
      → Builds lens d
      → length lens ≡ 19
      → Valid bytes r
      → Ensures
          (λ s. Ahead bytes r s.reader × (length s.lengths ≡ length lengths))
          (decode_code_lengths r d lengths)
  unfolding decode_code_lengths
  decode_code_lengths-Ensures lens d r lengths b size v =
      loop_rule (Decoding lens d r (length lengths) b size) _
        (rounds_left lens d r (length lengths) b size) (code_lengths_round d)
        (code_lengths_round-Decoding lens d r (length lengths) b size)
        (max_deflate_instructions + 2) _ (omega arith) ((v, omega arith), refl, omega arith)

  read_lengths-Ensures :
      (r : BitReader) (lengths symbols : List ℕ)
      → Valid bytes r
      → All (λ symbol. symbol < length lengths) symbols
      → Ensures
          (λ c. Ahead bytes r c.reader × (length c.lengths ≡ length lengths))
          (read_lengths r lengths symbols)
  unfolding read_lengths
  read_lengths-Ensures r lengths [] v inside = returns ((v, omega arith), refl)
  read_lengths-Ensures r lengths (symbol ∷ symbols) v inside =
      Ensures-bind (read_bits_u8-Ensures bytes h fits r 3 v (omega arith)) λ len k.
        let (old, found, _) = index_found lengths symbol inside.0 in
        let same : length (set lengths symbol len.value) ≡ length lengths =
          length-set lengths symbol len.value in
        Ensures-step _ found (
          Ensures-map (λ c m. ((m.0.0, omega (arith, m.0.1, k.2)), m.1 ∙ same))
            (read_lengths-Ensures len.reader (set lengths symbol len.value) symbols k.1
              (rw same inside.1)))

  -- What `parse_dynamic_trees` gives: two decoders for the symbols that exist.
  pub record TwoTrees (r : BitReader) (t : Trees) : Type 0 where
    pub ahead : Ahead bytes r t.reader
    pub literal_lengths : List ℕ
    pub distance_lengths : List ℕ
    pub literals : Builds literal_lengths t.literal_decoder
    pub distances : Builds distance_lengths t.distance_decoder
    pub few_literals : length literal_lengths ≤ 286
    pub few_distances : length distance_lengths ≤ 30

  sizes_allowed :
      (hlit hdist : ℕ) → (ltb 286 hlit || ltb 30 hdist) ≡ false → (hlit ≤ 286) × (hdist ≤ 30)
  sizes_allowed hlit hdist h = ground arith

  order_known : All (λ symbol. symbol < 19) hclen_order
  order_known = omega arith

  -- From a sound bit reader over a slice of bytes shorter than 2^63, `parse_dynamic_trees` ends
  -- without a panic in a build whose sums of u16 wrap, and what it returns is a sound reader that
  -- is not behind, and two decoders that are built from at most 286 lengths and at most 30 lengths.
  pub parse_dynamic_trees-TwoTrees :
      (r : BitReader) → Valid bytes r → Ensures (TwoTrees r) (parse_dynamic_trees r)
  unfolding parse_dynamic_trees
  parse_dynamic_trees-TwoTrees r v =
      Ensures-bind (read_bits_usize-Ensures bytes h fits r 5 v (omega arith)) λ lit k.
        Ensures-bind (read_bits_usize-Ensures bytes h fits lit.reader 5 k.1 (omega arith)) λ dist l.
          Ensures-bind (read_bits_usize-Ensures bytes h fits dist.reader 4 l.1 (omega arith))
            λ len m. Ensures-refuse _ _ λ sizes.
              Ensures-bind
                (read_lengths-Ensures len.reader (replicate 19 0) (take (len.value + 4) hclen_order)
                  m.1 (All-take _ (len.value + 4) hclen_order order_known))
                λ header c. Ensures-bind (from_lengths-Builds header.lengths code_length) λ d b.
                  Ensures-bind
                    (decode_code_lengths-Ensures header.lengths d header.reader
                      (replicate (lit.value + 257 + (dist.value + 1)) 0) b c.1 c.0.0)
                    λ s e.
                      let hlit : ℕ = lit.value + 257 in
                      let within : (hlit ≤ 286) × (dist.value + 1 ≤ 30) =
                        sizes_allowed hlit (dist.value + 1) sizes in
                      let all : length s.lengths ≡ hlit + (dist.value + 1) =
                        e.1 ∙ length-replicate (hlit + (dist.value + 1)) 0 in
                      Ensures-bind
                        (slice-Ensures s.lengths 0 hlit (omega arith) (omega (arith, all)))
                        λ literals x.
                          Ensures-bind
                            (slice-Ensures s.lengths hlit (length s.lengths) (omega (arith, all))
                              (omega arith))
                            λ distances y.
                              Ensures-bind (from_lengths-Builds literals literal_length) λ ld f.
                                Ensures-bind (from_lengths-Builds distances distance) λ dd g.
                                  returns (record {
                                    ahead = (e.0.0, omega (arith, k.2, l.2, m.2, c.0.1, e.0.1));
                                    literal_lengths = literals;
                                    distance_lengths = distances;
                                    literals = f;
                                    distances = g;
                                    few_literals = omega (
                                      arith,
                                      within.0,
                                      ap length x ∙ length-take (hlit - 0) s.lengths,
                                    );
                                    few_distances = omega (
                                      arith,
                                      within.1,
                                      all,
                                      ap length y
                                          ∙ length-take (length s.lengths - hlit)
                                              (drop hlit s.lengths),
                                    );
                                  })
