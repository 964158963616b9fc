-- ===== src/Gzip/Deflate/Block/Match.antt =====
-- `parse_match` of src/gzip/deflate.rs: the two tables stay in range, and so do their values.
use ziftsieve.Base.{
  ℕ, zero, suc, ◌+◌, ◌-◌, ◌^◌, ◌≤◌, ◌<◌, ◌≡◌, refl, arith, List, [], ◌∷◌, get_elem?, some, Bool,
  true, ◌&&◌, leb, leb→gt, ltb, FitsIsize, index_found, Ensures, returns, Ensures-bind,
  Ensures-refuse, Ensures-map, Ensures-if, Ensures-step,
}
use native.Mathlib.Nat.{one-le-pow}
use ziftsieve.Gzip.Bits.{Bytes}
use ziftsieve.Gzip.Reader.{BitReader, Step}
use ziftsieve.Gzip.Reader.Valid.{Valid}
use ziftsieve.Gzip.Reader.Partial.{Ahead, read_bits-Ensures}
use ziftsieve.Gzip.Huffman.{HuffmanDecoder}
use ziftsieve.Gzip.Huffman.Sound.{Builds}
use ziftsieve.Gzip.Deflate.Tables.{
  literal_length_bases, literal_length_extra_bits, distance_bases, distance_extra_bits,
}
use ziftsieve.Gzip.Deflate.Trees.Safe.{decode-below}
use ziftsieve.Gzip.Deflate.Block.{add_extra_bits, match_length, match_distance, parse_match}

-- Every base with its extra bits gives a number from `low` to `high`.
abbrev within_range : ℕ → ℕ → List ℕ → List ℕ → Bool
within_range low high (base ∷ bases) (extra ∷ extras) =
    leb low base
    && leb (base + 2 ^ extra) (high + 1)
    && leb extra 32
    && within_range low high bases extras
within_range low high _ _ = true

within_range-at :
    (low high : ℕ) (bases extras : List ℕ) (i base extra : ℕ)
    → within_range low high bases extras ≡ true
    → get_elem? bases i ≡ some base
    → get_elem? extras i ≡ some extra
    → (low ≤ base) × (base + 2 ^ extra ≤ high + 1) × (extra ≤ 32)
within_range-at low high [] extras i base extra w b e = cc
within_range-at low high (base' ∷ bases) [] i base extra w b e = cc
within_range-at low high (base' ∷ bases) (extra' ∷ extras) zero base extra w b e =
    let same : base' ≡ base = cc in
    let same' : extra' ≡ extra = cc in rw (← same, ← same') (ground arith)
within_range-at low high (base' ∷ bases) (extra' ∷ extras) (suc i) base extra w b e =
    within_range-at low high bases extras i base extra (ground arith) b e

-- A number from `low` to `high`, and a reader that is not behind.
abbrev pub Ranged : List ℕ → BitReader → ℕ → ℕ → Step ℕ → Type 0
Ranged bytes r low high s = (low ≤ s.value) × (s.value ≤ high) × Ahead bytes r s.reader

module _ (bytes : List ℕ) (h : Bytes bytes) (fits : FitsIsize bytes) where
  add_extra_bits-Ranged :
      (r : BitReader) (low high base extra : ℕ)
      → Valid bytes r
      → (low ≤ base) × (base + 2 ^ extra ≤ high + 1) × (extra ≤ 32)
      → Ensures (Ranged bytes r low high) (add_extra_bits r base extra)
  unfolding add_extra_bits
  add_extra_bits-Ranged r low high base extra v k =
      Ensures-if (ltb 0 extra)
        (λ _.
          Ensures-bind (read_bits-Ensures bytes h fits r extra v k.2)
            λ s m. returns (omega (arith, k.0), omega (arith, k.1, m.0), (m.1, omega (arith, m.2))))
        (λ _. returns (k.0, omega (arith, k.1, one-le-pow extra 2 (omega arith)), (v, omega arith)))

  match_length-Ranged :
      (r : BitReader) (symbol : ℕ)
      → Valid bytes r
      → 257 ≤ symbol
      → symbol < 286
      → Ensures (Ranged bytes r 3 258) (match_length r symbol)
  unfolding match_length
  match_length-Ranged r symbol v low high =
      let (extra, found, e) = index_found literal_length_extra_bits (symbol - 257) (omega arith) in
      let (base, found', b) = index_found literal_length_bases (symbol - 257) (omega arith) in
      Ensures-step _ found (
        Ensures-step _ found' (
          add_extra_bits-Ranged r 3 258 base extra v (
            within_range-at 3 258 literal_length_bases literal_length_extra_bits (symbol - 257) base
              extra refl b e)))

  match_distance-Ranged :
      (lengths : List ℕ) (d : HuffmanDecoder) (r : BitReader)
      → Builds lengths d
      → Valid bytes r
      → Ensures (Ranged bytes r 1 32768) (match_distance r d)
  unfolding match_distance
  match_distance-Ranged lengths d r b v =
      Ensures-bind (decode-below bytes h fits lengths d r b v) λ symbol k.
        Ensures-refuse _ _ λ known.
          let few : symbol.value < 30 = leb→gt 30 symbol.value known in
          let (base, found, at) = index_found distance_bases symbol.value few in
          let (extra, found', at') = index_found distance_extra_bits symbol.value few in
          Ensures-step _ found (
            Ensures-step _ found' (
              Ensures-map (λ s m. (m.0, m.1, (m.2.0, omega (arith, k.1.1, m.2.1))))
                (add_extra_bits-Ranged symbol.reader 1 32768 base extra k.1.0 (
                  within_range-at 1 32768 distance_bases distance_extra_bits symbol.value base extra
                    refl at at'))))

  -- From a sound bit reader over a slice of bytes shorter than 2^63, for a symbol from 257 to 285
  -- and a built decoder of distances, neither half of `parse_match` panics, the length of a match
  -- that it reads is from 3 to 258, and its distance is from 1 to 32,768.
  pub match-Ranged :
      (lengths : List ℕ) (d : HuffmanDecoder) (r : BitReader) (symbol : ℕ)
      → Builds lengths d
      → Valid bytes r
      → 257 ≤ symbol
      → symbol < 286
      → Ensures (Ranged bytes r 3 258) (match_length r symbol)
        × Ensures (Ranged bytes r 1 32768) (match_distance r d)
  match-Ranged lengths d r symbol b v low high =
      (match_length-Ranged r symbol v low high, match_distance-Ranged lengths d r b v)

  pub parse_match-Ahead :
      (lengths : List ℕ) (d : HuffmanDecoder) (r : BitReader) (symbol : ℕ)
      → Builds lengths d
      → Valid bytes r
      → 257 ≤ symbol
      → symbol < 286
      → Ensures (Ahead bytes r) (parse_match r symbol d)
  unfolding parse_match
  parse_match-Ahead lengths d r symbol b v low high =
      Ensures-bind (match_length-Ranged r symbol v low high) λ len k.
        Ensures-bind (match_distance-Ranged lengths d len.reader b k.2.0)
          λ dist m. returns (m.2.0, omega (arith, k.2.1, m.2.1))
