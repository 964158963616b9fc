-- ===== src/Gzip/Huffman/Total.antt =====
-- Where the codes of every length fit, `from_lengths` of src/gzip/bitstream.rs does not refuse.
use ziftsieve.Base.{
  ℕ, zero, suc, ◌+◌, ◌-◌, ◌*◌, ◌/◌, ◌%◌, ◌^◌, ◌≤◌, ◌<◌, ◌≡◌, refl, sym, ap, ◌∙◌, arith, List, [],
  ◌∷◌, All-append, length, max, All, ◌==◌, ==_refl, if◌then◌else◌, ltb, leb, ge→ltb, some, none,
  true, Bool, ◌&&◌, index_found, inl, inr, Bool-cases, Option-cases, Returns, NoError, no_error,
  NoError-ok, gt→leb, NoError-bind, NoError-step, NoError-refuse, NoError-if, Returns-NoError,
}
use ziftsieve.Base.{CodeKind}
use ziftsieve.Gzip.Huffman.{
  HuffmanNode, Cursor, leaf, child, is_some, descend, descend_bits, max_length, reverse_bits,
  insert, count_length, count_lengths, next_codes_from, calculate_next_codes, Populate,
  populate_symbol, populate_from, populate_nodes, from_lengths,
}
use ziftsieve.Gzip.Huffman.Paths.{Bits, symbol_below, symbol_below-reach}
use ziftsieve.Gzip.Huffman.Tree.{symbol_of}
use ziftsieve.Gzip.Huffman.Insert.{
  Tree, Standing, code_path, code_path-Bits, descend-Ensures, descend_bits-Ensures, insert-Inserted,
  start,
}
use ziftsieve.Gzip.Huffman.Canonical.{
  first_code, bits_of, bits_of-Bits, bump, reverse_bits-bits_of, occurrences, bits_of-injective,
}
use ziftsieve.Gzip.Huffman.Counts.{
  Table, codes_of, count_length-Table, replicate-Table, count_lengths-codes_of,
  calculate_next_codes-first_code,
}
use ziftsieve.Gzip.Huffman.Sound.{
  Ready, Placed, OneMore, Builds, root-Tree, no_symbol, max_length-All, populate_symbol-Placed,
  populate_from-Canonical, from_lengths-Builds,
}
use native.Mathlib.Nat.{mod-lt}

module _ (nodes : List HuffmanNode) where
  descend-total :
      (room : ℕ) (path : List ℕ) (c : Cursor) (bit : ℕ)
      → Standing nodes room path c
      → room ≤ 32767
      → NoError (descend c bit)
  unfolding descend
  descend-total room path c bit s small =
      let (n, found, here) = index_found c.nodes c.node s.inside in
      NoError-step _ found (elim (Option-cases (child n bit)) [
        | inl free ↦
            rw free
              (NoError-refuse _ _ (ge→ltb 32767 (length c.nodes) (omega (arith, s.small))) no_error)
        | inr (next, taken) ↦ rw taken no_error
      ])

  descend_bits-total :
      (n i code room : ℕ) (path : List ℕ) (c : Cursor)
      → Bits path
      → Standing nodes room path c
      → n + room ≤ 32768
      → NoError (descend_bits n i code c)
  unfolding descend_bits
  descend_bits-total zero i code room path c bits s small = no_error
  descend_bits-total (suc n) i code room path c bits s small =
      let bit : code / 2 ^ i % 2 < 2 = mod-lt (code / 2 ^ i) (omega arith) in
      NoError-bind (descend-Ensures nodes room path c (code / 2 ^ i % 2) bit bits s)
        (descend-total room path c (code / 2 ^ i % 2) s (omega arith))
        λ next k.
          descend_bits-total n (i + 1) code (suc room) _ next
            (All-append _ path (code / 2 ^ i % 2 ∷ []) bits (bit, tt)) k (omega arith)

  insert-total :
      Tree nodes
      → (code bits symbol : ℕ) → symbol_below nodes 0 (code_path code 0 bits) ≡ none
      → length nodes + bits ≤ 32768
      → symbol < 32768
      → NoError (insert nodes code bits symbol)
  unfolding insert
  insert-total t code bits symbol free small range =
      NoError-bind (descend_bits-Ensures nodes bits 0 code (length nodes) [] _ tt (start nodes t))
        (descend_bits-total bits 0 code (length nodes) [] _ tt (start nodes t) (omega arith))
        λ end s.
          let (n, found, here) = index_found end.nodes end.node s.inside in
          let unmarked : n.symbol ≡ none =
            ap symbol_of (sym here)
            ∙ sym (symbol_below-reach end.nodes 0 end.node _ s.reached)
            ∙ s.same _ (code_path-Bits code 0 bits)
            ∙ free in
          NoError-step _ found (
            NoError-refuse _ _ (ap is_some unmarked)
              (NoError-refuse _ _ (ge→ltb 32767 symbol (omega arith)) no_error))

module _ (kind : CodeKind) (max : ℕ) where
  count_length-total :
      (f : ℕ → ℕ) (table : List ℕ) (len : ℕ)
      → Table max f table
      → len ≤ max
      → NoError (count_length kind table len)
  unfolding count_length
  count_length-total f table len t h =
      NoError-if (ltb 0 len)
        (λ _.
          let (n, found, entry) = index_found table len (omega (arith, t.size)) in
          NoError-refuse _ _ (gt→leb (length table) len (omega (arith, t.size)))
            (NoError-step _ found no_error))
        (λ _. no_error)

  count_lengths-total :
      (f : ℕ → ℕ) (table lengths : List ℕ)
      → Table max f table
      → All (λ l. l ≤ max) lengths
      → NoError (count_lengths kind table lengths)
  unfolding count_lengths
  count_lengths-total f table [] t h = no_error
  count_lengths-total f table (len ∷ lengths) t h =
      NoError-bind (count_length-Table kind max f table len t h.0)
        (count_length-total f table len t h.0)
        λ counted k. count_lengths-total (λ l. f l + codes_of (len ∷ []) l) counted lengths k h.1

module _ (lengths count : List ℕ) (max : ℕ) (t : Table max (codes_of lengths) count) where
  next_codes_from-total :
      (rounds bits code : ℕ)
      → 0 < bits
      → bits + rounds ≤ max + 1
      → NoError (next_codes_from rounds bits code count)
  unfolding next_codes_from
  next_codes_from-total zero bits code pos h = no_error
  next_codes_from-total (suc rounds) bits code pos h =
      let (n, found, entry) = index_found count (bits - 1) (omega (arith, t.size)) in
      let rest : NoError
          (next_codes_from rounds (bits + 1) ((code + n) % 2 ^ 16 * 2 % 2 ^ 16) count) =
        next_codes_from-total rounds (bits + 1) _ (omega arith) (omega arith) in
      NoError-step _ found (NoError-ok _ rest)

  calculate_next_codes-total : NoError (calculate_next_codes max count)
  unfolding calculate_next_codes
  calculate_next_codes-total =
      NoError-ok _ (next_codes_from-total max 1 0 (omega arith) (omega arith))

-- The codes to come fit their lengths.
abbrev Room : (ℕ → ℕ) → List ℕ → Type 0
Room next lengths = (l : ℕ) → 0 < l → l ≤ 15 → next l + occurrences l lengths ≤ 2 ^ l

-- A symbol stands at the end of a code that comes before the next one.
abbrev Taken : (ℕ → ℕ) → List HuffmanNode → Type 0
Taken next nodes =
    (q : List ℕ) (j : ℕ)
    → Bits q
    → symbol_below nodes 0 q ≡ some j
    → (l : ℕ) × (c : ℕ) × (q ≡ bits_of c l) × (0 < l) × (l ≤ 15) × (c < next l)

untaken :
    (next : ℕ → ℕ) (nodes : List HuffmanNode) (len : ℕ) (lengths : List ℕ)
    → Taken next nodes
    → Room next lengths
    → next len < 2 ^ len
    → symbol_below nodes 0 (bits_of (next len) len) ≡ none
untaken next nodes len lengths taken room fit =
    elim (Option-cases (symbol_below nodes 0 (bits_of (next len) len))) [
      | inl free ↦ free
      | inr (j, there) ↦
          let (l, c, same, some_bit, short, before) =
            taken _ j (bits_of-Bits (next len) len) there in
          let (lens, codes) =
            bits_of-injective (next len) c len l fit (omega (arith, before, room l some_bit short))
              same in
          absurd (omega (arith, before, codes, ap next lens))
    ]

code_bound :
    (next : ℕ → ℕ) (len : ℕ) (lengths : List ℕ)
    → Room next (len ∷ lengths)
    → 0 < len
    → len ≤ 15
    → next len < 2 ^ len
code_bound next len lengths room positive short =
    let one : ℕ = if len == len then 1 else 0 in
    let more : next len + (one + occurrences len lengths) ≤ 2 ^ len = room len positive short in
    let is_one : one ≡ 1 = rw (==_refl len) refl in omega (arith, more, is_one)

bump_here : (next : ℕ → ℕ) (len : ℕ) → 0 < len → next len < bump next len len
bump_here next len positive = rw (==_refl len) (ground arith)

populate_symbol-total :
    (max k : ℕ) (next : ℕ → ℕ) (s : Populate) (len : ℕ) (lengths : List ℕ)
    → Ready max k next s
    → len ≤ max
    → max ≤ 15
    → Room next (len ∷ lengths)
    → Taken next s.nodes
    → length s.nodes + len ≤ 32768
    → k < 32768
    → NoError (populate_symbol max s len)
unfolding populate_symbol
populate_symbol-total max k next s len lengths r l few room taken small range =
    NoError-if (len == 0) (λ _. no_error)
      (λ coded.
        NoError-if (ltb max len) (λ _. no_error)
          (λ _.
            let (code, found, entry) = index_found s.next_code len (omega (arith, r.table.size)) in
            let code-is : code ≡ next len % 2 ^ 16 =
              let e : some code ≡ some (next len % 2 ^ 16) = sym entry ∙ r.table.entry len l in
              cc in
            let path-is : code_path (reverse_bits code len) 0 len ≡ bits_of (next len) len =
              ap (λ c. code_path (reverse_bits c len) 0 len) code-is
              ∙ reverse_bits-bits_of (next len) len (omega arith) in
            let positive : 0 < len = ground arith in
            let fit : next len < 2 ^ len =
              code_bound next len lengths room positive (omega arith) in
            let free : symbol_below s.nodes 0 (code_path (reverse_bits code len) 0 len) ≡ none =
              rw path-is (untaken next s.nodes len (len ∷ lengths) taken room fit) in
            NoError-step _ found (
              NoError-refuse _ _ (ge→ltb 255 len (omega arith)) (
                NoError-refuse _ _ (ge→ltb (2 ^ 16 - 1) s.symbol (omega (arith, r.at))) (
                  NoError-bind (insert-Inserted s.nodes r.tree (reverse_bits code len) len s.symbol)
                    (insert-total s.nodes r.tree (reverse_bits code len) len s.symbol free small
                      (omega (arith, r.at)))
                    λ nodes i. no_error)))))

-- The next symbol's room and taken codes, behind a symbol.
bump-Room :
    (next : ℕ → ℕ) (len : ℕ) (lengths : List ℕ)
    → Room next (len ∷ lengths)
    → Room (bump next len) lengths
bump-Room next len lengths room l positive short =
    let now : next l + ((if len == l then 1 else 0) + occurrences l lengths) ≤ 2 ^ l =
      room l positive short in
    ground (arith, now)

bump-Taken :
    (next : ℕ → ℕ) (nodes nodes' : List HuffmanNode) (len : ℕ)
    → Taken next nodes
    → OneMore nodes (next len) len nodes'
    → len ≤ 15
    → Taken (bump next len) nodes'
bump-Taken next nodes nodes' len taken more short q j b e = elim (more q j b e) [
  | inl old ↦
      let (l, c, same, some_bit, few, before) = taken q j b old in
      (l, c, same, some_bit, few, ground arith)
  | inr (positive, same) ↦ (len, next len, same, positive, short, bump_here next len positive)
]

populate_from-total :
    (max k : ℕ) (next : ℕ → ℕ) (s : Populate) (lengths : List ℕ)
    → Ready max k next s
    → All (λ len. len ≤ max) lengths
    → max ≤ 15
    → Room next lengths
    → Taken next s.nodes
    → length s.nodes + 15 * length lengths ≤ 32768
    → k + length lengths ≤ 32768
    → NoError (populate_from max s lengths)
unfolding populate_from Placed
populate_from-total max k next s [] r h few room taken small range = no_error
populate_from-total max k next s (len ∷ lengths) r h few room taken small range =
    NoError-bind (populate_symbol-Placed max k next s len r h.0 few)
      (populate_symbol-total max k next s len lengths r h.0 few room taken (omega (arith, h.0))
        (omega arith))
      λ after p.
        populate_from-total max (k + 1) (bump next len) after lengths p.0 h.1 few
          (bump-Room next len lengths room)
          (bump-Taken next s.nodes after.nodes len taken p.4 (omega (arith, h.0)))
          (omega (arith, p.3, h.0)) (omega arith)

-- The codes of every length from 1 to 15 fit their length.
abbrev pub Fit : List ℕ → Type 0
Fit lengths = Room (first_code lengths) lengths

max_length_bound : (lengths : List ℕ) → All (λ len. len ≤ 15) lengths → max_length lengths ≤ 15
max_length_bound [] h = omega arith
max_length_bound (len ∷ lengths) h = omega (arith, h.0, max_length_bound lengths h.1)

from_lengths-total :
    (lengths : List ℕ) (kind : CodeKind)
    → All (λ len. len ≤ 15) lengths
    → length lengths ≤ 2000
    → Fit lengths
    → NoError (from_lengths lengths kind)
unfolding from_lengths populate_nodes
from_lengths-total lengths kind short few room =
    let m : ℕ = max_length lengths in
    let m-short : m ≤ 15 = max_length_bound lengths short in
    NoError-refuse _ _ (ge→ltb 15 m m-short) (
      NoError-if (m == 0) (λ _. no_error)
        (λ _.
          NoError-bind (count_lengths-codes_of kind m lengths (max_length-All lengths))
            (count_lengths-total kind m (λ l. 0) _ lengths (replicate-Table m)
              (max_length-All lengths))
            λ count t.
              NoError-bind (calculate_next_codes-first_code lengths count m t)
                (calculate_next_codes-total lengths count m t)
                λ next_code u.
                  let ready : Ready m 0 (first_code lengths)
                      (record { nodes = leaf ∷ []; next_code = next_code; symbol = 0 }) =
                    record { at = refl; tree = root-Tree; table = u; below = no_symbol } in
                  NoError-bind
                    (populate_from-Canonical m 0 (first_code lengths) _ lengths ready
                      (max_length-All lengths) m-short)
                    (populate_from-total m 0 (first_code lengths) _ lengths ready
                      (max_length-All lengths) m-short room
                      (λ q j b e. absurd (omega (arith, no_symbol q j b e))) (omega arith)
                      (omega arith))
                    λ nodes e. NoError-refuse _ _ (ge→ltb 255 m (omega arith)) no_error))

-- On at most 2,000 code lengths of at most 15, of which the codes of each length fit that length,
-- `from_lengths` returns a decoder that has each symbol with a code at the end of the canonical
-- code of RFC 1951 for its length.
pub from_lengths-Fit :
    (lengths : List ℕ) (kind : CodeKind)
    → All (λ len. len ≤ 15) lengths
    → length lengths ≤ 2000
    → Fit lengths
    → Returns (Builds lengths) (from_lengths lengths kind)
from_lengths-Fit lengths kind short few room =
    Returns-NoError (from_lengths-Builds lengths kind)
      (from_lengths-total lengths kind short few room)

-- The same as a test.
unfoldable pub fits_below : ℕ → List ℕ → Bool
fits_below zero lengths = true
fits_below (suc n) lengths =
    leb (first_code lengths (suc n) + occurrences (suc n) lengths) (2 ^ suc n)
    && fits_below n lengths

pub fits_below-Fit :
    (n : ℕ) (lengths : List ℕ)
    → fits_below n lengths ≡ true
    → (l : ℕ) → 0 < l
    → l ≤ n
    → first_code lengths l + occurrences l lengths ≤ 2 ^ l
unfolding fits_below
fits_below-Fit zero lengths h l positive few = absurd (omega arith)
fits_below-Fit (suc n) lengths h l positive few = elim (Bool-cases (l == suc n)) [
  | inl same ↦ let e : l ≡ suc n = ground arith in rw e (ground arith)
  | inr other ↦ fits_below-Fit n lengths (ground arith) l positive (ground arith)
]
