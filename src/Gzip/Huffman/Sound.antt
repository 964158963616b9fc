-- ===== src/Gzip/Huffman/Sound.antt =====
-- `populate_nodes` and `from_lengths` of src/gzip/bitstream.rs.
use ziftsieve.Base.{
  ℕ, zero, suc, ◌+◌, ◌%◌, ◌^◌, ◌≤◌, ◌<◌, ◌≡◌, ◌≢◌, refl, sym, ap, ◌∙◌, arith, List, [], ◌∷◌, length,
  max, All, ◌==◌, ltb, ltb→ge, some, none, index_found, ◌⊎◌, inl, inr, Bool-cases, ==_iff, Ensures,
  returns, Ensures-bind, Ensures-refuse, Ensures-map, Ensures-if, Ensures-step,
}
use ziftsieve.Base.{CodeKind}
use ziftsieve.Gzip.Huffman.{
  HuffmanNode, HuffmanDecoder, leaf, max_length, reverse_bits, Populate, populate_symbol,
  populate_from, populate_nodes, from_lengths,
}
use ziftsieve.Gzip.Huffman.Paths.{Bits, and_then, symbol_below}
use ziftsieve.Gzip.Huffman.Tree.{kid}
use ziftsieve.Gzip.Huffman.Insert.{Tree, Inserted, insert-Inserted, code_path}
use ziftsieve.Gzip.Huffman.Canonical.{
  Canonical, bits_of-Bits, first_code, bits_of, bump, reverse_bits-bits_of,
}
use ziftsieve.Gzip.Huffman.Counts.{
  Table, Table-ext, Table-set, count_lengths-codes_of, calculate_next_codes-first_code,
}

-- Symbols stay where they are.
abbrev pub Keeps : List HuffmanNode → List HuffmanNode → Type 0
Keeps nodes nodes' =
    (q : List ℕ) (j : ℕ)
    → Bits q
    → symbol_below nodes 0 q ≡ some j
    → symbol_below nodes' 0 q ≡ some j

-- A symbol below `k`, wherever one stands.
abbrev pub SymbolsBelow : ℕ → List HuffmanNode → Type 0
SymbolsBelow k nodes = (q : List ℕ) (j : ℕ) → Bits q → symbol_below nodes 0 q ≡ some j → j < k

-- A symbol stands where it stood, or at the end of one code.
abbrev pub OneMore : List HuffmanNode → ℕ → ℕ → List HuffmanNode → Type 0
OneMore nodes code len nodes' =
    (q : List ℕ) (j : ℕ)
    → Bits q
    → symbol_below nodes' 0 q ≡ some j
    → (symbol_below nodes 0 q ≡ some j) ⊎ ((0 < len) × (q ≡ bits_of code len))

Bits-cases : (p q : List ℕ) → (p ≡ q) ⊎ (p ≢ q)
Bits-cases [] [] = inl refl
Bits-cases [] (y ∷ q) = inr λ h. cc
Bits-cases (x ∷ p) [] = inr λ h. cc
Bits-cases (x ∷ p) (y ∷ q) = elim (Bool-cases (x == y)) [
  | inl same ↦ elim (Bits-cases p q) [
    | inl rest ↦ inl (let e : x ≡ y = (==_iff x y).0 same in cc)
    | inr rest ↦ inr λ h. rest cc
  ]
  | inr apart ↦ inr λ h. (let e : x ≡ y = cc in ground arith)
]

module _ (nodes nodes' : List HuffmanNode) (path : List ℕ) (bits k : ℕ)
    (i : Inserted nodes path bits k nodes') where
  Inserted-Keeps : Keeps nodes nodes'
  Inserted-Keeps q j h e = elim (Bits-cases q path) [
    | inl same ↦
        (let clash : symbol_below nodes 0 path ≡ some j = rw same at e in
          let f : symbol_below nodes 0 path ≡ none = i.free in absurd cc)
    | inr apart ↦ i.elsewhere q h apart ∙ e
  ]

  Inserted-OneMore :
      (code : ℕ) → path ≡ bits_of code bits → 0 < bits → OneMore nodes code bits nodes'
  Inserted-OneMore code here positive q j h e = elim (Bits-cases q path) [
    | inl same ↦ inr (positive, same ∙ here)
    | inr apart ↦ inl (sym (i.elsewhere q h apart) ∙ e)
  ]

  Inserted-SymbolsBelow : SymbolsBelow k nodes → SymbolsBelow (k + 1) nodes'
  Inserted-SymbolsBelow below q j h e = elim (Bits-cases q path) [
    | inl same ↦
        (let found : symbol_below nodes' 0 path ≡ some j = rw same at e in
          let there : symbol_below nodes' 0 path ≡ some k = i.there in
          let at : j ≡ k = cc in omega arith)
    | inr apart ↦ omega (arith, below q j h (sym (i.elsewhere q h apart) ∙ e))
  ]

-- What stands before the next symbol: its codes are those of `next`.
pub record Ready (max k : ℕ) (next : ℕ → ℕ) (s : Populate) : Type 0 where
  pub at : s.symbol ≡ k
  pub tree : Tree s.nodes
  pub table : Table max next s.next_code
  pub below : SymbolsBelow k s.nodes

-- What stands behind it.
unfoldable pub Placed : ℕ → ℕ → (ℕ → ℕ) → ℕ → List HuffmanNode → Populate → Type 0
Placed max k next len nodes s =
    Ready max (k + 1) (bump next len) s
    × Keeps nodes s.nodes
    × (0 < len → symbol_below s.nodes 0 (bits_of (next len) len) ≡ some k)
    × (length s.nodes ≤ length nodes + len)
    × OneMore nodes (next len) len s.nodes

pub populate_symbol-Placed :
    (max k : ℕ) (next : ℕ → ℕ) (s : Populate) (len : ℕ)
    → Ready max k next s
    → len ≤ max
    → max ≤ 15
    → Ensures (Placed max k next len s.nodes) (populate_symbol max s len)
unfolding populate_symbol Placed
populate_symbol-Placed max k next s len r l few =
    Ensures-if (len == 0)
      (λ none_here.
        let zero_len : len ≡ 0 = (==_iff len 0).0 none_here in
        returns (
          record {
            at = omega (arith, r.at);
            tree = r.tree;
            table = Table-ext max _ _ _ (λ i. ground arith) r.table;
            below = λ q j h e. omega (arith, r.below q j h e);
          },
          (λ q j h e. e),
          (λ h. absurd (omega (arith, zero_len, h))),
          omega arith,
          λ q j h e. inl e,
        ))
      (λ coded.
        Ensures-if (ltb max len) (λ far. absurd (ground arith))
          (λ inside.
            let (code, found, entry) = index_found s.next_code len (omega (arith, r.table.size)) in
            let code-is : code ≡ next len % 2 ^ 16 =
              let e : some code ≡ some (next len % 2 ^ 16) = sym entry ∙ r.table.entry len l in
              cc in
            Ensures-step _ found (
              Ensures-refuse _ _ λ small. Ensures-refuse _ _ λ narrow.
                Ensures-bind (insert-Inserted s.nodes r.tree (reverse_bits code len) len s.symbol)
                  λ nodes i.
                    let path-is : code_path (reverse_bits code len) 0 len ≡ bits_of (next len) len =
                      ap (λ c. code_path (reverse_bits c len) 0 len) code-is
                      ∙ reverse_bits-bits_of (next len) len (omega arith) in
                    returns (
                      record {
                        at = omega (arith, r.at);
                        tree = i.tree;
                        table = rw code-is (
                            Table-ext max _ _ _ (λ i. ground arith)
                              (Table-set max next s.next_code len l r.table));
                        below = λ q j h e. omega (
                          arith,
                          r.at,
                          Inserted-SymbolsBelow s.nodes nodes _ len s.symbol i
                              (λ q j h e. omega (arith, r.at, r.below q j h e)) q j h e,
                        );
                      },
                      Inserted-Keeps s.nodes nodes _ len s.symbol i,
                      (λ h.
                          ap (λ p. symbol_below nodes 0 p) (sym path-is) ∙ i.there ∙ ap some r.at),
                      i.small,
                      Inserted-OneMore s.nodes nodes _ len s.symbol i (next len) path-is
                          (ground arith),
                    ))))

pub populate_from-Canonical :
    (max k : ℕ) (next : ℕ → ℕ) (s : Populate) (lengths : List ℕ)
    → Ready max k next s
    → All (λ len. len ≤ max) lengths
    → max ≤ 15
    → Ensures
        (λ nodes.
          Tree nodes
          × Keeps s.nodes nodes
          × SymbolsBelow (k + length lengths) nodes
          × Canonical nodes next k lengths)
        (populate_from max s lengths)
unfolding populate_from Placed
populate_from-Canonical max k next s [] r h few =
    returns (r.tree, (λ q j h e. e), (λ q j h e. omega (arith, r.below q j h e)), tt)
populate_from-Canonical max k next s (len ∷ lengths) r h few =
    Ensures-bind (populate_symbol-Placed max k next s len r h.0 few) λ after p.
      Ensures-map
        (λ nodes e. (
          e.0,
          (λ q j b at. e.1 q j b (p.1 q j b at)),
          (λ q j b at. omega (arith, e.2 q j b at)),
          ((λ positive. e.1 _ k (bits_of-Bits (next len) len) (p.2 positive)), e.3),
        ))
        (populate_from-Canonical max (k + 1) (bump next len) after lengths p.0 h.1 few)

-- What `from_lengths` builds: each symbol stands at the end of its canonical code, and no symbol
-- is out of range.
pub record Builds (lengths : List ℕ) (d : HuffmanDecoder) : Type 0 where
  pub tree : Tree d.nodes
  pub codes : Canonical d.nodes (first_code lengths) 0 lengths
  pub in_range : SymbolsBelow (length lengths) d.nodes
  pub longest : d.max_bits ≡ max_length lengths
  pub few : d.max_bits ≤ 15

no_kid : (i b : ℕ) → kid (leaf ∷ []) i b ≡ none
no_kid zero b = ground arith
no_kid (suc i) b = refl

pub no_symbol : SymbolsBelow 0 (leaf ∷ [])
unfolding symbol_below
no_symbol [] j h e = cc
no_symbol (b ∷ q) j h e =
    let e' : and_then (kid (leaf ∷ []) 0 b) (λ k. symbol_below (leaf ∷ []) k q) ≡ some j = e in
    let f : none ≡ some j = rw (no_kid 0 b) at e' in absurd cc

pub root-Tree : Tree (leaf ∷ [])
root-Tree = record {
  label = λ i. [];
  is_tree = record {
    some_node = omega arith;
    root = refl;
    linked = λ i b k h edge. absurd (let f : none ≡ some k = rw (no_kid i b) at edge in cc);
  };
}

no_codes :
    (nodes : List HuffmanNode) (next : ℕ → ℕ) (k : ℕ) (lengths : List ℕ)
    → All (λ len. len ≤ 0) lengths
    → Canonical nodes next k lengths
no_codes nodes next k [] h = tt
no_codes nodes next k (len ∷ lengths) h = (
  (λ positive. absurd (omega (arith, h.0, positive))),
  no_codes nodes (bump next len) (k + 1) lengths h.1,
)

All-weaken : (a b : ℕ) (xs : List ℕ) → a ≤ b → All (λ x. x ≤ a) xs → All (λ x. x ≤ b) xs
All-weaken a b [] l h = tt
All-weaken a b (x ∷ xs) l h = (omega (arith, h.0), All-weaken a b xs l h.1)

pub max_length-All : (lengths : List ℕ) → All (λ len. len ≤ max_length lengths) lengths
max_length-All [] = tt
max_length-All (len ∷ lengths) = (
  omega arith,
  All-weaken (max_length lengths) (max len (max_length lengths)) lengths (omega arith)
      (max_length-All lengths),
)

-- On any list of code lengths, `from_lengths` ends without a panic in a build whose sums of u16
-- wrap, and a decoder that it returns has each symbol with a code at the end of the canonical code
-- of RFC 1951 for its length, has no symbol that is not an index into the list, and reads as many
-- bits at most as the longest code has, up to 15.
pub from_lengths-Builds :
    (lengths : List ℕ) (kind : CodeKind) → Ensures (Builds lengths) (from_lengths lengths kind)
unfolding from_lengths populate_nodes
from_lengths-Builds lengths kind = Ensures-refuse _ _ λ short.
    Ensures-if (max_length lengths == 0)
      (λ empty.
        let none_long : max_length lengths ≡ 0 = ground arith in
        returns (record {
          tree = root-Tree;
          codes =
              no_codes (leaf ∷ []) (first_code lengths) 0 lengths
                (All-weaken (max_length lengths) 0 lengths (omega arith) (max_length-All lengths));
          in_range = λ q j h at. omega (arith, no_symbol q j h at);
          longest = sym none_long;
          few = omega arith;
        }))
      (λ some_code.
        Ensures-bind
          (count_lengths-codes_of kind (max_length lengths) lengths (max_length-All lengths))
          λ count t.
            Ensures-bind (calculate_next_codes-first_code lengths count (max_length lengths) t)
              λ next_code u.
                Ensures-bind
                  (populate_from-Canonical (max_length lengths) 0 (first_code lengths) _ lengths
                    (record { at = refl; tree = root-Tree; table = u; below = no_symbol })
                    (max_length-All lengths) (ltb→ge 15 (max_length lengths) short))
                  λ nodes e. Ensures-refuse _ _ λ narrow. returns (record {
                    tree = e.0;
                    codes = e.3;
                    in_range = λ q j h at. omega (arith, e.2 q j h at);
                    longest = refl;
                    few = ltb→ge 15 (max_length lengths) short;
                  }))
