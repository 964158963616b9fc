-- ===== src/Gzip/Huffman/Paths.antt =====
-- Symbols at the ends of paths in the tree of a `HuffmanDecoder`, when it grows by a node and when
-- a node is given its symbol.
use ziftsieve.Base.{
  ℕ, ◌<◌, ◌≡◌, ◌≢◌, refl, sym, ap, ◌∙◌, arith, List, [], ◌∷◌, ◌++◌, length, get_elem?,
  get_elem?-bound, All, ◌==◌, ne→==, get_elem?-past, false, Option, none, some, Bool-cases, inl,
  inr, ◌&&◌,
}
use ziftsieve.Gzip.Huffman.{HuffmanNode}
use ziftsieve.Gzip.Huffman.Tree.{
  kid, child_of, symbol_of, symbol_at, IsTree, grown, kid-grown, symbol_at-grown,
}

abbrev pub Bits : List ℕ → Type 0
Bits = All (λ b. b < 2)

abbrev pub and_then : Option ℕ → (ℕ → Option ℕ) → Option ℕ
and_then none f = none
and_then (some k) f = f k

and_then-some :
    (o : Option ℕ) (f : ℕ → Option ℕ) (e : ℕ)
    → and_then o f ≡ some e
    → (k : ℕ) × (o ≡ some k) × (f k ≡ some e)
and_then-some none f e h = cc
and_then-some (some k) f e h = (k, refl, h)

pub and_then-ext :
    {f g : ℕ → Option ℕ} (o : Option ℕ) → ((k : ℕ) → f k ≡ g k) → and_then o f ≡ and_then o g
and_then-ext none h = refl
and_then-ext (some k) h = h k

-- The node at the end of a path from node `i`.
unfoldable pub reach : List HuffmanNode → ℕ → List ℕ → Option ℕ
reach nodes i [] = some i
reach nodes i (b ∷ path) = and_then (kid nodes i b) (λ k. reach nodes k path)

-- Its symbol.
unfoldable pub symbol_below : List HuffmanNode → ℕ → List ℕ → Option ℕ
symbol_below nodes i [] = symbol_at nodes i
symbol_below nodes i (b ∷ path) = and_then (kid nodes i b) (λ k. symbol_below nodes k path)

module _ (nodes : List HuffmanNode) where
  pub symbol_below-reach :
      (i e : ℕ) (path : List ℕ)
      → reach nodes i path ≡ some e
      → symbol_below nodes i path ≡ symbol_at nodes e
  unfolding reach symbol_below
  symbol_below-reach i e [] h = let same : i ≡ e = cc in rw same refl
  symbol_below-reach i e (b ∷ path) h =
      let (k, edge, rest) = and_then-some (kid nodes i b) (λ k. reach nodes k path) e h in
      rw edge (symbol_below-reach k e path rest)

  pub reach-append :
      (i j b : ℕ) (path : List ℕ)
      → reach nodes i path ≡ some j
      → reach nodes i (path ++ b ∷ []) ≡ kid nodes j b
  unfolding reach
  reach-append i j b [] h = let same : i ≡ j = cc in rw same (and_then-id (kid nodes j b))
    where
      and_then-id : (o : Option ℕ) → and_then o (λ k. some k) ≡ o
      and_then-id none = refl
      and_then-id (some k) = refl
  reach-append i j b (c ∷ path) h =
      let (k, edge, rest) = and_then-some (kid nodes i c) (λ k. reach nodes k path) j h in
      rw edge (reach-append k j b path rest)

module _ (nodes : List HuffmanNode) (node bit : ℕ) (n : HuffmanNode)
    (here : get_elem? nodes node ≡ some n) (b : bit < 2) (label : ℕ → List ℕ)
    (t : IsTree label nodes) (free : kid nodes node bit ≡ none) where
  abbrev after : List HuffmanNode
  after = grown nodes node bit n here b

  -- Old edges stay.
  kid-after : (i c k : ℕ) → c < 2 → kid nodes i c ≡ some k → kid after i c ≡ some k
  kid-after i c k h e =
      kid-grown nodes node bit n here b i c h ∙ elim (Bool-cases ((node == i) && (bit == c))) [
        | inl both ↦
            let at_node : node ≡ i = ground arith in
            let at_bit : bit ≡ c = ground arith in
            let clash : kid nodes node bit ≡ some k = rw (at_node, at_bit) e in
            absurd (none-ne-some k (sym free ∙ clash))
        | inr other ↦ rw other e
      ]
    where
      none-ne-some : (k : ℕ) → none ≢ some k
      none-ne-some k h = cc

  pub reach-grown :
      (path : List ℕ) (i j : ℕ)
      → Bits path
      → reach nodes i path ≡ some j
      → reach after i path ≡ some j
  unfolding reach
  reach-grown [] i j h e = e
  reach-grown (c ∷ path) i j h e =
      let (k, edge, rest) = and_then-some (kid nodes i c) (λ k. reach nodes k path) j e in
      rw (kid-after i c k h.0 edge) (reach-grown path k j h.1 rest)

  -- The new leaf has no children, and no symbol.
  symbol_below-leaf : (path : List ℕ) → Bits path → symbol_below after (length nodes) path ≡ none
  unfolding symbol_below
  symbol_below-leaf [] h =
      symbol_at-grown nodes node bit n here b (length nodes)
      ∙ ap symbol_of (get_elem?-past nodes (length nodes) (omega arith))
  symbol_below-leaf (c ∷ path) h =
      let apart : (node == length nodes) ≡ false =
        ne→== node (length nodes) (ground (arith, get_elem?-bound nodes node n here)) in
      let past : kid nodes (length nodes) c ≡ none =
        ap (λ o. child_of o c) (get_elem?-past nodes (length nodes) (omega arith)) in
      rw (kid-grown nodes node bit n here b (length nodes) c h.0, apart, past) refl

  -- Growing the tree changes no symbol.
  pub symbol_below-grown :
      (path : List ℕ) (i : ℕ) → Bits path → symbol_below after i path ≡ symbol_below nodes i path
  unfolding symbol_below
  symbol_below-grown [] i h = symbol_at-grown nodes node bit n here b i
  symbol_below-grown (c ∷ path) i h = elim (Bool-cases ((node == i) && (bit == c))) [
    | inl both ↦
        let at_node : node ≡ i = ground arith in
        let at_bit : bit ≡ c = ground arith in
        let closed : kid nodes i c ≡ none = rw (at_node, at_bit) at free in
        rw (kid-grown nodes node bit n here b i c h.0, both, closed) (symbol_below-leaf path h.1)
    | inr other ↦
        rw (kid-grown nodes node bit n here b i c h.0, other)
          (and_then-ext (kid nodes i c) (λ k. symbol_below-grown path k h.1))
  ]
