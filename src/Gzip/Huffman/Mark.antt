-- ===== src/Gzip/Huffman/Mark.antt =====
-- Giving a node of the tree of a `HuffmanDecoder` its symbol.
use ziftsieve.Base.{
  ℕ, ◌≡◌, ◌≢◌, refl, sym, ap, ◌∙◌, arith, List, [], ◌∷◌, ◌++◌, set, get_elem?, get_elem?-set,
  get_elem?-bound, length-set, ◌==◌, ==_iff, ==_refl, ne→==, false, if◌then◌else◌, Option, none,
  some, Bool-cases, inl, inr, append_assoc, append-nil,
}
use ziftsieve.Gzip.Huffman.{HuffmanNode}
use ziftsieve.Gzip.Huffman.Tree.{kid, child_of, symbol_of, symbol_at, IsTree}
use ziftsieve.Gzip.Huffman.Paths.{
  Bits, and_then, and_then-ext, reach, symbol_below, symbol_below-reach,
}

module _ (nodes : List HuffmanNode) (e s : ℕ) (n : HuffmanNode)
    (here : get_elem? nodes e ≡ some n) where
  abbrev pub marked : List HuffmanNode
  marked = set nodes e (record n { symbol = some s })

  get_elem?-marked :
      (i : ℕ)
      → get_elem? marked i
        ≡ (if e == i then some (record n { symbol = some s }) else get_elem? nodes i)
  get_elem?-marked i = get_elem?-set nodes e i _ (get_elem?-bound nodes e n here)

  pub kid-marked : (i c : ℕ) → kid marked i c ≡ kid nodes i c
  kid-marked i c = ap (λ o. child_of o c) (get_elem?-marked i) ∙ elim (Bool-cases (e == i)) [
    | inl same ↦
        let at_e : e ≡ i = (==_iff e i).0 same in
        let found : get_elem? nodes i ≡ some n = rw at_e at here in rw (same, found) refl
    | inr other ↦ rw other refl
  ]

  symbol_at-marked : (i : ℕ) → symbol_at marked i ≡ (if e == i then some s else symbol_at nodes i)
  symbol_at-marked i =
      ap symbol_of (get_elem?-marked i)
      ∙ elim (Bool-cases (e == i)) [ inl same ↦ rw same refl | inr other ↦ rw other refl ]

  pub marked-IsTree : (label : ℕ → List ℕ) → IsTree label nodes → IsTree label marked
  marked-IsTree label t = record {
    some_node = omega (arith, t.some_node, length-set nodes e (record n { symbol = some s }));
    root = t.root;
    linked = λ i b k h edge.
        let (l, at_label) = t.linked i b k h (sym (kid-marked i b) ∙ edge) in
        (omega (arith, length-set nodes e (record n { symbol = some s })), at_label);
  }

  reach-marked : (path : List ℕ) (i : ℕ) → reach marked i path ≡ reach nodes i path
  unfolding reach
  reach-marked [] i = refl
  reach-marked (b ∷ path) i =
      rw (kid-marked i b) (and_then-ext (kid nodes i b) (λ k. reach-marked path k))

  -- The symbol is found at the end of a path to the node,
  pub symbol_below-marked :
      (path : List ℕ) (i : ℕ) → reach nodes i path ≡ some e → symbol_below marked i path ≡ some s
  symbol_below-marked path i r =
      symbol_below-reach marked i e path (reach-marked path i ∙ r)
      ∙ symbol_at-marked e
      ∙ rw (==_refl e) refl

  -- and nowhere else.
  pub symbol_below-marked_other :
      (label : ℕ → List ℕ)
      → IsTree label nodes
      → (path : List ℕ) (i : ℕ) → Bits path
      → label i ++ path ≢ label e
      → symbol_below marked i path ≡ symbol_below nodes i path
  unfolding symbol_below
  symbol_below-marked_other label t [] i h other =
      let apart : (e == i) ≡ false =
        ne→== e i (λ same. other (append-nil (label i) ∙ ap label (sym same))) in
      symbol_at-marked i ∙ rw apart refl
  symbol_below-marked_other label t (b ∷ path) i h other =
      rw (kid-marked i b)
        (below_kid (kid nodes i b) refl (λ k. symbol_below-marked_other label t path k h.1))
    where
      below_kid :
          (o : Option ℕ)
          → kid nodes i b ≡ o
          → ((k : ℕ)
              → label k ++ path ≢ label e
              → symbol_below marked k path ≡ symbol_below nodes k path)
          → and_then o (λ k. symbol_below marked k path)
            ≡ and_then o (λ k. symbol_below nodes k path)
      below_kid none edge rest = refl
      below_kid (some k) edge rest =
          let at_k : label k ≡ label i ++ b ∷ [] = (t.linked i b k h.0 edge).1 in
          rest k (λ same.
            other
              (sym (append_assoc (label i) (b ∷ []) path) ∙ ap (λ p. p ++ path) (sym at_k) ∙ same))
