-- ===== src/Gzip/Huffman/Tree.antt =====
-- The tree in the nodes of a `HuffmanDecoder`: paths from the root, and the symbols at their ends.
use ziftsieve.Base.{
  ℕ, zero, suc, ◌<◌, ◌≡◌, refl, sym, ap, ◌∙◌, arith, List, [], ◌∷◌, ◌++◌, length, set, get_elem?,
  get_elem?-set, get_elem?-append_last, get_elem?-bound, get_elem?-past, length-set, length-append,
  ◌==◌, ==_iff, ==_refl, ne→==, if◌then◌else◌, Option, none, some, Bool-cases, inl, inr, ◌&&◌,
}
use ziftsieve.Gzip.Huffman.{HuffmanNode, leaf, child, set_child}

abbrev pub child_of : Option HuffmanNode → ℕ → Option ℕ
child_of none bit = none
child_of (some n) bit = child n bit

abbrev pub symbol_of : Option HuffmanNode → Option ℕ
symbol_of none = none
symbol_of (some n) = n.symbol

-- The child of node `i`, and its symbol, if there are such.
abbrev pub kid : List HuffmanNode → ℕ → ℕ → Option ℕ
kid nodes i bit = child_of (get_elem? nodes i) bit

abbrev pub symbol_at : List HuffmanNode → ℕ → Option ℕ
symbol_at nodes i = symbol_of (get_elem? nodes i)

pub kid-bound :
    (nodes : List HuffmanNode) (i bit k : ℕ) → kid nodes i bit ≡ some k → i < length nodes
kid-bound [] i bit k e = cc
kid-bound (n ∷ nodes) zero bit k e = omega arith
kid-bound (n ∷ nodes) (suc i) bit k e = omega (arith, kid-bound nodes i bit k e)

-- Every node but the root hangs at the end of its path: `label` says where.
pub record IsTree (label : ℕ → List ℕ) (nodes : List HuffmanNode) : Type 0 where
  pub some_node : 0 < length nodes
  pub root : label 0 ≡ []
  pub linked :
      (i bit k : ℕ)
      → bit < 2
      → kid nodes i bit ≡ some k
      → (k < length nodes) × (label k ≡ label i ++ bit ∷ [])

module _ (nodes : List HuffmanNode) (node bit : ℕ) (n : HuffmanNode)
    (here : get_elem? nodes node ≡ some n) (b : bit < 2) where
  -- A new leaf below `node`.
  abbrev pub grown : List HuffmanNode
  grown = set (nodes ++ leaf ∷ []) node (set_child n bit (length nodes))

  pub length-grown : length grown ≡ suc (length nodes)
  length-grown = omega (
    arith,
    length-set (nodes ++ leaf ∷ []) node (set_child n bit (length nodes)),
    length-append {0} nodes (leaf ∷ []),
  )

  get_elem?-grown :
      (i : ℕ)
      → get_elem? grown i ≡ (
          if node == i
          then some (set_child n bit (length nodes))
          else if length nodes == i
          then some leaf
          else get_elem? nodes i)
  get_elem?-grown i =
      get_elem?-set (nodes ++ leaf ∷ []) node i _
        (omega (arith, length-append {0} nodes (leaf ∷ []), get_elem?-bound nodes node n here))
      ∙ ap (λ o. if node == i then some (set_child n bit (length nodes)) else o)
          (get_elem?-append_last nodes leaf i)

  pub kid-grown :
      (i c : ℕ)
      → c < 2
      → kid grown i c ≡ (if (node == i) && (bit == c) then some (length nodes) else kid nodes i c)
  kid-grown i c h = ap (λ o. child_of o c) (get_elem?-grown i) ∙ elim (Bool-cases (node == i)) [
    | inl same ↦
        let e : node ≡ i = (==_iff node i).0 same in
        let found : get_elem? nodes i ≡ some n = rw e at here in rw (same, found) (ground arith)
    | inr other ↦ elim (Bool-cases (length nodes == i)) [
      | inl fresh ↦
          let e : length nodes ≡ i = (==_iff (length nodes) i).0 fresh in
          rw (other, fresh, get_elem?-past nodes i (omega arith)) (ground arith)
      | inr old ↦ rw (other, old) refl
    ]
  ]

  pub symbol_at-grown : (i : ℕ) → symbol_at grown i ≡ symbol_at nodes i
  symbol_at-grown i = ap symbol_of (get_elem?-grown i) ∙ elim (Bool-cases (node == i)) [
    | inl same ↦
        let e : node ≡ i = (==_iff node i).0 same in
        let found : get_elem? nodes i ≡ some n = rw e at here in rw (same, found) (ground arith)
    | inr other ↦ elim (Bool-cases (length nodes == i)) [
      | inl fresh ↦
          let e : length nodes ≡ i = (==_iff (length nodes) i).0 fresh in
          rw (other, fresh, get_elem?-past nodes i (omega arith)) refl
      | inr old ↦ rw (other, old) refl
    ]
  ]

  module _ (label : ℕ → List ℕ) (t : IsTree label nodes) (free : kid nodes node bit ≡ none) where
    abbrev pub grown_label : ℕ → List ℕ
    grown_label j = if length nodes == j then label node ++ bit ∷ [] else label j

    old_label : (j : ℕ) → j < length nodes → grown_label j ≡ label j
    old_label j l = rw (ne→== (length nodes) j (omega arith)) refl

    pub grown-IsTree : IsTree grown_label grown
    grown-IsTree = record {
      some_node = omega (arith, length-grown);
      root = old_label 0 t.some_node ∙ t.root;
      linked = λ i c k h e. elim (Bool-cases ((node == i) && (bit == c))) [
        | inl both ↦
            let new : some (length nodes) ≡ some k = rw both at (sym (kid-grown i c h) ∙ e) in
            let at_end : length nodes ≡ k = cc in
            let at_node : node ≡ i = ground arith in
            let at_bit : bit ≡ c = ground arith in
            rw (← at_end, ← at_node, ← at_bit)
              (
                omega (arith, length-grown),
                rw (==_refl (length nodes), old_label node (get_elem?-bound nodes node n here))
                    refl,
              )
        | inr other ↦
            let old : kid nodes i c ≡ some k = (rw other at (sym (kid-grown i c h) ∙ e)) in
            let (l, at) = t.linked i c k h old in
            (
              omega (arith, length-grown),
              old_label k l
                  ∙ at
                  ∙ ap (λ p. p ++ c ∷ []) (sym (old_label i (kid-bound nodes i c k old))),
            )
      ];
    }
