-- ===== src/Gzip/Huffman/Insert.antt =====
-- `insert` of src/gzip/bitstream.rs: a code is put into the tree of a `HuffmanDecoder`.
use ziftsieve.Base.{
  length-set, ◌≢◌, ℕ, zero, suc, ◌+◌, ◌/◌, ◌%◌, ◌^◌, ◌≤◌, ◌<◌, ◌≡◌, ◌≢◌, refl, sym, ap, ◌∙◌, arith,
  List, [], ◌∷◌, ◌++◌, length, get_elem?, All-append, Option, none, some, append_assoc, append-nil,
  ltb→ge, false, Ensures, returns, Ensures-bind, Ensures-refuse, Ensures-map, index_found,
  Option-cases, inl, inr, Ensures-step, ==_refl,
}
use native.Mathlib.Nat.{mod-lt}
use ziftsieve.Gzip.Huffman.{HuffmanNode, child, Cursor, descend, descend_bits, insert, is_some}
use ziftsieve.Gzip.Huffman.Tree.{
  kid, child_of, symbol_of, IsTree, grown, grown_label, grown-IsTree, length-grown, kid-grown,
}
use ziftsieve.Gzip.Huffman.Paths.{
  Bits, reach, reach-append, reach-grown, symbol_below, symbol_below-grown, symbol_below-reach,
}
use ziftsieve.Gzip.Huffman.Mark.{marked-IsTree, symbol_below-marked, symbol_below-marked_other}

-- A tree, with some labels.
pub record Tree (nodes : List HuffmanNode) : Type 0 where
  pub label : ℕ → List ℕ
  pub is_tree : IsTree label nodes

-- The cursor stands at the end of the path in a tree that has the symbols of `nodes`, and at most
-- `room` nodes.
pub record Standing (nodes : List HuffmanNode) (room : ℕ) (path : List ℕ) (c : Cursor)
    : Type 0 where
  pub label : ℕ → List ℕ
  pub is_tree : IsTree label c.nodes
  pub reached : reach c.nodes 0 path ≡ some c.node
  pub labelled : label c.node ≡ path
  pub inside : c.node < length c.nodes
  pub small : length c.nodes ≤ room
  pub same : (q : List ℕ) → Bits q → symbol_below c.nodes 0 q ≡ symbol_below nodes 0 q

module _ (nodes : List HuffmanNode) (room : ℕ) (path : List ℕ) (c : Cursor) (bit : ℕ) (b : bit < 2)
    (bits : Bits path) (s : Standing nodes room path c) (n : HuffmanNode)
    (here : get_elem? c.nodes c.node ≡ some n) where
  new_leaf :
      child n bit ≡ none
      → Standing nodes
          (suc room)
          (path ++ bit ∷ [])
          (record { nodes = grown c.nodes c.node bit n here b; node = length c.nodes })
  new_leaf free =
      let free_kid : kid c.nodes c.node bit ≡ none = ap (λ o. child_of o bit) here ∙ free in
      record {
        label = grown_label c.nodes c.node bit n here b s.label s.is_tree free_kid;
        is_tree = grown-IsTree c.nodes c.node bit n here b s.label s.is_tree free_kid;
        reached =
            reach-append (grown c.nodes c.node bit n here b) 0 c.node bit path (
              reach-grown c.nodes c.node bit n here b s.label s.is_tree free_kid path 0 c.node bits
                s.reached)
            ∙ kid-grown c.nodes c.node bit n here b c.node bit b
            ∙ (rw (==_refl c.node, ==_refl bit) refl);
        labelled = (rw (==_refl (length c.nodes)) refl) ∙ ap (λ p. p ++ bit ∷ []) s.labelled;
        inside = omega (arith, length-grown c.nodes c.node bit n here b);
        small = omega (arith, s.small, length-grown c.nodes c.node bit n here b);
        same = λ q h.
            symbol_below-grown c.nodes c.node bit n here b s.label s.is_tree free_kid q 0 h
            ∙ s.same q h;
      }

  old_child :
      (next : ℕ)
      → child n bit ≡ some next
      → Standing nodes (suc room) (path ++ bit ∷ []) (record { nodes = c.nodes; node = next })
  old_child next found =
      let edge : kid c.nodes c.node bit ≡ some next = ap (λ o. child_of o bit) here ∙ found in
      let (l, at_next) = s.is_tree.linked c.node bit next b edge in
      record {
        label = s.label;
        is_tree = s.is_tree;
        reached = reach-append c.nodes 0 c.node bit path s.reached ∙ edge;
        labelled = at_next ∙ ap (λ p. p ++ bit ∷ []) s.labelled;
        inside = l;
        small = omega (arith, s.small);
        same = s.same;
      }

-- The bits of a code from bit `i` on.
unfoldable pub code_path : ℕ → ℕ → ℕ → List ℕ
code_path code i zero = []
code_path code i (suc n) = (code / 2 ^ i % 2) ∷ code_path code (i + 1) n

pub code_path-Bits : (code i n : ℕ) → Bits (code_path code i n)
unfolding code_path
code_path-Bits code i zero = tt
code_path-Bits code i (suc n) = (mod-lt (code / 2 ^ i) (omega arith), code_path-Bits code (i + 1) n)

module _ (nodes : List HuffmanNode) where
  wider :
      {a b : ℕ} {path : List ℕ} {c : Cursor}
      → Standing nodes a path c
      → a ≤ b
      → Standing nodes b path c
  wider s h = record {
    label = s.label;
    is_tree = s.is_tree;
    reached = s.reached;
    labelled = s.labelled;
    inside = s.inside;
    small = omega (arith, s.small);
    same = s.same;
  }

  pub descend-Ensures :
      (room : ℕ) (path : List ℕ) (c : Cursor) (bit : ℕ)
      → bit < 2
      → Bits path
      → Standing nodes room path c
      → Ensures (Standing nodes (suc room) (path ++ bit ∷ [])) (descend c bit)
  unfolding descend
  descend-Ensures room path c bit b bits s =
      let (n, found, here) = index_found c.nodes c.node s.inside in
      Ensures-step _ found (elim (Option-cases (child n bit)) [
        | inl free ↦
            rw free (
              Ensures-refuse _ _ λ k. returns (new_leaf nodes room path c bit b bits s n here free))
        | inr (next, taken) ↦
            rw taken (returns (old_child nodes room path c bit b bits s n here next taken))
      ])

  pub descend_bits-Ensures :
      (n i code room : ℕ) (path : List ℕ) (c : Cursor)
      → Bits path
      → Standing nodes room path c
      → Ensures (Standing nodes (n + room) (path ++ code_path code i n)) (descend_bits n i code c)
  unfolding descend_bits code_path
  descend_bits-Ensures zero i code room path c bits s =
      returns (rw (append-nil path) (wider s (omega arith)))
  descend_bits-Ensures (suc n) i code room path c bits s =
      Ensures-bind
        (descend-Ensures room path c (code / 2 ^ i % 2) (mod-lt (code / 2 ^ i) (omega arith)) bits
          s)
        λ next k.
          let moved : Standing nodes (suc room) (path ++ code / 2 ^ i % 2 ∷ []) next = k in
          let bits' : Bits (path ++ code / 2 ^ i % 2 ∷ []) =
            All-append _ path (code / 2 ^ i % 2 ∷ []) bits
              (mod-lt (code / 2 ^ i) (omega arith), tt) in
          Ensures-map
            (λ end e.
              rw (← append_assoc path (code / 2 ^ i % 2 ∷ []) (code_path code (i + 1) n))
                (wider {a = n + suc room} e (omega arith)))
            (descend_bits-Ensures n (i + 1) code (suc room) _ next bits' moved)

  -- The tree behind `insert`, which is `nodes` but for the symbol at the path.
  pub record Inserted (path : List ℕ) (bits symbol : ℕ) (nodes' : List HuffmanNode) : Type 0 where
    pub tree : Tree nodes'
    pub there : symbol_below nodes' 0 path ≡ some symbol
    pub elsewhere :
        (q : List ℕ) → Bits q → q ≢ path → symbol_below nodes' 0 q ≡ symbol_below nodes 0 q
    pub free : symbol_below nodes 0 path ≡ none
    pub in_range : symbol < 32768
    pub small : length nodes' ≤ length nodes + bits

  is_none : (o : Option ℕ) → is_some o ≡ false → o ≡ none
  is_none none h = refl
  is_none (some k) h = cc

  at_root : reach nodes 0 [] ≡ some 0
  unfolding reach
  at_root = refl

  -- The cursor at the root.
  pub start :
      (t : Tree nodes) → Standing nodes (length nodes) [] (record { nodes = nodes; node = 0 })
  start t = record {
    label = t.label;
    is_tree = t.is_tree;
    reached = at_root;
    labelled = t.is_tree.root;
    inside = t.is_tree.some_node;
    small = omega arith;
    same = λ q h. refl;
  }

  -- On nodes that are a tree, `insert` does not panic, and nodes that it returns are a tree with
  -- the symbol at the end of the code, where there was none before, with the same symbols at all
  -- other paths, and with at most as many new nodes as the code has bits.
  pub insert-Inserted :
      Tree nodes
      → (code bits symbol : ℕ)
      → Ensures (Inserted (code_path code 0 bits) bits symbol) (insert nodes code bits symbol)
  unfolding insert
  insert-Inserted t code bits symbol =
      Ensures-bind (descend_bits-Ensures bits 0 code (length nodes) [] _ tt (start t)) λ end s.
        let (n, found, here) = index_found end.nodes end.node s.inside in
        Ensures-step _ found (
          Ensures-refuse _ _ λ unmarked. Ensures-refuse _ _ λ few. returns (record {
            tree = record {
              label = s.label;
              is_tree = marked-IsTree end.nodes end.node symbol n here s.label s.is_tree;
            };
            there = symbol_below-marked end.nodes end.node symbol n here _ 0 s.reached;
            elsewhere = λ q h apart.
                symbol_below-marked_other end.nodes end.node symbol n here s.label s.is_tree q 0 h
                  (λ same. apart (ap (λ p. p ++ q) (sym s.is_tree.root) ∙ same ∙ s.labelled))
                ∙ s.same q h;
            free =
                sym (s.same _ (code_path-Bits code 0 bits))
                ∙ symbol_below-reach end.nodes 0 end.node _ s.reached
                ∙ ap symbol_of here
                ∙ is_none n.symbol unmarked;
            in_range =
                (let least : symbol ≤ 32767 = ltb→ge 32767 symbol few in omega (arith, least));
            small =
                omega (
                  arith,
                  s.small,
                  length-set end.nodes end.node (record n { symbol = some symbol }),
                );
          }))
