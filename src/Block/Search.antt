-- ===== src/Block/Search.antt =====
-- `verify_contains` of src/extract/mod.rs, against the occurrence of a pattern as a run.
use ziftsieve.Base.{
  ℕ, ◌≤◌, ◌≡◌, ◌↔◌, ◌⊎◌, inl, inr, refl, sym, ap, ◌∙◌, arith, List, [], ◌∷◌, ◌++◌, true, length,
  leb, leb→le, le→leb, ◌==◌, take, drop, length-append, length-take, take-append, take-append-drop,
  append_assoc, Bool-cases,
}
use ziftsieve.Block.{
  CompressedBlock, windows, same_bytes, contains, any_same, verify_in, verify_contains,
}

-- `x` is an element of the list.
abbrev pub In : {A : Type 0} → A → List A → Type 0
In x [] = ⊥
In x (y ∷ ys) = (y ≡ x) ⊎ In x ys

-- The pattern stands somewhere in the text.
abbrev pub Occurs : List ℕ → List ℕ → Type 0
Occurs pattern text = (before : List ℕ) × (after : List ℕ) × (text ≡ before ++ (pattern ++ after))

pub length-Occurs : (pattern text : List ℕ) → Occurs pattern text → length pattern ≤ length text
length-Occurs pattern text (before, after, e) =
    omega (arith, ap length e, length-append before (pattern ++ after), length-append pattern after)

-- The windows of a text are what occurs in it at that length.
pub windows-Occurs :
    (size : ℕ) (pattern text : List ℕ)
    → 1 ≤ size
    → length pattern ≡ size
    → Occurs pattern text
    → In pattern (windows size text)
unfolding windows
windows-Occurs size [] text l e o = absurd (omega arith)
windows-Occurs size (c ∷ cs) [] l e o = absurd (omega (arith, length-Occurs (c ∷ cs) [] o))
windows-Occurs size (c ∷ cs) (x ∷ xs) l e ([], after, q) =
    rw (le→leb size (length (x ∷ xs)) (omega (arith, ap length q, length-append (c ∷ cs) after)))
      (inl (rw (q, ← e) (take-append (c ∷ cs) after)))
windows-Occurs size (c ∷ cs) (x ∷ xs) l e (y ∷ before, after, q) =
    rw
      (le→leb size (length (x ∷ xs))
        (omega (arith, length-Occurs (c ∷ cs) (x ∷ xs) (y ∷ before, after, q))))
      (inr (windows-Occurs size (c ∷ cs) xs l e (before, after, cc)))

Occurs-cons : (x : ℕ) (pattern xs : List ℕ) → Occurs pattern xs → Occurs pattern (x ∷ xs)
Occurs-cons x pattern xs (before, after, e) = (x ∷ before, after, ap (◌∷◌ x) e)

first_or_later :
    (size x : ℕ) (pattern xs : List ℕ)
    → (take size (x ∷ xs) ≡ pattern) ⊎ Occurs pattern xs
    → Occurs pattern (x ∷ xs)
first_or_later size x pattern xs (inl e) =
    ([], drop size (x ∷ xs), rw (← e) (sym (take-append-drop size (x ∷ xs))))
first_or_later size x pattern xs (inr o) = Occurs-cons x pattern xs o

pub Occurs-windows :
    (size : ℕ) (pattern text : List ℕ) → In pattern (windows size text) → Occurs pattern text
unfolding windows
Occurs-windows size pattern [] h = absurd h
Occurs-windows size pattern (x ∷ xs) h = elim (Bool-cases (leb size (length (x ∷ xs)))) [
  | inl fits ↦
      first_or_later size x pattern xs
        (elim (rw fits at h) [ inl e ↦ inl e | inr t ↦ inr (Occurs-windows size pattern xs t) ])
  | inr short ↦ absurd (rw short at h)
]

pub Occurs-trans :
    (w pattern text : List ℕ) → Occurs w pattern → Occurs pattern text → Occurs w text
Occurs-trans w pattern text (b, a, e) (b', a', e') =
    (b' ++ b, a ++ a', e' ∙ rw e (simp append_assoc))

pub length-windows : (size : ℕ) (w text : List ℕ) → In w (windows size text) → length w ≡ size
unfolding windows
length-windows size w [] h = absurd h
length-windows size w (x ∷ xs) h = elim (Bool-cases (leb size (length (x ∷ xs)))) [
  | inl fits ↦ elim (rw fits at h) [
    | inl e ↦ omega (arith, ap length e, length-take size (x ∷ xs), leb→le _ _ fits)
    | inr t ↦ length-windows size w xs t
  ]
  | inr short ↦ absurd (rw short at h)
]

same_bytes-eq : (xs ys : List ℕ) → same_bytes xs ys ≡ true → xs ≡ ys
unfolding same_bytes
same_bytes-eq [] [] h = refl
same_bytes-eq [] (y ∷ ys) h = cc
same_bytes-eq (x ∷ xs) [] h = cc
same_bytes-eq (x ∷ xs) (y ∷ ys) h = ground (arith, same_bytes-eq xs ys)

same_bytes_refl : (xs : List ℕ) → same_bytes xs xs ≡ true
unfolding same_bytes
same_bytes_refl [] = refl
same_bytes_refl (x ∷ xs) = ground (arith, same_bytes_refl xs)

any_same-In : (ws : List (List ℕ)) (pattern : List ℕ) → any_same ws pattern ≡ true → In pattern ws
unfolding any_same
any_same-In [] pattern h = cc
any_same-In (w ∷ ws) pattern h = elim (Bool-cases (same_bytes w pattern)) [
  | inl e ↦ inl (same_bytes-eq w pattern e)
  | inr e ↦ inr (any_same-In ws pattern (rw e at h))
]

In-any_same : (ws : List (List ℕ)) (pattern : List ℕ) → In pattern ws → any_same ws pattern ≡ true
unfolding any_same
In-any_same [] pattern h = absurd h
In-any_same (w ∷ ws) pattern (inl e) = rw (e, same_bytes_refl pattern)
In-any_same (w ∷ ws) pattern (inr h) = ground (arith, In-any_same ws pattern h)

contains-Occurs : (text : List ℕ) (c : ℕ) → contains text c ≡ true → Occurs (c ∷ []) text
unfolding contains
contains-Occurs [] c h = cc
contains-Occurs (x ∷ xs) c h = elim (Bool-cases (x == c)) [
  | inl e ↦ ([], xs, ground arith)
  | inr e ↦ Occurs-cons x (c ∷ []) xs (contains-Occurs xs c (rw e at h))
]

Occurs-contains :
    (text before after : List ℕ) (c : ℕ) → text ≡ before ++ (c ∷ after) → contains text c ≡ true
unfolding contains
Occurs-contains text [] after c e = rw e (ground arith)
Occurs-contains text (y ∷ before) after c e =
    rw e (ground (arith, Occurs-contains (before ++ (c ∷ after)) before after c refl))

verify_in-Occurs : (text pattern : List ℕ) → verify_in text pattern ≡ true → Occurs pattern text
unfolding verify_in
verify_in-Occurs text [] h = ([], text, refl)
verify_in-Occurs text (c ∷ []) h = contains-Occurs text c (ground arith)
verify_in-Occurs text (c ∷ d ∷ cs) h =
    Occurs-windows (length (c ∷ d ∷ cs)) (c ∷ d ∷ cs) text
      (any_same-In _ (c ∷ d ∷ cs) (ground arith))

Occurs-verify_in : (text pattern : List ℕ) → Occurs pattern text → verify_in text pattern ≡ true
unfolding verify_in
Occurs-verify_in text [] o = refl
Occurs-verify_in text (c ∷ []) o =
    ground (arith, length-Occurs (c ∷ []) text o, Occurs-contains text o.0 o.1 c o.2)
Occurs-verify_in text (c ∷ d ∷ cs) o = ground (
  arith,
  length-Occurs (c ∷ d ∷ cs) text o,
  In-any_same (windows (length (c ∷ d ∷ cs)) text) (c ∷ d ∷ cs)
      (windows-Occurs (length (c ∷ d ∷ cs)) (c ∷ d ∷ cs) text (omega arith) refl o),
)

-- `verify_contains` says yes exactly where the pattern stands as a run somewhere in the literals of
-- the block.
pub verify_contains_iff :
    (b : CompressedBlock) (pattern : List ℕ)
    → (verify_contains b pattern ≡ true) ↔ Occurs pattern b.literals
unfolding verify_contains
verify_contains_iff b pattern =
    (verify_in-Occurs b.literals pattern, Occurs-verify_in b.literals pattern)
