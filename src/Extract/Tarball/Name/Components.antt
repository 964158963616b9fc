-- ===== src/Extract/Tarball/Name/Components.antt =====
-- `contains_path_traversal` of src/extract/tarball.rs against the components of a path.
use ziftsieve.Base.{
  ℕ, ◌≡◌, ◌⊎◌, inl, inr, refl, sym, ◌∙◌, ap, arith, List, [], ◌∷◌, ◌++◌, append_assoc, Bool, true,
  false, ◌&&◌, ◌||◌, ◌==◌, Bool-cases, if◌then◌else◌, ◌↔◌, length, ltb,
}
use ziftsieve.Block.{same_bytes, contains}
use ziftsieve.Extract.{starts_with}
use ziftsieve.Extract.Tarball.Name.{
  ends_with, contains_text, dot, slash, has_parent_text, contains_path_traversal,
}

-- A component of a path begins at its start or behind a slash, and ends at its end or at a slash.
abbrev pub AtStart : List ℕ → Type 0
AtStart before = (before ≡ []) ⊎ ((xs : List ℕ) × (before ≡ xs ++ slash ∷ []))

abbrev pub AtEnd : List ℕ → Type 0
AtEnd after = (after ≡ []) ⊎ ((xs : List ℕ) × (after ≡ slash ∷ xs))

-- A component of the path is "..".
pub record HasParent (name : List ℕ) : Type 0 where
  pub before : List ℕ
  pub after : List ℕ
  pub spelled : name ≡ before ++ (dot ∷ dot ∷ after)
  pub starts : AtStart before
  pub ends : AtEnd after

first_parent : List ℕ → Bool
first_parent name = same_bytes name (dot ∷ dot ∷ []) || starts_with name (dot ∷ dot ∷ slash ∷ [])

later_parent : List ℕ → Bool
later_parent [] = false
later_parent (c ∷ cs) = (c == slash && first_parent cs) || later_parent cs

sort_out : (x a b e c : Bool) → (((x && a) || e) || ((x && b) || c)) ≡ ((x && (a || b)) || (e || c))
sort_out true true b e c = refl
sort_out true false true true c = refl
sort_out true false true false c = refl
sort_out true false false e c = refl
sort_out false a b e c = refl

later_parent_lem :
    (cs : List ℕ)
    → (ends_with cs (slash ∷ dot ∷ dot ∷ []) || contains_text cs (slash ∷ dot ∷ dot ∷ slash ∷ []))
      ≡ later_parent cs
unfolding ends_with contains_text later_parent first_parent same_bytes starts_with
later_parent_lem [] = refl
later_parent_lem (c ∷ cs) =
    sort_out (c == slash) (same_bytes cs (dot ∷ dot ∷ [])) (starts_with cs (dot ∷ dot ∷ slash ∷ []))
      _ _
    ∙ ap (λ t. (c == slash && first_parent cs) || t) (later_parent_lem cs)

group : (p q e c : Bool) → (p || (q || e) || c) ≡ ((p || q) || (e || c))
group true q e c = refl
group false true e c = refl
group false false e c = refl

has_parent_text_lem :
    (name : List ℕ) → has_parent_text name ≡ (first_parent name || later_parent name)
unfolding has_parent_text first_parent
has_parent_text_lem name =
    group (same_bytes name (dot ∷ dot ∷ [])) (starts_with name (dot ∷ dot ∷ slash ∷ [])) _ _
    ∙ ap (λ t. first_parent name || t) (later_parent_lem name)

||-false : (x y : Bool) → (x || y) ≡ false → (x ≡ false) × (y ≡ false)
||-false true y h = cc
||-false false y h = (refl, h)

-- What has no such component behind a slash has none there at all.
rest_clean :
    (a b : ℕ) (rest : List ℕ)
    → has_parent_text (a ∷ b ∷ rest) ≡ false
    → b ≡ slash
    → has_parent_text rest ≡ false
unfolding later_parent
rest_clean a b rest h e =
    let none_here =
      ||-false (first_parent (a ∷ b ∷ rest)) _ (sym (has_parent_text_lem (a ∷ b ∷ rest)) ∙ h) in
    let behind_a = ||-false (a == slash && first_parent (b ∷ rest)) _ none_here.1 in
    let behind_b = ||-false (b == slash && first_parent rest) (later_parent rest) behind_a.1 in
    let here : (slash == slash && first_parent rest) ≡ false = rw e at behind_b.0 in
    has_parent_text_lem rest ∙ rw (here, behind_b.1)

leads_with :
    (a b : ℕ) (rest : List ℕ) → starts_with (a ∷ b ∷ rest) (dot ∷ slash ∷ []) ≡ true → b ≡ slash
unfolding starts_with
leads_with a b rest h = ground arith

-- The call on what stands behind a leading "./" finds nothing more.
traversal-parent_text : (name : List ℕ) → contains_path_traversal name ≡ has_parent_text name
unfolding contains_path_traversal
traversal-parent_text [] = refl
traversal-parent_text (a ∷ []) = refl
traversal-parent_text (a ∷ b ∷ rest) = elim (Bool-cases (has_parent_text (a ∷ b ∷ rest))) [
  | inl found ↦ rw found
  | inr clean ↦ rw clean (clean_case clean (traversal-parent_text rest))
]
  where
    clean_case :
        has_parent_text (a ∷ b ∷ rest) ≡ false
        → contains_path_traversal rest ≡ has_parent_text rest
        → (if starts_with (a ∷ b ∷ rest) (dot ∷ slash ∷ []) && ltb 2 (length (a ∷ b ∷ rest))
            then (if starts_with rest (dot ∷ []) || contains rest slash
                then contains_path_traversal rest
                else false)
            else false)
          ≡ false
    clean_case clean ih = elim (Bool-cases (starts_with (a ∷ b ∷ rest) (dot ∷ slash ∷ []))) [
      | inr other ↦ rw other
      | inl lead ↦
          let e : contains_path_traversal rest ≡ false =
            ih ∙ rest_clean a b rest clean (leads_with a b rest lead) in
          rw (lead, e) (both_false _ _)
    ]
      where
        same_if : (y : Bool) → (if y then false else false) ≡ false
        same_if true = refl
        same_if false = refl

        both_false : (x y : Bool) → (if x then (if y then false else false) else false) ≡ false
        both_false true y = same_if y
        both_false false y = refl

abbrev ParentFirst : List ℕ → Type 0
ParentFirst name = (after : List ℕ) × (name ≡ dot ∷ dot ∷ after) × AtEnd after

first_parent_sound : (name : List ℕ) → first_parent name ≡ true → ParentFirst name
unfolding first_parent same_bytes starts_with
first_parent_sound [] h = cc
first_parent_sound (c ∷ []) h = absurd (ground arith)
first_parent_sound (c ∷ d ∷ []) h =
    let p : c ≡ dot = ground arith in let q : d ≡ dot = ground arith in ([], rw (p, q), inl refl)
first_parent_sound (c ∷ d ∷ e ∷ rest) h =
    let p : c ≡ dot = ground arith in
    let q : d ≡ dot = ground arith in
    let r : e ≡ slash = ground arith in (e ∷ rest, rw (p, q), inr (rest, rw r))

first_parent_complete : (after : List ℕ) → AtEnd after → first_parent (dot ∷ dot ∷ after) ≡ true
unfolding first_parent same_bytes starts_with
first_parent_complete after (inl e) = rw e
first_parent_complete after (inr (xs, e)) = rw e

later_parent_sound :
    (name : List ℕ)
    → later_parent name ≡ true
    → (xs : List ℕ) × (ys : List ℕ) × (name ≡ xs ++ (slash ∷ ys)) × (first_parent ys ≡ true)
unfolding later_parent
later_parent_sound [] h = cc
later_parent_sound (c ∷ cs) h = elim (Bool-cases (c == slash && first_parent cs)) [
  | inl here ↦
      let p : c ≡ slash = ground arith in
      let q : first_parent cs ≡ true = ground arith in ([], cs, rw p, q)
  | inr other ↦
      let r : later_parent cs ≡ true = ground arith in
      let (xs, ys, e, f) = later_parent_sound cs r in (c ∷ xs, ys, ap (◌∷◌ c) e, f)
]

later_parent_complete :
    (xs ys : List ℕ) → first_parent ys ≡ true → later_parent (xs ++ (slash ∷ ys)) ≡ true
unfolding later_parent
later_parent_complete [] ys h = rw h
later_parent_complete (x ∷ xs) ys h = ground (arith, later_parent_complete xs ys h)

parent-HasParent :
    (name : List ℕ) → (first_parent name || later_parent name) ≡ true → HasParent name
parent-HasParent name h = elim (Bool-cases (first_parent name)) [
  | inl first ↦
      let (after, e, ends) = first_parent_sound name first in
      record { before = []; after = after; spelled = e; starts = inl refl; ends = ends }
  | inr other ↦
      let (xs, ys, e, f) = later_parent_sound name (ground arith) in
      let (after, e', ends) = first_parent_sound ys f in
      record {
        before = xs ++ slash ∷ [];
        after = after;
        spelled =
            e
            ∙ ap (λ t. xs ++ (slash ∷ t)) e'
            ∙ sym (append_assoc xs (slash ∷ []) (dot ∷ dot ∷ after));
        starts = inr (xs, refl);
        ends = ends;
      }
]

HasParent-parent :
    (name : List ℕ) → HasParent name → (first_parent name || later_parent name) ≡ true
HasParent-parent name h = at_start h.starts
  where
    last : first_parent (dot ∷ dot ∷ h.after) ≡ true
    last = first_parent_complete h.after h.ends

    at_start : AtStart h.before → (first_parent name || later_parent name) ≡ true
    at_start (inl e) =
        let whole : name ≡ dot ∷ dot ∷ h.after =
          h.spelled ∙ ap (λ t. t ++ (dot ∷ dot ∷ h.after)) e in
        rw (whole, last)
    at_start (inr (xs, e)) =
        let whole : name ≡ xs ++ (slash ∷ dot ∷ dot ∷ h.after) =
          h.spelled
          ∙ ap (λ t. t ++ (dot ∷ dot ∷ h.after)) e
          ∙ append_assoc xs (slash ∷ []) (dot ∷ dot ∷ h.after) in
        let later : later_parent name ≡ true =
          rw whole (later_parent_complete xs (dot ∷ dot ∷ h.after) last) in
        ground arith

-- `contains_path_traversal` says yes of exactly those names of which a component, between slashes
-- or the ends of the name, is two dots.
pub contains_path_traversal_iff :
    (name : List ℕ) → (contains_path_traversal name ≡ true) ↔ HasParent name
contains_path_traversal_iff name =
    let same = traversal-parent_text name ∙ has_parent_text_lem name in
    (λ h. parent-HasParent name (sym same ∙ h), λ h. same ∙ HasParent-parent name h)
