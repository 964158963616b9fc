-- ===== src/Ngram.antt =====
-- `bloom_from_literals` of src/lib.rs, over the n-gram filter of the crate flashsieve.
mod Tests
use ziftsieve.Base.{
  ℕ, suc, ltb, ◌-◌, Option-cases, ◌+◌, ◌≤◌, ◌≡◌, refl, ◌∙◌, ap, arith, List, [], ◌∷◌, ◌++◌, length,
  take, get_elem?, All, Bool, true, Option, none, some, leb, if◌then◌else◌, Outcome, ok, ◌>>=◌,
  index, Returns, gives, Returns-bind, Returns-step, Returns-map, le→leb, gt→leb, Bool-cases, inl,
  inr,
}
use ziftsieve.Block.{CompressedBlock, windows}

-- `new` fails for a number of bits that is not valid.
pub record NgramFilter : Type 1 where
  pub Bloom : Type 0
  pub new : ℕ → Option Bloom
  pub insert_ngram : Bloom → ℕ → ℕ → Bloom
  pub maybe_contains : Bloom → ℕ → ℕ → Bool

-- What the crate documents: no false negatives.
pub record KeepsNgrams (f : NgramFilter) : Type 0 where
  pub inserted : (b : f.Bloom) (x y : ℕ) → f.maybe_contains (f.insert_ngram b x y) x y ≡ true
  pub kept :
      (b : f.Bloom) (x y u v : ℕ)
      → f.maybe_contains b u v ≡ true
      → f.maybe_contains (f.insert_ngram b x y) u v ≡ true

module _ (f : NgramFilter) where
  -- `for window in …`
  unfoldable pub insert_windows : List (List ℕ) → f.Bloom → Outcome f.Bloom
  insert_windows [] bloom = ok bloom
  insert_windows (window ∷ rest) bloom = do
    x ← index window 0
    y ← index window 1
    insert_windows rest (f.insert_ngram bloom x y)

  unfoldable pub insert_blocks : List CompressedBlock → f.Bloom → Outcome f.Bloom
  insert_blocks [] bloom = ok bloom
  insert_blocks (block ∷ rest) bloom = do
    filled ← insert_windows (windows 2 block.literals) bloom
    insert_blocks rest filled

  -- `none` is the error of `new`.
  unfoldable pub filled_from : List CompressedBlock → Option f.Bloom → Outcome (Option f.Bloom)
  filled_from blocks none = ok none
  filled_from blocks (some bloom) = do filled ← insert_blocks blocks bloom; ok (some filled)

  unfoldable pub bloom_from_literals : List CompressedBlock → ℕ → Outcome (Option f.Bloom)
  bloom_from_literals blocks num_bits = filled_from blocks (f.new num_bits)

-- Both bytes of every pair that stands side by side in the text.
abbrev pub HoldsPairs : (f : NgramFilter) → f.Bloom → List ℕ → Type 0
HoldsPairs f bloom text =
    (before : List ℕ) (x y : ℕ) (after : List ℕ)
    → text ≡ before ++ (x ∷ y ∷ after)
    → f.maybe_contains bloom x y ≡ true

module _ (f : NgramFilter) (laws : KeepsNgrams f) where
  -- What was contained stays.
  abbrev Grows : f.Bloom → f.Bloom → Type 0
  Grows b c = (u v : ℕ) → f.maybe_contains b u v ≡ true → f.maybe_contains c u v ≡ true

  insert_windows-HoldsPairs :
      (text : List ℕ) (bloom : f.Bloom)
      → Returns (λ c. Grows bloom c × HoldsPairs f c text) (insert_windows f (windows 2 text) bloom)
  unfolding insert_windows windows index ◌>>=◌
  insert_windows-HoldsPairs [] bloom = gives ((λ u v h. h), none_there)
    where
      none_there : HoldsPairs f bloom []
      none_there [] x y after e = cc
      none_there (z ∷ zs) x y after e = cc
  insert_windows-HoldsPairs (a ∷ []) bloom = gives ((λ u v h. h), none_there)
    where
      none_there : HoldsPairs f bloom (a ∷ [])
      none_there [] x y after e = cc
      none_there (z ∷ []) x y after e = cc
      none_there (z ∷ w ∷ zs) x y after e = cc
  insert_windows-HoldsPairs (a ∷ b ∷ text) bloom =
      let two : leb 2 (suc (suc (length text))) ≡ true = le→leb 2 _ (omega arith) in
      rw two (Returns-map grown (insert_windows-HoldsPairs (b ∷ text) (f.insert_ngram bloom a b)))
    where
      grown :
          (c : f.Bloom)
          → Grows (f.insert_ngram bloom a b) c × HoldsPairs f c (b ∷ text)
          → Grows bloom c × HoldsPairs f c (a ∷ b ∷ text)
      grown c (g, h) = ((λ u v k. g u v (laws.kept bloom a b u v k)), pairs)
        where
          pairs : HoldsPairs f c (a ∷ b ∷ text)
          pairs [] x y after e = let here = g a b (laws.inserted bloom a b) in cc (here, e)
          pairs (z ∷ zs) x y after e = h zs x y after (cc e)

  insert_blocks-HoldsPairs :
      (blocks : List CompressedBlock) (bloom : f.Bloom)
      → Returns
          (λ c. Grows bloom c × All (λ b. HoldsPairs f c b.literals) blocks)
          (insert_blocks f blocks bloom)
  unfolding insert_blocks
  insert_blocks-HoldsPairs [] bloom = gives ((λ u v h. h), tt)
  insert_blocks-HoldsPairs (block ∷ rest) bloom =
      Returns-bind (insert_windows-HoldsPairs block.literals bloom) λ c (g, h).
        Returns-map
          (λ d (g', hs). (
            (λ u v k. g' u v (g u v k)),
            (λ before x y after e. g' x y (h before x y after e), hs),
          ))
          (insert_blocks-HoldsPairs rest c)

  -- What is returned: an error where `new` fails, and else a filter with every pair.
  abbrev pub PairsOf : List CompressedBlock → ℕ → Option f.Bloom → Type 0
  PairsOf blocks num_bits none = f.new num_bits ≡ none
  PairsOf blocks num_bits (some c) = All (λ b. HoldsPairs f c b.literals) blocks

  -- If the n-gram filter keeps what is inserted and answers yes for it, then `bloom_from_literals`
  -- does not panic and gives an error only where `new` does, and a filter that it returns answers
  -- yes for every pair of bytes that stand side by side in the literals of a block.
  pub bloom_from_literals-PairsOf :
      (blocks : List CompressedBlock) (num_bits : ℕ)
      → Returns (PairsOf blocks num_bits) (bloom_from_literals f blocks num_bits)
  unfolding bloom_from_literals filled_from
  bloom_from_literals-PairsOf blocks num_bits = elim (Option-cases (f.new num_bits)) [
    | inl fails ↦ rw fails (gives fails)
    | inr (bloom, made) ↦
        rw made (Returns-bind (insert_blocks-HoldsPairs blocks bloom) λ c (g, hs). gives hs)
  ]
