-- ===== src/Ngram/Tests.antt =====
-- `bloom_from_literals` of src/lib.rs at concrete inputs.
use ziftsieve.Base.{
  ℕ, ◌≡◌, refl, [], ◌∷◌, Bool, true, false, ◌&&◌, ◌||◌, ◌==◌, ==_refl, if◌then◌else◌, none, some,
  Returns,
}
use ziftsieve.Block.{CompressedBlock}
use ziftsieve.Ngram.{
  NgramFilter, KeepsNgrams, PairsOf, bloom_from_literals, bloom_from_literals-PairsOf,
}

-- A filter that keeps the pairs as they are, and fails for no bits.
abbrev exact : NgramFilter
exact = record {
  Bloom = ℕ → ℕ → Bool;
  new = λ num_bits. if num_bits == 0 then none else some (λ u v. false);
  insert_ngram = λ b x y u v. (u == x && v == y) || b u v;
  maybe_contains = λ b u v. b u v;
}

or_true : (p : Bool) → (p || true) ≡ true
or_true true = refl
or_true false = refl

exact-KeepsNgrams : KeepsNgrams exact
exact-KeepsNgrams = record {
  inserted = λ b x y. rw (==_refl x, ==_refl y);
  kept = λ b x y u v h. rw h (or_true (u == x && v == y));
}

abbrev block : CompressedBlock
block = record {
  compressed_offset = 0;
  compressed_len = 3;
  uncompressed_len = none;
  literals = 1 ∷ 2 ∷ 3 ∷ [];
}

bloom_from_literals-PairsOf_example :
    Returns
      (PairsOf exact exact-KeepsNgrams (block ∷ []) 64)
      (bloom_from_literals exact (block ∷ []) 64)
bloom_from_literals-PairsOf_example =
    bloom_from_literals-PairsOf exact exact-KeepsNgrams (block ∷ []) 64
