-- ===== src/Bloom/Members.antt =====
-- The items of the Bloom filter of src/bloom/filter.rs: `insert` and `may_contain`.
use ziftsieve.Base.{
  ℕ, zero, suc, ◌+◌, ◌≤◌, ◌<◌, ◌≡◌, refl, ◌∙◌, arith, List, Bool, true, false, some, ok, ◌>>=◌,
  Ensures, returns, Ensures-bind, Ensures-map, ◌==◌, lt→ltb, Bool-cases, inl, inr,
}
use native.Mathlib.Decide.{ℕ_discrete}
use ziftsieve.Platform.{Platform}
use ziftsieve.Bloom.{
  BloomFilter, nth_index, nth_hash, insert_rounds, insert, is_set, query_rounds, may_contain,
  hash_pair,
}

module _ (p : Platform) where
  open p use {bit_vec}
  open bit_vec use {Bits}

  -- There is a bit for every index, and 1 to 32 rounds.
  pub record IsValid (f : BloomFilter p) : Type 0 where
    pub some_bits : 1 ≤ f.num_bits
    pub backed : f.num_bits ≤ bit_vec.len f.bits
    pub some_hashes : 1 ≤ f.num_hashes
    pub few_hashes : f.num_hashes ≤ 32

  -- Every bit that is set in `v` is set in `w`.
  abbrev Below : Bits → Bits → Type 0
  Below v w = (i : ℕ) → bit_vec.get v i ≡ some true → bit_vec.get w i ≡ some true

  -- The bits of the rounds from `i` on are set.
  abbrev AllSet : ℕ → ℕ → ℕ → ℕ → ℕ → Bits → Type 0
  AllSet zero i h1 h2 m v = Unit
  AllSet (suc rounds) i h1 h2 m v =
      (bit_vec.get v (nth_index h1 h2 i m) ≡ some true) × AllSet rounds (i + 1) h1 h2 m v

  AllSet-Below :
      (rounds i h1 h2 m : ℕ) (v w : Bits)
      → Below v w
      → AllSet rounds i h1 h2 m v
      → AllSet rounds i h1 h2 m w
  AllSet-Below zero i h1 h2 m v w b h = tt
  AllSet-Below (suc rounds) i h1 h2 m v w b h =
      (b _ h.0, AllSet-Below rounds (i + 1) h1 h2 m v w b h.1)

  query_rounds-true :
      (rounds i h1 h2 m : ℕ) (v : Bits)
      → 1 ≤ m
      → AllSet rounds i h1 h2 m v
      → query_rounds p rounds i h1 h2 m v ≡ ok true
  unfolding query_rounds nth_hash ◌>>=◌
  query_rounds-true zero i h1 h2 m v l h = refl
  query_rounds-true (suc rounds) i h1 h2 m v l h =
      ground (arith, h.0, query_rounds-true rounds (i + 1) h1 h2 m v l h.1)

  true-query_rounds :
      (rounds i h1 h2 m : ℕ) (v : Bits)
      → query_rounds p rounds i h1 h2 m v ≡ ok true
      → AllSet rounds i h1 h2 m v
  unfolding query_rounds nth_hash ◌>>=◌
  true-query_rounds zero i h1 h2 m v h = tt
  true-query_rounds (suc rounds) i h1 h2 m v h =
      (ground arith, true-query_rounds rounds (i + 1) h1 h2 m v (ground arith))

  nth_index-lt : (h1 h2 n m : ℕ) → 1 ≤ m → nth_index h1 h2 n m < m
  nth_index-lt h1 h2 n m l = omega arith

  Below-put : (v : Bits) (i : ℕ) → i < bit_vec.len v → Below v (bit_vec.put v i true)
  Below-put v i l j h = elim (ℕ_discrete i j) [
    | yes e ↦ rw (← e) (bit_vec.get-put_self v i true l)
    | no ne ↦ bit_vec.get-put_ne v i j true ne ∙ h
  ]

  insert_rounds-Ensures :
      (rounds i h1 h2 m : ℕ) (v : Bits)
      → 1 ≤ m
      → m ≤ bit_vec.len v
      → Ensures
          (λ w. (bit_vec.len w ≡ bit_vec.len v) × Below v w × AllSet rounds i h1 h2 m w)
          (insert_rounds p rounds i h1 h2 m v)
  unfolding insert_rounds nth_hash ◌>>=◌
  insert_rounds-Ensures zero i h1 h2 m v l b = returns (refl, (λ j h. h), tt)
  insert_rounds-Ensures (suc rounds) i h1 h2 m v l b =
      let idx = nth_index h1 h2 i m in
      let within : idx < bit_vec.len v = omega (arith, nth_index-lt h1 h2 i m l) in
      let v' = bit_vec.put v idx true in
      let len : bit_vec.len v' ≡ bit_vec.len v = bit_vec.len-put v idx true in
      let positive : (m == 0) ≡ false = ground arith in
      rw (positive, lt→ltb idx (bit_vec.len v) within)
        (Ensures-map
          (λ w h. (
            h.0 ∙ len,
            (λ j g. h.1 j (Below-put v idx within j g)),
            (h.1 idx (bit_vec.get-put_self v idx true within), h.2),
          ))
          (insert_rounds-Ensures rounds (i + 1) h1 h2 m v' l (omega arith)))

  -- What an insertion does to a filter.
  pub record Inserted (f : BloomFilter p) (item : List ℕ) (g : BloomFilter p) : Type 0 where
    pub valid : IsValid g
    pub same_hashes : g.num_hashes ≡ f.num_hashes
    pub same_bits : g.num_bits ≡ f.num_bits
    pub member : may_contain p g item ≡ ok true
    pub kept : (x : List ℕ) → may_contain p f x ≡ ok true → may_contain p g x ≡ ok true

  -- On a valid filter `insert` does not panic and leaves a valid filter with as many bits and
  -- rounds, which contains the item and every item that was contained before.
  pub insert-Ensures :
      (f : BloomFilter p) (item : List ℕ) → IsValid f → Ensures (Inserted f item) (insert p f item)
  unfolding insert may_contain
  insert-Ensures f item v =
      let (h1, h2) = hash_pair p item in
      Ensures-bind
        (insert_rounds-Ensures f.num_hashes 0 h1 h2 f.num_bits f.bits v.some_bits v.backed)
        λ w h. returns (record {
          valid = record {
            some_bits = v.some_bits;
            backed = omega arith;
            some_hashes = v.some_hashes;
            few_hashes = v.few_hashes;
          };
          same_hashes = refl;
          same_bits = refl;
          member = query_rounds-true f.num_hashes 0 h1 h2 f.num_bits w v.some_bits h.2;
          kept = λ x q. query_rounds-true f.num_hashes 0 _ _ f.num_bits w v.some_bits (
              AllSet-Below f.num_hashes 0 _ _ f.num_bits f.bits w h.1
                (true-query_rounds f.num_hashes 0 _ _ f.num_bits f.bits q));
        })

  -- The first `m` bits are unset.
  abbrev pub IsBlank : ℕ → Bits → Type 0
  IsBlank m v = (i : ℕ) → i < m → is_set p v i ≡ false

  blank-query_rounds :
      (rounds i h1 h2 m : ℕ) (v : Bits)
      → 1 ≤ rounds
      → 1 ≤ m
      → IsBlank m v
      → query_rounds p rounds i h1 h2 m v ≡ ok false
  unfolding query_rounds nth_hash ◌>>=◌
  blank-query_rounds zero i h1 h2 m v k l b = absurd (omega arith)
  blank-query_rounds (suc rounds) i h1 h2 m v k l b =
      let positive : (m == 0) ≡ false = ground arith in
      rw (positive, b _ (nth_index-lt h1 h2 i m l))

  pub may_contain_blank :
      (f : BloomFilter p) (item : List ℕ)
      → IsValid f
      → IsBlank f.num_bits f.bits
      → may_contain p f item ≡ ok false
  unfolding may_contain
  may_contain_blank f item v b =
      blank-query_rounds f.num_hashes 0 _ _ f.num_bits f.bits v.some_hashes v.some_bits b

  query_rounds-total :
      (rounds i h1 h2 m : ℕ) (v : Bits)
      → 1 ≤ m
      → (b : Bool) × (query_rounds p rounds i h1 h2 m v ≡ ok b)
  unfolding query_rounds nth_hash ◌>>=◌
  query_rounds-total zero i h1 h2 m v l = (true, refl)
  query_rounds-total (suc rounds) i h1 h2 m v l =
      let positive : (m == 0) ≡ false = ground arith in
      let (b, e) = query_rounds-total rounds (i + 1) h1 h2 m v l in
      elim (Bool-cases (is_set p v (nth_index h1 h2 i m))) [
        | inl one ↦ (b, rw (positive, one) e)
        | inr none_set ↦ (false, rw (positive, none_set))
      ]

  pub may_contain-total :
      (f : BloomFilter p) (item : List ℕ) → IsValid f → (b : Bool) × (may_contain p f item ≡ ok b)
  unfolding may_contain
  may_contain-total f item v = query_rounds-total f.num_hashes 0 _ _ f.num_bits f.bits v.some_bits
