-- ===== src/Bloom/Build.antt =====
-- How filters of src/bloom come about: the constructors, `clear`, `from_bits` and the builder.
use ziftsieve.Base.{
  ℕ, ◌*◌, ◌≤◌, ◌≡◌, arith, List, false, Option, none, some, ok, ◌>>◌, Ensures, returns,
  Ensures-refuse, ◌==◌,
}
use ziftsieve.Platform.{Platform}
use ziftsieve.Bloom.{
  BloomFilter, BloomFilterBuilder, clamp, new, with_params, is_set, may_contain, clear, from_bits,
  build, build_from, auto_bits, auto_hashes, max_bloom_bits,
}
use ziftsieve.Bloom.Members.{IsValid, IsBlank, may_contain_blank}

clamp_range : (x lo hi : ℕ) → lo ≤ hi → (lo ≤ clamp x lo hi) × (clamp x lo hi ≤ hi)
unfolding clamp
clamp_range x lo hi h = ground arith

module _ (p : Platform) where
  open p use {bit_vec, floats}

  -- A valid filter of at most 2^30 bits that contains nothing.
  pub record IsFresh (f : BloomFilter p) : Type 0 where
    pub valid : IsValid p f
    pub exact : bit_vec.len f.bits ≡ f.num_bits
    pub bounded : f.num_bits ≤ max_bloom_bits
    pub blank : IsBlank p f.num_bits f.bits

  from_elem-IsBlank : (n : ℕ) → IsBlank p n (bit_vec.from_elem n false)
  from_elem-IsBlank n i h = rw (bit_vec.get-from_elem n false i h, is_set)

  fresh_lem :
      (m k : ℕ)
      → (1 ≤ m) × (m ≤ max_bloom_bits)
      → (1 ≤ k) × (k ≤ 32)
      → IsFresh (record { bits = bit_vec.from_elem m false; num_hashes = k; num_bits = m })
  fresh_lem m k hm hk = record {
    valid = record {
      some_bits = hm.0;
      backed = omega (arith, bit_vec.len-from_elem m false);
      some_hashes = hk.0;
      few_hashes = hk.1;
    };
    exact = bit_vec.len-from_elem m false;
    bounded = hm.1;
    blank = from_elem-IsBlank m;
  }

  pub with_params-IsFresh : (num_bits num_hashes : ℕ) → IsFresh (with_params p num_bits num_hashes)
  unfolding with_params
  with_params-IsFresh num_bits num_hashes =
      fresh_lem _ _ (clamp_range num_bits 1 max_bloom_bits (omega arith))
        (clamp_range num_hashes 1 32 (omega arith))

  auto_bits_range :
      (n rate : floats.F) → (1 ≤ auto_bits p n rate) × (auto_bits p n rate ≤ max_bloom_bits)
  unfolding auto_bits
  auto_bits_range n rate = widen (clamp_range _ 64 max_bloom_bits (omega arith))
    where
      widen : {m : ℕ} → (64 ≤ m) × (m ≤ max_bloom_bits) → (1 ≤ m) × (m ≤ max_bloom_bits)
      widen h = omega arith

  auto_hashes_range : (n : floats.F) (m : ℕ) → (1 ≤ auto_hashes p n m) × (auto_hashes p n m ≤ 32)
  unfolding auto_hashes
  auto_hashes_range n m = clamp_range _ 1 32 (omega arith)

  pub new-IsFresh : (items : ℕ) (rate : floats.F) → IsFresh (new p items rate)
  unfolding new
  new-IsFresh items rate = fresh_lem _ _ (auto_bits_range _ _) (auto_hashes_range _ _)

  -- Whatever the options of the builder, `build` makes a valid filter of 1 to 2^30 bits and 1 to 32
  -- rounds, with a bit vector of just that many bits, all unset.
  pub build-IsFresh : (b : BloomFilterBuilder p) → IsFresh (build p b)
  unfolding build
  build-IsFresh b = by_options b.expected_items b.false_positive_rate b.num_bits b.num_hashes
    where
      by_options :
          (items : Option ℕ) (rate : Option floats.F) (bits hashes : Option ℕ)
          → IsFresh (build_from p items rate bits hashes)
      by_options items rate (some bits) (some hashes) =
          unfold build_from in with_params-IsFresh bits hashes
      by_options items rate none hashes = unfold build_from in new-IsFresh _ _
      by_options items rate (some bits) none = unfold build_from in new-IsFresh _ _

  -- Clearing a valid filter leaves a valid filter for which `may_contain` answers no for every
  -- item.
  pub clear_lem :
      (f : BloomFilter p)
      → IsValid p f
      → IsValid p (clear p f) × ((item : List ℕ) → may_contain p (clear p f) item ≡ ok false)
  unfolding clear
  clear_lem f v =
      let cleared = bit_vec.clear f.bits in
      let valid : IsValid p (clear p f) = record {
        some_bits = v.some_bits;
        backed = omega (arith, bit_vec.len-grow cleared f.num_bits false);
        some_hashes = v.some_hashes;
        few_hashes = v.few_hashes;
      } in
      (valid, λ item. may_contain_blank p (clear p f) item valid blank)
    where
      blank : IsBlank p f.num_bits (bit_vec.grow (bit_vec.clear f.bits) f.num_bits false)
      blank i h = rw (
        bit_vec.get-grow_old (bit_vec.clear f.bits) f.num_bits false i
            (omega (arith, bit_vec.len-clear f.bits, v.backed)),
        bit_vec.get-clear f.bits i (omega (arith, v.backed)),
        is_set,
      )

  -- If the bit vector of a valid filter has `num_bits` bits, then `from_bits` on the bits of the
  -- cleared filter does not panic, and a filter that it returns has twice as many bits as before.
  pub from_bits-clear :
      (f : BloomFilter p)
      → IsValid p f
      → bit_vec.len f.bits ≡ f.num_bits
      → Ensures (λ g. g.num_bits ≡ 2 * f.num_bits) (from_bits p (clear p f).bits f.num_hashes)
  unfolding clear from_bits
  from_bits-clear f v e = Ensures-refuse _ _ λ _. returns (
      omega
        (arith, bit_vec.len-grow (bit_vec.clear f.bits) f.num_bits false, bit_vec.len-clear f.bits))

  -- Taking a valid filter back from its bits and its number of rounds by `from_bits` gives the same
  -- filter, if the bit vector has `num_bits` bits.
  pub from_bits-bits :
      (f : BloomFilter p)
      → IsValid p f
      → bit_vec.len f.bits ≡ f.num_bits
      → from_bits p f.bits f.num_hashes ≡ ok f
  unfolding from_bits clamp ◌>>◌
  from_bits-bits f v e =
      let positive : (bit_vec.len f.bits == 0) ≡ false = ground arith in
      let kept : clamp f.num_hashes 1 32 ≡ f.num_hashes = ground arith in rw (positive, kept, e)
