-- ===== src/Bloom.antt =====
-- src/bloom/hash.rs, src/bloom/filter.rs and src/bloom/mod.rs: the Bloom filter and its builder.
pub mod Members
pub mod Build
pub mod Tests
use Prim.Native.Nat.{bit_xor}
use ziftsieve.Base.{
  ℕ, zero, suc, ◌+◌, ◌-◌, ◌*◌, ◌%◌, ◌^◌, min, max, List, [], ◌∷◌, Bool, true, false, Option, none,
  some, ltb, ◌==◌, if◌then◌else◌,
}
use ziftsieve.Base.{Outcome, ok, err, panic, ◌>>=◌, ◌>>◌, refuse, out_of_bounds, division_by_zero}
use ziftsieve.Base.{invalid_data, empty_bit_vector}
use ziftsieve.Platform.{Platform, Float64, BitVec}

abbrev pub max_bloom_bits : ℕ
max_bloom_bits = 2 ^ 30

unfoldable pub clamp : ℕ → ℕ → ℕ → ℕ
clamp x lo hi = if ltb x lo then lo else if ltb hi x then hi else x

abbrev fnv_offset : ℕ
fnv_offset = 0x1465_0FB0_739D_0383

abbrev fnv_prime : ℕ
fnv_prime = 0x0100_0000_01b3

hash_fnv1a_alt_from : ℕ → List ℕ → ℕ
hash_fnv1a_alt_from hash [] = hash
hash_fnv1a_alt_from hash (byte ∷ rest) =
    hash_fnv1a_alt_from (bit_xor hash byte * fnv_prime % 2 ^ 64) rest

pub hash_fnv1a_alt : List ℕ → ℕ
unfolding hash_fnv1a_alt_from
hash_fnv1a_alt bytes = hash_fnv1a_alt_from fnv_offset bytes

-- h1 + n * h2 on 64 bits, cut down to the filter.
abbrev pub nth_index : ℕ → ℕ → ℕ → ℕ → ℕ
nth_index h1 h2 n num_bits = (h1 + n * h2 % 2 ^ 64) % 2 ^ 64 % num_bits

pub nth_hash : ℕ → ℕ → ℕ → ℕ → Outcome ℕ
nth_hash h1 h2 n num_bits =
    if num_bits == 0 then panic division_by_zero else ok (nth_index h1 h2 n num_bits)

module _ (p : Platform) where
  open p use {floats, bit_vec, fnv1a_64}
  open floats use {F}
  open bit_vec use {Bits}

  pub record BloomFilter : Type 0 where
    pub bits : Bits
    pub num_hashes : ℕ
    pub num_bits : ℕ

  abbrev pub hash_pair : List ℕ → ℕ × ℕ
  hash_pair item = (fnv1a_64 item, hash_fnv1a_alt item)

  -- Bits for `n` items at rate `rate`: -n ln(rate) / ln(2)², rounded up and clamped.
  pub auto_bits : F → F → ℕ
  auto_bits n rate =
      let m = floats.ceil (
        floats.div (floats.mul (floats.neg n) (floats.ln rate))
          (floats.square (floats.ln (floats.of_nat 2)))) in
      clamp
        (if floats.greater m (floats.of_nat max_bloom_bits)
          then max_bloom_bits
          else floats.to_nat m)
        64 max_bloom_bits

  -- Rounds for `m` bits: m / n ln(2), rounded and clamped.
  pub auto_hashes : F → ℕ → ℕ
  auto_hashes n m =
      let k =
        floats.round (floats.mul (floats.div (floats.of_nat m) n) (floats.ln (floats.of_nat 2))) in
      clamp (if floats.greater k (floats.of_nat (2 ^ 32 - 1)) then 2 ^ 32 - 1 else floats.to_nat k)
        1 32

  -- `BloomFilter::new`
  pub new : ℕ → F → BloomFilter
  new expected_items false_positive_rate =
      let n = floats.of_nat (max expected_items 1) in
      let rate =
        if floats.is_nan false_positive_rate
        then floats.percent
        else floats.clamp false_positive_rate floats.least_rate floats.greatest_rate in
      let m = auto_bits n rate in
      record { bits = bit_vec.from_elem m false; num_hashes = auto_hashes n m; num_bits = m }

  pub with_params : ℕ → ℕ → BloomFilter
  with_params num_bits num_hashes =
      let m = clamp num_bits 1 max_bloom_bits in
      record { bits = bit_vec.from_elem m false; num_hashes = clamp num_hashes 1 32; num_bits = m }

  -- `self.bits.set(idx, true)`
  set_bit : Bits → ℕ → Outcome Bits
  set_bit bits i =
      if ltb i (bit_vec.len bits) then ok (bit_vec.put bits i true) else panic out_of_bounds

  -- The loop of `insert`, over the rounds that are left from round `i` on.
  pub insert_rounds : ℕ → ℕ → ℕ → ℕ → ℕ → Bits → Outcome Bits
  unfolding set_bit
  insert_rounds zero i h1 h2 m bits = ok bits
  insert_rounds (suc rounds) i h1 h2 m bits = do
    idx ← nth_hash h1 h2 i m
    bits' ← set_bit bits idx
    insert_rounds rounds (i + 1) h1 h2 m bits'

  pub insert : BloomFilter → List ℕ → Outcome BloomFilter
  insert f item = do
    let (h1, h2) = hash_pair item
    bits ← insert_rounds f.num_hashes 0 h1 h2 f.num_bits f.bits
    ok (record f { bits = bits })

  -- `self.bits.get(idx).unwrap_or(false)`
  abbrev pub is_set : Bits → ℕ → Bool
  is_set bits i = elim (bit_vec.get bits i) [ none ↦ false | some b ↦ b ]

  pub query_rounds : ℕ → ℕ → ℕ → ℕ → ℕ → Bits → Outcome Bool
  query_rounds zero i h1 h2 m bits = ok true
  query_rounds (suc rounds) i h1 h2 m bits = nth_hash h1 h2 i m >>= λ idx.
      let rest = query_rounds rounds (i + 1) h1 h2 m bits in
      if is_set bits idx then rest else ok false

  pub may_contain : BloomFilter → List ℕ → Outcome Bool
  may_contain f item =
      let (h1, h2) = hash_pair item in query_rounds f.num_hashes 0 h1 h2 f.num_bits f.bits

  pub may_contain_any : BloomFilter → List (List ℕ) → Outcome Bool
  may_contain_any f [] = ok false
  may_contain_any f (pattern ∷ patterns) =
      let rest = may_contain_any f patterns in
      may_contain f pattern >>= λ found. if found then ok true else rest

  pub clear : BloomFilter → BloomFilter
  clear f = record f { bits = bit_vec.grow (bit_vec.clear f.bits) f.num_bits false }

  pub from_bits : Bits → ℕ → Outcome BloomFilter
  from_bits bits num_hashes = do
    let num_bits = bit_vec.len bits
    refuse (num_bits == 0) (invalid_data 0 empty_bit_vector)
    ok (record { bits = bits; num_hashes = clamp num_hashes 1 32; num_bits = num_bits })

  -- `BloomFilterBuilder`; the setters are updates of the record.
  pub record BloomFilterBuilder : Type 0 where
    pub expected_items : Option ℕ
    pub false_positive_rate : Option F
    pub num_bits : Option ℕ
    pub num_hashes : Option ℕ

  abbrev or_default {ℓ} : {A : Type ℓ} → Option A → A → A
  or_default none d = d
  or_default (some x) d = x

  pub build_from : Option ℕ → Option F → Option ℕ → Option ℕ → BloomFilter
  build_from items rate (some bits) (some hashes) = with_params bits hashes
  build_from items rate bits hashes = new (or_default items 1000) (or_default rate floats.percent)

  pub build : BloomFilterBuilder → BloomFilter
  build b = build_from b.expected_items b.false_positive_rate b.num_bits b.num_hashes
