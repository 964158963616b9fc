-- ===== src/Bloom/Tests.antt =====
-- Bloom filters: the theorems about src/bloom at concrete inputs.
use ziftsieve.Base.{ℕ, ◌*◌, ◌≡◌, List, [], ◌∷◌, Ensures, ok, true, ◌>>=◌, some, none, arith}
use ziftsieve.Bloom.{
  hash_pair, nth_index, query_rounds, nth_hash, BloomFilter, BloomFilterBuilder, with_params,
  insert, may_contain, clear, from_bits, build,
}
use ziftsieve.Bloom.Members.{IsValid, Inserted, insert-Ensures}
use ziftsieve.Bloom.Build.{
  IsFresh, build-IsFresh, from_bits-clear, from_bits-bits, with_params-IsFresh,
}
use ziftsieve.Platform.Listed.{listed}

abbrev pub small : BloomFilter listed
small = with_params listed 8 2

insert-Ensures_example :
    Ensures (Inserted listed small (1 ∷ 2 ∷ [])) (insert listed small (1 ∷ 2 ∷ []))
insert-Ensures_example =
    insert-Ensures listed small (1 ∷ 2 ∷ []) (with_params-IsFresh listed 8 2).valid

abbrev half_told : BloomFilterBuilder listed
half_told = record {
  expected_items = none;
  false_positive_rate = none;
  num_bits = some 5;
  num_hashes = none;
}

build-IsFresh_example : IsFresh listed (build listed half_told)
build-IsFresh_example = build-IsFresh listed half_told

pub small-IsValid : IsValid listed small
small-IsValid = (with_params-IsFresh listed 8 2).valid

from_bits-clear_example :
    Ensures
      (λ g. g.num_bits ≡ 2 * small.num_bits)
      (from_bits listed (clear listed small).bits small.num_hashes)
from_bits-clear_example =
    from_bits-clear listed small (with_params-IsFresh listed 8 2).valid
      (with_params-IsFresh listed 8 2).exact

from_bits-bits_example : from_bits listed small.bits small.num_hashes ≡ ok small
from_bits-bits_example =
    from_bits-bits listed small (with_params-IsFresh listed 8 2).valid
      (with_params-IsFresh listed 8 2).exact

-- One bit, set: every item is a member.
abbrev pub full : BloomFilter listed
full = record { bits = true ∷ []; num_hashes = 1; num_bits = 1 }

pub may_contain-full : (item : List ℕ) → may_contain listed full item ≡ ok true
unfolding may_contain query_rounds nth_hash ◌>>=◌
may_contain-full item =
    let (h1, h2) = hash_pair listed item in
    let only : nth_index h1 h2 0 1 ≡ 0 = omega arith in rw only

pub full-IsValid : IsValid listed full
full-IsValid = omega arith
