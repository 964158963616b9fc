-- ===== src/Platform/Listed.antt =====
-- A platform of plain data: bits are a list, and a float is a natural number.
use ziftsieve.Base.{
  ℕ, zero, suc, ◌+◌, ◌*◌, ◌/◌, ◌<◌, ◌≡◌, ◌≢◌, refl, ap, arith, List, [], ◌∷◌, ◌++◌, Bool, false,
  some, length, get_elem?, set, replicate, length-append, length-replicate, length-set, ltb, min,
  max,
}
use ziftsieve.Platform.{Float64, BitVec, Platform}

abbrev unset : List Bool → List Bool
unset [] = []
unset (b ∷ bs) = false ∷ unset bs

pub get-replicate : (n : ℕ) (b : Bool) (i : ℕ) → i < n → get_elem? (replicate n b) i ≡ some b
get-replicate zero b i h = absurd (omega arith)
get-replicate (suc n) b zero h = refl
get-replicate (suc n) b (suc i) h = get-replicate n b i (omega arith)

pub get-set_self :
    (v : List Bool) (i : ℕ) (b : Bool) → i < length v → get_elem? (set v i b) i ≡ some b
get-set_self [] i b h = absurd (omega arith)
get-set_self (x ∷ v) zero b h = refl
get-set_self (x ∷ v) (suc i) b h = get-set_self v i b (omega arith)

pub get-set_ne :
    (v : List Bool) (i j : ℕ) (b : Bool) → i ≢ j → get_elem? (set v i b) j ≡ get_elem? v j
get-set_ne [] i j b h = refl
get-set_ne (x ∷ v) zero zero b h = absurd (h refl)
get-set_ne (x ∷ v) zero (suc j) b h = refl
get-set_ne (x ∷ v) (suc i) zero b h = refl
get-set_ne (x ∷ v) (suc i) (suc j) b h = get-set_ne v i j b (λ e. h (ap suc e))

pub length-unset : (v : List Bool) → length (unset v) ≡ length v
length-unset [] = refl
length-unset (x ∷ v) = ap suc (length-unset v)

pub get-unset : (v : List Bool) (i : ℕ) → i < length v → get_elem? (unset v) i ≡ some false
get-unset [] i h = absurd (omega arith)
get-unset (x ∷ v) zero h = refl
get-unset (x ∷ v) (suc i) h = get-unset v i (omega arith)

pub get-append_left :
    (v w : List Bool) (i : ℕ) → i < length v → get_elem? (v ++ w) i ≡ get_elem? v i
get-append_left [] w i h = absurd (omega arith)
get-append_left (x ∷ v) w zero h = refl
get-append_left (x ∷ v) w (suc i) h = get-append_left v w i (omega arith)

pub length-grow : (v : List Bool) (n : ℕ) (b : Bool) → length (v ++ replicate n b) ≡ length v + n
length-grow v n b = omega (arith, length-append v (replicate n b), length-replicate n b)

abbrev pub list_bits : BitVec
list_bits = record {
  Bits = List Bool;
  from_elem = λ n b. replicate n b;
  len = length;
  get = get_elem?;
  put = set;
  clear = unset;
  grow = λ v n b. v ++ replicate n b;
  len-from_elem = λ n b. length-replicate n b;
  get-from_elem = get-replicate;
  len-put = length-set;
  get-put_self = get-set_self;
  get-put_ne = get-set_ne;
  len-clear = length-unset;
  get-clear = get-unset;
  len-grow = length-grow;
  get-grow_old = λ v n b i h. get-append_left v (replicate n b) i h;
}

abbrev pub whole_floats : Float64
whole_floats = record {
  F = ℕ;
  of_nat = λ n. n;
  to_nat = λ n. n;
  neg = λ n. n;
  mul = λ a b. a * b;
  div = λ a b. a / b;
  ln = λ n. n;
  square = λ n. n * n;
  ceil = λ n. n;
  round = λ n. n;
  greater = λ a b. ltb b a;
  is_nan = λ n. false;
  clamp = λ n lo hi. min (max n lo) hi;
  percent = 100;
  least_rate = 1;
  greatest_rate = 9999;
}

abbrev pub sum_bytes : List ℕ → ℕ
sum_bytes [] = 0
sum_bytes (b ∷ bs) = b + sum_bytes bs

abbrev pub listed : Platform
listed = record { floats = whole_floats; bit_vec = list_bits; fnv1a_64 = sum_bytes }
