-- ===== src/Gzip/Bits.antt =====
-- Numbers as rows of bits, the least significant first: `n / 2 ^ a % 2 ^ b` are `b` bits from bit
-- `a` on. A byte slice is such a number.
use ziftsieve.Base.{
  ℕ, zero, suc, ◌+◌, ◌-◌, ◌*◌, ◌/◌, ◌%◌, ◌^◌, ◌≤◌, ◌<◌, ◌≡◌, refl, sym, ap, ◌∙◌, arith, List, [],
  ◌∷◌, drop, All,
}
use native.Mathlib.Nat.{
  div-div-eq-div-mul, add-mul-div_left, add-mul-mod_self_left, one-le-pow, div-lt_iff_lt-mul,
  pow-suc, div-one, zero-div, pow-le-pow_right, mul-le-mul, mul-le-mul_right, mod-eq_of_lt,
  mod-add-div, mod-lt, mul-le-mul_left,
}

pub pow_add : (a b : ℕ) → 2 ^ (a + b) ≡ 2 ^ a * 2 ^ b
pow_add zero b = let e : 0 + b ≡ b = omega arith in rw e (omega arith)
pow_add (suc a) b =
    let e : suc a + b ≡ suc (a + b) = omega arith in
    rw (e, pow-suc 2 (a + b), pow-suc 2 a, pow_add a b) (grind arith)

-- Passing over bits twice.
pub skip_add : (v a b : ℕ) → v / 2 ^ a / 2 ^ b ≡ v / 2 ^ (a + b)
skip_add v a b = div-div-eq-div-mul v (2 ^ a) (2 ^ b) ∙ ap (λ k. v / k) (sym (pow_add a b))

-- What stands above the lowest `k` bits.
module _ (x y k n : ℕ) (le : n ≤ k) where
  split : x + 2 ^ k * y ≡ x + 2 ^ n * (2 ^ (k - n) * y)
  split =
      let e : k ≡ n + (k - n) = omega arith in
      let p : 2 ^ k ≡ 2 ^ n * 2 ^ (k - n) = ap (λ j. 2 ^ j) e ∙ pow_add n (k - n) in
      rw p (grind arith)

  pub low_bits : (x + 2 ^ k * y) % 2 ^ n ≡ x % 2 ^ n
  low_bits = rw split (add-mul-mod_self_left x (2 ^ n) (2 ^ (k - n) * y))

  pub high_bits : (x + 2 ^ k * y) / 2 ^ n ≡ x / 2 ^ n + 2 ^ (k - n) * y
  high_bits = rw split (add-mul-div_left x (2 ^ (k - n) * y) (one-le-pow n 2 (omega arith)))

  pub fewer_bits : x < 2 ^ k → x / 2 ^ n < 2 ^ (k - n)
  fewer_bits h =
      let e : k ≡ (k - n) + n = omega arith in
      let p : 2 ^ k ≡ 2 ^ (k - n) * 2 ^ n = ap (λ j. 2 ^ j) e ∙ pow_add (k - n) n in
      (div-lt_iff_lt-mul (one-le-pow n 2 (omega arith))).1 (rw p at h)

abbrev pub Bytes : List ℕ → Type 0
Bytes = All (λ b. b < 256)

unfoldable pub value : List ℕ → ℕ
value [] = 0
value (b ∷ bs) = b + 256 * value bs

pub value-drop : (k : ℕ) (bs : List ℕ) → Bytes bs → value (drop k bs) ≡ value bs / 2 ^ (8 * k)
unfolding value
value-drop zero bs h = sym (div-one (value bs))
value-drop (suc k) [] h = sym (zero-div (2 ^ (8 * suc k)))
value-drop (suc k) (b ∷ bs) h =
    let e : 8 * suc k ≡ 8 + 8 * k = omega arith in
    let one : (b + 256 * value bs) / 2 ^ 8 ≡ value bs = omega (arith, h.0) in
    value-drop k bs h.1 ∙ rw (e, ← skip_add (b + 256 * value bs) 8 (8 * k), one) refl

-- A byte on top of `k` bits.
module _ (x byte k : ℕ) (small : x < 2 ^ k) (b : byte < 256) (room : k ≤ 56) where
  pub push-exact : byte * 2 ^ k % 2 ^ 64 ≡ byte * 2 ^ k
  push-exact =
      let low : 2 ^ k ≤ 2 ^ 56 = pow-le-pow_right (omega arith) room in
      let product : byte * 2 ^ k ≤ 255 * 2 ^ 56 = mul-le-mul {n₂ = 255} (omega arith) low in
      mod-eq_of_lt (omega arith)

  pub push_small : x + byte * 2 ^ k < 2 ^ (k + 8)
  push_small =
      let p = pow_add k 8 in
      let product : byte * 2 ^ k ≤ 255 * 2 ^ k = mul-le-mul_right (2 ^ k) (omega arith) in
      omega arith

  pub push_value : (v : ℕ) → x + byte * 2 ^ k + 2 ^ (k + 8) * v ≡ x + 2 ^ k * (byte + 256 * v)
  push_value v = rw (pow_add k 8) (grind arith)

module _ (v a b : ℕ) where
  -- Two rows of bits, one behind the other.
  joined : ℕ
  joined = v % 2 ^ a + 2 ^ a * (v / 2 ^ a % 2 ^ b)

  joined_small : joined < 2 ^ (a + b)
  unfolding joined
  joined_small =
      let low : v % 2 ^ a < 2 ^ a = mod-lt v (one-le-pow a 2 (omega arith)) in
      let mid : v / 2 ^ a % 2 ^ b < 2 ^ b = mod-lt (v / 2 ^ a) (one-le-pow b 2 (omega arith)) in
      let product : 2 ^ a * suc (v / 2 ^ a % 2 ^ b) ≤ 2 ^ a * 2 ^ b = mul-le-mul_left (2 ^ a) mid in
      grind (arith, pow_add a b)

  joined_whole : joined + 2 ^ (a + b) * (v / 2 ^ a / 2 ^ b) ≡ v
  unfolding joined
  joined_whole =
      let low = mod-add-div v (2 ^ a) in
      let mid = mod-add-div (v / 2 ^ a) (2 ^ b) in rw (pow_add a b) (grind arith)

  pub join_bits : v % 2 ^ a + 2 ^ a * (v / 2 ^ a % 2 ^ b) ≡ v % 2 ^ (a + b)
  unfolding joined
  join_bits =
      sym (mod-eq_of_lt joined_small)
      ∙ sym (add-mul-mod_self_left joined (2 ^ (a + b)) (v / 2 ^ a / 2 ^ b))
      ∙ ap (λ n. n % 2 ^ (a + b)) joined_whole
