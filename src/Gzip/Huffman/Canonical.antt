-- ===== src/Gzip/Huffman/Canonical.antt =====
-- The canonical code that the lengths of the codes define, as RFC 1951 gives it in section 3.2.2:
-- the description that `from_lengths` of src/gzip/bitstream.rs is held against.
use ziftsieve.Base.{
  ℕ, zero, suc, ◌+◌, ◌-◌, ◌*◌, ◌/◌, ◌%◌, ◌^◌, ◌≤◌, ◌<◌, ◌≡◌, refl, sym, ap, ◌∙◌, arith, List, [],
  ◌∷◌, ◌==◌, if◌then◌else◌, some, length,
}
use ziftsieve.Gzip.Huffman.{HuffmanNode, reverse_from, reverse_bits}
use ziftsieve.Gzip.Huffman.Paths.{Bits, symbol_below}
use ziftsieve.Gzip.Huffman.Insert.{code_path}
use ziftsieve.Gzip.Bits.{high_bits}
use native.Mathlib.Nat.{
  pow-suc, one-le-pow, mod-lt, mod-eq_of_lt, mul-le-mul_left, mul-le-mul_right, pow-le-pow_right,
  div-div-eq-div-mul, mod-add-div, add-mul-mod_self_left,
}

-- How many codes have this length.
abbrev pub occurrences : ℕ → List ℕ → ℕ
occurrences len [] = 0
occurrences len (l ∷ lengths) = (if l == len then 1 else 0) + occurrences len lengths

-- The first code of each length.
unfoldable pub first_code : List ℕ → ℕ → ℕ
first_code lengths zero = 0
first_code lengths (suc len) =
    2 * (first_code lengths len + (if len == 0 then 0 else occurrences len lengths))

-- A code of `len` bits, from its highest bit down.
unfoldable pub bits_of : ℕ → ℕ → List ℕ
bits_of code zero = []
bits_of code (suc n) = (code / 2 ^ n % 2) ∷ bits_of code n

pub bits_of-Bits : (code n : ℕ) → Bits (bits_of code n)
unfolding bits_of
bits_of-Bits code zero = tt
bits_of-Bits code (suc n) = (mod-lt (code / 2 ^ n) (omega arith), bits_of-Bits code n)

abbrev pub bump : (ℕ → ℕ) → ℕ → ℕ → ℕ
bump next len l = if len == 0 then next l else if len == l then next l + 1 else next l

-- From symbol `k` on, each symbol with a code stands at its code's end, where `next` says which
-- code of a length comes next.
abbrev pub Canonical : List HuffmanNode → (ℕ → ℕ) → ℕ → List ℕ → Type 0
Canonical nodes next k [] = Unit
Canonical nodes next k (len ∷ lengths) =
    (0 < len → symbol_below nodes 0 (bits_of (next len) len) ≡ some k)
    × Canonical nodes (bump next len) (k + 1) lengths

-- The lowest `n` bits, the other way round.
unfoldable reversed : ℕ → ℕ → ℕ
reversed zero value = 0
reversed (suc n) value = value % 2 * 2 ^ n + reversed n (value / 2)

reversed-top : (n value : ℕ) → reversed (suc n) value ≡ value / 2 ^ n % 2 + 2 * reversed n value
unfolding reversed
reversed-top zero value = omega arith
reversed-top (suc n) value =
    let ih : reversed (suc n) (value / 2) ≡ value / 2 / 2 ^ n % 2 + 2 * reversed n (value / 2) =
      reversed-top n (value / 2) in
    let bit : value / 2 / 2 ^ n ≡ value / 2 ^ suc n =
      div-div-eq-div-mul value 2 (2 ^ n) ∙ ap (λ d. value / d) (omega (arith, pow-suc 2 n)) in
    let shift : value % 2 * 2 ^ suc n ≡ 2 * (value % 2 * 2 ^ n) = rw pow-suc (omega arith) in
    rw (shift, ← bit) (omega (arith, ih))

reverse_from-reversed :
    (n value out : ℕ)
    → suc out * 2 ^ n ≤ 2 ^ 16
    → reverse_from n value out ≡ out * 2 ^ n + reversed n value
unfolding reverse_from reversed
reverse_from-reversed zero value out h = omega arith
reverse_from-reversed (suc n) value out h =
    let p : ℕ = 2 ^ n in
    let doubled : 2 ^ suc n ≡ p * 2 = pow-suc 2 n in
    let all : suc out * 2 * p ≤ 2 ^ 16 = omega (arith, h, ap (λ q. suc out * q) doubled) in
    let one : suc out * 2 * 1 ≤ suc out * 2 * p =
      mul-le-mul_left (suc out * 2) (one-le-pow n 2 (omega arith)) in
    let low : out * 2 % 2 ^ 16 ≡ out * 2 = mod-eq_of_lt (omega arith) in
    let bit : value % 2 < 2 = mod-lt value (omega arith) in
    let next : suc (out * 2 + value % 2) * p ≤ suc out * 2 * p = mul-le-mul_right p (omega arith) in
    let split : (out * 2 + value % 2) * p ≡ out * 2 ^ suc n + value % 2 * p =
      rw doubled (omega arith) in
    rw low (
      reverse_from-reversed n (value / 2) (out * 2 + value % 2) (omega (arith, next, all))
      ∙ omega (arith, split))

code_path-shift : (x i n : ℕ) → code_path x (suc i) n ≡ code_path (x / 2) i n
unfolding code_path
code_path-shift x i zero = refl
code_path-shift x i (suc n) =
    let tail : code_path x (suc i + 1) n ≡ code_path (x / 2) (i + 1) n =
      ap (λ j. code_path x j n) (omega arith) ∙ code_path-shift x (i + 1) n in
    let head : x / 2 ^ suc i ≡ x / 2 / 2 ^ i =
      ap (λ d. x / d) (omega (arith, pow-suc 2 i)) ∙ sym (div-div-eq-div-mul x 2 (2 ^ i)) in
    rw (head, tail) refl

reversed-bits : (n code : ℕ) → code_path (reversed n code) 0 n ≡ bits_of code n
unfolding code_path bits_of
reversed-bits zero code = refl
reversed-bits (suc n) code =
    let top : reversed (suc n) code ≡ code / 2 ^ n % 2 + 2 * reversed n code =
      reversed-top n code in
    let head : reversed (suc n) code / 2 ^ 0 % 2 ≡ code / 2 ^ n % 2 = omega (arith, top) in
    let tail : code_path (reversed (suc n) code) 1 n ≡ bits_of code n =
      code_path-shift (reversed (suc n) code) 0 n
      ∙ ap (λ x. code_path x 0 n) (omega (arith, top))
      ∙ reversed-bits n code in
    rw (head, tail) refl

bits_of-mod : (n code : ℕ) → n ≤ 16 → bits_of (code % 2 ^ 16) n ≡ bits_of code n
unfolding bits_of
bits_of-mod zero code h = refl
bits_of-mod (suc n) code h =
    let rest : bits_of (code % 2 ^ 16) n ≡ bits_of code n = bits_of-mod n code (omega arith) in
    let head : code % 2 ^ 16 / 2 ^ n % 2 ≡ code / 2 ^ n % 2 =
      let parts : code % 2 ^ 16 + 2 ^ 16 * (code / 2 ^ 16) ≡ code = omega arith in
      let cut : code / 2 ^ n ≡ code % 2 ^ 16 / 2 ^ n + 2 ^ (16 - n) * (code / 2 ^ 16) =
        ap (λ c. c / 2 ^ n) (sym parts)
        ∙ high_bits (code % 2 ^ 16) (code / 2 ^ 16) 16 n (omega arith) in
      let even : 2 ^ (16 - n) ≡ 2 ^ (15 - n) * 2 =
        ap (λ k. 2 ^ k) (omega arith) ∙ pow-suc 2 (15 - n) in
      let twice : 2 ^ (16 - n) * (code / 2 ^ 16) ≡ 2 * (2 ^ (15 - n) * (code / 2 ^ 16)) =
        rw even (omega arith) in
      omega (arith, cut, twice) in
    rw (head, rest) refl

-- The code in reverse, read from its lowest bit on.
pub reverse_bits-bits_of :
    (code len : ℕ)
    → len ≤ 16
    → code_path (reverse_bits (code % 2 ^ 16) len) 0 len ≡ bits_of code len
unfolding reverse_bits
reverse_bits-bits_of code len h =
    let top : 2 ^ len ≤ 2 ^ 16 = pow-le-pow_right (omega arith) h in
    ap (λ x. code_path x 0 len) (reverse_from-reversed len (code % 2 ^ 16) 0 (omega (arith, top)))
    ∙ ap (λ x. code_path x 0 len) (omega arith)
    ∙ reversed-bits len (code % 2 ^ 16)
    ∙ bits_of-mod len code h

-- The number that a code stands for.
number : List ℕ → ℕ
number [] = 0
number (b ∷ bits) = b * 2 ^ length bits + number bits

length-bits_of : (code n : ℕ) → length (bits_of code n) ≡ n
unfolding bits_of
length-bits_of code zero = refl
length-bits_of code (suc n) = omega (arith, length-bits_of code n)

-- One more bit of a remainder.
higher_bit : (code n : ℕ) → code % 2 ^ suc n ≡ code / 2 ^ n % 2 * 2 ^ n + code % 2 ^ n
higher_bit code n =
    let x : ℕ = code / 2 ^ n in
    let rest : ℕ = x % 2 * 2 ^ n + code % 2 ^ n in
    let small : code % 2 ^ n < 2 ^ n = mod-lt code (one-le-pow n 2 (omega arith)) in
    let bit : x % 2 ≤ 1 = omega arith in
    let product : x % 2 * 2 ^ n ≤ 1 * 2 ^ n = mul-le-mul_right (2 ^ n) bit in
    let double : 2 ^ suc n ≡ 2 ^ n * 2 = pow-suc 2 n in
    let parts : code % 2 ^ n + 2 ^ n * x ≡ code = mod-add-div code (2 ^ n) in
    let halves : x ≡ x % 2 + 2 * (x / 2) = omega arith in
    let split : 2 ^ n * x ≡ x % 2 * 2 ^ n + 2 ^ suc n * (x / 2) =
      ap (λ y. 2 ^ n * y) halves ∙ rw double (grind arith) in
    let whole : rest + 2 ^ suc n * (x / 2) ≡ code = omega (arith, parts, split) in
    ap (λ c. c % 2 ^ suc n) (sym whole)
    ∙ add-mul-mod_self_left rest (2 ^ suc n) (x / 2)
    ∙ mod-eq_of_lt (omega (arith, small, product, double))

number-bits_of : (code n : ℕ) → number (bits_of code n) ≡ code % 2 ^ n
unfolding bits_of number
number-bits_of code zero = omega arith
number-bits_of code (suc n) =
    rw (length-bits_of code n, number-bits_of code n) (sym (higher_bit code n))

-- Codes that fit their length are told apart by their bits.
pub bits_of-injective :
    (a b m n : ℕ) → a < 2 ^ m → b < 2 ^ n → bits_of a m ≡ bits_of b n → (m ≡ n) × (a ≡ b)
bits_of-injective a b m n small small' same =
    let lengths : m ≡ n = sym (length-bits_of a m) ∙ ap length same ∙ length-bits_of b n in
    (
      lengths,
      sym (mod-eq_of_lt small)
          ∙ sym (number-bits_of a m)
          ∙ ap number same
          ∙ number-bits_of b n
          ∙ mod-eq_of_lt small',
    )
