-- ===== src/Gzip/Huffman/Counts.antt =====
-- `count_lengths` and `calculate_next_codes` of src/gzip/bitstream.rs, against the canonical code.
use ziftsieve.Base.{
  ℕ, zero, suc, ◌+◌, ◌-◌, ◌*◌, ◌%◌, ◌^◌, ◌≤◌, ◌<◌, ◌≡◌, refl, sym, ap, ◌∙◌, arith, List, [], ◌∷◌,
  length, replicate, length-replicate, set, get_elem?, get_elem?-set, length-set, All, ◌==◌,
  if◌then◌else◌, some, Bool-cases, inl, inr, index_found, ltb, Ensures, returns, Ensures-bind,
  Ensures-refuse, Ensures-map, Ensures-if, Ensures-step,
}
use ziftsieve.Base.{CodeKind}
use ziftsieve.Gzip.Huffman.{count_length, count_lengths, next_codes_from, calculate_next_codes}
use ziftsieve.Gzip.Huffman.Canonical.{occurrences, first_code}

-- How many codes have a length of at least 1.
abbrev pub codes_of : List ℕ → ℕ → ℕ
codes_of lengths len = if len == 0 then 0 else occurrences len lengths

-- The table is the function, modulo 2 ^ 16, from 0 to `max`.
pub record Table (max : ℕ) (f : ℕ → ℕ) (table : List ℕ) : Type 0 where
  pub size : length table ≡ max + 1
  pub entry : (l : ℕ) → l ≤ max → get_elem? table l ≡ some (f l % 2 ^ 16)

pub Table-ext :
    (max : ℕ) (f g : ℕ → ℕ) (table : List ℕ)
    → ((l : ℕ) → f l ≡ g l)
    → Table max f table
    → Table max g table
Table-ext max f g table h t = record {
  size = t.size;
  entry = λ l k. t.entry l k ∙ ap (λ n. some (n % 2 ^ 16)) (h l);
}

-- One entry is 1 more.
pub Table-set :
    (max : ℕ) (f : ℕ → ℕ) (table : List ℕ) (len : ℕ)
    → len ≤ max
    → Table max f table
    → Table max
        (λ l. if len == l then f l + 1 else f l)
        (set table len ((f len % 2 ^ 16 + 1) % 2 ^ 16))
Table-set max f table len h t = record {
  size = length-set table len _ ∙ t.size;
  entry = λ l k.
      get_elem?-set table len l _ (omega (arith, t.size)) ∙ elim (Bool-cases (len == l)) [
        | inl same ↦ let e : len ≡ l = ground arith in rw (same, e) (ap some (omega arith))
        | inr other ↦ rw other (t.entry l k)
      ];
}

module _ (kind : CodeKind) (max : ℕ) where
  pub count_length-Table :
      (f : ℕ → ℕ) (table : List ℕ) (len : ℕ)
      → Table max f table
      → len ≤ max
      → Ensures (Table max (λ l. f l + codes_of (len ∷ []) l)) (count_length kind table len)
  unfolding count_length
  count_length-Table f table len t h =
      Ensures-if (ltb 0 len)
        (λ positive. Ensures-refuse _ _ λ inside.
          let (n, found, entry) = index_found table len (omega (arith, t.size)) in
          let n-is : n ≡ f len % 2 ^ 16 =
            let e : some n ≡ some (f len % 2 ^ 16) = sym entry ∙ t.entry len h in cc in
          Ensures-step _ found (
            returns
              (rw n-is (Table-ext max _ _ _ (λ l. ground arith) (Table-set max f table len h t)))))
        (λ zero_length. returns (Table-ext max f _ table (λ l. ground arith) t))

  -- The table of counts, `f` so far.
  pub count_lengths-Table :
      (f : ℕ → ℕ) (table lengths : List ℕ)
      → Table max f table
      → All (λ l. l ≤ max) lengths
      → Ensures (Table max (λ l. f l + codes_of lengths l)) (count_lengths kind table lengths)
  unfolding count_lengths
  count_lengths-Table f table [] t h = returns (Table-ext max f _ table (λ l. ground arith) t)
  count_lengths-Table f table (len ∷ lengths) t h =
      Ensures-bind (count_length-Table f table len t h.0) λ counted k.
        Ensures-map (λ final e. Table-ext max _ _ final (λ l. ground arith) e)
          (count_lengths-Table (λ l. f l + codes_of (len ∷ []) l) counted lengths k h.1)

get_elem?-replicate : (n i : ℕ) → i < n → get_elem? {A = ℕ} (replicate n 0) i ≡ some 0
get_elem?-replicate zero i h = absurd (omega arith)
get_elem?-replicate (suc n) zero h = refl
get_elem?-replicate (suc n) (suc i) h = get_elem?-replicate n i (omega arith)

pub replicate-Table : (max : ℕ) → Table max (λ l. 0) (replicate (max + 1) 0)
replicate-Table max = record {
  size = length-replicate (max + 1) 0;
  entry = λ l h. get_elem?-replicate (max + 1) l (omega arith);
}

pub count_lengths-codes_of :
    (kind : CodeKind) (max : ℕ) (lengths : List ℕ)
    → All (λ l. l ≤ max) lengths
    → Ensures (Table max (codes_of lengths)) (count_lengths kind (replicate (max + 1) 0) lengths)
count_lengths-codes_of kind max lengths h =
    Ensures-map (λ table t. Table-ext max _ _ table (λ l. omega arith) t)
      (count_lengths-Table kind max (λ l. 0) _ lengths (replicate-Table max) h)

first_code-step :
    (lengths : List ℕ) (bits : ℕ)
    → 0 < bits
    → first_code lengths bits ≡ 2 * (first_code lengths (bits - 1) + codes_of lengths (bits - 1))
unfolding first_code
first_code-step lengths zero h = absurd (omega arith)
first_code-step lengths (suc bits) h =
    ap (λ b. 2 * (first_code lengths b + codes_of lengths b)) (omega arith)

entry_cons :
    (g : ℕ → ℕ) (x : ℕ) (xs : List ℕ) (n : ℕ)
    → x ≡ g 0
    → ((j : ℕ) → j < n → get_elem? xs j ≡ some (g (1 + j)))
    → (j : ℕ) → j < suc n
    → get_elem? (x ∷ xs) j ≡ some (g j)
entry_cons g x xs n first rest zero h = ap some first
entry_cons g x xs n first rest (suc j) h = rest j (omega arith) ∙ ap (λ i. some (g i)) (omega arith)

module _ (lengths count : List ℕ) (max : ℕ) (t : Table max (codes_of lengths) count) where
  pub next_codes_from-first_code :
      (rounds bits code : ℕ)
      → 0 < bits
      → bits + rounds ≤ max + 1
      → code ≡ first_code lengths (bits - 1) % 2 ^ 16
      → Ensures
          (λ next.
            (length next ≡ rounds)
            × ((j : ℕ)
                → j < rounds
                → get_elem? next j ≡ some (first_code lengths (bits + j) % 2 ^ 16)))
          (next_codes_from rounds bits code count)
  unfolding next_codes_from first_code
  next_codes_from-first_code zero bits code pos h e =
      returns (refl, λ j k. absurd (omega (arith, k)))
  next_codes_from-first_code (suc rounds) bits code pos h e =
      let (n, found, entry) = index_found count (bits - 1) (omega (arith, t.size)) in
      let n-is : n ≡ codes_of lengths (bits - 1) % 2 ^ 16 =
        let e : some n ≡ some (codes_of lengths (bits - 1) % 2 ^ 16) =
          sym entry ∙ t.entry (bits - 1) (omega arith) in
        cc in
      let next : ℕ = (code + n) % 2 ^ 16 * 2 % 2 ^ 16 in
      let next-is : next ≡ first_code lengths bits % 2 ^ 16 =
        omega (arith, e, n-is, first_code-step lengths bits pos) in
      Ensures-step _ found (
        Ensures-bind
          (next_codes_from-first_code rounds (bits + 1) next (omega arith) (omega arith)
            (next-is ∙ ap (λ b. first_code lengths b % 2 ^ 16) (omega arith)))
          λ rest k. returns (
            omega (arith, k.0),
            entry_cons (λ j. first_code lengths (bits + j) % 2 ^ 16) next rest rounds
                (next-is ∙ ap (λ b. first_code lengths b % 2 ^ 16) (omega arith))
                (λ j l. k.1 j l ∙ ap (λ b. some (first_code lengths b % 2 ^ 16)) (omega arith)),
          ))

  pub calculate_next_codes-first_code :
      Ensures (Table max (first_code lengths)) (calculate_next_codes max count)
  unfolding calculate_next_codes first_code
  calculate_next_codes-first_code =
      Ensures-bind (next_codes_from-first_code max 1 0 (omega arith) (omega arith) refl) λ rest k.
        returns (record {
          size = omega (arith, k.0);
          entry = λ l h.
              entry_cons (λ j. first_code lengths j % 2 ^ 16) 0 rest max refl
                (λ j h'. k.1 j h' ∙ ap (λ b. some (first_code lengths b % 2 ^ 16)) (omega arith)) l
                (omega arith);
        })
