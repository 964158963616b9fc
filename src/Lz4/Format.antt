-- ===== src/Lz4/Format.antt =====
-- The LZ4 block format, written down on its own: sequences of literals and a match, and the bytes
-- that stand for them. Tokens hold two lengths of four bits each, and a length from 15 on goes on
-- in bytes of 255 and a last one below.
use ziftsieve.Base.{
  ℕ, ◌+◌, ◌-◌, ◌*◌, ◌/◌, ◌%◌, ◌≤◌, min, List, [], ◌∷◌, ◌++◌, length, replicate, ltb, if◌then◌else◌,
}
use ziftsieve.Lz4.{max_block_size}

-- A match of `match_len + 4` bytes, from `low + 256 * high` bytes back.
pub record Sequence : Type 0 where
  pub literals : List ℕ
  pub low : ℕ
  pub high : ℕ
  pub match_len : ℕ

unfoldable pub extension : ℕ → List ℕ
extension n = replicate (n / 255) 255 ++ (n % 255 ∷ [])

unfoldable pub long_part : ℕ → List ℕ
long_part n = if ltb n 15 then [] else extension (n - 15)

abbrev pub token : ℕ → ℕ → ℕ
token literal_len match_len = min literal_len 15 * 16 + min match_len 15

unfoldable pub encode_literals : ℕ → List ℕ → List ℕ → List ℕ
encode_literals match_len run rest =
    token (length run) match_len ∷ (long_part (length run) ++ (run ++ rest))

unfoldable pub encode_block : List Sequence → List ℕ → List ℕ
encode_block [] last = encode_literals 0 last []
encode_block (s ∷ ss) last =
    encode_literals s.match_len s.literals
      (s.low ∷ s.high ∷ (long_part s.match_len ++ encode_block ss last))

unfoldable pub all_literals : List Sequence → List ℕ → List ℕ
all_literals [] last = last
all_literals (s ∷ ss) last = s.literals ++ all_literals ss last

-- Neither length passes what the parser accepts.
abbrev pub Fits : Sequence → Type 0
Fits s = (length s.literals ≤ max_block_size) × (s.match_len ≤ max_block_size)
