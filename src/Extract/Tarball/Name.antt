-- ===== src/Extract/Tarball/Name.antt =====
-- src/extract/tarball.rs: the name of a tar member and `contains_path_traversal`. A `str` is its
-- bytes in UTF-8; the patterns are ASCII, so that they are searched for as bytes.
pub mod Components
use ziftsieve.Base.{
  ℕ, ◌-◌, List, [], ◌∷◌, ◌++◌, length, take, Bool, true, false, not, ◌&&◌, ◌||◌, ltb, leb, ◌==◌,
  if◌then◌else◌,
}
use ziftsieve.Block.{same_bytes, contains}
use ziftsieve.Extract.{starts_with}

-- A character that is begun: its bytes so far, how many are missing, and the range of the next one.
pub record Begun : Type 0 where
  pub seen : List ℕ
  pub missing : ℕ
  pub low : ℕ
  pub high : ℕ

-- U+FFFD
abbrev pub replacement : List ℕ
replacement = 0xef ∷ 0xbf ∷ 0xbd ∷ []

abbrev pub fresh : Begun
fresh = record { seen = []; missing = 0; low = 0; high = 0 }

abbrev pub begin : ℕ → ℕ → ℕ → ℕ → Begun
begin b missing low high = record { seen = b ∷ []; missing = missing; low = low; high = high }

-- What a byte at the start of a character gives, and what it begins.
pub record Decoded : Type 0 where
  pub out : List ℕ
  pub state : Begun

abbrev starting : Begun → Decoded
starting state = record { out = []; state = state }

unfoldable pub first_byte : ℕ → Decoded
first_byte b =
    if ltb b 0x80
    then record { out = b ∷ []; state = fresh }
    else if leb 0xc2 b && leb b 0xdf
    then starting (begin b 1 0x80 0xbf)
    else if b == 0xe0
    then starting (begin b 2 0xa0 0xbf)
    else if b == 0xed
    then starting (begin b 2 0x80 0x9f)
    else if leb 0xe1 b && leb b 0xef
    then starting (begin b 2 0x80 0xbf)
    else if b == 0xf0
    then starting (begin b 3 0x90 0xbf)
    else if b == 0xf4
    then starting (begin b 3 0x80 0x8f)
    else if leb 0xf1 b && leb b 0xf3
    then starting (begin b 3 0x80 0xbf)
    else record { out = replacement; state = fresh }

-- The next byte: it goes on with the character, or the character is replaced and the byte begins
-- another one.
unfoldable pub next_byte : Begun → ℕ → Decoded
next_byte s b =
    if s.missing == 0
    then first_byte b
    else if leb s.low b && leb b s.high
    then (if s.missing == 1
        then record { out = s.seen ++ (b ∷ []); state = fresh }
        else starting (record {
          seen = s.seen ++ (b ∷ []);
          missing = s.missing - 1;
          low = 0x80;
          high = 0xbf;
        }))
    else (let d = first_byte b in record d { out = replacement ++ d.out })

unfoldable pub lossy_from : Begun → List ℕ → List ℕ
lossy_from s [] = if s.missing == 0 then [] else replacement
lossy_from s (b ∷ bytes) = let d = next_byte s b in d.out ++ lossy_from d.state bytes

-- `String::from_utf8_lossy`
unfoldable pub from_utf8_lossy : List ℕ → List ℕ
from_utf8_lossy bytes = lossy_from fresh bytes

-- `str::ends_with`
unfoldable pub ends_with : List ℕ → List ℕ → Bool
ends_with [] pattern = same_bytes [] pattern
ends_with (c ∷ cs) pattern = same_bytes (c ∷ cs) pattern || ends_with cs pattern

-- `str::contains` of a text
unfoldable pub contains_text : List ℕ → List ℕ → Bool
contains_text [] pattern = same_bytes [] pattern
contains_text (c ∷ cs) pattern = starts_with (c ∷ cs) pattern || contains_text cs pattern

abbrev pub dot : ℕ
dot = 0x2e

abbrev pub slash : ℕ
slash = 0x2f

-- What is asked before the leading "./".
unfoldable pub has_parent_text : List ℕ → Bool
has_parent_text name =
    same_bytes name (dot ∷ dot ∷ [])
    || (starts_with name (dot ∷ dot ∷ slash ∷ []) || ends_with name (slash ∷ dot ∷ dot ∷ []))
    || contains_text name (slash ∷ dot ∷ dot ∷ slash ∷ [])

-- The call on what stands behind a leading "./", `inner`, is made if that is not empty, and begins
-- with a dot or has a slash.
unfoldable pub contains_path_traversal : List ℕ → Bool
contains_path_traversal [] = has_parent_text []
contains_path_traversal (a ∷ []) = has_parent_text (a ∷ [])
contains_path_traversal (a ∷ b ∷ rest) =
    let inner = contains_path_traversal rest in
    if has_parent_text (a ∷ b ∷ rest)
    then true
    else if starts_with (a ∷ b ∷ rest) (dot ∷ slash ∷ []) && ltb 2 (length (a ∷ b ∷ rest))
    then (if starts_with rest (dot ∷ []) || contains rest slash then inner else false)
    else false
