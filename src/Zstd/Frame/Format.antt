-- ===== src/Zstd/Frame/Format.antt =====
-- What stands before the blocks of a Zstd frame, written down on its own after RFC 8878: skippable
-- frames, and the header with its descriptor and its fields.
use ziftsieve.Base.{
  bit, ℕ, zero, suc, ◌+◌, ◌*◌, ◌/◌, ◌%◌, ◌^◌, ◌<◌, ◌≡◌, List, [], ◌∷◌, ◌++◌, length, Bool,
}
use ziftsieve.Extract.{zstd_magic}

-- The bytes of the dictionary id and of the content size, by their flags.
abbrev pub dictionary_bytes : ℕ → ℕ
dictionary_bytes zero = 0
dictionary_bytes (suc zero) = 1
dictionary_bytes (suc (suc zero)) = 2
dictionary_bytes _ = 4

abbrev pub content_bytes : ℕ → Bool → ℕ
content_bytes zero single_segment = bit single_segment
content_bytes (suc zero) single_segment = 2
content_bytes (suc (suc zero)) single_segment = 4
content_bytes _ single_segment = 8

pub record Head : Type 0 where
  pub dictionary_flag : ℕ
  pub content_flag : ℕ
  pub single_segment : Bool
  pub checksum : Bool
  pub window : List ℕ
  pub dictionary : List ℕ
  pub content : List ℕ

pub record IsHead (h : Head) : Type 0 where
  pub dictionary_small : h.dictionary_flag < 4
  pub content_small : h.content_flag < 4
  pub window_there : length h.window + bit h.single_segment ≡ 1
  pub dictionary_there : length h.dictionary ≡ dictionary_bytes h.dictionary_flag
  pub content_there : length h.content ≡ content_bytes h.content_flag h.single_segment

abbrev pub descriptor : Head → ℕ
descriptor h =
    h.dictionary_flag + 4 * bit h.checksum + 32 * bit h.single_segment + 64 * h.content_flag

abbrev pub head_fields : Head → List ℕ
head_fields h = h.window ++ (h.dictionary ++ h.content)

unfoldable pub encode_head : Head → List ℕ
encode_head h = zstd_magic ++ (descriptor h ∷ head_fields h)

-- A skippable frame: the last digit of its magic number, and its content.
pub record Skippable : Type 0 where
  pub digit : ℕ
  pub content : List ℕ

-- The parser passes over the first eight of the sixteen magic numbers.
abbrev pub IsSkippable : Skippable → Type 0
IsSkippable f = (f.digit < 8) × (length f.content < 2 ^ 32)

abbrev pub size_bytes : ℕ → List ℕ
size_bytes n = n % 256 ∷ n / 2 ^ 8 % 256 ∷ n / 2 ^ 16 % 256 ∷ n / 2 ^ 24 ∷ []

unfoldable pub encode_skippable : Skippable → List ℕ
encode_skippable f =
    (0x50 + f.digit) ∷ 0x2a ∷ 0x4d ∷ 0x18 ∷ (size_bytes (length f.content) ++ f.content)

unfoldable pub encode_skippables : List Skippable → List ℕ
encode_skippables [] = []
encode_skippables (f ∷ fs) = encode_skippable f ++ encode_skippables fs
