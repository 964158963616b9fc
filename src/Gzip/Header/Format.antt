-- ===== src/Gzip/Header/Format.antt =====
-- The header of a gzip member, written down on its own, and the bytes that stand for it.
use ziftsieve.Base.{
  ℕ, ◌+◌, ◌*◌, ◌/◌, ◌%◌, ◌≤◌, ◌<◌, List, [], ◌∷◌, ◌++◌, length, All, Option, none, some,
}
use ziftsieve.Gzip.Header.{max_header_field_len}

-- The fields that may be missing: extra data, a name, a comment and a checksum of two bytes.
pub record Header : Type 0 where
  pub is_text : Option (Unit {0})
  pub m0 : ℕ
  pub m1 : ℕ
  pub m2 : ℕ
  pub m3 : ℕ
  pub xfl : ℕ
  pub os : ℕ
  pub extra : Option (List ℕ)
  pub name : Option (List ℕ)
  pub comment : Option (List ℕ)
  pub crc : Option (ℕ × ℕ)

abbrev pub present : {A : Type 0} → Option A → ℕ
present none = 0
present (some x) = 1

abbrev pub flags : Header → ℕ
flags h =
    present h.is_text
    + 2 * present h.crc
    + 4 * present h.extra
    + 8 * present h.name
    + 16 * present h.comment

abbrev pub encode_extra : Option (List ℕ) → List ℕ
encode_extra none = []
encode_extra (some xs) = length xs % 256 ∷ length xs / 256 ∷ xs

abbrev pub encode_text : Option (List ℕ) → List ℕ
encode_text none = []
encode_text (some xs) = xs ++ (0 ∷ [])

abbrev pub encode_crc : Option (ℕ × ℕ) → List ℕ
encode_crc none = []
encode_crc (some (a, b)) = a ∷ b ∷ []

unfoldable pub encode_header : Header → List ℕ → List ℕ
encode_header h rest =
    0x1f
    ∷ 0x8b
    ∷ 8
    ∷ flags h
    ∷ h.m0
    ∷ h.m1
    ∷ h.m2
    ∷ h.m3
    ∷ h.xfl
    ∷ h.os
    ∷ (encode_extra h.extra
        ++ (encode_text h.name ++ (encode_text h.comment ++ (encode_crc h.crc ++ rest))))

-- Extra data has a length of two bytes, and a text has no zero in it and at most 1024 bytes.
abbrev pub FitsExtra : Option (List ℕ) → Type 0
FitsExtra none = Unit {0}
FitsExtra (some xs) = length xs < 65536

abbrev pub FitsText : Option (List ℕ) → Type 0
FitsText none = Unit {0}
FitsText (some xs) = All (λ b. 0 < b) xs × (length xs ≤ max_header_field_len)

abbrev pub FitsHeader : Header → Type 0
FitsHeader h = FitsExtra h.extra × FitsText h.name × FitsText h.comment
