-- ===== src/Extract/Tests.antt =====
-- Detection: src/detect.rs at concrete inputs.
use ziftsieve.Base.{◌≡◌, refl, ◌∷◌, [], ◌↔◌, none, some, lz4, zstd}
use ziftsieve.Extract.{detect, starts_with}
use ziftsieve.Extract.Detect.{HasMagic, detect_iff}

detect_legacy : detect (0x02 ∷ 0x21 ∷ 0x4c ∷ 0x18 ∷ 7 ∷ []) ≡ some lz4
unfolding detect starts_with
detect_legacy = refl

detect_cut_short : detect (0x28 ∷ 0xb5 ∷ 0x2f ∷ []) ≡ none
unfolding detect starts_with
detect_cut_short = refl

detect_iff_example :
    (detect (0x28 ∷ 0xb5 ∷ 0x2f ∷ 0xfd ∷ 4 ∷ []) ≡ some zstd)
    ↔ HasMagic zstd (0x28 ∷ 0xb5 ∷ 0x2f ∷ 0xfd ∷ 4 ∷ [])
detect_iff_example = detect_iff (0x28 ∷ 0xb5 ∷ 0x2f ∷ 0xfd ∷ 4 ∷ []) zstd
