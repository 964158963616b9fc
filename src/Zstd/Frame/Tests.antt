-- ===== src/Zstd/Frame/Tests.antt =====
-- `parse_frame_header` of src/zstd/frame.rs at concrete inputs.
use ziftsieve.Base.{
  ℕ, ◌≡◌, refl, List, [], ◌∷◌, ◌++◌, true, some, ok, err, invalid_data, too_many_skippable_frames,
  ◌>>=◌, ◌>>◌, refuse, index, slice, loop,
}
use ziftsieve.Block.{same_bytes}
use ziftsieve.Zstd.Frame.{
  skip_field, parse_standard_frame_header, skip_frame, frame_at, frame_round, parse_frame_header,
}

-- A skippable frame of one byte.
abbrev skippable : List ℕ
skippable = 0x50 ∷ 0x2a ∷ 0x4d ∷ 0x18 ∷ 1 ∷ 0 ∷ 0 ∷ 0 ∷ 7 ∷ []

-- A frame header with a window descriptor and the flag for a checksum.
abbrev standard : List ℕ
standard = 0x28 ∷ 0xb5 ∷ 0x2f ∷ 0xfd ∷ 4 ∷ 0 ∷ []

two_skippable :
    parse_frame_header (skippable ++ (skippable ++ standard)) 0
    ≡ ok (record { pos = 24; header = some (record { content_checksum = true }) })
unfolding same_bytes parse_frame_header frame_round frame_at skip_frame parse_standard_frame_header
    skip_field loop ◌>>=◌ ◌>>◌ refuse index slice
two_skippable = refl

three_skippable :
    parse_frame_header (skippable ++ (skippable ++ (skippable ++ standard))) 0
    ≡ err (invalid_data 27 too_many_skippable_frames)
unfolding same_bytes parse_frame_header frame_round frame_at skip_frame parse_standard_frame_header
    skip_field loop ◌>>=◌ ◌>>◌ refuse index slice
three_skippable = refl
