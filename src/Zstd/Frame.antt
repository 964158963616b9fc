-- ===== src/Zstd/Frame.antt =====
-- src/zstd/frame.rs: the skippable frames and the frame header before the blocks. The window size
-- and the dictionary are read and dropped there, so that only their bytes are passed over here.
pub mod Format
pub mod RoundTrip
pub mod Safe
mod Tests
use ziftsieve.Base.{
  ℕ, ◌+◌, ◌-◌, ◌*◌, ◌/◌, ◌%◌, ◌^◌, List, [], ◌∷◌, length, Bool, not, ◌&&◌, ltb, leb, ◌==◌, has_bit,
  if◌then◌else◌, usize_max, Option, none, some,
}
use ziftsieve.Base.{
  Outcome, ok, err, ◌>>=◌, ◌>>◌, refuse, index, slice, loop, Next, again, done, Reason,
}
use ziftsieve.Base.{
  invalid_data, short_zstd_header, too_many_skippable_frames, truncated_after_skippable_frame,
}
use ziftsieve.Base.{
  truncated_skippable_header, skippable_size_overflow, skippable_frame_beyond_data,
}
use ziftsieve.Base.{invalid_zstd_magic, truncated_zstd_descriptor, reserved_descriptor_bit}
use ziftsieve.Base.{truncated_window_descriptor, truncated_dictionary_id, truncated_content_size}
use ziftsieve.Block.{same_bytes}
use ziftsieve.Extract.{zstd_magic}

pub record FrameHeader : Type 0 where
  pub content_checksum : Bool

-- The position behind what is parsed, with the header if there is one.
pub record Parsed : Type 0 where
  pub pos : ℕ
  pub header : Option FrameHeader

-- A field of `size` bytes, which must be there.
unfoldable pub skip_field : List ℕ → ℕ → ℕ → Reason → Outcome ℕ
skip_field bytes pos size reason = do
  refuse (ltb (length bytes) (pos + size)) (invalid_data pos reason)
  ok (pos + size)

abbrev pub dictionary_size : ℕ → ℕ
dictionary_size flag = if flag == 3 then 4 else flag

abbrev pub content_size : ℕ → ℕ → ℕ
content_size fcs_id single_segment = if fcs_id == 0 then single_segment else 2 ^ fcs_id

unfoldable pub parse_standard_frame_header : List ℕ → ℕ → Outcome Parsed
parse_standard_frame_header bytes pos = do
  refuse (leb (length bytes) (pos + 4)) (invalid_data (pos + 4) truncated_zstd_descriptor)
  fh_desc ← index bytes (pos + 4)
  let single_segment = fh_desc / 2 ^ 5 % 2
  refuse (has_bit fh_desc 3) (invalid_data (pos + 4) reserved_descriptor_bit)
  window ← skip_field bytes (pos + 5) (1 - single_segment) truncated_window_descriptor
  dictionary ← skip_field bytes window (dictionary_size (fh_desc % 4)) truncated_dictionary_id
  end ←
      skip_field bytes dictionary (content_size (fh_desc / 2 ^ 6 % 4) single_segment)
        truncated_content_size
  ok (record { pos = end; header = some (record { content_checksum = has_bit fh_desc 2 }) })

abbrev pub is_skippable : ℕ → ℕ → ℕ → ℕ → Bool
is_skippable b0 b1 b2 b3 = leb 0x50 b0 && leb b0 0x57 && b1 == 0x2a && b2 == 0x4d && b3 == 0x18

pub record FrameScan : Type 0 where
  pub pos : ℕ
  pub iterations : ℕ

-- The position behind a skippable frame.
unfoldable pub skip_frame : List ℕ → ℕ → Outcome ℕ
skip_frame bytes pos = do
  refuse (ltb (length bytes) (pos + 8)) (invalid_data pos truncated_skippable_header)
  s0 ← index bytes (pos + 4)
  s1 ← index bytes (pos + 5)
  s2 ← index bytes (pos + 6)
  s3 ← index bytes (pos + 7)
  let end = pos + 8 + (s0 + 2 ^ 8 * s1 + 2 ^ 16 * s2 + 2 ^ 24 * s3)
  refuse (ltb usize_max end) (invalid_data pos skippable_size_overflow)
  refuse (ltb (length bytes) end) (invalid_data end skippable_frame_beyond_data)
  ok end

-- Where four bytes are left.
unfoldable pub frame_at : List ℕ → ℕ → FrameScan → Outcome (Next FrameScan Parsed)
frame_at bytes start_pos s = do
  magic ← slice bytes s.pos (s.pos + 4)
  if same_bytes magic zstd_magic
      then (do header ← parse_standard_frame_header bytes s.pos; ok (done header))
      else (do
        b0 ← index bytes s.pos
        b1 ← index bytes (s.pos + 1)
        b2 ← index bytes (s.pos + 2)
        b3 ← index bytes (s.pos + 3)
        if is_skippable b0 b1 b2 b3
            then (do
              end ← skip_frame bytes s.pos
              ok (again (record { pos = end; iterations = s.iterations + 1 })))
            else if ltb 0 start_pos
            then ok (done (record { pos = s.pos; header = none }))
            else err (invalid_data s.pos invalid_zstd_magic))

unfoldable pub frame_round : List ℕ → ℕ → FrameScan → Outcome (Next FrameScan Parsed)
frame_round bytes start_pos s = do
  refuse (leb 3 s.iterations) (invalid_data s.pos too_many_skippable_frames)
  if s.pos == length bytes
      then ok (done (record { pos = s.pos; header = none }))
      else if ltb (length bytes) (s.pos + 4)
      then (if ltb 0 start_pos
          then ok (done (record { pos = s.pos; header = none }))
          else err (invalid_data s.pos truncated_after_skippable_frame))
      else frame_at bytes start_pos s

-- The fourth round is refused.
unfoldable pub parse_frame_header : List ℕ → ℕ → Outcome Parsed
parse_frame_header bytes pos = do
  refuse (ltb (length bytes) 4) (invalid_data 0 short_zstd_header)
  loop 4 (frame_round bytes pos) (record { pos = pos; iterations = 0 })
