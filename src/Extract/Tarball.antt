-- ===== src/Extract/Tarball.antt =====
-- src/extract/tarball.rs: the header of a tar member.
pub mod Decompress
pub mod Name
pub mod Format
pub mod RoundTrip
pub mod Safe
pub mod Sound
mod Tests
pub mod Walk
pub mod Walked
use ziftsieve.Base.{
  ℕ, zero, suc, ◌+◌, ◌-◌, ◌*◌, ◌/◌, ◌%◌, ◌^◌, List, [], ◌∷◌, ◌++◌, length, take, drop, Bool, true,
  false, not, ◌&&◌, ◌||◌, ltb, leb, ◌==◌, if◌then◌else◌, saturating_add, usize_max, Option, none,
  some,
}
use ziftsieve.Base.{
  Outcome, ok, err, panic, out_of_fuel, ◌>>=◌, ◌>>◌, refuse, index, slice, Next, again, done, next,
  invalid_data, io, invalid_octal_digit, tar_size_overflow, tar_boundary_overflow,
  tar_header_overflow, truncated_tar_member_header, end_of_archive_marker, tar_content_overflow,
  path_traversal, symbolic_link, hard_link, truncated_tar_content, tarball_size_overflow,
  tarball_too_large, nested_too_deep, not_a_gzip_stream, too_many_tar_members, truncated_tar_header,
  tar_literals_exceed, tar_member_too_large, tar_offset_exceeds_u64, tar_size_exceeds_u32,
}
use ziftsieve.Block
use ziftsieve.Block.{CompressedBlock, sum_literals, same_bytes}
use ziftsieve.Extract.{starts_with, gzip_magic}
use ziftsieve.Extract.Tarball.Name.{from_utf8_lossy, contains_path_traversal}

abbrev pub max_tarball_bytes : ℕ
max_tarball_bytes = 256 * 1024 * 1024

abbrev pub tar_block_size : ℕ
tar_block_size = 512

abbrev pub max_tar_members : ℕ
max_tar_members = 8_192

abbrev pub max_nested_depth : ℕ
max_nested_depth = 5

pub record TarHeader : Type 0 where
  pub content_offset : ℕ
  pub content_size : ℕ
  pub is_regular_file : Bool
  pub is_symlink : Bool
  pub is_hardlink : Bool
  pub name : List ℕ

pub record Octal : Type 0 where
  pub value : ℕ
  pub found : Bool

-- One round of the loop over the bytes of a field. `checked_mul` and `checked_add` fail together,
-- where the sum does not fit.
unfoldable pub octal_round : ℕ → Octal → ℕ → Outcome (Next Octal ℕ)
octal_round offset s byte =
    if byte == 0 || byte == b' ' then ok (if s.found then done s.value else again s) else (do
      refuse (not (leb b'0' byte && leb byte b'7')) (invalid_data offset invalid_octal_digit)
      let value = s.value * 8 + (byte - b'0')
      refuse (ltb usize_max value) (invalid_data offset tar_size_overflow)
      ok (again (record { value = value; found = true })))

unfoldable pub octal_from : ℕ → List ℕ → Octal → Outcome ℕ
octal_from offset [] s = ok s.value
octal_from offset (byte ∷ bytes) s = octal_round offset s byte >>= next (octal_from offset bytes)

unfoldable pub parse_tar_octal_usize : List ℕ → ℕ → Outcome ℕ
parse_tar_octal_usize bytes offset = octal_from offset bytes (record { value = 0; found = false })

unfoldable pub is_end_of_archive_block : List ℕ → Bool
is_end_of_archive_block [] = true
is_end_of_archive_block (b ∷ bytes) = b == 0 && is_end_of_archive_block bytes

-- `!(TAR_BLOCK_SIZE - 1)` clears nine bits.
unfoldable pub next_member_offset : ℕ → ℕ → Outcome ℕ
next_member_offset offset content_size = do
  let padded_size = (content_size + (tar_block_size - 1)) / 2 ^ 9 * 2 ^ 9
  let content_end = offset + tar_block_size
  refuse (ltb usize_max content_end) (invalid_data offset tar_boundary_overflow)
  refuse (ltb usize_max (content_end + padded_size)) (invalid_data offset tar_boundary_overflow)
  ok (content_end + padded_size)

-- The bytes before the first NUL, or all of them.
unfoldable pub before_nul : List ℕ → List ℕ
before_nul [] = []
before_nul (b ∷ bytes) = let rest = before_nul bytes in if b == 0 then [] else b ∷ rest

unfoldable pub read_tar_member : List ℕ → ℕ → ℕ → Outcome TarHeader
read_tar_member content start offset = do
  let header_end = start + tar_block_size
  refuse (ltb usize_max header_end) (invalid_data offset tar_header_overflow)
  refuse (ltb (length content) header_end) (invalid_data offset truncated_tar_member_header)
  header ← slice content start header_end
  refuse (is_end_of_archive_block header) (invalid_data offset end_of_archive_marker)
  size_field ← slice header 124 136
  size ← parse_tar_octal_usize size_field (offset + 124)
  typeflag ← index header 156
  name_bytes ← slice header 0 100
  let name = from_utf8_lossy (before_nul name_bytes)
  refuse (contains_path_traversal name) (invalid_data offset (path_traversal name))
  let content_end = header_end + size
  refuse (ltb usize_max content_end) (invalid_data offset tar_content_overflow)
  refuse (ltb (length content) content_end) (invalid_data offset truncated_tar_content)
  ok (record {
    content_offset = header_end;
    content_size = size;
    is_regular_file = typeflag == b'0' || typeflag == 0;
    is_symlink = typeflag == b'2';
    is_hardlink = typeflag == b'1';
    name = name;
  })

-- `i` is the place of the first byte in the header; the field of the checksum counts as spaces.
unfoldable pub checksum_from : ℕ → List ℕ → ℕ
checksum_from i [] = 0
checksum_from i (b ∷ bytes) =
    (if leb 148 i && ltb i 156 then b' ' else b) + checksum_from (i + 1) bytes

-- What `parse_tar_octal_usize` gave back, if it did.
abbrev pub sums_up : ℕ → Outcome ℕ → Outcome Bool
sums_up computed (ok stored) = ok (computed == stored)
sums_up computed (err e) = ok false
sums_up computed (panic p) = panic p

unfoldable pub first_tar_block_has_ustar_magic : List ℕ → Outcome Bool
first_tar_block_has_ustar_magic tar_data =
    if ltb (length tar_data) tar_block_size then ok false else (do
      header ← slice tar_data 0 tar_block_size
      if is_end_of_archive_block header
          then ok false
          else if same_bytes (take 5 (drop 257 tar_data)) (b'u' ∷ b's' ∷ b't' ∷ b'a' ∷ b'r' ∷ [])
          then ok true
          else (do
            field ← slice header 148 156
            sums_up (checksum_from 0 header) (parse_tar_octal_usize field 0)))
