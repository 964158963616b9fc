-- ===== src/Extract/Tarball/Walk.antt =====
-- `scan_tarball_literals` of src/extract/tarball.rs: the walk over the members of a gzip-compressed
-- tar archive, and of those nested in it.
use ziftsieve.Base.{
  ℕ, zero, suc, ◌+◌, ◌-◌, ◌^◌, List, [], ◌∷◌, ◌++◌, length, not, ◌&&◌, ltb, leb, ◌==◌,
  if◌then◌else◌, saturating_add, some,
}
use ziftsieve.Base.{
  Outcome, ok, panic, out_of_fuel, ◌>>=◌, ◌>>◌, refuse, slice, loop, Next, again, done,
  invalid_data, symbolic_link, hard_link, nested_too_deep, not_a_gzip_stream, too_many_tar_members,
  truncated_tar_header, tar_literals_exceed, tar_member_too_large, tar_offset_exceeds_u64,
  tar_size_exceeds_u32,
}
use ziftsieve.Block
use ziftsieve.Block.{CompressedBlock, sum_literals}
use ziftsieve.Extract.{starts_with, gzip_magic}
use ziftsieve.Extract.Tarball.{
  TarHeader, max_tarball_bytes, tar_block_size, max_tar_members, max_nested_depth,
  is_end_of_archive_block, next_member_offset, read_tar_member, first_tar_block_has_ustar_magic,
}
use ziftsieve.Extract.Tarball.Decompress.{MultiGz, decompress_gzip_members}

pub record Walk : Type 0 where
  pub pos : ℕ
  pub members : ℕ
  pub blocks : List CompressedBlock
  pub total_literals : ℕ

-- What `add_regular_file_blocks` leaves in its two mutable arguments; the walk goes on in the same way
-- whichever Boolean it returns.
pub record Added : Type 0 where
  pub blocks : List CompressedBlock
  pub total_literals : ℕ

-- The blocks of a nested archive.
unfoldable pub add_nested : ℕ → Added → List CompressedBlock → Outcome Added
add_nested pos s nested = do
  let total = saturating_add s.total_literals (sum_literals nested)
  refuse (ltb max_tarball_bytes total) (invalid_data pos tar_literals_exceed)
  ok (record { blocks = s.blocks ++ nested; total_literals = total })

-- One block with the content of the member.
unfoldable pub add_content : ℕ → ℕ → Added → List ℕ → Outcome Added
add_content pos content_size s literals = do
  refuse (ltb (2 ^ 32 - 1) content_size) (invalid_data pos tar_member_too_large)
  refuse (ltb (2 ^ 64 - 1) pos) (invalid_data pos tar_offset_exceeds_u64)
  refuse (ltb (2 ^ 32 - 1) content_size) (invalid_data pos tar_size_exceeds_u32)
  let block : CompressedBlock = record (Block.new pos content_size) {
    literals = literals;
    uncompressed_len = some content_size;
  }
  let total = saturating_add s.total_literals content_size
  refuse (ltb max_tarball_bytes total) (invalid_data pos tar_literals_exceed)
  ok (record { blocks = s.blocks ++ (block ∷ []); total_literals = total })

module _ (gz : MultiGz) where
  -- `scan` walks a nested archive.
  unfoldable pub add_regular_file_blocks :
      (List ℕ → Outcome (List CompressedBlock)) → List ℕ → TarHeader → ℕ → Added → Outcome Added
  add_regular_file_blocks scan tar_data member pos s = do
    literals ← slice tar_data member.content_offset (member.content_offset + member.content_size)
    if not (length literals == 0) && starts_with literals gzip_magic
        then (do
          tar_inner ← decompress_gzip_members gz literals
          is_tar ← first_tar_block_has_ustar_magic tar_inner
          if is_tar
              then (do nested ← scan tar_inner; add_nested pos s nested)
              else add_content pos member.content_size s literals)
        else add_content pos member.content_size s literals

  -- The rest of a round, behind the end of the archive.
  unfoldable pub member_round :
      (List ℕ → Outcome (List CompressedBlock))
      → List ℕ
      → Walk
      → Outcome (Next Walk (List CompressedBlock))
  member_round scan tar_data s = do
    member ← read_tar_member tar_data s.pos s.pos
    refuse member.is_symlink (invalid_data s.pos (symbolic_link member.name))
    refuse member.is_hardlink (invalid_data s.pos (hard_link member.name))
    let before : Added = record { blocks = s.blocks; total_literals = s.total_literals }
    added ←
        (if member.is_regular_file
          then add_regular_file_blocks scan tar_data member s.pos before
          else ok before)
    pos ← next_member_offset s.pos member.content_size
    ok (
        again (record {
          pos = pos;
          members = s.members + 1;
          blocks = added.blocks;
          total_literals = added.total_literals;
        }))

  unfoldable pub walk_round :
      (List ℕ → Outcome (List CompressedBlock))
      → List ℕ
      → Walk
      → Outcome (Next Walk (List CompressedBlock))
  walk_round scan tar_data s =
      if ltb s.pos (length tar_data)
      then (do
        refuse (leb max_tar_members s.members) (invalid_data s.pos too_many_tar_members)
        refuse (ltb (length tar_data) (s.pos + tar_block_size))
            (invalid_data s.pos truncated_tar_header)
        header ← slice tar_data s.pos (s.pos + tar_block_size)
        if is_end_of_archive_block header then ok (done s.blocks) else member_round scan tar_data s)
      else ok (done s.blocks)

  -- `levels` is the fuel of the recursion. The round that would take one member too many is refused.
  unfoldable pub scan_decompressed_tar_gz_archive : ℕ → ℕ → List ℕ → Outcome (List CompressedBlock)
  scan_decompressed_tar_gz_archive zero depth tar_data = panic out_of_fuel
  scan_decompressed_tar_gz_archive (suc levels) depth tar_data = do
    refuse (ltb max_nested_depth depth) (invalid_data 0 nested_too_deep)
    loop (max_tar_members + 2)
        (walk_round (scan_decompressed_tar_gz_archive levels (depth + 1)) tar_data)
        (record { pos = 0; members = 0; blocks = []; total_literals = 0 })

  -- One level more than there are depths, since the first depth that is too large is refused.
  unfoldable pub scan_tarball_literals_with_depth : List ℕ → ℕ → Outcome (List CompressedBlock)
  scan_tarball_literals_with_depth bytes depth = do
    refuse (ltb max_nested_depth depth) (invalid_data 0 nested_too_deep)
    refuse (not (starts_with bytes gzip_magic)) (invalid_data 0 not_a_gzip_stream)
    tar_data ← decompress_gzip_members gz bytes
    if length tar_data == 0
        then ok []
        else scan_decompressed_tar_gz_archive (max_nested_depth + 2) depth tar_data

  unfoldable pub scan_tarball_literals : List ℕ → Outcome (List CompressedBlock)
  scan_tarball_literals bytes = scan_tarball_literals_with_depth bytes 0
