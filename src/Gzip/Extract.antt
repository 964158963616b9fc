-- ===== src/Gzip/Extract.antt =====
-- `extract_literals` of src/gzip/mod.rs: member after member, while bytes are left.
pub mod Safe
pub mod RoundTrip
mod Tests
use ziftsieve.Base.{ℕ, ◌+◌, List, [], length, ltb, leb, ◌==◌, if◌then◌else◌}
use ziftsieve.Base.{Outcome, ok, ◌>>=◌, ◌>>◌, refuse, loop, Next, again, done}
use ziftsieve.Base.{invalid_data, empty_gzip_input, too_many_members}
use ziftsieve.Block.{CompressedBlock}
use ziftsieve.Gzip.Reader.{BitReader, new, remaining_bytes}
use ziftsieve.Gzip.Member.{Libraries, parse_gzip_member}

pub record Extraction : Type 0 where
  pub reader : BitReader
  pub blocks : List CompressedBlock
  pub total_literals : ℕ
  pub members : ℕ

module _ (libraries : Libraries) where
  unfoldable pub member_round : Extraction → Outcome (Next Extraction (List CompressedBlock))
  member_round s =
      if ltb 0 (remaining_bytes s.reader)
      then (do
        member ← parse_gzip_member libraries s.reader s.blocks s.total_literals
        refuse (leb 1024 (s.members + 1)) (invalid_data member.reader.byte_pos too_many_members)
        ok (
            again (record {
              reader = member.reader;
              blocks = member.blocks;
              total_literals = member.total_literals;
              members = s.members + 1;
            })))
      else ok (done s.blocks)

  -- The 1024th member is refused.
  unfoldable pub extract_literals : List ℕ → Outcome (List CompressedBlock)
  extract_literals bytes = do
    refuse (length bytes == 0) (invalid_data 0 empty_gzip_input)
    loop 1025 member_round
        (record { reader = new bytes 0; blocks = []; total_literals = 0; members = 0 })
