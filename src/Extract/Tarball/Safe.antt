-- ===== src/Extract/Tarball/Safe.antt =====
-- `scan_tarball_literals` of src/extract/tarball.rs on any bytes and any decoder.
use ziftsieve.Base.{
  ℕ, zero, suc, ◌+◌, ◌-◌, ◌≤◌, ◌<◌, ◌≡◌, refl, ap, arith, List, [], ◌∷◌, length, take, drop, All,
  All-append, not, ◌&&◌, ltb, ltb→ge, leb→gt, ◌==◌, ◌||◌, Option, none, some, length-append,
  length-take, length-drop, index_found, slice, slice-Ensures, loop_rule, Progress, Next, again,
  done, next, Ensures, returns, fails, Ensures-bind, Ensures-map, Ensures-refuse, Ensures-if,
  Ensures-step, Outcome,
}
use ziftsieve.Block.{CompressedBlock, sum_literals, sum_literals-append, same_bytes}
use ziftsieve.Extract.{starts_with, gzip_magic}
use ziftsieve.Extract.Tarball.{
  TarHeader, Octal, octal_round, octal_from, parse_tar_octal_usize, max_tarball_bytes,
  tar_block_size, max_tar_members, max_nested_depth, is_end_of_archive_block, next_member_offset,
  read_tar_member, first_tar_block_has_ustar_magic, sums_up, checksum_from,
}
use ziftsieve.Extract.Tarball.Decompress.{
  MultiGz, Reading, after_read, read_round, decompress_gzip_members,
}
use ziftsieve.Extract.Tarball.Walk.{
  Walk, Added, add_nested, add_content, add_regular_file_blocks, member_round, walk_round,
  scan_decompressed_tar_gz_archive, scan_tarball_literals_with_depth, scan_tarball_literals,
}

abbrev Anything : {A : Type 0} → A → Type 0
Anything a = Unit {0}

octal_from-Ensures :
    (offset : ℕ) (bytes : List ℕ) (s : Octal) → Ensures (λ v. Unit {0}) (octal_from offset bytes s)
unfolding octal_from octal_round
octal_from-Ensures offset [] s = returns tt
octal_from-Ensures offset (byte ∷ bytes) s =
    Ensures-bind
      (Ensures-if {P = λ n. Unit {0}} (byte == 0 || byte == b' ') (λ _. returns tt)
        (λ _. Ensures-refuse _ _ λ _. Ensures-refuse _ _ λ _. returns tt))
      (λ n _. goes_on (octal_from-Ensures offset bytes) n)
  where
    goes_on :
        ((s : Octal) → Ensures (λ v. Unit {0}) (octal_from offset bytes s))
        → (n : Next Octal ℕ) → Ensures (λ v. Unit {0}) (next (octal_from offset bytes) n)
    goes_on ih (again s) = ih s
    goes_on ih (done v) = returns tt

pub parse_tar_octal_usize-Ensures :
    (bytes : List ℕ) (offset : ℕ) → Ensures (λ v. Unit {0}) (parse_tar_octal_usize bytes offset)
unfolding parse_tar_octal_usize
parse_tar_octal_usize-Ensures bytes offset = octal_from-Ensures offset bytes _

-- A run of `k` bytes of a list.
run-Ensures :
    (xs : List ℕ) (a b : ℕ)
    → a ≤ b
    → b ≤ length xs
    → Ensures (λ ys. length ys ≡ b - a) (slice xs a b)
run-Ensures xs a b p q =
    Ensures-map
      (λ ys e. omega (arith, ap length e, length-take (b - a) (drop a xs), length-drop a xs))
      (slice-Ensures xs a b p q)

next_member_offset-Ensures :
    (offset size : ℕ) → Ensures (λ p. offset + 512 + size ≤ p) (next_member_offset offset size)
unfolding next_member_offset
next_member_offset-Ensures offset size =
    Ensures-refuse _ _ λ _. Ensures-refuse _ _ λ _. returns (omega arith)

-- The content of the member stands behind the header, within the archive.
abbrev pub Placed : List ℕ → ℕ → TarHeader → Type 0
Placed content start m =
    (m.content_offset ≡ start + 512) × (m.content_offset + m.content_size ≤ length content)

read_tar_member-Placed :
    (content : List ℕ) (start offset : ℕ)
    → Ensures (Placed content start) (read_tar_member content start offset)
unfolding read_tar_member
read_tar_member-Placed content start offset = Ensures-refuse _ _ λ _. Ensures-refuse _ _ λ inside.
    Ensures-bind
      (run-Ensures content start (start + tar_block_size) (omega arith) (ltb→ge _ _ inside))
      λ header h. Ensures-refuse _ _ λ _.
        Ensures-bind (run-Ensures header 124 136 (omega arith) (omega (arith, h))) λ size_field _.
          Ensures-bind (parse_tar_octal_usize-Ensures size_field (offset + 124)) λ size _.
            let (flag, found, _) = index_found header 156 (omega (arith, h)) in
            Ensures-step _ found (
              Ensures-bind (run-Ensures header 0 100 (omega arith) (omega (arith, h)))
                λ name_bytes _. Ensures-refuse _ _ λ _.
                  Ensures-refuse _ _
                    λ _. Ensures-refuse _ _ λ room. returns (refl, ltb→ge _ _ room))

sums_up-Ensures :
    (computed : ℕ) (o : Outcome ℕ)
    → Ensures (λ v. Unit {0}) o
    → Ensures (λ b. Unit {0}) (sums_up computed o)
sums_up-Ensures computed o (returns h) = returns tt
sums_up-Ensures computed o fails = returns tt

pub first_tar_block-Ensures :
    (tar_data : List ℕ) → Ensures (λ b. Unit {0}) (first_tar_block_has_ustar_magic tar_data)
unfolding first_tar_block_has_ustar_magic
first_tar_block-Ensures tar_data =
    Ensures-if (ltb (length tar_data) tar_block_size) (λ _. returns tt)
      λ room. Ensures-bind (run-Ensures tar_data 0 512 (omega arith) (ltb→ge _ _ room)) λ header h.
        Ensures-if (is_end_of_archive_block header) (λ _. returns tt)
          λ _.
            Ensures-if
              (same_bytes (take 5 (drop 257 tar_data)) (b'u' ∷ b's' ∷ b't' ∷ b'a' ∷ b'r' ∷ []))
              (λ _. returns tt)
              λ _.
                Ensures-bind (run-Ensures header 148 156 (omega arith) (omega (arith, h)))
                  λ field _.
                    sums_up-Ensures (checksum_from 0 header) _
                      (parse_tar_octal_usize-Ensures field 0)

module _ (gz : MultiGz) where
  abbrev Bounded : Reading gz → Type 0
  Bounded s = length s.out ≤ max_tarball_bytes

  abbrev room_left : Reading gz → ℕ
  room_left s = max_tarball_bytes - length s.out

  after_read-Bounded :
      (size : ℕ) (s : Reading gz) (given : Option (List ℕ × gz.Decoder))
      → Bounded s
      → Ensures
          (Progress Bounded (λ out. length out ≤ max_tarball_bytes) room_left s)
          (after_read gz size s.out given)
  unfolding after_read
  after_read-Bounded size s none h = fails
  after_read-Bounded size s (some ([], decoder)) h = returns h
  after_read-Bounded size s (some (b ∷ bytes, decoder)) h = Ensures-refuse _ _ λ _.
      Ensures-refuse _ _ λ small. returns (
        omega (arith, ltb→ge _ _ small, length-append s.out (b ∷ bytes)),
        omega (arith, ltb→ge _ _ small, length-append s.out (b ∷ bytes)),
      )

  pub decompress_gzip_members-Ensures :
      (bytes : List ℕ)
      → Ensures (λ out. length out ≤ max_tarball_bytes) (decompress_gzip_members gz bytes)
  unfolding decompress_gzip_members
  decompress_gzip_members-Ensures bytes =
      loop_rule Bounded _ room_left (read_round gz (length bytes)) round (max_tarball_bytes + 2) _
        (omega arith) (omega arith)
    where
      round :
          (s : Reading gz)
          → Bounded s
          → Ensures
              (Progress Bounded (λ out. length out ≤ max_tarball_bytes) room_left s)
              (read_round gz (length bytes) s)
      round s h =
          unfold read_round in after_read-Bounded (length bytes) s (gz.read s.decoder 16384) h

-- The literals are the whole block.
abbrev pub Whole : CompressedBlock → Type 0
Whole b = (length b.literals ≡ b.compressed_len) × (b.uncompressed_len ≡ some b.compressed_len)

abbrev pub Scanned : List CompressedBlock → Type 0
Scanned blocks = All Whole blocks × (sum_literals blocks ≤ max_tarball_bytes)

abbrev Summed : List CompressedBlock → ℕ → Type 0
Summed blocks total = All Whole blocks × (sum_literals blocks ≡ total) × (total ≤ max_tarball_bytes)

abbrev SummedUp : Added → Type 0
SummedUp s = Summed s.blocks s.total_literals

add_nested-Summed :
    (pos : ℕ) (s : Added) (nested : List CompressedBlock)
    → SummedUp s
    → Scanned nested
    → Ensures SummedUp (add_nested pos s nested)
unfolding add_nested
add_nested-Summed pos s nested h k = Ensures-refuse _ _ λ small.
    let fits = ltb→ge _ _ small in
    returns (
      All-append Whole s.blocks nested h.0 k.0,
      omega (arith, sum_literals-append s.blocks nested, h.1, h.2, k.1),
      fits,
    )

add_content-Summed :
    (pos size : ℕ) (s : Added) (literals : List ℕ)
    → SummedUp s
    → length literals ≡ size
    → Ensures SummedUp (add_content pos size s literals)
unfolding add_content
add_content-Summed pos size s literals h same = Ensures-refuse _ _ λ few. Ensures-refuse _ _ λ _.
    Ensures-refuse _ _ λ _. Ensures-refuse _ _ λ small.
      let fits = ltb→ge _ _ small in
      let block : CompressedBlock = record {
        compressed_offset = pos;
        compressed_len = size;
        uncompressed_len = some size;
        literals = literals;
      } in
      returns (
        All-append Whole s.blocks (block ∷ []) h.0 ((same, refl), tt),
        omega (arith, sum_literals-append s.blocks (block ∷ []), h.1, h.2, same, ltb→ge _ _ few),
        fits,
      )

module _ (gz : MultiGz) (scan : List ℕ → Outcome (List CompressedBlock))
    (scan-Scanned : (bytes : List ℕ) → Ensures Scanned (scan bytes)) (tar_data : List ℕ) where
  add_regular_file_blocks-Summed :
      (member : TarHeader) (pos : ℕ) (s : Added)
      → Placed tar_data pos member
      → SummedUp s
      → Ensures SummedUp (add_regular_file_blocks gz scan tar_data member pos s)
  unfolding add_regular_file_blocks
  add_regular_file_blocks-Summed member pos s p h =
      Ensures-bind
        (run-Ensures tar_data member.content_offset (member.content_offset + member.content_size)
          (omega arith) p.1)
        λ literals l.
          let same : length literals ≡ member.content_size = omega (arith, l) in
          Ensures-if (not (length literals == 0) && starts_with literals gzip_magic)
            (λ _. Ensures-bind (decompress_gzip_members-Ensures gz literals) λ tar_inner _.
              Ensures-bind (first_tar_block-Ensures tar_inner) λ is_tar _.
                Ensures-if is_tar
                  (λ _.
                    Ensures-bind (scan-Scanned tar_inner)
                      λ nested k. add_nested-Summed pos s nested h k)
                  (λ _. add_content-Summed pos member.content_size s literals h same))
            (λ _. add_content-Summed pos member.content_size s literals h same)

  abbrev Walking : Walk → Type 0
  Walking s = (s.members ≤ max_tar_members) × Summed s.blocks s.total_literals

  abbrev members_left : Walk → ℕ
  members_left s = max_tar_members - s.members

  member_round-Walking :
      (s : Walk)
      → Walking s
      → s.members < max_tar_members
      → Ensures (Progress Walking Scanned members_left s) (member_round gz scan tar_data s)
  unfolding member_round
  member_round-Walking s (few, h) room =
      Ensures-bind (read_tar_member-Placed tar_data s.pos s.pos) λ member p. Ensures-refuse _ _ λ _.
        Ensures-refuse _ _ λ _.
          Ensures-bind
            (Ensures-if {P = SummedUp} member.is_regular_file
              (λ _. add_regular_file_blocks-Summed member s.pos _ p h) (λ _. returns h))
            λ added k.
              Ensures-bind (next_member_offset-Ensures s.pos member.content_size)
                λ pos _. returns ((omega (arith, room), k), omega (arith, room))

  walk_round-Walking :
      (s : Walk)
      → Walking s
      → Ensures (Progress Walking Scanned members_left s) (walk_round gz scan tar_data s)
  unfolding walk_round
  walk_round-Walking s (few, h) =
      let end : Scanned s.blocks = (h.0, omega (arith, h.1, h.2)) in
      Ensures-if (ltb s.pos (length tar_data))
        (λ _. Ensures-refuse _ _ λ room. Ensures-refuse _ _ λ inside.
          Ensures-bind
            (run-Ensures tar_data s.pos (s.pos + tar_block_size) (omega arith) (ltb→ge _ _ inside))
            λ header _.
              Ensures-if (is_end_of_archive_block header) (λ _. returns end)
                (λ _. member_round-Walking s (few, h) (leb→gt _ _ room)))
        (λ _. returns end)

module _ (gz : MultiGz) where
  -- Seven levels are enough from any depth on.
  scan_decompressed-Scanned :
      (levels depth : ℕ) (tar_data : List ℕ)
      → max_nested_depth + 2 ≤ levels + depth
      → 1 ≤ levels
      → Ensures Scanned (scan_decompressed_tar_gz_archive gz levels depth tar_data)
  unfolding scan_decompressed_tar_gz_archive
  scan_decompressed-Scanned zero depth tar_data h k = absurd (omega arith)
  scan_decompressed-Scanned (suc levels) depth tar_data h k = Ensures-refuse _ _ λ deep.
      let shallow = ltb→ge _ _ deep in
      let scan = scan_decompressed_tar_gz_archive gz levels (depth + 1) in
      let inner = λ (bytes : List ℕ).
        scan_decompressed-Scanned levels (depth + 1) bytes (omega arith) (omega (arith, shallow)) in
      loop_rule (Walking gz scan inner tar_data) Scanned (members_left gz scan inner tar_data)
        (walk_round gz scan tar_data) (walk_round-Walking gz scan inner tar_data)
        (max_tar_members + 2) _ (omega arith) (omega arith, (tt, refl, omega arith))

  -- On any bytes and with any gzip decoder, `scan_tarball_literals` ends without a panic, whatever
  -- archives are nested in the archive, and blocks that it returns hold at most 256 MiB of literals
  -- together, each as many as its compressed length and its uncompressed length say.
  pub scan_tarball_literals-Scanned :
      (bytes : List ℕ) → Ensures Scanned (scan_tarball_literals gz bytes)
  unfolding scan_tarball_literals scan_tarball_literals_with_depth
  scan_tarball_literals-Scanned bytes = Ensures-refuse _ _ λ _. Ensures-refuse _ _ λ _.
      Ensures-bind (decompress_gzip_members-Ensures gz bytes) λ tar_data _.
        Ensures-if (length tar_data == 0) (λ _. returns (tt, omega arith))
          λ _.
            scan_decompressed-Scanned (max_nested_depth + 2) 0 tar_data (omega arith) (omega arith)
