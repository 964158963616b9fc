-- ===== src/Extract/Tarball/Sound.antt =====
-- What a successful `scan_tarball_literals` of src/extract/tarball.rs has walked over.
use ziftsieve.Base.{
  ℕ, zero, suc, ◌+◌, ◌-◌, ◌≤◌, ◌<◌, ◌≡◌, refl, sym, ◌∙◌, ap, arith, List, [], ◌∷◌, ◌++◌, append-nil,
  append_assoc, length, true, not, ◌&&◌, ◌==◌, ltb, ltb→ge, leb→gt, if◌then◌else◌, loop_rule,
  Progress, Ensures, returns, Ensures-bind, Ensures-map, Ensures-value, Ensures-refuse, Ensures-if,
  Outcome, ok,
}
use ziftsieve.Block.{CompressedBlock}
use ziftsieve.Extract.{starts_with, gzip_magic}
use ziftsieve.Extract.Tarball.{
  TarHeader, tar_block_size, max_tar_members, max_nested_depth, is_end_of_archive_block,
  next_member_offset,
}
use ziftsieve.Extract.Tarball.Decompress.{MultiGz, decompress_gzip_members}
use ziftsieve.Extract.Tarball.Walk.{
  Walk, Added, add_nested, add_content, add_regular_file_blocks, member_round, walk_round,
  scan_decompressed_tar_gz_archive, scan_tarball_literals_with_depth, scan_tarball_literals,
}
use ziftsieve.Extract.Tarball.Safe.{decompress_gzip_members-Ensures, first_tar_block-Ensures}
use ziftsieve.Extract.Tarball.Walked.{
  Checked, NotLink, content_of, behind, member_block, Walked, past, end_marker, skipped, content,
  nested, cut-Ensures, read_tar_member-Checked,
}

next_member_offset-behind :
    (pos : ℕ) (m : TarHeader)
    → Ensures (λ p. p ≡ behind pos m) (next_member_offset pos m.content_size)
unfolding next_member_offset
next_member_offset-behind pos m =
    Ensures-refuse _ _ λ _. Ensures-refuse _ _ λ _. returns (omega arith)

module _ (gz : MultiGz) (scan : List ℕ → Outcome (List CompressedBlock))
    (scan-Walked : (bytes : List ℕ) → Ensures (Walked gz bytes 0) (scan bytes)) (tar : List ℕ) where
  -- The blocks before `pos` are those of the archive up to there.
  abbrev UpTo : ℕ → List CompressedBlock → Type 0
  UpTo pos blocks =
      (bs : List CompressedBlock) → Walked gz tar pos bs → Walked gz tar 0 (blocks ++ bs)

  module _ (pos : ℕ) (m : TarHeader) (c : Checked tar pos m) (l : NotLink m) (before : Added)
      (up : UpTo pos before.blocks) where
    add_content-UpTo :
        m.is_regular_file ≡ true
        → (literals : List ℕ) → literals ≡ content_of tar m
        → Ensures
            (λ a. UpTo (behind pos m) a.blocks)
            (add_content pos m.content_size before literals)
    unfolding add_content
    add_content-UpTo r literals e = Ensures-refuse _ _ λ _. Ensures-refuse _ _ λ _.
        Ensures-refuse _ _ λ _. Ensures-refuse _ _ λ _.
          returns
            (λ bs w. rw (e, append_assoc) (up (member_block tar pos m ∷ bs) (content c l r w)))

    add_nested-UpTo :
        m.is_regular_file ≡ true
        → (inner : List ℕ) → decompress_gzip_members gz (content_of tar m) ≡ ok inner
        → (inner_blocks : List CompressedBlock) → Walked gz inner 0 inner_blocks
        → Ensures (λ a. UpTo (behind pos m) a.blocks) (add_nested pos before inner_blocks)
    unfolding add_nested
    add_nested-UpTo r inner d inner_blocks w =
        Ensures-refuse _ _ λ _.
          returns (λ bs rest. rw append_assoc (up (inner_blocks ++ bs) (nested c l r d w rest)))

    add_regular_file_blocks-UpTo :
        m.is_regular_file ≡ true
        → Ensures
            (λ a. UpTo (behind pos m) a.blocks)
            (add_regular_file_blocks gz scan tar m pos before)
    unfolding add_regular_file_blocks
    add_regular_file_blocks-UpTo r =
        Ensures-bind
          (cut-Ensures tar m.content_offset (m.content_offset + m.content_size) m.content_size refl
            c.within)
          λ literals e.
            Ensures-if (not (length literals == 0) && starts_with literals gzip_magic)
              (λ _.
                Ensures-bind (Ensures-value (decompress_gzip_members-Ensures gz literals))
                  λ inner d. Ensures-bind (first_tar_block-Ensures inner) λ is_tar _.
                    Ensures-if is_tar
                      (λ _. Ensures-bind (scan-Walked inner) λ inner_blocks w.
                        add_nested-UpTo r inner (ap (decompress_gzip_members gz) (sym e) ∙ d.1)
                          inner_blocks w)
                      (λ _. add_content-UpTo r literals e))
              (λ _. add_content-UpTo r literals e)

    member-UpTo :
        Ensures
          (λ a. UpTo (behind pos m) a.blocks)
          (if m.is_regular_file
            then add_regular_file_blocks gz scan tar m pos before
            else ok before)
    member-UpTo =
        Ensures-if m.is_regular_file add_regular_file_blocks-UpTo
          (λ other. returns (λ bs w. up bs (skipped c l other w)))

  abbrev Walking : Walk → Type 0
  Walking s = (s.members ≤ max_tar_members) × UpTo s.pos s.blocks

  abbrev members_left : Walk → ℕ
  members_left s = max_tar_members - s.members

  ended : (s : Walk) → UpTo s.pos s.blocks → Walked gz tar s.pos [] → Walked gz tar 0 s.blocks
  ended s up w = rw append-nil at (up [] w)

  member_round-Walking :
      (s : Walk)
      → UpTo s.pos s.blocks
      → s.members < max_tar_members
      → Ensures (Progress Walking (Walked gz tar 0) members_left s) (member_round gz scan tar s)
  unfolding member_round
  member_round-Walking s up room = Ensures-bind (read_tar_member-Checked tar s.pos) λ m c.
      Ensures-refuse m.is_symlink _ λ soft. Ensures-refuse m.is_hardlink _ λ hard.
        Ensures-bind (member-UpTo s.pos m c (soft, hard) _ up) λ added k.
          Ensures-bind (next_member_offset-behind s.pos m)
            λ pos e. returns ((omega (arith, room), λ bs w. k bs (rw e at w)), omega (arith, room))

  walk_round-Walking :
      (s : Walk)
      → Walking s
      → Ensures (Progress Walking (Walked gz tar 0) members_left s) (walk_round gz scan tar s)
  unfolding walk_round
  walk_round-Walking s (few, up) =
      Ensures-if (ltb s.pos (length tar))
        (λ _. Ensures-refuse _ _ λ room. Ensures-refuse _ _ λ inside.
          Ensures-bind (cut-Ensures tar s.pos (s.pos + tar_block_size) 512 refl (ltb→ge _ _ inside))
            λ header h.
              Ensures-if (is_end_of_archive_block header)
                (λ end.
                  returns (ended s up (end_marker (ap is_end_of_archive_block (sym h) ∙ end))))
                (λ _. member_round-Walking s up (leb→gt _ _ room)))
        (λ over. returns (ended s up (past (ltb→ge _ _ over))))

module _ (gz : MultiGz) where
  scan_decompressed-Walked :
      (levels depth : ℕ) (tar : List ℕ)
      → max_nested_depth + 2 ≤ levels + depth
      → 1 ≤ levels
      → Ensures (Walked gz tar 0) (scan_decompressed_tar_gz_archive gz levels depth tar)
  unfolding scan_decompressed_tar_gz_archive
  scan_decompressed-Walked zero depth tar h k = absurd (omega arith)
  scan_decompressed-Walked (suc levels) depth tar h k = Ensures-refuse _ _ λ deep.
      let shallow = ltb→ge _ _ deep in
      let scan = scan_decompressed_tar_gz_archive gz levels (depth + 1) in
      let inner = λ (bytes : List ℕ).
        scan_decompressed-Walked levels (depth + 1) bytes (omega arith) (omega (arith, shallow)) in
      loop_rule (Walking gz scan inner tar) (Walked gz tar 0) (members_left gz scan inner tar)
        (walk_round gz scan tar) (walk_round-Walking gz scan inner tar) (max_tar_members + 2) _
        (omega arith) (omega arith, λ bs w. w)

  -- The archive that the decoder gives, with the blocks that it has.
  abbrev pub Accounted : List ℕ → List CompressedBlock → Type 0
  Accounted bytes blocks =
      (tar : List ℕ) × (decompress_gzip_members gz bytes ≡ ok tar) × Walked gz tar 0 blocks

  -- On any bytes and with any gzip decoder, `scan_tarball_literals` ends without a panic, and
  -- blocks that it returns are those of a walk over the decompressed archive, to its end or its end
  -- marker: for each regular file its content at the offset of its header, or the blocks of such a
  -- walk over the archive that is nested in it. Every member that the walks pass has a name field
  -- without a component "..", is no symbolic or hard link, has the size that its header says, and
  -- lies within its archive.
  pub scan_tarball_literals-Accounted :
      (bytes : List ℕ) → Ensures (Accounted bytes) (scan_tarball_literals gz bytes)
  unfolding scan_tarball_literals scan_tarball_literals_with_depth
  scan_tarball_literals-Accounted bytes = Ensures-refuse _ _ λ _. Ensures-refuse _ _ λ _.
      Ensures-bind (Ensures-value (decompress_gzip_members-Ensures gz bytes)) λ tar d.
        Ensures-if (length tar == 0) (λ empty. returns (tar, d.1, past (ground arith)))
          λ _.
            Ensures-map (λ blocks w. (tar, d.1, w))
              (scan_decompressed-Walked (max_nested_depth + 2) 0 tar (omega arith) (omega arith))
