-- ===== src/Extract/Tarball/Walked.antt =====
-- The members of a tar archive as a walk over it meets them, and `read_tar_member` of
-- src/extract/tarball.rs on one of them.
use ziftsieve.Base.{
  ℕ, ◌+◌, ◌-◌, ◌*◌, ◌/◌, ◌≤◌, ◌≡◌, refl, sym, ◌∙◌, ap, arith, List, [], ◌∷◌, ◌++◌, length, take,
  drop, get_elem?, true, false, ◌||◌, ◌==◌, ltb→ge, some, length-take, length-drop, index_found,
  slice, slice-Ensures, Ensures, returns, Ensures-bind, Ensures-value, Ensures-refuse, Ensures-step,
  ok,
}
use ziftsieve.Block.{CompressedBlock}
use ziftsieve.Extract.Tarball.{
  TarHeader, parse_tar_octal_usize, tar_block_size, is_end_of_archive_block, read_tar_member,
  before_nul,
}
use ziftsieve.Extract.Tarball.Name.{from_utf8_lossy, contains_path_traversal}
use ziftsieve.Extract.Tarball.Name.Components.{HasParent, contains_path_traversal_iff}
use ziftsieve.Extract.Tarball.Decompress.{MultiGz, decompress_gzip_members}
use ziftsieve.Extract.Tarball.Safe.{parse_tar_octal_usize-Ensures}

-- The header at `pos`, and the name in it.
abbrev pub header_at : List ℕ → ℕ → List ℕ
header_at tar pos = take 512 (drop pos tar)

abbrev pub name_at : List ℕ → ℕ → List ℕ
name_at tar pos = from_utf8_lossy (before_nul (take 100 (header_at tar pos)))

-- The member whose header stands at `pos`: its name has no component "..", its type flag is not that
-- of a link, its size is the one in the header, and its content lies within the archive.
pub record Checked (tar : List ℕ) (pos : ℕ) (m : TarHeader) : Type 0 where
  pub no_parent : HasParent (name_at tar pos) → ⊥
  pub size :
      parse_tar_octal_usize (take 12 (drop 124 (header_at tar pos))) (pos + 124) ≡ ok m.content_size
  pub offset : m.content_offset ≡ pos + 512
  pub within : m.content_offset + m.content_size ≤ length tar
  pub typeflag : ℕ
  pub flagged : get_elem? (header_at tar pos) 156 ≡ some typeflag
  pub regular : m.is_regular_file ≡ (typeflag == b'0' || typeflag == 0)
  pub symlink : m.is_symlink ≡ (typeflag == b'2')
  pub hardlink : m.is_hardlink ≡ (typeflag == b'1')

abbrev pub NotLink : TarHeader → Type 0
NotLink m = (m.is_symlink ≡ false) × (m.is_hardlink ≡ false)

abbrev pub content_of : List ℕ → TarHeader → List ℕ
content_of tar m = take m.content_size (drop m.content_offset tar)

-- The next multiple of 512 behind the content.
abbrev pub behind : ℕ → TarHeader → ℕ
behind pos m = pos + 512 + (m.content_size + 511) / 512 * 512

abbrev pub member_block : List ℕ → ℕ → TarHeader → CompressedBlock
member_block tar pos m = record {
  compressed_offset = pos;
  compressed_len = m.content_size;
  uncompressed_len = some m.content_size;
  literals = content_of tar m;
}

-- From `pos` on, the archive has these blocks: the content of a regular file, or the blocks of the
-- archive that is nested in it.
pub data Walked (gz : MultiGz) : List ℕ → ℕ → List CompressedBlock → Type 0 where
  past : {tar : List ℕ} {pos : ℕ} → length tar ≤ pos → Walked gz tar pos []
  end_marker :
      {tar : List ℕ} {pos : ℕ}
      → is_end_of_archive_block (header_at tar pos) ≡ true
      → Walked gz tar pos []
  skipped :
      {tar : List ℕ} {pos : ℕ} {m : TarHeader} {bs : List CompressedBlock}
      → Checked tar pos m
      → NotLink m
      → m.is_regular_file ≡ false
      → Walked gz tar (behind pos m) bs
      → Walked gz tar pos bs
  content :
      {tar : List ℕ} {pos : ℕ} {m : TarHeader} {bs : List CompressedBlock}
      → Checked tar pos m
      → NotLink m
      → m.is_regular_file ≡ true
      → Walked gz tar (behind pos m) bs
      → Walked gz tar pos (member_block tar pos m ∷ bs)
  nested :
      {tar inner : List ℕ} {pos : ℕ} {m : TarHeader} {bs inner_blocks : List CompressedBlock}
      → Checked tar pos m
      → NotLink m
      → m.is_regular_file ≡ true
      → decompress_gzip_members gz (content_of tar m) ≡ ok inner
      → Walked gz inner 0 inner_blocks
      → Walked gz tar (behind pos m) bs
      → Walked gz tar pos (inner_blocks ++ bs)

-- A slice of `k` bytes from `a` on.
pub cut-Ensures :
    (xs : List ℕ) (a b k : ℕ)
    → b ≡ a + k
    → b ≤ length xs
    → Ensures (λ ys. ys ≡ take k (drop a xs)) (slice xs a b)
cut-Ensures xs a b k e h =
    let same : b - a ≡ k = omega arith in rw same at (slice-Ensures xs a b (omega arith) h)

pub read_tar_member-Checked :
    (tar : List ℕ) (pos : ℕ) → Ensures (Checked tar pos) (read_tar_member tar pos pos)
unfolding read_tar_member
read_tar_member-Checked tar pos = Ensures-refuse _ _ λ _. Ensures-refuse _ _ λ room.
    Ensures-bind (cut-Ensures tar pos (pos + tar_block_size) 512 (omega arith) (ltb→ge _ _ room))
      λ header h.
        let long : length header ≡ 512 = omega (
          arith,
          ltb→ge _ _ room,
          ap length h,
          length-take 512 (drop pos tar),
          length-drop pos tar,
        ) in
        Ensures-refuse _ _ λ _.
          Ensures-bind (cut-Ensures header 124 136 12 (omega arith) (omega (arith, long)))
            λ size_field f.
              Ensures-bind (Ensures-value (parse_tar_octal_usize-Ensures size_field (pos + 124)))
                λ size p.
                  let (flag, found, element) = index_found header 156 (omega (arith, long)) in
                  Ensures-step _ found (
                    Ensures-bind (cut-Ensures header 0 100 100 (omega arith) (omega (arith, long)))
                      λ name_bytes n. Ensures-refuse _ _ λ clean. Ensures-refuse _ _ λ _.
                        Ensures-refuse _ _ λ inside. returns (record {
                          no_parent = λ parent. cc (
                            (contains_path_traversal_iff (name_at tar pos)).1 parent,
                            same_name name_bytes header n h,
                            clean,
                          );
                          size =
                              ap (λ t. parse_tar_octal_usize (take 12 (drop 124 t)) (pos + 124))
                                (sym h)
                              ∙ ap (λ t. parse_tar_octal_usize t (pos + 124)) (sym f)
                              ∙ p.1;
                          offset = refl;
                          within = ltb→ge _ _ inside;
                          typeflag = flag;
                          flagged = ap (λ t. get_elem? t 156) (sym h) ∙ element;
                          regular = refl;
                          symlink = refl;
                          hardlink = refl;
                        }))
  where
    same_name :
        (name_bytes header : List ℕ)
        → name_bytes ≡ take 100 (drop 0 header)
        → header ≡ header_at tar pos
        → contains_path_traversal (from_utf8_lossy (before_nul name_bytes))
          ≡ contains_path_traversal (name_at tar pos)
    same_name name_bytes header n h =
        ap (λ t. contains_path_traversal (from_utf8_lossy (before_nul t))) (n ∙ ap (take 100) h)
