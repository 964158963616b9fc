-- ===== src/Extract/Tarball/Tests.antt =====
-- src/extract/tarball.rs at concrete inputs.
use ziftsieve.Base.{
  ℕ, ◌*◌, append-nil, length, arith, ◌<◌, ◌≤◌, ◌^◌, ◌≢◌, All, ◌≡◌, ◌↔◌, refl, List, [], ◌∷◌, ◌++◌,
  replicate, true, false, some, ok, err, invalid_data, Ensures, ◌>>=◌, ◌>>◌, refuse,
  invalid_octal_digit,
}
use ziftsieve.Block.{same_bytes}
use ziftsieve.Extract.{starts_with, gzip_magic}
use ziftsieve.Extract.Tarball.{max_tarball_bytes, octal_round, octal_from, parse_tar_octal_usize}
use ziftsieve.Extract.Tarball.Name.{
  first_byte, next_byte, lossy_from, from_utf8_lossy, ends_with, contains_text, has_parent_text,
  contains_path_traversal,
}
use ziftsieve.Extract.Tarball.Name.Components.{HasParent, contains_path_traversal_iff}
use ziftsieve.Extract.Tarball.Decompress.{MultiGz}
use ziftsieve.Extract.Tarball.Walk.{scan_tarball_literals}
use ziftsieve.Extract.Tarball.Format.{
  Entry, IsEntry, encode_header, encode_entry, encode_entries, encode_archive, end_block,
  octal_digits, blocks_of, Delivers, ended, chunk,
}
use ziftsieve.Extract.Tarball.RoundTrip.{scan_tarball_literals-encode_archive}
use ziftsieve.Extract.Tarball.Sound.{Accounted, scan_tarball_literals-Accounted}
use ziftsieve.Extract.Tarball.Safe.{Scanned, scan_tarball_literals-Scanned}

-- "644", behind a space.
octal : parse_tar_octal_usize (0x20 ∷ 0x36 ∷ 0x34 ∷ 0x34 ∷ 0 ∷ []) 124 ≡ ok 420
unfolding parse_tar_octal_usize octal_from octal_round ◌>>=◌ ◌>>◌ refuse
octal = refl

not_octal : parse_tar_octal_usize (0x38 ∷ []) 124 ≡ err (invalid_data 124 invalid_octal_digit)
unfolding parse_tar_octal_usize octal_from octal_round ◌>>=◌ ◌>>◌ refuse
not_octal = refl

-- A truncated character of three bytes is replaced once, and "é" stays.
replaced :
    from_utf8_lossy (0xe2 ∷ 0x82 ∷ 0x61 ∷ 0xc3 ∷ 0xa9 ∷ 0xff ∷ [])
    ≡ 0xef ∷ 0xbf ∷ 0xbd ∷ 0x61 ∷ 0xc3 ∷ 0xa9 ∷ 0xef ∷ 0xbf ∷ 0xbd ∷ []
unfolding from_utf8_lossy lossy_from next_byte first_byte
replaced = refl

-- "a/../b"
abbrev outside : List ℕ
outside = 0x61 ∷ 0x2f ∷ 0x2e ∷ 0x2e ∷ 0x2f ∷ 0x62 ∷ []

traversal : contains_path_traversal outside ≡ true
unfolding contains_path_traversal has_parent_text ends_with contains_text same_bytes starts_with
traversal = refl

-- "./..a" has no component "..".
no_traversal : contains_path_traversal (0x2e ∷ 0x2f ∷ 0x2e ∷ 0x2e ∷ 0x61 ∷ []) ≡ false
unfolding contains_path_traversal has_parent_text ends_with contains_text same_bytes starts_with
no_traversal = refl

contains_path_traversal_iff_example : (contains_path_traversal outside ≡ true) ↔ HasParent outside
contains_path_traversal_iff_example = contains_path_traversal_iff outside

-- A decoder that gives 512 zeros and ends.
abbrev zeros : MultiGz
zeros = record {
  Decoder = ℕ;
  decoder = λ bytes. 1;
  read = λ rounds size. some (replicate (512 * rounds) 0, 0);
}

scan_tarball_literals-Scanned_example :
    Ensures Scanned (scan_tarball_literals zeros (0x1f ∷ 0x8b ∷ []))
scan_tarball_literals-Scanned_example = scan_tarball_literals-Scanned zeros (0x1f ∷ 0x8b ∷ [])

-- A regular file "a" with two bytes, and a directory "d".
abbrev entry_of : ℕ → ℕ → List ℕ → Entry
entry_of first typeflag content = record {
  first = first;
  name = [];
  mode = replicate 24 0x20;
  checksum = replicate 20 0x20;
  typeflag = typeflag;
  link = replicate 355 0;
  content = content;
}

abbrev entries : List Entry
entries = entry_of 0x61 b'0' (7 ∷ 8 ∷ []) ∷ entry_of 0x64 b'5' [] ∷ []

no_parent : (name : List ℕ) → contains_path_traversal name ≡ false → HasParent name → ⊥
no_parent name clean h = cc (clean, (contains_path_traversal_iff name).1 h)

clean_names :
    (contains_path_traversal (0x61 ∷ []) ≡ false) × (contains_path_traversal (0x64 ∷ []) ≡ false)
unfolding contains_path_traversal has_parent_text ends_with contains_text same_bytes starts_with
clean_names = (refl, refl)

-- A decoder that gives the archive in one chunk.
abbrev at_once : MultiGz
at_once = record {
  Decoder = List ℕ;
  decoder = λ bytes. encode_archive entries;
  read = λ d size. some (d, []);
}

at_once-Delivers : (out : List ℕ) → Delivers at_once out out
at_once-Delivers [] = ended refl
at_once-Delivers (b ∷ bytes) =
    let whole : Delivers at_once (b ∷ bytes) ((b ∷ bytes) ++ []) = chunk refl (ended refl) in
    rw append-nil at whole

entry_of-IsEntry :
    (first typeflag : ℕ) (content : List ℕ)
    → (0 < first) × (first < 0x80)
    → contains_path_traversal (first ∷ []) ≡ false
    → typeflag ≢ b'2'
    → typeflag ≢ b'1'
    → length content < 2 ^ 32
    → starts_with content gzip_magic ≡ false
    → IsEntry (entry_of first typeflag content)
entry_of-IsEntry first typeflag content ascii clean symlink hardlink small plain = record {
  ascii = (ascii, tt);
  short = omega arith;
  no_parent = no_parent (first ∷ []) clean;
  mode_there = refl;
  checksum_there = refl;
  link_there = refl;
  no_symlink = symlink;
  no_hardlink = hardlink;
  small = small;
  plain = plain;
}

entries-IsEntry : All IsEntry entries
unfolding starts_with
entries-IsEntry = (
  entry_of-IsEntry 0x61 b'0' (7 ∷ 8 ∷ []) (omega arith) clean_names.0 (omega arith) (omega arith)
      (omega arith) refl,
  (
    entry_of-IsEntry 0x64 b'5' [] (omega arith) clean_names.1 (omega arith) (omega arith)
        (omega arith) refl,
    tt,
  ),
)

gzip_start : starts_with (0x1f ∷ 0x8b ∷ []) gzip_magic ≡ true
unfolding starts_with
gzip_start = refl

archive_small : length (encode_archive entries) ≤ max_tarball_bytes
unfolding encode_archive encode_entries encode_entry encode_header end_block octal_digits
archive_small = omega arith

scan_tarball_literals-encode_archive_example :
    scan_tarball_literals at_once (0x1f ∷ 0x8b ∷ []) ≡ ok (blocks_of 0 entries)
scan_tarball_literals-encode_archive_example =
    scan_tarball_literals-encode_archive at_once (0x1f ∷ 0x8b ∷ []) entries gzip_start
      (at_once-Delivers (encode_archive entries)) archive_small (omega arith) entries-IsEntry

two_blocks :
    blocks_of 0 entries
    ≡ record {
      compressed_offset = 0;
      compressed_len = 2;
      uncompressed_len = some 2;
      literals = 7 ∷ 8 ∷ [];
    }
      ∷ []
unfolding blocks_of
two_blocks = refl

scan_tarball_literals-Accounted_example :
    Ensures
      (Accounted at_once (0x1f ∷ 0x8b ∷ []))
      (scan_tarball_literals at_once (0x1f ∷ 0x8b ∷ []))
scan_tarball_literals-Accounted_example = scan_tarball_literals-Accounted at_once (0x1f ∷ 0x8b ∷ [])
