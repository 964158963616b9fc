-- ===== src/Extract/Tarball/Format.antt =====
-- Tar archives, written down on their own: a header of 512 bytes, the content, and zeros up to the next
-- multiple of 512.
use ziftsieve.Base.{
  ℕ, zero, suc, ◌+◌, ◌-◌, ◌/◌, ◌%◌, ◌^◌, ◌<◌, ◌≡◌, ◌≢◌, List, [], ◌∷◌, ◌++◌, length, replicate, All,
  Bool, false, ◌||◌, ◌==◌, if◌then◌else◌, some,
}
use ziftsieve.Block.{CompressedBlock}
use ziftsieve.Extract.{starts_with, gzip_magic}
use ziftsieve.Extract.Tarball.Name.Components.{HasParent}
use ziftsieve.Extract.Tarball.Decompress.{MultiGz}

pub record Entry : Type 0 where
  pub first : ℕ
  pub name : List ℕ
  pub mode : List ℕ
  pub checksum : List ℕ
  pub typeflag : ℕ
  pub link : List ℕ
  pub content : List ℕ

-- The name, behind its first character, up to the end of its field.
abbrev pub name_field : Entry → List ℕ
name_field e = (e.first ∷ e.name) ++ replicate (100 - suc (length e.name)) 0

-- `k` octal digits, the most significant first.
unfoldable pub octal_digits : ℕ → ℕ → List ℕ
octal_digits zero n = []
octal_digits (suc k) n = octal_digits k (n / 8) ++ (b'0' + n % 8) ∷ []

-- Eleven digits and a NUL.
abbrev pub size_field : Entry → List ℕ
size_field e = octal_digits 11 (length e.content) ++ 0 ∷ []

unfoldable pub encode_header : Entry → List ℕ
encode_header e =
    name_field e ++ (e.mode ++ (size_field e ++ (e.checksum ++ (e.typeflag ∷ e.link))))

abbrev pub padding : ℕ → ℕ
padding size = (512 - size % 512) % 512

unfoldable pub encode_entry : Entry → List ℕ
encode_entry e = encode_header e ++ (e.content ++ replicate (padding (length e.content)) 0)

unfoldable pub encode_entries : List Entry → List ℕ
encode_entries [] = []
encode_entries (e ∷ es) = encode_entry e ++ encode_entries es

unfoldable pub end_block : List ℕ
end_block = replicate 512 0

-- Two blocks of zeros end the archive.
unfoldable pub encode_archive : List Entry → List ℕ
encode_archive es = encode_entries es ++ (end_block ++ end_block)

-- An ASCII name with no component "..", neither a symbolic nor a hard link, and content that does not
-- look like a nested archive.
pub record IsEntry (e : Entry) : Type 0 where
  pub ascii : All (λ c. (0 < c) × (c < 0x80)) (e.first ∷ e.name)
  pub short : length e.name < 100
  pub no_parent : HasParent (e.first ∷ e.name) → ⊥
  pub mode_there : length e.mode ≡ 24
  pub checksum_there : length e.checksum ≡ 20
  pub link_there : length e.link ≡ 355
  pub no_symlink : e.typeflag ≢ b'2'
  pub no_hardlink : e.typeflag ≢ b'1'
  pub small : length e.content < 2 ^ 32
  pub plain : starts_with e.content gzip_magic ≡ false

abbrev pub is_regular : Entry → Bool
is_regular e = e.typeflag == b'0' || e.typeflag == 0

-- The block of a regular file whose header stands at `pos`.
abbrev pub content_block : ℕ → Entry → CompressedBlock
content_block pos e = record {
  compressed_offset = pos;
  compressed_len = length e.content;
  uncompressed_len = some (length e.content);
  literals = e.content;
}

-- The blocks of the regular files, each with the offset of its header.
unfoldable pub blocks_of : ℕ → List Entry → List CompressedBlock
blocks_of pos [] = []
blocks_of pos (e ∷ es) =
    let rest = blocks_of (pos + length (encode_entry e)) es in
    if is_regular e then content_block pos e ∷ rest else rest

-- The decoder gives these bytes, in some chunks, and ends.
pub data Delivers (gz : MultiGz) : gz.Decoder → List ℕ → Type 0 where
  ended : {d end : gz.Decoder} → gz.read d 16384 ≡ some ([], end) → Delivers gz d []
  chunk :
      {d rest : gz.Decoder} {b : ℕ} {bytes out : List ℕ}
      → gz.read d 16384 ≡ some (b ∷ bytes, rest)
      → Delivers gz rest out
      → Delivers gz d ((b ∷ bytes) ++ out)
