-- ===== src/Extract.antt =====
-- `extract_from_bytes` of src/extract/mod.rs and `CompressionFormat::detect` of src/detect.rs. The
-- parsers and the features that are compiled in are parameters here.
pub mod Detect
pub mod Formats
pub mod Tarball
mod Tests
use ziftsieve.Base.{
  ℕ, ◌≡◌, ◌≤◌, refl, arith, length, ◌++◌, ==_refl, List, [], ◌∷◌, Bool, true, false, ◌&&◌, ◌||◌,
  ◌==◌, if◌then◌else◌, Option, none, some, Outcome, err, CompressionFormat, lz4, snappy, gzip, zstd,
  feature_not_enabled,
}
use ziftsieve.Block.{CompressedBlock}

pub record Parsers : Type 0 where
  pub enabled : CompressionFormat → Bool
  pub parse : CompressionFormat → List ℕ → Outcome (List CompressedBlock)

unfoldable pub extract_from_bytes :
    Parsers → CompressionFormat → List ℕ → Outcome (List CompressedBlock)
extract_from_bytes ps format bytes =
    if ps.enabled format then ps.parse format bytes else err (feature_not_enabled format)

-- `slice::starts_with`
unfoldable pub starts_with : List ℕ → List ℕ → Bool
starts_with bytes [] = true
starts_with [] (m ∷ magic) = false
starts_with (b ∷ bytes) (m ∷ magic) = b == m && starts_with bytes magic

pub starts_with-append : (magic rest : List ℕ) → starts_with (magic ++ rest) magic ≡ true
unfolding starts_with
starts_with-append [] rest = refl
starts_with-append (m ∷ magic) rest = rw (==_refl m, starts_with-append magic rest)

pub length-starts_with :
    (bytes magic : List ℕ) → starts_with bytes magic ≡ true → length magic ≤ length bytes
unfolding starts_with
length-starts_with bytes [] h = omega arith
length-starts_with [] (m ∷ magic) h = ground arith
length-starts_with (b ∷ bytes) (m ∷ magic) h =
    omega (arith, length-starts_with bytes magic (&&-right (b == m) _ h))
  where
    &&-right : (x y : Bool) → (x && y) ≡ true → y ≡ true
    &&-right true y h = h
    &&-right false y h = cc

abbrev pub gzip_magic : List ℕ
gzip_magic = 0x1f ∷ 0x8b ∷ []

abbrev pub lz4_magic : List ℕ
lz4_magic = 0x04 ∷ 0x22 ∷ 0x4d ∷ 0x18 ∷ []

abbrev pub lz4_legacy_magic : List ℕ
lz4_legacy_magic = 0x02 ∷ 0x21 ∷ 0x4c ∷ 0x18 ∷ []

abbrev pub zstd_magic : List ℕ
zstd_magic = 0x28 ∷ 0xb5 ∷ 0x2f ∷ 0xfd ∷ []

abbrev pub snappy_magic : List ℕ
snappy_magic = 0xff ∷ 0x06 ∷ 0x00 ∷ 0x00 ∷ 0x73 ∷ 0x4e ∷ 0x61 ∷ 0x50 ∷ 0x70 ∷ 0x59 ∷ []

pub detect : List ℕ → Option CompressionFormat
detect bytes =
    if starts_with bytes gzip_magic
    then some gzip
    else if starts_with bytes lz4_magic || starts_with bytes lz4_legacy_magic
    then some lz4
    else if starts_with bytes zstd_magic
    then some zstd
    else if starts_with bytes snappy_magic
    then some snappy
    else none
