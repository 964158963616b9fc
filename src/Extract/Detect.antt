-- ===== src/Extract/Detect.antt =====
-- `CompressionFormat::detect` of src/detect.rs, against the magic numbers of the formats.
use ziftsieve.Base.{
  ℕ, ◌≡◌, refl, ap₂, List, [], ◌∷◌, ◌++◌, Bool, true, false, ◌&&◌, ◌||◌, ◌==◌, ==_iff, Option, some,
  CompressionFormat, lz4, snappy, gzip, zstd, ◌↔◌, if◌then◌else◌, arith,
}
use ziftsieve.Extract.{
  starts_with, detect, gzip_magic, lz4_magic, lz4_legacy_magic, zstd_magic, snappy_magic,
}

-- The bytes begin with a magic number of the format.
pub data HasMagic : CompressionFormat → List ℕ → Type 0 where
  is_gzip : (rest : List ℕ) → HasMagic gzip (gzip_magic ++ rest)
  is_lz4 : (rest : List ℕ) → HasMagic lz4 (lz4_magic ++ rest)
  is_lz4_legacy : (rest : List ℕ) → HasMagic lz4 (lz4_legacy_magic ++ rest)
  is_zstd : (rest : List ℕ) → HasMagic zstd (zstd_magic ++ rest)
  is_snappy : (rest : List ℕ) → HasMagic snappy (snappy_magic ++ rest)

&&-both : (x y : Bool) → (x && y) ≡ true → (x ≡ true) × (y ≡ true)
&&-both true y h = (refl, h)
&&-both false y h = cc

starts_with-prefix :
    (bytes magic : List ℕ)
    → starts_with bytes magic ≡ true
    → (rest : List ℕ) × (bytes ≡ magic ++ rest)
unfolding starts_with
starts_with-prefix bytes [] h = (bytes, refl)
starts_with-prefix [] (m ∷ magic) h = absurd (ground arith)
starts_with-prefix (b ∷ bytes) (m ∷ magic) h =
    let (same, more) = &&-both (b == m) _ h in
    let (rest, e) = starts_with-prefix bytes magic more in (rest, ap₂ ◌∷◌ ((==_iff b m).0 same) e)

-- A found format.
found :
    (bytes magic : List ℕ) (f : CompressionFormat)
    → ((rest : List ℕ) → HasMagic f (magic ++ rest))
    → starts_with bytes magic ≡ true
    → HasMagic f bytes
found bytes magic f is h = let (rest, e) = starts_with-prefix bytes magic h in rw e (is rest)

detect-HasMagic :
    (bytes : List ℕ) (f : CompressionFormat) → HasMagic f bytes → detect bytes ≡ some f
unfolding detect starts_with
detect-HasMagic bytes f (is_gzip rest) = refl
detect-HasMagic bytes f (is_lz4 rest) = refl
detect-HasMagic bytes f (is_lz4_legacy rest) = refl
detect-HasMagic bytes f (is_zstd rest) = refl
detect-HasMagic bytes f (is_snappy rest) = refl

-- One test of `detect`: it finds `f`, or leaves the rest to the next tests.
tested :
    (P : CompressionFormat → Type 0) (b : Bool) (f g : CompressionFormat)
    (o : Option CompressionFormat)
    → (b ≡ true → P f)
    → (o ≡ some g → P g)
    → (if b then some f else o) ≡ some g
    → P g
tested P true f g o hit miss h = rw (some-inj h) at (hit refl)
  where
    some-inj : some f ≡ some g → f ≡ g
    some-inj h = cc
tested P false f g o hit miss h = miss h

either : (x y : Bool) {P : Type 0} → (x ≡ true → P) → (y ≡ true → P) → (x || y) ≡ true → P
either true y f g h = f refl
either false y f g h = g h

-- `detect` finds a format exactly where the bytes begin with one of the magic numbers of that
-- format.
pub detect_iff :
    (bytes : List ℕ) (f : CompressionFormat) → (detect bytes ≡ some f) ↔ HasMagic f bytes
unfolding detect
detect_iff bytes f = (
  tested (λ g. HasMagic g bytes) (starts_with bytes gzip_magic) gzip f _
      (found bytes gzip_magic gzip is_gzip)
      (tested (λ g. HasMagic g bytes)
        (starts_with bytes lz4_magic || starts_with bytes lz4_legacy_magic) lz4 f _
        (either (starts_with bytes lz4_magic) _ (found bytes lz4_magic lz4 is_lz4)
          (found bytes lz4_legacy_magic lz4 is_lz4_legacy))
        (tested (λ g. HasMagic g bytes) (starts_with bytes zstd_magic) zstd f _
          (found bytes zstd_magic zstd is_zstd)
          (tested (λ g. HasMagic g bytes) (starts_with bytes snappy_magic) snappy f _
            (found bytes snappy_magic snappy is_snappy) λ h. absurd (ground arith)))),
  detect-HasMagic bytes f,
)
