-- ===== src/Gzip/Deflate/Stream/Tiled.antt =====
-- Where the blocks of src/gzip/deflate.rs stand in the bits of the input: in a stream without a
-- gap, and in a file of several members one behind the other.
use ziftsieve.Base.{
  ℕ, ◌+◌, ◌-◌, ◌*◌, ◌/◌, ◌≤◌, ◌≡◌, refl, arith, List, [], ◌∷◌, ◌++◌, min, usize_max,
}
use ziftsieve.Block.{CompressedBlock}

-- A number of bits, as `bit_offset` counts it.
abbrev pub counted : ℕ → ℕ
counted n = min n usize_max

-- The block begins in the byte of the bit `start`, and has as many bytes as the bits up to `stop`
-- fill. Its header has three bits.
pub record Spans (start stop : ℕ) (block : CompressedBlock) : Type 0 where
  pub header : start + 3 ≤ stop
  pub offset : block.compressed_offset ≡ counted start / 8
  pub len : block.compressed_len ≡ (counted stop - counted start + 7) / 8

-- The blocks fill the bits from `start` to `stop`.
abbrev pub Tiled : ℕ → List CompressedBlock → ℕ → Type 0
Tiled start [] stop = start ≡ stop
Tiled start (block ∷ blocks) stop = (next : ℕ) × Spans start next block × Tiled next blocks stop

-- The blocks lie one behind the other between the bits `start` and `stop`.
abbrev pub Spaced : ℕ → List CompressedBlock → ℕ → Type 0
Spaced start [] stop = start ≤ stop
Spaced start (block ∷ blocks) stop =
    (first : ℕ) × (next : ℕ) × (start ≤ first) × Spans first next block × Spaced next blocks stop

pub Tiled-append :
    (start stop next : ℕ) (blocks : List CompressedBlock) (block : CompressedBlock)
    → Tiled start blocks stop
    → Spans stop next block
    → Tiled start (blocks ++ block ∷ []) next
Tiled-append start stop next [] block t s = (next, rw t s, refl)
Tiled-append start stop next (b ∷ bs) block t s =
    (t.0, t.1, Tiled-append t.0 stop next bs block t.2 s)

Tiled-Spaced :
    (start first stop end : ℕ) (blocks : List CompressedBlock)
    → start ≤ first
    → Tiled first blocks stop
    → stop ≤ end
    → Spaced start blocks end
Tiled-Spaced start first stop end [] l t r = omega arith
Tiled-Spaced start first stop end (b ∷ bs) l t r =
    (first, t.0, l, t.1, Tiled-Spaced t.0 t.0 stop end bs (omega arith) t.2 r)

-- The blocks of a stream, behind those of earlier ones.
pub Spaced-append :
    (start middle first stop end : ℕ) (blocks more : List CompressedBlock)
    → Spaced start blocks middle
    → middle ≤ first
    → Tiled first more stop
    → stop ≤ end
    → Spaced start (blocks ++ more) end
Spaced-append start middle first stop end [] more s l t r =
    Tiled-Spaced start first stop end more (omega arith) t r
Spaced-append start middle first stop end (b ∷ bs) more s l t r =
    (s.0, s.1, s.2, s.3, Spaced-append s.1 middle first stop end bs more s.4 l t r)

pub Spaced-later :
    (start stop end : ℕ) (blocks : List CompressedBlock)
    → Spaced start blocks stop
    → stop ≤ end
    → Spaced start blocks end
Spaced-later start stop end [] s l = omega arith
Spaced-later start stop end (b ∷ bs) s l = (s.0, s.1, s.2, s.3, Spaced-later s.1 stop end bs s.4 l)

-- The bytes of a block, where its bits end within `n` bytes.
pub Spans-within :
    (n start stop : ℕ) (block : CompressedBlock)
    → Spans start stop block
    → stop ≤ 8 * n
    → block.compressed_offset + block.compressed_len ≤ n
Spans-within n start stop block s l = omega (arith, s.header, s.offset, s.len)
