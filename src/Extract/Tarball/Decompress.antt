-- ===== src/Extract/Tarball/Decompress.antt =====
-- `decompress_gzip_members` of src/extract/tarball.rs. The `MultiGzDecoder` of the crate flate2 is a
-- parameter.
use ziftsieve.Base.{ℕ, ◌+◌, List, [], ◌∷◌, ◌++◌, length, ltb, usize_max, Option, none, some}
use ziftsieve.Base.{
  Outcome, ok, err, ◌>>◌, refuse, loop, Next, again, done, invalid_data, io, tarball_size_overflow,
  tarball_too_large,
}
use ziftsieve.Extract.Tarball.{max_tarball_bytes}

-- A decoder whose `read` fills a chunk of a given size: it gives the bytes, or an I/O error.
pub record MultiGz : Type 1 where
  pub Decoder : Type 0
  pub decoder : List ℕ → Decoder
  pub read : Decoder → ℕ → Option (List ℕ × Decoder)

module _ (gz : MultiGz) where
  pub record Reading : Type 0 where
    pub decoder : gz.Decoder
    pub out : List ℕ

  -- What `read` gave back; `size` is the length of the compressed data.
  unfoldable pub after_read :
      ℕ → List ℕ → Option (List ℕ × gz.Decoder) → Outcome (Next Reading (List ℕ))
  after_read size out none = err io
  after_read size out (some ([], decoder)) = ok (done out)
  after_read size out (some (b ∷ bytes, decoder)) = do
    let new_len = length out + length (b ∷ bytes)
    refuse (ltb usize_max new_len) (invalid_data size tarball_size_overflow)
    refuse (ltb max_tarball_bytes new_len) (invalid_data size tarball_too_large)
    ok (again (record { decoder = decoder; out = out ++ (b ∷ bytes) }))

  unfoldable pub read_round : ℕ → Reading → Outcome (Next Reading (List ℕ))
  read_round size s = after_read size s.out (gz.read s.decoder 16384)

  -- Every round but the last adds a byte, and the limit stops the loop.
  unfoldable pub decompress_gzip_members : List ℕ → Outcome (List ℕ)
  decompress_gzip_members bytes =
      loop (max_tarball_bytes + 2) (read_round (length bytes))
        (record { decoder = gz.decoder bytes; out = [] })
