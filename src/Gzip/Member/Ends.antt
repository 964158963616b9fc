-- ===== src/Gzip/Member/Ends.antt =====
-- The loop of `parse_gzip_member` of src/gzip/header.rs that decompresses a member: where it stops.
use ziftsieve.Base.{
  ℕ, zero, suc, ◌+◌, ◌-◌, ◌≤◌, ◌<◌, ◌≡◌, refl, arith, List, Bool-cases, inl, inr, ltb, ltb→lt,
  ltb→ge, ne→==, ◌==◌, false, saturating_add, Option, none, some, Outcome, ok, err, block_too_large,
  io, refuse, ◌>>=◌, ◌>>◌, loop, next, Ensures, returns, fails,
}
use ziftsieve.Gzip.Deflate.Stream.{max_total_literals}
use ziftsieve.Gzip.Member.{
  Libraries, Decompression, after_read, decompress_round, check_decompression,
}

module _ (libraries : Libraries) where
  -- From `start` on the decoder has given chunks with so many bytes, none of them empty and not too
  -- many together.
  pub data Reads (start : libraries.GzDecoder) : libraries.GzDecoder → ℕ → Type 0 where
    fresh : Reads start start 0
    chunk :
        {d e : libraries.GzDecoder} {total n : ℕ}
        → Reads start d total
        → libraries.read d 16384 ≡ some (n, e)
        → 0 < n
        → total + n ≤ max_total_literals
        → Reads start e (total + n)

  -- What comes behind such chunks, and the outcome that belongs to it.
  pub data Ends (start : libraries.GzDecoder) : Outcome (Unit {0}) → Type 0 where
    io_error :
        {d : libraries.GzDecoder} {total : ℕ}
        → Reads start d total
        → libraries.read d 16384 ≡ none
        → Ends start (err io)
    emptied :
        {d e : libraries.GzDecoder} {total : ℕ}
        → Reads start d total
        → libraries.read d 16384 ≡ some (0, e)
        → Ends start (ok tt)
    over_limit :
        {d e : libraries.GzDecoder} {total n : ℕ}
        → Reads start d total
        → libraries.read d 16384 ≡ some (n, e)
        → max_total_literals < total + n
        → Ends start (err (block_too_large (saturating_add total n) max_total_literals))

  module _ (start : libraries.GzDecoder) where
    -- The answer to `read`, and the rounds behind it.
    answer-Ends :
        (fuel : ℕ) (s : Decompression libraries) (answer : Option (ℕ × libraries.GzDecoder))
        → Reads start s.decoder s.decompressed
        → libraries.read s.decoder 16384 ≡ answer
        → s.decompressed ≤ max_total_literals
        → ((s' : Decompression libraries)
            → Reads start s'.decoder s'.decompressed
            → s.decompressed < s'.decompressed
            → s'.decompressed ≤ max_total_literals
            → Ends start (loop fuel (decompress_round libraries) s'))
        → Ends start
            (after_read libraries s answer >>= next (loop fuel (decompress_round libraries)))
    unfolding after_read refuse ◌>>=◌ ◌>>◌
    answer-Ends fuel s none r e few rest = io_error r e
    answer-Ends fuel s (some (zero, d)) r e few rest = emptied r e
    answer-Ends fuel s (some (suc n, d)) r e few rest =
        let no_chunk : (suc n == 0) ≡ false = ne→== (suc n) 0 (λ z. omega (arith, z)) in
        elim (Bool-cases (ltb max_total_literals (saturating_add s.decompressed (suc n)))) [
          | inl over ↦ rw (no_chunk, over) (over_limit r e (omega (arith, ltb→lt _ _ over)))
          | inr under ↦
              let room : s.decompressed + suc n ≤ max_total_literals =
                omega (arith, ltb→ge _ _ under) in
              let sum : saturating_add s.decompressed (suc n) ≡ s.decompressed + suc n =
                omega (arith, room) in
              rw (no_chunk, under, sum)
                (rest (record { decoder = d; decompressed = s.decompressed + suc n })
                  (chunk r e (omega arith) room) (omega arith) room)
        ]

    rounds-Ends :
        (fuel : ℕ) (s : Decompression libraries)
        → max_total_literals + 1 - s.decompressed < fuel
        → Reads start s.decoder s.decompressed
        → s.decompressed ≤ max_total_literals
        → Ends start (loop fuel (decompress_round libraries) s)
    unfolding loop decompress_round
    rounds-Ends zero s enough r few = absurd (omega arith)
    rounds-Ends (suc fuel) s enough r few =
        answer-Ends fuel s _ r refl few λ s' r' more few'. rounds-Ends fuel s' (omega arith) r' few'

  -- Whatever the gzip decoder answers, `check_decompression` reads chunks that are not empty and
  -- have at most 256 MiB together, and behind them ends in one of three ways: with an I/O error,
  -- where the decoder gives one; with success, where it gives an empty chunk; and as too large,
  -- with the sum, where a chunk goes over 256 MiB.
  pub check_decompression-Ends :
      (member_data : List ℕ)
      → Ends (libraries.gz_decoder member_data) (check_decompression libraries member_data)
  unfolding check_decompression
  check_decompression-Ends member_data =
      rounds-Ends (libraries.gz_decoder member_data) (max_total_literals + 2) _ (omega arith) fresh
        (omega arith)

  pub Ends-Ensures :
      {start : libraries.GzDecoder} {o : Outcome (Unit {0})} → Ends start o → Ensures (λ u. Unit) o
  Ends-Ensures (io_error r e) = fails
  Ends-Ensures (emptied r e) = returns tt
  Ends-Ensures (over_limit r e over) = fails
