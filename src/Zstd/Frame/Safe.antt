-- ===== src/Zstd/Frame/Safe.antt =====
-- `parse_frame_header` of src/zstd/frame.rs on any bytes.
use ziftsieve.Base.{
  ℕ, ◌+◌, ◌-◌, ◌≤◌, ◌<◌, ◌≡◌, refl, arith, List, length, ltb, ltb→ge, leb→gt, ◌==◌, Reason,
  index_found, slice-Ensures, loop_rule, Progress, Ensures, returns, fails, Ensures-bind,
  Ensures-refuse, Ensures-if, Ensures-step,
}
use ziftsieve.Block.{same_bytes}
use ziftsieve.Extract.{zstd_magic}
use ziftsieve.Zstd.Frame.{
  Parsed, FrameScan, skip_field, is_skippable, parse_standard_frame_header, skip_frame, frame_at,
  frame_round, parse_frame_header,
}

-- Behind a header, or where no header is, and within the bytes.
abbrev pub Placed : List ℕ → ℕ → Parsed → Type 0
Placed bytes pos p = (pos ≤ p.pos) × (p.pos ≤ length bytes)

module _ (bytes : List ℕ) where
  skip_field-Ensures :
      (pos size : ℕ) (reason : Reason)
      → Ensures
          (λ end. (end ≡ pos + size) × (end ≤ length bytes))
          (skip_field bytes pos size reason)
  unfolding skip_field
  skip_field-Ensures pos size reason =
      Ensures-refuse _ _ λ inside. returns (refl, ltb→ge _ _ inside)

  parse_standard_frame_header-Placed :
      (pos : ℕ) → Ensures (Placed bytes pos) (parse_standard_frame_header bytes pos)
  unfolding parse_standard_frame_header
  parse_standard_frame_header-Placed pos = Ensures-refuse _ _ λ inside.
      let (fh_desc, found, _) = index_found bytes (pos + 4) (leb→gt _ _ inside) in
      Ensures-step _ found (
        Ensures-refuse _ _ λ _. Ensures-bind (skip_field-Ensures (pos + 5) _ _) λ window k.
          Ensures-bind (skip_field-Ensures window _ _) λ dictionary l.
            Ensures-bind (skip_field-Ensures dictionary _ _)
              λ end m. returns (omega (arith, k.0, l.0, m.0), m.1))

  skip_frame-Ensures :
      (pos : ℕ) → Ensures (λ end. (pos < end) × (end ≤ length bytes)) (skip_frame bytes pos)
  unfolding skip_frame
  skip_frame-Ensures pos = Ensures-refuse _ _ λ short.
      let inside : pos + 8 ≤ length bytes = ltb→ge _ _ short in
      let (s0, e0, _) = index_found bytes (pos + 4) (omega arith) in
      let (s1, e1, _) = index_found bytes (pos + 5) (omega arith) in
      let (s2, e2, _) = index_found bytes (pos + 6) (omega arith) in
      let (s3, e3, _) = index_found bytes (pos + 7) (omega arith) in
      Ensures-step _ e0 (
        Ensures-step _ e1 (
          Ensures-step _ e2 (
            Ensures-step _ e3 (
              Ensures-refuse _ _
                λ _. Ensures-refuse _ _ λ few. returns (omega arith, ltb→ge _ _ few)))))

  module _ (start_pos : ℕ) where
    abbrev Scanning : FrameScan → Type 0
    Scanning s = (start_pos ≤ s.pos) × (s.pos ≤ length bytes) × (s.iterations ≤ 3)

    abbrev rounds_left : FrameScan → ℕ
    rounds_left s = 3 - s.iterations

    frame_at-Scanning :
        (s : FrameScan)
        → Scanning s
        → s.iterations < 3
        → s.pos + 4 ≤ length bytes
        → Ensures
            (Progress Scanning (Placed bytes start_pos) rounds_left s)
            (frame_at bytes start_pos s)
    unfolding frame_at
    frame_at-Scanning s p few inside =
        Ensures-bind (slice-Ensures bytes s.pos (s.pos + 4) (omega arith) inside) λ magic _.
          Ensures-if (same_bytes magic zstd_magic)
            (λ _.
              Ensures-bind (parse_standard_frame_header-Placed s.pos)
                λ header k. returns (omega (arith, p.0, k.0), k.1))
            (λ _.
              let (b0, e0, _) = index_found bytes s.pos (omega arith) in
              let (b1, e1, _) = index_found bytes (s.pos + 1) (omega arith) in
              let (b2, e2, _) = index_found bytes (s.pos + 2) (omega arith) in
              let (b3, e3, _) = index_found bytes (s.pos + 3) (omega arith) in
              Ensures-step _ e0 (
                Ensures-step _ e1 (
                  Ensures-step _ e2 (
                    Ensures-step _ e3 (
                      Ensures-if (is_skippable b0 b1 b2 b3)
                        (λ _. Ensures-bind (skip_frame-Ensures s.pos) λ end k.
                          returns (
                            (omega (arith, p.0, k.0), k.1, omega (arith, few)),
                            omega (arith, few),
                          ))
                        (λ _.
                          Ensures-if (ltb 0 start_pos) (λ _. returns (p.0, p.1)) (λ _. fails)))))))

    frame_round-Scanning :
        (s : FrameScan)
        → Scanning s
        → Ensures
            (Progress Scanning (Placed bytes start_pos) rounds_left s)
            (frame_round bytes start_pos s)
    unfolding frame_round
    frame_round-Scanning s p = Ensures-refuse _ _ λ few.
        Ensures-if (s.pos == length bytes) (λ _. returns (p.0, p.1))
          (λ _.
            Ensures-if (ltb (length bytes) (s.pos + 4))
              (λ _. Ensures-if (ltb 0 start_pos) (λ _. returns (p.0, p.1)) (λ _. fails))
              (λ inside. frame_at-Scanning s p (leb→gt _ _ few) (ltb→ge _ _ inside)))

    -- On any bytes, from any position within them, the `parse_frame_header` of Zstd ends without a
    -- panic, and a position that it returns is not before the one it is given and within the bytes.
    pub parse_frame_header-Placed :
        start_pos ≤ length bytes
        → Ensures (Placed bytes start_pos) (parse_frame_header bytes start_pos)
    unfolding parse_frame_header
    parse_frame_header-Placed within = Ensures-refuse _ _ λ _.
        loop_rule Scanning (Placed bytes start_pos) rounds_left (frame_round bytes start_pos)
          frame_round-Scanning 4 _ (omega arith) (omega arith, within, omega arith)
