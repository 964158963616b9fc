-- ===== src/Lz4/Bounds.antt =====
-- `decode_length` and `extract_literals` of src/lz4.rs on any bytes.
use ziftsieve.Base.{
  sublist-run, length-append, length-take, ◌&&◌, slice_run-Ensures, ltb, sublist-skip, min, ◌+◌,
  Ensures-refuse, Ensures-bind, ◌++◌, drop, Ensures-if, Ensures-map, returns, tests, ℕ, ◌-◌, ◌≤◌,
  ◌<◌, arith, List, length, Ensures, ensures_rules, ensures_rules, tests, index-Ensures, Progress,
  loop_rule,
}
use mathlib.Core.List.{Sublist, sublist-append_left}
use mathlib.Core.List.Sublist
use ziftsieve.Lz4.{
  extract_round, extract_literals, copy_run, sequence, field_length, skip_match, Scan, Cursor,
  length_round, decode_length,
}

-- `decode_length` ends behind at least one byte and within the bytes.
abbrev pub Advanced : List ℕ → ℕ → Cursor → Type 0
Advanced bytes pos c = (pos < c.pos) × (c.pos ≤ length bytes)

module _ (bytes : List ℕ) (pos : ℕ) where
  length_round-Ensures :
      (s : Cursor)
      → pos ≤ s.pos
      → Ensures
          (Progress (λ c. pos ≤ c.pos) (Advanced bytes pos) (λ c. length bytes - c.pos) s)
          (length_round bytes s)
  unfolding length_round
  length_round-Ensures s h = search (ensures_rules, tests, index-Ensures)

  pub decode_length-Ensures :
      (initial : ℕ) → Ensures (Advanced bytes pos) (decode_length bytes pos initial)
  unfolding decode_length
  decode_length-Ensures initial =
      loop_rule _ _ _ _ length_round-Ensures _ _ (omega arith) (omega arith)

module _ (bytes : List ℕ) where
  field_length-Ensures :
      (pos nibble : ℕ)
      → pos ≤ length bytes
      → Ensures (λ c. (pos ≤ c.pos) × (c.pos ≤ length bytes)) (field_length bytes pos nibble)
  unfolding field_length
  field_length-Ensures pos nibble h = search (
    ensures_rules,
    tests,
    Ensures-map
        (λ c (p : Advanced bytes pos c).
          let r : (pos ≤ c.pos) × (c.pos ≤ length bytes) = omega arith in r)
        (decode_length-Ensures bytes pos nibble),
  )

  skip_match-Ensures :
      (match_len pos : ℕ)
      → pos ≤ length bytes
      → Ensures (λ p. (pos ≤ p) × (p ≤ length bytes)) (skip_match bytes match_len pos)
  unfolding skip_match
  skip_match-Ensures match_len pos h = search (ensures_rules, tests, field_length-Ensures)

  -- The literals so far, before the bytes that are left, are a sublist of the block.
  record Scanned (max_output : ℕ) (s : Scan) : Type 0 where
    within : s.pos ≤ length bytes
    capped : length s.literals ≤ max_output
    picked : Sublist (s.literals ++ drop s.pos bytes) bytes

  copy_run-Ensures :
      (max_output : ℕ) (s : Scan) (pos len : ℕ)
      → Scanned max_output s
      → s.pos ≤ pos
      → pos + len ≤ length bytes
      → Ensures
          (λ literals.
            (length literals ≤ max_output) × Sublist (literals ++ drop (pos + len) bytes) bytes)
          (copy_run bytes pos (min len (max_output - length s.literals)) s.literals)
  unfolding copy_run
  copy_run-Ensures max_output s pos len h p q =
      let k = min len (max_output - length s.literals) in
      Ensures-if (ltb 0 k)
        (λ _. Ensures-bind (slice_run-Ensures bytes pos k (omega arith)) λ run r.
          returns {a = s.literals ++ run} (
            rw r (omega (arith, length-append {0}, length-take {0})),
            rw r (
                Sublist.trans (sublist-run s.literals bytes s.pos pos k len p (omega arith))
                  h.picked),
          ))
        (λ _. returns {a = s.literals} (
          h.capped,
          Sublist.trans (sublist-skip s.literals bytes s.pos (pos + len) (omega arith)) h.picked,
        ))

  sequence-Ensures :
      (max_output : ℕ) (s : Scan)
      → Scanned max_output s
      → s.pos < length bytes
      → Ensures
          (Progress
            (Scanned max_output)
            (λ literals. (length literals ≤ max_output) × Sublist literals bytes)
            (λ s. length bytes - s.pos)
            s)
          (sequence bytes max_output s)
  unfolding sequence
  sequence-Ensures max_output s h p = Ensures-refuse _ _ λ _.
      Ensures-bind (index-Ensures bytes s.pos p) λ token _.
        Ensures-bind (field_length-Ensures (s.pos + 1) _ (omega arith)) λ field f.
          Ensures-refuse _ _ λ _. Ensures-refuse _ _ λ fits.
            Ensures-bind
              (copy_run-Ensures max_output s field.pos field.len h (omega arith) (omega tests))
              λ literals c. Ensures-bind (skip_match-Ensures _ _ (omega tests)) λ pos r. returns (
                record {
                  within = r.1;
                  capped = c.0;
                  picked = Sublist.trans (sublist-skip literals bytes _ pos r.0) c.1;
                },
                omega arith,
              )

  extract_round-Ensures :
      (max_output : ℕ) (s : Scan)
      → Scanned max_output s
      → Ensures
          (Progress
            (Scanned max_output)
            (λ literals. (length literals ≤ max_output) × Sublist literals bytes)
            (λ s. length bytes - s.pos)
            s)
          (extract_round bytes max_output s)
  unfolding extract_round
  extract_round-Ensures max_output s h =
      Ensures-if (ltb s.pos (length bytes) && ltb (length s.literals) max_output)
        (λ more. sequence-Ensures max_output s h (ground arith))
        (λ _.
          returns
            (h.capped, Sublist.trans (sublist-append_left s.literals (drop s.pos bytes)) h.picked))

  -- On any bytes and any cap, `extract_literals` ends without a panic, and literals that it returns
  -- are at most `max_output` many and a sublist of the bytes.
  pub extract_literals-Ensures :
      (max_output : ℕ)
      → Ensures
          (λ literals. (length literals ≤ max_output) × Sublist literals bytes)
          (extract_literals bytes max_output)
  unfolding extract_literals
  extract_literals-Ensures max_output =
      loop_rule (Scanned max_output) _ (λ s. length bytes - s.pos) _
        (extract_round-Ensures max_output) _ _ (omega arith)
        (record { within = omega arith; capped = omega arith; picked = Sublist.refl bytes })
