-- ===== src/Lz4/RoundTrip.antt =====
-- `extract_literals` of src/lz4.rs on blocks of the format.
use ziftsieve.Base.{
  take-nil, ℕ, zero, suc, ◌+◌, ◌-◌, ◌/◌, ◌%◌, ◌≤◌, ◌<◌, ◌≡◌, refl, ap, ◌∙◌, arith, List, [], ◌∷◌,
  ◌++◌, length, take, drop, ok, loop, min, again, done, ◌>>=◌, ◌>>◌, ltb, gt→leb, ge→ltb, lt→ltb,
  ltb→ge, ltb→lt, index-rest, rest-one, rest_bound, rest-run, slice-rest, Bool-cases, inl, inr,
  take-min, take-append_split, append-nil, append_assoc, All, length-append, loop_again, loop_done,
}
use ziftsieve.Lz4.{
  Scan, copy_run, skip_match, sequence, extract_round, extract_literals, max_block_size,
  max_sequences_per_block,
}
use ziftsieve.Lz4.Format.{
  Sequence, token, long_part, encode_literals, encode_block, all_literals, Fits,
}
use ziftsieve.Lz4.Length.{field_length-long_part}

module _ (bytes rest : List ℕ) where
  copy_run_lem :
      (pos room : ℕ) (run literals : List ℕ)
      → drop pos bytes ≡ run ++ rest
      → pos + length run ≤ length bytes
      → copy_run bytes pos (min (length run) room) literals ≡ ok (literals ++ take room run)
  unfolding copy_run ◌>>=◌
  copy_run_lem pos room run literals e l = elim (Bool-cases (ltb 0 (min (length run) room))) [
    | inl some_bytes ↦
        rw
          (
            some_bytes,
            slice-rest bytes pos (min (length run) room) run rest e (omega arith) (omega arith),
            take-min room run,
          )
          refl
    | inr no_bytes ↦
        let none_left : min (length run) room ≡ 0 =
          omega (arith, ltb→ge 0 (min (length run) room) no_bytes) in
        rw no_bytes (ap ok (rw (← take-min room run, none_left, append-nil) refl))
  ]

  module _ (pos max_output count match_len : ℕ) (run literals : List ℕ) where
    abbrev run_end : ℕ
    run_end = pos + 1 + length (long_part (length run)) + length run

    run_rest :
        drop pos bytes ≡ encode_literals match_len run rest
        → (drop (pos + 1) bytes ≡ long_part (length run) ++ (run ++ rest))
          × (drop (pos + 1 + length (long_part (length run))) bytes ≡ run ++ rest)
          × (drop run_end bytes ≡ rest)
    unfolding encode_literals
    run_rest e =
        let a : drop (pos + 1) bytes ≡ long_part (length run) ++ (run ++ rest) =
          rest-one bytes pos _ _ e in
        let b = rest-run bytes (pos + 1) (long_part (length run)) (run ++ rest) a in
        (a, b, rest-run bytes _ run rest b)

    run_end_bound : drop pos bytes ≡ encode_literals match_len run rest → run_end ≤ length bytes
    unfolding encode_literals
    run_end_bound e = omega (
      arith,
      rest_bound bytes pos _ e,
      length-append (long_part (length run)) (run ++ rest),
      length-append run rest,
    )

    -- One round, up to the match section.
    sequence-encode_literals :
        drop pos bytes ≡ encode_literals match_len run rest
        → length run ≤ max_block_size
        → count + 1 < max_sequences_per_block
        → sequence bytes max_output
            (record { pos = pos; literals = literals; sequence_count = count })
          ≡ (skip_match bytes (min match_len 15) run_end >>= λ p. ok (
              again (record {
                pos = p;
                literals = literals ++ take (max_output - length literals) run;
                sequence_count = count + 1;
              })))
    unfolding sequence ◌>>◌ encode_literals
    sequence-encode_literals e l c =
        let (a, b, d) = run_rest e in
        let fits : run_end ≤ length bytes = run_end_bound e in
        let high : token (length run) match_len / 16 ≡ min (length run) 15 = omega arith in
        let low : token (length run) match_len % 16 ≡ min match_len 15 = omega arith in
        rw (
          gt→leb max_sequences_per_block (count + 1) c,
          index-rest bytes pos _ _ e,
          high,
          field_length-long_part bytes (run ++ rest) (pos + 1) (length run) a l,
          ge→ltb max_block_size (length run) l,
          ge→ltb (length bytes) run_end fits,
          copy_run_lem _ (max_output - length literals) run literals b fits,
          low,
        )

skip_match_last :
    (bytes : List ℕ) (nibble p : ℕ) → drop p bytes ≡ [] → skip_match bytes nibble p ≡ ok p
unfolding skip_match
skip_match_last bytes nibble p e =
    rw (ge→ltb p (length bytes) (omega (arith, rest_bound bytes p [] e)))

module _ (bytes rest : List ℕ) (p low high m : ℕ) where
  skip_match_lem :
      drop p bytes ≡ low ∷ high ∷ (long_part m ++ rest)
      → m ≤ max_block_size
      → skip_match bytes (min m 15) p ≡ ok (p + 2 + length (long_part m))
  unfolding skip_match ◌>>◌
  skip_match_lem e l =
      let r : length bytes - p ≡ _ = rest_bound bytes p _ e in
      rw (
        lt→ltb p (length bytes) (omega arith),
        ge→ltb (length bytes) (p + 2) (omega arith),
        field_length-long_part bytes rest (p + 2) m (rest-run bytes p (low ∷ high ∷ []) _ e) l,
      )

  skip_match_rest :
      drop p bytes ≡ low ∷ high ∷ (long_part m ++ rest)
      → drop (p + 2 + length (long_part m)) bytes ≡ rest
  skip_match_rest e =
      rest-run bytes (p + 2) (long_part m) rest (rest-run bytes p (low ∷ high ∷ []) _ e)

module _ (bytes : List ℕ) (max_output : ℕ) where
  -- The state after `seen` has been passed over.
  abbrev seen_to : ℕ → List ℕ → ℕ → Scan
  seen_to pos seen count = record {
    pos = pos;
    literals = take max_output seen;
    sequence_count = count;
  }

  -- The cap is reached: the loop ends, whatever is left.
  capped_round :
      (pos count : ℕ) (seen more : List ℕ)
      → max_output ≤ length (take max_output seen)
      → extract_round bytes max_output (seen_to pos seen count)
        ≡ ok (done (take max_output (seen ++ more)))
  unfolding extract_round
  capped_round pos count seen more h =
      let none_left : max_output - length (take max_output seen) ≡ 0 = omega arith in
      let kept : take max_output (seen ++ more) ≡ take max_output seen =
        take-append_split max_output seen more ∙ rw none_left (append-nil _) in
      rw kept (ground arith)

  end_round :
      (count : ℕ) (seen : List ℕ)
      → extract_round bytes max_output (seen_to (length bytes) seen count)
        ≡ ok (done (take max_output seen))
  unfolding extract_round
  end_round count seen = rw (ge→ltb (length bytes) (length bytes) (omega arith))

  open_round :
      (pos count : ℕ) (seen : List ℕ)
      → pos < length bytes
      → length (take max_output seen) < max_output
      → extract_round bytes max_output (seen_to pos seen count)
        ≡ sequence bytes max_output (seen_to pos seen count)
  unfolding extract_round
  open_round pos count seen p h = rw (lt→ltb pos (length bytes) p, lt→ltb _ max_output h)

  -- A round on a last sequence, and on one with a match.
  last_round :
      (pos count : ℕ) (seen last : List ℕ)
      → drop pos bytes ≡ encode_block [] last
      → length (take max_output seen) < max_output
      → length last ≤ max_block_size
      → count + 1 < max_sequences_per_block
      → extract_round bytes max_output (seen_to pos seen count)
        ≡ ok (again (seen_to (length bytes) (seen ++ last) (count + 1)))
  unfolding encode_block ◌>>=◌
  last_round pos count seen last e h l c =
      let (a, b, d) = run_rest bytes [] pos max_output count 0 last [] e in
      let fits = run_end_bound bytes [] pos max_output count 0 last [] e in
      let at_end : run_end bytes [] pos max_output count 0 last [] ≡ length bytes =
        omega (arith, rest_bound bytes _ [] d) in
      open_round pos count seen (unfold encode_literals in omega (arith, rest_bound bytes pos _ e))
        h
      ∙ sequence-encode_literals bytes [] pos max_output count 0 last (take max_output seen) e l c
      ∙ rw (skip_match_last bytes (min 0 15) _ d, at_end, take-append_split)

  match_round :
      (s : Sequence) (ss : List Sequence) (pos count : ℕ) (seen last : List ℕ)
      → drop pos bytes ≡ encode_block (s ∷ ss) last
      → length (take max_output seen) < max_output
      → Fits s
      → count + 1 < max_sequences_per_block
      → (pos' : ℕ) × (extract_round bytes max_output (seen_to pos seen count)
          ≡ ok (again (seen_to pos' (seen ++ s.literals) (count + 1))))
        × (drop pos' bytes ≡ encode_block ss last)
  unfolding encode_block ◌>>=◌
  match_round s ss pos count seen last e h l c =
      let rest = s.low ∷ s.high ∷ (long_part s.match_len ++ encode_block ss last) in
      let (a, b, d) = run_rest bytes rest pos max_output count s.match_len s.literals [] e in
      (
        _,
        open_round pos count seen
              (unfold encode_literals in omega (arith, rest_bound bytes pos _ e)) h
            ∙ sequence-encode_literals bytes rest pos max_output count s.match_len s.literals
                (take max_output seen) e l.0 c
            ∙ rw (
              skip_match_lem bytes (encode_block ss last) _ s.low s.high s.match_len d l.1,
              take-append_split,
            ),
        skip_match_rest bytes (encode_block ss last) _ s.low s.high s.match_len d,
      )

  scan_block :
      (ss : List Sequence) (last seen : List ℕ) (pos count fuel : ℕ)
      → drop pos bytes ≡ encode_block ss last
      → All Fits ss
      → length last ≤ max_block_size
      → count + length ss + 1 < max_sequences_per_block
      → length ss + 1 < fuel
      → loop fuel (extract_round bytes max_output) (seen_to pos seen count)
        ≡ ok (take max_output (seen ++ all_literals ss last))
  unfolding all_literals
  scan_block ss last seen pos count zero e fit l c f = absurd (omega arith)
  scan_block [] last seen pos count (suc zero) e fit l c f = absurd (omega arith)
  scan_block [] last seen pos count (suc (suc fuel)) e fit l c f =
      elim (Bool-cases (ltb (length (take max_output seen)) max_output)) [
        | inl more ↦
            loop_again (suc fuel) (extract_round bytes max_output) _ _
              (last_round pos count seen last e (ltb→lt _ _ more) l (omega arith))
            ∙ loop_done fuel (extract_round bytes max_output) _ _
                (end_round (count + 1) (seen ++ last))
        | inr full ↦
            loop_done (suc fuel) (extract_round bytes max_output) _ _
              (capped_round pos count seen _ (ltb→ge _ _ full))
      ]
  scan_block (s ∷ ss) last seen pos count (suc fuel) e fit l c f =
      elim (Bool-cases (ltb (length (take max_output seen)) max_output)) [
        | inl more ↦
            let (pos', a, b) =
              match_round s ss pos count seen last e (ltb→lt _ _ more) fit.0 (omega arith) in
            loop_again fuel (extract_round bytes max_output) _ _ a
            ∙ scan_block ss last (seen ++ s.literals) pos' (count + 1) fuel b fit.1 l (omega arith)
                (omega arith)
            ∙ rw (append_assoc seen s.literals (all_literals ss last))
        | inr full ↦
            loop_done fuel (extract_round bytes max_output) _ _
              (capped_round pos count seen _ (ltb→ge _ _ full))
      ]

length_blocks : (ss : List Sequence) (last : List ℕ) → length ss < length (encode_block ss last)
unfolding encode_block encode_literals
length_blocks [] last = omega arith
length_blocks (s ∷ ss) last = omega (
  arith,
  length_blocks ss last,
  length-append (long_part (length s.literals))
      (s.literals ++ s.low ∷ s.high ∷ (long_part s.match_len ++ encode_block ss last)),
  length-append s.literals (s.low ∷ s.high ∷ (long_part s.match_len ++ encode_block ss last)),
  length-append (long_part s.match_len) (encode_block ss last),
)

-- On the bytes of any LZ4 block of the format with fewer than 99,999 sequences and lengths up to 4
-- MiB, `extract_literals` returns the literals of its sequences, cut at `max_output`.
pub extract_literals-encode_block :
    (max_output : ℕ) (ss : List Sequence) (last : List ℕ)
    → All Fits ss
    → length last ≤ max_block_size
    → length ss + 1 < max_sequences_per_block
    → extract_literals (encode_block ss last) max_output
      ≡ ok (take max_output (all_literals ss last))
unfolding extract_literals
extract_literals-encode_block max_output ss last fit l c = rw take-nil at (
    scan_block (encode_block ss last) max_output ss last [] 0 0 (length (encode_block ss last) + 1)
      refl fit l (omega arith) (omega (arith, length_blocks ss last)))
