-- ===== src/Gzip/Extract/RoundTrip.antt =====
-- Gzip members of stored blocks one behind the other, and `extract_literals` of src/gzip/mod.rs on
-- them.
use ziftsieve.Base.{
  ℕ, zero, suc, ◌+◌, ◌≤◌, ◌<◌, ◌≡◌, ◌≢◌, sym, ap, ◌∙◌, arith, List, [], ◌∷◌, ◌++◌, All, length,
  length-append, append-nil, append_assoc, FitsIsize, rest_bound, ltb, gt→leb, ne→==, loop, Returns,
  gives, Returns-bind, Returns-map, Returns-refuse, Returns-if, Returns-loop, onward, ended,
}
use ziftsieve.Gzip.Bits.{Bytes}
use ziftsieve.Gzip.Reader.{BitReader, remaining_bytes}
use ziftsieve.Gzip.Reader.StandsAt.{StandsAt, new-StandsAt}
use ziftsieve.Gzip.Header.Format.{Header, FitsHeader}
use ziftsieve.Gzip.Header.RoundTrip.{length-encode_header}
use ziftsieve.Gzip.Deflate.Tables.{max_deflate_blocks_per_member}
use ziftsieve.Gzip.Deflate.Stream.{max_total_literals}
use ziftsieve.Gzip.Deflate.Stored.{literals_of, sum_lengths, encode_runs}
use ziftsieve.Gzip.Member.{Libraries}
use ziftsieve.Gzip.Member.RoundTrip.{
  Trailer, checksum, encode_trailer, encode_member, hash_runs, parse_gzip_member-encode_member,
}
use ziftsieve.Gzip.Extract.{Extraction, member_round, extract_literals}

-- A member with a stored block for each run of bytes.
pub record StoredMember : Type 0 where
  pub header : Header
  pub run : List ℕ
  pub runs : List (List ℕ)
  pub trailer : Trailer

unfoldable pub encode_members : List StoredMember → List ℕ
encode_members [] = []
encode_members (m ∷ members) =
    encode_member m.header m.run m.runs m.trailer (encode_members members)

abbrev pub all_runs : List StoredMember → List (List ℕ)
all_runs [] = []
all_runs (m ∷ members) = (m.run ∷ m.runs) ++ all_runs members

sum_lengths-append :
    (xs ys : List (List ℕ)) → sum_lengths (xs ++ ys) ≡ sum_lengths xs + sum_lengths ys
sum_lengths-append [] ys = omega arith
sum_lengths-append (x ∷ xs) ys = omega (arith, sum_lengths-append xs ys)

some_bytes :
    (members : List StoredMember) → 0 < length members → length (encode_members members) ≢ 0
unfolding encode_members
some_bytes [] h = absurd (omega (arith, h))
some_bytes (m ∷ members) h = omega (
  arith,
  length-encode_header m.header
      (encode_runs m.run m.runs (encode_trailer m.trailer (encode_members members))),
)

module _ (libraries : Libraries) where
  -- The header and the runs fit their fields, and the trailer has the checksum of the runs.
  abbrev pub FitsMember : StoredMember → Type 0
  FitsMember m =
      FitsHeader m.header
      × All (λ run. length run < 65536) (m.run ∷ m.runs)
      × (checksum m.trailer
          ≡ libraries.finalize (hash_runs libraries libraries.hasher (m.run ∷ m.runs)))

  module _ (bytes : List ℕ) (h : Bytes bytes) (fits : FitsIsize bytes) where
    bytes_left : (r : BitReader) (ys : List ℕ) → StandsAt bytes ys r → remaining_bytes r ≡ length ys
    bytes_left r ys s = omega (
      arith,
      rest_bound bytes r.byte_pos _ s.left,
      ap length s.valid.same,
      s.valid.sync,
      s.at_byte,
      s.valid.within,
      s.valid.room,
    )

    members_loop :
        (members : List StoredMember) (fuel : ℕ) (s : Extraction)
        → StandsAt bytes (encode_members members) s.reader
        → All FitsMember members
        → length s.blocks + length (all_runs members) ≤ max_deflate_blocks_per_member
        → s.total_literals + sum_lengths (all_runs members) ≤ max_total_literals
        → s.members + length members < 1024
        → length members < fuel
        → Returns
            (λ blocks. literals_of blocks ≡ literals_of s.blocks ++ all_runs members)
            (loop fuel (member_round libraries) s)
    unfolding member_round encode_members
    members_loop members zero s at fit few small rounds f = absurd (omega (arith, f))
    members_loop [] (suc fuel) s at fit few small rounds f = Returns-loop s (
        Returns-if (ltb 0 (remaining_bytes s.reader))
          (λ more. absurd (ground (arith, bytes_left s.reader [] at)))
          (λ _. gives (ended (sym (append-nil (literals_of s.blocks))))))
    members_loop (m ∷ members) (suc fuel) s at fit few small rounds f = Returns-loop s (
        Returns-if (ltb 0 (remaining_bytes s.reader))
          (λ _.
            let runs : List (List ℕ) = m.run ∷ m.runs in
            Returns-bind
              (parse_gzip_member-encode_member libraries bytes h fits s.reader m.header m.run
                (encode_members members) m.runs m.trailer s.blocks s.total_literals at fit.0.0
                fit.0.1 (omega (arith, few, length-append {0} runs (all_runs members)))
                (omega (arith, small, sum_lengths-append runs (all_runs members))) fit.0.2)
              λ next p. Returns-refuse _ _ (gt→leb 1024 (s.members + 1) (omega (arith, rounds))) (
                gives (
                  onward (
                    Returns-map
                      (λ blocks e.
                        e
                        ∙ ap (λ ls. ls ++ all_runs members) p.literals
                        ∙ append_assoc (literals_of s.blocks) runs (all_runs members))
                      (members_loop members fuel _ p.at_rest fit.1
                        (omega (arith, few, p.count, length-append {0} runs (all_runs members)))
                        (omega (arith, small, p.sum, sum_lengths-append runs (all_runs members)))
                        (omega (arith, rounds)) (omega (arith, f)))))))
          (λ stop. absurd (
            ground (
              arith,
              bytes_left s.reader _ at,
              length-encode_header m.header
                  (encode_runs m.run m.runs (encode_trailer m.trailer (encode_members members))),
            ))))

  -- On the bytes of 1 to 1,023 gzip members of stored blocks, with any header whose name and
  -- comment have at most 1,024 bytes each and no zero and whose extra data has a length of 16 bits,
  -- with the checksum of their bytes in the trailer, at most 100,000 blocks of 16-bit lengths and
  -- 256 MiB in all, the `extract_literals` of Gzip returns a block for each stored block, with just
  -- its bytes, if the slice is shorter than 2^63 bytes.
  pub extract_literals-encode_members :
      (members : List StoredMember)
      → Bytes (encode_members members)
      → FitsIsize (encode_members members)
      → All FitsMember members
      → 0 < length members
      → length members < 1024
      → length (all_runs members) ≤ max_deflate_blocks_per_member
      → sum_lengths (all_runs members) ≤ max_total_literals
      → Returns
          (λ blocks. literals_of blocks ≡ all_runs members)
          (extract_literals libraries (encode_members members))
  unfolding extract_literals
  extract_literals-encode_members members h fits fit some_member rounds few small =
      Returns-refuse _ _
        (ne→== (length (encode_members members)) 0 (some_bytes members some_member))
        (members_loop (encode_members members) h fits members 1025 _
          (new-StandsAt (encode_members members) h) fit (omega (arith, few)) (omega (arith, small))
          (omega (arith, rounds)) (omega (arith, rounds)))
