-- ===== src/Gzip/Member/RoundTrip.antt =====
-- A gzip member of stored blocks, written down on its own, and `parse_gzip_member` of
-- src/gzip/header.rs on it.
use ziftsieve.Base.{
  ℕ, zero, suc, ◌+◌, ◌-◌, ◌*◌, ◌≤◌, ◌<◌, ◌≡◌, refl, sym, ap, ◌∙◌, arith, List, [], ◌∷◌, ◌++◌, All,
  length, take, drop, drop-append, take-append, append-nil, ZiftError, refuse, ok, FitsIsize,
  slice_lem, ◌==◌, ==_refl, not, Returns, gives, Returns-bind, Returns-step,
}
use ziftsieve.Block.{CompressedBlock}
use ziftsieve.Gzip.Bits.{Bytes}
use ziftsieve.Gzip.Reader.{BitReader}
use ziftsieve.Gzip.Reader.StandsAt.{StandsAt, align_to_byte-StandsAt, read_u32_le-StandsAt}
use ziftsieve.Gzip.Header.Format.{Header, encode_header, FitsHeader}
use ziftsieve.Gzip.Header.RoundTrip.{parse_gzip_header-StandsAt}
use ziftsieve.Gzip.Deflate.Tables.{max_deflate_blocks_per_member}
use ziftsieve.Gzip.Deflate.Stream.{max_total_literals}
use ziftsieve.Gzip.Deflate.Stored.{
  encode_runs, literals_of, sum_lengths, parse_deflate_stream-encode_runs,
}
use ziftsieve.Gzip.Member.{Libraries, Member, hash_blocks, parse_gzip_member}

literals_of-drop :
    (n : ℕ) (blocks : List CompressedBlock)
    → literals_of (drop n blocks) ≡ drop n (literals_of blocks)
literals_of-drop zero blocks = refl
literals_of-drop (suc n) [] = refl
literals_of-drop (suc n) (b ∷ blocks) = literals_of-drop n blocks

literals_of-take :
    (n : ℕ) (blocks : List CompressedBlock)
    → literals_of (take n blocks) ≡ take n (literals_of blocks)
literals_of-take zero blocks = refl
literals_of-take (suc n) [] = refl
literals_of-take (suc n) (b ∷ blocks) = ap (λ ls. b.literals ∷ ls) (literals_of-take n blocks)

length-literals_of : (blocks : List CompressedBlock) → length (literals_of blocks) ≡ length blocks
length-literals_of [] = refl
length-literals_of (b ∷ blocks) = ap suc (length-literals_of blocks)

suffix :
    (xs ys zs : List (List ℕ)) (a n : ℕ)
    → zs ≡ xs ++ ys
    → a ≡ length xs
    → n ≡ length ys
    → take n (drop a zs) ≡ ys
suffix xs ys zs a n e p q =
    rw (e, p, q, drop-append) (ap (take (length ys)) (sym (append-nil ys)) ∙ take-append ys [])

accepted : (v w : ℕ) (e : ZiftError) → v ≡ w → refuse (not (v == w)) e ≡ ok tt
unfolding refuse
accepted v w e same = rw (same, ==_refl w) refl

-- The trailer: a checksum and a length, four bytes each.
pub record Trailer : Type 0 where
  pub c0 : ℕ
  pub c1 : ℕ
  pub c2 : ℕ
  pub c3 : ℕ
  pub s0 : ℕ
  pub s1 : ℕ
  pub s2 : ℕ
  pub s3 : ℕ

abbrev pub checksum : Trailer → ℕ
checksum t = t.c0 + 256 * t.c1 + 65536 * (t.c2 + 256 * t.c3)

abbrev pub encode_trailer : Trailer → List ℕ → List ℕ
encode_trailer t rest = t.c0 ∷ t.c1 ∷ t.c2 ∷ t.c3 ∷ t.s0 ∷ t.s1 ∷ t.s2 ∷ t.s3 ∷ rest

abbrev pub encode_member : Header → List ℕ → List (List ℕ) → Trailer → List ℕ → List ℕ
encode_member hd run runs t rest = encode_header hd (encode_runs run runs (encode_trailer t rest))

module _ (libraries : Libraries) where
  abbrev pub hash_runs : libraries.Hasher → List (List ℕ) → libraries.Hasher
  hash_runs hasher [] = hasher
  hash_runs hasher (run ∷ runs) = hash_runs (libraries.update hasher run) runs

  hash_blocks-literals_of :
      (hasher : libraries.Hasher) (blocks : List CompressedBlock)
      → hash_blocks libraries hasher blocks ≡ hash_runs hasher (literals_of blocks)
  hash_blocks-literals_of hasher [] = refl
  hash_blocks-literals_of hasher (b ∷ blocks) =
      hash_blocks-literals_of (libraries.update hasher b.literals) blocks

  module _ (bytes : List ℕ) (h : Bytes bytes) (fits : FitsIsize bytes) where
    -- What a member of stored blocks adds.
    pub record Parsed (rest : List ℕ) (runs : List (List ℕ)) (blocks total : ℕ) (m : Member)
        : Type 0 where
      pub at_rest : StandsAt bytes rest m.reader
      pub literals : literals_of m.blocks ≡ runs
      pub count : length m.blocks ≡ blocks
      pub sum : m.total_literals ≡ total

    pub parse_gzip_member-encode_member :
        (r : BitReader) (hd : Header) (run rest : List ℕ) (runs : List (List ℕ)) (t : Trailer)
        (blocks : List CompressedBlock) (total : ℕ)
        → StandsAt bytes (encode_member hd run runs t rest) r
        → FitsHeader hd
        → All (λ run. length run < 65536) (run ∷ runs)
        → length blocks + length runs < max_deflate_blocks_per_member
        → total + sum_lengths (run ∷ runs) ≤ max_total_literals
        → checksum t ≡ libraries.finalize (hash_runs libraries.hasher (run ∷ runs))
        → Returns
            (Parsed rest
              (literals_of blocks ++ run ∷ runs)
              (length blocks + length (run ∷ runs))
              (total + sum_lengths (run ∷ runs)))
            (parse_gzip_member libraries r blocks total)
    unfolding parse_gzip_member
    parse_gzip_member-encode_member r hd run rest runs t blocks total at fit short few small sum =
        Returns-bind (parse_gzip_header-StandsAt bytes h fits hd _ r fit at) λ header a.
          Returns-bind
            (parse_deflate_stream-encode_runs bytes h fits header run _ runs blocks total a short
              few small)
            λ stream p.
              Returns-bind (align_to_byte-StandsAt bytes h fits stream.reader _ p.at_rest)
                λ aligned b.
                  Returns-bind (read_u32_le-StandsAt bytes h fits aligned t.c0 t.c1 t.c2 t.c3 _ b)
                    λ crc c.
                      Returns-bind
                        (read_u32_le-StandsAt bytes h fits crc.reader t.s0 t.s1 t.s2 t.s3 rest c.1)
                        λ isize d.
                          Returns-step _
                            (slice_lem stream.blocks (length blocks) (length stream.blocks)
                              (omega (arith, p.count)) (omega arith))
                            (let added : List CompressedBlock =
                                take (length stream.blocks - length blocks)
                                  (drop (length blocks) stream.blocks) in
                              let added-is : literals_of added ≡ run ∷ runs =
                                literals_of-take _ (drop (length blocks) stream.blocks)
                                ∙ ap (take _) (literals_of-drop (length blocks) stream.blocks)
                                ∙ suffix (literals_of blocks) (run ∷ runs) _ _ _ p.literals
                                    (sym (length-literals_of blocks)) (omega (arith, p.count)) in
                              let same : crc.value
                                  ≡ libraries.finalize
                                      (hash_blocks libraries libraries.hasher added) =
                                c.0
                                ∙ sum
                                ∙ ap libraries.finalize (
                                    ap (hash_runs libraries.hasher) (sym added-is)
                                    ∙ sym (hash_blocks-literals_of libraries.hasher added)) in
                              rw p.unmatched (
                                Returns-step _ (accepted crc.value _ _ same) (
                                  gives (record {
                                    at_rest = d.1;
                                    literals = p.literals;
                                    count = p.count;
                                    sum = p.sum;
                                  }))))
