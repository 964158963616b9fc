-- ===== src/Extract/Tarball/RoundTrip.antt =====
-- `scan_tarball_literals` of src/extract/tarball.rs on archives of the format.
pub mod Header
use ziftsieve.Base.{
  ℕ, zero, suc, ◌+◌, ◌-◌, ◌*◌, ◌^◌, ◌≤◌, ◌<◌, ◌≡◌, refl, sym, ◌∙◌, ap, arith, List, [], ◌∷◌, ◌++◌,
  length, take, drop, replicate, All, Bool, true, false, not, ◌&&◌, ◌||◌, ltb, leb, ◌==◌,
  if◌then◌else◌, usize_max, saturating_add, Outcome, ok, ◌>>=◌, ◌>>◌, refuse, loop, again, done,
  loop_again, loop_done, gt→leb, ge→ltb, lt→ltb, ne→==, length-append, length-replicate,
  append_assoc, append-nil, slice-rest, slice, take_all, rest_bound, rest-run, Bool-cases, inl, inr,
  some, Option,
}
use ziftsieve.Block.{CompressedBlock, sum_literals, sum_literals-append}
use ziftsieve.Extract.{starts_with, gzip_magic}
use ziftsieve.Extract.Tarball.{
  TarHeader, max_tarball_bytes, max_tar_members, max_nested_depth, is_end_of_archive_block,
}
use ziftsieve.Extract.Tarball.Decompress.{
  MultiGz, Reading, after_read, read_round, decompress_gzip_members,
}
use ziftsieve.Extract.Tarball.Walk.{
  Walk, Added, add_content, add_regular_file_blocks, member_round, walk_round,
  scan_decompressed_tar_gz_archive, scan_tarball_literals_with_depth, scan_tarball_literals,
}
use ziftsieve.Extract.Tarball.Format.{
  Entry, IsEntry, encode_header, padding, encode_entry, encode_entries, encode_archive, end_block,
  is_regular, content_block, blocks_of, Delivers, ended, chunk,
}
use ziftsieve.Extract.Tarball.RoundTrip.Header.{
  length-encode_header, not_end, header_found, read_tar_member-encode_header, length-encode_entry,
  next_member_offset-encode_entry,
}

module _ (gz : MultiGz) (size : ℕ) where
  -- All chunks, one behind the other.
  reads-Delivers :
      (fuel : ℕ) (d : gz.Decoder) (out rest : List ℕ)
      → Delivers gz d rest
      → length out + length rest ≤ max_tarball_bytes
      → length rest < fuel
      → loop fuel (read_round gz size) (record { decoder = d; out = out }) ≡ ok (out ++ rest)
  unfolding read_round after_read ◌>>=◌ ◌>>◌ refuse
  reads-Delivers zero d out rest h small room = absurd (omega arith)
  reads-Delivers (suc fuel) d out _ (ended {end} e) small room =
      loop_done fuel (read_round gz size) _ out (rw e) ∙ ap ok (sym (append-nil out))
  reads-Delivers (suc fuel) d out _ (chunk {rest} {b} {bytes} {out = more} e h) small room =
      let sum = length-append (b ∷ bytes) more in
      let sum_out = length-append out (b ∷ bytes) in
      loop_again fuel (read_round gz size) _ (record { decoder = rest; out = out ++ (b ∷ bytes) })
        (rw (
          e,
          ge→ltb usize_max (length out + length (b ∷ bytes)) (omega (arith, small)),
          ge→ltb max_tarball_bytes (length out + length (b ∷ bytes)) (omega (arith, small)),
        ))
      ∙ reads-Delivers fuel rest (out ++ (b ∷ bytes)) more h (omega (arith, small))
          (omega (arith, room))
      ∙ ap ok (append_assoc out (b ∷ bytes) more)

zeros_end : (k : ℕ) → is_end_of_archive_block (replicate k 0) ≡ true
unfolding is_end_of_archive_block
zeros_end zero = refl
zeros_end (suc k) = zeros_end k

end_block_ends : is_end_of_archive_block end_block ≡ true
unfolding end_block
end_block_ends = zeros_end 512

length-end_block : length end_block ≡ 512
unfolding end_block
length-end_block = length-replicate {A = ℕ} 512 0

and_false : (x : Bool) → (x && false) ≡ false
and_false true = refl
and_false false = refl

module _ (gz : MultiGz) (scan : List ℕ → Outcome (List CompressedBlock)) (tar : List ℕ)
    (fits : length tar ≤ max_tarball_bytes) where
  -- The state of the walk, whose literals stand before `pos`.
  abbrev walked : ℕ → ℕ → List CompressedBlock → ℕ → Walk
  walked pos members blocks total = record {
    pos = pos;
    members = members;
    blocks = blocks;
    total_literals = total;
  }

  module _ (e : Entry) (v : IsEntry e) (pos members total : ℕ) (blocks : List CompressedBlock)
      (rest : List ℕ) (there : drop pos tar ≡ encode_entry e ++ rest) (before : total ≤ pos) where
    inside : pos + length (encode_entry e) ≤ length tar
    inside = omega (
      arith,
      rest_bound tar pos _ there,
      length-append (encode_entry e) rest,
      length-encode_entry e v,
    )

    from_header :
        drop pos tar
        ≡ encode_header e ++ ((e.content ++ replicate (padding (length e.content)) 0) ++ rest)
    from_header = there ∙ unfold encode_entry in append_assoc (encode_header e) _ rest

    from_content :
        drop (pos + 512) tar ≡ e.content ++ (replicate (padding (length e.content)) 0 ++ rest)
    from_content =
        let behind = rest-run tar pos (encode_header e) _ from_header in
        (rw (length-encode_header e v) at behind)
        ∙ append_assoc e.content (replicate (padding (length e.content)) 0) rest

    content_found : slice tar (pos + 512) (pos + 512 + length e.content) ≡ ok e.content
    content_found =
        slice-rest tar (pos + 512) (length e.content) e.content _ from_content (omega arith)
          (omega (arith, inside, length-encode_entry e v))
        ∙ ap ok (take_all (length e.content) e.content (omega arith))

    abbrev member : TarHeader
    member = record {
      content_offset = pos + 512;
      content_size = length e.content;
      is_regular_file = true;
      is_symlink = false;
      is_hardlink = false;
      name = e.first ∷ e.name;
    }

    content_added :
        add_regular_file_blocks gz scan tar member pos
          (record { blocks = blocks; total_literals = total })
        ≡ ok (record {
          blocks = blocks ++ (content_block pos e ∷ []);
          total_literals = total + length e.content;
        })
    unfolding add_regular_file_blocks add_content ◌>>=◌ ◌>>◌ refuse
    content_added =
        let end = inside in
        let whole = length-encode_entry e v in
        let sum : saturating_add total (length e.content) ≡ total + length e.content =
          omega arith in
        rw (
          content_found,
          v.plain,
          and_false (not (length e.content == 0)),
          ge→ltb (2 ^ 32 - 1) (length e.content) (omega (arith, v.small)),
          ge→ltb (2 ^ 64 - 1) pos (omega arith),
          sum,
          ge→ltb max_tarball_bytes (total + length e.content) (omega arith),
        )

    abbrev after : Bool → Walk
    after true =
        walked (pos + length (encode_entry e)) (members + 1) (blocks ++ (content_block pos e ∷ []))
          (total + length e.content)
    after false = walked (pos + length (encode_entry e)) (members + 1) blocks total

    member_round-encode_entry :
        (regular : Bool)
        → is_regular e ≡ regular
        → member_round gz scan tar (walked pos members blocks total) ≡ ok (again (after regular))
    unfolding member_round ◌>>=◌ ◌>>◌ refuse
    member_round-encode_entry true kind =
        let end = inside in
        let whole = length-encode_entry e v in
        rw (
          read_tar_member-encode_header e v tar _ pos from_header (omega arith) (omega arith),
          ne→== e.typeflag b'2' v.no_symlink,
          ne→== e.typeflag b'1' v.no_hardlink,
          kind,
          content_added,
          next_member_offset-encode_entry e v pos (omega arith),
        )
    member_round-encode_entry false kind =
        let end = inside in
        let whole = length-encode_entry e v in
        rw (
          read_tar_member-encode_header e v tar _ pos from_header (omega arith) (omega arith),
          ne→== e.typeflag b'2' v.no_symlink,
          ne→== e.typeflag b'1' v.no_hardlink,
          kind,
          next_member_offset-encode_entry e v pos (omega arith),
        )

    walk_round-encode_entry :
        members < max_tar_members
        → (regular : Bool) → is_regular e ≡ regular
        → walk_round gz scan tar (walked pos members blocks total) ≡ ok (again (after regular))
    unfolding walk_round ◌>>=◌ ◌>>◌ refuse
    walk_round-encode_entry few regular kind =
        let end = inside in
        let whole = length-encode_entry e v in
        rw
          (
            lt→ltb pos (length tar) (omega arith),
            gt→leb max_tar_members members few,
            ge→ltb (length tar) (pos + 512) (omega arith),
            header_found e v tar _ pos from_header,
            not_end e v,
          )
          (member_round-encode_entry regular kind)

  walk-encode_entries :
      (es : List Entry) (fuel pos members total : ℕ) (blocks : List CompressedBlock)
      → All IsEntry es
      → members + length es < max_tar_members
      → length es < fuel
      → drop pos tar ≡ encode_entries es ++ (end_block ++ end_block)
      → total ≤ pos
      → loop fuel (walk_round gz scan tar) (walked pos members blocks total)
        ≡ ok (blocks ++ blocks_of pos es)
  unfolding encode_entries blocks_of
  walk-encode_entries es zero pos members total blocks all few room there before =
      absurd (omega arith)
  walk-encode_entries [] (suc fuel) pos members total blocks all few room there before =
      loop_done fuel (walk_round gz scan tar) _ blocks ends_here ∙ ap ok (sym (append-nil blocks))
    where
      long : pos + 512 + 512 ≡ length tar
      long =
          omega
            (arith, rest_bound tar pos _ there, length-append end_block end_block, length-end_block)

      zeros_found : slice tar pos (pos + 512) ≡ ok end_block
      zeros_found =
          slice-rest tar pos 512 end_block end_block there (omega (arith, length-end_block))
            (omega (arith, long))
          ∙ ap ok (take_all 512 end_block (omega (arith, length-end_block)))

      ends_here : walk_round gz scan tar (walked pos members blocks total) ≡ ok (done blocks)
      ends_here =
          unfold walk_round ◌>>=◌ ◌>>◌ refuse in
          rw (
            lt→ltb pos (length tar) (omega (arith, long)),
            gt→leb max_tar_members members (omega (arith, few)),
            ge→ltb (length tar) (pos + 512) (omega (arith, long)),
            zeros_found,
            end_block_ends,
          )
  walk-encode_entries (e ∷ es) (suc fuel) pos members total blocks (v, all) few room there before =
      elim (Bool-cases (is_regular e)) [
        | inl kind ↦ rw kind (
            loop_again fuel (walk_round gz scan tar) _ _ (
              walk_round-encode_entry e v pos members total blocks _ front before
                (omega (arith, few)) true kind)
            ∙ walk-encode_entries es fuel (pos + length (encode_entry e)) (members + 1)
                (total + length e.content) (blocks ++ (content_block pos e ∷ [])) all
                (omega (arith, few)) (omega (arith, room)) behind
                (omega (arith, before, length-encode_entry e v))
            ∙ ap ok (append_assoc blocks (content_block pos e ∷ []) _))
        | inr kind ↦ rw kind (
            loop_again fuel (walk_round gz scan tar) _ _ (
              walk_round-encode_entry e v pos members total blocks _ front before
                (omega (arith, few)) false kind)
            ∙ walk-encode_entries es fuel (pos + length (encode_entry e)) (members + 1) total blocks
                all (omega (arith, few)) (omega (arith, room)) behind (omega (arith, before)))
      ]
    where
      front : drop pos tar ≡ encode_entry e ++ (encode_entries es ++ (end_block ++ end_block))
      front = there ∙ append_assoc (encode_entry e) (encode_entries es) (end_block ++ end_block)

      behind :
          drop (pos + length (encode_entry e)) tar ≡ encode_entries es ++ (end_block ++ end_block)
      behind = rest-run tar pos (encode_entry e) _ front

-- On a gzip stream from which the decoder gives a tar archive of the format of at most 256 MiB,
-- with fewer than 8,192 members that have ASCII names of 1 to 100 bytes without a component "..",
-- are no links, hold less than 4 GiB and do not begin like a gzip stream, `scan_tarball_literals`
-- returns exactly one block for each regular file, in order, with the offset of its header and its
-- content.
pub scan_tarball_literals-encode_archive :
    (gz : MultiGz) (bytes : List ℕ) (es : List Entry)
    → starts_with bytes gzip_magic ≡ true
    → Delivers gz (gz.decoder bytes) (encode_archive es)
    → length (encode_archive es) ≤ max_tarball_bytes
    → length es < max_tar_members
    → All IsEntry es
    → scan_tarball_literals gz bytes ≡ ok (blocks_of 0 es)
unfolding scan_tarball_literals scan_tarball_literals_with_depth decompress_gzip_members
    scan_decompressed_tar_gz_archive ◌>>=◌ ◌>>◌ refuse
scan_tarball_literals-encode_archive gz bytes es magic h small few all =
    rw
      (
        magic,
        reads-Delivers gz (length bytes) (max_tarball_bytes + 2) (gz.decoder bytes) []
            (encode_archive es) h (omega (arith, small)) (omega (arith, small)),
        ne→== (length (encode_archive es)) 0 (λ empty. omega (arith, empty, filled)),
      )
      (walk-encode_entries gz (scan_decompressed_tar_gz_archive gz 6 1) (encode_archive es) small es
        (max_tar_members + 2) 0 0 0 [] all (omega (arith, few)) (omega (arith, few)) spelled
        (omega arith))
  where
    filled : 512 ≤ length (encode_archive es)
    filled =
        unfold encode_archive in
        omega (
          arith,
          length-append (encode_entries es) (end_block ++ end_block),
          length-append end_block end_block,
          length-end_block,
        )

    spelled : drop 0 (encode_archive es) ≡ encode_entries es ++ (end_block ++ end_block)
    spelled = unfold encode_archive in refl
