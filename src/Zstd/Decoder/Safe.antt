-- ===== src/Zstd/Decoder/Safe.antt =====
-- `extract_literals_from_block` of src/zstd/decoder.rs on any bytes.
use ziftsieve.Base.{
  ℕ, ◌+◌, ◌/◌, ◌%◌, ◌^◌, ◌≤◌, arith, List, length, ltb→ge, leb→gt, ◌==◌, ◌||◌, Option, none, some,
  index_found, slice, slice-Ensures, Ensures, returns, fails, Ensures-bind, Ensures-map,
  Ensures-refuse, Ensures-if, Ensures-step,
}
use ziftsieve.Zstd.Decoder.{
  DecodeLiterals, le16, le24, le32, read_raw_rle_size, read_compressed_size, or_failed,
  raw_literals, rle_literals, compressed_literals, literals_section, extract_literals_from_block,
}

abbrev Anything : {A : Type 0} → A → Type 0
Anything a = Unit {0}

module _ (bytes : List ℕ) where
  le16-Ensures : 2 ≤ length bytes → Ensures Anything (le16 bytes)
  unfolding le16
  le16-Ensures h =
      let (a, ea, _) = index_found bytes 0 (omega arith) in
      let (b, eb, _) = index_found bytes 1 (omega arith) in
      Ensures-step _ ea (Ensures-step _ eb (returns tt))

  le24-Ensures : 3 ≤ length bytes → Ensures Anything (le24 bytes)
  unfolding le24
  le24-Ensures h =
      let (c, ec, _) = index_found bytes 2 (omega arith) in
      Ensures-bind (le16-Ensures (omega arith)) λ _ _. Ensures-step _ ec (returns tt)

  le32-Ensures : 4 ≤ length bytes → Ensures Anything (le32 bytes)
  unfolding le32
  le32-Ensures h =
      let (d, ed, _) = index_found bytes 3 (omega arith) in
      Ensures-bind (le24-Ensures (omega arith)) λ _ _. Ensures-step _ ed (returns tt)

  -- The header takes at least its first byte.
  read_raw_rle_size-Ensures :
      (header : ℕ) → Ensures (λ s. 1 ≤ s.header_size) (read_raw_rle_size header bytes)
  unfolding read_raw_rle_size
  read_raw_rle_size-Ensures header =
      let code = header / 2 ^ 2 % 2 ^ 2 in
      Ensures-if (code == 0 || code == 2) (λ _. returns (omega arith))
        λ not_short.
          Ensures-if (code == 1)
            (λ _.
              Ensures-refuse _ _
                λ room. Ensures-bind (le16-Ensures (ltb→ge _ _ room)) λ _ _. returns (omega arith))
            λ not_one.
              Ensures-if (code == 3)
                (λ _. Ensures-refuse _ _ λ room.
                  Ensures-bind (le24-Ensures (ltb→ge _ _ room)) λ _ _. returns (omega arith))
                λ not_three. absurd (ground arith)

  read_compressed_size-Ensures :
      (header : ℕ) → Ensures (λ s. 1 ≤ s.header_size) (read_compressed_size header bytes)
  unfolding read_compressed_size
  read_compressed_size-Ensures header =
      let code = header / 2 ^ 2 % 2 ^ 2 in
      Ensures-if (code == 0 || code == 1)
        (λ _.
          Ensures-refuse _ _
            λ room. Ensures-bind (le24-Ensures (ltb→ge _ _ room)) λ _ _. returns (omega arith))
        λ not_three.
          Ensures-if (code == 2)
            (λ _.
              Ensures-refuse _ _
                λ room. Ensures-bind (le32-Ensures (ltb→ge _ _ room)) λ _ _. returns (omega arith))
            λ not_four.
              Ensures-if (code == 3)
                (λ _. Ensures-refuse _ _ λ room.
                  let five : 5 ≤ length bytes = ltb→ge _ _ room in
                  let (high, found, _) = index_found bytes 4 (omega arith) in
                  Ensures-bind (le32-Ensures (omega arith))
                    λ _ _. Ensures-step _ found (returns (omega arith)))
                λ not_five. absurd (ground arith)

  or_failed-Ensures : (pos : ℕ) (o : Option (List ℕ)) → Ensures Anything (or_failed pos o)
  or_failed-Ensures pos none = fails
  or_failed-Ensures pos (some literals) = returns tt

  cut-Ensures :
      (pos size : ℕ) → pos + size ≤ length bytes → Ensures Anything (slice bytes pos (pos + size))
  cut-Ensures pos size inside =
      Ensures-map (λ _ _. tt) (slice-Ensures bytes pos (pos + size) (omega arith) inside)

  raw_literals-Ensures : (header : ℕ) → Ensures Anything (raw_literals header bytes)
  unfolding raw_literals
  raw_literals-Ensures header =
      Ensures-bind (read_raw_rle_size-Ensures header)
        λ size _. Ensures-refuse _ _ λ inside. cut-Ensures _ _ (ltb→ge _ _ inside)

  rle_literals-Ensures : (header : ℕ) → Ensures Anything (rle_literals header bytes)
  unfolding rle_literals
  rle_literals-Ensures header = Ensures-bind (read_raw_rle_size-Ensures header) λ size _.
      Ensures-refuse _ _ λ inside.
        let (byte, found, _) = index_found bytes _ (leb→gt _ _ inside) in
        Ensures-step _ found (returns tt)

  module _ (decode_literals : DecodeLiterals) where
    compressed_literals-Ensures :
        (header : ℕ) → Ensures Anything (compressed_literals decode_literals header bytes)
    unfolding compressed_literals
    compressed_literals-Ensures header =
        Ensures-bind (read_compressed_size-Ensures header) λ size _.
          Ensures-if (size.compressed_size == 0)
            (λ _. Ensures-refuse _ _ λ inside. cut-Ensures _ _ (ltb→ge _ _ inside))
            (λ _. Ensures-refuse _ _ λ inside.
              Ensures-bind (cut-Ensures _ _ (ltb→ge _ _ inside))
                λ compressed _. or_failed-Ensures _ (decode_literals compressed _ _))

    literals_section-Ensures :
        (header : ℕ) → Ensures Anything (literals_section decode_literals header bytes)
    unfolding literals_section
    literals_section-Ensures header =
        let kind = header % 2 ^ 2 in
        Ensures-if (kind == 0) (λ _. raw_literals-Ensures header)
          λ not_raw.
            Ensures-if (kind == 1) (λ _. rle_literals-Ensures header)
              λ not_rle.
                Ensures-if (kind == 2) (λ _. compressed_literals-Ensures header)
                  λ not_compressed.
                    Ensures-if (kind == 3) (λ _. fails) λ not_treeless. absurd (ground arith)

    -- A block of any bytes is either refused or gives literals.
    pub extract_literals_from_block-Ensures :
        Ensures (λ literals. Unit {0}) (extract_literals_from_block decode_literals bytes)
    unfolding extract_literals_from_block
    extract_literals_from_block-Ensures =
        Ensures-if (length bytes == 0) (λ _. returns tt)
          λ filled.
            let (header, found, _) = index_found bytes 0 (ground arith) in
            Ensures-step _ found (literals_section-Ensures header)
