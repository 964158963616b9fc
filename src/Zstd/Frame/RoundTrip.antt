-- ===== src/Zstd/Frame/RoundTrip.antt =====
-- `parse_frame_header` of src/zstd/frame.rs on the headers of the format.
use ziftsieve.Base.{
  bit, bit-lt, has_bit-bit, ℕ, zero, suc, ◌+◌, ◌-◌, ◌*◌, ◌/◌, ◌%◌, ◌^◌, ◌≤◌, ◌<◌, ◌≡◌, refl, ◌∙◌,
  sym, arith, List, [], ◌∷◌, ◌++◌, length, drop, All, Bool, true, false, ok, ◌>>=◌, ◌>>◌, refuse,
  index, loop, again, done, some, Reason, index-rest, rest_bound, rest-run, slice-rest, ge→ltb,
  gt→leb, ne→==, le→leb, usize_max, loop_again, loop_done, append_assoc, length-append, has_bit,
}
use ziftsieve.Block.{same_bytes}
use ziftsieve.Extract.{zstd_magic}
use ziftsieve.Zstd.Frame.{
  skip_field, is_skippable, parse_standard_frame_header, skip_frame, frame_at, frame_round,
  parse_frame_header, dictionary_size, content_size,
}
use ziftsieve.Zstd.Frame.Format.{
  Head, IsHead, dictionary_bytes, content_bytes, descriptor, head_fields, encode_head, Skippable,
  IsSkippable, size_bytes, encode_skippable, encode_skippables,
}

dictionary_size-flag : (flag : ℕ) → flag < 4 → dictionary_size flag ≡ dictionary_bytes flag
dictionary_size-flag zero h = refl
dictionary_size-flag (suc zero) h = refl
dictionary_size-flag (suc (suc zero)) h = refl
dictionary_size-flag (suc (suc (suc zero))) h = refl
dictionary_size-flag (suc (suc (suc (suc n)))) h = absurd (omega arith)

content_size-flag :
    (flag : ℕ) (single : Bool)
    → flag < 4
    → content_size flag (bit single) ≡ content_bytes flag single
content_size-flag zero single h = refl
content_size-flag (suc zero) single h = refl
content_size-flag (suc (suc zero)) single h = refl
content_size-flag (suc (suc (suc zero))) single h = refl
content_size-flag (suc (suc (suc (suc n)))) single h = absurd (omega arith)

module _ (h : Head) (v : IsHead h) where
  single_bit : descriptor h / 2 ^ 5 % 2 ≡ bit h.single_segment
  single_bit = omega (arith, bit-lt h.checksum, bit-lt h.single_segment, v.dictionary_small)

  reserved_bit : has_bit (descriptor h) 3 ≡ false
  reserved_bit =
      has_bit-bit _ false
        (omega (arith, bit-lt h.checksum, bit-lt h.single_segment, v.dictionary_small))

  checksum_bit : has_bit (descriptor h) 2 ≡ h.checksum
  checksum_bit =
      has_bit-bit _ h.checksum
        (omega (arith, bit-lt h.checksum, bit-lt h.single_segment, v.dictionary_small))

  dictionary_bits : descriptor h % 4 ≡ h.dictionary_flag
  dictionary_bits = omega (arith, v.dictionary_small)

  content_bits : descriptor h / 2 ^ 6 % 4 ≡ h.content_flag
  content_bits =
      omega (arith, bit-lt h.checksum, bit-lt h.single_segment, v.dictionary_small, v.content_small)

skip_field-there :
    (bytes : List ℕ) (pos size : ℕ) (reason : Reason)
    → pos + size ≤ length bytes
    → skip_field bytes pos size reason ≡ ok (pos + size)
unfolding skip_field ◌>>=◌ ◌>>◌ refuse
skip_field-there bytes pos size reason h = rw (ge→ltb (length bytes) (pos + size) h)

-- Behind `pos` there is a header, and bytes behind it.
module _ (bytes rest : List ℕ) (pos : ℕ) (h : Head) (v : IsHead h)
    (e : drop pos bytes ≡ encode_head h ++ rest) where
  head_length :
      length (encode_head h) ≡ 5 + length h.window + length h.dictionary + length h.content
  unfolding encode_head
  head_length = omega (
    arith,
    length-append h.window (h.dictionary ++ h.content),
    length-append h.dictionary h.content,
  )

  head_fits : pos + length (encode_head h) ≤ length bytes
  head_fits =
      omega (arith, rest_bound bytes pos _ e, length-append (encode_head h) rest, head_length)

  descriptor_found : index bytes (pos + 4) ≡ ok (descriptor h)
  unfolding encode_head
  descriptor_found = index-rest bytes (pos + 4) _ _ (rest-run bytes pos zstd_magic _ e)

  parse_standard_frame_header-encode_head :
      parse_standard_frame_header bytes pos
      ≡ ok (record {
        pos = pos + length (encode_head h);
        header = some (record { content_checksum = h.checksum });
      })
  unfolding parse_standard_frame_header ◌>>=◌ ◌>>◌ refuse
  parse_standard_frame_header-encode_head =
      let fits = head_fits in
      let whole = head_length in
      let w : 1 - bit h.single_segment ≡ length h.window = omega (arith, v.window_there) in
      let d : dictionary_size (descriptor h % 4) ≡ length h.dictionary =
        rw (dictionary_bits h v)
          (dictionary_size-flag h.dictionary_flag v.dictionary_small ∙ sym v.dictionary_there) in
      let c : content_size (descriptor h / 2 ^ 6 % 4) (bit h.single_segment) ≡ length h.content =
        rw (content_bits h v) (
          content_size-flag h.content_flag h.single_segment v.content_small
          ∙ sym v.content_there) in
      let end : pos + 5 + length h.window + length h.dictionary + length h.content
          ≡ pos + length (encode_head h) =
        omega arith in
      rw (
        gt→leb (length bytes) (pos + 4) (omega arith),
        descriptor_found,
        reserved_bit h v,
        single_bit h v,
        w,
        skip_field-there bytes (pos + 5) (length h.window) _ (omega arith),
        d,
        skip_field-there bytes (pos + 5 + length h.window) (length h.dictionary) _ (omega arith),
        c,
        skip_field-there bytes (pos + 5 + length h.window + length h.dictionary) (length h.content)
            _ (omega arith),
        checksum_bit h v,
        end,
      )

  frame_round-encode_head :
      (start_pos iterations : ℕ)
      → iterations < 3
      → frame_round bytes start_pos (record { pos = pos; iterations = iterations })
        ≡ ok (
            done (record {
              pos = pos + length (encode_head h);
              header = some (record { content_checksum = h.checksum });
            }))
  unfolding frame_round frame_at ◌>>=◌ ◌>>◌ refuse same_bytes
  frame_round-encode_head start_pos iterations few =
      let fits = head_fits in
      let whole = head_length in
      let magic : drop pos bytes ≡ zstd_magic ++ ((descriptor h ∷ head_fields h) ++ rest) =
        unfold encode_head in e in
      rw (
        gt→leb 3 iterations few,
        ne→== pos (length bytes) (λ same. omega (arith, same)),
        ge→ltb (length bytes) (pos + 4) (omega arith),
        slice-rest bytes pos 4 zstd_magic _ magic (omega arith) (omega arith),
        parse_standard_frame_header-encode_head,
      )

-- Behind `pos` there is a skippable frame.
module _ (bytes rest : List ℕ) (pos : ℕ) (f : Skippable) (v : IsSkippable f)
    (e : drop pos bytes ≡ encode_skippable f ++ rest) where
  abbrev magic : List ℕ
  magic = (0x50 + f.digit) ∷ 0x2a ∷ 0x4d ∷ 0x18 ∷ []

  skippable_length : length (encode_skippable f) ≡ 8 + length f.content
  unfolding encode_skippable
  skippable_length = omega arith

  skippable_fits : pos + length (encode_skippable f) ≤ length bytes
  unfolding encode_skippable
  skippable_fits = omega (arith, rest_bound bytes pos _ e, length-append (encode_skippable f) rest)

  from_magic : drop pos bytes ≡ magic ++ (size_bytes (length f.content) ++ (f.content ++ rest))
  unfolding encode_skippable
  from_magic = e

  from_size : drop (pos + 4) bytes ≡ size_bytes (length f.content) ++ (f.content ++ rest)
  from_size = rest-run bytes pos magic _ from_magic

  skip_frame-encode_skippable :
      length bytes < 2 ^ 63 → skip_frame bytes pos ≡ ok (pos + length (encode_skippable f))
  unfolding skip_frame ◌>>=◌ ◌>>◌ refuse
  skip_frame-encode_skippable fits =
      let n = length f.content in
      let whole = skippable_length in
      let inside = skippable_fits in
      let second = rest-run bytes pos (magic ++ (n % 256 ∷ [])) _ from_magic in
      let third = rest-run bytes pos (magic ++ (n % 256 ∷ n / 2 ^ 8 % 256 ∷ [])) _ from_magic in
      let fourth =
        rest-run bytes pos (magic ++ (n % 256 ∷ n / 2 ^ 8 % 256 ∷ n / 2 ^ 16 % 256 ∷ [])) _
          from_magic in
      let end : pos
            + 8
            + (n % 256
                + 2 ^ 8 * (n / 2 ^ 8 % 256)
                + 2 ^ 16 * (n / 2 ^ 16 % 256)
                + 2 ^ 24 * (n / 2 ^ 24))
          ≡ pos + length (encode_skippable f) =
        omega arith in
      rw (
        ge→ltb (length bytes) (pos + 8) (omega arith),
        index-rest bytes (pos + 4) _ _ from_size,
        index-rest bytes (pos + 5) _ _ second,
        index-rest bytes (pos + 6) _ _ third,
        index-rest bytes (pos + 7) _ _ fourth,
        end,
        ge→ltb usize_max (pos + length (encode_skippable f)) (omega arith),
        ge→ltb (length bytes) (pos + length (encode_skippable f)) inside,
      )

  skippable_magic : is_skippable (0x50 + f.digit) 0x2a 0x4d 0x18 ≡ true
  skippable_magic = rw (
    le→leb 0x50 (0x50 + f.digit) (omega arith),
    le→leb (0x50 + f.digit) 0x57 (omega (arith, v.0)),
  )

  not_standard : same_bytes magic zstd_magic ≡ false
  unfolding same_bytes
  not_standard = rw (ne→== (0x50 + f.digit) 0x28 (λ same. omega (arith, same)))

  frame_round-encode_skippable :
      (start_pos iterations : ℕ)
      → iterations < 3
      → length bytes < 2 ^ 63
      → frame_round bytes start_pos (record { pos = pos; iterations = iterations })
        ≡ ok (
            again (record { pos = pos + length (encode_skippable f); iterations = iterations + 1 }))
  unfolding frame_round frame_at ◌>>=◌ ◌>>◌ refuse
  frame_round-encode_skippable start_pos iterations few fits =
      let whole = skippable_length in
      let inside = skippable_fits in
      rw (
        gt→leb 3 iterations few,
        ne→== pos (length bytes) (λ same. omega (arith, same)),
        ge→ltb (length bytes) (pos + 4) (omega arith),
        slice-rest bytes pos 4 magic _ from_magic (omega arith) (omega arith),
        not_standard,
        index-rest bytes pos _ _ from_magic,
        index-rest bytes (pos + 1) _ _ (rest-run bytes pos ((0x50 + f.digit) ∷ []) _ from_magic),
        index-rest bytes (pos + 2) _ _
            (rest-run bytes pos ((0x50 + f.digit) ∷ 0x2a ∷ []) _ from_magic),
        index-rest bytes (pos + 3) _ _
            (rest-run bytes pos ((0x50 + f.digit) ∷ 0x2a ∷ 0x4d ∷ []) _ from_magic),
        skippable_magic,
        skip_frame-encode_skippable fits,
      )

pub length-encode_head : (h : Head) → 5 ≤ length (encode_head h)
unfolding encode_head
length-encode_head h = omega arith

-- Skippable frames, and a header behind them.
module _ (bytes rest : List ℕ) (start_pos : ℕ) (h : Head) (v : IsHead h)
    (fits : length bytes < 2 ^ 63) where
  rounds-encode :
      (fs : List Skippable) (pos iterations fuel : ℕ)
      → All IsSkippable fs
      → iterations + length fs < 3
      → length fs < fuel
      → drop pos bytes ≡ encode_skippables fs ++ (encode_head h ++ rest)
      → loop fuel (frame_round bytes start_pos) (record { pos = pos; iterations = iterations })
        ≡ ok (record {
          pos = pos + length (encode_skippables fs) + length (encode_head h);
          header = some (record { content_checksum = h.checksum });
        })
  unfolding encode_skippables
  rounds-encode fs pos iterations zero all few fuel e = absurd (omega arith)
  rounds-encode [] pos iterations (suc fuel) all few room e =
      let same : pos + 0 + length (encode_head h) ≡ pos + length (encode_head h) = omega arith in
      rw same (
        loop_done fuel (frame_round bytes start_pos) _ _
          (frame_round-encode_head bytes rest pos h v e start_pos iterations (omega arith)))
  rounds-encode (f ∷ fs) pos iterations (suc fuel) all few room e =
      let front : drop pos bytes
          ≡ encode_skippable f ++ (encode_skippables fs ++ (encode_head h ++ rest)) =
        e ∙ append_assoc (encode_skippable f) (encode_skippables fs) (encode_head h ++ rest) in
      let same : pos + length (encode_skippable f ++ encode_skippables fs)
          ≡ pos + length (encode_skippable f) + length (encode_skippables fs) =
        omega (arith, length-append (encode_skippable f) (encode_skippables fs)) in
      rw same (
        loop_again fuel (frame_round bytes start_pos) _ _ (
          frame_round-encode_skippable bytes _ pos f all.0 front start_pos iterations (omega arith)
            fits)
        ∙ rounds-encode fs (pos + length (encode_skippable f)) (iterations + 1) fuel all.1
            (omega arith) (omega arith) (rest-run bytes pos (encode_skippable f) _ front))

  -- Behind up to two skippable frames whose magic number ends in a digit below 8, the
  -- `parse_frame_header` of Zstd takes any frame header of the format, of any descriptor, and
  -- returns the position behind it and its flag for a checksum.
  pub parse_frame_header-encode_head :
      (fs : List Skippable)
      → All IsSkippable fs
      → length fs < 3
      → drop start_pos bytes ≡ encode_skippables fs ++ (encode_head h ++ rest)
      → parse_frame_header bytes start_pos
        ≡ ok (record {
          pos = start_pos + length (encode_skippables fs) + length (encode_head h);
          header = some (record { content_checksum = h.checksum });
        })
  unfolding parse_frame_header ◌>>=◌ ◌>>◌ refuse
  parse_frame_header-encode_head fs all few e =
      let whole = rest_bound bytes start_pos _ e in
      rw
        (ge→ltb (length bytes) 4 (
          omega (
            arith,
            whole,
            length-append (encode_skippables fs) (encode_head h ++ rest),
            length-append (encode_head h) rest,
            length-encode_head h,
          )))
        (rounds-encode fs start_pos 0 4 all (omega arith) (omega arith) e)
