-- ===== src/Zstd/Streaming/RoundTrip.antt =====
-- `extract_literals` of src/zstd/streaming.rs on frames of the format.
use ziftsieve.Base.{
  bit, ℕ, zero, suc, ◌+◌, ◌*◌, ◌≤◌, ◌<◌, ◌≡◌, refl, ◌∙◌, sym, arith, List, [], ◌∷◌, ◌++◌, length,
  drop, Bool, true, false, ok, loop, again, done, some, FitsIsize, rest_bound, rest-run, ge→ltb,
  ne→==, append-nil, append_assoc, length-append, ltb, Returns, gives, Returns-bind, Returns-refuse,
  Returns-if, Returns-map, Returns-step, Returns-value, Returns-loop, Onward, onward, ended, Next,
  tests,
}
use ziftsieve.Block.{CompressedBlock}
use ziftsieve.Zstd.Frame.Format.{encode_head, encode_skippables}
use ziftsieve.Zstd.Frame.RoundTrip.{parse_frame_header-encode_head, length-encode_head}
use ziftsieve.Zstd.Decoder.{DecodeLiterals}
use ziftsieve.Zstd.Streaming.{
  Streaming, pass_checksum, frame_body, stream_round, extract_literals, max_total_literals,
  max_allowed_literals, max_blocks, max_frames,
}
use ziftsieve.Zstd.Streaming.Taken.{length-encode_block}
use ziftsieve.Zstd.Streaming.Format.{
  Body, encode_block, encode_blocks, Frame, IsFrame, encode_frame, encode_frames, BlocksHold,
  FramesHold, no_frame, next_frame,
}
use ziftsieve.Zstd.Streaming.Reading.{literals_of, sum_lengths, Reading, ReadOn, blocks-Reading}

-- All literals, which keep the limits of the parser.
module _ (decode_literals : DecodeLiterals) (bytes : List ℕ) (fits : FitsIsize bytes)
    (whole : List (List ℕ)) (small : sum_lengths whole ≤ max_total_literals)
    (fair : sum_lengths whole ≤ max_allowed_literals bytes) (few : length whole ≤ max_blocks) where
  pass_checksum-Reading :
      (flag : Bool) (todo : List (List ℕ)) (s : Streaming)
      → Reading whole todo s
      → s.pos + 4 * bit flag ≤ length bytes
      → Returns
          (ReadOn whole todo (s.pos + 4 * bit flag) s.frame_count)
          (pass_checksum bytes (record { content_checksum = flag }) s)
  unfolding pass_checksum
  pass_checksum-Reading true todo s r inside =
      Returns-refuse _ _ (ge→ltb _ _ (omega (arith, inside)))
        (gives (record { all = r.all; counted = r.counted }, omega arith, refl))
  pass_checksum-Reading false todo s r inside = gives (r, omega arith, refl)

  length-encode_blocks : (bs : List Body) (last : Body) → length bs < length (encode_blocks bs last)
  unfolding encode_blocks
  length-encode_blocks [] last =
      omega (arith, length-encode_block decode_literals bytes fits true last)
  length-encode_blocks (b ∷ bs) last = omega (
    arith,
    length-encode_blocks bs last,
    length-encode_block decode_literals bytes fits false b,
    length-append (encode_block false b) (encode_blocks bs last),
  )

  frame_body-Reading :
      (f : Frame) (xss behind : List (List ℕ)) (rest : List ℕ) (s : Streaming)
      → IsFrame f
      → BlocksHold decode_literals f.blocks f.last xss behind
      → Reading whole xss s
      → drop s.pos bytes ≡ encode_blocks f.blocks f.last ++ (f.checksum ++ rest)
      → Returns
          (λ n.
            (s' : Streaming) × (n ≡ again s')
            × ReadOn whole behind
                (s.pos + length (encode_blocks f.blocks f.last) + length f.checksum)
                s.frame_count
                s')
          (frame_body decode_literals bytes s
            (some (record { content_checksum = f.head.checksum })))
  unfolding frame_body
  frame_body-Reading f xss behind rest s v h r e =
      let long = length-encode_blocks f.blocks f.last in
      let left = rest_bound bytes s.pos _ e in
      let sum = length-append (encode_blocks f.blocks f.last) (f.checksum ++ rest) in
      let tail = length-append f.checksum rest in
      Returns-bind
        (blocks-Reading decode_literals bytes fits whole small fair few f.blocks f.last xss behind
          (f.checksum ++ rest) (length bytes + 1) h (omega arith) s r e)
        λ end k.
          Returns-bind
            (pass_checksum-Reading f.head.checksum behind end k.0
              (omega (arith, k.1, v.checksum_there)))
            λ passed l.
              gives (passed, refl, (l.0, omega (arith, l.1, k.1, v.checksum_there), l.2 ∙ k.2))

  stream_round-Reading :
      (f : Frame) (xss behind : List (List ℕ)) (rest : List ℕ) (s : Streaming)
      → IsFrame f
      → BlocksHold decode_literals f.blocks f.last xss behind
      → Reading whole xss s
      → drop s.pos bytes ≡ encode_frame f ++ rest
      → s.frame_count < max_frames
      → Returns
          (λ n.
            (s' : Streaming) × (n ≡ again s')
            × ReadOn whole behind (s.pos + length (encode_frame f)) (s.frame_count + 1) s')
          (stream_round decode_literals bytes s)
  unfolding stream_round encode_frame
  stream_round-Reading f xss behind rest s v h r e room =
      let lead = encode_skippables f.skippables in
      let head = encode_head f.head in
      let blocks = encode_blocks f.blocks f.last in
      let front : drop s.pos bytes ≡ lead ++ (head ++ (blocks ++ (f.checksum ++ rest))) =
        e ∙ rw (append_assoc lead, append_assoc head, append_assoc blocks) in
      let after = rest-run bytes (s.pos + length lead) head _ (rest-run bytes s.pos lead _ front) in
      let left = rest_bound bytes s.pos _ front in
      let first = length-append lead (head ++ (blocks ++ (f.checksum ++ rest))) in
      let second = length-append head (blocks ++ (f.checksum ++ rest)) in
      let size = length-append lead (head ++ (blocks ++ f.checksum)) in
      let size_head = length-append head (blocks ++ f.checksum) in
      let size_blocks = length-append blocks f.checksum in
      let parsed =
        parse_frame_header-encode_head bytes (blocks ++ (f.checksum ++ rest)) s.pos f.head
          v.head_fits fits f.skippables v.skippables_fit v.few_skippables front in
      Returns-if (ltb s.pos (length bytes))
        (λ _. Returns-refuse _ _ (ge→ltb _ _ (omega (arith, room))) (
          Returns-step _ parsed (
            Returns-map (λ n k. (k.0, k.1, (k.2.0, omega (arith, k.2.1), k.2.2)))
              (frame_body-Reading f xss behind rest
                (record s {
                  pos = s.pos + length lead + length head;
                  frame_count = s.frame_count + 1;
                })
                v h (record { all = r.all; counted = r.counted }) after))))
        (λ past. absurd (omega (tests, past, length-encode_head f.head)))

  -- Frame after frame, to the end of the bytes.
  frames-Reading :
      (fs : List Frame) (xss : List (List ℕ)) (fuel : ℕ)
      → FramesHold decode_literals fs xss
      → length fs < fuel
      → (s : Streaming) → Reading whole xss s
      → drop s.pos bytes ≡ encode_frames fs
      → s.frame_count + length fs ≤ max_frames
      → Returns
          (λ blocks. literals_of blocks ≡ whole)
          (loop fuel (stream_round decode_literals bytes) s)
  unfolding encode_frames
  frames-Reading fs xss zero h room s r e count = absurd (omega arith)
  frames-Reading [] _ (suc fuel) no_frame room s r e count =
      Returns-loop s
        (Returns-value (ends_here e) (ended (sym (append-nil (literals_of s.blocks)) ∙ r.all)))
    where
      ends_here : drop s.pos bytes ≡ [] → stream_round decode_literals bytes s ≡ ok (done s.blocks)
      ends_here e =
          unfold stream_round in
          rw (ge→ltb s.pos (length bytes) (omega (arith, rest_bound bytes s.pos [] e)))
  frames-Reading (f ∷ fs) xss (suc fuel) (next_frame {behind} v h hs) room s r e count =
      Returns-loop s (
        Returns-map (goes_on (frames-Reading fs behind fuel hs (omega arith)))
          (stream_round-Reading f xss behind (encode_frames fs) s v h r e (omega (arith, count))))
    where
      goes_on :
          ((s' : Streaming)
            → Reading whole behind s'
            → drop s'.pos bytes ≡ encode_frames fs
            → s'.frame_count + length fs ≤ max_frames
            → Returns
                (λ blocks. literals_of blocks ≡ whole)
                (loop fuel (stream_round decode_literals bytes) s'))
          → (n : Next Streaming (List CompressedBlock))
          → (s' : Streaming) × (n ≡ again s')
            × ReadOn whole behind (s.pos + length (encode_frame f)) (s.frame_count + 1) s'
          → Onward fuel
              (stream_round decode_literals bytes)
              (λ blocks. literals_of blocks ≡ whole)
              n
      goes_on ih n (s', same, k) = rw same (
          onward (
            ih s' k.0 (rw (k.1) (rest-run bytes s.pos (encode_frame f) (encode_frames fs) e))
              (omega (arith, k.2, count))))

-- On the bytes of 1 to 1,000 Zstd frames of the format, shorter than 2^63 together, each behind up
-- to two skippable frames whose magic number ends in a digit below 8, with raw, RLE and compressed
-- blocks of at most 128 KiB, literals sections that are raw, RLE or carry their own Huffman tree,
-- and at most 100,000 blocks, `extract_literals` succeeds and returns one block for each block of
-- the frames, with its literals, if the Huffman decoder gives those of the Huffman sections and the
-- literals keep the limits on their sum and on their ratio to the bytes.
pub extract_literals-encode_frames :
    (decode_literals : DecodeLiterals) (f : Frame) (fs : List Frame) (xss : List (List ℕ))
    → FitsIsize (encode_frames (f ∷ fs))
    → FramesHold decode_literals (f ∷ fs) xss
    → length (f ∷ fs) ≤ max_frames
    → length xss ≤ max_blocks
    → sum_lengths xss ≤ max_total_literals
    → sum_lengths xss ≤ max_allowed_literals (encode_frames (f ∷ fs))
    → Returns
        (λ blocks. literals_of blocks ≡ xss)
        (extract_literals decode_literals (encode_frames (f ∷ fs)))
unfolding extract_literals encode_frames encode_frame
extract_literals-encode_frames decode_literals f fs xss fits h frames blocks small fair =
    let lead = encode_skippables f.skippables in
    let tail = encode_blocks f.blocks f.last ++ f.checksum in
    Returns-refuse _ _
      (ne→== _ 0 (λ empty. omega (
        arith,
        empty,
        length-append (lead ++ (encode_head f.head ++ tail)) (encode_frames fs),
        length-append lead (encode_head f.head ++ tail),
        length-append (encode_head f.head) tail,
        length-encode_head f.head,
      )))
      (frames-Reading decode_literals (encode_frames (f ∷ fs)) fits xss small fair blocks (f ∷ fs)
        xss (max_frames + 2) h (omega (arith, frames)) _ (record { all = refl; counted = refl })
        refl (omega (arith, frames)))
