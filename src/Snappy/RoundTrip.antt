-- ===== src/Snappy/RoundTrip.antt =====
-- `extract_literals` of src/snappy.rs on streams of the framing format.
use ziftsieve.Base.{
  ℕ, zero, suc, ◌+◌, ◌-◌, ◌*◌, ◌/◌, ◌%◌, ◌^◌, ◌≤◌, ◌<◌, ◌≡◌, refl, ap, ◌∙◌, max, arith, List, [],
  ◌∷◌, ◌++◌, length, drop, ok, ◌>>=◌, ◌>>◌, loop, again, done, ltb, gt→leb, ge→ltb, tests,
  index-rest, rest-one, rest_bound, rest-run, slice-rest, take_all, slice-behind, append-nil,
  append_assoc, length-append, Returns, gives, Returns-bind, Returns-refuse, Returns-if,
  Returns-map, Returns-step, Returns-value, Returns-loop, onward, ended, not, ◌==◌,
}
use ziftsieve.Block.{CompressedBlock}
use ziftsieve.Extract.{starts_with-append}
use ziftsieve.Snappy.{
  Snap, Stream, or_err, decompress_chunk, raw_chunk, handle_snappy_chunk, decode_chunk_len,
  flush_block, flush_large, take_chunk, chunk_round, flush_last, extract_literals, stream_at,
  stream_identifier, max_chunk_size, max_total_literals, max_chunks_per_stream,
  max_decompression_ratio,
}
use ziftsieve.Snappy.Format.{
  Chunk, chunk_type, chunk_data, encode_len, encode_chunks, encode_stream, Holds, decompressed, raw,
  padded, identified, AllHold, none_left, one_more,
}

handle_snappy_chunk-Holds :
    (snap : Snap) (c : Chunk) (xs current : List ℕ) (pos : ℕ)
    → Holds snap c xs
    → length xs ≤ max_total_literals
    → handle_snappy_chunk snap (chunk_type c) (chunk_data c) current pos ≡ ok (current ++ xs)
unfolding handle_snappy_chunk decompress_chunk raw_chunk or_err ◌>>=◌ ◌>>◌
handle_snappy_chunk-Holds snap c xs current pos (decompressed {crc} {payload} four len vec) small =
    rw (
      ge→ltb (length (crc ++ payload)) 4 (omega (arith, length-append crc payload)),
      slice-behind crc payload 4 four,
      len,
      ge→ltb max_total_literals (length xs) small,
      vec,
    )
handle_snappy_chunk-Holds snap c xs current pos (raw {crc} {b} {payload} four) small = rw (
  gt→leb (length (crc ++ b ∷ payload)) 4 (omega (arith, length-append crc (b ∷ payload))),
  slice-behind crc (b ∷ payload) 4 four,
)
handle_snappy_chunk-Holds snap c xs current pos padded small = rw append-nil
handle_snappy_chunk-Holds snap c xs current pos identified small = rw append-nil

decode_chunk_len-encode_len :
    (bytes rest : List ℕ) (start n : ℕ)
    → drop start bytes ≡ encode_len n ++ rest
    → n ≤ max_chunk_size
    → decode_chunk_len bytes start ≡ ok (n, 3)
unfolding decode_chunk_len ◌>>=◌ ◌>>◌
decode_chunk_len-encode_len bytes rest start n e small =
    let l : length bytes - start ≡ suc (suc (suc (length rest))) = rest_bound bytes start _ e in
    let second = rest-one bytes start _ _ e in
    let third = rest-run bytes start (n % 256 ∷ n / 256 % 256 ∷ []) _ e in
    let same : n % 256 + 256 * (n / 256 % 256) + 256 ^ 2 * (n / 256 ^ 2) ≡ n = omega arith in
    rw (
      ge→ltb (length bytes) (start + 3) (omega arith),
      index-rest bytes start _ _ e,
      index-rest bytes (start + 1) _ _ second,
      index-rest bytes (start + 2) _ _ third,
      same,
    )

length-zero : (xs : List ℕ) → length xs ≡ 0 → xs ≡ []
length-zero [] e = refl
length-zero (x ∷ xs) e = absurd (omega arith)

-- The literals of all blocks, one behind the other.
unfoldable pub joined : List CompressedBlock → List ℕ
joined [] = []
joined (b ∷ bs) = b.literals ++ joined bs

joined-append : (bs cs : List CompressedBlock) → joined (bs ++ cs) ≡ joined bs ++ joined cs
unfolding joined
joined-append [] cs = refl
joined-append (b ∷ bs) cs = rw (joined-append bs cs, append_assoc)

-- The state has read these literals.
abbrev HasRead : List ℕ → Stream → Type 0
HasRead xs s =
    (s.total_literals ≡ length (joined s.blocks)) × (joined s.blocks ++ s.current_literals ≡ xs)

module _ (xs : List ℕ) (fits : length xs ≤ max_total_literals) where
  -- The same position, and nothing lost.
  abbrev KeptFrom : Stream → Stream → Type 0
  KeptFrom s s' = HasRead xs s' × (s'.pos ≡ s.pos) × (s'.chunk_count ≡ s.chunk_count)

  read_size : (s : Stream) → HasRead xs s → s.total_literals + length s.current_literals ≡ length xs
  read_size s (t, e) =
      omega (arith, length-append (joined s.blocks) s.current_literals, ap length e)

  pushed :
      (s : Stream) (b : CompressedBlock)
      → HasRead xs s
      → b.literals ≡ s.current_literals
      → (s.total_literals + length s.current_literals ≡ length (joined (s.blocks ++ (b ∷ []))))
        × (joined (s.blocks ++ (b ∷ [])) ++ [] ≡ xs)
  unfolding joined
  pushed s b h l =
      let all : joined (s.blocks ++ (b ∷ [])) ≡ xs =
        joined-append s.blocks (b ∷ []) ∙ rw (append-nil, l) h.1 in
      (rw all (read_size s h), rw append-nil all)

  flush_block-HasRead :
      (s : Stream)
      → HasRead xs s
      → Returns (λ s'. KeptFrom s s' × (s'.current_literals ≡ [])) (flush_block s)
  unfolding flush_block
  flush_block-HasRead s (t, e) =
      Returns-refuse _ _ (ge→ltb max_total_literals _ (omega (arith, read_size s (t, e))))
        (gives ((pushed s _ (t, e) refl, refl, refl), refl))

  flush_large-HasRead : (s : Stream) → HasRead xs s → Returns (KeptFrom s) (flush_large s)
  unfolding flush_large
  flush_large-HasRead s h =
      Returns-if (ltb (32 * 1024) (length s.current_literals))
        (λ large. Returns-map (λ s' k. k.0) (flush_block-HasRead s h)) (λ _. gives (h, refl, refl))

  flush_last-HasRead :
      (s : Stream) → HasRead xs s → Returns (λ blocks. joined blocks ≡ xs) (flush_last s)
  unfolding flush_last
  flush_last-HasRead s h =
      Returns-if (not (length s.current_literals == 0))
        (λ some_left.
          Returns-bind (flush_block-HasRead s h) λ s' k. gives (rw (k.1, append-nil) at k.0.0.1))
        (λ none_left. gives (rw (length-zero s.current_literals (ground arith), append-nil) at h.1))

module _ (snap : Snap) (bytes : List ℕ) (c : Chunk) (cs : List Chunk) (seen xs : List ℕ) where
  -- Behind the chunk, all of its literals are read.
  abbrev BehindChunk : Stream → Stream → Type 0
  BehindChunk s s' =
      HasRead (seen ++ xs) s'
      × (drop s'.pos bytes ≡ encode_chunks cs)
      × (s'.chunk_count ≡ s.chunk_count)

  take_chunk-Holds :
      (s : Stream)
      → drop s.pos bytes ≡ chunk_data c ++ encode_chunks cs
      → length (chunk_data c) ≤ max_chunk_size
      → Holds snap c xs
      → HasRead seen s
      → length (seen ++ xs) ≤ max_total_literals
      → s.pos ≤ length bytes
      → Returns
          (λ n. (s' : Stream) × (n ≡ again s') × BehindChunk s s')
          (take_chunk snap bytes s (chunk_type c) (length (chunk_data c)))
  unfolding take_chunk
  take_chunk-Holds s e short holds (t, r) small within =
      let n = length (chunk_data c) in
      let room : s.pos + n ≤ length bytes =
        omega
          (arith, rest_bound bytes s.pos _ e, length-append (chunk_data c) (encode_chunks cs)) in
      Returns-refuse _ _ (ge→ltb max_chunk_size n short) (
        Returns-refuse _ _ (ge→ltb (length bytes) (s.pos + n) room) (
          Returns-step _
            (slice-rest bytes s.pos n (chunk_data c) (encode_chunks cs) e (omega arith) room
              ∙ ap ok (take_all n (chunk_data c) (omega arith)))
            (Returns-step _
              (handle_snappy_chunk-Holds snap c xs s.current_literals s.pos holds
                (omega (arith, length-append seen xs)))
              (Returns-bind
                (flush_large-HasRead (seen ++ xs) small
                  (record s { current_literals = s.current_literals ++ xs })
                  (t, rw (← append_assoc, r) refl))
                λ s' k. gives (
                  _,
                  refl,
                  (k.0, rw k.1 (rest-run bytes s.pos (chunk_data c) (encode_chunks cs) e), k.2),
                )))))

  chunk_round-Holds :
      (s : Stream)
      → drop s.pos bytes ≡ encode_chunks (c ∷ cs)
      → length (chunk_data c) ≤ max_chunk_size
      → Holds snap c xs
      → HasRead seen s
      → length (seen ++ xs) ≤ max_total_literals
      → length seen ≤ max (length bytes * max_decompression_ratio) (1024 * 1024)
      → s.chunk_count + 1 < max_chunks_per_stream
      → Returns
          (λ n.
            (s' : Stream) × (n ≡ again s')
            × BehindChunk (record s { chunk_count = s.chunk_count + 1 }) s')
          (chunk_round snap bytes s)
  unfolding chunk_round encode_chunks
  chunk_round-Holds s e short holds r small ratio few =
      let left : length bytes - s.pos
          ≡ suc (suc (suc (suc (length (chunk_data c ++ encode_chunks cs))))) =
        rest_bound bytes s.pos _ e in
      let a = rest-one bytes s.pos _ _ e in
      let size = read_size seen (omega (arith, length-append seen xs)) s r in
      let b : drop (s.pos + 1 + 3) bytes ≡ chunk_data c ++ encode_chunks cs =
        rest-run bytes (s.pos + 1) (encode_len (length (chunk_data c))) _ a in
      Returns-if (ltb s.pos (length bytes))
        (λ _. Returns-refuse _ _ (gt→leb max_chunks_per_stream _ few) (
          Returns-refuse _ _ (ge→ltb max_total_literals _ (omega (arith, length-append seen xs))) (
            Returns-refuse _ _ (ge→ltb _ _ (omega (arith, length-append seen xs))) (
              Returns-step _ (index-rest bytes s.pos _ _ e) (
                Returns-step _ (decode_chunk_len-encode_len bytes _ (s.pos + 1) _ a short) (
                  take_chunk-Holds
                    (record s { pos = s.pos + 1 + 3; chunk_count = s.chunk_count + 1 }) b short
                    holds r small (omega arith)))))))
        (λ h. absurd (omega tests))

chunk_round_end :
    (snap : Snap) (bytes : List ℕ) (s : Stream)
    → drop s.pos bytes ≡ encode_chunks []
    → chunk_round snap bytes s ≡ ok (done s)
unfolding chunk_round encode_chunks
chunk_round_end snap bytes s e =
    rw (ge→ltb s.pos (length bytes) (omega (arith, rest_bound bytes s.pos [] e)))

module _ (snap : Snap) (bytes : List ℕ) (whole : List ℕ) where
  -- The rounds of the loop, one for each chunk that is left.
  scan_chunks :
      (cs : List Chunk) (seen xs : List ℕ) (s : Stream) (fuel : ℕ)
      → AllHold snap cs xs
      → drop s.pos bytes ≡ encode_chunks cs
      → HasRead seen s
      → seen ++ xs ≡ whole
      → length whole ≤ max_total_literals
      → length whole ≤ max (length bytes * max_decompression_ratio) (1024 * 1024)
      → s.chunk_count + length cs < max_chunks_per_stream
      → length cs < fuel
      → Returns (HasRead whole) (loop fuel (chunk_round snap bytes) s)
  scan_chunks cs seen xs s zero all e r w small ratio few f = absurd (omega arith)
  scan_chunks [] seen [] s (suc fuel) none_left e r w small ratio few f =
      Returns-loop s
        (Returns-value (chunk_round_end snap bytes s e) (ended (rw (← w, append-nil) r)))
  scan_chunks [] seen (_ ∷ _) s (suc fuel) all e r w small ratio few f = elim all [ ]
  scan_chunks (c ∷ cs) seen _ s (suc fuel) (one_more {xs} {ys} short holds all) e r w small ratio
        few f =
      let sizes : length seen + (length xs + length ys) ≡ length whole =
        omega (arith, length-append seen (xs ++ ys), length-append xs ys, ap length w) in
      Returns-loop s (
        Returns-map
          (λ n h.
            let (s', same, b) = h in
            rw same (
              onward (
                scan_chunks cs (seen ++ xs) ys s' fuel all b.1 b.0 (append_assoc seen xs ys ∙ w)
                  small ratio (omega arith) (omega arith))))
          (chunk_round-Holds snap bytes c cs seen xs s e short holds r
            (omega (arith, length-append seen xs)) (omega arith) (omega arith)))

length-encode_chunks : (cs : List Chunk) → length cs ≤ length (encode_chunks cs)
unfolding encode_chunks
length-encode_chunks [] = omega arith
length-encode_chunks (c ∷ cs) =
    omega (arith, length-encode_chunks cs, length-append (chunk_data c) (encode_chunks cs))

-- On the bytes of a Snappy stream of fewer than 100,000 chunks, each compressed, raw and not empty,
-- padding or a stream identifier, and of at most 64 KiB with its checksum, whose contents stay
-- within 256 MiB and within 250 times the length of the stream or 1 MiB, `extract_literals` returns
-- blocks that hold the contents of the chunks, in order.
pub extract_literals-encode_stream :
    (snap : Snap) (cs : List Chunk) (xs : List ℕ)
    → AllHold snap cs xs
    → length cs < max_chunks_per_stream
    → length xs ≤ max_total_literals
    → length xs ≤ max (length (encode_stream cs) * max_decompression_ratio) (1024 * 1024)
    → Returns (λ blocks. joined blocks ≡ xs) (extract_literals snap (encode_stream cs))
unfolding extract_literals encode_stream joined
extract_literals-encode_stream snap cs xs all few small ratio =
    Returns-refuse (length (encode_stream cs) == 0) _ (ground arith) (
      rw (starts_with-append stream_identifier (encode_chunks cs)) (
        Returns-bind
          (scan_chunks snap (stream_identifier ++ encode_chunks cs) xs cs [] xs (stream_at 10) _ all
            refl (refl, refl) refl small ratio (omega arith)
            (omega (arith, length-encode_chunks cs)))
          λ s r. flush_last-HasRead xs small s r))
