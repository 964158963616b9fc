-- ===== src/Lz4/Length.antt =====
-- `decode_length` of src/lz4.rs on lengths of the format.
use ziftsieve.Base.{
  ltb→ge, append_assoc, ℕ, zero, suc, ◌+◌, ◌-◌, ◌*◌, ◌/◌, ◌%◌, ◌^◌, ◌≤◌, ◌<◌, ◌≡◌, refl, ap, ◌∙◌,
  arith, List, [], ◌∷◌, ◌++◌, length, drop, replicate, ok, loop, index-rest, rest-one, rest_bound,
  loop_again, min, Bool-cases, inl, inr, length-append, length-replicate, loop_done, again, done,
  ◌>>◌, ltb, gt→leb, ge→ltb, lt→ltb,
}
use ziftsieve.Lz4.Format.{extension, long_part}
use ziftsieve.Lz4.{field_length, length_round, decode_length, max_block_size}

module _ (bytes : List ℕ) (pos len : ℕ) (rest : List ℕ) where
  length_round_last :
      (byte : ℕ)
      → drop pos bytes ≡ byte ∷ rest
      → byte < 255
      → len ≤ max_block_size
      → length_round bytes (record { pos = pos; len = len })
        ≡ ok (done (record { pos = pos + 1; len = len + byte }))
  unfolding length_round ◌>>◌
  length_round_last byte e b l =
      rw
        (
          gt→leb (length bytes) pos (omega (arith, rest_bound bytes pos _ e)),
          index-rest bytes pos byte rest e,
          ge→ltb (2 ^ 64 - 1) (len + byte) (omega arith),
          lt→ltb byte 255 b,
        )
        refl

  length_round_more :
      drop pos bytes ≡ 255 ∷ rest
      → len + 255 ≤ max_block_size
      → length_round bytes (record { pos = pos; len = len })
        ≡ ok (again (record { pos = pos + 1; len = len + 255 }))
  unfolding length_round ◌>>◌
  length_round_more e l =
      rw
        (
          gt→leb (length bytes) pos (omega (arith, rest_bound bytes pos _ e)),
          index-rest bytes pos 255 rest e,
          ge→ltb (2 ^ 64 - 1) (len + 255) (omega arith),
          ge→ltb max_block_size (len + 255) (omega arith),
        )
        refl

module _ (bytes rest : List ℕ) where
  length_loop :
      (k byte pos len fuel : ℕ)
      → drop pos bytes ≡ replicate k 255 ++ (byte ∷ rest)
      → byte < 255
      → len + 255 * k ≤ max_block_size
      → k < fuel
      → loop fuel (length_round bytes) (record { pos = pos; len = len })
        ≡ ok (record { pos = pos + (k + 1); len = len + (255 * k + byte) })
  length_loop k byte pos len zero e b l f = absurd (omega arith)
  length_loop zero byte pos len (suc fuel) e b l f =
      loop_done fuel (length_round bytes) _ _
        (length_round_last bytes pos len rest byte e b (omega arith))
      ∙ ap ok (ground arith)
  length_loop (suc k) byte pos len (suc fuel) e b l f =
      loop_again fuel (length_round bytes) _ _ (length_round_more bytes pos len _ e (omega arith))
      ∙ length_loop k byte (pos + 1) (len + 255) fuel (rest-one bytes pos 255 _ e) b (omega arith)
          (omega arith)
      ∙ ap ok (ground arith)

  -- Where the bytes at the position go on with the format's extension for `n`, and the sum stays
  -- within 4 MiB, `decode_length` returns the initial length plus `n` and the position behind the
  -- extension, whatever follows.
  pub decode_length-extension :
      (pos initial n : ℕ)
      → drop pos bytes ≡ extension n ++ rest
      → initial + n ≤ max_block_size
      → decode_length bytes pos initial
        ≡ ok (record { pos = pos + length (extension n); len = initial + n })
  unfolding decode_length extension
  decode_length-extension pos initial n e l =
      length_loop (n / 255) (n % 255) pos initial _ (e ∙ append_assoc _ _ rest) (omega arith)
        (omega arith)
        (omega (arith, rest_bound bytes pos _ e, length-append {0}, length-replicate {0}))
      ∙ ap ok (
          ground (
            arith,
            length-append (replicate (n / 255) 255) (n % 255 ∷ []),
            length-replicate {A = ℕ} (n / 255) 255,
          ))

  pub field_length-long_part :
      (pos n : ℕ)
      → drop pos bytes ≡ long_part n ++ rest
      → n ≤ max_block_size
      → field_length bytes pos (min n 15)
        ≡ ok (record { pos = pos + length (long_part n); len = n })
  unfolding field_length long_part
  field_length-long_part pos n e l = elim (Bool-cases (ltb n 15)) [
    | inl short ↦ ground arith
    | inr long ↦
        let g : 15 ≤ n = ltb→ge n 15 long in
        let m : min n 15 ≡ 15 = omega arith in
        rw (m, long)
          (decode_length-extension pos 15 (n - 15) (rw long at e) (omega arith)
            ∙ ap ok (ground arith))
  ]
