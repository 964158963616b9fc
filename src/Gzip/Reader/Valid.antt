-- ===== src/Gzip/Reader/Valid.antt =====
-- What a `BitReader` stands for: a position in the bits of its bytes.
use ziftsieve.Base.{ℕ, ◌+◌, ◌*◌, ◌/◌, ◌^◌, ◌≤◌, ◌<◌, ◌≡◌, refl, arith, List, length, drop}
use ziftsieve.Gzip.Bits.{Bytes, value, value-drop}
use ziftsieve.Gzip.Reader.{BitReader, new}

-- The number of bits that are read.
abbrev pub position : BitReader → ℕ
position r = 8 * r.byte_pos + r.bit_pos

-- The reader of `bytes` is sound: buffer and bytes from `next_byte_to_pull` on together are the
-- bits that are left.
pub record Valid (bytes : List ℕ) (r : BitReader) : Type 0 where
  pub same : r.bytes ≡ bytes
  pub whole : r.bit_pos < 8
  pub room : r.bits_in_buffer ≤ 64
  pub small : r.buffer < 2 ^ r.bits_in_buffer
  pub sync : position r + r.bits_in_buffer ≡ 8 * r.next_byte_to_pull
  pub within : r.next_byte_to_pull ≤ length bytes
  pub left :
      r.buffer + 2 ^ r.bits_in_buffer * value (drop r.next_byte_to_pull bytes)
      ≡ value bytes / 2 ^ position r

pub new-Valid :
    (bytes : List ℕ) (start : ℕ)
    → Bytes bytes
    → start ≤ length bytes
    → Valid bytes (new bytes start)
new-Valid bytes start h l = record {
  same = refl;
  whole = omega arith;
  room = omega arith;
  small = omega arith;
  sync = omega arith;
  within = l;
  left =
      let e : 8 * start + 0 ≡ 8 * start = omega arith in
      rw e (rw (← value-drop start bytes h) (omega arith));
}
