-- ===== src/Gzip/Reader/Tests.antt =====
-- The bit reader of src/gzip/bitstream.rs at concrete inputs.
use ziftsieve.Base.{
  ℕ, ◌≡◌, refl, arith, List, [], ◌∷◌, ok, err, FitsIsize, Returns, invalid_data,
  truncated_bitstream, index, loop, ◌>>=◌, ◌>>◌, refuse,
}
use ziftsieve.Gzip.Bits.{Bytes, value}
use ziftsieve.Gzip.Reader.{BitReader, new, refill, refill_round, refill_for, take_bits, read_bits}
use ziftsieve.Gzip.Reader.Valid.{Valid, new-Valid, position}
use ziftsieve.Gzip.Reader.Read.{ReadsBits, read_bits-Valid, read_bits_truncated}

abbrev five : List ℕ
five = 0b10110101 ∷ 2 ∷ 3 ∷ 4 ∷ 5 ∷ []

five-Bytes : Bytes five
five-Bytes = (omega arith, (omega arith, (omega arith, (omega arith, (omega arith, tt)))))

five-FitsIsize : FitsIsize five
five-FitsIsize = omega arith

at_one : Valid five (new five 1)
at_one = new-Valid five 1 five-Bytes (omega arith)

-- The three lowest bits, and the reader in the middle of the byte.
abbrev in_byte : BitReader
in_byte = record {
  bytes = five;
  byte_pos = 0;
  bit_pos = 3;
  buffer = 0xa0806056;
  bits_in_buffer = 37;
  next_byte_to_pull = 5;
}

in_byte-Valid : Valid five in_byte
unfolding value
in_byte-Valid = record {
  same = refl;
  whole = omega arith;
  room = omega arith;
  small = omega arith;
  sync = refl;
  within = omega arith;
  left = refl;
}

read_three_bits : read_bits (new five 0) 3 ≡ ok (record { value = 5; reader = in_byte })
unfolding read_bits refill_for refill refill_round take_bits loop index ◌>>=◌ ◌>>◌ refuse
read_three_bits = refl

read_bits-Valid_example : Returns (ReadsBits five (position in_byte) 9) (read_bits in_byte 9)
read_bits-Valid_example =
    read_bits-Valid five five-Bytes five-FitsIsize in_byte 9 in_byte-Valid (omega arith)
      (omega arith)

read_bits_truncated_example : read_bits (new five 4) 9 ≡ err (invalid_data 4 truncated_bitstream)
read_bits_truncated_example =
    read_bits_truncated five five-Bytes five-FitsIsize (new five 4) 9
      (new-Valid five 4 five-Bytes (omega arith)) (omega arith) (omega arith)
