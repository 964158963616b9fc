-- ===== src/Gzip/Extract/Tests.antt =====
-- `extract_literals` of src/gzip/mod.rs at concrete inputs, with a sum of bytes for a checksum.
use ziftsieve.Base.{
  ℕ, ◌+◌, ◌%◌, ◌^◌, arith, List, [], ◌∷◌, some, Ensures, none, Returns, FitsIsize, ◌≡◌, refl,
}
use ziftsieve.Gzip.Bits.{Bytes}
use ziftsieve.Gzip.Header.Format.{Header, encode_header}
use ziftsieve.Gzip.Deflate.Stored.{literals_of, encode_runs}
use ziftsieve.Gzip.Extract.RoundTrip.{StoredMember, encode_members, extract_literals-encode_members}
use ziftsieve.Gzip.Member.{Libraries, check_decompression}
use ziftsieve.Gzip.Member.Ends.{Ends, check_decompression-Ends}
use ziftsieve.Gzip.Extract.{extract_literals}
use ziftsieve.Gzip.Extract.Safe.{Extracted, extract_literals-Extracted}

abbrev sum_of : ℕ → List ℕ → ℕ
sum_of n [] = n
sum_of n (b ∷ bytes) = sum_of ((n + b) % 2 ^ 32) bytes

-- A decoder that gives a full chunk again and again.
abbrev summing : Libraries
summing = record {
  Hasher = ℕ;
  hasher = 0;
  update = sum_of;
  finalize = λ n. n;
  GzDecoder = Unit;
  gz_decoder = λ bytes. tt;
  read = λ decoder size. some (size, tt);
}

-- A member with the two bytes 97 and 98 in a stored block.
abbrev stored_member : List ℕ
stored_member =
    0x1f ∷ 0x8b ∷ 8 ∷ 0 ∷ 0 ∷ 0 ∷ 0 ∷ 0 ∷ 0 ∷ 3 ∷ 1 ∷ 2 ∷ 0 ∷ 0xfd ∷ 0xff ∷ 97 ∷ 98 ∷ 195 ∷ 0 ∷ 0
    ∷ 0 ∷ 2 ∷ 0 ∷ 0 ∷ 0 ∷ []

stored_member-Bytes : Bytes stored_member
stored_member-Bytes = search arith

extract_literals-Extracted_example :
    Ensures
      (Extracted summing stored_member stored_member-Bytes (omega arith))
      (extract_literals summing stored_member)
extract_literals-Extracted_example =
    extract_literals-Extracted summing stored_member stored_member-Bytes (omega arith)

check_decompression-Ends_example : Ends summing tt (check_decompression summing stored_member)
check_decompression-Ends_example = check_decompression-Ends summing stored_member

abbrev plain_header : Header
plain_header = record {
  is_text = none;
  m0 = 0;
  m1 = 0;
  m2 = 0;
  m3 = 0;
  xfl = 0;
  os = 3;
  extra = none;
  name = none;
  comment = none;
  crc = none;
}

-- A member with two blocks, and one with an empty block.
abbrev two_members : List StoredMember
two_members =
    record {
      header = plain_header;
      run = 97 ∷ 98 ∷ [];
      runs = (99 ∷ []) ∷ [];
      trailer = record { c0 = 38; c1 = 1; c2 = 0; c3 = 0; s0 = 3; s1 = 0; s2 = 0; s3 = 0 };
    }
    ∷ record {
      header = plain_header;
      run = [];
      runs = [];
      trailer = record { c0 = 0; c1 = 0; c2 = 0; c3 = 0; s0 = 0; s1 = 0; s2 = 0; s3 = 0 };
    }
    ∷ []

two_members-Bytes : Bytes (encode_members two_members)
unfolding encode_members encode_header encode_runs
two_members-Bytes = search arith

two_members-FitsIsize : FitsIsize (encode_members two_members)
unfolding encode_members encode_header encode_runs
two_members-FitsIsize = omega arith

extract_literals-encode_members_example :
    Returns
      (λ blocks. literals_of blocks ≡ (97 ∷ 98 ∷ []) ∷ (99 ∷ []) ∷ [] ∷ [])
      (extract_literals summing (encode_members two_members))
extract_literals-encode_members_example =
    extract_literals-encode_members summing two_members two_members-Bytes two_members-FitsIsize
      (
        ((tt, tt, tt), (omega arith, (omega arith, tt)), refl),
        (((tt, tt, tt), (omega arith, tt), refl), tt),
      )
      (omega arith) (omega arith) (omega arith) (omega arith)
