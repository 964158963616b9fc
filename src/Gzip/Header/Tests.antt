-- ===== src/Gzip/Header/Tests.antt =====
-- The gzip header of src/gzip/header.rs at a concrete input.
use ziftsieve.Base.{arith, [], ◌∷◌, some, none, Returns}
use ziftsieve.Gzip.Reader.{new}
use ziftsieve.Gzip.Reader.StandsAt.{StandsAt, new-StandsAt}
use ziftsieve.Gzip.Bits.{Bytes}
use ziftsieve.Gzip.Header.{parse_gzip_header}
use ziftsieve.Gzip.Header.Format.{Header, encode_header}
use ziftsieve.Gzip.Header.RoundTrip.{parse_gzip_header-StandsAt}

-- With extra data and a name.
abbrev named : Header
named = record {
  is_text = none;
  m0 = 1;
  m1 = 2;
  m2 = 3;
  m3 = 4;
  xfl = 0;
  os = 3;
  extra = some (9 ∷ 0 ∷ []);
  name = some (97 ∷ 98 ∷ []);
  comment = none;
  crc = none;
}

named-Bytes : Bytes (encode_header named (7 ∷ []))
unfolding encode_header
named-Bytes = search arith

parse_gzip_header-StandsAt_example :
    Returns
      (StandsAt (encode_header named (7 ∷ [])) (7 ∷ []))
      (parse_gzip_header (new (encode_header named (7 ∷ [])) 0))
parse_gzip_header-StandsAt_example =
    parse_gzip_header-StandsAt (encode_header named (7 ∷ [])) named-Bytes
      (unfold encode_header in omega arith) named (7 ∷ []) (new (encode_header named (7 ∷ [])) 0)
      (omega arith, ((omega arith, (omega arith, tt)), omega arith), tt)
      (new-StandsAt (encode_header named (7 ∷ [])) named-Bytes)
