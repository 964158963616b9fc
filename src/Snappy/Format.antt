-- ===== src/Snappy/Format.antt =====
-- The Snappy framing format, written down on its own: chunks, and the bytes that stand for them.
-- Not among them are the reserved types 0x80 to 0xfd, which the format has readers skip and
-- src/snappy.rs refuses.
use ziftsieve.Base.{ℕ, ◌/◌, ◌%◌, ◌^◌, ◌≤◌, ◌≡◌, List, [], ◌∷◌, ◌++◌, length, some}
use ziftsieve.Snappy.{Snap, max_chunk_size, stream_identifier}

-- A compressed or raw chunk has its checksum, of four bytes, in front of its payload; padding and a
-- repeated stream identifier have any bytes.
pub data Chunk : Type 0 where
  compressed : List ℕ → List ℕ → Chunk
  uncompressed : List ℕ → List ℕ → Chunk
  padding : List ℕ → Chunk
  identifier : List ℕ → Chunk

abbrev pub chunk_type : Chunk → ℕ
chunk_type (compressed crc payload) = 0x00
chunk_type (uncompressed crc payload) = 0x01
chunk_type (padding bytes) = 0xfe
chunk_type (identifier bytes) = 0xff

abbrev pub chunk_data : Chunk → List ℕ
chunk_data (compressed crc payload) = crc ++ payload
chunk_data (uncompressed crc payload) = crc ++ payload
chunk_data (padding bytes) = bytes
chunk_data (identifier bytes) = bytes

abbrev pub encode_len : ℕ → List ℕ
encode_len n = n % 256 ∷ n / 256 % 256 ∷ n / 256 ^ 2 ∷ []

unfoldable pub encode_chunks : List Chunk → List ℕ
encode_chunks [] = []
encode_chunks (c ∷ cs) =
    chunk_type c ∷ (encode_len (length (chunk_data c)) ++ (chunk_data c ++ encode_chunks cs))

unfoldable pub encode_stream : List Chunk → List ℕ
encode_stream cs = stream_identifier ++ encode_chunks cs

-- What the chunk holds, once it is decompressed. A raw chunk is not empty.
pub data Holds (snap : Snap) : Chunk → List ℕ → Type 0 where
  decompressed :
      {crc payload literals : List ℕ}
      → length crc ≡ 4
      → snap.decompress_len payload ≡ some (length literals)
      → snap.decompress_vec payload ≡ some literals
      → Holds snap (compressed crc payload) literals
  raw :
      {crc : List ℕ} {b : ℕ} {payload : List ℕ}
      → length crc ≡ 4
      → Holds snap (uncompressed crc (b ∷ payload)) (b ∷ payload)
  padded : {bytes : List ℕ} → Holds snap (padding bytes) []
  identified : {bytes : List ℕ} → Holds snap (identifier bytes) []

-- The chunks hold these literals, one behind the other, and none has more than 64 KiB with its
-- checksum, which is what the parser accepts.
pub data AllHold (snap : Snap) : List Chunk → List ℕ → Type 0 where
  none_left : AllHold snap [] []
  one_more :
      {c : Chunk} {cs : List Chunk} {xs ys : List ℕ}
      → length (chunk_data c) ≤ max_chunk_size
      → Holds snap c xs
      → AllHold snap cs ys
      → AllHold snap (c ∷ cs) (xs ++ ys)
