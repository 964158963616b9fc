-- ===== src/Lz4/Framing.antt =====
-- The LZ4 frame format, written down on its own: the header with its descriptor, the blocks behind
-- a size of four bytes, and the end mark. Frames with a dictionary or with a checksum for each
-- block are left out.
pub mod Header
pub mod RoundTrip
use ziftsieve.Base.{
  bit, ℕ, ◌+◌, ◌*◌, ◌/◌, ◌%◌, ◌^◌, ◌≤◌, ◌<◌, ◌≡◌, List, [], ◌∷◌, ◌++◌, length, take, All, Bool,
  none,
}
use ziftsieve.Block.{CompressedBlock}
use ziftsieve.Lz4.{max_block_size, max_sequences_per_block}
use ziftsieve.Lz4.Format.{Sequence, Fits, encode_block, all_literals}

-- Bytes as they are, or the sequences of an LZ4 block.
pub data Payload : Type 0 where
  stored : List ℕ → Payload
  packed : List Sequence → List ℕ → Payload

abbrev pub payload_bytes : Payload → List ℕ
payload_bytes (stored bytes) = bytes
payload_bytes (packed ss last) = encode_block ss last

-- What the parser keeps of the literals.
abbrev pub payload_literals : Payload → List ℕ
payload_literals (stored bytes) = bytes
payload_literals (packed ss last) = take max_block_size (all_literals ss last)

-- The highest bit says that the payload is stored.
abbrev pub block_size : Payload → ℕ
block_size (stored bytes) = length bytes + 2 ^ 31
block_size (packed ss last) = length (encode_block ss last)

abbrev pub SequencesFit : Payload → Type 0
SequencesFit (stored bytes) = Unit {0}
SequencesFit (packed ss last) =
    All Fits ss × (length last ≤ max_block_size) × (length ss + 1 < max_sequences_per_block)

pub record IsPayload (p : Payload) : Type 0 where
  pub filled : 0 < length (payload_bytes p)
  pub small : length (payload_bytes p) ≤ max_block_size
  pub sequences : SequencesFit p

abbrev pub le_u32_bytes : ℕ → List ℕ
le_u32_bytes n = n % 256 ∷ n / 256 % 256 ∷ n / 256 ^ 2 % 256 ∷ n / 256 ^ 3 ∷ []

unfoldable pub encode_payload : Payload → List ℕ
encode_payload p = le_u32_bytes (block_size p) ++ payload_bytes p

unfoldable pub encode_payloads : List Payload → List ℕ
encode_payloads [] = 0 ∷ 0 ∷ 0 ∷ 0 ∷ []
encode_payloads (p ∷ ps) = encode_payload p ++ encode_payloads ps

-- The flags of the descriptor, the byte with the largest block size, the size of the content if
-- it is there, and the checksum of the header.
pub record Descriptor : Type 0 where
  pub independent : Bool
  pub has_size : Bool
  pub has_checksum : Bool
  pub largest : ℕ
  pub content_size : List ℕ
  pub header_checksum : ℕ

abbrev pub IsDescriptor : Descriptor → Type 0
IsDescriptor d = length d.content_size ≡ 8 * bit d.has_size

-- Version 1 in the two highest bits.
abbrev pub flags : Descriptor → ℕ
flags d = 4 * bit d.has_checksum + 8 * bit d.has_size + 32 * bit d.independent + 64

abbrev pub frame_magic : List ℕ
frame_magic = 0x04 ∷ 0x22 ∷ 0x4D ∷ 0x18 ∷ []

unfoldable pub encode_descriptor : Descriptor → List ℕ
encode_descriptor d =
    frame_magic ++ (flags d ∷ d.largest ∷ (d.content_size ++ d.header_checksum ∷ []))

-- The blocks of a frame, each at its offset.
unfoldable pub blocks_at : ℕ → List Payload → List CompressedBlock
blocks_at offset [] = []
blocks_at offset (p ∷ ps) =
    record {
      compressed_offset = offset;
      compressed_len = length (payload_bytes p);
      uncompressed_len = none;
      literals = payload_literals p;
    }
    ∷ blocks_at (offset + length (encode_payload p)) ps
