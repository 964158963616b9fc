-- ===== src/Zstd/Streaming/Format.antt =====
-- Zstd frames, written down on their own after RFC 8878: blocks, behind a header of 24 bits, and
-- frames of them.
use ziftsieve.Base.{
  bit, ℕ, ◌+◌, ◌*◌, ◌≤◌, ◌<◌, ◌≡◌, List, [], ◌∷◌, ◌++◌, length, replicate, All, Bool, true, false,
}
use ziftsieve.Zstd.Frame.Format.{
  Head, IsHead, encode_head, Skippable, IsSkippable, encode_skippables,
}
use ziftsieve.Zstd.Decoder.{DecodeLiterals}
use ziftsieve.Zstd.Decoder.Format.{le_bytes, Section, encode_section, StandsFor}
use ziftsieve.Zstd.Streaming.{max_block_size}

-- Bytes as they are; a byte and how often it is repeated; a literals section and the sequences.
pub data Body : Type 0 where
  raw_body : List ℕ → Body
  rle_body : ℕ → ℕ → Body
  compressed_body : Section → List ℕ → Body

abbrev pub body_type : Body → ℕ
body_type (raw_body bytes) = 0
body_type (rle_body count byte) = 1
body_type (compressed_body section sequences) = 2

abbrev pub body_data : Body → List ℕ
body_data (raw_body bytes) = bytes
body_data (rle_body count byte) = byte ∷ []
body_data (compressed_body section sequences) = encode_section section ++ sequences

abbrev pub body_size : Body → ℕ
body_size (raw_body bytes) = length bytes
body_size (rle_body count byte) = count
body_size (compressed_body section sequences) = length (encode_section section ++ sequences)

abbrev pub block_number : Bool → Body → ℕ
block_number last b = bit last + 2 * body_type b + 8 * body_size b

unfoldable pub encode_block : Bool → Body → List ℕ
encode_block last b = le_bytes 3 (block_number last b) ++ body_data b

unfoldable pub encode_blocks : List Body → Body → List ℕ
encode_blocks [] last = encode_block true last
encode_blocks (b ∷ bs) last = encode_block false b ++ encode_blocks bs last

-- The literals of a block, which is not longer than the format allows.
pub data Holds (decode_literals : DecodeLiterals) : Body → List ℕ → Type 0 where
  raw_holds : {bytes : List ℕ} → Holds decode_literals (raw_body bytes) bytes
  rle_holds : {count byte : ℕ} → Holds decode_literals (rle_body count byte) (replicate count byte)
  compressed_holds :
      {section : Section} {sequences literals : List ℕ}
      → StandsFor decode_literals section literals
      → Holds decode_literals (compressed_body section sequences) literals

pub record Frame : Type 0 where
  pub skippables : List Skippable
  pub head : Head
  pub blocks : List Body
  pub last : Body
  pub checksum : List ℕ

pub record IsFrame (f : Frame) : Type 0 where
  pub skippables_fit : All IsSkippable f.skippables
  pub few_skippables : length f.skippables < 3
  pub head_fits : IsHead f.head
  pub checksum_there : length f.checksum ≡ 4 * bit f.head.checksum

unfoldable pub encode_frame : Frame → List ℕ
encode_frame f =
    encode_skippables f.skippables
    ++ (encode_head f.head ++ (encode_blocks f.blocks f.last ++ f.checksum))

unfoldable pub encode_frames : List Frame → List ℕ
encode_frames [] = []
encode_frames (f ∷ fs) = encode_frame f ++ encode_frames fs

-- The literals of each block of a frame, in order, with those of the blocks behind it.
pub data BlocksHold (decode_literals : DecodeLiterals)
    : List Body → Body → List (List ℕ) → List (List ℕ) → Type 0 where
  last_block :
      {b : Body} {xs : List ℕ} {behind : List (List ℕ)}
      → body_size b ≤ max_block_size
      → Holds decode_literals b xs
      → BlocksHold decode_literals [] b (xs ∷ behind) behind
  next_block :
      {b last : Body} {bs : List Body} {xs : List ℕ} {xss behind : List (List ℕ)}
      → body_size b ≤ max_block_size
      → Holds decode_literals b xs
      → BlocksHold decode_literals bs last xss behind
      → BlocksHold decode_literals (b ∷ bs) last (xs ∷ xss) behind

-- The literals of each block of all frames, in order.
pub data FramesHold (decode_literals : DecodeLiterals) : List Frame → List (List ℕ) → Type 0 where
  no_frame : FramesHold decode_literals [] []
  next_frame :
      {f : Frame} {fs : List Frame} {xss behind : List (List ℕ)}
      → IsFrame f
      → BlocksHold decode_literals f.blocks f.last xss behind
      → FramesHold decode_literals fs behind
      → FramesHold decode_literals (f ∷ fs) xss
