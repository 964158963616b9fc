-- ===== src/Lib.antt =====
-- ziftsieve searches compressed data without decompressing it: it extracts the literal bytes of
-- compressed blocks, puts a Bloom filter over each block, and skips the blocks whose filter rules
-- a pattern out. This library models the code under src/ in antt.
--
-- Parts, and the files that model them:
--   Base      names shared by all modules; `Outcome` (Rust's `Result`, with a panic as a third
--             case), indexing and slicing that panic out of range, and `loop`, which runs a round
--             on fuel. `Ensures P r` says: no panic, and `P` of the value if there is one.
--   Platform  what the code calls and does not contain: `f64`, the crate bit-vec with the laws that
--             it documents, and `fnv1a_64` of the crate hashkit. Platform/Listed is an instance.
--   Block     src/extract/mod.rs: `CompressedBlock` and `verify_contains`.
--   Extract   src/extract/mod.rs: `extract_from_bytes`, over a record of parsers, which
--             Extract/Formats fills with those of the parts below; src/detect.rs.
--             Extract/Tarball models src/extract/tarball.rs: the header of a member, its name
--             (Tarball/Name, with `from_utf8_lossy`), the decompression, over flate2, and the walk.
--   Lz4       src/lz4.rs: `decode_length`, `extract_literals`, `parse_frame_header` and
--             `parse_lz4_blocks`. Lz4/Format describes the block format on its own, and
--             Lz4/Framing the frame format.
--   Snappy    src/snappy.rs: the frames and their chunks, over the decoder of the crate snap.
--             Snappy/Format describes the framing on its own, for
--             the four types of chunk that the source reads.
--   Gzip      src/gzip: Gzip/Reader models `BitReader` of bitstream.rs. Gzip/Bits reads a slice as
--             one number, so that bits are remainders of it. Gzip/Huffman models
--             `HuffmanDecoder` of bitstream.rs; Huffman/Tree and Huffman/Paths read its
--             nodes as a map from paths to symbols, and Huffman/Canonical describes the codes of
--             RFC 1951 on its own. Gzip/Deflate models deflate.rs: Deflate/Trees the dynamic
--             trees, Deflate/Block the three kinds of block, Deflate/Stream the loop over blocks
--             (Stream/Tiled says where they lie in the bits).
--             Gzip/Header and Gzip/Member model header.rs, over crc32fast and flate2 as a record
--             `Libraries`; Member/Ends says how the decompression of a member ends. Gzip/Extract
--             models `extract_literals` of mod.rs.
--   Zstd      src/zstd: Zstd/Frame models frame.rs, what stands before the blocks of a frame;
--             Zstd/Decoder decoder.rs, the literals of a compressed block; Zstd/Streaming
--             streaming.rs, the frames and their blocks. Each has a Format, which describes what
--             it parses on its own. `decode_literals` of huffman.rs is a parameter.
--   Bloom     src/bloom: hashes, `BloomFilter` and `BloomFilterBuilder`.
--   Index     src/index.rs: the candidates of a pattern.
--   Ngram     `bloom_from_literals` of src/lib.rs, over the n-gram filter of flashsieve.
--   Builder   src/builder.rs: both builders; Builder/Complete joins parser, filters and
--             search, and Builder/Search does so from the bytes on.
--
-- A byte slice is a list of numbers and a position is an index into it, as in the source. A method
-- on `&mut self` returns the new state. `usize` has 64 bits; additions that the source leaves
-- unchecked stay below the length of a slice and its small constants. A loop over a slice is given
-- one round more than there are bytes, and every round takes a byte at least. The loop of `refill`
-- has nine rounds, since eight bytes fill its buffer; the one of `skip_zero_terminated` has a round
-- for each byte that it allows and one to refuse the next. The loops of DEFLATE count up to a limit
-- that the source sets (instructions of a block, blocks of a stream, members, decompressed bytes)
-- and have a round or two more, and so do those of the Zstd frames and of tar members; the walk of a
-- nested archive goes down seven levels, one more than the depths that the source allows. The sums of u16 in `calculate_next_codes` wrap, as in a
-- release build; all others in DEFLATE stay in range.
--
-- Not modelled: reserving capacity, which does not change a value; the statistics in floating
-- point (fill_ratio, estimated_fpr, bloom_stats, literal_density); the texts of errors behind
-- their first words; the copy of the tables in src/gzip/deflate_tables.rs, which nothing uses;
-- the Huffman decoder of Zstd with its FSE tables and bit readers (huffman.rs, fse.rs and
-- bit_io.rs), which is adapted from the library ruzstd.
pub mod Base
pub mod Platform
pub mod Block
pub mod Bloom
pub mod Extract
pub mod Index
pub mod Builder
pub mod Ngram
pub mod Lz4
pub mod Snappy
pub mod Gzip
pub mod Zstd
