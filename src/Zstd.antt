-- ===== src/Zstd.antt =====
-- src/zstd: the modules of the Zstd parser.
pub mod Decoder
pub mod Frame
pub mod Streaming
