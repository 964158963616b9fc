-- ===== src/Gzip.antt =====
-- src/gzip: the modules of the gzip parser.
pub mod Bits
pub mod Reader
pub mod Header
pub mod Huffman
pub mod Deflate
pub mod Member
pub mod Extract
