-- ===== src/Gzip/Deflate.antt =====
-- src/gzip/deflate.rs: the blocks of a DEFLATE stream, of which only the literals are kept. A
-- function on `&mut` readers and blocks returns the new ones. A conversion that its arm of a `match`
-- keeps in range is left out, and so is the memory that is reserved ahead.
pub mod Tables
pub mod Trees
pub mod Block
pub mod Stream
pub mod Stored
mod Tests
