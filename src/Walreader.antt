-- ===== src/Walreader.antt =====
-- src/walreader.rs: the segment reader and the record decoder, in the modules below.
pub mod Types
pub mod Decode
pub mod Record
pub mod Pages
pub mod Scan
