-- ===== src/Walreader/Decode.antt =====
-- `decode_wal_record` of src/walreader.rs: the descriptor loop, the block header, the payload pass;
-- below them, what they return.
pub mod Monad
pub mod Outcome
pub mod Headers
pub mod Payloads
pub mod HeaderLaws
pub mod PayloadLaws
pub mod Layout
