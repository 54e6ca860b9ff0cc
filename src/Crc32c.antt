-- ===== src/Crc32c.antt =====
-- src/crc32c.rs: CRC-32C by a table of 256 words. The running register `Crc32c(u32)` is a number;
-- `Table` has the operations, `Serial` the bit-serial CRC of the standard to compare with.
mod Table
mod Serial
unfoldable pub use Table.{poly, shift_bits, build_table, table, new, update_byte, update, finish}
unfoldable pub use Table.{crc32c}
pub use Table.{update-append}
unfoldable pub use Serial.{serial_bits, serial}
pub use Serial.{update-serial}
