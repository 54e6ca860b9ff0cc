-- ===== src/Walreader/Scan/Checksum.antt =====
-- `verify_record_crc` of src/walreader.rs against the bit-serial CRC.
use pg_walview.Prelude.{
  ℕ, ◌<◌, ◌≤◌, ◌≡◌, ◌∙◌, refl, ap, sym, true, false, List, ◌++◌, length, take, drop, bit_xor, ltb,
  ◌==◌, All, All-take, All-drop, All-append, IsByte, arith,
}
use pg_walview.Bindings.{Bindings, IsLayout}
use pg_walview.Crc32c
use pg_walview.Crc32c.{update, finish, update-append, serial, update-serial}
use pg_walview.Walreader.Scan.{verify_record_crc}

-- The CRC-32C of the standard: inverted before and behind.
abbrev pub serial_crc : List ℕ → ℕ
serial_crc bytes = bit_xor (serial 0xFFFF_FFFF bytes) 0xFFFF_FFFF

-- Of bytes that are too few for a record header the check fails. Else it compares the bit-serial CRC-32C
-- of the body, followed by the header up to its CRC, with the one in the header.
pub verify_record_crc-serial :
    (c : Bindings)
    → IsLayout c
    → (bytes : List ℕ) → All IsByte bytes
    → (length bytes < 24 → verify_record_crc c bytes ≡ false)
      × (24 ≤ length bytes
          → verify_record_crc c bytes
            ≡ (serial_crc (drop 24 bytes ++ take 20 bytes) == (c.xlog_record bytes).xl_crc))
unfolding verify_record_crc finish Crc32c.new
verify_record_crc-serial c layout bytes all =
    let size = layout.record_size in
    let before = layout.crc_offset in
    let register : update (update 0xFFFF_FFFF (drop c.size_of_xlog_record bytes))
          (take c.xlog_record_crc_offset bytes)
        ≡ serial 0xFFFF_FFFF (drop 24 bytes ++ take 20 bytes) =
      sym (
        update-append 0xFFFF_FFFF (drop c.size_of_xlog_record bytes)
          (take c.xlog_record_crc_offset bytes))
      ∙ ap (λ n. update 0xFFFF_FFFF (drop n bytes ++ take c.xlog_record_crc_offset bytes)) size
      ∙ ap (λ n. update 0xFFFF_FFFF (drop 24 bytes ++ take n bytes)) before
      ∙ update-serial 0xFFFF_FFFF (drop 24 bytes ++ take 20 bytes) (
          All-append IsByte (drop 24 bytes) (take 20 bytes) (All-drop IsByte 24 bytes all)
            (All-take IsByte 20 bytes all)) in
    (
      λ short.
          let test : ltb (length bytes) c.size_of_xlog_record ≡ true = ground (arith, size) in
          rw test refl,
      λ long.
          let test : ltb (length bytes) c.size_of_xlog_record ≡ false = ground (arith, size) in
          rw (test, register) refl,
    )
