-- ===== src/Tests/Records.antt =====
-- The decoder, the parts of a record, and the checksum, on one record.
use pg_walview.Prelude.{ℕ, ◌<◌, ◌≡◌, ◌≢◌, refl, none, some, [], ◌∷◌, slice, take, All, arith}
use pg_walview.Bindings.{postgres18, postgres18-IsLayout}
use pg_walview.Crc32c.{update, serial, update-serial}
use pg_walview.Walmisc.Reader
use pg_walview.Walmisc.Reader.{read_le}
use pg_walview.Walmisc.Reader.Laws.{read_le-to_le_bytes}
use pg_walview.Walreader.Types.{ok, stuck}
use pg_walview.Walreader.Record.{record_parts, file_ranges_of}
use pg_walview.Walreader.Record.Tiles.{NonEmpty, record_parts-Tiles}
use pg_walview.Walreader.Record.FileRanges.{file_ranges_of-gathers}
use pg_walview.Walreader.Decode.Monad.{u8, reject_if}
use pg_walview.Walreader.Decode.Headers.{decode_headers, decode_header}
use pg_walview.Walreader.Decode.Payloads.{
  decode_wal_record, decode_body, fill_blocks, fill_main, take_range,
}
use pg_walview.Walreader.Decode.PayloadLaws.{Chain}
use pg_walview.Walreader.Decode.Layout.{
  IsDecoded, decode_wal_record-ne-stuck, decode_wal_record-IsDecoded,
}
use pg_walview.Walreader.Scan.Gather.{gather}
use pg_walview.Tests.Data.{record_bytes, source, first_ranges, first_info, loaded_info}

first_decoded : decode_wal_record postgres18 record_bytes 808 ≡ ok first_info
unfolding decode_wal_record decode_body decode_headers decode_header fill_blocks fill_main
    take_range u8 reject_if Reader.new Reader.skip Reader.remaining Reader.read_u8 Reader.take_bytes
first_decoded = refl

decode_wal_record-ne-stuck_example : decode_wal_record postgres18 record_bytes 808 ≢ stuck
decode_wal_record-ne-stuck_example =
    decode_wal_record-ne-stuck postgres18 record_bytes 808 postgres18-IsLayout (omega arith)

decode_wal_record-IsDecoded_example : IsDecoded postgres18 record_bytes 808 first_info
decode_wal_record-IsDecoded_example =
    decode_wal_record-IsDecoded postgres18 record_bytes 808 postgres18-IsLayout (omega arith)
      first_info first_decoded

record_parts-Tiles_example :
    Chain 0 (record_parts postgres18 first_info) 28
    × All NonEmpty (record_parts postgres18 first_info)
record_parts-Tiles_example =
    record_parts-Tiles postgres18 postgres18-IsLayout record_bytes 808 first_info (omega arith)
      first_decoded refl

gathered : gather source first_ranges ≡ record_bytes
unfolding gather
gathered = refl

file_ranges_of-gathers_example :
    gather source (file_ranges_of loaded_info (record { start = 20; end = 26 }))
    ≡ slice 20 6 record_bytes
file_ranges_of-gathers_example =
    file_ranges_of-gathers source loaded_info (record { start = 20; end = 26 })
      ((omega arith, omega arith), ((omega arith, omega arith), tt)) gathered

update-serial_example :
    update 0xFFFF_FFFF (49 ∷ 50 ∷ 51 ∷ []) ≡ serial 0xFFFF_FFFF (49 ∷ 50 ∷ 51 ∷ [])
update-serial_example =
    update-serial 0xFFFF_FFFF (49 ∷ 50 ∷ 51 ∷ []) (omega arith, (omega arith, (omega arith, tt)))

-- 0x1234 behind one byte.
read_le-to_le_bytes_example :
    (read_le 2 (record { buf = 7 ∷ 0x34 ∷ 0x12 ∷ 9 ∷ []; pos = 1 })
      ≡ (some 0x1234, record { buf = 7 ∷ 0x34 ∷ 0x12 ∷ 9 ∷ []; pos = 3 }))
    × ((k : ℕ)
        → k < 2
        → read_le 2 (record { buf = 7 ∷ take k (0x34 ∷ 0x12 ∷ []); pos = 1 })
          ≡ (none, record { buf = 7 ∷ take k (0x34 ∷ 0x12 ∷ []); pos = 1 }))
read_le-to_le_bytes_example = read_le-to_le_bytes 2 0x1234 (7 ∷ []) (9 ∷ []) (omega arith)
