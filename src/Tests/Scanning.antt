-- ===== src/Tests/Scanning.antt =====
-- `WALReader` on the file of two pages.
use pg_walview.Prelude.{
  ℕ, ◌+◌, ◌*◌, ◌%◌, ◌<◌, ◌≤◌, ◌≡◌, refl, Bool, true, false, Option, none, some, List, [], ◌∷◌, ◌++◌,
  slice, u64_mod, arith, All, IsByte, length, take, drop, ◌==◌,
}
use pg_walview.Bindings.{postgres18, postgres18-IsLayout}
use pg_walview.Walreader.Types.{Range, WalRecordInfo, Result, ok}
use pg_walview.Walreader.Decode.Payloads.{
  decode_wal_record, decode_body, fill_blocks, fill_main, take_range,
}
use pg_walview.Walreader.Decode.Headers.{decode_headers, decode_header}
use pg_walview.Walreader.Decode.Monad.{u8, reject_if}
use pg_walview.Walmisc.{maxalign}
use pg_walview.Walmisc.Reader
use pg_walview.Crc32c
use pg_walview.Walreader.Pages.{
  end_page, pages_per_segment, lsn_to_page_no, lsn_to_page_offset, page_start_lsn, read_exact,
  is_long, all_zero, header_size, validate_page_header,
}
use pg_walview.Walreader.Pages.Lsn.{IsSegment, lsn_round_trip}
use pg_walview.Walreader.Scan.{
  load_page, load_page_or_eof, content_offset, ensure_page, find_next_record, push_range, Copy,
  copy_piece, next_page, copy_loop, copy_record_bytes, verify_record_crc, finish_record, load_body,
  load_record, load_next_record,
}
use pg_walview.Walreader.Scan.Content.{span, enter, places, behind}
use pg_walview.Walreader.Scan.Checksum.{serial_crc, verify_record_crc-serial}
use pg_walview.Walreader.Scan.Gather.{gather, gather-push_range}
use pg_walview.Walreader.Scan.Loading.{IsLoaded, load_page_or_eof-IsLoaded}
use pg_walview.Walreader.Scan.Outcome.{Ends}
use pg_walview.Walreader.Scan.Piece.{IsCopying}
use pg_walview.Walreader.Scan.Copying.{Copied, copy_loop-Ends}
use pg_walview.Walreader.Scan.RecordAt.{Loaded}
use pg_walview.Walreader.Scan.Records.{load_record-Ends}
use pg_walview.Walreader.Scan.Next.{find_next_record-wraps}
use pg_walview.Tests.Data.{record_bytes, source, reader, reader_at_end, first_ranges}

reader-IsSegment : IsSegment reader
reader-IsSegment = record {
  pages = 4;
  whole = refl;
  some_page = omega arith;
  few_pages = omega arith;
  big = omega arith;
  fits = omega arith;
  readable = omega arith;
}

reader-IsLoaded : IsLoaded reader
reader-IsLoaded = record { buffer = refl; inside = omega arith }

-- What a caller sees of a record.
abbrev summary : Result (Option WalRecordInfo) → Option (ℕ × Bool × List Range)
summary (ok (some info)) = some (info.lsn, info.crc_ok, info.file_ranges)
summary r = none

-- The record is found behind the long header, and its checksum is right.
first_record : summary (load_next_record postgres18 3 reader).0 ≡ some (808, true, first_ranges)
unfolding load_next_record find_next_record ensure_page content_offset load_record load_body
    copy_record_bytes copy_loop copy_piece next_page push_range finish_record verify_record_crc
    load_page_or_eof load_page validate_page_header read_exact is_long all_zero header_size end_page
    pages_per_segment lsn_to_page_no lsn_to_page_offset page_start_lsn maxalign decode_wal_record
    decode_body decode_headers decode_header fill_blocks fill_main take_range Reader.new Reader.skip
    Reader.remaining Reader.read_u8 Reader.take_bytes Crc32c.new Crc32c.update Crc32c.update_byte
    Crc32c.finish Crc32c.table Crc32c.build_table Crc32c.shift_bits u8 reject_if
first_record = refl

load_record-Ends_example :
    Ends
      (Loaded postgres18 (record reader { read_lsn = 808 }))
      (load_record postgres18 (record reader { read_lsn = 808 }))
load_record-Ends_example =
    load_record-Ends postgres18 postgres18-IsLayout (record reader { read_lsn = 808 }) (omega arith)
      (record { buffer = refl; inside = omega arith })

-- The copying of the whole record, from behind the long header.
abbrev start : Copy
start = record { offset = 40; remaining = 28; header_bytes = 0; file_ranges = [] }

abbrev start_trail : List ℕ
start_trail = places postgres18 reader 28 (0, 40)

abbrev start_goal : ℕ × ℕ
start_goal = behind postgres18 reader 28 (0, 40)

start-IsCopying : IsCopying postgres18 reader 68 28 start_trail start_goal start reader
unfolding gather
start-IsCopying = record {
  same = refl;
  loaded = reader-IsLoaded;
  on_page = omega arith;
  gathered = refl;
  inside = tt;
  appended = [];
  grown = refl;
  counted = refl;
  moved = refl;
  placed = refl;
  heading = refl;
}

copy_loop-Ends_example :
    Ends
      (Copied postgres18 postgres18-IsLayout reader 68 28 start_trail start_goal)
      (copy_loop postgres18 57 start reader)
copy_loop-Ends_example =
    copy_loop-Ends postgres18 postgres18-IsLayout reader 68 28 start_trail start_goal 57 start
      reader (omega arith) start-IsCopying (omega arith)

page_1_loads : (load_page_or_eof postgres18 1 reader).0 ≡ ok true
unfolding load_page_or_eof load_page validate_page_header read_exact is_long page_start_lsn all_zero
page_1_loads = refl

load_page_or_eof-IsLoaded_example :
    ((load_page_or_eof postgres18 1 reader).1.page_no ≡ 1)
    × IsLoaded (load_page_or_eof postgres18 1 reader).1
load_page_or_eof-IsLoaded_example = load_page_or_eof-IsLoaded postgres18 1 reader page_1_loads

lsn_round_trip_example :
    (lsn_to_page_no reader (page_start_lsn reader 1 + 24) ≡ 1)
    × (lsn_to_page_offset reader (page_start_lsn reader 1 + 24) ≡ 24)
    × (page_start_lsn reader 1 + 24 < 3 * 256 + 256)
unfolding reader-IsSegment
lsn_round_trip_example = lsn_round_trip reader reader-IsSegment 1 24 (omega arith) (omega arith)

gather-push_range_example :
    gather source (push_range (record { start = 40; end = 64 } ∷ []) 88 4)
    ≡ gather source (record { start = 40; end = 64 } ∷ []) ++ slice 88 4 source
gather-push_range_example =
    gather-push_range source (record { start = 40; end = 64 } ∷ []) 88 4
      ((omega arith, omega arith), tt)

at_end-IsSegment : IsSegment reader_at_end
at_end-IsSegment = record {
  pages = 2;
  whole = refl;
  some_page = omega arith;
  few_pages = omega arith;
  big = omega arith;
  fits = omega arith;
  readable = omega arith;
}

-- Behind the last page of the segment, the first record of page 0 is found again.
find_next_record-wraps_example :
    find_next_record postgres18 1 reader_at_end
    ≡ (ok true, record reader_at_end { read_lsn = (page_start_lsn reader_at_end 0 + 40) % u64_mod })
unfolding page_start_lsn ensure_page content_offset lsn_to_page_offset header_size is_long
    at_end-IsSegment
find_next_record-wraps_example =
    find_next_record-wraps postgres18 reader_at_end at_end-IsSegment 0 40 reader_at_end refl refl
      refl refl

-- The places of the record cross the header of page 1: 24 bytes on page 0, and the rest behind it.
start_places : start_trail ≡ span 40 24 ++ span 88 4
unfolding enter header_size is_long
start_places = refl

record_bytes-AreBytes : All IsByte record_bytes
record_bytes-AreBytes = ground arith

verify_record_crc-serial_example :
    (length record_bytes < 24 → verify_record_crc postgres18 record_bytes ≡ false)
    × (24 ≤ length record_bytes
        → verify_record_crc postgres18 record_bytes
          ≡ (serial_crc (drop 24 record_bytes ++ take 20 record_bytes) == 0x8848_7A3D))
verify_record_crc-serial_example =
    verify_record_crc-serial postgres18 postgres18-IsLayout record_bytes record_bytes-AreBytes
