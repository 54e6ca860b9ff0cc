-- ===== src/Tests/Opening.antt =====
-- The loop of `App::new` on the file of two pages.
use pg_walview.Prelude.{ℕ, ◌*◌, ◌≡◌, refl, false, some, List, [], slice, arith}
use pg_walview.Bindings.{Bindings, IsLayout, postgres18, postgres18-IsLayout}
use pg_walview.Walreader.Types.{ok}
use pg_walview.Walreader.Scan.{
  new, open_first_page, open_geometry, reader_of, is_power_of_two, load_page,
}
use pg_walview.Walreader.Scan.Opening.{IsOpened, new-IsOpened}
use pg_walview.Walreader.Pages.{
  WalReader, pages_per_segment, lsn_to_page_no, lsn_to_page_offset, read_exact,
  validate_page_header, is_long, all_zero, page_start_lsn,
}
use pg_walview.Walreader.Scan.Progress.{IsPartial}
use pg_walview.Tui.Open.{Scanned, read_records, show_scanned, app_new}
use pg_walview.Tui.Open.Reading.{IsReading, IsScan, read_records-Ends, app_new-shows}
use pg_walview.Tests.Data.{source_at, reader, indices}

reader-IsPartial : IsPartial reader
unfolding pages_per_segment
reader-IsPartial = record { short = omega arith; present = omega arith; counted = omega arith }

reader-IsReading : IsReading reader
unfolding lsn_to_page_no lsn_to_page_offset
reader-IsReading = record {
  segment = record {
    pages = 4;
    whole = refl;
    some_page = omega arith;
    few_pages = omega arith;
    big = omega arith;
    fits = omega arith;
    readable = omega arith;
  };
  partial = reader-IsPartial;
  loaded = record { buffer = refl; inside = omega arith };
  at = refl;
  near = omega arith;
}

read_records-Ends_example :
    (scanned : Scanned) × (read_records postgres18 136 reader ≡ some scanned)
    × IsScan postgres18 reader scanned
unfolding lsn_to_page_no lsn_to_page_offset
read_records-Ends_example =
    read_records-Ends postgres18 postgres18-IsLayout 136 reader reader-IsReading (omega arith)

-- A build with pages of 64 bytes, and a file of two of them, of segment 3 of 1 MiB.
abbrev small_pages : Bindings
small_pages = record postgres18 { blcksz = 64; default_xlog_blcksz = 64 }

small_pages-IsLayout : IsLayout small_pages
small_pages-IsLayout = record {
  page_header_size = refl;
  long_page_header_size = refl;
  record_size = refl;
  crc_offset = refl;
  tot_len_first = λ bytes h. refl;
}

abbrev file : List ℕ
file = source_at 3145728 1048576

abbrev opened_reader : WalReader
opened_reader = record {
  tli = 1;
  seg_no = 3;
  seg_size = 1048576;
  xlog_blcksz = 64;
  sysid = 77;
  readable_pages = 2;
  source = file;
  page_buffer = slice 0 64 file;
  page_no = 0;
  read_lsn = 3145728;
  record_lsn = 0;
  record_buffer = [];
  done = false;
}

file_accepted : new small_pages file 1 0 3 ≡ ok opened_reader
unfolding new open_first_page open_geometry reader_of is_power_of_two load_page read_exact
    validate_page_header is_long all_zero page_start_lsn
file_accepted = refl

new-IsOpened_example : IsOpened file opened_reader
new-IsOpened_example =
    new-IsOpened small_pages small_pages-IsLayout file 1 0 3 opened_reader file_accepted
      (omega arith) (omega arith)

app_new-shows_example :
    (scanned : Scanned) × (app_new small_pages indices [] (some file) file 1 0 3
      ≡ show_scanned small_pages indices []
          (some file)
          scanned.records
          scanned.stop_reason
          scanned.reader)
    × IsScan small_pages opened_reader scanned
    × (opened_reader.source ≡ file)
    × (opened_reader.read_lsn ≡ 3 * 1048576)
    × (opened_reader.done ≡ false)
app_new-shows_example =
    app_new-shows small_pages small_pages-IsLayout indices [] (some file) file 1 0 3 opened_reader
      file_accepted (omega arith) (omega arith) (omega arith)
