-- ===== src/Tests/Data.antt =====
-- A file of two pages of 64 bytes, of a segment of four: page 0 begins a record of 28 bytes, whose
-- header fills the page, and page 1 continues it.
use pg_walview.Prelude.{ℕ, ◌+◌, false, Option, none, some, List, [], ◌∷◌, ◌++◌, replicate, slice}
use pg_walview.Walmisc.Words.{to_le_bytes}
use pg_walview.Walreader.Types.{Range, WalRecordInfo}
use pg_walview.Walreader.Pages.{WalReader}
use pg_walview.Tui.App.{TableStates, App, first_app}

abbrev page_header : ℕ → ℕ → ℕ → List ℕ
page_header info pageaddr rem_len =
    to_le_bytes 2 0xD118
    ++ to_le_bytes 2 info
    ++ to_le_bytes 4 1
    ++ to_le_bytes 8 pageaddr
    ++ to_le_bytes 4 rem_len
    ++ to_le_bytes 4 0

-- The header of a heap insertion by transaction 742, and its main data of two bytes.
abbrev pub record_bytes : List ℕ
record_bytes =
    to_le_bytes 4 28
    ++ to_le_bytes 4 742
    ++ to_le_bytes 8 0
    ++ 0 ∷ 10 ∷ 0 ∷ 0 ∷ []
    ++ to_le_bytes 4 0x8848_7A3D
    ++ 255 ∷ 2 ∷ 0xDD ∷ 0xEE ∷ []

-- The file, for the address of its first page and the size of the segment.
abbrev pub source_at : ℕ → ℕ → List ℕ
source_at pageaddr seg_size =
    page_header 2 pageaddr 0
    ++ to_le_bytes 8 77
    ++ to_le_bytes 4 seg_size
    ++ to_le_bytes 4 64
    ++ slice 0 24 record_bytes
    ++ page_header 1 (pageaddr + 64) 4
    ++ slice 24 4 record_bytes
    ++ replicate 36 0

abbrev pub source : List ℕ
source = source_at 768 256

abbrev pub reader : WalReader
reader = record {
  tli = 1;
  seg_no = 3;
  seg_size = 256;
  xlog_blcksz = 64;
  sysid = 77;
  readable_pages = 2;
  source = source;
  page_buffer = slice 0 64 source;
  page_no = 0;
  read_lsn = 768;
  record_lsn = 0;
  record_buffer = [];
  done = false;
}

-- A reader of the same two pages as all of a segment of 128 bytes, at its end.
abbrev pub reader_at_end : WalReader
reader_at_end = record reader { seg_no = 6; seg_size = 128; read_lsn = 896 }

-- The record in the file: the rest of page 0, and four bytes behind the header of page 1.
abbrev pub first_ranges : List Range
first_ranges = record { start = 40; end = 64 } ∷ record { start = 88; end = 92 } ∷ []

-- The record at 0/328.
abbrev pub first_info : WalRecordInfo
first_info = record {
  lsn = 808;
  xlrec = record {
    xl_tot_len = 28;
    xl_xid = 742;
    xl_prev = 0;
    xl_info = 0;
    xl_rmid = 10;
    xl_crc = 0x8848_7A3D;
  };
  blocks = [];
  main_len = 2;
  main_range = some (record { start = 26; end = 28 });
  origin = none;
  top_xid = none;
  crc_ok = false;
  file_ranges = [];
  raw = record_bytes;
}

abbrev pub loaded_info : WalRecordInfo
loaded_info = record first_info { file_ranges = first_ranges }

-- The state of the list widget is the index that was selected.
abbrev pub indices : TableStates
indices = record { TableState = Option ℕ; default = none; select = λ o s. o; selected = λ s. s }

-- The viewer on the file, with its one record selected.
abbrev pub viewer : App indices
viewer =
    first_app indices [] (loaded_info ∷ []) none
      (record { bytes = source; start_lsn = 768; xlog_blcksz = 64 })
