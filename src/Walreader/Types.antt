-- ===== src/Walreader/Types.antt =====
-- The data of src/walreader.rs: errors, decoded records and their parts.
use pg_walview.Prelude.{ℕ, ◌-◌, Bool, Option, List, leb}
use pg_walview.Bindings.{XLogRecord, RelFileLocator}

pub data WalReaderError : Type 0 where
  io : WalReaderError
  invalid_record_length : ℕ → ℕ → WalReaderError
  truncated_record : ℕ → WalReaderError
  invalid_block_id : ℕ → ℕ → WalReaderError
  out_of_order_block_id : ℕ → ℕ → WalReaderError
  no_data_included : ℕ → WalReaderError
  invalid_data_length : ℕ → ℕ → WalReaderError
  invalid_hole_data : ℕ → ℕ → ℕ → ℕ → WalReaderError
  invalid_hole_flag : ℕ → ℕ → ℕ → WalReaderError
  invalid_compress_flag : ℕ → ℕ → WalReaderError
  same_rel_not_found : ℕ → WalReaderError
  invalid_record_crc : ℕ → WalReaderError
  invalid_page_magic_number : ℕ → ℕ → WalReaderError
  invalid_page_flags : ℕ → ℕ → WalReaderError
  zeroed_page : ℕ → WalReaderError
  unexpected_page_addr : ℕ → ℕ → WalReaderError
  unexpected_time_line_id : ℕ → ℕ → ℕ → WalReaderError
  missing_long_header : WalReaderError
  empty_segment : WalReaderError
  invalid_xlog_block_size : ℕ → WalReaderError
  invalid_segment_size : ℕ → WalReaderError
  file_too_large : ℕ → ℕ → WalReaderError

-- `Result<A, WALReaderError>`. `stuck` is no value of the source: a loop ran out of fuel.
pub data Result {ℓ} (A : Type ℓ) : Type ℓ where
  ok : A → Result A
  err : WalReaderError → Result A
  stuck : Result A

-- `Range<usize>`
pub record Range : Type 0 where
  pub start : ℕ
  pub end : ℕ

abbrev pub range_len : Range → ℕ
range_len r = r.end - r.start

abbrev pub range_is_empty : Range → Bool
range_is_empty r = leb r.end r.start

pub record WalFullPageImage : Type 0 where
  pub compressed : Bool
  pub apply_image : Bool
  pub hole_offset : ℕ
  pub hole_len : ℕ
  pub bimg_info : ℕ
  pub bimg_len : ℕ
  pub bimg_range : Range

pub record WalBlockData : Type 0 where
  pub block_id : ℕ
  pub rlocator : RelFileLocator
  pub forknum : ℕ
  pub flags : ℕ
  pub blocknum : ℕ
  pub image : Option WalFullPageImage
  pub data_len : ℕ
  pub data_range : Option Range

pub record WalRecordInfo : Type 0 where
  pub lsn : ℕ
  pub xlrec : XLogRecord
  pub blocks : List WalBlockData
  pub main_len : ℕ
  pub main_range : Option Range
  pub origin : Option ℕ
  pub top_xid : Option ℕ
  pub crc_ok : Bool
  pub file_ranges : List Range
  pub raw : List ℕ

pub data RecordPart : Type 0 where
  header : RecordPart
  descriptors : RecordPart
  fpi : ℕ → RecordPart
  block_data : ℕ → RecordPart
  main_data : RecordPart
