-- ===== src/Walreader/Scan/RecordAt.antt =====
-- What `load_next_record` of src/walreader.rs makes of the content at the read pointer: a record, or
-- none.
use pg_walview.Prelude.{
  ℕ, ◌+◌, ◌*◌, ◌%◌, ◌≤◌, ◌≡◌, true, false, Option, none, some, length, ◌⊎◌, if◌then◌else◌, All,
  u64_mod,
}
use pg_walview.Bindings.{Bindings}
use pg_walview.Walmisc.{maxalign, xlog_record_max_size}
use pg_walview.Walmisc.Words.{from_le_bytes}
use pg_walview.Walreader.Types.{WalRecordInfo}
use pg_walview.Walreader.Record.{record_parts}
use pg_walview.Walreader.Record.Tiles.{NonEmpty}
use pg_walview.Walreader.Decode.PayloadLaws.{Chain}
use pg_walview.Walreader.Decode.Layout.{IsDecoded}
use pg_walview.Walreader.Pages.{WalReader, lsn_to_page_offset}
use pg_walview.Walreader.Scan.{verify_record_crc}
use pg_walview.Walreader.Scan.Loading.{frame, IsLoaded}
use pg_walview.Walreader.Scan.Content.{places, behind, bytes_at, IsCutOff}
use pg_walview.Walreader.Scan.Gather.{gather, offsets_of, IsInside}

-- Where the read pointer stands: a page and an offset into it.
abbrev pub start_at : WalReader → ℕ × ℕ
start_at r = (r.page_no, lsn_to_page_offset r r.read_lsn)

-- The reader without what the loading of a record changes: the source and its geometry.
abbrev pub record_frame : WalReader → WalReader
record_frame r = record (frame r) { read_lsn = 0; record_lsn = 0; done = false }

module _ (c : Bindings) where
  -- The record that a reader at `r` returns, leaving `r'`: its raw bytes are the content of the file
  -- from the read pointer on, over the page headers, as many as `xl_tot_len` says; its file ranges, which
  -- lie in the file, name just the places of these bytes; its parts tile them; the checksum flag is the
  -- check of those bytes, and the reader stops on a bad one; the copying has come to the place behind
  -- the last byte, and the read pointer has moved on by the aligned length of the record and the page
  -- headers in between; and the source and its geometry are the same, with a page loaded.
  pub record IsRecordAt (r : WalReader) (info : WalRecordInfo) (r' : WalReader) : Type 0 where
    pub content : info.raw ≡ bytes_at r.source (places c r (length info.raw) (start_at r))
    pub placed : offsets_of info.file_ranges ≡ places c r (length info.raw) (start_at r)
    pub from_file : gather r.source info.file_ranges ≡ info.raw
    pub inside : All (IsInside r.source) info.file_ranges
    pub whole : length info.raw ≡ info.xlrec.xl_tot_len
    pub header_fits : 24 ≤ length info.raw
    pub limited : length info.raw ≤ xlog_record_max_size
    pub decoded : IsDecoded c info.raw r.read_lsn info
    pub tiles : Chain 0 (record_parts c info) (length info.raw) × All NonEmpty (record_parts c info)
    pub checked : info.crc_ok ≡ verify_record_crc c info.raw
    pub stops : r'.done ≡ (if info.crc_ok then r.done else true)
    pub header_bytes : ℕ
    pub end_offset : ℕ
    pub ends : (r'.page_no, end_offset) ≡ behind c r (length info.raw) (start_at r)
    pub on_page : end_offset ≤ r.xlog_blcksz
    pub came_to :
        r'.page_no * r.xlog_blcksz + end_offset
        ≡ r.page_no * r.xlog_blcksz
          + lsn_to_page_offset r r.read_lsn
          + (header_bytes + length info.raw)
    pub loaded : IsLoaded r'
    pub kept : record_frame r' ≡ record_frame r
    pub advanced :
        r'.read_lsn ≡ (r.read_lsn + (header_bytes + maxalign (length info.raw))) % u64_mod

  -- What the first four bytes of content at the read pointer say: the length of the record.
  abbrev pub record_len_at : WalReader → ℕ
  record_len_at r = from_le_bytes (bytes_at r.source (places c r 4 (start_at r)))

  -- There is no record at the read pointer: its length is zero, or its header or what that announces
  -- is cut off by a page without data.
  abbrev pub IsNoRecord : WalReader → Type 0
  IsNoRecord r =
      (record_len_at r ≡ 0)
      ⊎ IsCutOff r (behind c r 24 (start_at r))
      ⊎ IsCutOff r (behind c r (record_len_at r) (start_at r))

  -- The end of the readable data is remembered, where there is no record.
  abbrev pub Loaded : WalReader → Option WalRecordInfo → WalReader → Type 0
  Loaded r none r' = (r'.done ≡ true) × IsNoRecord r
  Loaded r (some info) r' = IsRecordAt r info r'
