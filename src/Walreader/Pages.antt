-- ===== src/Walreader/Pages.antt =====
-- `WALReader` of src/walreader.rs: its state, the LSN arithmetic and the loading of pages. The
-- source is a file held in memory, as the `Cursor` of the tests; a read past its end is an I/O error.
pub mod Exec
pub mod Lsn
use pg_walview.Prelude.{
  ℕ, zero, suc, ◌+◌, ◌-◌, ◌*◌, ◌/◌, ◌%◌, min, bit_and, Bool, true, false, not, ◌&&◌, ◌||◌, Option,
  none, some, List, [], ◌∷◌, length, slice, ltb, leb, ◌==◌, if◌then◌else◌, has_bits, u32_mod,
  u64_mod, take, replicate, ◌++◌,
}
use pg_walview.Bindings.{Bindings, XLogPageHeader}
use pg_walview.Walmisc.{xlp_long_header, xlp_all_flags}
use pg_walview.Walreader.Types.{
  WalReaderError, io, zeroed_page, invalid_page_magic_number, invalid_page_flags,
  unexpected_page_addr, unexpected_time_line_id, missing_long_header, empty_segment,
  invalid_xlog_block_size, invalid_segment_size, file_too_large, Result, ok, err, stuck,
}

pub record WalReader : Type 0 where
  pub tli : ℕ
  pub seg_no : ℕ
  pub seg_size : ℕ
  pub xlog_blcksz : ℕ
  pub sysid : ℕ
  pub readable_pages : ℕ
  pub source : List ℕ
  pub page_buffer : List ℕ
  pub page_no : ℕ
  pub read_lsn : ℕ
  pub record_lsn : ℕ
  pub record_buffer : List ℕ
  pub done : Bool

-- `NO_PAGE`
abbrev pub no_page : ℕ
no_page = u32_mod - 1

unfoldable pub segment_start_lsn : WalReader → ℕ
segment_start_lsn r = r.seg_no * r.seg_size % u64_mod

unfoldable pub pages_per_segment : WalReader → ℕ
pages_per_segment r = r.seg_size / r.xlog_blcksz % u32_mod

unfoldable pub lsn_to_page_no : WalReader → ℕ → ℕ
lsn_to_page_no r lsn = lsn % r.seg_size / r.xlog_blcksz % u32_mod

unfoldable pub lsn_to_page_offset : WalReader → ℕ → ℕ
lsn_to_page_offset r lsn = lsn % r.seg_size % r.xlog_blcksz

unfoldable pub page_start_lsn : WalReader → ℕ → ℕ
page_start_lsn r page_no = (r.seg_no * r.seg_size + page_no * r.xlog_blcksz) % u64_mod

-- `cmp::min(self.pages_per_segment(), self.readable_pages)`
unfoldable pub end_page : WalReader → ℕ
unfolding pages_per_segment
end_page r = min (pages_per_segment r) r.readable_pages

-- `seek` and `read_exact`
unfoldable pub read_exact : ℕ → ℕ → List ℕ → Option (List ℕ)
read_exact start len source =
    if leb (start + len) (length source) then some (slice start len source) else none

unfoldable pub is_long : XLogPageHeader → Bool
is_long h = has_bits h.xlp_info xlp_long_header

unfoldable pub all_zero : List ℕ → Bool
all_zero [] = true
all_zero (b ∷ bytes) = b == 0 && all_zero bytes

module _ (c : Bindings) where
  unfoldable pub header_size : XLogPageHeader → ℕ
  unfolding is_long
  header_size h = if is_long h then c.size_of_long_page_header else c.size_of_page_header

  -- The checks on the header in the page buffer. `!XLP_ALL_FLAGS` is over 16 bits.
  unfoldable pub validate_page_header : WalReader → ℕ → Result (Unit {0})
  unfolding is_long all_zero page_start_lsn
  validate_page_header r page_no =
      let page_lsn = page_start_lsn r page_no in
      let h = c.page_header r.page_buffer in
      if ltb (length r.page_buffer) c.size_of_page_header
      then err (zeroed_page page_lsn)
      else if not (h.xlp_magic == c.xlog_page_magic % 65536)
      then (if all_zero r.page_buffer
          then err (zeroed_page page_lsn)
          else err (invalid_page_magic_number h.xlp_magic page_lsn))
      else if has_bits h.xlp_info (65535 - xlp_all_flags)
      then err (invalid_page_flags h.xlp_info page_lsn)
      else if (if is_long h then not (page_no == 0) else page_no == 0)
      then err (invalid_page_flags h.xlp_info page_lsn)
      else if not (h.xlp_pageaddr == page_lsn)
      then err (unexpected_page_addr h.xlp_pageaddr page_lsn)
      else if not (h.xlp_tli == r.tli)
      then err (unexpected_time_line_id h.xlp_tli r.tli page_lsn)
      else ok tt

  -- `header()`: `new` has made sure that the buffer holds one.
  abbrev pub read_page_header : WalReader → XLogPageHeader
  read_page_header r = c.page_header r.page_buffer
