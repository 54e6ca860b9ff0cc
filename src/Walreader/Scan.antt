-- ===== src/Walreader/Scan.antt =====
-- The methods of `WALReader` in src/walreader.rs that move through the segment: loading a page,
-- finding the next record, copying its bytes, and `load_next_record` over them; and `new`.
pub mod Loading
pub mod Content
pub mod Begins
pub mod Gather
pub mod Outcome
pub mod Ensuring
pub mod FoundAt
pub mod Search
pub mod Piece
pub mod Turning
pub mod Copying
pub mod Checksum
pub mod RecordAt
pub mod Finishing
pub mod Records
pub mod Next
pub mod Progress
pub mod Geometry
pub mod Opening
use pg_walview.Prelude.{
  ℕ, zero, suc, ◌+◌, ◌-◌, ◌*◌, ◌/◌, ◌%◌, min, max, bit_and, Bool, true, false, not, ◌&&◌, ◌||◌,
  Option, none, some, List, [], ◌∷◌, ◌++◌, length, slice, take, drop, replicate, ltb, leb, ◌==◌,
  if◌then◌else◌, has_bits, u32_mod, u64_mod,
}
use pg_walview.Bindings.{Bindings}
use pg_walview.Crc32c
use pg_walview.Walmisc.{maxalign, xlp_first_is_contrecord, xlog_record_max_size}
use pg_walview.Walmisc.Words.{from_le_bytes}
use pg_walview.Walreader.Types.{
  WalReaderError, io, zeroed_page, invalid_record_length, invalid_page_magic_number,
  missing_long_header, empty_segment, invalid_xlog_block_size, invalid_segment_size, file_too_large,
  Range, WalRecordInfo, Result, ok, err, stuck,
}
use pg_walview.Walreader.Decode.Payloads.{decode_wal_record}
use pg_walview.Walreader.Pages.{
  WalReader, no_page, lsn_to_page_no, lsn_to_page_offset, page_start_lsn, end_page, read_exact,
  is_long, all_zero, header_size, validate_page_header, read_page_header,
}
use pg_walview.Walreader.Pages.Exec.{Exec, after, ◌>>=◌}

abbrev pub M : Type 0 → Type 0
M A = Exec WalReader A

abbrev pub return : {A : Type 0} → A → M A
return a r = (ok a, r)

-- A page never written is the end of the data.
abbrev pub or_eof : Result (Unit {0}) → Result Bool
or_eof (ok _) = ok true
or_eof (err (zeroed_page lsn)) = ok false
or_eof (err e) = err e
or_eof stuck = stuck

module _ (c : Bindings) where
  -- The bytes read stay in the page buffer when the header is refused; the page number does not
  -- change then.
  abbrev accept : ℕ → Result (Unit {0}) → M (Unit {0})
  accept page_no (ok _) r = (ok tt, record r { page_no = page_no })
  accept page_no (err e) r = (err e, r)
  accept page_no stuck r = (stuck, r)

  abbrev load_bytes : ℕ → Option (List ℕ) → M (Unit {0})
  load_bytes page_no none r = (err io, r)
  load_bytes page_no (some bytes) r =
      let r' = record r { page_buffer = bytes } in
      accept page_no (validate_page_header c r' page_no) r'

  unfoldable pub load_page : ℕ → M (Unit {0})
  load_page page_no r =
      load_bytes page_no (read_exact (page_no * r.xlog_blcksz) r.xlog_blcksz r.source) r

  unfoldable pub load_page_or_eof : ℕ → M Bool
  load_page_or_eof page_no r = let (loaded, r') = load_page page_no r in (or_eof loaded, r')

  -- Where the record content of the loaded page begins, for a reader at `read_lsn`: an offset into
  -- the page, or `none` where a continued record fills the page.
  unfoldable pub content_offset : WalReader → Option ℕ
  content_offset r =
      let h = read_page_header c r in
      let h_size = header_size c h in
      let offset = max h_size (lsn_to_page_offset r r.read_lsn) in
      if offset == h_size && has_bits h.xlp_info xlp_first_is_contrecord
      then (let rem = maxalign h.xlp_rem_len in
          if leb (r.xlog_blcksz - h_size) rem then none else some (h_size + rem))
      else some offset

  -- `Self::load_page_or_eof` where the page wanted is not the one in the buffer.
  unfoldable pub ensure_page : ℕ → M Bool
  ensure_page page_no r = if r.page_no == page_no then (ok true, r) else load_page_or_eof page_no r

  -- Where the content of a loaded page begins, or on to the next page: `again` is the loop.
  abbrev pub at_content : (WalReader → Result Bool × WalReader) → ℕ → Option ℕ → M Bool
  at_content again page_no none r = again (record r { read_lsn = page_start_lsn r (page_no + 1) })
  at_content again page_no (some offset) r =
      (ok true, record r { read_lsn = (page_start_lsn r page_no + offset) % u64_mod })

  -- The loop of `find_next_record`, with fuel.
  unfoldable pub find_next_record : ℕ → M Bool
  find_next_record zero r = (stuck, r)
  find_next_record (suc fuel) r =
      let page_no = lsn_to_page_no r r.read_lsn in
      let again = λ (r' : WalReader). find_next_record fuel r' in
      let found : Result Bool × WalReader =
        (do
          loaded ← ensure_page page_no
          if loaded then (λ r'. at_content again page_no (content_offset r') r') else return false)
          r in
      if leb (end_page r) page_no then (ok false, r) else found

-- `file_ranges`: a piece that is adjacent to the last range lengthens it.
unfoldable pub push_range : List Range → ℕ → ℕ → List Range
push_range [] start len = record { start = start; end = start + len } ∷ []
push_range (last ∷ []) start len =
    if last.end == start
    then record last { end = last.end + len } ∷ []
    else last ∷ record { start = start; end = start + len } ∷ []
push_range (range ∷ next ∷ ranges) start len = range ∷ push_range (next ∷ ranges) start len

-- The variables of `copy_record_bytes`.
pub record Copy : Type 0 where
  pub offset : ℕ
  pub remaining : ℕ
  pub header_bytes : ℕ
  pub file_ranges : List Range

-- The data may end at a turn of the page.
abbrev pub if_some : Option Copy → (Copy → M (Option Copy)) → M (Option Copy)
if_some none f = return none
if_some (some st) f = f st

-- A piece of the page.
unfoldable pub copy_piece : Copy → WalReader → Copy × WalReader
copy_piece st r =
    let len = min st.remaining (r.xlog_blcksz - st.offset) in
    let start = r.page_no * r.xlog_blcksz + st.offset in
    (
      record st {
        offset = st.offset + len;
        remaining = st.remaining - len;
        file_ranges = push_range st.file_ranges start len;
      },
      record r { record_buffer = r.record_buffer ++ slice st.offset len r.page_buffer },
    )

abbrev pub stop : {A : Type 0} → Result (Option A) → M (Option A)
stop result r = (result, record r { done = true })

abbrev pub or_stop : Option Copy → (Copy → M (Option WalRecordInfo)) → M (Option WalRecordInfo)
or_stop none f = stop (ok none)
or_stop (some st) f = f st

module _ (c : Bindings) where
  -- The page boundary: on to the next page, or the end of the data.
  unfoldable pub next_page : Copy → M (Option Copy)
  next_page st r =
      let next = r.page_no + 1 in
      if leb (end_page r) next
      then (ok none, r)
      else (do
        loaded ← load_page_or_eof c next
        if loaded
            then (λ r'.
                let h_size = header_size c (read_page_header c r') in
                (
                  ok (
                      some
                        (record st { offset = h_size; header_bytes = st.header_bytes + h_size })),
                  r',
                ))
            else return none)
          r

  -- `while remaining > 0`, with fuel.
  unfoldable pub copy_loop : ℕ → Copy → M (Option Copy)
  copy_loop zero st r = if st.remaining == 0 then (ok (some st), r) else (stuck, r)
  copy_loop (suc fuel) st r =
      let again = λ (st' : Copy) (r' : WalReader). copy_loop fuel st' r' in
      let turned : Result (Option Copy) × WalReader =
        (do crossed ← next_page st; if_some crossed again) r in
      let (st', r') = copy_piece st r in
      let copied : Result (Option Copy) × WalReader = again st' r' in
      if st.remaining == 0
      then (ok (some st), r)
      else if st.offset == r.xlog_blcksz
      then turned
      else copied

  -- Each turn of a page is followed by a piece of one byte at least.
  unfoldable pub copy_record_bytes : ℕ → ℕ → List Range → M (Option Copy)
  copy_record_bytes offset len file_ranges =
      copy_loop (2 * len + 1)
        (record { offset = offset; remaining = len; header_bytes = 0; file_ranges = file_ranges })

  -- The CRC of the body, then of the header up to `xl_crc`.
  unfoldable pub verify_record_crc : List ℕ → Bool
  verify_record_crc bytes =
      if ltb (length bytes) c.size_of_xlog_record
      then false
      else (let body = Crc32c.update Crc32c.new (drop c.size_of_xlog_record bytes) in
          let whole = Crc32c.update body (take c.xlog_record_crc_offset bytes) in
          Crc32c.finish whole == (c.xlog_record bytes).xl_crc)

  -- A decoded record goes to the caller; past a bad CRC the reader stops.
  abbrev pub deliver : List Range → Result WalRecordInfo → M (Option WalRecordInfo)
  deliver file_ranges (ok info) r =
      let crc_ok = verify_record_crc r.record_buffer in
      (
        ok (some (record info { crc_ok = crc_ok; file_ranges = file_ranges })),
        record r { done = if crc_ok then r.done else true },
      )
  deliver file_ranges (err e) r = (err e, r)
  deliver file_ranges stuck r = (stuck, r)

  -- What follows the copying of the whole record.
  unfoldable pub finish_record : ℕ → ℕ → List Range → M (Option WalRecordInfo)
  finish_record tot_len header_bytes file_ranges r =
      deliver file_ranges (decode_wal_record c r.record_buffer r.record_lsn)
        (record r { read_lsn = (r.read_lsn + (header_bytes + maxalign tot_len)) % u64_mod })

  -- The body of the record, behind a header that has been copied.
  unfoldable pub load_body : Copy → M (Option WalRecordInfo)
  load_body st r =
      let tot_len = from_le_bytes (slice 0 4 r.record_buffer) in
      if tot_len == 0
      then stop (ok none) r
      else if ltb tot_len c.size_of_xlog_record || ltb xlog_record_max_size tot_len
      then stop (err (invalid_record_length tot_len r.record_lsn)) r
      else (do
        copied ← copy_record_bytes st.offset (tot_len - c.size_of_xlog_record) st.file_ranges
        or_stop copied
            λ st'. finish_record tot_len (st.header_bytes + st'.header_bytes) st'.file_ranges)
          r

  -- The record at `read_lsn`.
  unfoldable pub load_record : M (Option WalRecordInfo)
  load_record r =
      (do
        copied ← copy_record_bytes (lsn_to_page_offset r r.read_lsn) c.size_of_xlog_record []
        or_stop copied load_body)
        (record r { record_lsn = r.read_lsn; record_buffer = [] })

  -- `fuel` is for the loop of `find_next_record`.
  unfoldable pub load_next_record : ℕ → M (Option WalRecordInfo)
  load_next_record fuel r =
      if r.done
      then (ok none, r)
      else (do found ← find_next_record c fuel; if found then load_record else stop (ok none)) r

unfoldable pub is_power_of_two : ℕ → Bool
is_power_of_two n = not (n == 0) && bit_and n (n - 1) == 0

-- The reader that `new` builds from the geometry before it loads page 0.
unfoldable pub reader_of : List ℕ → ℕ → ℕ → ℕ → ℕ → ℕ → ℕ → List ℕ → WalReader
reader_of source tli log seg blcksz seg_size sysid page_buffer =
    let seg_no = (log * (u32_mod / seg_size) + seg) % u64_mod in
    record {
      tli = tli;
      seg_no = seg_no;
      seg_size = seg_size;
      xlog_blcksz = blcksz;
      sysid = sysid;
      readable_pages = length source / blcksz % u32_mod;
      source = source;
      page_buffer = take blcksz (page_buffer ++ replicate (blcksz - length page_buffer) 0);
      page_no = no_page;
      read_lsn = seg_no * seg_size % u64_mod;
      record_lsn = 0;
      record_buffer = [];
      done = false;
    }

abbrev pub loaded_reader : Result (Unit {0}) × WalReader → Result WalReader
loaded_reader (ok _, r) = ok r
loaded_reader (err e, r) = err e
loaded_reader (stuck, r) = stuck

module _ (c : Bindings) where
  abbrev pub bad_block_size : ℕ → Bool
  bad_block_size blcksz =
      not (is_power_of_two blcksz)
      || (ltb blcksz c.size_of_long_page_header || ltb (1024 * 1024) blcksz)

  abbrev pub bad_segment_size : ℕ → ℕ → Bool
  bad_segment_size blcksz seg_size =
      not (is_power_of_two seg_size)
      || (ltb seg_size blcksz || (ltb seg_size (1024 * 1024) || ltb (1024 * 1024 * 1024) seg_size))

  -- The checks of `new` on the geometry in the long header, and the reader that works in it.
  unfoldable pub open_geometry : List ℕ → ℕ → ℕ → ℕ → ℕ → ℕ → ℕ → List ℕ → Result WalReader
  open_geometry source tli log seg blcksz seg_size sysid page =
      if bad_block_size blcksz
      then err (invalid_xlog_block_size blcksz)
      else if bad_segment_size blcksz seg_size
      then err (invalid_segment_size seg_size)
      else if ltb seg_size (length source)
      then err (file_too_large (length source) seg_size)
      else loaded_reader (load_page c 0 (reader_of source tli log seg blcksz seg_size sysid page))

  -- The checks of `new` on the header of the first page.
  unfoldable pub open_first_page : List ℕ → ℕ → ℕ → ℕ → List ℕ → Result WalReader
  open_first_page source tli log seg page =
      let h = c.page_header page in
      let long = c.long_page_header page in
      if ltb (length page) c.size_of_page_header
      then err missing_long_header
      else if not (h.xlp_magic == c.xlog_page_magic % 65536)
      then (if all_zero page
          then err empty_segment
          else err (invalid_page_magic_number h.xlp_magic 0))
      else if not (is_long h)
      then err missing_long_header
      else if ltb (length page) c.size_of_long_page_header
      then err missing_long_header
      else open_geometry source tli log seg long.xlp_xlog_blcksz long.xlp_seg_size long.xlp_sysid
          page

  abbrev pub open_page : List ℕ → ℕ → ℕ → ℕ → Option (List ℕ) → Result WalReader
  open_page source tli log seg none = err io
  open_page source tli log seg (some page) = open_first_page source tli log seg page

  -- The first page is read in the default size, to get at the long header.
  unfoldable pub new : List ℕ → ℕ → ℕ → ℕ → Result WalReader
  new source tli log seg = open_page source tli log seg (read_exact 0 c.default_xlog_blcksz source)
