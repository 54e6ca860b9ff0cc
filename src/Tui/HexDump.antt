-- ===== src/Tui/HexDump.antt =====
-- The hex dump of src/main.rs: where the parts of the selected record lie in the file, how wide a
-- line is, and what each byte of the segment is.
pub mod Widths
pub mod Styles
pub mod Lines
use pg_walview.Prelude.{
  ℕ, zero, suc, ◌+◌, ◌-◌, ◌*◌, ◌/◌, ◌%◌, ◌≤◌, Bool, true, false, not, ◌&&◌, Option, none, some,
  List, [], ◌∷◌, ◌++◌, length, get_elem?, slice, map, ltb, leb, ◌==◌, if◌then◌else◌, has_bits, min,
}
use pg_walview.Bindings.{Bindings}
use pg_walview.Walmisc.{xlp_long_header}
use pg_walview.Walmisc.Words.{from_le_bytes}
use pg_walview.Walreader.Types.{Range, WalRecordInfo, RecordPart}
use pg_walview.Walreader.Record.{Part, record_parts, file_ranges_of}

pub data ByteKind : Type 0 where
  page_header : ByteKind
  part : RecordPart → ByteKind
  zero_byte : ByteKind
  plain : ByteKind

pub record RecordOverlay : Type 0 where
  pub parts : List Part
  pub focus : List RecordPart

-- `sort_by_key(|(r, _)| r.start)`: a stable sort.
unfoldable pub insert : Part → List Part → List Part
insert p [] = p ∷ []
insert p (q ∷ parts) =
    let later = insert p parts in if leb p.0.start q.0.start then p ∷ q ∷ parts else q ∷ later

unfoldable pub sort : List Part → List Part
sort [] = []
sort (p ∷ parts) = insert p (sort parts)

-- The parts of a record over the file: one that a page header splits becomes two.
unfoldable pub file_parts : WalRecordInfo → List Part → List Part
file_parts info [] = []
file_parts info ((raw, p) ∷ parts) =
    map (λ range. (range, p)) (file_ranges_of info raw) ++ file_parts info parts

unfoldable pub overlay_of : Bindings → WalRecordInfo → List RecordPart → RecordOverlay
overlay_of c info focus = record {
  parts = sort (file_parts info (record_parts c info));
  focus = focus;
}

-- `Range::contains`
abbrev pub contains : Range → ℕ → Bool
contains range offset = leb range.start offset && ltb offset range.end

unfoldable pub find_part : List Part → ℕ → Option RecordPart
find_part [] offset = none
find_part ((range, p) ∷ parts) offset =
    let later = find_part parts offset in if contains range offset then some p else later

unfoldable pub part_at : RecordOverlay → ℕ → Option RecordPart
part_at overlay offset = find_part overlay.parts offset

abbrev pub first_byte : RecordOverlay → Option ℕ
first_byte overlay = elim overlay.parts [ [] ↦ none | p ∷ _ ↦ some p.0.start ]

abbrev pub hex_prefix_width : ℕ
hex_prefix_width = 10 + 1 + 8 + 2

-- `div_ceil` by a group of four.
unfoldable pub hex_column_width : ℕ → ℕ
hex_column_width n = n * 3 - 1 + ((n + 3) / 4 - 1)

-- The columns of a line of `n` bytes.
abbrev pub line_width : ℕ → ℕ
line_width n = hex_prefix_width + hex_column_width n + 2 + n

unfoldable pub hex_bytes_per_line : ℕ → ℕ
hex_bytes_per_line width =
    if leb (line_width 16) width then 16 else if leb (line_width 8) width then 8 else 4

pub record HexDump : Type 0 where
  pub bytes : List ℕ
  pub start_lsn : ℕ
  pub xlog_blcksz : ℕ
  pub bytes_per_line : ℕ

unfoldable pub total_lines : HexDump → ℕ
total_lines dump = (length dump.bytes + (dump.bytes_per_line - 1)) / dump.bytes_per_line

-- The flag is read from the page; a page that ends in it counts as one with a short header.
unfoldable pub page_header_size : HexDump → ℕ → ℕ
page_header_size dump offset =
    let page_start = offset - offset % dump.xlog_blcksz in
    let info =
      if leb (page_start + 4) (length dump.bytes)
      then from_le_bytes (slice (page_start + 2) 2 dump.bytes)
      else 0 in
    if has_bits info xlp_long_header then 40 else 24

abbrev is_zero : Option ℕ → Bool
is_zero (some b) = b == 0
is_zero none = false

-- What a byte outside the page headers is.
abbrev kind_of : Option RecordPart → Bool → ByteKind
kind_of (some p) z = part p
kind_of none true = zero_byte
kind_of none false = plain

unfoldable pub classify : HexDump → RecordOverlay → ℕ → ByteKind
classify dump overlay offset =
    if ltb (offset % dump.xlog_blcksz) (page_header_size dump offset)
    then page_header
    else kind_of (part_at overlay offset) (is_zero (get_elem? dump.bytes offset))
