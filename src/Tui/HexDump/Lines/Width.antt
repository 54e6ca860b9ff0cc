-- ===== src/Tui/HexDump/Lines/Width.antt =====
-- How wide a line of the dump is.
use pg_walview.Prelude.{
  ℕ, ◌+◌, ◌*◌, ◌/◌, ◌%◌, ◌≤◌, ◌<◌, ◌≡◌, ap, max, ◌++◌, length, length-append, replicate, u32_mod,
  Bool, arith,
}
use pg_walview.Prelude.Digits.{
  codes, lower_hex, upper_hex, pad_right, lower_digit, upper_digit, digit_count, digit_count-le,
  length-last_digits, length-replicate, length-pad_right, space,
}
use pg_walview.Walmisc.Format.{lsn_format}
use pg_walview.Tui.Theme.{Toolkit, hex_addr}
use pg_walview.Tui.HexDump.{RecordOverlay, HexDump, hex_prefix_width, hex_column_width}
use pg_walview.Tui.HexDump.Lines.{line_prefix, line}
use pg_walview.Tui.HexDump.Lines.Cells.{paint, cells, hex_cells, ascii_cells, IsSound}
use pg_walview.Tui.HexDump.Lines.Columns.{
  HoldsBytes, gap, shown_bytes, meant, cells-line, length-paint, length-ascii_cells,
  length-hex_cells, hex_column_width_zero,
}

hex_column_width_mono : (n m : ℕ) → n ≤ m → hex_column_width n ≤ hex_column_width m
unfolding hex_column_width
hex_column_width_mono n m h = omega arith

length-lower_hex_eight : (v : ℕ) → v < u32_mod → length (lower_hex 8 v) ≡ 8
unfolding lower_hex
length-lower_hex_eight v h = omega (
  arith,
  digit_count-le 64 8 v (omega arith),
  length-last_digits lower_digit 16 (max 8 (digit_count 16 64 v)) v,
)

-- The text of an LSN has ten characters, up to the LSN 10/00000000.
length-lsn_format : (lsn : ℕ) → lsn < 16 * u32_mod → length (lsn_format lsn) ≡ 10
unfolding lsn_format upper_hex
length-lsn_format lsn h =
    let hi = lsn / u32_mod % u32_mod in
    let lo = lsn % u32_mod in
    let hi_digits = max 1 (digit_count 16 64 hi) in
    let lo_digits = max 8 (digit_count 16 64 lo) in
    omega (
      arith,
      length-append (upper_hex 1 hi ++ codes "/") (upper_hex 8 lo),
      length-append (upper_hex 1 hi) (codes "/"),
      digit_count-le 64 1 hi (omega arith),
      digit_count-le 64 8 lo (omega arith),
      length-last_digits upper_digit 16 hi_digits hi,
      length-last_digits upper_digit 16 lo_digits lo,
    )

length-line_prefix :
    (dump : HexDump) (start : ℕ)
    → dump.start_lsn + start < 16 * u32_mod
    → start < u32_mod
    → length (line_prefix dump start) ≡ hex_prefix_width
unfolding line_prefix
length-line_prefix dump start low small =
    let lsn = lsn_format (dump.start_lsn + start) in
    let padded = pad_right 10 lsn in
    omega (
      arith,
      length-append (padded ++ codes " " ++ lower_hex 8 start) (codes ": "),
      length-append (padded ++ codes " ") (lower_hex 8 start),
      length-append padded (codes " "),
      length-pad_right 10 lsn,
      length-lsn_format (dump.start_lsn + start) low,
      length-lower_hex_eight start small,
    )

module _ (t : Toolkit) (enabled : Bool) (dump : HexDump) (overlay : RecordOverlay) where
  length-meant :
      (start n : ℕ)
      → HoldsBytes dump
      → n ≤ dump.bytes_per_line
      → length (meant t enabled dump overlay start n) ≡ hex_column_width dump.bytes_per_line + 2 + n
  length-meant start n bytes few =
      let column = hex_cells t enabled dump overlay start n start in
      let spaces = replicate (gap t enabled dump overlay n) space in
      let behind = ascii_cells t enabled dump overlay n start in
      omega (
        arith,
        length-append (column ++ paint t enabled spaces t.plain) behind,
        length-append column (paint t enabled spaces t.plain),
        length-paint t enabled dump overlay spaces t.plain,
        length-replicate (gap t enabled dump overlay n) space,
        length-ascii_cells t enabled dump overlay n start,
        length-hex_cells t enabled dump overlay start n 0 start bytes (omega arith),
        ap hex_column_width {x = 0 + n} {y = n} (omega arith),
        hex_column_width_zero,
        hex_column_width_mono n dump.bytes_per_line few,
      )

  -- Where styles that compare as equal are equal, the segment holds bytes, the LSN of the line is
  -- below 16 times 2^32 and its offset below 2^32, a line is as wide as the layout reckons: the
  -- prefix, the hex column and two spaces, and a character for each byte on it.
  pub length-line :
      (line_idx : ℕ)
      → IsSound t enabled
      → HoldsBytes dump
      → dump.start_lsn + line_idx * dump.bytes_per_line < 16 * u32_mod
      → line_idx * dump.bytes_per_line < u32_mod
      → length (cells t enabled (line t enabled dump overlay line_idx))
        ≡ hex_prefix_width
          + hex_column_width dump.bytes_per_line
          + 2
          + shown_bytes t enabled dump overlay line_idx
  length-line line_idx sound bytes low small =
      let start = line_idx * dump.bytes_per_line in
      let prefix = line_prefix dump start in
      let n = shown_bytes t enabled dump overlay line_idx in
      omega (
        arith,
        ap length (cells-line t enabled dump overlay sound line_idx bytes),
        length-append (paint t enabled prefix (hex_addr t enabled))
            (meant t enabled dump overlay start n),
        length-paint t enabled dump overlay prefix (hex_addr t enabled),
        length-line_prefix dump start low small,
        length-meant start n bytes (omega arith),
      )
