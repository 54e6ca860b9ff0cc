-- ===== src/Tui/HexDump/Lines.antt =====
-- `HexDump::line` of src/main.rs: one line of the dump, with the runs of bytes of one style merged
-- into a span.
pub mod Cells
pub mod Columns
pub mod Width
use pg_walview.Prelude.{
  ℕ, zero, suc, ◌+◌, ◌-◌, ◌*◌, ◌%◌, min, Bool, ◌&&◌, List, [], ◌∷◌, ◌++◌, length, get_or, replicate,
  ltb, leb, ◌==◌, if◌then◌else◌,
}
use pg_walview.Prelude.Digits.{codes, lower_hex, pad_right, space}
use pg_walview.Walmisc.Format.{lsn_format}
use pg_walview.Tui.Theme.{Toolkit, hex_addr}
use pg_walview.Tui.HexDump.{RecordOverlay, HexDump, hex_column_width}
use pg_walview.Tui.HexDump.Styles.{style_at, ascii_style_at}

abbrev pub hex_group : ℕ
hex_group = 4

-- What stands before the byte in column `col`, and the byte.
unfoldable pub hex_cell : ℕ → ℕ → List ℕ
hex_cell col b =
    (if ltb 0 col then (if col % hex_group == 0 then space ∷ space ∷ [] else space ∷ []) else [])
    ++ lower_hex 2 b

unfoldable pub ascii_char : ℕ → ℕ
ascii_char b = if leb 0x20 b && ltb b 0x7f then b else b'.'

unfoldable pub line_prefix : HexDump → ℕ → List ℕ
line_prefix dump start =
    pad_right 10 (lsn_format (dump.start_lsn + start))
    ++ codes " "
    ++ lower_hex 8 start
    ++ codes ": "

module _ (t : Toolkit) (enabled : Bool) where
  open t use {Style, same}

  abbrev pub Span : Type 0
  Span = List ℕ × Style

  -- The spans so far, the text of the run, and its style.
  pub record Runs : Type 0 where
    pub spans : List Span
    pub text : List ℕ
    pub run : Style

  abbrev pub flush : List Span → List ℕ → Style → List Span
  flush spans [] style = spans
  flush spans (c ∷ text) style = spans ++ ((c ∷ text, style) ∷ [])

  -- A byte of another style ends the run.
  unfoldable pub switch : Style → Runs → Runs
  switch style s =
      if same style s.run
      then s
      else record { spans = flush s.spans s.text s.run; text = []; run = style }

  abbrev pub push_text : List ℕ → Runs → Runs
  push_text text s = record s { text = s.text ++ text }

  -- The bytes of the hex column, with the width of the runs that ended.
  unfoldable pub hex_loop : HexDump → RecordOverlay → ℕ → ℕ → ℕ → ℕ × Runs → ℕ × Runs
  hex_loop dump overlay start zero offset s = s
  hex_loop dump overlay start (suc n) offset (width, s) =
      let style = style_at t enabled dump overlay offset in
      let wider = if same style s.run then width else width + length s.text in
      let cell = hex_cell (offset - start) (get_or dump.bytes offset 0) in
      hex_loop dump overlay start n (offset + 1) (wider, push_text cell (switch style s))

  unfoldable pub ascii_loop : HexDump → RecordOverlay → ℕ → ℕ → Runs → Runs
  ascii_loop dump overlay zero offset s = s
  ascii_loop dump overlay (suc n) offset s =
      let style = ascii_style_at t enabled dump overlay offset in
      let char = ascii_char (get_or dump.bytes offset 0) in
      ascii_loop dump overlay n (offset + 1) (push_text (char ∷ []) (switch style s))

  abbrev pub runs_at : List Span → Style → Runs
  runs_at spans style = record { spans = spans; text = []; run = style }

  abbrev pub end_runs : Runs → List Span
  end_runs s = flush s.spans s.text s.run

  -- The columns of a line behind its prefix: `n` bytes from `start`.
  abbrev pub columns : HexDump → RecordOverlay → ℕ → ℕ → List Span → List Span
  columns dump overlay start n prefix =
      let (width, hex) =
        hex_loop dump overlay start n start
          (0, runs_at prefix (style_at t enabled dump overlay start)) in
      let hex_width = width + length hex.text in
      let pad = hex_column_width dump.bytes_per_line - hex_width + 2 in
      let spans = end_runs hex ++ ((replicate pad space, t.plain) ∷ []) in
      end_runs (
        ascii_loop dump overlay n start
          (runs_at spans (ascii_style_at t enabled dump overlay start)))

  unfoldable pub line : HexDump → RecordOverlay → ℕ → List Span
  line dump overlay line_idx =
      let start = line_idx * dump.bytes_per_line in
      let end = min (start + dump.bytes_per_line) (length dump.bytes) in
      columns dump overlay start (end - start) ((line_prefix dump start, hex_addr t enabled) ∷ [])
