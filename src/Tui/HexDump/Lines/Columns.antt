-- ===== src/Tui/HexDump/Lines/Columns.antt =====
-- The columns of a line of the dump: what they show, and that they stand where the layout has them.
use mathlib.Core.List.{append_assoc, append-nil}
use pg_walview.Prelude.{
  ℕ, zero, suc, ◌+◌, ◌-◌, ◌*◌, ◌<◌, ◌≡◌, ◌∙◌, refl, ap, min, max, Bool, List, [], ◌∷◌, ◌++◌, length,
  get_or, replicate, length-append, if◌then◌else◌, arith, Bool-cases, inl, inr, u8_mod,
}
use pg_walview.Prelude.Digits.{
  lower_hex, lower_digit, digit_count, digit_count-le, length-last_digits, space,
}
use pg_walview.Tui.Theme.{Toolkit, hex_addr}
use pg_walview.Tui.HexDump.{RecordOverlay, HexDump, hex_column_width}
use pg_walview.Tui.HexDump.Styles.{style_at, ascii_style_at}
use pg_walview.Tui.HexDump.Lines.{
  Span, Runs, switch, push_text, hex_cell, line_prefix, hex_loop, ascii_loop, runs_at, end_runs,
  columns, line,
}
use pg_walview.Tui.HexDump.Lines.Cells.{
  paint, cells, shown, cells-append, cells-flush, hex_cells, ascii_cells, IsSound, shown-hex_loop,
  shown-ascii_loop,
}

-- The bytes of the segment are bytes.
abbrev pub HoldsBytes : HexDump → Type 0
HoldsBytes dump = (offset : ℕ) → get_or dump.bytes offset 0 < u8_mod

length-lower_hex : (b : ℕ) → b < u8_mod → length (lower_hex 2 b) ≡ 2
unfolding lower_hex
length-lower_hex b h =
    let few = digit_count-le 64 2 b (omega arith) in
    omega (arith, few, length-last_digits lower_digit 16 (max 2 (digit_count 16 64 b)) b)

-- A byte and what stands before it widen the column as much as the layout allows for.
hex_column_width-suc :
    (col b : ℕ)
    → b < u8_mod
    → hex_column_width col + length (hex_cell col b) ≡ hex_column_width (suc col)
unfolding hex_column_width hex_cell
hex_column_width-suc zero b h = omega (arith, length-lower_hex b h)
hex_column_width-suc (suc col) b h = ground (arith, length-lower_hex b h)

regroup {ℓ} : {A : Type ℓ} (a b c d : List A) → a ++ b ++ c ++ d ≡ a ++ (b ++ c ++ d)
regroup a b c d = ap (λ l. l ++ d) (append_assoc a b c) ∙ append_assoc a (b ++ c) d

pub hex_column_width_zero : hex_column_width 0 ≡ 0
unfolding hex_column_width
hex_column_width_zero = refl

module _ (t : Toolkit) (enabled : Bool) where
  open t use {Style, same}

  abbrev width_of : ℕ × Runs t enabled → ℕ
  width_of (width, s) = width + length s.text

  width_of-switch :
      (style : Style) (width : ℕ) (s : Runs t enabled)
      → width_of
          (if same style s.run then width else width + length s.text, switch t enabled style s)
        ≡ width + length s.text
  unfolding switch
  width_of-switch style width s = elim (Bool-cases (same style s.run)) [
    | inl e ↦ rw e refl
    | inr e ↦ rw e (omega arith)
  ]

  -- A byte in column `col` is pushed behind those before it.
  width_of-push_text :
      (style : Style) (b col width : ℕ) (s : Runs t enabled)
      → b < u8_mod
      → width + length s.text ≡ hex_column_width col
      → width_of (
        if same style s.run then width else width + length s.text,
        push_text t enabled (hex_cell col b) (switch t enabled style s),
      )
        ≡ hex_column_width (suc col)
  width_of-push_text style b col width s byte h =
      let s' = switch t enabled style s in
      let cell = hex_cell col b in
      omega (
        arith,
        length-append s'.text cell,
        width_of-switch style width s,
        hex_column_width-suc col b byte,
        h,
      )

  width_of-hex_loop :
      (dump : HexDump) (overlay : RecordOverlay) (start n col offset width : ℕ) (s : Runs t enabled)
      → HoldsBytes dump
      → offset ≡ start + col
      → width + length s.text ≡ hex_column_width col
      → width_of (hex_loop t enabled dump overlay start n offset (width, s))
        ≡ hex_column_width (col + n)
  unfolding hex_loop
  width_of-hex_loop dump overlay start zero col offset width s bytes at h =
      h ∙ ap hex_column_width {x = col} {y = col + 0} (omega arith)
  width_of-hex_loop dump overlay start (suc n) col offset width s bytes at h =
      let style = style_at t enabled dump overlay offset in
      let b = get_or dump.bytes offset 0 in
      let here : offset - start ≡ col = omega (arith, at) in
      let wider = if same style s.run then width else width + length s.text in
      let pushed = push_text t enabled (hex_cell (offset - start) b) (switch t enabled style s) in
      let step : width_of (wider, pushed) ≡ hex_column_width (suc col) =
        ap (λ c. width_of (wider, push_text t enabled (hex_cell c b) (switch t enabled style s)))
          here
        ∙ width_of-push_text style b col width s (bytes offset) h in
      width_of-hex_loop dump overlay start n (suc col) (offset + 1) wider pushed bytes
        (omega (arith, at)) step
      ∙ ap hex_column_width {x = suc col + n} {y = col + suc n} (omega arith)

  module _ (dump : HexDump) (overlay : RecordOverlay) where
    -- How far the ASCII column is from the hex column when `n` bytes are shown.
    abbrev pub gap : ℕ → ℕ
    gap n = hex_column_width dump.bytes_per_line - hex_column_width n + 2

    -- How many bytes a line has.
    abbrev pub shown_bytes : ℕ → ℕ
    shown_bytes line_idx =
        let start = line_idx * dump.bytes_per_line in
        min (start + dump.bytes_per_line) (length dump.bytes) - start

    -- The columns as they are meant.
    abbrev pub meant : ℕ → ℕ → List (ℕ × Style)
    meant start n =
        hex_cells t enabled dump overlay start n start
        ++ paint t enabled (replicate (gap n) space) t.plain
        ++ ascii_cells t enabled dump overlay n start

    cells-end_runs :
        (s : Runs t enabled) → cells t enabled (end_runs t enabled s) ≡ shown t enabled s
    cells-end_runs s = cells-flush t enabled s.spans s.text s.run

    cells-columns :
        (sound : IsSound t enabled) (start n : ℕ) (prefix : List (Span t enabled))
        → HoldsBytes dump
        → cells t enabled (columns t enabled dump overlay start n prefix)
          ≡ cells t enabled prefix ++ meant start n
    cells-columns sound start n prefix bytes =
        let first = runs_at t enabled prefix (style_at t enabled dump overlay start) in
        let hexed = hex_loop t enabled dump overlay start n start (0, first) in
        let hex = hexed.1 in
        let hex_width = hexed.0 + length hex.text in
        let pad = hex_column_width dump.bytes_per_line - hex_width + 2 in
        let wide : hex_width ≡ hex_column_width n =
          width_of-hex_loop dump overlay start n 0 start 0 first bytes (omega arith)
            (omega (arith, hex_column_width_zero))
          ∙ ap hex_column_width {x = 0 + n} {y = n} (omega arith) in
        let spans = end_runs t enabled hex ++ ((replicate pad space, t.plain) ∷ []) in
        let second = runs_at t enabled spans (ascii_style_at t enabled dump overlay start) in
        let ascii = ascii_loop t enabled dump overlay n start second in
        let before = cells t enabled prefix in
        let column = hex_cells t enabled dump overlay start n start in
        let gap_cells : ℕ → List (ℕ × Style) = λ k. paint t enabled (replicate k space) t.plain in
        let behind = ascii_cells t enabled dump overlay n start in
        let hexes : cells t enabled (end_runs t enabled hex) ≡ before ++ column =
          cells-end_runs hex
          ∙ shown-hex_loop t enabled sound dump overlay start n start 0 first
          ∙ ap (λ l. l ++ column) (append-nil before) in
        let padded : cells t enabled spans ≡ before ++ column ++ gap_cells (gap n) =
          cells-append t enabled (end_runs t enabled hex) ((replicate pad space, t.plain) ∷ [])
          ∙ ap (λ l. cells t enabled (end_runs t enabled hex) ++ l) (append-nil (gap_cells pad))
          ∙ ap (λ l. l ++ gap_cells pad) hexes
          ∙ ap (λ k. before ++ column ++ gap_cells (hex_column_width dump.bytes_per_line - k + 2))
              wide in
        cells-end_runs ascii
        ∙ shown-ascii_loop t enabled sound dump overlay n start second
        ∙ ap (λ l. l ++ behind) (append-nil (cells t enabled spans))
        ∙ ap (λ l. l ++ behind) padded
        ∙ regroup before column (gap_cells (gap n)) behind

    -- Where styles that compare as equal are equal and the segment holds bytes, a line shows,
    -- character by character, its prefix, each of its bytes in hex in the style of that byte, spaces
    -- up to the ASCII column, and each byte again as a character in its style there.
    pub cells-line :
        (sound : IsSound t enabled) (line_idx : ℕ)
        → HoldsBytes dump
        → cells t enabled (line t enabled dump overlay line_idx)
          ≡ paint t enabled (line_prefix dump (line_idx * dump.bytes_per_line)) (hex_addr t enabled)
            ++ meant (line_idx * dump.bytes_per_line) (shown_bytes line_idx)
    unfolding line
    cells-line sound line_idx bytes =
        let start = line_idx * dump.bytes_per_line in
        let prefix = line_prefix dump start in
        cells-columns sound start (shown_bytes line_idx) ((prefix, hex_addr t enabled) ∷ []) bytes
        ∙ ap (λ l. l ++ meant start (shown_bytes line_idx))
            (append-nil (paint t enabled prefix (hex_addr t enabled)))

    pub length-paint :
        (text : List ℕ) (style : Style) → length (paint t enabled text style) ≡ length text
    length-paint [] style = refl
    length-paint (c ∷ text) style = omega (arith, length-paint text style)

    pub length-ascii_cells :
        (n offset : ℕ) → length (ascii_cells t enabled dump overlay n offset) ≡ n
    length-ascii_cells zero offset = refl
    length-ascii_cells (suc n) offset = omega (arith, length-ascii_cells n (offset + 1))

    pub length-hex_cells :
        (start n col offset : ℕ)
        → HoldsBytes dump
        → offset ≡ start + col
        → hex_column_width col + length (hex_cells t enabled dump overlay start n offset)
          ≡ hex_column_width (col + n)
    length-hex_cells start zero col offset bytes at =
        let same_col : col ≡ col + 0 = omega arith in omega (arith, ap hex_column_width same_col)
    length-hex_cells start (suc n) col offset bytes at =
        let b = get_or dump.bytes offset 0 in
        let style = style_at t enabled dump overlay offset in
        let cell = hex_cell (offset - start) b in
        let here : offset - start ≡ col = omega (arith, at) in
        let same_col : suc col + n ≡ col + suc n = omega arith in
        omega (
          arith,
          length-append (paint t enabled cell style)
              (hex_cells t enabled dump overlay start n (offset + 1)),
          length-paint cell style,
          ap (λ c. length (hex_cell c b)) here,
          hex_column_width-suc col b (bytes offset),
          length-hex_cells start n (suc col) (offset + 1) bytes (omega (arith, at)),
          ap hex_column_width same_col,
        )
