-- ===== src/Tui/View/Scroll.antt =====
-- The hex dump: where it stands after it is drawn.
use pg_walview.Prelude.{
  ℕ, ◌+◌, ◌-◌, ◌/◌, ◌≤◌, ◌<◌, min, ◌≡◌, refl, false, Option, some, List, length, ltb, ◌||◌, arith,
}
use pg_walview.Bindings.{Bindings}
use pg_walview.Walreader.Types.{RecordPart}
use pg_walview.Tui.App.{TableStates, HexJump, no_jump, to_selection, App, selected_record}
use pg_walview.Tui.HexDump.{first_byte, total_lines, hex_bytes_per_line}
use pg_walview.Tui.HexDump.Widths.{total_lines-covers}
use pg_walview.Tui.View.{
  DumpView, resolve_jump, overlay_for, dump_of, hex_scroll_for, render_hex_dump,
}

hex_bytes_per_line-positive : (width : ℕ) → 0 < hex_bytes_per_line width
unfolding hex_bytes_per_line
hex_bytes_per_line-positive width = ground arith

jump-shows :
    (jump : HexJump) (first_part : Option ℕ) (first bytes_per_line total visible scroll : ℕ)
    → jump ≡ to_selection
    → first_part ≡ some first
    → 2 < visible
    → first / bytes_per_line < total
    → (min (resolve_jump jump first_part bytes_per_line total visible scroll) (total - visible)
        ≤ first / bytes_per_line)
      × (first / bytes_per_line
          < min (resolve_jump jump first_part bytes_per_line total visible scroll) (total - visible)
            + visible)
unfolding resolve_jump
jump-shows jump first_part first bytes_per_line total visible scroll e at room inside =
    let line = first / bytes_per_line in
    let bounds : (min (line - 2) (total - visible) ≤ line)
        × (line < min (line - 2) (total - visible) + visible) =
      (omega arith, omega arith) in
    rw (e, at) bounds

module _ (c : Bindings) (t : TableStates) (width height : ℕ) (focus : List RecordPart)
    (app : App t) where
  -- What is drawn in a pane that is not too small.
  abbrev view_of : DumpView
  view_of =
      let dump = dump_of c t width app in
      let scroll =
        hex_scroll_for c t dump (overlay_for c (selected_record t app) focus) (height - 2) app in
      record {
        dump = dump;
        overlay = overlay_for c (selected_record t app) focus;
        from = scroll;
        count = min (scroll + (height - 2)) (total_lines dump) - scroll;
      }

  -- In a pane that is not too small: the jump that waited is done, the lines drawn are lines of the
  -- dump, and they fill the pane or are all there are.
  pub render_hex_dump-fills :
      2 ≤ width
      → 2 ≤ height
      → (view : DumpView) × ((render_hex_dump c t width height focus app).0 ≡ some view)
        × ((render_hex_dump c t width height focus app).1.hex_jump ≡ no_jump)
        × (view.from + view.count ≤ total_lines view.dump)
        × (view.count ≡ min (height - 2) (total_lines view.dump))
  unfolding render_hex_dump
  render_hex_dump-fills wide high =
      let small : (ltb width 2 || ltb height 2) ≡ false = ground arith in
      rw small (view_of, refl, refl, omega arith, omega arith)

  -- After a jump to the selection, in a pane of three lines or more, the line of the first byte of the
  -- selected record is drawn, if that byte lies in the segment.
  pub render_hex_dump-shows :
      (first : ℕ)
      → 2 ≤ width
      → 4 < height
      → app.hex_jump ≡ to_selection
      → first_byte (overlay_for c (selected_record t app) focus) ≡ some first
      → first < length app.segment.bytes
      → (view : DumpView) × ((render_hex_dump c t width height focus app).0 ≡ some view)
        × (view.from ≤ first / view.dump.bytes_per_line)
        × (first / view.dump.bytes_per_line < view.from + view.count)
  unfolding render_hex_dump
  render_hex_dump-shows first wide room jump at inside =
      let small : (ltb width 2 || ltb height 2) ≡ false = ground arith in
      let dump = dump_of c t width app in
      let covered =
        total_lines-covers dump first (hex_bytes_per_line-positive (width - 2)) inside in
      let (above, below) =
        jump-shows app.hex_jump (first_byte (overlay_for c (selected_record t app) focus)) first
          dump.bytes_per_line (total_lines dump) (height - 2) app.hex_scroll jump at (omega arith)
          covered in
      rw small (view_of, refl, above, omega arith)
