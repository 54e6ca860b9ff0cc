-- ===== src/Tests/Panes.antt =====
-- The panes of the viewer, drawn for the file of two pages.
use pg_walview.Prelude.{
  ℕ, ◌+◌, ◌-◌, ◌/◌, ◌≤◌, ◌<◌, min, ◌≡◌, refl, Bool, true, false, some, [], length, get_elem?, arith,
}
use mathlib.Core.Option
use pg_walview.Bindings.{postgres18}
use pg_walview.Walreader.Record.{
  record_parts, payload_parts, block_parts, retain_nonempty, file_ranges_of, file_ranges_from,
}
use pg_walview.Tui.DetailTree.{nav_header, nav_items, block_items, default, has_main_data}
use pg_walview.Tui.DetailTree.Cursor.{IsTree}
use pg_walview.Tui.App.{no_jump, selected_record}
use pg_walview.Tui.HexDump.{total_lines, overlay_of, file_parts, sort, insert}
use pg_walview.Tui.View.{Row, ListView, selected_row, render_record_list, DumpView, render_hex_dump}
use pg_walview.Tui.View.Rows.{render_record_list-shows}
use pg_walview.Tui.View.Scroll.{render_hex_dump-fills, render_hex_dump-shows}
use pg_walview.Tui.Details.{
  item_line, Descriptions, item_lines, header_lines, main_lines, append_items, build_detail_lines,
  fully_expanded_tree, DetailsView, render_details,
}
use pg_walview.Tui.Details.Items.{LineAt, part_of, build_detail_lines-cursor}
use pg_walview.Tui.Details.Pane.{render_details-shows}
use pg_walview.Tests.Data.{loaded_info, indices, viewer}

abbrev no_texts : Descriptions
no_texts = record { main_data_lines = λ info. []; block_data_lines = λ info i. [] }

render_record_list-shows_example :
    (view : ListView) × (row : Row) × (k : ℕ) × ((render_record_list indices 60 10 viewer).0
      ≡ some view)
    × (view.highlighted ≡ some k)
    × (get_elem? view.rows k ≡ some row)
    × (row.info ≡ loaded_info)
    × (row.style ≡ selected_row)
    × (length view.rows ≡ min (10 - 4) 1)
render_record_list-shows_example =
    render_record_list-shows indices 60 10 0 viewer loaded_info (omega arith) (omega arith) refl
      refl

render_hex_dump-fills_example :
    (view : DumpView) × ((render_hex_dump postgres18 indices 80 10 [] viewer).0 ≡ some view)
    × ((render_hex_dump postgres18 indices 80 10 [] viewer).1.hex_jump ≡ no_jump)
    × (view.from + view.count ≤ total_lines view.dump)
    × (view.count ≡ min (10 - 2) (total_lines view.dump))
render_hex_dump-fills_example =
    render_hex_dump-fills postgres18 indices 80 10 [] viewer (omega arith) (omega arith)

render_hex_dump-shows_example :
    (view : DumpView) × ((render_hex_dump postgres18 indices 80 10 [] viewer).0 ≡ some view)
    × (view.from ≤ 40 / view.dump.bytes_per_line)
    × (40 / view.dump.bytes_per_line < view.from + view.count)
unfolding selected_record overlay_of file_parts sort insert record_parts payload_parts block_parts
    retain_nonempty file_ranges_of file_ranges_from Option.bind
render_hex_dump-shows_example =
    render_hex_dump-shows postgres18 indices 80 10 [] viewer 40 (omega arith) (omega arith) refl
      refl (omega arith)

viewer-IsTree : IsTree [] true default
unfolding nav_items block_items
viewer-IsTree = record { states = refl; cursor_on = omega arith }

at_header : get_elem? (nav_items default [] true) 0 ≡ some nav_header
unfolding nav_items
at_header = refl

build_detail_lines-cursor_example :
    (expanded : Bool) × LineAt
      (build_detail_lines no_texts default loaded_info true)
      (item_line (part_of nav_header) expanded true)
unfolding has_main_data
build_detail_lines-cursor_example =
    build_detail_lines-cursor no_texts default loaded_info true nav_header viewer-IsTree at_header

render_details-shows_example :
    (view : DetailsView) × (k : ℕ) × (expanded : Bool) × ((render_details no_texts indices 60 6
        viewer).0
      ≡ some view)
    × (get_elem? view.lines k ≡ some (item_line (part_of nav_header) expanded false))
    × (view.from ≤ k)
    × (k < view.from + (6 - 2))
unfolding has_main_data build_detail_lines fully_expanded_tree append_items item_lines header_lines
    main_lines nav_items block_items
render_details-shows_example =
    render_details-shows no_texts indices 60 6 0 viewer loaded_info nav_header (omega arith)
      (omega arith) refl refl (omega arith) viewer-IsTree at_header (omega arith)
