-- ===== src/Tui/Details/Pane.antt =====
-- The DETAILS pane on the screen: the line that the cursor is on is drawn.
use pg_walview.Prelude.{
  ℕ, ◌+◌, ◌-◌, ◌≤◌, ◌<◌, ◌≡◌, refl, Bool, false, ◌||◌, some, length, get_elem?, ltb, arith, u16_mod,
  lt→leb,
}
use native.Mathlib.Nat.{mod-eq_of_lt}
use pg_walview.Walreader.Types.{WalRecordInfo}
use pg_walview.Tui.DetailTree.{NavItem, has_main_data, nav_items}
use pg_walview.Tui.DetailTree.Cursor.{IsTree}
use pg_walview.Tui.App.{TableStates, App}
use pg_walview.Tui.Details.{
  item_line, Descriptions, build_detail_lines, fully_expanded_tree, DetailsView, is_details,
  follow_cursor, render_details,
}
use pg_walview.Tui.Details.Items.{part_of, build_detail_lines-cursor}

follow_cursor-bounds :
    (inner_h cursor_line scroll : ℕ)
    → 0 < inner_h
    → (follow_cursor inner_h cursor_line scroll ≤ cursor_line)
      × (cursor_line < follow_cursor inner_h cursor_line scroll + inner_h)
unfolding follow_cursor
follow_cursor-bounds inner_h cursor_line scroll room = ground arith

-- In a pane with room for a line, for a selected record whose lines do not all fit when expanded, and
-- with the cursor of its tree on an item and less than 2^16 lines before it: the heading of that item is
-- drawn, highlighted if the pane has the focus.
pub render_details-shows :
    (d : Descriptions) (t : TableStates) (width height selected : ℕ) (app : App t)
    (info : WalRecordInfo) (item : NavItem)
    → 2 ≤ width
    → 2 < height
    → t.selected app.state ≡ some selected
    → get_elem? app.records selected ≡ some info
    → height - 2 < length (build_detail_lines d (fully_expanded_tree info) info false).0
    → IsTree info.blocks (has_main_data info) app.detail_tree
    → get_elem? (nav_items app.detail_tree info.blocks (has_main_data info)) app.detail_tree.cursor
      ≡ some item
    → (build_detail_lines d app.detail_tree info (is_details app.focus)).1 < u16_mod
    → (view : DetailsView) × (k : ℕ) × (expanded : Bool) × ((render_details d t width height app).0
        ≡ some view)
      × (get_elem? view.lines k ≡ some (item_line (part_of item) expanded (is_details app.focus)))
      × (view.from ≤ k)
      × (k < view.from + (height - 2))
unfolding render_details
render_details-shows d t width height selected app info item wide high sel found long tree at few =
    let small : (ltb width 2 || ltb height 2) ≡ false = ground arith in
    let k = (build_detail_lines d app.detail_tree info (is_details app.focus)).1 in
    let (expanded, line) =
      build_detail_lines-cursor d app.detail_tree info (is_details app.focus) item tree at in
    let (above, below) = follow_cursor-bounds (height - 2) k app.detail_scroll (omega arith) in
    let drawn =
      mod-eq_of_lt {n = follow_cursor (height - 2) k app.detail_scroll} {m = u16_mod}
        (omega arith) in
    let overflows = lt→leb _ (height - 2) long in
    rw (sel, found, small, overflows)
      (_, k, expanded, refl, line, omega (arith, drawn, above), omega (arith, drawn, below))
