-- ===== src/Tui/App/Keys.antt =====
-- The key handlers of `App`, and the loop of `run` over the keys that are pressed.
use pg_walview.Prelude.{ℕ, ◌-◌, true, Option, none, some, List, [], ◌∷◌, if◌then◌else◌, ◌==◌, ◌||◌}
use pg_walview.Walreader.Types.{WalRecordInfo}
use pg_walview.Tui.DetailTree.{has_main_data, move_up, move_down, toggle}
use pg_walview.Tui.App.{
  TableStates, FocusPane, record_list, details, hex_dump, to_selection, to_end, KeyCode, char, tab,
  enter, up, down, page_up, page_down, App, page_jump_size, saturating_add, selected_record,
  move_next_same_xid, move_prev_same_xid, move_record_up, move_record_down, move_top, move_bottom,
  record_page_up, record_page_down,
}

abbrev next_pane : FocusPane → FocusPane
next_pane record_list = details
next_pane details = hex_dump
next_pane hex_dump = record_list

module _ (t : TableStates) where
  unfoldable pub cycle_focus : App t → App t
  cycle_focus app = record app { focus = next_pane app.focus }

  -- The letters are Unicode code points: k, j, g, G, s, r, minus and space.
  unfoldable pub handle_record_list_key : KeyCode → App t → App t
  handle_record_list_key up app = move_record_up t app
  handle_record_list_key down app = move_record_down t app
  handle_record_list_key page_up app = record_page_up t app
  handle_record_list_key page_down app = record_page_down t app
  handle_record_list_key (char ch) app =
      if ch == 107
      then move_record_up t app
      else if ch == 106
      then move_record_down t app
      else if ch == 103
      then move_top t app
      else if ch == 71
      then move_bottom t app
      else if ch == 115
      then move_next_same_xid t app
      else if ch == 114
      then move_prev_same_xid t app
      else if ch == 45
      then record_page_up t app
      else if ch == 32
      then record_page_down t app
      else app
  handle_record_list_key key app = app

  abbrev pub details_key : KeyCode → Option WalRecordInfo → App t → App t
  details_key key none app = app
  details_key up (some info) app = record app { detail_tree = move_up app.detail_tree }
  details_key down (some info) app = record app {
    detail_tree = move_down info.blocks (has_main_data info) app.detail_tree;
  }
  details_key enter (some info) app = record app {
    detail_tree = toggle info.blocks (has_main_data info) app.detail_tree;
  }
  details_key key (some info) app = app

  unfoldable pub handle_details_key : KeyCode → App t → App t
  handle_details_key key app = details_key key (selected_record t app) app

  abbrev scroll_up : ℕ → App t → App t
  scroll_up n app = record app { hex_scroll = app.hex_scroll - n }

  abbrev scroll_down : ℕ → App t → App t
  scroll_down n app = record app { hex_scroll = saturating_add app.hex_scroll n }

  -- k, j, minus, b, space, g and G
  unfoldable pub handle_hex_dump_key : KeyCode → App t → App t
  handle_hex_dump_key up app = scroll_up 1 app
  handle_hex_dump_key down app = scroll_down 1 app
  handle_hex_dump_key page_up app = scroll_up page_jump_size app
  handle_hex_dump_key page_down app = scroll_down page_jump_size app
  handle_hex_dump_key (char ch) app =
      if ch == 107
      then scroll_up 1 app
      else if ch == 106
      then scroll_down 1 app
      else if ch == 45 || ch == 98
      then scroll_up page_jump_size app
      else if ch == 32
      then scroll_down page_jump_size app
      else if ch == 103
      then record app { hex_jump = to_selection }
      else if ch == 71
      then record app { hex_jump = to_end }
      else app
  handle_hex_dump_key key app = app

  abbrev pub handle_pane_key : FocusPane → KeyCode → App t → App t
  handle_pane_key record_list key app = handle_record_list_key key app
  handle_pane_key details key app = handle_details_key key app
  handle_pane_key hex_dump key app = handle_hex_dump_key key app

  -- The letter is q.
  unfoldable pub handle_key_event : KeyCode → App t → App t
  handle_key_event (char ch) app =
      if ch == 113 then record app { exit = true } else handle_pane_key app.focus (char ch) app
  handle_key_event tab app = cycle_focus app
  handle_key_event key app = handle_pane_key app.focus key app

  -- `run`, on the keys that are pressed.
  unfoldable pub run : List KeyCode → App t → App t
  run [] app = app
  run (key ∷ keys) app = if app.exit then app else run keys (handle_key_event key app)
