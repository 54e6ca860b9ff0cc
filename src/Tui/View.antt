-- ===== src/Tui/View.antt =====
-- The drawing of the panes of src/main.rs, as far as it decides what is shown: which rows of the list
-- and which lines of the dump are on the screen, what marks a row, and how the scroll positions
-- follow. Colours and widgets are left out; a style is the name of a theme's function.
pub mod Rows
pub mod Scroll
use pg_walview.Prelude.{
  ℕ, zero, suc, ◌+◌, ◌-◌, ◌*◌, ◌/◌, ◌%◌, ◌≤◌, ◌<◌, min, max, ◌≡◌, Bool, true, false, not, ◌&&◌,
  ◌||◌, Option, none, some, List, [], ◌∷◌, length, get_elem?, slice, ltb, leb, ◌==◌, if◌then◌else◌,
}
use pg_walview.Bindings.{Bindings}
use pg_walview.Rmgr.{
  RmgrId, is_xact, from_u8, XactOp, commit, commit_prepared, abort, abort_prepared, from_xl_info,
}
use pg_walview.Walreader.Types.{WalBlockData, WalRecordInfo, RecordPart}
use pg_walview.Tui.DetailTree.{is_some}
use pg_walview.Tui.App.{TableStates, HexJump, no_jump, to_selection, to_end, App, selected_record}
use pg_walview.Tui.HexDump.{
  RecordOverlay, overlay_of, first_byte, hex_bytes_per_line, HexDump, total_lines,
}

-- The transaction graph beside the LSN of a row.
pub data GraphMark : Type 0 where
  no_mark : GraphMark
  alone : GraphMark
  top : GraphMark
  bottom : GraphMark
  branch : GraphMark
  passing : GraphMark

pub data GraphStyle : Type 0 where
  graph_committed : GraphStyle
  graph_aborted : GraphStyle
  graph_open : GraphStyle
  graph_none : GraphStyle

pub data RowStyle : Type 0 where
  selected_row : RowStyle
  xid_group_row : RowStyle
  plain_row : RowStyle

-- A row of the list, less the texts made from its record.
pub record Row : Type 0 where
  pub mark : GraphMark
  pub info : WalRecordInfo
  pub has_fpi : Bool
  pub style : RowStyle

pub record ListView : Type 0 where
  pub graph_style : GraphStyle
  pub rows : List Row
  pub highlighted : Option ℕ
  pub percentage : ℕ

-- The offset of the list follows the selection, and leaves no room below the last row.
unfoldable pub follow_selection : ℕ → ℕ → ℕ → ℕ → ℕ
follow_selection visible selected len offset =
    let moved =
      if ltb selected offset
      then selected
      else if leb (offset + visible) selected
      then selected + 1 - visible
      else offset in
    if ltb 0 visible then min moved (len - visible) else offset

abbrev style_of_op : XactOp → GraphStyle
style_of_op commit = graph_committed
style_of_op commit_prepared = graph_committed
style_of_op abort = graph_aborted
style_of_op abort_prepared = graph_aborted
style_of_op op = graph_open

abbrev style_of_end : Option WalRecordInfo → GraphStyle
style_of_end none = graph_none
style_of_end (some info) =
    if is_xact (from_u8 info.xlrec.xl_rmid)
    then style_of_op (from_xl_info info.xlrec.xl_info)
    else graph_none

-- How the transaction ended.
unfoldable pub graph_style_of : List WalRecordInfo → Option (ℕ × ℕ) → GraphStyle
unfolding from_u8 from_xl_info
graph_style_of records none = graph_none
graph_style_of records (some (first, last)) = style_of_end (get_elem? records last)

abbrev pub in_group : Option ℕ → ℕ → Bool
in_group none x = false
in_group (some xid) x = not (xid == 0) && x == xid

-- The mark of row `i`, of a record of transaction `x`.
unfoldable pub graph_mark : Option ℕ → Option (ℕ × ℕ) → ℕ → ℕ → GraphMark
graph_mark (some xid) (some (first, last)) i x =
    if in_group (some xid) x
    then (if first == last
        then alone
        else if i == first
        then top
        else if i == last
        then bottom
        else branch)
    else if ltb first i && ltb i last
    then passing
    else no_mark
graph_mark none range i x = no_mark
graph_mark selected_xid none i x = no_mark

unfoldable pub any_image : List WalBlockData → Bool
any_image [] = false
any_image (block ∷ blocks) = is_some block.image || any_image blocks

abbrev pub row_of : Option ℕ → Option (ℕ × ℕ) → ℕ → ℕ → WalRecordInfo → Row
row_of selected_xid range selected i info = record {
  mark = graph_mark selected_xid range i info.xlrec.xl_xid;
  info = info;
  has_fpi = any_image info.blocks;
  style =
      if i == selected
      then selected_row
      else if in_group selected_xid info.xlrec.xl_xid
      then xid_group_row
      else plain_row;
}

-- The rows of the records of the window, which begins at `i`.
unfoldable pub rows_from : Option ℕ → Option (ℕ × ℕ) → ℕ → ℕ → List WalRecordInfo → List Row
rows_from selected_xid range selected i [] = []
rows_from selected_xid range selected i (info ∷ infos) =
    row_of selected_xid range selected i info ∷ rows_from selected_xid range selected (i + 1) infos

abbrev pub xid_of : Option WalRecordInfo → Option ℕ
xid_of none = none
xid_of (some info) = some info.xlrec.xl_xid

abbrev pub or_zero : Option ℕ → ℕ
or_zero none = 0
or_zero (some i) = i

module _ (t : TableStates) where
  abbrev pub list_view : ℕ → ℕ → App t → ListView
  list_view visible selected app =
      let len = length app.records in
      let end = min (app.list_offset + visible) len in
      record {
        graph_style = graph_style_of app.records app.xid_range;
        rows =
            rows_from (xid_of (selected_record t app)) app.xid_range selected app.list_offset
              (slice app.list_offset (end - app.list_offset) app.records);
        highlighted =
            if leb app.list_offset selected && ltb selected end
            then some (selected - app.list_offset)
            else none;
        percentage = if leb len 1 then 100 else selected * 100 / (len - 1);
      }

  -- Two rows of the pane are its borders, two more the header and its margin. A pane too small is left
  -- empty.
  unfoldable pub render_record_list : ℕ → ℕ → App t → Option ListView × App t
  render_record_list width height app =
      let visible = height - 4 in
      let selected = or_zero (t.selected app.state) in
      let offset = follow_selection visible selected (length app.records) app.list_offset in
      let app' = record app { list_offset = offset } in
      if ltb width 2 || ltb height 2
      then (none, app)
      else (some (list_view visible selected app'), app')

abbrev pub hex_jump_margin : ℕ
hex_jump_margin = 2

-- A jump that waits for the geometry of the pane.
unfoldable pub resolve_jump : HexJump → Option ℕ → ℕ → ℕ → ℕ → ℕ → ℕ
resolve_jump to_selection (some first) bytes_per_line total visible scroll =
    first / bytes_per_line - hex_jump_margin
resolve_jump to_selection none bytes_per_line total visible scroll = scroll
resolve_jump to_end first bytes_per_line total visible scroll = total - visible
resolve_jump no_jump first bytes_per_line total visible scroll = scroll

-- What is drawn of the dump: the lines from `from` on, `count` of them.
pub record DumpView : Type 0 where
  pub dump : HexDump
  pub overlay : RecordOverlay
  pub from : ℕ
  pub count : ℕ

abbrev pub overlay_for : Bindings → Option WalRecordInfo → List RecordPart → RecordOverlay
overlay_for c none focus = record { parts = []; focus = [] }
overlay_for c (some info) focus = overlay_of c info focus

module _ (c : Bindings) (t : TableStates) where
  abbrev pub dump_of : ℕ → App t → HexDump
  dump_of width app = record {
    bytes = app.segment.bytes;
    start_lsn = app.segment.start_lsn;
    xlog_blcksz = max app.segment.xlog_blcksz 1;
    bytes_per_line = hex_bytes_per_line (width - 2);
  }

  -- The scroll position for a dump and an overlay: the jump resolved, and no line past the last one.
  abbrev pub hex_scroll_for : HexDump → RecordOverlay → ℕ → App t → ℕ
  hex_scroll_for dump overlay visible app =
      min
        (resolve_jump app.hex_jump (first_byte overlay) dump.bytes_per_line (total_lines dump)
          visible app.hex_scroll)
        (total_lines dump - visible)

  unfoldable pub render_hex_dump : ℕ → ℕ → List RecordPart → App t → Option DumpView × App t
  render_hex_dump width height focus app =
      let visible = height - 2 in
      let dump = dump_of width app in
      let overlay = overlay_for c (selected_record t app) focus in
      let scroll = hex_scroll_for dump overlay visible app in
      if ltb width 2 || ltb height 2 then (none, app) else (
        some (record {
          dump = dump;
          overlay = overlay;
          from = scroll;
          count = min (scroll + visible) (total_lines dump) - scroll;
        }),
        record app { hex_jump = no_jump; hex_scroll = scroll },
      )
