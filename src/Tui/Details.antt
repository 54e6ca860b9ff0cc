-- ===== src/Tui/Details.antt =====
-- The DETAILS pane of src/main.rs: the lines of the accordion, which of them the cursor is on, and how
-- the pane scrolls. A line is a value of `DetailLine`: the texts of headings and labels are left out,
-- what they show is kept. The lines that describe a payload are a parameter, since they come from the
-- description modules.
pub mod Items
pub mod Pane
use pg_walview.Prelude.{
  ℕ, zero, suc, ◌+◌, ◌-◌, ◌%◌, ◌≤◌, ◌<◌, ◌≡◌, Bool, true, false, not, ◌&&◌, ◌||◌, Option, none,
  some, List, [], ◌∷◌, ◌++◌, length, get_elem?, map, ltb, leb, ◌==◌, if◌then◌else◌, has_bits,
  u16_mod,
}
use pg_walview.Bindings.{RelFileLocator}
use pg_walview.Rmgr.{RmgrId, from_u8}
use pg_walview.Walmisc.{bkpblock_has_data}
use pg_walview.Walreader.Types.{
  WalFullPageImage, WalBlockData, WalRecordInfo, RecordPart, header, fpi, block_data, main_data,
}
use pg_walview.Tui.DetailTree.{
  NavItem, nav_header, nav_block, nav_block_fpi, nav_main_data, BlockState, DetailTree, is_some,
  has_main_data, nav_items, focused_parts,
}
use pg_walview.Tui.View.{or_zero}
use pg_walview.Tui.App.{TableStates, details, FocusPane, record_list, hex_dump, is_empty, App}

pub data Label : Type 0 where
  lsn_label : Label
  prev_lsn_label : Label
  xid_label : Label
  info_label : Label
  tot_len_label : Label
  top_xid_label : Label
  origin_label : Label
  blkno_label : Label
  data_label : Label
  length_label : Label
  hole_offset_label : Label
  hole_len_label : Label
  apply_label : Label

-- `item_line` is a heading: its part, whether its arrow points down, and whether it is highlighted.
pub data DetailLine : Type 0 where
  item_line : RecordPart → Bool → Bool → DetailLine
  number_line : Label → ℕ → DetailLine
  optional_line : Label → Option ℕ → DetailLine
  choice_line : Label → Bool → DetailLine
  rmgr_line : RmgrId → ℕ → DetailLine
  crc_line : ℕ → Bool → DetailLine
  relation_line : RelFileLocator → DetailLine
  fork_line : ℕ → DetailLine
  flags_line : ℕ → DetailLine
  compression_line : ℕ → DetailLine
  text_line : List ℕ → DetailLine
  no_record_line : DetailLine

-- `describe_main_data` and `describe_block_data`
pub record Descriptions : Type 0 where
  pub main_data_lines : WalRecordInfo → List (List ℕ)
  pub block_data_lines : WalRecordInfo → ℕ → List (List ℕ)

abbrev pub when {ℓ} : {A : Type ℓ} → Bool → List A → List A
when b lines = if b then lines else []

abbrev pub image_of : Option WalBlockData → Option WalFullPageImage
image_of none = none
image_of (some block) = block.image

module _ (d : Descriptions) (tree : DetailTree) (info : WalRecordInfo) where
  unfoldable pub header_lines : List DetailLine
  unfolding from_u8
  header_lines =
      number_line lsn_label info.lsn
      ∷ number_line prev_lsn_label info.xlrec.xl_prev
      ∷ number_line xid_label info.xlrec.xl_xid
      ∷ rmgr_line (from_u8 info.xlrec.xl_rmid) info.xlrec.xl_rmid
      ∷ number_line info_label info.xlrec.xl_info
      ∷ number_line tot_len_label info.xlrec.xl_tot_len
      ∷ crc_line info.xlrec.xl_crc info.crc_ok
      ∷ optional_line top_xid_label info.top_xid
      ∷ optional_line origin_label info.origin
      ∷ []

  unfoldable pub block_lines : ℕ → WalBlockData → List DetailLine
  block_lines i block =
      relation_line block.rlocator
      ∷ fork_line block.forknum
      ∷ number_line blkno_label block.blocknum
      ∷ flags_line block.flags
      ∷ when (has_bits block.flags bkpblock_has_data)
          (number_line data_label block.data_len ∷ map text_line (d.block_data_lines info i))

  unfoldable pub image_lines : WalFullPageImage → List DetailLine
  image_lines image =
      number_line length_label image.bimg_len
      ∷ number_line hole_offset_label image.hole_offset
      ∷ number_line hole_len_label image.hole_len
      ∷ compression_line image.bimg_info
      ∷ choice_line apply_label image.apply_image
      ∷ []

  unfoldable pub main_lines : List DetailLine
  main_lines = number_line length_label info.main_len ∷ map text_line (d.main_data_lines info)

  -- The heading of an item and, if it is expanded, what stands below it.
  abbrev pub opened : RecordPart → Bool → Bool → List DetailLine → List DetailLine
  opened p expanded is_cursor lines = item_line p expanded is_cursor ∷ when expanded lines

  abbrev pub block_item : ℕ → Option WalBlockData → Option BlockState → Bool → List DetailLine
  block_item i (some block) (some (expanded, fpi_expanded)) is_cursor =
      opened (block_data i) expanded is_cursor (block_lines i block)
  block_item i none state is_cursor = []
  block_item i block none is_cursor = []

  abbrev pub image_item : ℕ → Option WalFullPageImage → Option BlockState → Bool → List DetailLine
  image_item i (some image) (some (expanded, fpi_expanded)) is_cursor =
      opened (fpi i) fpi_expanded is_cursor (image_lines image)
  image_item i none state is_cursor = []
  image_item i image none is_cursor = []

  -- The lines of an item. The items of `nav_items` name blocks that there are.
  unfoldable pub item_lines : NavItem → Bool → List DetailLine
  item_lines nav_header is_cursor = opened header tree.header_expanded is_cursor header_lines
  item_lines (nav_block i) is_cursor =
      block_item i (get_elem? info.blocks i) (get_elem? tree.block_states i) is_cursor
  item_lines (nav_block_fpi i) is_cursor =
      image_item i (image_of (get_elem? info.blocks i)) (get_elem? tree.block_states i) is_cursor
  item_lines nav_main_data is_cursor = opened main_data tree.main_expanded is_cursor main_lines

  -- The loop over the items from number `n` on, with `lines` and `cursor_line`.
  unfoldable pub append_items : Bool → List NavItem → ℕ → List DetailLine → ℕ → List DetailLine × ℕ
  append_items show_cursor [] n lines cursor_line = (lines, cursor_line)
  append_items show_cursor (item ∷ items) n lines cursor_line =
      let at_cursor = n == tree.cursor in
      let own = item_lines item (show_cursor && at_cursor) in
      append_items show_cursor items (n + 1) (lines ++ own)
        (if at_cursor && not (is_empty own) then length lines else cursor_line)

  unfoldable pub build_detail_lines : Bool → List DetailLine × ℕ
  build_detail_lines show_cursor =
      append_items show_cursor (nav_items tree info.blocks (has_main_data info)) 0 [] 0

unfoldable pub fully_expanded_tree : WalRecordInfo → DetailTree
fully_expanded_tree info = record {
  header_expanded = true;
  block_states = map (λ (block : WalBlockData). (true, is_some block.image)) info.blocks;
  main_expanded = true;
  cursor = 0;
}

-- What is drawn: the lines, from which one on, and the parts that the cursor is on.
pub record DetailsView : Type 0 where
  pub lines : List DetailLine
  pub from : ℕ
  pub focus : List RecordPart

abbrev pub is_details : FocusPane → Bool
is_details record_list = false
is_details details = true
is_details hex_dump = false

-- The scroll position that keeps the cursor's line in view.
unfoldable pub follow_cursor : ℕ → ℕ → ℕ → ℕ
follow_cursor inner_h cursor_line scroll =
    if ltb 0 inner_h
    then (if ltb cursor_line scroll
        then cursor_line
        else if leb (scroll + inner_h) cursor_line
        then cursor_line - (inner_h - 1)
        else scroll)
    else scroll

module _ (d : Descriptions) (t : TableStates) where
  -- The pane draws from a scroll position of 16 bits.
  abbrev scrolled : ℕ → List DetailLine × ℕ → List RecordPart → App t → DetailsView × App t
  scrolled inner_h (lines, cursor_line) focus app =
      let scroll = follow_cursor inner_h cursor_line app.detail_scroll in
      (
        record { lines = lines; from = scroll % u16_mod; focus = focus },
        record app { detail_scroll = scroll },
      )

  -- A record all of whose lines fit is shown expanded; else as its tree says.
  abbrev pub show_details : ℕ → Option WalRecordInfo → App t → DetailsView × App t
  show_details inner_h none app = scrolled inner_h (no_record_line ∷ [], 0) [] app
  show_details inner_h (some info) app =
      let full = build_detail_lines d (fully_expanded_tree info) info false in
      if leb (length full.0) inner_h
      then scrolled inner_h (full.0, 0) [] (record app { detail_scroll = 0 })
      else scrolled inner_h (build_detail_lines d app.detail_tree info (is_details app.focus))
          (focused_parts app.detail_tree info) app

  -- Without a selection it is the first record that is shown.
  unfoldable pub render_details : ℕ → ℕ → App t → Option DetailsView × App t
  render_details width height app =
      let idx = or_zero (t.selected app.state) in
      let (view, app') = show_details (height - 2) (get_elem? app.records idx) app in
      if ltb width 2 || ltb height 2 then (none, app) else (some view, app')
