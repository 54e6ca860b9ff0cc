-- ===== src/Tui/Theme.antt =====
-- The styles of src/theme.rs. The terminal toolkit is an interface: what the source uses of a style.
use pg_walview.Prelude.{ℕ, Bool, true, false, Option, none, some, List, [], ◌∷◌, if◌then◌else◌}
use pg_walview.Rmgr.{
  RmgrId, heap, heap2, btree, hash, gin, gist, sp_gist, brin, xact, commit_ts, multi_xact, clog,
}
use pg_walview.Walreader.Types.{RecordPart, header, descriptors, fpi, block_data, main_data}

pub data Color : Type 0 where
  yellow gray dark_gray red green white blue magenta cyan : Color

pub data Attribute : Type 0 where
  bold reversed : Attribute

-- A set of attributes, for `add_modifier`, and styles with the operations that the source calls.
-- `has` is `style.add_modifier.contains(_)`, and `is_coloured` tells whether `fg` or `bg` is set.
pub record Toolkit : Type 1 where
  pub Style : Type 0
  pub Modifier : Type 0
  pub plain : Style
  pub fg : Color → Style → Style
  pub bg : Color → Style → Style
  pub attribute : Attribute → Modifier
  pub add_modifier : Modifier → Style → Style
  pub modifiers : Style → Modifier
  pub patch : Style → Style → Style
  pub same : Style → Style → Bool
  pub has : Attribute → Style → Bool
  pub is_coloured : Style → Bool

-- The variable `NO_COLOR`, as the program finds it: present and not empty, it disables colour.
unfoldable pub colors_enabled_for : Option (List ℕ) → Bool
colors_enabled_for none = true
colors_enabled_for (some []) = true
colors_enabled_for (some (c ∷ value)) = false

-- The four families of resource managers.
unfoldable pub rmgr_color : RmgrId → Color
rmgr_color heap = green
rmgr_color heap2 = green
rmgr_color btree = blue
rmgr_color hash = blue
rmgr_color gin = blue
rmgr_color gist = blue
rmgr_color sp_gist = blue
rmgr_color brin = blue
rmgr_color xact = magenta
rmgr_color commit_ts = magenta
rmgr_color multi_xact = magenta
rmgr_color clog = magenta
rmgr_color id = cyan

unfoldable pub part_color : RecordPart → Color
part_color header = magenta
part_color descriptors = blue
part_color (fpi i) = yellow
part_color (block_data i) = cyan
part_color main_data = green

-- `enabled` is what `colors_enabled_for` makes of the environment, read once.
module _ (t : Toolkit) (enabled : Bool) where
  open t use {Style, Modifier, plain, fg, bg, attribute, add_modifier, modifiers}

  abbrev pub strip_color : Style → Style
  strip_color style = add_modifier (modifiers style) plain

  -- `c` of the source: every style below that has a colour goes through it.
  abbrev pub with_color : Style → Style
  with_color style = if enabled then style else strip_color style

  abbrev pub foreground : Color → Style
  foreground color = with_color (fg color plain)

  abbrev bold_face : Style → Style
  bold_face = add_modifier (attribute bold)

  abbrev pub border : Bool → Style
  border active = foreground (if active then yellow else gray)

  abbrev pub status_hint : Style
  status_hint = foreground dark_gray

  abbrev pub status_error : Style
  status_error = foreground red

  abbrev pub list_header : Style
  list_header = bold_face (with_color (fg yellow plain))

  abbrev pub selected_row_style : Style
  selected_row_style = add_modifier (attribute reversed) plain

  abbrev pub xid_group_row_style : Style
  xid_group_row_style = with_color (fg white (bg dark_gray plain))

  abbrev pub committed_style : Style
  committed_style = bold_face (foreground green)

  abbrev pub aborted_style : Style
  aborted_style = bold_face (foreground red)

  abbrev pub open_style : Style
  open_style = bold_face (foreground yellow)

  abbrev pub none_style : Style
  none_style = bold_face (foreground dark_gray)

  abbrev pub rmgr_style : RmgrId → Style
  rmgr_style id = foreground (rmgr_color id)

  abbrev pub fpi_marker : Style
  fpi_marker = bold_face (foreground yellow)

  abbrev pub crc_bad : Style
  crc_bad = foreground red

  abbrev pub crc_ok_style : Style
  crc_ok_style = foreground green

  abbrev pub detail_key : Style
  detail_key = foreground dark_gray

  abbrev pub detail_value : Style
  detail_value = plain

  abbrev pub lsn_style : Style
  lsn_style = foreground cyan

  abbrev pub flags_style : Style
  flags_style = foreground yellow

  abbrev pub cursor_style : Style
  cursor_style = add_modifier (attribute reversed) plain

  abbrev pub hex_addr : Style
  hex_addr = foreground dark_gray

  abbrev pub dim : Style
  dim = foreground dark_gray

  abbrev pub record_part : RecordPart → Style
  record_part p = foreground (part_color p)

  abbrev pub selected_record_mark : Modifier
  selected_record_mark = attribute bold
