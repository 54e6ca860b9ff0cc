-- ===== src/Tui/HexDump/Styles.antt =====
-- `style_at` and `ascii_style_at` of src/main.rs: how a byte of the dump is drawn.
pub mod Marks
use pg_walview.Prelude.{
  ℕ, Bool, true, false, ◌&&◌, ◌||◌, Option, none, some, List, [], ◌∷◌, get_elem?, ltb, leb, ◌==◌,
  if◌then◌else◌,
}
use pg_walview.Walreader.Types.{RecordPart, header, descriptors, fpi, block_data, main_data}
use pg_walview.Tui.Theme.{Toolkit, dim, cursor_style, record_part, selected_record_mark}
use pg_walview.Tui.HexDump.{
  ByteKind, page_header, part, zero_byte, plain, RecordOverlay, HexDump, classify,
}

-- `==` of two parts, as it is derived.
abbrev pub same_part : RecordPart → RecordPart → Bool
same_part header header = true
same_part descriptors descriptors = true
same_part (fpi i) (fpi j) = i == j
same_part (block_data i) (block_data j) = i == j
same_part main_data main_data = true
same_part p q = false

abbrev pub in_focus : RecordPart → List RecordPart → Bool
in_focus p [] = false
in_focus p (q ∷ focus) = same_part q p || in_focus p focus

abbrev pub is_printable : Option ℕ → Bool
is_printable none = false
is_printable (some b) = leb 0x20 b && ltb b 0x7f

module _ (t : Toolkit) (enabled : Bool) where
  open t use {Style, add_modifier, patch}

  abbrev pub style_of : RecordOverlay → ByteKind → Style
  style_of overlay page_header = dim t enabled
  style_of overlay zero_byte = dim t enabled
  style_of overlay plain = t.plain
  style_of overlay (part p) =
      let style = add_modifier (selected_record_mark t enabled) (record_part t enabled p) in
      if in_focus p overlay.focus then patch style (cursor_style t enabled) else style

  unfoldable pub style_at : HexDump → RecordOverlay → ℕ → Style
  style_at dump overlay offset = style_of overlay (classify dump overlay offset)

  -- A placeholder is dimmed.
  abbrev pub placeholder_style : Style → ByteKind → Style
  placeholder_style style (part p) = patch style (dim t enabled)
  placeholder_style style kind = dim t enabled

  unfoldable pub ascii_style_at : HexDump → RecordOverlay → ℕ → Style
  unfolding style_at
  ascii_style_at dump overlay offset =
      if is_printable (get_elem? dump.bytes offset)
      then style_at dump overlay offset
      else placeholder_style (style_at dump overlay offset) (classify dump overlay offset)
