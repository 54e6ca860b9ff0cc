-- ===== src/Tests/Dump.antt =====
-- The lines of the dump, run and applied on a segment of six bytes.
use pg_walview.Prelude.{
  ℕ, zero, suc, replicate, map, get_or, All, IsByte, u8_mod, ◌<◌, ◌+◌, ◌≡◌, refl, Bool, true, false,
  not, ◌&&◌, ◌||◌, List, [], ◌∷◌, ◌++◌, length, arith,
}
use pg_walview.Prelude.Digits.{codes, lower_hex, upper_hex, pad_right}
use pg_walview.Walmisc.Format.{lsn_format}
use pg_walview.Walreader.Types.{header}
use pg_walview.Tui.Theme.{Toolkit, Color, Attribute, bold, reversed, hex_addr}
use pg_walview.Tui.HexDump.{
  RecordOverlay, HexDump, classify, page_header_size, part_at, find_part, hex_prefix_width,
  hex_column_width,
}
use pg_walview.Tui.HexDump.Styles.{style_at, ascii_style_at}
use pg_walview.Tui.HexDump.Styles.Marks.{IsToolkit, same_attribute, has-style_at}
use pg_walview.Tui.HexDump.Lines.{
  line, line_prefix, ascii_loop, hex_loop, hex_cell, ascii_char, switch,
}
use pg_walview.Tui.HexDump.Lines.Cells.{paint, cells, IsSound}
use pg_walview.Tui.HexDump.Lines.Columns.{HoldsBytes, meant, cells-line}
use pg_walview.Tui.HexDump.Lines.Width.{length-line}

-- A style of colour or none, bold or not, reversed or not.
record Ansi : Type 0 where
  is_plain : Bool
  is_bold : Bool
  is_reversed : Bool

abbrev has_attribute : Attribute → Ansi → Bool
has_attribute bold s = s.is_bold
has_attribute reversed s = s.is_reversed

abbrev both_or_neither : Bool → Bool → Bool
both_or_neither true b = b
both_or_neither false b = not b

abbrev ansi : Toolkit
ansi = record {
  Style = Ansi;
  Modifier = Bool × Bool;
  plain = record { is_plain = true; is_bold = false; is_reversed = false };
  fg = λ c s. record s { is_plain = false };
  bg = λ c s. record s { is_plain = false };
  attribute = λ a. elim a [ bold ↦ (true, false) | reversed ↦ (false, true) ];
  add_modifier = λ m s. record s { is_bold = m.0 || s.is_bold; is_reversed = m.1 || s.is_reversed };
  modifiers = λ s. (s.is_bold, s.is_reversed);
  patch = λ a b. record {
    is_plain = a.is_plain && b.is_plain;
    is_bold = b.is_bold || a.is_bold;
    is_reversed = b.is_reversed || a.is_reversed;
  };
  same = λ a b.
      both_or_neither a.is_plain b.is_plain
      && both_or_neither a.is_bold b.is_bold
      && both_or_neither a.is_reversed b.is_reversed;
  has = has_attribute;
  is_coloured = λ s. not s.is_plain;
}

ansi-IsSound : IsSound ansi true
ansi-IsSound a b h = ground arith

plain_law : (a : Attribute) → ansi.has a ansi.plain ≡ false
plain_law bold = refl
plain_law reversed = refl

fg_law : (a : Attribute) (c : Color) (s : Ansi) → ansi.has a (ansi.fg c s) ≡ ansi.has a s
fg_law bold c s = refl
fg_law reversed c s = refl

add_modifier_law :
    (a b : Attribute) (s : Ansi)
    → ansi.has a (ansi.add_modifier (ansi.attribute b) s) ≡ (same_attribute a b || ansi.has a s)
add_modifier_law bold bold s = refl
add_modifier_law bold reversed s = refl
add_modifier_law reversed bold s = refl
add_modifier_law reversed reversed s = refl

or-false : (b : Bool) → (b || false) ≡ b
or-false true = refl
or-false false = refl

modifiers_law :
    (a : Attribute) (s : Ansi)
    → ansi.has a (ansi.add_modifier (ansi.modifiers s) ansi.plain) ≡ ansi.has a s
modifiers_law bold s = or-false s.is_bold
modifiers_law reversed s = or-false s.is_reversed

patch_law :
    (a b : Attribute) (s : Ansi)
    → ansi.has a (ansi.patch s (ansi.add_modifier (ansi.attribute b) ansi.plain))
      ≡ (same_attribute a b || ansi.has a s)
patch_law bold bold s = refl
patch_law bold reversed s = refl
patch_law reversed bold s = refl
patch_law reversed reversed s = refl

ansi-IsToolkit : IsToolkit ansi
ansi-IsToolkit = record {
  has-plain = plain_law;
  has-fg = fg_law;
  has-add_modifier = add_modifier_law;
  has-modifiers = modifiers_law;
  has-patch = patch_law;
}

-- A short page header of zeros, and six bytes, of which the first two are of the selected record.
abbrev small_dump : HexDump
small_dump = record {
  bytes = replicate 24 0 ++ (65 ∷ 200 ∷ 0 ∷ 66 ∷ 1 ∷ 2 ∷ []);
  start_lsn = 768;
  xlog_blcksz = 64;
  bytes_per_line = 4;
}

abbrev small_overlay : RecordOverlay
small_overlay = record {
  parts = (record { start = 24; end = 26 }, header) ∷ [];
  focus = header ∷ [];
}

get_or-lt : (n : ℕ) (bytes : List ℕ) → All IsByte bytes → get_or bytes n 0 < u8_mod
get_or-lt n [] h = omega arith
get_or-lt zero (b ∷ bytes) (p, h) = p
get_or-lt (suc n) (b ∷ bytes) (p, h) = get_or-lt n bytes h

small_dump-HoldsBytes : HoldsBytes small_dump
small_dump-HoldsBytes offset = get_or-lt offset small_dump.bytes (omega arith)

cells-line_example :
    cells ansi true (line ansi true small_dump small_overlay 6)
    ≡ paint ansi true (line_prefix small_dump 24) (hex_addr ansi true)
      ++ meant ansi true small_dump small_overlay 24 4
cells-line_example =
    cells-line ansi true small_dump small_overlay ansi-IsSound 6 small_dump-HoldsBytes

length-line_example :
    length (cells ansi true (line ansi true small_dump small_overlay 7))
    ≡ hex_prefix_width + hex_column_width 4 + 2 + 2
length-line_example =
    length-line ansi true small_dump small_overlay 7 ansi-IsSound small_dump-HoldsBytes
      (omega arith) (omega arith)

has-style_at_example : ansi.has reversed (style_at ansi false small_dump small_overlay 25) ≡ true
unfolding classify page_header_size part_at find_part
has-style_at_example = has-style_at ansi ansi-IsToolkit false small_dump small_overlay 25 reversed

-- The texts of the line at byte 24, span by span: the two bytes of the record stand out.
line_run :
    map (λ span. span.0) (line ansi true small_dump small_overlay 6)
    ≡ codes "0/00000318 00000018: "
      ∷ codes "41 c8"
      ∷ codes " 00"
      ∷ codes " 42"
      ∷ codes "  "
      ∷ codes "A."
      ∷ codes "."
      ∷ codes "B"
      ∷ []
unfolding line ascii_loop switch ascii_style_at classify page_header_size part_at find_part hex_loop
    hex_cell lower_hex line_prefix hex_column_width ascii_char pad_right lsn_format upper_hex
line_run = refl
