-- ===== src/Tui/HexDump/Styles/Marks.antt =====
-- What marks the bytes of the selected record in the dump, with colours and without them.
use pg_walview.Prelude.{ℕ, ◌≡◌, ◌∙◌, ap, Bool, true, false, ◌||◌, Bool-cases, inl, inr}
use pg_walview.Walreader.Types.{RecordPart}
use pg_walview.Tui.Theme.{
  Toolkit, Color, Attribute, bold, reversed, foreground, part_color, dark_gray,
}
use pg_walview.Tui.HexDump.{
  ByteKind, page_header, part, zero_byte, plain, RecordOverlay, HexDump, classify,
}
use pg_walview.Tui.HexDump.Styles.{in_focus, style_of, style_at}

abbrev pub same_attribute : Attribute → Attribute → Bool
same_attribute bold bold = true
same_attribute reversed reversed = true
same_attribute a b = false

-- What the toolkit documents of attributes.
pub record IsToolkit (t : Toolkit) : Type 0 where
  pub has-plain : (a : Attribute) → t.has a t.plain ≡ false
  pub has-fg : (a : Attribute) (c : Color) (s : t.Style) → t.has a (t.fg c s) ≡ t.has a s
  pub has-add_modifier :
      (a b : Attribute) (s : t.Style)
      → t.has a (t.add_modifier (t.attribute b) s) ≡ (same_attribute a b || t.has a s)
  pub has-modifiers :
      (a : Attribute) (s : t.Style) → t.has a (t.add_modifier (t.modifiers s) t.plain) ≡ t.has a s
  pub has-patch :
      (a b : Attribute) (s : t.Style)
      → t.has a (t.patch s (t.add_modifier (t.attribute b) t.plain))
        ≡ (same_attribute a b || t.has a s)

-- Is the byte one of the selected record, and one of a part that the cursor is on?
abbrev pub is_marked : RecordOverlay → Attribute → ByteKind → Bool
is_marked overlay bold (part p) = true
is_marked overlay reversed (part p) = in_focus p overlay.focus
is_marked overlay a kind = false

module _ (t : Toolkit) (laws : IsToolkit t) (enabled : Bool) where
  has-foreground : (a : Attribute) (c : Color) → t.has a (foreground t enabled c) ≡ false
  has-foreground a c = elim (Bool-cases enabled) [
    | inl e ↦ rw e (laws.has-fg a c t.plain ∙ laws.has-plain a)
    | inr e ↦
        rw e (laws.has-modifiers a (t.fg c t.plain) ∙ laws.has-fg a c t.plain ∙ laws.has-plain a)
  ]

  has-record_part :
      (a : Attribute) (p : RecordPart)
      → t.has a (t.add_modifier (t.attribute bold) (foreground t enabled (part_color p)))
        ≡ (same_attribute a bold || false)
  has-record_part a p =
      laws.has-add_modifier a bold _
      ∙ ap (λ b. same_attribute a bold || b) (has-foreground a (part_color p))

  has-style_of :
      (overlay : RecordOverlay) (a : Attribute) (kind : ByteKind)
      → t.has a (style_of t enabled overlay kind) ≡ is_marked overlay a kind
  has-style_of overlay bold page_header = has-foreground bold dark_gray
  has-style_of overlay reversed page_header = has-foreground reversed dark_gray
  has-style_of overlay bold zero_byte = has-foreground bold dark_gray
  has-style_of overlay reversed zero_byte = has-foreground reversed dark_gray
  has-style_of overlay bold plain = laws.has-plain bold
  has-style_of overlay reversed plain = laws.has-plain reversed
  has-style_of overlay bold (part p) = elim (Bool-cases (in_focus p overlay.focus)) [
    | inl e ↦ rw e (laws.has-patch bold reversed _ ∙ has-record_part bold p)
    | inr e ↦ rw e (has-record_part bold p)
  ]
  has-style_of overlay reversed (part p) = elim (Bool-cases (in_focus p overlay.focus)) [
    | inl e ↦ rw e (laws.has-patch reversed reversed _)
    | inr e ↦ rw e (has-record_part reversed p)
  ]

  -- Whether or not colours are enabled, a byte is bold just when it is of the selected record, and
  -- reversed just when it is of a part under the cursor, where the toolkit keeps its laws.
  pub has-style_at :
      (dump : HexDump) (overlay : RecordOverlay) (offset : ℕ) (a : Attribute)
      → t.has a (style_at t enabled dump overlay offset)
        ≡ is_marked overlay a (classify dump overlay offset)
  unfolding style_at
  has-style_at dump overlay offset a = has-style_of overlay a (classify dump overlay offset)
