-- ===== src/Tui/HexDump/Lines/Cells.antt =====
-- What a line of the dump shows, character by character, whatever runs it is merged from.
use mathlib.Core.List.{append_assoc, append-nil}
use pg_walview.Prelude.{
  ℕ, zero, suc, ◌+◌, ◌-◌, ◌≡◌, ◌∙◌, refl, sym, ap, Bool, true, List, [], ◌∷◌, ◌++◌, get_or,
  Bool-cases, inl, inr,
}
use pg_walview.Tui.Theme.{Toolkit}
use pg_walview.Tui.HexDump.{RecordOverlay, HexDump}
use pg_walview.Tui.HexDump.Styles.{style_at, ascii_style_at}
use pg_walview.Tui.HexDump.Lines.{
  Span, Runs, flush, switch, push_text, hex_cell, ascii_char, hex_loop, ascii_loop,
}

module _ (t : Toolkit) (enabled : Bool) where
  open t use {Style, same}

  -- A text in one style.
  abbrev pub paint : List ℕ → Style → List (ℕ × Style)
  paint [] style = []
  paint (c ∷ text) style = (c, style) ∷ paint text style

  -- The characters of a line, each with its style.
  abbrev pub cells : List (Span t enabled) → List (ℕ × Style)
  cells [] = []
  cells ((text, style) ∷ spans) = paint text style ++ cells spans

  abbrev pub shown : Runs t enabled → List (ℕ × Style)
  shown s = cells s.spans ++ paint s.text s.run

  pub paint-append :
      (xs ys : List ℕ) (style : Style) → paint (xs ++ ys) style ≡ paint xs style ++ paint ys style
  paint-append [] ys style = refl
  paint-append (x ∷ xs) ys style = ap (λ l. (x, style) ∷ l) (paint-append xs ys style)

  pub cells-append : (xs ys : List (Span t enabled)) → cells (xs ++ ys) ≡ cells xs ++ cells ys
  cells-append [] ys = refl
  cells-append ((text, style) ∷ xs) ys =
      ap (λ l. paint text style ++ l) (cells-append xs ys)
      ∙ sym (append_assoc (paint text style) (cells xs) (cells ys))

  pub cells-flush :
      (spans : List (Span t enabled)) (text : List ℕ) (style : Style)
      → cells (flush t enabled spans text style) ≡ cells spans ++ paint text style
  cells-flush spans [] style = sym (append-nil _)
  cells-flush spans (c ∷ text) style =
      cells-append spans _ ∙ ap (λ l. cells spans ++ l) (append-nil _)

  -- The hex column as it is meant: each byte in its own style, whatever stands beside it.
  abbrev pub hex_cells : HexDump → RecordOverlay → ℕ → ℕ → ℕ → List (ℕ × Style)
  hex_cells dump overlay start zero offset = []
  hex_cells dump overlay start (suc n) offset =
      paint (hex_cell (offset - start) (get_or dump.bytes offset 0))
        (style_at t enabled dump overlay offset)
      ++ hex_cells dump overlay start n (offset + 1)

  -- The ASCII column likewise: one character for each byte.
  abbrev pub ascii_cells : HexDump → RecordOverlay → ℕ → ℕ → List (ℕ × Style)
  ascii_cells dump overlay zero offset = []
  ascii_cells dump overlay (suc n) offset =
      (ascii_char (get_or dump.bytes offset 0), ascii_style_at t enabled dump overlay offset)
      ∷ ascii_cells dump overlay n (offset + 1)

  -- Styles that compare as equal are equal.
  abbrev pub IsSound : Type 0
  IsSound = (a b : Style) → same a b ≡ true → a ≡ b

  module _ (sound : IsSound) where
    run-switch : (style : Style) (s : Runs t enabled) → (switch t enabled style s).run ≡ style
    unfolding switch
    run-switch style s = elim (Bool-cases (same style s.run)) [
      | inl e ↦ rw e (sym (sound style s.run e))
      | inr e ↦ rw e refl
    ]

    shown-switch : (style : Style) (s : Runs t enabled) → shown (switch t enabled style s) ≡ shown s
    unfolding switch
    shown-switch style s = elim (Bool-cases (same style s.run)) [
      | inl e ↦ rw e refl
      | inr e ↦ rw e (append-nil _ ∙ cells-flush s.spans s.text s.run)
    ]

    -- What one byte adds.
    shown-push_text :
        (text : List ℕ) (style : Style) (s : Runs t enabled)
        → shown (push_text t enabled text (switch t enabled style s)) ≡ shown s ++ paint text style
    shown-push_text text style s =
        let s' = switch t enabled style s in
        ap (λ l. cells s'.spans ++ l) (paint-append s'.text text s'.run)
        ∙ sym (append_assoc (cells s'.spans) (paint s'.text s'.run) (paint text s'.run))
        ∙ ap (λ l. l ++ paint text s'.run) (shown-switch style s)
        ∙ ap (λ r. shown s ++ paint text r) (run-switch style s)

    pub shown-hex_loop :
        (dump : HexDump) (overlay : RecordOverlay) (start n offset width : ℕ) (s : Runs t enabled)
        → shown (hex_loop t enabled dump overlay start n offset (width, s)).1
          ≡ shown s ++ hex_cells dump overlay start n offset
    unfolding hex_loop
    shown-hex_loop dump overlay start zero offset width s = sym (append-nil _)
    shown-hex_loop dump overlay start (suc n) offset width s =
        let style = style_at t enabled dump overlay offset in
        let cell = hex_cell (offset - start) (get_or dump.bytes offset 0) in
        shown-hex_loop dump overlay start n (offset + 1) _
          (push_text t enabled cell (switch t enabled style s))
        ∙ ap (λ l. l ++ hex_cells dump overlay start n (offset + 1)) (shown-push_text cell style s)
        ∙ append_assoc (shown s) (paint cell style) (hex_cells dump overlay start n (offset + 1))

    pub shown-ascii_loop :
        (dump : HexDump) (overlay : RecordOverlay) (n offset : ℕ) (s : Runs t enabled)
        → shown (ascii_loop t enabled dump overlay n offset s)
          ≡ shown s ++ ascii_cells dump overlay n offset
    unfolding ascii_loop
    shown-ascii_loop dump overlay zero offset s = sym (append-nil _)
    shown-ascii_loop dump overlay (suc n) offset s =
        let style = ascii_style_at t enabled dump overlay offset in
        let char = ascii_char (get_or dump.bytes offset 0) in
        let cell : List ℕ = char ∷ [] in
        shown-ascii_loop dump overlay n (offset + 1)
          (push_text t enabled cell (switch t enabled style s))
        ∙ ap (λ l. l ++ ascii_cells dump overlay n (offset + 1)) (shown-push_text cell style s)
        ∙ append_assoc (shown s) (paint cell style) (ascii_cells dump overlay n (offset + 1))
