-- ===== src/Tui/HexDump/Widths.antt =====
-- The geometry of the hex dump.
use pg_walview.Prelude.{
  ℕ, ◌+◌, ◌-◌, ◌*◌, ◌/◌, ◌≤◌, ◌<◌, ◌≡◌, ◌⊎◌, refl, length, leb, arith, Bool-cases, inl, inr, leb→le,
}
use native.Mathlib.Nat.{div-mul-le_self, le-div_iff_mul-le}
use pg_walview.Tui.HexDump.{HexDump, hex_column_width, line_width, hex_bytes_per_line, total_lines}

abbrev pub IsLayoutWidth : ℕ → Type 0
IsLayoutWidth n = (n ≡ 16) ⊎ (n ≡ 8) ⊎ (n ≡ 4)

-- The layout that is chosen is of 16, 8 or 4 bytes. A pane that can hold the narrowest of these can hold
-- it, and one of these that is wider does not fit the pane.
pub hex_bytes_per_line-fits :
    (width : ℕ)
    → IsLayoutWidth (hex_bytes_per_line width)
      × (line_width 4 ≤ width → line_width (hex_bytes_per_line width) ≤ width)
      × ((n : ℕ) → IsLayoutWidth n → hex_bytes_per_line width < n → width < line_width n)
unfolding hex_bytes_per_line hex_column_width
hex_bytes_per_line-fits width = elim (Bool-cases (leb (line_width 16) width)) [
  | inl e ↦ rw e (inl refl, (λ h. leb→le _ width e), (λ n layout wider. absurd (omega arith)))
  | inr e ↦ elim (Bool-cases (leb (line_width 8) width)) [
    | inl f ↦ rw (e, f) (inr (inl refl), (λ h. leb→le _ width f), (λ n layout wider. ground arith))
    | inr f ↦ rw (e, f) (inr (inr refl), (λ h. h), (λ n layout wider. ground arith))
  ]
]

-- With at least one byte to a line, each byte of the segment stands on one of the lines of the dump.
pub total_lines-covers :
    (dump : HexDump) (offset : ℕ)
    → 0 < dump.bytes_per_line
    → offset < length dump.bytes
    → offset / dump.bytes_per_line < total_lines dump
unfolding total_lines
total_lines-covers dump offset positive inside =
    let b = dump.bytes_per_line in
    let down = div-mul-le_self offset b in
    let room : (offset / b + 1) * b ≤ length dump.bytes + (b - 1) = omega arith in
    let fits : offset / b + 1 ≤ (length dump.bytes + (b - 1)) / b =
      (le-div_iff_mul-le positive).1 room in
    omega (arith, fits)
