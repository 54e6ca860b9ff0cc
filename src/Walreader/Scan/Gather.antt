-- ===== src/Walreader/Scan/Gather.antt =====
-- The bytes that a list of file ranges names, and `file_ranges` as it grows.
use pg_walview.Prelude.{
  ℕ, zero, suc, ◌+◌, ◌-◌, ◌≤◌, ◌≡◌, ◌∙◌, refl, sym, ap, List, [], ◌∷◌, ◌++◌, length, slice, ◌==◌,
  arith, All, Bool-cases, inl, inr, slice-join, ==→eq,
}
use mathlib.Core.List.{append-nil, append_assoc}
use mathlib.Core.Path.{ap₂}
use pg_walview.Walreader.Types.{Range, range_len}
use pg_walview.Walreader.Scan.{push_range}
use pg_walview.Walreader.Scan.Content.{span, bytes_at, slice-span, bytes_at-append}

-- The bytes of the file in these ranges, in order.
unfoldable pub gather : List ℕ → List Range → List ℕ
gather source [] = []
gather source (range ∷ ranges) = slice range.start (range_len range) source ++ gather source ranges

-- The places in the file of these bytes.
abbrev pub offsets_of : List Range → List ℕ
offsets_of [] = []
offsets_of (range ∷ ranges) = span range.start (range_len range) ++ offsets_of ranges

-- A range of bytes that the file has.
abbrev pub IsInside : List ℕ → Range → Type 0
IsInside source range = (range.start ≤ range.end) × (range.end ≤ length source)

-- One range, and a range lengthened.
gather_one :
    (source : List ℕ) (start len : ℕ)
    → slice start (start + len - start) source ++ [] ≡ slice start len source
gather_one source start len =
    append-nil (slice start (start + len - start) source)
    ∙ ap (λ n. slice start n source) (omega arith)

gather_longer :
    (source : List ℕ) (last : Range) (start len : ℕ)
    → last.start ≤ last.end
    → last.end ≡ start
    → slice last.start (last.end + len - last.start) source ++ []
      ≡ (slice last.start (range_len last) source ++ []) ++ slice start len source
gather_longer source last start len p e =
    append-nil _
    ∙ ap (λ n. slice last.start n source) (omega arith)
    ∙ slice-join last.start (range_len last) len source
    ∙ ap (λ n. slice last.start (range_len last) source ++ slice n len source) (omega arith)
    ∙ ap (λ l. l ++ slice start len source)
        (sym (append-nil (slice last.start (range_len last) source)))

gather_two :
    (source : List ℕ) (last : Range) (start len : ℕ)
    → slice last.start (range_len last) source ++ (slice start (start + len - start) source ++ [])
      ≡ (slice last.start (range_len last) source ++ []) ++ slice start len source
gather_two source last start len =
    ap (λ l. slice last.start (range_len last) source ++ l) (gather_one source start len)
    ∙ ap (λ l. l ++ slice start len source)
        (sym (append-nil (slice last.start (range_len last) source)))

-- Where the ranges so far lie in the source, a new piece adds its bytes, whether it makes a range of its
-- own or lengthens the last one.
pub gather-push_range :
    (source : List ℕ) (ranges : List Range) (start len : ℕ)
    → All (IsInside source) ranges
    → gather source (push_range ranges start len) ≡ gather source ranges ++ slice start len source
unfolding gather push_range
gather-push_range source [] start len h = gather_one source start len
gather-push_range source (last ∷ []) start len (p, h) = elim (Bool-cases (last.end == start)) [
  | inl e ↦ rw e (gather_longer source last start len p.0 (==→eq _ _ e))
  | inr e ↦ rw e (gather_two source last start len)
]
gather-push_range source (range ∷ next ∷ ranges) start len (p, h) =
    ap (λ l. slice range.start (range_len range) source ++ l)
      (gather-push_range source (next ∷ ranges) start len h)
    ∙ sym (
        append_assoc (slice range.start (range_len range) source) (gather source (next ∷ ranges))
          (slice start len source))

pub push_range-IsInside :
    (source : List ℕ) (ranges : List Range) (start len : ℕ)
    → All (IsInside source) ranges
    → start + len ≤ length source
    → All (IsInside source) (push_range ranges start len)
unfolding push_range
push_range-IsInside source [] start len h fits = ((omega arith, fits), tt)
push_range-IsInside source (last ∷ []) start len (p, h) fits = ground arith
push_range-IsInside source (range ∷ next ∷ ranges) start len (p, h) fits =
    (p, push_range-IsInside source (next ∷ ranges) start len h fits)

span-join :
    (a b n start next : ℕ)
    → n ≡ a + b
    → next ≡ start + a
    → span start n ≡ span start a ++ span next b
span-join zero b n start next e f = ap₂ (λ (start n : ℕ). span start n) (omega arith) (omega arith)
span-join (suc a) b zero start next e f = absurd (omega arith)
span-join (suc a) b (suc n) start next e f =
    ap (λ l. start ∷ l) (span-join a b n (start + 1) next (omega arith) (omega arith))

-- A new piece adds its places.
pub offsets_of-push_range :
    (source : List ℕ) (ranges : List Range) (start len : ℕ)
    → All (IsInside source) ranges
    → offsets_of (push_range ranges start len) ≡ offsets_of ranges ++ span start len
unfolding push_range
offsets_of-push_range source [] start len h =
    append-nil _ ∙ ap (λ n. span start n) {x = start + len - start} {y = len} (omega arith)
offsets_of-push_range source (last ∷ []) start len (p, h) = elim (Bool-cases (last.end == start)) [
  | inl e ↦ rw e (
      append-nil _
      ∙ span-join (range_len last) len (last.end + len - last.start) last.start start
          (omega (arith, p.0)) (omega (arith, p.0, ==→eq _ _ e))
      ∙ ap (λ l. l ++ span start len) (sym (append-nil (span last.start (range_len last)))))
  | inr e ↦ rw e (
      ap (λ l. span last.start (range_len last) ++ l)
        (append-nil _ ∙ ap (λ n. span start n) {x = start + len - start} {y = len} (omega arith))
      ∙ ap (λ l. l ++ span start len) (sym (append-nil (span last.start (range_len last)))))
]
offsets_of-push_range source (range ∷ next ∷ ranges) start len (p, h) =
    ap (λ l. span range.start (range_len range) ++ l)
      (offsets_of-push_range source (next ∷ ranges) start len h)
    ∙ sym (
        append_assoc (span range.start (range_len range)) (offsets_of (next ∷ ranges))
          (span start len))

-- The bytes of ranges of the file are those at their places.
pub gather-offsets_of :
    (source : List ℕ) (ranges : List Range)
    → All (IsInside source) ranges
    → gather source ranges ≡ bytes_at source (offsets_of ranges)
unfolding gather
gather-offsets_of source [] h = refl
gather-offsets_of source (range ∷ ranges) (p, h) =
    ap₂ (λ (xs ys : List ℕ). xs ++ ys)
      (slice-span (range_len range) range.start source (omega (arith, p.0, p.1)))
      (gather-offsets_of source ranges h)
    ∙ sym (bytes_at-append source (span range.start (range_len range)) (offsets_of ranges))
