-- ===== src/Walreader/Record/FileRanges.antt =====
-- `file_ranges_of` of src/walreader.rs: the file ranges of a part of the record hold the bytes of that
-- part.
use pg_walview.Prelude.{
  ℕ, zero, suc, ◌+◌, ◌-◌, ◌≤◌, ◌<◌, ◌≡◌, ◌∙◌, refl, sym, ap, min, max, List, [], ◌∷◌, ◌++◌, length,
  take, drop, slice, leb, leb→le, arith, All, Bool-cases, inl, inr, length-slice, drop-drop,
  take-all, take-take, drop-take, window_empty, window-append,
}
use mathlib.Core.Path.{ap₂}
use pg_walview.Walreader.Types.{Range, range_len, WalRecordInfo}
use pg_walview.Walreader.Record.{file_ranges_from, file_ranges_of, bytes_at}
use pg_walview.Walreader.Scan.Gather.{gather, IsInside}

-- The part of a piece that a window onto it keeps, as a piece of the file.
piece_window :
    (source : List ℕ) (start len a e : ℕ)
    → e ≤ len
    → drop a (take e (slice start len source)) ≡ slice (start + a) (e - a) source
piece_window source start len a e h =
    ap (drop a) (take-take e len e (drop start source) (omega arith))
    ∙ drop-take a e (e - a) (drop start source) refl
    ∙ ap (take (e - a)) (drop-drop a start (start + a) source refl)

take_short : (e : ℕ) (xs : List ℕ) → take e xs ≡ take (min e (length xs)) xs
take_short e xs =
    sym (ap (take e) (take-all (length xs) xs (omega arith)))
    ∙ take-take e (length xs) (min e (length xs)) xs refl

nothing_left : (a e : ℕ) → drop {A = ℕ} a (take e []) ≡ []
nothing_left zero zero = refl
nothing_left zero (suc e) = refl
nothing_left (suc a) zero = refl
nothing_left (suc a) (suc e) = refl

module _ (source : List ℕ) (file : Range) (consumed : ℕ) (raw : Range)
    (inside : IsInside source file) where
  -- What the window onto the raw bytes keeps of one file range.
  abbrev kept_piece : List ℕ
  kept_piece =
      drop (raw.start - consumed)
        (take (raw.end - consumed) (slice file.start (range_len file) source))

  length_piece : length (slice file.start (range_len file) source) ≡ range_len file
  length_piece = length-slice file.start (range_len file) source (omega (arith, inside))

  kept_short :
      kept_piece
      ≡ drop (raw.start - consumed) (
          take
            (min (raw.end - consumed) (range_len file))
            (slice file.start (range_len file) source))
  kept_short = ap (drop (raw.start - consumed)) (
      take_short (raw.end - consumed) (slice file.start (range_len file) source)
      ∙ ap (λ n. take (min (raw.end - consumed) n) (slice file.start (range_len file) source))
          length_piece)

  -- None of it, if the windows do not meet.
  kept_none : min raw.end (consumed + range_len file) ≤ max raw.start consumed → kept_piece ≡ []
  kept_none apart =
      kept_short
      ∙ window_empty (raw.start - consumed) (min (raw.end - consumed) (range_len file))
          (slice file.start (range_len file) source) (omega arith)

  kept_some :
      max raw.start consumed < min raw.end (consumed + range_len file)
      → kept_piece
        ≡ slice
            (file.start + (max raw.start consumed - consumed))
            (file.start
              + (min raw.end (consumed + range_len file) - consumed)
              - (file.start + (max raw.start consumed - consumed)))
            source
  kept_some meet =
      kept_short
      ∙ piece_window source file.start (range_len file) (raw.start - consumed)
          (min (raw.end - consumed) (range_len file)) (omega arith)
      ∙ ap₂ (λ from n. slice from n source) (omega arith) (omega arith)

file_ranges_from-gathers :
    (source : List ℕ) (ranges : List Range) (consumed : ℕ) (raw : Range)
    → All (IsInside source) ranges
    → gather source (file_ranges_from consumed ranges raw)
      ≡ drop (raw.start - consumed) (take (raw.end - consumed) (gather source ranges))
unfolding gather file_ranges_from
file_ranges_from-gathers source [] consumed raw h =
    sym (nothing_left (raw.start - consumed) (raw.end - consumed))
file_ranges_from-gathers source (file ∷ rest) consumed raw (p, h) =
    let piece = slice file.start (range_len file) source in
    let from = max raw.start consumed in
    let to = min raw.end (consumed + range_len file) in
    let size = length_piece source file consumed raw p in
    let later = file_ranges_from-gathers source rest (consumed + range_len file) raw h in
    let behind : gather source (file_ranges_from (consumed + range_len file) rest raw)
        ≡ drop (raw.start - consumed - length piece)
            (take (raw.end - consumed - length piece) (gather source rest)) =
      later
      ∙ ap₂ (λ n m. drop n (take m (gather source rest))) (omega (arith, size))
          (omega (arith, size)) in
    let split =
      window-append (raw.start - consumed) (raw.end - consumed) piece (gather source rest) in
    elim (Bool-cases (leb to from)) [
      | inl apart ↦ rw apart (
          behind
          ∙ ap
              (λ l.
                l
                ++ drop (raw.start - consumed - length piece)
                    (take (raw.end - consumed - length piece) (gather source rest)))
              (sym (kept_none source file consumed raw p (leb→le _ _ apart)))
          ∙ sym split)
      | inr meet ↦ rw meet (
          ap₂ (λ l m. l ++ m) (sym (kept_some source file consumed raw p (ground arith))) behind
          ∙ sym split)
    ]

-- Where the file ranges of a record lie in the file and hold its raw bytes: the file bytes at
-- `file_ranges_of` any range of the record, in order, are the bytes of that range.
pub file_ranges_of-gathers :
    (source : List ℕ) (info : WalRecordInfo) (raw : Range)
    → All (IsInside source) info.file_ranges
    → gather source info.file_ranges ≡ info.raw
    → gather source (file_ranges_of info raw) ≡ bytes_at info.raw raw
unfolding file_ranges_of
file_ranges_of-gathers source info raw inside whole =
    file_ranges_from-gathers source info.file_ranges 0 raw inside
    ∙ ap₂ (λ n m. drop n (take m (gather source info.file_ranges))) (omega arith) (omega arith)
    ∙ ap (λ l. drop raw.start (take raw.end l)) whole
    ∙ drop-take raw.start raw.end (raw.end - raw.start) info.raw refl
