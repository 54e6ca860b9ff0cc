-- ===== src/Walreader/Scan/Content.antt =====
-- Where the content of records lies in a file of pages, byte by byte: what the copying of pieces in
-- src/walreader.rs is compared with.
use pg_walview.Prelude.{
  ℕ, zero, suc, ◌+◌, ◌*◌, ◌≤◌, ◌<◌, ◌≡◌, ◌∙◌, ◌⊎◌, refl, sym, ap, true, List, [], ◌∷◌, ◌++◌, length,
  slice, map, get_or, ltb, lt→ltb, if◌then◌else◌, arith, Bool-cases, inl, inr, slice-join, All,
}
use mathlib.Core.Path.{ap₂, subst}
use pg_walview.Bindings.{Bindings, IsLayout, XLogPageHeader}
use pg_walview.Walreader.Scan.Outcome.{header_size_bounds}
use pg_walview.Walreader.Pages.{WalReader, header_size, all_zero, end_page}

-- The numbers from `start` on.
abbrev pub span : ℕ → ℕ → List ℕ
span start zero = []
span start (suc n) = start ∷ span (start + 1) n

-- The bytes at these places of the file.
abbrev pub bytes_at : List ℕ → List ℕ → List ℕ
bytes_at source = map (λ place. get_or source place 0)

first_byte_at :
    (start : ℕ) (source : List ℕ)
    → start < length source
    → slice start 1 source ≡ get_or source start 0 ∷ []
first_byte_at start [] h = absurd (omega arith)
first_byte_at zero (b ∷ source) h = refl
first_byte_at (suc start) (b ∷ source) h = first_byte_at start source (omega arith)

pub slice-span :
    (n start : ℕ) (source : List ℕ)
    → start + n ≤ length source
    → slice start n source ≡ bytes_at source (span start n)
slice-span zero start source h = refl
slice-span (suc n) start source h =
    ap (λ k. slice start k source) {x = suc n} {y = 1 + n} (omega arith)
    ∙ slice-join start 1 n source
    ∙ ap₂ (λ (xs ys : List ℕ). xs ++ ys) (first_byte_at start source (omega arith))
        (slice-span n (start + 1) source (omega arith))

pub bytes_at-append :
    (source xs ys : List ℕ) → bytes_at source (xs ++ ys) ≡ bytes_at source xs ++ bytes_at source ys
bytes_at-append source [] ys = refl
bytes_at-append source (x ∷ xs) ys = ap (λ l. get_or source x 0 ∷ l) (bytes_at-append source xs ys)

pub length-bytes_at : (source places : List ℕ) → length (bytes_at source places) ≡ length places
length-bytes_at source [] = refl
length-bytes_at source (place ∷ places) = ap suc (length-bytes_at source places)

-- Places in a window, and in a wider one.
pub widen :
    (low low' high high' : ℕ) (xs : List ℕ)
    → low' ≤ low
    → high ≤ high'
    → All (λ place. (low ≤ place) × (place < high)) xs
    → All (λ place. (low' ≤ place) × (place < high')) xs
widen low low' high high' [] h k all = tt
widen low low' high high' (x ∷ xs) h k (p, all) =
    ((omega (arith, p.0), omega (arith, p.1)), widen low low' high high' xs h k all)

-- A page that holds no data: it lies behind the readable pages, or is all zero.
abbrev pub IsMissing : WalReader → ℕ → Type 0
IsMissing r page =
    (end_page r ≤ page) ⊎ (all_zero (slice (page * r.xlog_blcksz) r.xlog_blcksz r.source) ≡ true)

-- The data ends before this page and offset: at a page that holds none.
abbrev pub IsCutOff : WalReader → ℕ × ℕ → Type 0
IsCutOff r goal = (page : ℕ) × (page ≤ goal.0) × IsMissing r page

-- The header of a page of the file.
abbrev pub header_at : Bindings → List ℕ → ℕ → ℕ → XLogPageHeader
header_at c source blcksz page = c.page_header (slice (page * blcksz) blcksz source)

module _ (c : Bindings) (r : WalReader) where
  -- Content is at a page and an offset into it. At the end of the page it goes on behind the header of
  -- the next one.
  unfoldable pub enter : ℕ × ℕ → ℕ × ℕ
  enter (page, offset) =
      if ltb offset r.xlog_blcksz
      then (page, offset)
      else (page + 1, header_size c (header_at c r.source r.xlog_blcksz (page + 1)))

  abbrev pub place_of : ℕ × ℕ → ℕ
  place_of (page, offset) = page * r.xlog_blcksz + offset

  abbrev pub after_byte : ℕ × ℕ → ℕ × ℕ
  after_byte (page, offset) = (page, offset + 1)

  -- The places in the file of `n` bytes of content, and what lies behind them.
  abbrev pub places : ℕ → ℕ × ℕ → List ℕ
  places zero at = []
  places (suc n) at = place_of (enter at) ∷ places n (after_byte (enter at))

  abbrev pub behind : ℕ → ℕ × ℕ → ℕ × ℕ
  behind zero at = at
  behind (suc n) at = behind n (after_byte (enter at))

  pub length-places : (n : ℕ) (at : ℕ × ℕ) → length (places n at) ≡ n
  length-places zero at = refl
  length-places (suc n) at = ap suc (length-places n (after_byte (enter at)))

  pub enter-inside :
      (page offset : ℕ) → offset < r.xlog_blcksz → enter (page, offset) ≡ (page, offset)
  unfolding enter
  enter-inside page offset h = rw (lt→ltb offset r.xlog_blcksz h) refl

  pub enter-next :
      (page offset : ℕ)
      → r.xlog_blcksz ≤ offset
      → enter (page, offset)
        ≡ (page + 1, header_size c (header_at c r.source r.xlog_blcksz (page + 1)))
  unfolding enter
  enter-next page offset h = elim (Bool-cases (ltb offset r.xlog_blcksz)) [
    | inl e ↦ absurd (ground arith)
    | inr e ↦ rw e refl
  ]

  pub places-enter : (n : ℕ) (at at' : ℕ × ℕ) → enter at ≡ enter at' → places n at ≡ places n at'
  places-enter zero at at' e = refl
  places-enter (suc n) at at' e = ap (λ e. place_of e ∷ places n (after_byte e)) e

  pub behind-enter :
      (n : ℕ) (at at' : ℕ × ℕ) → 0 < n → enter at ≡ enter at' → behind n at ≡ behind n at'
  behind-enter zero at at' h e = absurd (omega arith)
  behind-enter (suc n) at at' h e = ap (λ e. behind n (after_byte e)) e

  -- Bytes that follow one another in a page.
  pub places-piece :
      (k m n page offset : ℕ)
      → n ≡ k + m
      → offset + k ≤ r.xlog_blcksz
      → places n (page, offset)
        ≡ span (page * r.xlog_blcksz + offset) k ++ places m (page, offset + k)
  places-piece zero m n page offset e fits =
      ap₂ (λ (n offset : ℕ). places n (page, offset)) {x = n} {y = m} {u = offset} {v = offset + 0}
        (omega arith) (omega arith)
  places-piece (suc k) m zero page offset e fits = absurd (omega arith)
  places-piece (suc k) m (suc n) page offset e fits =
      let b = r.xlog_blcksz in
      rw (enter-inside page offset (omega arith)) (
        ap (λ l. (page * b + offset) ∷ l)
          (places-piece k m n page (offset + 1) (omega arith) (omega arith)
            ∙ ap₂ (λ (start next : ℕ). span start k ++ places m (page, next))
                {x = page * b + (offset + 1)} {y = page * b + offset + 1} {u = offset + 1 + k}
                {v = offset + suc k} (omega arith) (omega arith)))

  pub behind-piece :
      (k m n page offset : ℕ)
      → n ≡ k + m
      → offset + k ≤ r.xlog_blcksz
      → behind n (page, offset) ≡ behind m (page, offset + k)
  behind-piece zero m n page offset e fits =
      ap₂ (λ (n offset : ℕ). behind n (page, offset)) {x = n} {y = m} {u = offset} {v = offset + 0}
        (omega arith) (omega arith)
  behind-piece (suc k) m zero page offset e fits = absurd (omega arith)
  behind-piece (suc k) m (suc n) page offset e fits = rw (enter-inside page offset (omega arith)) (
      behind-piece k m n page (offset + 1) (omega arith) (omega arith)
      ∙ ap (λ (next : ℕ). behind m (page, next)) {x = offset + 1 + k} {y = offset + suc k}
          (omega arith))

  pub places-add :
      (m n k : ℕ) (at : ℕ × ℕ) → k ≡ m + n → places k at ≡ places m at ++ places n (behind m at)
  places-add zero n k at e = ap (λ k. places k at) {x = k} {y = n} (omega arith)
  places-add (suc m) n zero at e = absurd (omega arith)
  places-add (suc m) n (suc k) at e =
      ap (λ l. place_of (enter at) ∷ l) (places-add m n k (after_byte (enter at)) (omega arith))

  pub behind-add : (m n k : ℕ) (at : ℕ × ℕ) → k ≡ m + n → behind k at ≡ behind n (behind m at)
  behind-add zero n k at e = ap (λ k. behind k at) {x = k} {y = n} (omega arith)
  behind-add (suc m) n zero at e = absurd (omega arith)
  behind-add (suc m) n (suc k) at e = behind-add m n k (after_byte (enter at)) (omega arith)

  -- Content never goes back to an earlier page.
  enter-page : (page offset : ℕ) → page ≤ (enter (page, offset)).0
  unfolding enter
  enter-page page offset = elim (Bool-cases (ltb offset r.xlog_blcksz)) [
    | inl e ↦ rw e (omega arith)
    | inr e ↦ rw e (omega arith)
  ]

  behind-page : (n page offset : ℕ) → page ≤ (behind n (page, offset)).0
  behind-page zero page offset = omega arith
  behind-page (suc n) page offset = omega (
    arith,
    enter-page page offset,
    behind-page n (enter (page, offset)).0 ((enter (page, offset)).1 + 1),
  )

  pub behind-next :
      (n page offset : ℕ) → 0 < n → r.xlog_blcksz ≤ offset → page + 1 ≤ (behind n (page, offset)).0
  behind-next zero page offset h e = absurd (omega arith)
  behind-next (suc n) page offset h e =
      subst (λ (at : ℕ × ℕ). page + 1 ≤ (behind n (after_byte at)).0)
        (sym (enter-next page offset e)) (behind-page n (page + 1) _)

  -- Places lie between where content begins and what is behind it.
  abbrev pub Within : ℕ → ℕ × ℕ → List ℕ → Type 0
  Within n at = All (λ place. (place_of at ≤ place) × (place < place_of (behind n at)))

  enter-forward :
      (layout : IsLayout c) (page offset : ℕ)
      → 40 < r.xlog_blcksz
      → offset ≤ r.xlog_blcksz
      → (place_of (page, offset) ≤ place_of (enter (page, offset)))
        × ((enter (page, offset)).1 < r.xlog_blcksz)
  unfolding enter
  enter-forward layout page offset big fits = elim (Bool-cases (ltb offset r.xlog_blcksz)) [
    | inl e ↦ rw e (omega arith, ground arith)
    | inr e ↦
        let (low, small) =
          header_size_bounds c layout (header_at c r.source r.xlog_blcksz (page + 1)) r.xlog_blcksz
            big in
        rw e (omega arith, small)
  ]

  pub places-Within :
      (layout : IsLayout c) (n page offset : ℕ)
      → 40 < r.xlog_blcksz
      → offset ≤ r.xlog_blcksz
      → (place_of (page, offset) ≤ place_of (behind n (page, offset)))
        × Within n (page, offset) (places n (page, offset))
  places-Within layout zero page offset big fits = (omega arith, tt)
  places-Within layout (suc n) page offset big fits =
      let at = enter (page, offset) in
      let (forward, small) = enter-forward layout page offset big fits in
      let (on, all) = places-Within layout n at.0 (at.1 + 1) big (omega (arith, small)) in
      (
        omega (arith, forward, on),
        (
          (forward, omega (arith, on)),
          widen _ _ _ _ (places n (after_byte at)) (omega (arith, forward)) (omega arith) all,
        ),
      )
