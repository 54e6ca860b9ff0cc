-- ===== src/Walreader/Pages/Lsn.antt =====
-- The LSN arithmetic of `WALReader` in src/walreader.rs: an LSN of the segment and the page and
-- offset that it stands for, and what becomes of the LSN at which the next segment begins.
use pg_walview.Prelude.{
  ℕ, zero, suc, ◌+◌, ◌*◌, ◌/◌, ◌%◌, ◌≤◌, ◌<◌, ◌≡◌, ◌∙◌, refl, ap, arith, u32_mod, u64_mod,
}
use native.Mathlib.Nat.{mod-eq_of_lt, div-eq_of_lt, add-mod_right, add-div_right}
use pg_walview.Walreader.Pages.{
  WalReader, pages_per_segment, lsn_to_page_no, lsn_to_page_offset, page_start_lsn,
}

-- The geometry that a reader works in: whole pages, each longer than a long page header, in a segment
-- that ends within the LSNs of 64 bits. A source longer than the segment has been refused.
pub record IsSegment (r : WalReader) : Type 0 where
  pub pages : ℕ
  pub whole : r.seg_size ≡ pages * r.xlog_blcksz
  pub some_page : 0 < pages
  pub few_pages : pages < u32_mod
  pub big : 40 < r.xlog_blcksz
  pub fits : r.seg_no * r.seg_size + r.seg_size < u64_mod
  pub readable : r.readable_pages ≤ pages

-- A multiple and a rest.
pub quotient_rest : (q m x : ℕ) → x < m → ((q * m + x) % m ≡ x) × ((q * m + x) / m ≡ q)
quotient_rest zero m x h =
    let same : zero * m + x ≡ x = omega arith in rw same (mod-eq_of_lt h, div-eq_of_lt h)
quotient_rest (suc q) m x h =
    let (rest, quotient) = quotient_rest q m x h in
    let more : suc q * m + x ≡ (q * m + x) + m = omega arith in
    rw more (
      add-mod_right (q * m + x) m ∙ rest,
      omega (arith, add-div_right (q * m + x) {k = m} (omega arith), quotient),
    )

pub page_inside : (p pages b x : ℕ) → p < pages → x < b → p * b + x < pages * b
page_inside p pages b x h k = grind arith

module _ (r : WalReader) (g : IsSegment r) where
  pub pages_per_segment-pages : pages_per_segment r ≡ g.pages
  unfolding pages_per_segment
  pages_per_segment-pages =
      let exact : r.seg_size / r.xlog_blcksz ≡ g.pages =
        ap (λ (n : ℕ). n / r.xlog_blcksz) {x = r.seg_size} {y = g.pages * r.xlog_blcksz + 0}
          (omega (arith, g.whole))
        ∙ (quotient_rest g.pages r.xlog_blcksz 0 (omega (arith, g.big))).1 in
      rw exact (mod-eq_of_lt g.few_pages)

  -- No page of the segment begins beyond the LSNs.
  pub page_start_lsn-sum :
      (p : ℕ) → p ≤ g.pages → page_start_lsn r p ≡ r.seg_no * r.seg_size + p * r.xlog_blcksz
  unfolding page_start_lsn
  page_start_lsn-sum p h = mod-eq_of_lt (omega (arith, g.whole, g.fits, scaled))
    where
      scaled : p * r.xlog_blcksz ≤ g.pages * r.xlog_blcksz
      scaled = grind arith

  -- For each page of the segment and each offset into a page: the LSN there lies in the segment, and the
  -- page and the offset computed from it are those.
  pub lsn_round_trip :
      (p offset : ℕ)
      → p < g.pages
      → offset < r.xlog_blcksz
      → (lsn_to_page_no r (page_start_lsn r p + offset) ≡ p)
        × (lsn_to_page_offset r (page_start_lsn r p + offset) ≡ offset)
        × (page_start_lsn r p + offset < r.seg_no * r.seg_size + r.seg_size)
  unfolding lsn_to_page_no lsn_to_page_offset
  lsn_round_trip p offset h k =
      let b = r.xlog_blcksz in
      let inside : p * b + offset < r.seg_size =
        omega (arith, g.whole, page_inside p g.pages b offset h k) in
      let start = page_start_lsn-sum p (omega arith) in
      let sum : page_start_lsn r p + offset ≡ r.seg_no * r.seg_size + (p * b + offset) =
        omega (arith, start) in
      let (rest, _) = quotient_rest r.seg_no r.seg_size (p * b + offset) inside in
      let (offset_of, page_of) = quotient_rest p b offset k in
      rw (sum, rest, page_of, offset_of)
        (mod-eq_of_lt (omega (arith, g.few_pages)), refl, omega arith)

  -- The first LSN behind the segment stands for its page 0.
  pub lsn_wraps :
      (lsn : ℕ)
      → lsn ≡ page_start_lsn r g.pages
      → (lsn_to_page_no r lsn ≡ 0) × (lsn_to_page_offset r lsn ≡ 0)
  unfolding lsn_to_page_no lsn_to_page_offset
  lsn_wraps lsn e =
      let size : 0 < r.seg_size = omega (
        arith,
        g.whole,
        g.big,
        page_inside 0 g.pages r.xlog_blcksz 0 g.some_page (omega (arith, g.big)),
      ) in
      let next : lsn ≡ (r.seg_no * r.seg_size + 0) + r.seg_size =
        omega (arith, e, page_start_lsn-sum g.pages (omega arith), g.whole) in
      let (rest, _) = quotient_rest r.seg_no r.seg_size 0 size in
      let zero_rest : lsn % r.seg_size ≡ 0 =
        ap (λ (n : ℕ). n % r.seg_size) next
        ∙ add-mod_right (r.seg_no * r.seg_size + 0) r.seg_size
        ∙ rest in
      rw zero_rest (
        omega (arith, div-eq_of_lt {n = 0} {m = r.xlog_blcksz} (omega (arith, g.big))),
        mod-eq_of_lt (omega (arith, g.big)),
      )
