-- ===== src/Walreader/Scan/Progress.antt =====
-- How far `load_next_record` of src/walreader.rs comes in the file, where the file stops short of the
-- segment: every record ends where the next may begin, and the read pointer does not wrap.
use pg_walview.Prelude.{
  ℕ, ◌+◌, ◌*◌, ◌/◌, ◌%◌, ◌≤◌, ◌<◌, ◌≡◌, ◌∙◌, sym, ap, All, length, arith, u32_mod, u64_mod, inl,
}
use mathlib.Core.Path.{subst, ap₂}
use native.Mathlib.Nat.{mod-eq_of_lt, div-add-mod', div-lt_iff_lt-mul}
use pg_walview.Bindings.{Bindings, IsLayout}
use pg_walview.Walmisc.{maxalign}
use pg_walview.Walreader.Types.{WalRecordInfo}
use pg_walview.Walreader.Pages.{
  WalReader, pages_per_segment, lsn_to_page_no, lsn_to_page_offset, page_start_lsn, end_page,
}
use pg_walview.Walreader.Pages.Lsn.{
  IsSegment, quotient_rest, pages_per_segment-pages, page_start_lsn-sum, lsn_round_trip,
}
use pg_walview.Walreader.Scan.Content.{
  enter, place_of, places, behind, bytes_at, places-Within, widen,
}
use pg_walview.Walreader.Scan.Gather.{offsets_of}
use pg_walview.Walreader.Scan.FoundAt.{position, IsFound, Stops}
use pg_walview.Walreader.Scan.RecordAt.{record_frame, IsRecordAt}

-- The file has fewer pages than the segment, and the reader counts the whole ones.
pub record IsPartial (r : WalReader) : Type 0 where
  pub short : r.readable_pages < pages_per_segment r
  pub present : r.readable_pages * r.xlog_blcksz ≤ length r.source
  pub counted : length r.source < (r.readable_pages + 1) * r.xlog_blcksz

page_below : (p q b : ℕ) → p * b + b < (q + 1) * b → p < q
page_below p q b h = grind arith

scaled : (p q b : ℕ) → p ≤ q → p * b ≤ q * b
scaled p q b h = grind arith

maxalign_pad : (n : ℕ) → (n ≤ maxalign n) × (maxalign n < n + 8)
unfolding maxalign
maxalign_pad n = (omega arith, omega arith)

-- The page and the offset into it that an LSN stands for.
abbrev pub page_offset : WalReader → ℕ → ℕ × ℕ
page_offset r lsn = (lsn_to_page_no r lsn, lsn_to_page_offset r lsn)

-- Readers of one source in one geometry.
module _ (base r : WalReader) (same : record_frame r ≡ record_frame base) where
  pub IsSegment-frame : IsSegment base → IsSegment r
  IsSegment-frame g =
      let framed : IsSegment (record_frame base) = record {
        pages = g.pages;
        whole = g.whole;
        some_page = g.some_page;
        few_pages = g.few_pages;
        big = g.big;
        fits = g.fits;
        readable = g.readable;
      } in
      let g' = subst IsSegment (sym same) framed in
      record {
        pages = g'.pages;
        whole = g'.whole;
        some_page = g'.some_page;
        few_pages = g'.few_pages;
        big = g'.big;
        fits = g'.fits;
        readable = g'.readable;
      }

  pub IsPartial-frame : IsPartial base → IsPartial r
  unfolding pages_per_segment
  IsPartial-frame p =
      let framed : IsPartial (record_frame base) = record {
        short = p.short;
        present = p.present;
        counted = p.counted;
      } in
      let p' = subst IsPartial (sym same) framed in
      record { short = p'.short; present = p'.present; counted = p'.counted }

  pub end_page-frame : end_page r ≡ end_page base
  unfolding end_page
  end_page-frame = ap end_page same

  pub position-frame : (lsn : ℕ) → position r lsn ≡ position base lsn
  unfolding lsn_to_page_no lsn_to_page_offset
  position-frame lsn = ap (λ (x : WalReader). position x lsn) same

pub IsPartial-Stops : (c : Bindings) (r : WalReader) → IsPartial r → Stops c r
IsPartial-Stops c r p = inl p.short

module _ (r : WalReader) (g : IsSegment r) where
  -- A place in the segment, by its distance from the start.
  pub position-start :
      (x : ℕ) → x < g.pages * r.xlog_blcksz → position r (r.seg_no * r.seg_size + x) ≡ x
  unfolding lsn_to_page_no lsn_to_page_offset
  position-start x h =
      let positive : 0 < r.xlog_blcksz = omega (arith, g.big) in
      let (rest, _) = quotient_rest r.seg_no r.seg_size x (omega (arith, g.whole)) in
      let (_, below) = div-lt_iff_lt-mul {k = r.xlog_blcksz} {x = x} {y = g.pages} positive in
      let page =
        mod-eq_of_lt {n = x / r.xlog_blcksz} {m = u32_mod} (omega (arith, below h, g.few_pages)) in
      rw (rest, page) (div-add-mod' x r.xlog_blcksz)

module _ (c : Bindings) (r : WalReader) (g : IsSegment r) (partial : IsPartial r) (s : WalReader)
    (found : IsFound c r r.read_lsn s) (info : WalRecordInfo) (r' : WalReader)
    (at : IsRecordAt c s info r') where
  pub record_frame-next : record_frame r' ≡ record_frame r
  record_frame-next = at.kept ∙ ap (λ (x : WalReader). record_frame x) found.kept

  blcksz_next : r'.xlog_blcksz ≡ r.xlog_blcksz
  blcksz_next = ap (λ (x : WalReader). x.xlog_blcksz) record_frame-next

  source_next : length r'.source ≡ length r.source
  source_next = ap (λ (x : WalReader). length x.source) record_frame-next

  -- The page that the record ends on is one of the file.
  last_page : r'.page_no < r.readable_pages
  last_page =
      let inside : r'.page_no * r'.xlog_blcksz + r'.xlog_blcksz ≤ length r.source =
        omega (arith, at.loaded.inside, source_next) in
      let inside' : r'.page_no * r.xlog_blcksz + r.xlog_blcksz ≤ length r.source =
        subst (λ (b : ℕ). r'.page_no * b + b ≤ length r.source) blcksz_next inside in
      page_below r'.page_no r.readable_pages r.xlog_blcksz (omega (arith, inside', partial.counted))

  -- Where the record begins, from the start of the segment.
  abbrev start_of : ℕ
  start_of = s.page_no * r.xlog_blcksz + found.offset

  start_page : s.page_no < g.pages
  unfolding end_page
  start_page = let whole = pages_per_segment-pages r g in omega (arith, found.readable, whole)

  start_lsn : s.read_lsn ≡ r.seg_no * r.seg_size + start_of
  start_lsn = omega (arith, found.at, page_start_lsn-sum r g s.page_no (omega (arith, start_page)))

  start_offset : lsn_to_page_offset s s.read_lsn ≡ found.offset
  unfolding lsn_to_page_offset
  start_offset =
      let (_, offset, _) = lsn_round_trip r g s.page_no found.offset start_page found.on_page in
      ap (λ (x : WalReader). lsn_to_page_offset x s.read_lsn) found.kept
      ∙ ap (lsn_to_page_offset r) found.at
      ∙ offset

  blcksz_start : s.xlog_blcksz ≡ r.xlog_blcksz
  blcksz_start = ap (λ (x : WalReader). x.xlog_blcksz) found.kept

  -- Where the record ends.
  end_place :
      r'.page_no * r.xlog_blcksz + at.end_offset ≡ start_of + (at.header_bytes + length info.raw)
  end_place =
      let came : r'.page_no * r.xlog_blcksz + at.end_offset
          ≡ s.page_no * r.xlog_blcksz
            + lsn_to_page_offset s s.read_lsn
            + (at.header_bytes + length info.raw) =
        subst
          (λ (b : ℕ).
            r'.page_no * b + at.end_offset
            ≡ s.page_no * b + lsn_to_page_offset s s.read_lsn + (at.header_bytes + length info.raw))
          blcksz_start at.came_to in
      omega (arith, came, start_offset)

  end_readable : start_of + (at.header_bytes + length info.raw) ≤ r.readable_pages * r.xlog_blcksz
  end_readable =
      let page : (r'.page_no + 1) * r.xlog_blcksz ≤ r.readable_pages * r.xlog_blcksz =
        scaled (r'.page_no + 1) r.readable_pages r.xlog_blcksz (omega (arith, last_page)) in
      omega (arith, page, end_place, at.on_page, blcksz_start)

  -- The place in the file that the read pointer moves to.
  abbrev pub end_of : ℕ
  end_of = start_of + (at.header_bytes + maxalign (length info.raw))

  end_of-lt : end_of < g.pages * r.xlog_blcksz
  unfolding pages_per_segment
  end_of-lt =
      let whole = pages_per_segment-pages r g in
      let page : (r.readable_pages + 1) * r.xlog_blcksz ≤ g.pages * r.xlog_blcksz =
        scaled (r.readable_pages + 1) g.pages r.xlog_blcksz (omega (arith, partial.short, whole)) in
      omega (arith, page, end_readable, maxalign_pad (length info.raw), g.big)

  end_lsn : r'.read_lsn ≡ r.seg_no * r.seg_size + end_of
  end_lsn =
      let inside : r.seg_no * r.seg_size + end_of < u64_mod =
        omega (arith, end_of-lt, g.whole, g.fits) in
      at.advanced
      ∙ ap (λ (n : ℕ). n % u64_mod) {y = r.seg_no * r.seg_size + end_of} (omega (arith, start_lsn))
      ∙ mod-eq_of_lt inside

  -- The read pointer comes to lie at the end of the record, aligned, which is in the segment and at
  -- least a header behind where it was.
  pub position-next : position r' r'.read_lsn ≡ end_of
  position-next =
      position-frame r r' record_frame-next r'.read_lsn
      ∙ ap (position r) end_lsn
      ∙ position-start r g end_of end_of-lt

  pub position-forward : position r r.read_lsn + 24 ≤ position r' r'.read_lsn
  position-forward =
      omega (arith, position-next, found.forward, at.header_fits, maxalign_pad (length info.raw))

  pub position-readable : position r' r'.read_lsn < length r.source + 8
  position-readable =
      omega (arith, position-next, end_readable, maxalign_pad (length info.raw), partial.present)

  pub end-le-position : info.lsn + length info.raw ≤ r'.read_lsn
  end-le-position = omega (arith, end_lsn, start_lsn, at.decoded.at, maxalign_pad (length info.raw))

  pub at-next : r'.read_lsn ≡ r'.seg_no * r'.seg_size + position r' r'.read_lsn
  at-next =
      let same : r'.seg_no * r'.seg_size ≡ r.seg_no * r.seg_size =
        ap (λ (x : WalReader). x.seg_no * x.seg_size) record_frame-next in
      omega (arith, same, end_lsn, position-next)

  pub near-next : position r' r'.read_lsn < length r'.source + 8
  near-next = omega (arith, position-readable, source_next)

  -- The record begins at the read pointer or behind.
  pub position-le-start : r.seg_no * r.seg_size + position r r.read_lsn ≤ info.lsn
  position-le-start = omega (arith, start_lsn, found.forward, at.decoded.at)

  -- The page and the offset that the LSN of the record stands for.
  record_start : (s.page_no, lsn_to_page_offset s s.read_lsn) ≡ page_offset r info.lsn
  record_start =
      let (page, offset, _) = lsn_round_trip r g s.page_no found.offset start_page found.on_page in
      let lsn : info.lsn ≡ page_start_lsn r s.page_no + found.offset = at.decoded.at ∙ found.at in
      ap₂ (λ (page offset : ℕ). (page, offset)) (sym page) (start_offset ∙ sym offset)
      ∙ ap (page_offset r) (sym lsn)

  -- The places that the file ranges of the record name.
  pub placed-lsn :
      offsets_of info.file_ranges ≡ places c r (length info.raw) (page_offset r info.lsn)
  unfolding enter
  placed-lsn =
      at.placed
      ∙ ap
          (λ (x : WalReader).
            places c x (length info.raw) (s.page_no, lsn_to_page_offset s s.read_lsn))
          found.kept
      ∙ ap (λ at. places c r (length info.raw) at) record_start

  pub content-lsn :
      info.raw ≡ bytes_at r.source (places c r (length info.raw) (page_offset r info.lsn))
  content-lsn =
      at.content
      ∙ ap₂ bytes_at (ap (λ (x : WalReader). x.source) found.kept) (sym at.placed ∙ placed-lsn)

  -- They lie between the places of the read pointer before the record and behind it.
  pub places-between :
      IsLayout c
      → All
          (λ place. (position r r.read_lsn ≤ place) × (place < position r' r'.read_lsn))
          (offsets_of info.file_ranges)
  places-between layout =
      let at_start : ℕ × ℕ = (s.page_no, lsn_to_page_offset s s.read_lsn) in
      let (_, all) =
        places-Within c s layout (length info.raw) s.page_no (lsn_to_page_offset s s.read_lsn)
          (omega (arith, blcksz_start, g.big))
          (omega (arith, start_offset, found.on_page, blcksz_start)) in
      let first : position r r.read_lsn ≤ place_of c s at_start =
        omega (arith, ap (λ b. s.page_no * b) blcksz_start, start_offset, found.forward) in
      let last : place_of c s (behind c s (length info.raw) at_start) ≤ position r' r'.read_lsn =
        omega (
          arith,
          ap (place_of c s) at.ends,
          ap (λ b. r'.page_no * b) blcksz_start,
          end_place,
          position-next,
          maxalign_pad (length info.raw),
        ) in
      subst (All (λ place. (position r r.read_lsn ≤ place) × (place < position r' r'.read_lsn)))
        (sym at.placed) (widen _ _ _ _ _ first last all)
