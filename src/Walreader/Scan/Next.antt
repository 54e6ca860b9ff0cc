-- ===== src/Walreader/Scan/Next.antt =====
-- `load_next_record` of src/walreader.rs: it ends, and the record that it returns is one of the file.
use pg_walview.Prelude.{
  ℕ, suc, ◌+◌, ◌%◌, ◌<◌, ◌≡◌, refl, ap, Bool, true, false, Option, none, some, leb, if◌then◌else◌,
  arith, Bool-cases, inl, inr, ◌⊎◌, u64_mod, lt→leb,
}
use pg_walview.Bindings.{Bindings, IsLayout}
use pg_walview.Walreader.Types.{WalRecordInfo, Result, ok, err, stuck}
use pg_walview.Walreader.Pages.{WalReader, page_start_lsn, end_page}
use pg_walview.Walreader.Pages.Lsn.{IsSegment, pages_per_segment-pages, lsn_wraps}
use pg_walview.Walreader.Scan.{
  content_offset, ensure_page, find_next_record, load_record, load_next_record, stop,
}
use pg_walview.Walreader.Scan.Loading.{IsLoaded}
use pg_walview.Walreader.Scan.Outcome.{Ends, Ends-after}
use pg_walview.Walreader.Scan.FoundAt.{IsFound, IsExhausted, Found, Stops}
use pg_walview.Walreader.Scan.Search.{find_next_record-Ends}
use pg_walview.Walreader.Scan.RecordAt.{IsRecordAt, IsNoRecord, Loaded}
use pg_walview.Walreader.Scan.Records.{load_record-Ends}

-- There is no further record: the reader has stopped before, or the data ends before the place where
-- records begin, or there is no whole record at that place.
abbrev pub IsOver : Bindings → WalReader → Type 0
IsOver c r =
    (r.done ≡ true)
    ⊎ IsExhausted c r r.read_lsn
    ⊎ ((s : WalReader) × IsFound c r r.read_lsn s × IsNoRecord c s)

-- The end of the data is remembered; else the record stands where the search found that records begin.
abbrev pub Delivered : Bindings → WalReader → Option WalRecordInfo → WalReader → Type 0
Delivered c r none r' = (r'.done ≡ true) × IsOver c r
Delivered c r (some info) r' = (s : WalReader) × IsFound c r r.read_lsn s × IsRecordAt c s info r'

module _ (c : Bindings) (layout : IsLayout c) (r : WalReader) where
  Loaded-Delivered :
      (s : WalReader)
      → IsFound c r r.read_lsn s
      → (x : Result (Option WalRecordInfo)) (r' : WalReader) → Ends (Loaded c s) (x, r')
      → Ends (Delivered c r) (x, r')
  unfolding Ends
  Loaded-Delivered s found (ok none) r' (stopped, missing) =
      (stopped, inr (inr (s, found, missing)))
  Loaded-Delivered s found (ok (some info)) r' at = (s, found, at)
  Loaded-Delivered s found (err e) r' h = tt
  Loaded-Delivered s found stuck r' h = h

  load_if_any :
      (g : IsSegment r) (found : Bool) (s : WalReader)
      → Found c r r.read_lsn found s
      → Ends (Delivered c r) ((if found then load_record c else stop (ok none)) s)
  load_if_any g true s found =
      let same : s.xlog_blcksz ≡ r.xlog_blcksz = ap (λ (x : WalReader). x.xlog_blcksz) found.kept in
      Loaded-Delivered s found _ _
        (load_record-Ends c layout s (omega (arith, same, g.big)) found.loaded)
  load_if_any g false s (kept, exhausted) = unfold Ends in (refl, inr (inl exhausted))

  pub load_next_record-Ends :
      (fuel : ℕ)
      → IsSegment r
      → Stops c r
      → IsLoaded r
      → end_page r < fuel
      → Ends (Delivered c r) (load_next_record c fuel r)
  unfolding load_next_record
  load_next_record-Ends fuel g stops loaded enough = elim (Bool-cases r.done) [
    | inl over ↦ simp over (unfold Ends in (over, inl over))
    | inr going ↦ simp going (
        Ends-after (Found c r r.read_lsn) (Delivered c r) (find_next_record c fuel r) _
          (find_next_record-Ends c layout r g stops fuel loaded enough) (load_if_any g))
  ]

module _ (c : Bindings) (r : WalReader) (g : IsSegment r) where
  -- In a segment that is all there, with the read pointer at its end, and where page 0 loads and holds
  -- content: the search does not report the end of the data but finds the first content of page 0.
  pub find_next_record-wraps :
      (fuel offset : ℕ) (s : WalReader)
      → r.readable_pages ≡ g.pages
      → r.read_lsn ≡ page_start_lsn r g.pages
      → ensure_page c 0 r ≡ (ok true, s)
      → content_offset c s ≡ some offset
      → find_next_record c (suc fuel) r
        ≡ (ok true, record s { read_lsn = (page_start_lsn s 0 + offset) % u64_mod })
  unfolding find_next_record end_page
  find_next_record-wraps fuel offset s all at_end first content =
      let (page, _) = lsn_wraps r g r.read_lsn at_end in
      let whole = pages_per_segment-pages r g in
      let readable : leb (end_page r) 0 ≡ false =
        lt→leb (end_page r) 0 (omega (arith, whole, all, g.some_page)) in
      rw (page, readable, first, content) refl
