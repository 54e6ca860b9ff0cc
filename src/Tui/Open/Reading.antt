-- ===== src/Tui/Open/Reading.antt =====
-- The loop of `App::new` ends on a file that stops short of its segment, and what it finds.
use pg_walview.Prelude.{
  ℕ, zero, suc, ◌+◌, ◌*◌, ◌≤◌, ◌<◌, ◌≡◌, ◌∙◌, ◌/◌, u32_mod, refl, sym, ap, false, Option, none,
  some, List, [], ◌∷◌, length, All, arith,
}
use mathlib.Core.Path.{subst}
use pg_walview.Bindings.{Bindings, IsLayout}
use pg_walview.Walreader.Types.{WalRecordInfo, WalReaderError, Result, ok, err, stuck}
use pg_walview.Walreader.Decode.Layout.{IsDecoded}
use pg_walview.Walreader.Pages.{WalReader, end_page, lsn_to_page_no, lsn_to_page_offset}
use pg_walview.Walreader.Pages.Lsn.{IsSegment, pages_per_segment-pages}
use pg_walview.Walreader.Scan.{load_next_record, verify_record_crc, new}
use pg_walview.Walreader.Scan.Content.{enter, places, bytes_at}
use pg_walview.Walreader.Scan.Gather.{gather, offsets_of}
use pg_walview.Walreader.Scan.Loading.{IsLoaded}
use pg_walview.Walreader.Scan.Outcome.{Ends}
use pg_walview.Walreader.Scan.FoundAt.{position, IsFound}
use pg_walview.Walreader.Scan.RecordAt.{IsRecordAt, record_frame}
use pg_walview.Walreader.Scan.Next.{IsOver, Delivered, load_next_record-Ends}
use pg_walview.Walreader.Scan.Progress.{
  IsPartial, IsPartial-Stops, IsPartial-frame, IsSegment-frame, record_frame-next, position-start,
  position-forward, at-next, near-next, end-le-position, position-le-start, page_offset, placed-lsn,
  content-lsn, places-between,
}
use pg_walview.Walreader.Scan.Opening.{IsOpened, new-IsOpened}
use pg_walview.Tui.App.{TableStates}
use pg_walview.Tui.Open.{
  Scanned, push, collect, read_records, show_scanned, or_stuck, scan_opened, app_new,
}

fewer : (p q b : ℕ) → p * b < q * b → p < q
fewer p q b h = grind arith

-- The records stand in the order of the file, the first at `lsn` or behind, and none of them before
-- the end of the one in front of it.
abbrev pub InOrder : ℕ → List WalRecordInfo → Type 0
InOrder lsn [] = Unit
InOrder lsn (info ∷ infos) = (lsn ≤ info.lsn) × InOrder (info.lsn + length info.raw) infos

-- The places of the file that the records' ranges name lie apart, the first ones at `from` or behind,
-- and those of each record before those of the records that follow it.
abbrev pub Apart : ℕ → List WalRecordInfo → Type 0
Apart from [] = Unit
Apart from (info ∷ infos) =
    (until : ℕ) × All (λ place. (from ≤ place) × (place < until)) (offsets_of info.file_ranges)
    × Apart until infos

-- The bytes of a record are the content of the file from its LSN on, over the page headers, its file
-- ranges name just the places of these bytes, and it is those bytes decoded, with the flag of their
-- checksum.
pub record IsOfFile (c : Bindings) (r : WalReader) (info : WalRecordInfo) : Type 0 where
  pub content : info.raw ≡ bytes_at r.source (places c r (length info.raw) (page_offset r info.lsn))
  pub placed : offsets_of info.file_ranges ≡ places c r (length info.raw) (page_offset r info.lsn)
  pub from_file : gather r.source info.file_ranges ≡ info.raw
  pub whole : length info.raw ≡ info.xlrec.xl_tot_len
  pub decoded : IsDecoded c info.raw info.lsn info
  pub checked : info.crc_ok ≡ verify_record_crc c info.raw

-- A reader of a file that stops short of its segment, with a page loaded, and the read pointer in the
-- segment, behind the end of the file by less than the padding of a record.
pub record IsReading (r : WalReader) : Type 0 where
  pub segment : IsSegment r
  pub partial : IsPartial r
  pub loaded : IsLoaded r
  pub at : r.read_lsn ≡ r.seg_no * r.seg_size + position r r.read_lsn
  pub near : position r r.read_lsn < length r.source + 8

All-map {ℓ κ μ} :
    {A : Type ℓ} {P : A → Type κ} {Q : A → Type μ}
    → ((a : A) → P a → Q a)
    → (xs : List A) → All P xs
    → All Q xs
All-map f [] h = tt
All-map f (x ∷ xs) (p, h) = (f x p, All-map f xs h)

InOrder-weaken :
    (lsn lsn' : ℕ) (infos : List WalRecordInfo)
    → lsn ≤ lsn'
    → InOrder lsn' infos
    → InOrder lsn infos
InOrder-weaken lsn lsn' [] h p = tt
InOrder-weaken lsn lsn' (info ∷ infos) h (p, rest) = (omega arith, rest)

-- One record after the other: each stands where the search from behind the last one finds that records
-- begin, and behind the last there is no further one, or the next cannot be loaded.
abbrev pub Follows : Bindings → List WalRecordInfo → Option WalReaderError → WalReader → Type 0
Follows c [] none r = IsOver c r
Follows c [] (some e) r = Unit
Follows c (info ∷ infos) stop r =
    (s : WalReader) × (r' : WalReader) × IsFound c r r.read_lsn s
    × IsRecordAt c s info r'
    × Follows c infos stop r'

-- The records of a scan that began at `r`.
abbrev pub IsScan : Bindings → WalReader → Scanned → Type 0
IsScan c r scanned =
    Follows c scanned.records scanned.stop_reason r
    × InOrder r.read_lsn scanned.records
    × Apart (position r r.read_lsn) scanned.records
    × All (IsOfFile c r) scanned.records

module _ (c : Bindings) (layout : IsLayout c) where
  module _ (r : WalReader) (reading : IsReading r) (s : WalReader)
      (found : IsFound c r r.read_lsn s) (info : WalRecordInfo) (r' : WalReader)
      (at : IsRecordAt c s info r') where
    kept : record_frame r' ≡ record_frame r
    kept = record_frame-next c r reading.segment reading.partial s found info r' at

    IsReading-next : IsReading r'
    IsReading-next = record {
      segment = IsSegment-frame r r' kept reading.segment;
      partial = IsPartial-frame r r' kept reading.partial;
      loaded = at.loaded;
      at = at-next c r reading.segment reading.partial s found info r' at;
      near = near-next c r reading.segment reading.partial s found info r' at;
    }

    of_file : IsOfFile c r info
    of_file =
        let same : s.source ≡ r.source = ap (λ (x : WalReader). x.source) found.kept in
        record {
          content = content-lsn c r reading.segment reading.partial s found info r' at;
          placed = placed-lsn c r reading.segment reading.partial s found info r' at;
          from_file =
              subst (λ (source : List ℕ). gather source info.file_ranges ≡ info.raw) same
                at.from_file;
          whole = at.whole;
          decoded =
              subst (λ (lsn : ℕ). IsDecoded c info.raw lsn info) (sym at.decoded.at) at.decoded;
          checked = at.checked;
        }

    IsOfFile-frame : (info' : WalRecordInfo) → IsOfFile c r' info' → IsOfFile c r info'
    unfolding enter lsn_to_page_no lsn_to_page_offset
    IsOfFile-frame info' h =
        let same = kept in
        record {
          content =
              h.content
              ∙ ap
                  (λ (x : WalReader).
                    bytes_at x.source (places c x (length info'.raw) (page_offset x info'.lsn)))
                  same;
          placed =
              h.placed
              ∙ ap (λ (x : WalReader). places c x (length info'.raw) (page_offset x info'.lsn))
                  same;
          from_file =
              subst (λ (x : WalReader). gather x.source info'.file_ranges ≡ info'.raw) same
                h.from_file;
          whole = h.whole;
          decoded = h.decoded;
          checked = h.checked;
        }

    -- A record that is loaded goes before those that the further rounds find.
    push-Scan : (scanned : Scanned) → IsScan c r' scanned → IsScan c r (push info scanned)
    push-Scan scanned (follows, order, apart, all) =
        let g = reading.segment in
        let p = reading.partial in
        let behind = position-le-start c r g p s found info r' at in
        let past = end-le-position c r g p s found info r' at in
        (
          (s, r', found, at, follows),
          (
            omega (arith, behind, reading.at),
            InOrder-weaken _ r'.read_lsn scanned.records past order,
          ),
          (position r' r'.read_lsn, places-between c r g p s found info r' at layout, apart),
          (of_file, All-map (λ info' h. IsOfFile-frame info' h) scanned.records all),
        )

  -- One round, where the further ones end.
  collect-Scan :
      (r : WalReader) (reading : IsReading r) (x : Result (Option WalRecordInfo)) (r' : WalReader)
      (rest : Option Scanned)
      → Ends (Delivered c r) (x, r')
      → (IsReading r'
          → position r r.read_lsn + 24 ≤ position r' r'.read_lsn
          → length r'.source ≡ length r.source
          → (scanned : Scanned) × (rest ≡ some scanned) × IsScan c r' scanned)
      → (scanned : Scanned) × (collect x r' rest ≡ some scanned) × IsScan c r scanned
  unfolding Ends
  collect-Scan r reading (ok none) r' rest (stopped, over) ih = (_, refl, (over, tt, tt, tt))
  collect-Scan r reading (ok (some info)) r' rest (s, found, at) ih =
      let forward = position-forward c r reading.segment reading.partial s found info r' at in
      let same = ap (λ (x : WalReader). length x.source) (kept r reading s found info r' at) in
      let (scanned, e, scan) = ih (IsReading-next r reading s found info r' at) forward same in
      rw e (push info scanned, refl, push-Scan r reading s found info r' at scanned scan)
  collect-Scan r reading (err e) r' rest h ih = (_, refl, (tt, tt, tt, tt))
  collect-Scan r reading stuck r' rest h ih = absurd h

  -- A reader with a page loaded, of a file that stops short of its segment, with the read pointer in
  -- the segment, and a round of fuel for each byte behind the read pointer and eight more: the loop
  -- ends. Each record that it has found stands where records begin behind the one before it, its bytes
  -- are the content of the file from its LSN on, decoded, and its file ranges name their places, which
  -- lie apart and in order; and where no error is reported, the reader has stopped on a record with a
  -- bad checksum or there is no further record.
  pub read_records-Ends :
      (fuel : ℕ) (r : WalReader)
      → IsReading r
      → length r.source + 8 ≤ fuel + position r r.read_lsn
      → (scanned : Scanned) × (read_records c fuel r ≡ some scanned) × IsScan c r scanned
  unfolding read_records
  read_records-Ends zero r reading enough = absurd (omega (arith, reading.near, enough))
  read_records-Ends (suc fuel) r reading enough =
      collect-Scan r reading _ _ (read_records c fuel (load_next_record c (suc (end_page r)) r).1)
        (load_next_record-Ends c layout r (suc (end_page r)) reading.segment
          (IsPartial-Stops c r reading.partial) reading.loaded (omega arith))
        λ reading' forward same.
          read_records-Ends fuel (load_next_record c (suc (end_page r)) r).1 reading'
            (omega (arith, forward, same, enough))

  -- A reader that has been opened on a file shorter than its segment.
  opened-IsReading :
      (source : List ℕ) (r : WalReader)
      → IsOpened source r
      → length source < r.seg_size
      → IsReading r
  opened-IsReading source r opened shorter =
      let g = opened.segment in
      let whole = pages_per_segment-pages r g in
      let source_length : length r.source ≡ length source =
        ap (λ (l : List ℕ). length l) opened.same in
      let few : r.readable_pages < g.pages =
        fewer r.readable_pages g.pages r.xlog_blcksz
          (omega (arith, opened.present, source_length, shorter, g.whole)) in
      let positive : 0 < g.pages * r.xlog_blcksz = omega (arith, g.whole, shorter) in
      let place : position r r.read_lsn ≡ 0 =
        ap (position r) {y = r.seg_no * r.seg_size + 0} (omega (arith, opened.at_start))
        ∙ position-start r g 0 positive in
      record {
        segment = g;
        partial = record {
          short = omega (arith, few, whole);
          present = opened.present;
          counted = opened.counted;
        };
        loaded = opened.loaded;
        at = omega (arith, opened.at_start, place);
        near = omega (arith, place);
      }

  module _ (t : TableStates) (path : List ℕ) (bytes : Option (List ℕ)) (source : List ℕ)
      (tli log seg : ℕ) (r : WalReader) where
    -- Opening a file that is shorter than its segment, which the reader accepts under a log number below
    -- 2^32 - 1 and the number of a segment in that log: it ends, and what is shown is what the loop has
    -- found from the start of the segment on. Each record stands where records begin behind the one
    -- before it, its bytes are the content of the file from its LSN on, decoded, and its file ranges
    -- name their places, which lie apart and in order; and where no error is reported, the reader has
    -- stopped on a record with a bad checksum or there is no further record.
    pub app_new-shows :
        new c source tli log seg ≡ ok r
        → log + 1 < u32_mod
        → seg < u32_mod / r.seg_size
        → length source < r.seg_size
        → (scanned : Scanned) × (app_new c t path bytes source tli log seg
            ≡ show_scanned c t path bytes scanned.records scanned.stop_reason scanned.reader)
          × IsScan c r scanned
          × (r.source ≡ source)
          × (r.read_lsn ≡ r.seg_no * r.seg_size)
          × (r.done ≡ false)
    unfolding app_new
    app_new-shows accepted low high shorter =
        let opened = new-IsOpened c layout source tli log seg r accepted low high in
        let reading = opened-IsReading source r opened shorter in
        let (scanned, found, scan) =
          read_records-Ends (length r.source + 8) r reading (omega arith) in
        (
          scanned,
          ap (scan_opened c t path bytes) accepted ∙ ap (or_stuck c t path bytes) found,
          scan,
          opened.same,
          opened.at_start,
          opened.going,
        )
