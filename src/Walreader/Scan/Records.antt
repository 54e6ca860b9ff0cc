-- ===== src/Walreader/Scan/Records.antt =====
-- `load_next_record` behind the search for the next record: it ends, and the record that it returns
-- is the bytes of the file.
use pg_walview.Prelude.{
  ℕ, ◌+◌, ◌-◌, ◌*◌, ◌%◌, ◌≤◌, ◌<◌, ◌≡◌, ◌∙◌, refl, sym, ap, ◌||◌, Option, none, some, List, [],
  ◌++◌, length, take, take-append, take-append_length, ==→eq, slice, ltb, ◌==◌, arith, All,
  Bool-cases, inl, inr,
}
use mathlib.Core.List.{append-nil}
use native.Mathlib.Nat.{mod-lt}
use mathlib.Core.Path.{subst, ap₂}
use pg_walview.Bindings.{Bindings, IsLayout}
use pg_walview.Walmisc.{xlog_record_max_size}
use pg_walview.Walmisc.Words.{from_le_bytes}
use pg_walview.Walreader.Types.{WalRecordInfo}
use pg_walview.Walreader.Pages.{WalReader, lsn_to_page_offset, end_page}
use pg_walview.Walreader.Pages.Exec.{Exec}
use pg_walview.Walreader.Scan.{Copy, copy_record_bytes, or_stop, load_body, load_record}
use pg_walview.Walreader.Scan.Loading.{frame, IsLoaded}
use pg_walview.Walreader.Scan.Content.{
  enter, places, behind, bytes_at, bytes_at-append, length-bytes_at, length-places, places-add,
  behind-add, IsMissing, IsCutOff,
}
use pg_walview.Walreader.Scan.Gather.{gather, offsets_of, IsInside, gather-offsets_of}
use pg_walview.Walreader.Scan.Outcome.{Ends, Ends-after}
use pg_walview.Walreader.Scan.Piece.{IsCopying}
use pg_walview.Walreader.Scan.Copying.{Copied, copy_loop-Ends}
use pg_walview.Walreader.Scan.RecordAt.{start_at, record_len_at, IsNoRecord, Loaded}
use pg_walview.Walreader.Scan.Finishing.{finish_record-Ends}

lsn_to_page_offset-le :
    (r : WalReader) → 40 < r.xlog_blcksz → lsn_to_page_offset r r.read_lsn ≤ r.xlog_blcksz
unfolding lsn_to_page_offset
lsn_to_page_offset-le r big =
    let positive : 0 < r.xlog_blcksz = omega arith in
    let below = mod-lt (r.read_lsn % r.seg_size) positive in omega arith

module _ (c : Bindings) (layout : IsLayout c) (r : WalReader) where
  Loaded-or_stop :
      (base : WalReader) (from len : ℕ) (trail : List ℕ) (goal : ℕ × ℕ)
      (f : Copy → Exec WalReader (Option WalRecordInfo))
      → (IsCutOff base goal → IsNoRecord c r)
      → ((st : Copy) (s : WalReader)
          → IsCopying c base from len trail goal st s
          → st.remaining ≡ 0
          → Ends (Loaded c r) (f st s))
      → (o : Option Copy) (s : WalReader) → Copied c layout base from len trail goal o s
      → Ends (Loaded c r) (or_stop o f s)
  unfolding Ends
  Loaded-or_stop base from len trail goal f none_left go none s (kept, cut) = (refl, none_left cut)
  Loaded-or_stop base from len trail goal f none_left go (some st) s (k, all) = go st s k all

  -- The header has been copied: the length in it, and where the body begins.
  header_len :
      (st : Copy) (s : WalReader)
      → frame s ≡ frame (record r { record_lsn = r.read_lsn; record_buffer = [] })
      → gather s.source st.file_ranges ≡ s.record_buffer
      → All (IsInside s.source) st.file_ranges
      → offsets_of st.file_ranges ≡ places c r 24 (start_at r)
      → from_le_bytes (slice 0 4 s.record_buffer) ≡ record_len_at c r
  header_len st s kept gathered inside placed =
      let first = bytes_at r.source (places c r 4 (start_at r)) in
      let rest = bytes_at r.source (places c r 20 (behind c r 4 (start_at r))) in
      let size : length first ≡ 4 =
        length-bytes_at r.source (places c r 4 (start_at r)) ∙ length-places c r 4 (start_at r) in
      let all : s.record_buffer ≡ first ++ rest =
        sym gathered
        ∙ gather-offsets_of s.source st.file_ranges inside
        ∙ ap₂ bytes_at (ap (λ (x : WalReader). x.source) kept)
            (placed ∙ places-add c r 4 20 24 (start_at r) refl)
        ∙ bytes_at-append r.source (places c r 4 (start_at r))
            (places c r 20 (behind c r 4 (start_at r))) in
      ap (λ l. from_le_bytes (take 4 l)) all
      ∙ ap (λ n. from_le_bytes (take n (first ++ rest))) (sym size)
      ∙ ap (λ l. from_le_bytes l) (take-append_length first rest)

  load_body-Ends :
      (st : Copy) (s : WalReader)
      → 40 < r.xlog_blcksz
      → IsCopying c
          (record r { record_lsn = r.read_lsn; record_buffer = [] })
          (r.page_no * r.xlog_blcksz + lsn_to_page_offset r r.read_lsn + 24)
          24
          (places c r 24 (start_at r))
          (behind c r 24 (start_at r))
          st
          s
      → st.remaining ≡ 0
      → Ends (Loaded c r) (load_body c st s)
  unfolding load_body copy_record_bytes Ends enter end_page
  load_body-Ends st s big k all =
      let tot_len = from_le_bytes (slice 0 4 s.record_buffer) in
      let size = layout.record_size in
      let base = record r { record_lsn = r.read_lsn; record_buffer = [] } in
      let from = r.page_no * r.xlog_blcksz + lsn_to_page_offset r r.read_lsn + 24 in
      let blcksz : s.xlog_blcksz ≡ r.xlog_blcksz = ap (λ (x : WalReader). x.xlog_blcksz) k.same in
      let done : places c base st.remaining (s.page_no, st.offset) ≡ [] =
        ap (λ n. places c base n (s.page_no, st.offset)) all in
      let placed : offsets_of st.file_ranges ≡ places c r 24 (start_at r) =
        sym (append-nil (offsets_of st.file_ranges))
        ∙ ap (λ l. offsets_of st.file_ranges ++ l) (sym done)
        ∙ k.placed in
      let here : (s.page_no, st.offset) ≡ behind c r 24 (start_at r) =
        ap (λ n. behind c base n (s.page_no, st.offset)) (sym all) ∙ k.heading in
      let len_at : tot_len ≡ record_len_at c r =
        header_len st s k.same k.gathered k.inside placed in
      elim (Bool-cases (tot_len == 0)) [
        | inl e ↦ rw e (refl, inl (sym len_at ∙ ==→eq _ _ e))
        | inr more ↦
            elim (Bool-cases
              (ltb tot_len c.size_of_xlog_record || ltb xlog_record_max_size tot_len)) [
                | inl e ↦ rw (more, e) tt
                | inr good ↦
                    let long : 24 ≤ tot_len = ground (arith, size) in
                    let body = tot_len - c.size_of_xlog_record in
                    let sum : tot_len ≡ 24 + body = omega (arith, long, size) in
                    let trail : List ℕ =
                      offsets_of st.file_ranges ++ places c s body (s.page_no, st.offset) in
                    let goal : ℕ × ℕ = behind c s body (s.page_no, st.offset) in
                    let whole_trail : trail ≡ places c r tot_len (start_at r) =
                      ap
                        (λ (x : WalReader).
                          offsets_of st.file_ranges ++ places c x body (s.page_no, st.offset))
                        k.same
                      ∙ ap₂ (λ (l : List ℕ) at. l ++ places c r body at) placed here
                      ∙ sym (places-add c r 24 body tot_len (start_at r) sum) in
                    let whole_goal : goal ≡ behind c r tot_len (start_at r) =
                      ap (λ (x : WalReader). behind c x body (s.page_no, st.offset)) k.same
                      ∙ ap (λ at. behind c r body at) here
                      ∙ sym (behind-add c r 24 body tot_len (start_at r) sum) in
                    let first : IsCopying c s
                        (s.page_no * s.xlog_blcksz + st.offset + (tot_len - c.size_of_xlog_record))
                        tot_len trail goal
                        (record {
                          offset = st.offset;
                          remaining = tot_len - c.size_of_xlog_record;
                          header_bytes = 0;
                          file_ranges = st.file_ranges;
                        })
                        s =
                      record {
                        same = refl;
                        loaded = k.loaded;
                        on_page = k.on_page;
                        gathered = k.gathered;
                        inside = k.inside;
                        appended = [];
                        grown = sym (append-nil s.record_buffer);
                        counted = omega (arith, k.counted, long, size);
                        moved = omega arith;
                        placed = refl;
                        heading = refl;
                      } in
                    rw (more, good)
                      (Ends-after
                        (Copied c layout s
                          (s.page_no * s.xlog_blcksz
                            + st.offset
                            + (tot_len - c.size_of_xlog_record))
                          tot_len trail goal)
                        (Loaded c r) _ _
                        (copy_loop-Ends c layout s _ tot_len trail goal _ _ s
                          (omega (arith, blcksz)) first (ground (arith, size)))
                        (Loaded-or_stop s _ tot_len trail goal _
                          (λ (page, before, missing). inr (
                            inr (
                              page,
                              subst (λ (at : ℕ × ℕ). page ≤ at.0)
                                  (whole_goal ∙ ap (λ n. behind c r n (start_at r)) len_at) before,
                              subst (λ (x : WalReader). IsMissing x page) k.same missing,
                            )))
                          λ st' s' k' all'.
                            let done' : places c s st'.remaining (s'.page_no, st'.offset) ≡ [] =
                              ap (λ n. places c s n (s'.page_no, st'.offset)) all' in
                            let b' : s'.xlog_blcksz ≡ s.xlog_blcksz =
                              ap (λ (x : WalReader). x.xlog_blcksz) k'.same in
                            let place' : s'.page_no * s'.xlog_blcksz ≡ s'.page_no * r.xlog_blcksz =
                              ap (λ n. s'.page_no * n) (b' ∙ blcksz) in
                            let place : s.page_no * s.xlog_blcksz ≡ s.page_no * r.xlog_blcksz =
                              ap (λ n. s.page_no * n) blcksz in
                            let head : slice 0 4 s'.record_buffer ≡ slice 0 4 s.record_buffer =
                              ap (λ (l : List ℕ). take 4 l) k'.grown
                              ∙ take-append 4 s.record_buffer k'.appended
                                  (omega (arith, k.counted)) in
                            finish_record-Ends c layout r st' s' tot_len
                              (st.header_bytes + st'.header_bytes) (k'.same ∙ k.same) k'.loaded
                              k'.gathered k'.inside (omega (arith, k'.counted))
                              (sym (append-nil (offsets_of st'.file_ranges))
                                ∙ ap (λ l. offsets_of st'.file_ranges ++ l) (sym done')
                                ∙ k'.placed
                                ∙ whole_trail)
                              (ap (λ n. behind c s n (s'.page_no, st'.offset)) (sym all')
                                ∙ k'.heading
                                ∙ whole_goal)
                              (ap (λ (l : List ℕ). from_le_bytes l) (sym head))
                              (ground (arith, size)) (ground arith)
                              (omega (arith, k'.on_page, b', blcksz))
                              (omega (arith, k'.moved, k.moved, place, place', size, long))))
              ]
      ]

  -- With a page loaded, and pages longer than a long page header: loading the record at the read
  -- pointer ends. The record returned is the content of the file from the read pointer on, byte by byte
  -- over the page headers, as many bytes as `xl_tot_len` says, decoded, tiled by its parts, with the
  -- checksum flag of those bytes; its file ranges name just the places of these bytes; the copying has
  -- come to the place behind the last of them, and the read pointer moves on by the aligned length and
  -- the page headers in between. Without a record, its length there is zero, or its header or what that
  -- announces is cut off by a page without data, and the end is remembered. Else an error is returned.
  pub load_record-Ends : 40 < r.xlog_blcksz → IsLoaded r → Ends (Loaded c r) (load_record c r)
  unfolding load_record copy_record_bytes enter end_page
  load_record-Ends big is_loaded =
      let base = record r { record_lsn = r.read_lsn; record_buffer = [] } in
      let from = r.page_no * r.xlog_blcksz + lsn_to_page_offset r r.read_lsn + 24 in
      let size = layout.record_size in
      let trail : List ℕ = places c r 24 (start_at r) in
      let goal : ℕ × ℕ = behind c r 24 (start_at r) in
      let initial : IsCopying c base from 24 trail goal
          (record {
            offset = lsn_to_page_offset r r.read_lsn;
            remaining = c.size_of_xlog_record;
            header_bytes = 0;
            file_ranges = [];
          })
          base =
        record {
          same = refl;
          loaded = record { buffer = is_loaded.buffer; inside = is_loaded.inside };
          on_page = lsn_to_page_offset-le r big;
          gathered = unfold gather in refl;
          inside = tt;
          appended = [];
          grown = refl;
          counted = omega (arith, size);
          moved = omega arith;
          placed = ap (λ n. places c r n (start_at r)) size;
          heading = ap (λ n. behind c r n (start_at r)) size;
        } in
      Ends-after (Copied c layout base from 24 trail goal) (Loaded c r) _ _
        (copy_loop-Ends c layout base from 24 trail goal _ _ base big initial
          (ground (arith, size)))
        (Loaded-or_stop base from 24 trail goal (load_body c) (λ cut. inr (inl cut))
          (λ st s k all. load_body-Ends st s big k all))
