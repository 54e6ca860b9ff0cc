-- ===== src/Walreader/Scan/Turning.antt =====
-- `copy_record_bytes` of src/walreader.rs at the end of a page.
use pg_walview.Prelude.{
  ℕ, ◌+◌, ◌*◌, ◌≤◌, ◌<◌, ◌≡◌, ◌≢◌, ◌∙◌, refl, sym, ap, Bool, true, false, Option, none, some, List,
  ◌++◌, length, slice, leb, leb→le, if◌then◌else◌, arith, All, Bool-cases, inl, inr,
}
use mathlib.Core.Path.{subst, ap₂}
use pg_walview.Bindings.{Bindings, IsLayout}
use pg_walview.Walreader.Types.{Result, ok, err, stuck}
use pg_walview.Walreader.Pages.{WalReader, end_page, header_size, read_page_header, all_zero}
use pg_walview.Walreader.Pages.Exec.{after}
use pg_walview.Walreader.Scan.{return, Copy, next_page}
use pg_walview.Walreader.Scan.Loading.{
  frame, IsLoaded, frame-load_page_or_eof, record_buffer-load_page_or_eof,
  load_page_or_eof-ne-stuck, load_page_or_eof-IsLoaded, load_page_or_eof-blank,
}
use pg_walview.Walreader.Scan.Content.{
  enter, header_at, behind, IsMissing, IsCutOff, places-enter, behind-enter, behind-next,
  enter-next, enter-inside,
}
use pg_walview.Walreader.Scan.Outcome.{Ends, header_size_bounds}
use pg_walview.Walreader.Scan.Gather.{gather, offsets_of, IsInside}
use pg_walview.Walreader.Scan.Piece.{IsCopying}

module _ (c : Bindings) (layout : IsLayout c) (base : WalReader) (from len : ℕ) (trail : List ℕ)
    (goal : ℕ × ℕ) where
  -- What the turn of a page leaves: nothing more to read, or the copying at the top of the next page.
  abbrev pub Turned : Copy → Option Copy → WalReader → Type 0
  Turned st none r = (frame r ≡ frame base) × IsCutOff base goal
  Turned st (some st') r =
      IsCopying c base from len trail goal st' r
      × (st'.remaining ≡ st.remaining)
      × (st'.offset < r.xlog_blcksz)

  -- The next page is one that the content goes on to.
  needs_next :
      (st : Copy) (r : WalReader)
      → IsCopying c base from len trail goal st r
      → st.offset ≡ r.xlog_blcksz
      → 0 < st.remaining
      → r.page_no + 1 ≤ goal.0
  needs_next st r k edge more =
      let blcksz : r.xlog_blcksz ≡ base.xlog_blcksz =
        ap (λ (x : WalReader). x.xlog_blcksz) k.same in
      subst (λ (at : ℕ × ℕ). r.page_no + 1 ≤ at.0) k.heading
        (behind-next c base st.remaining r.page_no st.offset more (omega (arith, edge, blcksz)))

  -- The end of a page and the place behind the header of the next are the same for content.
  same_place :
      (page offset : ℕ) (r' : WalReader)
      → base.xlog_blcksz ≤ offset
      → frame r' ≡ frame base
      → r'.page_no ≡ page + 1
      → IsLoaded r'
      → 40 < base.xlog_blcksz
      → enter c base (page, offset)
        ≡ enter c base (r'.page_no, header_size c (read_page_header c r'))
  same_place page offset r' edge kept turned loaded big =
      let h = read_page_header c r' in
      let (behind_h, small) = header_size_bounds c layout h base.xlog_blcksz big in
      let at : h ≡ header_at c base.source base.xlog_blcksz (page + 1) =
        ap (λ l. c.page_header l) loaded.buffer
        ∙ ap
            (λ (x : WalReader).
              c.page_header (slice (r'.page_no * x.xlog_blcksz) x.xlog_blcksz x.source))
            kept
        ∙ ap (λ p. header_at c base.source base.xlog_blcksz p) turned in
      enter-next c base page offset edge
      ∙ ap₂ (λ (p : ℕ) h. (p, header_size c h)) (sym turned) (sym at)
      ∙ sym (enter-inside c base r'.page_no (header_size c h) small)

  turn-Ends :
      (st : Copy) (r : WalReader)
      → IsCopying c base from len trail goal st r
      → st.offset ≡ r.xlog_blcksz
      → 0 < st.remaining
      → 40 < r.xlog_blcksz
      → (res : Result Bool) (r' : WalReader) → frame r' ≡ frame r
      → r'.record_buffer ≡ r.record_buffer
      → res ≢ stuck
      → (res ≡ ok true → (r'.page_no ≡ r.page_no + 1) × IsLoaded r')
      → (res ≡ ok false → IsMissing base (r.page_no + 1))
      → Ends (Turned st) (
          after res
            (λ loaded.
              if loaded
              then (λ r'.
                  let h_size = header_size c (read_page_header c r') in
                  (
                    ok (
                        some
                          (record st { offset = h_size; header_bytes = st.header_bytes + h_size })),
                    r',
                  ))
              else return none)
            r')
  unfolding Ends
  turn-Ends st r k edge more big (ok true) r' kept buffer going loaded missing =
      let (page, is_loaded) = loaded refl in
      let b : r'.xlog_blcksz ≡ r.xlog_blcksz = ap (λ (x : WalReader). x.xlog_blcksz) kept in
      let src : r'.source ≡ r.source = ap (λ (x : WalReader). x.source) kept in
      let (behind, small) =
        header_size_bounds c layout (read_page_header c r') r'.xlog_blcksz (omega arith) in
      let blcksz : r.xlog_blcksz ≡ base.xlog_blcksz =
        ap (λ (x : WalReader). x.xlog_blcksz) k.same in
      let turn : enter c base (r.page_no, st.offset)
          ≡ enter c base (r'.page_no, header_size c (read_page_header c r')) =
        same_place r.page_no st.offset r' (omega (arith, edge, blcksz)) (kept ∙ k.same) page
          is_loaded (omega (arith, big, blcksz)) in
      let place : r'.page_no * r'.xlog_blcksz ≡ (r.page_no + 1) * r.xlog_blcksz = cc in
      (
        record {
          same = kept ∙ k.same;
          loaded = is_loaded;
          on_page = omega arith;
          gathered = ap (λ (l : List ℕ). gather l st.file_ranges) src ∙ k.gathered ∙ sym buffer;
          inside = subst (λ l. All (IsInside l) st.file_ranges) (sym src) k.inside;
          appended = k.appended;
          grown = buffer ∙ k.grown;
          counted = omega (arith, k.counted, ap (λ (l : List ℕ). length l) buffer);
          moved = omega (arith, k.moved, place);
          placed =
              ap (λ l. offsets_of st.file_ranges ++ l)
                (sym (places-enter c base st.remaining _ _ turn))
              ∙ k.placed;
          heading = sym (behind-enter c base st.remaining _ _ more turn) ∙ k.heading;
        },
        refl,
        small,
      )
  turn-Ends st r k edge more big (ok false) r' kept buffer going loaded missing =
      (kept ∙ k.same, (r.page_no + 1, needs_next st r k edge more, missing refl))
  turn-Ends st r k edge more big (err e) r' kept buffer going loaded missing = tt
  turn-Ends st r k edge more big stuck r' kept buffer going loaded missing = going refl

  end_kept : (r : WalReader) → frame r ≡ frame base → end_page r ≡ end_page base
  unfolding end_page
  end_kept r kept = ap (λ (x : WalReader). end_page x) kept

  blank :
      (st : Copy) (r : WalReader)
      → IsCopying c base from len trail goal st r
      → all_zero (slice ((r.page_no + 1) * r.xlog_blcksz) r.xlog_blcksz r.source) ≡ true
      → IsMissing base (r.page_no + 1)
  blank st r k zeros = inr (
      subst
        (λ (x : WalReader).
          all_zero (slice ((r.page_no + 1) * x.xlog_blcksz) x.xlog_blcksz x.source) ≡ true)
        k.same zeros)

  pub next_page-Ends :
      (st : Copy) (r : WalReader)
      → IsCopying c base from len trail goal st r
      → st.offset ≡ r.xlog_blcksz
      → 0 < st.remaining
      → 40 < r.xlog_blcksz
      → Ends (Turned st) (next_page c st r)
  unfolding next_page
  next_page-Ends st r k edge more big = elim (Bool-cases (leb (end_page r) (r.page_no + 1))) [
    | inl e ↦
        let over : end_page base ≤ r.page_no + 1 =
          subst (λ (n : ℕ). n ≤ r.page_no + 1) (end_kept r k.same) (leb→le _ _ e) in
        rw e (unfold Ends in (k.same, (r.page_no + 1, needs_next st r k edge more, inl over)))
    | inr e ↦ rw e (
        turn-Ends st r k edge more big _ _ (frame-load_page_or_eof c (r.page_no + 1) r)
          (record_buffer-load_page_or_eof c (r.page_no + 1) r)
          (load_page_or_eof-ne-stuck c (r.page_no + 1) r)
          (load_page_or_eof-IsLoaded c (r.page_no + 1) r)
          (λ eof. blank st r k (
            load_page_or_eof-blank c (r.page_no + 1) r (ground (arith, layout.page_header_size))
              eof)))
  ]
