-- ===== src/Walreader/Scan/Search.antt =====
-- `find_next_record` of src/walreader.rs: that its loop ends, and where it leaves the reader.
use pg_walview.Prelude.{
  ℕ, zero, suc, ◌+◌, ◌*◌, ◌%◌, ◌≤◌, ◌<◌, ◌≡◌, ◌∙◌, refl, sym, ap, Bool, true, false, Option, none,
  some, slice, leb, leb→le, if◌then◌else◌, arith, Bool-cases, inl, inr, u64_mod,
}
use mathlib.Core.Path.{subst}
use native.Mathlib.Nat.{mod-lt, mod-eq_of_lt}
use pg_walview.Bindings.{Bindings, IsLayout}
use pg_walview.Walreader.Types.{Result, ok, err, stuck}
use pg_walview.Walreader.Pages.{
  WalReader, pages_per_segment, lsn_to_page_no, lsn_to_page_offset, page_start_lsn, end_page,
  all_zero,
}
use pg_walview.Walreader.Pages.Exec.{after}
use pg_walview.Walreader.Pages.Lsn.{IsSegment, pages_per_segment-pages, lsn_round_trip}
use pg_walview.Walreader.Scan.{return, content_offset, find_next_record, at_content}
use pg_walview.Walreader.Scan.Begins.{
  Begins, IsFilled, stay, skip, MeetsContent, content_offset-MeetsContent,
}
use pg_walview.Walreader.Scan.Loading.{IsLoaded}
use pg_walview.Walreader.Scan.Outcome.{Ends}
use pg_walview.Walreader.Scan.Ensuring.{
  search_frame, EnsuredPage, ensure_page-EnsuredPage, content_offset_bounds,
}
use pg_walview.Walreader.Scan.FoundAt.{position, LeadsTo, IsFound, Found, Stops}

module _ (c : Bindings) (layout : IsLayout c) (base : WalReader) (g : IsSegment base)
    (stops : Stops c base) where
  blcksz_kept :
      (s : WalReader) → search_frame s ≡ search_frame base → s.xlog_blcksz ≡ base.xlog_blcksz
  blcksz_kept s kept = ap (λ (x : WalReader). x.xlog_blcksz) kept

  page_no_kept :
      (s : WalReader) (lsn : ℕ)
      → search_frame s ≡ search_frame base
      → lsn_to_page_no s lsn ≡ lsn_to_page_no base lsn
  unfolding lsn_to_page_no
  page_no_kept s lsn kept = ap (λ (x : WalReader). lsn_to_page_no x lsn) kept

  offset_kept :
      (s : WalReader) (lsn : ℕ)
      → search_frame s ≡ search_frame base
      → lsn_to_page_offset s lsn ≡ lsn_to_page_offset base lsn
  unfolding lsn_to_page_offset
  offset_kept s lsn kept = ap (λ (x : WalReader). lsn_to_page_offset x lsn) kept

  start_kept :
      (s : WalReader) (p : ℕ)
      → search_frame s ≡ search_frame base
      → page_start_lsn s p ≡ page_start_lsn base p
  unfolding page_start_lsn
  start_kept s p kept = ap (λ (x : WalReader). page_start_lsn x p) kept

  end_kept : (s : WalReader) → search_frame s ≡ search_frame base → end_page s ≡ end_page base
  unfolding end_page
  end_kept s kept = ap (λ (x : WalReader). end_page x) kept

  IsFilled-frame :
      (page offset : ℕ) (s : WalReader)
      → search_frame s ≡ search_frame base
      → IsFilled c s.source s.xlog_blcksz page offset
      → IsFilled c base.source base.xlog_blcksz page offset
  IsFilled-frame page offset s kept =
      subst (λ (x : WalReader). IsFilled c x.source x.xlog_blcksz page offset) kept

  end_page_bounds : (end_page base ≤ g.pages) × (end_page base ≤ base.readable_pages)
  unfolding end_page
  end_page_bounds = let whole = pages_per_segment-pages base g in omega arith

  -- A page without content has a readable page behind it.
  next_inside :
      (s : WalReader)
      → search_frame s ≡ search_frame base
      → IsLoaded s
      → s.page_no < end_page base
      → content_offset c s ≡ none
      → s.page_no + 1 < g.pages
  next_inside s kept loaded inside empty =
      let whole = pages_per_segment-pages base g in
      let (to_pages, to_readable) = end_page_bounds in
      elim stops [
        | inl short ↦ omega (arith, whole, short)
        | inr starts ↦ elim (Bool-cases (leb g.pages (s.page_no + 1))) [
          | inl last ↦
              let at_end : s.page_no + 1 ≡ pages_per_segment base =
                omega (arith, whole, leb→le _ _ last) in
              absurd (starts s loaded (ap (λ (x : WalReader). x.source) kept) at_end empty)
          | inr more ↦ ground arith
        ]
      ]

  module _ (lsn : ℕ) where
    -- Content on the loaded page: the search ends there.
    content_here :
        (s : WalReader) (offset : ℕ)
        → search_frame s ≡ search_frame base
        → IsLoaded s
        → s.page_no < end_page base
        → lsn_to_page_no base s.read_lsn ≡ s.page_no
        → position base lsn ≤ position base s.read_lsn
        → LeadsTo c base lsn s.page_no (lsn_to_page_offset base s.read_lsn)
        → content_offset c s ≡ some offset
        → IsFound c base lsn
            (record s { read_lsn = (page_start_lsn s s.page_no + offset) % u64_mod })
    content_here s offset kept loaded inside page behind leads found =
        let same = blcksz_kept s kept in
        let (to_pages, to_readable) = end_page_bounds in
        let meets : Begins c s.source s.xlog_blcksz s.page_no (lsn_to_page_offset s s.read_lsn)
            offset =
          subst (MeetsContent c s) found
            (content_offset-MeetsContent c layout s loaded (omega (arith, same, g.big))) in
        let (after_header, below, ahead) =
          content_offset_bounds c layout s offset (omega (arith, same, g.big)) found in
        let (_, _, limit) = lsn_round_trip base g s.page_no offset (omega arith) (omega arith) in
        record {
          kept = kept;
          loaded = record { buffer = loaded.buffer; inside = loaded.inside };
          readable = inside;
          offset = offset;
          behind_header = after_header;
          on_page = omega (arith, same);
          from_offset = lsn_to_page_offset base s.read_lsn;
          leads = leads;
          begins =
              subst (λ o. Begins c base.source base.xlog_blcksz s.page_no o offset)
                (offset_kept s s.read_lsn kept)
                (subst
                  (λ (x : WalReader).
                    Begins c x.source x.xlog_blcksz s.page_no (lsn_to_page_offset s s.read_lsn)
                      offset)
                  kept meets);
          at =
              ap (λ (n : ℕ). (n + offset) % u64_mod) (start_kept s s.page_no kept)
              ∙ mod-eq_of_lt (omega (arith, limit, g.fits));
          forward =
              let here : lsn_to_page_no base s.read_lsn * base.xlog_blcksz
                  ≡ s.page_no * base.xlog_blcksz =
                ap (λ (n : ℕ). n * base.xlog_blcksz) page in
              omega (arith, behind, here, ahead, offset_kept s s.read_lsn kept);
        }

    -- A page that a continued record fills: the search goes on at the start of the next page.
    next_place :
        (s : WalReader)
        → search_frame s ≡ search_frame base
        → s.page_no + 1 < g.pages
        → lsn_to_page_no base s.read_lsn ≡ s.page_no
        → (lsn_to_page_no base (page_start_lsn s (s.page_no + 1)) ≡ s.page_no + 1)
          × (lsn_to_page_offset base (page_start_lsn s (s.page_no + 1)) ≡ 0)
          × (position base s.read_lsn ≤ position base (page_start_lsn s (s.page_no + 1)))
    next_place s kept inside page =
        let positive : 0 < base.xlog_blcksz = omega (arith, g.big) in
        let (next, start, _) = lsn_round_trip base g (s.page_no + 1) 0 inside positive in
        let origin : page_start_lsn s (s.page_no + 1) ≡ page_start_lsn base (s.page_no + 1) + 0 =
          omega (arith, start_kept s (s.page_no + 1) kept) in
        let below : lsn_to_page_offset base s.read_lsn < base.xlog_blcksz =
          unfold lsn_to_page_offset in mod-lt (s.read_lsn % base.seg_size) positive in
        rw (origin, next, start, page) (refl, refl, omega (arith, below))

    IsFilled-page :
        (s : WalReader)
        → search_frame s ≡ search_frame base
        → IsLoaded s
        → content_offset c s ≡ none
        → IsFilled c base.source base.xlog_blcksz s.page_no (lsn_to_page_offset base s.read_lsn)
    IsFilled-page s kept loaded empty =
        let same = blcksz_kept s kept in
        let meets : IsFilled c s.source s.xlog_blcksz s.page_no (lsn_to_page_offset s s.read_lsn) =
          subst (MeetsContent c s) empty
            (content_offset-MeetsContent c layout s loaded (omega (arith, same, g.big))) in
        subst (λ o. IsFilled c base.source base.xlog_blcksz s.page_no o)
          (offset_kept s s.read_lsn kept)
          (IsFilled-frame s.page_no (lsn_to_page_offset s s.read_lsn) s kept meets)

    -- The loop goes on from a place at or after the last one, with one unit of fuel less.
    abbrev Further : ℕ → Type 0
    Further fuel =
        (s : WalReader)
        → search_frame s ≡ search_frame base
        → IsLoaded s
        → 0 < fuel
        → end_page base < fuel + lsn_to_page_no base s.read_lsn
        → position base lsn ≤ position base s.read_lsn
        → LeadsTo c base lsn (lsn_to_page_no base s.read_lsn) (lsn_to_page_offset base s.read_lsn)
        → Ends (Found c base lsn) (find_next_record c fuel s)

    at_content-Ends :
        (fuel : ℕ) (s : WalReader)
        → Further fuel
        → search_frame s ≡ search_frame base
        → IsLoaded s
        → s.page_no < end_page base
        → lsn_to_page_no base s.read_lsn ≡ s.page_no
        → end_page base < suc fuel + s.page_no
        → position base lsn ≤ position base s.read_lsn
        → LeadsTo c base lsn s.page_no (lsn_to_page_offset base s.read_lsn)
        → (o : Option ℕ) → content_offset c s ≡ o
        → Ends (Found c base lsn) (at_content c (find_next_record c fuel) s.page_no o s)
    at_content-Ends fuel s ih kept loaded inside here enough behind leads none empty =
        let more = next_inside s kept loaded inside empty in
        let (next, top, later) = next_place s kept more here in
        let filled = IsFilled-page s kept loaded empty in
        ih (record s { read_lsn = page_start_lsn s (s.page_no + 1) }) kept
          (record { buffer = loaded.buffer; inside = loaded.inside }) (omega arith)
          (omega (arith, next)) (omega (arith, later)) (rw (next, top) (skip leads filled))
    at_content-Ends fuel s ih kept loaded inside here enough behind leads (some offset) found =
        unfold Ends in content_here s offset kept loaded inside here behind leads found

    go_on :
        (fuel : ℕ) (r : WalReader)
        → Further fuel
        → search_frame r ≡ search_frame base
        → lsn_to_page_no r r.read_lsn < end_page base
        → end_page base < suc fuel + lsn_to_page_no base r.read_lsn
        → position base lsn ≤ position base r.read_lsn
        → LeadsTo c base lsn (lsn_to_page_no base r.read_lsn) (lsn_to_page_offset base r.read_lsn)
        → (x : Result Bool) (s : WalReader) → EnsuredPage (lsn_to_page_no r r.read_lsn) r (x, s)
        → Ends (Found c base lsn) (
            after x
              (λ loaded.
                if loaded
                then (λ r'.
                    at_content c
                      (find_next_record c fuel)
                      (lsn_to_page_no r r.read_lsn)
                      (content_offset c r')
                      r')
                else return false)
              s)
    unfolding EnsuredPage
    go_on fuel r ih kept inside enough behind leads (ok true) s (same, lsn_same, page, loaded) =
        let here : lsn_to_page_no base s.read_lsn ≡ s.page_no =
          ap (lsn_to_page_no base) lsn_same ∙ sym (page_no_kept r r.read_lsn kept) ∙ sym page in
        let there = page_no_kept r r.read_lsn kept in
        subst
          (λ p.
            Ends (Found c base lsn)
              (at_content c (find_next_record c fuel) p (content_offset c s) s))
          page
          (at_content-Ends fuel s ih (same ∙ kept) loaded (omega (arith, page, inside)) here
            (omega (arith, page, there, enough)) (rw lsn_same behind)
            (rw lsn_same (
              subst (λ p. LeadsTo c base lsn p (lsn_to_page_offset base r.read_lsn))
                (sym there ∙ sym page) leads))
            _ refl)
    go_on fuel r ih kept inside enough behind leads (ok false) s (same, zeros) =
        unfold Ends in
        (
          same ∙ kept,
          (
            lsn_to_page_no base r.read_lsn,
            lsn_to_page_offset base r.read_lsn,
            leads,
            inr (
                subst
                  (λ (x : WalReader).
                    all_zero (
                      slice (lsn_to_page_no base r.read_lsn * x.xlog_blcksz) x.xlog_blcksz x.source)
                    ≡ true)
                  kept
                  (subst (λ p. all_zero (slice (p * r.xlog_blcksz) r.xlog_blcksz r.source) ≡ true)
                    (page_no_kept r r.read_lsn kept) zeros)),
          ),
        )
    go_on fuel r ih kept inside enough behind leads (err e) s same = unfold Ends in tt
    go_on fuel r ih kept inside enough behind leads stuck s same = absurd same

    find_loop-Ends :
        (fuel : ℕ) (r : WalReader)
        → search_frame r ≡ search_frame base
        → IsLoaded r
        → 0 < fuel
        → end_page base < fuel + lsn_to_page_no base r.read_lsn
        → position base lsn ≤ position base r.read_lsn
        → LeadsTo c base lsn (lsn_to_page_no base r.read_lsn) (lsn_to_page_offset base r.read_lsn)
        → Ends (Found c base lsn) (find_next_record c fuel r)
    unfolding find_next_record
    find_loop-Ends zero r kept loaded some_fuel enough behind leads = absurd (omega arith)
    find_loop-Ends (suc fuel) r kept loaded some_fuel enough behind leads =
        elim (Bool-cases (leb (end_page r) (lsn_to_page_no r r.read_lsn))) [
          | inl over ↦
              let past : end_page base ≤ lsn_to_page_no base r.read_lsn =
                ground (arith, end_kept r kept, page_no_kept r r.read_lsn kept) in
              rw over (
                unfold Ends in
                (
                  kept,
                  (
                    lsn_to_page_no base r.read_lsn,
                    lsn_to_page_offset base r.read_lsn,
                    leads,
                    inl past,
                  ),
                ))
          | inr inside ↦ rw inside (
              go_on fuel r (find_loop-Ends fuel) kept (ground (arith, end_kept r kept)) enough
                behind leads _ _
                (ensure_page-EnsuredPage c layout (lsn_to_page_no r r.read_lsn) r loaded
                  (omega (arith, blcksz_kept r kept, g.big))))
        ]

  pub find_next_record-Ends :
      (fuel : ℕ)
      → IsLoaded base
      → end_page base < fuel
      → Ends (Found c base base.read_lsn) (find_next_record c fuel base)
  find_next_record-Ends fuel loaded enough =
      find_loop-Ends base.read_lsn fuel base refl loaded (omega arith) (omega arith) (omega arith)
        stay
