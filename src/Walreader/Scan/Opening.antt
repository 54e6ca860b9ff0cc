-- ===== src/Walreader/Scan/Opening.antt =====
-- `new` of src/walreader.rs: a reader that it returns works in a geometry of whole pages, with the
-- first page loaded.
use pg_walview.Prelude.{
  ℕ, ◌+◌, ◌*◌, ◌/◌, ◌≤◌, ◌<◌, ◌≡◌, ◌∙◌, refl, sym, ap, Bool, true, false, not, ◌||◌, Option, none,
  some, List, length, ltb, arith, Bool-cases, inl, inr, u32_mod, u64_mod, not-eq-false,
}
use mathlib.Core.Path.{subst}
use native.Mathlib.Nat.{mod-eq_of_lt, mod-lt, div-add-mod', div-mul-le_self}
use pg_walview.Bindings.{Bindings, IsLayout}
use pg_walview.Walreader.Types.{Result, ok, err, stuck}
use pg_walview.Walreader.Pages.{WalReader, read_exact}
use pg_walview.Walreader.Pages.Lsn.{IsSegment}
use pg_walview.Walreader.Scan.{
  or_eof, is_power_of_two, reader_of, load_page, load_page_or_eof, loaded_reader, bad_block_size,
  bad_segment_size, open_geometry, open_first_page, open_page, new,
}
use pg_walview.Walreader.Scan.Progress.{IsSegment-frame}
use pg_walview.Walreader.Scan.Loading.{
  frame, IsLoaded, load_page_or_eof-IsLoaded, frame-load_page_or_eof,
}
use pg_walview.Walreader.Scan.Geometry.{IsGeometry, next_row, readable_base, base-IsSegment}

loaded_reader-eq-ok :
    (x : Result (Unit {0}) × WalReader) (r : WalReader)
    → loaded_reader x ≡ ok r
    → (x.0 ≡ ok tt) × (x.1 ≡ r)
loaded_reader-eq-ok (ok tt, s) r h = (refl, ground arith)
loaded_reader-eq-ok (err e, s) r h = absurd (cc)
loaded_reader-eq-ok (stuck, s) r h = absurd (cc)

or-false : (a b : Bool) → (a || b) ≡ false → (a ≡ false) × (b ≡ false)
or-false true b h = absurd (cc)
or-false false b h = (refl, h)

module _ (c : Bindings) (layout : IsLayout c) (source : List ℕ) (tli log seg : ℕ) where
  open_geometry-eq-ok :
      (b s sysid : ℕ) (page : List ℕ) (r : WalReader)
      → open_geometry c source tli log seg b s sysid page ≡ ok r
      → IsGeometry b s (length source)
        × (loaded_reader (load_page c 0 (reader_of source tli log seg b s sysid page)) ≡ ok r)
  unfolding open_geometry
  open_geometry-eq-ok b s sysid page r h = elim (Bool-cases (bad_block_size c b)) [
    | inl e ↦ absurd (cc (rw e at h))
    | inr e ↦ elim (Bool-cases (bad_segment_size c b s)) [
      | inl f ↦ absurd (cc (rw (e, f) at h))
      | inr f ↦ elim (Bool-cases (ltb s (length source))) [
        | inl k ↦ absurd (cc (rw (e, f, k) at h))
        | inr k ↦
            let (power, sizes) =
              or-false (not (is_power_of_two b))
                (ltb b c.size_of_long_page_header || ltb (1024 * 1024) b) e in
            let (least, most) =
              or-false (ltb b c.size_of_long_page_header) (ltb (1024 * 1024) b) sizes in
            let (power', sizes') =
              or-false (not (is_power_of_two s))
                (ltb s b || (ltb s (1024 * 1024) || ltb (1024 * 1024 * 1024) s)) f in
            let (most', sizes'') =
              or-false (ltb s b) (ltb s (1024 * 1024) || ltb (1024 * 1024 * 1024) s) sizes' in
            let (least'', most'') =
              or-false (ltb s (1024 * 1024)) (ltb (1024 * 1024 * 1024) s) sizes'' in
            let long = layout.long_page_header_size in
            (
              record {
                page_power = not-eq-false _ power;
                page_least = ground arith;
                segment_power = not-eq-false _ power';
                page_most = ground arith;
                segment_most = ground arith;
                file_most = ground arith;
              },
              rw (e, f, k) at h,
            )
      ]
    ]
  ]

  open_first_page-eq-ok :
      (page : List ℕ) (r : WalReader)
      → open_first_page c source tli log seg page ≡ ok r
      → (b s sysid : ℕ) × (open_geometry c source tli log seg b s sysid page ≡ ok r)
  unfolding open_first_page
  open_first_page-eq-ok page r h =
      let long = c.long_page_header page in
      (long.xlp_xlog_blcksz, long.xlp_seg_size, long.xlp_sysid, ground arith)

-- A reader as `new` returns it: in a geometry of whole pages, with the first page loaded and the read
-- pointer at its start, and with the whole pages of the file counted.
pub record IsOpened (source : List ℕ) (r : WalReader) : Type 0 where
  pub segment : IsSegment r
  pub loaded : IsLoaded r
  pub same : r.source ≡ source
  pub first_page : r.page_no ≡ 0
  pub going : r.done ≡ false
  pub at_start : r.read_lsn ≡ r.seg_no * r.seg_size
  pub present : r.readable_pages * r.xlog_blcksz ≤ length r.source
  pub counted : length r.source < (r.readable_pages + 1) * r.xlog_blcksz

module _ (c : Bindings) (layout : IsLayout c) (source : List ℕ) (tli log seg : ℕ)
    (r : WalReader) where
  -- The first page has been loaded into the reader of the geometry.
  loaded_base-IsOpened :
      (b s sysid : ℕ) (page : List ℕ)
      → IsGeometry b s (length source)
      → loaded_reader (load_page c 0 (reader_of source tli log seg b s sysid page)) ≡ ok r
      → log + 1 < u32_mod
      → seg < u32_mod / r.seg_size
      → IsOpened source r
  unfolding load_page_or_eof reader_of
  loaded_base-IsOpened b s sysid page geometry h low high =
      let start = reader_of source tli log seg b s sysid page in
      let (succeeds, left) = loaded_reader-eq-ok (load_page c 0 start) r h in
      let (first, there) = load_page_or_eof-IsLoaded c 0 start (ap or_eof succeeds) in
      let kept : frame r ≡ frame start = ap frame (sym left) ∙ frame-load_page_or_eof c 0 start in
      let high' : seg < u32_mod / s =
        subst (λ (n : ℕ). seg < u32_mod / n) (ap (λ (x : WalReader). x.seg_size) kept) high in
      let g = base-IsSegment source tli log seg b s sysid page geometry low high' in
      let fits : start.seg_no * s + s < u64_mod = g.fits in
      let positive : 0 < b = omega (arith, geometry.page_least) in
      let count = readable_base source tli log seg b s sysid page geometry low high' in
      let whole : length source / b * b ≤ length source = div-mul-le_self (length source) b in
      let rest = div-add-mod' (length source) b in
      let short = mod-lt (length source) positive in
      record {
        segment =
            IsSegment-frame start r
              (ap (λ (x : WalReader). record x { read_lsn = 0; record_lsn = 0; done = false }) kept)
              g;
        loaded = subst IsLoaded left there;
        same = ap (λ (x : WalReader). x.source) kept;
        going = ap (λ (x : WalReader). x.done) kept;
        first_page = ap (λ (x : WalReader). x.page_no) (sym left) ∙ first;
        at_start =
            subst (λ (x : WalReader). x.read_lsn ≡ x.seg_no * x.seg_size) (sym kept)
              (mod-eq_of_lt {n = start.seg_no * s} {m = u64_mod} (omega (arith, fits)));
        present =
            subst (λ (x : WalReader). x.readable_pages * x.xlog_blcksz ≤ length x.source) (sym kept)
              (subst (λ (n : ℕ). n * b ≤ length source) (sym count) whole);
        counted =
            subst (λ (x : WalReader). length x.source < (x.readable_pages + 1) * x.xlog_blcksz)
              (sym kept)
              (subst (λ (n : ℕ). length source < (n + 1) * b) (sym count)
                (omega (arith, next_row (length source / b) b, rest, short)));
      }

  open_page-IsOpened :
      (page : Option (List ℕ))
      → open_page c source tli log seg page ≡ ok r
      → log + 1 < u32_mod
      → seg < u32_mod / r.seg_size
      → IsOpened source r
  open_page-IsOpened none h low high = absurd (cc)
  open_page-IsOpened (some page) h low high =
      let (b, s, sysid, opened) = open_first_page-eq-ok c layout source tli log seg page r h in
      let (geometry, loaded) =
        open_geometry-eq-ok c layout source tli log seg b s sysid page r opened in
      loaded_base-IsOpened b s sysid page geometry loaded low high

  -- Under a log number below 2^32 - 1 and the number of a segment in that log: a reader that `new`
  -- returns has not stopped, has its first page loaded and its read pointer at the start of it, in a
  -- segment of whole pages that ends within the LSNs, and it counts the whole pages of the file.
  pub new-IsOpened :
      new c source tli log seg ≡ ok r
      → log + 1 < u32_mod
      → seg < u32_mod / r.seg_size
      → IsOpened source r
  unfolding new
  new-IsOpened h low high =
      open_page-IsOpened (read_exact 0 c.default_xlog_blcksz source) h low high
