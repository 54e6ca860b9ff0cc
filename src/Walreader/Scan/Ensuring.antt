-- ===== src/Walreader/Scan/Ensuring.antt =====
-- A round of `find_next_record` of src/walreader.rs: the page that it wants, and where content begins.
use pg_walview.Prelude.{
  ℕ, ◌%◌, ◌≤◌, ◌<◌, ◌≡◌, ◌≢◌, refl, ap, Bool, true, false, some, List, [], slice, ◌*◌, ◌==◌, ==→eq,
  arith, Bool-cases, inl, inr,
}
use mathlib.Core.Path.{ap₂}
use native.Mathlib.Nat.{mod-lt}
use pg_walview.Bindings.{Bindings, IsLayout}
use pg_walview.Walreader.Types.{Result, ok, err, stuck}
use pg_walview.Walreader.Pages.{WalReader, lsn_to_page_offset, read_page_header, all_zero}
use pg_walview.Walreader.Scan.{load_page_or_eof, content_offset, ensure_page}
use pg_walview.Walreader.Scan.Loading.{
  IsLoaded, frame-load_page_or_eof, record_buffer-load_page_or_eof, load_page_or_eof-ne-stuck,
  load_page_or_eof-IsLoaded, load_page_or_eof-blank,
}
use pg_walview.Walreader.Scan.Outcome.{header_size_bounds}

-- The reader without what the search for a record changes.
abbrev pub search_frame : WalReader → WalReader
search_frame r = record r { page_buffer = []; page_no = 0; read_lsn = 0 }

search_frame-load :
    (c : Bindings) (page_no : ℕ) (r : WalReader)
    → search_frame (load_page_or_eof c page_no r).1 ≡ search_frame r
search_frame-load c page_no r =
    ap₂ (λ (x : WalReader) (bytes : List ℕ). record x { record_buffer = bytes; read_lsn = 0 })
      (frame-load_page_or_eof c page_no r) (record_buffer-load_page_or_eof c page_no r)

-- The page that is wanted, in the buffer already or loaded; or it is all zero.
unfoldable pub EnsuredPage : ℕ → WalReader → Result Bool × WalReader → Type 0
EnsuredPage page_no r (ok true, s) =
    (search_frame s ≡ search_frame r)
    × (s.read_lsn ≡ r.read_lsn)
    × (s.page_no ≡ page_no)
    × IsLoaded s
EnsuredPage page_no r (ok false, s) =
    (search_frame s ≡ search_frame r)
    × (all_zero (slice (page_no * r.xlog_blcksz) r.xlog_blcksz r.source) ≡ true)
EnsuredPage page_no r (err e, s) = Unit
EnsuredPage page_no r (stuck, s) = ⊥

ensured_load :
    (page_no : ℕ) (r : WalReader) (x : Result Bool) (s : WalReader)
    → search_frame s ≡ search_frame r
    → s.read_lsn ≡ r.read_lsn
    → x ≢ stuck
    → (x ≡ ok true → (s.page_no ≡ page_no) × IsLoaded s)
    → (x ≡ ok false → all_zero (slice (page_no * r.xlog_blcksz) r.xlog_blcksz r.source) ≡ true)
    → EnsuredPage page_no r (x, s)
unfolding EnsuredPage
ensured_load page_no r (ok true) s kept same going loaded blank =
    let (page, is_loaded) = loaded refl in (kept, same, page, is_loaded)
ensured_load page_no r (ok false) s kept same going loaded blank = (kept, blank refl)
ensured_load page_no r (err e) s kept same going loaded blank = tt
ensured_load page_no r stuck s kept same going loaded blank = going refl

pub ensure_page-EnsuredPage :
    (c : Bindings)
    → IsLayout c
    → (page_no : ℕ) (r : WalReader) → IsLoaded r
    → 40 < r.xlog_blcksz
    → EnsuredPage page_no r (ensure_page c page_no r)
unfolding ensure_page
ensure_page-EnsuredPage c layout page_no r loaded big = elim (Bool-cases (r.page_no == page_no)) [
  | inl here ↦ rw here (unfold EnsuredPage in (refl, refl, ==→eq r.page_no page_no here, loaded))
  | inr elsewhere ↦ rw elsewhere (
      ensured_load page_no r _ _ (search_frame-load c page_no r)
        (ap (λ (x : WalReader). x.read_lsn) (frame-load_page_or_eof c page_no r))
        (load_page_or_eof-ne-stuck c page_no r) (load_page_or_eof-IsLoaded c page_no r)
        (load_page_or_eof-blank c page_no r (ground (arith, layout.page_header_size))))
]

-- Content begins behind the page header and inside the page, at the read pointer or after it.
pub content_offset_bounds :
    (c : Bindings)
    → IsLayout c
    → (r : WalReader) (offset : ℕ) → 40 < r.xlog_blcksz
    → content_offset c r ≡ some offset
    → (24 ≤ offset) × (offset < r.xlog_blcksz) × (lsn_to_page_offset r r.read_lsn ≤ offset)
unfolding content_offset
content_offset_bounds c layout r offset big found =
    let (behind, inside) = header_size_bounds c layout (read_page_header c r) r.xlog_blcksz big in
    let below : lsn_to_page_offset r r.read_lsn < r.xlog_blcksz =
      unfold lsn_to_page_offset in mod-lt (r.read_lsn % r.seg_size) (omega arith) in
    ground arith
