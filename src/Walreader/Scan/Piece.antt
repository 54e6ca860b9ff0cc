-- ===== src/Walreader/Scan/Piece.antt =====
-- `copy_record_bytes` of src/walreader.rs: the state of the copying, and a piece of a page.
use pg_walview.Prelude.{
  ℕ, ◌+◌, ◌-◌, ◌*◌, ◌≤◌, ◌≡◌, ◌∙◌, sym, ap, min, List, ◌++◌, length, slice, arith, All,
  length-append, length-slice, slice-slice,
}
use mathlib.Core.List.{append_assoc}
use pg_walview.Bindings.{Bindings, IsLayout}
use pg_walview.Walreader.Pages.{WalReader}
use pg_walview.Walreader.Scan.{Copy, copy_piece}
use pg_walview.Walreader.Scan.Loading.{frame, IsLoaded}
use pg_walview.Walreader.Scan.Content.{span, places, behind, places-piece, behind-piece}
use pg_walview.Walreader.Scan.Gather.{
  gather, offsets_of, IsInside, gather-push_range, push_range-IsInside, offsets_of-push_range,
}

-- The copying of `len` bytes that began in `base`, at the file position `from`, along the places `trail`
-- of the file and on to the page and offset `goal`: `st` and `r` now.
pub record IsCopying (c : Bindings) (base : WalReader) (from len : ℕ) (trail : List ℕ)
    (goal : ℕ × ℕ) (st : Copy) (r : WalReader) : Type 0 where
  pub same : frame r ≡ frame base
  pub loaded : IsLoaded r
  pub on_page : st.offset ≤ r.xlog_blcksz
  pub gathered : gather r.source st.file_ranges ≡ r.record_buffer
  pub inside : All (IsInside r.source) st.file_ranges
  pub appended : List ℕ
  pub grown : r.record_buffer ≡ base.record_buffer ++ appended
  pub counted : length r.record_buffer + st.remaining ≡ len
  pub moved : r.page_no * r.xlog_blcksz + st.offset + st.remaining ≡ from + st.header_bytes
  pub placed :
      offsets_of st.file_ranges ++ places c base st.remaining (r.page_no, st.offset) ≡ trail
  pub heading : behind c base st.remaining (r.page_no, st.offset) ≡ goal

module _ (c : Bindings) (layout : IsLayout c) (base : WalReader) (from len : ℕ) (trail : List ℕ)
    (goal : ℕ × ℕ) where
  -- A piece is copied from the page.
  pub copy_piece-IsCopying :
      (st : Copy) (r : WalReader)
      → IsCopying c base from len trail goal st r
      → IsCopying c base from len trail goal (copy_piece st r).0 (copy_piece st r).1
  unfolding copy_piece
  copy_piece-IsCopying st r k =
      let n = min st.remaining (r.xlog_blcksz - st.offset) in
      let start = r.page_no * r.xlog_blcksz + st.offset in
      let fits : st.offset + n ≤ r.xlog_blcksz = omega (arith, k.on_page) in
      let piece : slice st.offset n r.page_buffer ≡ slice start n r.source =
        ap (λ (l : List ℕ). slice st.offset n l) k.loaded.buffer
        ∙ slice-slice st.offset n (r.page_no * r.xlog_blcksz) r.xlog_blcksz r.source fits in
      let size : length (slice start n r.source) ≡ n =
        length-slice start n r.source (omega (arith, k.loaded.inside, fits)) in
      let blcksz : r.xlog_blcksz ≡ base.xlog_blcksz =
        ap (λ (x : WalReader). x.xlog_blcksz) k.same in
      let all : st.remaining ≡ n + (st.remaining - n) = omega arith in
      let room : st.offset + n ≤ base.xlog_blcksz = omega (arith, fits, blcksz) in
      let first : r.page_no * base.xlog_blcksz + st.offset ≡ start =
        ap (λ b. r.page_no * b + st.offset) (sym blcksz) in
      let route : places c base st.remaining (r.page_no, st.offset)
          ≡ span start n ++ places c base (st.remaining - n) (r.page_no, st.offset + n) =
        places-piece c base n (st.remaining - n) st.remaining r.page_no st.offset all room
        ∙ ap (λ p. span p n ++ places c base (st.remaining - n) (r.page_no, st.offset + n)) first in
      record {
        same = k.same;
        loaded = record { buffer = k.loaded.buffer; inside = k.loaded.inside };
        on_page = fits;
        gathered =
            gather-push_range r.source st.file_ranges start n k.inside
            ∙ ap (λ (l : List ℕ). l ++ slice start n r.source) k.gathered
            ∙ ap (λ (l : List ℕ). r.record_buffer ++ l) (sym piece);
        inside =
            push_range-IsInside r.source st.file_ranges start n k.inside
              (omega (arith, k.loaded.inside, fits));
        appended = k.appended ++ slice st.offset n r.page_buffer;
        grown =
            ap (λ (l : List ℕ). l ++ slice st.offset n r.page_buffer) k.grown
            ∙ append_assoc base.record_buffer k.appended (slice st.offset n r.page_buffer);
        counted = omega (
          arith,
          length-append r.record_buffer (slice st.offset n r.page_buffer),
          ap (λ (l : List ℕ). length l) piece,
          size,
          k.counted,
          k.on_page,
        );
        moved = omega (arith, k.moved, k.on_page);
        placed =
            ap (λ l. l ++ places c base (st.remaining - n) (r.page_no, st.offset + n))
              (offsets_of-push_range r.source st.file_ranges start n k.inside)
            ∙ append_assoc (offsets_of st.file_ranges) (span start n)
                (places c base (st.remaining - n) (r.page_no, st.offset + n))
            ∙ ap (λ l. offsets_of st.file_ranges ++ l) (sym route)
            ∙ k.placed;
        heading =
            sym (behind-piece c base n (st.remaining - n) st.remaining r.page_no st.offset all room)
            ∙ k.heading;
      }
