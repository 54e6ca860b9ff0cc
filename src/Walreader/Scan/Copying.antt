-- ===== src/Walreader/Scan/Copying.antt =====
-- `copy_record_bytes`: the loop ends, and the bytes that it appends to `record_buffer` are those of
-- the file at the ranges that it records, as many as were asked for; the cursor has moved by these
-- and the page headers.
use pg_walview.Prelude.{
  ℕ, zero, suc, ◌+◌, ◌*◌, ◌≤◌, ◌<◌, ◌≡◌, ap, true, false, Option, none, some, List, ◌==◌,
  if◌then◌else◌, arith, Bool-cases, inl, inr, ==→eq,
}
use pg_walview.Bindings.{Bindings, IsLayout}
use pg_walview.Walreader.Pages.{WalReader}
use pg_walview.Walreader.Scan.{Copy, if_some, next_page, copy_piece, copy_loop}
use pg_walview.Walreader.Scan.Loading.{frame}
use pg_walview.Walreader.Scan.Content.{IsCutOff}
use pg_walview.Walreader.Scan.Outcome.{Ends, Ends-after}
use pg_walview.Walreader.Scan.Piece.{IsCopying, copy_piece-IsCopying}
use pg_walview.Walreader.Scan.Turning.{Turned, next_page-Ends}

module _ (c : Bindings) (layout : IsLayout c) (base : WalReader) (from len : ℕ) (trail : List ℕ)
    (goal : ℕ × ℕ) where
  -- The whole content is copied.
  abbrev pub Copied : Option Copy → WalReader → Type 0
  Copied none r = (frame r ≡ frame base) × IsCutOff base goal
  Copied (some st) r = IsCopying c base from len trail goal st r × (st.remaining ≡ 0)

  -- The rounds still to go: a piece of a byte at least for each byte, and a turn before it.
  abbrev pub rounds : Copy → WalReader → ℕ
  rounds st r = 2 * st.remaining + (if st.offset == r.xlog_blcksz then 1 else 0)

  blcksz_of :
      (st : Copy) (r : WalReader)
      → IsCopying c base from len trail goal st r
      → r.xlog_blcksz ≡ base.xlog_blcksz
  blcksz_of st r k = ap (λ (x : WalReader). x.xlog_blcksz) k.same

  after_turn :
      (fuel : ℕ) (st : Copy)
      → ((st' : Copy) (r : WalReader)
          → IsCopying c base from len trail goal st' r
          → rounds st' r ≤ fuel
          → Ends Copied (copy_loop c fuel st' r))
      → 2 * st.remaining ≤ fuel
      → (o : Option Copy) (r : WalReader) → Turned c layout base from len trail goal st o r
      → Ends Copied (if_some o (copy_loop c fuel) r)
  after_turn fuel st ih enough none r kept = unfold Ends in kept
  after_turn fuel st ih enough (some st') r (k, left, small) = ih st' r k (ground arith)

  copied_rounds :
      (st : Copy) (r : WalReader) (fuel : ℕ)
      → IsCopying c base from len trail goal st r
      → (st.remaining == 0) ≡ false
      → (st.offset == r.xlog_blcksz) ≡ false
      → rounds st r ≤ suc fuel
      → rounds (copy_piece st r).0 (copy_piece st r).1 ≤ fuel
  unfolding copy_piece
  copied_rounds st r fuel k more inside enough =
      let some_left : 0 < st.remaining = ground arith in
      let room : st.offset < r.xlog_blcksz = ground (arith, k.on_page) in
      let now : 2 * st.remaining ≤ suc fuel = ground arith in ground arith

  -- Where the pages are longer than a long page header and the fuel is the rounds still to go: copying
  -- ends. It copies all bytes that remain, each appended to the record buffer and to the file ranges,
  -- which gather from the file what the buffer holds and name the places of its content from where the
  -- copying stood, one by one, over the page headers; or the data ends at a page before the last one
  -- that is wanted, with the source and its geometry as they were; or it returns an error.
  pub copy_loop-Ends :
      (fuel : ℕ) (st : Copy) (r : WalReader)
      → 40 < base.xlog_blcksz
      → IsCopying c base from len trail goal st r
      → rounds st r ≤ fuel
      → Ends Copied (copy_loop c fuel st r)
  unfolding copy_loop
  copy_loop-Ends zero st r big k enough =
      let none_left : st.remaining ≡ 0 = omega arith in
      let test : (st.remaining == 0) ≡ true = ground arith in
      rw test (unfold Ends in (k, none_left))
  copy_loop-Ends (suc fuel) st r big k enough = elim (Bool-cases (st.remaining == 0)) [
    | inl e ↦ rw e (unfold Ends in (k, ==→eq _ _ e))
    | inr more ↦ elim (Bool-cases (st.offset == r.xlog_blcksz)) [
      | inl edge ↦
          rw (more, edge)
            (Ends-after (Turned c layout base from len trail goal st) Copied (next_page c st r) _
              (next_page-Ends c layout base from len trail goal st r k (==→eq _ _ edge)
                (ground arith) (omega (arith, blcksz_of st r k)))
              (after_turn fuel st (λ st' r'. copy_loop-Ends fuel st' r' big) (ground arith)))
      | inr inside ↦
          rw (more, inside)
            (copy_loop-Ends fuel (copy_piece st r).0 (copy_piece st r).1 big
              (copy_piece-IsCopying c layout base from len trail goal st r k)
              (copied_rounds st r fuel k more inside enough))
    ]
  ]
