-- ===== src/Walreader/Scan/Begins.antt =====
-- Where the content of a page begins that is not the tail of a record from an earlier page: what
-- `find_next_record` of src/walreader.rs is compared with.
use pg_walview.Prelude.{
  ℕ, ◌+◌, ◌-◌, ◌%◌, ◌≤◌, ◌<◌, ◌≡◌, ◌∙◌, sym, ap, Bool, true, false, max, leb, ◌==◌, Option, none,
  some, List, has_bits, arith, Bool-cases, inl, inr,
}
use mathlib.Core.Path.{subst}
use pg_walview.Bindings.{Bindings, IsLayout, XLogPageHeader}
use pg_walview.Walmisc.{maxalign}
use pg_walview.Walreader.Pages.{WalReader, lsn_to_page_offset, header_size, read_page_header}
use pg_walview.Walreader.Scan.{content_offset}
use pg_walview.Walreader.Scan.Loading.{IsLoaded}
use pg_walview.Walreader.Scan.Content.{header_at}
use pg_walview.Walreader.Scan.Outcome.{header_size_bounds}

-- The padding of a length to a multiple of eight.
abbrev pub IsPadded : ℕ → ℕ → Type 0
IsPadded n padded = (padded % 8 ≡ 0) × (n ≤ padded) × (padded < n + 8)

module _ (c : Bindings) (source : List ℕ) (blcksz : ℕ) where
  abbrev pub size_at : ℕ → ℕ
  size_at page = header_size c (header_at c source blcksz page)

  -- A page that opens with the tail of a record, as bit 0 of its flags says, of so many bytes.
  abbrev pub is_continued : ℕ → Bool
  is_continued page = has_bits (header_at c source blcksz page).xlp_info 1

  abbrev pub tail_len : ℕ → ℕ
  tail_len page = (header_at c source blcksz page).xlp_rem_len

  -- From an offset into a page on, records begin at `start`: at the offset itself behind the header, or
  -- behind the header of a page that no record goes on to, or behind the padded tail.
  pub data Begins (page offset start : ℕ) : Type 0 where
    inside : size_at page < offset → start ≡ offset → Begins page offset start
    fresh :
        offset ≤ size_at page
        → is_continued page ≡ false
        → start ≡ size_at page
        → Begins page offset start
    behind_tail :
        (padded : ℕ)
        → offset ≤ size_at page
        → is_continued page ≡ true
        → IsPadded (tail_len page) padded
        → start ≡ size_at page + padded
        → start < blcksz
        → Begins page offset start

  -- The tail of a record fills what there is of the page from the offset on.
  pub record IsFilled (page offset : ℕ) : Type 0 where
    pub at_top : offset ≤ size_at page
    pub continued : is_continued page ≡ true
    pub padded : ℕ
    pub padding : IsPadded (tail_len page) padded
    pub full : blcksz ≤ size_at page + padded

  -- Over pages that are filled, each to the top of the next one.
  pub data Skips (page offset : ℕ) : ℕ → ℕ → Type 0 where
    stay : Skips page offset page offset
    skip :
        {page' offset' : ℕ}
        → Skips page offset page' offset'
        → IsFilled page' offset'
        → Skips page offset (page' + 1) 0

IsPadded-maxalign : (n : ℕ) → IsPadded n (maxalign n)
unfolding maxalign
IsPadded-maxalign n = (omega arith, omega arith, omega arith)

-- What the code makes of the loaded page.
abbrev pub MeetsContent : Bindings → WalReader → Option ℕ → Type 0
MeetsContent c r none =
    IsFilled c r.source r.xlog_blcksz r.page_no (lsn_to_page_offset r r.read_lsn)
MeetsContent c r (some start) =
    Begins c r.source r.xlog_blcksz r.page_no (lsn_to_page_offset r r.read_lsn) start

-- Where the code finds content, or a filled page, there is one.
pub content_offset-MeetsContent :
    (c : Bindings)
    → IsLayout c
    → (r : WalReader) → IsLoaded r
    → 40 < r.xlog_blcksz
    → MeetsContent c r (content_offset c r)
unfolding content_offset
content_offset-MeetsContent c layout r loaded big =
    let h = read_page_header c r in
    let at : h ≡ header_at c r.source r.xlog_blcksz r.page_no =
      ap (λ l. c.page_header l) loaded.buffer in
    let size : header_size c h ≡ size_at c r.source r.xlog_blcksz r.page_no =
      ap (header_size c) at in
    let continued : has_bits h.xlp_info 1 ≡ is_continued c r.source r.xlog_blcksz r.page_no =
      ap (λ (x : XLogPageHeader). has_bits x.xlp_info 1) at in
    let tail : h.xlp_rem_len ≡ tail_len c r.source r.xlog_blcksz r.page_no =
      ap (λ (x : XLogPageHeader). x.xlp_rem_len) at in
    let offset = lsn_to_page_offset r r.read_lsn in
    let (low, room) = header_size_bounds c layout h r.xlog_blcksz big in
    let pad : IsPadded (tail_len c r.source r.xlog_blcksz r.page_no) (maxalign h.xlp_rem_len) =
      subst (λ n. IsPadded n (maxalign h.xlp_rem_len)) tail (IsPadded-maxalign h.xlp_rem_len) in
    elim (Bool-cases (leb offset (header_size c h))) [
      | inr over ↦
          let off : (max (header_size c h) offset == header_size c h) ≡ false = ground arith in
          rw off (inside (ground (arith, size)) (ground arith))
      | inl under ↦
          let on : (max (header_size c h) offset == header_size c h) ≡ true = ground arith in
          elim (Bool-cases (has_bits h.xlp_info 1)) [
            | inr new ↦
                rw (on, new)
                  (fresh (ground (arith, size)) (sym continued ∙ new) (ground (arith, size)))
            | inl old ↦
                elim (Bool-cases (leb (r.xlog_blcksz - header_size c h) (maxalign h.xlp_rem_len))) [
                  | inl full ↦
                      rw (on, old, full)
                        (record {
                          at_top = ground (arith, size);
                          continued = sym continued ∙ old;
                          padded = maxalign h.xlp_rem_len;
                          padding = pad;
                          full = ground (arith, size);
                        })
                  | inr space ↦
                      rw (on, old, space)
                        (behind_tail (maxalign h.xlp_rem_len) (ground (arith, size))
                          (sym continued ∙ old) pad (omega (arith, size)) (ground arith))
                ]
          ]
    ]
