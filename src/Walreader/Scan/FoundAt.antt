-- ===== src/Walreader/Scan/FoundAt.antt =====
-- What `find_next_record` of src/walreader.rs finds: where records begin, or that the data ends.
use pg_walview.Prelude.{ℕ, ◌+◌, ◌*◌, ◌≤◌, ◌<◌, ◌≡◌, ◌≢◌, ◌⊎◌, Bool, true, false, none}
use pg_walview.Bindings.{Bindings}
use pg_walview.Walreader.Pages.{
  WalReader, pages_per_segment, lsn_to_page_no, lsn_to_page_offset, page_start_lsn, end_page,
}
use pg_walview.Walreader.Scan.{content_offset}
use pg_walview.Walreader.Scan.Begins.{Begins, Skips}
use pg_walview.Walreader.Scan.Content.{IsMissing}
use pg_walview.Walreader.Scan.Loading.{IsLoaded}
use pg_walview.Walreader.Scan.Ensuring.{search_frame}

-- Where an LSN lies in the file.
abbrev pub position : WalReader → ℕ → ℕ
position r lsn = lsn_to_page_no r lsn * r.xlog_blcksz + lsn_to_page_offset r lsn

-- From the place of `lsn` on, over pages that the tail of a record fills, to this page and offset.
abbrev pub LeadsTo : Bindings → WalReader → ℕ → ℕ → ℕ → Type 0
LeadsTo c base lsn =
    Skips c base.source base.xlog_blcksz (lsn_to_page_no base lsn) (lsn_to_page_offset base lsn)

-- The reader `s` stands where records begin, on the first page from the place of `lsn` on that the tail
-- of a record does not fill, which can be read and is loaded.
pub record IsFound (c : Bindings) (base : WalReader) (lsn : ℕ) (s : WalReader) : Type 0 where
  pub kept : search_frame s ≡ search_frame base
  pub loaded : IsLoaded s
  pub readable : s.page_no < end_page base
  pub offset : ℕ
  pub behind_header : 24 ≤ offset
  pub on_page : offset < base.xlog_blcksz
  pub from_offset : ℕ
  pub leads : LeadsTo c base lsn s.page_no from_offset
  pub begins : Begins c base.source base.xlog_blcksz s.page_no from_offset offset
  pub at : s.read_lsn ≡ page_start_lsn base s.page_no + offset
  pub forward : position base lsn ≤ s.page_no * base.xlog_blcksz + offset

-- The data ends: the first such page holds none.
abbrev pub IsExhausted : Bindings → WalReader → ℕ → Type 0
IsExhausted c base lsn =
    (page : ℕ) × (offset : ℕ) × LeadsTo c base lsn page offset × IsMissing base page

abbrev pub Found : Bindings → WalReader → ℕ → Bool → WalReader → Type 0
Found c base lsn true s = IsFound c base lsn s
Found c base lsn false s = (search_frame s ≡ search_frame base) × IsExhausted c base lsn

-- The file stops short of the segment, or a record begins on the last page of the segment.
abbrev pub Stops : Bindings → WalReader → Type 0
Stops c base =
    (base.readable_pages < pages_per_segment base)
    ⊎ ((s : WalReader)
        → IsLoaded s
        → s.source ≡ base.source
        → s.page_no + 1 ≡ pages_per_segment base
        → content_offset c s ≢ none)
