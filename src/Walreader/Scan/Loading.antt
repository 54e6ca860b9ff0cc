-- ===== src/Walreader/Scan/Loading.antt =====
-- What loading a page does to the reader: it changes the page buffer and the page number alone, and
-- on success the buffer is that page of the file.
use pg_walview.Prelude.{
  ℕ, ◌+◌, ◌*◌, ◌≤◌, ◌≡◌, ◌≢◌, ◌∙◌, refl, ap, true, false, Option, none, some, List, [], length,
  slice, length-slice, arith,
}
use pg_walview.Bindings.{Bindings}
use pg_walview.Walreader.Types.{Result, ok, err, stuck, WalReaderError, zeroed_page}
use pg_walview.Walreader.Pages.{WalReader, read_exact, validate_page_header, all_zero}
use pg_walview.Walreader.Scan.{accept, load_bytes, load_page, load_page_or_eof, or_eof}

-- The reader without what the copying of a record changes.
abbrev pub frame : WalReader → WalReader
frame r = record r { page_buffer = []; page_no = 0; record_buffer = [] }

-- The buffer holds the page of the file that the page number names.
pub record IsLoaded (r : WalReader) : Type 0 where
  pub buffer : r.page_buffer ≡ slice (r.page_no * r.xlog_blcksz) r.xlog_blcksz r.source
  pub inside : r.page_no * r.xlog_blcksz + r.xlog_blcksz ≤ length r.source

or_eof-err : (e : WalReaderError) → or_eof (err e) ≢ ok true
or_eof-err (zeroed_page lsn) h = cc
or_eof-err e h = cc

module _ (c : Bindings) (page_no : ℕ) where
  accept-frame : (v : Result (Unit {0})) (r : WalReader) → frame (accept c page_no v r).1 ≡ frame r
  accept-frame (ok _) r = refl
  accept-frame (err e) r = refl
  accept-frame stuck r = refl

  accept-record_buffer :
      (v : Result (Unit {0})) (r : WalReader)
      → (accept c page_no v r).1.record_buffer ≡ r.record_buffer
  accept-record_buffer (ok _) r = refl
  accept-record_buffer (err e) r = refl
  accept-record_buffer stuck r = refl

  accept-loaded :
      (v : Result (Unit {0})) (r : WalReader)
      → or_eof (accept c page_no v r).0 ≡ ok true
      → (accept c page_no v r).1 ≡ record r { page_no = page_no }
  accept-loaded (ok _) r h = refl
  accept-loaded (err e) r h = absurd (or_eof-err e h)
  accept-loaded stuck r h = cc

  load_bytes-frame :
      (o : Option (List ℕ)) (r : WalReader) → frame (load_bytes c page_no o r).1 ≡ frame r
  load_bytes-frame none r = refl
  load_bytes-frame (some bytes) r = accept-frame _ (record r { page_buffer = bytes })

  load_bytes-record_buffer :
      (o : Option (List ℕ)) (r : WalReader)
      → (load_bytes c page_no o r).1.record_buffer ≡ r.record_buffer
  load_bytes-record_buffer none r = refl
  load_bytes-record_buffer (some bytes) r =
      accept-record_buffer _ (record r { page_buffer = bytes })

  load_bytes-loaded :
      (o : Option (List ℕ)) (r : WalReader)
      → or_eof (load_bytes c page_no o r).0 ≡ ok true
      → (bytes : List ℕ) × (o ≡ some bytes)
        × ((load_bytes c page_no o r).1 ≡ record r { page_buffer = bytes; page_no = page_no })
  load_bytes-loaded none r h = cc
  load_bytes-loaded (some bytes) r h =
      (bytes, refl, accept-loaded _ (record r { page_buffer = bytes }) h)

validate-ne-stuck :
    (c : Bindings) (r : WalReader) (page_no : ℕ) → validate_page_header c r page_no ≢ stuck
unfolding validate_page_header
validate-ne-stuck c r page_no = ground arith

accept-ne-stuck :
    (c : Bindings) (page_no : ℕ) (v : Result (Unit {0})) (r : WalReader)
    → v ≢ stuck
    → or_eof (accept c page_no v r).0 ≢ stuck
accept-ne-stuck c page_no (ok _) r h = λ e. cc
accept-ne-stuck c page_no (err (zeroed_page _)) r h = λ e. cc
accept-ne-stuck c page_no (err _) r h = λ e. cc
accept-ne-stuck c page_no stuck r h = absurd (h refl)

load_bytes-ne-stuck :
    (c : Bindings) (page_no : ℕ) (o : Option (List ℕ)) (r : WalReader)
    → or_eof (load_bytes c page_no o r).0 ≢ stuck
load_bytes-ne-stuck c page_no none r = λ e. cc
load_bytes-ne-stuck c page_no (some bytes) r =
    accept-ne-stuck c page_no _ (record r { page_buffer = bytes }) (validate-ne-stuck c _ page_no)

read_exact-eq-some :
    (start len : ℕ) (source bytes : List ℕ)
    → read_exact start len source ≡ some bytes
    → (bytes ≡ slice start len source) × (start + len ≤ length source)
unfolding read_exact
read_exact-eq-some start len source bytes h = ground arith

module _ (c : Bindings) (page_no : ℕ) (r : WalReader) where
  pub frame-load_page_or_eof : frame (load_page_or_eof c page_no r).1 ≡ frame r
  unfolding load_page_or_eof load_page
  frame-load_page_or_eof = load_bytes-frame c page_no _ r

  pub record_buffer-load_page_or_eof :
      (load_page_or_eof c page_no r).1.record_buffer ≡ r.record_buffer
  unfolding load_page_or_eof load_page
  record_buffer-load_page_or_eof = load_bytes-record_buffer c page_no _ r

  pub load_page_or_eof-ne-stuck : (load_page_or_eof c page_no r).0 ≢ stuck
  unfolding load_page_or_eof load_page
  load_page_or_eof-ne-stuck = load_bytes-ne-stuck c page_no _ r

  -- Where `load_page_or_eof` reports a page: the reader's page number is the one asked for, and its buffer
  -- holds that page, which lies wholly in the file.
  pub load_page_or_eof-IsLoaded :
      (load_page_or_eof c page_no r).0 ≡ ok true
      → ((load_page_or_eof c page_no r).1.page_no ≡ page_no)
        × IsLoaded (load_page_or_eof c page_no r).1
  unfolding load_page_or_eof load_page
  load_page_or_eof-IsLoaded h =
      let (bytes, found, same) = load_bytes-loaded c page_no _ r h in
      let (exact, inside) = read_exact-eq-some _ _ _ bytes found in
      rw same (refl, record { buffer = exact; inside = inside })

-- Only a page of zeros, or a buffer too short for a header, is taken for one never written.
validate-zeroed :
    (c : Bindings) (r : WalReader) (page_no lsn : ℕ)
    → c.size_of_page_header ≤ length r.page_buffer
    → validate_page_header c r page_no ≡ err (zeroed_page lsn)
    → all_zero r.page_buffer ≡ true
unfolding validate_page_header
validate-zeroed c r page_no lsn long h = ground arith

accept-eof :
    (c : Bindings) (page_no : ℕ) (v : Result (Unit {0})) (r : WalReader)
    → or_eof (accept c page_no v r).0 ≡ ok false
    → (lsn : ℕ) × (v ≡ err (zeroed_page lsn))
accept-eof c page_no (ok _) r h = absurd cc
accept-eof c page_no (err (zeroed_page lsn)) r h = (lsn, refl)
accept-eof c page_no (err _) r h = absurd cc
accept-eof c page_no stuck r h = absurd cc

load_bytes-eof :
    (c : Bindings) (page_no start len : ℕ) (o : Option (List ℕ)) (r : WalReader)
    → read_exact start len r.source ≡ o
    → c.size_of_page_header ≤ len
    → or_eof (load_bytes c page_no o r).0 ≡ ok false
    → all_zero (slice start len r.source) ≡ true
load_bytes-eof c page_no start len none r found long h = absurd cc
load_bytes-eof c page_no start len (some bytes) r found long h =
    let (exact, inside) = read_exact-eq-some _ _ _ bytes found in
    let (lsn, zeroed) = accept-eof c page_no _ (record r { page_buffer = bytes }) h in
    let size : length bytes ≡ len =
      ap (λ (l : List ℕ). length l) exact ∙ length-slice start len r.source inside in
    rw exact at (
      validate-zeroed c (record r { page_buffer = bytes }) page_no lsn (omega (arith, size)) zeroed)

-- Where `load_page_or_eof` reports that there is no page, the page of the file is all zero.
pub load_page_or_eof-blank :
    (c : Bindings) (page_no : ℕ) (r : WalReader)
    → c.size_of_page_header ≤ r.xlog_blcksz
    → (load_page_or_eof c page_no r).0 ≡ ok false
    → all_zero (slice (page_no * r.xlog_blcksz) r.xlog_blcksz r.source) ≡ true
unfolding load_page_or_eof load_page
load_page_or_eof-blank c page_no r long h =
    load_bytes-eof c page_no (page_no * r.xlog_blcksz) r.xlog_blcksz _ r refl long h
