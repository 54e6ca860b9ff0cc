-- ===== src/Tui/Open.antt =====
-- `App::new` of src/main.rs: the records of a file, and the viewer on them. The file is read twice, by
-- the reader and whole; its name has been taken apart into the timeline and the number of the segment.
pub mod Reading
use pg_walview.Prelude.{ℕ, zero, suc, ◌+◌, Option, none, some, List, [], ◌∷◌, length}
use mathlib.Core.Option
use pg_walview.Bindings.{Bindings}
use pg_walview.Walreader.Types.{WalReaderError, io, WalRecordInfo, Result, ok, err, stuck}
use pg_walview.Walreader.Pages.{WalReader, end_page, segment_start_lsn}
use pg_walview.Walreader.Scan
use pg_walview.Walreader.Scan.{load_next_record}
use pg_walview.Tui.App.{TableStates, Segment, App, with_records}

-- The variables of the loop, and the reader behind it.
pub record Scanned : Type 0 where
  pub records : List WalRecordInfo
  pub stop_reason : Option WalReaderError
  pub reader : WalReader

abbrev pub push : WalRecordInfo → Scanned → Scanned
push info scanned = record scanned { records = info ∷ scanned.records }

-- What becomes of a call of `load_next_record`, where `rest` is what the further rounds give.
abbrev pub collect : Result (Option WalRecordInfo) → WalReader → Option Scanned → Option Scanned
collect (ok none) r rest = some (record { records = []; stop_reason = none; reader = r })
collect (ok (some info)) r rest = Option.map (push info) rest
collect (err e) r rest = some (record { records = []; stop_reason = some e; reader = r })
collect stuck r rest = none

abbrev pub segment_of : WalReader → List ℕ → Segment
unfolding segment_start_lsn
segment_of r bytes = record {
  bytes = bytes;
  start_lsn = segment_start_lsn r;
  xlog_blcksz = r.xlog_blcksz;
}

module _ (c : Bindings) where
  -- The loop, with fuel: `none` is no value of the source. A search takes a round for each page.
  unfoldable pub read_records : ℕ → WalReader → Option Scanned
  read_records zero r = none
  read_records (suc fuel) r =
      let (loaded, r') = load_next_record c (suc (end_page r)) r in
      collect loaded r' (read_records fuel r')

  module _ (t : TableStates) (path : List ℕ) (bytes : Option (List ℕ)) where
    -- The file is read again, whole.
    abbrev pub show : List WalRecordInfo → Option WalReaderError → WalReader → Result (App t)
    show records stop_reason r = elim bytes [
      | none ↦ err io
      | some b ↦ ok (with_records t path records stop_reason (segment_of r b))
    ]

    -- A file without a record is an error, if there is a reason.
    abbrev pub show_scanned :
        List WalRecordInfo → Option WalReaderError → WalReader → Result (App t)
    show_scanned [] (some e) r = err e
    show_scanned [] none r = show [] none r
    show_scanned (info ∷ infos) stop_reason r = show (info ∷ infos) stop_reason r

    abbrev pub or_stuck : Option Scanned → Result (App t)
    or_stuck none = stuck
    or_stuck (some scanned) = show_scanned scanned.records scanned.stop_reason scanned.reader

    -- Each record is longer than a byte: the fuel is the length of the file and the padding that may
    -- follow its last record.
    abbrev pub scan_opened : Result WalReader → Result (App t)
    scan_opened (ok r) = or_stuck (read_records (length r.source + 8) r)
    scan_opened (err e) = err e
    scan_opened stuck = stuck

    unfoldable pub app_new : List ℕ → ℕ → ℕ → ℕ → Result (App t)
    app_new source tli log seg = scan_opened (Scan.new c source tli log seg)
