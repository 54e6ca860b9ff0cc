-- ===== src/Tests/Viewer.antt =====
-- The viewer on a list of three records, two of them of one transaction.
use pg_walview.Prelude.{
  ℕ, ◌/◌, ◌≤◌, ◌<◌, ◌≡◌, ◌≢◌, refl, true, none, some, List, [], ◌∷◌, get_elem?, arith,
}
use mathlib.Core.Option
use pg_walview.Walreader.Types.{WalRecordInfo}
use pg_walview.Tui.DetailTree.{nav_items, toggle, default}
use pg_walview.Tui.DetailTree.Cursor.{toggle-cursor}
use pg_walview.Tui.App.{
  IsTableStates, KeyCode, char, tab, enter, down, Segment, App, has_xid, xid_range_of, first_app,
  with_records, normal_xid_at, next_same_xid, prev_same_xid,
}
use pg_walview.Tui.App.Keys.{run}
use pg_walview.Tui.App.Laws.{IsApp, run-IsApp}
use pg_walview.Tui.App.Search.{IsFirst, IsLast}
use pg_walview.Tui.App.SameXid.{same_xid-nearest, xid_range_of-covers}
use pg_walview.Tui.HexDump.{HexDump, line_width, hex_bytes_per_line, total_lines}
use pg_walview.Tui.HexDump.Widths.{IsLayoutWidth, hex_bytes_per_line-fits, total_lines-covers}
use pg_walview.Tests.Data.{indices}

indices-IsTableStates : IsTableStates indices
indices-IsTableStates = record { selected-default = refl; selected-select = λ o s. refl }

abbrev of_xid : ℕ → WalRecordInfo
of_xid xid = record {
  lsn = 808;
  xlrec = record {
    xl_tot_len = 28;
    xl_xid = xid;
    xl_prev = 0;
    xl_info = 0;
    xl_rmid = 10;
    xl_crc = 0;
  };
  blocks = [];
  main_len = 0;
  main_range = none;
  origin = none;
  top_xid = none;
  crc_ok = true;
  file_ranges = [];
  raw = [];
}

abbrev three : List WalRecordInfo
three = of_xid 742 ∷ of_xid 0 ∷ of_xid 742 ∷ []

abbrev segment : Segment
segment = record { bytes = []; start_lsn = 768; xlog_blcksz = 64 }

-- Down, next record of the transaction, next pane, down, toggle.
abbrev keys : List KeyCode
keys = char 115 ∷ tab ∷ down ∷ enter ∷ []

run-IsApp_example : IsApp indices (run indices keys (with_records indices [] three none segment))
run-IsApp_example = run-IsApp indices indices-IsTableStates [] three none segment keys

abbrev app : App indices
app = first_app indices [] three none segment

same_xid-nearest_example :
    IsFirst (has_xid three 742) 1 3 (next_same_xid indices app)
    × IsLast (has_xid three 742) 0 (prev_same_xid indices app)
unfolding normal_xid_at Option.bind
same_xid-nearest_example = same_xid-nearest indices app 0 742 refl refl

xid_range_of-covers_example :
    (first : ℕ) × (last : ℕ) × (xid_range_of three 742 ≡ some (first, last))
    × (has_xid three 742 first ≡ true)
    × (has_xid three 742 last ≡ true)
    × (first ≤ 2)
    × (2 ≤ last)
unfolding has_xid
xid_range_of-covers_example = xid_range_of-covers three 742 2 xid-ne-zero (omega arith) refl
  where
    xid-ne-zero : ◌≢◌ {A = ℕ} 742 0
    xid-ne-zero = λ e. omega (arith, e)

toggle-cursor_example :
    ((toggle [] true default).cursor ≡ 0)
    × (get_elem? (nav_items (toggle [] true default) [] true) 0
        ≡ get_elem? (nav_items default [] true) 0)
toggle-cursor_example = toggle-cursor [] true default

hex_bytes_per_line-fits_example :
    IsLayoutWidth (hex_bytes_per_line 60)
    × (line_width 4 ≤ 60 → line_width (hex_bytes_per_line 60) ≤ 60)
    × ((n : ℕ) → IsLayoutWidth n → hex_bytes_per_line 60 < n → 60 < line_width n)
hex_bytes_per_line-fits_example = hex_bytes_per_line-fits 60

abbrev dump : HexDump
dump = record {
  bytes = 1 ∷ 2 ∷ 3 ∷ 4 ∷ 5 ∷ [];
  start_lsn = 0;
  xlog_blcksz = 64;
  bytes_per_line = 4;
}

total_lines-covers_example : 4 / 4 < total_lines dump
total_lines-covers_example = total_lines-covers dump 4 (omega arith) (omega arith)
