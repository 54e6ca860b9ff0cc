-- ===== src/Tui/View/Rows.antt =====
-- The record list on the screen: the selected record is among its rows.
use pg_walview.Prelude.{
  ℕ, zero, suc, ◌+◌, ◌-◌, ◌≤◌, ◌<◌, min, ◌≡◌, ◌∙◌, refl, ap, false, Option, some, List, [], ◌∷◌,
  length, get_elem?, length-slice, lt-get_elem?, ltb, arith, ◌||◌, get_elem?-slice,
}
use mathlib.Core.Option
use pg_walview.Walreader.Types.{WalRecordInfo}
use pg_walview.Tui.App.{TableStates, App, selected_record}
use pg_walview.Tui.View.{
  follow_selection, Row, row_of, rows_from, xid_of, ListView, selected_row, list_view,
  render_record_list,
}

pub follow_selection-bounds :
    (visible selected len offset : ℕ)
    → 0 < visible
    → selected < len
    → (follow_selection visible selected len offset ≤ selected)
      × (selected < follow_selection visible selected len offset + visible)
      × (follow_selection visible selected len offset ≤ len - visible)
unfolding follow_selection
follow_selection-bounds visible selected len offset some_row inside = ground arith

length-rows_from :
    (xid : Option ℕ) (range : Option (ℕ × ℕ)) (selected i : ℕ) (infos : List WalRecordInfo)
    → length (rows_from xid range selected i infos) ≡ length infos
unfolding rows_from
length-rows_from xid range selected i [] = refl
length-rows_from xid range selected i (info ∷ infos) =
    ap suc (length-rows_from xid range selected (i + 1) infos)

get_elem?-rows_from :
    (xid : Option ℕ) (range : Option (ℕ × ℕ)) (selected i k : ℕ) (infos : List WalRecordInfo)
    (info : WalRecordInfo)
    → get_elem? infos k ≡ some info
    → get_elem? (rows_from xid range selected i infos) k
      ≡ some (row_of xid range selected (i + k) info)
unfolding rows_from
get_elem?-rows_from xid range selected i k [] info h = absurd (cc)
get_elem?-rows_from xid range selected i zero (first ∷ infos) info h =
    ap (λ (n : ℕ). some (row_of xid range selected n first)) {x = i} {y = i + 0} (omega arith)
    ∙ ap (λ (r : Option WalRecordInfo). Option.map (row_of xid range selected (i + 0)) r) h
get_elem?-rows_from xid range selected i (suc k) (first ∷ infos) info h =
    get_elem?-rows_from xid range selected (i + 1) k infos info h
    ∙ ap (λ (n : ℕ). some (row_of xid range selected n info)) (omega arith)

-- A pane that has room for a row, and a selected record: the record's row is on the screen, as the one
-- that is highlighted and drawn as selected, and the rows fill the pane or are all there are.
pub render_record_list-shows :
    (t : TableStates) (width height selected : ℕ) (app : App t) (info : WalRecordInfo)
    → 2 ≤ width
    → 4 < height
    → t.selected app.state ≡ some selected
    → get_elem? app.records selected ≡ some info
    → (view : ListView) × (row : Row) × (k : ℕ) × ((render_record_list t width height app).0
        ≡ some view)
      × (view.highlighted ≡ some k)
      × (get_elem? view.rows k ≡ some row)
      × (row.info ≡ info)
      × (row.style ≡ selected_row)
      × (length view.rows ≡ min (height - 4) (length app.records))
unfolding render_record_list
render_record_list-shows t width height selected app info wide high sel found =
    let visible = height - 4 in
    let len = length app.records in
    let offset = follow_selection visible selected len app.list_offset in
    let app' = record app { list_offset = offset } in
    let inside = lt-get_elem? app.records selected info found in
    let (below, above, filled) =
      follow_selection-bounds visible selected len app.list_offset (omega arith) inside in
    let end = min (offset + visible) len in
    let small : (ltb width 2 || ltb height 2) ≡ false = ground arith in
    rw (sel, small)
      (
        list_view t visible selected app',
        row_of (xid_of (selected_record t app')) app.xid_range selected
            (offset + (selected - offset)) info,
        selected - offset,
        refl,
        ground arith,
        get_elem?-rows_from _ _ selected offset (selected - offset) _ info (
            get_elem?-slice offset (end - offset) (selected - offset) app.records (omega arith)
            ∙ ap (get_elem? app.records) {x = offset + (selected - offset)} {y = selected}
                (omega arith)
            ∙ found),
        refl,
        ground arith,
        length-rows_from _ _ selected offset _
            ∙ length-slice offset (end - offset) app.records (omega arith)
            ∙ omega arith,
      )
