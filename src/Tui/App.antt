-- ===== src/Tui/App.antt =====
-- `App` of src/main.rs: the state of the viewer and what a key does to it. `TableState` is the
-- list widget's own state, a parameter with its documented behaviour.
pub mod Search
pub mod Keys
pub mod Laws
pub mod SameXid
use pg_walview.Prelude.{
  ℕ, zero, suc, ◌+◌, ◌-◌, ◌≡◌, refl, min, Bool, true, false, not, Option, none, some, List, [], ◌∷◌,
  length, get_elem?, leb, ltb, ◌==◌, if◌then◌else◌, u64_mod,
}
use mathlib.Core.Option
use pg_walview.Walmisc.{first_normal_transaction_id}
use pg_walview.Walreader.Types.{WalReaderError, WalRecordInfo, Result, ok, err, stuck}
use pg_walview.Tui.DetailTree
use pg_walview.Tui.DetailTree.{DetailTree, has_main_data, new_for, move_up, move_down, toggle}

-- `ratatui::widgets::TableState`, as far as the viewer uses it.
pub record TableStates : Type 1 where
  pub TableState : Type 0
  pub default : TableState
  pub select : Option ℕ → TableState → TableState
  pub selected : TableState → Option ℕ

pub record IsTableStates (t : TableStates) : Type 0 where
  pub selected-default : t.selected t.default ≡ none
  pub selected-select : (o : Option ℕ) (s : t.TableState) → t.selected (t.select o s) ≡ o

pub data FocusPane : Type 0 where
  record_list : FocusPane
  details : FocusPane
  hex_dump : FocusPane

pub data HexJump : Type 0 where
  no_jump : HexJump
  to_selection : HexJump
  to_end : HexJump

-- The key codes that the viewer knows, and the rest.
pub data KeyCode : Type 0 where
  char : ℕ → KeyCode
  tab : KeyCode
  enter : KeyCode
  up : KeyCode
  down : KeyCode
  page_up : KeyCode
  page_down : KeyCode
  other : KeyCode

pub record Segment : Type 0 where
  pub bytes : List ℕ
  pub start_lsn : ℕ
  pub xlog_blcksz : ℕ

-- The state of the reader's stop is kept as its error, and the file's path as its bytes.
pub record App (t : TableStates) : Type 0 where
  pub records : List WalRecordInfo
  pub segment : Segment
  pub current_file : List ℕ
  pub stop_reason : Option WalReaderError
  pub state : t.TableState
  pub list_offset : ℕ
  pub xid_range : Option (ℕ × ℕ)
  pub focus : FocusPane
  pub detail_tree : DetailTree
  pub detail_scroll : ℕ
  pub hex_scroll : ℕ
  pub hex_jump : HexJump
  pub exit : Bool

abbrev pub page_jump_size : ℕ
page_jump_size = 20

-- `usize::saturating_add`
abbrev pub saturating_add : ℕ → ℕ → ℕ
saturating_add a b = min (a + b) (u64_mod - 1)

-- `Vec::is_empty`
abbrev pub is_empty {ℓ} : {A : Type ℓ} → List A → Bool
is_empty [] = true
is_empty (x ∷ xs) = false

-- Whether the record at an index carries the transaction.
unfoldable pub has_xid : List WalRecordInfo → ℕ → ℕ → Bool
has_xid records xid i = elim (get_elem? records i) [
  | none ↦ false
  | some info ↦ info.xlrec.xl_xid == xid
]

-- `(start..start + count).find`
unfoldable pub find_from : (ℕ → Bool) → ℕ → ℕ → Option ℕ
find_from p start zero = none
find_from p start (suc count) =
    let later = find_from p (start + 1) count in if p start then some start else later

-- `(0..end).rev().find`
unfoldable pub find_below : (ℕ → Bool) → ℕ → Option ℕ
find_below p zero = none
find_below p (suc n) = let earlier = find_below p n in if p n then some n else earlier

-- `Option::zip`
abbrev pub zip {ℓ κ} : {A : Type ℓ} {B : Type κ} → Option A → Option B → Option (A × B)
zip (some a) (some b) = some (a, b)
zip (some a) none = none
zip none o = none

-- The extent of a transaction in the list.
unfoldable pub xid_range_of : List WalRecordInfo → ℕ → Option (ℕ × ℕ)
xid_range_of records xid =
    if xid == 0
    then some (0, 0)
    else zip (find_from (has_xid records xid) 0 (length records))
        (find_below (has_xid records xid) (length records))

module _ (t : TableStates) where
  -- The record that is selected now, if the index is one of a record.
  abbrev pub show_record : Option WalRecordInfo → App t → App t
  show_record none app = app
  show_record (some info) app = record app {
    detail_tree = new_for info;
    xid_range = xid_range_of app.records info.xlrec.xl_xid;
  }

  abbrev pub show_selection : Option ℕ → App t → App t
  show_selection none app = record app { detail_tree = DetailTree.default }
  show_selection (some idx) app = show_record (get_elem? app.records idx) app

  unfoldable pub on_record_change : App t → App t
  on_record_change app =
      show_selection (t.selected app.state)
        (record app { detail_scroll = 0; hex_jump = to_selection; xid_range = none })

  abbrev pub first_app : List ℕ → List WalRecordInfo → Option WalReaderError → Segment → App t
  first_app current_file records stop_reason segment = record {
    records = records;
    segment = segment;
    current_file = current_file;
    stop_reason = stop_reason;
    state = if is_empty records then t.default else t.select (some 0) t.default;
    list_offset = 0;
    xid_range = none;
    focus = record_list;
    detail_tree = DetailTree.default;
    detail_scroll = 0;
    hex_scroll = 0;
    hex_jump = to_selection;
    exit = false;
  }

  unfoldable pub with_records :
      List ℕ → List WalRecordInfo → Option WalReaderError → Segment → App t
  with_records current_file records stop_reason segment =
      on_record_change (first_app current_file records stop_reason segment)

  unfoldable pub selected_record : App t → Option WalRecordInfo
  selected_record app = Option.bind (t.selected app.state) λ i. get_elem? app.records i

  unfoldable pub select : ℕ → App t → App t
  select idx app =
      if is_empty app.records
      then app
      else on_record_change
          (record app { state = t.select (some (min idx (length app.records - 1))) app.state })

  unfoldable pub normal_xid_at : App t → ℕ → Option ℕ
  normal_xid_at app idx = Option.bind (get_elem? app.records idx) λ info.
      if leb first_normal_transaction_id info.xlrec.xl_xid then some info.xlrec.xl_xid else none

  abbrev select_found : Option ℕ → App t → App t
  select_found none app = app
  select_found (some i) app = select i app

  -- The record that a jump to the same transaction goes to.
  unfoldable pub next_same_xid : App t → Option ℕ
  next_same_xid app = Option.bind (t.selected app.state) λ idx.
      Option.bind (normal_xid_at app idx)
        λ xid. find_from (has_xid app.records xid) (idx + 1) (length app.records - (idx + 1))

  unfoldable pub prev_same_xid : App t → Option ℕ
  prev_same_xid app =
      Option.bind (t.selected app.state)
        λ idx. Option.bind (normal_xid_at app idx) λ xid. find_below (has_xid app.records xid) idx

  unfoldable pub move_next_same_xid : App t → App t
  move_next_same_xid app = select_found (next_same_xid app) app

  unfoldable pub move_prev_same_xid : App t → App t
  move_prev_same_xid app = select_found (prev_same_xid app) app

  unfoldable pub move_record_down : App t → App t
  move_record_down app = select (elim (t.selected app.state) [ none ↦ 0 | some i ↦ i + 1 ]) app

  unfoldable pub move_record_up : App t → App t
  move_record_up app = select (elim (t.selected app.state) [ none ↦ 0 | some i ↦ i - 1 ]) app

  unfoldable pub move_top : App t → App t
  move_top app = select 0 app

  unfoldable pub move_bottom : App t → App t
  move_bottom app = select (length app.records - 1) app

  -- `self.state.selected().unwrap_or(0)`
  abbrev current : App t → ℕ
  current app = elim (t.selected app.state) [ none ↦ 0 | some i ↦ i ]

  unfoldable pub record_page_up : App t → App t
  record_page_up app = select (current app - page_jump_size) app

  unfoldable pub record_page_down : App t → App t
  record_page_down app = select (saturating_add (current app) page_jump_size) app
