-- ===== src/Tui/App/Laws.antt =====
-- The state of the viewer stays well formed under every key.
use pg_walview.Prelude.{
  ℕ, zero, suc, ◌-◌, ◌<◌, ◌≡◌, ◌∙◌, refl, sym, ap, Bool, true, false, Option, none, some, List, [],
  ◌∷◌, length, get_elem?, get_elem?-lt, if◌then◌else◌, ◌==◌, ◌||◌, min, arith, Bool-cases, inl, inr,
  replicate,
}
use mathlib.Core.Option
use mathlib.Core.Path.{subst}
use pg_walview.Walreader.Types.{WalReaderError, WalRecordInfo}
use pg_walview.Tui.DetailTree.{DetailTree, has_main_data, new_for, nav_items}
use pg_walview.Tui.DetailTree.Cursor.{IsTree, move_up-IsTree, move_down-IsTree, toggle-IsTree}
use pg_walview.Tui.App.{
  TableStates, first_app, is_empty, IsTableStates, FocusPane, record_list, details, hex_dump,
  KeyCode, char, tab, enter, up, down, page_up, page_down, other, Segment, App, xid_range_of,
  on_record_change, with_records, selected_record, select, select_found, move_next_same_xid,
  move_prev_same_xid, move_record_up, move_record_down, move_top, move_bottom, record_page_up,
  record_page_down,
}
use pg_walview.Tui.App.Keys.{
  cycle_focus, handle_record_list_key, details_key, handle_details_key, handle_hex_dump_key,
  handle_pane_key, handle_key_event, run,
}

length-replicate {ℓ} : {A : Type ℓ} (n : ℕ) (a : A) → length (replicate n a) ≡ n
length-replicate zero a = refl
length-replicate (suc n) a = ap suc (length-replicate n a)

new_for-IsTree : (info : WalRecordInfo) → IsTree info.blocks (has_main_data info) (new_for info)
unfolding new_for nav_items
new_for-IsTree info = record {
  states = length-replicate (length info.blocks) (false, false);
  cursor_on = omega arith;
}

last_index :
    (records : List WalRecordInfo) (idx : ℕ)
    → is_empty records ≡ false
    → min idx (length records - 1) < length records
last_index [] idx h = cc
last_index (info ∷ records) idx h = omega arith

module _ (t : TableStates) where
  -- What belongs to the selection `o`: without one the list is empty; with one it is a record, the
  -- tree is for its blocks, and the extent is that of its transaction.
  abbrev pub IsSelection : App t → Option ℕ → Type 0
  IsSelection app none = app.records ≡ []
  IsSelection app (some idx) =
      (info : WalRecordInfo) × (get_elem? app.records idx ≡ some info)
      × IsTree info.blocks (has_main_data info) app.detail_tree
      × (app.xid_range ≡ xid_range_of app.records info.xlrec.xl_xid)

  pub record IsApp (app : App t) : Type 0 where
    pub selection : IsSelection app (t.selected app.state)

  module _ (laws : IsTableStates t) where
    -- A change of selection to an index in range.
    on_record_change-IsApp :
        (app : App t) (idx : ℕ)
        → t.selected app.state ≡ some idx
        → idx < length app.records
        → IsApp (on_record_change t app)
    unfolding on_record_change
    on_record_change-IsApp app idx sel small =
        let (info, found) = get_elem?-lt app.records idx small in
        record { selection = rw (sel, found, sel) (info, found, new_for-IsTree info, refl) }

    select-IsApp : (idx : ℕ) (app : App t) → IsApp app → IsApp (select t idx app)
    unfolding select
    select-IsApp idx app is_app = elim (Bool-cases (is_empty app.records)) [
      | inl e ↦ rw e is_app
      | inr e ↦ rw e (
          on_record_change-IsApp
            (record app { state = t.select (some (min idx (length app.records - 1))) app.state })
            (min idx (length app.records - 1)) (laws.selected-select _ app.state)
            (last_index app.records idx e))
    ]

    pub with_records-IsApp :
        (file : List ℕ) (records : List WalRecordInfo) (reason : Option WalReaderError)
        (segment : Segment)
        → IsApp (with_records t file records reason segment)
    unfolding with_records on_record_change
    with_records-IsApp file [] reason segment = record {
      selection = rw (laws.selected-default, laws.selected-default) refl;
    }
    with_records-IsApp file (info ∷ records) reason segment =
        on_record_change-IsApp (first_app t file (info ∷ records) reason segment) 0
          (laws.selected-select (some 0) t.default) (omega arith)

    select_found-IsApp : (o : Option ℕ) (app : App t) → IsApp app → IsApp (select_found t o app)
    select_found-IsApp none app is_app = is_app
    select_found-IsApp (some i) app is_app = select-IsApp i app is_app

    IsApp-if : (b : Bool) (x y : App t) → IsApp x → IsApp y → IsApp (if b then x else y)
    IsApp-if true x y p q = p
    IsApp-if false x y p q = q

    record_list-IsApp :
        (key : KeyCode) (app : App t) → IsApp app → IsApp (handle_record_list_key t key app)
    unfolding handle_record_list_key move_record_up move_record_down move_top move_bottom
        move_next_same_xid move_prev_same_xid record_page_up record_page_down
    record_list-IsApp up app p = select-IsApp _ app p
    record_list-IsApp down app p = select-IsApp _ app p
    record_list-IsApp page_up app p = select-IsApp _ app p
    record_list-IsApp page_down app p = select-IsApp _ app p
    record_list-IsApp tab app p = p
    record_list-IsApp enter app p = p
    record_list-IsApp other app p = p
    record_list-IsApp (char ch) app p = IsApp-if (ch == 107) _ _ (select-IsApp _ app p) (
        IsApp-if (ch == 106) _ _ (select-IsApp _ app p) (
          IsApp-if (ch == 103) _ _ (select-IsApp _ app p) (
            IsApp-if (ch == 71) _ _ (select-IsApp _ app p) (
              IsApp-if (ch == 115) _ _ (select_found-IsApp _ app p) (
                IsApp-if (ch == 114) _ _ (select_found-IsApp _ app p) (
                  IsApp-if (ch == 45) _ _ (select-IsApp _ app p)
                    (IsApp-if (ch == 32) _ _ (select-IsApp _ app p) p)))))))

    -- A key of the DETAILS pane keeps the tree of the selected record.
    tree_changed :
        (app : App t) (info : WalRecordInfo) (tree : DetailTree)
        → (IsTree info.blocks (has_main_data info) app.detail_tree
            → IsTree info.blocks (has_main_data info) tree)
        → (o : Option ℕ) → Option.bind o (λ i. get_elem? app.records i) ≡ some info
        → IsSelection app o
        → IsSelection (record app { detail_tree = tree }) o
    unfolding Option.bind
    tree_changed app info tree step none sel p = p
    tree_changed app info tree step (some idx) sel (info', found, is_tree, range) =
        let same : info' ≡ info = Option.some-injective info' info (sym found ∙ sel) in
        (
          info,
          sel,
          step (subst (λ x. IsTree x.blocks (has_main_data x) app.detail_tree) same is_tree),
          subst (λ x. app.xid_range ≡ xid_range_of app.records x.xlrec.xl_xid) same range,
        )

    details_key-IsApp :
        (key : KeyCode) (app : App t) (o : Option WalRecordInfo)
        → selected_record t app ≡ o
        → IsApp app
        → IsApp (details_key t key o app)
    unfolding selected_record
    details_key-IsApp key app none sel p = p
    details_key-IsApp up app (some info) sel p = record {
      selection =
          tree_changed app info _ (move_up-IsTree info.blocks (has_main_data info) app.detail_tree)
            _ sel p.selection;
    }
    details_key-IsApp down app (some info) sel p = record {
      selection =
          tree_changed app info _
            (move_down-IsTree info.blocks (has_main_data info) app.detail_tree) _ sel p.selection;
    }
    details_key-IsApp enter app (some info) sel p = record {
      selection =
          tree_changed app info _ (toggle-IsTree info.blocks (has_main_data info) app.detail_tree) _
            sel p.selection;
    }
    details_key-IsApp key app (some info) sel p = p

    hex_dump-IsApp :
        (key : KeyCode) (app : App t) → IsApp app → IsApp (handle_hex_dump_key t key app)
    unfolding handle_hex_dump_key
    hex_dump-IsApp up app p = record { selection = p.selection }
    hex_dump-IsApp down app p = record { selection = p.selection }
    hex_dump-IsApp page_up app p = record { selection = p.selection }
    hex_dump-IsApp page_down app p = record { selection = p.selection }
    hex_dump-IsApp tab app p = p
    hex_dump-IsApp enter app p = p
    hex_dump-IsApp other app p = p
    hex_dump-IsApp (char ch) app p =
        IsApp-if (ch == 107) _ _ (record { selection = p.selection })
          (IsApp-if (ch == 106) _ _ (record { selection = p.selection })
            (IsApp-if (ch == 45 || ch == 98) _ _ (record { selection = p.selection })
              (IsApp-if (ch == 32) _ _ (record { selection = p.selection })
                (IsApp-if (ch == 103) _ _ (record { selection = p.selection })
                  (IsApp-if (ch == 71) _ _ (record { selection = p.selection }) p)))))

    pane_key-IsApp :
        (pane : FocusPane) (key : KeyCode) (app : App t)
        → IsApp app
        → IsApp (handle_pane_key t pane key app)
    unfolding handle_details_key
    pane_key-IsApp record_list key app p = record_list-IsApp key app p
    pane_key-IsApp details key app p = details_key-IsApp key app _ refl p
    pane_key-IsApp hex_dump key app p = hex_dump-IsApp key app p

    -- Every key keeps the state well formed.
    pub handle_key_event-IsApp :
        (key : KeyCode) (app : App t) → IsApp app → IsApp (handle_key_event t key app)
    unfolding handle_key_event cycle_focus
    handle_key_event-IsApp (char ch) app p =
        IsApp-if (ch == 113) _ _ (record { selection = p.selection })
          (pane_key-IsApp app.focus (char ch) app p)
    handle_key_event-IsApp tab app p = record { selection = p.selection }
    handle_key_event-IsApp up app p = pane_key-IsApp app.focus up app p
    handle_key_event-IsApp down app p = pane_key-IsApp app.focus down app p
    handle_key_event-IsApp page_up app p = pane_key-IsApp app.focus page_up app p
    handle_key_event-IsApp page_down app p = pane_key-IsApp app.focus page_down app p
    handle_key_event-IsApp enter app p = pane_key-IsApp app.focus enter app p
    handle_key_event-IsApp other app p = pane_key-IsApp app.focus other app p

    run_from-IsApp : (keys : List KeyCode) (app : App t) → IsApp app → IsApp (run t keys app)
    unfolding run
    run_from-IsApp [] app p = p
    run_from-IsApp (key ∷ keys) app p =
        IsApp-if app.exit _ _ p (run_from-IsApp keys _ (handle_key_event-IsApp key app p))

    -- From the state that the records of a file give, whatever keys are pressed, the selection is
    -- none for an empty list and else the index of a record; the tree has a state for each block of
    -- that record and its cursor on one of its items; and the extent shown is that of its transaction.
    pub run-IsApp :
        (file : List ℕ) (records : List WalRecordInfo) (reason : Option WalReaderError)
        (segment : Segment) (keys : List KeyCode)
        → IsApp (run t keys (with_records t file records reason segment))
    run-IsApp file records reason segment keys =
        run_from-IsApp keys _ (with_records-IsApp file records reason segment)
