-- ===== src/Desc/Heap2.antt =====
-- src/heap2desc.rs: the records of the resource manager for the second group of heap.
use pg_walview.Prelude.{
  ℕ, ◌+◌, ◌-◌, ◌*◌, min, Option, List, [], ◌∷◌, ◌++◌, length, get_or, ltb, ◌==◌, if◌then◌else◌,
  bit_and, has_bits, u16_mod,
}
use pg_walview.Prelude.Digits.{codes, lower_hex}
use pg_walview.Walmisc.Format.{lsn_format}
use pg_walview.Desc.Reading.{
  ◌>>=◌, ◌>>◌, Text, Parse, pure, field_u8, field_u16, field_u32, field_u64, field_i64, skip_bytes,
  each, line_if_u16, when, num, int, flags_text, run_on,
}
use pg_walview.Desc.Reading.Safe.{
  Safe, safe_rules, bind-Safe, pure-Safe, then-Safe, skip_bytes-Safe, field_u16-Safe,
  field_u32-Safe, field_u64-Safe, field_i64-Safe,
}
use pg_walview.Desc.Heap.{xlog_heap_opmask, is_init_page}
use pg_walview.Desc.Heap.Flags.{decode_heap_insert_flags, decode_infobits}

pub data Heap2Op : Type 0 where
  rewrite prune_on_access prune_vacuum_scan prune_vacuum_cleanup visible multi_insert lock_updated
        new_cid unknown :
      Heap2Op

abbrev op_of : ℕ → Heap2Op
op_of op =
    if op == 0x00
    then rewrite
    else if op == 0x10
    then prune_on_access
    else if op == 0x20
    then prune_vacuum_scan
    else if op == 0x30
    then prune_vacuum_cleanup
    else if op == 0x40
    then visible
    else if op == 0x50
    then multi_insert
    else if op == 0x60
    then lock_updated
    else if op == 0x70
    then new_cid
    else unknown

unfoldable pub from_xl_info : ℕ → Heap2Op
from_xl_info info = op_of (bit_and info xlog_heap_opmask)

-- `Display`
unfoldable pub display : Heap2Op → Text
display rewrite = codes "REWRITE"
display prune_on_access = codes "PRUNE_ON_ACCESS"
display prune_vacuum_scan = codes "PRUNE_VACUUM_SCAN"
display prune_vacuum_cleanup = codes "PRUNE_VACUUM_CLEANUP"
display visible = codes "VISIBLE"
display multi_insert = codes "MULTI_INSERT"
display lock_updated = codes "LOCK_UPDATED"
display new_cid = codes "NEW_CID"
display unknown = codes "Unknown"

unfoldable pub identify : ℕ → Text
identify info =
    let name = display (from_xl_info info) in
    if is_init_page info then name ++ codes "+INIT" else name

abbrev pub xl_heap_visible_flags_names : List (ℕ × Text)
xl_heap_visible_flags_names =
    (0x1, codes "ALL_VISIBLE") ∷ (0x2, codes "ALL_FROZEN") ∷ (0x4, codes "CATALOG_REL") ∷ []

unfoldable pub decode_xl_heap_visible_flags : ℕ → Text
decode_xl_heap_visible_flags = flags_text xl_heap_visible_flags_names (codes " | ") 2

abbrev pub prune_flags_names : List (ℕ × Text)
prune_flags_names =
    (0x2, codes "IS_CATALOG_REL")
    ∷ (0x4, codes "CLEANUP_LOCK")
    ∷ (0x8, codes "HAS_CONFLICT_HORIZON")
    ∷ (0x10, codes "HAS_FREEZE_PLANS")
    ∷ (0x20, codes "HAS_REDIRECTIONS")
    ∷ (0x40, codes "HAS_DEAD_ITEMS")
    ∷ (0x80, codes "HAS_NOW_UNUSED_ITEMS")
    ∷ []

unfoldable pub fmt_prune_flags : ℕ → Text
fmt_prune_flags = flags_text prune_flags_names (codes " | ") 2

abbrev pub fmt_prune_reason : ℕ → Text
fmt_prune_reason n =
    get_or (codes "on_access" ∷ codes "vacuum_scan" ∷ codes "vacuum_cleanup" ∷ []) n
      (codes "unknown")

abbrev pub fmt_itemptr : ℕ → ℕ → ℕ → Text
fmt_itemptr bi_hi bi_lo posid =
    codes "(" ++ num (bi_hi * u16_mod + bi_lo) ++ codes ", " ++ num posid ++ codes ")"

unfoldable pub conflict_horizon_line : Parse (List Text)
conflict_horizon_line = do xid ← field_u32; pure ((codes "  conflict_horizon: " ++ num xid) ∷ [])

unfoldable pub prune_on_access_lines : Parse (List Text)
prune_on_access_lines = do
  reason ← field_u8
  flags ← field_u8
  horizon ← if has_bits flags 0x08 then conflict_horizon_line else pure []
  pure (
      ((codes "  reason:  " ++ num reason ++ codes " (" ++ fmt_prune_reason reason ++ codes ")")
        ∷ (codes "  flags:   " ++ fmt_prune_flags flags)
        ∷ [])
      ++ horizon)

unfoldable pub visible_lines : Parse (List Text)
visible_lines = do
  horizon ← field_u32
  flags ← field_u8
  pure (
      (codes "  snapshotConflictHorizon: " ++ num horizon)
      ∷ (codes "  flags: " ++ decode_xl_heap_visible_flags flags)
      ∷ [])

unfoldable pub offset_lines : ℕ → Parse (List Text)
offset_lines ntuples = do
  items ←
      each (λ i. line_if_u16 (λ off. codes "  offsets[" ++ num i ++ codes "]: " ++ num off))
        (min ntuples 16) 0
  pure (
      items
      ++ when (ltb 16 ntuples)
          ((codes "  ... (" ++ num (ntuples - 16) ++ codes " more offsets)") ∷ []))

unfoldable pub multi_insert_lines : ℕ → Parse (List Text)
multi_insert_lines info = do
  flags ← field_u8
  skip_bytes 1
  ntuples ← field_u16
  offsets ←
      if has_bits info 0x80
      then pure (codes "  note:     INIT_PAGE (offsets omitted)" ∷ [])
      else offset_lines ntuples
  pure (
      ((codes "  flags:    " ++ decode_heap_insert_flags flags)
        ∷ (codes "  ntuples:  " ++ num ntuples)
        ∷ [])
      ++ offsets)

unfoldable pub lock_updated_lines : Parse (List Text)
lock_updated_lines = do
  xmax ← field_u32
  offnum ← field_u16
  infobits ← field_u8
  flags ← field_u8
  pure (
      (codes "  xmax:         " ++ num xmax)
      ∷ (codes "  offnum:       " ++ num offnum)
      ∷ (codes "  infobits_set: " ++ decode_infobits infobits)
      ∷ (codes "  flags:        0x"
          ++ lower_hex 2 flags
          ++ (if has_bits flags 0x01 then codes " (ALL_FROZEN_CLEARED)" else []))
      ∷ [])

unfoldable pub new_cid_lines : Parse (List Text)
new_cid_lines = do
  top_xid ← field_u32
  cmin ← field_u32
  cmax ← field_u32
  combocid ← field_u32
  spc ← field_u32
  db ← field_u32
  rel ← field_u32
  bi_hi ← field_u16
  bi_lo ← field_u16
  posid ← field_u16
  pure (
      (codes "  top_xid:        " ++ num top_xid)
      ∷ (codes "  cmin:           " ++ num cmin)
      ∷ (codes "  cmax:           " ++ num cmax)
      ∷ (codes "  combocid:       " ++ num combocid)
      ∷ (codes "  target_locator: " ++ num spc ++ codes "/" ++ num db ++ codes "/" ++ num rel)
      ∷ (codes "  target_tid:     " ++ fmt_itemptr bi_hi bi_lo posid)
      ∷ [])

unfoldable pub rewrite_lines : Parse (List Text)
rewrite_lines = do
  mapped_xid ← field_u32
  mapped_db ← field_u32
  mapped_rel ← field_u32
  skip_bytes 4
  offset ← field_i64
  num_mappings ← field_u32
  skip_bytes 4
  start_lsn ← field_u64
  pure (
      (codes "  mapped_xid:   " ++ num mapped_xid)
      ∷ (codes "  mapped_db:    " ++ num mapped_db)
      ∷ (codes "  mapped_rel:   " ++ num mapped_rel)
      ∷ (codes "  offset:       " ++ int offset)
      ∷ (codes "  num_mappings: " ++ num num_mappings)
      ∷ (codes "  start_lsn:    " ++ lsn_format start_lsn)
      ∷ [])

unfoldable pub unknown_lines : List ℕ → Parse (List Text)
unknown_lines main =
    pure ((codes "  (" ++ num (length main) ++ codes " bytes, unknown heap2 op)") ∷ [])

unfoldable pub lines_of : ℕ → List ℕ → Heap2Op → Parse (List Text)
lines_of info main prune_on_access = prune_on_access_lines
lines_of info main prune_vacuum_scan = prune_on_access_lines
lines_of info main prune_vacuum_cleanup = prune_on_access_lines
lines_of info main visible = visible_lines
lines_of info main multi_insert = multi_insert_lines info
lines_of info main lock_updated = lock_updated_lines
lines_of info main new_cid = new_cid_lines
lines_of info main rewrite = rewrite_lines
lines_of info main unknown = unknown_lines main

unfoldable pub describe_heap2_main : ℕ → List ℕ → Option (List Text)
describe_heap2_main info main = run_on (lines_of info main (from_xl_info info)) main

new_cid_lines-Safe : Safe (new_cid_lines)
unfolding new_cid_lines
new_cid_lines-Safe = bind-Safe field_u32-Safe (λ top_xid. bind-Safe field_u32-Safe (λ cmin.
    bind-Safe field_u32-Safe (λ cmax. bind-Safe field_u32-Safe (λ combocid.
      bind-Safe field_u32-Safe (λ spc. bind-Safe field_u32-Safe (λ db.
        bind-Safe field_u32-Safe (λ rel. bind-Safe field_u16-Safe (λ bi_hi.
          bind-Safe field_u16-Safe
            (λ bi_lo. bind-Safe field_u16-Safe (λ posid. pure-Safe _))))))))))

rewrite_lines-Safe : Safe (rewrite_lines)
unfolding rewrite_lines
rewrite_lines-Safe = bind-Safe field_u32-Safe (λ mapped_xid. bind-Safe field_u32-Safe (λ mapped_db.
    bind-Safe field_u32-Safe (λ mapped_rel. then-Safe (skip_bytes-Safe 4) (
      bind-Safe field_i64-Safe (λ offset. bind-Safe field_u32-Safe (λ num_mappings.
        then-Safe (skip_bytes-Safe 4) (bind-Safe field_u64-Safe (λ start_lsn. pure-Safe _))))))))

pub lines_of-Safe : (info : ℕ) (main : List ℕ) (op : Heap2Op) → Safe (lines_of info main op)
unfolding lines_of conflict_horizon_line prune_on_access_lines visible_lines offset_lines
    multi_insert_lines lock_updated_lines unknown_lines
lines_of-Safe info main prune_on_access = search safe_rules depth 60 fits 4000
lines_of-Safe info main prune_vacuum_scan = search safe_rules depth 60 fits 4000
lines_of-Safe info main prune_vacuum_cleanup = search safe_rules depth 60 fits 4000
lines_of-Safe info main visible = search safe_rules depth 60 fits 4000
lines_of-Safe info main multi_insert = search safe_rules depth 60 fits 4000
lines_of-Safe info main lock_updated = search safe_rules depth 60 fits 4000
lines_of-Safe info main new_cid = new_cid_lines-Safe
lines_of-Safe info main rewrite = rewrite_lines-Safe
lines_of-Safe info main unknown = search safe_rules depth 60 fits 4000
