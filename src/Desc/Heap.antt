-- ===== src/Desc/Heap.antt =====
-- src/heapdesc.rs: the records of the resource manager for heap.
pub mod Flags
pub mod Total
pub mod BlockData
use pg_walview.Prelude.{
  ℕ, ◌+◌, ◌-◌, min, Bool, true, false, ◌||◌, Option, some, List, [], ◌∷◌, ◌++◌, length, map, ltb,
  ◌==◌, if◌then◌else◌, bit_and, has_bits,
}
use pg_walview.Prelude.Digits.{codes, lower_hex}
use pg_walview.Walmisc.Reader.{new, read_u8, read_u16_le}
use pg_walview.Desc.Reading.{
  ◌>>=◌, ◌>>◌, Text, Parse, pure, field_u8, field_bool, field_u16, field_u32, field_i32, skip_bytes,
  peek, each, line_if_u32, when, num, int, bool, run_on, panics_on_none, unwrap,
}
use pg_walview.Desc.Heap.Flags.{
  decode_heap_insert_flags, decode_infobits, decode_heap_delete_flags, decode_heap_update_flags,
  decode_t_infomask, decode_t_infomask2,
}

abbrev pub xlog_heap_opmask : ℕ
xlog_heap_opmask = 0x70

abbrev pub xlog_heap_init_page : ℕ
xlog_heap_init_page = 0x80

pub data HeapOp : Type 0 where
  insert delete update truncate hot_update confirm lock inplace unknown : HeapOp

abbrev op_of : ℕ → HeapOp
op_of op =
    if op == 0x00
    then insert
    else if op == 0x10
    then delete
    else if op == 0x20
    then update
    else if op == 0x30
    then truncate
    else if op == 0x40
    then hot_update
    else if op == 0x50
    then confirm
    else if op == 0x60
    then lock
    else if op == 0x70
    then inplace
    else unknown

unfoldable pub from_xl_info : ℕ → HeapOp
from_xl_info info = op_of (bit_and info xlog_heap_opmask)

-- `Display`
unfoldable pub display : HeapOp → Text
display insert = codes "INSERT"
display delete = codes "DELETE"
display update = codes "UPDATE"
display truncate = codes "TRUNCATE"
display hot_update = codes "HOT_UPDATE"
display confirm = codes "CONFIRM"
display lock = codes "LOCK"
display inplace = codes "INPLACE"
display unknown = codes "Unknown"

abbrev pub is_init_page : ℕ → Bool
is_init_page info = has_bits info xlog_heap_init_page

unfoldable pub identify : ℕ → Text
identify info =
    let name = display (from_xl_info info) in
    if is_init_page info then name ++ codes "+INIT" else name

-- The five bytes of an `xl_heap_header`: the lines, and how many bytes they are made of.
unfoldable pub header_fields : Parse (List Text × ℕ)
header_fields = do
  t_infomask2 ← unwrap read_u16_le
  t_infomask ← unwrap read_u16_le
  t_hoff ← unwrap read_u8
  pure (
    (codes "  t_infomask2: " ++ decode_t_infomask2 t_infomask2)
        ∷ (codes "  t_infomask:  " ++ decode_t_infomask t_infomask)
        ∷ (codes "  t_hoff:      " ++ num t_hoff ++ codes " (header size incl. nulls bitmap)")
        ∷ [],
    5,
  )

unfoldable pub parse_xl_heap_header : List ℕ → Option (List Text × ℕ)
parse_xl_heap_header bytes =
    if ltb (length bytes) 5
    then some (codes "  xl_heap_header: (truncated)" ∷ [], 0)
    else run_on header_fields bytes

abbrev indented : List Text → List Text
indented lines = map (λ line. codes "  " ++ line) lines

-- The header of the old tuple, which the flags announce.
unfoldable pub old_header : Bool → Parse (List Text)
old_header false = pure []
old_header true = do
  bytes ← peek 5
  header ← panics_on_none (parse_xl_heap_header bytes)
  pure (codes "  old tuple header:" ∷ indented header.0)

unfoldable pub insert_lines : ℕ → Parse (List Text)
insert_lines info = do
  offnum ← field_u16
  flags ← field_u8
  pure (
      ((codes "  offnum:  " ++ num offnum)
        ∷ (codes "  flags:   " ++ decode_heap_insert_flags flags)
        ∷ [])
      ++ when (has_bits info 0x80) ((codes "  note:    INIT_PAGE (new page)") ∷ [])
      ++ ((codes "  tuple:   (see Block #0 data)") ∷ []))

unfoldable pub delete_lines : Parse (List Text)
delete_lines = do
  xmax ← field_u32
  offnum ← field_u16
  infobits ← field_u8
  flags ← field_u8
  header ← old_header (has_bits flags 0x02 || has_bits flags 0x04)
  pure (
      ((codes "  xmax:         " ++ num xmax)
        ∷ (codes "  offnum:       " ++ num offnum)
        ∷ (codes "  infobits_set: " ++ decode_infobits infobits)
        ∷ (codes "  flags:        " ++ decode_heap_delete_flags flags)
        ∷ [])
      ++ header)

unfoldable pub update_lines : Parse (List Text)
update_lines = do
  old_xmax ← field_u32
  old_offnum ← field_u16
  old_infobits ← field_u8
  flags ← field_u8
  new_xmax ← field_u32
  new_offnum ← field_u16
  header ← old_header (has_bits flags 0x04 || has_bits flags 0x08)
  pure (
      ((codes "  old_xmax:         " ++ num old_xmax)
        ∷ (codes "  old_offnum:       " ++ num old_offnum)
        ∷ (codes "  old_infobits_set: " ++ decode_infobits old_infobits)
        ∷ (codes "  flags:            " ++ decode_heap_update_flags flags)
        ∷ (codes "  new_xmax:         " ++ num new_xmax)
        ∷ (codes "  new_offnum:       " ++ num new_offnum)
        ∷ [])
      ++ header
      ++ ((codes "  new tuple: (see Block #0 data)") ∷ []))

unfoldable pub truncate_lines : Parse (List Text)
truncate_lines = do
  db_id ← field_u32
  nrelids ← field_u32
  flags ← field_u8
  skip_bytes 3
  let show = min nrelids 16
  items ←
      each (λ i. line_if_u32 (λ relid. codes "  relids[" ++ num i ++ codes "]: " ++ num relid)) show
        0
  pure (
      ((codes "  dbId:    " ++ num db_id)
        ∷ (codes "  nrelids: " ++ num nrelids)
        ∷ (codes "  flags:   0x"
            ++ lower_hex 2 flags
            ++ (if has_bits flags 0x01 then codes " CASCADE" else [])
            ++ (if has_bits flags 0x02 then codes " RESTART_SEQS" else []))
        ∷ [])
      ++ items
      ++ when (ltb 16 nrelids)
          ((codes "  ... (" ++ num (nrelids - 16) ++ codes " more relids)") ∷ []))

unfoldable pub confirm_lines : Parse (List Text)
confirm_lines = do
  offnum ← field_u16
  pure ((codes "  offnum:  " ++ num offnum ++ codes " (speculative insertion confirmed)") ∷ [])

unfoldable pub lock_lines : Parse (List Text)
lock_lines = do
  xmax ← field_u32
  offnum ← field_u16
  infobits ← field_u8
  flags ← field_u8
  pure (
      (codes "  xmax:         " ++ num xmax)
      ∷ (codes "  offnum:       " ++ num offnum)
      ∷ (codes "  infobits_set: " ++ decode_infobits infobits)
      ∷ (codes "  flags:        0x"
          ++ lower_hex 2 flags
          ++ (if has_bits flags 0x01 then codes " (ALL_FROZEN_CLEARED)" else []))
      ∷ [])

unfoldable pub inplace_lines : Parse (List Text)
inplace_lines = do
  offnum ← field_u16
  skip_bytes 2
  db_id ← field_u32
  ts_id ← field_u32
  relcache_inval ← field_bool
  skip_bytes 3
  nmsgs ← field_i32
  pure (
      (codes "  offnum:                " ++ num offnum)
      ∷ (codes "  dbId:                  " ++ num db_id)
      ∷ (codes "  tsId:                  " ++ num ts_id)
      ∷ (codes "  relcacheInitFileInval: " ++ bool relcache_inval)
      ∷ (codes "  nmsgs:                 " ++ int nmsgs)
      ∷ [])

unfoldable pub unknown_lines : List ℕ → Parse (List Text)
unknown_lines main =
    pure ((codes "  (" ++ num (length main) ++ codes " bytes, unknown heap op)") ∷ [])

unfoldable pub lines_of : ℕ → List ℕ → HeapOp → Parse (List Text)
lines_of info main insert = insert_lines info
lines_of info main delete = delete_lines
lines_of info main update = update_lines
lines_of info main hot_update = update_lines
lines_of info main truncate = truncate_lines
lines_of info main confirm = confirm_lines
lines_of info main lock = lock_lines
lines_of info main inplace = inplace_lines
lines_of info main unknown = unknown_lines main

unfoldable pub describe_heap_main : ℕ → List ℕ → Option (List Text)
describe_heap_main info main = run_on (lines_of info main (from_xl_info info)) main
