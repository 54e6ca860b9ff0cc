-- ===== src/Desc/Hash.antt =====
-- src/hashdesc.rs: the records of the resource manager for hash.
use pg_walview.Prelude.{ℕ, ◌==◌, if◌then◌else◌, bit_and}
use pg_walview.Prelude.Digits.{codes}
use pg_walview.Desc.Reading.{Text}
use pg_walview.Desc.Reading.{xlr_rmgr_info_mask}

pub data HashOp : Type 0 where
  init_meta_page init_bitmap_page insert add_ovfl_page split_allocate_page split_page split_complete
        move_page_contents squeeze_page delete split_cleanup update_meta_page vacuum_one_page
        unknown :
      HashOp

abbrev op_of : ℕ → HashOp
op_of op =
    if op == 0x00
    then init_meta_page
    else if op == 0x10
    then init_bitmap_page
    else if op == 0x20
    then insert
    else if op == 0x30
    then add_ovfl_page
    else if op == 0x40
    then split_allocate_page
    else if op == 0x50
    then split_page
    else if op == 0x60
    then split_complete
    else if op == 0x70
    then move_page_contents
    else if op == 0x80
    then squeeze_page
    else if op == 0x90
    then delete
    else if op == 0xA0
    then split_cleanup
    else if op == 0xB0
    then update_meta_page
    else if op == 0xC0
    then vacuum_one_page
    else unknown

unfoldable pub from_xl_info : ℕ → HashOp
from_xl_info info = op_of (bit_and info xlr_rmgr_info_mask)

-- `Display`
unfoldable pub display : HashOp → Text
display init_meta_page = codes "INIT_META_PAGE"
display init_bitmap_page = codes "INIT_BITMAP_PAGE"
display insert = codes "INSERT"
display add_ovfl_page = codes "ADD_OVFL_PAGE"
display split_allocate_page = codes "SPLIT_ALLOCATE_PAGE"
display split_page = codes "SPLIT_PAGE"
display split_complete = codes "SPLIT_COMPLETE"
display move_page_contents = codes "MOVE_PAGE_CONTENTS"
display squeeze_page = codes "SQUEEZE_PAGE"
display delete = codes "DELETE"
display split_cleanup = codes "SPLIT_CLEANUP"
display update_meta_page = codes "UPDATE_META_PAGE"
display vacuum_one_page = codes "VACUUM_ONE_PAGE"
display unknown = codes "Unknown"
