-- ===== src/Desc/Gin.antt =====
-- src/gindesc.rs: the records of the resource manager for GIN.
use pg_walview.Prelude.{ℕ, ◌==◌, if◌then◌else◌, bit_and}
use pg_walview.Prelude.Digits.{codes}
use pg_walview.Desc.Reading.{Text}
use pg_walview.Desc.Reading.{xlr_rmgr_info_mask}

pub data GinOp : Type 0 where
  create_ptree insert split vacuum_page delete_page update_meta_page insert_list_page
        delete_list_page vacuum_data_leaf_page unknown :
      GinOp

abbrev op_of : ℕ → GinOp
op_of op =
    if op == 0x10
    then create_ptree
    else if op == 0x20
    then insert
    else if op == 0x30
    then split
    else if op == 0x40
    then vacuum_page
    else if op == 0x50
    then delete_page
    else if op == 0x60
    then update_meta_page
    else if op == 0x70
    then insert_list_page
    else if op == 0x80
    then delete_list_page
    else if op == 0x90
    then vacuum_data_leaf_page
    else unknown

unfoldable pub from_xl_info : ℕ → GinOp
from_xl_info info = op_of (bit_and info xlr_rmgr_info_mask)

-- `Display`
unfoldable pub display : GinOp → Text
display create_ptree = codes "CREATE_PTREE"
display insert = codes "INSERT"
display split = codes "SPLIT"
display vacuum_page = codes "VACUUM_PAGE"
display delete_page = codes "DELETE_PAGE"
display update_meta_page = codes "UPDATE_META_PAGE"
display insert_list_page = codes "INSERT_LISTPAGE"
display delete_list_page = codes "DELETE_LISTPAGE"
display vacuum_data_leaf_page = codes "VACUUM_DATA_LEAF_PAGE"
display unknown = codes "Unknown"
