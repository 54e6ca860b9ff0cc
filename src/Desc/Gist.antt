-- ===== src/Desc/Gist.antt =====
-- src/gistdesc.rs: the records of the resource manager for GiST.
use pg_walview.Prelude.{ℕ, ◌==◌, if◌then◌else◌, bit_and}
use pg_walview.Prelude.Digits.{codes}
use pg_walview.Desc.Reading.{Text}
use pg_walview.Desc.Reading.{xlr_rmgr_info_mask}

pub data GistOp : Type 0 where
  page_update delete page_reuse page_split page_delete assign_lsn unknown : GistOp

abbrev op_of : ℕ → GistOp
op_of op =
    if op == 0x00
    then page_update
    else if op == 0x10
    then delete
    else if op == 0x20
    then page_reuse
    else if op == 0x30
    then page_split
    else if op == 0x60
    then page_delete
    else if op == 0x70
    then assign_lsn
    else unknown

unfoldable pub from_xl_info : ℕ → GistOp
from_xl_info info = op_of (bit_and info xlr_rmgr_info_mask)

-- `Display`
unfoldable pub display : GistOp → Text
display page_update = codes "PAGE_UPDATE"
display delete = codes "DELETE"
display page_reuse = codes "PAGE_REUSE"
display page_split = codes "PAGE_SPLIT"
display page_delete = codes "PAGE_DELETE"
display assign_lsn = codes "ASSIGN_LSN"
display unknown = codes "Unknown"
