-- ===== src/Desc/SpGist.antt =====
-- src/spgistdesc.rs: the records of the resource manager for SP-GiST.
use pg_walview.Prelude.{ℕ, ◌==◌, if◌then◌else◌, bit_and}
use pg_walview.Prelude.Digits.{codes}
use pg_walview.Desc.Reading.{Text}
use pg_walview.Desc.Reading.{xlr_rmgr_info_mask}

pub data SpGistOp : Type 0 where
  add_leaf move_leafs add_node split_tuple pick_split vacuum_leaf vacuum_root vacuum_redirect
        unknown :
      SpGistOp

abbrev op_of : ℕ → SpGistOp
op_of op =
    if op == 0x10
    then add_leaf
    else if op == 0x20
    then move_leafs
    else if op == 0x30
    then add_node
    else if op == 0x40
    then split_tuple
    else if op == 0x50
    then pick_split
    else if op == 0x60
    then vacuum_leaf
    else if op == 0x70
    then vacuum_root
    else if op == 0x80
    then vacuum_redirect
    else unknown

unfoldable pub from_xl_info : ℕ → SpGistOp
from_xl_info info = op_of (bit_and info xlr_rmgr_info_mask)

-- `Display`
unfoldable pub display : SpGistOp → Text
display add_leaf = codes "ADD_LEAF"
display move_leafs = codes "MOVE_LEAFS"
display add_node = codes "ADD_NODE"
display split_tuple = codes "SPLIT_TUPLE"
display pick_split = codes "PICKSPLIT"
display vacuum_leaf = codes "VACUUM_LEAF"
display vacuum_root = codes "VACUUM_ROOT"
display vacuum_redirect = codes "VACUUM_REDIRECT"
display unknown = codes "Unknown"
