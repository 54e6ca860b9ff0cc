-- ===== src/Desc/Brin.antt =====
-- src/brindesc.rs: the records of the resource manager for BRIN.
use pg_walview.Prelude.{ℕ, Bool, ◌++◌, ◌==◌, if◌then◌else◌, bit_and, has_bits}
use pg_walview.Prelude.Digits.{codes}
use pg_walview.Desc.Reading.{Text}

abbrev pub xlog_brin_opmask : ℕ
xlog_brin_opmask = 0x70

abbrev pub xlog_brin_init_page : ℕ
xlog_brin_init_page = 0x80

pub data BrinOp : Type 0 where
  create_index insert update samepage_update revmap_extend desummarize unknown : BrinOp

abbrev op_of : ℕ → BrinOp
op_of op =
    if op == 0x00
    then create_index
    else if op == 0x10
    then insert
    else if op == 0x20
    then update
    else if op == 0x30
    then samepage_update
    else if op == 0x40
    then revmap_extend
    else if op == 0x50
    then desummarize
    else unknown

unfoldable pub from_xl_info : ℕ → BrinOp
from_xl_info info = op_of (bit_and info xlog_brin_opmask)

-- `Display`
unfoldable pub display : BrinOp → Text
display create_index = codes "CREATE_INDEX"
display insert = codes "INSERT"
display update = codes "UPDATE"
display samepage_update = codes "SAMEPAGE_UPDATE"
display revmap_extend = codes "REVMAP_EXTEND"
display desummarize = codes "DESUMMARIZE"
display unknown = codes "Unknown"

abbrev pub is_init_page : ℕ → Bool
is_init_page info = has_bits info xlog_brin_init_page

unfoldable pub identify : ℕ → Text
identify info =
    let name = display (from_xl_info info) in
    if is_init_page info then name ++ codes "+INIT" else name
