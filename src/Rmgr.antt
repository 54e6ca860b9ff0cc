-- ===== src/Rmgr.antt =====
-- src/rmgr.rs and the operations of src/xactdesc.rs: which resource manager wrote a record, and what
-- a transaction record stands for.
use pg_walview.Prelude.{ℕ, Bool, true, false, bit_and, if◌then◌else◌, ◌==◌}

pub data RmgrId : Type 0 where
  xlog : RmgrId
  xact : RmgrId
  smgr : RmgrId
  clog : RmgrId
  database : RmgrId
  tablespace : RmgrId
  multi_xact : RmgrId
  relmap : RmgrId
  standby : RmgrId
  heap2 : RmgrId
  heap : RmgrId
  btree : RmgrId
  hash : RmgrId
  gin : RmgrId
  gist : RmgrId
  sequence : RmgrId
  sp_gist : RmgrId
  brin : RmgrId
  commit_ts : RmgrId
  replication_origin : RmgrId
  generic : RmgrId
  logical_message : RmgrId
  unknown_rmgr : ℕ → RmgrId

unfoldable pub from_u8 : ℕ → RmgrId
from_u8 id =
    if id == 0
    then xlog
    else if id == 1
    then xact
    else if id == 2
    then smgr
    else if id == 3
    then clog
    else if id == 4
    then database
    else if id == 5
    then tablespace
    else if id == 6
    then multi_xact
    else if id == 7
    then relmap
    else if id == 8
    then standby
    else if id == 9
    then heap2
    else if id == 10
    then heap
    else if id == 11
    then btree
    else if id == 12
    then hash
    else if id == 13
    then gin
    else if id == 14
    then gist
    else if id == 15
    then sequence
    else if id == 16
    then sp_gist
    else if id == 17
    then brin
    else if id == 18
    then commit_ts
    else if id == 19
    then replication_origin
    else if id == 20
    then generic
    else if id == 21
    then logical_message
    else unknown_rmgr id

abbrev pub is_xact : RmgrId → Bool
is_xact xact = true
is_xact r = false

pub data XactOp : Type 0 where
  commit : XactOp
  prepare : XactOp
  abort : XactOp
  commit_prepared : XactOp
  abort_prepared : XactOp
  assignment : XactOp
  invalidations : XactOp
  unknown_op : XactOp

abbrev pub xlog_xact_opmask : ℕ
xlog_xact_opmask = 0x70

abbrev op_of : ℕ → XactOp
op_of op =
    if op == 0x00
    then commit
    else if op == 0x10
    then prepare
    else if op == 0x20
    then abort
    else if op == 0x30
    then commit_prepared
    else if op == 0x40
    then abort_prepared
    else if op == 0x50
    then assignment
    else if op == 0x60
    then invalidations
    else unknown_op

unfoldable pub from_xl_info : ℕ → XactOp
from_xl_info info = op_of (bit_and info xlog_xact_opmask)
