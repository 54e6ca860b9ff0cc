-- ===== src/Desc/Dispatch.antt =====
-- src/walmain.rs: which description a record has, by its resource manager, and the texts of the
-- resource managers of src/rmgr.rs.
pub mod Total
pub mod Identify
use pg_walview.Prelude.{ℕ, Option, none, some, List, [], ◌∷◌, ◌++◌, length}
use pg_walview.Prelude.Digits.{codes}
use pg_walview.Rmgr.{
  RmgrId, unknown_rmgr, from_u8, from_xl_info as xact_op, xlog, xact, smgr, clog, database,
  tablespace, multi_xact, relmap, standby, heap2, heap, btree, hash, gin, gist, sequence, sp_gist,
  brin, commit_ts, replication_origin, generic, logical_message,
}
use pg_walview.Walreader.Types.{WalRecordInfo}
use pg_walview.Walreader.Record.{main_data_of, block_data_of}
use pg_walview.Desc.Reading.{Text, num}
use pg_walview.Desc.Xlog.{describe_xlog_main, display as xlog_display, from_xl_info as xlog_op}
use pg_walview.Desc.Xact.{describe_xact_main, display as xact_display}
use pg_walview.Desc.Smgr.{describe_smgr_main, display as smgr_display, from_xl_info as smgr_op}
use pg_walview.Desc.Clog.{describe_clog_main, display as clog_display, from_xl_info as clog_op}
use pg_walview.Desc.Database.{
  describe_database_main, display as database_display, from_xl_info as database_op,
}
use pg_walview.Desc.Tablespace.{
  describe_tablespace_main, display as tablespace_display, from_xl_info as tablespace_op,
}
use pg_walview.Desc.MultiXact.{
  describe_multixact_main, display as multi_xact_display, from_xl_info as multi_xact_op,
}
use pg_walview.Desc.Relmap.{
  describe_relmap_main, display as relmap_display, from_xl_info as relmap_op,
}
use pg_walview.Desc.Standby.{
  describe_standby_main, display as standby_display, from_xl_info as standby_op,
}
use pg_walview.Desc.Heap2.{describe_heap2_main, identify as heap2_identify}
use pg_walview.Desc.Heap.{describe_heap_main, identify as heap_identify}
use pg_walview.Desc.Btree.{describe_btree_main, display as btree_display, from_xl_info as btree_op}
use pg_walview.Desc.Hash.{display as hash_display, from_xl_info as hash_op}
use pg_walview.Desc.Gin.{display as gin_display, from_xl_info as gin_op}
use pg_walview.Desc.Gist.{display as gist_display, from_xl_info as gist_op}
use pg_walview.Desc.Sequence.{
  describe_seq_main, display as sequence_display, from_xl_info as sequence_op,
}
use pg_walview.Desc.SpGist.{display as sp_gist_display, from_xl_info as sp_gist_op}
use pg_walview.Desc.Brin.{identify as brin_identify}
use pg_walview.Desc.CommitTs.{
  describe_commit_ts_main, display as commit_ts_display, from_xl_info as commit_ts_op,
}
use pg_walview.Desc.ReplOrigin.{
  describe_replorigin_main, display as replication_origin_display,
  from_xl_info as replication_origin_op,
}
use pg_walview.Desc.Generic.{display as generic_display, from_xl_info as generic_op}
use pg_walview.Desc.LogicalMsg.{
  describe_logical_msg_main, display as logical_message_display, from_xl_info as logical_message_op,
}
use pg_walview.Desc.Heap.BlockData.{describe_heap_block_data}

-- `Display` of a resource manager
unfoldable pub rmgr_name : RmgrId → Text
rmgr_name xlog = codes "XLOG"
rmgr_name xact = codes "Transaction"
rmgr_name smgr = codes "Storage"
rmgr_name clog = codes "CLOG"
rmgr_name database = codes "Database"
rmgr_name tablespace = codes "Tablespace"
rmgr_name multi_xact = codes "MultiXact"
rmgr_name relmap = codes "RelMap"
rmgr_name standby = codes "Standby"
rmgr_name heap2 = codes "Heap2"
rmgr_name heap = codes "Heap"
rmgr_name btree = codes "Btree"
rmgr_name hash = codes "Hash"
rmgr_name gin = codes "Gin"
rmgr_name gist = codes "Gist"
rmgr_name sequence = codes "Sequence"
rmgr_name sp_gist = codes "SPGist"
rmgr_name brin = codes "BRIN"
rmgr_name commit_ts = codes "CommitTs"
rmgr_name replication_origin = codes "ReplicationOrigin"
rmgr_name generic = codes "Generic"
rmgr_name logical_message = codes "LogicalMessage"
rmgr_name (unknown_rmgr id) = codes "Unknown(" ++ num id ++ codes ")"

-- `{:?}` of a resource manager
unfoldable pub rmgr_debug : RmgrId → Text
rmgr_debug xlog = codes "Xlog"
rmgr_debug xact = codes "Xact"
rmgr_debug smgr = codes "Smgr"
rmgr_debug clog = codes "Clog"
rmgr_debug database = codes "Database"
rmgr_debug tablespace = codes "Tablespace"
rmgr_debug multi_xact = codes "MultiXact"
rmgr_debug relmap = codes "Relmap"
rmgr_debug standby = codes "Standby"
rmgr_debug heap2 = codes "Heap2"
rmgr_debug heap = codes "Heap"
rmgr_debug btree = codes "Btree"
rmgr_debug hash = codes "Hash"
rmgr_debug gin = codes "Gin"
rmgr_debug gist = codes "Gist"
rmgr_debug sequence = codes "Sequence"
rmgr_debug sp_gist = codes "SPGist"
rmgr_debug brin = codes "Brin"
rmgr_debug commit_ts = codes "CommitTs"
rmgr_debug replication_origin = codes "ReplicationOrigin"
rmgr_debug generic = codes "Generic"
rmgr_debug logical_message = codes "LogicalMessage"
rmgr_debug (unknown_rmgr id) = codes "Unknown(" ++ num id ++ codes ")"

-- The match of `describe_main_data`, on main data that is not empty.
unfoldable pub main_lines : (List ℕ → Text) → RmgrId → ℕ → List ℕ → Option (List Text)
main_lines quoted xlog info main = describe_xlog_main quoted info main
main_lines quoted xact info main = describe_xact_main quoted info main
main_lines quoted smgr info main = describe_smgr_main info main
main_lines quoted clog info main = describe_clog_main info main
main_lines quoted database info main = describe_database_main info main
main_lines quoted tablespace info main = describe_tablespace_main quoted info main
main_lines quoted multi_xact info main = describe_multixact_main info main
main_lines quoted relmap info main = describe_relmap_main info main
main_lines quoted standby info main = describe_standby_main info main
main_lines quoted heap2 info main = describe_heap2_main info main
main_lines quoted heap info main = describe_heap_main info main
main_lines quoted btree info main = describe_btree_main info main
main_lines quoted sequence info main = describe_seq_main info main
main_lines quoted commit_ts info main = describe_commit_ts_main info main
main_lines quoted replication_origin info main = describe_replorigin_main info main
main_lines quoted logical_message info main = describe_logical_msg_main quoted info main
main_lines quoted id info main = some (
    (codes "  ("
      ++ num (length main)
      ++ codes " bytes, no parser for "
      ++ rmgr_debug id
      ++ codes ")")
    ∷ [])

abbrev main_or_none : (List ℕ → Text) → RmgrId → ℕ → Option (List ℕ) → Option (List Text)
main_or_none quoted id info none = some (codes "  (no main data)" ∷ [])
main_or_none quoted id info (some []) = some (codes "  (no main data)" ∷ [])
main_or_none quoted id info (some (b ∷ main)) = main_lines quoted id info (b ∷ main)

unfoldable pub describe_main_data : (List ℕ → Text) → WalRecordInfo → Option (List Text)
describe_main_data quoted info =
    main_or_none quoted (from_u8 info.xlrec.xl_rmid) info.xlrec.xl_info (main_data_of info)

unfoldable pub describe_heap2_block_data : List ℕ → Option (List Text)
describe_heap2_block_data bytes = some (
    (codes "  block data: " ++ num (length bytes) ++ codes " bytes (multi-insert tuple data)") ∷ [])

abbrev block_lines : RmgrId → ℕ → ℕ → List ℕ → WalRecordInfo → Option (List Text)
block_lines heap xl_info i bytes info = describe_heap_block_data xl_info i bytes info
block_lines heap2 xl_info i bytes info = describe_heap2_block_data bytes
block_lines id xl_info i bytes info = some []

abbrev block_or_none : RmgrId → ℕ → ℕ → Option (List ℕ) → WalRecordInfo → Option (List Text)
block_or_none id xl_info i none info = some []
block_or_none id xl_info i (some []) info = some []
block_or_none id xl_info i (some (b ∷ bytes)) info = block_lines id xl_info i (b ∷ bytes) info

unfoldable pub describe_block_data : WalRecordInfo → ℕ → Option (List Text)
describe_block_data info i =
    block_or_none (from_u8 info.xlrec.xl_rmid) info.xlrec.xl_info i (block_data_of info i) info

-- What a record is called, by its resource manager and its info byte.
unfoldable pub record_name : RmgrId → ℕ → Text
record_name xlog info = xlog_display (xlog_op info)
record_name xact info = xact_display (xact_op info)
record_name smgr info = smgr_display (smgr_op info)
record_name clog info = clog_display (clog_op info)
record_name database info = database_display (database_op info)
record_name tablespace info = tablespace_display (tablespace_op info)
record_name multi_xact info = multi_xact_display (multi_xact_op info)
record_name relmap info = relmap_display (relmap_op info)
record_name standby info = standby_display (standby_op info)
record_name heap2 info = heap2_identify info
record_name heap info = heap_identify info
record_name btree info = btree_display (btree_op info)
record_name hash info = hash_display (hash_op info)
record_name gin info = gin_display (gin_op info)
record_name gist info = gist_display (gist_op info)
record_name sequence info = sequence_display (sequence_op info)
record_name sp_gist info = sp_gist_display (sp_gist_op info)
record_name brin info = brin_identify info
record_name commit_ts info = commit_ts_display (commit_ts_op info)
record_name replication_origin info = replication_origin_display (replication_origin_op info)
record_name generic info = generic_display (generic_op info)
record_name logical_message info = logical_message_display (logical_message_op info)
record_name (unknown_rmgr id) info = codes "Unknown"

unfoldable pub describe_record : WalRecordInfo → Text
describe_record info = record_name (from_u8 info.xlrec.xl_rmid) info.xlrec.xl_info
