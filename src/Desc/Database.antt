-- ===== src/Desc/Database.antt =====
-- src/dbdesc.rs: the records of the resource manager for databases.
use pg_walview.Prelude.{ℕ, min, Option, List, [], ◌∷◌, ◌++◌, length, ◌==◌, if◌then◌else◌, bit_and}
use pg_walview.Prelude.Digits.{codes}
use pg_walview.Prelude.Int.{pos_part}
use pg_walview.Desc.Reading.{
  ◌>>=◌, Text, Parse, pure, field_u32, field_i32, each, line_if_u32, num, int, run_on,
}
use pg_walview.Desc.Reading.Safe.{Safe, safe_rules}
use pg_walview.Desc.Reading.{◌>>=◌, xlr_rmgr_info_mask}

pub data DatabaseOp : Type 0 where
  create_file_copy create_wal_log drop unknown : DatabaseOp

abbrev op_of : ℕ → DatabaseOp
op_of op =
    if op == 0x00
    then create_file_copy
    else if op == 0x10
    then create_wal_log
    else if op == 0x20
    then drop
    else unknown

unfoldable pub from_xl_info : ℕ → DatabaseOp
from_xl_info info = op_of (bit_and info xlr_rmgr_info_mask)

-- `Display`
unfoldable pub display : DatabaseOp → Text
display create_file_copy = codes "CREATE_FILE_COPY"
display create_wal_log = codes "CREATE_WAL_LOG"
display drop = codes "DROP"
display unknown = codes "Unknown"

unfoldable pub create_file_copy_lines : Parse (List Text)
create_file_copy_lines = do
  db_id ← field_u32
  ts_id ← field_u32
  src_db_id ← field_u32
  src_ts_id ← field_u32
  pure (
      (codes "  db_id:          " ++ num db_id)
      ∷ (codes "  tablespace_id:  " ++ num ts_id)
      ∷ (codes "  src_db_id:      " ++ num src_db_id)
      ∷ (codes "  src_tablespace: " ++ num src_ts_id)
      ∷ [])

unfoldable pub create_wal_log_lines : Parse (List Text)
create_wal_log_lines = do
  db_id ← field_u32
  ts_id ← field_u32
  pure ((codes "  db_id:         " ++ num db_id) ∷ (codes "  tablespace_id: " ++ num ts_id) ∷ [])

unfoldable pub drop_lines : Parse (List Text)
drop_lines = do
  db_id ← field_u32
  ntablespaces ← field_i32
  let show = min (pos_part ntablespaces) 16
  items ←
      each (λ i. line_if_u32 (λ ts. codes "  tablespace[" ++ num i ++ codes "]: " ++ num ts)) show 0
  pure (
      ((codes "  db_id:        " ++ num db_id)
        ∷ (codes "  ntablespaces: " ++ int ntablespaces)
        ∷ [])
      ++ items)

unfoldable pub unknown_lines : List ℕ → Parse (List Text)
unknown_lines main =
    pure ((codes "  (" ++ num (length main) ++ codes " bytes, unknown database op)") ∷ [])

unfoldable pub lines_of : List ℕ → DatabaseOp → Parse (List Text)
lines_of main create_file_copy = create_file_copy_lines
lines_of main create_wal_log = create_wal_log_lines
lines_of main drop = drop_lines
lines_of main unknown = unknown_lines main

unfoldable pub describe_database_main : ℕ → List ℕ → Option (List Text)
describe_database_main info main = run_on (lines_of main (from_xl_info info)) main

pub lines_of-Safe : (main : List ℕ) (op : DatabaseOp) → Safe (lines_of main op)
unfolding lines_of create_file_copy_lines create_wal_log_lines drop_lines unknown_lines
lines_of-Safe main create_file_copy = search safe_rules depth 60 fits 4000
lines_of-Safe main create_wal_log = search safe_rules depth 60 fits 4000
lines_of-Safe main drop = search safe_rules depth 60 fits 4000
lines_of-Safe main unknown = search safe_rules depth 60 fits 4000
