-- ===== src/Desc/Tablespace.antt =====
-- src/tblspcdesc.rs: the records of the resource manager for tablespaces.
use pg_walview.Prelude.{ℕ, Option, List, [], ◌∷◌, ◌++◌, length, ◌==◌, if◌then◌else◌, bit_and}
use pg_walview.Prelude.Digits.{codes}
use pg_walview.Desc.Reading.{◌>>=◌, Text, Parse, pure, field_u32, cstr, num, run_on}
use pg_walview.Desc.Reading.Safe.{Safe, safe_rules}
use pg_walview.Desc.Reading.{◌>>=◌, xlr_rmgr_info_mask}

pub data TablespaceOp : Type 0 where
  create drop unknown : TablespaceOp

abbrev op_of : ℕ → TablespaceOp
op_of op = if op == 0x00 then create else if op == 0x10 then drop else unknown

unfoldable pub from_xl_info : ℕ → TablespaceOp
from_xl_info info = op_of (bit_and info xlr_rmgr_info_mask)

-- `Display`
unfoldable pub display : TablespaceOp → Text
display create = codes "CREATE"
display drop = codes "DROP"
display unknown = codes "Unknown"

unfoldable pub create_lines : (List ℕ → Text) → Parse (List Text)
create_lines quoted = do
  ts_id ← field_u32
  path ← cstr
  pure ((codes "  ts_id:   " ++ num ts_id) ∷ (codes "  ts_path: " ++ quoted path) ∷ [])

unfoldable pub drop_lines : Parse (List Text)
drop_lines = do ts_id ← field_u32; pure ((codes "  ts_id: " ++ num ts_id) ∷ [])

unfoldable pub unknown_lines : List ℕ → Parse (List Text)
unknown_lines main =
    pure ((codes "  (" ++ num (length main) ++ codes " bytes, unknown tablespace op)") ∷ [])

unfoldable pub lines_of : (List ℕ → Text) → List ℕ → TablespaceOp → Parse (List Text)
lines_of quoted main create = create_lines quoted
lines_of quoted main drop = drop_lines
lines_of quoted main unknown = unknown_lines main

unfoldable pub describe_tablespace_main : (List ℕ → Text) → ℕ → List ℕ → Option (List Text)
describe_tablespace_main quoted info main = run_on (lines_of quoted main (from_xl_info info)) main

pub lines_of-Safe :
    (quoted : List ℕ → Text) (main : List ℕ) (op : TablespaceOp) → Safe (lines_of quoted main op)
unfolding lines_of create_lines drop_lines unknown_lines
lines_of-Safe quoted main create = search safe_rules depth 60 fits 4000
lines_of-Safe quoted main drop = search safe_rules depth 60 fits 4000
lines_of-Safe quoted main unknown = search safe_rules depth 60 fits 4000
