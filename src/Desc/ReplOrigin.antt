-- ===== src/Desc/ReplOrigin.antt =====
-- src/replorigindesc.rs: the records of the resource manager for replication origin.
use pg_walview.Prelude.{ℕ, Option, List, [], ◌∷◌, ◌++◌, length, ◌==◌, if◌then◌else◌, bit_and}
use pg_walview.Prelude.Digits.{codes}
use pg_walview.Walmisc.Format.{lsn_format}
use pg_walview.Desc.Reading.{
  ◌>>=◌, Text, Parse, pure, field_bool, field_u16, field_u64, num, bool, run_on,
}
use pg_walview.Desc.Reading.Safe.{Safe, safe_rules}
use pg_walview.Desc.Reading.{◌>>=◌, xlr_rmgr_info_mask}

pub data ReplOriginOp : Type 0 where
  set drop unknown : ReplOriginOp

abbrev op_of : ℕ → ReplOriginOp
op_of op = if op == 0x00 then set else if op == 0x10 then drop else unknown

unfoldable pub from_xl_info : ℕ → ReplOriginOp
from_xl_info info = op_of (bit_and info xlr_rmgr_info_mask)

-- `Display`
unfoldable pub display : ReplOriginOp → Text
display set = codes "SET"
display drop = codes "DROP"
display unknown = codes "Unknown"

unfoldable pub set_lines : Parse (List Text)
set_lines = do
  remote_lsn ← field_u64
  node_id ← field_u16
  force ← field_bool
  pure (
      (codes "  remote_lsn: " ++ lsn_format remote_lsn)
      ∷ (codes "  node_id:    " ++ num node_id)
      ∷ (codes "  force:      " ++ bool force)
      ∷ [])

unfoldable pub drop_lines : Parse (List Text)
drop_lines = do node_id ← field_u16; pure ((codes "  node_id: " ++ num node_id) ∷ [])

unfoldable pub unknown_lines : List ℕ → Parse (List Text)
unknown_lines main =
    pure ((codes "  (" ++ num (length main) ++ codes " bytes, unknown replorigin op)") ∷ [])

unfoldable pub lines_of : List ℕ → ReplOriginOp → Parse (List Text)
lines_of main set = set_lines
lines_of main drop = drop_lines
lines_of main unknown = unknown_lines main

unfoldable pub describe_replorigin_main : ℕ → List ℕ → Option (List Text)
describe_replorigin_main info main = run_on (lines_of main (from_xl_info info)) main

pub lines_of-Safe : (main : List ℕ) (op : ReplOriginOp) → Safe (lines_of main op)
unfolding lines_of set_lines drop_lines unknown_lines
lines_of-Safe main set = search safe_rules depth 60 fits 4000
lines_of-Safe main drop = search safe_rules depth 60 fits 4000
lines_of-Safe main unknown = search safe_rules depth 60 fits 4000
