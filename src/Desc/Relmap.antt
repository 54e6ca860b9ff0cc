-- ===== src/Desc/Relmap.antt =====
-- src/relmapdesc.rs: the records of the resource manager for relation maps.
use pg_walview.Prelude.{ℕ, Option, List, [], ◌∷◌, ◌++◌, length, ◌==◌, if◌then◌else◌, bit_and}
use pg_walview.Prelude.Digits.{codes}
use pg_walview.Desc.Reading.{◌>>=◌, Text, Parse, pure, field_u32, field_i32, num, int, run_on}
use pg_walview.Desc.Reading.Safe.{Safe, safe_rules}
use pg_walview.Desc.Reading.{◌>>=◌, xlr_rmgr_info_mask}

pub data RelmapOp : Type 0 where
  update unknown : RelmapOp

abbrev op_of : ℕ → RelmapOp
op_of op = if op == 0x00 then update else unknown

unfoldable pub from_xl_info : ℕ → RelmapOp
from_xl_info info = op_of (bit_and info xlr_rmgr_info_mask)

-- `Display`
unfoldable pub display : RelmapOp → Text
display update = codes "UPDATE"
display unknown = codes "Unknown"

unfoldable pub update_lines : Parse (List Text)
update_lines = do
  dbid ← field_u32
  tsid ← field_u32
  nbytes ← field_i32
  pure (
      (codes "  dbid:   " ++ num dbid)
      ∷ (codes "  tsid:   " ++ num tsid)
      ∷ (codes "  nbytes: " ++ int nbytes)
      ∷ [])

unfoldable pub unknown_lines : List ℕ → Parse (List Text)
unknown_lines main =
    pure ((codes "  (" ++ num (length main) ++ codes " bytes, unknown relmap op)") ∷ [])

unfoldable pub lines_of : List ℕ → RelmapOp → Parse (List Text)
lines_of main update = update_lines
lines_of main unknown = unknown_lines main

unfoldable pub describe_relmap_main : ℕ → List ℕ → Option (List Text)
describe_relmap_main info main = run_on (lines_of main (from_xl_info info)) main

pub lines_of-Safe : (main : List ℕ) (op : RelmapOp) → Safe (lines_of main op)
unfolding lines_of update_lines unknown_lines
lines_of-Safe main update = search safe_rules depth 60 fits 4000
lines_of-Safe main unknown = search safe_rules depth 60 fits 4000
