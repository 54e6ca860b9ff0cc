-- ===== src/Desc/Clog.antt =====
-- src/clogdesc.rs: the records of the resource manager for the commit log.
use pg_walview.Prelude.{ℕ, Option, List, [], ◌∷◌, ◌++◌, length, ◌==◌, if◌then◌else◌, bit_and}
use pg_walview.Prelude.Digits.{codes}
use pg_walview.Desc.Reading.{◌>>=◌, Text, Parse, pure, field_u32, field_i64, num, int, run_on}
use pg_walview.Desc.Reading.Safe.{Safe, safe_rules}
use pg_walview.Desc.Reading.{◌>>=◌, xlr_rmgr_info_mask}

pub data ClogOp : Type 0 where
  zero_page truncate unknown : ClogOp

abbrev op_of : ℕ → ClogOp
op_of op = if op == 0x00 then zero_page else if op == 0x10 then truncate else unknown

unfoldable pub from_xl_info : ℕ → ClogOp
from_xl_info info = op_of (bit_and info xlr_rmgr_info_mask)

-- `Display`
unfoldable pub display : ClogOp → Text
display zero_page = codes "ZEROPAGE"
display truncate = codes "TRUNCATE"
display unknown = codes "Unknown"

unfoldable pub zero_page_lines : Parse (List Text)
zero_page_lines = do pageno ← field_i64; pure ((codes "  pageno: " ++ int pageno) ∷ [])

unfoldable pub truncate_lines : Parse (List Text)
truncate_lines = do
  pageno ← field_i64
  oldest_xact ← field_u32
  oldest_xact_db ← field_u32
  pure (
      (codes "  pageno:       " ++ int pageno)
      ∷ (codes "  oldestXact:   " ++ num oldest_xact)
      ∷ (codes "  oldestXactDB: " ++ num oldest_xact_db)
      ∷ [])

unfoldable pub unknown_lines : List ℕ → Parse (List Text)
unknown_lines main =
    pure ((codes "  (" ++ num (length main) ++ codes " bytes, unknown clog op)") ∷ [])

unfoldable pub lines_of : List ℕ → ClogOp → Parse (List Text)
lines_of main zero_page = zero_page_lines
lines_of main truncate = truncate_lines
lines_of main unknown = unknown_lines main

unfoldable pub describe_clog_main : ℕ → List ℕ → Option (List Text)
describe_clog_main info main = run_on (lines_of main (from_xl_info info)) main

pub lines_of-Safe : (main : List ℕ) (op : ClogOp) → Safe (lines_of main op)
unfolding lines_of zero_page_lines truncate_lines unknown_lines
lines_of-Safe main zero_page = search safe_rules depth 60 fits 4000
lines_of-Safe main truncate = search safe_rules depth 60 fits 4000
lines_of-Safe main unknown = search safe_rules depth 60 fits 4000
