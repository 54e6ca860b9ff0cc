-- ===== src/Desc/CommitTs.antt =====
-- src/committsdesc.rs: the records of the resource manager for commit timestamp.
use pg_walview.Prelude.{
  ℕ, ◌/◌, Option, List, [], ◌∷◌, ◌++◌, length, ltb, leb, ◌==◌, if◌then◌else◌, bit_and,
}
use pg_walview.Prelude.Digits.{codes}
use pg_walview.Walmisc.Calendar.{fmt_pg_ts}
use pg_walview.Desc.Reading.{
  ◌>>=◌, ◌>>◌, Text, Parse, pure, field_u16, field_u32, field_i64, skip_bytes, bytes_left, when,
  num, int, run_on,
}
use pg_walview.Desc.Reading.Safe.{Safe, safe_rules}
use pg_walview.Desc.Reading.{◌>>=◌, ◌>>◌, xlr_rmgr_info_mask}

pub data CommitTsOp : Type 0 where
  zero_page truncate unknown : CommitTsOp

abbrev op_of : ℕ → CommitTsOp
op_of op = if op == 0x00 then zero_page else if op == 0x10 then truncate else unknown

unfoldable pub from_xl_info : ℕ → CommitTsOp
from_xl_info info = op_of (bit_and info xlr_rmgr_info_mask)

-- `Display`
unfoldable pub display : CommitTsOp → Text
display zero_page = codes "ZEROPAGE"
display truncate = codes "TRUNCATE"
display unknown = codes "Unknown"

unfoldable pub timestamp_lines : Parse (List Text)
timestamp_lines = do
  ts ← field_i64
  nodeid ← field_u16
  skip_bytes 2
  mainxid ← field_u32
  left ← bytes_left
  pure (
      ((codes "  timestamp: " ++ int ts ++ codes " µs  (" ++ fmt_pg_ts ts ++ codes ")")
        ∷ (codes "  nodeid:    " ++ num nodeid)
        ∷ (codes "  mainxid:   " ++ num mainxid)
        ∷ [])
      ++ when (ltb 0 (left / 4))
          ((codes "  subxids:   " ++ num (left / 4) ++ codes " entries follow") ∷ []))

unfoldable pub zero_page_lines : List ℕ → Parse (List Text)
zero_page_lines main =
    if leb 14 (length main)
    then timestamp_lines
    else pure ((codes "  (" ++ num (length main) ++ codes " bytes)") ∷ [])

unfoldable pub truncate_lines : Parse (List Text)
truncate_lines = do
  pageno ← field_i64
  oldest_xid ← field_u32
  pure ((codes "  pageno:    " ++ int pageno) ∷ (codes "  oldestXid: " ++ num oldest_xid) ∷ [])

unfoldable pub unknown_lines : List ℕ → Parse (List Text)
unknown_lines main =
    pure ((codes "  (" ++ num (length main) ++ codes " bytes, unknown commit_ts op)") ∷ [])

unfoldable pub lines_of : List ℕ → CommitTsOp → Parse (List Text)
lines_of main zero_page = zero_page_lines main
lines_of main truncate = truncate_lines
lines_of main unknown = unknown_lines main

unfoldable pub describe_commit_ts_main : ℕ → List ℕ → Option (List Text)
describe_commit_ts_main info main = run_on (lines_of main (from_xl_info info)) main

pub lines_of-Safe : (main : List ℕ) (op : CommitTsOp) → Safe (lines_of main op)
unfolding lines_of timestamp_lines zero_page_lines truncate_lines unknown_lines
lines_of-Safe main zero_page = search safe_rules depth 60 fits 4000
lines_of-Safe main truncate = search safe_rules depth 60 fits 4000
lines_of-Safe main unknown = search safe_rules depth 60 fits 4000
