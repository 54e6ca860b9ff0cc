-- ===== src/Desc/Sequence.antt =====
-- src/seqdesc.rs: the records of the resource manager for sequence.
use pg_walview.Prelude.{ℕ, Option, List, [], ◌∷◌, ◌++◌, length, ◌==◌, if◌then◌else◌, bit_and}
use pg_walview.Prelude.Digits.{codes}
use pg_walview.Desc.Reading.{◌>>=◌, Text, Parse, pure, field_u32, bytes_left, num, run_on}
use pg_walview.Desc.Reading.Safe.{Safe, safe_rules}
use pg_walview.Desc.Reading.{◌>>=◌, xlr_rmgr_info_mask}

pub data SequenceOp : Type 0 where
  log unknown : SequenceOp

abbrev op_of : ℕ → SequenceOp
op_of op = if op == 0x00 then log else unknown

unfoldable pub from_xl_info : ℕ → SequenceOp
from_xl_info info = op_of (bit_and info xlr_rmgr_info_mask)

-- `Display`
unfoldable pub display : SequenceOp → Text
display log = codes "LOG"
display unknown = codes "Unknown"

unfoldable pub log_lines : Parse (List Text)
log_lines = do
  spc ← field_u32
  db ← field_u32
  rel ← field_u32
  left ← bytes_left
  pure (
      (codes "  locator:    " ++ num spc ++ codes "/" ++ num db ++ codes "/" ++ num rel)
      ∷ (codes "  tuple data: " ++ num left ++ codes " bytes follow")
      ∷ [])

unfoldable pub unknown_lines : List ℕ → Parse (List Text)
unknown_lines main =
    pure ((codes "  (" ++ num (length main) ++ codes " bytes, unknown sequence op)") ∷ [])

unfoldable pub lines_of : List ℕ → SequenceOp → Parse (List Text)
lines_of main log = log_lines
lines_of main unknown = unknown_lines main

unfoldable pub describe_seq_main : ℕ → List ℕ → Option (List Text)
describe_seq_main info main = run_on (lines_of main (from_xl_info info)) main

pub lines_of-Safe : (main : List ℕ) (op : SequenceOp) → Safe (lines_of main op)
unfolding lines_of log_lines unknown_lines
lines_of-Safe main log = search safe_rules depth 60 fits 4000
lines_of-Safe main unknown = search safe_rules depth 60 fits 4000
