-- ===== src/Desc/LogicalMsg.antt =====
-- src/logicalmsgdesc.rs: the records of the resource manager for logical message.
use pg_walview.Prelude.{
  ℕ, ◌-◌, ◌&&◌, Option, List, [], ◌∷◌, ◌++◌, length, ltb, leb, ◌==◌, if◌then◌else◌, bit_and,
  Bool-cases, inl, inr, leb→le, arith, ◌<◌,
}
use pg_walview.Prelude.Digits.{codes}
use pg_walview.Desc.Reading.{
  ◌>>=◌, ◌>>◌, Text, Parse, pure, field_bool, field_u32, field_u64, skip_bytes, bytes_left, peek,
  num, bool, run_on,
}
use pg_walview.Desc.Reading.Safe.{
  Safe, safe_rules, max_len, bind-Safe, pure-Safe, if-Safe, peek-Safe, bytes_left-Safe, and-false,
}
use pg_walview.Desc.Reading.{◌>>=◌, ◌>>◌, xlr_rmgr_info_mask}

pub data LogicalMsgOp : Type 0 where
  message unknown : LogicalMsgOp

abbrev op_of : ℕ → LogicalMsgOp
op_of op = if op == 0x00 then message else unknown

unfoldable pub from_xl_info : ℕ → LogicalMsgOp
from_xl_info info = op_of (bit_and info xlr_rmgr_info_mask)

-- `Display`
unfoldable pub display : LogicalMsgOp → Text
display message = codes "MESSAGE"
display unknown = codes "Unknown"

unfoldable pub prefix_line : (List ℕ → Text) → ℕ → Parse (List Text)
prefix_line quoted size = do
  bytes ← peek (size - 1)
  pure ((codes "  prefix:        " ++ quoted bytes) ∷ [])

unfoldable pub prefix_lines : (List ℕ → Text) → ℕ → Parse (List Text)
prefix_lines quoted size = do
  left ← bytes_left
  if ltb 0 size && leb size left then prefix_line quoted size else pure []

unfoldable pub message_lines : (List ℕ → Text) → Parse (List Text)
message_lines quoted = do
  db_id ← field_u32
  transactional ← field_bool
  skip_bytes 3
  prefix_size ← field_u64
  message_size ← field_u64
  prefix ← prefix_lines quoted prefix_size
  pure (
      ((codes "  dbId:          " ++ num db_id)
        ∷ (codes "  transactional: " ++ bool transactional)
        ∷ (codes "  prefix_size:   " ++ num prefix_size)
        ∷ (codes "  message_size:  " ++ num message_size)
        ∷ [])
      ++ prefix)

unfoldable pub unknown_lines : List ℕ → Parse (List Text)
unknown_lines main =
    pure ((codes "  (" ++ num (length main) ++ codes " bytes, unknown logical_msg op)") ∷ [])

unfoldable pub lines_of : (List ℕ → Text) → List ℕ → LogicalMsgOp → Parse (List Text)
lines_of quoted main message = message_lines quoted
lines_of quoted main unknown = unknown_lines main

unfoldable pub describe_logical_msg_main : (List ℕ → Text) → ℕ → List ℕ → Option (List Text)
describe_logical_msg_main quoted info main = run_on (lines_of quoted main (from_xl_info info)) main

prefix_line-Safe :
    (quoted : List ℕ → Text) (size : ℕ) → size < max_len → Safe (prefix_line quoted size)
unfolding prefix_line
prefix_line-Safe quoted size small =
    bind-Safe (peek-Safe (size - 1) (omega arith)) (λ bytes. pure-Safe _)

-- The prefix is in the buffer when it is shown.
prefix_lines-Safe : (quoted : List ℕ → Text) (size : ℕ) → Safe (prefix_lines quoted size)
unfolding prefix_lines
prefix_lines-Safe quoted size = bytes_left-Safe λ left small. elim (Bool-cases (leb size left)) [
  | inl e ↦
      let fits : size < max_len = omega (arith, small, leb→le size left e) in
      if-Safe (ltb 0 size && leb size left) (prefix_line-Safe quoted size fits) (pure-Safe [])
  | inr e ↦ rw (e, and-false (ltb 0 size)) (pure-Safe [])
]

pub lines_of-Safe :
    (quoted : List ℕ → Text) (main : List ℕ) (op : LogicalMsgOp) → Safe (lines_of quoted main op)
unfolding lines_of message_lines unknown_lines
lines_of-Safe quoted main message = search (safe_rules, prefix_lines-Safe) depth 60 fits 4000
lines_of-Safe quoted main unknown = search safe_rules depth 60 fits 4000
