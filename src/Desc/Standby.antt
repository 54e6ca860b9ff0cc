-- ===== src/Desc/Standby.antt =====
-- src/standbydesc.rs: the records of the resource manager for standby.
use pg_walview.Prelude.{
  ℕ, ◌-◌, min, Option, List, [], ◌∷◌, ◌++◌, length, ltb, ◌==◌, if◌then◌else◌, bit_and,
}
use pg_walview.Prelude.Digits.{codes}
use pg_walview.Prelude.Int.{pos_part, ◌+ℤ◌, as_i32}
use pg_walview.Desc.Reading.{
  Text, Parse, pure, ◌>>=◌, ◌>>◌, field_bool, field_u32, field_i32, skip_bytes, each, line_if_u32,
  when, num, int, bool, run_on,
}
use pg_walview.Desc.Reading.Safe.{
  Safe, safe_rules, bind-Safe, pure-Safe, then-Safe, skip_bytes-Safe, field_bool-Safe,
  field_u32-Safe, field_i32-Safe, each-Safe, line_if_u32-Safe,
}
use pg_walview.Desc.Reading.{xlr_rmgr_info_mask}

pub data StandbyOp : Type 0 where
  lock running_xacts invalidations unknown : StandbyOp

abbrev op_of : ℕ → StandbyOp
op_of op =
    if op == 0x00
    then lock
    else if op == 0x10
    then running_xacts
    else if op == 0x20
    then invalidations
    else unknown

unfoldable pub from_xl_info : ℕ → StandbyOp
from_xl_info info = op_of (bit_and info xlr_rmgr_info_mask)

-- `Display`
unfoldable pub display : StandbyOp → Text
display lock = codes "LOCK"
display running_xacts = codes "RUNNING_XACTS"
display invalidations = codes "INVALIDATIONS"
display unknown = codes "Unknown"

unfoldable pub lock_lines : Parse (List Text)
lock_lines = do
  nlocks ← field_i32
  let show = min (pos_part nlocks) 16
  items ←
      each
        (λ i. field_u32 >>= λ xid. field_u32 >>= λ db_oid. field_u32 >>= λ rel_oid. pure (
          (codes "  lock["
            ++ num i
            ++ codes "]: xid="
            ++ num xid
            ++ codes " db="
            ++ num db_oid
            ++ codes " rel="
            ++ num rel_oid)
          ∷ []))
        show 0
  pure (((codes "  nlocks: " ++ int nlocks) ∷ []) ++ items)

unfoldable pub xid_lines : ℕ → Parse (List Text)
xid_lines total = do
  items ←
      each (λ i. line_if_u32 (λ xid. codes "  xid[" ++ num i ++ codes "]: " ++ num xid))
        (min total 16) 0
  pure (
      items
      ++ when (ltb 16 total) ((codes "  ... (" ++ num (total - 16) ++ codes " more xids)") ∷ []))

unfoldable pub running_xacts_lines : Parse (List Text)
running_xacts_lines = do
  xcnt ← field_i32
  subxcnt ← field_i32
  overflow ← field_bool
  skip_bytes 3
  next_xid ← field_u32
  oldest_running ← field_u32
  latest_completed ← field_u32
  items ← xid_lines (pos_part (as_i32 (xcnt +ℤ subxcnt)))
  pure (
      ((codes "  xcnt:               " ++ int xcnt)
        ∷ (codes "  subxcnt:            " ++ int subxcnt)
        ∷ (codes "  subxid_overflow:    " ++ bool overflow)
        ∷ (codes "  nextXid:            " ++ num next_xid)
        ∷ (codes "  oldestRunningXid:   " ++ num oldest_running)
        ∷ (codes "  latestCompletedXid: " ++ num latest_completed)
        ∷ [])
      ++ items)

unfoldable pub invalidations_lines : Parse (List Text)
invalidations_lines = do
  db_id ← field_u32
  ts_id ← field_u32
  relcache_inval ← field_bool
  skip_bytes 3
  nmsgs ← field_i32
  pure (
      (codes "  dbId:                  " ++ num db_id)
      ∷ (codes "  tsId:                  " ++ num ts_id)
      ∷ (codes "  relcacheInitFileInval: " ++ bool relcache_inval)
      ∷ (codes "  nmsgs:                 " ++ int nmsgs)
      ∷ [])

unfoldable pub unknown_lines : List ℕ → Parse (List Text)
unknown_lines main =
    pure ((codes "  (" ++ num (length main) ++ codes " bytes, unknown standby op)") ∷ [])

unfoldable pub lines_of : List ℕ → StandbyOp → Parse (List Text)
lines_of main lock = lock_lines
lines_of main running_xacts = running_xacts_lines
lines_of main invalidations = invalidations_lines
lines_of main unknown = unknown_lines main

unfoldable pub describe_standby_main : ℕ → List ℕ → Option (List Text)
describe_standby_main info main = run_on (lines_of main (from_xl_info info)) main

xid_lines-Safe : (total : ℕ) → Safe (xid_lines total)
unfolding xid_lines
xid_lines-Safe total =
    bind-Safe (each-Safe _ (min total 16) 0 (λ i. line_if_u32-Safe _)) (λ items. pure-Safe _)

running_xacts_lines-Safe : Safe (running_xacts_lines)
unfolding running_xacts_lines
running_xacts_lines-Safe = bind-Safe field_i32-Safe (λ xcnt. bind-Safe field_i32-Safe (λ subxcnt.
    bind-Safe field_bool-Safe (λ overflow. then-Safe (skip_bytes-Safe 3) (
      bind-Safe field_u32-Safe (λ next_xid. bind-Safe field_u32-Safe (λ oldest_running.
        bind-Safe field_u32-Safe
          (λ latest_completed. bind-Safe (xid_lines-Safe _) (λ items. pure-Safe _))))))))

pub lines_of-Safe : (main : List ℕ) (op : StandbyOp) → Safe (lines_of main op)
unfolding lines_of lock_lines invalidations_lines unknown_lines
lines_of-Safe main lock = search safe_rules depth 60 fits 4000
lines_of-Safe main running_xacts = running_xacts_lines-Safe
lines_of-Safe main invalidations = search safe_rules depth 60 fits 4000
lines_of-Safe main unknown = search safe_rules depth 60 fits 4000
