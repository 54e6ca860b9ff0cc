-- ===== src/Desc/Xlog.antt =====
-- src/xlogdesc.rs: the records of the resource manager for the log itself.
pub mod Total
use pg_walview.Prelude.{
  ℕ, ◌+◌, ◌-◌, Option, none, some, List, [], ◌∷◌, ◌++◌, length, take, get_or, ltb, ◌==◌,
  if◌then◌else◌, bit_and, u64_mod,
}
use pg_walview.Prelude.Digits.{codes}
use pg_walview.Prelude.Int.{ℤ, pos, negsuc, times, rem_euclid, as_i64}
use pg_walview.Walmisc.Format.{lsn_format}
use pg_walview.Walmisc.Calendar.{fmt_pg_ts}
use pg_walview.Walmisc.Reader.{until_zero}
use pg_walview.Desc.Reading.{
  ◌>>=◌, ◌>>◌, Text, Parse, pure, field_bool, field_u32, field_i32, field_u64, field_i64,
  skip_bytes, peek, num, int, bool, run_on, panics_on_none,
}
use pg_walview.Desc.Reading.Safe.{
  Safe, bind-Safe, pure-Safe, then-Safe, skip_bytes-Safe, field_bool-Safe, field_u32-Safe,
  field_i32-Safe, field_u64-Safe, field_i64-Safe,
}
use pg_walview.Desc.Reading.{◌>>=◌, ◌>>◌, xlr_rmgr_info_mask}

pub data XlogOp : Type 0 where
  checkpoint_shutdown checkpoint_online noop next_oid switch backup_end parameter_change
        restore_point fpw_change end_of_recovery fpi_for_hint fpi assign_lsn overwrite_cont_record
        checkpoint_redo logical_decoding_status_change unknown :
      XlogOp

abbrev op_of : ℕ → XlogOp
op_of op =
    if op == 0x00
    then checkpoint_shutdown
    else if op == 0x10
    then checkpoint_online
    else if op == 0x20
    then noop
    else if op == 0x30
    then next_oid
    else if op == 0x40
    then switch
    else if op == 0x50
    then backup_end
    else if op == 0x60
    then parameter_change
    else if op == 0x70
    then restore_point
    else if op == 0x80
    then fpw_change
    else if op == 0x90
    then end_of_recovery
    else if op == 0xA0
    then fpi_for_hint
    else if op == 0xB0
    then fpi
    else if op == 0xC0
    then assign_lsn
    else if op == 0xD0
    then overwrite_cont_record
    else if op == 0xE0
    then checkpoint_redo
    else if op == 0xF0
    then logical_decoding_status_change
    else unknown

unfoldable pub from_xl_info : ℕ → XlogOp
from_xl_info info = op_of (bit_and info xlr_rmgr_info_mask)

-- `Display`
unfoldable pub display : XlogOp → Text
display checkpoint_shutdown = codes "CHECKPOINT_SHUTDOWN"
display checkpoint_online = codes "CHECKPOINT_ONLINE"
display noop = codes "NOOP"
display next_oid = codes "NEXTOID"
display switch = codes "SWITCH"
display backup_end = codes "BACKUP_END"
display parameter_change = codes "PARAMETER_CHANGE"
display restore_point = codes "RESTORE_POINT"
display fpw_change = codes "FPW_CHANGE"
display end_of_recovery = codes "END_OF_RECOVERY"
display fpi_for_hint = codes "FPI_FOR_HINT"
display fpi = codes "FPI"
display assign_lsn = codes "ASSIGN_LSN"
display overwrite_cont_record = codes "OVERWRITE_CONTRECORD"
display checkpoint_redo = codes "CHECKPOINT_REDO"
display logical_decoding_status_change = codes "LOGICAL_DECODING_STATUS_CHANGE"
display unknown = codes "Unknown"

-- `i64` arithmetic wraps in a release build.
abbrev wrap_i64 : ℤ → ℤ
wrap_i64 z = as_i64 (rem_euclid z u64_mod)

abbrev pub decode_wal_level : ℤ → Text
decode_wal_level (pos n) =
    get_or (codes "minimal" ∷ codes "replica" ∷ codes "logical" ∷ []) n (codes "unknown")
decode_wal_level (negsuc n) = codes "unknown"

unfoldable pub checkpoint_shutdown_lines : Parse (List Text)
checkpoint_shutdown_lines = do
  redo ← field_u64
  this_tli ← field_u32
  prev_tli ← field_u32
  fpw ← field_bool
  skip_bytes 3
  wal_level ← field_i32
  next_xid ← field_u64
  next_free_oid ← field_u32
  next_multi ← field_u32
  next_multi_off ← field_u32
  oldest_xid ← field_u32
  oldest_xid_db ← field_u32
  oldest_multi ← field_u32
  oldest_multi_db ← field_u32
  skip_bytes 4
  time ← field_i64
  oldest_commit_ts ← field_u32
  newest_commit_ts ← field_u32
  oldest_active_xid ← field_u32
  pure (
      (codes "  redo:               " ++ lsn_format redo)
      ∷ (codes "  ThisTimeLineID:     " ++ num this_tli)
      ∷ (codes "  PrevTimeLineID:     " ++ num prev_tli)
      ∷ (codes "  fullPageWrites:     " ++ bool fpw)
      ∷ (codes "  wal_level:          "
          ++ int wal_level
          ++ codes " ("
          ++ decode_wal_level wal_level
          ++ codes ")")
      ∷ (codes "  nextXid:            " ++ num next_xid)
      ∷ (codes "  nextOid:            " ++ num next_free_oid)
      ∷ (codes "  nextMulti:          " ++ num next_multi)
      ∷ (codes "  nextMultiOffset:    " ++ num next_multi_off)
      ∷ (codes "  oldestXid:          " ++ num oldest_xid)
      ∷ (codes "  oldestXidDB:        " ++ num oldest_xid_db)
      ∷ (codes "  oldestMulti:        " ++ num oldest_multi)
      ∷ (codes "  oldestMultiDB:      " ++ num oldest_multi_db)
      ∷ (codes "  time:               "
          ++ int time
          ++ codes " ("
          ++ fmt_pg_ts (wrap_i64 (times time 1000000))
          ++ codes ")")
      ∷ (codes "  oldestCommitTsXid:  " ++ num oldest_commit_ts)
      ∷ (codes "  newestCommitTsXid:  " ++ num newest_commit_ts)
      ∷ (codes "  oldestActiveXid:    " ++ num oldest_active_xid)
      ∷ [])

unfoldable pub next_oid_lines : Parse (List Text)
next_oid_lines = do oid ← field_u32; pure ((codes "  nextOid: " ++ num oid) ∷ [])

unfoldable pub backup_end_lines : Parse (List Text)
backup_end_lines = do
  start_lsn ← field_u64
  pure ((codes "  startpoint: " ++ lsn_format start_lsn) ∷ [])

unfoldable pub parameter_change_lines : Parse (List Text)
parameter_change_lines = do
  max_conn ← field_i32
  max_workers ← field_i32
  max_wal_senders ← field_i32
  max_prep ← field_i32
  max_locks ← field_i32
  wal_level ← field_i32
  wal_log_hints ← field_bool
  track_cts ← field_bool
  pure (
      (codes "  MaxConnections:          " ++ int max_conn)
      ∷ (codes "  max_worker_processes:    " ++ int max_workers)
      ∷ (codes "  max_wal_senders:         " ++ int max_wal_senders)
      ∷ (codes "  max_prepared_xacts:      " ++ int max_prep)
      ∷ (codes "  max_locks_per_xact:      " ++ int max_locks)
      ∷ (codes "  wal_level:               "
          ++ int wal_level
          ++ codes " ("
          ++ decode_wal_level wal_level
          ++ codes ")")
      ∷ (codes "  wal_log_hints:           " ++ bool wal_log_hints)
      ∷ (codes "  track_commit_timestamp:  " ++ bool track_cts)
      ∷ [])

-- The bytes of the name, up to a zero byte. The slice `[..64]` of a shorter text panics.
unfoldable pub name_of : List ℕ → Option (List ℕ)
name_of bytes =
    let name = until_zero bytes in
    if ltb (length name) (length bytes)
    then some name
    else if ltb (length bytes) 64
    then none
    else some (take 64 bytes)

unfoldable pub restore_point_lines : (List ℕ → Text) → Parse (List Text)
restore_point_lines quoted = do
  rp_time ← field_i64
  name_bytes ← peek 64
  name ← panics_on_none (name_of name_bytes)
  pure (
      (codes "  rp_time: " ++ int rp_time ++ codes " µs  (" ++ fmt_pg_ts rp_time ++ codes ")")
      ∷ (codes "  rp_name: " ++ quoted name)
      ∷ [])

unfoldable pub fpw_change_lines : Parse (List Text)
fpw_change_lines = do fpw ← field_bool; pure ((codes "  fullPageWrites: " ++ bool fpw) ∷ [])

unfoldable pub end_of_recovery_lines : Parse (List Text)
end_of_recovery_lines = do
  end_time ← field_i64
  this_tli ← field_u32
  prev_tli ← field_u32
  wal_level ← field_i32
  pure (
      (codes "  end_time:       "
        ++ int end_time
        ++ codes " µs  ("
        ++ fmt_pg_ts end_time
        ++ codes ")")
      ∷ (codes "  ThisTimeLineID: " ++ num this_tli)
      ∷ (codes "  PrevTimeLineID: " ++ num prev_tli)
      ∷ (codes "  wal_level:      "
          ++ int wal_level
          ++ codes " ("
          ++ decode_wal_level wal_level
          ++ codes ")")
      ∷ [])

unfoldable pub overwrite_cont_record_lines : Parse (List Text)
overwrite_cont_record_lines = do
  ow_lsn ← field_u64
  ow_time ← field_i64
  pure (
      (codes "  overwritten_lsn: " ++ lsn_format ow_lsn)
      ∷ (codes "  overwrite_time:  "
          ++ int ow_time
          ++ codes " µs  ("
          ++ fmt_pg_ts ow_time
          ++ codes ")")
      ∷ [])

unfoldable pub other_lines : List ℕ → Parse (List Text)
other_lines main = pure ((codes "  (" ++ num (length main) ++ codes " bytes)") ∷ [])

unfoldable pub lines_of : (List ℕ → Text) → List ℕ → XlogOp → Parse (List Text)
lines_of quoted main checkpoint_shutdown = checkpoint_shutdown_lines
lines_of quoted main checkpoint_online = checkpoint_shutdown_lines
lines_of quoted main next_oid = next_oid_lines
lines_of quoted main backup_end = backup_end_lines
lines_of quoted main parameter_change = parameter_change_lines
lines_of quoted main restore_point = restore_point_lines quoted
lines_of quoted main fpw_change = fpw_change_lines
lines_of quoted main end_of_recovery = end_of_recovery_lines
lines_of quoted main overwrite_cont_record = overwrite_cont_record_lines
lines_of quoted main op = other_lines main

unfoldable pub describe_xlog_main : (List ℕ → Text) → ℕ → List ℕ → Option (List Text)
describe_xlog_main quoted info main = run_on (lines_of quoted main (from_xl_info info)) main

checkpoint_shutdown_lines-Safe : Safe (checkpoint_shutdown_lines)
unfolding checkpoint_shutdown_lines
checkpoint_shutdown_lines-Safe = bind-Safe field_u64-Safe (λ redo.
    bind-Safe field_u32-Safe (λ this_tli. bind-Safe field_u32-Safe (λ prev_tli.
      bind-Safe field_bool-Safe (λ fpw. then-Safe (skip_bytes-Safe 3) (
        bind-Safe field_i32-Safe (λ wal_level. bind-Safe field_u64-Safe (λ next_xid.
          bind-Safe field_u32-Safe (λ next_free_oid. bind-Safe field_u32-Safe (λ next_multi.
            bind-Safe field_u32-Safe (λ next_multi_off. bind-Safe field_u32-Safe (λ oldest_xid.
              bind-Safe field_u32-Safe (λ oldest_xid_db. bind-Safe field_u32-Safe (λ oldest_multi.
                bind-Safe field_u32-Safe (λ oldest_multi_db. then-Safe (skip_bytes-Safe 4) (
                  bind-Safe field_i64-Safe (λ time. bind-Safe field_u32-Safe (λ oldest_commit_ts.
                    bind-Safe field_u32-Safe (λ newest_commit_ts.
                      bind-Safe field_u32-Safe (λ oldest_active_xid. pure-Safe _)))))))))))))))))))

parameter_change_lines-Safe : Safe (parameter_change_lines)
unfolding parameter_change_lines
parameter_change_lines-Safe = bind-Safe field_i32-Safe (λ max_conn.
    bind-Safe field_i32-Safe (λ max_workers. bind-Safe field_i32-Safe (λ max_wal_senders.
      bind-Safe field_i32-Safe (λ max_prep. bind-Safe field_i32-Safe (λ max_locks.
        bind-Safe field_i32-Safe (λ wal_level.
          bind-Safe field_bool-Safe
            (λ wal_log_hints. bind-Safe field_bool-Safe (λ track_cts. pure-Safe _))))))))
