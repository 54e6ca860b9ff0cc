-- ===== src/Desc/Xlog/Total.antt =====
-- When the description of a record of the log itself panics: a restore point whose name does not
-- end in the record.
use pg_walview.Prelude.{
  ℕ, ◌≤◌, ◌<◌, ◌≡◌, ◌≢◌, ◌↔◌, ◌⊎◌, ◌∙◌, refl, sym, none, some, List, length, leb, if◌then◌else◌,
  arith, Bool-cases, Option-cases, inl, inr,
}
use pg_walview.Prelude.Int.{ℤ}
use pg_walview.Walmisc.Reader.{
  Reader, new, read_u64_le, read_i64_le, read_le, peek_bytes, until_zero,
}
use pg_walview.Desc.Reading.{Text, ◌>>=◌, field_i64, peek, panics_on_none, run_on}
use pg_walview.Desc.Reading.Safe.{
  Safe, max_len, safe_rules, bind-Safe, then-Safe, pure-Safe, skip_bytes-Safe, field_bool-Safe,
  field_u32-Safe, field_i32-Safe, field_u64-Safe, field_i64-Safe, run_on-some, peek-some,
}
use pg_walview.Desc.Xlog.{
  XlogOp, checkpoint_shutdown, checkpoint_online, noop, next_oid, switch, backup_end,
  parameter_change, restore_point, fpw_change, end_of_recovery, fpi_for_hint, fpi, assign_lsn,
  overwrite_cont_record, checkpoint_redo, logical_decoding_status_change, unknown, from_xl_info,
  checkpoint_shutdown_lines, next_oid_lines, backup_end_lines, parameter_change_lines, name_of,
  restore_point_lines, fpw_change_lines, end_of_recovery_lines, overwrite_cont_record_lines,
  other_lines, lines_of, describe_xlog_main,
}

checkpoint_shutdown_lines-Safe : Safe checkpoint_shutdown_lines
unfolding checkpoint_shutdown_lines
checkpoint_shutdown_lines-Safe = bind-Safe field_u64-Safe (λ redo.
    bind-Safe field_u32-Safe (λ this_tli. bind-Safe field_u32-Safe (λ prev_tli.
      bind-Safe field_bool-Safe (λ fpw. then-Safe (skip_bytes-Safe 3) (
        bind-Safe field_i32-Safe (λ wal_level. bind-Safe field_u64-Safe (λ next_xid.
          bind-Safe field_u32-Safe (λ next_free_oid. bind-Safe field_u32-Safe (λ next_multi.
            bind-Safe field_u32-Safe (λ next_multi_off. bind-Safe field_u32-Safe (λ oldest_xid.
              bind-Safe field_u32-Safe (λ oldest_xid_db. bind-Safe field_u32-Safe (λ oldest_multi.
                bind-Safe field_u32-Safe (λ oldest_multi_db. then-Safe (skip_bytes-Safe 4) (
                  bind-Safe field_i64-Safe (λ time. bind-Safe field_u32-Safe (λ oldest_commit_ts.
                    bind-Safe field_u32-Safe (λ newest_commit_ts.
                      bind-Safe field_u32-Safe (λ oldest_active_xid. pure-Safe _)))))))))))))))))))

parameter_change_lines-Safe : Safe parameter_change_lines
unfolding parameter_change_lines
parameter_change_lines-Safe = bind-Safe field_i32-Safe (λ max_conn.
    bind-Safe field_i32-Safe (λ max_workers. bind-Safe field_i32-Safe (λ max_wal_senders.
      bind-Safe field_i32-Safe (λ max_prep. bind-Safe field_i32-Safe (λ max_locks.
        bind-Safe field_i32-Safe (λ wal_level.
          bind-Safe field_bool-Safe
            (λ wal_log_hints. bind-Safe field_bool-Safe (λ track_cts. pure-Safe _))))))))

lines_of-Safe :
    (quoted : List ℕ → Text) (main : List ℕ) (op : XlogOp)
    → op ≢ restore_point
    → Safe (lines_of quoted main op)
unfolding lines_of next_oid_lines backup_end_lines fpw_change_lines end_of_recovery_lines
    overwrite_cont_record_lines other_lines
lines_of-Safe quoted main checkpoint_shutdown ne = checkpoint_shutdown_lines-Safe
lines_of-Safe quoted main checkpoint_online ne = checkpoint_shutdown_lines-Safe
lines_of-Safe quoted main noop ne = pure-Safe _
lines_of-Safe quoted main next_oid ne = search safe_rules depth 60 fits 4000
lines_of-Safe quoted main switch ne = pure-Safe _
lines_of-Safe quoted main backup_end ne = search safe_rules depth 60 fits 4000
lines_of-Safe quoted main parameter_change ne = parameter_change_lines-Safe
lines_of-Safe quoted main restore_point ne = absurd (ne refl)
lines_of-Safe quoted main fpw_change ne = search safe_rules depth 60 fits 4000
lines_of-Safe quoted main end_of_recovery ne = search safe_rules depth 60 fits 4000
lines_of-Safe quoted main fpi_for_hint ne = pure-Safe _
lines_of-Safe quoted main fpi ne = pure-Safe _
lines_of-Safe quoted main assign_lsn ne = pure-Safe _
lines_of-Safe quoted main overwrite_cont_record ne = search safe_rules depth 60 fits 4000
lines_of-Safe quoted main checkpoint_redo ne = pure-Safe _
lines_of-Safe quoted main logical_decoding_status_change ne = pure-Safe _
lines_of-Safe quoted main unknown ne = pure-Safe _

some_not_none : {A : Type 0} (a : A) → ¬ (some a ≡ none)
some_not_none a h = cc

is_restore_point : (op : XlogOp) → (op ≡ restore_point) ⊎ (op ≢ restore_point)
is_restore_point checkpoint_shutdown = inr (λ h. cc)
is_restore_point checkpoint_online = inr (λ h. cc)
is_restore_point noop = inr (λ h. cc)
is_restore_point next_oid = inr (λ h. cc)
is_restore_point switch = inr (λ h. cc)
is_restore_point backup_end = inr (λ h. cc)
is_restore_point parameter_change = inr (λ h. cc)
is_restore_point restore_point = inl refl
is_restore_point fpw_change = inr (λ h. cc)
is_restore_point end_of_recovery = inr (λ h. cc)
is_restore_point fpi_for_hint = inr (λ h. cc)
is_restore_point fpi = inr (λ h. cc)
is_restore_point assign_lsn = inr (λ h. cc)
is_restore_point overwrite_cont_record = inr (λ h. cc)
is_restore_point checkpoint_redo = inr (λ h. cc)
is_restore_point logical_decoding_status_change = inr (λ h. cc)
is_restore_point unknown = inr (λ h. cc)

-- The bytes that the name is taken from: they follow the time, if the record is long enough for it.
abbrev pub name_start : List ℕ → ℕ
name_start main = if leb 8 (length main) then 8 else 0

abbrev pub name_bytes : List ℕ → List ℕ
name_bytes main = peek_bytes 64 (record { buf = main; pos = name_start main })

-- No zero byte, and less than 64 bytes.
abbrev pub IsUnended : List ℕ → Type 0
IsUnended bytes = (length bytes ≤ length (until_zero bytes)) × (length bytes < 64)

name_of-none : (bytes : List ℕ) → (name_of bytes ≡ none) ↔ IsUnended bytes
unfolding name_of
name_of-none bytes = ground arith

after_time :
    (main : List ℕ)
    → (time : ℤ) × (field_i64 (new main)
        ≡ some (time, record { buf = main; pos = name_start main }))
unfolding field_i64 read_i64_le read_u64_le read_le new
after_time main = elim (Bool-cases (leb 8 (length main))) [
  | inl e ↦ rw e (_, refl)
  | inr e ↦ rw e (_, refl)
]

restore_point-none :
    (quoted : List ℕ → Text) (main : List ℕ)
    → length main < max_len
    → (run_on (restore_point_lines quoted) main ≡ none) ↔ IsUnended (name_bytes main)
unfolding run_on restore_point_lines panics_on_none
restore_point-none quoted main small =
    let (time, e) = after_time main in
    let r : Reader = record { buf = main; pos = name_start main } in
    let peeked : peek 64 r ≡ some (name_bytes main, r) =
      peek-some 64 r (omega arith) (ground arith, small) in
    elim (Option-cases (name_of (name_bytes main))) [
      | inl f ↦
          rw (e, ◌>>=◌, peeked, ◌>>=◌, f) (λ _. (name_of-none (name_bytes main)).0 f, λ _. refl)
      | inr (name, f) ↦
          rw (e, ◌>>=◌, peeked, ◌>>=◌, f)
            (λ h. absurd (cc), λ h. absurd (cc ((name_of-none (name_bytes main)).1 h, f)))
    ]

-- A record of the log itself has a description, unless it is a restore point whose name, of less
-- than 64 bytes, has no zero byte.
pub describe_xlog_main-panics :
    (quoted : List ℕ → Text) (info : ℕ) (main : List ℕ)
    → length main < max_len
    → (describe_xlog_main quoted info main ≡ none)
      ↔ ((from_xl_info info ≡ restore_point) × IsUnended (name_bytes main))
unfolding describe_xlog_main lines_of
describe_xlog_main-panics quoted info main small =
    let unended = restore_point-none quoted main small in
    elim (is_restore_point (from_xl_info info)) [
      | inl e ↦ rw e (λ h. (refl, unended.0 h), λ h. unended.1 h.1)
      | inr ne ↦
          let (lines, f) =
            run_on-some _ main small (lines_of-Safe quoted main (from_xl_info info) ne) in
          (λ h. absurd (some_not_none lines (sym f ∙ h)), λ h. absurd (ne h.0))
    ]
