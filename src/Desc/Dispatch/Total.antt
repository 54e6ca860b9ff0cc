-- ===== src/Desc/Dispatch/Total.antt =====
-- Which records have no description, because the code panics.
use pg_walview.Prelude.{
  ℕ, ◌<◌, ◌≡◌, ◌≢◌, ◌↔◌, ◌∙◌, refl, sym, Option, none, some, List, [], ◌∷◌, length, arith,
}
use pg_walview.Rmgr.{
  RmgrId, unknown_rmgr, from_u8, from_xl_info as xact_op, xlog, xact, smgr, clog, database,
  tablespace, multi_xact, relmap, standby, heap2, heap, btree, hash, gin, gist, sequence, sp_gist,
  brin, commit_ts, replication_origin, generic, logical_message,
}
use pg_walview.Walreader.Types.{WalRecordInfo}
use pg_walview.Walreader.Record.{main_data_of}
use pg_walview.Desc.Reading.{Text}
use pg_walview.Desc.Reading.Safe.{max_len, run_on-some}
use pg_walview.Desc.Xlog.{restore_point, from_xl_info as xlog_op}
use pg_walview.Desc.Xlog.Total.{IsUnended, name_bytes, describe_xlog_main-panics}
use pg_walview.Desc.Dispatch.{main_lines, describe_main_data}
use pg_walview.Desc.Xact.{describe_xact_main}
use pg_walview.Desc.Xact.Total.{lines_of-Safe as xact-Safe}
use pg_walview.Desc.Smgr.{describe_smgr_main, from_xl_info as smgr_op, lines_of-Safe as smgr-Safe}
use pg_walview.Desc.Clog.{describe_clog_main, from_xl_info as clog_op, lines_of-Safe as clog-Safe}
use pg_walview.Desc.Database.{
  describe_database_main, from_xl_info as database_op, lines_of-Safe as database-Safe,
}
use pg_walview.Desc.Tablespace.{
  describe_tablespace_main, from_xl_info as tablespace_op, lines_of-Safe as tablespace-Safe,
}
use pg_walview.Desc.MultiXact.{
  describe_multixact_main, from_xl_info as multi_xact_op, lines_of-Safe as multi_xact-Safe,
}
use pg_walview.Desc.Relmap.{
  describe_relmap_main, from_xl_info as relmap_op, lines_of-Safe as relmap-Safe,
}
use pg_walview.Desc.Standby.{
  describe_standby_main, from_xl_info as standby_op, lines_of-Safe as standby-Safe,
}
use pg_walview.Desc.Heap2.{
  describe_heap2_main, from_xl_info as heap2_op, lines_of-Safe as heap2-Safe,
}
use pg_walview.Desc.Heap.{describe_heap_main, from_xl_info as heap_op}
use pg_walview.Desc.Heap.Total.{lines_of-Safe as heap-Safe}
use pg_walview.Desc.Btree.{
  describe_btree_main, from_xl_info as btree_op, lines_of-Safe as btree-Safe,
}
use pg_walview.Desc.Sequence.{
  describe_seq_main, from_xl_info as sequence_op, lines_of-Safe as sequence-Safe,
}
use pg_walview.Desc.CommitTs.{
  describe_commit_ts_main, from_xl_info as commit_ts_op, lines_of-Safe as commit_ts-Safe,
}
use pg_walview.Desc.ReplOrigin.{
  describe_replorigin_main, from_xl_info as replication_origin_op,
  lines_of-Safe as replication_origin-Safe,
}
use pg_walview.Desc.LogicalMsg.{
  describe_logical_msg_main, from_xl_info as logical_message_op,
  lines_of-Safe as logical_message-Safe,
}

-- The description has lines.
abbrev HasLines : Option (List Text) → Type 0
HasLines result = (lines : List Text) × (result ≡ some lines)

some_not_none : (lines : List Text) → ¬ (some lines ≡ none)
some_not_none lines h = cc

main_lines-some :
    (quoted : List ℕ → Text) (id : RmgrId) (info : ℕ) (main : List ℕ)
    → length main < max_len
    → id ≢ xlog
    → HasLines (main_lines quoted id info main)
unfolding main_lines describe_xact_main describe_smgr_main describe_clog_main describe_database_main
    describe_tablespace_main describe_multixact_main describe_relmap_main describe_standby_main
    describe_heap2_main describe_heap_main describe_btree_main describe_seq_main
    describe_commit_ts_main describe_replorigin_main describe_logical_msg_main
main_lines-some quoted xlog info main small ne = absurd (ne refl)
main_lines-some quoted xact info main small ne =
    run_on-some _ main small (xact-Safe quoted info main (xact_op info))
main_lines-some quoted smgr info main small ne =
    run_on-some _ main small (smgr-Safe main (smgr_op info))
main_lines-some quoted clog info main small ne =
    run_on-some _ main small (clog-Safe main (clog_op info))
main_lines-some quoted database info main small ne =
    run_on-some _ main small (database-Safe main (database_op info))
main_lines-some quoted tablespace info main small ne =
    run_on-some _ main small (tablespace-Safe quoted main (tablespace_op info))
main_lines-some quoted multi_xact info main small ne =
    run_on-some _ main small (multi_xact-Safe main (multi_xact_op info))
main_lines-some quoted relmap info main small ne =
    run_on-some _ main small (relmap-Safe main (relmap_op info))
main_lines-some quoted standby info main small ne =
    run_on-some _ main small (standby-Safe main (standby_op info))
main_lines-some quoted heap2 info main small ne =
    run_on-some _ main small (heap2-Safe info main (heap2_op info))
main_lines-some quoted heap info main small ne =
    run_on-some _ main small (heap-Safe info main (heap_op info))
main_lines-some quoted btree info main small ne =
    run_on-some _ main small (btree-Safe main (btree_op info))
main_lines-some quoted hash info main small ne = (_, refl)
main_lines-some quoted gin info main small ne = (_, refl)
main_lines-some quoted gist info main small ne = (_, refl)
main_lines-some quoted sequence info main small ne =
    run_on-some _ main small (sequence-Safe main (sequence_op info))
main_lines-some quoted sp_gist info main small ne = (_, refl)
main_lines-some quoted brin info main small ne = (_, refl)
main_lines-some quoted commit_ts info main small ne =
    run_on-some _ main small (commit_ts-Safe main (commit_ts_op info))
main_lines-some quoted replication_origin info main small ne =
    run_on-some _ main small (replication_origin-Safe main (replication_origin_op info))
main_lines-some quoted generic info main small ne = (_, refl)
main_lines-some quoted logical_message info main small ne =
    run_on-some _ main small (logical_message-Safe quoted main (logical_message_op info))
main_lines-some quoted (unknown_rmgr id) info main small ne = (_, refl)

not_xlog :
    (quoted : List ℕ → Text) (id : RmgrId) (info : ℕ) (main : List ℕ)
    → length main < max_len
    → id ≢ xlog
    → (main_lines quoted id info main ≡ none)
      ↔ ((id ≡ xlog) × (xlog_op info ≡ restore_point) × IsUnended (name_bytes main))
not_xlog quoted id info main small ne =
    let (lines, e) = main_lines-some quoted id info main small ne in
    (λ h. absurd (some_not_none lines (sym e ∙ h)), λ h. absurd (ne h.0))

main_lines-panics :
    (quoted : List ℕ → Text) (id : RmgrId) (info : ℕ) (main : List ℕ)
    → length main < max_len
    → (main_lines quoted id info main ≡ none)
      ↔ ((id ≡ xlog) × (xlog_op info ≡ restore_point) × IsUnended (name_bytes main))
unfolding main_lines
main_lines-panics quoted xlog info main small =
    let panics = describe_xlog_main-panics quoted info main small in
    (λ h. let (op, unended) = panics.0 h in (refl, op, unended), λ h. panics.1 (h.1, h.2))
main_lines-panics quoted xact info main small = not_xlog quoted xact info main small (λ h. cc)
main_lines-panics quoted smgr info main small = not_xlog quoted smgr info main small (λ h. cc)
main_lines-panics quoted clog info main small = not_xlog quoted clog info main small (λ h. cc)
main_lines-panics quoted database info main small =
    not_xlog quoted database info main small (λ h. cc)
main_lines-panics quoted tablespace info main small =
    not_xlog quoted tablespace info main small (λ h. cc)
main_lines-panics quoted multi_xact info main small =
    not_xlog quoted multi_xact info main small (λ h. cc)
main_lines-panics quoted relmap info main small = not_xlog quoted relmap info main small (λ h. cc)
main_lines-panics quoted standby info main small = not_xlog quoted standby info main small (λ h. cc)
main_lines-panics quoted heap2 info main small = not_xlog quoted heap2 info main small (λ h. cc)
main_lines-panics quoted heap info main small = not_xlog quoted heap info main small (λ h. cc)
main_lines-panics quoted btree info main small = not_xlog quoted btree info main small (λ h. cc)
main_lines-panics quoted hash info main small = not_xlog quoted hash info main small (λ h. cc)
main_lines-panics quoted gin info main small = not_xlog quoted gin info main small (λ h. cc)
main_lines-panics quoted gist info main small = not_xlog quoted gist info main small (λ h. cc)
main_lines-panics quoted sequence info main small =
    not_xlog quoted sequence info main small (λ h. cc)
main_lines-panics quoted sp_gist info main small = not_xlog quoted sp_gist info main small (λ h. cc)
main_lines-panics quoted brin info main small = not_xlog quoted brin info main small (λ h. cc)
main_lines-panics quoted commit_ts info main small =
    not_xlog quoted commit_ts info main small (λ h. cc)
main_lines-panics quoted replication_origin info main small =
    not_xlog quoted replication_origin info main small (λ h. cc)
main_lines-panics quoted generic info main small = not_xlog quoted generic info main small (λ h. cc)
main_lines-panics quoted logical_message info main small =
    not_xlog quoted logical_message info main small (λ h. cc)
main_lines-panics quoted (unknown_rmgr id) info main small =
    not_xlog quoted (unknown_rmgr id) info main small (λ h. cc)

-- The description of a record's main data, if it has any and of less than 2^63 bytes, panics for a
-- restore point of the log itself whose name, of less than 64 bytes, has no zero byte, and for no
-- other record.
pub describe_main_data-panics :
    (quoted : List ℕ → Text) (info : WalRecordInfo) (main : List ℕ)
    → main_data_of info ≡ some main
    → 0 < length main
    → length main < max_len
    → (describe_main_data quoted info ≡ none) ↔ (
        (from_u8 info.xlrec.xl_rmid ≡ xlog)
        × (xlog_op info.xlrec.xl_info ≡ restore_point)
        × IsUnended (name_bytes main))
unfolding describe_main_data
describe_main_data-panics quoted info [] e positive small = absurd (omega arith)
describe_main_data-panics quoted info (b ∷ main) e positive small =
    rw e (main_lines-panics quoted (from_u8 info.xlrec.xl_rmid) info.xlrec.xl_info (b ∷ main) small)
