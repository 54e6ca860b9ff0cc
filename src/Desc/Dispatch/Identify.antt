-- ===== src/Desc/Dispatch/Identify.antt =====
-- The name of a record hangs on the high digit of its info byte, for all but the generic records.
use pg_walview.Prelude.{ℕ, ◌*◌, ◌/◌, ◌%◌, ◌≡◌, ◌≢◌, refl, ap, bit_and, arith}
use pg_walview.Prelude.Bits.{bit_and-even}
use pg_walview.Rmgr.{
  RmgrId, unknown_rmgr, from_xl_info as xact_op, xlog, xact, smgr, clog, database, tablespace,
  multi_xact, relmap, standby, heap2, heap, btree, hash, gin, gist, sequence, sp_gist, brin,
  commit_ts, replication_origin, generic, logical_message,
}
use pg_walview.Desc.Dispatch.{record_name}
use pg_walview.Desc.Xlog.{from_xl_info as xlog_op}
use pg_walview.Desc.Smgr.{from_xl_info as smgr_op}
use pg_walview.Desc.Clog.{from_xl_info as clog_op}
use pg_walview.Desc.Database.{from_xl_info as database_op}
use pg_walview.Desc.Tablespace.{from_xl_info as tablespace_op}
use pg_walview.Desc.MultiXact.{from_xl_info as multi_xact_op}
use pg_walview.Desc.Relmap.{from_xl_info as relmap_op}
use pg_walview.Desc.Standby.{from_xl_info as standby_op}
use pg_walview.Desc.Heap2.{identify as heap2_identify, from_xl_info as heap2_op}
use pg_walview.Desc.Heap.{identify as heap_identify, from_xl_info as heap_op}
use pg_walview.Desc.Btree.{from_xl_info as btree_op}
use pg_walview.Desc.Hash.{from_xl_info as hash_op}
use pg_walview.Desc.Gin.{from_xl_info as gin_op}
use pg_walview.Desc.Gist.{from_xl_info as gist_op}
use pg_walview.Desc.Sequence.{from_xl_info as sequence_op}
use pg_walview.Desc.SpGist.{from_xl_info as sp_gist_op}
use pg_walview.Desc.Brin.{identify as brin_identify, from_xl_info as brin_op}
use pg_walview.Desc.CommitTs.{from_xl_info as commit_ts_op}
use pg_walview.Desc.ReplOrigin.{from_xl_info as replication_origin_op}
use pg_walview.Desc.LogicalMsg.{from_xl_info as logical_message_op}

-- The high digit.
abbrev pub high : ℕ → ℕ
high info = info / 16 * 16

-- Four binary digits that a mask does not have.
under_mask :
    (mask a : ℕ)
    → mask % 16 ≡ 0
    → bit_and a mask ≡ bit_and (a / 2 / 2 / 2 / 2) (mask / 2 / 2 / 2 / 2) * 16
under_mask mask a low = omega (
  arith,
  bit_and-even a mask (omega arith),
  bit_and-even (a / 2) (mask / 2) (omega arith),
  bit_and-even (a / 2 / 2) (mask / 2 / 2) (omega arith),
  bit_and-even (a / 2 / 2 / 2) (mask / 2 / 2 / 2) (omega arith),
)

-- A mask of the high digit does not see the low one.
mask_high : (mask info : ℕ) → mask % 16 ≡ 0 → bit_and info mask ≡ bit_and (high info) mask
mask_high mask info low =
    let same : info / 2 / 2 / 2 / 2 ≡ high info / 2 / 2 / 2 / 2 = omega arith in
    omega (
      arith,
      ap (λ n. bit_and n (mask / 2 / 2 / 2 / 2)) same,
      under_mask mask info low,
      under_mask mask (high info) low,
    )

-- Save for generic records, the low four bits of an info byte, which are those of the record header,
-- do not change what a record is called.
pub record_name-high :
    (id : RmgrId) (info : ℕ) → id ≢ generic → record_name id info ≡ record_name id (high info)
unfolding record_name xlog_op xact_op smgr_op clog_op database_op tablespace_op multi_xact_op
    relmap_op standby_op heap2_op heap_op btree_op hash_op gin_op gist_op sequence_op sp_gist_op
    brin_op commit_ts_op replication_origin_op logical_message_op heap2_identify heap_identify
    brin_identify
record_name-high xlog info ne = rw (mask_high 0xF0 info refl) refl
record_name-high xact info ne = rw (mask_high 0x70 info refl) refl
record_name-high smgr info ne = rw (mask_high 0xF0 info refl) refl
record_name-high clog info ne = rw (mask_high 0xF0 info refl) refl
record_name-high database info ne = rw (mask_high 0xF0 info refl) refl
record_name-high tablespace info ne = rw (mask_high 0xF0 info refl) refl
record_name-high multi_xact info ne = rw (mask_high 0xF0 info refl) refl
record_name-high relmap info ne = rw (mask_high 0xF0 info refl) refl
record_name-high standby info ne = rw (mask_high 0xF0 info refl) refl
record_name-high heap2 info ne = rw (mask_high 0x70 info refl, mask_high 0x80 info refl) refl
record_name-high heap info ne = rw (mask_high 0x70 info refl, mask_high 0x80 info refl) refl
record_name-high btree info ne = rw (mask_high 0xF0 info refl) refl
record_name-high hash info ne = rw (mask_high 0xF0 info refl) refl
record_name-high gin info ne = rw (mask_high 0xF0 info refl) refl
record_name-high gist info ne = rw (mask_high 0xF0 info refl) refl
record_name-high sequence info ne = rw (mask_high 0xF0 info refl) refl
record_name-high sp_gist info ne = rw (mask_high 0xF0 info refl) refl
record_name-high brin info ne = rw (mask_high 0x70 info refl, mask_high 0x80 info refl) refl
record_name-high commit_ts info ne = rw (mask_high 0xF0 info refl) refl
record_name-high replication_origin info ne = rw (mask_high 0xF0 info refl) refl
record_name-high generic info ne = absurd (ne refl)
record_name-high logical_message info ne = rw (mask_high 0xF0 info refl) refl
record_name-high (unknown_rmgr id) info ne = refl
