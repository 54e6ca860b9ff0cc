-- ===== src/Desc/Xact.antt =====
-- src/xactdesc.rs: the records of transactions.
pub mod Total
use pg_walview.Prelude.{
  ℕ, ◌+◌, ◌-◌, ◌*◌, ◌%◌, min, Bool, true, false, ◌&&◌, Option, none, some, List, [], ◌∷◌, ◌++◌,
  length, ltb, leb, if◌then◌else◌, has_bits, u64_mod,
}
use pg_walview.Prelude.Digits.{codes, lower_hex}
use pg_walview.Prelude.Int.{ℤ, pos_part}
use pg_walview.Walmisc.Format.{lsn_format}
use pg_walview.Walmisc.Calendar.{fmt_pg_ts}
use pg_walview.Walmisc.Reader.{read_u32_le}
use pg_walview.Rmgr.{
  XactOp, commit, prepare, abort, commit_prepared, abort_prepared, assignment, invalidations,
  unknown_op, from_xl_info,
}
use pg_walview.Desc.Reading.{
  Text, Parse, pure, ◌>>=◌, ◌>>◌, read, field_bool, field_u16, field_u32, field_i32, field_u64,
  field_i64, skip_bytes, cstr, bytes_left, peek, each, line_if_u32, when, as_usize, num, int, bool,
  int_less, flags_text, run_on,
}

-- `Display`
unfoldable pub display : XactOp → Text
display commit = codes "COMMIT"
display prepare = codes "PREPARE"
display abort = codes "ABORT"
display commit_prepared = codes "COMMIT_PREPARED"
display abort_prepared = codes "ABORT_PREPARED"
display assignment = codes "ASSIGNMENT"
display invalidations = codes "INVALIDATION"
display unknown_op = codes "Unknown"

abbrev pub xact_xinfo_names : List (ℕ × Text)
xact_xinfo_names =
    (0x1, codes "HAS_DBINFO")
    ∷ (0x2, codes "HAS_SUBXACTS")
    ∷ (0x4, codes "HAS_RELFILELOCATORS")
    ∷ (0x8, codes "HAS_INVALS")
    ∷ (0x10, codes "HAS_TWOPHASE")
    ∷ (0x20, codes "HAS_ORIGIN")
    ∷ (0x40, codes "HAS_AE_LOCKS")
    ∷ (0x80, codes "HAS_GID")
    ∷ (0x100, codes "HAS_DROPPED_STATS")
    ∷ (0x20000000, codes "APPLY_FEEDBACK")
    ∷ (0x40000000, codes "UPDATE_RELCACHE_FILE")
    ∷ (0x80000000, codes "FORCE_SYNC_COMMIT")
    ∷ []

unfoldable pub decode_xact_xinfo : ℕ → Text
decode_xact_xinfo = flags_text xact_xinfo_names (codes " | ") 8

unfoldable pub db_lines : Parse (List Text)
db_lines = do
  db_id ← field_u32
  ts_id ← field_u32
  pure ((codes "  dbId: " ++ num db_id) ∷ (codes "  tsId: " ++ num ts_id) ∷ [])

-- `(nsubxacts as usize - 8) * 4` wraps in a release build.
unfoldable pub more_subxids : ℤ → Parse (List Text)
more_subxids n =
    if ltb 8 (as_usize n)
    then skip_bytes ((as_usize n - 8) * 4 % u64_mod)
      >> pure ((codes "  ... (" ++ int_less n 8 ++ codes " more subxids)") ∷ [])
    else pure []

unfoldable pub subxact_lines : Parse (List Text)
subxact_lines = do
  nsubxacts ← field_i32
  let show = min (pos_part nsubxacts) 8
  items ←
      each (λ i. line_if_u32 (λ xid. codes "  subxid[" ++ num i ++ codes "]: " ++ num xid)) show 0
  more ← more_subxids nsubxacts
  pure (((codes "  nsubxacts: " ++ int nsubxacts) ∷ []) ++ items ++ more)

-- `(nrels as usize - 8) * 12` wraps in a release build.
unfoldable pub more_rels : ℤ → Parse (List Text)
more_rels n =
    if ltb 8 (as_usize n)
    then skip_bytes ((as_usize n - 8) * 12 % u64_mod)
      >> pure ((codes "  ... (" ++ int_less n 8 ++ codes " more rels)") ∷ [])
    else pure []

unfoldable pub rel_lines : Parse (List Text)
rel_lines = do
  nrels ← field_i32
  let show = min (pos_part nrels) 8
  items ←
      each
        (λ i. field_u32 >>= λ spc. field_u32 >>= λ db. field_u32 >>= λ rel. pure (
          (codes "  rel["
            ++ num i
            ++ codes "]: "
            ++ num spc
            ++ codes "/"
            ++ num db
            ++ codes "/"
            ++ num rel)
          ∷ []))
        show 0
  more ← more_rels nrels
  pure (((codes "  nrels: " ++ int nrels) ∷ []) ++ items ++ more)

unfoldable pub inval_lines : Parse (List Text)
inval_lines = do nmsgs ← field_i32; pure ((codes "  ninvals: " ++ int nmsgs) ∷ [])

unfoldable pub two_phase_lines : Parse (List Text)
two_phase_lines = do xid ← field_u32; pure ((codes "  2pc_xid: " ++ num xid) ∷ [])

unfoldable pub gid_line : (List ℕ → Text) → Parse (List Text)
gid_line quoted = do gid ← cstr; pure ((codes "  gid: " ++ quoted gid) ∷ [])

unfoldable pub origin_lines : Parse (List Text)
origin_lines = do
  origin_lsn ← field_u64
  origin_ts ← field_i64
  pure (
      (codes "  origin_lsn: " ++ lsn_format origin_lsn)
      ∷ (codes "  origin_ts:  "
          ++ int origin_ts
          ++ codes " µs  ("
          ++ fmt_pg_ts origin_ts
          ++ codes ")")
      ∷ [])

abbrev when_flagged : ℕ → ℕ → Parse (List Text) → Parse (List Text)
when_flagged xinfo mask m = if has_bits xinfo mask then m else pure []

unfoldable pub parse_xact_subrecords : (List ℕ → Text) → ℕ → Bool → Parse (List Text)
parse_xact_subrecords quoted xinfo is_commit = do
  db ← when_flagged xinfo 0x01 db_lines
  subxacts ← when_flagged xinfo 0x02 subxact_lines
  rels ← when_flagged xinfo 0x04 rel_lines
  invals ← if is_commit then when_flagged xinfo 0x08 inval_lines else pure []
  two_phase ← when_flagged xinfo 0x10 two_phase_lines
  gid ← when_flagged xinfo 0x80 (gid_line quoted)
  origin ← when_flagged xinfo 0x20 origin_lines
  pure (db ++ subxacts ++ rels ++ invals ++ two_phase ++ gid ++ origin)

-- `if has_info && let Some(xinfo) = r.read_u32_le()`
unfoldable pub xinfo_lines : (List ℕ → Text) → Bool → Option ℕ → Parse (List Text)
xinfo_lines quoted is_commit none = pure []
xinfo_lines quoted is_commit (some xinfo) = do
  parts ← parse_xact_subrecords quoted xinfo is_commit
  pure ((codes "  xinfo:     " ++ decode_xact_xinfo xinfo) ∷ parts)

unfoldable pub with_xinfo : (List ℕ → Text) → Bool → Parse (List Text)
with_xinfo quoted is_commit = do xinfo ← read read_u32_le; xinfo_lines quoted is_commit xinfo

-- A commit or an abort.
unfoldable pub end_lines : (List ℕ → Text) → ℕ → Bool → Parse (List Text)
end_lines quoted info is_commit = do
  xact_time ← field_i64
  more ← if has_bits info 0x80 then with_xinfo quoted is_commit else pure []
  pure (
      (codes "  xact_time: " ++ int xact_time ++ codes " µs  (" ++ fmt_pg_ts xact_time ++ codes ")")
      ∷ more)

unfoldable pub gid_text_line : (List ℕ → Text) → ℕ → Parse (List Text)
gid_text_line quoted gidlen = do
  gid ← peek (gidlen - 1)
  pure ((codes "  gid:          " ++ quoted gid) ∷ [])

unfoldable pub gid_lines : (List ℕ → Text) → ℕ → Parse (List Text)
gid_lines quoted gidlen = do
  left ← bytes_left
  if ltb 0 gidlen && leb gidlen left then gid_text_line quoted gidlen else pure []

unfoldable pub prepare_lines : (List ℕ → Text) → Parse (List Text)
prepare_lines quoted = do
  magic ← field_u32
  total_len ← field_u32
  xid ← field_u32
  database ← field_u32
  prepared_at ← field_i64
  owner ← field_u32
  nsubxacts ← field_i32
  ncommitrels ← field_i32
  nabortrels ← field_i32
  _ ← field_i32
  _ ← field_i32
  ninvalmsgs ← field_i32
  initfileinval ← field_bool
  skip_bytes 1
  gidlen ← field_u16
  origin_lsn ← field_u64
  gid ← gid_lines quoted gidlen
  pure (
      ((codes "  magic:        0x" ++ lower_hex 8 magic)
        ∷ (codes "  total_len:    " ++ num total_len)
        ∷ (codes "  xid:          " ++ num xid)
        ∷ (codes "  database:     " ++ num database)
        ∷ (codes "  prepared_at:  "
            ++ int prepared_at
            ++ codes " µs  ("
            ++ fmt_pg_ts prepared_at
            ++ codes ")")
        ∷ (codes "  owner:        " ++ num owner)
        ∷ (codes "  nsubxacts:    " ++ int nsubxacts)
        ∷ (codes "  ncommitrels:  " ++ int ncommitrels)
        ∷ (codes "  nabortrels:   " ++ int nabortrels)
        ∷ (codes "  ninvalmsgs:   " ++ int ninvalmsgs)
        ∷ (codes "  initfileinval:" ++ bool initfileinval)
        ∷ (codes "  gidlen:       " ++ num gidlen)
        ∷ (codes "  origin_lsn:   " ++ lsn_format origin_lsn)
        ∷ [])
      ++ gid)

unfoldable pub assignment_lines : Parse (List Text)
assignment_lines = do
  xtop ← field_u32
  nsubxacts ← field_i32
  let show = min (pos_part nsubxacts) 16
  items ←
      each (λ i. line_if_u32 (λ xid. codes "  xsub[" ++ num i ++ codes "]:  " ++ num xid)) show 0
  pure (
      ((codes "  xtop:      " ++ num xtop) ∷ (codes "  nsubxacts: " ++ int nsubxacts) ∷ [])
      ++ items
      ++ when (ltb 16 (as_usize nsubxacts))
          ((codes "  ... (" ++ int_less nsubxacts 16 ++ codes " more)") ∷ []))

unfoldable pub invalidations_lines : List ℕ → Parse (List Text)
invalidations_lines main =
    pure ((codes "  (" ++ num (length main) ++ codes " bytes of invalidation messages)") ∷ [])

unfoldable pub unknown_lines : List ℕ → Parse (List Text)
unknown_lines main =
    pure ((codes "  (" ++ num (length main) ++ codes " bytes, unknown xact op)") ∷ [])

unfoldable pub lines_of : (List ℕ → Text) → ℕ → List ℕ → XactOp → Parse (List Text)
lines_of quoted info main commit = end_lines quoted info true
lines_of quoted info main commit_prepared = end_lines quoted info true
lines_of quoted info main abort = end_lines quoted info false
lines_of quoted info main abort_prepared = end_lines quoted info false
lines_of quoted info main prepare = prepare_lines quoted
lines_of quoted info main assignment = assignment_lines
lines_of quoted info main invalidations = invalidations_lines main
lines_of quoted info main unknown_op = unknown_lines main

unfoldable pub describe_xact_main : (List ℕ → Text) → ℕ → List ℕ → Option (List Text)
describe_xact_main quoted info main = run_on (lines_of quoted info main (from_xl_info info)) main
