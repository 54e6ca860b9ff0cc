-- ===== src/Desc/Xact/Total.antt =====
-- The describing functions of src/xactdesc.rs return.
use pg_walview.Prelude.{
  ℕ, ◌-◌, ◌<◌, Bool, true, false, ◌&&◌, Option, none, some, List, [], ◌++◌, ltb, leb, leb→le,
  has_bits, arith, Bool-cases, inl, inr,
}
use pg_walview.Prelude.Int.{ℤ}
use pg_walview.Rmgr.{
  XactOp, commit, prepare, abort, commit_prepared, abort_prepared, assignment, invalidations,
  unknown_op,
}
use pg_walview.Desc.Reading.{Text, as_usize}
use pg_walview.Desc.Reading.Safe.{
  Safe, safe_rules, max_len, read_u32-Safe, bind-Safe, pure-Safe, then-Safe, skip_bytes-Safe,
  if-Safe, peek-Safe, bytes_left-Safe, field_bool-Safe, field_u16-Safe, field_u32-Safe,
  field_i32-Safe, field_u64-Safe, field_i64-Safe, cstr-Safe, and-false,
}
use pg_walview.Desc.Xact.{
  db_lines, more_subxids, subxact_lines, more_rels, rel_lines, inval_lines, two_phase_lines,
  gid_line, origin_lines, parse_xact_subrecords, xinfo_lines, with_xinfo, end_lines, gid_text_line,
  gid_lines, prepare_lines, assignment_lines, invalidations_lines, unknown_lines, lines_of,
}

more_subxids-Safe : (n : ℤ) → Safe (more_subxids n)
unfolding more_subxids
more_subxids-Safe n =
    if-Safe (ltb 8 (as_usize n)) (then-Safe (skip_bytes-Safe _) (pure-Safe _)) (pure-Safe [])

more_rels-Safe : (n : ℤ) → Safe (more_rels n)
unfolding more_rels
more_rels-Safe n =
    if-Safe (ltb 8 (as_usize n)) (then-Safe (skip_bytes-Safe _) (pure-Safe _)) (pure-Safe [])

db_lines-Safe : Safe db_lines
unfolding db_lines
db_lines-Safe = search safe_rules depth 60 fits 4000

subxact_lines-Safe : Safe subxact_lines
unfolding subxact_lines
subxact_lines-Safe = search (safe_rules, more_subxids-Safe) depth 60 fits 4000

rel_lines-Safe : Safe rel_lines
unfolding rel_lines
rel_lines-Safe = search (safe_rules, more_rels-Safe) depth 60 fits 4000

inval_lines-Safe : Safe inval_lines
unfolding inval_lines
inval_lines-Safe = search safe_rules depth 60 fits 4000

two_phase_lines-Safe : Safe two_phase_lines
unfolding two_phase_lines
two_phase_lines-Safe = search safe_rules depth 60 fits 4000

origin_lines-Safe : Safe origin_lines
unfolding origin_lines
origin_lines-Safe = search safe_rules depth 60 fits 4000

gid_line-Safe : (quoted : List ℕ → Text) → Safe (gid_line quoted)
unfolding gid_line
gid_line-Safe quoted = bind-Safe cstr-Safe (λ gid. pure-Safe _)

parse_xact_subrecords-Safe :
    (quoted : List ℕ → Text) (xinfo : ℕ) (is_commit : Bool)
    → Safe (parse_xact_subrecords quoted xinfo is_commit)
unfolding parse_xact_subrecords
parse_xact_subrecords-Safe quoted xinfo is_commit =
    bind-Safe (if-Safe (has_bits xinfo 0x01) db_lines-Safe (pure-Safe [])) λ db.
      bind-Safe (if-Safe (has_bits xinfo 0x02) subxact_lines-Safe (pure-Safe [])) λ subxacts.
        bind-Safe (if-Safe (has_bits xinfo 0x04) rel_lines-Safe (pure-Safe [])) λ rels.
          bind-Safe
            (if-Safe is_commit (if-Safe (has_bits xinfo 0x08) inval_lines-Safe (pure-Safe []))
              (pure-Safe []))
            λ invals.
              bind-Safe (if-Safe (has_bits xinfo 0x10) two_phase_lines-Safe (pure-Safe []))
                λ two_phase.
                  bind-Safe (if-Safe (has_bits xinfo 0x80) (gid_line-Safe quoted) (pure-Safe []))
                    λ gid.
                      bind-Safe (if-Safe (has_bits xinfo 0x20) origin_lines-Safe (pure-Safe []))
                        λ origin.
                          pure-Safe (db ++ subxacts ++ rels ++ invals ++ two_phase ++ gid ++ origin)

xinfo_lines-Safe :
    (quoted : List ℕ → Text) (is_commit : Bool) (xinfo : Option ℕ)
    → Safe (xinfo_lines quoted is_commit xinfo)
unfolding xinfo_lines
xinfo_lines-Safe quoted is_commit none = pure-Safe []
xinfo_lines-Safe quoted is_commit (some xinfo) =
    bind-Safe (parse_xact_subrecords-Safe quoted xinfo is_commit) (λ parts. pure-Safe _)

end_lines-Safe :
    (quoted : List ℕ → Text) (info : ℕ) (is_commit : Bool) → Safe (end_lines quoted info is_commit)
unfolding end_lines with_xinfo
end_lines-Safe quoted info is_commit = bind-Safe field_i64-Safe λ xact_time.
    bind-Safe
      (if-Safe (has_bits info 0x80) (bind-Safe read_u32-Safe (xinfo_lines-Safe quoted is_commit))
        (pure-Safe []))
      (λ more. pure-Safe _)

gid_text_line-Safe :
    (quoted : List ℕ → Text) (gidlen : ℕ) → gidlen < max_len → Safe (gid_text_line quoted gidlen)
unfolding gid_text_line
gid_text_line-Safe quoted gidlen small =
    bind-Safe (peek-Safe (gidlen - 1) (omega arith)) (λ gid. pure-Safe _)

gid_lines-Safe : (quoted : List ℕ → Text) (gidlen : ℕ) → Safe (gid_lines quoted gidlen)
unfolding gid_lines
gid_lines-Safe quoted gidlen = bytes_left-Safe λ left small. elim (Bool-cases (leb gidlen left)) [
  | inl e ↦
      let fits : gidlen < max_len = omega (arith, small, leb→le gidlen left e) in
      if-Safe (ltb 0 gidlen && leb gidlen left) (gid_text_line-Safe quoted gidlen fits)
        (pure-Safe [])
  | inr e ↦ rw (e, and-false (ltb 0 gidlen)) (pure-Safe [])
]

prepare_lines-Safe : (quoted : List ℕ → Text) → Safe (prepare_lines quoted)
unfolding prepare_lines
prepare_lines-Safe quoted = bind-Safe field_u32-Safe (λ magic.
    bind-Safe field_u32-Safe (λ total_len. bind-Safe field_u32-Safe (λ xid.
      bind-Safe field_u32-Safe (λ database. bind-Safe field_i64-Safe (λ prepared_at.
        bind-Safe field_u32-Safe (λ owner. bind-Safe field_i32-Safe (λ nsubxacts.
          bind-Safe field_i32-Safe (λ ncommitrels. bind-Safe field_i32-Safe (λ nabortrels.
            bind-Safe field_i32-Safe (λ x. bind-Safe field_i32-Safe (λ x.
              bind-Safe field_i32-Safe (λ ninvalmsgs. bind-Safe field_bool-Safe (λ initfileinval.
                then-Safe (skip_bytes-Safe 1) (
                  bind-Safe field_u16-Safe (λ gidlen. bind-Safe field_u64-Safe (λ origin_lsn.
                    bind-Safe (gid_lines-Safe quoted gidlen) (λ gid. pure-Safe _)))))))))))))))))

pub lines_of-Safe :
    (quoted : List ℕ → Text) (info : ℕ) (main : List ℕ) (op : XactOp)
    → Safe (lines_of quoted info main op)
unfolding lines_of assignment_lines invalidations_lines unknown_lines
lines_of-Safe quoted info main commit = end_lines-Safe quoted info true
lines_of-Safe quoted info main commit_prepared = end_lines-Safe quoted info true
lines_of-Safe quoted info main abort = end_lines-Safe quoted info false
lines_of-Safe quoted info main abort_prepared = end_lines-Safe quoted info false
lines_of-Safe quoted info main prepare = prepare_lines-Safe quoted
lines_of-Safe quoted info main assignment = search safe_rules depth 60 fits 4000
lines_of-Safe quoted info main invalidations = pure-Safe _
lines_of-Safe quoted info main unknown_op = pure-Safe _
