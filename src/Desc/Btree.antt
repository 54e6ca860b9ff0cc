-- ===== src/Desc/Btree.antt =====
-- src/btdesc.rs: the records of the resource manager for B-tree.
use pg_walview.Prelude.{
  ℕ, Bool, true, false, ◌&&◌, Option, List, [], ◌∷◌, ◌++◌, length, leb, ◌==◌, if◌then◌else◌,
  bit_and,
}
use pg_walview.Prelude.Digits.{codes}
use pg_walview.Desc.Reading.{
  ◌>>=◌, ◌>>◌, Text, Parse, pure, field_bool, field_u16, field_u32, field_u64, skip_bytes,
  bytes_left, num, bool, run_on,
}
use pg_walview.Desc.Reading.Safe.{
  Safe, safe_rules, bind-Safe, pure-Safe, if-Safe, then-Safe, skip_bytes-Safe, field_u32-Safe,
  field_u64-Safe,
}
use pg_walview.Desc.Reading.{◌>>=◌, ◌>>◌, xlr_rmgr_info_mask}

pub data BtreeOp : Type 0 where
  insert_leaf insert_upper insert_meta split_l split_r insert_post dedup delete unlink_page
        unlink_page_meta new_root mark_page_half_dead vacuum reuse_page meta_cleanup unknown :
      BtreeOp

abbrev op_of : ℕ → BtreeOp
op_of op =
    if op == 0x00
    then insert_leaf
    else if op == 0x10
    then insert_upper
    else if op == 0x20
    then insert_meta
    else if op == 0x30
    then split_l
    else if op == 0x40
    then split_r
    else if op == 0x50
    then insert_post
    else if op == 0x60
    then dedup
    else if op == 0x70
    then delete
    else if op == 0x80
    then unlink_page
    else if op == 0x90
    then unlink_page_meta
    else if op == 0xA0
    then new_root
    else if op == 0xB0
    then mark_page_half_dead
    else if op == 0xC0
    then vacuum
    else if op == 0xD0
    then reuse_page
    else if op == 0xE0
    then meta_cleanup
    else unknown

unfoldable pub from_xl_info : ℕ → BtreeOp
from_xl_info info = op_of (bit_and info xlr_rmgr_info_mask)

-- `Display`
unfoldable pub display : BtreeOp → Text
display insert_leaf = codes "INSERT_LEAF"
display insert_upper = codes "INSERT_UPPER"
display insert_meta = codes "INSERT_META"
display split_l = codes "SPLIT_L"
display split_r = codes "SPLIT_R"
display insert_post = codes "INSERT_POST"
display dedup = codes "DEDUP"
display delete = codes "DELETE"
display unlink_page = codes "UNLINK_PAGE"
display unlink_page_meta = codes "UNLINK_PAGE_META"
display new_root = codes "NEWROOT"
display mark_page_half_dead = codes "MARK_PAGE_HALFDEAD"
display vacuum = codes "VACUUM"
display reuse_page = codes "REUSE_PAGE"
display meta_cleanup = codes "META_CLEANUP"
display unknown = codes "Unknown"

unfoldable pub parse_btree_metadata : Parse (List Text)
parse_btree_metadata = do
  version ← field_u32
  root ← field_u32
  level ← field_u32
  fastroot ← field_u32
  fastlevel ← field_u32
  last_cleanup_delpages ← field_u32
  allequalimage ← field_bool
  pure (
      (codes "  meta.version:               " ++ num version)
      ∷ (codes "  meta.root:                  " ++ num root)
      ∷ (codes "  meta.level:                 " ++ num level)
      ∷ (codes "  meta.fastroot:              " ++ num fastroot)
      ∷ (codes "  meta.fastlevel:             " ++ num fastlevel)
      ∷ (codes "  meta.last_cleanup_delpages: " ++ num last_cleanup_delpages)
      ∷ (codes "  meta.allequalimage:         " ++ bool allequalimage)
      ∷ [])

unfoldable pub insert_lines : Bool → Parse (List Text)
insert_lines is_meta = do
  offnum ← field_u16
  left ← bytes_left
  meta ← if is_meta && leb 28 left then parse_btree_metadata else pure []
  pure ((codes "  offnum: " ++ num offnum) ∷ meta)

unfoldable pub split_l_lines : Parse (List Text)
split_l_lines = do
  level ← field_u32
  firstrightoff ← field_u16
  newitemoff ← field_u16
  postingoff ← field_u16
  pure (
      (codes "  level:         " ++ num level)
      ∷ (codes "  firstrightoff: " ++ num firstrightoff)
      ∷ (codes "  newitemoff:    " ++ num newitemoff)
      ∷ (codes "  postingoff:    " ++ num postingoff)
      ∷ [])

unfoldable pub dedup_lines : Parse (List Text)
dedup_lines = do nintervals ← field_u16; pure ((codes "  nintervals: " ++ num nintervals) ∷ [])

unfoldable pub delete_lines : Parse (List Text)
delete_lines = do
  horizon ← field_u32
  ndeleted ← field_u16
  nupdated ← field_u16
  is_catalog ← field_bool
  pure (
      (codes "  snapshotConflictHorizon: " ++ num horizon)
      ∷ (codes "  ndeleted:     " ++ num ndeleted)
      ∷ (codes "  nupdated:     " ++ num nupdated)
      ∷ (codes "  isCatalogRel: " ++ bool is_catalog)
      ∷ [])

unfoldable pub vacuum_lines : Parse (List Text)
vacuum_lines = do
  ndeleted ← field_u16
  nupdated ← field_u16
  pure ((codes "  ndeleted: " ++ num ndeleted) ∷ (codes "  nupdated: " ++ num nupdated) ∷ [])

unfoldable pub mark_page_half_dead_lines : Parse (List Text)
mark_page_half_dead_lines = do
  poffset ← field_u16
  skip_bytes 2
  leafblk ← field_u32
  leftblk ← field_u32
  rightblk ← field_u32
  topparent ← field_u32
  pure (
      (codes "  poffset:   " ++ num poffset)
      ∷ (codes "  leafblk:   " ++ num leafblk)
      ∷ (codes "  leftblk:   " ++ num leftblk)
      ∷ (codes "  rightblk:  " ++ num rightblk)
      ∷ (codes "  topparent: " ++ num topparent)
      ∷ [])

unfoldable pub unlink_page_lines : Bool → Parse (List Text)
unlink_page_lines is_meta = do
  leftsib ← field_u32
  rightsib ← field_u32
  level ← field_u32
  skip_bytes 4
  safexid ← field_u64
  leafleftsib ← field_u32
  leafrightsib ← field_u32
  leaftopparent ← field_u32
  meta ← if is_meta then parse_btree_metadata else pure []
  pure (
      ((codes "  leftsib:       " ++ num leftsib)
        ∷ (codes "  rightsib:      " ++ num rightsib)
        ∷ (codes "  level:         " ++ num level)
        ∷ (codes "  safexid:       " ++ num safexid)
        ∷ (codes "  leafleftsib:   " ++ num leafleftsib)
        ∷ (codes "  leafrightsib:  " ++ num leafrightsib)
        ∷ (codes "  leaftopparent: " ++ num leaftopparent)
        ∷ [])
      ++ meta)

unfoldable pub new_root_lines : Parse (List Text)
new_root_lines = do
  rootblk ← field_u32
  level ← field_u32
  pure ((codes "  rootblk: " ++ num rootblk) ∷ (codes "  level:   " ++ num level) ∷ [])

unfoldable pub reuse_page_lines : Parse (List Text)
reuse_page_lines = do
  spc ← field_u32
  db ← field_u32
  rel ← field_u32
  block ← field_u32
  horizon ← field_u64
  is_catalog ← field_bool
  pure (
      (codes "  locator:                 "
        ++ num spc
        ++ codes "/"
        ++ num db
        ++ codes "/"
        ++ num rel)
      ∷ (codes "  block:                   " ++ num block)
      ∷ (codes "  snapshotConflictHorizon: " ++ num horizon)
      ∷ (codes "  isCatalogRel:            " ++ bool is_catalog)
      ∷ [])

unfoldable pub unknown_lines : List ℕ → Parse (List Text)
unknown_lines main =
    pure ((codes "  (" ++ num (length main) ++ codes " bytes, unknown btree op)") ∷ [])

unfoldable pub lines_of : List ℕ → BtreeOp → Parse (List Text)
lines_of main insert_leaf = insert_lines false
lines_of main insert_upper = insert_lines false
lines_of main insert_meta = insert_lines true
lines_of main insert_post = insert_lines false
lines_of main split_l = split_l_lines
lines_of main split_r = split_l_lines
lines_of main dedup = dedup_lines
lines_of main delete = delete_lines
lines_of main vacuum = vacuum_lines
lines_of main mark_page_half_dead = mark_page_half_dead_lines
lines_of main unlink_page = unlink_page_lines false
lines_of main unlink_page_meta = unlink_page_lines true
lines_of main new_root = new_root_lines
lines_of main reuse_page = reuse_page_lines
lines_of main meta_cleanup = parse_btree_metadata
lines_of main unknown = unknown_lines main

unfoldable pub describe_btree_main : ℕ → List ℕ → Option (List Text)
describe_btree_main info main = run_on (lines_of main (from_xl_info info)) main

parse_btree_metadata-Safe : Safe parse_btree_metadata
unfolding parse_btree_metadata
parse_btree_metadata-Safe = search safe_rules depth 60 fits 4000

unlink_page_lines-Safe : (is_meta : Bool) → Safe (unlink_page_lines is_meta)
unfolding unlink_page_lines
unlink_page_lines-Safe is_meta = bind-Safe field_u32-Safe (λ leftsib.
    bind-Safe field_u32-Safe (λ rightsib. bind-Safe field_u32-Safe (λ level.
      then-Safe (skip_bytes-Safe 4) (
        bind-Safe field_u64-Safe (λ safexid. bind-Safe field_u32-Safe (λ leafleftsib.
          bind-Safe field_u32-Safe (λ leafrightsib. bind-Safe field_u32-Safe (λ leaftopparent.
            bind-Safe (if-Safe _ parse_btree_metadata-Safe (pure-Safe []))
              (λ meta. pure-Safe _)))))))))

pub lines_of-Safe : (main : List ℕ) (op : BtreeOp) → Safe (lines_of main op)
unfolding lines_of insert_lines split_l_lines dedup_lines delete_lines vacuum_lines
    mark_page_half_dead_lines new_root_lines reuse_page_lines unknown_lines
lines_of-Safe main insert_leaf = search safe_rules depth 60 fits 4000
lines_of-Safe main insert_upper = search safe_rules depth 60 fits 4000
lines_of-Safe main insert_meta = search (safe_rules, parse_btree_metadata-Safe) depth 60 fits 4000
lines_of-Safe main insert_post = search safe_rules depth 60 fits 4000
lines_of-Safe main split_l = search safe_rules depth 60 fits 4000
lines_of-Safe main split_r = search safe_rules depth 60 fits 4000
lines_of-Safe main dedup = search safe_rules depth 60 fits 4000
lines_of-Safe main delete = search safe_rules depth 60 fits 4000
lines_of-Safe main vacuum = search safe_rules depth 60 fits 4000
lines_of-Safe main mark_page_half_dead = search safe_rules depth 60 fits 4000
lines_of-Safe main unlink_page = unlink_page_lines-Safe false
lines_of-Safe main unlink_page_meta = unlink_page_lines-Safe true
lines_of-Safe main new_root = search safe_rules depth 60 fits 4000
lines_of-Safe main reuse_page = search safe_rules depth 60 fits 4000
lines_of-Safe main meta_cleanup = parse_btree_metadata-Safe
lines_of-Safe main unknown = search safe_rules depth 60 fits 4000
