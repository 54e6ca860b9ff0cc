-- ===== src/Desc/MultiXact.antt =====
-- src/multixactdesc.rs: the records of the resource manager for multixacts.
use pg_walview.Prelude.{
  ℕ, min, Option, List, [], ◌∷◌, ◌++◌, length, get_or, ltb, ◌==◌, if◌then◌else◌, bit_and,
}
use pg_walview.Prelude.Digits.{codes}
use pg_walview.Prelude.Int.{pos_part}
use pg_walview.Desc.Reading.{
  Text, Parse, pure, ◌>>=◌, field_u32, field_i32, field_i64, each, when, as_usize, num, int,
  int_less, run_on,
}
use pg_walview.Desc.Reading.Safe.{Safe, safe_rules}
use pg_walview.Desc.Reading.{xlr_rmgr_info_mask}

pub data MultiXactOp : Type 0 where
  zero_off_page zero_mem_page create_id truncate_id unknown : MultiXactOp

abbrev op_of : ℕ → MultiXactOp
op_of op =
    if op == 0x00
    then zero_off_page
    else if op == 0x10
    then zero_mem_page
    else if op == 0x20
    then create_id
    else if op == 0x30
    then truncate_id
    else unknown

unfoldable pub from_xl_info : ℕ → MultiXactOp
from_xl_info info = op_of (bit_and info xlr_rmgr_info_mask)

-- `Display`
unfoldable pub display : MultiXactOp → Text
display zero_off_page = codes "ZERO_OFF_PAGE"
display zero_mem_page = codes "ZERO_MEM_PAGE"
display create_id = codes "CREATE_ID"
display truncate_id = codes "TRUNCATE_ID"
display unknown = codes "Unknown"

abbrev pub multixact_status : ℕ → Text
multixact_status n =
    get_or
      (codes "ForKeyShare"
        ∷ codes "ForShare"
        ∷ codes "ForNoKeyUpdate"
        ∷ codes "ForUpdate"
        ∷ codes "NoKeyUpdate"
        ∷ codes "Update"
        ∷ [])
      n (codes "unknown")

unfoldable pub zero_page_lines : Text → Parse (List Text)
zero_page_lines kind = do
  pageno ← field_i64
  pure ((codes "  pageno: " ++ int pageno ++ codes " (zero " ++ kind ++ codes " page)") ∷ [])

unfoldable pub create_id_lines : Parse (List Text)
create_id_lines = do
  mid ← field_u32
  moff ← field_u32
  nmembers ← field_i32
  let show = min (pos_part nmembers) 8
  items ←
      each
        (λ i. field_u32 >>= λ xid. field_u32 >>= λ status. pure (
          (codes "  member["
            ++ num i
            ++ codes "]: xid="
            ++ num xid
            ++ codes " status="
            ++ num status
            ++ codes " ("
            ++ multixact_status status
            ++ codes ")")
          ∷ []))
        show 0
  pure (
      ((codes "  mid:      " ++ num mid)
        ∷ (codes "  moff:     " ++ num moff)
        ∷ (codes "  nmembers: " ++ int nmembers)
        ∷ [])
      ++ items
      ++ when (ltb 8 (as_usize nmembers))
          ((codes "  ... (" ++ int_less nmembers 8 ++ codes " more members)") ∷ []))

unfoldable pub truncate_id_lines : Parse (List Text)
truncate_id_lines = do
  oldest_multi_db ← field_u32
  start_trunc_off ← field_u32
  end_trunc_off ← field_u32
  start_trunc_memb ← field_u32
  end_trunc_memb ← field_u32
  pure (
      (codes "  oldestMultiDB:   " ++ num oldest_multi_db)
      ∷ (codes "  startTruncOff:   " ++ num start_trunc_off)
      ∷ (codes "  endTruncOff:     " ++ num end_trunc_off)
      ∷ (codes "  startTruncMemb:  " ++ num start_trunc_memb)
      ∷ (codes "  endTruncMemb:    " ++ num end_trunc_memb)
      ∷ [])

unfoldable pub unknown_lines : List ℕ → Parse (List Text)
unknown_lines main =
    pure ((codes "  (" ++ num (length main) ++ codes " bytes, unknown multixact op)") ∷ [])

unfoldable pub lines_of : List ℕ → MultiXactOp → Parse (List Text)
lines_of main zero_off_page = zero_page_lines (codes "offsets")
lines_of main zero_mem_page = zero_page_lines (codes "members")
lines_of main create_id = create_id_lines
lines_of main truncate_id = truncate_id_lines
lines_of main unknown = unknown_lines main

unfoldable pub describe_multixact_main : ℕ → List ℕ → Option (List Text)
describe_multixact_main info main = run_on (lines_of main (from_xl_info info)) main

pub lines_of-Safe : (main : List ℕ) (op : MultiXactOp) → Safe (lines_of main op)
unfolding lines_of zero_page_lines create_id_lines truncate_id_lines unknown_lines
lines_of-Safe main zero_off_page = search safe_rules depth 60 fits 4000
lines_of-Safe main zero_mem_page = search safe_rules depth 60 fits 4000
lines_of-Safe main create_id = search safe_rules depth 60 fits 4000
lines_of-Safe main truncate_id = search safe_rules depth 60 fits 4000
lines_of-Safe main unknown = search safe_rules depth 60 fits 4000
