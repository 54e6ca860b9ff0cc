-- ===== src/Desc/Smgr.antt =====
-- src/smgrdesc.rs: the records of the resource manager for storage.
use pg_walview.Prelude.{
  ℕ, Option, List, [], ◌∷◌, ◌++◌, length, get_or, ◌==◌, if◌then◌else◌, bit_and, u32_mod,
}
use pg_walview.Prelude.Digits.{codes}
use pg_walview.Prelude.Int.{ℤ, pos, negsuc, rem_euclid}
use pg_walview.Desc.Reading.{
  ◌>>=◌, Text, Parse, pure, field_u32, field_i32, num, int, rel_text, flags_text, run_on,
}
use pg_walview.Desc.Reading.Safe.{Safe, safe_rules}
use pg_walview.Desc.Reading.{◌>>=◌, xlr_rmgr_info_mask}

pub data SmgrOp : Type 0 where
  create truncate unknown : SmgrOp

abbrev op_of : ℕ → SmgrOp
op_of op = if op == 0x10 then create else if op == 0x20 then truncate else unknown

unfoldable pub from_xl_info : ℕ → SmgrOp
from_xl_info info = op_of (bit_and info xlr_rmgr_info_mask)

-- `Display`
unfoldable pub display : SmgrOp → Text
display create = codes "CREATE"
display truncate = codes "TRUNCATE"
display unknown = codes "Unknown"

abbrev pub smgr_truncate_names : List (ℕ × Text)
smgr_truncate_names = (0x1, codes "HEAP") ∷ (0x2, codes "VM") ∷ (0x4, codes "FSM") ∷ []

-- The flags are an `i32`: a negative one is written as its 32 bits.
unfoldable pub decode_smgr_truncate_flags : ℤ → Text
decode_smgr_truncate_flags flags =
    flags_text smgr_truncate_names (codes "|") 4 (rem_euclid flags u32_mod)

abbrev fork_text : ℤ → Text
fork_text (pos n) =
    get_or (codes "main" ∷ codes "fsm" ∷ codes "vm" ∷ codes "init" ∷ []) n (codes "unknown")
fork_text (negsuc n) = codes "unknown"

unfoldable pub create_lines : Parse (List Text)
create_lines = do
  spc ← field_u32
  db ← field_u32
  rel ← field_u32
  fork ← field_i32
  pure (
      (codes "  rlocator: " ++ rel_text spc db rel)
      ∷ (codes "  forkNum:  " ++ int fork ++ codes " (" ++ fork_text fork ++ codes ")")
      ∷ [])

unfoldable pub truncate_lines : Parse (List Text)
truncate_lines = do
  blkno ← field_u32
  spc ← field_u32
  db ← field_u32
  rel ← field_u32
  flags ← field_i32
  pure (
      (codes "  blkno:    " ++ num blkno)
      ∷ (codes "  rlocator: " ++ num spc ++ codes "/" ++ num db ++ codes "/" ++ num rel)
      ∷ (codes "  flags:    " ++ decode_smgr_truncate_flags flags)
      ∷ [])

unfoldable pub unknown_lines : List ℕ → Parse (List Text)
unknown_lines main =
    pure ((codes "  (" ++ num (length main) ++ codes " bytes, unknown smgr op)") ∷ [])

unfoldable pub lines_of : List ℕ → SmgrOp → Parse (List Text)
lines_of main create = create_lines
lines_of main truncate = truncate_lines
lines_of main unknown = unknown_lines main

unfoldable pub describe_smgr_main : ℕ → List ℕ → Option (List Text)
describe_smgr_main info main = run_on (lines_of main (from_xl_info info)) main

pub lines_of-Safe : (main : List ℕ) (op : SmgrOp) → Safe (lines_of main op)
unfolding lines_of create_lines truncate_lines unknown_lines
lines_of-Safe main create = search safe_rules depth 60 fits 4000
lines_of-Safe main truncate = search safe_rules depth 60 fits 4000
lines_of-Safe main unknown = search safe_rules depth 60 fits 4000
