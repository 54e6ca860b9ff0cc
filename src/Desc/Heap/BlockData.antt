-- ===== src/Desc/Heap/BlockData.antt =====
-- `describe_heap_block_data` of src/heapdesc.rs. An index out of range is a panic.
pub mod Panics
use pg_walview.Prelude.{
  ℕ, ◌+◌, ◌-◌, ◌*◌, Bool, true, false, Option, none, some, List, [], ◌∷◌, ◌++◌, length, drop,
  get_elem?, get_or, ltb, leb, ◌==◌, if◌then◌else◌, has_bits,
}
use pg_walview.Prelude.Digits.{codes}
use pg_walview.Walreader.Types.{WalRecordInfo}
use pg_walview.Walreader.Record.{main_data_of}
use pg_walview.Desc.Reading.{Text, num, when}
use pg_walview.Desc.Heap.{HeapOp, insert, update, hot_update, from_xl_info, parse_xl_heap_header}

infixl 5 ◌>>=◌
abbrev pub ◌>>=◌ : {A B : Type 0} → Option A → (A → Option B) → Option B
none >>= f = none
some a >>= f = f a

-- `u16::from_le_bytes([data[i], data[i + 1]])`
unfoldable pub u16_at : List ℕ → ℕ → Option ℕ
u16_at bytes i = do low ← get_elem? bytes i; high ← get_elem? bytes (i + 1); some (low + 256 * high)

-- The length that the flag announces, and where what is behind it begins.
unfoldable pub length_line : Bool → Text → List ℕ → ℕ → Option (List Text × ℕ)
length_line false label bytes offset = some ([], offset)
length_line true label bytes offset = do
  n ← u16_at bytes offset
  some ((label ++ num n ++ codes " bytes") ∷ [], offset + 2)

-- The flags of an update, which are the byte 7 of its main data.
abbrev pub update_flags : Option (List ℕ) → ℕ
update_flags none = 0
update_flags (some main) = if leb 8 (length main) then get_or main 7 0 else 0

-- The header of the tuple and the length of what is behind it, from `offset` on.
unfoldable pub tuple_lines : Text → Text → List ℕ → ℕ → Option (List Text)
tuple_lines heading label bytes offset = do
  rest ← if ltb (length bytes) offset then none else some (drop offset bytes)
  header ← parse_xl_heap_header rest
  let tuple_len = length bytes - (offset + header.1)
  some (
      (heading ∷ header.0)
      ++ when (ltb 0 tuple_len) ((label ++ num tuple_len ++ codes " bytes") ∷ []))

unfoldable pub insert_block : List ℕ → Option (List Text)
insert_block bytes = tuple_lines (codes "  xl_heap_header:") (codes "  tuple data:  ") bytes 0

unfoldable pub update_block : ℕ → List ℕ → Option (List Text)
update_block flags bytes = do
  prefix ← length_line (has_bits flags 0x20) (codes "  prefix_from_old: ") bytes 0
  suffix ← length_line (has_bits flags 0x40) (codes "  suffix_from_old: ") bytes prefix.1
  tuple ← tuple_lines (codes "  new xl_heap_header:") (codes "  new tuple data: ") bytes suffix.1
  some (prefix.0 ++ suffix.0 ++ tuple)

abbrev block_lines : HeapOp → List ℕ → WalRecordInfo → Option (List Text)
block_lines insert bytes info = insert_block bytes
block_lines update bytes info = update_block (update_flags (main_data_of info)) bytes
block_lines hot_update bytes info = update_block (update_flags (main_data_of info)) bytes
block_lines op bytes info = some []

unfoldable pub describe_heap_block_data : ℕ → ℕ → List ℕ → WalRecordInfo → Option (List Text)
describe_heap_block_data xl_info block_idx bytes info =
    let lines = block_lines (from_xl_info xl_info) bytes info in
    if block_idx == 0 then lines else some []
