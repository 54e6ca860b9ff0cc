-- ===== src/Tests/Descriptions.antt =====
-- Descriptions of records, run and applied.
use pg_walview.Prelude.{
  ℕ, ◌+◌, ◌<◌, ◌≡◌, ◌↔◌, refl, true, none, some, List, [], ◌∷◌, ◌++◌, length, has_bits, arith, inl,
}
use pg_walview.Prelude.Digits.{codes}
use pg_walview.Walmisc.Words.{to_le_bytes}
use pg_walview.Rmgr.{heap, xlog, from_u8}
use pg_walview.Walreader.Types.{WalRecordInfo}
use pg_walview.Walreader.Record.{main_data_of}
use pg_walview.Desc.Xlog.{restore_point, from_xl_info as xlog_op}
use pg_walview.Desc.Xlog.Total.{IsUnended, name_bytes}
use pg_walview.Desc.Heap.{display, identify, from_xl_info as heap_op}
use pg_walview.Desc.Heap.BlockData.{describe_heap_block_data}
use pg_walview.Desc.Heap.BlockData.Panics.{asked, describe_heap_block_data-panics}
use pg_walview.Desc.Dispatch.{describe_main_data, record_name}
use pg_walview.Desc.Dispatch.Identify.{record_name-high}
use pg_walview.Desc.Dispatch.Total.{describe_main_data-panics}

-- A record of `raw` whose main data are all of it.
abbrev with_main : ℕ → ℕ → List ℕ → WalRecordInfo
with_main rmid info raw = record {
  lsn = 808;
  xlrec = record {
    xl_tot_len = 28;
    xl_xid = 742;
    xl_prev = 0;
    xl_info = info;
    xl_rmid = rmid;
    xl_crc = 0;
  };
  blocks = [];
  main_len = length raw;
  main_range = some (record { start = 0; end = length raw });
  origin = none;
  top_xid = none;
  crc_ok = true;
  file_ranges = [];
  raw = raw;
}

-- A restore point at time 0 with the name "ab", which is cut off before its zero byte.
abbrev cut_name : List ℕ
cut_name = to_le_bytes 8 0 ++ codes "ab"

-- An update that announces a prefix and a suffix.
abbrev update_main : List ℕ
update_main = to_le_bytes 4 742 ++ to_le_bytes 2 5 ++ 0 ∷ 0x60 ∷ []

abbrev short_block : List ℕ
short_block = 7 ∷ 0 ∷ 9 ∷ []

describe_main_data-panics_example :
    (describe_main_data (λ name. name) (with_main 0 0x70 cut_name) ≡ none)
    ↔ ((from_u8 0 ≡ xlog) × (xlog_op 0x70 ≡ restore_point) × IsUnended (name_bytes cut_name))
unfolding main_data_of
describe_main_data-panics_example =
    describe_main_data-panics (λ name. name) (with_main 0 0x70 cut_name) cut_name refl (omega arith)
      (omega arith)

describe_heap_block_data-panics_example :
    (describe_heap_block_data 0x20 0 short_block (with_main 10 0x20 update_main) ≡ none)
    ↔ (length short_block < asked (has_bits 0x60 0x20) + asked (has_bits 0x60 0x40))
unfolding heap_op main_data_of
describe_heap_block_data-panics_example =
    describe_heap_block_data-panics 0x20 short_block (with_main 10 0x20 update_main) (inl refl)

record_name-high_example : record_name heap 0xCF ≡ record_name heap 0xC0
record_name-high_example = record_name-high heap 0xCF (λ h. cc)

names : record_name heap 0xC0 ≡ codes "HOT_UPDATE+INIT"
unfolding record_name identify display heap_op
names = refl
