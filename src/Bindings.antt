-- ===== src/Bindings.antt =====
-- What the build takes from the PostgreSQL headers (`crate::bindings`, generated by bindgen): the
-- page magic, the block sizes, the sizes of three C structs, and how a struct is read from memory.
-- The reader takes it as a parameter; `IsLayout` states what src/walmisc.rs relies on, the sizes
-- that its test `record_header_checks` asserts among it.
use pg_walview.Prelude.{ℕ, ◌≤◌, ◌≡◌, refl, List, length, slice}
use pg_walview.Walmisc.Words.{from_le_bytes}

-- `XLogPageHeaderData`
pub record XLogPageHeader : Type 0 where
  pub xlp_magic : ℕ
  pub xlp_info : ℕ
  pub xlp_tli : ℕ
  pub xlp_pageaddr : ℕ
  pub xlp_rem_len : ℕ

-- `XLogLongPageHeaderData`, without the short header that it begins with.
pub record XLogLongPageHeader : Type 0 where
  pub xlp_sysid : ℕ
  pub xlp_seg_size : ℕ
  pub xlp_xlog_blcksz : ℕ

pub record XLogRecord : Type 0 where
  pub xl_tot_len : ℕ
  pub xl_xid : ℕ
  pub xl_prev : ℕ
  pub xl_info : ℕ
  pub xl_rmid : ℕ
  pub xl_crc : ℕ

pub record RelFileLocator : Type 0 where
  pub spc_oid : ℕ
  pub db_oid : ℕ
  pub rel_number : ℕ

pub record Bindings : Type 0 where
  pub xlog_page_magic : ℕ
  pub blcksz : ℕ
  pub default_xlog_blcksz : ℕ
  pub size_of_page_header : ℕ
  pub size_of_long_page_header : ℕ
  pub size_of_xlog_record : ℕ
  pub xlog_record_crc_offset : ℕ
  pub page_header : List ℕ → XLogPageHeader
  pub long_page_header : List ℕ → XLogLongPageHeader
  pub xlog_record : List ℕ → XLogRecord

pub record IsLayout (c : Bindings) : Type 0 where
  pub page_header_size : c.size_of_page_header ≡ 24
  pub long_page_header_size : c.size_of_long_page_header ≡ 40
  pub record_size : c.size_of_xlog_record ≡ 24
  pub crc_offset : c.xlog_record_crc_offset ≡ 20
  pub tot_len_first :
      (bytes : List ℕ)
      → 24 ≤ length bytes
      → (c.xlog_record bytes).xl_tot_len ≡ from_le_bytes (slice 0 4 bytes)

-- A little-endian server of version 18 with the default sizes.
abbrev pub postgres18 : Bindings
postgres18 = record {
  xlog_page_magic = 0xD118;
  blcksz = 8192;
  default_xlog_blcksz = 8192;
  size_of_page_header = 24;
  size_of_long_page_header = 40;
  size_of_xlog_record = 24;
  xlog_record_crc_offset = 20;
  page_header = λ bytes. record {
    xlp_magic = from_le_bytes (slice 0 2 bytes);
    xlp_info = from_le_bytes (slice 2 2 bytes);
    xlp_tli = from_le_bytes (slice 4 4 bytes);
    xlp_pageaddr = from_le_bytes (slice 8 8 bytes);
    xlp_rem_len = from_le_bytes (slice 16 4 bytes);
  };
  long_page_header = λ bytes. record {
    xlp_sysid = from_le_bytes (slice 24 8 bytes);
    xlp_seg_size = from_le_bytes (slice 32 4 bytes);
    xlp_xlog_blcksz = from_le_bytes (slice 36 4 bytes);
  };
  xlog_record = λ bytes. record {
    xl_tot_len = from_le_bytes (slice 0 4 bytes);
    xl_xid = from_le_bytes (slice 4 4 bytes);
    xl_prev = from_le_bytes (slice 8 8 bytes);
    xl_info = from_le_bytes (slice 16 1 bytes);
    xl_rmid = from_le_bytes (slice 17 1 bytes);
    xl_crc = from_le_bytes (slice 20 4 bytes);
  };
}

pub postgres18-IsLayout : IsLayout postgres18
postgres18-IsLayout = record {
  page_header_size = refl;
  long_page_header_size = refl;
  record_size = refl;
  crc_offset = refl;
  tot_len_first = λ bytes h. refl;
}
